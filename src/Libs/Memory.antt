-- ===== src/Libs/Memory.antt =====
-- The memory functions of src/libs/string.c, over a memory that maps an address to its byte.
-- An address is a number; the functions are called on objects that do not reach the end of the
-- address space, so the pointers that they step are not wrapped.
pub mod Copy
use butos.Prelude.{ℕ, zero, suc, ◌+◌, ◌-◌, ◌%◌, Bool, true, false, ◌&&◌, Option, none, some, ◌==◌}
use butos.Prelude.{if◌then◌else◌, not, sub32}

-- The byte at each address.
abbrev pub Memory : Type 0
Memory = ℕ → ℕ

-- `*p = v`
abbrev pub store : Memory → ℕ → ℕ → Memory
store mem p v a = if a == p then v else mem a

-- `while (n-->0) *dest_++ = *src_++;`
unfoldable pub memcpy : Memory → ℕ → ℕ → ℕ → Memory
memcpy mem dest src zero = mem
memcpy mem dest src (suc n) = memcpy (store mem dest (mem src)) (dest + 1) (src + 1) n

-- `while (n-->0) *p++ = c;` with the conversion of `c` to a byte.
unfoldable pub memset : Memory → ℕ → ℕ → ℕ → Memory
memset mem s c zero = mem
memset mem s c (suc n) = memset (store mem s (c % 256)) (s + 1) c n
