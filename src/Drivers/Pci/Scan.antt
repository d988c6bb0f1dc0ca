-- ===== src/Drivers/Pci/Scan.antt =====
-- What pci.c finds on the bus.
use butos.Prelude.{
  ℕ, zero, suc, ◌+◌, ◌*◌, ◌/◌, ◌%◌, ◌^◌, ◌≤◌, ◌<◌, ◌≡◌, refl, ap, ap₂, sym, ◌∙◌, subst, inl, inr,
  Option, some, List, [], ◌∷◌, ◌++◌, append-nil, append_assoc, length, take, set, length-set, arith,
  Bool-cases, true, false, ◌==◌, if◌then◌else◌, lt→ltb, ltb,
}
use butos.Drivers.Ports.{Ports}
use butos.Drivers.Pci.{
  PciDeviceInfo, pci_address, info_of, pci_config_read_long, pci_read_device_info, scan_devices,
  pci_scan_devices,
}

-- What the bus is documented to do: a word at the first port with its highest bit set chooses a bus by
-- the bits 16 to 23, a device by the bits 11 to 15, a function by the bits 8 to 10 and a register by
-- the byte below, whose two lowest bits do not count. The second port gives this register, and to
-- read it changes none.
pub record ConfigSpace {S : Type 0} (io : Ports S) : Type 0 where
  pub register : S → (bus device function offset : ℕ) → ℕ
  pub read :
      (s : S) (a : ℕ)
      → a / 2147483648 ≡ 1
      → (io.inl (io.outl s 0xcf8 a) 0xcfc).1
        ≡ register s (a / 65536 % 256) (a / 2048 % 32) (a / 256 % 8) (a % 256 / 4 * 4)
  pub kept : (s : S) (a : ℕ) → register (io.inl (io.outl s 0xcf8 a) 0xcfc).0 ≡ register s

-- Where the bus finds what is asked for as a device of bus 0: numbers from 32 on run into the next
-- buses.
abbrev pub Registers : Type 0
Registers = (bus device function offset : ℕ) → ℕ

abbrev pub at : Registers → (device offset : ℕ) → ℕ
at register device offset = register (device / 32) (device % 32) 0 offset

-- The device as its registers describe it: the vendor and the device in the first, the revision, the
-- interface, the subclass and the class in the third, and the type of the header in the fourth
abbrev pub described : Registers → (device : ℕ) → PciDeviceInfo
described register device = record {
  bus = 0;
  device_number = device;
  vendor_id = at register device 0 % 65536;
  device_id = at register device 0 / 65536 % 65536;
  class_code = at register device 8 / 16777216 % 256;
  subclass = at register device 8 / 65536 % 256;
  prog_if = at register device 8 / 256 % 256;
  revision_id = at register device 8 % 256;
  header_type = at register device 12 / 65536 % 256;
}

-- The word that is written reaches the register.
address_lem :
    (device offset : ℕ)
    → device < 256
    → offset < 256
    → offset % 4 ≡ 0
    → let a = pci_address 0 device 0 offset in
      (a / 2147483648 ≡ 1)
      × (a / 65536 % 256 ≡ device / 32)
      × (a / 2048 % 32 ≡ device % 32)
      × (a / 256 % 8 ≡ 0)
      × (a % 256 / 4 * 4 ≡ offset)
address_lem device offset small low aligned =
    (omega arith, omega arith, omega arith, omega arith, omega arith)

div_one : (r : ℕ) → r / 1 ≡ r
div_one r = omega arith

info_lem :
    (device r0 r2 r3 : ℕ) (register : Registers)
    → r0 ≡ at register device 0
    → r2 ≡ at register device 8
    → r3 ≡ at register device 12
    → info_of 0 device r0 r2 r3 ≡ described register device
info_lem device r0 r2 r3 register e0 e2 e3 =
    rw (e0, e2, e3, div_one (at register device 0), div_one (at register device 8)) refl

-- The devices of bus 0 that answer, of the `n` from `dev` on
abbrev pub answering : Registers → (n dev : ℕ) → List PciDeviceInfo
answering register zero dev = []
answering register (suc n) dev =
    let rest = answering register n (dev + 1) in
    if (described register dev).device_id == 0xffff then rest else described register dev ∷ rest

take-set : {A : Type 0} (xs : List A) (i : ℕ) (x : A) → take i (set xs i x) ≡ take i xs
take-set [] i x = refl
take-set (y ∷ ys) zero x = refl
take-set (y ∷ ys) (suc i) x = ap (◌∷◌ y) (take-set ys i x)

take-set-suc :
    {A : Type 0} (xs : List A) (i : ℕ) (x : A)
    → i < length xs
    → take (suc i) (set xs i x) ≡ take i xs ++ (x ∷ [])
take-set-suc [] i x h = absurd (omega arith)
take-set-suc (y ∷ ys) zero x h = refl
take-set-suc (y ∷ ys) (suc i) x h = ap (◌∷◌ y) (take-set-suc ys i x (omega arith))

-- What the scan leaves: the entries that were filled, and then the devices that answer
pub record Scanned {S : Type 0} (register : Registers) (n : ℕ) (devs : List PciDeviceInfo)
    (dev i : ℕ) (out : Option (S × List PciDeviceInfo)) : Type 0 where
  pub machine : S
  pub found : List PciDeviceInfo
  pub result : out ≡ some (machine, found)
  pub same_length : length found ≡ length devs
  pub entries :
      take (i + length (answering register n dev)) found ≡ take i devs ++ answering register n dev

module _ {S : Type 0} (register : Registers) (n : ℕ) (devs : List PciDeviceInfo) (dev i : ℕ)
    (out : Option (S × List PciDeviceInfo)) where
  absent_step :
      ((described register dev).device_id == 0xffff) ≡ true
      → Scanned register n (set devs i (described register dev)) (dev + 1) i out
      → Scanned register (suc n) devs dev i out
  absent_step absent r = record {
    machine = r.machine;
    found = r.found;
    result = r.result;
    same_length = r.same_length ∙ length-set devs i (described register dev);
    entries = rw absent (
        r.entries
        ∙ ap (λ xs. xs ++ answering register n (dev + 1))
            (take-set devs i (described register dev)));
  }

  present_step :
      ((described register dev).device_id == 0xffff) ≡ false
      → i < length devs
      → Scanned register n (set devs i (described register dev)) (dev + 1) (i + 1) out
      → Scanned register (suc n) devs dev i out
  present_step present room r = record {
    machine = r.machine;
    found = r.found;
    result = r.result;
    same_length = r.same_length ∙ length-set devs i (described register dev);
    entries = rw present (
        ap (λ k. take k r.found) (omega arith)
        ∙ r.entries
        ∙ ap (λ xs. xs ++ answering register n (dev + 1))
            (ap (λ k. take k (set devs i (described register dev))) {x = i + 1} {y = suc i}
                (omega arith)
              ∙ take-set-suc devs i (described register dev) room)
        ∙ append_assoc (take i devs) (described register dev ∷ [])
            (answering register n (dev + 1)));
  }

module _ {S : Type 0} ⦃io : Ports S⦄ (c : ConfigSpace io) where
  read_register :
      (s : S) (device offset : ℕ)
      → device < 256
      → offset < 256
      → offset % 4 ≡ 0
      → let (s', r) = pci_config_read_long s 0 device 0 offset in
        (r ≡ at (c.register s) device offset) × (c.register s' ≡ c.register s)
  unfolding pci_config_read_long
  read_register s device offset small low aligned =
      let a = pci_address 0 device 0 offset in
      let (on, bus, dev, function, reg) = address_lem device offset small low aligned in
      (
        c.read s a on
            ∙ ap₂ (λ (b o : ℕ × ℕ). c.register s b.0 b.1 o.0 o.1) (ap₂ (λ x y. (x, y)) bus dev)
                (ap₂ (λ x y. (x, y)) function reg),
        c.kept s a,
      )

  read_device_lem :
      (s : S) (device : ℕ)
      → device < 256
      → let (s', info) = pci_read_device_info s 0 device in
        (info ≡ described (c.register s) device) × (c.register s' ≡ c.register s)
  unfolding pci_read_device_info
  read_device_lem s device small =
      let (s1, r0) = pci_config_read_long s 0 device 0 0 in
      let (s2, r2) = pci_config_read_long s1 0 device 0 8 in
      let (s3, r3) = pci_config_read_long s2 0 device 0 12 in
      let (e0, k0) = read_register s device 0 small (omega arith) refl in
      let (e2, k2) = read_register s1 device 8 small (omega arith) refl in
      let (e3, k3) = read_register s2 device 12 small (omega arith) refl in
      (
        info_lem device r0 r2 r3 (c.register s) e0 (e2 ∙ ap (λ r. at r device 8) k0)
            (e3 ∙ ap (λ r. at r device 12) (k2 ∙ k0)),
        k3 ∙ (k2 ∙ k0),
      )

  scan_devices_lem :
      (fuel n : ℕ) (s : S) (devs : List PciDeviceInfo) (devs_n dev i : ℕ)
      → i + n ≤ length devs
      → dev + n ≡ devs_n
      → devs_n < 256
      → n < fuel
      → Scanned (c.register s) n devs dev i (scan_devices fuel s devs devs_n dev i)
  unfolding scan_devices
  scan_devices_lem zero n s devs devs_n dev i room end small enough = absurd (omega arith)
  scan_devices_lem (suc fuel) zero s devs devs_n dev i room end small enough =
      let over : ltb dev devs_n ≡ false = ground arith in
      rw over (record {
        machine = s;
        found = devs;
        result = refl;
        same_length = refl;
        entries = ap (λ k. take k devs) (omega arith) ∙ sym (append-nil (take i devs));
      })
  scan_devices_lem (suc fuel) (suc n) s devs devs_n dev i room end small enough =
      let s' = (pci_read_device_info s 0 dev).0 in
      let (same, kept) = read_device_lem s dev (omega arith) in
      let d = described (c.register s) dev in
      let len = length-set devs i d in
      let on : ltb dev devs_n ≡ true = lt→ltb dev devs_n (omega arith) in
      let there : ltb i (length devs) ≡ true = lt→ltb i (length devs) (omega arith) in
      let next : (dev + 1) % 2 ^ 8 ≡ dev + 1 = omega arith in
      elim (Bool-cases (d.device_id == 0xffff)) [
        | inl absent ↦
            rw (on, there, same, next, absent)
              (absent_step (c.register s) n devs dev i
                (scan_devices fuel s' (set devs i d) devs_n (dev + 1) i) absent
                (subst
                  (λ r.
                    Scanned r n (set devs i d) (dev + 1) i
                      (scan_devices fuel s' (set devs i d) devs_n (dev + 1) i))
                  kept
                  (scan_devices_lem fuel n s' (set devs i d) devs_n (dev + 1) i (omega (arith, len))
                    (omega arith) small (omega arith))))
        | inr present ↦
            rw (on, there, same, next, present)
              (present_step (c.register s) n devs dev i
                (scan_devices fuel s' (set devs i d) devs_n (dev + 1) (i + 1)) present (omega arith)
                (subst
                  (λ r.
                    Scanned r n (set devs i d) (dev + 1) (i + 1)
                      (scan_devices fuel s' (set devs i d) devs_n (dev + 1) (i + 1)))
                  kept
                  (scan_devices_lem fuel n s' (set devs i d) devs_n (dev + 1) (i + 1)
                    (omega (arith, len)) (omega arith) small (omega arith))))
      ]

  -- On a bus that behaves as it is documented, with a list that has an entry for each of `devs_n` device
  -- numbers, of which there are at most 255, and more fuel than these: `pci_scan_devices` ends without a
  -- write behind the list, whose first entries are then the devices that answer among the numbers below
  -- `devs_n`, in their order, with the fields of their registers. Other numbers are not tried; numbers
  -- from 32 on are devices of the next buses.
  pub pci_scan_devices_lem :
      (fuel : ℕ) (s : S) (devs : List PciDeviceInfo) (devs_n : ℕ)
      → devs_n ≤ length devs
      → devs_n < 256
      → devs_n < fuel
      → Scanned (c.register s) devs_n devs 0 0 (pci_scan_devices fuel s devs devs_n)
  unfolding pci_scan_devices
  pci_scan_devices_lem fuel s devs devs_n room small enough =
      scan_devices_lem fuel devs_n s devs devs_n 0 0 (omega arith) (omega arith) small enough
