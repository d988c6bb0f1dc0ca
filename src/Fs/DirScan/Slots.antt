-- ===== src/Fs/DirScan/Slots.antt =====
-- Where `dir_entry_create` puts an entry in the file of a directory, and what `dir_read_entry` reads there.
use butos.Prelude.{
  ℕ, zero, suc, ◌+◌, ◌*◌, ◌/◌, ◌<◌, ◌≡◌, ◌≢◌, refl, ap, sym, subst, ◌∙◌, ◌⊎◌, inl, inr, Option,
  none, some, List, length, ltb, lt→ltb, add32, word, arith, ne→==_false, Bool-cases,
}
use butos.Fs.Disk.{Drive}
use butos.Fs.Volume.{FatFs}
use butos.Fs.Entry.{Entry}
use butos.Fs.File.{File, file_readb, file_read, file_write}
use butos.Fs.DirScan.{
  Dir, entry_of_bytes, entry_bytes, dir_read_entry, create_loop, dir_entry_create,
}
use butos.Fs.DirScan.Bytes.{Fits, SameEntry, entry_of_bytes-entry_bytes, length-entry_bytes}

module _ (d : Drive) where
  -- The file and the file system once the tags of `k` entries are read from `offset` on, 32 bytes apart
  abbrev pub tags_read : (k : ℕ) → File → FatFs d.State → (offset : ℕ) → File × FatFs d.State
  tags_read zero ident fs offset = (ident, fs)
  tags_read (suc k) ident fs offset =
      let (ident1, fs1, tag) = file_readb d ident fs offset in tags_read k ident1 fs1 (offset + 32)

  -- The `k` entries from `offset` on are in use: their tags are neither 0 nor 0xe5.
  abbrev pub InUse : (k : ℕ) → File → FatFs d.State → (offset : ℕ) → Type 0
  InUse zero ident fs offset = Unit
  InUse (suc k) ident fs offset =
      let (ident1, fs1, tag) = file_readb d ident fs offset in
      (tag ≢ 0) × (tag ≢ 0xe5) × InUse k ident1 fs1 (offset + 32)

  -- The directory behind a write to its file
  abbrev pub behind_write : Dir → Option (File × FatFs d.State) → Option (Dir × FatFs d.State)
  behind_write dir none = none
  behind_write dir (some (ident, fs)) = some (record dir { ident = ident }, fs)

  entry_kept :
      (ident : File) (fs : FatFs d.State) (offset : ℕ)
      → (file_readb d ident fs offset).0.entry ≡ ident.entry
  unfolding file_readb
  entry_kept ident fs offset = elim (Bool-cases (ltb ident.entry.size offset)) [
    | inl beyond ↦ rw beyond refl
    | inr within ↦ rw within refl
  ]

  -- The tag of a slot that is free
  abbrev pub IsFree : File → FatFs d.State → (offset : ℕ) → Type 0
  IsFree ident fs offset =
      let (ident1, fs1, tag) = file_readb d ident fs offset in (tag ≡ 0) ⊎ (tag ≡ 0xe5)

  behind_write_same :
      (dir : Dir) (ident : File) (out : Option (File × FatFs d.State))
      → behind_write (record dir { ident = ident }) out ≡ behind_write dir out
  behind_write_same dir ident none = refl
  behind_write_same dir ident (some out) = refl

  create_loop-here :
      (rounds fuel : ℕ) (dir : Dir) (fs : FatFs d.State) (e : Entry) (offset : ℕ)
      → offset < dir.ident.entry.size
      → IsFree dir.ident fs offset
      → let (ident1, fs1, tag) = file_readb d dir.ident fs offset in
        create_loop d (suc rounds) fuel dir fs e offset
        ≡ behind_write dir (file_write d fuel ident1 fs1 offset (entry_bytes e))
  unfolding create_loop
  create_loop-here rounds fuel dir fs e offset inside (inl z) =
      rw (lt→ltb offset dir.ident.entry.size inside, z) refl
  create_loop-here rounds fuel dir fs e offset inside (inr z) =
      rw (lt→ltb offset dir.ident.entry.size inside, z) refl

  create_loop-next :
      (rounds fuel : ℕ) (dir : Dir) (fs : FatFs d.State) (e : Entry) (offset : ℕ)
      → offset < dir.ident.entry.size
      → offset + 32 < word
      → InUse 1 dir.ident fs offset
      → let (ident1, fs1, tag) = file_readb d dir.ident fs offset in
        create_loop d (suc rounds) fuel dir fs e offset
        ≡ create_loop d rounds fuel (record dir { ident = ident1 }) fs1 e (offset + 32)
  unfolding create_loop
  create_loop-next rounds fuel dir fs e offset inside small (h0, h5, tt) =
      let (ident1, fs1, tag) = file_readb d dir.ident fs offset in
      let next : add32 offset 32 ≡ offset + 32 = omega arith in
      rw
        (
          lt→ltb offset dir.ident.entry.size inside,
          ne→==_false tag 0 h0,
          ne→==_false tag 0xe5 h5,
          next,
        )
        refl

  -- The loop, when the slot `place` is free behind `k` that are not
  create_loop_lem :
      (k rounds fuel : ℕ) (dir : Dir) (fs : FatFs d.State) (e : Entry) (offset place : ℕ)
      → place ≡ offset + 32 * k
      → k < rounds
      → place < dir.ident.entry.size
      → place + 32 < word
      → InUse k dir.ident fs offset
      → let (ident1, fs1) = tags_read k dir.ident fs offset in
        let (ident2, fs2, tag) = file_readb d ident1 fs1 place in
        IsFree ident1 fs1 place
        → create_loop d rounds fuel dir fs e offset
          ≡ behind_write dir (file_write d fuel ident2 fs2 place (entry_bytes e))
  create_loop_lem k zero fuel dir fs e offset place at enough inside small used free =
      absurd (omega arith)
  create_loop_lem zero (suc rounds) fuel dir fs e offset place at enough inside small used free =
      let here : place ≡ offset = omega (arith, at) in
      ap (create_loop d (suc rounds) fuel dir fs e) (sym here)
      ∙ create_loop-here rounds fuel dir fs e place inside free
  create_loop_lem (suc k) (suc rounds) fuel dir fs e offset place at enough inside small
        (h0, h5, used) free =
      let (ident1, fs1, tag) = file_readb d dir.ident fs offset in
      let dir1 : Dir = record dir { ident = ident1 } in
      let size = ap (λ (x : Entry). x.size) (entry_kept dir.ident fs offset) in
      let (ident2, fs2) = tags_read k ident1 fs1 (offset + 32) in
      let (ident3, fs3, tag3) = file_readb d ident2 fs2 place in
      create_loop-next rounds fuel dir fs e offset (omega (arith, at)) (omega (arith, at))
        (h0, h5, tt)
      ∙ create_loop_lem k rounds fuel dir1 fs1 e (offset + 32) place (omega (arith, at))
          (omega arith) (omega (arith, size)) small used free
      ∙ behind_write_same dir ident1 (file_write d fuel ident3 fs3 place (entry_bytes e))

  read_lem :
      (bs : List ℕ) (ident : File) (fs : FatFs d.State) (offset : ℕ)
      → (file_read d 32 ident fs offset).2 ≡ bs
      → (dir_read_entry d ident fs offset).2 ≡ entry_of_bytes bs
  unfolding dir_read_entry
  read_lem bs ident fs offset h = ap entry_of_bytes h

  -- What `dir_entry_create` has done with an entry: it has written 32 bytes at the place, and from any
  -- file that gives these bytes there `dir_read_entry` reads the entry, but for its reserved bytes.
  pub record Created (fuel : ℕ) (dir : Dir) (e : Entry) (place : ℕ) (ident : File)
      (fs : FatFs d.State) (out : Option (Dir × FatFs d.State)) : Type 0 where
    pub bytes : List ℕ
    pub count : length bytes ≡ 32
    pub result : out ≡ behind_write dir (file_write d fuel ident fs place bytes)
    pub read_back :
        (ident' : File) (fs' : FatFs d.State)
        → (file_read d 32 ident' fs' place).2 ≡ bytes
        → SameEntry (dir_read_entry d ident' fs' place).2 e

  -- Where the first `k` entries in the file of a directory are in use and the next one is free and lies
  -- in the file, `dir_entry_create` writes an entry, whose fields fit their bytes and whose name has
  -- eleven characters and no NUL, to this place, 32 bytes for each entry from the start, with what
  -- `file_write` gives; and `dir_read_entry` reads the entry, but for its reserved bytes, from any file
  -- that has the bytes written at this place.
  pub dir_entry_create_lem :
      (k fuel : ℕ) (dir : Dir) (fs : FatFs d.State) (e : Entry)
      → Fits e
      → 32 * k < dir.ident.entry.size
      → 32 * k + 32 < word
      → InUse k dir.ident fs 0
      → let (ident1, fs1) = tags_read k dir.ident fs 0 in
        let (ident2, fs2, tag) = file_readb d ident1 fs1 (32 * k) in
        IsFree ident1 fs1 (32 * k)
        → Created fuel dir e (32 * k) ident2 fs2 (dir_entry_create d fuel dir fs e)
  unfolding dir_entry_create
  dir_entry_create_lem k fuel dir fs e fits inside small used free = record {
    bytes = entry_bytes e;
    count = length-entry_bytes e fits.name;
    result =
        create_loop_lem k (dir.ident.entry.size / 32 + 1) fuel dir fs e 0 (32 * k) (omega arith)
          (omega arith) inside small used free;
    read_back = λ ident' fs' h.
        subst (λ x. SameEntry x e) (sym (read_lem (entry_bytes e) ident' fs' (32 * k) h))
          (entry_of_bytes-entry_bytes e fits);
  }
