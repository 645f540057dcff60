-- ===== src/Fs/Ops/Written.antt =====
-- A write to a name in the root directory of src/fs.rs: what it stores, and what the directory
-- holds afterwards.
use crabv.Base.{
  ◌^◌, ◌+◌, ◌≤◌, Option, not, leb, ◌<◌, Bool, true, ℕ, ◌+◌, ◌≤◌, ◌≡◌, ◌≢◌, refl, ap, ◌∙◌, inl, inr,
  false, none, some, List, [], ◌∷◌, ◌++◌, arith, Option-cases, Bool-cases, length, ok, Result-cases,
  ◌>>=◌,
}
use crabv.Fs.{block_size, max_files, regular, FileEntry, BlockDevice, IsDevice, TinyFs, as_u32}
use crabv.Fs.Disk as Disk
use crabv.Fs.Disk.{div_ceil, read_data, allocate_and_write, flush_superblock, flush_root_directory}
use crabv.Fs.Disk.Data.{allocate_and_write_succeeds, IsSound, Extent, read_chunks-agree}
use crabv.Fs.Format.{superblock_bytes, root_bytes}
use crabv.Fs.Path.{
  split_path, walk, find_entry, relink, Chain, load_directory_chain, persist_levels,
  persist_directory_chain,
}
use crabv.Fs.Ops.{check_name, split_leaf, open_parent, open_named, link, write_file_contents}
use crabv.Fs.Path.Find.{
  find_entry-append, find_entry-relink, find_entry-append_other, find_entry-relink_other,
}

module _ {D : Type 0} (dev : BlockDevice D) (law : IsDevice dev) where
  -- The state after the root directory and the superblock were written.
  abbrev pub persisted : TinyFs D → List FileEntry → TinyFs D
  persisted fs es = flush_superblock dev (
      flush_root_directory dev (record fs {
        root_entries = es;
        superblock = record fs.superblock { file_count = as_u32 (length es) };
      }))

  -- Flushing changes no block behind the root directory.
  pub read_data-persisted :
      (fs : TinyFs D) (es : List FileEntry) (start len : ℕ)
      → IsSound dev fs
      → Extent dev law fs start len
      → read_data dev (persisted fs es) start len ≡ read_data dev fs start len
  unfolding read_data flush_superblock flush_root_directory
  read_data-persisted fs es start len v x =
      let d1 = dev.write_block fs.device 1 (root_bytes es) in
      let super = superblock_bytes (record fs.superblock { file_count = as_u32 (length es) }) in
      read_chunks-agree dev law (div_ceil len 512) (dev.write_block d1 0 super) fs.device start len
        (omega (arith, x.inside, v.next_inside, v.not_huge))
        λ c lo hi.
          let behind : 2 ≤ start = x.behind (omega arith) in
          law.read_other d1 0 c super (λ z. absurd (omega arith))
          ∙ law.read_other fs.device 1 c (root_bytes es) (λ z. absurd (omega arith))

  abbrev pub root : TinyFs D → Chain
  root fs = (record { entries = fs.root_entries; entry_index_in_parent = none }, [])

  pub open_parent_one :
      (fs : TinyFs D) (path name : List ℕ)
      → split_path path ≡ name ∷ []
      → open_parent dev fs path ≡ ok (root fs, name)
  unfolding open_parent split_leaf load_directory_chain walk
  open_parent_one fs path name one = rw one refl

  open_named_one :
      (fs : TinyFs D) (path name : List ℕ)
      → split_path path ≡ name ∷ []
      → open_named dev fs path ≡ (check_name name >>= λ _. ok (root fs, name))
  unfolding open_named split_leaf load_directory_chain walk
  open_named_one fs path name one = rw one refl

  named_root :
      (fs : TinyFs D) (path name : List ℕ) {r : Chain × List ℕ}
      → split_path path ≡ name ∷ []
      → open_named dev fs path ≡ ok r
      → r ≡ (root fs, name)
  named_root fs path name {r} one h = elim (Result-cases (check_name name)) [
    | inl (u, fine) ↦ ground (arith, open_named_one fs path name one)
    | inr (x, bad) ↦ absurd (ground (arith, open_named_one fs path name one))
  ]

  -- A write to the root directory that succeeds has stored the contents and linked the name to
  -- them.
  pub write_root :
      (fs : TinyFs D) (path name contents : List ℕ) {fs' : TinyFs D}
      → split_path path ≡ name ∷ []
      → write_file_contents dev fs path contents ≡ (ok tt, fs')
      → (place : ℕ × ℕ) × (fs1 : TinyFs D) × (allocate_and_write dev fs contents ≡ (ok place, fs1))
        × (link dev fs1 (root fs) name (find_entry fs.root_entries name 0) place ≡ (ok tt, fs'))
  unfolding write_file_contents
  write_root fs path name contents one e = elim (Result-cases (open_named dev fs path)) [
    | inr (x, bad) ↦ absurd (ground arith)
    | inl (r, good) ↦ elim (Result-cases (allocate_and_write dev fs contents).0) [
      | inr (x, out) ↦ absurd (ground arith)
      | inl (place, there) ↦ (
        place,
        (allocate_and_write dev fs contents).1,
        ap (λ a. (a, (allocate_and_write dev fs contents).1)) there,
        ground (arith, named_root fs path name one good),
      )
    ]
  ]

  -- The name now stands for a file at this place.
  pub record Linked (old : List FileEntry) (fs : TinyFs D) (name : List ℕ) (place : ℕ × ℕ)
      (fs' : TinyFs D) : Type 0 where
    pub es : List FileEntry
    pub index : ℕ
    pub entry : FileEntry
    pub state : fs' ≡ persisted fs es
    pub found : find_entry es name 0 ≡ some (index, entry)
    pub no_directory : Disk.is_directory entry.kind ≡ false
    pub start : entry.start_block ≡ place.0
    pub len : entry.length ≡ place.1
    pub others : (other : List ℕ) → name ≢ other → find_entry es other 0 ≡ find_entry old other 0

  pub link-Linked :
      (fs fs1 : TinyFs D) (name : List ℕ) (place : ℕ × ℕ) {fs' : TinyFs D}
      → link dev fs1 (root fs) name (find_entry fs.root_entries name 0) place ≡ (ok tt, fs')
      → Linked fs.root_entries fs1 name place fs'
  unfolding link persist_directory_chain persist_levels
  link-Linked fs fs1 name place {fs'} e = elim (Option-cases (find_entry fs.root_entries name 0)) [
    | inl new ↦
        let entry : FileEntry = record {
          name = name;
          start_block = place.0;
          length = place.1;
          kind = regular;
        } in
        record {
          es = fs.root_entries ++ (entry ∷ []);
          index = 0 + length fs.root_entries;
          entry = entry;
          state = ground arith;
          found = find_entry-append fs.root_entries entry 0 new;
          no_directory = refl;
          start = refl;
          len = refl;
          others = λ other ne. find_entry-append_other fs.root_entries entry other 0 ne;
        }
    | inr (old, there) ↦ elim (Bool-cases (Disk.is_directory old.1.kind)) [
      | inl dir ↦ absurd (ground arith)
      | inr file ↦ record {
        es = relink fs.root_entries old.0 place.0 place.1;
        index = old.0;
        entry = record old.1 { start_block = place.0; length = place.1 };
        state = ground arith;
        found =
            find_entry-relink fs.root_entries name 0 old.0 old.0 place.0 place.1 (omega arith)
              there;
        no_directory = file;
        start = refl;
        len = refl;
        others = λ other ne.
            find_entry-relink_other fs.root_entries name other 0 old.0 old.0 place.0 place.1
              (omega arith) there ne;
      }
    ]
  ]

  -- The name can be written: it is new and the root has room for it, or it is that of a file.
  abbrev pub is_writable : TinyFs D → Option (ℕ × FileEntry) → Bool
  is_writable fs none = not (leb max_files (length fs.root_entries))
  is_writable fs (some found) = not (Disk.is_directory found.1.kind)

  link_succeeds :
      (fs fs1 : TinyFs D) (name : List ℕ) (o : Option (ℕ × FileEntry)) (place : ℕ × ℕ)
      → is_writable fs o ≡ true
      → (link dev fs1 (root fs) name o place).0 ≡ ok tt
  unfolding link persist_directory_chain persist_levels
  link_succeeds fs fs1 name none place w = refl
  link_succeeds fs fs1 name (some found) place w = ground arith

  -- On a sound filesystem, a write of less than 4 GB to a name in the root directory succeeds if
  -- the name is of a length that is allowed, is new to a directory that is not full or is that of a
  -- file, and the device has blocks enough for the contents.
  pub write_file_contents_succeeds :
      (fs : TinyFs D) (path name contents : List ℕ)
      → IsSound dev fs
      → split_path path ≡ name ∷ []
      → check_name name ≡ ok tt
      → is_writable fs (find_entry fs.root_entries name 0) ≡ true
      → length contents < 2 ^ 32
      → fs.superblock.next_free_block + div_ceil (length contents) block_size
        ≤ dev.total_blocks fs.device
      → (write_file_contents dev fs path contents).0 ≡ ok tt
  unfolding write_file_contents
  write_file_contents_succeeds fs path name contents v one fine w h room =
      let opened : open_named dev fs path ≡ ok (root fs, name) =
        open_named_one fs path name one ∙ ap (λ c. c >>= λ _. ok (root fs, name)) fine in
      let (place, there) = allocate_and_write_succeeds dev law fs contents v h room in
      let o = find_entry fs.root_entries name 0 in
      let linked = link_succeeds fs (allocate_and_write dev fs contents).1 name o place w in
      ground (arith, opened, there, linked)
