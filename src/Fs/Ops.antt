-- ===== src/Fs/Ops.antt =====
-- The operations of `TinyFs` in src/fs.rs on paths, and the functions of that file that other parts
-- of the kernel call, on the global instance.
pub mod Written
pub mod Root
use crabv.Base.{
  ℕ, zero, suc, ◌+◌, Bool, true, false, ◌&&◌, ◌||◌, not, Option, none, some, List, [], ◌∷◌, ◌++◌,
  Result, ok, err, ◌>>=◌, ◌>>◌, leb, ltb, if◌then◌else◌, length, map, map_err,
}
use crabv.Fs.{
  EntryType, regular, directory, FileEntry, BlockDevice, TinyFs, LoadedDir, name_len, max_files,
}
use crabv.Fs.Error.{
  VirtioError, FsError, not_initialized, name_too_long, directory_full, not_found,
  device_init_failed, invalid_path, not_a_directory, already_exists, directory_not_empty,
  is_directory, is_file,
}
use crabv.Fs.Disk as Disk
use crabv.Fs.Disk.{allocate_and_write, read_data, read_directory_entries, format_disk, mount}
use crabv.Fs.Path.{
  is_empty, split_path, find_entry, relink, Chain, load_directory_chain, persist_directory_chain,
}

-- `components.split_at(components.len() - 1)`, after the test for an empty path.
unfoldable pub split_leaf : List (List ℕ) → Result FsError (List (List ℕ) × List ℕ)
split_leaf [] = err invalid_path
split_leaf (c ∷ []) = ok ([], c)
split_leaf (c ∷ d ∷ cs) = split_leaf (d ∷ cs) >>= λ r. ok (c ∷ r.0, r.1)

unfoldable pub check_name : List ℕ → Result FsError (Unit {0})
check_name name = if is_empty name || ltb name_len (length name) then err name_too_long else ok tt

-- `Vec::remove`
unfoldable pub remove_at : List FileEntry → ℕ → List FileEntry
remove_at [] idx = []
remove_at (e ∷ es) zero = es
remove_at (e ∷ es) (suc idx) = e ∷ remove_at es idx

-- The last directory of the chain with other entries.
abbrev pub with_entries : Chain → List FileEntry → Chain
with_entries chain entries = (record chain.0 { entries = entries }, chain.1)

abbrev pub with_slash : FileEntry → List ℕ
with_slash e = if Disk.is_directory e.kind then e.name ++ (47 ∷ []) else e.name

-- The directory is the root and is full.
abbrev pub root_is_full : Chain → Bool
root_is_full chain = is_empty chain.1 && leb max_files (length chain.0.entries)

module _ {D : Type 0} (dev : BlockDevice D) where
  -- The chain of the directory that a path lies in, and the last name of the path.
  unfoldable pub open_parent : TinyFs D → List ℕ → Result FsError (Chain × List ℕ)
  open_parent fs path = split_leaf (split_path path) >>= λ r.
      load_directory_chain dev fs r.0 >>= λ chain. ok (chain, r.1)

  -- The same, where the name is checked before the directories are read.
  unfoldable pub open_named : TinyFs D → List ℕ → Result FsError (Chain × List ℕ)
  open_named fs path = split_leaf (split_path path) >>= λ r.
      check_name r.1 >>= λ _. load_directory_chain dev fs r.0 >>= λ chain. ok (chain, r.1)

  unfoldable pub list_directory : TinyFs D → List ℕ → Result FsError (List (List ℕ))
  list_directory fs path =
      load_directory_chain dev fs (split_path path) >>= λ chain. ok (map with_slash chain.0.entries)

  unfoldable pub read_file_contents : TinyFs D → List ℕ → Result FsError (List ℕ)
  read_file_contents fs path = open_parent fs path >>= λ r. elim (find_entry r.0.0.entries r.1 0) [
    | none ↦ err not_found
    | some found ↦
        if Disk.is_directory found.1.kind
        then err not_a_directory
        else ok (read_data dev fs found.1.start_block found.1.length)
  ]

  -- The entry of the file after its contents were written to `place`.
  unfoldable pub link :
      TinyFs D
      → Chain
      → List ℕ
      → Option (ℕ × FileEntry)
      → ℕ × ℕ
      → Result FsError (Unit {0}) × TinyFs D
  link fs chain name existing place = elim existing [
    | none ↦ persist_directory_chain dev fs (
        with_entries chain (
          chain.0.entries
          ++ (record { name = name; start_block = place.0; length = place.1; kind = regular }
              ∷ [])))
    | some found ↦
        if Disk.is_directory found.1.kind
        then (err not_a_directory, fs)
        else persist_directory_chain dev fs
            (with_entries chain (relink chain.0.entries found.0 place.0 place.1))
  ]

  abbrev is_new : Option (ℕ × FileEntry) → Bool
  is_new none = true
  is_new (some found) = false

  unfoldable pub write_file_contents :
      TinyFs D → List ℕ → List ℕ → Result FsError (Unit {0}) × TinyFs D
  write_file_contents fs path contents = elim (open_named fs path) [
    | err e ↦ (err e, fs)
    | ok r ↦
        let existing = find_entry r.0.0.entries r.1 0 in
        if is_new existing && root_is_full r.0
        then (err directory_full, fs)
        else (let (a, fs') = allocate_and_write dev fs contents in
            elim a [ err e ↦ (err e, fs') | ok place ↦ link fs' r.0 r.1 existing place ])
  ]

  -- `create_directory` and `create_file` differ in the kind of the new entry.
  unfoldable pub create_entry : EntryType → TinyFs D → List ℕ → Result FsError (Unit {0}) × TinyFs D
  create_entry kind fs path = elim (open_named fs path) [
    | err e ↦ (err e, fs)
    | ok r ↦ elim (find_entry r.0.0.entries r.1 0) [
      | some found ↦ (err already_exists, fs)
      | none ↦
          if root_is_full r.0
          then (err directory_full, fs)
          else persist_directory_chain dev fs (
              with_entries r.0 (
                r.0.0.entries
                ++ (record { name = r.1; start_block = 0; length = 0; kind = kind } ∷ [])))
    ]
  ]

  unfoldable pub create_directory : TinyFs D → List ℕ → Result FsError (Unit {0}) × TinyFs D
  create_directory = create_entry directory

  unfoldable pub create_file : TinyFs D → List ℕ → Result FsError (Unit {0}) × TinyFs D
  create_file = create_entry regular

  unfoldable pub remove_file : TinyFs D → List ℕ → Result FsError (Unit {0}) × TinyFs D
  remove_file fs path = elim (open_parent fs path) [
    | err e ↦ (err e, fs)
    | ok r ↦ elim (find_entry r.0.0.entries r.1 0) [
      | none ↦ (err not_found, fs)
      | some found ↦
          if Disk.is_directory found.1.kind
          then (err is_directory, fs)
          else persist_directory_chain dev fs (with_entries r.0 (remove_at r.0.0.entries found.0))
    ]
  ]

  unfoldable pub remove_directory : TinyFs D → List ℕ → Result FsError (Unit {0}) × TinyFs D
  remove_directory fs path = elim (open_parent fs path) [
    | err e ↦ (err e, fs)
    | ok r ↦ elim (find_entry r.0.0.entries r.1 0) [
      | none ↦ (err not_found, fs)
      | some found ↦
          if Disk.is_directory found.1.kind
          then elim (read_directory_entries dev fs found.1) [
            | err e ↦ (err e, fs)
            | ok children ↦
                if is_empty children
                then persist_directory_chain dev fs
                    (with_entries r.0 (remove_at r.0.0.entries found.0))
                else (err directory_not_empty, fs)
          ]
          else (err is_file, fs)
    ]
  ]

  unfoldable pub ensure_directory_exists : TinyFs D → List ℕ → Result FsError (Unit {0})
  ensure_directory_exists fs path = load_directory_chain dev fs (split_path path) >>= λ chain. ok tt

  -- `init`, with what the driver returned.
  unfoldable pub init :
      Option (TinyFs D) → Result VirtioError D → Result FsError (Unit {0}) × Option (TinyFs D)
  init (some fs) device = (ok tt, some fs)
  init none (err e) = (err (device_init_failed e), none)
  init none (ok device) = (ok tt, some (mount dev device))

-- `with_fs`: an operation on the global instance.
unfoldable pub with_fs :
    {D A : Type 0}
    → Option (TinyFs D)
    → (TinyFs D → Result FsError A × TinyFs D)
    → Result FsError A × Option (TinyFs D)
with_fs none f = (err not_initialized, none)
with_fs (some fs) f = let (r, fs') = f fs in (r, some fs')
