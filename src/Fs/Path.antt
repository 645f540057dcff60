-- ===== src/Fs/Path.antt =====
-- Paths of src/fs.rs: `split_path`, the chain of directories from the root to the one that a path
-- names, and its way back to the disk.
pub mod Find
use crabv.Base.{
  ℕ, zero, suc, ◌+◌, ◌%◌, Bool, true, false, ◌&&◌, not, Option, none, some, List, [], ◌∷◌, Result,
  ok, err, ◌==◌, if◌then◌else◌, length,
}
use crabv.Fs.{FileEntry, BlockDevice, TinyFs, LoadedDir, as_u32}
use crabv.Fs.Error.{FsError, not_found, not_a_directory}
use crabv.Fs.Disk.{
  is_directory, read_directory_entries, write_directory_entries, flush_root_directory,
  flush_superblock,
}

-- Equality of strings, and whether one is empty.
unfoldable pub same_name : List ℕ → List ℕ → Bool
same_name [] [] = true
same_name [] (b ∷ bs) = false
same_name (a ∷ r) [] = false
same_name (a ∷ r) (b ∷ bs) = (a == b) && same_name r bs

abbrev pub is_empty {ℓ} : {A : Type ℓ} → List A → Bool
is_empty [] = true
is_empty (x ∷ xs) = false

abbrev pub push_first : ℕ → List (List ℕ) → List (List ℕ)
push_first c [] = (c ∷ []) ∷ []
push_first c (s ∷ ss) = (c ∷ s) ∷ ss

-- `split('/')`
unfoldable pub split : List ℕ → List (List ℕ)
split [] = [] ∷ []
split (c ∷ cs) = let rest = split cs in if c == 47 then [] ∷ rest else push_first c rest

unfoldable pub not_empty : List (List ℕ) → List (List ℕ)
not_empty [] = []
not_empty ([] ∷ ss) = not_empty ss
not_empty ((c ∷ cs) ∷ ss) = (c ∷ cs) ∷ not_empty ss

-- `split_path` returns `Ok` on every path.
unfoldable pub split_path : List ℕ → List (List ℕ)
split_path path = if is_empty path then [] else not_empty (split path)

-- `iter().enumerate().find(…)` and `iter().position(…)` by name, from index `i` on.
unfoldable pub find_entry : List FileEntry → List ℕ → ℕ → Option (ℕ × FileEntry)
find_entry [] name i = none
find_entry (e ∷ es) name i =
    let rest = find_entry es name (i + 1) in if same_name e.name name then some (i, e) else rest

-- `parent.entries[idx]` gets a new place on disk.
unfoldable pub relink : List FileEntry → ℕ → ℕ → ℕ → List FileEntry
relink [] idx start len = []
relink (e ∷ es) zero start len = record e { start_block = start; length = len } ∷ es
relink (e ∷ es) (suc idx) start len = e ∷ relink es idx start len

unfoldable pub relink_child : LoadedDir → Option ℕ → ℕ → ℕ → LoadedDir
relink_child parent none start len = parent
relink_child parent (some idx) start len = record parent {
  entries = relink parent.entries idx start len;
}

-- A chain stands here with its last directory first: that directory, and those above it.
abbrev pub Chain : Type 0
Chain = LoadedDir × List LoadedDir

module _ {D : Type 0} (dev : BlockDevice D) where
  -- The loop over the components.
  unfoldable pub walk : TinyFs D → List (List ℕ) → Chain → Result FsError Chain
  walk fs [] chain = ok chain
  walk fs (c ∷ cs) chain =
      if is_empty c then walk fs cs chain else elim (find_entry chain.0.entries c 0) [
        | none ↦ err not_found
        | some found ↦
            if is_directory found.1.kind
            then elim (read_directory_entries dev fs found.1) [
              | err e ↦ err e
              | ok entries ↦ walk fs cs (
                record { entries = entries; entry_index_in_parent = some found.0 },
                chain.0 ∷ chain.1,
              )
            ]
            else err not_a_directory
      ]

  unfoldable pub load_directory_chain : TinyFs D → List (List ℕ) → Result FsError Chain
  load_directory_chain fs components =
      walk fs components (record { entries = fs.root_entries; entry_index_in_parent = none }, [])

  -- The loop over the levels, the last first. It returns the entries of the root.
  unfoldable pub persist_levels :
      TinyFs D → LoadedDir → List LoadedDir → Result FsError (List FileEntry) × TinyFs D
  persist_levels fs current [] = (ok current.entries, fs)
  persist_levels fs current (parent ∷ above) =
      let (r, fs') = write_directory_entries dev fs current.entries in
      elim r [
        | err e ↦ (err e, fs')
        | ok place ↦
            persist_levels fs' (relink_child parent current.entry_index_in_parent place.0 place.1)
              above
      ]

  unfoldable pub persist_directory_chain : TinyFs D → Chain → Result FsError (Unit {0}) × TinyFs D
  persist_directory_chain fs chain =
      let (r, fs') = persist_levels fs chain.0 chain.1 in
      elim r [
        | err e ↦ (err e, fs')
        | ok entries ↦ (
          ok tt,
          flush_superblock dev (
              flush_root_directory dev (record fs' {
                root_entries = entries;
                superblock = record fs'.superblock { file_count = as_u32 (length entries) };
              })),
        )
      ]
