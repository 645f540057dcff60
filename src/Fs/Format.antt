-- ===== src/Fs/Format.antt =====
-- The on-disk format of src/fs.rs: `write_entry`, `deserialize_entry`, the superblock, and the
-- blocks that hold a directory.
pub mod Roundtrip
pub mod Blocks
use crabv.Base.{
  ℕ, zero, suc, ◌-◌, ◌*◌, Bool, true, false, Option, none, some, List, [], ◌∷◌, ◌++◌, ltb, ◌==◌,
  if◌then◌else◌, length, take, drop, get_or, replicate, min,
}
use crabv.Fs.{
  Superblock, EntryType, regular, directory, FileEntry, block_size, name_len, dir_entry_size,
  max_files,
}
use crabv.Bytes.{to_le_bytes, from_le_bytes, pad, until_nul, is_utf8}

-- `EntryType::from_raw`
abbrev pub from_raw : ℕ → Option EntryType
from_raw value = if value == 1 then some regular else (if value == 2 then some directory else none)

-- `EntryType::to_raw`
abbrev pub to_raw : EntryType → ℕ
to_raw regular = 1
to_raw directory = 2

-- The buffer that `write_entry` fills: the name, two numbers, the kind, and three zeros.
unfoldable pub write_entry : FileEntry → List ℕ
write_entry e =
    pad name_len (take name_len e.name)
    ++ (to_le_bytes 4 e.start_block ++ (to_le_bytes 4 e.length ++ (to_raw e.kind ∷ replicate 3 0)))

unfoldable pub deserialize_entry : List ℕ → Option FileEntry
deserialize_entry chunk =
    if ltb (length chunk) dir_entry_size
    then none
    else (if get_or chunk 0 0 == 0
        then none
        else (let name = until_nul (take name_len chunk) in
            if is_utf8 name
            then elim (from_raw (get_or chunk 40 0)) [
              | none ↦ none
              | some kind ↦ some (record {
                name = name;
                start_block = from_le_bytes (take 4 (drop 32 chunk));
                length = from_le_bytes (take 4 (drop 36 chunk));
                kind = kind;
              })
            ]
            else none))

-- The block that `flush_superblock` writes.
unfoldable pub superblock_bytes : Superblock → List ℕ
superblock_bytes s = pad block_size (
    to_le_bytes 4 s.magic
    ++ (to_le_bytes 4 s.version ++ (to_le_bytes 4 s.next_free_block ++ to_le_bytes 4 s.file_count)))

unfoldable pub parse_superblock : List ℕ → Superblock
parse_superblock buf = record {
  magic = from_le_bytes (take 4 buf);
  version = from_le_bytes (take 4 (drop 4 buf));
  next_free_block = from_le_bytes (take 4 (drop 8 buf));
  file_count = from_le_bytes (take 4 (drop 12 buf));
}

-- The entries one after another.
unfoldable pub entries_bytes : List FileEntry → List ℕ
entries_bytes [] = []
entries_bytes (e ∷ es) = write_entry e ++ entries_bytes es

-- The block that `flush_root_directory` writes.
unfoldable pub root_bytes : List FileEntry → List ℕ
root_bytes es = pad block_size (entries_bytes (take max_files es))

-- The loop over `chunks(DIR_ENTRY_SIZE)`, of which there are `n`. It ends at a chunk that is too
-- short, and skips one that is not an entry.
unfoldable pub parse_entries : ℕ → List ℕ → List FileEntry
parse_entries zero raw = []
parse_entries (suc n) raw =
    let rest = parse_entries n (drop dir_entry_size raw) in
    let chunk = take dir_entry_size raw in
    if ltb (length chunk) dir_entry_size
    then []
    else elim (deserialize_entry chunk) [ none ↦ rest | some e ↦ e ∷ rest ]
