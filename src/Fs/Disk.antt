-- ===== src/Fs/Disk.antt =====
-- `TinyFs` of src/fs.rs below the level of paths: formatting and mounting, the superblock and the
-- root directory on disk, allocation, and the data of files and directories.
pub mod Mount
pub mod Data
use crabv.Base.{
  ℕ, zero, suc, ◌+◌, ◌-◌, ◌*◌, ◌/◌, Bool, true, false, ◌&&◌, List, [], ◌∷◌, ◌++◌, Result, ok, err,
  ltb, ◌==◌, if◌then◌else◌, length, take, drop, replicate, min,
}
use crabv.Fs.{
  Superblock, EntryType, regular, directory, FileEntry, BlockDevice, TinyFs, block_size,
  magic_number, version_number, dir_block_index, data_start_block, dir_entry_size, max_files,
  as_u32,
}
use crabv.Fs.Error.{FsError, no_space, not_a_directory}
use crabv.Bytes.{pad}
use crabv.Fs.Format.{superblock_bytes, parse_superblock, entries_bytes, root_bytes, parse_entries}

-- `div_ceil`
abbrev pub div_ceil : ℕ → ℕ → ℕ
div_ceil n k = (n + (k - 1)) / k

abbrev pub is_directory : EntryType → Bool
is_directory directory = true
is_directory regular = false

module _ {D : Type 0} (dev : BlockDevice D) where
  unfoldable pub flush_superblock : TinyFs D → TinyFs D
  flush_superblock fs = record fs {
    device = dev.write_block fs.device 0 (superblock_bytes fs.superblock);
  }

  unfoldable pub flush_root_directory : TinyFs D → TinyFs D
  flush_root_directory fs = record fs {
    device = dev.write_block fs.device dir_block_index (root_bytes fs.root_entries);
  }

  -- The loop writes the two blocks before the data.
  unfoldable pub format_disk : TinyFs D → TinyFs D
  format_disk fs =
      let blank = replicate block_size 0 in
      flush_superblock (
        flush_root_directory (record {
          device = dev.write_block (dev.write_block fs.device 0 blank) 1 blank;
          superblock = record {
            magic = magic_number;
            version = version_number;
            next_free_block = data_start_block;
            file_count = 0;
          };
          root_entries = [];
        }))

  unfoldable pub load_root_directory : TinyFs D → TinyFs D
  load_root_directory fs = record fs {
    root_entries = parse_entries max_files (dev.read_block fs.device dir_block_index);
  }

  unfoldable pub load_or_format : TinyFs D → TinyFs D
  load_or_format fs =
      let superblock = parse_superblock (dev.read_block fs.device 0) in
      if (superblock.magic == magic_number) && (superblock.version == version_number)
      then load_root_directory (record fs { superblock = superblock })
      else format_disk fs

  unfoldable pub mount : D → TinyFs D
  mount device = load_or_format (record {
    device = device;
    superblock = record { magic = 0; version = 0; next_free_block = 0; file_count = 0 };
    root_entries = [];
  })

  unfoldable pub allocate_blocks : TinyFs D → ℕ → Result FsError ℕ × TinyFs D
  allocate_blocks fs blocks =
      let start = fs.superblock.next_free_block in
      let end = as_u32 (start + blocks) in
      if ltb (dev.total_blocks fs.device) end
      then (err no_space, fs)
      else (ok start, record fs { superblock = record fs.superblock { next_free_block = end } })

  -- The loop over `chunks(BLOCK_SIZE)`, of which there are `n`: each is written to the next block.
  unfoldable pub write_chunks : ℕ → D → ℕ → List ℕ → D
  write_chunks zero device block contents = device
  write_chunks (suc n) device block contents =
      write_chunks n (dev.write_block device block (pad block_size (take block_size contents)))
        (as_u32 (block + 1)) (drop block_size contents)

  unfoldable pub allocate_and_write : TinyFs D → List ℕ → Result FsError (ℕ × ℕ) × TinyFs D
  allocate_and_write fs [] = (ok (0, 0), fs)
  allocate_and_write fs (c ∷ cs) =
      let contents = c ∷ cs in
      let blocks_needed = div_ceil (length contents) block_size in
      let (r, fs') = allocate_blocks fs (as_u32 blocks_needed) in
      elim r [
        | err e ↦ (err e, fs')
        | ok start_block ↦ (
          ok (start_block, as_u32 (length contents)),
          record fs' { device = write_chunks blocks_needed fs'.device start_block contents },
        )
      ]

  -- The loop while bytes remain: `n` rounds of at most a block.
  unfoldable pub read_chunks : ℕ → D → ℕ → ℕ → List ℕ
  read_chunks zero device block remaining = []
  read_chunks (suc n) device block remaining =
      let rest = read_chunks n device (as_u32 (block + 1)) (remaining - min remaining block_size) in
      take (min remaining block_size) (dev.read_block device block) ++ rest

  -- A file of `length` bytes takes this many rounds.
  unfoldable pub read_data : TinyFs D → ℕ → ℕ → List ℕ
  read_data fs start_block len = read_chunks (div_ceil len block_size) fs.device start_block len

  unfoldable pub read_directory_entries : TinyFs D → FileEntry → Result FsError (List FileEntry)
  read_directory_entries fs entry =
      if is_directory entry.kind
      then (if entry.length == 0
          then ok []
          else ok (
              parse_entries (div_ceil entry.length dir_entry_size)
                (read_data fs entry.start_block entry.length)))
      else err not_a_directory

  unfoldable pub write_directory_entries :
      TinyFs D → List FileEntry → Result FsError (ℕ × ℕ) × TinyFs D
  write_directory_entries fs [] = (ok (0, 0), fs)
  write_directory_entries fs (e ∷ es) = allocate_and_write fs (entries_bytes (e ∷ es))
