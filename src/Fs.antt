-- ===== src/Fs.antt =====
-- The filesystem of src/fs.rs: its data, the block device it stands on, and its constants. A string
-- is its bytes, a `u32` is a number below 2 ^ 32.
pub mod Error
pub mod Format
pub mod Disk
pub mod Path
pub mod Ops
pub mod Examples
use crabv.Base.{ℕ, ◌%◌, ◌^◌, ◌≡◌, ◌≢◌, ◌<◌, Option, List, length}

abbrev pub block_size : ℕ
block_size = 512

abbrev pub magic_number : ℕ
magic_number = 1413894961

abbrev pub version_number : ℕ
version_number = 2

abbrev pub dir_block_index : ℕ
dir_block_index = 1

abbrev pub data_start_block : ℕ
data_start_block = 2

abbrev pub name_len : ℕ
name_len = 32

abbrev pub dir_entry_size : ℕ
dir_entry_size = 44

-- BLOCK_SIZE / DIR_ENTRY_SIZE
abbrev pub max_files : ℕ
max_files = 11

-- `as u32`, and an addition of a release build.
abbrev pub as_u32 : ℕ → ℕ
as_u32 n = n % 2 ^ 32

pub record Superblock : Type 0 where
  pub magic : ℕ
  pub version : ℕ
  pub next_free_block : ℕ
  pub file_count : ℕ

pub data EntryType : Type 0 where
  regular directory : EntryType

pub record FileEntry : Type 0 where
  pub name : List ℕ
  pub start_block : ℕ
  pub length : ℕ
  pub kind : EntryType

-- The trait: what `read_block` puts into its buffer, and the device that `write_block` leaves.
pub record BlockDevice (D : Type 0) : Type 0 where
  pub total_blocks : D → ℕ
  pub read_block : D → ℕ → List ℕ
  pub write_block : D → ℕ → List ℕ → D

-- What a block device promises. A block keeps what was written last, and a write to one block
-- leaves the others alone.
pub record IsDevice {D : Type 0} (dev : BlockDevice D) : Type 0 where
  pub read_size : (d : D) (b : ℕ) → length (dev.read_block d b) ≡ block_size
  pub read_same :
      (d : D) (b : ℕ) (bytes : List ℕ)
      → b < dev.total_blocks d
      → length bytes ≡ block_size
      → dev.read_block (dev.write_block d b bytes) b ≡ bytes
  pub read_other :
      (d : D) (b c : ℕ) (bytes : List ℕ)
      → b ≢ c
      → dev.read_block (dev.write_block d b bytes) c ≡ dev.read_block d c
  pub total_kept :
      (d : D) (b : ℕ) (bytes : List ℕ)
      → dev.total_blocks (dev.write_block d b bytes) ≡ dev.total_blocks d

pub record TinyFs (D : Type 0) : Type 0 where
  pub device : D
  pub superblock : Superblock
  pub root_entries : List FileEntry

-- `struct LoadedDir`
pub record LoadedDir : Type 0 where
  pub entries : List FileEntry
  pub entry_index_in_parent : Option ℕ
