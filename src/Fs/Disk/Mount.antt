-- ===== src/Fs/Disk/Mount.antt =====
-- Mounting reads what `flush_superblock` and `flush_root_directory` of src/fs.rs wrote.
use crabv.Base.{ℕ, ◌-◌, ◌≤◌, ◌≡◌, refl, ap, ◌∙◌, [], arith, length, replicate}
use crabv.Fs.{
  BlockDevice, IsDevice, TinyFs, magic_number, version_number, dir_block_index, max_files,
}
use crabv.Bytes.{take_le}
use crabv.Fs.Format.{superblock_bytes, parse_superblock, root_bytes, parse_entries, entries_bytes}
use crabv.Fs.Format.Roundtrip.{AreEntries, parse_entries-entries_bytes}
use crabv.Fs.Format.Blocks.{
  IsSuperblock, parse_superblock-superblock_bytes, length-superblock_bytes, length-root_bytes,
}
use crabv.Fs.Disk.{
  flush_superblock, flush_root_directory, load_root_directory, load_or_format, mount, format_disk,
}

-- What a mounted filesystem keeps in memory, and the disk can hold.
pub record IsMountable {D : Type 0} (dev : BlockDevice D) (fs : TinyFs D) : Type 0 where
  pub magic_right : fs.superblock.magic ≡ magic_number
  pub version_right : fs.superblock.version ≡ version_number
  pub words : IsSuperblock fs.superblock
  pub entries : AreEntries fs.root_entries
  pub few : length fs.root_entries ≤ max_files
  pub room : 2 ≤ dev.total_blocks fs.device

module _ {D : Type 0} (dev : BlockDevice D) (law : IsDevice dev) where
  -- The state that both flushes leave.
  abbrev pub flushed : TinyFs D → TinyFs D
  flushed fs = flush_superblock dev (flush_root_directory dev fs)

  read_root :
      (fs : TinyFs D)
      → IsMountable dev fs
      → dev.read_block (flushed fs).device 1 ≡ root_bytes fs.root_entries
  unfolding flush_superblock flush_root_directory
  read_root fs v =
      let d = dev.write_block fs.device dir_block_index (root_bytes fs.root_entries) in
      law.read_other d 0 1 (superblock_bytes fs.superblock) (λ e. absurd (omega arith))
      ∙ law.read_same fs.device 1 (root_bytes fs.root_entries) (omega (arith, v.room))
          (length-root_bytes fs.root_entries)

  read_super :
      (fs : TinyFs D)
      → IsMountable dev fs
      → dev.read_block (flushed fs).device 0 ≡ superblock_bytes fs.superblock
  unfolding flush_superblock flush_root_directory
  read_super fs v =
      let d = dev.write_block fs.device dir_block_index (root_bytes fs.root_entries) in
      law.read_same d 0 (superblock_bytes fs.superblock)
        (omega (arith, v.room, law.total_kept fs.device 1 (root_bytes fs.root_entries)))
        (length-superblock_bytes fs.superblock)

  parse_root :
      (fs : TinyFs D)
      → IsMountable dev fs
      → parse_entries max_files (root_bytes fs.root_entries) ≡ fs.root_entries
  unfolding root_bytes
  parse_root fs v = rw (take_le fs.root_entries 11 v.few) (
      parse_entries-entries_bytes fs.root_entries 11 (512 - length (entries_bytes fs.root_entries))
        v.entries v.few)

  flushed-eq : (fs : TinyFs D) → flushed fs ≡ record fs { device = (flushed fs).device }
  unfolding flush_superblock flush_root_directory
  flushed-eq fs = refl

  -- On a device that keeps its promise, a filesystem of at most eleven root entries, all of which
  -- the format can hold, is mounted from the disk exactly as it was when its superblock and its
  -- root directory were written.
  pub mount-flush_superblock :
      (fs : TinyFs D) → IsMountable dev fs → mount dev (flushed fs).device ≡ flushed fs
  unfolding mount load_or_format load_root_directory
  mount-flush_superblock fs v =
      let again : parse_superblock (dev.read_block (flushed fs).device 0) ≡ fs.superblock =
        ap parse_superblock (read_super fs v)
        ∙ parse_superblock-superblock_bytes fs.superblock v.words in
      let root : parse_entries 11 (dev.read_block (flushed fs).device 1) ≡ fs.root_entries =
        ap (parse_entries 11) (read_root fs v) ∙ parse_root fs v in
      rw again (rw root (ground (arith, v.magic_right, v.version_right, flushed-eq fs)))

  -- On a device of two blocks or more that keeps its promise, `format_disk` leaves a disk that
  -- mounts as the empty filesystem that it returned.
  pub mount-format_disk :
      (fs : TinyFs D)
      → 2 ≤ dev.total_blocks fs.device
      → mount dev (format_disk dev fs).device ≡ format_disk dev fs
  unfolding format_disk
  mount-format_disk fs room =
      let blank = replicate {A = ℕ} 512 0 in
      let d1 = dev.write_block fs.device 0 blank in
      let d = dev.write_block d1 1 blank in
      mount-flush_superblock
        (record {
          device = d;
          superblock = record {
            magic = magic_number;
            version = version_number;
            next_free_block = 2;
            file_count = 0;
          };
          root_entries = [];
        })
        record {
          magic_right = refl;
          version_right = refl;
          words = record {
            magic_u32 = omega arith;
            version_u32 = omega arith;
            next_u32 = omega arith;
            count_u32 = omega arith;
          };
          entries = tt;
          few = omega arith;
          room = omega (arith, room, law.total_kept fs.device 0 blank, law.total_kept d1 1 blank);
        }
