-- ===== src/Fs/Examples.antt =====
-- A device in memory, and instances of the theorems on the filesystem.
use crabv.Base.{
  ℕ, ◌≡◌, refl, ap, subst, List, [], ◌∷◌, ◌++◌, arith, length, replicate, if◌then◌else◌, ◌==◌, true,
  false, ok, some, Bool-cases, inl, inr, length-replicate,
}
use crabv.Fs.{BlockDevice, IsDevice, TinyFs, FileEntry, regular, magic_number, version_number}
use crabv.Bytes.{to_le_bytes, is_utf8, has_no_nul}
use crabv.Fs.Format.{write_entry}
use crabv.Fs.Format.Roundtrip.{IsEntry}
use crabv.Fs.Disk.{
  flush_superblock, flush_root_directory, mount, allocate_blocks, allocate_and_write,
}
use crabv.Fs.Disk.Mount.{IsMountable, flushed, mount-flush_superblock}
use crabv.Fs.Disk.Data.{IsSound, Extent, Extends, allocate_and_write-Extends}
use crabv.Fs.Path.{
  same_name, split, not_empty, split_path, find_entry, walk, load_directory_chain, persist_levels,
  persist_directory_chain,
}
use crabv.Fs.Ops.{split_leaf, check_name, open_named, link, read_file_contents, write_file_contents}
use crabv.Fs.Ops.Written.{write_file_contents_succeeds}
use crabv.Fs.Ops.Root.{read_file_contents-write_file_contents, write_file_contents_other}

-- A device of 64 blocks: what stands in each. A write outside of it is dropped.
abbrev pub Memory : Type 0
Memory = ℕ → List ℕ

-- A block as it is kept: 512 bytes, whatever was given.
abbrev whole : List ℕ → List ℕ
whole bytes = if length bytes == 512 then bytes else replicate 512 0

whole_size : (bytes : List ℕ) → length (whole bytes) ≡ 512
whole_size bytes = elim (Bool-cases (length bytes == 512)) [
  | inl right ↦ ground arith
  | inr wrong ↦ rw wrong (length-replicate {A = ℕ} 512 0)
]

abbrev pub memory : BlockDevice Memory
memory = record {
  total_blocks = λ d. 64;
  read_block = λ d b. whole (d b);
  write_block = λ d b bytes c. if b == c then bytes else d c;
}

pub memory-IsDevice : IsDevice memory
memory-IsDevice = record {
  read_size = λ d b. whole_size (d b);
  read_same = λ d b bytes h s. ground arith;
  read_other = λ d b c bytes ne. ground arith;
  total_kept = λ d b bytes. refl;
}

abbrev entry : FileEntry
entry = record { name = 97 ∷ []; start_block = 2; length = 2; kind = regular }

abbrev entry_bytes : List ℕ
entry_bytes = 97 ∷ (replicate 31 0 ++ (2 ∷ 0 ∷ 0 ∷ 0 ∷ 2 ∷ 0 ∷ 0 ∷ 0 ∷ 1 ∷ 0 ∷ 0 ∷ 0 ∷ []))

entry-bytes : write_entry entry ≡ entry_bytes
unfolding write_entry to_le_bytes
entry-bytes = refl

-- A second byte that is no continuation, a lone surrogate, and a character of three bytes.
utf8_tests :
    (is_utf8 (195 ∷ 40 ∷ []) ≡ false)
    × (is_utf8 (237 ∷ 160 ∷ 128 ∷ []) ≡ false)
    × (is_utf8 (226 ∷ 130 ∷ 172 ∷ []) ≡ true)
unfolding is_utf8
utf8_tests = (refl, refl, refl)

entry-IsEntry : IsEntry entry
unfolding has_no_nul is_utf8
entry-IsEntry = record {
  not_empty = omega arith;
  fits = omega arith;
  no_nul = refl;
  utf8 = refl;
  start_u32 = omega arith;
  length_u32 = omega arith;
}

-- A disk with the file `a`.
abbrev pub disk : TinyFs Memory
disk = record {
  device = λ b. [];
  superblock = record {
    magic = magic_number;
    version = version_number;
    next_free_block = 3;
    file_count = 1;
  };
  root_entries = entry ∷ [];
}

pub disk-IsSound : IsSound memory disk
disk-IsSound = record { not_huge = omega arith; next_inside = omega arith; past_root = omega arith }

disk-IsMountable : IsMountable memory disk
disk-IsMountable = record {
  magic_right = refl;
  version_right = refl;
  words = record {
    magic_u32 = omega arith;
    version_u32 = omega arith;
    next_u32 = omega arith;
    count_u32 = omega arith;
  };
  entries = (entry-IsEntry, tt);
  few = omega arith;
  room = omega arith;
}

-- `/b` and `a`, and what is written.
abbrev pub path_b : List ℕ
path_b = 47 ∷ 98 ∷ []

abbrev path_a : List ℕ
path_a = 97 ∷ []

abbrev pub text : List ℕ
text = 104 ∷ 105 ∷ []

pub path_b-split : split_path path_b ≡ (98 ∷ []) ∷ []
unfolding split_path split not_empty
path_b-split = refl

path_a-split : split_path path_a ≡ (97 ∷ []) ∷ []
unfolding split_path split not_empty
path_a-split = refl

abbrev pub disk_b : TinyFs Memory
disk_b = (write_file_contents memory disk path_b text).1

pub write_succeeds : (write_file_contents memory disk path_b text).0 ≡ ok tt
unfolding write_file_contents open_named split_path split not_empty split_leaf check_name
    load_directory_chain walk find_entry same_name allocate_and_write allocate_blocks link
    persist_directory_chain persist_levels
write_succeeds = refl

pub written : write_file_contents memory disk path_b text ≡ (ok tt, disk_b)
written = ap (λ r. (r, disk_b)) write_succeeds

-- A longer text, over the file.
abbrev pub twice : List ℕ
twice = text ++ text

pub disk_b-IsSound : IsSound memory disk_b
unfolding write_file_contents open_named split_path split not_empty split_leaf check_name
    load_directory_chain walk find_entry same_name allocate_and_write allocate_blocks link
    persist_directory_chain persist_levels flush_superblock flush_root_directory
disk_b-IsSound =
    let next : disk_b.superblock.next_free_block ≡ 4 = refl in
    record {
      not_huge = omega arith;
      next_inside = omega (arith, next);
      past_root = omega (arith, next);
    }

pub append_succeeds : (write_file_contents memory disk_b path_b twice).0 ≡ ok tt
unfolding write_file_contents open_named split_path split not_empty split_leaf check_name
    load_directory_chain walk find_entry same_name allocate_and_write allocate_blocks link
    persist_directory_chain persist_levels flush_superblock flush_root_directory
append_succeeds = refl

file_inside :
    (found : ℕ × FileEntry)
    → find_entry (entry ∷ []) (97 ∷ []) 0 ≡ some found
    → Extent memory memory-IsDevice disk found.1.start_block found.1.length
unfolding find_entry same_name
file_inside found h =
    let same : (0, entry) ≡ found = ground arith in
    subst (λ (f : ℕ × FileEntry). Extent memory memory-IsDevice disk f.1.start_block f.1.length)
      same (record { inside = omega arith; behind = λ k. omega arith })

mount-flush_superblock_example :
    mount memory (flushed memory memory-IsDevice disk).device ≡ flushed memory memory-IsDevice disk
mount-flush_superblock_example = mount-flush_superblock memory memory-IsDevice disk disk-IsMountable

allocate_and_write-Extends_example :
    Extends memory memory-IsDevice disk (allocate_and_write memory disk text).1
allocate_and_write-Extends_example =
    allocate_and_write-Extends memory memory-IsDevice disk text disk-IsSound (omega arith)

read_file_contents-write_file_contents_example : read_file_contents memory disk_b path_b ≡ ok text
read_file_contents-write_file_contents_example =
    read_file_contents-write_file_contents memory memory-IsDevice disk path_b (98 ∷ []) text
      disk-IsSound path_b-split (omega arith) written

write_file_contents_other_example :
    read_file_contents memory disk_b path_a ≡ read_file_contents memory disk path_a
write_file_contents_other_example =
    write_file_contents_other memory memory-IsDevice disk path_b (98 ∷ []) text path_a (97 ∷ [])
      disk-IsSound path_b-split path_a-split (λ e. ground arith) (omega arith) file_inside written

write_file_contents_succeeds_example : (write_file_contents memory disk path_b text).0 ≡ ok tt
unfolding check_name find_entry same_name
write_file_contents_succeeds_example =
    write_file_contents_succeeds memory memory-IsDevice disk path_b (98 ∷ []) text disk-IsSound
      path_b-split refl refl (omega arith) (omega arith)
