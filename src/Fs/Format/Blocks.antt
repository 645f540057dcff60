-- ===== src/Fs/Format/Blocks.antt =====
-- The superblock of src/fs.rs, and the sizes of the two blocks before the data.
use crabv.Base.{
  ℕ, ◌+◌, ◌-◌, ◌^◌, ◌<◌, ◌≡◌, refl, sym, List, [], ◌++◌, arith, length, length-append, length-take,
  take, replicate, append_assoc,
}
use crabv.Fs.{Superblock, FileEntry, block_size, max_files}
use crabv.Bytes.{to_le_bytes, length-to_le_bytes, length-pad, drop-append_add}
use crabv.Fs.Format.{superblock_bytes, parse_superblock, entries_bytes, root_bytes}
use crabv.Fs.Format.Roundtrip.{field, length-entries_bytes}

-- A superblock of four `u32`.
pub record IsSuperblock (s : Superblock) : Type 0 where
  pub magic_u32 : s.magic < 2 ^ 32
  pub version_u32 : s.version < 2 ^ 32
  pub next_u32 : s.next_free_block < 2 ^ 32
  pub count_u32 : s.file_count < 2 ^ 32

-- Four words are read from where they stand.
parse_words :
    (s : Superblock) (rest : List ℕ)
    → IsSuperblock s
    → parse_superblock (
        to_le_bytes 4 s.magic
        ++ (to_le_bytes 4 s.version
            ++ (to_le_bytes 4 s.next_free_block ++ (to_le_bytes 4 s.file_count ++ rest))))
      ≡ s
unfolding parse_superblock
parse_words s rest v =
    let a = to_le_bytes 4 s.magic in
    let b = to_le_bytes 4 s.version in
    let c = to_le_bytes 4 s.next_free_block in
    let d = to_le_bytes 4 s.file_count in
    let ea = field [] (b ++ (c ++ (d ++ rest))) s.magic 0 refl v.magic_u32 in
    let la = length-to_le_bytes 4 s.magic in
    let lb = length-to_le_bytes 4 s.version in
    let eb = field a (c ++ (d ++ rest)) s.version 4 (sym la) v.version_u32 in
    let skip = λ (m k : ℕ) (h : m ≡ 4 + k).
      drop-append_add a (b ++ (c ++ (d ++ rest))) m k (omega (arith, la)) in
    let ec = field b (d ++ rest) s.next_free_block 4 (sym lb) v.next_u32 in
    let ed =
      field c rest s.file_count 4 (sym (length-to_le_bytes 4 s.next_free_block)) v.count_u32 in
    let skip' = drop-append_add b (c ++ (d ++ rest)) 8 4 (omega (arith, lb)) in
    ground (arith, ea, eb, skip 8 4 refl, skip 12 8 refl, skip', ec, ed)

-- A superblock that is written is read back.
pub parse_superblock-superblock_bytes :
    (s : Superblock) → IsSuperblock s → parse_superblock (superblock_bytes s) ≡ s
unfolding superblock_bytes
parse_superblock-superblock_bytes s v =
    let a = to_le_bytes 4 s.magic in
    let b = to_le_bytes 4 s.version in
    let c = to_le_bytes 4 s.next_free_block in
    let d = to_le_bytes 4 s.file_count in
    let z = replicate {A = ℕ} (512 - length (a ++ (b ++ (c ++ d)))) 0 in
    rw (append_assoc a (b ++ (c ++ d)) z)
      (rw (append_assoc b (c ++ d) z) (rw (append_assoc c d z) (parse_words s z v)))

pub length-superblock_bytes : (s : Superblock) → length (superblock_bytes s) ≡ block_size
unfolding superblock_bytes
length-superblock_bytes s =
    let a = to_le_bytes 4 s.magic in
    let b = to_le_bytes 4 s.version in
    let c = to_le_bytes 4 s.next_free_block in
    let d = to_le_bytes 4 s.file_count in
    length-pad block_size (a ++ (b ++ (c ++ d))) (
      omega (
        arith,
        length-append a (b ++ (c ++ d)),
        length-append b (c ++ d),
        length-append c d,
        length-to_le_bytes 4 s.magic,
        length-to_le_bytes 4 s.version,
        length-to_le_bytes 4 s.next_free_block,
        length-to_le_bytes 4 s.file_count,
      ))

pub length-root_bytes : (es : List FileEntry) → length (root_bytes es) ≡ block_size
unfolding root_bytes
length-root_bytes es =
    length-pad block_size (entries_bytes (take max_files es))
      (omega (arith, length-entries_bytes (take max_files es), length-take max_files es))
