-- ===== src/Loader.antt =====
-- Loading of programs in src/process.rs: from a file to the images of its segments, and from these
-- to the user window. A panic of the kernel is `none`.
pub mod Window
pub mod Stack
mod Examples
use crabv.Base.{
  ℕ, zero, suc, ◌+◌, ◌-◌, ◌^◌, Bool, true, false, Option, none, some, List, [], ◌∷◌, ◌++◌, Result,
  ok, err, ltb, leb, ◌==◌, if◌then◌else◌, length, take, drop, replicate, min,
}
use crabv.Fs.Error.{FsError}
use crabv.Elf.{ElfError, Segment, ElfFile, parse, slice, as_usize}

-- USER_IMAGE_BASE and USER_IMAGE_LIMIT
abbrev pub user_image_base : ℕ
user_image_base = 2151677952

abbrev pub user_image_limit : ℕ
user_image_limit = 2151809024

abbrev pub user_window_size : ℕ
user_window_size = 131072

pub data LoadError : Type 0 where
  in_fs : FsError → LoadError
  in_elf : ElfError → LoadError
  out_of_memory : LoadError

pub record SegmentImage : Type 0 where
  pub dest : ℕ
  pub bytes : List ℕ
  pub flags : ℕ

pub record LoadedProgram : Type 0 where
  pub entry : ℕ
  pub stack_top : ℕ
  pub segments : List SegmentImage

-- `map(|seg| seg.vaddr).min()`
unfoldable pub min_vaddr : Segment → List Segment → ℕ
min_vaddr s [] = s.vaddr
min_vaddr s (t ∷ ts) = min s.vaddr (min_vaddr t ts)

unfoldable pub base_vaddr : ElfFile → ℕ
base_vaddr elf = elim elf.segments [ [] ↦ elf.entry | s ∷ ss ↦ min_vaddr s ss ]

-- The bytes of a segment: zeros, and the part that stands in the file over them. A vector takes
-- less than 2 ^ 63 bytes, and both slices must lie inside what is sliced.
unfoldable pub segment_bytes : List ℕ → Segment → Option (List ℕ)
segment_bytes file seg =
    if leb (2 ^ 63) seg.mem_size
    then none
    else (if seg.file_size == 0
        then some (replicate seg.mem_size 0)
        else (if ltb seg.mem_size seg.file_size
            then none
            else elim (slice file seg.file_offset (as_usize (seg.file_offset + seg.file_size))) [
              | none ↦ none
              | some part ↦ some (part ++ replicate (seg.mem_size - seg.file_size) 0)
            ]))

-- The image of one segment. The sums of addresses wrap.
unfoldable pub segment_image : ℕ → List ℕ → Segment → Option (Result LoadError SegmentImage)
segment_image base file seg = elim (segment_bytes file seg) [
  | none ↦ none
  | some bytes ↦
      let dest_addr = as_usize (user_image_base + (seg.vaddr - base)) in
      if ltb user_image_limit (as_usize (dest_addr + length bytes))
      then some (err out_of_memory)
      else some (ok (record { dest = dest_addr; bytes = bytes; flags = seg.flags }))
]

-- The loop over the segments.
unfoldable pub load_segments :
    ℕ → List ℕ → List Segment → Option (Result LoadError (List SegmentImage))
load_segments base file [] = some (ok [])
load_segments base file (seg ∷ segs) =
    let rest = load_segments base file segs in
    elim (segment_image base file seg) [
      | none ↦ none
      | some r ↦ elim r [
        | err e ↦ some (err e)
        | ok image ↦ elim rest [
          | none ↦ none
          | some q ↦ elim q [ err e ↦ some (err e) | ok images ↦ some (ok (image ∷ images)) ]
        ]
      ]
    ]

-- The part of `load` after the file was parsed.
unfoldable pub load_elf : ElfFile → Option (Result LoadError LoadedProgram)
load_elf elf = elim (load_segments (base_vaddr elf) elf.data_bytes elf.segments) [
  | none ↦ none
  | some r ↦ elim r [
    | err e ↦ some (err e)
    | ok segments ↦ some (
        ok (record {
          entry = as_usize (user_image_base + (elf.entry - base_vaddr elf));
          stack_top = user_image_limit;
          segments = segments;
        }))
  ]
]

-- `load`, with what `fs::read_file` returned.
unfoldable pub load : Result FsError (List ℕ) → Option (Result LoadError LoadedProgram)
load (err e) = some (err (in_fs e))
load (ok bytes) = elim (parse bytes) [
  | none ↦ none
  | some r ↦ elim r [ err e ↦ some (err (in_elf e)) | ok elf ↦ load_elf elf ]
]

-- A copy into the window at an offset.
abbrev pub copy_at : List ℕ → ℕ → List ℕ → List ℕ
copy_at window offset bytes = take offset window ++ (bytes ++ drop (offset + length bytes) window)

-- The loop of `load_into_user_window`, on the window.
unfoldable pub load_into_user_window :
    List SegmentImage → List ℕ → Result LoadError (Unit {0}) × List ℕ
load_into_user_window [] window = (ok tt, window)
load_into_user_window (seg ∷ segs) window =
    let offset = seg.dest - user_image_base in
    let rest = load_into_user_window segs (copy_at window offset seg.bytes) in
    if ltb user_window_size (as_usize (offset + length seg.bytes))
    then (err out_of_memory, window)
    else rest
