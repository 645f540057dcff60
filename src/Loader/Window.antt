-- ===== src/Loader/Window.antt =====
-- A program that src/process.rs loads lies in the user window.
use crabv.Base.{
  ℕ, ◌+◌, ◌-◌, ◌^◌, ◌≤◌, ◌<◌, ◌≡◌, refl, sym, ap, ◌∙◌, inl, inr, some, List, [], ◌∷◌, ◌++◌, arith,
  length, length-append, length-take, length-drop, take, drop, replicate, Option-cases, ok,
  Result-cases, dec_lt, ℕ_discrete, length-replicate, subst,
}
use crabv.Elf.{Segment, ElfFile, as_usize, slice}
use crabv.Loader.{
  user_image_base, user_image_limit, user_window_size, SegmentImage, LoadedProgram, segment_bytes,
  segment_image, load_segments, load_elf, base_vaddr, copy_at, load_into_user_window,
}

-- The image lies in the window.
pub record InWindow (s : SegmentImage) : Type 0 where
  pub above : user_image_base ≤ s.dest
  pub below : s.dest + length s.bytes ≤ user_image_limit

abbrev pub AllInWindow : List SegmentImage → Type 0
AllInWindow [] = Unit {0}
AllInWindow (s ∷ ss) = InWindow s × AllInWindow ss

-- The segments stand in the lower half of the address space, and take at most 2 GB of memory each.
abbrev pub AllLow : List Segment → Type 0
AllLow [] = Unit {0}
AllLow (s ∷ ss) = ((s.vaddr < 2 ^ 63) × (s.mem_size < 2 ^ 31)) × AllLow ss

length-copy_at :
    (window : List ℕ) (offset : ℕ) (bytes : List ℕ)
    → offset + length bytes ≤ length window
    → length (copy_at window offset bytes) ≡ length window
length-copy_at window offset bytes h = omega (
  arith,
  length-append (take offset window) (bytes ++ drop (offset + length bytes) window),
  length-append bytes (drop (offset + length bytes) window),
  length-take offset window,
  length-drop (offset + length bytes) window,
)

slice_length :
    (file : List ℕ) (start end : ℕ) {part : List ℕ}
    → slice file start end ≡ some part
    → (length part ≡ end - start) × (start ≤ end)
unfolding slice
slice_length file start end {part} e = elim (dec_lt end start) [
  | yes out ↦ absurd (ground arith)
  | no a ↦ elim (dec_lt (length file) end) [
    | yes out ↦ absurd (ground arith)
    | no b ↦
        let same : take (end - start) (drop start file) ≡ part = ground arith in
        (
          ap length (sym same)
              ∙ (length-take (end - start) (drop start file)
                  ∙ omega (arith, length-drop start file)),
          omega arith,
        )
  ]
]

length-segment_bytes :
    (file : List ℕ) (seg : Segment) {bytes : List ℕ}
    → segment_bytes file seg ≡ some bytes
    → length bytes ≡ seg.mem_size
unfolding segment_bytes
length-segment_bytes file seg {bytes} e = elim (dec_lt seg.mem_size (2 ^ 63)) [
  | no huge ↦ absurd (ground arith)
  | yes small ↦ elim (ℕ_discrete seg.file_size 0) [
    | yes nothing ↦
        let same : replicate seg.mem_size 0 ≡ bytes = ground arith in
        ap length (sym same) ∙ length-replicate {A = ℕ} seg.mem_size 0
    | no some_bytes ↦ elim (dec_lt seg.mem_size seg.file_size) [
      | yes longer ↦ absurd (ground arith)
      | no fits ↦
          elim (Option-cases
            (slice file seg.file_offset (as_usize (seg.file_offset + seg.file_size)))) [
              | inl out ↦ absurd (ground arith)
              | inr (part, there) ↦
                  let zeros = replicate {A = ℕ} (seg.mem_size - seg.file_size) 0 in
                  let same : part ++ zeros ≡ bytes = ground arith in
                  let (size, forward) =
                    slice_length file seg.file_offset (as_usize (seg.file_offset + seg.file_size))
                      there in
                  ap length (sym same)
                  ∙ omega (
                    arith,
                    length-append part zeros,
                    length-replicate {A = ℕ} (seg.mem_size - seg.file_size) 0,
                    size,
                    forward,
                  )
            ]
    ]
  ]
]

segment_image-InWindow :
    (base : ℕ) (file : List ℕ) (seg : Segment) {image : SegmentImage}
    → seg.vaddr < 2 ^ 63
    → seg.mem_size < 2 ^ 31
    → segment_image base file seg ≡ some (ok image)
    → InWindow image
unfolding segment_image
segment_image-InWindow base file seg {image} low small e =
    elim (Option-cases (segment_bytes file seg)) [
      | inl bad ↦ absurd (ground arith)
      | inr (bytes, there) ↦
          let dest = as_usize (user_image_base + (seg.vaddr - base)) in
          let size : length bytes ≡ seg.mem_size = length-segment_bytes file seg there in
          elim (dec_lt user_image_limit (as_usize (dest + length bytes))) [
            | yes out ↦ absurd (ground arith)
            | no inside ↦
                let same : record { dest = dest; bytes = bytes; flags = seg.flags } ≡ image =
                  ground arith in
                subst InWindow same (record { above = omega arith; below = omega arith })
          ]
    ]

load_segments-AllInWindow :
    (base : ℕ) (file : List ℕ) (segs : List Segment) {images : List SegmentImage}
    → AllLow segs
    → load_segments base file segs ≡ some (ok images)
    → AllInWindow images
unfolding load_segments
load_segments-AllInWindow base file [] {images} low e =
    let same : [] ≡ images = ground arith in subst AllInWindow same tt
load_segments-AllInWindow base file (seg ∷ segs) {images} low e =
    elim (Option-cases (segment_image base file seg)) [
      | inl bad ↦ absurd (ground arith)
      | inr (r, first) ↦ elim (Result-cases r) [
        | inr (x, bad) ↦ absurd (ground arith)
        | inl (image, good) ↦ elim (Option-cases (load_segments base file segs)) [
          | inl bad ↦ absurd (ground arith)
          | inr (q, others) ↦ elim (Result-cases q) [
            | inr (x, bad) ↦ absurd (ground arith)
            | inl (rest, fine) ↦
                let same : image ∷ rest ≡ images = ground arith in
                subst AllInWindow same (
                  segment_image-InWindow base file seg low.0.0 low.0.1
                      (first ∙ ap (λ z. some z) good),
                  load_segments-AllInWindow base file segs low.1 (others ∙ ap (λ z. some z) fine),
                )
          ]
        ]
      ]
    ]

-- Images in the window are all copied, and the window keeps its size.
load_into_user_window_fits :
    (segs : List SegmentImage) (window : List ℕ)
    → AllInWindow segs
    → length window ≡ user_window_size
    → ((load_into_user_window segs window).0 ≡ ok tt)
      × (length (load_into_user_window segs window).1 ≡ user_window_size)
unfolding load_into_user_window
load_into_user_window_fits [] window v n = (refl, n)
load_into_user_window_fits (seg ∷ segs) window v n =
    let offset = seg.dest - user_image_base in
    let rest =
      load_into_user_window_fits segs (copy_at window offset seg.bytes) v.1
        (length-copy_at window offset seg.bytes (omega (arith, v.0.above, v.0.below)) ∙ n) in
    ground (arith, v.0.above, v.0.below, rest)

load_elf-AllInWindow :
    (elf : ElfFile) {program : LoadedProgram}
    → AllLow elf.segments
    → load_elf elf ≡ some (ok program)
    → AllInWindow program.segments
unfolding load_elf
load_elf-AllInWindow elf {program} low e =
    let loaded = load_segments (base_vaddr elf) elf.data_bytes elf.segments in
    elim (Option-cases loaded) [
      | inl bad ↦ absurd (ground arith)
      | inr (r, first) ↦ elim (Result-cases r) [
        | inr (x, bad) ↦ absurd (ground arith)
        | inl (images, good) ↦
            let same : images ≡ program.segments = ground arith in
            subst AllInWindow same (
              load_segments-AllInWindow (base_vaddr elf) elf.data_bytes elf.segments low
                (first ∙ ap (λ z. some z) good))
      ]
    ]

-- A parsed file that loads, with segments in the lower half of the address space that take at most
-- 2 GB each: all images lie in the user window, copying them there succeeds, and the window keeps
-- its size.
pub load_elf_fits :
    (elf : ElfFile) (window : List ℕ) {program : LoadedProgram}
    → AllLow elf.segments
    → length window ≡ user_window_size
    → load_elf elf ≡ some (ok program)
    → AllInWindow program.segments
      × ((load_into_user_window program.segments window).0 ≡ ok tt)
      × (length (load_into_user_window program.segments window).1 ≡ user_window_size)
load_elf_fits elf window {program} low n e =
    let images = load_elf-AllInWindow elf low e in
    let (copied, size) = load_into_user_window_fits program.segments window images n in
    (images, copied, size)
