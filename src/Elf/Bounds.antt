-- ===== src/Elf/Bounds.antt =====
-- The parser of src/elf.rs stays inside the data that it was given.
use crabv.Base.{
  ℕ, zero, suc, ◌+◌, ◌-◌, ◌*◌, ◌^◌, ◌≤◌, ◌<◌, ◌≡◌, ◌≢◌, refl, sym, ap, ap₂, subst, ◌∙◌, Option,
  none, some, List, [], ◌∷◌, arith, length, take, drop, Result, ok, err, ℕ_discrete, dec_lt,
}
use crabv.Elf.{
  ElfError, truncated, unsupported_version, Segment, ElfFile, Elf64Header, parse_header,
  parse_program_header, segment, slice, as_usize, read_segments, parse_segments, parse, header_size,
  pt_load,
}

-- The segment is what a program header of the file says, number `k` of those at `phoff`.
pub record Described (bytes : List ℕ) (phoff : ℕ) (s : Segment) (k : ℕ) : Type 0 where
  pub inside : phoff + (k + 1) * 56 ≤ length bytes
  pub loads : (parse_program_header (take 56 (drop (phoff + k * 56) bytes))).type_code ≡ pt_load
  pub said : s ≡ segment (parse_program_header (take 56 (drop (phoff + k * 56) bytes)))

-- The segments are what the loadable program headers from number `lo` to below `hi` say, in their
-- order, and every other header in this range is of another type.
pub data AreDescribed (bytes : List ℕ) (phoff hi : ℕ) : ℕ → List Segment → Type 0 where
  done : AreDescribed bytes phoff hi hi []
  more :
      {lo : ℕ} {s : Segment} {ss : List Segment}
      → Described bytes phoff s lo
      → AreDescribed bytes phoff hi (lo + 1) ss
      → AreDescribed bytes phoff hi lo (s ∷ ss)
  skip :
      {lo : ℕ} {ss : List Segment}
      → (parse_program_header (take 56 (drop (phoff + lo * 56) bytes))).type_code ≢ pt_load
      → AreDescribed bytes phoff hi (lo + 1) ss
      → AreDescribed bytes phoff hi lo ss

abbrev start_of : ℕ → ℕ → ℕ
start_of phoff idx = as_usize (phoff + as_usize (idx * 56))

abbrev header_at : List ℕ → ℕ → ℕ → List ℕ
header_at bytes phoff idx = take 56 (drop (phoff + idx * 56) bytes)

slice_fits :
    (bytes : List ℕ) (start end : ℕ)
    → end ≡ start + 56
    → end ≤ length bytes
    → slice bytes start end ≡ some (take 56 (drop start bytes))
unfolding slice
slice_fits bytes start end at h = let size : end - start ≡ 56 = omega arith in ground (arith, size)

slice_header :
    (bytes : List ℕ) (phoff idx : ℕ)
    → phoff + (idx + 1) * 56 ≤ length bytes
    → length bytes < 2 ^ 64
    → slice bytes (start_of phoff idx) (as_usize (start_of phoff idx + 56))
      ≡ some (header_at bytes phoff idx)
slice_header bytes phoff idx h b =
    let start : start_of phoff idx ≡ phoff + idx * 56 = omega arith in
    let end : as_usize (start_of phoff idx + 56) ≡ phoff + idx * 56 + 56 = omega arith in
    ap₂ (slice bytes) start end
    ∙ slice_fits bytes (phoff + idx * 56) (phoff + idx * 56 + 56) refl (omega arith)

read_segments_described :
    (n : ℕ) (bytes : List ℕ) (phoff idx hi : ℕ)
    → idx + n ≡ hi
    → phoff + hi * 56 ≤ length bytes
    → length bytes < 2 ^ 64
    → (segments : List Segment) × (read_segments n bytes phoff idx ≡ some segments)
      × AreDescribed bytes phoff hi idx segments
unfolding read_segments
read_segments_described zero bytes phoff idx hi at h b =
    let same : hi ≡ idx = omega arith in
    ([], refl, subst (λ lo. AreDescribed bytes phoff hi lo []) same done)
read_segments_described (suc n) bytes phoff idx hi at h b =
    let (ss, e, a) = read_segments_described n bytes phoff (idx + 1) hi (omega arith) h b in
    let here = slice_header bytes phoff idx (omega arith) b in
    let ph = parse_program_header (header_at bytes phoff idx) in
    elim (ℕ_discrete ph.type_code pt_load) [
      | yes loads ↦ (
        segment ph ∷ ss,
        ground (arith, here, e, loads),
        more (record { inside = omega arith; loads = loads; said = refl }) a,
      )
      | no other ↦ (ss, ground (arith, here, e, other), skip other a)
    ]

-- The bytes before the header were accepted, and describe this header.
pub record Accepted (bytes : List ℕ) (header : Elf64Header) : Type 0 where
  pub long : header_size ≤ length bytes
  pub read : parse_header (take header_size bytes) ≡ ok header

-- The place of the program headers does not wrap.
abbrev pub table_end : Elf64Header → ℕ
table_end header = header.phoff + header.phnum * header.phentsize

parse-Accepted :
    (bytes : List ℕ) (header : Elf64Header)
    → Accepted bytes header
    → parse bytes ≡ parse_segments bytes header
unfolding parse
parse-Accepted bytes header a = ground (arith, a.long, a.read)

-- What `parse` does with a file whose header was accepted, and whose table of program headers does
-- not end beyond the address space.
pub data Parsed (bytes : List ℕ) (header : Elf64Header)
    : Option (Result ElfError ElfFile) → Type 0 where
  wrong_size : header.phentsize ≢ 56 → Parsed bytes header (some (err unsupported_version))
  too_short :
      header.phentsize ≡ 56
      → length bytes < table_end header
      → Parsed bytes header (some (err truncated))
  loaded :
      {segments : List Segment}
      → header.phentsize ≡ 56
      → table_end header ≤ length bytes
      → AreDescribed bytes header.phoff header.phnum 0 segments
      → Parsed bytes header
          (some (ok (record { entry = header.entry; segments = segments; data_bytes = bytes })))

parse_segments_fits :
    (bytes : List ℕ) (header : Elf64Header) {segments : List Segment}
    → header.phentsize ≡ 56
    → table_end header ≤ length bytes
    → length bytes < 2 ^ 64
    → read_segments header.phnum bytes header.phoff 0 ≡ some segments
    → parse_segments bytes header
      ≡ some (ok (record { entry = header.entry; segments = segments; data_bytes = bytes }))
unfolding parse_segments
parse_segments_fits bytes header size room b e = ground arith

parse_segments_size :
    (bytes : List ℕ) (header : Elf64Header)
    → header.phentsize ≢ 56
    → parse_segments bytes header ≡ some (err unsupported_version)
unfolding parse_segments
parse_segments_size bytes header other = ground arith

parse_segments_short :
    (bytes : List ℕ) (header : Elf64Header)
    → header.phentsize ≡ 56
    → length bytes < table_end header
    → table_end header < 2 ^ 64
    → parse_segments bytes header ≡ some (err truncated)
unfolding parse_segments
parse_segments_short bytes header size short t = ground arith

parse_segments-Parsed :
    (bytes : List ℕ) (header : Elf64Header)
    → length bytes < 2 ^ 64
    → table_end header < 2 ^ 64
    → Parsed bytes header (parse_segments bytes header)
parse_segments-Parsed bytes header b t = elim (ℕ_discrete header.phentsize 56) [
  | no other ↦ rw (parse_segments_size bytes header other) (wrong_size other)
  | yes size ↦ elim (dec_lt (length bytes) (table_end header)) [
    | yes short ↦ rw (parse_segments_short bytes header size short t) (too_short size short)
    | no room ↦
        let end : table_end header ≡ header.phoff + header.phnum * 56 =
          ap (λ z. header.phoff + header.phnum * z) size in
        let (ss, e, a) =
          read_segments_described header.phnum bytes header.phoff 0 header.phnum (omega arith)
            (omega (arith, end)) b in
        rw (parse_segments_fits bytes header size (omega arith) b e) (loaded size (omega arith) a)
  ]
]

-- A file whose header is accepted, and whose table of program headers ends below 2 ^ 64, makes the
-- parser return: an error if the size of a program header is wrong or the table does not fit, and
-- otherwise all of the loadable program headers in their order, each read from inside the file.
pub parse-Parsed :
    (bytes : List ℕ) (header : Elf64Header)
    → Accepted bytes header
    → length bytes < 2 ^ 64
    → table_end header < 2 ^ 64
    → Parsed bytes header (parse bytes)
parse-Parsed bytes header a b t =
    subst (Parsed bytes header) (sym (parse-Accepted bytes header a))
      (parse_segments-Parsed bytes header b t)

slice_past : (bytes : List ℕ) (start end : ℕ) → length bytes < start → slice bytes start end ≡ none
unfolding slice
slice_past bytes start end h = ground arith

read_segments_past :
    (n : ℕ) (bytes : List ℕ) (phoff : ℕ)
    → 0 < n
    → length bytes < phoff
    → phoff < 2 ^ 64
    → read_segments n bytes phoff 0 ≡ none
unfolding read_segments
read_segments_past zero bytes phoff pos h b = absurd (omega arith)
read_segments_past (suc n) bytes phoff pos h b =
    ground
      (arith, slice_past bytes (start_of phoff 0) (as_usize (start_of phoff 0 + 56)) (omega arith))

-- The check of the table's end is made on a sum that wraps. A header that puts the table behind the
-- end of the file, so far that the sum wraps to a number within the file, passes it, and the parser
-- panics.
pub parse_panics :
    (bytes : List ℕ) (header : Elf64Header)
    → Accepted bytes header
    → header.phentsize ≡ 56
    → header.phoff < 2 ^ 64
    → length bytes < header.phoff
    → as_usize (header.phoff + as_usize (header.phnum * header.phentsize)) ≤ length bytes
    → parse bytes ≡ none
unfolding parse_segments
parse_panics bytes header a size b past wraps =
    let p : header.phnum * header.phentsize ≡ header.phnum * 56 = ap (λ z. header.phnum * z) size in
    ground (
      arith,
      parse-Accepted bytes header a,
      p,
      read_segments_past header.phnum bytes header.phoff (omega arith) past b,
    )
