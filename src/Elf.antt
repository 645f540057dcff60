-- ===== src/Elf.antt =====
-- The parser of src/elf.rs. A slice that leaves the data is a panic of the kernel, which is `none`.
pub mod Bounds
mod Examples
use crabv.Base.{
  ℕ, zero, suc, ◌+◌, ◌-◌, ◌*◌, ◌%◌, ◌^◌, Bool, true, false, ◌&&◌, ◌||◌, not, Option, none, some,
  List, [], ◌∷◌, Result, ok, err, ◌>>=◌, ltb, leb, ◌==◌, if◌then◌else◌, length, take, drop, get_or,
}
use crabv.Bytes.{from_le_bytes}

abbrev pub elf_class_64 : ℕ
elf_class_64 = 2

abbrev pub elf_data_lsb : ℕ
elf_data_lsb = 1

abbrev pub elf_version : ℕ
elf_version = 1

abbrev pub pt_load : ℕ
pt_load = 1

-- `size_of` the two headers.
abbrev pub header_size : ℕ
header_size = 64

abbrev pub program_header_size : ℕ
program_header_size = 56

pub data ElfError : Type 0 where
  bad_magic unsupported_class unsupported_encoding unsupported_version truncated unsupported_type :
      ElfError

pub record Segment : Type 0 where
  pub vaddr : ℕ
  pub mem_size : ℕ
  pub file_size : ℕ
  pub file_offset : ℕ
  pub align : ℕ
  pub flags : ℕ

pub record ElfFile : Type 0 where
  pub entry : ℕ
  pub segments : List Segment
  pub data_bytes : List ℕ

pub record Elf64Header : Type 0 where
  pub ident : List ℕ
  pub type_code : ℕ
  pub machine : ℕ
  pub version : ℕ
  pub entry : ℕ
  pub phoff : ℕ
  pub shoff : ℕ
  pub flags : ℕ
  pub ehsize : ℕ
  pub phentsize : ℕ
  pub phnum : ℕ
  pub shentsize : ℕ
  pub shnum : ℕ
  pub shstrndx : ℕ

-- A number of `size` bytes at an offset.
abbrev pub field : List ℕ → ℕ → ℕ → ℕ
field value offset size = from_le_bytes (take size (drop offset value))

-- The first four bytes are ELF_MAGIC.
abbrev pub has_magic : List ℕ → Bool
has_magic ident =
    (get_or ident 0 0 == 127)
    && ((get_or ident 1 0 == 69) && ((get_or ident 2 0 == 76) && (get_or ident 3 0 == 70)))

-- The fields that `try_from` reads once the identification was accepted.
abbrev header_fields : List ℕ → Elf64Header
header_fields value = record {
  ident = take 16 value;
  type_code = field value 16 2;
  machine = field value 18 2;
  version = field value 20 4;
  entry = field value 24 8;
  phoff = field value 32 8;
  shoff = field value 40 8;
  flags = field value 48 4;
  ehsize = field value 52 2;
  phentsize = field value 54 2;
  phnum = field value 56 2;
  shentsize = field value 58 2;
  shnum = field value 60 2;
  shstrndx = field value 62 2;
}

-- `TryFrom<&[u8; 64]> for Elf64Header`
unfoldable pub parse_header : List ℕ → Result ElfError Elf64Header
parse_header value =
    let ident = take 16 value in
    if not (has_magic ident)
    then err bad_magic
    else (if not (get_or ident 4 0 == elf_class_64)
        then err unsupported_class
        else (if not (get_or ident 5 0 == elf_data_lsb)
            then err unsupported_encoding
            else (if not (get_or ident 6 0 == elf_version)
                then err unsupported_version
                else ok (header_fields value))))

pub record Elf64ProgramHeader : Type 0 where
  pub type_code : ℕ
  pub flags : ℕ
  pub offset : ℕ
  pub vaddr : ℕ
  pub paddr : ℕ
  pub filesz : ℕ
  pub memsz : ℕ
  pub align : ℕ

-- `From<&[u8; 56]> for Elf64ProgramHeader`
unfoldable pub parse_program_header : List ℕ → Elf64ProgramHeader
parse_program_header value = record {
  type_code = field value 0 4;
  flags = field value 4 4;
  offset = field value 8 8;
  vaddr = field value 16 8;
  paddr = field value 24 8;
  filesz = field value 32 8;
  memsz = field value 40 8;
  align = field value 48 8;
}

abbrev pub segment : Elf64ProgramHeader → Segment
segment ph = record {
  vaddr = ph.vaddr;
  mem_size = ph.memsz;
  file_size = ph.filesz;
  file_offset = ph.offset;
  align = ph.align;
  flags = ph.flags;
}

-- `&data[start..end]`
unfoldable pub slice : List ℕ → ℕ → ℕ → Option (List ℕ)
slice bytes start end =
    if leb start end && leb end (length bytes)
    then some (take (end - start) (drop start bytes))
    else none

-- An addition or a multiplication of `usize` in a release build.
abbrev pub as_usize : ℕ → ℕ
as_usize n = n % 2 ^ 64

-- The loop over the program headers: those from `idx` on, `n` of them.
unfoldable pub read_segments : ℕ → List ℕ → ℕ → ℕ → Option (List Segment)
read_segments zero bytes phoff idx = some []
read_segments (suc n) bytes phoff idx =
    let rest = read_segments n bytes phoff (idx + 1) in
    let start = as_usize (phoff + as_usize (idx * program_header_size)) in
    let end = as_usize (start + program_header_size) in
    elim (slice bytes start end) [
      | none ↦ none
      | some buf ↦
          let ph = parse_program_header buf in
          if ph.type_code == pt_load
          then elim rest [ none ↦ none | some segments ↦ some (segment ph ∷ segments) ]
          else rest
    ]

-- The part of `parse` after the header was read.
unfoldable pub parse_segments : List ℕ → Elf64Header → Option (Result ElfError ElfFile)
parse_segments bytes header =
    if not (header.phentsize == program_header_size)
    then some (err unsupported_version)
    else (if ltb (length bytes)
          (as_usize (header.phoff + as_usize (header.phnum * header.phentsize)))
        then some (err truncated)
        else elim (read_segments header.phnum bytes header.phoff 0) [
          | none ↦ none
          | some segments ↦
              some (ok (record { entry = header.entry; segments = segments; data_bytes = bytes }))
        ])

-- `ElfFile::parse`
unfoldable pub parse : List ℕ → Option (Result ElfError ElfFile)
parse bytes =
    if ltb (length bytes) header_size
    then some (err truncated)
    else elim (parse_header (take header_size bytes)) [
      | err e ↦ some (err e)
      | ok header ↦ parse_segments bytes header
    ]
