-- ===== src/Elf/Examples.antt =====
-- A file with one program header for the parser of src/elf.rs.
use crabv.Base.{ℕ, ◌≡◌, refl, none, List, ◌∷◌, ◌++◌, arith, replicate}
use crabv.Bytes.{from_le_bytes}
use crabv.Elf.{Elf64Header, parse_header, parse}
use crabv.Elf.Bounds.{Accepted, Parsed, parse-Parsed, parse_panics}

abbrev identification : List ℕ
identification = 127 ∷ 69 ∷ 76 ∷ 70 ∷ 2 ∷ 1 ∷ 1 ∷ replicate 9 0

-- The rest of the header: the table stands at 64 and has one entry of 56 bytes.
abbrev rest_of_header : List ℕ
rest_of_header =
    2
    ∷ 0
    ∷ 243
    ∷ 0
    ∷ 1
    ∷ (replicate 11 0
        ++ (64 ∷ (replicate 15 0 ++ (0 ∷ 0 ∷ 0 ∷ 0 ∷ 64 ∷ 0 ∷ 56 ∷ 0 ∷ 1 ∷ (replicate 7 0)))))

abbrev file : List ℕ
file = identification ++ (rest_of_header ++ (1 ∷ replicate 55 0))

abbrev header : Elf64Header
header = record {
  ident = identification;
  type_code = 2;
  machine = 243;
  version = 1;
  entry = 0;
  phoff = 64;
  shoff = 0;
  flags = 0;
  ehsize = 64;
  phentsize = 56;
  phnum = 1;
  shentsize = 0;
  shnum = 0;
  shstrndx = 0;
}

file-Accepted : Accepted file header
unfolding parse_header from_le_bytes
file-Accepted = record { long = omega arith; read = refl }

parse-Parsed_example : Parsed file header (parse file)
parse-Parsed_example = parse-Parsed file header file-Accepted (omega arith) (omega arith)

-- A table at 2 ^ 64 - 56, which ends at 2 ^ 64.
abbrev wrapping_file : List ℕ
wrapping_file =
    identification
    ++ (2
        ∷ 0
        ∷ 243
        ∷ 0
        ∷ 1
        ∷ (replicate 11 0
            ++ (200
                ∷ (replicate 7 255
                    ++ (replicate 8 0
                        ++ (0 ∷ 0 ∷ 0 ∷ 0 ∷ 64 ∷ 0 ∷ 56 ∷ 0 ∷ 1 ∷ (replicate 7 0)))))))

abbrev wrapping_header : Elf64Header
wrapping_header = record header { phoff = 18446744073709551560 }

wrapping_file-Accepted : Accepted wrapping_file wrapping_header
unfolding parse_header from_le_bytes
wrapping_file-Accepted = record { long = omega arith; read = refl }

parse_panics_example : parse wrapping_file ≡ none
parse_panics_example =
    parse_panics wrapping_file wrapping_header wrapping_file-Accepted refl (omega arith)
      (omega arith) (omega arith)
