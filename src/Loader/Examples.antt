-- ===== src/Loader/Examples.antt =====
-- A program of two segments for the loader of src/process.rs.
use crabv.Base.{ℕ, ◌≡◌, refl, some, [], ◌∷◌, arith, ok, length, length-replicate, replicate}
use crabv.Elf.{ElfFile, slice}
use crabv.Loader.{
  LoadedProgram, user_window_size, min_vaddr, base_vaddr, segment_bytes, segment_image,
  load_segments, load_elf, load_into_user_window,
}
use crabv.Loader.Window.{AllInWindow, load_elf_fits}

-- Two bytes of the file and two zeros at the start, one byte at 4096.
abbrev elf : ElfFile
elf = record {
  entry = 65536;
  segments =
      record {
        vaddr = 65536;
        mem_size = 4;
        file_size = 2;
        file_offset = 1;
        align = 4096;
        flags = 5;
      }
      ∷ record {
        vaddr = 69632;
        mem_size = 1;
        file_size = 0;
        file_offset = 0;
        align = 4096;
        flags = 6;
      }
      ∷ [];
  data_bytes = 9 ∷ 7 ∷ 8 ∷ [];
}

abbrev program : LoadedProgram
program = record {
  entry = 2151677952;
  stack_top = 2151809024;
  segments =
      record { dest = 2151677952; bytes = 7 ∷ 8 ∷ 0 ∷ 0 ∷ []; flags = 5 }
      ∷ record { dest = 2151682048; bytes = 0 ∷ []; flags = 6 }
      ∷ [];
}

elf_loads : load_elf elf ≡ some (ok program)
unfolding load_elf base_vaddr min_vaddr load_segments segment_image segment_bytes slice
elf_loads = refl

load_elf_fits_example :
    AllInWindow program.segments
    × ((load_into_user_window program.segments (replicate user_window_size 0)).0 ≡ ok tt)
    × (length (load_into_user_window program.segments (replicate user_window_size 0)).1
        ≡ user_window_size)
load_elf_fits_example =
    load_elf_fits elf (replicate user_window_size 0)
      (((omega arith, omega arith), ((omega arith, omega arith), tt)))
      (length-replicate {A = ℕ} user_window_size 0) elf_loads
