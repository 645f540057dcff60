-- ===== src/Fd/Io/Examples.antt =====
-- Witnesses of the properties of file descriptors, on the device in memory.
use crabv.Base.{ap, ◌<◌, ◌^◌, ◌++◌, true, ◌≡◌, refl, some, [], ◌∷◌, arith, ok, length, ◌∙◌}
use crabv.Fs.Examples.{
  twice, disk_b-IsSound, append_succeeds, memory, memory-IsDevice, disk, disk-IsSound, path_b,
  path_b-split, text, disk_b, written, write_succeeds,
}
use crabv.Fs.Ops.Root.{read_file_contents-write_file_contents}
use crabv.Fs.Ops.{write_file_contents}
use crabv.Fd.Table.{FileFd}
use crabv.Fd.Io.{or_empty, append_only, read_only, write_only, at_pos, read_file, file_write}
use crabv.Fd.Io.File.{contents_after, read_file-some, file_write-ok, read_file-file_write}

abbrev pub file_b : FileFd
file_b = record { path = path_b; pos = 0; mode = read_only }

pub file_b-contents : read_file memory (some disk_b) path_b ≡ ok text
file_b-contents =
    read_file-some memory memory-IsDevice disk_b path_b
    ∙ read_file_contents-write_file_contents memory memory-IsDevice disk path_b (98 ∷ []) text
        disk-IsSound path_b-split (omega arith) written

abbrev out_b : FileFd
out_b = record { path = path_b; pos = 0; mode = write_only }

write_b : file_write memory out_b (some disk) text ≡ (ok 2, at_pos out_b 2, some disk_b)
write_b = file_write-ok memory memory-IsDevice out_b disk text text refl refl write_succeeds

-- A second write, which appends.
abbrev append_b : FileFd
append_b = record { path = path_b; pos = 0; mode = append_only }

appended : contents_after true (read_file memory (some disk_b) path_b) text ≡ twice
unfolding contents_after
appended = ap (λ r. contents_after true r text) file_b-contents

append_again :
    file_write memory append_b (some disk_b) text
    ≡ (ok 2, at_pos append_b 4, some ((write_file_contents memory disk_b path_b twice).1))
append_again =
    file_write-ok memory memory-IsDevice append_b disk_b text twice refl
      (ap (λ r. or_empty memory r ++ text) file_b-contents) append_succeeds

appended_small : length (contents_after true (read_file memory (some disk_b) path_b) text) < 2 ^ 32
appended_small = omega (arith, ap length appended)

read_file-file_write_example :
    let contents = contents_after true (read_file memory (some disk_b) path_b) text in
    (2 ≡ length text)
    × (at_pos append_b 4 ≡ record append_b { pos = length contents })
    × (read_file memory (some ((write_file_contents memory disk_b path_b twice).1)) path_b
        ≡ ok contents)
read_file-file_write_example =
    read_file-file_write memory memory-IsDevice append_b disk_b text (98 ∷ []) disk_b-IsSound
      path_b-split appended_small append_again
