-- ===== src/Fd/Io/File.antt =====
-- Files read and written through a descriptor: the pieces that reads give, and what a write leaves.
use crabv.Base.{
  Bool, false, Result, err, subst, ℕ, zero, suc, ◌+◌, ◌-◌, ◌<◌, ◌^◌, ◌≡◌, refl, sym, ap, ◌∙◌, min,
  true, Option, some, List, [], ◌∷◌, ◌++◌, arith, ok, leb, length, take, drop, length-take,
  length-drop, take-append-drop, Bool-cases, inl, inr,
}
use crabv.Fs.Error.{FsError}
use crabv.Fs.{BlockDevice, IsDevice, TinyFs}
use crabv.Fs.Path.{split_path}
use crabv.Fs.Disk.Data.{IsSound}
use crabv.Fs.Ops.{with_fs, read_file_contents, write_file_contents}
use crabv.Fs.Ops.Root.{read_file_contents-write_file_contents}
use crabv.Fd.Table.{FileFd}
use crabv.Fd.Io.{
  fill_front, at_pos, read_at, read_file, write_file, or_empty, new_contents, file_read, file_write,
}

drop-nil : (n : ℕ) → drop {A = ℕ} n [] ≡ []
drop-nil zero = refl
drop-nil (suc n) = refl

drop-drop : (p n m : ℕ) (xs : List ℕ) → m ≡ p + n → drop n (drop p xs) ≡ drop m xs
drop-drop zero n m xs h = let e : n ≡ m = omega arith in ap (λ k. drop k xs) e
drop-drop (suc p) n zero xs h = absurd (omega arith)
drop-drop (suc p) n (suc m) [] h = drop-nil n
drop-drop (suc p) n (suc m) (x ∷ xs) h = drop-drop p n m xs (omega arith)

-- What a read of at most `n` bytes at the position takes.
abbrev pub taken : FileFd → List ℕ → ℕ → List ℕ
taken f contents n = take (min n (length contents - f.pos)) (drop f.pos contents)

length-taken :
    (f : FileFd) (contents : List ℕ) (n : ℕ)
    → length (taken f contents n) ≡ min n (length contents - f.pos)
length-taken f contents n = omega (
  arith,
  length-take (min n (length contents - f.pos)) (drop f.pos contents),
  length-drop f.pos contents,
)

read_at-taken :
    (f : FileFd) (contents buf : List ℕ)
    → let bytes = taken f contents (length buf) in
      read_at f contents buf
      ≡ (ok (length bytes), fill_front bytes buf, at_pos f (f.pos + length bytes))
unfolding read_at
read_at-taken f contents buf = elim (Bool-cases (leb (length contents) f.pos)) [
  | inl past ↦
      let none_left : min (length buf) (length contents - f.pos) ≡ 0 = ground arith in
      let stays : f.pos ≡ f.pos + 0 = omega arith in
      rw (past, none_left) (ap (λ k. (ok 0, buf, at_pos f k)) stays)
  | inr before ↦ rw before (
      ap (λ k. (ok k, fill_front (taken f contents (length buf)) buf, at_pos f (f.pos + k)))
        (sym (length-taken f contents (length buf))))
]

-- A read of an open file into a buffer returns the number of bytes from the position to the end of
-- the file, or the size of the buffer if that is less, puts them at the front of the buffer, leaves
-- the rest of the buffer and moves the position behind them.
pub file_read-taken :
    {D : Type 0} (dev : BlockDevice D) (f : FileFd) (disk : Option (TinyFs D))
    (contents buf : List ℕ)
    → f.mode.read ≡ true
    → read_file dev disk f.path ≡ ok contents
    → let bytes = taken f contents (length buf) in
      file_read dev f disk buf
      ≡ (ok (length bytes), fill_front bytes buf, at_pos f (f.pos + length bytes))
unfolding file_read
file_read-taken dev f disk contents buf r e = ground (arith, read_at-taken f contents buf)

-- The bytes that are left after a read.
pub taken_rest :
    (f : FileFd) (contents : List ℕ) (n : ℕ)
    → let bytes = taken f contents n in
      drop f.pos contents ≡ bytes ++ drop (f.pos + length bytes) contents
taken_rest f contents n =
    let k = min n (length contents - f.pos) in
    sym (take-append-drop k (drop f.pos contents))
    ∙ ap (λ l. taken f contents n ++ l)
        (drop-drop f.pos k _ contents (omega (arith, length-taken f contents n)))

-- What a file holds after a write: by whether the descriptor appends, what a read of the file gave
-- before, and what was written.
unfoldable pub contents_after : Bool → Result FsError (List ℕ) → List ℕ → List ℕ
contents_after false old buf = buf
contents_after true (ok old) buf = old ++ buf
contents_after true (err e) buf = buf

new_contents-contents_after :
    {D : Type 0} (dev : BlockDevice D) (f : FileFd) (disk : Option (TinyFs D)) (buf : List ℕ)
    → new_contents dev f disk buf ≡ contents_after f.mode.append (read_file dev disk f.path) buf
unfolding contents_after
new_contents-contents_after dev f disk buf = elim (Bool-cases f.mode.append) [
  | inl appends ↦
      rw appends
        (elim (read_file dev disk f.path)
          as (λ r. or_empty dev r ++ buf ≡ contents_after true r buf) [
            | ok old ↦ refl
            | err e ↦ refl
          ])
  | inr over ↦ rw over refl
]

module _ {D : Type 0} (dev : BlockDevice D) (law : IsDevice dev) where
  write_file-some :
      (t : TinyFs D) (path bytes : List ℕ)
      → write_file dev (some t) path bytes ≡ (
        (write_file_contents dev t path bytes).0,
        some ((write_file_contents dev t path bytes).1),
      )
  unfolding write_file with_fs
  write_file-some t path bytes = refl

  pub file_write-ok :
      (f : FileFd) (t : TinyFs D) (buf contents : List ℕ)
      → f.mode.write ≡ true
      → new_contents dev f (some t) buf ≡ contents
      → (write_file_contents dev t f.path contents).0 ≡ ok tt
      → file_write dev f (some t) buf ≡ (
        ok (length buf),
        at_pos f (length contents),
        some ((write_file_contents dev t f.path contents).1),
      )
  unfolding file_write
  file_write-ok f t buf contents w same e =
      ground (arith, same, e, write_file-some t f.path (new_contents dev f (some t) buf))

  file_write-succeeds :
      (f : FileFd) (t : TinyFs D) (buf : List ℕ) {n : ℕ} {f' : FileFd} {disk' : Option (TinyFs D)}
      → file_write dev f (some t) buf ≡ (ok n, f', disk')
      → (f.mode.write ≡ true)
        × ((write_file_contents dev t f.path (new_contents dev f (some t) buf)).0 ≡ ok tt)
  unfolding file_write
  file_write-succeeds f t buf e =
      ground (arith, e, write_file-some t f.path (new_contents dev f (some t) buf))

  pub read_file-some :
      (t : TinyFs D) (path : List ℕ) → read_file dev (some t) path ≡ read_file_contents dev t path
  unfolding read_file with_fs
  read_file-some t path = refl

  -- On a device that keeps its promise, with room for the sums of block numbers: a write through the
  -- descriptor of a file in the root directory, when it succeeds, returns the length of what was
  -- written. For a descriptor that does not append, every read of the path then gives what was
  -- written alone; for one that appends, it gives the old contents, or nothing if they could not be
  -- read, with what was written behind them. The position is at the end of that. The new contents
  -- must be less than 4 GB.
  pub read_file-file_write :
      (f : FileFd) (t : TinyFs D) (buf name : List ℕ) {n : ℕ} {f' : FileFd}
      {disk' : Option (TinyFs D)}
      → IsSound dev t
      → split_path f.path ≡ name ∷ []
      → length (contents_after f.mode.append (read_file dev (some t) f.path) buf) < 2 ^ 32
      → file_write dev f (some t) buf ≡ (ok n, f', disk')
      → let contents = contents_after f.mode.append (read_file dev (some t) f.path) buf in
        (n ≡ length buf)
        × (f' ≡ record f { pos = length contents })
        × (read_file dev disk' f.path ≡ ok contents)
  read_file-file_write f t buf name v one h e =
      let contents = contents_after f.mode.append (read_file dev (some t) f.path) buf in
      let spec = new_contents-contents_after dev f (some t) buf in
      let (w, fine0) = file_write-succeeds f t buf e in
      let fine = subst (λ c. (write_file_contents dev t f.path c).0 ≡ ok tt) spec fine0 in
      let same = sym e ∙ file_write-ok f t buf contents w spec fine in
      let t' = (write_file_contents dev t f.path contents).1 in
      let kept =
        read_file_contents-write_file_contents dev law t f.path name contents {fs' = t'} v one h
          (ap (λ r. (r, t')) fine) in
      (
        ground (arith, same),
        ap (λ r. r.1) same,
        ap (λ r. read_file dev r.2 f.path) same ∙ (read_file-some t' f.path ∙ kept),
      )
