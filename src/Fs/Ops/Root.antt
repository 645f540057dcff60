-- ===== src/Fs/Ops/Root.antt =====
-- Files in the root directory of src/fs.rs: what a write leaves for the reads after it.
use crabv.Base.{
  ℕ, ◌<◌, ◌^◌, ◌≡◌, ◌≢◌, refl, sym, ap, subst, ◌∙◌, Option, none, some, List, [], ◌∷◌, arith,
  length, Result, ok, err, if◌then◌else◌,
}
use crabv.Fs.{FileEntry, BlockDevice, IsDevice, TinyFs}
use crabv.Fs.Error.{FsError, not_found, not_a_directory}
use crabv.Fs.Disk as Disk
use crabv.Fs.Disk.{div_ceil, read_data, allocate_and_write, flush_superblock, flush_root_directory}
use crabv.Fs.Disk.Data.{
  IsSound, Extent, Extends, read_data-allocate_and_write, allocate_and_write-Extends,
  read_chunks-agree,
}
use crabv.Fs.Path.{split_path, find_entry}
use crabv.Fs.Ops.{read_file_contents, write_file_contents}
use crabv.Fs.Ops.Written.{
  persisted, open_parent_one, write_root, Linked, link-Linked, read_data-persisted,
}

module _ {D : Type 0} (dev : BlockDevice D) (law : IsDevice dev) where
  -- What a read of a name in the root directory finds.
  abbrev read_found : TinyFs D → Option (ℕ × FileEntry) → Result FsError (List ℕ)
  read_found fs none = err not_found
  read_found fs (some found) =
      if Disk.is_directory found.1.kind
      then err not_a_directory
      else ok (read_data dev fs found.1.start_block found.1.length)

  read_one :
      (fs : TinyFs D) (path name : List ℕ)
      → split_path path ≡ name ∷ []
      → read_file_contents dev fs path ≡ read_found fs (find_entry fs.root_entries name 0)
  unfolding read_file_contents
  read_one fs path name one =
      rw (open_parent_one dev law fs path name one) (after (find_entry fs.root_entries name 0))
    where
      after :
          (o : Option (ℕ × FileEntry))
          → (elim o [
            | none ↦ err not_found
            | some found ↦
                if Disk.is_directory found.1.kind
                then err not_a_directory
                else ok (read_data dev fs found.1.start_block found.1.length)
          ])
            ≡ read_found fs o
      after none = refl
      after (some found) = refl

  entries-persisted :
      (fs : TinyFs D) (es : List FileEntry) → (persisted dev law fs es).root_entries ≡ es
  unfolding flush_superblock flush_root_directory
  entries-persisted fs es = refl

  read_Linked :
      (old : List FileEntry) (fs : TinyFs D) (path name : List ℕ) (place : ℕ × ℕ) {fs' : TinyFs D}
      → IsSound dev fs
      → Extent dev law fs place.0 place.1
      → split_path path ≡ name ∷ []
      → Linked dev law old fs name place fs'
      → read_file_contents dev fs' path ≡ ok (read_data dev fs place.0 place.1)
  read_Linked old fs path name place v x one l = rw l.state (
      read_one (persisted dev law fs l.es) path name one
      ∙ ground (
        arith,
        entries-persisted fs l.es,
        l.found,
        l.no_directory,
        l.start,
        l.len,
        read_data-persisted dev law fs l.es place.0 place.1 v x,
      ))

  -- On a device that keeps its promise, with room for the sums of block numbers: a write of less
  -- than 4 GB to a name in the root directory, when it succeeds, is what a read of that name
  -- returns.
  pub read_file_contents-write_file_contents :
      (fs : TinyFs D) (path name contents : List ℕ) {fs' : TinyFs D}
      → IsSound dev fs
      → split_path path ≡ name ∷ []
      → length contents < 2 ^ 32
      → write_file_contents dev fs path contents ≡ (ok tt, fs')
      → read_file_contents dev fs' path ≡ ok contents
  read_file_contents-write_file_contents fs path name contents v one h e =
      let (place, fs1, stored, linked) = write_root dev law fs path name contents one e in
      let (same, x) = read_data-allocate_and_write dev law fs contents v h stored in
      let sound =
        subst (λ (t : Result FsError (ℕ × ℕ) × TinyFs D). IsSound dev t.1) stored
          (allocate_and_write-Extends dev law fs contents v h).sound in
      read_Linked fs.root_entries fs1 path name place sound x one
        (link-Linked dev law fs fs1 name place linked)
      ∙ ap ok same

  -- Reading at blocks in use is not changed by an allocation.
  read_data-Extends :
      (fs fs1 : TinyFs D) (start len : ℕ)
      → IsSound dev fs
      → Extends dev law fs fs1
      → Extent dev law fs start len
      → read_data dev fs1 start len ≡ read_data dev fs start len
  unfolding read_data
  read_data-Extends fs fs1 start len v g x =
      read_chunks-agree dev law (div_ceil len 512) fs1.device fs.device start len
        (omega (arith, x.inside, v.next_inside, v.not_huge))
        (λ c lo hi. g.in_use c (omega (arith, x.inside)))

  Extent-Extends :
      (fs fs1 : TinyFs D) (start len : ℕ)
      → Extends dev law fs fs1
      → Extent dev law fs start len
      → Extent dev law fs1 start len
  Extent-Extends fs fs1 start len g x = record {
    inside = omega (arith, x.inside, g.grows);
    behind = x.behind;
  }

  read_found-persisted :
      (fs fs1 : TinyFs D) (es : List FileEntry) (o : Option (ℕ × FileEntry))
      → IsSound dev fs
      → Extends dev law fs fs1
      → ((found : ℕ × FileEntry)
          → o ≡ some found
          → Extent dev law fs found.1.start_block found.1.length)
      → read_found (persisted dev law fs1 es) o ≡ read_found fs o
  read_found-persisted fs fs1 es none v g inside = refl
  read_found-persisted fs fs1 es (some found) v g inside =
      let x = inside found refl in
      let start = found.1.start_block in
      let len = found.1.length in
      ap (λ bytes. if Disk.is_directory found.1.kind then err not_a_directory else ok bytes)
        (read_data-persisted dev law fs1 es start len g.sound (Extent-Extends fs fs1 start len g x)
          ∙ read_data-Extends fs fs1 start len v g x)

  -- On a device that keeps its promise, with room for the sums of block numbers: a write of less
  -- than 4 GB to a name in the root directory, when it succeeds, changes nothing for a read of
  -- another name there, if the file of that name, where there is one, lies in blocks in use.
  pub write_file_contents_other :
      (fs : TinyFs D) (path name contents path' other : List ℕ) {fs' : TinyFs D}
      → IsSound dev fs
      → split_path path ≡ name ∷ []
      → split_path path' ≡ other ∷ []
      → name ≢ other
      → length contents < 2 ^ 32
      → ((found : ℕ × FileEntry)
          → find_entry fs.root_entries other 0 ≡ some found
          → Extent dev law fs found.1.start_block found.1.length)
      → write_file_contents dev fs path contents ≡ (ok tt, fs')
      → read_file_contents dev fs' path' ≡ read_file_contents dev fs path'
  write_file_contents_other fs path name contents path' other v one two ne h inside e =
      let (place, fs1, stored, linked) = write_root dev law fs path name contents one e in
      let grown =
        subst (λ (t : Result FsError (ℕ × ℕ) × TinyFs D). Extends dev law fs t.1) stored
          (allocate_and_write-Extends dev law fs contents v h) in
      let l = link-Linked dev law fs fs1 name place linked in
      let same : find_entry (persisted dev law fs1 l.es).root_entries other 0
          ≡ find_entry fs.root_entries other 0 =
        ap (λ es. find_entry es other 0) (entries-persisted fs1 l.es) ∙ l.others other ne in
      rw l.state (
        read_one (persisted dev law fs1 l.es) path' other two
        ∙ (ap (read_found (persisted dev law fs1 l.es)) same
            ∙ (read_found-persisted fs fs1 l.es (find_entry fs.root_entries other 0) v grown inside
                ∙ sym (read_one fs path' other two))))
