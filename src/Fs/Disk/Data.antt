-- ===== src/Fs/Disk/Data.antt =====
-- The data of files in src/fs.rs: what `allocate_and_write` writes is what `read_data` reads, and
-- the blocks that were in use before stay as they were.
use crabv.Base.{
  ℕ, zero, suc, ◌+◌, ◌-◌, ◌*◌, ◌^◌, ◌≤◌, ◌<◌, ◌≡◌, refl, sym, ap, ap₂, subst, ◌∙◌, List, [], ◌∷◌,
  ◌++◌, arith, length, length-take, length-drop, take, drop, take-append-drop, replicate, min,
  Result, ok, err, dec_lt,
}
use crabv.Fs.{BlockDevice, IsDevice, TinyFs, as_u32}
use crabv.Fs.Error.{FsError, no_space}
use crabv.Bytes.{pad, length-pad, take-append_self}
use crabv.Fs.Disk.{
  div_ceil, allocate_blocks, write_chunks, allocate_and_write, read_chunks, read_data,
}

-- Blocks are numbered well below the limit of a `u32`, and those from `next_free_block` on are
-- free. Then a file of less than 2 ^ 32 bytes cannot make the sum in `allocate_blocks` wrap.
pub record IsSound {D : Type 0} (dev : BlockDevice D) (fs : TinyFs D) : Type 0 where
  pub not_huge : dev.total_blocks fs.device + 2 ^ 23 < 2 ^ 32
  pub next_inside : fs.superblock.next_free_block ≤ dev.total_blocks fs.device
  pub past_root : 2 ≤ fs.superblock.next_free_block

module _ {D : Type 0} (dev : BlockDevice D) (law : IsDevice dev) where
  total-write_chunks :
      (n : ℕ) (d : D) (b : ℕ) (bytes : List ℕ)
      → dev.total_blocks (write_chunks dev n d b bytes) ≡ dev.total_blocks d
  unfolding write_chunks
  total-write_chunks zero d b bytes = refl
  total-write_chunks (suc n) d b bytes =
      let block = pad 512 (take 512 bytes) in
      total-write_chunks n (dev.write_block d b block) (as_u32 (b + 1)) (drop 512 bytes)
      ∙ law.total_kept d b block

  -- The blocks outside of those that are written keep their contents.
  pub read-write_chunks_before :
      (n : ℕ) (d : D) (b c : ℕ) (bytes : List ℕ)
      → c < b
      → b + n < 2 ^ 32
      → dev.read_block (write_chunks dev n d b bytes) c ≡ dev.read_block d c
  unfolding write_chunks
  read-write_chunks_before zero d b c bytes h k = refl
  read-write_chunks_before (suc n) d b c bytes h k =
      let block = pad 512 (take 512 bytes) in
      read-write_chunks_before n (dev.write_block d b block) (as_u32 (b + 1)) c (drop 512 bytes)
        (omega arith) (omega arith)
      ∙ law.read_other d b c block (λ e. absurd (omega arith))

  -- Reading depends only on the blocks that are read.
  pub read_chunks-agree :
      (n : ℕ) (d d' : D) (b len : ℕ)
      → b + n < 2 ^ 32
      → ((c : ℕ) → b ≤ c → c < b + n → dev.read_block d c ≡ dev.read_block d' c)
      → read_chunks dev n d b len ≡ read_chunks dev n d' b len
  unfolding read_chunks
  read_chunks-agree zero d d' b len h same = refl
  read_chunks-agree (suc n) d d' b len h same =
      ap₂ (λ x y. take (min len 512) x ++ y) (same b (omega arith) (omega arith))
        (read_chunks-agree n d d' (as_u32 (b + 1)) (len - min len 512) (omega arith)
          (λ c lo hi. same c (omega arith) (omega arith)))

  -- A block holds its part of the bytes.
  take-pad-take :
      (bytes : List ℕ) → take (min (length bytes) 512) (pad 512 (take 512 bytes)) ≡ take 512 bytes
  take-pad-take bytes =
      take-append_self (take 512 bytes) (replicate (512 - length (take 512 bytes)) 0)
        (min (length bytes) 512) (omega (arith, length-take 512 bytes))

  read_chunks-write_chunks :
      (n : ℕ) (d : D) (b : ℕ) (bytes : List ℕ)
      → length bytes ≤ 512 * n
      → b + n ≤ dev.total_blocks d
      → b + n < 2 ^ 32
      → read_chunks dev n (write_chunks dev n d b bytes) b (length bytes) ≡ bytes
  unfolding read_chunks write_chunks
  read_chunks-write_chunks zero d b [] h t u = refl
  read_chunks-write_chunks zero d b (x ∷ xs) h t u = absurd (omega arith)
  read_chunks-write_chunks (suc n) d b bytes h t u =
      let block = pad 512 (take 512 bytes) in
      let d' = dev.write_block d b block in
      let final = write_chunks dev n d' (as_u32 (b + 1)) (drop 512 bytes) in
      let left : length bytes - min (length bytes) 512 ≡ length (drop 512 bytes) =
        omega (arith, length-drop 512 bytes) in
      let sized : length block ≡ 512 =
        length-pad 512 (take 512 bytes) (omega (arith, length-take 512 bytes)) in
      let here : dev.read_block final b ≡ block =
        read-write_chunks_before n d' (as_u32 (b + 1)) b (drop 512 bytes) (omega arith)
          (omega arith)
        ∙ law.read_same d b block (omega arith) sized in
      ap₂ (λ x y. take (min (length bytes) 512) x ++ y) here
        (ap (read_chunks dev n final (as_u32 (b + 1))) left
          ∙ read_chunks-write_chunks n d' (as_u32 (b + 1)) (drop 512 bytes)
              (omega (arith, length-drop 512 bytes)) (omega (arith, law.total_kept d b block))
              (omega arith))
      ∙ (ap (λ x. x ++ drop 512 bytes) (take-pad-take bytes) ∙ take-append-drop 512 bytes)

  -- How many blocks the bytes take.
  abbrev pub blocks : List ℕ → ℕ
  blocks contents = div_ceil (length contents) 512

  -- The state after the contents were written to the first free block and those behind it.
  abbrev pub stored : TinyFs D → List ℕ → TinyFs D
  stored fs contents = record fs {
    device = write_chunks dev (blocks contents) fs.device fs.superblock.next_free_block contents;
    superblock = record fs.superblock {
      next_free_block = fs.superblock.next_free_block + blocks contents;
    };
  }

  -- An allocation either finds no room and changes nothing, or stores the contents.
  data Allocated (fs : TinyFs D) (contents : List ℕ)
      : Result FsError (ℕ × ℕ) × TinyFs D → Type 0 where
    nothing : contents ≡ [] → Allocated fs contents (ok (0, 0), fs)
    full : Allocated fs contents (err no_space, fs)
    fits :
        fs.superblock.next_free_block + blocks contents ≤ dev.total_blocks fs.device
        → Allocated fs contents
            (ok (fs.superblock.next_free_block, length contents), stored fs contents)

  allocate_and_write-full :
      (fs : TinyFs D) (c : ℕ) (cs : List ℕ)
      → IsSound dev fs
      → length (c ∷ cs) < 2 ^ 32
      → dev.total_blocks fs.device < fs.superblock.next_free_block + blocks (c ∷ cs)
      → allocate_and_write dev fs (c ∷ cs) ≡ (err no_space, fs)
  unfolding allocate_and_write allocate_blocks
  allocate_and_write-full fs c cs v h out = ground (arith, v.not_huge, v.next_inside)

  pub allocate_and_write-fits :
      (fs : TinyFs D) (c : ℕ) (cs : List ℕ)
      → IsSound dev fs
      → length (c ∷ cs) < 2 ^ 32
      → fs.superblock.next_free_block + blocks (c ∷ cs) ≤ dev.total_blocks fs.device
      → allocate_and_write dev fs (c ∷ cs)
        ≡ (ok (fs.superblock.next_free_block, length (c ∷ cs)), stored fs (c ∷ cs))
  unfolding allocate_and_write allocate_blocks
  allocate_and_write-fits fs c cs v h room = ground (arith, v.not_huge)

  allocate_and_write-Allocated :
      (fs : TinyFs D) (contents : List ℕ)
      → IsSound dev fs
      → length contents < 2 ^ 32
      → Allocated fs contents (allocate_and_write dev fs contents)
  allocate_and_write-Allocated fs [] v h = unfold allocate_and_write in nothing refl
  allocate_and_write-Allocated fs (c ∷ cs) v h =
      elim (dec_lt (dev.total_blocks fs.device) (fs.superblock.next_free_block + blocks (c ∷ cs))) [
        | yes out ↦ rw (allocate_and_write-full fs c cs v h out) full
        | no room ↦ rw (allocate_and_write-fits fs c cs v h (omega arith)) (fits (omega arith))
      ]

  -- What an allocation leaves: the blocks in use and the root directory are as they were.
  pub record Extends (fs fs' : TinyFs D) : Type 0 where
    pub sound : IsSound dev fs'
    pub entries : fs'.root_entries ≡ fs.root_entries
    pub grows : fs.superblock.next_free_block ≤ fs'.superblock.next_free_block
    pub in_use :
        (c : ℕ)
        → c < fs.superblock.next_free_block
        → dev.read_block fs'.device c ≡ dev.read_block fs.device c

  -- On a device that keeps its promise, with room for the sums of block numbers: writing less than
  -- 4 GB changes no block in use and no entry of the root directory, whether there is space or not,
  -- and leaves room for the sums.
  pub allocate_and_write-Extends :
      (fs : TinyFs D) (contents : List ℕ)
      → IsSound dev fs
      → length contents < 2 ^ 32
      → Extends fs (allocate_and_write dev fs contents).1
  allocate_and_write-Extends fs contents v h =
      after (allocate_and_write dev fs contents) (allocate_and_write-Allocated fs contents v h)
    where
      same : Extends fs fs
      same = record { sound = v; entries = refl; grows = omega arith; in_use = λ c k. refl }

      after :
          (out : Result FsError (ℕ × ℕ) × TinyFs D) → Allocated fs contents out → Extends fs out.1
      after out (nothing e) = same
      after out full = same
      after out (fits room) = record {
        sound = record {
          not_huge = omega (
            arith,
            v.not_huge,
            total-write_chunks (blocks contents) fs.device fs.superblock.next_free_block contents,
          );
          next_inside = omega (
            arith,
            total-write_chunks (blocks contents) fs.device fs.superblock.next_free_block contents,
          );
          past_root = omega (arith, v.past_root);
        };
        entries = refl;
        grows = omega arith;
        in_use = λ c k.
            read-write_chunks_before (blocks contents) fs.device fs.superblock.next_free_block c
              contents k (omega (arith, v.not_huge));
      }

  -- The blocks of a file lie between the root directory and the first free block.
  pub record Extent (fs : TinyFs D) (start len : ℕ) : Type 0 where
    pub inside : start + div_ceil len 512 ≤ fs.superblock.next_free_block
    pub behind : 0 < len → 2 ≤ start

  -- The result, where it is a place, is a place at which the contents stand.
  abbrev Reads : List ℕ → Result FsError (ℕ × ℕ) × TinyFs D → Type 0
  Reads contents (ok place, fs) =
      (read_data dev fs place.0 place.1 ≡ contents) × Extent fs place.0 place.1
  Reads contents (err e, fs) = Unit

  Allocated-Reads :
      (fs : TinyFs D) (contents : List ℕ) (out : Result FsError (ℕ × ℕ) × TinyFs D)
      → IsSound dev fs
      → length contents < 2 ^ 32
      → Allocated fs contents out
      → Reads contents out
  unfolding read_data read_chunks
  Allocated-Reads fs contents out v h (nothing e) =
      (sym e, record { inside = omega arith; behind = λ k. absurd (omega arith) })
  Allocated-Reads fs contents out v h full = tt
  Allocated-Reads fs contents out v h (fits room) = (
    read_chunks-write_chunks (blocks contents) fs.device fs.superblock.next_free_block contents
        (omega arith) room (omega (arith, v.not_huge)),
    record { inside = omega arith; behind = λ k. v.past_root },
  )

  -- What `allocate_and_write` wrote is what `read_data` reads at the place that it returned, and
  -- that place lies among the blocks in use.
  pub read_data-allocate_and_write :
      (fs : TinyFs D) (contents : List ℕ) {fs' : TinyFs D} {place : ℕ × ℕ}
      → IsSound dev fs
      → length contents < 2 ^ 32
      → allocate_and_write dev fs contents ≡ (ok place, fs')
      → (read_data dev fs' place.0 place.1 ≡ contents) × Extent fs' place.0 place.1
  read_data-allocate_and_write fs contents v h e = subst (Reads contents) e (
      Allocated-Reads fs contents (allocate_and_write dev fs contents) v h
        (allocate_and_write-Allocated fs contents v h))

  -- With room for the contents, an allocation succeeds.
  pub allocate_and_write_succeeds :
      (fs : TinyFs D) (contents : List ℕ)
      → IsSound dev fs
      → length contents < 2 ^ 32
      → fs.superblock.next_free_block + blocks contents ≤ dev.total_blocks fs.device
      → (place : ℕ × ℕ) × ((allocate_and_write dev fs contents).0 ≡ ok place)
  unfolding allocate_and_write
  allocate_and_write_succeeds fs [] v h room = ((0, 0), refl)
  allocate_and_write_succeeds fs (c ∷ cs) v h room = (
    (fs.superblock.next_free_block, length (c ∷ cs)),
    ap (λ r. r.0) (allocate_and_write-fits fs c cs v h room),
  )
