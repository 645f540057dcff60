-- ===== src/Fs/Format/Roundtrip.antt =====
-- What the format of src/fs.rs writes, it reads back.
use crabv.Base.{
  ℕ, zero, suc, ◌-◌, ◌*◌, ◌^◌, ◌≤◌, ◌<◌, ◌≡◌, refl, sym, ap, ◌∙◌, true, false, none, some, List, [],
  ◌∷◌, ◌++◌, arith, length, length-append, length-take, take, drop, get_or, replicate, ◌==◌,
  append_assoc,
}
use crabv.Fs.{EntryType, regular, directory, FileEntry, name_len, dir_entry_size}
use crabv.Bytes.{
  to_le_bytes, from_le_bytes, pad, until_nul, is_utf8, has_no_nul, from_le_bytes-to_le_bytes,
  length-to_le_bytes, length-pad, take-append_self, take_le, drop-append_add, get_or-append_add,
  until_nul-pad,
}
use crabv.Fs.Format.{from_raw, to_raw, write_entry, deserialize_entry, entries_bytes, parse_entries}

-- An entry that the format can hold: a name of at most 32 bytes of UTF-8 without a zero, not empty,
-- and two `u32`.
pub record IsEntry (e : FileEntry) : Type 0 where
  pub not_empty : 0 < length e.name
  pub fits : length e.name ≤ name_len
  pub no_nul : has_no_nul e.name ≡ true
  pub utf8 : is_utf8 e.name ≡ true
  pub start_u32 : e.start_block < 2 ^ 32
  pub length_u32 : e.length < 2 ^ 32

pub length-write_entry : (e : FileEntry) → length (write_entry e) ≡ dir_entry_size
unfolding write_entry
length-write_entry e = omega (
  arith,
  length-append (pad name_len (take name_len e.name))
      (to_le_bytes 4 e.start_block ++ (to_le_bytes 4 e.length ++ (to_raw e.kind ∷ replicate 3 0))),
  length-pad name_len (take name_len e.name) (omega (arith, length-take name_len e.name)),
  length-append (to_le_bytes 4 e.start_block)
      (to_le_bytes 4 e.length ++ (to_raw e.kind ∷ replicate 3 0)),
  length-to_le_bytes 4 e.start_block,
  length-append (to_le_bytes 4 e.length) (to_raw e.kind ∷ replicate 3 0),
  length-to_le_bytes 4 e.length,
)

-- A number in the middle of a buffer.
pub field :
    (before after : List ℕ) (n m : ℕ)
    → m ≡ length before
    → n < 2 ^ 32
    → from_le_bytes (take 4 (drop m (before ++ (to_le_bytes 4 n ++ after)))) ≡ n
field before after n m h b =
    ap (λ l. from_le_bytes (take 4 l))
      (drop-append_add before (to_le_bytes 4 n ++ after) m 0 (omega arith))
    ∙ (ap from_le_bytes
          (take-append_self (to_le_bytes 4 n) after 4 (omega (arith, length-to_le_bytes 4 n)))
        ∙ from_le_bytes-to_le_bytes 4 n (omega arith))

from_raw-to_raw : (k : EntryType) → from_raw (to_raw k) ≡ some k
from_raw-to_raw regular = refl
from_raw-to_raw directory = refl

first_no_nul :
    (bytes rest : List ℕ)
    → 0 < length bytes
    → has_no_nul bytes ≡ true
    → (get_or (bytes ++ rest) 0 0 == 0) ≡ false
unfolding has_no_nul
first_no_nul [] rest h n = absurd (omega arith)
first_no_nul (b ∷ bs) rest h n = ground arith

-- The parts of a chunk.
module _ (e : FileEntry) where
  abbrev name_part : List ℕ
  name_part = pad name_len (take name_len e.name)

  abbrev numbers : List ℕ
  numbers =
      to_le_bytes 4 e.start_block ++ (to_le_bytes 4 e.length ++ (to_raw e.kind ∷ replicate 3 0))

  name_part-eq : IsEntry e → name_part ≡ e.name ++ replicate (32 - length e.name) 0
  name_part-eq v = ap (λ l. l ++ replicate (32 - length l) 0) (take_le e.name 32 v.fits)

  length-name_part : length name_part ≡ 32
  length-name_part =
      length-pad name_len (take name_len e.name) (omega (arith, length-take name_len e.name))

  chunk_name : IsEntry e → until_nul (take 32 (write_entry e)) ≡ e.name
  unfolding write_entry
  chunk_name v =
      ap until_nul
        (take-append_self name_part numbers 32 (omega (arith, length-name_part)) ∙ name_part-eq v)
      ∙ until_nul-pad e.name (32 - length e.name) v.no_nul

  chunk_start : IsEntry e → from_le_bytes (take 4 (drop 32 (write_entry e))) ≡ e.start_block
  unfolding write_entry
  chunk_start v =
      field name_part (to_le_bytes 4 e.length ++ (to_raw e.kind ∷ replicate 3 0)) e.start_block 32
        (omega (arith, length-name_part)) v.start_u32

  chunk_length : IsEntry e → from_le_bytes (take 4 (drop 36 (write_entry e))) ≡ e.length
  unfolding write_entry
  chunk_length v =
      ap (λ l. from_le_bytes (take 4 l))
        (drop-append_add name_part numbers 36 4 (omega (arith, length-name_part)))
      ∙ field (to_le_bytes 4 e.start_block) (to_raw e.kind ∷ replicate 3 0) e.length 4
          (omega (arith, length-to_le_bytes 4 e.start_block)) v.length_u32

  chunk_kind : get_or (write_entry e) 40 0 ≡ to_raw e.kind
  unfolding write_entry
  chunk_kind =
      get_or-append_add name_part numbers 40 8 0 (omega (arith, length-name_part))
      ∙ (get_or-append_add (to_le_bytes 4 e.start_block)
            (to_le_bytes 4 e.length ++ (to_raw e.kind ∷ replicate 3 0)) 8 4 0
            (omega (arith, length-to_le_bytes 4 e.start_block))
          ∙ get_or-append_add (to_le_bytes 4 e.length) (to_raw e.kind ∷ replicate 3 0) 4 0 0
              (omega (arith, length-to_le_bytes 4 e.length)))

  chunk_first : IsEntry e → (get_or (write_entry e) 0 0 == 0) ≡ false
  unfolding write_entry
  chunk_first v = rw (name_part-eq v) (
      rw (append_assoc e.name (replicate (32 - length e.name) 0) numbers)
        (first_no_nul e.name _ v.not_empty v.no_nul))

-- An entry that the format can hold is read back as it was written.
pub deserialize_entry-write_entry :
    (e : FileEntry) → IsEntry e → deserialize_entry (write_entry e) ≡ some e
unfolding deserialize_entry
deserialize_entry-write_entry e v = ground (
  arith,
  length-write_entry e,
  chunk_first e v,
  chunk_name e v,
  v.utf8,
  chunk_kind e,
  from_raw-to_raw e.kind,
  chunk_start e v,
  chunk_length e v,
)

pub length-entries_bytes :
    (es : List FileEntry) → length (entries_bytes es) ≡ dir_entry_size * length es
unfolding entries_bytes
length-entries_bytes [] = refl
length-entries_bytes (e ∷ es) = omega (
  arith,
  length-append (write_entry e) (entries_bytes es),
  length-write_entry e,
  length-entries_bytes es,
)

-- All entries of a list can be held.
abbrev pub AreEntries : List FileEntry → Type 0
AreEntries [] = Unit {0}
AreEntries (e ∷ es) = IsEntry e × AreEntries es

drop-replicate : (m k a : ℕ) → drop m (replicate k a) ≡ replicate (k - m) a
drop-replicate zero k a = let e : k ≡ k - 0 = omega arith in ap (λ i. replicate i a) e
drop-replicate (suc m) zero a = let e : 0 ≡ 0 - suc m = omega arith in ap (λ i. replicate i a) e
drop-replicate (suc m) (suc k) a =
    let e : k - m ≡ suc k - suc m = omega arith in drop-replicate m k a ∙ ap (λ i. replicate i a) e

take-replicate_first : (k a : ℕ) → a ≡ 0 → get_or (take 44 (replicate k a)) 0 0 ≡ a
take-replicate_first zero a h = sym h
take-replicate_first (suc k) a h = refl

deserialize_entry-zero : (chunk : List ℕ) → get_or chunk 0 0 ≡ 0 → deserialize_entry chunk ≡ none
unfolding deserialize_entry
deserialize_entry-zero chunk h = ground arith

-- A run of zeros holds no entry.
parse_entries-replicate : (n k : ℕ) → parse_entries n (replicate k 0) ≡ []
unfolding parse_entries
parse_entries-replicate zero k = refl
parse_entries-replicate (suc n) k = ground (
  arith,
  deserialize_entry-zero (take 44 (replicate k 0)) (take-replicate_first k 0 refl),
  ap (parse_entries n) (drop-replicate 44 k 0),
  parse_entries-replicate n (k - 44),
)

parse_entries-cons :
    (n : ℕ) (raw tail chunk : List ℕ) {e : FileEntry}
    → take 44 raw ≡ chunk
    → drop 44 raw ≡ tail
    → length chunk ≡ dir_entry_size
    → deserialize_entry chunk ≡ some e
    → parse_entries (suc n) raw ≡ e ∷ parse_entries n tail
unfolding parse_entries
parse_entries-cons n raw tail chunk t d l s = ground (arith, ap (parse_entries n) d)

-- Entries that the format can hold, written one after another and followed by zeros, are read back
-- if there are chunks enough.
pub parse_entries-entries_bytes :
    (es : List FileEntry) (n k : ℕ)
    → AreEntries es
    → length es ≤ n
    → parse_entries n (entries_bytes es ++ replicate k 0) ≡ es
unfolding parse_entries entries_bytes
parse_entries-entries_bytes [] n k v h = parse_entries-replicate n k
parse_entries-entries_bytes (e ∷ es) zero k v h = absurd (omega arith)
parse_entries-entries_bytes (e ∷ es) (suc n) k v h =
    let chunk = write_entry e in
    let tail = entries_bytes es ++ replicate k 0 in
    let sized = length-write_entry e in
    let whole = append_assoc chunk (entries_bytes es) (replicate k 0) in
    parse_entries-cons n (entries_bytes (e ∷ es) ++ replicate k 0) tail chunk
      (ap (take 44) whole ∙ take-append_self chunk tail 44 (omega (arith, sized)))
      (ap (drop 44) whole ∙ drop-append_add chunk tail 44 0 (omega (arith, sized))) sized
      (deserialize_entry-write_entry e v.0)
    ∙ ap (λ l. e ∷ l) (parse_entries-entries_bytes es n k v.1 (omega arith))
