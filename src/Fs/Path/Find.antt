-- ===== src/Fs/Path/Find.antt =====
-- Looking up a name in a directory of src/fs.rs after an entry was added or moved.
use crabv.Base.{
  ℕ, zero, suc, ◌+◌, ◌≤◌, ◌≡◌, ◌≢◌, refl, sym, ap, ap₂, ◌∙◌, inl, inr, true, false, none, some,
  List, [], ◌∷◌, ◌++◌, arith, Bool-cases, length, if◌then◌else◌,
}
use crabv.Fs.{FileEntry}
use crabv.Fs.Path.{same_name, find_entry, relink}

pub same_name_refl : (name : List ℕ) → same_name name name ≡ true
unfolding same_name
same_name_refl [] = refl
same_name_refl (b ∷ bs) = ground (arith, same_name_refl bs)

-- A name that was not there is found at the end, where its entry was put.
pub find_entry-append :
    (es : List FileEntry) (e : FileEntry) (i : ℕ)
    → find_entry es e.name i ≡ none
    → find_entry (es ++ (e ∷ [])) e.name i ≡ some (i + length es, e)
unfolding find_entry
find_entry-append [] e i h = ground (arith, same_name_refl e.name)
find_entry-append (f ∷ es) e i h = ground (arith, find_entry-append es e (i + 1))

find_entry_index :
    (es : List FileEntry) (name : List ℕ) (i j : ℕ) {e : FileEntry}
    → find_entry es name i ≡ some (j, e)
    → i ≤ j
unfolding find_entry
find_entry_index [] name i j h = absurd (cc)
find_entry_index (f ∷ es) name i j {e} h =
    ground (arith, find_entry_index es name (i + 1) j {e = e})

-- An entry that gets a new place is still found under its name.
pub find_entry-relink :
    (es : List FileEntry) (name : List ℕ) (i k j start len : ℕ) {e : FileEntry}
    → j ≡ i + k
    → find_entry es name i ≡ some (j, e)
    → find_entry (relink es k start len) name i
      ≡ some (j, record e { start_block = start; length = len })
unfolding find_entry relink
find_entry-relink [] name i k j start len at h = absurd (cc)
find_entry-relink (f ∷ es) name i zero j start len {e} at h =
    ground (arith, find_entry_index es name (i + 1) j {e = e})
find_entry-relink (f ∷ es) name i (suc k) j start len {e} at h =
    ground (arith, find_entry-relink es name (i + 1) k j start len {e = e} (omega arith))

pub same_name_sound : (a b : List ℕ) → same_name a b ≡ true → a ≡ b
unfolding same_name
same_name_sound [] [] h = refl
same_name_sound [] (y ∷ b) h = absurd (cc)
same_name_sound (x ∷ a) [] h = absurd (cc)
same_name_sound (x ∷ a) (y ∷ b) h =
    ap₂ (λ u v. u ∷ v) (ground arith) (same_name_sound a b (ground arith))

same_name_ne : (a b : List ℕ) → a ≢ b → same_name a b ≡ false
same_name_ne a b ne = elim (Bool-cases (same_name a b)) [
  | inl same ↦ absurd (ne (same_name_sound a b same))
  | inr other ↦ other
]

-- An entry that is added or moved changes nothing for another name.
pub find_entry-append_other :
    (es : List FileEntry) (e : FileEntry) (other : List ℕ) (i : ℕ)
    → e.name ≢ other
    → find_entry (es ++ (e ∷ [])) other i ≡ find_entry es other i
unfolding find_entry
find_entry-append_other [] e other i ne = rw (same_name_ne e.name other ne) refl
find_entry-append_other (f ∷ es) e other i ne =
    ap (λ r. if same_name f.name other then some (i, f) else r)
      (find_entry-append_other es e other (i + 1) ne)

pub find_entry-relink_other :
    (es : List FileEntry) (name other : List ℕ) (i k j start len : ℕ) {e : FileEntry}
    → j ≡ i + k
    → find_entry es name i ≡ some (j, e)
    → name ≢ other
    → find_entry (relink es k start len) other i ≡ find_entry es other i
unfolding find_entry relink
find_entry-relink_other [] name other i k j start len at h ne = refl
find_entry-relink_other (f ∷ es) name other i zero j start len {e} at h ne =
    elim (Bool-cases (same_name f.name name)) [
      | inl here ↦
          let g : f.name ≢ other = λ z. ne (sym (same_name_sound f.name name here) ∙ z) in
          rw (same_name_ne f.name other g) refl
      | inr on ↦ absurd (ground (arith, find_entry_index es name (i + 1) j {e = e}))
    ]
find_entry-relink_other (f ∷ es) name other i (suc k) j start len {e} at h ne =
    elim (Bool-cases (same_name f.name name)) [
      | inl here ↦ absurd (ground arith)
      | inr on ↦
          ap (λ r. if same_name f.name other then some (i, f) else r)
            (find_entry-relink_other es name other (i + 1) k j start len {e = e} (omega arith)
              (ground arith) ne)
    ]
