-- ===== src/Loader/Stack/Words.antt =====
-- The pointers that `build_user_stack` of src/process.rs writes under the arguments.
use crabv.Base.{
  ℕ, ◌+◌, ◌-◌, ◌*◌, ◌%◌, ◌^◌, ◌≤◌, ◌<◌, ◌≡◌, refl, sym, subst, ap, ◌∙◌, Bool-cases, inl, inr, List,
  [], ◌∷◌, arith, ◌==◌, length,
}
use crabv.Bytes.{to_le_bytes, from_le_bytes, from_le_bytes-to_le_bytes, length-to_le_bytes}
use crabv.Machine.{load_bytes, store_bytes, read_usize}
use crabv.Machine.Memory.{SameFrom, store_bytes-above, load_bytes-store_bytes}
use crabv.Loader.Stack.{Stack, push_usize, push_pointers, align}
use crabv.Loader.Stack.Strings.{
  StringsAt, StringsAt-same, WordsAt, null_word, word_at, WordsAt-same, Small, no_word, small_word,
}

-- A word that was written is read back, and what stands above it is as it was.
pub read_usize-push_usize :
    (value : ℕ) (st : Stack)
    → value < 2 ^ 64
    → read_usize (push_usize value st).memory (push_usize value st).sp ≡ value
unfolding push_usize read_usize
read_usize-push_usize value st h =
    let sp = st.sp - 8 in
    let bytes = to_le_bytes 8 value in
    let m' = store_bytes st.memory sp bytes in
    ap (λ (n : ℕ). from_le_bytes (load_bytes m' sp n)) (sym (length-to_le_bytes 8 value))
    ∙ (ap from_le_bytes (load_bytes-store_bytes bytes st.memory sp)
        ∙ from_le_bytes-to_le_bytes 8 value (omega arith))

pub push_usize-SameFrom :
    (value : ℕ) (st : Stack) → 8 ≤ st.sp → SameFrom st.sp st.memory (push_usize value st).memory
unfolding push_usize
push_usize-SameFrom value st h a le =
    store_bytes-above (to_le_bytes 8 value) st.memory (st.sp - 8) a
      (omega (arith, length-to_le_bytes 8 value))

pub sp-push_usize : (value : ℕ) (st : Stack) → (push_usize value st).sp ≡ st.sp - 8
unfolding push_usize
sp-push_usize value st = refl

-- Words were pushed onto strings that stand at `lo` and above.
pub record Words (lo : ℕ) (ws ps : List ℕ) (args : List (List ℕ)) (st : Stack) : Type 0 where
  pub under : st.sp ≤ lo
  pub words : WordsAt st.memory st.sp ws
  pub strings : StringsAt st.memory lo ps args

pub push_usize-strings :
    (value : ℕ) (lo : ℕ) {ps : List ℕ} {args : List (List ℕ)} (st : Stack)
    → 8 ≤ st.sp
    → st.sp ≤ lo
    → StringsAt st.memory lo ps args
    → StringsAt (push_usize value st).memory lo ps args
push_usize-strings value lo st room under strings =
    StringsAt-same st.memory (push_usize value st).memory lo lo
      (λ a le. push_usize-SameFrom value st room a (omega arith)) (omega arith) strings

pub push_usize-Words :
    (value : ℕ) (lo : ℕ) {ws ps : List ℕ} {args : List (List ℕ)} (st : Stack)
    → value < 2 ^ 64
    → 8 ≤ st.sp
    → Words lo ws ps args st
    → Words lo (value ∷ ws) ps args (push_usize value st)
push_usize-Words value lo {ws} st small room w =
    let st' = push_usize value st in
    let up : st.sp ≡ st'.sp + 8 = omega (arith, sp-push_usize value st) in
    record {
      under = omega (arith, sp-push_usize value st, w.under);
      words = word_at (read_usize-push_usize value st small) (
          subst (λ (q : ℕ). WordsAt st'.memory q ws) up
            (WordsAt-same st.memory st'.memory st.sp (push_usize-SameFrom value st room)
              (omega arith) w.words));
      strings = push_usize-strings value lo st room w.under w.strings;
    }

pub push_null-Words :
    (lo : ℕ) {ps : List ℕ} {args : List (List ℕ)} (st : Stack)
    → 8 ≤ st.sp
    → st.sp ≤ lo
    → StringsAt st.memory lo ps args
    → Words lo [] ps args (push_usize 0 st)
push_null-Words lo st room under strings = record {
  under = omega (arith, sp-push_usize 0 st);
  words = null_word (read_usize-push_usize 0 st (omega arith));
  strings = push_usize-strings 0 lo st room under strings;
}

pub sp-push_pointers : (ws : List ℕ) (st : Stack) → (push_pointers ws st).sp ≡ st.sp - 8 * length ws
unfolding push_pointers
sp-push_pointers [] st = omega arith
sp-push_pointers (w ∷ ws) st =
    omega (arith, sp-push_usize w (push_pointers ws st), sp-push_pointers ws st)

pub push_pointers-Words :
    (lo : ℕ) {ws ps : List ℕ} {args : List (List ℕ)} (st : Stack)
    → Small ws
    → 8 * length ws ≤ st.sp
    → Words lo [] ps args st
    → Words lo ws ps args (push_pointers ws st)
unfolding push_pointers
push_pointers-Words lo st no_word room w = w
push_pointers-Words lo st (small_word {w = v} {ws = vs} small rest) room w =
    push_usize-Words v lo (push_pointers vs st) small (omega (arith, sp-push_pointers vs st))
      (push_pointers-Words lo st rest (omega arith) w)

-- The bytes that `align` and what is pushed after it take.
pub record Aligned (argc : ℕ) (st st' : Stack) : Type 0 where
  pub under : st'.sp ≤ st.sp
  pub near : st.sp ≤ st'.sp + 23
  pub even : (st'.sp - 8 * (argc + 2)) % 16 ≡ 0
  pub kept : SameFrom st.sp st.memory st'.memory

pub align-Aligned :
    (argc : ℕ) (st : Stack) → 8 * (argc + 2) + 23 ≤ st.sp → Aligned argc st (align argc st)
unfolding align push_usize
align-Aligned argc st room = elim (Bool-cases ((argc + 2) % 2 == 0)) [
  | inl whole ↦
      let two : (argc + 2) % 2 ≡ 0 = ground arith in
      rw whole (record {
        under = omega arith;
        near = omega arith;
        even = omega arith;
        kept = λ a le. refl;
      })
  | inr odd ↦
      let two : (argc + 2) % 2 ≡ 1 = ground arith in
      rw odd (record {
        under = omega arith;
        near = omega arith;
        even = omega arith;
        kept = λ a le.
            store_bytes-above (to_le_bytes 8 0) st.memory ((st.sp - st.sp % 16) - 8) a
              (omega (arith, length-to_le_bytes 8 0));
      })
]
