-- ===== src/Snbt/Decode/Progress.antt =====
-- How far the reads of nbt/snbt_decode.go have come, and that its loops come to an end.
use mc_afk_go.Base.{ℕ, ◌+◌, ◌-◌, ◌≤◌, ◌<◌, ◌≡◌, ap, arith, true}
use mc_afk_go.Base.{false, Bool-cases, inl, inr, ◌⊎◌, Option, none, some, ==_iff}
use mc_afk_go.Base.{[], ◌∷◌, length, drop, length-drop}
use mc_afk_go.Io.{Bytes, Error, Writer, Written}
use mc_afk_go.Snbt.{Code, Scanner, scan_error}
use mc_afk_go.Snbt.{scan_skip_space, scan_continue}
use mc_afk_go.Snbt.Scan.{scan_byte}
use mc_afk_go.Snbt.Decode.Steps.{on_code}
use mc_afk_go.Snbt.Scan.Ends.{eof-IsFinal, IsFinal}
use mc_afk_go.Snbt.Decode.{
  code_id, read_literal, index, slice_from, DecodeState, same_code, scan_next, scan_next_byte,
  scan_loop, scan_while, EncodeError, Result, ok, err, panic, M, bind_result, scanned, skip_space,
  check_error, expect, emit, emitted,
}

-- The steps that are left: the bytes, and one for the end.
abbrev pub left : DecodeState → ℕ
left d = length d.content + 1 - d.off

-- At the end of the data the code is one of the two of eof.
abbrev pub IsLive : DecodeState → Type 0
IsLive d = (0 < left d) ⊎ ((left d ≡ 0) × IsFinal d.opcode)

scan_loop-progress :
    (op : Code) (content cs : Bytes) (i : ℕ) (s : Scanner)
    → length cs ≡ length content - i
    → IsLive (scan_loop op content cs i s) × (left (scan_loop op content cs i s) ≤ length cs)
unfolding scan_loop
scan_loop-progress op content [] i s h = (inr (omega arith, eof-IsFinal s), omega arith)
scan_loop-progress op content (c ∷ cs) i s h = elim (Bool-cases (same_code (scan_byte s c).1 op)) [
  | inl more ↦ rw more (
      let (live, few) = scan_loop-progress op content cs (i + 1) (scan_byte s c).0 (omega arith) in
      (live, omega arith))
  | inr other ↦ rw other (inl (omega arith), omega arith)
]

-- A scan takes a step, if there is one.
pub scan_while-progress :
    (op : Code) (d : DecodeState) → IsLive (scan_while op d) × (left (scan_while op d) ≤ left d - 1)
unfolding scan_while
scan_while-progress op d =
    let (live, few) =
      scan_loop-progress op d.content (drop d.off d.content) d.off d.scan
        (length-drop d.off d.content) in
    (live, omega (arith, length-drop d.off d.content))

pub scan_next-left : (d : DecodeState) → left (scan_next d) ≤ left d
unfolding scan_next
scan_next-left d = by_rest (drop d.off d.content)
  where
    by_rest : (cs : Bytes) → left (scan_next_byte d cs) ≤ left d
    by_rest [] = omega arith
    by_rest (c ∷ cs) = omega arith

-- The call returns, and a value that it returns comes with such a state.
pub data Ensures {A : Type 0} (Q : A → DecodeState → Type 0) : Result A → Type 0 where
  ensured : (a : A) (d : DecodeState) (w : Writer) → Q a d → Ensures Q (ok a d w)
  ends_err : (e : EncodeError) (w : Writer) → Ensures Q (err e w)
  ends_panic : Ensures Q panic

pub Ensures-bind :
    {A B : Type 0} (P : A → DecodeState → Type 0) (Q : B → DecodeState → Type 0) (r : Result A)
    (f : A → M B)
    → Ensures P r
    → ((a : A) (d : DecodeState) (w : Writer) → P a d → Ensures Q (f a d w))
    → Ensures Q (bind_result r f)
Ensures-bind P Q _ f (ensured a d w h) k = k a d w h
Ensures-bind P Q _ f (ends_err e w) k = ends_err e w
Ensures-bind P Q _ f ends_panic k = ends_panic

-- The tests of the opcode, with what is known behind them.
pub check_error-Ensures :
    {B : Type 0} (Q : B → DecodeState → Type 0) (d : DecodeState) (w : Writer) (f : M B)
    → (same_code d.opcode scan_error ≡ false → Ensures Q (f d w))
    → Ensures Q (bind_result (check_error d w) (λ _. f))
unfolding check_error
check_error-Ensures Q d w f h = elim (Bool-cases (same_code d.opcode scan_error)) [
  | inl bad ↦ rw bad (ends_err _ w)
  | inr fine ↦ rw fine (h fine)
]

pub expect-Ensures :
    {B : Type 0} (Q : B → DecodeState → Type 0) (op : Code) (d : DecodeState) (w : Writer) (f : M B)
    → (same_code d.opcode op ≡ true → Ensures Q (f d w))
    → Ensures Q (bind_result (expect op d w) (λ _. f))
unfolding expect
expect-Ensures Q op d w f h = elim (Bool-cases (same_code d.opcode op)) [
  | inl fits ↦ rw fits (h fits)
  | inr not' ↦ rw not' ends_panic
]

pub on_code-Ensures :
    {B : Type 0} (Q : B → DecodeState → Type 0) (op : Code) (d : DecodeState) (w : Writer)
    (f g : M B)
    → (same_code d.opcode op ≡ true → Ensures Q (f d w))
    → (same_code d.opcode op ≡ false → Ensures Q (g d w))
    → Ensures Q (on_code op f g d w)
unfolding on_code
on_code-Ensures Q op d w f g h k = elim (Bool-cases (same_code d.opcode op)) [
  | inl fits ↦ rw fits (h fits)
  | inr not' ↦ rw not' (k not')
]

-- A code below the two final ones shows that there are steps left.
pub goes_on :
    (op : Code) (d : DecodeState)
    → IsLive d
    → same_code d.opcode op ≡ true
    → code_id op < 10
    → 0 < left d
goes_on op d (inl h) e k = h
goes_on op d (inr (h, f)) e k =
    let same : code_id d.opcode ≡ code_id op = (==_iff (code_id d.opcode) (code_id op)).0 e in
    absurd (omega (arith, final_id f, same, k))
  where
    final_id : IsFinal d.opcode → 10 ≤ code_id d.opcode
    final_id (inl h) = omega (arith, ap code_id h)
    final_id (inr h) = omega (arith, ap code_id h)

-- Nothing is unread that was read, and the end stays the end.
pub record Keeps (d e : DecodeState) : Type 0 where
  pub no_more : left e ≤ left d
  pub live : IsLive d → IsLive e

pub Keeps-refl : (d : DecodeState) → Keeps d d
Keeps-refl d = record { no_more = omega arith; live = λ h. h }

pub skip_space-Ensures :
    {B : Type 0} (Q : B → DecodeState → Type 0) (d : DecodeState) (w : Writer) (f : M B)
    → ((e : DecodeState) → Keeps d e → Ensures Q (f e w))
    → Ensures Q (bind_result (skip_space d w) (λ _. f))
unfolding skip_space
skip_space-Ensures Q d w f h = elim (Bool-cases (same_code d.opcode scan_skip_space)) [
  | inl space ↦ rw space (
      h (scan_while scan_skip_space d) (
        let (live, few) = scan_while-progress scan_skip_space d in
        record { no_more = omega arith; live = λ _. live }))
  | inr none' ↦ rw none' (h d (Keeps-refl d))
]

pub scanned-Ensures :
    {B : Type 0} (Q : B → DecodeState → Type 0) (op : Code) (d : DecodeState) (w : Writer) (f : M B)
    → ((e : DecodeState) → IsLive e → left e ≤ left d - 1 → Ensures Q (f e w))
    → Ensures Q (bind_result (scanned op d w) (λ _. f))
unfolding scanned
scanned-Ensures Q op d w f h =
    let (live, few) = scan_while-progress op d in h (scan_while op d) live few

pub read_literal-Ensures :
    (d : DecodeState) (w : Writer)
    → Ensures (λ bs e. IsLive e × (left e ≤ left d - 1)) (read_literal d w)
unfolding read_literal index slice_from
read_literal-Ensures d w =
    scanned-Ensures _ scan_continue d w _
      λ e live few. check_error-Ensures _ e w _ (λ _. ensured _ e w (live, few))

pub emit-Ensures :
    (out : Writer → Written) (d : DecodeState) (w : Writer)
    → Ensures (λ _ e. Keeps d e) (emit out d w)
unfolding emit
emit-Ensures out d w = by_err (out w).err
  where
    by_err : (e : Option Error) → Ensures (λ _ e'. Keeps d e') (emitted e (out w).sink d)
    by_err none = ensured tt d _ (Keeps-refl d)
    by_err (some x) = ends_err _ _

-- At the end, scanNext changes nothing that counts.
pub scan_next-IsFinal :
    (d : DecodeState)
    → left d ≡ 0
    → IsFinal d.opcode
    → (left (scan_next d) ≡ 0) × IsFinal (scan_next d).opcode
unfolding scan_next
scan_next-IsFinal d l f =
    by_rest (drop d.off d.content) (omega (arith, length-drop d.off d.content))
  where
    by_rest :
        (cs : Bytes)
        → length cs ≡ 0
        → (left (scan_next_byte d cs) ≡ 0) × IsFinal (scan_next_byte d cs).opcode
    by_rest [] h = (omega arith, f)
    by_rest (c ∷ cs) h = absurd (omega arith)
