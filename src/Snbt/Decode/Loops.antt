-- ===== src/Snbt/Decode/Loops.antt =====
-- The loops of nbt/snbt_decode.go over the elements of an array and of a list come to an end: each
-- round takes a step.
use mc_afk_go.Base.{ℕ, zero, suc, ◌≤◌, ◌<◌, ◌≡◌, arith, Bool, true, false, ◌==◌}
use mc_afk_go.Base.{Bool-cases, inl, inr, ◌⊎◌, Option, some, []}
use mc_afk_go.Base.Bits.{u32}
use mc_afk_go.Io.{Bytes, Writer, write, buffer}
use mc_afk_go.Nbt.{TagType, tag_id}
use mc_afk_go.Nbt.Write.{write_int32, write_tag}
use mc_afk_go.Snbt.{Code, scan_skip_space, scan_end_value, scan_list_value, scan_begin_literal}
use mc_afk_go.Snbt.{scan_begin_list, scan_begin_compound}
use mc_afk_go.Snbt.Literal.{literal_tag, parse_literal, Parsed, parsed, bad_number, panics}
use mc_afk_go.Snbt.Scan.Ends.{IsFinal}
use mc_afk_go.Snbt.Decode.{
  DecodeState, same_code, scan_next, Result, M, bind_result, syntax, emit, literal_value,
  write_literal_payload, SyntaxMessage, not_literal, unexpected_element_type, different_tag_type,
}
use mc_afk_go.Snbt.Decode.Steps.{
  to_buffer, tag_if, buffered, next_scanned, require, require_tag, put_array, literal_of,
  array_loop, write_array, literal_loop, list_loop, compound_loop, first_tag,
}
use mc_afk_go.Snbt.Decode.Progress.{
  left, IsLive, Ensures, ensured, ends_err, ends_panic, Ensures-bind, check_error-Ensures,
  expect-Ensures, on_code-Ensures, goes_on, Keeps, Keeps-refl, skip_space-Ensures, scanned-Ensures,
  read_literal-Ensures, emit-Ensures, scan_next-left,
}

pub literal_of-Ensures :
    (parse_float : ℕ → Bytes → Option ℕ) (to_float32 : ℕ → ℕ) (bs : Bytes) (d : DecodeState)
    (w : Writer)
    → Ensures (λ _ e. Keeps d e) (literal_of parse_float to_float32 bs d w)
unfolding literal_of literal_value
literal_of-Ensures parse_float to_float32 bs d w =
    by_literal (parse_literal parse_float to_float32 bs)
  where
    by_literal : (p : Parsed) → Ensures (λ _ e. Keeps d e) (literal_value p d w)
    by_literal (parsed v) = ensured v d w (Keeps-refl d)
    by_literal (bad_number t) = ends_err _ w
    by_literal panics = ends_panic

pub tag_if-Ensures :
    (with_tag : Bool) (tag : ℕ) (name : Bytes) (d : DecodeState) (w : Writer)
    → Ensures (λ _ e. Keeps d e) (tag_if with_tag tag name d w)
unfolding tag_if
tag_if-Ensures true tag name d w = emit-Ensures (write_tag tag name) d w
tag_if-Ensures false tag name d w = ensured tt d w (Keeps-refl d)

pub require-Ensures :
    {B : Type 0} (Q : B → DecodeState → Type 0) (op : Code) (m : SyntaxMessage) (d : DecodeState)
    (w : Writer) (f : M B)
    → (same_code d.opcode op ≡ true → Ensures Q (f d w))
    → Ensures Q (bind_result (require op m d w) (λ _. f))
unfolding require syntax
require-Ensures Q op m d w f h = elim (Bool-cases (same_code d.opcode op)) [
  | inl fits ↦ rw fits (h fits)
  | inr not' ↦ rw not' (ends_err _ w)
]

require_tag-Ensures :
    {B : Type 0} (Q : B → DecodeState → Type 0) (t u : TagType) (m : SyntaxMessage)
    (d : DecodeState) (w : Writer) (f : M B)
    → Ensures Q (f d w)
    → Ensures Q (bind_result (require_tag t u m d w) (λ _. f))
unfolding require_tag syntax
require_tag-Ensures Q t u m d w f h = elim (Bool-cases (tag_id t == tag_id u)) [
  | inl fits ↦ rw fits h
  | inr not' ↦ rw not' (ends_err _ w)
]

pub buffered-Ensures :
    {A : Type 0} (Q : DecodeState → Type 0) (m : M A) (buf : Bytes) (d : DecodeState) (w : Writer)
    → Ensures (λ _ e. Q e) (m d (buffer buf))
    → Ensures (λ _ e. Q e) (buffered m buf d w)
unfolding buffered
buffered-Ensures {A} Q m buf d w h = by_result (m d (buffer buf)) h
  where
    by_result : (r : Result A) → Ensures (λ _ e. Q e) r → Ensures (λ _ e. Q e) (to_buffer buf w r)
    by_result _ (ensured a e v k) = ensured (a, v.written) e w k
    by_result _ (ends_err x v) = ends_err x w
    by_result _ ends_panic = ends_panic

-- The last step of a chain, with what it keeps.
pub Ensures-last :
    {A : Type 0} {k : ℕ} {d : DecodeState} {r : Result A}
    → Ensures (λ _ e. Keeps d e) r
    → left d ≤ k
    → Ensures (λ _ e. left e ≤ k) r
Ensures-last (ensured a e w h) l = ensured a e w (omega arith)
Ensures-last (ends_err x w) l = ends_err x w
Ensures-last ends_panic l = ends_panic

-- A step is taken, or there was none left and the code is one of the end.
abbrev pub Falls : DecodeState → DecodeState → Type 0
Falls d e = (left e < left d) ⊎ ((left e ≡ 0) × IsFinal e.opcode)

pub Falls-left : (d e : DecodeState) → Falls d e → left e ≤ left d
Falls-left d e (inl h) = omega arith
Falls-left d e (inr h) = omega arith

-- What a loop ensures, from no more steps left than `k`.
abbrev pub NoMore : {A : Type 0} → ℕ → A → DecodeState → Type 0
NoMore k _ e = left e ≤ k

module _ (parse_float : ℕ → Bytes → Option ℕ) (to_float32 : ℕ → ℕ) where
  array_loop-Ensures :
      (fuel k : ℕ) (elem : TagType) (count : ℕ) (buf : Bytes) (d : DecodeState) (w : Writer)
      → left d < fuel
      → left d ≤ k
      → Ensures (NoMore k) (array_loop parse_float to_float32 fuel elem count buf d w)
  unfolding array_loop
  array_loop-Ensures zero k elem count buf d w l m = absurd (omega arith)
  array_loop-Ensures (suc fuel) k elem count buf d w l m = skip_space-Ensures _ d w _ λ e1 k1.
      require-Ensures _ scan_begin_literal not_literal e1 w _ λ _.
        Ensures-bind _ _ _ _ (read_literal-Ensures e1 w) λ bs e3 w3 k3.
          Ensures-bind _ _ _ _ (literal_of-Ensures parse_float to_float32 bs e3 w3) λ v e4 w4 k4.
            require_tag-Ensures _ (literal_tag v) elem unexpected_element_type e4 w4 _ (
              Ensures-bind _ _ _ _
                (buffered-Ensures (Keeps e4) (emit (write_literal_payload v)) buf e4 w4
                  (emit-Ensures _ e4 _))
                λ out e6 w6 k6. skip_space-Ensures _ e6 w6 _ λ e7 k7.
                  check_error-Ensures _ e7 w6 _ λ _.
                    on_code-Ensures _ scan_end_value e7 w6 _ _
                      (λ _. ensured (suc count, out.1) e7 w6 (omega arith))
                      λ _. expect-Ensures _ scan_list_value e7 w6 _ λ go.
                        scanned-Ensures _ scan_skip_space e7 w6 _ λ e8 live8 few8.
                          let more : 0 < left e7 =
                            goes_on scan_list_value e7 (k7.live (k6.live (k4.live k3.0))) go
                              (omega arith) in
                          array_loop-Ensures fuel k elem (suc count) out.1 e8 w6 (omega arith)
                            (omega arith))

  pub write_array-Ensures :
      (fuel : ℕ) (elem : TagType) (d : DecodeState) (w : Writer)
      → left d < fuel
      → Ensures (NoMore (left d)) (write_array parse_float to_float32 fuel elem d w)
  unfolding write_array put_array
  write_array-Ensures fuel elem d w l = skip_space-Ensures _ d w _ λ e1 k1.
      scanned-Ensures _ scan_skip_space e1 w _ λ e2 live2 few2.
        on_code-Ensures _ scan_end_value e2 w _ _
          (λ _. Ensures-last (emit-Ensures (write_int32 0) e2 w) (omega arith))
          λ _.
            Ensures-bind _ _ _ _
              (array_loop-Ensures fuel (left e2) elem 0 [] e2 w (omega arith) (omega arith))
              λ out e3 w3 k3.
                Ensures-bind _ _ _ _ (emit-Ensures (write_int32 (u32 out.0)) e3 w3)
                  λ _ e4 w4 k4. Ensures-last (emit-Ensures (λ v. write v out.1) e4 w4) (omega arith)

  pub literal_loop-Ensures :
      (fuel k : ℕ) (first : Option TagType) (count : ℕ) (buf bs : Bytes) (d : DecodeState)
      (w : Writer)
      → IsLive d
      → left d < fuel
      → left d ≤ k
      → Ensures (NoMore k) (literal_loop parse_float to_float32 fuel first count buf bs d w)
  unfolding literal_loop
  literal_loop-Ensures zero k first count buf bs d w live l m = absurd (omega arith)
  literal_loop-Ensures (suc fuel) k first count buf bs d w live l m =
      Ensures-bind _ _ _ _ (literal_of-Ensures parse_float to_float32 bs d w) λ v e4 w4 k4.
        require_tag-Ensures _ (literal_tag v) (first_tag first (literal_tag v)) different_tag_type
          e4 w4 _
          (Ensures-bind _ _ _ _
            (buffered-Ensures (Keeps e4) (emit (write_literal_payload v)) buf e4 w4
              (emit-Ensures _ e4 _))
            λ out e6 w6 k6. skip_space-Ensures _ e6 w6 _ λ e7 k7. check_error-Ensures _ e7 w6 _ λ _.
              on_code-Ensures _ scan_end_value e7 w6 _ _
                (λ _.
                  ensured (first_tag first (literal_tag v), suc count, out.1) e7 w6 (omega arith))
                λ _. expect-Ensures _ scan_list_value e7 w6 _ λ go.
                  scanned-Ensures _ scan_skip_space e7 w6 _ λ e8 live8 few8.
                    let more : 0 < left e7 =
                      goes_on scan_list_value e7 (k7.live (k6.live (k4.live live))) go
                        (omega arith) in
                    Ensures-bind _ _ _ _ (read_literal-Ensures e8 w6) λ next e9 w9 k9.
                      literal_loop-Ensures fuel k (some (first_tag first (literal_tag v)))
                        (suc count) out.1 next e9 w9 k9.0 (omega arith) (omega arith))

-- A writer of one element that takes a step, or none when there is none left.
abbrev pub Steps : {A : Type 0} → ℕ → M A → Type 0
Steps k one = (d : DecodeState) (w : Writer) → left d ≤ k → Ensures (λ _ e. Falls d e) (one d w)

-- A comma after the element shows that the element took a step.
Falls-on :
    (d e f : DecodeState)
    → Falls d e
    → Keeps e f
    → same_code f.opcode scan_list_value ≡ true
    → left f < left d
Falls-on d e f (inl h) k go = omega arith
Falls-on d e f (inr h) k go =
    absurd (omega (arith, goes_on scan_list_value f (k.live (inr h)) go (omega arith)))

Keeps-trans : {d e f : DecodeState} → Keeps d e → Keeps e f → Keeps d f
Keeps-trans h k = record { no_more = omega arith; live = λ l. k.live (h.live l) }

pub list_loop-Ensures :
    (one : M ℕ) (fuel k count : ℕ) (buf : Bytes) (d : DecodeState) (w : Writer)
    → Steps k one
    → left d < fuel
    → left d ≤ k
    → Ensures (NoMore k) (list_loop one fuel count buf d w)
unfolding list_loop next_scanned
list_loop-Ensures one zero k count buf d w h l m = absurd (omega arith)
list_loop-Ensures one (suc fuel) k count buf d w h l m = skip_space-Ensures _ d w _ λ e1 k1.
    require-Ensures _ scan_begin_list different_tag_type e1 w _ λ _.
      Ensures-bind _ _ _ _ (buffered-Ensures (Falls e1) one buf e1 w (h e1 _ (omega arith)))
        λ out e6 w6 k6. skip_space-Ensures _ e6 w6 _ λ e7 k7. check_error-Ensures _ e7 w6 _ λ _.
          on_code-Ensures _ scan_end_value e7 w6 _ _
            (λ _. ensured (out.0, suc count, out.1) e7 w6 (omega (arith, Falls-left e1 e6 k6)))
            λ _. expect-Ensures _ scan_list_value e7 w6 _ λ go.
              list_loop-Ensures one fuel k (suc count) out.1 (scan_next e7) w6 h
                (omega (arith, scan_next-left e7, Falls-on e1 e6 e7 k6 k7 go))
                (omega (arith, scan_next-left e7, Falls-on e1 e6 e7 k6 k7 go))

pub compound_loop-Ensures :
    (one : M (Unit {0})) (fuel k count : ℕ) (buf : Bytes) (d : DecodeState) (w : Writer)
    → Steps k one
    → left d < fuel
    → left d ≤ k
    → Ensures (NoMore k) (compound_loop one fuel count buf d w)
unfolding compound_loop next_scanned
compound_loop-Ensures one zero k count buf d w h l m = absurd (omega arith)
compound_loop-Ensures one (suc fuel) k count buf d w h l m = skip_space-Ensures _ d w _ λ e1 k1.
    require-Ensures _ scan_begin_compound different_tag_type e1 w _ λ _.
      Ensures-bind _ _ _ _ (buffered-Ensures (Falls e1) one buf e1 w (h e1 _ (omega arith)))
        λ out e6 w6 k6. skip_space-Ensures _ e6 w6 _ λ e7 k7. skip_space-Ensures _ e7 w6 _ λ e8 k8.
          check_error-Ensures _ e8 w6 _ λ _.
            on_code-Ensures _ scan_end_value e8 w6 _ _
              (λ _. ensured (suc count, out.1) e8 w6 (omega (arith, Falls-left e1 e6 k6)))
              λ _. expect-Ensures _ scan_list_value e8 w6 _ λ go.
                let falls : left e8 < left e1 = Falls-on e1 e6 e8 k6 (Keeps-trans k7 k8) go in
                compound_loop-Ensures one fuel k (suc count) out.1 (scan_next e8) w6 h
                  (omega (arith, scan_next-left e8)) (omega (arith, scan_next-left e8))
