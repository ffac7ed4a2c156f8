-- ===== src/Snbt/Decode/Write/Lists.antt =====
-- `writeListOrArray` of nbt/snbt_decode.go takes a step, or finds the end.
use mc_afk_go.Base.{ℕ, zero, suc, ◌+◌, ◌-◌, ◌≤◌, ◌<◌, ◌≡◌, refl, arith, Bool, ◌||◌, ◌==◌}
use mc_afk_go.Base.{Bool-cases, inl, inr, ◌⊎◌, Option, none, [], ◌∷◌, length}
use mc_afk_go.Io.{Bytes, Writer, write}
use mc_afk_go.Nbt.{TagType, tag_id}
use mc_afk_go.Nbt.Write.{write_list_header}
use mc_afk_go.Snbt.{Code, scan_skip_space, scan_end_value, scan_list_value, scan_begin_literal}
use mc_afk_go.Snbt.{scan_begin_list, scan_begin_compound, scan_list_type}
use mc_afk_go.Snbt.Scan.Ends.{IsFinal}
use mc_afk_go.Snbt.Decode.{
  DecodeState, start_state, same_code, scan_next, Result, M, bind_result, syntax,
}
use mc_afk_go.Snbt.Decode.Steps.{next_scanned, panicking, expect_either, put_list, array_types}
use mc_afk_go.Snbt.Decode.Progress.{
  left, IsLive, Ensures, ensured, ends_err, ends_panic, Ensures-bind, check_error-Ensures,
  on_code-Ensures, goes_on, Keeps, Keeps-refl, skip_space-Ensures, scanned-Ensures,
  read_literal-Ensures, emit-Ensures, scan_next-left, scan_next-IsFinal,
}
use mc_afk_go.Snbt.Decode.Loops.{
  Ensures-last, tag_if-Ensures, Falls, Falls-left, NoMore, Steps, write_array-Ensures,
  literal_loop-Ensures, list_loop-Ensures, compound_loop-Ensures,
}
use mc_afk_go.Snbt.Decode.Write.{literal_list, list_cases, list_body}

expect_either-Ensures :
    {B : Type 0} (Q : B → DecodeState → Type 0) (op other : Code) (d : DecodeState) (w : Writer)
    (f : M B)
    → Ensures Q (f d w)
    → Ensures Q (bind_result (expect_either op other d w) (λ _. f))
unfolding expect_either
expect_either-Ensures Q op other d w f h =
    elim (Bool-cases (same_code d.opcode op || same_code d.opcode other)) [
      | inl fits ↦ rw fits h
      | inr not' ↦ rw not' ends_panic
    ]

array_types-Ensures :
    (bs : Bytes) (d : DecodeState) (w : Writer) → Ensures (λ _ e. Keeps d e) (array_types bs d w)
unfolding array_types panicking syntax
array_types-Ensures [] d w = ends_panic
array_types-Ensures (c ∷ cs) d w = elim (Bool-cases (c == b'B')) [
  | inl is_b ↦ rw is_b (ensured _ d w (Keeps-refl d))
  | inr not_b ↦ rw not_b (elim (Bool-cases (c == b'I')) [
    | inl is_i ↦ rw is_i (ensured _ d w (Keeps-refl d))
    | inr not_i ↦ rw not_i (elim (Bool-cases (c == b'L')) [
      | inl is_l ↦ rw is_l (ensured _ d w (Keeps-refl d))
      | inr not_l ↦ rw not_l (ends_err _ w)
    ])
  ])
]

put_list-Ensures :
    (elem count : ℕ) (buf : Bytes) (d : DecodeState) (w : Writer)
    → Ensures (NoMore (left d)) (put_list elem count buf d w)
unfolding put_list
put_list-Ensures elem count buf d w =
    Ensures-bind _ _ _ _ (emit-Ensures (write_list_header elem count) d w)
      λ _ e v k. Ensures-last (emit-Ensures (λ u. write u buf) e v) (omega arith)

IsFinal-at : (d : DecodeState) → IsLive d → left d ≡ 0 → IsFinal d.opcode
IsFinal-at d (inl h) l = absurd (omega arith)
IsFinal-at d (inr h) l = h.1

pub Ensures-less :
    {A : Type 0} {k j : ℕ} {r : Result A}
    → Ensures (λ _ e. left e < k) r
    → k ≤ j
    → Ensures (λ _ e. left e < j) r
Ensures-less (ensured a e w h) l = ensured a e w (omega arith)
Ensures-less (ends_err x w) l = ends_err x w
Ensures-less ends_panic l = ends_panic

pub Ensures-Falls :
    {A : Type 0} {k : ℕ} {r : Result A} (d : DecodeState)
    → Ensures (λ _ e. Falls d e) r
    → left d ≤ k
    → Ensures (λ _ e. left e ≤ k) r
Ensures-Falls d (ensured a e w h) l = ensured a e w (omega (arith, Falls-left d e h))
Ensures-Falls d (ends_err x w) l = ends_err x w
Ensures-Falls d ends_panic l = ends_panic

pub start_left : (m : Bytes) → left (start_state m) + 2 ≤ length m + 3
unfolding start_state
start_left m = omega arith

zero_or_more : (n : ℕ) → (n ≡ 0) ⊎ (0 < n)
zero_or_more zero = inl refl
zero_or_more (suc n) = inr (omega arith)

module _ (parse_float : ℕ → Bytes → Option ℕ) (to_float32 : ℕ → ℕ) where
  literal_list-Ensures :
      (fuel : ℕ) (with_tag : Bool) (name : Bytes) (d : DecodeState) (w : Writer)
      → left d < fuel
      → Ensures (NoMore (left d)) (literal_list parse_float to_float32 fuel with_tag name d w)
  unfolding literal_list
  literal_list-Ensures fuel with_tag name d w l =
      Ensures-bind _ _ _ _ (read_literal-Ensures d w) λ bs e1 w1 k1.
        skip_space-Ensures _ e1 w1 _ λ e2 k2. check_error-Ensures _ e2 w1 _ λ _.
          on_code-Ensures _ scan_list_type e2 w1 _ _
            (λ _. Ensures-bind _ _ _ _ (array_types-Ensures bs e2 w1) λ types e3 w3 k3.
              Ensures-bind _ _ _ _ (tag_if-Ensures with_tag (tag_id types.0) name e3 w3)
                λ _ e4 w4 k4.
                  Ensures-bind _ _ _ _
                    (write_array-Ensures parse_float to_float32 fuel types.1 e4 w4 (omega arith))
                    λ _ e5 w5 k5. ensured _ e5 w5 (omega arith))
            (λ _.
              Ensures-bind _ _ _ _ (tag_if-Ensures with_tag (tag_id TagType.list) name e2 w1)
                λ _ e3 w3 k3. expect_either-Ensures _ scan_list_value scan_end_value e3 w3 _ (
                  Ensures-bind _ _ _ _
                    (literal_loop-Ensures parse_float to_float32 fuel (left e3) none 0 [] bs e3 w3
                      (k3.live (k2.live k1.0)) (omega arith) (omega arith))
                    λ out e4 w4 k4.
                      Ensures-bind _ _ _ _ (put_list-Ensures (tag_id out.0) out.1 out.2 e4 w4)
                        λ _ e5 w5 k5. ensured _ e5 w5 (omega arith)))

  list_cases-Ensures :
      (one : M ℕ) (payload : M (Unit {0})) (fuel : ℕ) (with_tag : Bool) (name : Bytes)
      (d : DecodeState) (w : Writer)
      → Steps (left d) one
      → Steps (left d) payload
      → left d < fuel
      → Ensures
          (NoMore (left d))
          (list_cases parse_float to_float32 one payload fuel with_tag name d w)
  unfolding list_cases
  list_cases-Ensures one payload fuel with_tag name d w h k l =
      on_code-Ensures _ scan_begin_literal d w _ _
        (λ _. literal_list-Ensures fuel with_tag name d w l)
        λ _.
          on_code-Ensures _ scan_begin_list d w _ _
            (λ _.
              Ensures-bind _ _ _ _ (tag_if-Ensures with_tag (tag_id TagType.list) name d w)
                λ _ e1 w1 k1.
                  Ensures-bind _ _ _ _
                    (list_loop-Ensures one fuel (left d) 0 [] e1 w1 h (omega arith) (omega arith))
                    λ out e2 w2 k2.
                      Ensures-bind _ _ _ _ (put_list-Ensures out.0 out.1 out.2 e2 w2)
                        λ _ e3 w3 k3. ensured _ e3 w3 (omega arith))
            λ _.
              on_code-Ensures _ scan_begin_compound d w _ _
                (λ _.
                  Ensures-bind _ _ _ _ (tag_if-Ensures with_tag (tag_id TagType.list) name d w)
                    λ _ e1 w1 k1.
                      Ensures-bind _ _ _ _
                        (compound_loop-Ensures payload fuel (left d) 0 [] e1 w1 k (omega arith)
                          (omega arith))
                        λ out e2 w2 k2.
                          Ensures-bind _ _ _ _
                            (put_list-Ensures (tag_id TagType.compound) out.0 out.1 e2 w2)
                            λ _ e3 w3 k3. ensured _ e3 w3 (omega arith))
                (λ _. ensured _ d w (omega arith))

  -- Behind the end nothing begins.
  list_cases-IsFinal :
      (one : M ℕ) (payload : M (Unit {0})) (fuel : ℕ) (with_tag : Bool) (name : Bytes)
      (d : DecodeState) (w : Writer)
      → left d ≡ 0
      → IsFinal d.opcode
      → Ensures
          (λ _ e. (left e ≡ 0) × IsFinal e.opcode)
          (list_cases parse_float to_float32 one payload fuel with_tag name d w)
  unfolding list_cases
  list_cases-IsFinal one payload fuel with_tag name d w l f =
      on_code-Ensures _ scan_begin_literal d w _ _
        (λ t. absurd (omega (arith, goes_on scan_begin_literal d (inr (l, f)) t (omega arith))))
        λ _.
          on_code-Ensures _ scan_begin_list d w _ _
            (λ t. absurd (omega (arith, goes_on scan_begin_list d (inr (l, f)) t (omega arith))))
            λ _.
              on_code-Ensures _ scan_begin_compound d w _ _
                (λ t.
                  absurd
                    (omega (arith, goes_on scan_begin_compound d (inr (l, f)) t (omega arith))))
                (λ _. ensured _ d w (l, f))

  pub list_body-Ensures :
      (one : M ℕ) (payload : M (Unit {0})) (fuel : ℕ) (with_tag : Bool) (name : Bytes)
      (d : DecodeState) (w : Writer)
      → (0 < left d → Steps (left d - 1) one)
      → (0 < left d → Steps (left d - 1) payload)
      → left d < fuel
      → Ensures
          (λ _ e. Falls d e)
          (list_body parse_float to_float32 one payload fuel with_tag name d w)
  unfolding list_body next_scanned
  list_body-Ensures one payload fuel with_tag name d w h k l =
      scanned-Ensures _ scan_skip_space d w _ λ e1 live1 few1.
        on_code-Ensures _ scan_end_value e1 w _ _
          (λ t.
            Ensures-bind _ _ _ _ (tag_if-Ensures with_tag (tag_id TagType.list) name e1 w)
              λ _ e2 w2 k2.
                Ensures-bind _ _ _ _ (emit-Ensures (write_list_header (tag_id TagType.end) 0) e2 w2)
                  λ _ e3 w3 k3. ensured _ (scan_next e3) w3 (
                    inl (
                      omega (
                        arith,
                        scan_next-left e3,
                        goes_on scan_end_value e1 live1 t (omega arith),
                      ))))
          (λ _. elim (zero_or_more (left d)) [
            | inl none' ↦
                Ensures-bind _ _ _ _
                  (list_cases-IsFinal one payload fuel with_tag name e1 w (omega arith)
                    (IsFinal-at e1 live1 (omega arith)))
                  λ t e2 w2 k2. ensured _ (scan_next e2) w2 (inr (scan_next-IsFinal e2 k2.0 k2.1))
            | inr some' ↦
                Ensures-bind _ _ _ _
                  (list_cases-Ensures one payload fuel with_tag name e1 w
                    (λ s v m. h some' s v (omega arith)) (λ s v m. k some' s v (omega arith))
                    (omega arith))
                  λ t e2 w2 k2. ensured _ (scan_next e2) w2 (inl (omega (arith, scan_next-left e2)))
          ])
