-- ===== src/Snbt/Decode/Write/Fuel.antt =====
-- `writeValue`, `writeCompoundPayload` and `writeListOrArray` of nbt/snbt_decode.go come to an end:
-- a unit of fuel for each step that is left, and two more, are enough.
use mc_afk_go.Base.{ℕ, zero, suc, ◌+◌, ◌-◌, ◌≤◌, ◌<◌, arith, Bool, true, false}
use mc_afk_go.Base.{inl, Option, [], ◌∷◌, length}
use mc_afk_go.Io.{Bytes, Writer, write}
use mc_afk_go.Nbt.{TagType, tag_id}
use mc_afk_go.Snbt.{scan_skip_space, scan_end_value, scan_begin_literal}
use mc_afk_go.Snbt.{scan_begin_list, scan_begin_compound, scan_compound_value}
use mc_afk_go.Snbt.{scan_compound_tag_name}
use mc_afk_go.Snbt.Literal.{literal_tag}
use mc_afk_go.Snbt.Decode.{DecodeState, start_state, scan_next, M, write_literal_payload}
use mc_afk_go.Snbt.Decode.Steps.{next_scanned, panicking, name_of}
use mc_afk_go.Snbt.Decode.Progress.{
  left, Ensures, ensured, ends_panic, Ensures-bind, check_error-Ensures, expect-Ensures,
  on_code-Ensures, goes_on, skip_space-Ensures, scanned-Ensures, read_literal-Ensures, emit-Ensures,
  scan_next-left,
}
use mc_afk_go.Snbt.Decode.Loops.{
  Ensures-last, literal_of-Ensures, tag_if-Ensures, Falls, Falls-left, NoMore, Steps,
}
use mc_afk_go.Snbt.Decode.Write.{
  members_loop, payload_body, value_body, write_value, write_compound_payload, write_list_or_array,
  marshal_stringified,
}
use mc_afk_go.Snbt.Decode.Write.Lists.{Ensures-less, Ensures-Falls, start_left, list_body-Ensures}

module _ (parse_float : ℕ → Bytes → Option ℕ) (to_float32 : ℕ → ℕ) where
  members_loop-Ensures :
      (value : Bytes → M (Unit {0})) (fuel : ℕ) (d : DecodeState) (w : Writer)
      → ((name : Bytes) (s : DecodeState) (v : Writer)
          → left s < left d
          → Ensures (NoMore (left s)) (value name s v))
      → left d < fuel
      → Ensures (λ _ e. left e < left d) (members_loop parse_float to_float32 value fuel d w)
  unfolding members_loop
  members_loop-Ensures value zero d w h l = absurd (omega arith)
  members_loop-Ensures value (suc fuel) d w h l =
      scanned-Ensures _ scan_skip_space d w _ λ e1 live1 few1.
        on_code-Ensures _ scan_end_value e1 w _ _
          (λ t. ensured _ e1 w (omega (arith, goes_on scan_end_value e1 live1 t (omega arith))))
          λ _. check_error-Ensures _ e1 w _ λ _. expect-Ensures _ scan_begin_literal e1 w _ λ t.
            let more : 0 < left e1 = goes_on scan_begin_literal e1 live1 t (omega arith) in
            Ensures-bind _ _ _ _ (read_literal-Ensures e1 w) λ bs e2 w2 k2.
              Ensures-bind _ _ _ _ (literal_of-Ensures parse_float to_float32 bs e2 w2)
                λ v e3 w3 k3. skip_space-Ensures _ e3 w3 _ λ e4 k4.
                  check_error-Ensures _ e4 w3 _ λ _.
                    expect-Ensures _ scan_compound_tag_name e4 w3 _ λ _.
                      Ensures-bind _ _ _ _ (h (name_of bs v) e4 w3 (omega arith)) λ _ e5 w5 k5.
                        skip_space-Ensures _ e5 w5 _ λ e6 k6. check_error-Ensures _ e6 w5 _ λ _.
                          on_code-Ensures _ scan_end_value e6 w5 _ _
                            (λ _. ensured _ e6 w5 (omega arith))
                            λ _. expect-Ensures _ scan_compound_value e6 w5 _ λ _.
                              Ensures-less
                                (members_loop-Ensures value fuel e6 w5
                                  (λ name s u m. h name s u (omega arith)) (omega arith))
                                (omega arith)

  value_body-Ensures :
      (payload : M (Unit {0})) (list_or_array : Bool → Bytes → M ℕ) (with_tag : Bool) (name : Bytes)
      (d : DecodeState) (w : Writer)
      → (0 < left d → Steps (left d - 1) payload)
      → (0 < left d → Steps (left d - 1) (list_or_array with_tag name))
      → Ensures
          (NoMore (left d))
          (value_body parse_float to_float32 payload list_or_array with_tag name d w)
  unfolding value_body panicking
  value_body-Ensures payload list_or_array with_tag name d w h k =
      scanned-Ensures (NoMore (left d)) scan_skip_space d w _ λ e1 live1 few1.
        check_error-Ensures _ e1 w _ λ _.
          on_code-Ensures _ scan_begin_literal e1 w _ _
            (λ _. Ensures-bind _ _ _ _ (read_literal-Ensures e1 w) λ bs e2 w2 k2.
              Ensures-bind _ _ _ _ (literal_of-Ensures parse_float to_float32 bs e2 w2)
                λ v e3 w3 k3.
                  Ensures-bind _ _ _ _ (tag_if-Ensures with_tag (tag_id (literal_tag v)) name e3 w3)
                    λ _ e4 w4 k4.
                      Ensures-last (emit-Ensures (write_literal_payload v) e4 w4) (omega arith))
            λ _.
              on_code-Ensures _ scan_begin_compound e1 w _ _
                (λ t.
                  let more : 0 < left e1 = goes_on scan_begin_compound e1 live1 t (omega arith) in
                  Ensures-bind _ _ _ _ (tag_if-Ensures with_tag (tag_id TagType.compound) name e1 w)
                    λ _ e2 w2 k2.
                      Ensures-Falls e2 (h (omega arith) e2 w2 (omega arith)) (omega arith))
                λ _.
                  on_code-Ensures _ scan_begin_list e1 w _ _
                    (λ t.
                      let more : 0 < left e1 = goes_on scan_begin_list e1 live1 t (omega arith) in
                      Ensures-bind _ _ _ _ (k (omega arith) e1 w (omega arith))
                        λ t' e2 w2 k2. ensured tt e2 w2 (omega (arith, Falls-left e1 e2 k2)))
                    (λ _. ends_panic)

  payload_body-Ensures :
      (value : Bytes → M (Unit {0})) (fuel : ℕ) (d : DecodeState) (w : Writer)
      → ((name : Bytes) (s : DecodeState) (v : Writer)
          → left s < left d
          → Ensures (NoMore (left s)) (value name s v))
      → left d < fuel
      → Ensures (λ _ e. Falls d e) (payload_body parse_float to_float32 value fuel d w)
  unfolding payload_body next_scanned
  payload_body-Ensures value fuel d w h l =
      Ensures-bind _ _ _ _ (members_loop-Ensures value fuel d w h l) λ _ e1 w1 k1.
        Ensures-bind _ _ _ _ (emit-Ensures (λ v. write v (tag_id TagType.end ∷ [])) e1 w1)
          λ _ e2 w2 k2. ensured _ (scan_next e2) w2 (inl (omega (arith, scan_next-left e2)))

  mutual
    unfolding write_value

    write_value-Ensures :
        (fuel : ℕ) (with_tag : Bool) (name : Bytes) (d : DecodeState) (w : Writer)
        → left d + 2 ≤ fuel
        → Ensures (NoMore (left d)) (write_value parse_float to_float32 fuel with_tag name d w)
    write_value-Ensures zero with_tag name d w l = absurd (omega arith)
    write_value-Ensures (suc fuel) with_tag name d w l =
        value_body-Ensures (write_compound_payload parse_float to_float32 fuel)
          (write_list_or_array parse_float to_float32 fuel) with_tag name d w
          (λ p s v m. write_compound_payload-Ensures fuel s v (omega arith))
          (λ p s v m. write_list_or_array-Ensures fuel with_tag name s v (omega arith))

    write_compound_payload-Ensures :
        (fuel : ℕ) (d : DecodeState) (w : Writer)
        → left d + 2 ≤ fuel
        → Ensures (λ _ e. Falls d e) (write_compound_payload parse_float to_float32 fuel d w)
    write_compound_payload-Ensures zero d w l = absurd (omega arith)
    write_compound_payload-Ensures (suc fuel) d w l =
        payload_body-Ensures (write_value parse_float to_float32 fuel true) (suc fuel) d w
          (λ name s v m. write_value-Ensures fuel true name s v (omega arith)) (omega arith)

    write_list_or_array-Ensures :
        (fuel : ℕ) (with_tag : Bool) (name : Bytes) (d : DecodeState) (w : Writer)
        → left d + 2 ≤ fuel
        → Ensures
            (λ _ e. Falls d e)
            (write_list_or_array parse_float to_float32 fuel with_tag name d w)
    write_list_or_array-Ensures zero with_tag name d w l = absurd (omega arith)
    write_list_or_array-Ensures (suc fuel) with_tag name d w l =
        list_body-Ensures parse_float to_float32
          (write_list_or_array parse_float to_float32 fuel false [])
          (write_compound_payload parse_float to_float32 fuel) (suc fuel) with_tag name d w
          (λ p s v m. write_list_or_array-Ensures fuel false [] s v (omega arith))
          (λ p s v m. write_compound_payload-Ensures fuel s v (omega arith)) (omega arith)

  -- MarshalNBT of a StringifiedMessage ends on every text and every writer: it is never the
  -- model's lack of fuel, but a value, an error or a panic, and where it returns, no more bytes
  -- are left than at the start.
  pub marshal_stringified_returns :
      (m : Bytes) (w : Writer)
      → Ensures (NoMore (left (start_state m))) (marshal_stringified parse_float to_float32 m w)
  unfolding marshal_stringified
  marshal_stringified_returns m w =
      write_value-Ensures (length m + 3) false [] (start_state m) w (start_left m)
