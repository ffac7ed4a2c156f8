-- ===== src/Snbt/Decode/Write/ListTypes.antt =====
-- The tag type that `writeListOrArray` of nbt/snbt_decode.go returns for a list of lists or compounds.
use mc_afk_go.Base.{ℕ, suc, ◌≡◌, refl, ap, Bool, false}
use mc_afk_go.Base.{Option, [], ◌⊎◌, inl, inr}
use mc_afk_go.Io.{Bytes, Writer}
use mc_afk_go.Nbt.{TagType, tag_id}
use mc_afk_go.Snbt.{
  Code, scan_skip_space, scan_begin_list, scan_begin_compound, scan_begin_literal, scan_end_value,
}
use mc_afk_go.Snbt.Decode.{
  same_code, DecodeState, scan_while, Result, ok, err, panic, stuck, M, bind_result, EncodeError,
  scanned,
}
use mc_afk_go.Snbt.Decode.Steps.{on_code, next_scanned, tag_if, list_loop, compound_loop, put_list}
use mc_afk_go.Snbt.Decode.Write.{write_compound_payload, list_cases, list_body, write_list_or_array}

-- If a call returns a value, then one of that kind.
pub data Yields {A : Type 0} (P : A → Type 0) : Result A → Type 0 where
  value_of : (a : A) (d : DecodeState) (w : Writer) → P a → Yields P (ok a d w)
  no_value_err : (e : EncodeError) (w : Writer) → Yields P (err e w)
  no_value_panic : Yields P panic
  no_value_stuck : Yields P stuck

Yields-bind :
    {A B : Type 0} (P : A → Type 0) (Q : B → Type 0) (r : Result A) (f : A → M B)
    → Yields P r
    → ((a : A) (d : DecodeState) (w : Writer) → P a → Yields Q (f a d w))
    → Yields Q (bind_result r f)
Yields-bind P Q _ f (value_of a d w h) k = k a d w h
Yields-bind P Q _ f (no_value_err e w) k = no_value_err e w
Yields-bind P Q _ f no_value_panic k = no_value_panic
Yields-bind P Q _ f no_value_stuck k = no_value_stuck

-- What comes after a step, whatever the step returns.
Yields-after :
    {A B : Type 0} (Q : B → Type 0) (r : Result A) (f : A → M B)
    → ((a : A) (d : DecodeState) (w : Writer) → Yields Q (f a d w))
    → Yields Q (bind_result r f)
Yields-after Q (ok a d w) f k = k a d w
Yields-after Q (err e w) f k = no_value_err e w
Yields-after Q panic f k = no_value_panic
Yields-after Q stuck f k = no_value_stuck

goes_on :
    {c : Code}
    → (c ≡ scan_begin_list) ⊎ (c ≡ scan_begin_compound)
    → same_code c scan_end_value ≡ false
goes_on (inl h) = ap (λ x. same_code x scan_end_value) h
goes_on (inr h) = ap (λ x. same_code x scan_end_value) h

code_test : {c k : Code} (j : Code) → c ≡ k → same_code c j ≡ same_code k j
code_test j h = ap (λ x. same_code x j) h

module _ (parse_float : ℕ → Bytes → Option ℕ) (to_float32 : ℕ → ℕ) where
  list_cases-list :
      (one : M ℕ) (payload : M (Unit {0})) (fuel : ℕ) (with_tag : Bool) (name : Bytes)
      (d : DecodeState) (w : Writer)
      → (d.opcode ≡ scan_begin_list) ⊎ (d.opcode ≡ scan_begin_compound)
      → Yields
          (λ t. t ≡ tag_id TagType.end)
          (list_cases parse_float to_float32 one payload fuel with_tag name d w)
  unfolding list_cases on_code
  list_cases-list one payload fuel with_tag name d w (inl h) =
      rw (code_test scan_begin_literal h, code_test scan_begin_list h)
        (Yields-after _ (tag_if with_tag (tag_id TagType.list) name d w) _ λ _ e v.
          Yields-after _ (list_loop one fuel 0 [] e v) _ λ out e' v'.
            Yields-after _ (put_list out.0 out.1 out.2 e' v') _
              (λ _ e'' v''. value_of _ e'' v'' refl))
  list_cases-list one payload fuel with_tag name d w (inr h) =
      rw
        (
          code_test scan_begin_literal h,
          code_test scan_begin_list h,
          code_test scan_begin_compound h,
        )
        (Yields-after _ (tag_if with_tag (tag_id TagType.list) name d w) _ λ _ e v.
          Yields-after _ (compound_loop payload fuel 0 [] e v) _ λ out e' v'.
            Yields-after _ (put_list (tag_id TagType.compound) out.0 out.1 e' v') _
              (λ _ e'' v''. value_of _ e'' v'' refl))

  -- Where a list begins with a list or a compound, the tag type that writeListOrArray returns,
  -- if it returns without an error, is TagEnd and not TagList.
  pub nested_list_has_type_end :
      (fuel : ℕ) (with_tag : Bool) (name : Bytes) (d : DecodeState) (w : Writer)
      → ((scan_while scan_skip_space d).opcode ≡ scan_begin_list)
        ⊎ ((scan_while scan_skip_space d).opcode ≡ scan_begin_compound)
      → Yields
          (λ t. t ≡ tag_id TagType.end)
          (write_list_or_array parse_float to_float32 (suc fuel) with_tag name d w)
  unfolding write_list_or_array list_body scanned next_scanned on_code
  nested_list_has_type_end fuel with_tag name d w h = rw (goes_on h) (
      Yields-bind _ _
        (list_cases parse_float to_float32
          (write_list_or_array parse_float to_float32 fuel false [])
          (write_compound_payload parse_float to_float32 fuel) (suc fuel) with_tag name
          (scan_while scan_skip_space d) w)
        _
        (list_cases-list (write_list_or_array parse_float to_float32 fuel false [])
          (write_compound_payload parse_float to_float32 fuel) (suc fuel) with_tag name
          (scan_while scan_skip_space d) w h)
        (λ t e v k. value_of t _ v k))
