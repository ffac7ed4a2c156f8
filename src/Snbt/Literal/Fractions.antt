-- ===== src/Snbt/Literal/Fractions.antt =====
-- `parseLiteral` of nbt/snbt_decode.go on numbers with a decimal point.
use mc_afk_go.Base.{ℕ, ◌+◌, ◌-◌, ◌≡◌, refl, sym, ap, ◌∙◌}
use mc_afk_go.Base.{arith, false}
use mc_afk_go.Base.{Option, [], ◌∷◌, ◌++◌, length, take, All}
use mc_afk_go.Base.{length-append, append_assoc, take-length_append}
use mc_afk_go.Io.{Bytes}
use mc_afk_go.Nbt.{TagType}
use mc_afk_go.Snbt.{is_number}
use mc_afk_go.Snbt.Literal.{
  start_class, class_bytes, is_integer_type, parse_number, parse_class, parse_literal,
}
use mc_afk_go.Snbt.Literal.Integers.{All-append-IsDigit, IsDigit, IsNumeral}
use mc_afk_go.Snbt.Literal.{double}
use mc_afk_go.Snbt.Literal.Classes.{class_bytes-digits, class_bytes-other}
use mc_afk_go.Snbt.Literal.Numerals.{parse_literal-unquoted}

-- Digits, a point and digits, and what the loop makes of them.
class_bytes-point :
    (xs ds : Bytes) (len : ℕ)
    → IsNumeral xs
    → All IsDigit ds
    → class_bytes 0 (xs ++ b'.' ∷ ds) (start_class len)
      ≡ record (start_class len) { integer = false }
unfolding is_number is_integer_type
class_bytes-point xs ds len h k =
    class_bytes-other xs ds b'.' len h refl refl
    ∙ class_bytes-digits (length xs + 1) ds (record (start_class len) { integer = false }) k

module _ (parse_float : ℕ → Bytes → Option ℕ) (to_float32 : ℕ → ℕ) where
  -- A decimal of digits, a point, digits and one more digit, without a letter for its type, is
  -- read by parseLiteral as the double of the text without that last digit.
  pub fraction_loses_its_last_digit :
      (xs ds : Bytes) (d : ℕ)
      → IsNumeral xs
      → All IsDigit ds
      → IsDigit d
      → parse_literal parse_float to_float32 ((xs ++ b'.' ∷ ds) ++ d ∷ [])
        ≡ parse_number TagType.double double (parse_float 64 (xs ++ b'.' ∷ ds))
  unfolding parse_class
  fraction_loses_its_last_digit xs ds d h k l =
      ap (parse_literal parse_float to_float32) (append_assoc xs (b'.' ∷ ds) (d ∷ []))
      ∙ parse_literal-unquoted parse_float to_float32 xs (b'.' ∷ (ds ++ d ∷ [])) h
      ∙ ap (parse_class parse_float to_float32 (xs ++ b'.' ∷ (ds ++ d ∷ [])))
          (class_bytes-point xs (ds ++ d ∷ []) _ h (All-append-IsDigit ds d k l))
      ∙ ap (λ (ys : Bytes). parse_number TagType.double double (parse_float 64 ys)) all_but_last
    where
      all_but_last :
          take (length (xs ++ b'.' ∷ (ds ++ d ∷ [])) - 1) (xs ++ b'.' ∷ (ds ++ d ∷ []))
          ≡ xs ++ b'.' ∷ ds
      all_but_last =
          ap (λ (ys : Bytes). take (length ys - 1) ys) (sym (append_assoc xs (b'.' ∷ ds) (d ∷ [])))
          ∙ ap (λ (n : ℕ). take n ((xs ++ b'.' ∷ ds) ++ d ∷ []))
              (omega (arith, length-append (xs ++ b'.' ∷ ds) (d ∷ [])))
          ∙ take-length_append (xs ++ b'.' ∷ ds) (d ∷ [])
