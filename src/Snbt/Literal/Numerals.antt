-- ===== src/Snbt/Literal/Numerals.antt =====
-- `parseLiteral` of nbt/snbt_decode.go on the integers that `encode` of nbt/snbt.go prints.
use mc_afk_go.Base.{ℕ, ◌≡◌, refl, sym, ap, ◌∙◌}
use mc_afk_go.Base.{arith, true, false, ◌||◌, ltb, ◌==◌}
use mc_afk_go.Base.{if◌then◌else◌}
use mc_afk_go.Base.{Option, [], ◌∷◌, ◌++◌, length}
use mc_afk_go.Base.{append-nil, take-length_append}
use mc_afk_go.Base.Bits.{IsByte, IsU16, IsU32, IsU64}
use mc_afk_go.Io.{Bytes}
use mc_afk_go.Nbt.{TagType}
use mc_afk_go.Snbt.{is_number}
use mc_afk_go.Snbt.Print.{format_int, byte_text, short_text, int_text, int_element_text, long_text}
use mc_afk_go.Snbt.Literal.{
  parsed, bad_number, byte, short, int, long, string, parse_int, start_class, class_bytes,
  is_integer_type, parse_number, parse_class, parse_literal,
}
use mc_afk_go.Snbt.Literal.Integers.{
  IsNumeral, format_int-IsNumeral, parse_int-format_int, parse_int-byte,
}
use mc_afk_go.Snbt.Literal.Classes.{
  take-length, class_bytes-numeral, class_bytes-suffix, class_bytes-other,
}

module _ (parse_float : ℕ → Bytes → Option ℕ) (to_float32 : ℕ → ℕ) where
  -- A numeral begins with no quote.
  pub parse_literal-unquoted :
      (xs ys : Bytes)
      → IsNumeral xs
      → parse_literal parse_float to_float32 (xs ++ ys)
        ≡ parse_class parse_float to_float32
            (xs ++ ys)
            (class_bytes 0 (xs ++ ys) (start_class (length (xs ++ ys))))
  unfolding parse_literal is_number
  parse_literal-unquoted [] ys h = absurd h
  parse_literal-unquoted (c ∷ cs) ys h = rw no_quote
    where
      no_quote : (c == b'"' || c == b'\'') ≡ false
      no_quote = ground (arith, h.0)

  parse_literal-numeral :
      (xs : Bytes)
      → IsNumeral xs
      → parse_literal parse_float to_float32 xs ≡ parse_number TagType.int int (parse_int 32 xs)
  unfolding parse_class
  parse_literal-numeral xs h =
      ap (parse_literal parse_float to_float32) (sym (append-nil xs))
      ∙ parse_literal-unquoted xs [] h
      ∙ ap
          (λ (ys : Bytes).
            parse_class parse_float to_float32 ys (class_bytes 0 ys (start_class (length ys))))
          (append-nil xs)
      ∙ ap (parse_class parse_float to_float32 xs) (class_bytes-numeral xs (length xs) h)
      ∙ ap (λ (ys : Bytes). parse_number TagType.int int (parse_int 32 ys)) (take-length xs)

  parse_literal-suffix :
      (xs : Bytes) (t : ℕ)
      → IsNumeral xs
      → is_number t ≡ false
      → is_integer_type t ≡ true
      → parse_literal parse_float to_float32 (xs ++ t ∷ [])
        ≡ parse_class parse_float to_float32
            (xs ++ t ∷ [])
            (record (start_class (length xs)) { number_type = t })
  parse_literal-suffix xs t h k l =
      parse_literal-unquoted xs (t ∷ []) h
      ∙ ap (parse_class parse_float to_float32 (xs ++ t ∷ [])) (class_bytes-suffix xs t h k l)

  parse_short :
      (xs : Bytes)
      → IsNumeral xs
      → parse_literal parse_float to_float32 (xs ++ b'S' ∷ [])
        ≡ parse_number TagType.short short (parse_int 16 xs)
  unfolding parse_class is_number is_integer_type
  parse_short xs h =
      parse_literal-suffix xs b'S' h refl refl
      ∙ ap (λ (ys : Bytes). parse_number TagType.short short (parse_int 16 ys))
          (take-length_append xs (b'S' ∷ []))

  parse_byte :
      (xs : Bytes)
      → IsNumeral xs
      → parse_literal parse_float to_float32 (xs ++ b'B' ∷ [])
        ≡ parse_number TagType.byte byte (parse_int 8 xs)
  unfolding parse_class is_number is_integer_type
  parse_byte xs h =
      parse_literal-suffix xs b'B' h refl refl
      ∙ ap (λ (ys : Bytes). parse_number TagType.byte byte (parse_int 8 ys))
          (take-length_append xs (b'B' ∷ []))

  parse_long :
      (xs : Bytes)
      → IsNumeral xs
      → parse_literal parse_float to_float32 (xs ++ b'L' ∷ [])
        ≡ parse_number TagType.long long (parse_int 64 xs)
  unfolding parse_class is_number is_integer_type
  parse_long xs h =
      parse_literal-suffix xs b'L' h refl refl
      ∙ ap (λ (ys : Bytes). parse_number TagType.long long (parse_int 64 ys))
          (take-length_append xs (b'L' ∷ []))

  -- The texts that encode prints for a short, an int and a long, negative ones included, are
  -- read by parseLiteral as a literal of that type with that value.
  pub integers_round_trip :
      (s i l : ℕ)
      → IsU16 s
      → IsU32 i
      → IsU64 l
      → (parse_literal parse_float to_float32 (short_text s) ≡ parsed (short s))
        × (parse_literal parse_float to_float32 (int_text i) ≡ parsed (int i))
        × (parse_literal parse_float to_float32 (long_text l) ≡ parsed (long l))
  unfolding parse_number short_text int_text long_text
  integers_round_trip s i l hs hi hl = (
    parse_short (format_int 16 s) (format_int-IsNumeral 16 s)
        ∙ ap (parse_number TagType.short short) (parse_int-format_int 16 s (omega arith) hs),
    parse_literal-numeral (format_int 32 i) (format_int-IsNumeral 32 i)
        ∙ ap (parse_number TagType.int int) (parse_int-format_int 32 i (omega arith) hi),
    parse_long (format_int 64 l) (format_int-IsNumeral 64 l)
        ∙ ap (parse_number TagType.long long) (parse_int-format_int 64 l (omega arith) hl),
  )

  bytes_read_back :
      (b : ℕ)
      → IsByte b
      → parse_literal parse_float to_float32 (byte_text b)
        ≡ (if ltb b 0x80 then parsed (byte b) else bad_number TagType.byte)
  unfolding parse_number byte_text
  bytes_read_back b h =
      parse_byte (format_int 64 b) (format_int-IsNumeral 64 b)
      ∙ ap (parse_number TagType.byte byte) (parse_int-byte b h)
      ∙ ground arith

  letter_is_string :
      (xs : Bytes)
      → IsNumeral xs
      → parse_literal parse_float to_float32 (xs ++ b'I' ∷ []) ≡ parsed (string (xs ++ b'I' ∷ []))
  unfolding parse_class class_bytes is_number is_integer_type
  letter_is_string xs h =
      parse_literal-unquoted xs (b'I' ∷ []) h
      ∙ ap (parse_class parse_float to_float32 (xs ++ b'I' ∷ []))
          (class_bytes-other xs [] b'I' (length (xs ++ b'I' ∷ [])) h refl refl)

  int_elements_are_strings :
      (i : ℕ)
      → IsU32 i
      → parse_literal parse_float to_float32 (int_element_text i)
        ≡ parsed (string (int_element_text i))
  unfolding int_element_text
  int_elements_are_strings i h = letter_is_string (format_int 32 i) (format_int-IsNumeral 32 i)

  -- The text that encode prints for a byte is read by parseLiteral as that byte below 128, and
  -- refused from 128 on; the text of an element of an int array is read as a string.
  pub array_elements_read_back :
      (b i : ℕ)
      → IsByte b
      → IsU32 i
      → (parse_literal parse_float to_float32 (byte_text b)
          ≡ (if ltb b 0x80 then parsed (byte b) else bad_number TagType.byte))
        × (parse_literal parse_float to_float32 (int_element_text i)
            ≡ parsed (string (int_element_text i)))
  array_elements_read_back b i hb hi = (bytes_read_back b hb, int_elements_are_strings i hi)
