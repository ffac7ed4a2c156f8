-- ===== src/Examples/Texts.antt =====
-- Literals of SNBT and the way from text to the binary form (nbt/snbt_decode.go) on short texts.
use mc_afk_go.Base.{ℕ, ◌≡◌, refl, arith, true, Option, some, [], ◌∷◌}
use mc_afk_go.Base.{ltb, if◌then◌else◌, ◌++◌, length, inl}
use mc_afk_go.Io.{Bytes, buffer}
use mc_afk_go.Nbt.{TagType}
use mc_afk_go.Snbt.{is_allowed_in_unquoted_string, is_number}
use mc_afk_go.Snbt.Escape.{write_escape_str, needs_quotes}
use mc_afk_go.Snbt.Print.{short_text, int_text, long_text, byte_text, int_element_text}
use mc_afk_go.Snbt.Literal.{
  parsed, bad_number, byte, short, int, long, double, string, parse_literal, parse_number,
}
use mc_afk_go.Snbt.Literal.Strings.{parse_literal-write_escape_str}
use mc_afk_go.Snbt.Literal.Numerals.{integers_round_trip, array_elements_read_back}
use mc_afk_go.Snbt.Literal.Fractions.{fraction_loses_its_last_digit}
use mc_afk_go.Snbt.Decode.{start_state}
use mc_afk_go.Snbt.{is_allowed_in_unquoted_string}
use mc_afk_go.Snbt.Decode.Progress.{left, Ensures}
use mc_afk_go.Snbt.Decode.Loops.{NoMore}
use mc_afk_go.Snbt.Decode.Write.{marshal_stringified}
use mc_afk_go.Snbt.Decode.Write.Fuel.{marshal_stringified_returns}

-- A reading of floats that knows one text, and a narrowing that keeps the pattern.
abbrev no_floats : ℕ → Bytes → Option ℕ
no_floats bits text = some (length text)

abbrev same_pattern : ℕ → ℕ
same_pattern v = v

spaced_needs_quotes : needs_quotes (b'a' ∷ b' ' ∷ b'"' ∷ []) ≡ true
unfolding needs_quotes is_allowed_in_unquoted_string
spaced_needs_quotes = refl

parse_literal-write_escape_str_example :
    parse_literal no_floats same_pattern (write_escape_str (b'a' ∷ b' ' ∷ b'"' ∷ []))
    ≡ parsed (string (b'a' ∷ b' ' ∷ b'"' ∷ []))
parse_literal-write_escape_str_example =
    parse_literal-write_escape_str no_floats same_pattern (b'a' ∷ b' ' ∷ b'"' ∷ [])
      spaced_needs_quotes

-- -1 as a short, the greatest int and the least long.
integers_round_trip_example :
    (parse_literal no_floats same_pattern (short_text 0xFFFF) ≡ parsed (short 0xFFFF))
    × (parse_literal no_floats same_pattern (int_text 0x7FFF_FFFF) ≡ parsed (int 0x7FFF_FFFF))
    × (parse_literal no_floats same_pattern (long_text 0x8000_0000_0000_0000)
        ≡ parsed (long 0x8000_0000_0000_0000))
integers_round_trip_example =
    integers_round_trip no_floats same_pattern 0xFFFF 0x7FFF_FFFF 0x8000_0000_0000_0000
      (omega arith) (omega arith) (omega arith)

array_elements_read_back_example :
    (parse_literal no_floats same_pattern (byte_text 200)
      ≡ (if ltb 200 0x80 then parsed (byte 200) else bad_number TagType.byte))
    × (parse_literal no_floats same_pattern (int_element_text 7)
        ≡ parsed (string (int_element_text 7)))
array_elements_read_back_example =
    array_elements_read_back no_floats same_pattern 200 7 (omega arith) (omega arith)

-- 1.5
fraction_loses_its_last_digit_example :
    parse_literal no_floats same_pattern ((b'1' ∷ b'.' ∷ []) ++ b'5' ∷ [])
    ≡ parse_number TagType.double double (no_floats 64 (b'1' ∷ b'.' ∷ []))
unfolding is_number
fraction_loses_its_last_digit_example =
    fraction_loses_its_last_digit no_floats same_pattern (b'1' ∷ []) [] b'5' (inl refl, tt) tt refl

marshal_stringified_returns_example :
    Ensures
      (NoMore (left (start_state (b'{' ∷ b'a' ∷ b':' ∷ b'}' ∷ []))))
      (marshal_stringified no_floats same_pattern (b'{' ∷ b'a' ∷ b':' ∷ b'}' ∷ []) (buffer []))
marshal_stringified_returns_example =
    marshal_stringified_returns no_floats same_pattern (b'{' ∷ b'a' ∷ b':' ∷ b'}' ∷ []) (buffer [])
