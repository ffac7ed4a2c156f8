-- ===== src/Snbt/Scan/Brackets.antt =====
-- A bracket that opens a list, spaces, and bytes that begin nothing (nbt/snbt_scanner.go).
use mc_afk_go.Base.{ℕ, ◌≡◌, ◌≢◌, refl, true, false, [], ◌∷◌, All, arith}
use mc_afk_go.Snbt.{Scanner, reset, list_or_array, parse_list_value, no_err, scan_begin_list}
use mc_afk_go.Snbt.{
  scan_error, scan_skip_space, push_parse_state, is_space, is_number, is_allowed_in_unquoted_string,
  error, error_state, invalid, beginning_of_value,
}
use mc_afk_go.Snbt.Scan.{scan_byte, dispatch, state_begin_value, state_list_or_array}

abbrev pub in_one_list : Scanner
in_one_list = record {
  step = list_or_array;
  parse_state = parse_list_value ∷ [];
  err_context = no_err;
  end_top = false;
}

pub opens_one : scan_byte reset b'[' ≡ (in_one_list, scan_begin_list)
unfolding scan_byte dispatch state_begin_value push_parse_state is_space reset
opens_one = refl

-- A byte that no value and no space begins with, and that does not close a list.
abbrev pub BeginsNothing : ℕ → Type 0
BeginsNothing c =
    (is_space c ≡ false)
    × (is_allowed_in_unquoted_string c ≡ false)
    × All (λ x. c ≢ x) (b'{' ∷ b'[' ∷ b']' ∷ b'"' ∷ b'\'' ∷ [])

-- The scanner that has refused a byte.
abbrev pub refusing : Scanner → ℕ → Scanner
refusing s c = record s { step = error_state; err_context = invalid c beginning_of_value }

state_begin_value-refused :
    (s : Scanner) (c : ℕ) → BeginsNothing c → state_begin_value s c ≡ (refusing s c, scan_error)
unfolding state_begin_value error is_number is_allowed_in_unquoted_string
state_begin_value-refused s c (spaceless, plainless, (n1, (n2, (n3, (n4, (n5, _)))))) = ground arith

pub refused_at_start :
    (c : ℕ) → BeginsNothing c → scan_byte reset c ≡ (refusing reset c, scan_error)
unfolding scan_byte dispatch reset
refused_at_start c h = state_begin_value-refused reset c h

pub refused_in_list :
    (c : ℕ) → BeginsNothing c → scan_byte in_one_list c ≡ (refusing in_one_list c, scan_error)
unfolding scan_byte dispatch state_list_or_array is_allowed_in_unquoted_string
refused_in_list c (spaceless, plainless, (n1, (n2, (n3, n4)))) =
    let value =
      state_begin_value-refused in_one_list c (spaceless, plainless, (n1, (n2, (n3, n4)))) in
    ground arith

pub space_at_start : (c : ℕ) → is_space c ≡ true → scan_byte reset c ≡ (reset, scan_skip_space)
unfolding scan_byte dispatch state_begin_value reset
space_at_start c h = rw h refl

pub space_in_list :
    (c : ℕ) → is_space c ≡ true → scan_byte in_one_list c ≡ (in_one_list, scan_skip_space)
unfolding scan_byte dispatch state_list_or_array
space_in_list c h = rw h refl
