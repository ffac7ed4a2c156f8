-- ===== src/Snbt/Scan/Samples.antt =====
-- A short text that the scanner (nbt/snbt_scanner.go) reads from inside a list.
use mc_afk_go.Base.{◌≢◌, [], ◌∷◌, All, false, ◌≡◌, refl}
use mc_afk_go.Io.{Bytes}
use mc_afk_go.Snbt.{Scanner, begin_value, parse_list_value, no_err, scan_error}
use mc_afk_go.Snbt.Scan.{scan_all}
use mc_afk_go.Snbt.{scan_begin_list, scan_begin_compound, scan_end_value}
use mc_afk_go.Snbt.Scan.{scan_byte, dispatch}
use mc_afk_go.Snbt.Scan.{state_begin_value, state_list_or_array, state_compound_or_empty}
use mc_afk_go.Snbt.{push_parse_state, pop_parse_state}
use mc_afk_go.Snbt.Scan.{state_end_value, end_with, end_in}
use mc_afk_go.Snbt.{is_space}
use mc_afk_go.Snbt.Scan.{set_compound_value}
use native.Mathlib.Omega.{arith}

-- Inside a list, where a value begins.
abbrev pub in_list : Scanner
in_list = record {
  step = begin_value;
  parse_state = parse_list_value ∷ [];
  err_context = no_err;
  end_top = false;
}

abbrev pub nested_text : Bytes
nested_text = b'[' ∷ b'{' ∷ b'}' ∷ b']' ∷ []

pub nested_codes :
    (scan_all in_list nested_text).1
    ≡ scan_begin_list ∷ scan_begin_compound ∷ scan_end_value ∷ scan_end_value ∷ []
unfolding scan_all scan_byte dispatch state_begin_value state_list_or_array state_compound_or_empty
    state_end_value end_with end_in push_parse_state pop_parse_state set_compound_value is_space
nested_codes = refl

not_errors :
    All
      (λ c. c ≢ scan_error)
      (scan_begin_list ∷ scan_begin_compound ∷ scan_end_value ∷ scan_end_value ∷ [])
not_errors =
    ((λ e. ground arith), ((λ e. ground arith), ((λ e. ground arith), ((λ e. ground arith), tt))))

pub nested_clean : All (λ c. c ≢ scan_error) (scan_all in_list nested_text).1
nested_clean = rw nested_codes not_errors
