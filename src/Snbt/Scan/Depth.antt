-- ===== src/Snbt/Scan/Depth.antt =====
-- The stack of open values of the scanner (nbt/snbt_scanner.go), over every state and byte.
use mc_afk_go.Base.{ℕ, suc, ◌≤◌, ◌<◌, ◌≡◌, refl, arith, true, ◌⊎◌}
use mc_afk_go.Base.{List, [], ◌∷◌, length}
use mc_afk_go.Snbt.{Code, scan_begin_compound}
use mc_afk_go.Snbt.{scan_begin_list}
use mc_afk_go.Snbt.{scan_end_value, scan_error}
use mc_afk_go.Snbt.{ParseState, parse_compound_name, parse_compound_value, parse_list_value}
use mc_afk_go.Snbt.{State, begin_value, compound_or_empty, begin_string}
use mc_afk_go.Snbt.{in_single_quoted_string, in_single_quoted_string_esc}
use mc_afk_go.Snbt.{in_double_quoted_string, in_dq_string_esc, in_unquoted_string}
use mc_afk_go.Snbt.{list_or_array, list_or_array_t, array_t, num0, num1, num_dot, num_dot0}
use mc_afk_go.Snbt.{num_exp, num_exp0, end_value, end_top_state, error_state}
use mc_afk_go.Snbt.{Scanner, Step, max_nesting_depth}
use mc_afk_go.Snbt.Scan.{end_with, state_end_value, dispatch}
use mc_afk_go.Snbt.Scan.{scan_byte}
use mc_afk_go.Snbt.{is_number}
use mc_afk_go.Snbt.Scan.{
  state_in_unquoted_string, state_end_num_dot_value, state_end_num_value, state_num0,
  state_begin_string, state_begin_value, state_num1, state_num_dot, state_num_dot0, state_num_exp,
  state_num_exp0, state_in_single_quoted_string, state_in_single_quoted_string_esc,
  state_in_double_quoted_string, state_in_dq_string_esc, state_list_or_array, state_list_or_array_t,
  state_array_t, state_end_top, state_compound_or_empty, set_compound_value,
}
use mc_afk_go.Base.{◌||◌, ◌==◌}

-- How a code accounts for the depth before and after the byte.
abbrev pub Accounts : Code → ℕ → ℕ → Type 0
Accounts scan_begin_compound before after = (after ≡ suc before) × (after ≤ max_nesting_depth)
Accounts scan_begin_list before after = (after ≡ suc before) × (after ≤ max_nesting_depth)
Accounts scan_end_value before after = before ≡ suc after
Accounts scan_error before after =
    (after ≡ before) ⊎ ((after ≡ suc before) × (max_nesting_depth < after))
Accounts _ before after = after ≡ before

end_with-Accounts :
    (ps : List ParseState) (s : Scanner) (c : ℕ)
    → s.parse_state ≡ ps
    → Accounts (end_with ps s c).1 (length ps) (length (end_with ps s c).0.parse_state)
unfolding end_with state_end_top
end_with-Accounts [] s c e = ground arith
end_with-Accounts (parse_compound_name ∷ []) s c e = ground arith
end_with-Accounts (parse_compound_name ∷ p ∷ ps) s c e = ground arith
end_with-Accounts (parse_compound_value ∷ []) s c e = ground arith
end_with-Accounts (parse_compound_value ∷ p ∷ ps) s c e = ground arith
end_with-Accounts (parse_list_value ∷ []) s c e = ground arith
end_with-Accounts (parse_list_value ∷ p ∷ ps) s c e = ground arith

abbrev Keeps : (Scanner → ℕ → Step) → Scanner → ℕ → Type 0
Keeps f s c = Accounts (f s c).1 (length s.parse_state) (length (f s c).0.parse_state)

end_value-Keeps : (s : Scanner) (c : ℕ) → Keeps state_end_value s c
unfolding state_end_value
end_value-Keeps s c = end_with-Accounts s.parse_state s c refl

module _ (s : Scanner) (c : ℕ) where
  unquoted-Keeps : Keeps state_in_unquoted_string s c
  unfolding state_in_unquoted_string
  unquoted-Keeps = ground (arith, end_value-Keeps s c)

  end_num_dot-Keeps : Keeps state_end_num_dot_value s c
  unfolding state_end_num_dot_value
  end_num_dot-Keeps = ground (arith, end_value-Keeps s c)

  end_num-Keeps : Keeps state_end_num_value s c
  unfolding state_end_num_value
  end_num-Keeps = ground (arith, end_value-Keeps s c, end_num_dot-Keeps)

  num0-Keeps : Keeps state_num0 s c
  unfolding state_num0
  num0-Keeps = ground (arith, end_num-Keeps)

  num1-Keeps : Keeps state_num1 s c
  unfolding state_num1
  num1-Keeps = ground (arith, end_num-Keeps)

  num_dot-Keeps : Keeps state_num_dot s c
  unfolding state_num_dot
  num_dot-Keeps = ground arith

  num_dot0-Keeps : Keeps state_num_dot0 s c
  unfolding state_num_dot0
  num_dot0-Keeps = ground (arith, end_num_dot-Keeps)

  num_exp-Keeps : Keeps state_num_exp s c
  unfolding state_num_exp
  num_exp-Keeps = ground (arith, end_num_dot-Keeps)

  num_exp0-Keeps : Keeps state_num_exp0 s c
  unfolding state_num_exp0
  num_exp0-Keeps = ground (arith, end_num_dot-Keeps)

  -- A number's first byte is taken by `stateNum0` for its state alone; it never touches the stack.
  num0_first :
      (is_number c || c == b'-' || c == b'+') ≡ true
      → (state_num0 s c).0.parse_state ≡ s.parse_state
  unfolding state_num0
  num0_first h = rw h

  begin_string-Keeps : Keeps state_begin_string s c
  unfolding state_begin_string
  begin_string-Keeps = ground arith

  begin_value-Keeps : Keeps state_begin_value s c
  unfolding state_begin_value
  begin_value-Keeps = ground (arith, begin_string-Keeps, num0_first)

  single-Keeps : Keeps state_in_single_quoted_string s c
  unfolding state_in_single_quoted_string
  single-Keeps = ground arith

  single_esc-Keeps : Keeps state_in_single_quoted_string_esc s c
  unfolding state_in_single_quoted_string_esc
  single_esc-Keeps = ground arith

  double-Keeps : Keeps state_in_double_quoted_string s c
  unfolding state_in_double_quoted_string
  double-Keeps = ground arith

  dq_esc-Keeps : Keeps state_in_dq_string_esc s c
  unfolding state_in_dq_string_esc
  dq_esc-Keeps = ground arith

  list_or_array-Keeps : Keeps state_list_or_array s c
  unfolding state_list_or_array
  list_or_array-Keeps = ground (arith, end_value-Keeps s c, begin_value-Keeps)

  list_or_array_t-Keeps : Keeps state_list_or_array_t s c
  unfolding state_list_or_array_t
  list_or_array_t-Keeps = ground (arith, unquoted-Keeps)

  array_t-Keeps : Keeps state_array_t s c
  unfolding state_array_t
  array_t-Keeps = ground (arith, end_value-Keeps s c, begin_value-Keeps)

  end_top-Keeps : Keeps state_end_top s c
  unfolding state_end_top
  end_top-Keeps = ground arith

length-set_compound_value : (ps : List ParseState) → length (set_compound_value ps) ≡ length ps
unfolding set_compound_value
length-set_compound_value [] = refl
length-set_compound_value (p ∷ ps) = refl

compound_or_empty-Keeps : (s : Scanner) (c : ℕ) → Keeps state_compound_or_empty s c
unfolding state_compound_or_empty
compound_or_empty-Keeps s c = ground (
  arith,
  begin_string-Keeps s c,
  length-set_compound_value s.parse_state,
  end_value-Keeps (record s { parse_state = set_compound_value s.parse_state }) c,
)

dispatch-Accounts :
    (t : State) (s : Scanner) (c : ℕ)
    → Accounts (dispatch t s c).1 (length s.parse_state) (length (dispatch t s c).0.parse_state)
unfolding dispatch
dispatch-Accounts begin_value s c = begin_value-Keeps s c
dispatch-Accounts compound_or_empty s c = compound_or_empty-Keeps s c
dispatch-Accounts begin_string s c = begin_string-Keeps s c
dispatch-Accounts in_single_quoted_string s c = single-Keeps s c
dispatch-Accounts in_single_quoted_string_esc s c = single_esc-Keeps s c
dispatch-Accounts in_double_quoted_string s c = double-Keeps s c
dispatch-Accounts in_dq_string_esc s c = dq_esc-Keeps s c
dispatch-Accounts in_unquoted_string s c = unquoted-Keeps s c
dispatch-Accounts list_or_array s c = list_or_array-Keeps s c
dispatch-Accounts list_or_array_t s c = list_or_array_t-Keeps s c
dispatch-Accounts array_t s c = array_t-Keeps s c
dispatch-Accounts num0 s c = num0-Keeps s c
dispatch-Accounts num1 s c = num1-Keeps s c
dispatch-Accounts num_dot s c = num_dot-Keeps s c
dispatch-Accounts num_dot0 s c = num_dot0-Keeps s c
dispatch-Accounts num_exp s c = num_exp-Keeps s c
dispatch-Accounts num_exp0 s c = num_exp0-Keeps s c
dispatch-Accounts end_value s c = end_value-Keeps s c
dispatch-Accounts end_top_state s c = end_top-Keeps s c
dispatch-Accounts error_state s c = ground arith

-- In every state and on every byte the code accounts for the depth: it grows by one with the
-- code that begins a compound or a list, and then keeps to the limit; it shrinks by one with
-- the code that ends a value; an error leaves it, or has just passed the limit; any other code
-- leaves it.
pub scan_byte-Accounts :
    (s : Scanner) (c : ℕ)
    → Accounts (scan_byte s c).1 (length s.parse_state) (length (scan_byte s c).0.parse_state)
unfolding scan_byte
scan_byte-Accounts s c = dispatch-Accounts s.step s c
