-- ===== src/Snbt/Scan.antt =====
-- The SNBT scanner (nbt/snbt_scanner.go): one byte at a time, the next state function, the stack
-- of open compounds and lists, and the code that is returned.
pub mod Depth
pub mod Balance
pub mod Strings
pub mod Ends
pub mod Brackets
pub mod Samples
use mc_afk_go.Base.{ℕ, zero, suc, Bool, true, false, not, ◌&&◌, ◌||◌, ltb, leb, ◌==◌, if◌then◌else◌}
use mc_afk_go.Base.{List, [], ◌∷◌, length, Option, none, some}
use mc_afk_go.Io.{Bytes}
use mc_afk_go.Snbt.{Code, Context, ErrContext, ParseState, Scanner, State, Step}
use mc_afk_go.Snbt.{after_compound_value, after_decimal_point, after_list_element}
use mc_afk_go.Snbt.{after_tag_name, after_top_level_value, array_t, begin_string, begin_value}
use mc_afk_go.Snbt.{beginning_of_string, beginning_of_value, compound_or_empty}
use mc_afk_go.Snbt.{end_top_state, end_value, error, error_state, go}
use mc_afk_go.Snbt.{in_double_quoted_string, in_dq_string_esc, in_single_quoted_string}
use mc_afk_go.Snbt.{in_single_quoted_string_esc, in_string_escape, in_unquoted_string, invalid}
use mc_afk_go.Snbt.{is_allowed_in_unquoted_string, is_number, is_space, list_or_array}
use mc_afk_go.Snbt.{list_or_array_t, max_nesting_depth, no_context, no_err, num0, num1, num_dot}
use mc_afk_go.Snbt.{num_dot0, num_exp, num_exp0, parse_compound_name, parse_compound_value}
use mc_afk_go.Snbt.{parse_list_value, pop_parse_state, push_parse_state, reset}
use mc_afk_go.Snbt.{scan_begin_compound, scan_begin_list, scan_begin_literal}
use mc_afk_go.Snbt.{scan_compound_tag_name, scan_compound_value, scan_continue, scan_end}
use mc_afk_go.Snbt.{scan_end_value, scan_error, scan_list_type, scan_list_value}
use mc_afk_go.Snbt.{scan_skip_space, unexpected_end}

state_end_top : Scanner → ℕ → Step
unfolding error
state_end_top s c =
    if is_space c then (s, scan_end) else ((error s c after_top_level_value).0, scan_end)

-- `stateEndValue` behind its test for space, by the innermost open value.
end_in : ParseState → List ParseState → Scanner → ℕ → Step
unfolding error pop_parse_state
end_in parse_compound_name ps s c =
    if c == b':'
    then (
      record s { parse_state = parse_compound_value ∷ ps; step = begin_value },
      scan_compound_tag_name,
    )
    else error s c after_tag_name
end_in parse_compound_value ps s c =
    if c == b','
    then (
      record s { parse_state = parse_compound_name ∷ ps; step = begin_string },
      scan_compound_value,
    )
    else if c == b'}'
    then (pop_parse_state s ps, scan_end_value)
    else error s c after_compound_value
end_in parse_list_value ps s c =
    if c == b','
    then (record s { step = begin_value }, scan_list_value)
    else if c == b']'
    then (pop_parse_state s ps, scan_end_value)
    else error s c after_list_element

end_with : List ParseState → Scanner → ℕ → Step
unfolding end_in
end_with [] s c = state_end_top (record s { step = end_top_state; end_top = true }) c
end_with (p ∷ ps) s c = if is_space c then (s, scan_skip_space) else end_in p ps s c

state_end_value : Scanner → ℕ → Step
unfolding end_with
state_end_value s c = end_with s.parse_state s c

state_in_unquoted_string : Scanner → ℕ → Step
state_in_unquoted_string s c =
    if is_allowed_in_unquoted_string c then (s, scan_continue) else state_end_value s c

state_end_num_dot_value : Scanner → ℕ → Step
state_end_num_dot_value s c =
    if c == b'f' || c == b'F'
    then go s end_value scan_continue
    else if c == b'd' || c == b'D'
    then go s end_value scan_continue
    else state_end_value s c

state_end_num_value : Scanner → ℕ → Step
state_end_num_value s c =
    if c == b'b' || c == b'B'
    then go s end_value scan_continue
    else if c == b's' || c == b'S'
    then go s end_value scan_continue
    else if c == b'l' || c == b'L'
    then go s end_value scan_continue
    else if c == b'f' || c == b'F' || c == b'd' || c == b'D'
    then state_end_num_dot_value s c
    else if is_allowed_in_unquoted_string c
    then go s in_unquoted_string scan_continue
    else state_end_value s c

state_num0 : Scanner → ℕ → Step
state_num0 s c =
    if is_number c || c == b'-' || c == b'+'
    then go s num1 scan_continue
    else state_end_num_value s c

state_num1 : Scanner → ℕ → Step
state_num1 s c =
    if is_number c
    then go s num1 scan_continue
    else if c == b'.'
    then go s num_dot scan_continue
    else state_end_num_value s c

state_num_dot : Scanner → ℕ → Step
unfolding error
state_num_dot s c =
    if is_number c
    then go s num_dot0 scan_continue
    else if c == b'e' || c == b'E'
    then go s num_exp scan_continue
    else if is_allowed_in_unquoted_string c
    then go s in_unquoted_string scan_continue
    else error s c after_decimal_point

state_num_dot0 : Scanner → ℕ → Step
state_num_dot0 s c =
    if is_number c
    then go s num_dot0 scan_continue
    else if c == b'e' || c == b'E'
    then go s num_exp scan_continue
    else state_end_num_dot_value s c

state_num_exp : Scanner → ℕ → Step
state_num_exp s c =
    if is_number c || c == b'-' || c == b'+'
    then go s num_exp0 scan_continue
    else state_end_num_dot_value s c

state_num_exp0 : Scanner → ℕ → Step
state_num_exp0 s c =
    if is_number c then go s num_exp0 scan_continue else state_end_num_dot_value s c

state_begin_string : Scanner → ℕ → Step
unfolding error
state_begin_string s c =
    if is_space c
    then (s, scan_skip_space)
    else if c == b'\''
    then go s in_single_quoted_string scan_begin_literal
    else if c == b'"'
    then go s in_double_quoted_string scan_begin_literal
    else if is_allowed_in_unquoted_string c
    then go s in_unquoted_string scan_begin_literal
    else error s c beginning_of_string

state_begin_value : Scanner → ℕ → Step
unfolding error push_parse_state
state_begin_value s c =
    if is_space c
    then go s begin_value scan_skip_space
    else if c == b'{'
    then push_parse_state (record s { step = compound_or_empty }) parse_compound_name
        scan_begin_compound
    else if c == b'['
    then push_parse_state (record s { step = list_or_array }) parse_list_value scan_begin_list
    else if c == b'"' || c == b'\''
    then state_begin_string s c
    else if is_number c || c == b'-' || c == b'+'
    then ((state_num0 s c).0, scan_begin_literal)
    else if is_allowed_in_unquoted_string c
    then state_begin_string s c
    else error s c beginning_of_value

-- `s.parseState[n-1] = parseCompoundValue`. The state is entered behind a push only, so the empty
-- stack, on which the index would panic, does not occur.
set_compound_value : List ParseState → List ParseState
set_compound_value [] = []
set_compound_value (p ∷ ps) = parse_compound_value ∷ ps

state_compound_or_empty : Scanner → ℕ → Step
unfolding set_compound_value
state_compound_or_empty s c =
    if is_space c
    then (s, scan_skip_space)
    else if c == b'}'
    then state_end_value (record s { parse_state = set_compound_value s.parse_state }) c
    else state_begin_string s c

state_in_single_quoted_string : Scanner → ℕ → Step
state_in_single_quoted_string s c =
    if c == b'\\'
    then go s in_single_quoted_string_esc scan_continue
    else if c == b'\''
    then go s end_value scan_continue
    else (s, scan_continue)

state_in_single_quoted_string_esc : Scanner → ℕ → Step
unfolding error
state_in_single_quoted_string_esc s c =
    if c == b'\\' || c == b'\''
    then go s in_single_quoted_string scan_continue
    else error s c in_string_escape

state_in_double_quoted_string : Scanner → ℕ → Step
state_in_double_quoted_string s c =
    if c == b'\\'
    then go s in_dq_string_esc scan_continue
    else if c == b'"'
    then go s end_value scan_continue
    else (s, scan_continue)

state_in_dq_string_esc : Scanner → ℕ → Step
unfolding error
state_in_dq_string_esc s c =
    if c == b'b'
      || c == b'f'
      || c == b'n'
      || c == b'r'
      || c == b't'
      || c == b'\\'
      || c == b'/'
      || c == b'"'
    then go s in_double_quoted_string scan_continue
    else error s c in_string_escape

state_list_or_array : Scanner → ℕ → Step
state_list_or_array s c =
    if is_space c
    then (s, scan_skip_space)
    else if c == b'B' || c == b'I' || c == b'L'
    then go s list_or_array_t scan_begin_literal
    else if c == b']'
    then state_end_value s c
    else state_begin_value s c

state_list_or_array_t : Scanner → ℕ → Step
state_list_or_array_t s c =
    if c == b';' then go s array_t scan_list_type else state_in_unquoted_string s c

state_array_t : Scanner → ℕ → Step
state_array_t s c =
    if is_space c
    then (s, scan_skip_space)
    else if c == b']'
    then state_end_value s c
    else state_begin_value s c

-- `s.step(s, c)`
dispatch : State → Scanner → ℕ → Step
dispatch begin_value s c = state_begin_value s c
dispatch compound_or_empty s c = state_compound_or_empty s c
dispatch begin_string s c = state_begin_string s c
dispatch in_single_quoted_string s c = state_in_single_quoted_string s c
dispatch in_single_quoted_string_esc s c = state_in_single_quoted_string_esc s c
dispatch in_double_quoted_string s c = state_in_double_quoted_string s c
dispatch in_dq_string_esc s c = state_in_dq_string_esc s c
dispatch in_unquoted_string s c = state_in_unquoted_string s c
dispatch list_or_array s c = state_list_or_array s c
dispatch list_or_array_t s c = state_list_or_array_t s c
dispatch array_t s c = state_array_t s c
dispatch num0 s c = state_num0 s c
dispatch num1 s c = state_num1 s c
dispatch num_dot s c = state_num_dot s c
dispatch num_dot0 s c = state_num_dot0 s c
dispatch num_exp s c = state_num_exp s c
dispatch num_exp0 s c = state_num_exp0 s c
dispatch end_value s c = state_end_value s c
dispatch end_top_state s c = state_end_top s c
dispatch error_state s c = (s, scan_error)

pub scan_byte : Scanner → ℕ → Step
scan_byte s c = dispatch s.step s c

-- `scanner.eof`: without a verdict so far, the state function is called once more, on a space.
eof_error : ErrContext → Scanner → Scanner
eof_error no_err s = record s { err_context = unexpected_end }
eof_error unexpected_end s = s
eof_error (invalid c x) s = s

eof_after : Step → Step
unfolding eof_error
eof_after (s, code) = if s.end_top then (s, scan_end) else (eof_error s.err_context s, scan_error)

eof_from : ErrContext → Scanner → Step
unfolding eof_after
eof_from no_err s = if s.end_top then (s, scan_end) else eof_after (scan_byte s b' ')
eof_from unexpected_end s = (s, scan_error)
eof_from (invalid c x) s = (s, scan_error)

pub eof : Scanner → Step
unfolding eof_from
eof s = eof_from s.err_context s

-- The codes for a text, byte by byte, and the scanner after it.
pub scan_all : Scanner → Bytes → Scanner × List Code
scan_all s [] = (s, [])
scan_all s (c ∷ cs) =
    let (s', code) = scan_byte s c in let (s'', codes) = scan_all s' cs in (s'', code ∷ codes)
