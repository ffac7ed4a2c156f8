-- ===== src/Snbt.antt =====
-- SNBT, the text form of NBT: the scanner's types, its stack and its classes of bytes
-- (nbt/snbt_scanner.go); the children have the state functions and the printing of strings.
pub mod Scan
pub mod Escape
pub mod Literal
pub mod Print
pub mod Decode
use mc_afk_go.Base.{ℕ, zero, suc, Bool, true, false, not, ◌&&◌, ◌||◌, ltb, leb, ◌==◌, if◌then◌else◌}
use mc_afk_go.Base.{List, [], ◌∷◌, length, Option, none, some}
use mc_afk_go.Io.{Bytes}

pub data Code : Type 0 where
  scan_continue scan_begin_literal scan_begin_compound scan_begin_list scan_list_value : Code
  scan_list_type scan_compound_tag_name scan_compound_value scan_skip_space scan_end_value : Code
  scan_end scan_error : Code

pub data ParseState : Type 0 where
  parse_compound_name parse_compound_value parse_list_value : ParseState

-- The state functions that the field `step` holds.
pub data State : Type 0 where
  begin_value compound_or_empty begin_string in_single_quoted_string : State
  in_single_quoted_string_esc in_double_quoted_string in_dq_string_esc in_unquoted_string : State
  list_or_array list_or_array_t array_t num0 num1 num_dot num_dot0 num_exp num_exp0 : State
  end_value end_top_state error_state : State

pub data Context : Type 0 where
  after_top_level_value beginning_of_value beginning_of_string in_string_escape : Context
  after_decimal_point after_tag_name after_compound_value after_list_element no_context : Context

-- `errContext`: the refused byte with its context, or the end of the input.
pub data ErrContext : Type 0 where
  no_err unexpected_end : ErrContext
  invalid : ℕ → Context → ErrContext

-- `parseState` has its last element first.
pub record Scanner : Type 0 where
  pub step : State
  pub parse_state : List ParseState
  pub err_context : ErrContext
  pub end_top : Bool

abbrev pub max_nesting_depth : ℕ
max_nesting_depth = 10000

-- `scanner.reset`
pub reset : Scanner
reset = record { step = begin_value; parse_state = []; err_context = no_err; end_top = false }

unfoldable pub is_space : ℕ → Bool
is_space c = leb c b' ' && (c == b' ' || c == b'\t' || c == b'\r' || c == b'\n')

unfoldable pub is_number : ℕ → Bool
is_number c = leb b'0' c && leb c b'9'

unfoldable pub is_allowed_in_unquoted_string : ℕ → Bool
is_allowed_in_unquoted_string c =
    c == b'_'
    || c == b'-'
    || c == b'.'
    || c == b'+'
    || (leb b'0' c && leb c b'9')
    || (leb b'A' c && leb c b'Z')
    || (leb b'a' c && leb c b'z')

abbrev pub Step : Type 0
Step = Scanner × Code

abbrev go : Scanner → State → Code → Step
go s t code = (record s { step = t }, code)

-- `scanner.error`
error : Scanner → ℕ → Context → Step
error s c context = (record s { step = error_state; err_context = invalid c context }, scan_error)

-- `scanner.pushParseState`: the element is pushed also where the code is an error.
push_parse_state : Scanner → ParseState → Code → Step
push_parse_state s new success =
    let stack = new ∷ s.parse_state in
    (
      record s { parse_state = stack },
      if leb (length stack) max_nesting_depth then success else scan_error,
    )

-- `scanner.popParseState`, on the stack below the element that is popped.
pop_parse_state : Scanner → List ParseState → Scanner
pop_parse_state s [] = record s { parse_state = []; step = end_top_state; end_top = true }
pop_parse_state s (p ∷ ps) = record s { parse_state = p ∷ ps; step = end_value }
