-- ===== src/Snbt/Scan/Strings.antt =====
-- What the scanner (nbt/snbt_scanner.go) does inside a string, byte by byte.
use mc_afk_go.Base.{ℕ, ◌≡◌, refl, ap, ◌∙◌, arith, true, false, ◌⊎◌}
use mc_afk_go.Base.{List, [], ◌∷◌, ◌||◌, ◌==◌, if◌then◌else◌}
use mc_afk_go.Io.{Bytes}
use mc_afk_go.Snbt.{Code, scan_continue, scan_begin_literal, scan_end, scan_error, Scanner}
use mc_afk_go.Snbt.{State, begin_value, end_value, in_double_quoted_string, in_dq_string_esc}
use mc_afk_go.Snbt.{in_single_quoted_string, in_single_quoted_string_esc}
use mc_afk_go.Snbt.{in_unquoted_string, error_state, reset}
use mc_afk_go.Snbt.Scan.{scan_byte, scan_all, eof, dispatch}
use mc_afk_go.Snbt.Scan.{state_begin_value, state_begin_string, state_in_single_quoted_string}
use mc_afk_go.Snbt.Scan.{state_in_double_quoted_string, state_in_single_quoted_string_esc}
use mc_afk_go.Snbt.{is_space, is_number, is_allowed_in_unquoted_string}
use mc_afk_go.Snbt.Scan.{state_in_dq_string_esc}
use mc_afk_go.Snbt.Scan.{state_in_unquoted_string, state_end_value, end_with, state_end_top}
use mc_afk_go.Snbt.Scan.{eof_from, eof_after}
use mc_afk_go.Snbt.{Context, invalid, after_top_level_value, error, num1, num_dot, num_dot0}
use mc_afk_go.Snbt.Scan.{state_num0, state_num1, state_num_dot, state_num_dot0}
use mc_afk_go.Snbt.Scan.{state_end_num_dot_value}

-- The codes of a text from those of its first byte and of the rest.
pub scan_all-cons :
    (s t u : Scanner) (c : ℕ) (code : Code) (cs : Bytes) (codes : List Code)
    → scan_byte s c ≡ (t, code)
    → scan_all t cs ≡ (u, codes)
    → scan_all s (c ∷ cs) ≡ (u, code ∷ codes)
unfolding scan_all
scan_all-cons s t u c code cs codes h k = rw (h, k)

pub scan_all-nil : (s : Scanner) → scan_all s [] ≡ (s, [])
unfolding scan_all
scan_all-nil s = refl

-- The states inside a string with that quote, and behind a backslash in it.
abbrev pub inside : ℕ → State
inside q = if q == b'\'' then in_single_quoted_string else in_double_quoted_string

abbrev pub inside_esc : ℕ → State
inside_esc q = if q == b'\'' then in_single_quoted_string_esc else in_dq_string_esc

abbrev pub IsQuote : ℕ → Type 0
IsQuote q = (q ≡ b'\'') ⊎ (q ≡ b'"')

module _ (s : Scanner) (q : ℕ) (quote : IsQuote q) where
  pub open_quote :
      s.step ≡ begin_value → scan_byte s q ≡ (record s { step = inside q }, scan_begin_literal)
  unfolding scan_byte dispatch state_begin_value state_begin_string is_space
  open_quote e = ground arith

  pub close_quote :
      s.step ≡ inside q → scan_byte s q ≡ (record s { step = end_value }, scan_continue)
  unfolding scan_byte dispatch state_in_single_quoted_string state_in_double_quoted_string
  close_quote e = ground arith

  pub plain_byte :
      (c : ℕ)
      → s.step ≡ inside q
      → (c == q || c == b'\\') ≡ false
      → scan_byte s c ≡ (s, scan_continue)
  unfolding scan_byte dispatch state_in_single_quoted_string state_in_double_quoted_string
  plain_byte c e h = ground arith

  pub backslash :
      s.step ≡ inside q → scan_byte s b'\\' ≡ (record s { step = inside_esc q }, scan_continue)
  unfolding scan_byte dispatch state_in_single_quoted_string state_in_double_quoted_string
  backslash e = ground arith

  pub escaped_byte :
      (c : ℕ)
      → s.step ≡ inside_esc q
      → (c == q || c == b'\\') ≡ true
      → scan_byte s c ≡ (record s { step = inside q }, scan_continue)
  unfolding scan_byte dispatch state_in_single_quoted_string_esc state_in_dq_string_esc
  escaped_byte c e h = ground arith

pub reset_begins : reset.step ≡ begin_value
unfolding reset
reset_begins = refl

-- A literal that ends behind its last byte, at the top level.
pub eof_end_value : (eof (record reset { step = end_value })).1 ≡ scan_end
unfolding eof eof_from eof_after scan_byte dispatch state_end_value end_with state_end_top is_space
    reset
eof_end_value = refl

pub eof_word : (eof (record reset { step = in_unquoted_string })).1 ≡ scan_end
unfolding eof eof_from eof_after scan_byte dispatch state_in_unquoted_string state_end_value
    end_with state_end_top is_space is_allowed_in_unquoted_string reset
eof_word = refl

-- A byte of a plain word opens none of the other values.
word_byte :
    (c : ℕ)
    → is_allowed_in_unquoted_string c ≡ true
    → (is_space c ≡ false)
      × ((c == b'{') ≡ false)
      × ((c == b'[') ≡ false)
      × ((c == b'\'') ≡ false)
      × ((c == b'"') ≡ false)
unfolding is_allowed_in_unquoted_string is_space
word_byte c allowed = (ground arith, ground arith, ground arith, ground arith, ground arith)

pub word_first :
    (s : Scanner) (c : ℕ)
    → s.step ≡ begin_value
    → is_allowed_in_unquoted_string c ≡ true
    → (is_number c || c == b'-' || c == b'+') ≡ false
    → scan_byte s c ≡ (record s { step = in_unquoted_string }, scan_begin_literal)
unfolding scan_byte dispatch state_begin_value state_begin_string
word_first s c e allowed word =
    let (space, compound, list, single, double) = word_byte c allowed in
    simp (e, space, compound, list, single, double, word, allowed)

pub word_next :
    (s : Scanner) (c : ℕ)
    → s.step ≡ in_unquoted_string
    → is_allowed_in_unquoted_string c ≡ true
    → scan_byte s c ≡ (s, scan_continue)
unfolding scan_byte dispatch state_in_unquoted_string
word_next s c e allowed = ground arith

-- A scanner that has refused a byte.
abbrev pub Refused : Scanner → Type 0
Refused s = (s.step ≡ error_state) × ((c : ℕ) × (x : Context) × (s.err_context ≡ invalid c x))

scan_all-step :
    (s t : Scanner) (c : ℕ) (cs : Bytes)
    → (scan_byte s c).0 ≡ t
    → (scan_all s (c ∷ cs)).0 ≡ (scan_all t cs).0
unfolding scan_all
scan_all-step s t c cs h = ap (λ u. (scan_all u cs).0) h

refused_byte : (s : Scanner) (c : ℕ) → s.step ≡ error_state → (scan_byte s c).0 ≡ s
unfolding scan_byte dispatch
refused_byte s c e = ap (λ t. (dispatch t s c).0) e

Refused-stays : (s : Scanner) (cs : Bytes) → Refused s → (scan_all s cs).0 ≡ s
Refused-stays s [] r = ap (λ t. t.0) (scan_all-nil s)
Refused-stays s (c ∷ cs) (e, r) =
    scan_all-step s s c cs (refused_byte s c e) ∙ Refused-stays s cs (e, r)

pub eof-Refused : (s : Scanner) → Refused s → (eof s).1 ≡ scan_error
unfolding eof eof_from
eof-Refused s (e, (c, x, k)) = rw (k)

digit_byte :
    (c : ℕ)
    → is_number c ≡ true
    → (is_space c ≡ false)
      × ((c == b'{') ≡ false)
      × ((c == b'[') ≡ false)
      × ((c == b'\'') ≡ false)
      × ((c == b'"') ≡ false)
unfolding is_number is_space
digit_byte c digit = (ground arith, ground arith, ground arith, ground arith, ground arith)

digit_first : (c : ℕ) → is_number c ≡ true → (scan_byte reset c).0 ≡ record reset { step = num1 }
unfolding scan_byte dispatch reset state_begin_value state_num0
digit_first c digit =
    let (space, compound, list, single, double) = digit_byte c digit in
    simp (space, compound, list, single, double, digit)

point_next : (scan_byte (record reset { step = num1 }) b'.').0 ≡ record reset { step = num_dot }
unfolding scan_byte dispatch reset state_num1 is_number
point_next = refl

digit_next :
    (c : ℕ)
    → is_number c ≡ true
    → (scan_byte (record reset { step = num_dot }) c).0 ≡ record reset { step = num_dot0 }
unfolding scan_byte dispatch reset state_num_dot
digit_next c digit = simp (digit)

abbrev refusing : Scanner
refusing = record {
  step = error_state;
  parse_state = [];
  err_context = invalid b'.' after_top_level_value;
  end_top = true;
}

point_refused : (scan_byte (record reset { step = num_dot0 }) b'.').0 ≡ refusing
unfolding scan_byte dispatch reset state_num_dot0 is_number state_end_num_dot_value state_end_value
    end_with state_end_top is_space error
point_refused = refl

pub two_points :
    (a b : ℕ) (cs : Bytes)
    → is_number a ≡ true
    → is_number b ≡ true
    → (s : Scanner) × Refused s × ((scan_all reset (a ∷ b'.' ∷ b ∷ b'.' ∷ cs)).0 ≡ s)
two_points a b cs digit_a digit_b =
    let refused : Refused refusing = (refl, (b'.', after_top_level_value, refl)) in
    (
      refusing,
      refused,
      scan_all-step _ _ a _ (digit_first a digit_a)
          ∙ scan_all-step _ _ _ _ point_next
          ∙ scan_all-step _ _ b _ (digit_next b digit_b)
          ∙ scan_all-step _ _ _ _ point_refused
          ∙ Refused-stays refusing cs refused,
    )
