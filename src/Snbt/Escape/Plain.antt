-- ===== src/Snbt/Escape/Plain.antt =====
-- Strings that writeEscapeStr (nbt/snbt.go) prints as they are, under the scanner.
use mc_afk_go.Base.{ℕ, ◌≡◌, refl, ap, ◌∙◌, arith, true, false}
use mc_afk_go.Base.{[], ◌∷◌, length, ◌||◌, ◌==◌, replicate}
use mc_afk_go.Io.{Bytes}
use mc_afk_go.Snbt.{scan_continue, scan_begin_literal, scan_end, scan_error, Scanner}
use mc_afk_go.Snbt.{begin_value, in_unquoted_string, reset}
use mc_afk_go.Snbt.Scan.{scan_all, eof}
use mc_afk_go.Snbt.{is_number, is_allowed_in_unquoted_string}
use mc_afk_go.Snbt.Scan.Strings.{scan_all-cons, scan_all-nil, reset_begins, word_first, word_next}
use mc_afk_go.Snbt.Scan.Strings.{eof_word, two_points, eof-Refused}
use mc_afk_go.Snbt.Escape.{needs_quotes, write_escape_str}

needs_quotes-plain :
    (c : ℕ) (cs : Bytes)
    → needs_quotes (c ∷ cs) ≡ false
    → (is_allowed_in_unquoted_string c ≡ true) × (needs_quotes cs ≡ false)
unfolding needs_quotes
needs_quotes-plain c cs h = ground arith

write_escape_str-plain : (str : Bytes) → needs_quotes str ≡ false → write_escape_str str ≡ str
unfolding write_escape_str
write_escape_str-plain str h = rw (h)

-- The further bytes of a plain word.
scan_word :
    (str : Bytes) (s : Scanner)
    → needs_quotes str ≡ false
    → s.step ≡ in_unquoted_string
    → scan_all s str ≡ (s, replicate (length str) scan_continue)
scan_word [] s plain e = scan_all-nil s
scan_word (c ∷ cs) s plain e =
    let (allowed, rest) = needs_quotes-plain c cs plain in
    scan_all-cons _ _ _ _ _ _ _ (word_next s c e allowed) (scan_word cs s rest e)

scan_plain :
    (c : ℕ) (cs : Bytes) (s : Scanner)
    → needs_quotes (c ∷ cs) ≡ false
    → (is_number c || c == b'-' || c == b'+') ≡ false
    → s.step ≡ begin_value
    → scan_all s (write_escape_str (c ∷ cs)) ≡ (
      record s { step = in_unquoted_string },
      scan_begin_literal ∷ replicate (length cs) scan_continue,
    )
scan_plain c cs s plain word begin =
    let (allowed, rest) = needs_quotes-plain c cs plain in
    ap (scan_all s) (write_escape_str-plain (c ∷ cs) plain)
    ∙ scan_all-cons _ _ _ _ _ _ _ (word_first s c begin allowed word)
        (scan_word cs (record s { step = in_unquoted_string }) rest refl)

-- A string of bytes that a plain word can hold, whose first byte is not a digit or a sign, is
-- written as it is and scanned as one literal, from any place where a value begins and with the
-- open compounds and lists unchanged; alone in the input, it is a complete text.
pub plain_is_one_literal :
    (c : ℕ) (cs : Bytes) (s : Scanner)
    → needs_quotes (c ∷ cs) ≡ false
    → (is_number c || c == b'-' || c == b'+') ≡ false
    → s.step ≡ begin_value
    → (write_escape_str (c ∷ cs) ≡ c ∷ cs)
      × (scan_all s (write_escape_str (c ∷ cs)) ≡ (
        record s { step = in_unquoted_string },
        scan_begin_literal ∷ replicate (length cs) scan_continue,
      ))
      × ((eof (scan_all reset (write_escape_str (c ∷ cs))).0).1 ≡ scan_end)
plain_is_one_literal c cs s plain word begin = (
  write_escape_str-plain (c ∷ cs) plain,
  scan_plain c cs s plain word begin,
  ap (λ r. (eof r.0).1) (scan_plain c cs reset plain word reset_begins) ∙ eof_word,
)

needs_quotes-two_points :
    (a b : ℕ) (cs : Bytes)
    → is_number a ≡ true
    → is_number b ≡ true
    → needs_quotes cs ≡ false
    → needs_quotes (a ∷ b'.' ∷ b ∷ b'.' ∷ cs) ≡ false
unfolding needs_quotes is_allowed_in_unquoted_string is_number
needs_quotes-two_points a b cs digit_a digit_b plain = ground arith

-- A string that begins with a digit, a point, a digit and a point, such as a version number
-- with three parts, and holds bytes of plain words only is written as it is, without quotes;
-- the scanner refuses it as a text: at the end of the input its code is scanError.
pub two_points_are_refused :
    (a b : ℕ) (cs : Bytes)
    → is_number a ≡ true
    → is_number b ≡ true
    → needs_quotes cs ≡ false
    → (write_escape_str (a ∷ b'.' ∷ b ∷ b'.' ∷ cs) ≡ a ∷ b'.' ∷ b ∷ b'.' ∷ cs)
      × ((eof (scan_all reset (write_escape_str (a ∷ b'.' ∷ b ∷ b'.' ∷ cs))).0).1 ≡ scan_error)
two_points_are_refused a b cs digit_a digit_b plain =
    let same = write_escape_str-plain _ (needs_quotes-two_points a b cs digit_a digit_b plain) in
    let (s, refused, e) = two_points a b cs digit_a digit_b in
    (
      same,
      ap (λ t. (eof (scan_all reset t).0).1) same ∙ ap (λ u. (eof u).1) e ∙ eof-Refused s refused,
    )
