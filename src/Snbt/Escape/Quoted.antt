-- ===== src/Snbt/Escape/Quoted.antt =====
-- Strings that writeEscapeStr (nbt/snbt.go) prints in quotes, under the scanner.
use mc_afk_go.Base.{subst, sym, ℕ, suc, ◌≡◌, refl, ap, ◌∙◌, true, false, inl, inr}
use mc_afk_go.Base.{
  List, [], ◌∷◌, ◌++◌, length, ◌||◌, ltb, ◌==◌, if◌then◌else◌, replicate, Bool-cases,
}
use mc_afk_go.Io.{Bytes}
use mc_afk_go.Snbt.{Code, scan_continue, scan_begin_literal, scan_end, Scanner, begin_value}
use mc_afk_go.Snbt.{reset, end_value}
use mc_afk_go.Snbt.Scan.{scan_all, eof}
use mc_afk_go.Snbt.Scan.Strings.{
  scan_all-cons, scan_all-nil, reset_begins, inside, inside_esc, IsQuote, open_quote, close_quote,
  plain_byte,
}
use mc_afk_go.Snbt.Scan.Strings.{backslash, escaped_byte, eof_end_value}
use mc_afk_go.Snbt.Escape.{count, replace, needs_quotes, quote_with, write_escape_str}

-- `n` bytes inside a literal.
abbrev continued : ℕ → List Code
continued n = replicate n scan_continue

module _ (q : ℕ) where
  replace-plain :
      (c : ℕ) (cs : Bytes) → (c == q || c == b'\\') ≡ false → replace q (c ∷ cs) ≡ c ∷ replace q cs
  unfolding replace
  replace-plain c cs h = rw (h)

  replace-escaped :
      (c : ℕ) (cs : Bytes)
      → (c == q || c == b'\\') ≡ true
      → replace q (c ∷ cs) ≡ b'\\' ∷ c ∷ replace q cs
  unfolding replace
  replace-escaped c cs h = rw (h)

  replace-nil : replace q [] ≡ []
  unfolding replace
  replace-nil = refl

-- The text `body` is scanned inside a string to its closing quote.
abbrev Closes : Scanner → Bytes → Type 0
Closes s body = scan_all s body ≡ (record s { step = end_value }, continued (length body))

module _ (q : ℕ) (quote : IsQuote q) where
  -- The escaped text with its closing quote, from inside the string.
  scan_escaped :
      (str : Bytes) (s : Scanner) → s.step ≡ inside q → Closes s (replace q str ++ q ∷ [])
  scan_escaped [] s e =
      subst (λ r. Closes s (r ++ q ∷ [])) (sym (replace-nil q))
        (scan_all-cons _ _ _ _ _ _ _ (close_quote s q quote e) (scan_all-nil _))
  scan_escaped (c ∷ cs) s e = elim (Bool-cases (c == q || c == b'\\')) [
    | inl h ↦
        subst (λ r. Closes s (r ++ q ∷ [])) (sym (replace-escaped q c cs h))
          (scan_all-cons _ _ _ _ _ _ _ (backslash s q quote e) (
            scan_all-cons _ _ _ _ _ _ _
              (escaped_byte (record s { step = inside_esc q }) q quote c refl h)
              (scan_escaped cs (record s { step = inside q }) refl)))
    | inr h ↦
        subst (λ r. Closes s (r ++ q ∷ [])) (sym (replace-plain q c cs h))
          (scan_all-cons _ _ _ _ _ _ _ (plain_byte s q quote c e h) (scan_escaped cs s e))
  ]

  scan_quoted :
      (str : Bytes) (s : Scanner)
      → s.step ≡ begin_value
      → scan_all s (quote_with q str) ≡ (
        record s { step = end_value },
        scan_begin_literal ∷ continued (length (replace q str ++ q ∷ [])),
      )
  scan_quoted str s e =
      scan_all-cons _ _ _ _ _ _ _ (open_quote s q quote e)
        (scan_escaped str (record s { step = inside q }) refl)

-- The quote that is chosen.
abbrev pub chosen : Bytes → ℕ
chosen str = if ltb (count b'\'' str) (count b'"' str) then b'\'' else b'"'

chosen-IsQuote : (str : Bytes) → IsQuote (chosen str)
chosen-IsQuote str = elim (Bool-cases (ltb (count b'\'' str) (count b'"' str))) [
  | inl h ↦ inl (rw (h))
  | inr h ↦ inr (rw (h))
]

write_escape_str-chosen :
    (str : Bytes) → needs_quotes str ≡ true → write_escape_str str ≡ quote_with (chosen str) str
unfolding write_escape_str
write_escape_str-chosen str h = elim (Bool-cases (ltb (count b'\'' str) (count b'"' str))) [
  | inl k ↦ rw (h, k)
  | inr k ↦ rw (h, k)
]

scan_written :
    (str : Bytes) (s : Scanner)
    → needs_quotes str ≡ true
    → s.step ≡ begin_value
    → scan_all s (write_escape_str str) ≡ (
      record s { step = end_value },
      scan_begin_literal ∷ continued (length (replace (chosen str) str ++ chosen str ∷ [])),
    )
scan_written str s needs begin =
    ap (scan_all s) (write_escape_str-chosen str needs)
    ∙ scan_quoted (chosen str) (chosen-IsQuote str) str s begin

-- A string with a byte that a plain word cannot hold, printed by writeEscapeStr, is scanned
-- from the state for the beginning of a value, with any open compounds and lists, as one
-- literal: the first byte begins it, every further byte continues it, and behind the last byte
-- the value has ended with the open compounds and lists as they were; alone in the input, it is
-- a complete text.
pub quoted_is_one_literal :
    (str : Bytes) (s : Scanner)
    → needs_quotes str ≡ true
    → s.step ≡ begin_value
    → ((n : ℕ) × (length (write_escape_str str) ≡ suc n)
        × (scan_all s (write_escape_str str)
            ≡ (record s { step = end_value }, scan_begin_literal ∷ replicate n scan_continue)))
      × ((eof (scan_all reset (write_escape_str str)).0).1 ≡ scan_end)
quoted_is_one_literal str s needs begin = (
  (
    length (replace (chosen str) str ++ chosen str ∷ []),
    ap length (write_escape_str-chosen str needs),
    scan_written str s needs begin,
  ),
  ap (λ r. (eof r.0).1) (scan_written str reset needs reset_begins) ∙ eof_end_value,
)
