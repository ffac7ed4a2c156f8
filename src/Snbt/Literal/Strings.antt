-- ===== src/Snbt/Literal/Strings.antt =====
-- `parseLiteral` of nbt/snbt_decode.go on the strings that `writeEscapeStr` quotes.
use mc_afk_go.Base.{ℕ, ◌≡◌, refl, sym, ap, ◌∙◌, arith, true, false, ◌||◌, ltb}
use mc_afk_go.Base.{le→leb, ◌==◌, ==_iff, Bool-cases, inl, inr, ◌⊎◌, Option, [], ◌∷◌, ◌++◌}
use mc_afk_go.Base.{length, length-append, append-nil, append_assoc}
use mc_afk_go.Io.{Bytes}
use mc_afk_go.Snbt.Escape.{count, replace, needs_quotes, quote_with, write_escape_str}
use mc_afk_go.Snbt.Literal.{parsed, string, unquote, parse_literal}

-- A byte that is no quote and no backslash is taken as it is.
unquote-plain :
    (q c : ℕ) (sb ys : Bytes)
    → (c == q) ≡ false
    → (c == b'\\') ≡ false
    → unquote q sb (c ∷ (ys ++ q ∷ [])) ≡ unquote q (sb ++ c ∷ []) (ys ++ q ∷ [])
unfolding unquote
unquote-plain q c sb [] h k = rw (h, k)
unquote-plain q c sb (y ∷ ys) h k = rw (h, k)

unquote-escape :
    (q c : ℕ) (sb ys : Bytes)
    → (b'\\' == q) ≡ false
    → unquote q sb (b'\\' ∷ c ∷ ys) ≡ unquote q (sb ++ c ∷ []) ys
unfolding unquote
unquote-escape q c sb ys h = rw h

unquote-end : (q : ℕ) (sb : Bytes) → unquote q sb (q ∷ []) ≡ parsed (string sb)
unfolding unquote
unquote-end q sb = rw ((==_iff q q).1 refl)

unquote-replace :
    (q : ℕ) (sb str : Bytes)
    → (b'\\' == q) ≡ false
    → unquote q sb (replace q str ++ q ∷ []) ≡ parsed (string (sb ++ str))
unfolding replace
unquote-replace q sb [] h =
    unquote-end q sb ∙ ap (λ (s : Bytes). parsed (string s)) (sym (append-nil sb))
unquote-replace q sb (c ∷ cs) h = elim (Bool-cases (c == q || c == b'\\')) [
  | inl special ↦ rw special (
      unquote-escape q c sb (replace q cs ++ q ∷ []) h
      ∙ unquote-replace q (sb ++ c ∷ []) cs h
      ∙ ap (λ (s : Bytes). parsed (string s)) (append_assoc sb (c ∷ []) cs))
  | inr plain ↦ rw plain (
      unquote-plain q c sb (replace q cs) (ground arith) (ground arith)
      ∙ unquote-replace q (sb ++ c ∷ []) cs h
      ∙ ap (λ (s : Bytes). parsed (string s)) (append_assoc sb (c ∷ []) cs))
]

module _ (parse_float : ℕ → Bytes → Option ℕ) (to_float32 : ℕ → ℕ) where
  parse_literal-quote_with :
      (q : ℕ) (str : Bytes)
      → (q ≡ b'"') ⊎ (q ≡ b'\'')
      → parse_literal parse_float to_float32 (quote_with q str) ≡ parsed (string str)
  unfolding parse_literal
  parse_literal-quote_with q str h =
      rw
        (
          is_quote,
          le→leb 1 (length (replace q str ++ q ∷ []))
              (omega (arith, length-append (replace q str) (q ∷ []))),
        )
        (unquote-replace q [] str (ground arith))
    where
      is_quote : (q == b'"' || q == b'\'') ≡ true
      is_quote = ground arith

  -- A string that writeEscapeStr puts into quotes, whichever quotes it chooses, is read by
  -- parseLiteral as a string literal with the same bytes.
  pub parse_literal-write_escape_str :
      (str : Bytes)
      → needs_quotes str ≡ true
      → parse_literal parse_float to_float32 (write_escape_str str) ≡ parsed (string str)
  unfolding write_escape_str
  parse_literal-write_escape_str str h =
      rw h (elim (Bool-cases (ltb (count b'\'' str) (count b'"' str))) [
        | inl more ↦ rw more (parse_literal-quote_with b'\'' str (inr refl))
        | inr fewer ↦ rw fewer (parse_literal-quote_with b'"' str (inl refl))
      ])
