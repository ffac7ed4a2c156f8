-- ===== src/Snbt/Escape.antt =====
-- How a string is printed in SNBT (`writeEscapeStr` of nbt/snbt.go).
pub mod Quoted
pub mod Plain
use mc_afk_go.Base.{ℕ, zero, suc, ◌+◌, Bool, true, false, not, ◌||◌, ltb, ◌==◌, if◌then◌else◌}
use mc_afk_go.Base.{List, [], ◌∷◌, ◌++◌}
use mc_afk_go.Io.{Bytes}
use mc_afk_go.Snbt.{is_allowed_in_unquoted_string}

-- `strings.Count(str, q)` for a text of one byte.
abbrev pub count : ℕ → Bytes → ℕ
count q [] = 0
count q (c ∷ cs) = (if c == q then 1 else 0) + count q cs

-- `strings.NewReplacer`, which puts a backslash before each `q` and each backslash.
unfoldable pub replace : ℕ → Bytes → Bytes
replace q [] = []
replace q (c ∷ cs) =
    let rest = replace q cs in if c == q || c == b'\\' then b'\\' ∷ c ∷ rest else c ∷ rest

-- The loop's test, over the whole string.
unfoldable pub needs_quotes : Bytes → Bool
needs_quotes [] = false
needs_quotes (c ∷ cs) = not (is_allowed_in_unquoted_string c) || needs_quotes cs

abbrev pub quote_with : ℕ → Bytes → Bytes
quote_with q str = q ∷ (replace q str ++ q ∷ [])

unfoldable pub write_escape_str : Bytes → Bytes
unfolding needs_quotes replace
write_escape_str str =
    if needs_quotes str
    then (if ltb (count b'\'' str) (count b'"' str)
        then quote_with b'\'' str
        else quote_with b'"' str)
    else str
