-- ===== src/Examples/Scans.antt =====
-- The SNBT scanner (nbt/snbt_scanner.go) and printer (nbt/snbt.go) on short texts.
use mc_afk_go.Base.{ℕ, suc, ◌+◌, ◌≡◌, ◌≤◌, refl, [], ◌∷◌, length, arith, replicate}
use mc_afk_go.Io.{Bytes}
use mc_afk_go.Snbt.{reset, scan_end, scan_continue, scan_begin_literal}
use mc_afk_go.Snbt.Scan.{scan_byte, scan_all, eof}
use mc_afk_go.Snbt.{end_value, is_allowed_in_unquoted_string, is_number, max_nesting_depth}
use mc_afk_go.Snbt.Scan.Depth.{Accounts, scan_byte-Accounts}
use mc_afk_go.Snbt.Scan.Balance.{opens, closes, scan_all_balanced}
use mc_afk_go.Snbt.Scan.Samples.{in_list, nested_text, nested_clean}
use mc_afk_go.Snbt.Escape.{write_escape_str, needs_quotes}
use mc_afk_go.Snbt.Escape.Quoted.{quoted_is_one_literal}

scan_byte-Accounts_example :
    Accounts (scan_byte in_list b'{').1 1 (length (scan_byte in_list b'{').0.parse_state)
scan_byte-Accounts_example = scan_byte-Accounts in_list b'{'

scan_all_balanced_example :
    (length (scan_all in_list nested_text).0.parse_state + closes (scan_all in_list nested_text).1
      ≡ 1 + opens (scan_all in_list nested_text).1)
    × (length (scan_all in_list nested_text).0.parse_state ≤ max_nesting_depth)
scan_all_balanced_example = scan_all_balanced nested_text in_list nested_clean (omega arith)

-- A text with both quotes and a space.
abbrev quoted_text : Bytes
quoted_text = b'i' ∷ b't' ∷ b'\'' ∷ b's' ∷ b' ' ∷ b'"' ∷ b'a' ∷ b'"' ∷ []

quoted_is_one_literal_example :
    ((n : ℕ) × (length (write_escape_str quoted_text) ≡ suc n)
      × (scan_all in_list (write_escape_str quoted_text)
          ≡ (record in_list { step = end_value }, scan_begin_literal ∷ replicate n scan_continue)))
    × ((eof (scan_all reset (write_escape_str quoted_text)).0).1 ≡ scan_end)
unfolding needs_quotes is_allowed_in_unquoted_string is_number
quoted_is_one_literal_example = quoted_is_one_literal quoted_text in_list refl refl
