-- ===== src/Snbt/Scan/Balance.antt =====
-- The stack of open values of the scanner (nbt/snbt_scanner.go) over a whole text.
use mc_afk_go.Base.{ℕ, suc, ◌+◌, ◌≤◌, ◌≡◌, refl, arith, ◌≢◌}
use mc_afk_go.Base.{List, [], ◌∷◌, length, All}
use mc_afk_go.Io.{Bytes}
use mc_afk_go.Snbt.{Code, scan_continue, scan_begin_compound}
use mc_afk_go.Snbt.{scan_begin_list}
use mc_afk_go.Snbt.{scan_end_value, scan_error}
use mc_afk_go.Snbt.{Scanner, max_nesting_depth}
use mc_afk_go.Snbt.Scan.{scan_byte, scan_all}
use mc_afk_go.Snbt.Scan.Depth.{Accounts, scan_byte-Accounts}

-- How many values a list of codes opens and closes.
abbrev pub opens : List Code → ℕ
opens [] = 0
opens (scan_begin_compound ∷ cs) = suc (opens cs)
opens (scan_begin_list ∷ cs) = suc (opens cs)
opens (_ ∷ cs) = opens cs

abbrev pub closes : List Code → ℕ
closes [] = 0
closes (scan_end_value ∷ cs) = suc (closes cs)
closes (_ ∷ cs) = closes cs

step_within :
    (code : Code) (before mid : ℕ)
    → Accounts code before mid
    → code ≢ scan_error
    → before ≤ max_nesting_depth
    → mid ≤ max_nesting_depth
step_within scan_continue before mid a n h = ground arith
step_within scan_error before mid a n h = absurd (n refl)
step_within _ before mid a n h = ground arith

step_sum :
    (code : Code) (codes : List Code) (before mid after : ℕ)
    → Accounts code before mid
    → code ≢ scan_error
    → after + closes codes ≡ mid + opens codes
    → after + closes (code ∷ codes) ≡ before + opens (code ∷ codes)
step_sum scan_continue codes before mid after a n e = ground arith
step_sum scan_error codes before mid after a n e = absurd (n refl)
step_sum _ codes before mid after a n e = ground arith

-- Over a text on which the scanner gives no scanError, from a stack within the limit, every
-- value is opened before it is closed, the stack holds those that are still open, and there are
-- never more than maxNestingDepth of them.
pub scan_all_balanced :
    (bs : Bytes) (s : Scanner)
    → All (λ c. c ≢ scan_error) (scan_all s bs).1
    → length s.parse_state ≤ max_nesting_depth
    → (length (scan_all s bs).0.parse_state + closes (scan_all s bs).1
        ≡ length s.parse_state + opens (scan_all s bs).1)
      × (length (scan_all s bs).0.parse_state ≤ max_nesting_depth)
unfolding scan_all
scan_all_balanced [] s clean h = (refl, h)
scan_all_balanced (c ∷ cs) s clean h =
    let a = scan_byte-Accounts s c in
    let (sum, within) =
      scan_all_balanced cs (scan_byte s c).0 clean.1 (step_within _ _ _ a clean.0 h) in
    (step_sum _ (scan_all (scan_byte s c).0 cs).1 _ _ _ a clean.0 sum, within)
