-- ===== src/Snbt/Scan/Ends.antt =====
-- What the scanner (nbt/snbt_scanner.go) says at the end of the input.
use mc_afk_go.Base.{◌≡◌, refl, Bool, true, false, if◌then◌else◌, inl, inr, ◌⊎◌}
use mc_afk_go.Snbt.{Code, Scanner, Step, ErrContext, no_err, unexpected_end, invalid, scan_end}
use mc_afk_go.Snbt.{scan_error}
use mc_afk_go.Snbt.Scan.{scan_byte, eof, eof_from, eof_after}

-- The two codes that eof returns.
abbrev pub IsFinal : Code → Type 0
IsFinal c = (c ≡ scan_error) ⊎ (c ≡ scan_end)

IsFinal-if : (b : Bool) (p q : Step) → IsFinal p.1 → IsFinal q.1 → IsFinal (if b then p else q).1
IsFinal-if true p q h k = h
IsFinal-if false p q h k = k

eof_after-IsFinal : (p : Step) → IsFinal (eof_after p).1
unfolding eof_after
eof_after-IsFinal (s, code) = IsFinal-if s.end_top _ _ (inr refl) (inl refl)

eof_from-IsFinal : (e : ErrContext) (s : Scanner) → IsFinal (eof_from e s).1
unfolding eof_from
eof_from-IsFinal no_err s =
    IsFinal-if s.end_top _ _ (inr refl) (eof_after-IsFinal (scan_byte s b' '))
eof_from-IsFinal unexpected_end s = inl refl
eof_from-IsFinal (invalid c x) s = inl refl

pub eof-IsFinal : (s : Scanner) → IsFinal (eof s).1
unfolding eof
eof-IsFinal s = eof_from-IsFinal s.err_context s
