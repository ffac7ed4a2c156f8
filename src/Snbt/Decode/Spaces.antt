-- ===== src/Snbt/Decode/Spaces.antt =====
-- The method scanWhile of nbt/snbt_decode.go over spaces.
use mc_afk_go.Base.{ℕ, ◌+◌, ◌≡◌, refl, arith, true, false, [], ◌∷◌, ◌++◌, All, length}
use mc_afk_go.Io.{Bytes}
use mc_afk_go.Snbt.{Code, Scanner, scan_skip_space, is_space}
use mc_afk_go.Snbt.Scan.{scan_byte}
use mc_afk_go.Snbt.Decode.{scan_loop, same_code}

-- The scan over spaces ends with the first byte that is none.
pub scan_loop-spaces :
    (content cs : Bytes) (s t : Scanner) (c : ℕ) (code : Code)
    → ((x : ℕ) → is_space x ≡ true → scan_byte s x ≡ (s, scan_skip_space))
    → scan_byte s c ≡ (t, code)
    → same_code code scan_skip_space ≡ false
    → (sp : Bytes) (i n : ℕ) → n ≡ i + length sp + 1
    → All (λ x. is_space x ≡ true) sp
    → scan_loop scan_skip_space content (sp ++ c ∷ cs) i s
      ≡ record { content = content; off = n; opcode = code; scan = t }
unfolding scan_loop
scan_loop-spaces content cs s t c code skips stops other [] i n e h =
    let last : n ≡ i + 1 = omega arith in rw (stops, other, last) refl
scan_loop-spaces content cs s t c code skips stops other (x ∷ sp) i n e (hx, h) =
    rw (skips x hx)
      (scan_loop-spaces content cs s t c code skips stops other sp (i + 1) n (omega arith) h)
