-- ===== src/Bot/Login/Complement.antt =====
-- The number that `twosComplement` of bot/login.go leaves, and the sign bit of a hash.
use mc_afk_go.Base.{ℕ, zero, suc, ◌+◌, ◌-◌, ◌*◌, ◌^◌, ◌≤◌, ◌<◌, ◌≡◌, refl, sym, ap, subst, ◌∙◌}
use mc_afk_go.Base.{arith, Bool, true, false, ltb, ◌==◌, not, if◌then◌else◌}
use mc_afk_go.Base.{[], ◌∷◌, length, All, bit_and}
use native.Mathlib.Nat.{add-mul, pow-suc}
use mc_afk_go.Base.Bits.{IsByte, u8}
use mc_afk_go.Io.{Bytes}
use mc_afk_go.Wire.VarInt.Groups.{top_bit}
use mc_afk_go.Bot.Login.{
  complement_byte, complement_from, complement_onto, twos_complement, is_negative,
}

-- The number that bytes stand for, the highest first.
unfoldable pub magnitude : Bytes → ℕ
magnitude [] = 0
magnitude (b ∷ bs) = b * 256 ^ length bs + magnitude bs

Complements : Bytes → Bytes × Bool → Type 0
Complements p (q, carry) =
    (length q ≡ length p)
    × All IsByte q
    × (magnitude q + magnitude p ≡ (if carry then 0 else 256 ^ length p))

-- One byte and its complement, before bytes that are worth `n` together with theirs.
add_plain : (b n q p : ℕ) → IsByte b → q + p ≡ n → (255 - b) * n + q + (b * n + p) ≡ 256 * n
add_plain b n q p h k = grind (arith, sym (add-mul (255 - b) b n))

add_up : (b n q p : ℕ) → 0 < b → IsByte b → q + p ≡ 0 → (256 - b) * n + q + (b * n + p) ≡ 256 * n
add_up b n q p h k l = grind (arith, sym (add-mul (256 - b) b n))

pub pow_next : (n : ℕ) → 256 * 256 ^ n ≡ 256 ^ suc n
pow_next n = omega (arith, pow-suc 256 n)

complement_onto-Complements :
    (b : ℕ) (p : Bytes) (o : Bytes × Bool)
    → IsByte b
    → Complements p o
    → Complements (b ∷ p) (complement_onto b o)
unfolding complement_onto complement_byte Complements magnitude
complement_onto-Complements zero p (q, true) h (l, a, e) =
    rw l (refl, (omega arith, a), omega arith)
complement_onto-Complements (suc b) p (q, true) h (l, a, e) =
    rw (l, not_last, small)
      (
        refl,
        (omega arith, a),
        add_up (suc b) (256 ^ length p) (magnitude q) (magnitude p) (omega arith) h e
            ∙ pow_next (length p),
      )
  where
    not_last : (255 - suc b == 255) ≡ false
    not_last = ground arith

    small : u8 (255 - suc b + 1) ≡ 256 - suc b
    small = omega arith
complement_onto-Complements b p (q, false) h (l, a, e) = rw l (
  refl,
  (omega arith, a),
  add_plain b (256 ^ length p) (magnitude q) (magnitude p) h e ∙ pow_next (length p),
)

complement_from-Complements : (p : Bytes) → All IsByte p → Complements p (complement_from p)
unfolding complement_from Complements magnitude
complement_from-Complements [] h = (refl, tt, refl)
complement_from-Complements (b ∷ bs) h =
    complement_onto-Complements b bs (complement_from bs) h.0 (complement_from-Complements bs h.1)

-- The sign bit of the first byte, read as half of the range.
by_half : (b n m : ℕ) → m < n → (ltb (2 * (b * n + m)) (256 * n) ≡ ltb b 128)
by_half b n m h = ground (arith, below, above)
  where
    below : b < 128 → b * n ≤ 127 * n
    below k =
        let e : (127 - b) * n + b * n ≡ 127 * n =
          sym (add-mul (127 - b) b n) ∙ ap (λ (a : ℕ). a * n) (omega arith) in
        omega (arith, e)

    above : 128 ≤ b → 128 * n ≤ b * n
    above k =
        let e : (b - 128) * n + 128 * n ≡ b * n =
          sym (add-mul (b - 128) 128 n) ∙ ap (λ (a : ℕ). a * n) (omega arith) in
        omega (arith, e)

below_next : (b n m : ℕ) → IsByte b → m < n → b * n + m < 256 * n
below_next b n m h k =
    let e : (255 - b) * n + b * n ≡ 255 * n =
      sym (add-mul (255 - b) b n) ∙ ap (λ (a : ℕ). a * n) (omega arith) in
    omega (arith, e)

pub magnitude-lt : (bs : Bytes) → All IsByte bs → magnitude bs < 256 ^ length bs
unfolding magnitude
magnitude-lt [] h = omega arith
magnitude-lt (b ∷ bs) h =
    subst (λ (n : ℕ). b * 256 ^ length bs + magnitude bs < n) (pow_next (length bs))
      (below_next b (256 ^ length bs) (magnitude bs) h.0 (magnitude-lt bs h.1))

pub is_negative-half :
    (bs : Bytes)
    → All IsByte bs
    → 0 < length bs
    → is_negative bs ≡ not (ltb (2 * magnitude bs) (256 ^ length bs))
unfolding is_negative magnitude
is_negative-half [] h k = absurd (omega arith)
is_negative-half (b ∷ bs) h k =
    top
    ∙ ap not (
        sym (by_half b (256 ^ length bs) (magnitude bs) (magnitude-lt bs h.1))
        ∙ ap (ltb (2 * (b * 256 ^ length bs + magnitude bs))) (pow_next (length bs)))
  where
    top : (bit_and b 0x80 == 0x80) ≡ not (ltb b 128)
    top = ground (arith, h, top_bit b)

complement_magnitude :
    (p : Bytes) (o : Bytes × Bool)
    → 0 < magnitude p
    → Complements p o
    → magnitude o.0 ≡ 256 ^ length p - magnitude p
unfolding Complements
complement_magnitude p (q, true) h k = absurd (omega (arith, k.2))
complement_magnitude p (q, false) h k = omega (arith, k.2)

pub twos_complement-magnitude :
    (p : Bytes)
    → All IsByte p
    → 0 < magnitude p
    → All IsByte (twos_complement p)
      × (magnitude (twos_complement p) ≡ 256 ^ length p - magnitude p)
unfolding twos_complement Complements
twos_complement-magnitude p h k = (
  (complement_from-Complements p h).1,
  complement_magnitude p (complement_from p) k (complement_from-Complements p h),
)
