-- ===== src/Base/Bits.antt =====
-- Machine words as native numbers: shifts, masks, and the laws that read `&` and `|` on disjoint
-- fields as arithmetic. A signed word is its two's complement bit pattern.
use Prim.Native.Nat.{
  ℕ, zero, suc, ◌+◌, ◌*◌, ◌-◌, ◌/◌, ◌%◌, ◌^◌, ◌≤◌, ◌<◌, min, max, digits, differ, bitwise,
}
use Prim.Native.Nat.{bit_and, bit_or, bit_xor, bit_and-bitwise, bit_or-bitwise, bit_xor-bitwise}
use mathlib.Core.Path.{◌≡◌, refl, ap, ap₂, ◌∙◌}
use mathlib.Core.Bool.{Bool}
use native.Mathlib.Nat.{pow-suc, pow-succ', pow-zero, one-le-pow, mul-one, div-one}
use native.Mathlib.Nat.{div-add-mod', div-div-eq-div-mul}
use native.Mathlib.Omega.{arith}
use mc_afk_go.Base.Tests.{leb, ltb, if◌then◌else◌}

abbrev pub shl : ℕ → ℕ → ℕ
shl x k = x * 2 ^ k

abbrev pub shr : ℕ → ℕ → ℕ
shr x k = x / 2 ^ k

-- The conversions to a machine type of that width keep the low bits.
abbrev pub u8 : ℕ → ℕ
u8 x = x % 0x100

abbrev pub u16 : ℕ → ℕ
u16 x = x % 0x1_0000

abbrev pub u32 : ℕ → ℕ
u32 x = x % 0x1_0000_0000

abbrev pub u64 : ℕ → ℕ
u64 x = x % 0x1_0000_0000_0000_0000

-- `v < 0` for an int16, an int32 and for an int64, by the sign bit of the pattern.
abbrev pub negative16 : ℕ → Bool
negative16 v = leb 0x8000 v

abbrev pub negative32 : ℕ → Bool
negative32 v = leb 0x8000_0000 v

abbrev pub negative64 : ℕ → Bool
negative64 v = leb 0x8000_0000_0000_0000 v

-- `x < y` on ints, by their 64-bit patterns.
abbrev pub signed_less : ℕ → ℕ → Bool
signed_less x y = ltb (u64 (x + 0x8000_0000_0000_0000)) (u64 (y + 0x8000_0000_0000_0000))

-- The conversion of an int32 to an int extends the sign.
abbrev pub int_of32 : ℕ → ℕ
int_of32 v = if negative32 v then v + 0xFFFF_FFFF_0000_0000 else v

abbrev pub IsByte : ℕ → Type 0
IsByte b = b < 0x100

abbrev pub IsU16 : ℕ → Type 0
IsU16 v = v < 0x1_0000

abbrev pub IsU32 : ℕ → Type 0
IsU32 v = v < 0x1_0000_0000

abbrev pub IsU64 : ℕ → Type 0
IsU64 v = v < 0x1_0000_0000_0000_0000

-- The count of digits that the recursion is given does not matter once it covers the number.
module _ (fill : ℕ → ℕ) (op : ℕ → ℕ → ℕ) where
  covered : (x y n m : ℕ) → x ≤ n → x ≤ m → digits fill op n x y ≡ digits fill op m x y
  covered zero y zero zero long long' = refl
  covered zero y zero (suc m) long long' = refl
  covered zero y (suc n) zero long long' = refl
  covered zero y (suc n) (suc m) long long' = refl
  covered (suc x) y zero m long long' = absurd (omega arith)
  covered (suc x) y (suc n) zero long long' = absurd (omega arith)
  covered (suc x) y (suc n) (suc m) long long' =
      ap (λ (rest : ℕ). rest * 2 + op (suc x % 2) (y % 2))
        (covered (suc x / 2) (y / 2) n m (omega arith) (omega arith))

  -- An operation on digits by its lowest one, if it is so where the first number has run out.
  by_halves :
      ((y : ℕ) → fill y ≡ fill (y / 2) * 2 + op 0 (y % 2))
      → (x y : ℕ) → bitwise fill op x y ≡ bitwise fill op (x / 2) (y / 2) * 2 + op (x % 2) (y % 2)
  by_halves ends zero y = ends y
  by_halves ends (suc x) y =
      ap (λ (rest : ℕ). rest * 2 + op (suc x % 2) (y % 2))
        (covered (suc x / 2) (y / 2) x (suc x / 2) (omega arith) (omega arith))

bit_and_half : (a b : ℕ) → bit_and a b ≡ bit_and (a / 2) (b / 2) * 2 + min (a % 2) (b % 2)
bit_and_half a b = omega (
  arith,
  bit_and-bitwise a b,
  bit_and-bitwise (a / 2) (b / 2),
  by_halves (λ (y : ℕ). 0) min (λ y. omega arith) a b,
)

bit_or_half : (a b : ℕ) → bit_or a b ≡ bit_or (a / 2) (b / 2) * 2 + max (a % 2) (b % 2)
bit_or_half a b = omega (
  arith,
  bit_or-bitwise a b,
  bit_or-bitwise (a / 2) (b / 2),
  by_halves (λ (y : ℕ). y) max (λ y. omega arith) a b,
)

bit_xor_half : (a b : ℕ) → bit_xor a b ≡ bit_xor (a / 2) (b / 2) * 2 + differ (a % 2) (b % 2)
bit_xor_half a b = omega (
  arith,
  bit_xor-bitwise a b,
  bit_xor-bitwise (a / 2) (b / 2),
  by_halves (λ (y : ℕ). y) differ (λ y. omega arith) a b,
)

zero-bit_or : (b : ℕ) → bit_or 0 b ≡ b
zero-bit_or b = bit_or-bitwise 0 b

bit_or-none : (x n : ℕ) → x ≤ n → bit_or x 0 ≡ x
bit_or-none zero n few = refl
bit_or-none (suc x) zero few = absurd (omega arith)
bit_or-none (suc x) (suc n) few =
    omega (arith, bit_or-none (suc x / 2) n (omega arith), bit_or_half (suc x) 0)

bit_and-none : (x n : ℕ) → x ≤ n → bit_and x 0 ≡ 0
bit_and-none zero n few = refl
bit_and-none (suc x) zero few = absurd (omega arith)
bit_and-none (suc x) (suc n) few =
    omega (arith, bit_and-none (suc x / 2) n (omega arith), bit_and_half (suc x) 0)

double : (q k : ℕ) → q * 2 ^ suc k ≡ 2 * (q * 2 ^ k)
double q k = omega (arith, ap (λ (t : ℕ). q * t) (pow-suc 2 k))

-- A value shifted over `k` bits joined with `k` bits is their sum, either way round.
pub bit_or-shl : (k q r : ℕ) → r < 2 ^ k → bit_or (q * 2 ^ k) r ≡ q * 2 ^ k + r
bit_or-shl zero q r h = ground (arith, bit_or-none q q (omega arith))
bit_or-shl (suc k) q r h =
    ground (arith, bit_or_half (q * 2 ^ suc k) r, double q k, pow-suc 2 k, bit_or-shl k q (r / 2))

pub bit_or-shl_right : (k q r : ℕ) → r < 2 ^ k → bit_or r (q * 2 ^ k) ≡ r + q * 2 ^ k
bit_or-shl_right zero q r h = ground (arith, zero-bit_or q)
bit_or-shl_right (suc k) q r h =
    ground
      (arith, bit_or_half r (q * 2 ^ suc k), double q k, pow-suc 2 k, bit_or-shl_right k q (r / 2))

-- A mask of `k` low bits is the remainder.
pub bit_and-low : (k a : ℕ) → bit_and a (2 ^ k - 1) ≡ a % 2 ^ k
bit_and-low zero a = ground (arith, bit_and-none a a (omega arith))
bit_and-low (suc k) a = rw (pow-succ' 2 k) (
    ground (
      arith,
      one-le-pow k 2,
      bit_and_half a (2 * 2 ^ k - 1),
      bit_and-low k (a / 2),
      div-add-mod' (a / 2) (2 ^ k),
      div-add-mod' a (2 * 2 ^ k),
      div-div-eq-div-mul a 2 (2 ^ k),
      ap (λ (t : ℕ). t * 2 ^ k) (div-div-eq-div-mul a 2 (2 ^ k)),
    ))

-- A mask shifted up by `k` bits sees only the bits from there on.
pub bit_and-shl : (k m a : ℕ) → bit_and a (m * 2 ^ k) ≡ bit_and (a / 2 ^ k) m * 2 ^ k
bit_and-shl zero m a = simp (pow-zero, mul-one, div-one)
bit_and-shl (suc k) m a = ground (
  arith,
  bit_and_half a (m * 2 ^ suc k),
  double m k,
  double (bit_and (a / 2 ^ suc k) m) k,
  bit_and-shl k m (a / 2),
  div-div-eq-div-mul a 2 (2 ^ k),
  pow-succ' 2 k,
)

pub bit_or-lt : (k a b : ℕ) → a < 2 ^ k → b < 2 ^ k → bit_or a b < 2 ^ k
bit_or-lt zero zero b ha hb = rw zero-bit_or hb
bit_or-lt zero (suc a) b ha hb = absurd (omega arith)
bit_or-lt (suc k) a b ha hb =
    ground (arith, bit_or_half a b, pow-suc 2 k, bit_or-lt k (a / 2) (b / 2))

pub bit_or-zero : (a : ℕ) → bit_or a 0 ≡ a
bit_or-zero a = bit_or-none a a (omega arith)

differ_twice : (x y : ℕ) → x < 2 → y < 2 → (differ x y < 2) × (differ (differ x y) y ≡ x)
differ_twice zero zero h k = (omega arith, refl)
differ_twice zero (suc zero) h k = (omega arith, refl)
differ_twice zero (suc (suc y)) h k = absurd (omega arith)
differ_twice (suc zero) zero h k = (omega arith, refl)
differ_twice (suc zero) (suc zero) h k = (omega arith, refl)
differ_twice (suc zero) (suc (suc y)) h k = absurd (omega arith)
differ_twice (suc (suc x)) y h k = absurd (omega arith)

bit_xor_twice_fuel : (n a b : ℕ) → a ≤ n → b ≤ n → bit_xor (bit_xor a b) b ≡ a
bit_xor_twice_fuel zero zero zero h k = refl
bit_xor_twice_fuel zero (suc a) b h k = absurd (omega arith)
bit_xor_twice_fuel zero zero (suc b) h k = absurd (omega arith)
bit_xor_twice_fuel (suc n) a b h k =
    let (bit, back) = differ_twice (a % 2) (b % 2) (omega arith) (omega arith) in
    let high : bit_xor a b / 2 ≡ bit_xor (a / 2) (b / 2) = omega (arith, bit_xor_half a b) in
    let low : bit_xor a b % 2 ≡ differ (a % 2) (b % 2) = omega (arith, bit_xor_half a b) in
    bit_xor_half (bit_xor a b) b
    ∙ ap₂ (λ (x y : ℕ). bit_xor x (b / 2) * 2 + differ y (b % 2)) high low
    ∙ omega (arith, bit_xor_twice_fuel n (a / 2) (b / 2) (omega arith) (omega arith))

-- Masking twice with one key is masking not at all.
pub bit_xor_twice : (a b : ℕ) → bit_xor (bit_xor a b) b ≡ a
bit_xor_twice a b = bit_xor_twice_fuel (a + b) a b (omega arith) (omega arith)
