-- ===== src/Wire/VarInt/Groups.antt =====
-- The encoding of VarInt and VarLong (net/packet/types.go): groups of seven bits, lowest first,
-- with the top bit set on every byte but the last.
use mc_afk_go.Base.{ℕ, zero, suc, ◌+◌, ◌*◌, ◌/◌, ◌%◌, ◌^◌, ◌≤◌, ◌<◌, ◌≡◌, refl, ap, ◌∙◌, arith}
use mc_afk_go.Base.{bit_and, bit_or, [], ◌∷◌, length, All, ltb, if◌then◌else◌}
use mc_afk_go.Base.Bits.{IsByte, bit_and-low, bit_and-shl, bit_or-shl_right}
use mc_afk_go.Io.{Bytes}
use native.Mathlib.Numerals.{towards_suc}

-- At most `k + 1` groups of `v`, for `v` below 128 ^ (k + 1).
unfoldable pub groups : ℕ → ℕ → Bytes
groups zero v = v ∷ []
groups (suc k) v =
    let rest = groups k (v / 128) in if ltb v 128 then v ∷ [] else (v % 128 + 128) ∷ rest

pub length-groups : (k v : ℕ) → (1 ≤ length (groups k v)) × (length (groups k v) ≤ k + 1)
unfolding groups
length-groups zero v = omega arith
length-groups (suc k) v = ground (arith, length-groups k (v / 128))

pub groups-IsByte : (k v : ℕ) → v < 128 ^ suc k → All IsByte (groups k v)
unfolding groups
groups-IsByte zero v h = omega arith
groups-IsByte (suc k) v h = ground (arith, groups-IsByte k (v / 128) (omega arith))

pub low_seven : (a : ℕ) → bit_and a 0x7F ≡ a % 128
low_seven = bit_and-low 7

pub top_bit : (a : ℕ) → bit_and a 0x80 ≡ a / 128 % 2 * 128
top_bit a = ground (arith, bit_and-shl 7 1 a, bit_and-low 1 (a / 128))

pub set_top_bit : (g : ℕ) → g < 128 → bit_or g 0x80 ≡ g + 128
set_top_bit g h = bit_or-shl_right 7 1 g h

pub shift_seven : (k : ℕ) → 2 ^ (7 * (k + 1)) ≡ 128 * 2 ^ (7 * k)
shift_seven k =
    ap (λ (s : ℕ). 2 ^ s) (let e : 7 * (k + 1) ≡ 7 * k + 7 = omega arith in e) ∙ step (7 * k)
  where
    step : (s : ℕ) → 2 ^ (s + 7) ≡ 128 * 2 ^ s
    step s = simp towards_suc (omega arith)

pub group_byte : (v : ℕ) → bit_or (bit_and v 0x7F) 0x80 ≡ v % 128 + 128
group_byte v = rw (low_seven v) (set_top_bit (v % 128) (omega arith))

pub groups_one : (k v : ℕ) → v < 128 → groups k v ≡ v ∷ []
unfolding groups
groups_one zero v h = refl
groups_one (suc k) v h = ground arith

pub groups_more : (k v : ℕ) → 128 ≤ v → groups (suc k) v ≡ (v % 128 + 128) ∷ groups k (v / 128)
unfolding groups
groups_more k v h = ground arith
