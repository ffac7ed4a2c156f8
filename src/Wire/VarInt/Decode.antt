-- ===== src/Wire/VarInt/Decode.antt =====
-- VarInt.ReadFrom and VarLong.ReadFrom (net/packet/types.go) on the groups of a value.
use mc_afk_go.Base.{ℕ, zero, suc, ◌+◌, ◌*◌, ◌/◌, ◌%◌, ◌^◌, ◌≤◌, ◌<◌, ◌≡◌, refl, ap, arith}
use mc_afk_go.Base.{bit_and, bit_or, [], ◌∷◌, ◌++◌, length, ltb, leb, Bool, true, false}
use mc_afk_go.Base.{Bool-cases, inl, inr, ◌≢◌}
use mc_afk_go.Base.Bits.{shl, IsU32, IsU64, bit_or-shl_right}
use mc_afk_go.Io.{Bytes, Error, eof, var_int_too_big, var_long_too_big, Reader}
use mc_afk_go.Io.{done, fail, read_full}
use mc_afk_go.Wire.VarInt.{read_groups, next_byte, read_var_int, read_var_long, max_var_int_len}
use mc_afk_go.Wire.VarInt.Groups.{groups, low_seven, top_bit, shift_seven}
use mc_afk_go.Wire.VarInt.Groups.{groups_one, groups_more}
use mc_afk_go.Io.{source}
use mc_afk_go.Base.{ltb→lt}
use native.Mathlib.Nat.{mod-eq_of_lt, div-add-mod}

-- Either way to read a byte takes the first one.
pub next_byte-cons :
    (c : ℕ) (rest : Bytes) (b : Bool) → next_byte (source (c ∷ rest) b) ≡ done 1 c (source rest b)
unfolding next_byte
next_byte-cons c rest true = refl
next_byte-cons c rest false = unfold read_full in ground arith

pub next_byte-nil : (b : Bool) → next_byte (source [] b) ≡ fail 0 eof
unfolding next_byte
next_byte-nil true = refl
next_byte-nil false = unfold read_full in refl

module _ (wrap : ℕ → ℕ) (too_many : ℕ → Bool) (e : Error) where
  -- One round, on a byte that is there.
  pub read_groups-cons :
      (fuel num v n sec c : ℕ) (rest : Bytes) (b : Bool)
      → bit_and sec 0x80 ≢ 0
      → too_many num ≡ false
      → read_groups wrap too_many e (suc fuel) num v n sec (source (c ∷ rest) b)
        ≡ read_groups wrap too_many e fuel
            (num + 1)
            (bit_or v (wrap (shl (bit_and c 0x7F) (7 * num))))
            (n + 1)
            c
            (source rest b)
  unfolding read_groups
  read_groups-cons fuel num v n sec c rest b more few = ground (arith, next_byte-cons c rest b)

  pub read_groups-last :
      (fuel num v n sec : ℕ) (r : Reader)
      → bit_and sec 0x80 ≡ 0
      → read_groups wrap too_many e (suc fuel) num v n sec r ≡ done n v r
  unfolding read_groups
  read_groups-last fuel num v n sec r last = rw last

  pub read_groups-too_many :
      (fuel num v n sec : ℕ) (r : Reader)
      → bit_and sec 0x80 ≢ 0
      → too_many num ≡ true
      → read_groups wrap too_many e (suc fuel) num v n sec r ≡ fail n e
  unfolding read_groups
  read_groups-too_many fuel num v n sec r more full = ground arith

  pub read_groups-nil :
      (fuel num v n sec : ℕ) (b : Bool)
      → bit_and sec 0x80 ≢ 0
      → too_many num ≡ false
      → read_groups wrap too_many e (suc fuel) num v n sec (source [] b) ≡ fail n eof
  unfolding read_groups
  read_groups-nil fuel num v n sec b more few = ground (arith, next_byte-nil b)

-- Joining the low bits of `c` above the bits that `v` has.
pub join_group :
    (modulus v c num : ℕ)
    → v < 2 ^ (7 * num)
    → v + c % 128 * 2 ^ (7 * num) < modulus
    → bit_or v (shl (bit_and c 0x7F) (7 * num) % modulus) ≡ v + c % 128 * 2 ^ (7 * num)
join_group modulus v c num hv fits =
    rw (low_seven c, mod-eq_of_lt {n = c % 128 * 2 ^ (7 * num)} {m = modulus} (omega arith))
      (bit_or-shl_right (7 * num) (c % 128) v hv)

-- The lowest group of `w` and the rest, both from the bit 7 * num on.
split_group :
    (w num : ℕ) → w * 2 ^ (7 * num) ≡ w % 128 * 2 ^ (7 * num) + w / 128 * 2 ^ (7 * (num + 1))
split_group w num = omega (
  arith,
  ap (λ (t : ℕ). t * 2 ^ (7 * num)) (div-add-mod w 128),
  ap (λ (t : ℕ). w / 128 * t) (shift_seven num),
)

join_bound :
    (v g num : ℕ) → v < 2 ^ (7 * num) → g < 128 → v + g * 2 ^ (7 * num) < 2 ^ (7 * (num + 1))
join_bound v g num hv hg = grind (arith, shift_seven num)

-- The groups of `w`, which count from the bit 7 * num on, are joined to the bits that `v` has.
module _ (modulus : ℕ) (too_many : ℕ → Bool) (e : Error) (top : ℕ)
    (few : (j : ℕ) → j ≤ top → too_many j ≡ false) where
  read_groups-one :
      (num w v n sec fuel : ℕ) (rest : Bytes) (b : Bool)
      → w < 128
      → v < 2 ^ (7 * num)
      → v + w * 2 ^ (7 * num) < modulus
      → num ≤ top
      → 1 < fuel
      → bit_and sec 0x80 ≢ 0
      → read_groups (λ x. x % modulus) too_many e fuel num v n sec (source (w ∷ rest) b)
        ≡ done (n + 1) (v + w * 2 ^ (7 * num)) (source rest b)
  read_groups-one num w v n sec zero rest b hw hv fits hn hf more = absurd (omega arith)
  read_groups-one num w v n sec (suc zero) rest b hw hv fits hn hf more = absurd (omega arith)
  read_groups-one num w v n sec (suc (suc fuel)) rest b hw hv fits hn hf more = ground (
    arith,
    read_groups-cons (λ x. x % modulus) too_many e (suc fuel) num v n sec w rest b more
        (few num hn),
    join_group modulus v w num,
    top_bit w,
    read_groups-last (λ x. x % modulus) too_many e fuel (num + 1) (v + w * 2 ^ (7 * num)) (n + 1) w
        (source rest b),
  )

  read_groups-groups :
      (k num w v n sec fuel : ℕ) (rest : Bytes) (b : Bool)
      → w < 128 ^ suc k
      → v < 2 ^ (7 * num)
      → v + w * 2 ^ (7 * num) < modulus
      → num + k ≤ top
      → k + 1 < fuel
      → bit_and sec 0x80 ≢ 0
      → read_groups (λ x. x % modulus) too_many e fuel num v n sec (source (groups k w ++ rest) b)
        ≡ done (n + length (groups k w)) (v + w * 2 ^ (7 * num)) (source rest b)
  read_groups-groups zero num w v n sec fuel rest b hw hv fits hn hf more =
      unfold groups in
      read_groups-one num w v n sec fuel rest b (omega arith) hv fits (omega arith) (omega arith)
        more
  read_groups-groups (suc k) num w v n sec zero rest b hw hv fits hn hf more = absurd (omega arith)
  read_groups-groups (suc k) num w v n sec (suc fuel) rest b hw hv fits hn hf more =
      elim (Bool-cases (ltb w 128)) [
        | inl small ↦ rw (groups_one (suc k) w (ltb→lt w 128 small)) (
            read_groups-one num w v n sec (suc fuel) rest b (ltb→lt w 128 small) hv fits
              (omega arith) (omega arith) more)
        | inr large ↦
            let g : ℕ = w % 128 in
            rw (groups_more k w (ground arith)) (
              ground (
                arith,
                read_groups-cons (λ x. x % modulus) too_many e fuel num v n sec (g + 128)
                    (groups k (w / 128) ++ rest) b more (few num (omega arith)),
                split_group w num,
                join_group modulus v (g + 128) num,
                join_bound v g num,
                top_bit (g + 128),
                read_groups-groups k (num + 1) (w / 128) (v + g * 2 ^ (7 * num)) (n + 1) (g + 128)
                    fuel rest b (omega arith),
              ))
      ]

-- VarInt.ReadFrom, given the groups of a 32-bit value and more bytes behind them, returns the
-- value and the count of its groups, and leaves what follows, on either kind of reader.
pub read_var_int-groups :
    (v : ℕ) (rest : Bytes) (b : Bool)
    → IsU32 v
    → read_var_int (source (groups 4 v ++ rest) b) ≡ done (length (groups 4 v)) v (source rest b)
unfolding read_var_int
read_var_int-groups v rest b h = ground (
  arith,
  read_groups-groups 0x1_0000_0000 (λ num. ltb max_var_int_len num) var_int_too_big 5
      (λ j le. ground arith) 4 0 v 0 0 0x80 8 rest b,
)

-- VarLong.ReadFrom, given the groups of a 64-bit value and more bytes behind them, returns the
-- value and the count of its groups, and leaves what follows, on either kind of reader.
pub read_var_long-groups :
    (v : ℕ) (rest : Bytes) (b : Bool)
    → IsU64 v
    → read_var_long (source (groups 9 v ++ rest) b) ≡ done (length (groups 9 v)) v (source rest b)
unfolding read_var_long
read_var_long-groups v rest b h = ground (
  arith,
  read_groups-groups 0x1_0000_0000_0000_0000 (λ num. leb 10 num) var_long_too_big 9
      (λ j le. ground arith) 9 0 v 0 0 0x80 12 rest b,
)
