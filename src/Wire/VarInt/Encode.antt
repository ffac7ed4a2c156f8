-- ===== src/Wire/VarInt/Encode.antt =====
-- VarInt (net/packet/types.go): `WriteTo`, `WriteToBytes` and `Len` against the groups of seven
-- bits.
use mc_afk_go.Base.{ℕ, zero, suc, ◌+◌, ◌*◌, ◌/◌, ◌%◌, ◌^◌, ◌≤◌, ◌<◌, ◌≡◌, refl, ap, arith}
use mc_afk_go.Base.{bit_and, bit_or, List, [], ◌∷◌, ◌++◌, length, set, drop, replicate}
use mc_afk_go.Base.{some, ◌-◌}
use mc_afk_go.Base.{length-set, take-length_append}
use mc_afk_go.Base.Bits.{shl, shr, u8, u16, u32, IsU32}
use mc_afk_go.Base.Bits.{bit_and-low, bit_and-shl, bit_or-shl}
use mc_afk_go.Io.{Bytes, Writer, write}
use mc_afk_go.Wire.Fixed.{put_uint16, put_uint32}
use mc_afk_go.Wire.VarInt.{
  packed_two, packed_three, packed_four, packed_five, max_var_int_len, var_int_write_to_bytes,
  write_filled, write_var_int,
}
use mc_afk_go.Wire.VarInt.{var_int_len}
use mc_afk_go.Wire.VarInt.Groups.{groups, length-groups, group_byte}

drop-set {ℓ} :
    {A : Type ℓ} (xs : List A) (i : ℕ) (v : A)
    → i < length xs
    → drop i (set xs i v) ≡ v ∷ drop (suc i) xs
drop-set [] i v h = absurd (omega arith)
drop-set (x ∷ xs) zero v h = refl
drop-set (x ∷ xs) (suc i) v h = drop-set xs i v (omega arith)

pack16 : (a b : ℕ) → a < 256 → b < 256 → put_uint16 (u16 (bit_or (u32 (shl a 8)) b)) ≡ a ∷ b ∷ []
unfolding put_uint16
pack16 a b ha hb = ground (arith, bit_or-shl 8 a b)

pack32 :
    (a b c d : ℕ)
    → a < 256
    → b < 256
    → c < 256
    → d < 256
    → put_uint32 (bit_or (bit_or (bit_or (u32 (shl a 24)) (u32 (shl b 16))) (u32 (shl c 8))) d)
      ≡ a ∷ b ∷ c ∷ d ∷ []
unfolding put_uint32
pack32 a b c d ha hb hc hd = ground (
  arith,
  bit_or-shl 24 a (b * 2 ^ 16),
  bit_or-shl 16 (a * 256 + b) (c * 2 ^ 8),
  bit_or-shl 8 (a * 65536 + b * 256 + c) d,
)

mask7 : (v : ℕ) → bit_and v 0xFFFF_FF80 ≡ v / 128 % 2 ^ 25 * 128
mask7 v = ground (arith, bit_and-shl 7 (2 ^ 25 - 1) v, bit_and-low 25 (v / 128))

mask14 : (v : ℕ) → bit_and v 0xFFFF_C000 ≡ v / 2 ^ 14 % 2 ^ 18 * 2 ^ 14
mask14 v = ground (arith, bit_and-shl 14 (2 ^ 18 - 1) v, bit_and-low 18 (v / 2 ^ 14))

mask21 : (v : ℕ) → bit_and v 0xFFE0_0000 ≡ v / 2 ^ 21 % 2 ^ 11 * 2 ^ 21
mask21 v = ground (arith, bit_and-shl 21 (2 ^ 11 - 1) v, bit_and-low 11 (v / 2 ^ 21))

mask28 : (v : ℕ) → bit_and v 0xF000_0000 ≡ v / 2 ^ 28 % 2 ^ 4 * 2 ^ 28
mask28 v = ground (arith, bit_and-shl 28 15 v, bit_and-low 4 (v / 2 ^ 28))

store_two : (v : ℕ) → v < 2 ^ 14 → put_uint16 (packed_two v) ≡ (v % 128 + 128) ∷ v / 128 ∷ []
unfolding packed_two
store_two v h = rw group_byte (pack16 (v % 128 + 128) (v / 128) (omega arith) (omega arith))

store_three : (v : ℕ) → put_uint16 (packed_three v) ≡ (v % 128 + 128) ∷ (v / 128 % 128 + 128) ∷ []
unfolding packed_three
store_three v =
    rw (group_byte v, group_byte (v / 128))
      (pack16 (v % 128 + 128) (v / 128 % 128 + 128) (omega arith) (omega arith))

store_four :
    (v : ℕ)
    → v < 2 ^ 28
    → put_uint32 (packed_four v)
      ≡ (v % 128 + 128) ∷ (v / 128 % 128 + 128) ∷ (v / 2 ^ 14 % 128 + 128) ∷ v / 2 ^ 21 ∷ []
unfolding packed_four
store_four v h =
    rw (group_byte v, group_byte (v / 128), group_byte (v / 2 ^ 14))
      (pack32 (v % 128 + 128) (v / 128 % 128 + 128) (v / 2 ^ 14 % 128 + 128) (v / 2 ^ 21)
        (omega arith) (omega arith) (omega arith) (omega arith))

store_five :
    (v : ℕ)
    → put_uint32 (packed_five v)
      ≡ (v % 128 + 128)
        ∷ (v / 128 % 128 + 128)
        ∷ (v / 2 ^ 14 % 128 + 128)
        ∷ (v / 2 ^ 21 % 128 + 128)
        ∷ []
unfolding packed_five
store_five v =
    rw (group_byte v, group_byte (v / 128), group_byte (v / 2 ^ 14), group_byte (v / 2 ^ 21))
      (pack32 (v % 128 + 128) (v / 128 % 128 + 128) (v / 2 ^ 14 % 128 + 128)
        (v / 2 ^ 21 % 128 + 128) (omega arith) (omega arith) (omega arith) (omega arith))

abbrev Stores : ℕ → Bytes → Bytes → Type 0
Stores v bs buf = var_int_write_to_bytes v buf ≡ some (length bs, bs ++ drop (length bs) buf)

Stores-one : (v x : ℕ) (buf : Bytes) → v < 2 ^ 7 → Stores v (v ∷ []) (x ∷ buf)
unfolding var_int_write_to_bytes
Stores-one v x buf h = ground (arith, mask7 v)

Stores-two :
    (v : ℕ) (buf : Bytes)
    → 2 ^ 7 ≤ v
    → v < 2 ^ 14
    → 2 ≤ length buf
    → Stores v ((v % 128 + 128) ∷ v / 128 ∷ []) buf
unfolding var_int_write_to_bytes
Stores-two v buf lo h fits = ground (arith, mask7 v, mask14 v, store_two v)

Stores-three :
    (v : ℕ) (buf : Bytes)
    → 2 ^ 14 ≤ v
    → v < 2 ^ 21
    → 3 ≤ length buf
    → Stores v ((v % 128 + 128) ∷ (v / 128 % 128 + 128) ∷ v / 128 / 128 ∷ []) buf
unfolding var_int_write_to_bytes
Stores-three v buf lo h fits = ground (
  arith,
  mask7 v,
  mask14 v,
  mask21 v,
  store_three v,
  drop-set buf 2 (u8 (shr v 14)),
  length-set buf 2 (u8 (shr v 14)),
)

Stores-four :
    (v : ℕ) (buf : Bytes)
    → 2 ^ 21 ≤ v
    → v < 2 ^ 28
    → 4 ≤ length buf
    → Stores v
        ((v % 128 + 128)
          ∷ (v / 128 % 128 + 128)
          ∷ (v / 128 / 128 % 128 + 128)
          ∷ v / 128 / 128 / 128
          ∷ [])
        buf
unfolding var_int_write_to_bytes
Stores-four v buf lo h fits = ground (arith, mask7 v, mask14 v, mask21 v, mask28 v, store_four v)

Stores-five :
    (v : ℕ) (buf : Bytes)
    → 2 ^ 28 ≤ v
    → IsU32 v
    → 5 ≤ length buf
    → Stores v
        ((v % 128 + 128)
          ∷ (v / 128 % 128 + 128)
          ∷ (v / 128 / 128 % 128 + 128)
          ∷ (v / 128 / 128 / 128 % 128 + 128)
          ∷ v / 128 / 128 / 128 / 128
          ∷ [])
        buf
unfolding var_int_write_to_bytes
Stores-five v buf lo h fits = ground (
  arith,
  mask7 v,
  mask14 v,
  mask21 v,
  mask28 v,
  store_five v,
  drop-set buf 4 (u8 (shr v 28)),
  length-set buf 4 (u8 (shr v 28)),
)

-- `VarInt.Len` is the count of groups.
pub var_int_len-groups : (v : ℕ) → IsU32 v → var_int_len v ≡ length (groups 4 v)
unfolding var_int_len groups
var_int_len-groups v h = ground arith

-- VarInt.WriteToBytes of a 32-bit value into a buffer with room for its groups stores them at
-- the front, returns their count, and leaves the rest of the buffer.
pub var_int_write_to_bytes-groups :
    (v : ℕ) (buf : Bytes)
    → IsU32 v
    → length (groups 4 v) ≤ length buf
    → var_int_write_to_bytes v buf
      ≡ some (length (groups 4 v), groups 4 v ++ drop (length (groups 4 v)) buf)
unfolding groups
var_int_write_to_bytes-groups v [] h fits = absurd (omega (arith, length-groups 4 v))
var_int_write_to_bytes-groups v (x ∷ buf) h fits = ground (
  arith,
  Stores-one v x buf,
  Stores-two v (x ∷ buf),
  Stores-three v (x ∷ buf),
  Stores-four v (x ∷ buf),
  Stores-five v (x ∷ buf),
)

-- VarInt.WriteTo of a 32-bit value, which packs the bytes with masks and shifts, is one Write
-- of the value's groups of seven bits, lowest first, on every writer, one that fails included.
pub write_var_int-groups : (v : ℕ) (w : Writer) → IsU32 v → write_var_int v w ≡ write w (groups 4 v)
unfolding write_var_int write_filled
write_var_int-groups v w h =
    rw
      (var_int_write_to_bytes-groups v (replicate max_var_int_len 0) h
        (omega (arith, length-groups 4 v)))
      (ap (write w) (take-length_append (groups 4 v) _))
