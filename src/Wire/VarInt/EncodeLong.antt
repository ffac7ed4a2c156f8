-- ===== src/Wire/VarInt/EncodeLong.antt =====
-- VarLong (net/packet/types.go): `WriteTo`, `WriteToBytes` and `Len` against the groups of seven
-- bits.
use mc_afk_go.Base.{ℕ, zero, suc, ◌+◌, ◌/◌, ◌%◌, ◌^◌, ◌≤◌, ◌<◌, ◌≡◌, refl, ap, arith}
use mc_afk_go.Base.{List, [], ◌∷◌, ◌++◌, length, set, take, drop, replicate}
use mc_afk_go.Base.{ltb, some, Bool-cases, inl, inr, ◌-◌}
use mc_afk_go.Base.{length-set, take-length_append, append_assoc}
use mc_afk_go.Base.Bits.{u8, IsU64}
use native.Mathlib.Numerals.{add-one}
use mc_afk_go.Io.{Bytes, Writer, write}
use mc_afk_go.Wire.VarInt.{max_var_long_len, write_filled}
use mc_afk_go.Wire.VarInt.{var_long_len, var_long_fill, var_long_write_to_bytes}
use mc_afk_go.Wire.VarInt.{write_var_long}
use mc_afk_go.Wire.VarInt.Groups.{groups, length-groups, group_byte, groups_one, groups_more}

pub var_long_len-groups : (v : ℕ) → IsU64 v → var_long_len v ≡ length (groups 9 v)
unfolding var_long_len groups
var_long_len-groups v h = ground arith

module _ {ℓ} {A : Type ℓ} where
  set-split :
      (xs : List A) (i : ℕ) (v : A) → i < length xs → set xs i v ≡ take i xs ++ v ∷ drop (suc i) xs
  set-split [] i v h = absurd (omega arith)
  set-split (x ∷ xs) zero v h = refl
  set-split (x ∷ xs) (suc i) v h = ap (◌∷◌ x) (set-split xs i v (omega arith))

  take-set :
      (xs : List A) (i : ℕ) (v : A)
      → i < length xs
      → take (suc i) (set xs i v) ≡ take i xs ++ v ∷ []
  take-set [] i v h = absurd (omega arith)
  take-set (x ∷ xs) zero v h = refl
  take-set (x ∷ xs) (suc i) v h = ap (◌∷◌ x) (take-set xs i v (omega arith))

  drop-set_past : (xs : List A) (i j : ℕ) (v : A) → i < j → drop j (set xs i v) ≡ drop j xs
  drop-set_past [] i j v h = refl
  drop-set_past (x ∷ xs) i zero v h = absurd (omega arith)
  drop-set_past (x ∷ xs) zero (suc j) v h = refl
  drop-set_past (x ∷ xs) (suc i) (suc j) v h = drop-set_past xs i j v (omega arith)

-- The loop writes the groups over the bytes from `i` on.
fill_last :
    (left i v : ℕ) (buf : Bytes)
    → v < 128
    → 1 ≡ suc left
    → i + left < length buf
    → var_long_fill left i v buf ≡ take i buf ++ v ∷ drop (i + suc left) buf
unfolding var_long_fill
fill_last zero i v buf h e fits = rw add-one (ground (arith, set-split buf i (u8 v)))
fill_last (suc left) i v buf h e fits = absurd (omega arith)

fill_step :
    (left i v : ℕ) (buf : Bytes)
    → var_long_fill (suc left) i v buf
      ≡ var_long_fill left (suc i) (v / 128) (set buf i (v % 128 + 128))
unfolding var_long_fill
fill_step left i v buf = rw (add-one, group_byte v) (ground arith)

var_long_fill-groups :
    (k left i v : ℕ) (buf : Bytes)
    → v < 128 ^ suc k
    → length (groups k v) ≡ suc left
    → i + left < length buf
    → var_long_fill left i v buf ≡ take i buf ++ groups k v ++ drop (i + suc left) buf
var_long_fill-groups zero left i v buf h e fits =
    unfold groups in
    ground
      (arith, fill_last left i v buf, append_assoc (take i buf) (v ∷ []) (drop (i + suc left) buf))
var_long_fill-groups (suc k) zero i v buf h e fits = ground (
  arith,
  groups_one (suc k) v,
  groups_more k v,
  length-groups k (v / 128),
  fill_last 0 i v buf,
  append_assoc (take i buf) (v ∷ []) (drop (i + 1) buf),
)
var_long_fill-groups (suc k) (suc left) i v buf h e fits = elim (Bool-cases (ltb v 128)) [
  | inl small ↦ ground (arith, groups_one (suc k) v)
  | inr large ↦
      let b : ℕ = v % 128 + 128 in
      let tail : Bytes = groups k (v / 128) in
      (ground (
        arith,
        fill_step left i v buf,
        groups_more k v,
        var_long_fill-groups k left (suc i) (v / 128) (set buf i b),
        length-set buf i b,
        take-set buf i b,
        drop-set_past buf i (suc i + suc left) b,
        append_assoc (take i buf) (b ∷ []) tail,
      ))
]

-- `VarLong.WriteToBytes` stores the groups at the front of the buffer and leaves the rest.
pub var_long_write_to_bytes-groups :
    (v : ℕ) (buf : Bytes)
    → IsU64 v
    → length (groups 9 v) ≤ length buf
    → var_long_write_to_bytes v buf
      ≡ some (length (groups 9 v), groups 9 v ++ drop (length (groups 9 v)) buf)
unfolding var_long_write_to_bytes
var_long_write_to_bytes-groups v buf h fits = ground (
  arith,
  var_long_len-groups v h,
  length-groups 9 v,
  var_long_fill-groups 9 (length (groups 9 v) - 1) 0 v buf (omega arith),
)

-- VarLong.WriteTo of a 64-bit value is one Write of the value's groups of seven bits, lowest
-- first, on every writer, one that fails included.
pub write_var_long-groups :
    (v : ℕ) (w : Writer) → IsU64 v → write_var_long v w ≡ write w (groups 9 v)
unfolding write_var_long write_filled
write_var_long-groups v w h =
    rw
      (var_long_write_to_bytes-groups v (replicate max_var_long_len 0) h
        (omega (arith, length-groups 9 v)))
      (ap (write w) (take-length_append (groups 9 v) _))
