-- ===== src/Cfb8.antt =====
-- The CFB8 stream cipher (net/CFB8/cfb8.go), by its byte loop. The block cipher is a parameter:
-- `encrypt` is what Encrypt makes of a block. A panic is `none`.
pub mod Window
pub mod Reference
use mc_afk_go.Base.{
  ℕ, zero, suc, ◌+◌, ◌-◌, ◌*◌, Bool, true, false, ltb, leb, ◌==◌, ◌||◌, if◌then◌else◌,
}
use mc_afk_go.Base.{
  List, [], ◌∷◌, ◌++◌, length, take, drop, get_elem?, set, replicate, Option, none, some,
}
use mc_afk_go.Base.{bit_and, bit_xor}
use mc_afk_go.Base.Bits.{shl}
use mc_afk_go.Io.{Bytes}

pub record Cfb8 : Type 0 where
  pub block_size : ℕ
  pub iv_pos : ℕ
  pub iv : Bytes
  pub de : Bool

-- `newCFB8`: the vector stands at the front of an array three times its size.
pub new_cfb8 : ℕ → Bytes → Bool → Cfb8
new_cfb8 block_size iv de = record {
  block_size = block_size;
  iv_pos = 0;
  iv = iv ++ replicate (2 * length iv) 0;
  de = de;
}

-- `copy(xs[i:], ys)`, as much as fits.
abbrev pub copy_at : Bytes → ℕ → Bytes → Bytes
copy_at xs zero [] = xs
copy_at [] i ys = []
copy_at (x ∷ xs) zero (y ∷ ys) = y ∷ copy_at xs zero ys
copy_at (x ∷ xs) (suc i) ys = x ∷ copy_at xs i ys

-- `xs[i] = v`
store : Bytes → ℕ → ℕ → Option Bytes
store xs i v = if ltb i (length xs) then some (set xs i v) else none

-- The vector with its feedback stored.
stored : Cfb8 → ℕ → Option Bytes → ℕ → Option (Cfb8 × ℕ)
stored cf pos none val = none
stored cf pos (some iv) val = some (record cf { iv = iv; iv_pos = pos }, val)

-- The end of a round, when `val` is known.
feed_back : Cfb8 → ℕ → ℕ → Option (Cfb8 × ℕ)
unfolding store stored
feed_back cf src val =
    let feedback = if cf.de then src else val in
    if cf.iv_pos == shl cf.block_size 1
    then stored cf 0
        (store (copy_at cf.iv 0 (drop (cf.iv_pos + 1) cf.iv)) (cf.block_size - 1) feedback) val
    else stored cf (cf.iv_pos + 1) (store cf.iv (cf.iv_pos + cf.block_size) feedback) val

-- `val ^= cf.iv[tempPos]`
mask : Cfb8 → ℕ → Option ℕ → Option (Cfb8 × ℕ)
unfolding feed_back
mask cf src none = none
mask cf src (some key) = feed_back cf src (bit_xor src key)

prepend : ℕ → Option (Cfb8 × Bytes) → Option (Cfb8 × Bytes)
prepend val none = none
prepend val (some (cf, dst)) = some (cf, val ∷ dst)

-- `dst[i] = val`, and the rounds that follow.
go_on : Option (Cfb8 × ℕ) → (Cfb8 → Option (Cfb8 × Bytes)) → Option (Cfb8 × Bytes)
unfolding prepend
go_on none rest = none
go_on (some (cf, val)) rest = prepend val (rest cf)

module _ (encrypt : Bytes → Bytes) where
  -- A round of the loop: the output byte, with the state after it. Encrypt panics where its
  -- argument or its result is less than a block.
  pub xor_byte : Cfb8 → ℕ → Option (Cfb8 × ℕ)
  unfolding mask
  xor_byte cf src =
      let pos_plus_block_size = cf.iv_pos + cf.block_size in
      let temp_pos = bit_and pos_plus_block_size (shl cf.block_size 1 - 1) in
      let block = encrypt (take cf.block_size (drop cf.iv_pos cf.iv)) in
      let iv = copy_at cf.iv temp_pos block in
      if ltb (length cf.iv) pos_plus_block_size || ltb (length cf.iv) (temp_pos + cf.block_size)
      then none
      else mask (record cf { iv = iv }) src (get_elem? iv temp_pos)

  -- `xorKeyStream`, for a `dst` that is `src` or does not overlap it.
  pub xor_key_stream : Cfb8 → Bytes → Option (Cfb8 × Bytes)
  unfolding xor_byte go_on
  xor_key_stream cf [] = some (cf, [])
  xor_key_stream cf (val ∷ src) = go_on (xor_byte cf val) (λ next. xor_key_stream next src)
