-- ===== src/Wire/Position.antt =====
-- Position (net/packet/types.go): three signed coordinates in one 64-bit word. A coordinate is the
-- bit pattern of a Go `int`, which has 64 bits.
pub mod RoundTrip
use mc_afk_go.Base.{ℕ, zero, suc, ◌+◌, ◌-◌, ◌^◌, if◌then◌else◌, bit_and, bit_or, replicate, set}
use mc_afk_go.Base.Bits.{shl, shr, u8, u64, negative64}
use mc_afk_go.Io.{Bytes, Decoder, Writer, Written, write, map_value}
use mc_afk_go.Wire.Fixed.{read_long}

pub record Position : Type 0 where
  pub x : ℕ
  pub y : ℕ
  pub z : ℕ

-- `>>` on an int64 fills with the sign bit.
abbrev pub sar64 : ℕ → ℕ → ℕ
sar64 v k = if negative64 v then shr v k + (2 ^ 64 - 2 ^ (64 - k)) else shr v k

pub packed : Position → ℕ
packed p =
    bit_or (bit_or (u64 (shl (bit_and p.x 0x3FF_FFFF) 38)) (u64 (shl (bit_and p.z 0x3FF_FFFF) 12)))
      (bit_and p.y 0xFFF)

-- `for i := 7; i >= 0; i-- { b[i] = byte(position); position >>= 8 }`, with `left` rounds to go.
fill_down : ℕ → ℕ → Bytes → Bytes
fill_down zero position b = b
fill_down (suc i) position b = fill_down i (shr position 8) (set b i (u8 position))

pub write_position : Position → Writer → Written
unfolding packed fill_down
write_position p w = write w (fill_down 8 (packed p) (replicate 8 0))

unpacked : ℕ → Position
unpacked v = record { x = sar64 v 38; y = sar64 (u64 (shl v 52)) 52; z = sar64 (u64 (shl v 26)) 38 }

pub read_position : Decoder Position
unfolding unpacked
read_position r = map_value unpacked (read_long r)
