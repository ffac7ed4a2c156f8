-- ===== src/Wire/Fixed.antt =====
-- The types of one fixed size: Boolean to Long, Angle, Float, Double and UUID (net/packet/types.go).
pub mod RoundTrip
use mc_afk_go.Base.{ℕ, zero, suc, ◌+◌, ◌*◌, ◌/◌, ◌%◌, Bool, true, false, not, ◌==◌, if◌then◌else◌}
use mc_afk_go.Base.{List, [], ◌∷◌, length}
use mc_afk_go.Base.Bits.{shr, u8}
use mc_afk_go.Io.{Bytes, Error, eof, Reader, Outcome, done, fail, Decoder, ◌>>=◌, map_value}
use mc_afk_go.Io.{read_full, read_some, Writer, Written, write}

-- `binary.BigEndian.PutUint16`, `PutUint32` and `PutUint64`: the bytes that they store.
unfoldable pub put_uint16 : ℕ → Bytes
put_uint16 v = u8 (shr v 8) ∷ u8 v ∷ []

unfoldable pub put_uint32 : ℕ → Bytes
unfolding put_uint16
put_uint32 v = u8 (shr v 24) ∷ u8 (shr v 16) ∷ put_uint16 v

unfoldable pub put_uint64 : ℕ → Bytes
unfolding put_uint32
put_uint64 v = u8 (shr v 56) ∷ u8 (shr v 48) ∷ u8 (shr v 40) ∷ u8 (shr v 32) ∷ put_uint32 v

-- `binary.BigEndian.Uint16`, `Uint32` and `Uint64`, on a buffer of that size.
pub big_endian : ℕ → Bytes → ℕ
big_endian acc [] = acc
big_endian acc (b ∷ bs) = big_endian (acc * 256 + b) bs

-- A `ReadByte` of the reader itself.
own_read_byte : Bytes → Bool → Outcome ℕ
own_read_byte [] b = fail 1 eof
own_read_byte (c ∷ cs) b = done 1 c (record { input = cs; is_byte_reader = b })

-- `var v [1]byte; n, err := r.Read(v[:]); return int64(n), v[0], err`
one_read : Bytes → Bool → Outcome ℕ
one_read [] b = fail 0 eof
one_read (c ∷ cs) b = done 1 c (record { input = cs; is_byte_reader = b })

-- `readByte`. On a byte reader the count is 1, whatever the error.
pub read_byte : Decoder ℕ
unfolding own_read_byte one_read
read_byte r =
    if r.is_byte_reader
    then own_read_byte r.input r.is_byte_reader
    else one_read r.input r.is_byte_reader

pub write_boolean : Bool → Writer → Written
write_boolean b w = write w ((if b then 0x01 else 0x00) ∷ [])

pub read_boolean : Decoder Bool
unfolding read_byte
read_boolean r = map_value (λ v. not (v == 0)) (read_byte r)

pub write_byte : ℕ → Writer → Written
write_byte b w = write w (u8 b ∷ [])

-- `Byte.ReadFrom`
pub read_signed_byte : Decoder ℕ
unfolding read_byte
read_signed_byte r = read_byte r

pub write_unsigned_byte : ℕ → Writer → Written
write_unsigned_byte u w = write w (u8 u ∷ [])

pub read_unsigned_byte : Decoder ℕ
unfolding read_byte
read_unsigned_byte r = read_byte r

pub write_short : ℕ → Writer → Written
write_short s w = write w (put_uint16 s)

pub read_short : Decoder ℕ
unfolding big_endian
read_short r = map_value (big_endian 0) (read_full 2 r)

pub write_unsigned_short : ℕ → Writer → Written
write_unsigned_short us w = write w (put_uint16 us)

pub read_unsigned_short : Decoder ℕ
unfolding big_endian
read_unsigned_short r = map_value (big_endian 0) (read_full 2 r)

pub write_int : ℕ → Writer → Written
write_int i w = write w (put_uint32 i)

pub read_int : Decoder ℕ
unfolding big_endian
read_int r = map_value (big_endian 0) (read_full 4 r)

pub write_long : ℕ → Writer → Written
write_long l w = write w (put_uint64 l)

pub read_long : Decoder ℕ
unfolding big_endian
read_long r = map_value (big_endian 0) (read_full 8 r)

pub write_angle : ℕ → Writer → Written
unfolding write_byte
write_angle a w = write_byte a w

pub read_angle : Decoder ℕ
unfolding read_signed_byte
read_angle r = read_signed_byte r

-- The array of 16 bytes that a UUID is.
pub write_uuid : Bytes → Writer → Written
write_uuid u w = write w u

pub read_uuid : Decoder Bytes
read_uuid r = read_full 16 r

-- `math.Float32bits` and `math.Float32frombits` are parameters.
module _ {Float : Type 0} (float32bits : Float → ℕ) (float32frombits : ℕ → Float) where
  pub write_float : Float → Writer → Written
  unfolding write_int
  write_float f w = write_int (float32bits f) w

  pub read_float : Decoder Float
  unfolding read_int
  read_float r = map_value float32frombits (read_int r)

module _ {Double : Type 0} (float64bits : Double → ℕ) (float64frombits : ℕ → Double) where
  pub write_double : Double → Writer → Written
  unfolding write_long
  write_double d w = write_long (float64bits d) w

  pub read_double : Decoder Double
  unfolding read_long
  read_double r = map_value float64frombits (read_long r)
