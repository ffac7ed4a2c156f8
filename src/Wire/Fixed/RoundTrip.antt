-- ===== src/Wire/Fixed/RoundTrip.antt =====
-- The fixed-size types of net/packet/types.go: what is written, and its reading.
use mc_afk_go.Base.{ℕ, ◌≡◌, refl, ap, arith}
use mc_afk_go.Base.{Bool, true, false, [], ◌∷◌, ◌++◌, if◌then◌else◌}
use mc_afk_go.Base.Bits.{IsByte, IsU16, IsU32, IsU64}
use mc_afk_go.Io.{fail, eof, read_full, Bytes, source, done, Writer, write}
use mc_afk_go.Io.{buffer}
use mc_afk_go.Io.Laws.{read_full-append_of, RoundTrips, RoundTrips-encoded}
use mc_afk_go.Wire.Fixed.{put_uint16, put_uint32, put_uint64, big_endian, read_byte}
use mc_afk_go.Wire.Fixed.{write_boolean, read_boolean, write_byte, read_signed_byte}
use mc_afk_go.Wire.Fixed.{write_short, read_short, write_int, read_int, write_long, read_long}
use mc_afk_go.Wire.Fixed.{write_float, read_float}

pub read_byte-cons :
    (c : ℕ) (rest : Bytes) (b : Bool) → read_byte (source (c ∷ rest) b) ≡ done 1 c (source rest b)
unfolding read_byte
read_byte-cons c rest true = refl
read_byte-cons c rest false = refl

pub big_endian-put_uint16 : (v : ℕ) → IsU16 v → big_endian 0 (put_uint16 v) ≡ v
unfolding big_endian put_uint16
big_endian-put_uint16 v h = omega arith

pub big_endian-put_uint32 : (v : ℕ) → IsU32 v → big_endian 0 (put_uint32 v) ≡ v
unfolding big_endian put_uint32
big_endian-put_uint32 v h = omega arith

pub big_endian-put_uint64 : (v : ℕ) → IsU64 v → big_endian 0 (put_uint64 v) ≡ v
unfolding big_endian put_uint64
big_endian-put_uint64 v h = omega arith

pub read_boolean-encoded :
    (v : Bool) (rest : Bytes) (b : Bool)
    → read_boolean (source ((if v then 1 else 0) ∷ rest) b) ≡ done 1 v (source rest b)
unfolding read_boolean
read_boolean-encoded true rest b = rw (read_byte-cons 1 rest b)
read_boolean-encoded false rest b = rw (read_byte-cons 0 rest b)

pub read_short-put :
    (v : ℕ) (rest : Bytes) (b : Bool)
    → IsU16 v
    → read_short (source (put_uint16 v ++ rest) b) ≡ done 2 v (source rest b)
unfolding read_short put_uint16
read_short-put v rest b h =
    rw (read_full-append_of 2 (put_uint16 v) rest b refl, big_endian-put_uint16 v h)

pub read_short-nil : (b : Bool) → read_short (source [] b) ≡ fail 0 eof
unfolding read_short read_full
read_short-nil b = refl

pub read_int-put :
    (v : ℕ) (rest : Bytes) (b : Bool)
    → IsU32 v
    → read_int (source (put_uint32 v ++ rest) b) ≡ done 4 v (source rest b)
unfolding read_int put_uint32
read_int-put v rest b h =
    rw (read_full-append_of 4 (put_uint32 v) rest b refl, big_endian-put_uint32 v h)

pub read_long-put :
    (v : ℕ) (rest : Bytes) (b : Bool)
    → IsU64 v
    → read_long (source (put_uint64 v ++ rest) b) ≡ done 8 v (source rest b)
unfolding read_long put_uint64
read_long-put v rest b h =
    rw (read_full-append_of 8 (put_uint64 v) rest b refl, big_endian-put_uint64 v h)

pub write_boolean-byte :
    (v : Bool) (w : Writer) → write_boolean v w ≡ write w ((if v then 1 else 0) ∷ [])
unfolding write_boolean
write_boolean-byte v w = refl

pub write_short-put : (v : ℕ) (w : Writer) → write_short v w ≡ write w (put_uint16 v)
unfolding write_short
write_short-put v w = refl

pub write_int-put : (v : ℕ) (w : Writer) → write_int v w ≡ write w (put_uint32 v)
unfolding write_int
write_int-put v w = refl

pub write_long-put : (v : ℕ) (w : Writer) → write_long v w ≡ write w (put_uint64 v)
unfolding write_long
write_long-put v w = refl

write_byte-byte : (v : ℕ) → IsByte v → write_byte v (buffer []) ≡ write (buffer []) (v ∷ [])
unfolding write_byte
write_byte-byte v h = ap (λ (c : ℕ). write (buffer []) (c ∷ [])) (omega arith)

read_signed_byte-cons :
    (c : ℕ) (rest : Bytes) (b : Bool)
    → read_signed_byte (source (c ∷ rest) b) ≡ done 1 c (source rest b)
unfolding read_signed_byte
read_signed_byte-cons c rest b = read_byte-cons c rest b

-- Boolean, Byte, Short, Int and Long: what WriteTo of a value of that width puts into a buffer,
-- ReadFrom reads back with the same count.
pub fixed_sizes_round_trip :
    (flag : Bool) (byte short int long : ℕ) (rest : Bytes) (b : Bool)
    → IsByte byte
    → IsU16 short
    → IsU32 int
    → IsU64 long
    → RoundTrips write_boolean read_boolean flag rest b
      × RoundTrips write_byte read_signed_byte byte rest b
      × RoundTrips write_short read_short short rest b
      × RoundTrips write_int read_int int rest b
      × RoundTrips write_long read_long long rest b
unfolding put_uint16 put_uint32 put_uint64
fixed_sizes_round_trip flag byte short int long rest b hb hs hi hl = (
  RoundTrips-encoded write_boolean read_boolean flag _ rest b (write_boolean-byte flag _)
      (read_boolean-encoded flag rest b),
  RoundTrips-encoded write_byte read_signed_byte byte (byte ∷ []) rest b (write_byte-byte byte hb)
      (read_signed_byte-cons byte rest b),
  RoundTrips-encoded write_short read_short short (put_uint16 short) rest b
      (write_short-put short _) (read_short-put short rest b hs),
  RoundTrips-encoded write_int read_int int (put_uint32 int) rest b (write_int-put int _)
      (read_int-put int rest b hi),
  RoundTrips-encoded write_long read_long long (put_uint64 long) rest b (write_long-put long _)
      (read_long-put long rest b hl),
)

-- Float and Double go through the bits of Int and Long.
module _ {Float : Type 0} (float32bits : Float → ℕ) (float32frombits : ℕ → Float) where
  pub float_round_trip :
      (f : Float) (rest : Bytes) (b : Bool)
      → IsU32 (float32bits f)
      → float32frombits (float32bits f) ≡ f
      → RoundTrips
          (write_float float32bits float32frombits)
          (read_float float32bits float32frombits)
          f
          rest
          b
  unfolding write_float read_float put_uint32
  float_round_trip f rest b h e =
      RoundTrips-encoded (write_float float32bits float32frombits)
        (read_float float32bits float32frombits) f (put_uint32 (float32bits f)) rest b
        (write_int-put _ _)
        (rw (read_int-put (float32bits f) rest b h)
          (ap (λ (g : Float). done 4 g (source rest b)) e))
