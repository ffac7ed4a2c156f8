-- ===== src/Field.antt =====
-- Fields, and Ary (net/packet/util.go); the children have Opt, Option and Tuple. A FieldEncoder is
-- a value that writes itself; a FieldDecoder reads into the value that its receiver has.
pub mod Optional
pub mod Tuple
pub mod Laws
pub mod Arrays
use mc_afk_go.Base.{ℕ, zero, suc, ◌+◌, ◌%◌, ◌^◌, Bool, true, false, ltb, leb, if◌then◌else◌}
use mc_afk_go.Base.{List, [], ◌∷◌, length, replicate, Option, none, some, not}
use mc_afk_go.Base.Bits.{u8, u16, u32, u64, negative32, negative64}
use mc_afk_go.Io.{Bytes, Error, field, negative_length, Reader, Outcome, done, fail, panic, stuck}
use mc_afk_go.Io.{Decoder, ◌>>=◌, add_count, map_value, Writer, Written, and_then}
use mc_afk_go.Wire.Fixed.{write_byte, read_signed_byte, write_unsigned_byte, read_unsigned_byte}
use mc_afk_go.Wire.Fixed.{write_short, read_short, write_unsigned_short, read_unsigned_short}
use mc_afk_go.Wire.Fixed.{write_int, read_int, write_long, read_long, write_boolean, read_boolean}
use mc_afk_go.Wire.VarInt.{write_var_int, read_var_int, write_var_long, read_var_long}

abbrev pub FieldEncoder : Type 0
FieldEncoder = Writer → Written

abbrev pub FieldDecoder : Type 0 → Type 0
FieldDecoder A = A → Decoder A

-- A type that `Ary` takes for its length: the conversion from an int, and the test `Len < 0`.
pub record LengthType : Type 0 where
  pub convert : ℕ → ℕ
  pub negative : ℕ → Bool
  pub write_to : ℕ → Writer → Written
  pub read_from : Decoder ℕ

abbrev pub var_int_length : LengthType
var_int_length = record {
  convert = u32;
  negative = negative32;
  write_to = write_var_int;
  read_from = read_var_int;
}

abbrev pub var_long_length : LengthType
var_long_length = record {
  convert = u64;
  negative = negative64;
  write_to = write_var_long;
  read_from = read_var_long;
}

abbrev pub byte_length : LengthType
byte_length = record {
  convert = u8;
  negative = λ v. leb 0x80 v;
  write_to = write_byte;
  read_from = read_signed_byte;
}

abbrev pub unsigned_byte_length : LengthType
unsigned_byte_length = record {
  convert = u8;
  negative = λ v. false;
  write_to = write_unsigned_byte;
  read_from = read_unsigned_byte;
}

abbrev pub short_length : LengthType
short_length = record {
  convert = u16;
  negative = λ v. leb 0x8000 v;
  write_to = write_short;
  read_from = read_short;
}

abbrev pub unsigned_short_length : LengthType
unsigned_short_length = record {
  convert = u16;
  negative = λ v. false;
  write_to = write_unsigned_short;
  read_from = read_unsigned_short;
}

abbrev pub int_length : LengthType
int_length = record {
  convert = u32;
  negative = negative32;
  write_to = write_int;
  read_from = read_int;
}

abbrev pub long_length : LengthType
long_length = record {
  convert = u64;
  negative = negative64;
  write_to = write_long;
  read_from = read_long;
}

-- A length that fails returns the count 0, whatever was written.
after_length : Option Error → Written → (Writer → Written) → Written
after_length (some e) o rest = record { count = 0; err = some e; sink = o.sink }
after_length none o rest = let p = rest o.sink in record p { count = o.count + p.count }

module _ {A : Type 0} where
  -- The loop of `Ary.WriteTo`: `n += nn` comes before the test on the error.
  pub write_elements : (A → FieldEncoder) → List A → Writer → Written
  write_elements elem [] w = record { count = 0; err = none; sink = w }
  write_elements elem (x ∷ xs) w = and_then (elem x w) (λ v. write_elements elem xs v)

  -- `Ary.WriteTo`
  pub write_ary : LengthType → (A → FieldEncoder) → List A → Writer → Written
  unfolding write_elements after_length
  write_ary len elem array w =
      let o = len.write_to (len.convert (length array)) w in
      after_length o.err o (λ v. write_elements elem array v)

  -- The loop of `Ary.ReadFrom`, `left` elements from the slice's front: an index past the slice's
  -- end panics, and what lies past the count stays.
  pub read_elements : FieldDecoder A → ℕ → List A → Decoder (List A)
  read_elements elem zero xs r = done 0 xs r
  read_elements elem (suc left) [] r = panic
  read_elements elem (suc left) (x ∷ xs) r =
      elem x r >>= λ y r'. map_value (λ ys. y ∷ ys) (read_elements elem left xs r')

  -- `Ary.ReadFrom` into a slice with those elements and that capacity, given by its pointer. A slice that is large enough
  -- is left as it is: the result of `array.Slice(0, int(Len))` is not used.
  read_ary_body : LengthType → FieldDecoder A → A → ℕ → List A → ℕ → Decoder (List A)
  unfolding read_elements
  read_ary_body len elem zero_value capacity old n r =
      if len.negative n
      then fail 0 negative_length
      else read_elements elem n (if ltb capacity n then replicate n zero_value else old) r

  pub read_ary : LengthType → FieldDecoder A → A → ℕ → List A → Decoder (List A)
  unfolding read_ary_body
  read_ary len elem zero_value capacity old r =
      len.read_from r >>= read_ary_body len elem zero_value capacity old
