-- ===== src/Wire/Text.antt =====
-- The types with a length before them, and those that run to the end (net/packet/types.go): String,
-- ByteArray, BitSet, PluginMessageData and FixedBitSet.
pub mod RoundTrip
use mc_afk_go.Base.{
  ℕ, zero, suc, ◌+◌, Bool, true, false, if◌then◌else◌, List, [], ◌∷◌, ◌++◌, length,
}
use mc_afk_go.Base.{Option, none, some}
use mc_afk_go.Base.Bits.{u32, negative32}
use mc_afk_go.Io.{
  Bytes, Error, Reader, Outcome, done, fail, panic, stuck, Decoder, ◌>>=◌, add_count,
}
use mc_afk_go.Io.{map_value, read_full, read_some, read_all, Writer, Written, write, and_then}
use mc_afk_go.Wire.Fixed.{write_long, read_long}
use mc_afk_go.Wire.VarInt.{write_var_int, read_var_int}

-- A length is converted to a VarInt, which keeps its low 32 bits.
pub write_string : Bytes → Writer → Written
write_string s w = and_then (write_var_int (u32 (length s)) w) (λ v. write v s)

-- `make([]byte, stringLength)` panics on a negative length. The bytes of a read that ends too early
-- are not counted.
read_string_bytes : ℕ → Decoder Bytes
read_string_bytes len r = if negative32 len then panic else elim (read_full len r) [
  | done n bs r' ↦ done len bs r'
  | fail n e ↦ fail 0 e
  | panic ↦ panic
  | stuck ↦ stuck
]

pub read_string : Decoder Bytes
unfolding read_string_bytes
read_string r = read_var_int r >>= read_string_bytes

pub write_byte_array : Bytes → Writer → Written
write_byte_array b w = and_then (write_var_int (u32 (length b)) w) (λ v. write v b)

-- A negative length is below the capacity of any slice, and `(*b)[:Len]` panics.
read_byte_array_bytes : ℕ → Decoder Bytes
read_byte_array_bytes len r = if negative32 len then panic else read_full len r

pub read_byte_array : Decoder Bytes
unfolding read_byte_array_bytes
read_byte_array r = read_var_int r >>= read_byte_array_bytes

pub write_longs : List ℕ → Writer → Written
write_longs [] w = record { count = 0; err = none; sink = w }
write_longs (x ∷ xs) w = and_then (write_long x w) (λ v. write_longs xs v)

pub write_bit_set : List ℕ → Writer → Written
unfolding write_longs
write_bit_set b w = and_then (write_var_int (u32 (length b)) w) (λ v. write_longs b v)

pub read_longs : ℕ → Decoder (List ℕ)
read_longs zero r = done 0 [] r
read_longs (suc k) r = read_long r >>= λ x r'. map_value (λ xs. x ∷ xs) (read_longs k r')

read_bit_set_longs : ℕ → Decoder (List ℕ)
unfolding read_longs
read_bit_set_longs len r = if negative32 len then panic else read_longs len r

pub read_bit_set : Decoder (List ℕ)
unfolding read_bit_set_longs
read_bit_set r = read_var_int r >>= read_bit_set_longs

pub write_plugin_message_data : Bytes → Writer → Written
write_plugin_message_data p w = write w p

pub read_plugin_message_data : Decoder Bytes
read_plugin_message_data r = read_all r

pub write_fixed_bit_set : Bytes → Writer → Written
write_fixed_bit_set f w = write w f

-- One Read into the slice that the caller gives, which a short source fills in part.
pub read_fixed_bit_set : Bytes → Decoder Bytes
read_fixed_bit_set f r = read_some f r
