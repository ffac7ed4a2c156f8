-- ===== src/Wire/VarInt.antt =====
-- VarInt and VarLong (net/packet/types.go), and the byte reader that they read from
-- (net/packet/util.go).
pub mod Groups
pub mod Encode
pub mod EncodeLong
pub mod Decode
pub mod Bounds
use mc_afk_go.Base.{ℕ, zero, suc, ◌+◌, ◌*◌, ◌-◌, ◌/◌, ◌%◌, Bool, true, false, not, ltb, leb, ◌==◌}
use mc_afk_go.Base.{bit_and, bit_or, List, [], ◌∷◌, ◌++◌, length, take, drop, set, replicate}
use mc_afk_go.Base.{Option, none, some, if◌then◌else◌}
use mc_afk_go.Base.Bits.{shl, shr, u8, u16, u32, u64, negative32, negative64}
use mc_afk_go.Io.{Bytes, Error, eof, var_int_too_big, var_long_too_big, Reader, Outcome}
use mc_afk_go.Io.{done, fail, panic, stuck, Decoder, read_full, map_value, Writer, Written, write}
use mc_afk_go.Wire.Fixed.{put_uint16, put_uint32}

abbrev pub max_var_int_len : ℕ
max_var_int_len = 5

abbrev pub max_var_long_len : ℕ
max_var_long_len = 10

-- `buf[i] = v`, and `binary.BigEndian.PutUint16(buf, v)` and its like; `none` is the panic on a
-- buffer that is too short.
abbrev pub set_byte : ℕ → ℕ → Bytes → Option Bytes
set_byte i v buf = if ltb i (length buf) then some (set buf i v) else none

abbrev pub put_front : Bytes → Bytes → Option Bytes
put_front bs buf = if leb (length bs) (length buf) then some (bs ++ drop (length bs) buf) else none

infixl 5 ◌>>=◌
abbrev ◌>>=◌ {ℓ κ} : {A : Type ℓ} {B : Type κ} → Option A → (A → Option B) → Option B
none >>= f = none
some a >>= f = f a

-- The bytes that the forms of two to five bytes store by one `PutUint16` or `PutUint32`.
packed_two : ℕ → ℕ
packed_two num = u16 (bit_or (u32 (shl (bit_or (bit_and num 0x7F) 0x80) 8)) (shr num 7))

packed_three : ℕ → ℕ
packed_three num =
    u16 (
      bit_or (u32 (shl (bit_or (bit_and num 0x7F) 0x80) 8))
        (bit_or (bit_and (shr num 7) 0x7F) 0x80))

packed_four : ℕ → ℕ
packed_four num =
    bit_or
      (bit_or
        (bit_or (u32 (shl (bit_or (bit_and num 0x7F) 0x80) 24))
          (u32 (shl (bit_or (bit_and (shr num 7) 0x7F) 0x80) 16)))
        (u32 (shl (bit_or (bit_and (shr num 14) 0x7F) 0x80) 8)))
      (shr num 21)

packed_five : ℕ → ℕ
packed_five num =
    bit_or
      (bit_or
        (bit_or (u32 (shl (bit_or (bit_and num 0x7F) 0x80) 24))
          (u32 (shl (bit_or (bit_and (shr num 7) 0x7F) 0x80) 16)))
        (u32 (shl (bit_or (bit_and (shr num 14) 0x7F) 0x80) 8)))
      (bit_or (bit_and (shr num 21) 0x7F) 0x80)

-- `VarInt.WriteToBytes`: the count, and the buffer as it is left.
pub var_int_write_to_bytes : ℕ → Bytes → Option (ℕ × Bytes)
var_int_write_to_bytes num buf =
    if bit_and num 0xFFFF_FF80 == 0
    then (do out ← set_byte 0 (u8 num) buf; some (1, out))
    else if bit_and num 0xFFFF_C000 == 0
    then (do out ← put_front (put_uint16 (packed_two num)) buf; some (2, out))
    else if bit_and num 0xFFE0_0000 == 0
    then (do
      high ← set_byte 2 (u8 (shr num 14)) buf
      out ← put_front (put_uint16 (packed_three num)) high
      some (3, out))
    else if bit_and num 0xF000_0000 == 0
    then (do out ← put_front (put_uint32 (packed_four num)) buf; some (4, out))
    else (do
      high ← set_byte 4 (u8 (shr num 28)) buf
      out ← put_front (put_uint32 (packed_five num)) high
      some (5, out))

-- `w.Write(vi[:nn])`. The buffer that WriteTo allocates is never too short, so the last case, which
-- stands for the panic, is never met.
pub write_filled : Option (ℕ × Bytes) → Writer → Written
write_filled (some (nn, vi)) w = write w (take nn vi)
write_filled none w = record { count = 0; err = none; sink = w }

pub write_var_int : ℕ → Writer → Written
unfolding var_int_write_to_bytes write_filled
write_var_int v w = write_filled (var_int_write_to_bytes v (replicate max_var_int_len 0)) w

-- `VarInt.Len`
pub var_int_len : ℕ → ℕ
var_int_len v =
    if negative32 v
    then max_var_int_len
    else if ltb v (shl 1 (7 * 1))
    then 1
    else if ltb v (shl 1 (7 * 2))
    then 2
    else if ltb v (shl 1 (7 * 3))
    then 3
    else if ltb v (shl 1 (7 * 4))
    then 4
    else 5

-- `VarLong.Len`
pub var_long_len : ℕ → ℕ
var_long_len v =
    if negative64 v
    then max_var_long_len
    else if ltb v (shl 1 (7 * 1))
    then 1
    else if ltb v (shl 1 (7 * 2))
    then 2
    else if ltb v (shl 1 (7 * 3))
    then 3
    else if ltb v (shl 1 (7 * 4))
    then 4
    else if ltb v (shl 1 (7 * 5))
    then 5
    else if ltb v (shl 1 (7 * 6))
    then 6
    else if ltb v (shl 1 (7 * 7))
    then 7
    else if ltb v (shl 1 (7 * 8))
    then 8
    else 9

-- The loop of `VarLong.WriteToBytes` over the bytes that have the top bit, `left` of them still to
-- be written from index `i` on, and the write of the last byte after it.
var_long_fill : ℕ → ℕ → ℕ → Bytes → Bytes
var_long_fill zero i num buf = set buf i (u8 num)
var_long_fill (suc left) i num buf =
    var_long_fill left (i + 1) (shr num 7) (set buf i (u8 (bit_or (bit_and num 0x7F) 0x80)))

-- `VarLong.WriteToBytes`; `_ = buf[continuationBytes]` is the bounds check.
pub var_long_write_to_bytes : ℕ → Bytes → Option (ℕ × Bytes)
unfolding var_long_fill var_long_len
var_long_write_to_bytes v buf =
    let n = var_long_len v in
    let continuation_bytes = n - 1 in
    if ltb continuation_bytes (length buf)
    then some (n, var_long_fill continuation_bytes 0 v buf)
    else none

pub write_var_long : ℕ → Writer → Written
unfolding var_long_write_to_bytes write_filled
write_var_long v w = write_filled (var_long_write_to_bytes v (replicate max_var_long_len 0)) w

-- `byteReaderWrapper.ReadByte`, and a byte reader's own `ReadByte`: `CreateByteReader` chooses.
buf_zero : Bytes → ℕ
buf_zero [] = 0
buf_zero (c ∷ cs) = c

wrapper_read_byte : Decoder ℕ
unfolding buf_zero
wrapper_read_byte r = map_value buf_zero (read_full 1 r)

own_byte : Bytes → Bool → Outcome ℕ
own_byte [] b = fail 0 eof
own_byte (c ∷ cs) b = done 1 c (record { input = cs; is_byte_reader = b })

pub next_byte : Decoder ℕ
unfolding wrapper_read_byte own_byte
next_byte r = if r.is_byte_reader then own_byte r.input r.is_byte_reader else wrapper_read_byte r

-- The loop that VarInt.ReadFrom and VarLong.ReadFrom share but for the width `wrap` of the
-- accumulator, the test on `num` and the error. The first argument is the fuel.
pub read_groups : (ℕ → ℕ) → (ℕ → Bool) → Error → ℕ → ℕ → ℕ → ℕ → ℕ → Decoder ℕ
read_groups wrap too_many e zero num v n sec r = stuck
read_groups wrap too_many e (suc fuel) num v n sec r =
    if bit_and sec 0x80 == 0
    then done n v r
    else if too_many num
    then fail n e
    else elim (next_byte r) [
      | done m c r' ↦
          read_groups wrap too_many e fuel (num + 1)
            (bit_or v (wrap (shl (bit_and c 0x7F) (7 * num)))) (n + 1) c r'
      | fail m x ↦ fail n x
      | panic ↦ panic
      | stuck ↦ stuck
    ]

-- `VarInt.ReadFrom`: `num > MaxVarIntLen` ends the loop at num = 6, so 8 rounds are enough.
pub read_var_int : Decoder ℕ
unfolding read_groups
read_var_int r = read_groups u32 (λ num. ltb max_var_int_len num) var_int_too_big 8 0 0 0 0x80 r

-- `VarLong.ReadFrom`: `num >= MaxVarLongLen` ends it at num = 10.
pub read_var_long : Decoder ℕ
unfolding read_groups
read_var_long r = read_groups u64 (λ num. leb max_var_long_len num) var_long_too_big 12 0 0 0 0x80 r
