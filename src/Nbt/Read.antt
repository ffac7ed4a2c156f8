-- ===== src/Nbt/Read.antt =====
-- The reading primitives of the decoder: ReadByte of nbt/nbt.go, and readTag to readString of
-- nbt/decode.go. The Go functions return no count; the count here is of the bytes that they take.
pub mod Ints
pub mod Front
use mc_afk_go.Base.{ℕ, Bool, ◌==◌, ◌||◌, leb, if◌then◌else◌, [], ◌∷◌, bit_or}
use mc_afk_go.Base.Bits.{shl, u16, u32, u64, negative16}
use mc_afk_go.Io.{Bytes, eof, Reader, Outcome, done, fail, Decoder, ◌>>=◌, map_value}
use mc_afk_go.Io.{negative_string_length, compressed_data, read_full}

-- `ReadByte` of a reader that is an io.ByteReader itself.
own_read_byte : Bytes → Bool → Outcome ℕ
own_read_byte [] b = fail 0 eof
own_read_byte (c ∷ cs) b = done 1 c (record { input = cs; is_byte_reader = b })

-- `reader.ReadByte`: one Read into an array of one byte.
reader_read_byte : Bytes → Bool → Outcome ℕ
reader_read_byte [] b = fail 0 eof
reader_read_byte (c ∷ cs) b = done 1 c (record { input = cs; is_byte_reader = b })

-- `d.r.ReadByte()`, where NewDecoder has wrapped a reader that is no io.ByteReader.
pub read_byte : Decoder ℕ
unfolding own_read_byte reader_read_byte
read_byte r =
    if r.is_byte_reader
    then own_read_byte r.input r.is_byte_reader
    else reader_read_byte r.input r.is_byte_reader

pub read_int8 : Decoder ℕ
unfolding read_byte
read_int8 r = read_byte r

-- `int16(data[0])<<8 | int16(data[1])`, as a bit pattern.
pub join16 : Bytes → ℕ
join16 (a ∷ b ∷ cs) = bit_or (u16 (shl a 8)) b
join16 _ = 0

pub read_int16 : Decoder ℕ
unfolding join16
read_int16 r = map_value join16 (read_full 2 r)

pub join32 : Bytes → ℕ
join32 (a ∷ b ∷ c ∷ d ∷ es) =
    bit_or (bit_or (bit_or (u32 (shl a 24)) (u32 (shl b 16))) (u32 (shl c 8))) d
join32 _ = 0

pub read_int32 : Decoder ℕ
unfolding join32
read_int32 r = map_value join32 (read_full 4 r)

pub join64 : Bytes → ℕ
join64 (a ∷ b ∷ c ∷ d ∷ e ∷ f ∷ g ∷ h ∷ is) =
    let upper =
      bit_or (bit_or (bit_or (u64 (shl a 56)) (u64 (shl b 48))) (u64 (shl c 40)))
        (u64 (shl d 32)) in
    bit_or (bit_or (bit_or (bit_or upper (u64 (shl e 24))) (u64 (shl f 16))) (u64 (shl g 8))) h
join64 _ = 0

pub read_int64 : Decoder ℕ
unfolding join64
read_int64 r = map_value join64 (read_full 8 r)

-- A negative length is an error, and nothing is read for an empty string.
read_string_bytes : ℕ → Decoder Bytes
read_string_bytes len r =
    if negative16 len
    then fail 0 negative_string_length
    else if leb 1 len
    then read_full len r
    else done 0 [] r

pub read_string : Decoder Bytes
unfolding read_string_bytes
read_string r = read_int16 r >>= read_string_bytes

-- The type and the name; 0x1f and 0x78 begin data that is compressed, and TagEnd has no name.
read_tag_name : ℕ → Decoder (ℕ × Bytes)
read_tag_name tag r =
    if tag == 0x1f || tag == 0x78
    then fail 0 compressed_data
    else if tag == 0
    then done 0 (tag, []) r
    else map_value (λ name. (tag, name)) (read_string r)

pub read_tag : Decoder (ℕ × Bytes)
unfolding read_tag_name
read_tag r = read_byte r >>= read_tag_name
