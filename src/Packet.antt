-- ===== src/Packet.antt =====
-- Packets (net/packet/packet.go, net/packet/builder.go). compress/zlib is a parameter: `deflate`
-- is what a zlib.Writer has put out when it is closed, for all that was written to it; `inflate` is
-- the bytes that a zlib reader over such a stream delivers, `none` where NewReader fails.
pub mod Frame
pub mod RoundTrip
pub mod Malformed
pub mod Fields
use mc_afk_go.Base.{ℕ, zero, suc, ◌+◌, ◌-◌, Bool, true, false, ltb, leb, ◌==◌, ◌||◌, if◌then◌else◌}
use mc_afk_go.Base.{List, [], ◌∷◌, ◌++◌, length, take, drop, replicate, Option, none, some}
use mc_afk_go.Base.Bits.{u32, u64, negative32, negative64, signed_less, int_of32}
use mc_afk_go.Io.{Bytes, Error, eof, bad_packet_length, below_threshold, above_maximum}
use mc_afk_go.Io.{bad_zlib_header, Reader, source, Outcome, done, fail, panic, stuck, Decoder}
use mc_afk_go.Io.{read_full, Writer, Written, buffer, write}
use mc_afk_go.Wire.VarInt.{write_var_int, read_var_int, var_int_len, var_int_write_to_bytes}
use mc_afk_go.Wire.VarInt.{max_var_int_len}
use mc_afk_go.Field.{FieldEncoder}
use mc_afk_go.Field.Tuple.{read_tuple}

abbrev pub max_data_length : ℕ
max_data_length = 0x20_0000

-- `ID` is an int32; `contents` is the field `Data`.
pub record Packet : Type 0 where
  pub id : ℕ
  pub contents : Bytes

pub record Builder : Type 0 where
  pub buf : Bytes

-- `Builder.WriteField`, which panics (`none`) on an error.
write_field_result : Written → Option Builder
write_field_result o = elim o.err [ some e ↦ none | none ↦ some (record { buf = o.sink.written }) ]

write_field_next : Option Builder → (Builder → Option Builder) → Option Builder
write_field_next none next = none
write_field_next (some p) next = next p

pub write_field : List FieldEncoder → Builder → Option Builder
unfolding write_field_result write_field_next
write_field [] p = some p
write_field (f ∷ fs) p =
    write_field_next (write_field_result (f (buffer p.buf))) (λ q. write_field fs q)

-- `Builder.Packet`
pub packet_of : Builder → ℕ → Packet
packet_of p id = record { id = id; contents = p.buf }

marshal_result : Option Builder → ℕ → Option Packet
unfolding packet_of
marshal_result none id = none
marshal_result (some p) id = some (packet_of p (u32 id))

pub marshal : ℕ → List FieldEncoder → Option Packet
unfolding write_field marshal_result
marshal id fields = marshal_result (write_field fields (record { buf = [] })) id

-- `Packet.Scan`: the loop is that of Tuple.ReadFrom over a bytes.Reader.
pub scan : {V : Type 0} → Packet → List (Decoder V) → Outcome (List V)
scan p fields = read_tuple fields (source p.contents true)

-- What Pack returns, with the writer after it; `none` is a panic.
abbrev pub Packed : Type 0
Packed = Option (Option Error × Writer)

abbrev pub sent : Written → Packed
sent o = some (o.err, o.sink)

pub pack_without_compression : Packet → Writer → Packed
pack_without_compression p w =
    let packet_length = u32 (var_int_len p.id + length p.contents) in
    let b1 = (write_var_int packet_length (buffer [])).sink in
    let b2 = (write_var_int p.id b1).sink in
    let b3 = (write b2 p.contents).sink in sent (write w b3.written)

-- The buffer that `packWithCompression` fills for a packet below the threshold.
uncompressed_buffer : Packet → Bytes
uncompressed_buffer p =
    let data_length : ℕ = 0 in
    let packet_length = u32 (var_int_len data_length + var_int_len p.id + length p.contents) in
    let b1 = (write_var_int packet_length (buffer [])).sink in
    let b2 = (write_var_int data_length b1).sink in
    let b3 = (write_var_int p.id b2).sink in (write b3 p.contents).sink.written

-- `PacketLength.WriteToBytes(buff.Bytes()[:packetLengthLen])`, and the write of the whole buffer.
send_filled : Option (ℕ × Bytes) → Bytes → Writer → Packed
send_filled none after w = none
send_filled (some (n, front)) after w = sent (write w (front ++ after))

-- What follows the compression: the five bytes left free hold the length, and those in front of it
-- are skipped.
send_compressed : Bytes → Writer → Packed
unfolding send_filled
send_compressed written w =
    let packet_length = u32 (length written - max_var_int_len) in
    let packet_length_len = var_int_len packet_length in
    let buff = drop (max_var_int_len - packet_length_len) written in
    send_filled (var_int_write_to_bytes packet_length (take packet_length_len buff))
      (drop packet_length_len buff) w

module _ (deflate : Bytes → Bytes) where
  -- `compressPacket` into a buffer: what it appends.
  pub compress_packet : ℕ → Bytes → Bytes
  compress_packet packet_id contents =
      let z1 = (write_var_int packet_id (buffer [])).sink in
      deflate (write z1 contents).sink.written

  -- The buffer for a packet that is compressed, five bytes for its length first.
  compressed_buffer : Packet → Bytes
  compressed_buffer p =
      let data_length = u32 (var_int_len p.id + length p.contents) in
      let b1 = (write (buffer []) (replicate max_var_int_len 0)).sink in
      let b2 = (write_var_int data_length b1).sink in
      (write b2 (compress_packet p.id p.contents)).sink.written

  pub pack_with_compression : Packet → ℕ → Writer → Packed
  pack_with_compression p threshold w =
      if ltb (length p.contents) threshold
      then sent (write w (uncompressed_buffer p))
      else send_compressed (compressed_buffer p) w

  -- `Packet.Pack`; the threshold is an int.
  pub pack : Packet → Writer → ℕ → Packed
  pack p w threshold =
      if negative64 threshold
      then pack_without_compression p w
      else pack_with_compression p threshold w

-- What UnPack returns: the packet with the reader after it, an error, or a panic. `looped` stands
-- for a loop that ran out of fuel.
pub data Unpacked : Type 0 where
  got : Packet → Reader → Unpacked
  refused : Error → Unpacked
  crashed : Unpacked
  looped : Unpacked

-- `nn, err := v.ReadFrom(r); if err != nil { return err }`
infixl 5 ◌>>=◌
abbrev pub ◌>>=◌ {ℓ} : {A : Type ℓ} → Outcome A → (ℕ → A → Reader → Unpacked) → Unpacked
done n a r >>= f = f n a r
fail n e >>= f = refused e
panic >>= f = crashed
stuck >>= f = looped

-- `_, err = io.ReadFull(r, p.Data)`, with the length of `p.Data` set.
abbrev fill_packet : ℕ → ℕ → Reader → Unpacked
fill_packet id len r = read_full len r >>= λ n bs r'. got (record { id = id; contents = bs }) r'

-- `p.Data` is made or sliced to an int of so many bytes, which panics on a negative one.
pub fill_sized : ℕ → ℕ → Reader → Unpacked
fill_sized id len r = if negative64 len then crashed else fill_packet id len r

-- `lengthOfData` is an int.
pub unpack_without_compression : Reader → Unpacked
unfolding fill_sized
unpack_without_compression r = read_var_int r >>= λ n1 packet_length r1.
    read_var_int r1 >>= λ n packet_id r2.
    let length_of_data = u64 (int_of32 packet_length + 0x1_0000_0000_0000_0000 - n) in
    if negative64 length_of_data || signed_less max_data_length length_of_data
    then refused bad_packet_length
    else fill_sized packet_id length_of_data r2

-- `io.CopyN(buff, r, n)` for an int32 `n`: a negative count copies nothing, and is no error.
copy_n : ℕ → Reader → Outcome Bytes
copy_n n r =
    if negative32 n
    then done 0 [] r
    else if leb n (length r.input)
    then done n (take n r.input) (record r { input = drop n r.input })
    else fail (length r.input) eof

-- `DataLength -= VarInt(n3)` wraps, and slicing to a negative length panics.
pub fill_counted : ℕ → ℕ → Reader → Unpacked
fill_counted id len r = if negative32 len then crashed else fill_packet id len r

-- The rest of UnPack reads the copied packet; the reader of the connection is left behind it.
pub left_behind : Reader → Unpacked → Unpacked
left_behind r (got p r') = got p r
left_behind r (refused e) = refused e
left_behind r crashed = crashed
left_behind r looped = looped

module _ (inflate : Bytes → Option Bytes) where
  -- A zlib reader is no io.ByteReader.
  pub unpack_zlib : Option Bytes → ℕ → Unpacked
  unfolding fill_counted
  unpack_zlib none data_length = refused bad_zlib_header
  unpack_zlib (some plain) data_length = read_var_int (source plain false) >>= λ n3 packet_id r3.
      fill_counted packet_id (u32 (data_length + 0x1_0000_0000 - n3)) r3

  pub unpack_copied : ℕ → ℕ → Bytes → Unpacked
  unfolding unpack_zlib fill_counted
  unpack_copied threshold packet_length copied =
      read_var_int (source copied true) >>= λ n2 data_length r2.
      if data_length == 0
      then (read_var_int r2 >>= λ n3 packet_id r3.
          fill_counted packet_id (u32 (packet_length + 0x1_0000_0000 - n2 - n3)) r3)
      else if negative32 data_length || ltb data_length threshold
      then refused below_threshold
      else if ltb max_data_length data_length
      then refused above_maximum
      else unpack_zlib (inflate r2.input) data_length

  pub unpack_with_compression : Reader → ℕ → Unpacked
  unfolding copy_n unpack_copied left_behind
  unpack_with_compression r threshold = read_var_int r >>= λ n1 packet_length r1.
      copy_n packet_length r1 >>= λ copied_count copied r2.
      left_behind r2 (unpack_copied threshold packet_length copied)

  -- `Packet.UnPack`
  pub unpack : Reader → ℕ → Unpacked
  unfolding unpack_with_compression unpack_without_compression
  unpack r threshold =
      if negative64 threshold
      then unpack_without_compression r
      else unpack_with_compression r threshold
