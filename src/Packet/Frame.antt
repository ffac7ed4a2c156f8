-- ===== src/Packet/Frame.antt =====
-- What Pack (net/packet/packet.go) sends, as a frame.
use mc_afk_go.Base.{ℕ, zero, suc, ◌+◌, ◌-◌, ◌<◌, ◌≡◌, refl, ap, arith}
use mc_afk_go.Base.{[], ◌∷◌, ◌++◌, length, take, drop, replicate, append_assoc, append-nil}
use mc_afk_go.Base.{length-append, length-replicate, ltb}
use mc_afk_go.Base.{if◌then◌else◌}
use mc_afk_go.Base.Bits.{u32, IsU32, negative64}
use mc_afk_go.Io.{Bytes, Writer, buffer, write}
use mc_afk_go.Io.Laws.{write-buffer}
use mc_afk_go.Wire.VarInt.{write_var_int, var_int_len}
use mc_afk_go.Wire.VarInt.Groups.{groups, length-groups}
use mc_afk_go.Wire.VarInt.Encode.{
  write_var_int-groups, var_int_len-groups, var_int_write_to_bytes-groups,
}
use mc_afk_go.Packet.{Packet, sent, pack_without_compression, pack_with_compression}
use mc_afk_go.Packet.{
  compress_packet, compressed_buffer, uncompressed_buffer, send_compressed, pack,
}

-- The bytes that a packet is, before any framing.
abbrev pub body : Packet → Bytes
body p = groups 4 p.id ++ p.contents

-- A length, and then what it counts.
abbrev pub framed : Bytes → Bytes
framed bs = groups 4 (length bs) ++ bs

var_int_sink :
    (v : ℕ) (out : Bytes)
    → IsU32 v
    → (write_var_int v (buffer out)).sink ≡ buffer (out ++ groups 4 v)
var_int_sink v out h = rw (write_var_int-groups v (buffer out) h, write-buffer out (groups 4 v))

write_sink : (out bs : Bytes) → (write (buffer out) bs).sink ≡ buffer (out ++ bs)
write_sink out bs = rw (write-buffer out bs)

-- Pack without compression is one Write of the frame, on every writer.
pub pack_without_compression-framed :
    (p : Packet) (w : Writer)
    → IsU32 p.id
    → length (body p) < 0x1_0000_0000
    → pack_without_compression p w ≡ sent (write w (framed (body p)))
unfolding pack_without_compression
pack_without_compression-framed p w hid fits = rw (
  var_int_len-groups p.id hid,
  len,
  var_int_sink (length (body p)) [] fits,
  var_int_sink p.id (groups 4 (length (body p))) hid,
  write_sink (groups 4 (length (body p)) ++ groups 4 p.id) p.contents,
  append_assoc (groups 4 (length (body p))) (groups 4 p.id) p.contents,
)
  where
    len : u32 (length (groups 4 p.id) + length p.contents) ≡ length (body p)
    len = omega (arith, length-append (groups 4 p.id) p.contents)

module _ (deflate : Bytes → Bytes) where
  -- What stands behind the length: below the threshold a zero and the packet, and else its size
  -- and the compressed packet.
  abbrev pub payload : Packet → ℕ → Bytes
  payload p threshold =
      if ltb (length p.contents) threshold
      then 0 ∷ body p
      else groups 4 (length (body p)) ++ deflate (body p)

  compress_packet-body :
      (p : Packet) → IsU32 p.id → compress_packet deflate p.id p.contents ≡ deflate (body p)
  unfolding compress_packet
  compress_packet-body p hid = rw (var_int_sink p.id [] hid, write_sink (groups 4 p.id) p.contents)

  compressed_buffer-payload :
      (p : Packet)
      → IsU32 p.id
      → length (body p) < 0x1_0000_0000
      → compressed_buffer deflate p
        ≡ replicate 5 0 ++ (groups 4 (length (body p)) ++ deflate (body p))
  unfolding compressed_buffer
  compressed_buffer-payload p hid fits = rw (
    compress_packet-body p hid,
    var_int_len-groups p.id hid,
    len,
    write_sink [] (replicate 5 0),
    var_int_sink (length (body p)) (replicate 5 0) fits,
    write_sink (replicate 5 0 ++ groups 4 (length (body p))) (deflate (body p)),
    compressed_buffer,
  )
    where
      len : u32 (length (groups 4 p.id) + length p.contents) ≡ length (body p)
      len = omega (arith, length-append (groups 4 p.id) p.contents)

length-groups_zero : length (groups 4 0) ≡ 1
unfolding groups
length-groups_zero = refl

uncompressed_buffer-framed :
    (p : Packet)
    → IsU32 p.id
    → length (body p) + 1 < 0x1_0000_0000
    → uncompressed_buffer p ≡ framed (0 ∷ body p)
unfolding uncompressed_buffer
uncompressed_buffer-framed p hid fits =
    rw
      (
        var_int_len-groups p.id hid,
        len,
        var_int_sink (suc (length (body p))) [] (omega arith),
        var_int_sink 0 (groups 4 (suc (length (body p)))) (omega arith),
        var_int_sink p.id (groups 4 (suc (length (body p))) ++ groups 4 0) hid,
        write_sink ((groups 4 (suc (length (body p))) ++ groups 4 0) ++ groups 4 p.id) p.contents,
        append_assoc (groups 4 (suc (length (body p))) ++ groups 4 0) (groups 4 p.id) p.contents,
        append_assoc (groups 4 (suc (length (body p)))) (groups 4 0) (body p),
        uncompressed_buffer,
      )
      (unfold groups in refl)
  where
    len : u32 (var_int_len 0 + length (groups 4 p.id) + length p.contents) ≡ suc (length (body p))
    len = omega (
      arith,
      length-append (groups 4 p.id) p.contents,
      var_int_len-groups 0 (omega arith),
      length-groups_zero,
    )

drop-zeros :
    (k j n : ℕ) (bs : Bytes) → n ≡ k + j → drop k (replicate n 0 ++ bs) ≡ replicate j 0 ++ bs
drop-zeros zero j n bs e = ap (λ (m : ℕ). replicate m 0 ++ bs) (omega arith)
drop-zeros (suc k) j zero bs e = absurd (omega arith)
drop-zeros (suc k) j (suc n) bs e = drop-zeros k j n bs (omega arith)

take-zeros : (j : ℕ) (bs : Bytes) → take j (replicate j 0 ++ bs) ≡ replicate j 0
take-zeros zero bs = refl
take-zeros (suc j) bs = ap (◌∷◌ 0) (take-zeros j bs)

drop-replicate : (j : ℕ) → drop {A = ℕ} j (replicate j 0) ≡ []
drop-replicate zero = refl
drop-replicate (suc j) = drop-replicate j

-- The length is stored right in front of what it counts.
send_compressed-framed :
    (bs : Bytes) (w : Writer)
    → IsU32 (length bs)
    → send_compressed (replicate 5 0 ++ bs) w ≡ sent (write w (framed bs))
unfolding send_compressed
send_compressed-framed bs w h =
    let n : ℕ = length bs in
    let g : Bytes = groups 4 n in
    rw (
      length-append (replicate 5 0) bs,
      len,
      var_int_len-groups n h,
      drop-zeros (5 - length g) (length g) 5 bs (omega (arith, length-groups 4 n)),
      take-zeros (length g) bs,
      drop-zeros (length g) 0 (length g) bs (omega arith),
      var_int_write_to_bytes-groups n (replicate (length g) 0) h
          (omega (arith, length-replicate {A = ℕ} (length g) 0)),
      drop-replicate (length g),
      append-nil g,
    )
  where
    len : u32 (5 + length bs - 5) ≡ length bs
    len = omega arith

module _ (deflate : Bytes → Bytes) where
  -- Pack is one Write, on every writer: the length, and then, without compression, the packet;
  -- below the threshold, a zero and the packet; else the packet's size and the deflated packet.
  -- The ID has 32 bits, and what the length counts is shorter than 2 ^ 32, compressed or not.
  pub pack-framed :
      (p : Packet) (threshold : ℕ) (w : Writer)
      → IsU32 p.id
      → length (body p) + 1 < 0x1_0000_0000
      → length (groups 4 (length (body p)) ++ deflate (body p)) < 0x1_0000_0000
      → pack deflate p w threshold
        ≡ sent (
            write w (framed (if negative64 threshold then body p else payload deflate p threshold)))
  unfolding pack pack_with_compression
  pack-framed p threshold w hid fits sized = ground (
    arith,
    pack_without_compression-framed p w hid (omega arith),
    uncompressed_buffer-framed p hid fits,
    compressed_buffer-payload deflate p hid (omega arith),
    send_compressed-framed (groups 4 (length (body p)) ++ deflate (body p)) w sized,
  )
