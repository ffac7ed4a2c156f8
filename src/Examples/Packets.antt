-- ===== src/Examples/Packets.antt =====
-- Packets (net/packet/packet.go) at concrete values, with a stand-in for zlib that puts a byte before
-- what it is given.
use mc_afk_go.Base.{◌≡◌, refl, true, false, [], ◌∷◌, ◌++◌, none, some, Option, arith}
use mc_afk_go.Io.{Bytes, source, buffer, write}
use mc_afk_go.Wire.VarInt.Groups.{groups}
use mc_afk_go.Packet.{
  Packet, pack, unpack, got, sent, crashed, unpack_with_compression, unpack_without_compression,
  max_data_length,
}
use mc_afk_go.Packet.Frame.{pack-framed}
use mc_afk_go.Packet.RoundTrip.{unpack-pack}
use mc_afk_go.Packet.Malformed.{
  size_below_id_panics, ContentsWithin, unpack_without_compression-ContentsWithin,
}

abbrev marked : Bytes → Bytes
marked bs = 0x78 ∷ bs

abbrev unmarked : Bytes → Option Bytes
unmarked [] = none
unmarked (x ∷ bs) = some bs

-- A packet that is not below the threshold 3.
abbrev chat_message : Packet
chat_message = record { id = 300; contents = 1 ∷ 2 ∷ 3 ∷ 4 ∷ [] }

unpack-pack_example :
    (bytes : Bytes) × (pack marked chat_message (buffer []) 3 ≡ some (none, buffer bytes))
    × (unpack unmarked (source (bytes ++ 9 ∷ []) false) 3
        ≡ got chat_message (source (9 ∷ []) false))
unfolding groups
unpack-pack_example =
    unpack-pack marked unmarked chat_message 3 (omega arith, omega arith) refl (omega arith)
      (9 ∷ []) false

pack-framed_example :
    pack marked chat_message (buffer []) 3
    ≡ sent (write (buffer []) (8 ∷ 6 ∷ 0x78 ∷ 0xAC ∷ 0x02 ∷ 1 ∷ 2 ∷ 3 ∷ 4 ∷ []))
unfolding groups
pack-framed_example =
    pack-framed marked chat_message 3 (buffer []) (omega arith) (omega arith) (omega arith)

unpack_without_compression-ContentsWithin_example :
    ContentsWithin max_data_length (unpack_without_compression (source (3 ∷ 1 ∷ 7 ∷ []) true))
unpack_without_compression-ContentsWithin_example =
    unpack_without_compression-ContentsWithin (source (3 ∷ 1 ∷ 7 ∷ []) true)

-- One byte is declared, and the packet's ID alone has two.
size_below_id_panics_example :
    unpack_with_compression unmarked (source (4 ∷ 1 ∷ 0x78 ∷ 0xAC ∷ 0x02 ∷ []) false) 1 ≡ crashed
unfolding groups
size_below_id_panics_example =
    size_below_id_panics unmarked 1 1 (0x78 ∷ 0xAC ∷ 0x02 ∷ []) [] false (omega arith) 300 []
      (λ e. omega arith) (omega arith) (omega arith) (omega arith) refl
