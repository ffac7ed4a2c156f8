-- ===== src/Examples/Fields.antt =====
-- Arrays, options and tuples (net/packet/util.go) and the fields of a packet at concrete values.
use mc_afk_go.Base.{
  ℕ, ◌≡◌, ◌≤◌, ◌<◌, true, false, List, [], ◌∷◌, ◌++◌, length, none, some, inl, arith, All, ◌⊎◌,
}
use mc_afk_go.Base.Bits.{IsU16, u32}
use mc_afk_go.Io.{source, buffer, done, panic}
use mc_afk_go.Wire.Fixed.{put_uint16, write_short, read_short}
use mc_afk_go.Wire.Fixed.RoundTrip.{write_short-put, read_short-put}
use mc_afk_go.Wire.VarInt.Groups.{groups}
use mc_afk_go.Field.{var_int_length, write_ary, read_ary}
use mc_afk_go.Field.Laws.{short-Lawful}
use mc_afk_go.Field.Arrays.{array_round_trip, array_into_capacity}
use mc_afk_go.Field.Optional.{OptionField}
use mc_afk_go.Field.Tuple.Laws.{Slot, SlotLaws, encoders, decoders, slot_bytes, slot_values}
use mc_afk_go.Packet.{Packet, marshal, scan}
use mc_afk_go.Packet.Fields.{scan-marshal}

abbrev shorts : List ℕ
shorts = 258 ∷ 772 ∷ []

-- Into a slice without room.
array_round_trip_example :
    ((write_ary var_int_length write_short shorts (buffer [])).err ≡ none)
    × (read_ary var_int_length
          (λ old. read_short)
          0
          0
          []
          (source
            ((write_ary var_int_length write_short shorts (buffer [])).sink.written ++ 9 ∷ [])
            true)
        ≡ done
            (write_ary var_int_length write_short shorts (buffer [])).count
            shorts
            (source (9 ∷ []) true))
array_round_trip_example =
    array_round_trip write_short (λ old. read_short) put_uint16 IsU16 short-Lawful shorts [] 0 0
      (9 ∷ []) true (omega arith) (omega arith, (omega arith, tt)) (inl (omega arith))

-- Into a slice of three elements: the third one stays.
array_into_capacity_example :
    ((2 ≤ 3)
      × (read_ary var_int_length
            (λ old. read_short)
            0
            3
            (0 ∷ 0 ∷ 5 ∷ [])
            (source (2 ∷ 1 ∷ 2 ∷ 3 ∷ 4 ∷ []) true)
          ≡ done 5 (258 ∷ 772 ∷ 5 ∷ []) (source [] true)))
    ⊎ ((3 < 2)
        × (read_ary var_int_length
              (λ old. read_short)
              0
              3
              (0 ∷ 0 ∷ 5 ∷ [])
              (source (2 ∷ 1 ∷ 2 ∷ 3 ∷ 4 ∷ []) true)
            ≡ panic))
unfolding groups put_uint16
array_into_capacity_example =
    array_into_capacity write_short (λ old. read_short) put_uint16 IsU16 short-Lawful shorts
      (0 ∷ 0 ∷ 5 ∷ []) 0 3 [] true (omega arith) (omega arith, (omega arith, tt)) (omega arith)

abbrev absent : OptionField ℕ
absent = record { has_value = false; val = 7 }

abbrev short_slot : ℕ → Slot ℕ
short_slot v = record {
  encoder = write_short v;
  decoder = read_short;
  bytes = put_uint16 v;
  value = v;
}

short_slot-SlotLaws : (v : ℕ) → IsU16 v → SlotLaws (short_slot v)
unfolding put_uint16
short_slot-SlotLaws v h = record {
  writes = λ w. write_short-put v w;
  reads = λ rest b. read_short-put v rest b h;
}

abbrev slots : List (Slot ℕ)
slots = short_slot 258 ∷ short_slot 772 ∷ []

slots-SlotLaws : All SlotLaws slots
slots-SlotLaws =
    (short_slot-SlotLaws 258 (omega arith), (short_slot-SlotLaws 772 (omega arith), tt))

scan-marshal_example :
    (p : Packet) × (marshal 3 (encoders slots) ≡ some p)
    × (p.id ≡ u32 3)
    × (p.contents ≡ slot_bytes slots)
    × (scan p (decoders slots)
        ≡ done (length (slot_bytes slots)) (slot_values slots) (source [] true))
scan-marshal_example = scan-marshal 3 slots slots-SlotLaws
