-- ===== src/Examples/Encodings.antt =====
-- The encodings of net/packet/types.go at concrete values.
use mc_afk_go.Base.{none, ◌≡◌, true, false, [], ◌∷◌, ◌++◌, inl, inr, arith}
use mc_afk_go.Io.{source, buffer, done, write}
use mc_afk_go.Wire.VarInt.{write_var_int, read_var_int}
use mc_afk_go.Wire.VarInt.Groups.{groups}
use mc_afk_go.Wire.VarInt.Encode.{write_var_int-groups}
use mc_afk_go.Wire.VarInt.Decode.{read_var_int-groups}
use mc_afk_go.Wire.VarInt.Bounds.{Bounded, read_var_int-Bounded}
use mc_afk_go.Wire.Position.{Position, write_position, read_position}
use mc_afk_go.Wire.Position.RoundTrip.{position_round_trip}

write_var_int-groups_example : write_var_int 300 (buffer []) ≡ write (buffer []) (0xAC ∷ 0x02 ∷ [])
unfolding groups
write_var_int-groups_example = write_var_int-groups 300 (buffer []) (omega arith)

read_var_int-groups_example :
    read_var_int (source (0xAC ∷ 0x02 ∷ 7 ∷ []) true) ≡ done 2 300 (source (7 ∷ []) true)
unfolding groups
read_var_int-groups_example = read_var_int-groups 300 (7 ∷ []) true (omega arith)

read_var_int-Bounded_example : Bounded 6 32 (read_var_int (source (0x80 ∷ 0x80 ∷ []) false))
read_var_int-Bounded_example = read_var_int-Bounded (source (0x80 ∷ 0x80 ∷ []) false)

-- A position with a negative height.
abbrev below_ground : Position
below_ground = record { x = 5; y = 0xFFFF_FFFF_FFFF_FFC0; z = 7 }

position_round_trip_example :
    let o = write_position below_ground (buffer []) in
    (o.err ≡ none)
    × (o.count ≡ 8)
    × (read_position (source (o.sink.written ++ 1 ∷ []) true)
        ≡ done o.count below_ground (source (1 ∷ []) true))
position_round_trip_example =
    position_round_trip below_ground (1 ∷ []) true (inl (omega arith))
      (inr (omega arith, omega arith)) (inl (omega arith))
