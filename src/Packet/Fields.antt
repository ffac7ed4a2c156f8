-- ===== src/Packet/Fields.antt =====
-- Marshal and Scan (net/packet/packet.go): the fields of a packet.
use mc_afk_go.Base.{ℕ, ◌≡◌, refl, ◌∙◌, true, some, append_assoc, append-nil}
use mc_afk_go.Base.{List, [], ◌∷◌, ◌++◌, length, All}
use mc_afk_go.Base.Bits.{u32}
use mc_afk_go.Io.{Bytes, done, source, buffer}
use mc_afk_go.Io.Laws.{write-buffer}
use mc_afk_go.Field.Tuple.Laws.{Slot, SlotLaws, encoders, decoders, slot_bytes, slot_values}
use mc_afk_go.Field.Tuple.Laws.{read_tuple-slots}
use mc_afk_go.Packet.{Packet, write_field, packet_of, marshal}
use mc_afk_go.Packet.{marshal_result, scan}

module _ {V : Type 0} where
  write_field-slots :
      (ss : List (Slot V)) (out : Bytes)
      → All SlotLaws ss
      → write_field (encoders ss) (record { buf = out })
        ≡ some (record { buf = out ++ slot_bytes ss })
  unfolding write_field
  write_field-slots [] out h = rw append-nil
  write_field-slots (s ∷ ss) out h = rw (
    h.0.writes (buffer out) ∙ write-buffer out s.bytes,
    write_field-slots ss (out ++ s.bytes) h.1,
    append_assoc out s.bytes (slot_bytes ss),
  )

  pub marshal-slots :
      (id : ℕ) (ss : List (Slot V))
      → All SlotLaws ss
      → marshal id (encoders ss) ≡ some (record { id = u32 id; contents = slot_bytes ss })
  unfolding marshal marshal_result packet_of
  marshal-slots id ss h = rw (write_field-slots ss [] h) refl

  pub scan-slots :
      (id : ℕ) (ss : List (Slot V))
      → All SlotLaws ss
      → scan (record { id = id; contents = slot_bytes ss }) (decoders ss)
        ≡ done (length (slot_bytes ss)) (slot_values ss) (source [] true)
  unfolding scan
  scan-slots id ss h = rw append-nil at (read_tuple-slots ss [] true h)

  -- For fields that keep their laws, Marshal puts the fields' bytes one after the other and
  -- does not panic, and Scan with decoders of the same fields reads every value back.
  pub scan-marshal :
      (id : ℕ) (ss : List (Slot V))
      → All SlotLaws ss
      → (p : Packet) × (marshal id (encoders ss) ≡ some p)
        × (p.id ≡ u32 id)
        × (p.contents ≡ slot_bytes ss)
        × (scan p (decoders ss) ≡ done (length (slot_bytes ss)) (slot_values ss) (source [] true))
  scan-marshal id ss h = (
    record { id = u32 id; contents = slot_bytes ss },
    marshal-slots id ss h,
    refl,
    refl,
    scan-slots (u32 id) ss h,
  )
