-- ===== src/Nbt/Raw/Message.antt =====
-- RawMessage (nbt/rawmsg.go) on a value of the format.
use mc_afk_go.Base.{ℕ, ◌∙◌, take, take-length_append, suc, ◌≡◌, refl, ap, arith, Bool, false, ◌==◌}
use mc_afk_go.Base.{[], ◌++◌, length, length-append}
use mc_afk_go.Base.{none}
use mc_afk_go.Io.{Bytes, Reader, source, done, buffer}
use mc_afk_go.Io.Exact.{Takes}
use mc_afk_go.Io.Laws.{write-buffer}
use mc_afk_go.Nbt.Format.{Value, tag_of, encode, IsWellFormed}
use mc_afk_go.Nbt.Raw.{RawMessage, captured, passed, unmarshal_raw, marshal_raw}
use mc_afk_go.Nbt.Raw.Payload.{raw_read-encode, tag_of_bounds}

-- What the tee has kept of a read is what the read took.
passed-Takes : {r r' : Reader} {n : ℕ} (h : Takes r r' n) → passed r r' ≡ h.used
passed-Takes {r} {r'} h =
    ap (λ (k : ℕ). take k r.input)
      (omega (arith, ap length h.splits, length-append h.used r'.input))
    ∙ ap (take (length h.used)) h.splits
    ∙ take-length_append h.used r'.input

unmarshal_raw-encode :
    (v : Value) (rest : Bytes) (b : Bool)
    → IsWellFormed v
    → unmarshal_raw (tag_of v) (source (encode v ++ rest) b)
      ≡ done (length (encode v)) (record { tag = tag_of v; content = encode v }) (source rest b)
unfolding unmarshal_raw captured
unmarshal_raw-encode v rest b w =
    rw
      (
        not_end,
        raw_read-encode (suc (length (encode v ++ rest))) v rest false w
            (omega (arith, length-append (encode v) rest)),
      )
      (ap
        (λ (bs : Bytes).
          done (length (encode v)) (record { tag = tag_of v; content = bs }) (source rest b))
        (passed-Takes whole))
  where
    not_end : (tag_of v == 0) ≡ false
    not_end = ground (arith, tag_of_bounds v)

    whole : Takes (source (encode v ++ rest) false) (source rest false) (length (encode v))
    whole = record { used = encode v; splits = refl; counted = refl; same_kind = refl }

marshal_raw-content :
    (m : RawMessage)
    → marshal_raw m (buffer [])
      ≡ record { count = length m.content; err = none; sink = buffer m.content }
unfolding marshal_raw
marshal_raw-content m = write-buffer [] m.content

-- RawMessage.UnmarshalNBT of a well-formed value's tag, on the value's encoding and more bytes
-- behind it, returns a message that has the tag, counts the bytes of the encoding and leaves
-- what follows; MarshalNBT of that message into a buffer writes the encoding again.
pub raw_message_round_trip :
    (v : Value) (rest : Bytes) (b : Bool)
    → IsWellFormed v
    → (m : RawMessage) × (unmarshal_raw (tag_of v) (source (encode v ++ rest) b)
        ≡ done (length (encode v)) m (source rest b))
      × (m.tag ≡ tag_of v)
      × (marshal_raw m (buffer [])
          ≡ record { count = length (encode v); err = none; sink = buffer (encode v) })
raw_message_round_trip v rest b w = (
  record { tag = tag_of v; content = encode v },
  unmarshal_raw-encode v rest b w,
  refl,
  marshal_raw-content _,
)
