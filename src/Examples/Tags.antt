-- ===== src/Examples/Tags.antt =====
-- The binary tag format (nbt/decode.go, nbt/encode.go, nbt/rawmsg.go) and its printing (nbt/snbt.go)
-- on a small value.
use mc_afk_go.Base.{◌≡◌, refl, arith, true, false, [], ◌∷◌, ◌++◌, length}
use mc_afk_go.Base.{none}
use mc_afk_go.Io.{source, done, buffer}
use mc_afk_go.Nbt.Format.{
  Value, byte, list, compound, item, nil, member, end, tag_of, encode, IsWellFormed,
}
use mc_afk_go.Nbt.Read.{read_tag}
use mc_afk_go.Nbt.Write.{write_tag}
use mc_afk_go.Nbt.Raw.{RawMessage, unmarshal_raw, marshal_raw}
use mc_afk_go.Nbt.Raw.Message.{raw_message_round_trip}
use mc_afk_go.Nbt.Raw.Fuel.{Returns, unmarshal_raw-Returns}
use mc_afk_go.Nbt.Write.Headers.{tag_round_trip}
use mc_afk_go.Snbt.Print.{unmarshal_stringified, raw_string, shown}
use mc_afk_go.Snbt.Print.Trees.{print, stringified-print}

-- {a:[5B]}
abbrev small_value : Value
small_value = compound (member (b'a' ∷ []) (list 1 (item (byte 5) nil)) end)

small_value-IsWellFormed : IsWellFormed small_value
unfolding IsWellFormed
small_value-IsWellFormed = (omega arith, (omega arith, (refl, omega arith, tt)), tt)

raw_message_round_trip_example :
    (m : RawMessage) × (unmarshal_raw
        (tag_of small_value)
        (source (encode small_value ++ b'x' ∷ []) false)
      ≡ done (length (encode small_value)) m (source (b'x' ∷ []) false))
    × (m.tag ≡ tag_of small_value)
    × (marshal_raw m (buffer []) ≡ record {
      count = length (encode small_value);
      err = none;
      sink = buffer (encode small_value);
    })
raw_message_round_trip_example =
    raw_message_round_trip small_value (b'x' ∷ []) false small_value-IsWellFormed

unmarshal_raw-Returns_example :
    Returns (unmarshal_raw 10 (source (10 ∷ 0 ∷ 0 ∷ 10 ∷ 0 ∷ 0 ∷ []) true))
unmarshal_raw-Returns_example =
    unmarshal_raw-Returns 10 (source (10 ∷ 0 ∷ 0 ∷ 10 ∷ 0 ∷ 0 ∷ []) true)

tag_round_trip_example :
    let o = write_tag 3 (b'x' ∷ b'p' ∷ []) (buffer []) in
    (o.err ≡ none)
    × (read_tag (source (o.sink.written ++ 7 ∷ []) true)
        ≡ done o.count (3, b'x' ∷ b'p' ∷ []) (source (7 ∷ []) true))
tag_round_trip_example =
    tag_round_trip 3 (b'x' ∷ b'p' ∷ []) (7 ∷ []) true (omega arith) (omega arith) (omega arith)

stringified-print_example :
    (unmarshal_stringified
        (λ v. [])
        (λ v. [])
        (tag_of small_value)
        (source (encode small_value ++ []) true)
      ≡ done (length (encode small_value)) (print (λ v. []) (λ v. []) small_value) (source [] true))
    × (raw_string
          (λ v. [])
          (λ v. [])
          (record { tag = tag_of small_value; content = encode small_value })
        ≡ shown (print (λ v. []) (λ v. []) small_value))
stringified-print_example =
    stringified-print (λ v. []) (λ v. []) small_value [] true small_value-IsWellFormed
