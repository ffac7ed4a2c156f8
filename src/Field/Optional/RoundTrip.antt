-- ===== src/Field/Optional/RoundTrip.antt =====
-- Option (net/packet/util.go): writing, and reading a present and an absent value.
use mc_afk_go.Base.{ℕ, ◌≡◌, refl, sym, ap, ap₂, ◌∙◌, fun_ext, Bool, true, false, arith}
use mc_afk_go.Base.{[], ◌∷◌, ◌++◌, length, if◌then◌else◌}
use mc_afk_go.Base.{none}
use mc_afk_go.Io.{buffer, Bytes, done, source, Writer, write, and_then}
use mc_afk_go.Io.Laws.{write-append, write-nil, write-buffer, bind-done}
use mc_afk_go.Wire.Fixed.RoundTrip.{write_boolean-byte, read_boolean-encoded}
use mc_afk_go.Field.{FieldEncoder, FieldDecoder}
use mc_afk_go.Field.Optional.{OptionField, write_option, read_option, read_option_val}
use mc_afk_go.Field.Laws.{Lawful}

module _ {A : Type 0} (write_to : A → FieldEncoder) (read_from : FieldDecoder A)
    (encode : A → Bytes) (IsValid : A → Type 0)
    (law : Lawful write_to read_from encode IsValid) where
  abbrev pub encode_option : OptionField A → Bytes
  encode_option o = if o.has_value then 1 ∷ encode o.val else 0 ∷ []

  pub option_writes :
      (has : Bool) (v : A) (w : Writer)
      → IsValid v
      → write_option write_to (record { has_value = has; val = v }) w
        ≡ write w (encode_option (record { has_value = has; val = v }))
  unfolding write_option
  option_writes true v w h =
      ap₂ and_then (write_boolean-byte true w) (fun_ext (λ u. law.writes v u h))
      ∙ write-append w (1 ∷ []) (encode v)
  option_writes false v w h =
      ap₂ and_then (write_boolean-byte false w) (fun_ext (λ u. sym (write-nil u)))
      ∙ write-append w (0 ∷ []) []

  -- A present value is read back; an absent one leaves the receiver's.
  option_reads :
      (has : Bool) (v : A) (old : OptionField A) (rest : Bytes) (b : Bool)
      → IsValid v
      → read_option read_from old
          (source (encode_option (record { has_value = has; val = v }) ++ rest) b)
        ≡ done
            (length (encode_option (record { has_value = has; val = v })))
            (record { has_value = has; val = if has then v else old.val })
            (source rest b)
  unfolding read_option
  option_reads true v old rest b h =
      bind-done (read_option_val read_from old.val) (read_boolean-encoded true (encode v ++ rest) b)
      ∙ rw (law.reads v old.val rest b h) (
          ap (λ (n : ℕ). done n (record { has_value = true; val = v }) (source rest b))
            (omega arith))
  option_reads false v old rest b h =
      bind-done (read_option_val read_from old.val) (read_boolean-encoded false rest b)

  -- For a value of a lawful type, what Option.WriteTo puts into a buffer, Option.ReadFrom reads
  -- back with the same count: the value if there is one, and else the receiver's value with
  -- `Has` false.
  pub option_round_trip :
      (has : Bool) (v : A) (old : OptionField A) (rest : Bytes) (b : Bool)
      → IsValid v
      → let o = write_option write_to (record { has_value = has; val = v }) (buffer []) in
        (o.err ≡ none)
        × (read_option read_from old (source (o.sink.written ++ rest) b)
            ≡ done o.count
                (record { has_value = has; val = if has then v else old.val })
                (source rest b))
  option_round_trip has v old rest b h =
      rw
        (
          option_writes has v (buffer []) h,
          write-buffer [] (encode_option (record { has_value = has; val = v })),
        )
        (refl, option_reads has v old rest b h)
