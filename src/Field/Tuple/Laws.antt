-- ===== src/Field/Tuple/Laws.antt =====
-- A tuple of lawful fields (net/packet/util.go): its bytes, its reading, and a field that fails.
use mc_afk_go.Base.{ℕ, ◌+◌, ◌≡◌, refl, ap, ◌∙◌, Bool, arith, none}
use mc_afk_go.Base.{List, [], ◌∷◌, ◌++◌, length, append_assoc, append-nil, length-append, All}
use mc_afk_go.Io.{Bytes, Error, field, done, fail, source, Decoder, buffer, Writer}
use mc_afk_go.Io.{write}
use mc_afk_go.Io.Laws.{write-buffer}
use mc_afk_go.Field.{FieldEncoder}
use mc_afk_go.Field.Tuple.{write_tuple_from, write_tuple, read_tuple_from, read_tuple}

-- A field with its value bound: how it is written, how it is read, and the bytes between.
pub record Slot (V : Type 0) : Type 0 where
  pub encoder : FieldEncoder
  pub decoder : Decoder V
  pub bytes : Bytes
  pub value : V

pub record SlotLaws {V : Type 0} (s : Slot V) : Type 0 where
  pub writes : (w : Writer) → s.encoder w ≡ write w s.bytes
  pub reads :
      (rest : Bytes) (b : Bool)
      → s.decoder (source (s.bytes ++ rest) b) ≡ done (length s.bytes) s.value (source rest b)

module _ {V : Type 0} where
  abbrev pub encoders : List (Slot V) → List FieldEncoder
  encoders [] = []
  encoders (s ∷ ss) = s.encoder ∷ encoders ss

  abbrev pub decoders : List (Slot V) → List (Decoder V)
  decoders [] = []
  decoders (s ∷ ss) = s.decoder ∷ decoders ss

  abbrev pub slot_bytes : List (Slot V) → Bytes
  slot_bytes [] = []
  slot_bytes (s ∷ ss) = s.bytes ++ slot_bytes ss

  abbrev pub slot_values : List (Slot V) → List V
  slot_values [] = []
  slot_values (s ∷ ss) = s.value ∷ slot_values ss

  tuple_writes :
      (ss : List (Slot V)) (n : ℕ) (out : Bytes)
      → All SlotLaws ss
      → write_tuple_from n (encoders ss) (buffer out) ≡ record {
        count = n + length (slot_bytes ss);
        err = none;
        sink = buffer (out ++ slot_bytes ss);
      }
  unfolding write_tuple_from
  tuple_writes [] n out h = rw append-nil (ground arith)
  tuple_writes (s ∷ ss) n out h =
      rw
        (
          h.0.writes (buffer out) ∙ write-buffer out s.bytes,
          tuple_writes ss (n + length s.bytes) (out ++ s.bytes) h.1,
          append_assoc out s.bytes (slot_bytes ss),
        )
        (ground (arith, length-append s.bytes (slot_bytes ss)))

  tuple_reads :
      (ss : List (Slot V)) (i : ℕ) (rest : Bytes) (b : Bool)
      → All SlotLaws ss
      → read_tuple_from i (decoders ss) (source (slot_bytes ss ++ rest) b)
        ≡ done (length (slot_bytes ss)) (slot_values ss) (source rest b)
  unfolding read_tuple_from
  tuple_reads [] i rest b h = refl
  tuple_reads (s ∷ ss) i rest b h = rw (
    append_assoc s.bytes (slot_bytes ss) rest,
    h.0.reads (slot_bytes ss ++ rest) b,
    tuple_reads ss (i + 1) rest b h.1,
    length-append s.bytes (slot_bytes ss),
  )

  pub read_tuple-slots :
      (ss : List (Slot V)) (rest : Bytes) (b : Bool)
      → All SlotLaws ss
      → read_tuple (decoders ss) (source (slot_bytes ss ++ rest) b)
        ≡ done (length (slot_bytes ss)) (slot_values ss) (source rest b)
  unfolding read_tuple
  read_tuple-slots ss rest b h = tuple_reads ss 0 rest b h

  -- What Tuple.WriteTo puts into a buffer, a Tuple of the same fields reads back.
  pub tuple_round_trip :
      (ss : List (Slot V)) (rest : Bytes) (b : Bool)
      → All SlotLaws ss
      → let o = write_tuple (encoders ss) (buffer []) in
        (o.err ≡ none)
        × (read_tuple (decoders ss) (source (o.sink.written ++ rest) b)
            ≡ done o.count (slot_values ss) (source rest b))
  unfolding write_tuple
  tuple_round_trip ss rest b h = rw (tuple_writes ss 0 [] h) (
    refl,
    read_tuple-slots ss rest b h
        ∙ ap (λ (n : ℕ). done n (slot_values ss) (source rest b)) (omega arith),
  )

  tuple_fails :
      (ss : List (Slot V)) (i : ℕ) (d : Decoder V) (ds : List (Decoder V)) (n : ℕ) (e : Error)
      (rest : Bytes) (b : Bool)
      → All SlotLaws ss
      → d (source rest b) ≡ fail n e
      → read_tuple_from i (decoders ss ++ d ∷ ds) (source (slot_bytes ss ++ rest) b)
        ≡ fail (length (slot_bytes ss)) (field (i + length ss) e)
  unfolding read_tuple_from
  tuple_fails [] i d ds n e rest b h bad = rw bad (ground arith)
  tuple_fails (s ∷ ss) i d ds n e rest b h bad =
      rw
        (
          append_assoc s.bytes (slot_bytes ss) rest,
          h.0.reads (slot_bytes ss ++ rest) b,
          tuple_fails ss (i + 1) d ds n e rest b h.1 bad,
          length-append s.bytes (slot_bytes ss),
        )
        (ground arith)

  -- Behind fields that keep their laws, the first field that fails is reported with its index,
  -- and the count is that of the fields before it.
  pub read_tuple_fails :
      (ss : List (Slot V)) (d : Decoder V) (ds : List (Decoder V)) (n : ℕ) (e : Error)
      (rest : Bytes) (b : Bool)
      → All SlotLaws ss
      → d (source rest b) ≡ fail n e
      → read_tuple (decoders ss ++ d ∷ ds) (source (slot_bytes ss ++ rest) b)
        ≡ fail (length (slot_bytes ss)) (field (length ss) e)
  unfolding read_tuple
  read_tuple_fails ss d ds n e rest b h bad =
      tuple_fails ss 0 d ds n e rest b h bad
      ∙ ap (λ (i : ℕ). fail (length (slot_bytes ss)) (field i e)) (omega arith)
