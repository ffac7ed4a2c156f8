-- ===== src/Field/Arrays.antt =====
-- Ary with a VarInt length, which `Array` of net/packet/util.go makes, in its writing and its
-- reading into slices of any size.
use mc_afk_go.Base.{ℕ, zero, suc, ◌+◌, ◌≤◌, ◌<◌, ◌≡◌, refl, sym, ap, ◌∙◌, fun_ext, Bool, arith}
use mc_afk_go.Base.{List, [], ◌∷◌, ◌++◌, length, drop, append_assoc, length-append, append-nil}
use mc_afk_go.Base.{
  All, ltb, le→ltb, lt→ltb, lt→leb, replicate, if◌then◌else◌, none, length-replicate,
}
use mc_afk_go.Io.{Bytes, done, panic, source, buffer, Writer, write, add_count}
use mc_afk_go.Io.{and_then}
use mc_afk_go.Io.Laws.{write-append, write-nil, write-buffer, bind-done}
use mc_afk_go.Wire.VarInt.Groups.{groups}
use mc_afk_go.Base.{Bool-cases, inl, inr, ◌⊎◌, ltb→lt}
use mc_afk_go.Wire.Text.RoundTrip.{FitsInt, write_length, read_length}
use mc_afk_go.Field.{FieldEncoder, FieldDecoder, var_int_length, write_elements}
use mc_afk_go.Field.{write_ary, read_elements, read_ary_body, read_ary}
use mc_afk_go.Field.Laws.{Lawful}

drop-all {ℓ} : {A : Type ℓ} (n : ℕ) (xs : List A) → length xs ≡ n → drop n xs ≡ []
drop-all zero [] h = refl
drop-all zero (x ∷ xs) h = absurd (omega arith)
drop-all (suc n) [] h = refl
drop-all (suc n) (x ∷ xs) h = drop-all n xs (omega arith)

module _ {A : Type 0} (write_to : A → FieldEncoder) (read_from : FieldDecoder A)
    (encode : A → Bytes) (IsValid : A → Type 0)
    (law : Lawful write_to read_from encode IsValid) where
  abbrev pub encode_all : List A → Bytes
  encode_all [] = []
  encode_all (x ∷ xs) = encode x ++ encode_all xs

  abbrev pub encode_array : List A → Bytes
  encode_array xs = groups 4 (length xs) ++ encode_all xs

  elements-writes :
      (xs : List A) (w : Writer)
      → All IsValid xs
      → write_elements write_to xs w ≡ write w (encode_all xs)
  unfolding write_elements
  elements-writes [] w h = sym (write-nil w)
  elements-writes (x ∷ xs) w h = rw (law.writes x w h.0) (
      ap (and_then (write w (encode x))) (fun_ext (λ v. elements-writes xs v h.1))
      ∙ write-append w (encode x) (encode_all xs))

  -- The elements are read over the slice's first ones, and the others stay.
  elements-reads :
      (xs old : List A) (rest : Bytes) (b : Bool)
      → All IsValid xs
      → length xs ≤ length old
      → read_elements read_from (length xs) old (source (encode_all xs ++ rest) b)
        ≡ done (length (encode_all xs)) (xs ++ drop (length xs) old) (source rest b)
  unfolding read_elements
  elements-reads [] old rest b h fits = refl
  elements-reads (x ∷ xs) [] rest b h fits = absurd (omega arith)
  elements-reads (x ∷ xs) (y ∷ old) rest b h fits = rw (
    append_assoc (encode x) (encode_all xs) rest,
    law.reads x y (encode_all xs ++ rest) b h.0,
    elements-reads xs old rest b h.1 (omega arith),
    length-append (encode x) (encode_all xs),
  )

  -- With fewer elements in the slice than are sent, the loop indexes past its end.
  elements-panic :
      (xs old : List A) (rest : Bytes) (b : Bool)
      → All IsValid xs
      → length old < length xs
      → read_elements read_from (length xs) old (source (encode_all xs ++ rest) b) ≡ panic
  unfolding read_elements
  elements-panic [] old rest b h few = absurd (omega arith)
  elements-panic (x ∷ xs) [] rest b h few = refl
  elements-panic (x ∷ xs) (y ∷ old) rest b h few = rw (
    append_assoc (encode x) (encode_all xs) rest,
    law.reads x y (encode_all xs ++ rest) b h.0,
    elements-panic xs old rest b h.1 (omega arith),
  )

  array-writes :
      (xs : List A)
      → FitsInt (length xs)
      → All IsValid xs
      → write_ary var_int_length write_to xs (buffer []) ≡ write (buffer []) (encode_array xs)
  unfolding write_ary
  array-writes xs n h = rw (
    write_length (length xs) (buffer []) n,
    write-buffer [] (groups 4 (length xs)),
    elements-writes xs (buffer (groups 4 (length xs))) h,
    write-buffer (groups 4 (length xs)) (encode_all xs),
    write-buffer [] (encode_array xs),
    length-append (groups 4 (length xs)) (encode_all xs),
  )

  read_body :
      (xs old : List A) (zero_value : A) (capacity : ℕ) (rest : Bytes) (b : Bool)
      → FitsInt (length xs)
      → read_ary var_int_length read_from zero_value capacity old
          (source (encode_array xs ++ rest) b)
        ≡ add_count (length (groups 4 (length xs))) (
            read_elements read_from
              (length xs)
              (if ltb capacity (length xs) then replicate (length xs) zero_value else old)
              (source (encode_all xs ++ rest) b))
  unfolding read_ary
  read_body xs old zero_value capacity rest b n =
      bind-done (read_ary_body var_int_length read_from zero_value capacity old)
        (read_length (length xs) (encode_all xs) rest b n)
      ∙ rw (lt→leb 0x8000_0000 (length xs) n)

  -- For elements of a lawful type, what Array(xs) writes into a buffer, it reads back with the
  -- same count, into a slice that is too small, for which it makes one, or that has the same
  -- length. The count of elements fits an int32.
  pub array_round_trip :
      (xs old : List A) (zero_value : A) (capacity : ℕ) (rest : Bytes) (b : Bool)
      → FitsInt (length xs)
      → All IsValid xs
      → (capacity < length xs) ⊎ (length old ≡ length xs)
      → let o = write_ary var_int_length write_to xs (buffer []) in
        (o.err ≡ none)
        × (read_ary var_int_length read_from zero_value capacity old
              (source (o.sink.written ++ rest) b)
            ≡ done o.count xs (source rest b))
  array_round_trip xs old zero_value capacity rest b n h fresh =
      rw
        (
          array-writes xs n h,
          write-buffer [] (encode_array xs),
          read_body xs old zero_value capacity rest b n,
          length-append (groups 4 (length xs)) (encode_all xs),
        )
        (refl, back fresh)
    where
      exactly :
          (slice : List A)
          → length slice ≡ length xs
          → add_count
              (length (groups 4 (length xs)))
              (read_elements read_from (length xs) slice (source (encode_all xs ++ rest) b))
            ≡ done (length (groups 4 (length xs)) + length (encode_all xs)) xs (source rest b)
      exactly slice e = rw (
        elements-reads xs slice rest b h (omega arith),
        drop-all (length xs) slice (omega arith),
        append-nil xs,
      )

      back :
          (capacity < length xs) ⊎ (length old ≡ length xs)
          → add_count (length (groups 4 (length xs))) (
              read_elements read_from
                (length xs)
                (if ltb capacity (length xs) then replicate (length xs) zero_value else old)
                (source (encode_all xs ++ rest) b))
            ≡ done (length (groups 4 (length xs)) + length (encode_all xs)) xs (source rest b)
      back (inl small) =
          rw (lt→ltb capacity (length xs) small)
            (exactly (replicate (length xs) zero_value) (length-replicate (length xs) zero_value))
      back (inr same) = elim (Bool-cases (ltb capacity (length xs))) [
        | inl small ↦
            rw small
              (exactly (replicate (length xs) zero_value) (length-replicate (length xs) zero_value))
        | inr large ↦ rw large (exactly old same)
      ]

  -- For elements of a lawful type, a slice with capacity for what is sent keeps its length in
  -- Ary.ReadFrom: the elements past the count stay in it, and a slice that is shorter than the
  -- count makes ReadFrom panic.
  pub array_into_capacity :
      (xs old : List A) (zero_value : A) (capacity : ℕ) (rest : Bytes) (b : Bool)
      → FitsInt (length xs)
      → All IsValid xs
      → length xs ≤ capacity
      → let r =
          read_ary var_int_length read_from zero_value capacity old
            (source (encode_array xs ++ rest) b) in
        ((length xs ≤ length old)
          × (r ≡ done (length (encode_array xs)) (xs ++ drop (length xs) old) (source rest b)))
        ⊎ ((length old < length xs) × (r ≡ panic))
  array_into_capacity xs old zero_value capacity rest b n h room =
      rw
        (
          read_body xs old zero_value capacity rest b n,
          le→ltb capacity (length xs) room,
          length-append (groups 4 (length xs)) (encode_all xs),
        )
        (elim (Bool-cases (ltb (length old) (length xs))) [
          | inl few ↦ inr (ltb→lt _ _ few, rw (elements-panic xs old rest b h (ltb→lt _ _ few)))
          | inr many ↦ inl (ground arith, rw (elements-reads xs old rest b h (ground arith)))
        ])
