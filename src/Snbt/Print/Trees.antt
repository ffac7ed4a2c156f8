-- ===== src/Snbt/Print/Trees.antt =====
-- `encode` of nbt/snbt.go on a value of the format.
use mc_afk_go.Base.{ℕ, zero, suc, ◌+◌, ◌≤◌, ◌<◌, ◌≡◌, sym, ap, ◌∙◌, subst, arith}
use mc_afk_go.Base.{Bool, true, false, ◌==◌, if◌then◌else◌, List, [], ◌∷◌, ◌++◌, map, length}
use mc_afk_go.Base.{length-append, append_assoc, append-nil}
use mc_afk_go.Io.{Bytes, source, done, add_count}
use mc_afk_go.Io.Laws.{bind-done}
use mc_afk_go.Wire.Fixed.{put_uint32}
use mc_afk_go.Nbt.{tag_type}
use mc_afk_go.Nbt.Format.{
  Value, byte, short, int, long, float, double, byte_array, string, list, compound, int_array,
  long_array, Items, nil, item, Members, end, member, tag_of, count, encode, encode_items,
  encode_members, encode_ints, encode_longs, IsWellFormed, ItemsWellFormed, MembersWellFormed,
}
use mc_afk_go.Nbt.Raw.Payload.{length-member, tag_of_bounds}
use mc_afk_go.Nbt.Read.Ints.{
  read_byte-cons, read_int16-put, read_int32-put, read_int64-put, length-put16, length-put32,
  length-put64,
}
use mc_afk_go.Snbt.Escape.{write_escape_str}
use mc_afk_go.Snbt.Print.{
  byte_text, short_text, int_text, int_element_text, long_text, print_items, in_brackets,
  print_array, print_members, print_case, print_read, unmarshal_stringified, raw_string, raw_text,
  shown,
}
use mc_afk_go.Snbt.Print.Values.{
  separated, preceded, bracketed, print_items-cons, print_items-none, print_items-bytes,
  print_items-ints, print_items-longs,
}
use mc_afk_go.Snbt.Print.Members.{
  print_members-last, print_members-cons, print_string, opened, opened-first,
}

module _ (format_float32 format_float64 : ℕ → Bytes) where
  -- The text of a tree: the elements of a list and the members of a compound have a comma between
  -- any two.
  unfoldable mutual
    pub print : Value → Bytes
    print (byte v) = byte_text v
    print (short v) = short_text v
    print (int v) = int_text v
    print (long v) = long_text v
    print (float v) = format_float32 v ++ b'F' ∷ []
    print (double v) = format_float64 v ++ b'D' ∷ []
    print (byte_array bs) = in_brackets (b'[' ∷ b'B' ∷ b';' ∷ []) (separated (map byte_text bs))
    print (string s) = write_escape_str s
    print (list t vs) = in_brackets (b'[' ∷ []) (separated (item_texts vs))
    print (compound ms) = b'{' ∷ (separated (member_texts ms) ++ b'}' ∷ [])
    print (int_array vs) =
        in_brackets (b'[' ∷ b'I' ∷ b';' ∷ []) (separated (map int_element_text vs))
    print (long_array vs) = in_brackets (b'[' ∷ b'L' ∷ b';' ∷ []) (separated (map long_text vs))

    pub item_texts : Items → List Bytes
    item_texts nil = []
    item_texts (item v vs) = print v ∷ item_texts vs

    pub member_texts : Members → List Bytes
    member_texts end = []
    member_texts (member name v ms) = (write_escape_str name ++ (b':' ∷ print v)) ∷ member_texts ms

  mutual
    unfolding print_read print_case print_array tag_type encode IsWellFormed print preceded opened

    -- What encode prints of the bytes of a value is the value's text.
    pub print_read-encode :
        (fuel : ℕ) (v : Value) (rest : Bytes) (b : Bool)
        → IsWellFormed v
        → length (encode v) < fuel
        → print_read format_float32 format_float64 fuel (tag_of v) (source (encode v ++ rest) b)
          ≡ done (length (encode v)) (print v) (source rest b)
    print_read-encode zero v rest b w l = absurd (omega arith)
    print_read-encode (suc fuel) (byte v) rest b w l = rw (read_byte-cons v rest b)
    print_read-encode (suc fuel) (short v) rest b w l =
        rw (read_int16-put v rest b w, length-put16 v)
    print_read-encode (suc fuel) (int v) rest b w l = rw (read_int32-put v rest b w, length-put32 v)
    print_read-encode (suc fuel) (long v) rest b w l =
        rw (read_int64-put v rest b w, length-put64 v)
    print_read-encode (suc fuel) (float v) rest b w l =
        rw (read_int32-put v rest b w, length-put32 v)
    print_read-encode (suc fuel) (double v) rest b w l =
        rw (read_int64-put v rest b w, length-put64 v)
    print_read-encode (suc fuel) (byte_array bs) rest b w l =
        bracketed (length bs) (b'[' ∷ b'B' ∷ b';' ∷ []) bs rest (map byte_text bs) b
          (print_items true _) w (print_items-bytes true bs rest b)
    print_read-encode (suc fuel) (string s) rest b w l = print_string s rest b w
    print_read-encode (suc fuel) (list t vs) rest b w l =
        bind-done _ (read_byte-cons t _ b)
        ∙ ap (add_count 1) (
            bracketed (count vs) (b'[' ∷ []) (encode_items vs) rest (item_texts vs) b
              (print_items true (print_read format_float32 format_float64 fuel t)) w.0
              (print_items-encode fuel t true vs rest b w.1
                (omega (arith, length-append (put_uint32 (count vs)) (encode_items vs)))))
        ∙ ap (λ (k : ℕ). done k (print (list t vs)) (source rest b)) (omega arith)
    print_read-encode (suc fuel) (compound ms) rest b w l =
        print_members-encode fuel (suc fuel) true ms rest b w l (omega arith)
        ∙ ap (λ (t : Bytes). done (length (encode_members ms)) t (source rest b))
            (opened-first (member_texts ms))
    print_read-encode (suc fuel) (int_array vs) rest b w l =
        bracketed (length vs) (b'[' ∷ b'I' ∷ b';' ∷ []) (encode_ints vs) rest
          (map int_element_text vs) b (print_items true _) w.0 (print_items-ints true vs rest b w.1)
    print_read-encode (suc fuel) (long_array vs) rest b w l =
        bracketed (length vs) (b'[' ∷ b'L' ∷ b';' ∷ []) (encode_longs vs) rest (map long_text vs) b
          (print_items true _) w.0 (print_items-longs true vs rest b w.1)

    print_items-encode :
        (fuel t : ℕ) (first : Bool) (vs : Items) (rest : Bytes) (b : Bool)
        → ItemsWellFormed t vs
        → length (encode_items vs) < fuel
        → print_items first
            (print_read format_float32 format_float64 fuel t)
            (count vs)
            (source (encode_items vs ++ rest) b)
          ≡ done (length (encode_items vs)) (preceded first (item_texts vs)) (source rest b)
    print_items-encode fuel t first nil rest b w l =
        print_items-none (print_read format_float32 format_float64 fuel t) first rest b
    print_items-encode fuel t first (item v vs) rest b w l =
        let both : length (encode v ++ encode_items vs)
            ≡ length (encode v) + length (encode_items vs) =
          length-append (encode v) (encode_items vs) in
        print_items-cons (print_read format_float32 format_float64 fuel t) first (count vs)
          (encode v) (encode_items vs) rest (print v) _ b
          (subst
            (λ (k : ℕ).
              print_read format_float32 format_float64 fuel k
                (source (encode v ++ (encode_items vs ++ rest)) b)
              ≡ done (length (encode v)) (print v) (source (encode_items vs ++ rest) b))
            w.0 (print_read-encode fuel v (encode_items vs ++ rest) b w.1 (omega arith)))
          (print_items-encode fuel t false vs rest b w.2 (omega arith))

    print_members-encode :
        (fuel left : ℕ) (first : Bool) (ms : Members) (rest : Bytes) (b : Bool)
        → MembersWellFormed ms
        → length (encode_members ms) < left
        → length (encode_members ms) ≤ fuel
        → print_members
            (print_read format_float32 format_float64 fuel)
            left
            first
            (source (encode_members ms ++ rest) b)
          ≡ done (length (encode_members ms)) (opened first (member_texts ms)) (source rest b)
    print_members-encode fuel zero first ms rest b w l k = absurd (omega arith)
    print_members-encode fuel (suc left) first end rest b w l k =
        print_members-last (print_read format_float32 format_float64 fuel) left first rest b
    print_members-encode fuel (suc left) first (member name v ms) rest b w l k =
        let sizes : length (encode_members (member name v ms))
            ≡ 3 + length name + length (encode v) + length (encode_members ms) =
          length-member (tag_of v) name (encode v) (encode_members ms) in
        print_members-cons (print_read format_float32 format_float64 fuel) left (tag_of v) first
          name (encode v) (encode_members ms) rest (print v) _ b (tag_of_bounds v).0
          (tag_of_bounds v).1 w.0
          (print_read-encode fuel v (encode_members ms ++ rest) b w.1 (omega arith))
          (print_members-encode fuel left false ms rest b w.2 (omega arith) (omega arith))
        ∙ ap
            (λ (t : Bytes).
              done (length (encode_members (member name v ms)))
                ((if first then b'{' ∷ [] else b',' ∷ []) ++ t) (source rest b))
            (sym (
              append_assoc (write_escape_str name) (b':' ∷ print v)
                (opened false (member_texts ms))))

  -- For a well-formed value, UnmarshalNBT of a StringifiedMessage on the value's encoding
  -- returns the text of the value's tree, a comma between any two elements and members, and
  -- leaves what follows; String of a RawMessage with that encoding shows the same text.
  pub stringified-print :
      (v : Value) (rest : Bytes) (b : Bool)
      → IsWellFormed v
      → (unmarshal_stringified format_float32 format_float64
            (tag_of v)
            (source (encode v ++ rest) b)
          ≡ done (length (encode v)) (print v) (source rest b))
        × (raw_string format_float32 format_float64 (record { tag = tag_of v; content = encode v })
            ≡ shown (print v))
  unfolding unmarshal_stringified raw_string raw_text
  stringified-print v rest b w = (
    rw (
      not_end,
      print_read-encode (suc (length (encode v ++ rest))) v rest b w
          (omega (arith, length-append (encode v) rest)),
    ),
    rw (not_end, alone),
  )
    where
      not_end : (tag_of v == 0) ≡ false
      not_end = ground (arith, tag_of_bounds v)

      alone :
          print_read format_float32 format_float64
            (suc (length (encode v)))
            (tag_of v)
            (source (encode v) true)
          ≡ done (length (encode v)) (print v) (source [] true)
      alone =
          ap
            (λ (bs : Bytes).
              print_read format_float32 format_float64 (suc (length (encode v))) (tag_of v)
                (source bs true))
            (sym (append-nil (encode v)))
          ∙ print_read-encode (suc (length (encode v))) v [] true w (omega arith)
