-- ===== src/Nbt/Raw/Payload.antt =====
-- `rawRead` of nbt/decode.go and RawMessage (nbt/rawmsg.go) on a value of the format.
use mc_afk_go.Base.{ℕ, zero, suc, ◌+◌, ◌≤◌, ◌<◌, ◌≡◌, refl, sym, ap, ◌∙◌, arith}
use mc_afk_go.Base.{Bool, false, List, [], ◌∷◌, ◌++◌, length, All, length-append, append_assoc}
use mc_afk_go.Base.{subst, ◌==◌, le→leb, lt→leb, drop-length_append}
use mc_afk_go.Base.Bits.{IsU32, IsU64}
use mc_afk_go.Io.{read_full, Bytes, source, done, Decoder, ◌>>=◌, add_count}
use mc_afk_go.Io.Laws.{read_full-append_of, bind-done}
use mc_afk_go.Wire.Fixed.{put_uint16, put_uint32, put_uint64}
use mc_afk_go.Nbt.{tag_type}
use mc_afk_go.Nbt.Format.{
  Value, byte, short, int, long, float, double, byte_array, string, list, compound, int_array,
  long_array, Items, nil, item, Members, end, member, tag_of, count, encode, encode_items,
  encode_members, encode_ints, encode_longs, IsWellFormed, ItemsWellFormed, MembersWellFormed,
}
use mc_afk_go.Nbt.Read.{read_string, read_int32, read_int64}
use mc_afk_go.Nbt.Read.Ints.{
  read_byte-cons, read_int32-put, read_int64-put, read_string-put, read_tag-put, read_tag-end,
  read_int8-cons, length-put16, length-put32, length-put64,
}
use mc_afk_go.Nbt.Raw.{
  copy_n, raw_items, raw_members, raw_members_next, raw_case, raw_read, rounds, discard,
}

-- A length that is no negative int32, and what it counts.
after_length :
    (n : ℕ) (bs rest : Bytes) (b : Bool) (next : ℕ → Decoder (Unit {0}))
    → n < 0x8000_0000
    → next n (source (bs ++ rest) b) ≡ done (length bs) tt (source rest b)
    → (read_int32 (source ((put_uint32 n ++ bs) ++ rest) b) >>= λ len r. next (rounds len) r)
      ≡ done (length (put_uint32 n ++ bs)) tt (source rest b)
after_length n bs rest b next h e =
    ap (λ (xs : Bytes). read_int32 (source xs b) >>= λ len r. next (rounds len) r)
      (append_assoc (put_uint32 n) bs rest)
    ∙ bind-done (λ len r. next (rounds len) r) (read_int32-put n (bs ++ rest) b (omega arith))
    ∙ rw (lt→leb 0x8000_0000 n h, e)
        (ap (λ (k : ℕ). done k tt (source rest b))
          (omega (arith, length-append (put_uint32 n) bs, length-put32 n)))

copy_n-append :
    (bs rest : Bytes) (b : Bool)
    → copy_n (length bs) (source (bs ++ rest) b) ≡ done (length bs) tt (source rest b)
unfolding copy_n
copy_n-append bs rest b = rw (
  le→leb (length bs) (length (bs ++ rest)) (omega (arith, length-append bs rest)),
  drop-length_append bs rest,
)

raw_items-cons :
    (read : Decoder (Unit {0})) (n : ℕ) (bs cs rest : Bytes) (b : Bool)
    → read (source (bs ++ (cs ++ rest)) b) ≡ done (length bs) tt (source (cs ++ rest) b)
    → raw_items read n (source (cs ++ rest) b) ≡ done (length cs) tt (source rest b)
    → raw_items read (suc n) (source ((bs ++ cs) ++ rest) b)
      ≡ done (length (bs ++ cs)) tt (source rest b)
unfolding raw_items
raw_items-cons read n bs cs rest b h k =
    rw (append_assoc bs cs rest, h, k)
      (ap (λ (m : ℕ). done m tt (source rest b)) (omega (arith, length-append bs cs)))

raw_items-ints :
    (xs : List ℕ) (rest : Bytes) (b : Bool)
    → All IsU32 xs
    → raw_items (λ s. discard (read_int32 s)) (length xs) (source (encode_ints xs ++ rest) b)
      ≡ done (length (encode_ints xs)) tt (source rest b)
unfolding raw_items
raw_items-ints [] rest b h = refl
raw_items-ints (x ∷ xs) rest b h =
    raw_items-cons _ (length xs) (put_uint32 x) (encode_ints xs) rest b
      (rw (read_int32-put x (encode_ints xs ++ rest) b h.0)
        (ap (λ (m : ℕ). done m tt (source (encode_ints xs ++ rest) b)) (sym (length-put32 x))))
      (raw_items-ints xs rest b h.1)

raw_items-longs :
    (xs : List ℕ) (rest : Bytes) (b : Bool)
    → All IsU64 xs
    → raw_items (λ s. discard (read_int64 s)) (length xs) (source (encode_longs xs ++ rest) b)
      ≡ done (length (encode_longs xs)) tt (source rest b)
unfolding raw_items
raw_items-longs [] rest b h = refl
raw_items-longs (x ∷ xs) rest b h =
    raw_items-cons _ (length xs) (put_uint64 x) (encode_longs xs) rest b
      (rw (read_int64-put x (encode_longs xs ++ rest) b h.0)
        (ap (λ (m : ℕ). done m tt (source (encode_longs xs ++ rest) b)) (sym (length-put64 x))))
      (raw_items-longs xs rest b h.1)

-- A read of so many bytes that are there.
skip_full :
    (k : ℕ) (bs rest : Bytes) (b : Bool)
    → length bs ≡ k
    → discard (read_full k (source (bs ++ rest) b)) ≡ done (length bs) tt (source rest b)
skip_full k bs rest b e =
    rw (read_full-append_of k bs rest b e) (ap (λ (m : ℕ). done m tt (source rest b)) (sym e))

pub length-member :
    (tag : ℕ) (name bs cs : Bytes)
    → length (tag ∷ (put_uint16 (length name) ++ (name ++ (bs ++ cs))))
      ≡ 3 + length name + length bs + length cs
length-member tag name bs cs = omega (
  arith,
  length-append (put_uint16 (length name)) (name ++ (bs ++ cs)),
  length-append name (bs ++ cs),
  length-append bs cs,
  length-put16 (length name),
)

raw_members-cons :
    (value : ℕ → Decoder (Unit {0})) (fuel tag : ℕ) (name bs cs rest : Bytes) (b : Bool)
    → 0 < tag
    → tag < 0x1f
    → length name < 0x8000
    → value tag (source (bs ++ (cs ++ rest)) b) ≡ done (length bs) tt (source (cs ++ rest) b)
    → raw_members value fuel (source (cs ++ rest) b) ≡ done (length cs) tt (source rest b)
    → raw_members value
        (suc fuel)
        (source ((tag ∷ (put_uint16 (length name) ++ (name ++ (bs ++ cs)))) ++ rest) b)
      ≡ done (length (tag ∷ (put_uint16 (length name) ++ (name ++ (bs ++ cs))))) tt (source rest b)
unfolding raw_members raw_members_next
raw_members-cons value fuel tag name bs cs rest b pos low short_name h k =
    rw
      (
        append_assoc (put_uint16 (length name)) (name ++ (bs ++ cs)) rest,
        append_assoc name (bs ++ cs) rest,
        append_assoc bs cs rest,
        read_tag-put tag name (bs ++ (cs ++ rest)) b pos low short_name,
        not_end,
        h,
        k,
      )
      (ap (λ (m : ℕ). done m tt (source rest b)) (omega (arith, length-member tag name bs cs)))
  where
    not_end : (tag == 0) ≡ false
    not_end = ground arith

raw_members-last :
    (value : ℕ → Decoder (Unit {0})) (fuel : ℕ) (rest : Bytes) (b : Bool)
    → raw_members value (suc fuel) (source (0 ∷ rest) b) ≡ done 1 tt (source rest b)
unfolding raw_members raw_members_next
raw_members-last value fuel rest b = rw (read_tag-end rest b)

raw_items-none :
    (read : Decoder (Unit {0})) (rest : Bytes) (b : Bool)
    → raw_items read 0 (source rest b) ≡ done 0 tt (source rest b)
unfolding raw_items
raw_items-none read rest b = refl

skip_string :
    (s rest : Bytes) (b : Bool)
    → length s < 0x8000
    → discard (read_string (source ((put_uint16 (length s) ++ s) ++ rest) b))
      ≡ done (length (put_uint16 (length s) ++ s)) tt (source rest b)
skip_string s rest b h =
    rw (append_assoc (put_uint16 (length s)) s rest, read_string-put s rest b h)
      (ap (λ (m : ℕ). done m tt (source rest b))
        (omega (arith, length-append (put_uint16 (length s)) s, length-put16 (length s))))

pub tag_of_bounds : (v : Value) → (0 < tag_of v) × (tag_of v < 0x1f)
tag_of_bounds (byte v) = omega arith
tag_of_bounds v = omega arith

mutual
  unfolding raw_read raw_case tag_type encode IsWellFormed

  -- A value of the format is read as a whole, and nothing after it.
  pub raw_read-encode :
      (fuel : ℕ) (v : Value) (rest : Bytes) (b : Bool)
      → IsWellFormed v
      → length (encode v) < fuel
      → raw_read fuel (tag_of v) (source (encode v ++ rest) b)
        ≡ done (length (encode v)) tt (source rest b)
  raw_read-encode zero v rest b w l = absurd (omega arith)
  raw_read-encode (suc fuel) (byte v) rest b w l = rw (read_int8-cons v rest b)
  raw_read-encode (suc fuel) (short v) rest b w l =
      skip_full 2 (put_uint16 v) rest b (length-put16 v)
  raw_read-encode (suc fuel) (int v) rest b w l = skip_full 4 (put_uint32 v) rest b (length-put32 v)
  raw_read-encode (suc fuel) (long v) rest b w l =
      skip_full 8 (put_uint64 v) rest b (length-put64 v)
  raw_read-encode (suc fuel) (float v) rest b w l =
      skip_full 4 (put_uint32 v) rest b (length-put32 v)
  raw_read-encode (suc fuel) (double v) rest b w l =
      skip_full 8 (put_uint64 v) rest b (length-put64 v)
  raw_read-encode (suc fuel) (byte_array bs) rest b w l =
      after_length (length bs) bs rest b copy_n w (copy_n-append bs rest b)
  raw_read-encode (suc fuel) (string s) rest b w l = skip_string s rest b w
  raw_read-encode (suc fuel) (list t vs) rest b w l =
      bind-done _ (read_byte-cons t _ b)
      ∙ ap (add_count 1) (
          after_length (count vs) (encode_items vs) rest b (raw_items (raw_read fuel t)) w.0 (
            raw_items-encode fuel t vs rest b w.1
              (omega (arith, length-append (put_uint32 (count vs)) (encode_items vs)))))
      ∙ ap (λ (k : ℕ). done k tt (source rest b)) (omega arith)
  raw_read-encode (suc fuel) (compound ms) rest b w l =
      raw_members-encode fuel (suc fuel) ms rest b w l (omega arith)
  raw_read-encode (suc fuel) (int_array vs) rest b w l =
      after_length (length vs) (encode_ints vs) rest b (raw_items (λ s. discard (read_int32 s))) w.0
        (raw_items-ints vs rest b w.1)
  raw_read-encode (suc fuel) (long_array vs) rest b w l =
      after_length (length vs) (encode_longs vs) rest b (raw_items (λ s. discard (read_int64 s)))
        w.0 (raw_items-longs vs rest b w.1)

  raw_items-encode :
      (fuel t : ℕ) (vs : Items) (rest : Bytes) (b : Bool)
      → ItemsWellFormed t vs
      → length (encode_items vs) < fuel
      → raw_items (raw_read fuel t) (count vs) (source (encode_items vs ++ rest) b)
        ≡ done (length (encode_items vs)) tt (source rest b)
  raw_items-encode fuel t nil rest b w l = raw_items-none (raw_read fuel t) rest b
  raw_items-encode fuel t (item v vs) rest b w l =
      let both : length (encode v ++ encode_items vs)
          ≡ length (encode v) + length (encode_items vs) =
        length-append (encode v) (encode_items vs) in
      raw_items-cons (raw_read fuel t) (count vs) (encode v) (encode_items vs) rest b
        (subst
          (λ (k : ℕ).
            raw_read fuel k (source (encode v ++ (encode_items vs ++ rest)) b)
            ≡ done (length (encode v)) tt (source (encode_items vs ++ rest) b))
          w.0 (raw_read-encode fuel v (encode_items vs ++ rest) b w.1 (omega arith)))
        (raw_items-encode fuel t vs rest b w.2 (omega arith))

  raw_members-encode :
      (fuel left : ℕ) (ms : Members) (rest : Bytes) (b : Bool)
      → MembersWellFormed ms
      → length (encode_members ms) < left
      → length (encode_members ms) ≤ fuel
      → raw_members (raw_read fuel) left (source (encode_members ms ++ rest) b)
        ≡ done (length (encode_members ms)) tt (source rest b)
  raw_members-encode fuel zero ms rest b w l k = absurd (omega arith)
  raw_members-encode fuel (suc left) end rest b w l k = raw_members-last (raw_read fuel) left rest b
  raw_members-encode fuel (suc left) (member name v ms) rest b w l k =
      let sizes : length (encode_members (member name v ms))
          ≡ 3 + length name + length (encode v) + length (encode_members ms) =
        length-member (tag_of v) name (encode v) (encode_members ms) in
      raw_members-cons (raw_read fuel) left (tag_of v) name (encode v) (encode_members ms) rest b
        (tag_of_bounds v).0 (tag_of_bounds v).1 w.0
        (raw_read-encode fuel v (encode_members ms ++ rest) b w.1 (omega arith))
        (raw_members-encode fuel left ms rest b w.2 (omega arith) (omega arith))
