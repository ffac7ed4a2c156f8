-- ===== src/Snbt/Print/Values.antt =====
-- `encode` of nbt/snbt.go against a printer of the format's trees.
use mc_afk_go.Base.{ℕ, suc, ◌<◌, ◌≡◌, refl, ap, ◌∙◌, arith}
use mc_afk_go.Base.{Bool, true, false, List, [], ◌∷◌, ◌++◌, map, length, All}
use mc_afk_go.Base.{length-append, append_assoc, append-nil, lt→leb}
use mc_afk_go.Base.Bits.{IsU32, IsU64}
use mc_afk_go.Io.{Bytes, source, done, Decoder, ◌>>=◌, map_value}
use mc_afk_go.Io.Laws.{bind-done}
use mc_afk_go.Wire.Fixed.{put_uint32, put_uint64}
use mc_afk_go.Nbt.Format.{encode_ints, encode_longs}
use mc_afk_go.Nbt.Raw.{rounds}
use mc_afk_go.Nbt.Read.{read_byte, read_int32, read_int64}
use mc_afk_go.Nbt.Read.Ints.{
  read_byte-cons, read_int32-put, read_int64-put, length-put32, length-put64,
}
use mc_afk_go.Snbt.Print.{byte_text, int_element_text, long_text, comma, print_items, in_brackets}

-- Texts with a comma between any two.
unfoldable pub separated : List Bytes → Bytes
separated [] = []
separated (t ∷ []) = t
separated (t ∷ u ∷ us) = t ++ (b',' ∷ separated (u ∷ us))

-- Texts with a comma before each, or before all but the first.
unfoldable pub preceded : Bool → List Bytes → Bytes
preceded first [] = []
preceded first (t ∷ ts) = comma first ++ (t ++ preceded false ts)

pub preceded-separated : (ts : List Bytes) → preceded true ts ≡ separated ts
unfolding preceded separated
preceded-separated [] = refl
preceded-separated (t ∷ []) = append-nil t
preceded-separated (t ∷ u ∷ us) =
    ap (λ (rest : Bytes). t ++ (b',' ∷ rest)) (preceded-separated (u ∷ us))

pub print_items-cons :
    (read : Decoder Bytes) (first : Bool) (n : ℕ) (bs cs rest t u : Bytes) (b : Bool)
    → read (source (bs ++ (cs ++ rest)) b) ≡ done (length bs) t (source (cs ++ rest) b)
    → print_items false read n (source (cs ++ rest) b) ≡ done (length cs) u (source rest b)
    → print_items first read (suc n) (source ((bs ++ cs) ++ rest) b)
      ≡ done (length (bs ++ cs)) (comma first ++ (t ++ u)) (source rest b)
unfolding print_items
print_items-cons read first n bs cs rest t u b h k =
    rw (append_assoc bs cs rest, h, k)
      (ap (λ (m : ℕ). done m (comma first ++ (t ++ u)) (source rest b))
        (omega (arith, length-append bs cs)))

pub print_items-none :
    (read : Decoder Bytes) (first : Bool) (rest : Bytes) (b : Bool)
    → print_items first read 0 (source rest b) ≡ done 0 [] (source rest b)
unfolding print_items
print_items-none read first rest b = refl

-- The elements of the three arrays.
pub print_items-bytes :
    (first : Bool) (xs rest : Bytes) (b : Bool)
    → print_items first (λ s. map_value byte_text (read_byte s)) (length xs) (source (xs ++ rest) b)
      ≡ done (length xs) (preceded first (map byte_text xs)) (source rest b)
unfolding preceded
print_items-bytes first [] rest b = print_items-none _ first rest b
print_items-bytes first (x ∷ xs) rest b =
    print_items-cons _ first (length xs) (x ∷ []) xs rest (byte_text x) _ b
      (rw (read_byte-cons x (xs ++ rest) b)) (print_items-bytes false xs rest b)

pub print_items-ints :
    (first : Bool) (xs : List ℕ) (rest : Bytes) (b : Bool)
    → All IsU32 xs
    → print_items first
        (λ s. map_value int_element_text (read_int32 s))
        (length xs)
        (source (encode_ints xs ++ rest) b)
      ≡ done (length (encode_ints xs)) (preceded first (map int_element_text xs)) (source rest b)
unfolding preceded
print_items-ints first [] rest b h = print_items-none _ first rest b
print_items-ints first (x ∷ xs) rest b h =
    print_items-cons _ first (length xs) (put_uint32 x) (encode_ints xs) rest (int_element_text x) _
      b (rw (read_int32-put x (encode_ints xs ++ rest) b h.0, length-put32 x))
      (print_items-ints false xs rest b h.1)

pub print_items-longs :
    (first : Bool) (xs : List ℕ) (rest : Bytes) (b : Bool)
    → All IsU64 xs
    → print_items first
        (λ s. map_value long_text (read_int64 s))
        (length xs)
        (source (encode_longs xs ++ rest) b)
      ≡ done (length (encode_longs xs)) (preceded first (map long_text xs)) (source rest b)
unfolding preceded
print_items-longs first [] rest b h = print_items-none _ first rest b
print_items-longs first (x ∷ xs) rest b h =
    print_items-cons _ first (length xs) (put_uint64 x) (encode_longs xs) rest (long_text x) _ b
      (rw (read_int64-put x (encode_longs xs ++ rest) b h.0, length-put64 x))
      (print_items-longs false xs rest b h.1)

-- A length that is no negative int32, and the elements after it, in brackets.
pub bracketed :
    (n : ℕ) (opening bs rest : Bytes) (ts : List Bytes) (b : Bool) (next : ℕ → Decoder Bytes)
    → n < 0x8000_0000
    → next n (source (bs ++ rest) b) ≡ done (length bs) (preceded true ts) (source rest b)
    → (read_int32 (source ((put_uint32 n ++ bs) ++ rest) b) >>= λ len r.
        map_value (in_brackets opening) (next (rounds len) r))
      ≡ done (length (put_uint32 n ++ bs)) (in_brackets opening (separated ts)) (source rest b)
bracketed n opening bs rest ts b next h e =
    ap
      (λ (xs : Bytes).
        read_int32 (source xs b) >>= λ len r. map_value (in_brackets opening) (next (rounds len) r))
      (append_assoc (put_uint32 n) bs rest)
    ∙ bind-done (λ len r. map_value (in_brackets opening) (next (rounds len) r))
        (read_int32-put n (bs ++ rest) b (omega arith))
    ∙ rw (lt→leb 0x8000_0000 n h, e, preceded-separated ts)
        (ap (λ (k : ℕ). done k (in_brackets opening (separated ts)) (source rest b))
          (omega (arith, length-append (put_uint32 n) bs, length-put32 n)))
