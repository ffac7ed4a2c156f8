-- ===== src/Nbt/Read/Ints.antt =====
-- What the reading primitives of nbt/decode.go make of the big-endian bytes of a value.
use mc_afk_go.Base.{ℕ, suc, ◌+◌, ◌*◌, ◌^◌, ◌≤◌, ◌<◌, ◌≡◌, refl, ap, ◌∙◌, arith}
use mc_afk_go.Base.{Bool, true, false, [], ◌∷◌, ◌++◌, length, bit_or}
use mc_afk_go.Base.{Bool-cases, inl, inr, ◌⊎◌, leb→le, le→leb}
use mc_afk_go.Base.Bits.{
  shl, shr, u8, negative16, u16, u32, u64, IsByte, IsU16, IsU32, IsU64, bit_or-shl,
}
use mc_afk_go.Io.{Bytes, source, done, add_count, fail, negative_string_length, compressed_data}
use mc_afk_go.Io.Laws.{read_full-append_of, read_full-append, bind-done}
use mc_afk_go.Wire.Fixed.{put_uint16, put_uint32, put_uint64}
use native.Mathlib.Numerals.{towards_suc}
use native.Mathlib.Nat.{one-le-pow}
use mc_afk_go.Nbt.Read.{
  join16, join32, join64, read_byte, read_int8, read_int16, read_int32, read_int64, read_string,
  read_tag, read_string_bytes, read_tag_name,
}

pub read_byte-cons :
    (c : ℕ) (rest : Bytes) (b : Bool) → read_byte (source (c ∷ rest) b) ≡ done 1 c (source rest b)
unfolding read_byte
read_byte-cons c rest true = refl
read_byte-cons c rest false = refl

pow_byte : (k : ℕ) → 2 ^ (k + 8) ≡ 256 * 2 ^ k
pow_byte k = simp towards_suc (omega arith)

pub read_int8-cons :
    (c : ℕ) (rest : Bytes) (b : Bool) → read_int8 (source (c ∷ rest) b) ≡ done 1 c (source rest b)
unfolding read_int8
read_int8-cons c rest b = read_byte-cons c rest b

scale_lt : (b p : ℕ) → IsByte b → 1 ≤ p → b * p < 256 * p
scale_lt b p h k = grind arith

regroup : (q b p : ℕ) → q * (256 * p) + b * p ≡ (q * 256 + b) * p
regroup q b p = grind arith

-- A byte shifted over `k` bits, below what is joined already.
join_shifted : (k q b : ℕ) → IsByte b → bit_or (q * 2 ^ (k + 8)) (b * 2 ^ k) ≡ (q * 256 + b) * 2 ^ k
join_shifted k q b h =
    bit_or-shl (k + 8) q (b * 2 ^ k)
      (rw (pow_byte k) (scale_lt b (2 ^ k) h (one-le-pow k 2 (omega arith))))
    ∙ rw (pow_byte k) (regroup q b (2 ^ k))

join16-bytes : (a b : ℕ) → IsByte a → IsByte b → join16 (a ∷ b ∷ []) ≡ a * 256 + b
unfolding join16
join16-bytes a b ha hb =
    let first : u16 (shl a 8) ≡ a * 2 ^ 8 = omega arith in
    ap (λ (x : ℕ). bit_or x b) first ∙ bit_or-shl 8 a b hb

join32-bytes :
    (a b c d : ℕ)
    → IsByte a
    → IsByte b
    → IsByte c
    → IsByte d
    → join32 (a ∷ b ∷ c ∷ d ∷ []) ≡ ((a * 256 + b) * 256 + c) * 256 + d
unfolding join32
join32-bytes a b c d ha hb hc hd =
    let first : u32 (shl a 24) ≡ a * 2 ^ 24 = omega arith in
    let second : u32 (shl b 16) ≡ b * 2 ^ 16 = omega arith in
    let third : u32 (shl c 8) ≡ c * 2 ^ 8 = omega arith in
    rw (first, second, third, join_shifted 16 a b hb, join_shifted 8 (a * 256 + b) c hc)
      (bit_or-shl 8 ((a * 256 + b) * 256 + c) d hd)

join64-bytes :
    (a b c d e f g h : ℕ)
    → IsByte a
    → IsByte b
    → IsByte c
    → IsByte d
    → IsByte e
    → IsByte f
    → IsByte g
    → IsByte h
    → join64 (a ∷ b ∷ c ∷ d ∷ e ∷ f ∷ g ∷ h ∷ [])
      ≡ ((((((a * 256 + b) * 256 + c) * 256 + d) * 256 + e) * 256 + f) * 256 + g) * 256 + h
unfolding join64
join64-bytes a b c d e f g h ha hb hc hd he hf hg hh =
    let first : u64 (shl a 56) ≡ a * 2 ^ 56 = omega arith in
    let second : u64 (shl b 48) ≡ b * 2 ^ 48 = omega arith in
    let third : u64 (shl c 40) ≡ c * 2 ^ 40 = omega arith in
    let fourth : u64 (shl d 32) ≡ d * 2 ^ 32 = omega arith in
    let fifth : u64 (shl e 24) ≡ e * 2 ^ 24 = omega arith in
    let sixth : u64 (shl f 16) ≡ f * 2 ^ 16 = omega arith in
    let seventh : u64 (shl g 8) ≡ g * 2 ^ 8 = omega arith in
    rw
      (
        first,
        second,
        third,
        fourth,
        fifth,
        sixth,
        seventh,
        join_shifted 48 a b hb,
        join_shifted 40 (a * 256 + b) c hc,
        join_shifted 32 ((a * 256 + b) * 256 + c) d hd,
        join_shifted 24 (((a * 256 + b) * 256 + c) * 256 + d) e he,
        join_shifted 16 ((((a * 256 + b) * 256 + c) * 256 + d) * 256 + e) f hf,
        join_shifted 8 (((((a * 256 + b) * 256 + c) * 256 + d) * 256 + e) * 256 + f) g hg,
      )
      (bit_or-shl 8 ((((((a * 256 + b) * 256 + c) * 256 + d) * 256 + e) * 256 + f) * 256 + g) h hh)

IsByte-of : (v k : ℕ) → IsByte (u8 (shr v k))
IsByte-of v k = omega arith

pub length-put16 : (v : ℕ) → length (put_uint16 v) ≡ 2
unfolding put_uint16
length-put16 v = refl

pub length-put32 : (v : ℕ) → length (put_uint32 v) ≡ 4
unfolding put_uint32
length-put32 v = refl

pub length-put64 : (v : ℕ) → length (put_uint64 v) ≡ 8
unfolding put_uint64
length-put64 v = refl

join16-put : (v : ℕ) → IsU16 v → join16 (put_uint16 v) ≡ v
unfolding put_uint16
join16-put v h = join16-bytes _ (u8 v) (IsByte-of v 8) (omega arith) ∙ omega arith

join32-put : (v : ℕ) → IsU32 v → join32 (put_uint32 v) ≡ v
unfolding put_uint32
join32-put v h =
    join32-bytes _ _ _ (u8 v) (IsByte-of v 24) (IsByte-of v 16) (IsByte-of v 8) (omega arith)
    ∙ omega arith

join64-put : (v : ℕ) → IsU64 v → join64 (put_uint64 v) ≡ v
unfolding put_uint64
join64-put v h =
    join64-bytes _ _ _ _ _ _ _ (u8 v) (IsByte-of v 56) (IsByte-of v 48) (IsByte-of v 40)
      (IsByte-of v 32) (IsByte-of v 24) (IsByte-of v 16) (IsByte-of v 8) (omega arith)
    ∙ omega arith

pub read_int16-put :
    (v : ℕ) (rest : Bytes) (b : Bool)
    → IsU16 v
    → read_int16 (source (put_uint16 v ++ rest) b) ≡ done 2 v (source rest b)
unfolding read_int16
read_int16-put v rest b h =
    rw (read_full-append_of 2 (put_uint16 v) rest b (length-put16 v), join16-put v h)

pub read_int32-put :
    (v : ℕ) (rest : Bytes) (b : Bool)
    → IsU32 v
    → read_int32 (source (put_uint32 v ++ rest) b) ≡ done 4 v (source rest b)
unfolding read_int32
read_int32-put v rest b h =
    rw (read_full-append_of 4 (put_uint32 v) rest b (length-put32 v), join32-put v h)

pub read_int64-put :
    (v : ℕ) (rest : Bytes) (b : Bool)
    → IsU64 v
    → read_int64 (source (put_uint64 v ++ rest) b) ≡ done 8 v (source rest b)
unfolding read_int64
read_int64-put v rest b h =
    rw (read_full-append_of 8 (put_uint64 v) rest b (length-put64 v), join64-put v h)

read_string_bytes-append :
    (s rest : Bytes) (b : Bool)
    → length s < 0x8000
    → read_string_bytes (length s) (source (s ++ rest) b) ≡ done (length s) s (source rest b)
unfolding read_string_bytes
read_string_bytes-append [] rest b h = refl
read_string_bytes-append (c ∷ cs) rest b h = elim (Bool-cases (negative16 (length (c ∷ cs)))) [
  | inl big ↦ absurd (omega (arith, leb→le 0x8000 (length (c ∷ cs)) big))
  | inr fine ↦
      rw (fine, le→leb 1 (suc (length cs)) (omega arith)) (read_full-append (c ∷ cs) rest b)
]

-- A string of less than 2^15 bytes after its length.
pub read_string-put :
    (s rest : Bytes) (b : Bool)
    → length s < 0x8000
    → read_string (source (put_uint16 (length s) ++ (s ++ rest)) b)
      ≡ done (2 + length s) s (source rest b)
unfolding read_string
read_string-put s rest b h =
    bind-done read_string_bytes (read_int16-put (length s) (s ++ rest) b (omega arith))
    ∙ ap (add_count 2) (read_string_bytes-append s rest b h)

pub read_tag-put :
    (tag : ℕ) (name rest : Bytes) (b : Bool)
    → 0 < tag
    → tag < 0x1f
    → length name < 0x8000
    → read_tag (source (tag ∷ (put_uint16 (length name) ++ (name ++ rest))) b)
      ≡ done (3 + length name) (tag, name) (source rest b)
unfolding read_tag read_tag_name
read_tag-put tag name rest b pos low h =
    rw (read_byte-cons tag _ b) (ground (arith, read_string-put name rest b h))

pub read_tag-end :
    (rest : Bytes) (b : Bool) → read_tag (source (0 ∷ rest) b) ≡ done 1 (0, []) (source rest b)
unfolding read_tag read_tag_name
read_tag-end rest b = rw (read_byte-cons 0 rest b)

pub read_tag-compressed :
    (tag : ℕ) (rest : Bytes) (b : Bool)
    → (tag ≡ 0x1f) ⊎ (tag ≡ 0x78)
    → read_tag (source (tag ∷ rest) b) ≡ fail 1 compressed_data
unfolding read_tag read_tag_name
read_tag-compressed tag rest b h = rw (read_byte-cons tag rest b) (ground arith)

-- A length with the sign bit.
read_string-negative :
    (len : ℕ) (rest : Bytes) (b : Bool)
    → 0x8000 ≤ len
    → IsU16 len
    → read_string (source (put_uint16 len ++ rest) b) ≡ fail 2 negative_string_length
unfolding read_string read_string_bytes
read_string-negative len rest b h k = rw (read_int16-put len rest b k, le→leb 0x8000 len h)

pub read_tag-negative :
    (tag len : ℕ) (rest : Bytes) (b : Bool)
    → 0 < tag
    → tag < 0x1f
    → 0x8000 ≤ len
    → IsU16 len
    → read_tag (source (tag ∷ (put_uint16 len ++ rest)) b) ≡ fail 3 negative_string_length
unfolding read_tag read_tag_name
read_tag-negative tag len rest b pos low h k =
    rw (read_byte-cons tag _ b) (ground (arith, read_string-negative len rest b h k))
