-- ===== src/Wire/Text/RoundTrip.antt =====
-- The types of net/packet/types.go with a length: what is written, and its reading.
use mc_afk_go.Base.{ℕ, ◌≤◌, ◌<◌, ◌≡◌, refl, sym, ap, ◌∙◌, arith, All, fun_ext, le→leb}
use mc_afk_go.Base.{Bool, List, [], ◌∷◌, ◌++◌, length, length-append, append_assoc}
use mc_afk_go.Base.{take, drop}
use mc_afk_go.Base.Bits.{u32, IsU64}
use mc_afk_go.Io.{Bytes, done, source, Writer, Written, write, and_then}
use mc_afk_go.Io.{read_some}
use mc_afk_go.Io.Laws.{write-append, write-nil, read_full-append, bind-done}
use mc_afk_go.Wire.Fixed.{put_uint64}
use mc_afk_go.Wire.Fixed.RoundTrip.{write_long-put, read_long-put}
use mc_afk_go.Wire.VarInt.{write_var_int, read_var_int}
use mc_afk_go.Wire.VarInt.Groups.{groups}
use mc_afk_go.Wire.VarInt.Encode.{write_var_int-groups}
use mc_afk_go.Wire.VarInt.Decode.{read_var_int-groups}
use mc_afk_go.Wire.Text.{write_string, read_string, read_string_bytes, write_byte_array}
use mc_afk_go.Wire.Text.{read_byte_array, read_byte_array_bytes, write_longs, write_bit_set}
use mc_afk_go.Wire.Text.{read_longs, read_bit_set, read_bit_set_longs, read_fixed_bit_set}

-- A length that a VarInt holds as a positive number.
abbrev pub FitsInt : ℕ → Type 0
FitsInt n = n < 0x8000_0000

abbrev pub length_prefixed : Bytes → Bytes
length_prefixed s = groups 4 (length s) ++ s

pub write_length : (n : ℕ) (w : Writer) → FitsInt n → write_var_int (u32 n) w ≡ write w (groups 4 n)
write_length n w h =
    let e : u32 n ≡ n = omega arith in rw e (write_var_int-groups n w (omega arith))

-- On every writer, one that has too little room included, String.WriteTo of a string shorter
-- than 2 ^ 31 bytes does what one Write of the length and the bytes does: the same count, error
-- and bytes.
pub write_string-prefixed :
    (s : Bytes) (w : Writer) → FitsInt (length s) → write_string s w ≡ write w (length_prefixed s)
unfolding write_string
write_string-prefixed s w h =
    rw (write_length (length s) w h) (write-append w (groups 4 (length s)) s)

pub write_byte_array-prefixed :
    (s : Bytes) (w : Writer)
    → FitsInt (length s)
    → write_byte_array s w ≡ write w (length_prefixed s)
unfolding write_byte_array
write_byte_array-prefixed s w h =
    rw (write_length (length s) w h) (write-append w (groups 4 (length s)) s)

pub read_length :
    (n : ℕ) (s rest : Bytes) (b : Bool)
    → FitsInt n
    → read_var_int (source ((groups 4 n ++ s) ++ rest) b)
      ≡ done (length (groups 4 n)) n (source (s ++ rest) b)
read_length n s rest b h =
    rw (append_assoc (groups 4 n) s rest) (read_var_int-groups n (s ++ rest) b (omega arith))

string_bytes :
    (s rest : Bytes) (b : Bool)
    → FitsInt (length s)
    → read_string_bytes (length s) (source (s ++ rest) b) ≡ done (length s) s (source rest b)
unfolding read_string_bytes
string_bytes s rest b h = ground (arith, read_full-append s rest b)

-- String.ReadFrom, given a length below 2 ^ 31 and so many bytes, returns them with the count
-- of all bytes, and leaves what follows.
pub read_string-prefixed :
    (s rest : Bytes) (b : Bool)
    → FitsInt (length s)
    → read_string (source (length_prefixed s ++ rest) b)
      ≡ done (length (length_prefixed s)) s (source rest b)
unfolding read_string
read_string-prefixed s rest b h =
    bind-done read_string_bytes (read_length (length s) s rest b h)
    ∙ rw (string_bytes s rest b h, length-append (groups 4 (length s)) s)

byte_array_bytes :
    (s rest : Bytes) (b : Bool)
    → FitsInt (length s)
    → read_byte_array_bytes (length s) (source (s ++ rest) b) ≡ done (length s) s (source rest b)
unfolding read_byte_array_bytes
byte_array_bytes s rest b h = ground (arith, read_full-append s rest b)

pub read_byte_array-prefixed :
    (s rest : Bytes) (b : Bool)
    → FitsInt (length s)
    → read_byte_array (source (length_prefixed s ++ rest) b)
      ≡ done (length (length_prefixed s)) s (source rest b)
unfolding read_byte_array
read_byte_array-prefixed s rest b h =
    bind-done read_byte_array_bytes (read_length (length s) s rest b h)
    ∙ rw (byte_array_bytes s rest b h, length-append (groups 4 (length s)) s)

-- The content of a BitSet on the wire.
abbrev pub longs_bytes : List ℕ → Bytes
longs_bytes [] = []
longs_bytes (x ∷ xs) = put_uint64 x ++ longs_bytes xs

write_longs-bytes : (xs : List ℕ) (w : Writer) → write_longs xs w ≡ write w (longs_bytes xs)
unfolding write_longs
write_longs-bytes [] w = sym (write-nil w)
write_longs-bytes (x ∷ xs) w =
    ap (λ (o : Written). and_then o (λ v. write_longs xs v)) (write_long-put x w)
    ∙ ap (and_then (write w (put_uint64 x))) (fun_ext (λ v. write_longs-bytes xs v))
    ∙ write-append w (put_uint64 x) (longs_bytes xs)

read_longs-bytes :
    (xs : List ℕ) (rest : Bytes) (b : Bool)
    → All IsU64 xs
    → read_longs (length xs) (source (longs_bytes xs ++ rest) b)
      ≡ done (length (longs_bytes xs)) xs (source rest b)
unfolding read_longs
read_longs-bytes [] rest b h = refl
read_longs-bytes (x ∷ xs) rest b h =
    rw
      (
        append_assoc (put_uint64 x) (longs_bytes xs) rest,
        read_long-put x (longs_bytes xs ++ rest) b h.0,
        read_longs-bytes xs rest b h.1,
        length-append (put_uint64 x) (longs_bytes xs),
      )
      (unfold put_uint64 in refl)

-- BitSet.WriteTo of fewer than 2 ^ 31 words, on every writer, is one Write of the count and the
-- words.
pub write_bit_set-bytes :
    (xs : List ℕ) (w : Writer)
    → FitsInt (length xs)
    → write_bit_set xs w ≡ write w (groups 4 (length xs) ++ longs_bytes xs)
unfolding write_bit_set
write_bit_set-bytes xs w h = rw (write_length (length xs) w h) (
    ap (and_then (write w (groups 4 (length xs)))) (fun_ext (λ v. write_longs-bytes xs v))
    ∙ write-append w (groups 4 (length xs)) (longs_bytes xs))

bit_set_longs :
    (xs : List ℕ) (rest : Bytes) (b : Bool)
    → FitsInt (length xs)
    → All IsU64 xs
    → read_bit_set_longs (length xs) (source (longs_bytes xs ++ rest) b)
      ≡ done (length (longs_bytes xs)) xs (source rest b)
unfolding read_bit_set_longs
bit_set_longs xs rest b h words = ground (arith, read_longs-bytes xs rest b words)

-- BitSet.ReadFrom, given the count and the words of a set of fewer than 2 ^ 31 words of 64
-- bits, returns the words with the count of all bytes, and leaves what follows.
pub read_bit_set-bytes :
    (xs : List ℕ) (rest : Bytes) (b : Bool)
    → FitsInt (length xs)
    → All IsU64 xs
    → read_bit_set (source ((groups 4 (length xs) ++ longs_bytes xs) ++ rest) b)
      ≡ done (length (groups 4 (length xs) ++ longs_bytes xs)) xs (source rest b)
unfolding read_bit_set
read_bit_set-bytes xs rest b h words =
    bind-done read_bit_set_longs (read_length (length xs) (longs_bytes xs) rest b h)
    ∙ rw (bit_set_longs xs rest b h words, length-append (groups 4 (length xs)) (longs_bytes xs))

take-all : (xs f : Bytes) → length xs ≤ length f → take (length f) xs ≡ xs
take-all [] [] h = refl
take-all [] (y ∷ f) h = refl
take-all (x ∷ xs) [] h = absurd (omega arith)
take-all (x ∷ xs) (y ∷ f) h = ap (◌∷◌ x) (take-all xs f (omega arith))

drop-all : (xs f : Bytes) → length xs ≤ length f → drop (length f) xs ≡ []
drop-all [] [] h = refl
drop-all [] (y ∷ f) h = refl
drop-all (x ∷ xs) [] h = absurd (omega arith)
drop-all (x ∷ xs) (y ∷ f) h = drop-all xs f (omega arith)

-- FixedBitSet.ReadFrom reports success on a source that has at least one byte and no more than
-- the set has: it fills so much of the set, counts it, and returns no error.
pub read_fixed_bit_set_short :
    (f have : Bytes) (b : Bool)
    → 1 ≤ length have
    → length have ≤ length f
    → read_fixed_bit_set f (source have b)
      ≡ done (length have) (have ++ drop (length have) f) (source [] b)
unfolding read_fixed_bit_set read_some
read_fixed_bit_set_short f have b any le =
    rw (le→leb 1 _ any, take-all have f le, drop-all have f le)
