-- ===== src/Nbt/Read/Front.antt =====
-- The bytes that the reading primitives of nbt/decode.go take: from the front, as many as counted,
-- and where a read comes to an end.
use mc_afk_go.Base.{ℕ, suc, ◌≤◌, ◌<◌, refl, arith, true, false, ◌||◌, ◌==◌, leb}
use mc_afk_go.Base.{Bool, if◌then◌else◌, [], ◌∷◌, length, length-drop, Bool-cases, inl, inr}
use mc_afk_go.Base.Bits.{negative16}
use mc_afk_go.Io.{Bytes, Reader, Outcome, done, fail, panic, stuck, Decoder, ◌>>=◌, map_value}
use mc_afk_go.Io.{read_full, source, add_count}
use mc_afk_go.Io.Exact.{Exact, Takes-none, Exact-bind, Exact-map_value, read_full-Exact}
use mc_afk_go.Nbt.Read.{
  own_read_byte, reader_read_byte, read_byte, read_int8, read_int16, read_int32, read_int64,
  read_string, read_string_bytes, read_tag, read_tag_name, join16, join32, join64,
}

-- The read returns, with a value or an error, and with less than `k` bytes left after a value.
abbrev pub Ends {ℓ} : {A : Type ℓ} → ℕ → Outcome A → Type 0
Ends k (done n a r) = length r.input < k
Ends k (fail n e) = Unit {0}
Ends k panic = ⊥
Ends k stuck = ⊥

pub Ends-mono {ℓ} : {A : Type ℓ} (k j : ℕ) (o : Outcome A) → k ≤ j → Ends k o → Ends j o
Ends-mono k j (done n a r) h e = omega arith
Ends-mono k j (fail n x) h e = tt
Ends-mono k j panic h e = absurd e
Ends-mono k j stuck h e = absurd e

pub Ends-add_count {ℓ} : {A : Type ℓ} (k n : ℕ) (o : Outcome A) → Ends k o → Ends k (add_count n o)
Ends-add_count k n (done m b t) e = e
Ends-add_count k n (fail m x) e = tt
Ends-add_count k n panic e = e
Ends-add_count k n stuck e = e

pub Ends-bind {ℓ κ} :
    {A : Type ℓ} {B : Type κ} (k j : ℕ) (o : Outcome A) (f : A → Decoder B)
    → Ends k o
    → ((a : A) (s : Reader) → length s.input < k → Ends j (f a s))
    → Ends j (o >>= f)
Ends-bind k j (done n a s) f e h = Ends-add_count j n (f a s) (h a s e)
Ends-bind k j (fail n x) f e h = tt
Ends-bind k j panic f e h = absurd e
Ends-bind k j stuck f e h = absurd e

pub Ends-map_value {ℓ κ} :
    {A : Type ℓ} {B : Type κ} (k : ℕ) (f : A → B) (o : Outcome A)
    → Ends k o
    → Ends k (map_value f o)
Ends-map_value k f (done n a s) e = e
Ends-map_value k f (fail n x) e = tt
Ends-map_value k f panic e = e
Ends-map_value k f stuck e = e

pub read_byte-Ends : (r : Reader) → Ends (length r.input) (read_byte r)
unfolding read_byte
read_byte-Ends r = by_kind r.input r.is_byte_reader
  where
    by_kind :
        (bs : Bytes) (b : Bool)
        → Ends (length bs) (if b then own_read_byte bs b else reader_read_byte bs b)
    by_kind [] true = tt
    by_kind [] false = tt
    by_kind (c ∷ cs) true = omega arith
    by_kind (c ∷ cs) false = omega arith

pub read_byte-Exact : (r : Reader) → Exact r (read_byte r)
unfolding read_byte
read_byte-Exact r = by_kind r.input r.is_byte_reader
  where
    by_kind :
        (bs : Bytes) (b : Bool)
        → Exact (source bs b) (if b then own_read_byte bs b else reader_read_byte bs b)
    by_kind [] true = tt
    by_kind [] false = tt
    by_kind (c ∷ cs) true = record {
      used = c ∷ [];
      splits = refl;
      counted = refl;
      same_kind = refl;
    }
    by_kind (c ∷ cs) false = record {
      used = c ∷ [];
      splits = refl;
      counted = refl;
      same_kind = refl;
    }

pub read_full-Ends : (k : ℕ) (r : Reader) → Ends (suc (length r.input)) (read_full k r)
unfolding read_full
read_full-Ends k r = elim (Bool-cases (leb k (length r.input))) [
  | inl fits ↦ rw fits (omega (arith, length-drop k r.input))
  | inr short ↦ rw short tt
]

pub read_int8-Exact : (r : Reader) → Exact r (read_int8 r)
unfolding read_int8
read_int8-Exact r = read_byte-Exact r

pub read_int8-Ends : (r : Reader) → Ends (length r.input) (read_int8 r)
unfolding read_int8
read_int8-Ends r = read_byte-Ends r

read_int16-Exact : (r : Reader) → Exact r (read_int16 r)
unfolding read_int16
read_int16-Exact r = Exact-map_value r join16 _ (read_full-Exact 2 r)

pub read_int16-Ends : (r : Reader) → Ends (suc (length r.input)) (read_int16 r)
unfolding read_int16
read_int16-Ends r = Ends-map_value _ join16 _ (read_full-Ends 2 r)

pub read_int32-Exact : (r : Reader) → Exact r (read_int32 r)
unfolding read_int32
read_int32-Exact r = Exact-map_value r join32 _ (read_full-Exact 4 r)

pub read_int32-Ends : (r : Reader) → Ends (suc (length r.input)) (read_int32 r)
unfolding read_int32
read_int32-Ends r = Ends-map_value _ join32 _ (read_full-Ends 4 r)

pub read_int64-Exact : (r : Reader) → Exact r (read_int64 r)
unfolding read_int64
read_int64-Exact r = Exact-map_value r join64 _ (read_full-Exact 8 r)

pub read_int64-Ends : (r : Reader) → Ends (suc (length r.input)) (read_int64 r)
unfolding read_int64
read_int64-Ends r = Ends-map_value _ join64 _ (read_full-Ends 8 r)

read_string_bytes-Exact : (len : ℕ) (r : Reader) → Exact r (read_string_bytes len r)
unfolding read_string_bytes
read_string_bytes-Exact len r = elim (Bool-cases (negative16 len)) [
  | inl neg ↦ rw neg tt
  | inr pos ↦ rw pos (elim (Bool-cases (leb 1 len)) [
    | inl some ↦ rw some (read_full-Exact len r)
    | inr nothing ↦ rw nothing (Takes-none r)
  ])
]

read_string_bytes-Ends :
    (len : ℕ) (r : Reader) → Ends (suc (length r.input)) (read_string_bytes len r)
unfolding read_string_bytes
read_string_bytes-Ends len r = elim (Bool-cases (negative16 len)) [
  | inl neg ↦ rw neg tt
  | inr pos ↦ rw pos (elim (Bool-cases (leb 1 len)) [
    | inl some ↦ rw some (read_full-Ends len r)
    | inr nothing ↦ rw nothing (omega arith)
  ])
]

pub read_string-Exact : (r : Reader) → Exact r (read_string r)
unfolding read_string
read_string-Exact r = Exact-bind r _ read_string_bytes (read_int16-Exact r) read_string_bytes-Exact

pub read_string-Ends : (r : Reader) → Ends (suc (length r.input)) (read_string r)
unfolding read_string
read_string-Ends r =
    Ends-bind _ _ _ read_string_bytes (read_int16-Ends r)
      λ len s h. Ends-mono _ _ _ h (read_string_bytes-Ends len s)

read_tag_name-Exact : (tag : ℕ) (r : Reader) → Exact r (read_tag_name tag r)
unfolding read_tag_name
read_tag_name-Exact tag r = elim (Bool-cases (tag == 0x1f || tag == 0x78)) [
  | inl zipped ↦ rw zipped tt
  | inr plain ↦ rw plain (elim (Bool-cases (tag == 0)) [
    | inl end ↦ rw end (Takes-none r)
    | inr named ↦ rw named (Exact-map_value r _ _ (read_string-Exact r))
  ])
]

read_tag_name-Ends : (tag : ℕ) (r : Reader) → Ends (suc (length r.input)) (read_tag_name tag r)
unfolding read_tag_name
read_tag_name-Ends tag r = elim (Bool-cases (tag == 0x1f || tag == 0x78)) [
  | inl zipped ↦ rw zipped tt
  | inr plain ↦ rw plain (elim (Bool-cases (tag == 0)) [
    | inl end ↦ rw end (omega arith)
    | inr named ↦ rw named (Ends-map_value _ _ _ (read_string-Ends r))
  ])
]

pub read_tag-Exact : (r : Reader) → Exact r (read_tag r)
unfolding read_tag
read_tag-Exact r = Exact-bind r _ read_tag_name (read_byte-Exact r) read_tag_name-Exact

pub read_tag-Ends : (r : Reader) → Ends (length r.input) (read_tag r)
unfolding read_tag
read_tag-Ends r =
    Ends-bind _ _ _ read_tag_name (read_byte-Ends r)
      λ tag s h. Ends-mono _ _ _ h (read_tag_name-Ends tag s)
