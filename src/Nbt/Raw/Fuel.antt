-- ===== src/Nbt/Raw/Fuel.antt =====
-- `rawRead` of nbt/decode.go comes to an end: one unit of fuel more than the bytes is enough.
use mc_afk_go.Base.{ℕ, zero, suc, ◌≤◌, ◌<◌, arith, ◌==◌, leb, Bool-cases, inl, inr, length}
use mc_afk_go.Base.{length-drop, false}
use mc_afk_go.Io.{Bytes, Reader, Outcome, done, fail, panic, stuck, Decoder, source}
use mc_afk_go.Nbt.{TagType, end, byte, short, int, long, float, double, byte_array, string, list}
use mc_afk_go.Nbt.{compound, int_array, long_array, unknown, tag_type}
use mc_afk_go.Nbt.Read.Front.{
  Ends, Ends-mono, Ends-bind, Ends-map_value, read_byte-Ends, read_full-Ends, read_int8-Ends,
  read_int32-Ends, read_int64-Ends, read_string-Ends, read_tag-Ends,
}
use mc_afk_go.Nbt.Raw.{
  copy_n, raw_items, raw_members, raw_members_next, raw_case, raw_read, rounds, unmarshal_raw,
  captured,
}

copy_n-Ends : (n : ℕ) (r : Reader) → Ends (suc (length r.input)) (copy_n n r)
unfolding copy_n
copy_n-Ends n r = elim (Bool-cases (leb n (length r.input))) [
  | inl fits ↦ rw fits (omega (arith, length-drop n r.input))
  | inr few ↦ rw few tt
]

-- Values end on every source of less than `m` bytes, and leave no more than there was.
abbrev Below : ℕ → Decoder (Unit {0}) → Type 0
Below m item = (s : Reader) → length s.input < m → Ends (suc (length s.input)) (item s)

raw_items-Ends :
    (m : ℕ) (item : Decoder (Unit {0}))
    → Below m item
    → (k : ℕ) (r : Reader) → length r.input < m
    → Ends m (raw_items item k r)
unfolding raw_items
raw_items-Ends m item h zero r l = l
raw_items-Ends m item h (suc k) r l =
    Ends-bind _ _ (item r) _ (h r l) (λ _ s e. raw_items-Ends m item h k s (omega arith))

raw_members_next-Ends :
    (m : ℕ) (value : ℕ → Decoder (Unit {0})) (more : Decoder (Unit {0}))
    → ((tag : ℕ) → Below m (value tag))
    → ((s : Reader) → length s.input < m → Ends m (more s))
    → (tn : ℕ × Bytes) (s : Reader) → length s.input < m
    → Ends m (raw_members_next value more tn s)
unfolding raw_members_next
raw_members_next-Ends m value more h k (tag, name) s l = elim (Bool-cases (tag == 0)) [
  | inl last ↦ rw last l
  | inr one ↦ rw one (Ends-bind _ _ (value tag s) _ (h tag s l) (λ _ t e. k t (omega arith)))
]

Below-mono : (m n : ℕ) (item : Decoder (Unit {0})) → n ≤ m → Below m item → Below n item
Below-mono m n item le h s l = h s (omega arith)

raw_members-Ends :
    (value : ℕ → Decoder (Unit {0})) (fuel : ℕ) (r : Reader)
    → ((tag : ℕ) → Below (length r.input) (value tag))
    → length r.input < fuel
    → Ends (suc (length r.input)) (raw_members value fuel r)
unfolding raw_members
raw_members-Ends value zero r h l = absurd (omega arith)
raw_members-Ends value (suc fuel) r h l = Ends-mono (length r.input) _ _ (omega arith) (
    Ends-bind (length r.input) _ _ _ (read_tag-Ends r) (
      raw_members_next-Ends (length r.input) value _ h λ s e. Ends-mono _ _ _ e (
        raw_members-Ends value fuel s
          (λ tag. Below-mono (length r.input) _ (value tag) (omega arith) (h tag)) (omega arith))))

raw_case-Ends :
    (value : ℕ → Decoder (Unit {0})) (fuel : ℕ) (kind : TagType) (r : Reader)
    → ((tag : ℕ) → Below (length r.input) (value tag))
    → length r.input < fuel
    → Ends (suc (length r.input)) (raw_case value fuel kind r)
unfolding raw_case
raw_case-Ends value fuel end r h l = tt
raw_case-Ends value fuel byte r h l =
    Ends-map_value _ _ _ (Ends-mono (length r.input) _ _ (omega arith) (read_int8-Ends r))
raw_case-Ends value fuel short r h l = Ends-map_value _ _ _ (read_full-Ends 2 r)
raw_case-Ends value fuel int r h l = Ends-map_value _ _ _ (read_full-Ends 4 r)
raw_case-Ends value fuel long r h l = Ends-map_value _ _ _ (read_full-Ends 8 r)
raw_case-Ends value fuel float r h l = Ends-map_value _ _ _ (read_full-Ends 4 r)
raw_case-Ends value fuel double r h l = Ends-map_value _ _ _ (read_full-Ends 8 r)
raw_case-Ends value fuel byte_array r h l =
    Ends-bind _ _ _ _ (read_int32-Ends r)
      (λ len s e. Ends-mono _ _ _ e (copy_n-Ends (rounds len) s))
raw_case-Ends value fuel string r h l = Ends-map_value _ _ _ (read_string-Ends r)
raw_case-Ends value fuel list r h l = Ends-mono (length r.input) _ _ (omega arith) (
    Ends-bind _ _ _ _ (read_byte-Ends r) λ tag s e.
      Ends-bind _ _ _ _ (read_int32-Ends s)
        λ len t e'. raw_items-Ends _ (value tag) (h tag) (rounds len) t (omega arith))
raw_case-Ends value fuel compound r h l = raw_members-Ends value fuel r h l
raw_case-Ends value fuel int_array r h l = Ends-bind _ _ _ _ (read_int32-Ends r) λ len s e.
    raw_items-Ends _ _ (λ t e'. Ends-map_value _ _ _ (read_int32-Ends t)) (rounds len) s e
raw_case-Ends value fuel long_array r h l = Ends-bind _ _ _ _ (read_int32-Ends r) λ len s e.
    raw_items-Ends _ _ (λ t e'. Ends-map_value _ _ _ (read_int64-Ends t)) (rounds len) s e
raw_case-Ends value fuel unknown r h l = tt

pub raw_read-Ends :
    (fuel tag : ℕ) (r : Reader)
    → length r.input < fuel
    → Ends (suc (length r.input)) (raw_read fuel tag r)
unfolding raw_read
raw_read-Ends zero tag r l = absurd (omega arith)
raw_read-Ends (suc fuel) tag r l =
    raw_case-Ends (raw_read fuel) (suc fuel) (tag_type tag) r
      (λ t s e. raw_read-Ends fuel t s (omega arith)) l

-- The call returns a value or an error.
abbrev pub Returns {ℓ} : {A : Type ℓ} → Outcome A → Type 0
Returns (done n a r) = Unit {0}
Returns (fail n e) = Unit {0}
Returns panic = ⊥
Returns stuck = ⊥

captured-Returns :
    (tag k : ℕ) (r : Reader) (o : Outcome (Unit {0})) → Ends k o → Returns (captured tag r o)
unfolding captured
captured-Returns tag k r (done n a s) e = tt
captured-Returns tag k r (fail n x) e = tt
captured-Returns tag k r panic e = e
captured-Returns tag k r stuck e = e

-- UnmarshalNBT of a RawMessage ends on every tag and every source, with a message or an error:
-- the fuel of the model is enough.
pub unmarshal_raw-Returns : (tag : ℕ) (r : Reader) → Returns (unmarshal_raw tag r)
unfolding unmarshal_raw
unmarshal_raw-Returns tag r = elim (Bool-cases (tag == 0)) [
  | inl last ↦ rw last tt
  | inr one ↦ rw one (
      captured-Returns tag _ r _
        (raw_read-Ends (suc (length r.input)) tag (source r.input false) (omega arith)))
]
