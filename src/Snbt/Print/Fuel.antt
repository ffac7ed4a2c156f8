-- ===== src/Snbt/Print/Fuel.antt =====
-- `encode` of nbt/snbt.go comes to an end: one unit of fuel more than the bytes is enough.
use mc_afk_go.Base.{ℕ, zero, suc, ◌≤◌, ◌<◌, arith, Bool, true, false, ◌==◌, Bool-cases, inl, inr}
use mc_afk_go.Base.{length}
use mc_afk_go.Io.{Bytes, Reader, Outcome, done, fail, panic, stuck, Decoder}
use mc_afk_go.Nbt.{TagType, end, byte, short, int, long, float, double, byte_array, string, list}
use mc_afk_go.Nbt.{compound, int_array, long_array, unknown, tag_type}
use mc_afk_go.Nbt.Raw.{rounds}
use mc_afk_go.Nbt.Raw.Fuel.{Returns}
use mc_afk_go.Nbt.Read.Front.{
  Ends, Ends-mono, Ends-bind, Ends-map_value, read_byte-Ends, read_int16-Ends, read_int32-Ends,
  read_int64-Ends, read_string-Ends, read_tag-Ends,
}
use mc_afk_go.Snbt.Print.{
  print_items, print_array, print_members, print_members_next, print_case, print_read,
  unmarshal_stringified,
}

-- Values end on every source of less than `m` bytes, and leave no more than there was.
abbrev Below : ℕ → Decoder Bytes → Type 0
Below m item = (s : Reader) → length s.input < m → Ends (suc (length s.input)) (item s)

print_items-Ends :
    (m : ℕ) (item : Decoder Bytes)
    → Below m item
    → (first : Bool) (k : ℕ) (r : Reader) → length r.input < m
    → Ends m (print_items first item k r)
unfolding print_items
print_items-Ends m item h first zero r l = l
print_items-Ends m item h first (suc k) r l =
    Ends-bind (suc (length r.input)) m (item r) _ (h r l)
      λ text s e. Ends-map_value m _ _ (print_items-Ends m item h false k s (omega arith))

print_array-Ends :
    (letter : ℕ) (item : Decoder Bytes) (r : Reader)
    → Below (suc (length r.input)) item
    → Ends (suc (length r.input)) (print_array letter item r)
unfolding print_array
print_array-Ends letter item r h =
    Ends-bind _ _ _ _ (read_int32-Ends r)
      λ len s e. Ends-map_value _ _ _ (print_items-Ends _ item h true (rounds len) s e)

print_members_next-Ends :
    (m : ℕ) (value : ℕ → Decoder Bytes) (more : Decoder Bytes) (first : Bool)
    → ((tag : ℕ) → Below m (value tag))
    → ((s : Reader) → length s.input < m → Ends m (more s))
    → (tn : ℕ × Bytes) (s : Reader) → length s.input < m
    → Ends m (print_members_next value more first tn s)
unfolding print_members_next
print_members_next-Ends m value more first h k (tag, name) s l = elim (Bool-cases (tag == 0)) [
  | inl last ↦ rw last l
  | inr one ↦ rw one (
      Ends-bind _ _ (value tag s) _ (h tag s l) (λ _ t e. Ends-map_value m _ _ (k t (omega arith))))
]

Below-mono : (m n : ℕ) (item : Decoder Bytes) → n ≤ m → Below m item → Below n item
Below-mono m n item le h s l = h s (omega arith)

print_members-Ends :
    (value : ℕ → Decoder Bytes) (fuel : ℕ) (first : Bool) (r : Reader)
    → ((tag : ℕ) → Below (length r.input) (value tag))
    → length r.input < fuel
    → Ends (suc (length r.input)) (print_members value fuel first r)
unfolding print_members
print_members-Ends value zero first r h l = absurd (omega arith)
print_members-Ends value (suc fuel) first r h l = Ends-mono (length r.input) _ _ (omega arith) (
    Ends-bind (length r.input) _ _ _ (read_tag-Ends r) (
      print_members_next-Ends (length r.input) value _ first h λ s e. Ends-mono _ _ _ e (
        print_members-Ends value fuel false s
          (λ tag. Below-mono (length r.input) _ (value tag) (omega arith) (h tag)) (omega arith))))

Ends-Returns : (k : ℕ) (o : Outcome Bytes) → Ends k o → Returns o
Ends-Returns k (done n a r) e = tt
Ends-Returns k (fail n x) e = tt
Ends-Returns k panic e = e
Ends-Returns k stuck e = e

module _ (format_float32 format_float64 : ℕ → Bytes) where
  print_case-Ends :
      (value : ℕ → Decoder Bytes) (fuel : ℕ) (kind : TagType) (r : Reader)
      → ((tag : ℕ) → Below (length r.input) (value tag))
      → length r.input < fuel
      → Ends (suc (length r.input)) (print_case format_float32 format_float64 value fuel kind r)
  unfolding print_case
  print_case-Ends value fuel end r h l = tt
  print_case-Ends value fuel byte r h l =
      Ends-map_value _ _ _ (Ends-mono (length r.input) _ _ (omega arith) (read_byte-Ends r))
  print_case-Ends value fuel short r h l = Ends-map_value _ _ _ (read_int16-Ends r)
  print_case-Ends value fuel int r h l = Ends-map_value _ _ _ (read_int32-Ends r)
  print_case-Ends value fuel long r h l = Ends-map_value _ _ _ (read_int64-Ends r)
  print_case-Ends value fuel float r h l = Ends-map_value _ _ _ (read_int32-Ends r)
  print_case-Ends value fuel double r h l = Ends-map_value _ _ _ (read_int64-Ends r)
  print_case-Ends value fuel byte_array r h l =
      print_array-Ends _ _ r λ s e.
        Ends-map_value _ _ _ (Ends-mono (length s.input) _ _ (omega arith) (read_byte-Ends s))
  print_case-Ends value fuel string r h l = Ends-map_value _ _ _ (read_string-Ends r)
  print_case-Ends value fuel list r h l = Ends-mono (length r.input) _ _ (omega arith) (
      Ends-bind _ _ _ _ (read_byte-Ends r) λ tag s e.
        Ends-bind _ _ _ _ (read_int32-Ends s) λ len t e'.
          Ends-map_value _ _ _ (
            print_items-Ends (length r.input) (value tag) (h tag) true (rounds len) t
              (omega arith)))
  print_case-Ends value fuel compound r h l = print_members-Ends value fuel true r h l
  print_case-Ends value fuel int_array r h l =
      print_array-Ends _ _ r (λ s e. Ends-map_value _ _ _ (read_int32-Ends s))
  print_case-Ends value fuel long_array r h l =
      print_array-Ends _ _ r (λ s e. Ends-map_value _ _ _ (read_int64-Ends s))
  print_case-Ends value fuel unknown r h l = tt

  print_read-Ends :
      (fuel tag : ℕ) (r : Reader)
      → length r.input < fuel
      → Ends (suc (length r.input)) (print_read format_float32 format_float64 fuel tag r)
  unfolding print_read
  print_read-Ends zero tag r l = absurd (omega arith)
  print_read-Ends (suc fuel) tag r l =
      print_case-Ends (print_read format_float32 format_float64 fuel) (suc fuel) (tag_type tag) r
        (λ t s e. print_read-Ends fuel t s (omega arith)) l

  -- UnmarshalNBT of a StringifiedMessage returns a value or an error.
  unmarshal_stringified-Returns :
      (tag : ℕ) (r : Reader) → Returns (unmarshal_stringified format_float32 format_float64 tag r)
  unfolding unmarshal_stringified
  unmarshal_stringified-Returns tag r = elim (Bool-cases (tag == 0)) [
    | inl last ↦ rw last tt
    | inr one ↦
        rw one (Ends-Returns _ _ (print_read-Ends (suc (length r.input)) tag r (omega arith)))
  ]
