-- ===== src/Snbt/Print.antt =====
-- From the binary form to the text: `StringifiedMessage.encode` and UnmarshalNBT of nbt/snbt.go,
-- `RawMessage.String` of nbt/rawmsg.go, and strconv.FormatInt.
pub mod Fuel
pub mod Values
pub mod Members
pub mod Trees
use mc_afk_go.Base.{ℕ, zero, suc, ◌+◌, ◌-◌, ◌*◌, ◌/◌, ◌%◌, ◌^◌, Bool, true, false, leb, ltb, ◌==◌}
use mc_afk_go.Base.{if◌then◌else◌, [], ◌∷◌, ◌++◌, length, Option, none, some}
use mc_afk_go.Io.{
  Bytes, Reader, source, Outcome, done, fail, panic, stuck, Decoder, ◌>>=◌, map_value, unknown_tag,
  end_tag,
}
use mc_afk_go.Nbt.{TagType, end, byte, short, int, long, float, double, byte_array, string, list}
use mc_afk_go.Nbt.{compound, int_array, long_array, unknown, tag_type}
use mc_afk_go.Nbt.Read.{read_byte, read_int16, read_int32, read_int64, read_string, read_tag}
use mc_afk_go.Nbt.Raw.{RawMessage, rounds}
use mc_afk_go.Snbt.Escape.{write_escape_str}

-- The digits of a number, with fuel for them.
unfoldable pub decimal : ℕ → ℕ → Bytes
decimal zero n = []
decimal (suc fuel) n =
    let rest = decimal fuel (n / 10) in
    if ltb n 10 then (n + b'0') ∷ [] else rest ++ ((n % 10) + b'0') ∷ []

-- `strconv.FormatInt(v, 10)` of a pattern of `bits` bits.
unfoldable pub format_int : ℕ → ℕ → Bytes
unfolding decimal
format_int bits v =
    if leb (2 ^ (bits - 1)) v
    then b'-' ∷ decimal (suc (2 ^ bits - v)) (2 ^ bits - v)
    else decimal (suc v) v

-- `strconv.FormatInt(int64(b), 10) + "B"`: the byte is unsigned in Go.
unfoldable pub byte_text : ℕ → Bytes
unfolding format_int
byte_text b = format_int 64 b ++ b'B' ∷ []

unfoldable pub short_text : ℕ → Bytes
unfolding format_int
short_text v = format_int 16 v ++ b'S' ∷ []

unfoldable pub int_text : ℕ → Bytes
unfolding format_int
int_text v = format_int 32 v

unfoldable pub int_element_text : ℕ → Bytes
unfolding format_int
int_element_text v = format_int 32 v ++ b'I' ∷ []

unfoldable pub long_text : ℕ → Bytes
unfolding format_int
long_text v = format_int 64 v ++ b'L' ∷ []

abbrev pub comma : Bool → Bytes
comma true = []
comma false = b',' ∷ []

-- The loops over the elements of an array or a list: a comma before all but the first.
pub print_items : Bool → Decoder Bytes → ℕ → Decoder Bytes
print_items first item zero r = done 0 [] r
print_items first item (suc k) r = item r >>= λ text r'.
    map_value (λ rest. comma first ++ (text ++ rest)) (print_items false item k r')

abbrev pub in_brackets : Bytes → Bytes → Bytes
in_brackets opening text = opening ++ (text ++ b']' ∷ [])

-- An array: its length, and its elements behind the letter of its type.
pub print_array : ℕ → Decoder Bytes → Decoder Bytes
unfolding print_items
print_array letter item r = read_int32 r >>= λ len r'.
    map_value (in_brackets (b'[' ∷ letter ∷ b';' ∷ [])) (print_items true item (rounds len) r')

pub print_members_next : (ℕ → Decoder Bytes) → Decoder Bytes → Bool → ℕ × Bytes → Decoder Bytes
print_members_next value more first (tag, name) r =
    if tag == 0
    then done 0 ((if first then b'{' ∷ [] else []) ++ b'}' ∷ []) r
    else value tag r >>= λ text r'.
        map_value
          (λ rest.
            (if first then b'{' ∷ [] else b',' ∷ [])
            ++ (write_escape_str name ++ (b':' ∷ (text ++ rest))))
          (more r')

-- The loop over the members of a compound.
pub print_members : (ℕ → Decoder Bytes) → ℕ → Bool → Decoder Bytes
unfolding print_members_next
print_members value zero first r = stuck
print_members value (suc fuel) first r =
    read_tag r >>= print_members_next value (print_members value fuel false) first

-- The text of a raw message; `invalid` stands for "<Invalid: " with the text of the error.
pub data RawText : Type 0 where
  shown : Bytes → RawText
  invalid unshown : RawText

raw_text : Outcome Bytes → RawText
raw_text (done n t r) = shown t
raw_text (fail n e) = invalid
raw_text panic = unshown
raw_text stuck = unshown

-- `strconv.FormatFloat(f, 'f', 10, 32)` and `(f, 'f', 10, 64)` on a float's pattern are parameters.
module _ (format_float32 format_float64 : ℕ → Bytes) where
  -- The cases of the switch, with the call for a value inside.
  pub print_case : (ℕ → Decoder Bytes) → ℕ → TagType → Decoder Bytes
  unfolding print_array print_members byte_text short_text int_text int_element_text long_text
  print_case value fuel end r = fail 0 unknown_tag
  print_case value fuel byte r = map_value byte_text (read_byte r)
  print_case value fuel short r = map_value short_text (read_int16 r)
  print_case value fuel int r = map_value int_text (read_int32 r)
  print_case value fuel long r = map_value long_text (read_int64 r)
  print_case value fuel float r = map_value (λ v. format_float32 v ++ b'F' ∷ []) (read_int32 r)
  print_case value fuel double r = map_value (λ v. format_float64 v ++ b'D' ∷ []) (read_int64 r)
  print_case value fuel byte_array r = print_array b'B' (λ s. map_value byte_text (read_byte s)) r
  print_case value fuel string r = map_value write_escape_str (read_string r)
  print_case value fuel list r = read_byte r >>= λ tag r'. read_int32 r' >>= λ len s.
      map_value (in_brackets (b'[' ∷ [])) (print_items true (value tag) (rounds len) s)
  print_case value fuel compound r = print_members value fuel true r
  print_case value fuel int_array r =
      print_array b'I' (λ s. map_value int_element_text (read_int32 s)) r
  print_case value fuel long_array r = print_array b'L' (λ s. map_value long_text (read_int64 s)) r
  print_case value fuel unknown r = fail 0 unknown_tag

  -- `encode`, with the text that it writes. Both callers drop the text of a call that fails.
  pub print_read : ℕ → ℕ → Decoder Bytes
  unfolding print_case
  print_read zero tag r = stuck
  print_read (suc fuel) tag r = print_case (print_read fuel) (suc fuel) (tag_type tag) r

  -- `StringifiedMessage.UnmarshalNBT`
  pub unmarshal_stringified : ℕ → Decoder Bytes
  unfolding print_read
  unmarshal_stringified tag r =
      if tag == 0 then fail 0 end_tag else print_read (suc (length r.input)) tag r

  -- `RawMessage.String`
  pub raw_string : RawMessage → RawText
  unfolding print_read raw_text
  raw_string m =
      if m.tag == 0
      then shown []
      else raw_text (print_read (suc (length m.content)) m.tag (source m.content true))
