-- ===== src/Snbt/Literal.antt =====
-- Literals of SNBT: `parseLiteral` of nbt/snbt_decode.go, and strconv.ParseInt as it uses it. A
-- value is a bit pattern of its width.
pub mod Strings
pub mod Integers
pub mod Classes
pub mod Numerals
pub mod Fractions
use mc_afk_go.Base.{ℕ, zero, suc, ◌+◌, ◌-◌, ◌*◌, ◌^◌, Bool, true, false, not, ◌&&◌, ◌||◌}
use mc_afk_go.Base.{ltb, leb, ◌==◌, if◌then◌else◌, List, [], ◌∷◌, ◌++◌, length, take}
use mc_afk_go.Base.{Option, none, some}
use mc_afk_go.Io.{Bytes}
use mc_afk_go.Nbt.{TagType, tag_id}
use mc_afk_go.Snbt.{is_number, is_allowed_in_unquoted_string}

-- The value of a literal, with its Go type.
pub data Literal : Type 0 where
  byte short int long float double : ℕ → Literal
  string : Bytes → Literal

-- What parseLiteral returns: a value with its tag, or the error of strconv with the tag. `panics`
-- is a panic, of an index out of range or by `phasePanicMsg`.
pub data Parsed : Type 0 where
  parsed : Literal → Parsed
  bad_number : TagType → Parsed
  panics : Parsed

abbrev pub literal_tag : Literal → TagType
literal_tag (byte v) = TagType.byte
literal_tag (short v) = TagType.short
literal_tag (int v) = TagType.int
literal_tag (long v) = TagType.long
literal_tag (float v) = TagType.float
literal_tag (double v) = TagType.double
literal_tag (string s) = TagType.string

unfoldable pub is_float_type : ℕ → Bool
is_float_type c = c == b'F' || c == b'f' || c == b'D' || c == b'd'

unfoldable pub is_integer_type : ℕ → Bool
unfolding is_float_type
is_integer_type c =
    is_float_type c || c == b'B' || c == b'b' || c == b's' || c == b'S' || c == b'L' || c == b'l'

-- The digits that strconv.ParseInt reads in base 10.
pub parse_digits : ℕ → Bytes → Option ℕ
parse_digits acc [] = some acc
parse_digits acc (c ∷ cs) =
    let rest = parse_digits (acc * 10 + (c - b'0')) cs in if is_number c then rest else none

parse_unsigned : Bytes → Option ℕ
unfolding parse_digits
parse_unsigned [] = none
parse_unsigned (c ∷ cs) = parse_digits 0 (c ∷ cs)

-- The pattern of a magnitude with its sign, if the type of `bits` bits holds it.
signed : ℕ → Bool → Option ℕ → Option ℕ
signed bits negative none = none
signed bits negative (some n) =
    if negative
    then (if leb n (2 ^ (bits - 1)) then some (if n == 0 then 0 else 2 ^ bits - n) else none)
    else if ltb n (2 ^ (bits - 1))
    then some n
    else none

-- `strconv.ParseInt(s, 10, bits)`; `none` is its error, of syntax or of range.
pub parse_int : ℕ → Bytes → Option ℕ
unfolding parse_unsigned signed
parse_int bits [] = none
parse_int bits (c ∷ cs) =
    if c == b'-'
    then signed bits true (parse_unsigned cs)
    else if c == b'+'
    then signed bits false (parse_unsigned cs)
    else signed bits false (parse_unsigned (c ∷ cs))

-- The variables of the loop over the bytes of a literal without quotes.
pub record Class : Type 0 where
  pub strlen : ℕ
  pub integer : Bool
  pub number : Bool
  pub has_exp : Bool
  pub after_exp : Bool
  pub unqstr : Bool
  pub number_type : ℕ

abbrev pub start_class : ℕ → Class
start_class len = record {
  strlen = len;
  integer = true;
  number = true;
  has_exp = false;
  after_exp = false;
  unqstr = true;
  number_type = 0;
}

pub class_byte : ℕ → ℕ → Class → Class
unfolding is_integer_type is_float_type
class_byte i c k =
    if is_number c
    then k
    else if k.integer
    then (if (i == k.strlen - 1) && not (i == 0) && is_integer_type c
        then record k { number_type = c; strlen = k.strlen - 1 }
        else if ltb 0 i || ((i == 0) && not (c == b'-') && not (c == b'+'))
        then record k {
          integer = false;
          number = if (i == 0) || not (c == b'.') then false else k.number;
        }
        else k)
    else if k.number
    then (if (k.has_exp && not k.after_exp && c == b'-') || c == b'+'
        then record k { after_exp = true }
        else if c == b'E' || c == b'e'
        then record k { has_exp = true }
        else if (i == k.strlen - 1) && is_float_type c
        then record k { number_type = c }
        else record k { number = false })
    else if not (is_allowed_in_unquoted_string c)
    then record k { unqstr = false }
    else k

-- `for i, c := range literal`
pub class_bytes : ℕ → Bytes → Class → Class
unfolding class_byte
class_bytes i [] k = k
class_bytes i (c ∷ cs) k = class_bytes (i + 1) cs (class_byte i c k)

pub parse_number : TagType → (ℕ → Literal) → Option ℕ → Parsed
parse_number tag make none = bad_number tag
parse_number tag make (some v) = parsed (make v)

-- The loop over a literal with quotes, from the second byte on: an escape takes the next byte as it
-- is, and an index past the end panics.
pub unquote : ℕ → Bytes → Bytes → Parsed
unquote q sb [] = panics
unquote q sb (c ∷ []) = if c == q then parsed (string sb) else panics
unquote q sb (c ∷ d ∷ cs) =
    let escaped = unquote q (sb ++ d ∷ []) cs in
    let plain = unquote q (sb ++ c ∷ []) (d ∷ cs) in
    if c == q then parsed (string sb) else if c == b'\\' then escaped else plain

-- `strconv.ParseFloat(s, bits)` as the pattern of the float64 that it returns, and the conversion
-- of such a pattern to float32.
module _ (parse_float : ℕ → Bytes → Option ℕ) (to_float32 : ℕ → ℕ) where
  narrow : Option ℕ → Option ℕ
  narrow none = none
  narrow (some v) = some (to_float32 v)

  -- The two switches on the number's type.
  pub parse_class : Bytes → Class → Parsed
  unfolding parse_int narrow parse_number
  parse_class literal k =
      let digits = take k.strlen literal in
      let head = take (k.strlen - 1) literal in
      let t = k.number_type in
      if k.integer
      then (if t == b'B' || t == b'b'
          then parse_number TagType.byte byte (parse_int 8 digits)
          else if t == b'S' || t == b's'
          then parse_number TagType.short short (parse_int 16 digits)
          else if t == b'I' || t == b'i' || t == 0
          then parse_number TagType.int int (parse_int 32 digits)
          else if t == b'L' || t == b'l'
          then parse_number TagType.long long (parse_int 64 digits)
          else if t == b'F' || t == b'f'
          then parse_number TagType.float float (narrow (parse_float 32 digits))
          else if t == b'D' || t == b'd'
          then parse_number TagType.double double (parse_float 64 digits)
          else panics)
      else if k.number
      then (if t == b'F' || t == b'f'
          then parse_number TagType.float float (narrow (parse_float 64 head))
          else parse_number TagType.double double (parse_float 64 head))
      else if k.unqstr
      then parsed (string literal)
      else panics

  -- `literal[0]` of an empty literal, and `Grow` of a negative size, panic.
  pub parse_literal : Bytes → Parsed
  unfolding unquote class_bytes parse_class
  parse_literal [] = panics
  parse_literal (c ∷ cs) =
      if c == b'"' || c == b'\''
      then (if leb 1 (length cs) then unquote c [] cs else panics)
      else parse_class (c ∷ cs) (class_bytes 0 (c ∷ cs) (start_class (length (c ∷ cs))))
