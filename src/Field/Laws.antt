-- ===== src/Field/Laws.antt =====
-- What a field of net/packet promises its users, and types for which the promise is shown.
use mc_afk_go.Base.{◌≡◌, Bool}
use mc_afk_go.Base.{◌++◌, length}
use mc_afk_go.Base.Bits.{IsU16, IsU32}
use mc_afk_go.Io.{Bytes, done, source, Writer, write}
use mc_afk_go.Wire.Fixed.{put_uint16, write_short, read_short}
use mc_afk_go.Wire.Fixed.RoundTrip.{write_short-put, read_short-put}
use mc_afk_go.Wire.VarInt.{write_var_int, read_var_int}
use mc_afk_go.Wire.VarInt.Groups.{groups}
use mc_afk_go.Wire.VarInt.Encode.{write_var_int-groups}
use mc_afk_go.Wire.VarInt.Decode.{read_var_int-groups}
use mc_afk_go.Wire.Text.{write_string, read_string, write_byte_array, read_byte_array}
use mc_afk_go.Wire.Text.RoundTrip.{
  FitsInt, length_prefixed, write_string-prefixed, read_string-prefixed, write_byte_array-prefixed,
  read_byte_array-prefixed,
}
use mc_afk_go.Field.{FieldEncoder, FieldDecoder}

-- Writing is one Write of `encode v`, whatever the writer does with it; reading `encode v` gives
-- `v`, whatever the receiver held and whatever follows.
pub record Lawful {A : Type 0} (write_to : A → FieldEncoder) (read_from : FieldDecoder A)
    (encode : A → Bytes) (IsValid : A → Type 0) : Type 0 where
  pub writes : (v : A) (w : Writer) → IsValid v → write_to v w ≡ write w (encode v)
  pub reads :
      (v old : A) (rest : Bytes) (b : Bool)
      → IsValid v
      → read_from old (source (encode v ++ rest) b) ≡ done (length (encode v)) v (source rest b)

pub short-Lawful : Lawful write_short (λ old. read_short) put_uint16 IsU16
short-Lawful = record {
  writes = λ v w h. write_short-put v w;
  reads = λ v old rest b h. unfold put_uint16 in read_short-put v rest b h;
}

pub var_int-Lawful : Lawful write_var_int (λ old. read_var_int) (groups 4) IsU32
var_int-Lawful = record {
  writes = write_var_int-groups;
  reads = λ v old rest b h. read_var_int-groups v rest b h;
}

pub string-Lawful :
    Lawful write_string (λ old. read_string) length_prefixed (λ s. FitsInt (length s))
string-Lawful = record {
  writes = write_string-prefixed;
  reads = λ v old rest b h. read_string-prefixed v rest b h;
}

pub byte_array-Lawful :
    Lawful write_byte_array (λ old. read_byte_array) length_prefixed (λ s. FitsInt (length s))
byte_array-Lawful = record {
  writes = write_byte_array-prefixed;
  reads = λ v old rest b h. read_byte_array-prefixed v rest b h;
}
