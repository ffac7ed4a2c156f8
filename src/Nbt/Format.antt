-- ===== src/Nbt/Format.antt =====
-- The format that nbt/decode.go reads, as a tree and its bytes. Numbers are bit patterns, big-endian
-- on the wire; the tree is a description to hold the code against, and no type of the program.
use mc_afk_go.Base.{ℕ, suc, ◌<◌, ◌≡◌, List, [], ◌∷◌, ◌++◌, length, All}
use mc_afk_go.Base.Bits.{IsByte, IsU16, IsU32, IsU64}
use mc_afk_go.Io.{Bytes}
use mc_afk_go.Nbt.{TagType, tag_id}
use mc_afk_go.Wire.Fixed.{put_uint16, put_uint32, put_uint64}

mutual
  pub data Value : Type 0 where
    byte short int long float double : ℕ → Value
    byte_array string : Bytes → Value
    list : ℕ → Items → Value
    compound : Members → Value
    int_array long_array : List ℕ → Value

  pub data Items : Type 0 where
    nil : Items
    item : Value → Items → Items

  pub data Members : Type 0 where
    end : Members
    member : Bytes → Value → Members → Members

abbrev pub tag_of : Value → ℕ
tag_of (byte v) = tag_id TagType.byte
tag_of (short v) = tag_id TagType.short
tag_of (int v) = tag_id TagType.int
tag_of (long v) = tag_id TagType.long
tag_of (float v) = tag_id TagType.float
tag_of (double v) = tag_id TagType.double
tag_of (byte_array bs) = tag_id TagType.byte_array
tag_of (string s) = tag_id TagType.string
tag_of (list t vs) = tag_id TagType.list
tag_of (compound ms) = tag_id TagType.compound
tag_of (int_array vs) = tag_id TagType.int_array
tag_of (long_array vs) = tag_id TagType.long_array

abbrev pub count : Items → ℕ
count nil = 0
count (item v vs) = suc (count vs)

abbrev pub encode_ints : List ℕ → Bytes
encode_ints [] = []
encode_ints (x ∷ xs) = put_uint32 x ++ encode_ints xs

abbrev pub encode_longs : List ℕ → Bytes
encode_longs [] = []
encode_longs (x ∷ xs) = put_uint64 x ++ encode_longs xs

unfoldable mutual
  pub encode : Value → Bytes
  encode (byte v) = v ∷ []
  encode (short v) = put_uint16 v
  encode (int v) = put_uint32 v
  encode (long v) = put_uint64 v
  encode (float v) = put_uint32 v
  encode (double v) = put_uint64 v
  encode (byte_array bs) = put_uint32 (length bs) ++ bs
  encode (string s) = put_uint16 (length s) ++ s
  encode (list t vs) = t ∷ (put_uint32 (count vs) ++ encode_items vs)
  encode (compound ms) = encode_members ms
  encode (int_array vs) = put_uint32 (length vs) ++ encode_ints vs
  encode (long_array vs) = put_uint32 (length vs) ++ encode_longs vs

  pub encode_items : Items → Bytes
  encode_items nil = []
  encode_items (item v vs) = encode v ++ encode_items vs

  pub encode_members : Members → Bytes
  encode_members end = 0 ∷ []
  encode_members (member name v ms) =
      tag_of v ∷ (put_uint16 (length name) ++ (name ++ (encode v ++ encode_members ms)))

-- The numbers fit their widths, the lengths fit a positive int16 or int32, and the elements of a
-- list are of its type.
unfoldable mutual
  pub IsWellFormed : Value → Type 0
  IsWellFormed (byte v) = IsByte v
  IsWellFormed (short v) = IsU16 v
  IsWellFormed (int v) = IsU32 v
  IsWellFormed (long v) = IsU64 v
  IsWellFormed (float v) = IsU32 v
  IsWellFormed (double v) = IsU64 v
  IsWellFormed (byte_array bs) = length bs < 0x8000_0000
  IsWellFormed (string s) = length s < 0x8000
  IsWellFormed (list t vs) = (count vs < 0x8000_0000) × ItemsWellFormed t vs
  IsWellFormed (compound ms) = MembersWellFormed ms
  IsWellFormed (int_array vs) = (length vs < 0x8000_0000) × All IsU32 vs
  IsWellFormed (long_array vs) = (length vs < 0x8000_0000) × All IsU64 vs

  pub ItemsWellFormed : ℕ → Items → Type 0
  ItemsWellFormed t nil = Unit {0}
  ItemsWellFormed t (item v vs) = (tag_of v ≡ t) × IsWellFormed v × ItemsWellFormed t vs

  pub MembersWellFormed : Members → Type 0
  MembersWellFormed end = Unit {0}
  MembersWellFormed (member name v ms) =
      (length name < 0x8000) × IsWellFormed v × MembersWellFormed ms
