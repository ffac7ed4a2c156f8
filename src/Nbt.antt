-- ===== src/Nbt.antt =====
-- The binary tag format: nbt/nbt.go, the reading of decode.go that needs no reflection, rawmsg.go,
-- and the writing primitives of encode.go.
pub mod Read
pub mod Write
pub mod Format
pub mod Raw
use mc_afk_go.Base.{ℕ, ◌==◌, if◌then◌else◌}

-- The constants TagEnd to TagLongArray; `unknown` is every other byte.
pub data TagType : Type 0 where
  end byte short int long float double : TagType
  byte_array string list compound int_array long_array unknown : TagType

abbrev pub tag_id : TagType → ℕ
tag_id end = 0
tag_id byte = 1
tag_id short = 2
tag_id int = 3
tag_id long = 4
tag_id float = 5
tag_id double = 6
tag_id byte_array = 7
tag_id string = 8
tag_id list = 9
tag_id compound = 10
tag_id int_array = 11
tag_id long_array = 12
tag_id unknown = 13

-- The case of a switch on the tag's byte.
unfoldable pub tag_type : ℕ → TagType
tag_type b =
    if b == 0
    then end
    else if b == 1
    then byte
    else if b == 2
    then short
    else if b == 3
    then int
    else if b == 4
    then long
    else if b == 5
    then float
    else if b == 6
    then double
    else if b == 7
    then byte_array
    else if b == 8
    then string
    else if b == 9
    then list
    else if b == 10
    then compound
    else if b == 11
    then int_array
    else if b == 12
    then long_array
    else unknown
