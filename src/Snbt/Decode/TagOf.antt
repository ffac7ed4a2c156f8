-- ===== src/Snbt/Decode/TagOf.antt =====
-- `StringifiedMessage.TagType` of nbt/snbt.go: the tag of a text by its first bytes.
use mc_afk_go.Base.{ℕ, ◌-◌, ◌==◌, if◌then◌else◌, Option, none, some}
use mc_afk_go.Base.{[], ◌∷◌, take, drop}
use mc_afk_go.Io.{Bytes}
use mc_afk_go.Nbt.{TagType}
use mc_afk_go.Snbt.{scan_continue, scan_begin_literal, scan_begin_compound, scan_begin_list}
use mc_afk_go.Snbt.{scan_list_type, scan_skip_space, scan_error}
use mc_afk_go.Snbt.Literal.{Parsed, parsed, bad_number, panics, literal_tag, parse_literal}
use mc_afk_go.Snbt.Decode.{DecodeState, start_state, same_code, scan_while, read_index}

-- `tagType, _, _ := parseLiteral(literal)` drops the error; `none` is a panic.
tag_of_parsed : Parsed → Option TagType
tag_of_parsed (parsed v) = some (literal_tag v)
tag_of_parsed (bad_number t) = some t
tag_of_parsed panics = none

-- The bytes between the indices of two states.
between : DecodeState → DecodeState → Bytes
between d e = take (read_index e - read_index d) (drop (read_index d) e.content)

-- The switch on `literal[0]`, behind which TagList is returned.
array_tag : Bytes → Option TagType
array_tag [] = none
array_tag (c ∷ cs) =
    if c == b'B'
    then some TagType.byte_array
    else if c == b'I'
    then some TagType.int_array
    else if c == b'L'
    then some TagType.long_array
    else some TagType.list

skipped : DecodeState → DecodeState
skipped d = if same_code d.opcode scan_skip_space then scan_while scan_skip_space d else d

-- A list that a literal begins, the state before it and the one behind it.
list_tag : DecodeState → DecodeState → Option TagType
list_tag d e =
    if same_code e.opcode scan_error
    then some TagType.end
    else if same_code (skipped e).opcode scan_list_type
    then array_tag (between d e)
    else some TagType.list

opened_list_tag : DecodeState → Option TagType
opened_list_tag d =
    if same_code d.opcode scan_begin_literal
    then list_tag d (scan_while scan_continue d)
    else some TagType.list

module _ (parse_float : ℕ → Bytes → Option ℕ) (to_float32 : ℕ → ℕ) where
  literal_text_tag : DecodeState → DecodeState → Option TagType
  literal_text_tag d e =
      if same_code e.opcode scan_error
      then some TagType.end
      else tag_of_parsed (parse_literal parse_float to_float32 (between d e))

  begun_tag : DecodeState → Option TagType
  begun_tag d =
      if same_code d.opcode scan_begin_literal
      then literal_text_tag d (scan_while scan_continue d)
      else if same_code d.opcode scan_begin_compound
      then some TagType.compound
      else if same_code d.opcode scan_begin_list
      then opened_list_tag (scan_while scan_skip_space d)
      else some TagType.end

  pub stringified_tag : Bytes → Option TagType
  stringified_tag m = begun_tag (scan_while scan_skip_space (start_state m))
