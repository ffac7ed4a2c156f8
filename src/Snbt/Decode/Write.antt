-- ===== src/Snbt/Decode/Write.antt =====
-- `writeValue`, `writeCompoundPayload` and `writeListOrArray` of nbt/snbt_decode.go, and
-- `StringifiedMessage.MarshalNBT` of nbt/snbt.go.
pub mod ListTypes
pub mod Malformed
pub mod Lists
pub mod Fuel
use mc_afk_go.Base.{ℕ, zero, suc, ◌+◌, ◌-◌, ◌*◌, Bool, true, false, not, ◌&&◌, ◌||◌, ◌==◌}
use mc_afk_go.Base.{if◌then◌else◌, Option, none, some, [], ◌∷◌, length}
use mc_afk_go.Base.Bits.{u32}
use mc_afk_go.Io.{Bytes, Error, Writer, Written, write, buffer}
use mc_afk_go.Nbt.{TagType, tag_id}
use mc_afk_go.Nbt.Write.{write_int32, write_tag, write_list_header}
use mc_afk_go.Snbt.{Code}
use mc_afk_go.Snbt.{scan_continue, scan_begin_literal, scan_begin_compound, scan_begin_list}
use mc_afk_go.Snbt.{scan_list_value, scan_list_type, scan_compound_tag_name, scan_compound_value}
use mc_afk_go.Snbt.{scan_skip_space, scan_end_value, scan_end, scan_error}
use mc_afk_go.Snbt.Literal.{
  Literal, string, literal_tag, parse_literal, Parsed, parsed, bad_number, panics,
}
use mc_afk_go.Snbt.Decode.{
  DecodeState, start_state, same_code, scan_next, scan_while, Result, ok, err, panic, stuck, M,
  bind_result, ◌>>=◌, ◌>>◌, returns, scanned, skip_space, syntax, check_error, expect, emit, index,
  read_literal, literal_value, write_literal_payload, different_tag_type, unknown_array_type,
  not_literal, unexpected_element_type,
}
use mc_afk_go.Snbt.Decode.Steps.{
  tag_if, on_code, next_scanned, expect_either, panicking, put_list, array_types, literal_of,
  name_of, write_array, literal_loop, list_loop, compound_loop,
}

module _ (parse_float : ℕ → Bytes → Option ℕ) (to_float32 : ℕ → ℕ) where
  -- A list that a literal begins: an array behind its letter, or a list of literals.
  literal_list : ℕ → Bool → Bytes → M ℕ
  literal_list fuel with_tag name = do
    bs ← read_literal
    skip_space
    check_error
    on_code scan_list_type
        (do
          types ← array_types bs
          tag_if with_tag (tag_id types.0) name
          write_array parse_float to_float32 fuel types.1
          returns (tag_id types.0))
        (do
          tag_if with_tag (tag_id TagType.list) name
          expect_either scan_list_value scan_end_value
          out ← literal_loop parse_float to_float32 fuel none 0 [] bs
          put_list (tag_id out.0) out.1 out.2
          returns (tag_id TagType.end))

  -- The switch of writeListOrArray on the first opcode, which has no default.
  list_cases : M ℕ → M (Unit {0}) → ℕ → Bool → Bytes → M ℕ
  list_cases list_or_array payload fuel with_tag name =
      on_code scan_begin_literal (literal_list fuel with_tag name) (
        on_code scan_begin_list
          (do
            tag_if with_tag (tag_id TagType.list) name
            out ← list_loop list_or_array fuel 0 []
            put_list out.0 out.1 out.2
            returns (tag_id TagType.end))
          (on_code scan_begin_compound
            (do
              tag_if with_tag (tag_id TagType.list) name
              out ← compound_loop payload fuel 0 []
              put_list (tag_id TagType.compound) out.0 out.1
              returns (tag_id TagType.end))
            (returns (tag_id TagType.end))))

  -- `writeListOrArray` but for its calls of itself and of writeCompoundPayload.
  pub list_body : M ℕ → M (Unit {0}) → ℕ → Bool → Bytes → M ℕ
  list_body list_or_array payload fuel with_tag name = do
    scanned scan_skip_space
    on_code scan_end_value
        (do
          tag_if with_tag (tag_id TagType.list) name
          emit (write_list_header (tag_id TagType.end) 0)
          next_scanned
          returns (tag_id TagType.list))
        (do t ← list_cases list_or_array payload fuel with_tag name; next_scanned; returns t)

  -- The loop of writeCompoundPayload, by what writes a value with its tag.
  members_loop : (Bytes → M (Unit {0})) → ℕ → M (Unit {0})
  members_loop value zero d w = stuck
  members_loop value (suc fuel) d w =
      (do
        scanned scan_skip_space
        on_code scan_end_value (returns tt) (do
          check_error
          expect scan_begin_literal
          bs ← read_literal
          v ← literal_of parse_float to_float32 bs
          skip_space
          check_error
          expect scan_compound_tag_name
          value (name_of bs v)
          skip_space
          check_error
          on_code scan_end_value (returns tt)
              (do expect scan_compound_value; members_loop value fuel)))
        d w

  payload_body : (Bytes → M (Unit {0})) → ℕ → M (Unit {0})
  payload_body value fuel = do
    members_loop value fuel
    emit (λ w. write w (tag_id TagType.end ∷ []))
    next_scanned

  -- `writeValue` but for its calls of writeCompoundPayload and writeListOrArray.
  value_body : M (Unit {0}) → (Bool → Bytes → M ℕ) → Bool → Bytes → M (Unit {0})
  value_body payload list_or_array with_tag name = do
    scanned scan_skip_space
    check_error
    on_code scan_begin_literal
        (do
          bs ← read_literal
          v ← literal_of parse_float to_float32 bs
          tag_if with_tag (tag_id (literal_tag v)) name
          emit (write_literal_payload v))
        (on_code scan_begin_compound (do tag_if with_tag (tag_id TagType.compound) name; payload)
          (on_code scan_begin_list (do t ← list_or_array with_tag name; returns tt) panicking))

  -- The three functions call one another; each call takes a unit of fuel.
  mutual
    pub write_value : ℕ → Bool → Bytes → M (Unit {0})
    write_value zero with_tag name d w = stuck
    write_value (suc fuel) with_tag name d w =
        value_body (write_compound_payload fuel) (write_list_or_array fuel) with_tag name d w

    pub write_compound_payload : ℕ → M (Unit {0})
    write_compound_payload zero d w = stuck
    write_compound_payload (suc fuel) d w = payload_body (write_value fuel true) (suc fuel) d w

    pub write_list_or_array : ℕ → Bool → Bytes → M ℕ
    write_list_or_array zero with_tag name d w = stuck
    write_list_or_array (suc fuel) with_tag name d w =
        list_body (write_list_or_array fuel false []) (write_compound_payload fuel) (suc fuel)
          with_tag name d w

  -- `StringifiedMessage.MarshalNBT`: a unit of fuel for each byte, and three more.
  pub marshal_stringified : Bytes → Writer → Result (Unit {0})
  marshal_stringified m w = write_value (length m + 3) false [] (start_state m) w
