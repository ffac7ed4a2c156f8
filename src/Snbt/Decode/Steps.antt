-- ===== src/Snbt/Decode/Steps.antt =====
-- The loops of nbt/snbt_decode.go over the elements of an array and of a list, and the small steps
-- that its writers are made of.
use mc_afk_go.Base.{ℕ, zero, suc, Bool, true, false, ◌||◌, ◌==◌}
use mc_afk_go.Base.{if◌then◌else◌, Option, none, some, [], ◌∷◌}
use mc_afk_go.Base.Bits.{u32}
use mc_afk_go.Io.{Bytes, Writer, write, buffer}
use mc_afk_go.Nbt.{TagType, tag_id}
use mc_afk_go.Nbt.Write.{write_int32, write_tag, write_list_header}
use mc_afk_go.Snbt.{Code}
use mc_afk_go.Snbt.{scan_begin_literal, scan_begin_compound, scan_begin_list}
use mc_afk_go.Snbt.{scan_list_value}
use mc_afk_go.Snbt.{scan_skip_space, scan_end_value}
use mc_afk_go.Snbt.Literal.{Literal, string, literal_tag, parse_literal}
use mc_afk_go.Snbt.Decode.{
  same_code, scan_next, Result, ok, err, panic, stuck, M, ◌>>=◌, ◌>>◌, returns, scanned, skip_space,
  syntax, check_error, expect, emit, read_literal, literal_value, write_literal_payload,
  different_tag_type, unknown_array_type, SyntaxMessage, not_literal, unexpected_element_type,
}

-- `if ifWriteTag { err = writeTag(…) }`
unfoldable pub tag_if : Bool → ℕ → Bytes → M (Unit {0})
tag_if false tag name = returns tt
tag_if true tag name = emit (write_tag tag name)

-- A step of the code that the opcode decides.
unfoldable pub on_code : {A : Type 0} → Code → M A → M A → M A
on_code code yes' no' d w = if same_code d.opcode code then yes' d w else no' d w

-- What e2 writes goes to the buffer, and the outer sink stays. An error drops the buffer.
abbrev pub to_buffer : {A : Type 0} → Bytes → Writer → Result A → Result (A × Bytes)
to_buffer buf w (ok a d v) = ok (a, v.written) d w
to_buffer buf w (err e v) = err e w
to_buffer buf w panic = panic
to_buffer buf w stuck = stuck

unfoldable pub buffered : {A : Type 0} → M A → Bytes → M (A × Bytes)
buffered m buf d w = to_buffer buf w (m d (buffer buf))

unfoldable pub next_scanned : M (Unit {0})
next_scanned d w = ok tt (scan_next d) w

-- `if d.opcode != op { return d.error(…) }`
unfoldable pub require : Code → SyntaxMessage → M (Unit {0})
require op m d w = if same_code d.opcode op then ok tt d w else syntax m d w

-- The test of an element's type, with its error.
unfoldable pub require_tag : TagType → TagType → SyntaxMessage → M (Unit {0})
require_tag t u m d w = if tag_id t == tag_id u then ok tt d w else syntax m d w

unfoldable pub panicking : {A : Type 0} → M A
panicking d w = panic

-- `if d.opcode != op && d.opcode != other { panic(phasePanicMsg) }`
unfoldable pub expect_either : Code → Code → M (Unit {0})
expect_either op other d w =
    if same_code d.opcode op || same_code d.opcode other then ok tt d w else panic

-- `writeListHeader` and then the elements from the buffer.
unfoldable pub put_list : ℕ → ℕ → Bytes → M (Unit {0})
put_list elem_type count buf = do emit (write_list_header elem_type count); emit (λ w. write w buf)

unfoldable pub put_array : ℕ → Bytes → M (Unit {0})
put_array count buf = do emit (write_int32 (u32 count)); emit (λ w. write w buf)

-- The letter of an array: its tag and the tag of its elements. `literal[0]` of no bytes panics.
unfoldable pub array_types : Bytes → M (TagType × TagType)
array_types [] = panicking
array_types (c ∷ cs) =
    if c == b'B'
    then returns (TagType.byte_array, TagType.byte)
    else if c == b'I'
    then returns (TagType.int_array, TagType.int)
    else if c == b'L'
    then returns (TagType.long_array, TagType.long)
    else syntax unknown_array_type

-- `if tagType == 0 { tagType = t }`
abbrev pub first_tag : Option TagType → TagType → TagType
first_tag none t = t
first_tag (some u) t = u

-- The name of a member: the value of a string, the bytes of any other literal.
unfoldable pub name_of : Bytes → Literal → Bytes
name_of bs (string s) = s
name_of bs _ = bs

module _ (parse_float : ℕ → Bytes → Option ℕ) (to_float32 : ℕ → ℕ) where
  unfoldable pub literal_of : Bytes → M Literal
  literal_of bs = literal_value (parse_literal parse_float to_float32 bs)

  -- The loop of writeArray, which the first literal begins.
  unfoldable pub array_loop : ℕ → TagType → ℕ → Bytes → M (ℕ × Bytes)
  array_loop zero elem count buf d w = stuck
  array_loop (suc fuel) elem count buf d w =
      (do
        skip_space
        require scan_begin_literal not_literal
        bs ← read_literal
        v ← literal_of bs
        require_tag (literal_tag v) elem unexpected_element_type
        out ← buffered (emit (write_literal_payload v)) buf
        skip_space
        check_error
        on_code scan_end_value (returns (suc count, out.1)) (do
          expect scan_list_value
          scanned scan_skip_space
          array_loop fuel elem (suc count) out.1))
        d w

  unfoldable pub write_array : ℕ → TagType → M (Unit {0})
  write_array fuel elem = do
    skip_space
    scanned scan_skip_space
    on_code scan_end_value (emit (write_int32 0))
        (do out ← array_loop fuel elem 0 []; put_array out.0 out.1)

  -- The loop over the literals of a list; `first` is the type of the first one. The variable
  -- tagType of the loop is another one than the result of writeListOrArray.
  unfoldable pub literal_loop : ℕ → Option TagType → ℕ → Bytes → Bytes → M (TagType × ℕ × Bytes)
  literal_loop zero first count buf bs d w = stuck
  literal_loop (suc fuel) first count buf bs d w =
      (do
        v ← literal_of bs
        let elem = first_tag first (literal_tag v)
        require_tag (literal_tag v) elem different_tag_type
        out ← buffered (emit (write_literal_payload v)) buf
        skip_space
        check_error
        on_code scan_end_value (returns (elem, suc count, out.1)) (do
          expect scan_list_value
          scanned scan_skip_space
          next ← read_literal
          literal_loop fuel (some elem) (suc count) out.1 next))
        d w

-- The loops over the lists of a list and over the compounds of a list, by what writes one.
unfoldable pub list_loop : M ℕ → ℕ → ℕ → Bytes → M (ℕ × ℕ × Bytes)
list_loop one zero count buf d w = stuck
list_loop one (suc fuel) count buf d w =
    (do
      skip_space
      require scan_begin_list different_tag_type
      out ← buffered one buf
      skip_space
      check_error
      on_code scan_end_value (returns (out.0, suc count, out.1))
          (do expect scan_list_value; next_scanned; list_loop one fuel (suc count) out.1))
      d w

unfoldable pub compound_loop : M (Unit {0}) → ℕ → ℕ → Bytes → M (ℕ × Bytes)
compound_loop one zero count buf d w = stuck
compound_loop one (suc fuel) count buf d w =
    (do
      skip_space
      require scan_begin_compound different_tag_type
      out ← buffered one buf
      skip_space
      skip_space
      check_error
      on_code scan_end_value (returns (suc count, out.1))
          (do expect scan_list_value; next_scanned; compound_loop one fuel (suc count) out.1))
      d w
