-- ===== src/Snbt/Decode.antt =====
-- From the text to the binary form (nbt/snbt_decode.go): the decode state with its reads, and what
-- a call of the writers returns; the children have the writers themselves.
pub mod Write
pub mod Steps
pub mod Progress
pub mod Loops
pub mod TagOf
pub mod Spaces
use mc_afk_go.Base.{ℕ, zero, suc, ◌+◌, ◌-◌, Bool, true, false, not, ◌==◌, leb, if◌then◌else◌}
use mc_afk_go.Base.{Option, none, some, [], ◌∷◌, length, take, drop}
use mc_afk_go.Base.Bits.{u8, u16}
use mc_afk_go.Io.{Bytes, Error, Writer, Written, write, and_then, buffer}
use mc_afk_go.Nbt.Write.{write_int16, write_int32, write_int64}
use mc_afk_go.Snbt.{Code, ErrContext, Scanner, reset}
use mc_afk_go.Snbt.{scan_continue, scan_begin_literal, scan_begin_compound, scan_begin_list}
use mc_afk_go.Snbt.{scan_list_value, scan_list_type, scan_compound_tag_name, scan_compound_value}
use mc_afk_go.Snbt.{scan_skip_space, scan_end_value, scan_end, scan_error}
use mc_afk_go.Snbt.Scan.{scan_byte, eof}
use mc_afk_go.Snbt.Literal.{
  Literal, byte, short, int, long, float, double, string, Parsed, parsed, bad_number, panics,
}

-- The codes are the constants of nbt/snbt_scanner.go, counted from 0.
abbrev pub code_id : Code → ℕ
code_id scan_continue = 0
code_id scan_begin_literal = 1
code_id scan_begin_compound = 2
code_id scan_begin_list = 3
code_id scan_list_value = 4
code_id scan_list_type = 5
code_id scan_compound_tag_name = 6
code_id scan_compound_value = 7
code_id scan_skip_space = 8
code_id scan_end_value = 9
code_id scan_end = 10
code_id scan_error = 11

abbrev pub same_code : Code → Code → Bool
same_code a b = code_id a == code_id b

-- `content` is the field `data`.
pub record DecodeState : Type 0 where
  pub content : Bytes
  pub off : ℕ
  pub opcode : Code
  pub scan : Scanner

-- `decodeState{data: …}` with its scanner reset.
pub start_state : Bytes → DecodeState
unfolding reset
start_state bs = record { content = bs; off = 0; opcode = scan_continue; scan = reset }

unfoldable pub read_index : DecodeState → ℕ
read_index d = d.off - 1

scan_next_byte : DecodeState → Bytes → DecodeState
scan_next_byte d [] = record d { off = length d.content + 1 }
scan_next_byte d (c ∷ cs) =
    let (s, code) = scan_byte d.scan c in record d { off = d.off + 1; opcode = code; scan = s }

-- `scanNext`: at the end of the data the opcode stays.
pub scan_next : DecodeState → DecodeState
unfolding scan_next_byte
scan_next d = scan_next_byte d (drop d.off d.content)

-- The loop of scanWhile over the bytes that are left, from the index `i` on.
pub scan_loop : Code → Bytes → Bytes → ℕ → Scanner → DecodeState
scan_loop op content [] i s =
    let (t, code) = eof s in
    record { content = content; off = length content + 1; opcode = code; scan = t }
scan_loop op content (c ∷ cs) i s =
    let (t, code) = scan_byte s c in
    let rest = scan_loop op content cs (i + 1) t in
    if same_code code op
    then rest
    else record { content = content; off = i + 1; opcode = code; scan = t }

pub scan_while : Code → DecodeState → DecodeState
unfolding scan_loop
scan_while op d = scan_loop op d.content (drop d.off d.content) d.off d.scan

pub data SyntaxMessage : Type 0 where
  scanner_message : ErrContext → SyntaxMessage
  unknown_array_type different_tag_type not_literal unexpected_element_type : SyntaxMessage

-- A SyntaxError with its offset, an error of strconv, or one of the writer.
pub data EncodeError : Type 0 where
  syntax_error : SyntaxMessage → ℕ → EncodeError
  number_error : EncodeError
  write_error : Error → EncodeError

-- What a call returns: a value with the state and the sink after it, an error with the sink, or a
-- panic. `stuck` is no Go value: a loop of the model ran out of fuel.
pub data Result (A : Type 0) : Type 0 where
  ok : A → DecodeState → Writer → Result A
  err : EncodeError → Writer → Result A
  panic : Result A
  stuck : Result A

abbrev pub M : Type 0 → Type 0
M A = DecodeState → Writer → Result A

abbrev pub bind_result : {A B : Type 0} → Result A → (A → M B) → Result B
bind_result (ok a d w) f = f a d w
bind_result (err e w) f = err e w
bind_result panic f = panic
bind_result stuck f = stuck

infixl 5 ◌>>=◌ ◌>>◌
abbrev pub ◌>>=◌ : {A B : Type 0} → M A → (A → M B) → M B
◌>>=◌ m f d w = bind_result (m d w) f

abbrev pub ◌>>◌ : {B : Type 0} → M (Unit {0}) → M B → M B
m >> k = m >>= λ _. k

abbrev pub returns : {A : Type 0} → A → M A
returns a d w = ok a d w

unfoldable pub scanned : Code → M (Unit {0})
scanned op d w = ok tt (scan_while op d) w

-- `if d.opcode == scanSkipSpace { d.scanWhile(scanSkipSpace) }`
unfoldable pub skip_space : M (Unit {0})
skip_space d w =
    ok tt (if same_code d.opcode scan_skip_space then scan_while scan_skip_space d else d) w

unfoldable pub syntax : {A : Type 0} → SyntaxMessage → M A
syntax m d w = err (syntax_error m d.off) w

-- `if d.opcode == scanError { return d.error(d.scan.errContext) }`
unfoldable pub check_error : M (Unit {0})
unfolding syntax
check_error d w =
    if same_code d.opcode scan_error
    then syntax (scanner_message d.scan.err_context) d w
    else ok tt d w

-- `if d.opcode != op { panic(phasePanicMsg) }`
unfoldable pub expect : Code → M (Unit {0})
expect op d w = if same_code d.opcode op then ok tt d w else panic

emitted : Option Error → Writer → DecodeState → Result (Unit {0})
emitted none w d = ok tt d w
emitted (some e) w d = err (write_error e) w

-- A write to the sink, whose error is returned.
unfoldable pub emit : (Writer → Written) → M (Unit {0})
unfolding emitted
emit out d w = emitted (out w).err (out w).sink d

unfoldable pub index : M ℕ
unfolding read_index
index d w = ok (read_index d) d w

-- `d.data[start:d.readIndex()]`
unfoldable pub slice_from : ℕ → M Bytes
unfolding read_index
slice_from start d w = ok (take (read_index d - start) (drop start d.content)) d w

-- The bytes of a literal: from the byte that has been read to where the scanner leaves it.
unfoldable pub read_literal : M Bytes
read_literal = do start ← index; scanned scan_continue; check_error; slice_from start

unfoldable pub literal_value : Parsed → M Literal
literal_value (parsed v) d w = ok v d w
literal_value (bad_number t) d w = err number_error w
literal_value panics d w = panic

-- `writeLiteralPayload`
pub write_literal_payload : Literal → Writer → Written
write_literal_payload (string s) w = and_then (write_int16 (u16 (length s)) w) (λ v. write v s)
write_literal_payload (byte v) w = write w (u8 v ∷ [])
write_literal_payload (short v) w = write_int16 v w
write_literal_payload (int v) w = write_int32 v w
write_literal_payload (long v) w = write_int64 v w
write_literal_payload (float v) w = write_int32 v w
write_literal_payload (double v) w = write_int64 v w
