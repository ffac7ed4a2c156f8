-- ===== src/Nbt/Raw.antt =====
-- `rawRead` of nbt/decode.go, and RawMessage (nbt/rawmsg.go).
pub mod Fuel
pub mod Payload
pub mod Message
use mc_afk_go.Base.{ℕ, zero, suc, ◌-◌, ◌==◌, leb, if◌then◌else◌, length, take, drop, false}
use mc_afk_go.Base.Bits.{negative32}
use mc_afk_go.Io.{
  Bytes, eof, Reader, Outcome, done, fail, panic, stuck, Decoder, ◌>>=◌, map_value, unknown_tag,
  end_tag, read_full, Writer, Written, write,
}
use mc_afk_go.Nbt.{TagType, end, byte, short, int, long, float, double, byte_array, string, list}
use mc_afk_go.Nbt.{compound, int_array, long_array, unknown, tag_type}
use mc_afk_go.Nbt.Read.{read_byte, read_int8, read_int32, read_int64, read_string, read_tag}

abbrev pub discard {ℓ} : {A : Type ℓ} → Outcome A → Outcome (Unit {0})
discard o = map_value (λ _. tt) o

-- The rounds of a loop up to a length, none for a negative one.
abbrev pub rounds : ℕ → ℕ
rounds len = if negative32 len then 0 else len

-- `io.CopyN(io.Discard, r, n)`: io.EOF where the source ends too early.
pub copy_n : ℕ → Decoder (Unit {0})
copy_n n r =
    if leb n (length r.input)
    then done n tt (record r { input = drop n r.input })
    else fail (length r.input) eof

-- The loop over the elements of an array or of a list.
pub raw_items : Decoder (Unit {0}) → ℕ → Decoder (Unit {0})
raw_items item zero r = done 0 tt r
raw_items item (suc k) r = item r >>= λ _ r'. raw_items item k r'

raw_members_next : (ℕ → Decoder (Unit {0})) → Decoder (Unit {0}) → ℕ × Bytes → Decoder (Unit {0})
raw_members_next value more (tag, name) r =
    if tag == 0 then done 0 tt r else value tag r >>= λ _ r'. more r'

-- The loop over the members of a compound.
pub raw_members : (ℕ → Decoder (Unit {0})) → ℕ → Decoder (Unit {0})
unfolding raw_members_next
raw_members value zero r = stuck
raw_members value (suc fuel) r = read_tag r >>= raw_members_next value (raw_members value fuel)

-- The cases of the switch, with the call for a value inside.
pub raw_case : (ℕ → Decoder (Unit {0})) → ℕ → TagType → Decoder (Unit {0})
unfolding copy_n raw_items raw_members
raw_case value fuel end r = fail 0 unknown_tag
raw_case value fuel byte r = discard (read_int8 r)
raw_case value fuel short r = discard (read_full 2 r)
raw_case value fuel int r = discard (read_full 4 r)
raw_case value fuel long r = discard (read_full 8 r)
raw_case value fuel float r = discard (read_full 4 r)
raw_case value fuel double r = discard (read_full 8 r)
raw_case value fuel byte_array r = read_int32 r >>= λ len r'. copy_n (rounds len) r'
raw_case value fuel string r = discard (read_string r)
raw_case value fuel list r =
    read_byte r >>= λ tag r'. read_int32 r' >>= λ len s. raw_items (value tag) (rounds len) s
raw_case value fuel compound r = raw_members value fuel r
raw_case value fuel int_array r =
    read_int32 r >>= λ len r'. raw_items (λ s. discard (read_int32 s)) (rounds len) r'
raw_case value fuel long_array r =
    read_int32 r >>= λ len r'. raw_items (λ s. discard (read_int64 s)) (rounds len) r'
raw_case value fuel unknown r = fail 0 unknown_tag

-- A list and a compound read their values with one unit of fuel less.
pub raw_read : ℕ → ℕ → Decoder (Unit {0})
unfolding raw_case
raw_read zero tag r = stuck
raw_read (suc fuel) tag r = raw_case (raw_read fuel) (suc fuel) (tag_type tag) r

pub record RawMessage : Type 0 where
  pub tag : ℕ
  pub content : Bytes

-- What the io.TeeReader has put into the buffer: the bytes from the first source to the second.
abbrev pub passed : Reader → Reader → Bytes
passed r r' = take (length r.input - length r'.input) r.input

captured : ℕ → Reader → Outcome (Unit {0}) → Outcome RawMessage
captured tag r (done n _ r') =
    done n (record { tag = tag; content = passed r r' })
      (record { input = r'.input; is_byte_reader = r.is_byte_reader })
captured tag r (fail n e) = fail n e
captured tag r panic = panic
captured tag r stuck = stuck

-- `RawMessage.UnmarshalNBT`. The tee is no io.ByteReader. The fuel is one more than the bytes.
pub unmarshal_raw : ℕ → Decoder RawMessage
unfolding captured raw_read
unmarshal_raw tag r =
    if tag == 0
    then fail 0 end_tag
    else captured tag r
        (raw_read (suc (length r.input)) tag (record { input = r.input; is_byte_reader = false }))

-- `RawMessage.MarshalNBT`
pub marshal_raw : RawMessage → Writer → Written
marshal_raw m w = write w m.content
