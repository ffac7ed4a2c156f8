-- ===== src/Io.antt =====
-- The parts of Go's io package that net/packet stands on: readers, writers, and what a call that
-- reads or writes returns. A `Bytes` is a []byte, each element below 256.
pub mod Laws
pub mod Exact
use mc_afk_go.Base.{ℕ, zero, suc, ◌+◌, ◌-◌, Bool, true, false, Option, none, some}
use mc_afk_go.Base.{List, [], ◌∷◌, ◌++◌, leb, ltb, if◌then◌else◌, length, take, drop}

abbrev pub Bytes : Type 0
Bytes = List ℕ

-- The errors that net/packet and nbt return. `field i e` is `e` wrapped with the index of the field
-- that was being read.
pub data Error : Type 0 where
  eof unexpected_eof short_write : Error
  var_int_too_big var_long_too_big negative_length : Error
  bad_packet_length below_threshold above_maximum bad_zlib_header bad_zlib_data : Error
  negative_string_length unknown_tag compressed_data end_tag : Error
  field : ℕ → Error → Error

-- A source that hands over whatever is asked of it, as long as it has bytes, and then io.EOF: a
-- bytes.Reader, or a socket on which the data has arrived. `is_byte_reader` says whether the value
-- implements io.ByteReader (a bytes.Reader does, a socket does not).
pub record Reader : Type 0 where
  pub input : Bytes
  pub is_byte_reader : Bool

abbrev pub source : Bytes → Bool → Reader
source bs b = record { input = bs; is_byte_reader = b }

-- What a ReadFrom returns: the count and the value with the reader after it, the count and an
-- error, or a panic. `stuck` is no Go value: a loop of the model ran out of fuel.
pub data Outcome {ℓ} (A : Type ℓ) : Type ℓ where
  done : ℕ → A → Reader → Outcome A
  fail : ℕ → Error → Outcome A
  panic : Outcome A
  stuck : Outcome A

abbrev pub Decoder {ℓ} : Type ℓ → Type ℓ
Decoder A = Reader → Outcome A

-- `n += nn`
abbrev pub add_count {ℓ} : {A : Type ℓ} → ℕ → Outcome A → Outcome A
add_count n (done m a r) = done (n + m) a r
add_count n (fail m e) = fail (n + m) e
add_count n panic = panic
add_count n stuck = stuck

-- `nn, err := x.ReadFrom(r); if err != nil { return nn, err }; n += nn`, and then the rest.
infixl 5 ◌>>=◌
abbrev pub ◌>>=◌ {ℓ κ} : {A : Type ℓ} {B : Type κ} → Outcome A → (A → Decoder B) → Outcome B
done n a r >>= f = add_count n (f a r)
fail n e >>= f = fail n e
panic >>= f = panic
stuck >>= f = stuck

-- The value converted, `T(v)`.
abbrev pub map_value {ℓ κ} : {A : Type ℓ} {B : Type κ} → (A → B) → Outcome A → Outcome B
map_value f (done n a r) = done n (f a) r
map_value f (fail n e) = fail n e
map_value f panic = panic
map_value f stuck = stuck

-- `io.ReadFull(r, bs)` for a buffer of `k` bytes.
unfoldable pub read_full : ℕ → Decoder Bytes
read_full k r =
    if leb k (length r.input)
    then done k (take k r.input) (record r { input = drop k r.input })
    else fail (length r.input) (if leb 1 (length r.input) then unexpected_eof else eof)

-- One `r.Read(bs)` for a buffer `bs`, which may fill a part of it. A bytes.Reader at its end
-- returns io.EOF also for an empty buffer.
unfoldable pub read_some : Bytes → Decoder Bytes
read_some bs r =
    if leb 1 (length r.input)
    then done (length (take (length bs) r.input))
        (take (length bs) r.input ++ drop (length r.input) bs)
        (record r { input = drop (length bs) r.input })
    else fail 0 eof

-- `io.ReadAll(r)`
unfoldable pub read_all : Decoder Bytes
read_all r = done (length r.input) r.input (record r { input = [] })

-- A sink that has taken `written`, and has room for so many bytes more; a bytes.Buffer has no
-- bound (`none`).
pub record Writer : Type 0 where
  pub written : Bytes
  pub room : Option ℕ

-- What a WriteTo returns, with the sink after it.
pub record Written : Type 0 where
  pub count : ℕ
  pub err : Option Error
  pub sink : Writer

abbrev pub buffer : Bytes → Writer
buffer bs = record { written = bs; room = none }

-- `w.Write(bs)`: with too little room it takes what fits and returns the error.
write_room : Option ℕ → Bytes → Bytes → Written
write_room none out bs = record {
  count = length bs;
  err = none;
  sink = record { written = out ++ bs; room = none };
}
write_room (some k) out bs =
    if leb (length bs) k
    then record {
      count = length bs;
      err = none;
      sink = record { written = out ++ bs; room = some (k - length bs) };
    }
    else record {
      count = k;
      err = some short_write;
      sink = record { written = out ++ take k bs; room = some 0 };
    }

unfoldable pub write : Writer → Bytes → Written
unfolding write_room
write w bs = write_room w.room w.written bs

-- `n1, err := first; if err != nil { return n1, err }; n2, err := next; return n1 + n2, err`
and_then_err : Option Error → Written → (Writer → Written) → Written
and_then_err (some e) o next = o
and_then_err none o next = let p = next o.sink in record p { count = o.count + p.count }

unfoldable pub and_then : Written → (Writer → Written) → Written
unfolding and_then_err
and_then o next = and_then_err o.err o next
