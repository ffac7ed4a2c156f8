-- ===== src/Field/Tuple.antt =====
-- Tuple (net/packet/util.go).
pub mod Laws
use mc_afk_go.Base.{ℕ, zero, suc, ◌+◌, Bool, true, false, List, [], ◌∷◌, Option, none, some}
use mc_afk_go.Io.{Bytes, Error, field, Reader, Outcome, done, fail, panic, stuck}
use mc_afk_go.Io.{Decoder, ◌>>=◌, add_count, map_value, Writer, Written, and_then}
use mc_afk_go.Wire.Fixed.{write_boolean, read_boolean}
use mc_afk_go.Field.{FieldEncoder, FieldDecoder}

-- One field of the loop of `Tuple.WriteTo`, at the count `n`: the bytes of a field that fails are
-- not counted.
tuple_step : Option Error → ℕ → Written → (ℕ → Writer → Written) → Written
tuple_step (some e) n o next = record { count = n; err = some e; sink = o.sink }
tuple_step none n o next = next (n + o.count) o.sink

write_tuple_from : ℕ → List FieldEncoder → Writer → Written
unfolding tuple_step
write_tuple_from n [] w = record { count = n; err = none; sink = w }
write_tuple_from n (f ∷ fs) w = let o = f w in tuple_step o.err n o (λ m v. write_tuple_from m fs v)

pub write_tuple : List FieldEncoder → Writer → Written
unfolding write_tuple_from
write_tuple t w = write_tuple_from 0 t w

module _ {V : Type 0} where
  -- `Tuple.ReadFrom` from index `i` on: an error is wrapped with the index of its field, and the
  -- bytes of that field are not counted.
  read_tuple_from : ℕ → List (Decoder V) → Decoder (List V)
  read_tuple_from i [] r = done 0 [] r
  read_tuple_from i (d ∷ ds) r = elim (d r) [
    | done n v r' ↦ add_count n (map_value (λ vs. v ∷ vs) (read_tuple_from (i + 1) ds r'))
    | fail n e ↦ fail 0 (field i e)
    | panic ↦ panic
    | stuck ↦ stuck
  ]

  pub read_tuple : List (Decoder V) → Decoder (List V)
  unfolding read_tuple_from
  read_tuple t r = read_tuple_from 0 t r
