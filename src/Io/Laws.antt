-- ===== src/Io/Laws.antt =====
-- Laws of the reader and the writer: writes one after the other, and full reads.
use mc_afk_go.Base.{ℕ, zero, suc, ◌-◌, ◌≤◌, ◌≡◌, refl, ap, ◌∙◌, arith}
use mc_afk_go.Base.{Bool, Option, none, some, Bool-cases, inl, inr}
use mc_afk_go.Base.{[], ◌∷◌, ◌++◌, leb, length, take, append_assoc, append-nil}
use mc_afk_go.Base.{length-append, take-length_append, drop-length_append}
use mc_afk_go.Base.{le→leb}
use mc_afk_go.Io.{Bytes, Reader, Outcome, done, read_full, source}
use mc_afk_go.Io.{Decoder, ◌>>=◌}
use mc_afk_go.Io.{Writer, Written, buffer, write_room, write, and_then, add_count}

pub take-append_over :
    (k : ℕ) (xs ys : Bytes) → length xs ≤ k → take k (xs ++ ys) ≡ xs ++ take (k - length xs) ys
take-append_over k [] ys h = ap (λ (n : ℕ). take n ys) (omega arith)
take-append_over zero (x ∷ xs) ys h = absurd (omega arith)
take-append_over (suc k) (x ∷ xs) ys h =
    ap (◌∷◌ x)
      (take-append_over k xs ys (omega arith) ∙ ap (λ (n : ℕ). xs ++ take n ys) (omega arith))

pub take-append_under : (k : ℕ) (xs ys : Bytes) → k ≤ length xs → take k (xs ++ ys) ≡ take k xs
take-append_under zero xs ys h = refl
take-append_under (suc k) [] ys h = absurd (omega arith)
take-append_under (suc k) (x ∷ xs) ys h = ap (◌∷◌ x) (take-append_under k xs ys (omega arith))

write_room-append :
    (room : Option ℕ) (out xs ys : Bytes)
    → and_then (write_room room out xs) (λ v. write v ys) ≡ write_room room out (xs ++ ys)
unfolding write and_then
write_room-append none out xs ys = ground (arith, append_assoc out xs ys, length-append xs ys)
write_room-append (some k) out xs ys = elim (Bool-cases (leb (length xs) k)) [
  | inl fits ↦ ground (
    arith,
    append_assoc out xs ys,
    append_assoc out xs (take (k - length xs) ys),
    length-append xs ys,
    take-append_over k xs ys,
  )
  | inr short ↦ ground (arith, length-append xs ys, take-append_under k xs ys)
]

-- Writing two slices, one after the other, is writing them joined: the same count, the same error
-- and the same sink, also where the room ends inside either.
pub write-append :
    (w : Writer) (xs ys : Bytes) → and_then (write w xs) (λ v. write v ys) ≡ write w (xs ++ ys)
unfolding write and_then
write-append w xs ys = write_room-append w.room w.written xs ys

write_room-nil :
    (room : Option ℕ) (out : Bytes)
    → write_room room out []
      ≡ record { count = 0; err = none; sink = record { written = out; room = room } }
unfolding write_room
write_room-nil none out = rw append-nil
write_room-nil (some k) out = ground (arith, append-nil out)

pub write-nil : (w : Writer) → write w [] ≡ record { count = 0; err = none; sink = w }
unfolding write
write-nil w = write_room-nil w.room w.written

pub write-buffer :
    (out bs : Bytes)
    → write (buffer out) bs ≡ record { count = length bs; err = none; sink = buffer (out ++ bs) }
unfolding write
write-buffer out bs = refl

pub read_full-append :
    (xs rest : Bytes) (b : Bool)
    → read_full (length xs) (record { input = xs ++ rest; is_byte_reader = b })
      ≡ done (length xs) xs (record { input = rest; is_byte_reader = b })
unfolding read_full
read_full-append xs rest b = rw (
  le→leb (length xs) (length (xs ++ rest)) (omega (arith, length-append xs rest)),
  take-length_append xs rest,
  drop-length_append xs rest,
)

pub read_full-append_of :
    (k : ℕ) (xs rest : Bytes) (b : Bool)
    → length xs ≡ k
    → read_full k (record { input = xs ++ rest; is_byte_reader = b })
      ≡ done k xs (record { input = rest; is_byte_reader = b })
read_full-append_of k xs rest b e = rw (← e) (read_full-append xs rest b)

-- What `write_to` puts into an empty buffer is read back with the same count, and what follows it
-- is left.
abbrev pub RoundTrips {ℓ} :
    {A : Type ℓ} → (A → Writer → Written) → Decoder A → A → Bytes → Bool → Type ℓ
RoundTrips write_to read_from v rest b =
    let o = write_to v (buffer []) in
    (o.err ≡ none)
    × (read_from (source (o.sink.written ++ rest) b) ≡ done o.count v (source rest b))

pub RoundTrips-encoded {ℓ} :
    {A : Type ℓ} (write_to : A → Writer → Written) (read_from : Decoder A) (v : A)
    (enc rest : Bytes) (b : Bool)
    → write_to v (buffer []) ≡ write (buffer []) enc
    → read_from (source (enc ++ rest) b) ≡ done (length enc) v (source rest b)
    → RoundTrips write_to read_from v rest b
RoundTrips-encoded write_to read_from v enc rest b hw hr = rw (hw, write-buffer [] enc) (refl, hr)

-- A length and then the content: both reads succeed, the counts add up.
pub bind-done {ℓ κ} :
    {A : Type ℓ} {B : Type κ} {o : Outcome A} {n : ℕ} {a : A} {r : Reader} (f : A → Decoder B)
    → o ≡ done n a r
    → (o >>= f) ≡ add_count n (f a r)
bind-done f e = rw e
