-- ===== src/Conn/Answers.antt =====
-- What `DialMCContext` of net/conn.go returns.
use mc_afk_go.Base.{ℕ, ◌+◌, ◌≢◌, Bool, true, false, arith, refl, inl, inr, ◌⊎◌, Option, none, some}
use mc_afk_go.Base.{List, [], ◌∷◌, ◌++◌, length, map}
use mc_afk_go.Io.{Bytes}
use mc_afk_go.Conn.{
  Partial, until, deadline_exceeded, panicked, DialErr, dial_error, Dialed, connected, failed,
  Attempt, first_error, after_dial, within, dial_one, unless_done, dial_all, attempts, Split,
  host_port, missing_port, refused, Srv, looked_up, addresses, dial_split, dial_mc_context,
  partial_deadline, canceled, split_error,
}

-- A connection or an error: not nil without an error, and no panic.
pub data Answer {C E : Type 0} : Dialed C E → Type 0 where
  by_connection : (c : C) → Answer (connected c)
  by_error : (e : DialErr E) → Answer (failed (some e))

Answer-first :
    {C E : Type 0} (first : Option (DialErr E)) (e : DialErr E)
    → Answer {C = C} (failed (first_error first e))
Answer-first none e = by_error e
Answer-first (some f) e = by_error f

-- An attempt answers, where the loop behind it does so once there has been an error.
after_dial-Answer :
    {C E : Type 0} (rest : Option (DialErr E) → Dialed C E) (first : Option (DialErr E)) (r : C ⊎ E)
    → ((e : DialErr E) → Answer (rest (some e)))
    → Answer (after_dial rest first r)
unfolding after_dial
after_dial-Answer rest first (inl c) h = by_connection c
after_dial-Answer rest none (inr e) h = h (dial_error e)
after_dial-Answer rest (some f) (inr e) h = h f

within-Answer :
    {C E : Type 0} (rest : Option (DialErr E) → Dialed C E) (first : Option (DialErr E))
    (a : Attempt C E) (deadline : ℕ) (p : Partial)
    → p ≢ panicked
    → ((e : DialErr E) → Answer (rest (some e)))
    → Answer (within rest first a deadline p)
unfolding within
within-Answer rest first a deadline (until t) l h = after_dial-Answer rest first _ h
within-Answer rest first a deadline deadline_exceeded l h = Answer-first first _
within-Answer rest first a deadline panicked l h = absurd (l refl)

partial_deadline-total :
    (now deadline addrs : ℕ) → partial_deadline now deadline (addrs + 1) ≢ panicked
unfolding partial_deadline
partial_deadline-total now deadline addrs h = ground (arith, h)

dial_one-Answer :
    {C E : Type 0} (rest : Option (DialErr E) → Dialed C E) (first : Option (DialErr E))
    (a : Attempt C E) (deadline : Option ℕ) (addrs : ℕ)
    → ((e : DialErr E) → Answer (rest (some e)))
    → Answer (dial_one rest first a deadline (addrs + 1))
unfolding dial_one
dial_one-Answer rest first a none addrs h = after_dial-Answer rest first _ h
dial_one-Answer rest first a (some deadline) addrs h =
    within-Answer rest first a deadline _ (partial_deadline-total a.now deadline addrs) h

unless_done-Answer :
    {C E : Type 0} (b : Bool) (r : Dialed C E) → Answer r → Answer (unless_done b r)
unfolding unless_done
unless_done-Answer true r h = by_error canceled
unless_done-Answer false r h = h

dial_all-Answer :
    {C E : Type 0} (deadline : Option ℕ) (more : List (Attempt C E)) (e : DialErr E)
    → Answer (dial_all deadline more (some e))
unfolding dial_all
dial_all-Answer deadline [] e = by_error e
dial_all-Answer deadline (a ∷ more) e = unless_done-Answer a.done _ (
    dial_one-Answer (dial_all deadline more) (some e) a deadline (length more)
      (dial_all-Answer deadline more))

-- An address at least.
dial_all-Answer-cons :
    {C E : Type 0} (deadline : Option ℕ) (a : Attempt C E) (more : List (Attempt C E))
    → Answer (dial_all deadline (a ∷ more) none)
unfolding dial_all
dial_all-Answer-cons deadline a more = unless_done-Answer a.done _ (
    dial_one-Answer (dial_all deadline more) none a deadline (length more)
      (dial_all-Answer deadline more))

attempts-Answer-last :
    {C E : Type 0} (deadline : Option ℕ) (attempt : ℕ → Bytes → Attempt C E) (xs : List Bytes)
    (addr : Bytes)
    → Answer (dial_all deadline (attempts attempt 0 (xs ++ addr ∷ [])) none)
unfolding attempts
attempts-Answer-last deadline attempt [] addr = dial_all-Answer-cons deadline _ _
attempts-Answer-last deadline attempt (x ∷ xs) addr = dial_all-Answer-cons deadline _ _

module _ (join_host_port : Bytes → Bytes → Bytes) where
  looked_up-Answer :
      {C E : Type 0} (attempt : ℕ → Bytes → Attempt C E) (deadline : Option ℕ) (addr : Bytes)
      (records : Option (List Srv))
      → Answer (dial_all deadline (attempts attempt 0 (looked_up join_host_port records addr)) none)
  unfolding looked_up
  looked_up-Answer attempt deadline addr none = attempts-Answer-last deadline attempt [] _
  looked_up-Answer attempt deadline addr (some records) =
      attempts-Answer-last deadline attempt (map _ records) _

  addresses-Answer :
      {C E : Type 0} (lookup : Bytes → Option (List Srv)) (attempt : ℕ → Bytes → Attempt C E)
      (deadline : Option ℕ) (addr host port : Bytes)
      → Answer (
          dial_all deadline
            (attempts attempt 0 (addresses join_host_port lookup addr host port))
            none)
  unfolding addresses
  addresses-Answer lookup attempt deadline addr host (c ∷ cs) =
      attempts-Answer-last deadline attempt [] addr
  addresses-Answer lookup attempt deadline addr host [] =
      looked_up-Answer attempt deadline addr (lookup host)

  dial_split-Answer :
      {C E : Type 0} (lookup : Bytes → Option (List Srv)) (attempt : ℕ → Bytes → Attempt C E)
      (deadline : Option ℕ) (addr : Bytes) (s : Split E)
      → Answer (dial_split join_host_port lookup attempt deadline addr s)
  unfolding dial_split
  dial_split-Answer lookup attempt deadline addr (host_port host port) =
      addresses-Answer lookup attempt deadline addr host port
  dial_split-Answer lookup attempt deadline addr missing_port =
      addresses-Answer lookup attempt deadline addr addr []
  dial_split-Answer lookup attempt deadline addr (refused e) = by_error (split_error e)

  -- DialMCContext returns a connection or an error, and neither nil without an error nor a
  -- panic, whatever the network, the name lookup, the clock and the context answer.
  pub dial_mc_context-Answer :
      {C E : Type 0} (split : Bytes → Split E) (lookup : Bytes → Option (List Srv))
      (attempt : ℕ → Bytes → Attempt C E) (deadline : Option ℕ) (addr : Bytes)
      → Answer (dial_mc_context join_host_port split lookup attempt deadline addr)
  unfolding dial_mc_context
  dial_mc_context-Answer split lookup attempt deadline addr =
      dial_split-Answer lookup attempt deadline addr (split addr)
