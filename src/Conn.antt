-- ===== src/Conn.antt =====
-- Dialing (net/conn.go): the deadlines of the attempts and the loop over the addresses. The network,
-- the clock and the context are parameters.
pub mod Deadlines
pub mod Answers
use mc_afk_go.Base.{ℕ, ◌+◌, ◌-◌, ◌/◌, min, Bool, true, false, ◌==◌, ◌||◌, ltb, leb, if◌then◌else◌}
use mc_afk_go.Base.{Option, none, some, List, [], ◌∷◌, ◌++◌, map, length, ◌⊎◌, inl, inr}
use mc_afk_go.Io.{Bytes}
use mc_afk_go.Snbt.Print.{format_int}

-- A time is a count of nanoseconds, 0 for the zero time; a time.Duration is an int64 of them.
abbrev pub sane_minimum : ℕ
sane_minimum = 2_000_000_000

abbrev pub max_duration : ℕ
max_duration = 0x7FFF_FFFF_FFFF_FFFF

pub min_nonzero_time : ℕ → ℕ → ℕ
min_nonzero_time a b = if a == 0 then b else if b == 0 || ltb a b then a else b

-- `panicked` is a division by zero.
pub data Partial : Type 0 where
  until : ℕ → Partial
  deadline_exceeded panicked : Partial

pub partial_timeout : ℕ → ℕ → ℕ
partial_timeout remaining addrs =
    let timeout = remaining / addrs in
    if ltb timeout sane_minimum
    then (if ltb remaining sane_minimum then remaining else sane_minimum)
    else timeout

-- `deadline.Sub(now)` stops at the longest duration.
pub partial_deadline : ℕ → ℕ → ℕ → Partial
unfolding partial_timeout
partial_deadline now deadline addrs =
    if deadline == 0
    then until deadline
    else if leb deadline now
    then deadline_exceeded
    else if addrs == 0
    then panicked
    else until (now + partial_timeout (min (deadline - now) max_duration) addrs)

pub data DialErr (E : Type 0) : Type 0 where
  canceled context_deadline_exceeded : DialErr E
  dial_error split_error : E → DialErr E

-- What DialMCContext returns: a connection, or nil with an error; `failed none` is nil without one.
pub data Dialed (C E : Type 0) : Type 0 where
  connected : C → Dialed C E
  failed : Option (DialErr E) → Dialed C E
  panic : Dialed C E

-- One address: whether the context is done, the time, and what a dial with that deadline returns.
pub record Attempt (C E : Type 0) : Type 0 where
  pub done : Bool
  pub now : ℕ
  pub dial : Option ℕ → C ⊎ E

abbrev pub first_error : {E : Type 0} → Option (DialErr E) → DialErr E → Option (DialErr E)
first_error none e = some e
first_error (some f) e = some f

-- The answer to one dial; `rest` is the loop over the addresses behind it.
pub after_dial :
    {C E : Type 0} → (Option (DialErr E) → Dialed C E) → Option (DialErr E) → C ⊎ E → Dialed C E
after_dial rest first (inl c) = connected c
after_dial rest first (inr e) = rest (first_error first (dial_error e))

-- The dial, with the partial deadline where it is before the context's.
pub within :
    {C E : Type 0}
    → (Option (DialErr E) → Dialed C E)
    → Option (DialErr E)
    → Attempt C E
    → ℕ
    → Partial
    → Dialed C E
unfolding after_dial
within rest first a deadline (until t) =
    after_dial rest first (a.dial (some (if ltb t deadline then t else deadline)))
within rest first a deadline deadline_exceeded =
    failed (first_error first context_deadline_exceeded)
within rest first a deadline panicked = panic

pub dial_one :
    {C E : Type 0}
    → (Option (DialErr E) → Dialed C E)
    → Option (DialErr E)
    → Attempt C E
    → Option ℕ
    → ℕ
    → Dialed C E
unfolding after_dial within
dial_one rest first a none addrs = after_dial rest first (a.dial none)
dial_one rest first a (some deadline) addrs =
    within rest first a deadline (partial_deadline a.now deadline addrs)

-- A context that is done ends the loop.
pub unless_done : {C E : Type 0} → Bool → Dialed C E → Dialed C E
unless_done true r = failed (some canceled)
unless_done false r = r

-- The loop over the addresses.
pub dial_all : {C E : Type 0} → Option ℕ → List (Attempt C E) → Option (DialErr E) → Dialed C E
unfolding dial_one unless_done
dial_all deadline [] first = failed first
dial_all deadline (a ∷ more) first =
    let rest = dial_all deadline more in
    unless_done a.done (dial_one rest first a deadline (length more + 1))

-- The attempts at the addresses from the index `i` on.
pub attempts : {C E : Type 0} → (ℕ → Bytes → Attempt C E) → ℕ → List Bytes → List (Attempt C E)
attempts attempt i [] = []
attempts attempt i (addr ∷ addrs) = attempt i addr ∷ attempts attempt (i + 1) addrs

-- What net.SplitHostPort returns, and the records of LookupSRV.
pub data Split (E : Type 0) : Type 0 where
  host_port : Bytes → Bytes → Split E
  missing_port : Split E
  refused : E → Split E

pub record Srv : Type 0 where
  pub target : Bytes
  pub port : ℕ

-- `net.JoinHostPort` is a parameter.
module _ (join_host_port : Bytes → Bytes → Bytes) where
  pub srv_address : Srv → Bytes
  srv_address s = join_host_port s.target (format_int 64 s.port)

  -- The addresses without a port: those of the records, if the lookup succeeds, and the default one.
  pub looked_up : Option (List Srv) → Bytes → List Bytes
  looked_up none addr = join_host_port addr (format_int 64 25565) ∷ []
  looked_up (some records) addr =
      map srv_address records ++ (join_host_port addr (format_int 64 25565) ∷ [])

  -- The addresses by the host and the port that were split off.
  pub addresses : (Bytes → Option (List Srv)) → Bytes → Bytes → Bytes → List Bytes
  unfolding looked_up
  addresses lookup addr host [] = looked_up (lookup host) addr
  addresses lookup addr host (c ∷ cs) = addr ∷ []

  pub dial_split :
      {C E : Type 0}
      → (Bytes → Option (List Srv))
      → (ℕ → Bytes → Attempt C E)
      → Option ℕ
      → Bytes
      → Split E
      → Dialed C E
  unfolding addresses attempts dial_all
  dial_split lookup attempt deadline addr (host_port host port) =
      dial_all deadline (attempts attempt 0 (addresses lookup addr host port)) none
  dial_split lookup attempt deadline addr missing_port =
      dial_all deadline (attempts attempt 0 (addresses lookup addr addr [])) none
  dial_split lookup attempt deadline addr (refused e) = failed (some (split_error e))

  -- `Dialer.DialMCContext`
  pub dial_mc_context :
      {C E : Type 0}
      → (Bytes → Split E)
      → (Bytes → Option (List Srv))
      → (ℕ → Bytes → Attempt C E)
      → Option ℕ
      → Bytes
      → Dialed C E
  unfolding dial_split
  dial_mc_context split lookup attempt deadline addr =
      dial_split lookup attempt deadline addr (split addr)
