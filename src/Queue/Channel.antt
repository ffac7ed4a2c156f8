-- ===== src/Queue/Channel.antt =====
-- ChannelQueue (net/queue/queue.go): a Go channel, with its buffer and the goroutines that wait to
-- receive from it.
use mc_afk_go.Base.{
  subst, ◌⊎◌, ℕ, zero, suc, ◌≡◌, ◌≤◌, refl, Bool, true, false, List, [], ◌∷◌, ◌++◌,
}
use mc_afk_go.Base.{
  Option, none, some, length, length-append, arith, ltb, if◌then◌else◌, Bool-cases,
}
use mc_afk_go.Base.{inl, inr}

pub record ChannelQueue (A : Type 0) : Type 0 where
  pub buffer : List A
  pub capacity : ℕ
  pub receivers : ℕ
  pub closed : Bool

-- What a call comes to: a result, a panic, or a goroutine that waits in the channel.
pub data Call (R : Type 0) : Type 0 where
  returns : R → Call R
  panics waits : Call R

module _ {A : Type 0} where
  -- A send that is ready: straight to a waiting receiver, which it returns to, or into the buffer.
  send_ready : ℕ → ChannelQueue A → A → ChannelQueue A × Call Bool
  send_ready (suc n) c v = (record c { receivers = n }, returns true)
  send_ready zero c v =
      if ltb (length c.buffer) c.capacity
      then (record c { buffer = c.buffer ++ v ∷ [] }, returns true)
      else (c, returns false)

  send_open : Bool → ChannelQueue A → A → ChannelQueue A × Call Bool
  unfolding send_ready
  send_open true c v = (c, panics)
  send_open false c v = send_ready c.receivers c v

  -- Push: `select` with a default case.
  pub push : ChannelQueue A → A → ChannelQueue A × Call Bool
  unfolding send_open
  push c v = send_open c.closed c v

  receive : List A → Bool → ChannelQueue A → ChannelQueue A × Call (Option A)
  receive (v ∷ vs) closed c = (record c { buffer = vs }, returns (some v))
  receive [] true c = (c, returns none)
  receive [] false c = (record c { receivers = suc c.receivers }, waits)

  -- Pull: none for the zero value with `false`.
  pub pull : ChannelQueue A → ChannelQueue A × Call (Option A)
  unfolding receive
  pull c = receive c.buffer c.closed c

  close_open : Bool → ChannelQueue A → ChannelQueue A × Call Unit
  close_open true c = (c, panics)
  close_open false c = (record c { closed = true; receivers = zero }, returns tt)

  -- Close, which lets the waiting receivers go.
  pub close : ChannelQueue A → ChannelQueue A × Call Unit
  unfolding close_open
  close c = close_open c.closed c

  -- The buffer keeps within the capacity, and is empty while a receiver waits.
  abbrev pub IsChannel : ChannelQueue A → Type 0
  IsChannel c = (length c.buffer ≤ c.capacity) × ((c.receivers ≡ 0) ⊎ (c.buffer ≡ []))

  send_ready-IsChannel :
      (n : ℕ) (c : ChannelQueue A) (v : A)
      → c.receivers ≡ n
      → IsChannel c
      → IsChannel (send_ready n c v).0
  unfolding send_ready
  send_ready-IsChannel (suc n) c v e (fits, inl none_waits) = absurd (omega arith)
  send_ready-IsChannel (suc n) c v e (fits, inr empty) = (fits, inr empty)
  send_ready-IsChannel zero c v e (fits, either) =
      elim (Bool-cases (ltb (length c.buffer) c.capacity)) [
        | inl room ↦ rw (room) (ground (arith, length-append c.buffer (v ∷ [])), inl e)
        | inr full ↦ rw (full) (fits, either)
      ]

  send_open-IsChannel :
      (b : Bool) (c : ChannelQueue A) (v : A) → IsChannel c → IsChannel (send_open b c v).0
  unfolding send_open
  send_open-IsChannel true c v h = h
  send_open-IsChannel false c v h = send_ready-IsChannel c.receivers c v refl h

  receive-IsChannel :
      (vs : List A) (b : Bool) (c : ChannelQueue A)
      → c.buffer ≡ vs
      → IsChannel c
      → IsChannel (receive vs b c).0
  unfolding receive
  receive-IsChannel [] true c e h = h
  receive-IsChannel [] false c e (fits, either) = (fits, inr e)
  receive-IsChannel (v ∷ vs) b c e (fits, inl none_waits) =
      let few : suc (length vs) ≤ c.capacity = subst (λ l. length l ≤ c.capacity) e fits in
      (omega arith, inl none_waits)
  receive-IsChannel (v ∷ vs) b c e (fits, inr empty) = absurd (ground arith)

  close_open-IsChannel :
      (b : Bool) (c : ChannelQueue A) → IsChannel c → IsChannel (close_open b c).0
  unfolding close_open
  close_open-IsChannel true c h = h
  close_open-IsChannel false c (fits, either) = (fits, inl refl)

  -- Push, Pull and Close of a channel queue whose buffer is within its capacity, and empty
  -- while a goroutine waits to receive, keep both so.
  pub operations-IsChannel :
      (c : ChannelQueue A) (v : A)
      → IsChannel c
      → IsChannel (push c v).0 × IsChannel (pull c).0 × IsChannel (close c).0
  unfolding push pull close
  operations-IsChannel c v h = (
    send_open-IsChannel c.closed c v h,
    receive-IsChannel c.buffer c.closed c refl h,
    close_open-IsChannel c.closed c h,
  )
