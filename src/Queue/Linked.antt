-- ===== src/Queue/Linked.antt =====
-- LinkedListQueue (net/queue/queue.go): the list, the mutex, and the threads at the condition
-- variable. What a thread does between taking the lock and releasing it is one operation.
pub mod Order
pub mod Wakeups
pub mod Closing
use mc_afk_go.Base.{
  ℕ, zero, suc, ◌+◌, ◌≡◌, Bool, true, false, List, [], ◌∷◌, ◌++◌, Option, none, some,
}

-- `held` is the mutex, which a panic inside Push leaves locked; `waiting` counts the threads in
-- `cond.Wait`, `woken` those that a signal or a broadcast has let go and that have yet to lock.
pub record LinkedQueue (A : Type 0) : Type 0 where
  pub queue : List A
  pub closed : Bool
  pub held : Bool
  pub waiting : ℕ
  pub woken : ℕ

-- What a round of Pull's loop comes to: an element, the end of the queue, or a wait.
pub data Round (A : Type 0) : Type 0 where
  pulled : A → Round A
  ended waits : Round A

module _ {A : Type 0} where
  -- `NewLinkedQueue`
  unfoldable pub new_linked_queue : LinkedQueue A
  new_linked_queue = record {
    queue = [];
    closed = false;
    held = false;
    waiting = zero;
    woken = zero;
  }

  -- `cond.Signal`: one waiting thread, where there is one.
  unfoldable pub signal_count : ℕ → LinkedQueue A → LinkedQueue A
  signal_count zero p = p
  signal_count (suc n) p = record p { waiting = n; woken = suc p.woken }

  unfoldable pub signal : LinkedQueue A → LinkedQueue A
  unfolding signal_count
  signal p = signal_count p.waiting p

  -- `cond.Broadcast`
  unfoldable pub broadcast : LinkedQueue A → LinkedQueue A
  broadcast p = record p { waiting = zero; woken = p.woken + p.waiting }

  -- Push, from a mutex that is free: none for the panic, which leaves the mutex locked.
  unfoldable pub push_with : Bool → LinkedQueue A → A → LinkedQueue A × Option Bool
  push_with true p v = (record p { held = true }, none)
  push_with false p v = (signal (record p { queue = p.queue ++ v ∷ [] }), some true)

  unfoldable pub push : LinkedQueue A → A → LinkedQueue A × Option Bool
  unfolding push_with
  push p v = push_with p.closed p v

  -- A round of Pull's loop, with the lock.
  unfoldable pub pull_with : List A → Bool → LinkedQueue A → LinkedQueue A × Round A
  pull_with (v ∷ vs) closed p = (record p { queue = vs }, pulled v)
  pull_with [] true p = (p, ended)
  pull_with [] false p = (record p { waiting = suc p.waiting }, waits)

  unfoldable pub pull_round : LinkedQueue A → LinkedQueue A × Round A
  unfolding pull_with
  pull_round p = pull_with p.queue p.closed p

  -- Close, from a mutex that is free.
  unfoldable pub close : LinkedQueue A → LinkedQueue A
  unfolding broadcast
  close p = broadcast (record p { closed = true })

-- What is seen of a step.
pub data Event (A : Type 0) : Type 0 where
  pushes : A → Option Bool → Event A
  pulls : Round A → Event A
  closes : Event A

-- A step of some thread: each needs the mutex; a thread that comes back from `cond.Wait` is a
-- woken one, and goes through the loop again.
pub data Step {A : Type 0} : LinkedQueue A → Event A → LinkedQueue A → Type 0 where
  by_push :
      (p : LinkedQueue A) (v : A) → p.held ≡ false → Step p (pushes v (push p v).1) (push p v).0
  by_pull : (p : LinkedQueue A) → p.held ≡ false → Step p (pulls (pull_round p).1) (pull_round p).0
  by_woken :
      (p : LinkedQueue A) (n : ℕ)
      → p.held ≡ false
      → p.woken ≡ suc n
      → Step p
          (pulls (pull_round (record p { woken = n })).1)
          (pull_round (record p { woken = n })).0
  by_close : (p : LinkedQueue A) → p.held ≡ false → Step p closes (close p)

-- The states that some order of steps leads to from a new queue, with the events, the last first.
pub data Reached {A : Type 0} : List (Event A) → LinkedQueue A → Type 0 where
  at_start : Reached [] new_linked_queue
  then_step :
      (es : List (Event A)) (p q : LinkedQueue A) (e : Event A)
      → Reached es p
      → Step p e q
      → Reached (e ∷ es) q
