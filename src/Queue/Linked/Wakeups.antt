-- ===== src/Queue/Linked/Wakeups.antt =====
-- The threads that wait in Pull of a LinkedListQueue (net/queue/queue.go), and the mutex.
use mc_afk_go.Base.{
  subst, ℕ, zero, suc, ◌≡◌, ◌≤◌, ◌<◌, refl, Bool, true, false, List, [], ◌∷◌, ◌++◌,
}
use mc_afk_go.Base.{length, length-append, arith}
use mc_afk_go.Queue.Linked.{
  LinkedQueue, new_linked_queue, push, push_with, pull_round, pull_with, close,
}
use mc_afk_go.Queue.Linked.{broadcast, signal, signal_count, Event}
use mc_afk_go.Queue.Linked.{
  Step, by_push, by_pull, by_woken, by_close, Reached, at_start, then_step,
}

module _ {A : Type 0} where
  -- While a thread waits, the queue is open and there is a woken thread for each element.
  abbrev Awake : LinkedQueue A → Type 0
  Awake p = zero < p.waiting → (p.closed ≡ false) × (length p.queue ≤ p.woken)

  signal_count-Awake :
      (n : ℕ) (p : LinkedQueue A)
      → p.waiting ≡ n
      → (zero < n → (p.closed ≡ false) × (length p.queue ≤ suc p.woken))
      → Awake (signal_count n p)
  unfolding signal_count
  signal_count-Awake zero p e h = λ w. absurd (omega arith)
  signal_count-Awake (suc n) p e h = λ w. h (omega arith)

  push_with-Awake :
      (b : Bool) (p : LinkedQueue A) (v : A) → p.closed ≡ b → Awake p → Awake (push_with b p v).0
  unfolding push_with signal
  push_with-Awake true p v e h = h
  push_with-Awake false p v e h =
      signal_count-Awake p.waiting (record p { queue = p.queue ++ v ∷ [] }) refl
        (λ w. (e, ground (arith, h w, length-append p.queue (v ∷ []))))

  -- One woken thread more may stand in the bound: the one that pulls here.
  pull_with-Awake :
      (vs : List A) (b : Bool) (p : LinkedQueue A)
      → p.queue ≡ vs
      → p.closed ≡ b
      → (zero < p.waiting → (p.closed ≡ false) × (length p.queue ≤ suc p.woken))
      → Awake (pull_with vs b p).0
  unfolding pull_with
  pull_with-Awake [] true p e c h = λ w. absurd (ground (arith, h w))
  pull_with-Awake [] false p e c h = λ w. (c, rw (e) (omega arith))
  pull_with-Awake (v ∷ vs) b p e c h = λ w.
      let few : suc (length vs) ≤ suc p.woken = subst (λ l. length l ≤ suc p.woken) e (h w).1 in
      ((h w).0, omega arith)

  step-Awake : (p q : LinkedQueue A) (e : Event A) → Step p e q → Awake p → Awake q
  unfolding push pull_round close broadcast
  step-Awake _ _ _ (by_push p v free) h = push_with-Awake p.closed p v refl h
  step-Awake _ _ _ (by_pull p free) h =
      pull_with-Awake p.queue p.closed p refl refl (λ w. ground (arith, h w))
  step-Awake _ _ _ (by_woken p n free woken) h =
      pull_with-Awake p.queue p.closed (record p { woken = n }) refl refl (λ w. ground (arith, h w))
  step-Awake _ _ _ (by_close p free) h = λ w. absurd (omega arith)

  -- In every state that any order of steps leads to, while a thread waits in Pull the queue is
  -- open, and there are at least as many woken threads as elements: no element stays behind
  -- with every puller asleep, and closing leaves nobody asleep.
  pub no_lost_wakeup :
      (es : List (Event A)) (p : LinkedQueue A)
      → Reached es p
      → zero < p.waiting
      → (p.closed ≡ false) × (length p.queue ≤ p.woken)
  unfolding new_linked_queue
  no_lost_wakeup _ _ at_start w = absurd (omega arith)
  no_lost_wakeup _ _ (then_step es p0 p e r step) w =
      step-Awake p0 p e step (no_lost_wakeup es p0 r) w
