-- ===== src/Queue/Linked/Order.antt =====
-- The order in which a LinkedListQueue (net/queue/queue.go) gives back what was pushed.
use mc_afk_go.Base.{ℕ, zero, suc, ◌≡◌, refl, ap, sym, ◌∙◌, Bool, true, false, List, [], ◌∷◌, ◌++◌}
use mc_afk_go.Base.{none, some, append_assoc}
use mc_afk_go.Queue.Linked.{
  LinkedQueue, new_linked_queue, push, push_with, pull_round, pull_with, close,
}
use mc_afk_go.Queue.Linked.{broadcast, signal, signal_count, pulled, ended, waits, Event, pushes}
use mc_afk_go.Queue.Linked.{
  pulls, closes, Step, by_push, by_pull, by_woken, by_close, Reached, at_start,
}
use mc_afk_go.Queue.Linked.{then_step}

module _ {A : Type 0} where
  -- The elements that the pushes of a history have added, in their order.
  abbrev pub all_pushed : List (Event A) → List A
  all_pushed [] = []
  all_pushed (pushes v none ∷ es) = all_pushed es
  all_pushed (pushes v (some ok) ∷ es) = all_pushed es ++ v ∷ []
  all_pushed (pulls r ∷ es) = all_pushed es
  all_pushed (closes ∷ es) = all_pushed es

  -- The elements that the pulls of a history have returned, in their order.
  abbrev pub all_pulled : List (Event A) → List A
  all_pulled [] = []
  all_pulled (pushes v ok ∷ es) = all_pulled es
  all_pulled (pulls (pulled v) ∷ es) = all_pulled es ++ v ∷ []
  all_pulled (pulls ended ∷ es) = all_pulled es
  all_pulled (pulls waits ∷ es) = all_pulled es
  all_pulled (closes ∷ es) = all_pulled es

  abbrev InOrder : List (Event A) → LinkedQueue A → Type 0
  InOrder es p = all_pushed es ≡ all_pulled es ++ p.queue

  signal_count-queue : (n : ℕ) (p : LinkedQueue A) → (signal_count n p).queue ≡ p.queue
  unfolding signal_count
  signal_count-queue zero p = refl
  signal_count-queue (suc n) p = refl

  push_with-InOrder :
      (b : Bool) (es : List (Event A)) (p : LinkedQueue A) (v : A)
      → InOrder es p
      → InOrder (pushes v (push_with b p v).1 ∷ es) (push_with b p v).0
  unfolding push_with signal
  push_with-InOrder true es p v h = h
  push_with-InOrder false es p v h =
      ap (λ l. l ++ v ∷ []) h
      ∙ append_assoc (all_pulled es) p.queue (v ∷ [])
      ∙ ap (λ l. all_pulled es ++ l)
          (sym (signal_count-queue p.waiting (record p { queue = p.queue ++ v ∷ [] })))

  pull_with-InOrder :
      (vs : List A) (b : Bool) (es : List (Event A)) (p : LinkedQueue A)
      → p.queue ≡ vs
      → InOrder es p
      → InOrder (pulls (pull_with vs b p).1 ∷ es) (pull_with vs b p).0
  unfolding pull_with
  pull_with-InOrder [] true es p e h = h
  pull_with-InOrder [] false es p e h = h
  pull_with-InOrder (v ∷ vs) b es p e h =
      h ∙ ap (λ l. all_pulled es ++ l) e ∙ sym (append_assoc (all_pulled es) (v ∷ []) vs)

  step-InOrder :
      (es : List (Event A)) (p q : LinkedQueue A) (e : Event A)
      → Step p e q
      → InOrder es p
      → InOrder (e ∷ es) q
  unfolding push pull_round close broadcast
  step-InOrder es _ _ _ (by_push p v free) h = push_with-InOrder p.closed es p v h
  step-InOrder es _ _ _ (by_pull p free) h = pull_with-InOrder p.queue p.closed es p refl h
  step-InOrder es _ _ _ (by_woken p n free woken) h =
      pull_with-InOrder p.queue p.closed es (record p { woken = n }) refl h
  step-InOrder es _ _ _ (by_close p free) h = h

  -- In every state that any order of pushes, pulls, waits and closes of any threads leads to,
  -- the elements pushed so far, in their order, are the elements pulled so far followed by
  -- those in the queue: nothing is lost, doubled or overtaken.
  pub first_in_first_out :
      (es : List (Event A)) (p : LinkedQueue A)
      → Reached es p
      → all_pushed es ≡ all_pulled es ++ p.queue
  unfolding new_linked_queue
  first_in_first_out _ _ at_start = refl
  first_in_first_out _ _ (then_step es p0 p e r step) =
      step-InOrder es p0 p e step (first_in_first_out es p0 r)
