-- ===== src/Examples/Streams.antt =====
-- The queues (net/queue/queue.go) and the stream cipher (net/CFB8/cfb8.go) at concrete values.
use mc_afk_go.Base.{
  ◌⊎◌, ℕ, ◌+◌, ◌≡◌, ◌≤◌, refl, true, false, List, [], ◌∷◌, ◌++◌, length, none, some, arith, ◌%◌,
}
use mc_afk_go.Io.{Bytes}
use mc_afk_go.Queue.Linked.{
  LinkedQueue, new_linked_queue, push, pull_round, push_with, pull_with, signal, signal_count,
  Event, pushes, pulls,
}
use mc_afk_go.Queue.Linked.{
  by_push, by_pull, by_close, close, broadcast, Reached, at_start, then_step, closes,
}
use mc_afk_go.Queue.Linked.Order.{all_pushed, all_pulled, first_in_first_out}
use mc_afk_go.Queue.Linked.Wakeups.{no_lost_wakeup}
use mc_afk_go.Queue.Linked.Closing.{any_close, push_after_close}
use mc_afk_go.Cfb8.{Cfb8, new_cfb8, xor_key_stream}
use mc_afk_go.Cfb8.Reference.{register_stream}
use mc_afk_go.Cfb8.Reference.Rounds.{Ready, register_of}
use mc_afk_go.Cfb8.Reference.Streams.{xor_key_stream-register, decrypt-encrypt}

abbrev start : LinkedQueue ℕ
start = new_linked_queue

abbrev after_push : LinkedQueue ℕ
after_push = (push start 7).0

-- A push and a pull.
abbrev history : List (Event ℕ)
history = pulls (pull_round after_push).1 ∷ pushes 7 (push start 7).1 ∷ []

after_push_free : after_push.held ≡ false
unfolding new_linked_queue push push_with signal signal_count
after_push_free = refl

Reached-pull : Reached history (pull_round after_push).0
unfolding new_linked_queue
Reached-pull =
    then_step _ after_push _ _ (then_step [] start _ _ at_start (by_push start 7 refl))
      (by_pull after_push after_push_free)

first_in_first_out_example :
    all_pushed history ≡ all_pulled history ++ (pull_round after_push).0.queue
first_in_first_out_example = first_in_first_out history (pull_round after_push).0 Reached-pull

-- A pull that waits.
no_lost_wakeup_example :
    ((pull_round start).0.closed ≡ false)
    × (length (pull_round start).0.queue ≤ (pull_round start).0.woken)
unfolding new_linked_queue pull_round pull_with
no_lost_wakeup_example =
    no_lost_wakeup (pulls (pull_round start).1 ∷ []) (pull_round start).0
      (then_step [] start _ _ at_start (by_pull start refl)) (omega arith)

-- A close and a push.
abbrev after_close : LinkedQueue ℕ
after_close = close start

after_close_free : after_close.held ≡ false
unfolding new_linked_queue close broadcast
after_close_free = refl

push_after_close_example :
    ((push after_close 7).1 ≡ none)
    × ((any_close {A = ℕ} (closes ∷ []) ≡ false) ⊎ (◌≡◌ {A = List (Event ℕ)} [] []))
unfolding any_close new_linked_queue
push_after_close_example =
    push_after_close [] (closes ∷ []) 7 (push after_close 7).1 (push after_close 7).0 (
      then_step _ after_close _ _ (then_step [] start _ _ at_start (by_close start refl))
        (by_push after_close 7 after_close_free))

-- A cipher on blocks of two bytes.
abbrev swap_block : Bytes → Bytes
swap_block (a ∷ b ∷ rest) = (b + 3) % 256 ∷ (a + 5) % 256 ∷ rest
swap_block xs = xs

swap_block-length : (block : Bytes) → length block ≡ 2 → length (swap_block block) ≡ 2
swap_block-length [] h = h
swap_block-length (a ∷ []) h = h
swap_block-length (a ∷ b ∷ rest) h = h

decrypt-encrypt_example :
    (sent received : Cfb8) × (cipher : Bytes) × (xor_key_stream swap_block
        (new_cfb8 2 (1 ∷ 2 ∷ []) false)
        (9 ∷ 8 ∷ 7 ∷ 6 ∷ 5 ∷ [])
      ≡ some (sent, cipher))
    × (xor_key_stream swap_block (new_cfb8 2 (1 ∷ 2 ∷ []) true) cipher
        ≡ some (received, 9 ∷ 8 ∷ 7 ∷ 6 ∷ 5 ∷ []))
decrypt-encrypt_example =
    decrypt-encrypt swap_block 1 swap_block-length (1 ∷ 2 ∷ []) (9 ∷ 8 ∷ 7 ∷ 6 ∷ 5 ∷ []) refl

-- At the end of the vector.
abbrev at_end : Cfb8
at_end = record { block_size = 2; iv_pos = 4; iv = 1 ∷ 2 ∷ 3 ∷ 4 ∷ 5 ∷ 6 ∷ []; de = false }

xor_key_stream-register_example :
    (next : Cfb8) × (xor_key_stream swap_block at_end (9 ∷ 8 ∷ [])
      ≡ some (next, (register_stream swap_block false (5 ∷ 6 ∷ []) (9 ∷ 8 ∷ [])).1))
    × (register_of next ≡ (register_stream swap_block false (5 ∷ 6 ∷ []) (9 ∷ 8 ∷ [])).0)
    × Ready 1 next
    × (next.de ≡ false)
xor_key_stream-register_example =
    xor_key_stream-register swap_block 1 swap_block-length (9 ∷ 8 ∷ []) at_end
      (refl, omega arith, refl)
