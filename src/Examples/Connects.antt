-- ===== src/Examples/Connects.antt =====
-- Dialing (net/conn.go), the digest of the login (bot/login.go), the data of the configuration
-- (bot/configuration.go) and cookies (bot/basic/cookie.go) at concrete values.
use mc_afk_go.Base.{ℕ, zero, suc, ◌⊎◌, ◌-◌, ◌≡◌, ◌≤◌, ◌<◌, refl, arith, min, true, false}
use mc_afk_go.Base.{Option, none, some, List, [], ◌∷◌, ◌++◌, length, All, inl, inr}
use mc_afk_go.Base.Bits.{IsByte}
use mc_afk_go.Io.{Bytes, source, done}
use mc_afk_go.Wire.VarInt.Groups.{groups}
use mc_afk_go.Bot.Configuration.{skip_idle_tags}
use mc_afk_go.Bot.Configuration.RoundTrip.{encode_tags, skip_idle_tags-encode}
use mc_afk_go.Conn.{
  sane_minimum, until, partial_deadline, Attempt, Split, host_port, Srv, dial_mc_context,
}
use mc_afk_go.Conn.Deadlines.{partial_deadline-bounds}
use mc_afk_go.Conn.Answers.{Answer, dial_mc_context-Answer}
use mc_afk_go.Packet.{Packet}
use mc_afk_go.Bot.Basic.{Player, new_player, panicked, handle, store, Served}
use mc_afk_go.Bot.Basic.Unmade.{store_cookie_panics}
use mc_afk_go.Bot.Basic.Cookies.{store_packet}
use mc_afk_go.Bot.Login.{auth_digest}
use mc_afk_go.Bot.Login.Digest.{read_signed, signed_value, trimmed, auth_digest_is_signed}

partial_deadline-bounds_example :
    (t : ℕ) × (partial_deadline 1000 7000_000_000 3 ≡ until t)
    × (1000 < t)
    × (t ≤ 7000_000_000)
    × (min (7000_000_000 - 1000) sane_minimum ≤ t - 1000)
partial_deadline-bounds_example =
    partial_deadline-bounds 1000 7000_000_000 3 (omega arith) (omega arith)

abbrev joined : Bytes → Bytes → Bytes
joined host port = host ++ (b':' ∷ port)

abbrev split_host : Bytes → Split ℕ
split_host addr = host_port addr []

abbrev one_record : Bytes → Option (List Srv)
one_record host = some (record { target = b'm' ∷ []; port = 25566 } ∷ [])

abbrev second_dial : ℕ → ℕ ⊎ ℕ
second_dial zero = inr 1
second_dial (suc i) = inl 2

-- The dial of the record's address fails, the one of the address itself succeeds.
abbrev second_answers : ℕ → Bytes → Attempt ℕ ℕ
second_answers i addr = record { done = false; now = 5; dial = λ deadline. second_dial i }

dial_mc_context-Answer_example :
    Answer (dial_mc_context joined split_host one_record second_answers (some 100) (b'h' ∷ []))
dial_mc_context-Answer_example =
    dial_mc_context-Answer joined split_host one_record second_answers (some 100) (b'h' ∷ [])

-- A hash of twenty bytes with the sign bit.
abbrev one_hash : Bytes → Bytes
one_hash bs = 0x9d ∷ 0 ∷ 0 ∷ 0 ∷ 0 ∷ 0 ∷ 0 ∷ 0 ∷ 0 ∷ 0 ∷ 0 ∷ 0 ∷ 0 ∷ 0 ∷ 0 ∷ 0 ∷ 0 ∷ 0 ∷ 0 ∷ 7 ∷ []

one_hash-IsByte : (bs : Bytes) → All IsByte (one_hash bs) × (length (one_hash bs) ≡ 20)
one_hash-IsByte bs = (omega arith, refl)

auth_digest_is_signed_example :
    let text = auth_digest one_hash (b's' ∷ []) (1 ∷ []) (2 ∷ []) in
    (read_signed text ≡ signed_value (one_hash (b's' ∷ 1 ∷ 2 ∷ []))) × (trimmed text ≡ true)
auth_digest_is_signed_example =
    auth_digest_is_signed one_hash one_hash-IsByte (b's' ∷ []) (1 ∷ []) (2 ∷ [])

abbrev two_tags : List (Bytes × List ℕ)
two_tags = (b'a' ∷ [], 1 ∷ 300 ∷ []) ∷ (b'b' ∷ [], []) ∷ []

skip_idle_tags-encode_example :
    skip_idle_tags (source ((groups 4 2 ++ encode_tags two_tags) ++ 9 ∷ []) true)
    ≡ done (length (groups 4 2 ++ encode_tags two_tags)) tt (source (9 ∷ []) true)
skip_idle_tags-encode_example =
    skip_idle_tags-encode two_tags (9 ∷ []) true (omega arith)
      ((omega arith, omega arith, omega arith), ((omega arith, omega arith, tt), tt))

abbrev one_player : Player
one_player = record { cookies = some []; deadline = 0; sent = [] }

abbrev never_fails : Packet → Option ℕ
never_fails p = none

store_cookie_panics_example :
    handle never_fails (store (store_packet 1 (b'k' ∷ []) (1 ∷ 2 ∷ []))) (new_player 0) ≡ panicked
store_cookie_panics_example =
    store_cookie_panics never_fails (new_player 0) 1 (b'k' ∷ []) (1 ∷ 2 ∷ []) (Served.joined 0)
      (omega arith) (omega arith)
