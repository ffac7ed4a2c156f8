-- ===== src/Bot/Basic.antt =====
-- The handlers of bot/basic that answer the server: keepalive.go, ping.go and cookie.go. What
-- WritePacket returns is a parameter; the packets that it has sent are part of the state.
pub mod Cookies
pub mod Unmade
use mc_afk_go.Base.{◌≡◌}
use mc_afk_go.Base.{
  ℕ, ◌+◌, Bool, true, false, if◌then◌else◌, Option, none, some, List, [], ◌∷◌, ◌++◌,
}
use mc_afk_go.Io.{Bytes, Error, Outcome, done, fail, panic, stuck}
use mc_afk_go.Wire.Fixed.{read_long, read_int}
use mc_afk_go.Wire.Text.{write_string, read_string, write_byte_array, read_byte_array}
use mc_afk_go.Field.Optional.{OptionField, write_option}
use mc_afk_go.Packet.{Packet, marshal, scan}
use mc_afk_go.Bot.Configuration.{same_bytes}

abbrev pub serverbound_cookie_response : ℕ
serverbound_cookie_response = 17

abbrev pub serverbound_keep_alive : ℕ
serverbound_keep_alive = 24

abbrev pub serverbound_pong : ℕ
serverbound_pong = 39

-- `keepAliveDuration`, in nanoseconds.
abbrev pub keep_alive_duration : ℕ
keep_alive_duration = 20_000_000_000

-- `cookies` is the map of the client, `none` for nil and else the latest entry first; `deadline` is
-- the socket's.
pub record Player : Type 0 where
  pub cookies : Option (List (Bytes × Bytes))
  pub deadline : ℕ
  pub sent : List Packet

-- `Error{err}` with the error of Scan, or the one of WritePacket.
pub data HandlerErr (E : Type 0) : Type 0 where
  scan_failed : Error → HandlerErr E
  write_failed : E → HandlerErr E

-- NewClient makes no map of cookies. Joining sets a deadline.
pub new_player : ℕ → Player
new_player deadline = record { cookies = none; deadline = deadline; sent = [] }

-- What a handler returns; `unfinished` is no Go value.
pub data Handled (E : Type 0) : Type 0 where
  handled : Player → Option (HandlerErr E) → Handled E
  panicked unfinished : Handled E

pub look_up : Bytes → List (Bytes × Bytes) → Option Bytes
look_up key [] = none
look_up key ((name, content) ∷ cookies) =
    let rest = look_up key cookies in if same_bytes key name then some content else rest

-- `c.Cookies[key]`, which finds nothing in a nil map.
pub cookie : Bytes → Option (List (Bytes × Bytes)) → Option Bytes
unfolding look_up
cookie key none = none
cookie key (some cookies) = look_up key cookies

-- `cookieContent != nil`: the payload of no bytes is the nil slice that ByteArray.ReadFrom leaves.
pub cookie_field : Option Bytes → OptionField Bytes
cookie_field none = record { has_value = false; val = [] }
cookie_field (some []) = record { has_value = false; val = [] }
cookie_field (some (b ∷ bs)) = record { has_value = true; val = b ∷ bs }

module _ {E : Type 0} where
  -- The early return on an error of Scan.
  pub after_scan : {V : Type 0} → Outcome (List V) → Player → (List V → Handled E) → Handled E
  after_scan (done n vs r) player next = next vs
  after_scan (fail n e) player next = handled player (some (scan_failed e))
  after_scan panic player next = panicked
  after_scan stuck player next = unfinished

  written_packet : Option E → Packet → Player → Handled E
  written_packet none p player = handled (record player { sent = player.sent ++ p ∷ [] }) none
  written_packet (some e) p player = handled player (some (write_failed e))

  -- `Marshal` panics where a field fails.
  marshalled : (Packet → Option E) → Option Packet → Player → Handled E
  unfolding written_packet
  marshalled write_error none player = panicked
  marshalled write_error (some p) player = written_packet (write_error p) p player

  -- `p.c.Cookies[string(key)] = payload`, which panics on a nil map.
  assign : Option (List (Bytes × Bytes)) → Bytes → Bytes → Player → Handled E
  assign none key payload player = panicked
  assign (some cookies) key payload player =
      handled (record player { cookies = some ((key, payload) ∷ cookies) }) none

  store_cookie : Player → List Bytes → Handled E
  unfolding assign
  store_cookie player (key ∷ payload ∷ vs) = assign player.cookies key payload player
  store_cookie player _ = unfinished

  pub handle_store_cookie : Packet → Player → Handled E
  unfolding store_cookie after_scan
  handle_store_cookie packet player =
      after_scan (scan packet (read_string ∷ read_byte_array ∷ [])) player (store_cookie player)

  module _ (write_error : Packet → Option E) where
    -- The whole data of the packet is sent back, what follows the ID included.
    pub handle_keep_alive : ℕ → Packet → Player → Handled E
    unfolding after_scan written_packet
    handle_keep_alive now packet player = after_scan (scan packet (read_long ∷ [])) player λ vs.
        let p : Packet = record { id = serverbound_keep_alive; contents = packet.contents } in
        written_packet (write_error p) p (record player { deadline = now + keep_alive_duration })

    pub handle_ping : Packet → Player → Handled E
    unfolding after_scan written_packet
    handle_ping packet player = after_scan (scan packet (read_int ∷ [])) player λ vs.
        let p : Packet = record { id = serverbound_pong; contents = packet.contents } in
        written_packet (write_error p) p player

    respond : Player → List Bytes → Handled E
    unfolding marshalled cookie cookie_field
    respond player (key ∷ vs) =
        marshalled write_error
          (marshal serverbound_cookie_response (
            write_string key
            ∷ write_option write_byte_array (cookie_field (cookie key player.cookies))
            ∷ []))
          player
    respond player [] = unfinished

    pub handle_cookie_request : Packet → Player → Handled E
    unfolding respond after_scan
    handle_cookie_request packet player =
        after_scan (scan packet (read_string ∷ [])) player (respond player)

-- The packets that the handlers of this file are registered for.
pub data Request : Type 0 where
  keep_alive : ℕ → Packet → Request
  ping cookie_request store : Packet → Request

module _ {E : Type 0} (write_error : Packet → Option E) where
  pub handle : Request → Player → Handled E
  unfolding handle_keep_alive handle_ping handle_cookie_request handle_store_cookie
  handle (keep_alive now packet) player = handle_keep_alive write_error now packet player
  handle (ping packet) player = handle_ping write_error packet player
  handle (cookie_request packet) player = handle_cookie_request write_error packet player
  handle (store packet) player = handle_store_cookie packet player

  -- The states that some packets lead to from a new client.
  pub data Served : Player → Type 0 where
    joined : (deadline : ℕ) → Served (new_player deadline)
    then_handled :
        (r : Request) (p q : Player) (e : Option (HandlerErr E))
        → Served p
        → handle r p ≡ handled q e
        → Served q
