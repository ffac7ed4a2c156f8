-- ===== src/Bot/Basic/Unmade.antt =====
-- The map of cookies that NewClient (bot/client.go) does not make, and bot/basic/cookie.go.
use mc_afk_go.Base.{ℕ, ◌+◌, ◌≡◌, refl, sym, subst, ap, Option, none, some, List, [], ◌∷◌, length}
use mc_afk_go.Io.{Bytes, Outcome, done, fail, panic, stuck}
use mc_afk_go.Wire.Text.RoundTrip.{FitsInt}
use mc_afk_go.Wire.Fixed.{read_long, read_int}
use mc_afk_go.Wire.Text.{read_string, read_byte_array}
use mc_afk_go.Packet.{Packet, scan}
use mc_afk_go.Bot.Basic.{
  Player, new_player, Handled, handled, panicked, unfinished, HandlerErr, after_scan, store_cookie,
  assign, marshalled, written_packet, respond, handle_store_cookie, handle_cookie_request,
  handle_keep_alive, handle_ping, keep_alive_duration, serverbound_keep_alive, serverbound_pong,
  Request, keep_alive, ping, cookie_request, store, handle, Served, joined, then_handled,
}
use mc_afk_go.Bot.Basic.Cookies.{store_packet, scan-store_packet}

-- A handler that returns leaves the map nil.
data Unmade {E : Type 0} : Handled E → Type 0 where
  returned : (q : Player) (e : Option (HandlerErr E)) → q.cookies ≡ none → Unmade (handled q e)
  ends_panicked : Unmade panicked
  ends_unfinished : Unmade unfinished

cookies-Unmade :
    {E : Type 0} {q : Player} {e : Option (HandlerErr E)} → Unmade (handled q e) → q.cookies ≡ none
cookies-Unmade (returned q e h) = h

module _ {E : Type 0} where
  after_scan-Unmade :
      {V : Type 0} (o : Outcome (List V)) (player : Player) (next : List V → Handled E)
      → player.cookies ≡ none
      → ((vs : List V) → Unmade (next vs))
      → Unmade (after_scan o player next)
  unfolding after_scan
  after_scan-Unmade (done n vs r) player next h k = k vs
  after_scan-Unmade (fail n e) player next h k = returned player _ h
  after_scan-Unmade panic player next h k = ends_panicked
  after_scan-Unmade stuck player next h k = ends_unfinished

  written_packet-Unmade :
      (e : Option E) (p : Packet) (player : Player)
      → player.cookies ≡ none
      → Unmade (written_packet e p player)
  unfolding written_packet
  written_packet-Unmade none p player h = returned _ none h
  written_packet-Unmade (some e) p player h = returned player _ h

  marshalled-Unmade :
      (write_error : Packet → Option E) (p : Option Packet) (player : Player)
      → player.cookies ≡ none
      → Unmade (marshalled write_error p player)
  unfolding marshalled
  marshalled-Unmade write_error none player h = ends_panicked
  marshalled-Unmade write_error (some p) player h = written_packet-Unmade (write_error p) p player h

  store_cookie-Unmade :
      (player : Player) (vs : List Bytes)
      → player.cookies ≡ none
      → Unmade {E = E} (store_cookie player vs)
  unfolding store_cookie assign
  store_cookie-Unmade player [] h = ends_unfinished
  store_cookie-Unmade player (key ∷ []) h = ends_unfinished
  store_cookie-Unmade player (key ∷ payload ∷ vs) h =
      subst (λ c. Unmade {E = E} (assign c key payload player)) (sym h) ends_panicked

module _ {E : Type 0} (write_error : Packet → Option E) where
  respond-Unmade :
      (player : Player) (vs : List Bytes)
      → player.cookies ≡ none
      → Unmade (respond write_error player vs)
  unfolding respond
  respond-Unmade player [] h = ends_unfinished
  respond-Unmade player (key ∷ vs) h = marshalled-Unmade write_error _ player h

  handle-Unmade :
      (r : Request) (player : Player) → player.cookies ≡ none → Unmade (handle write_error r player)
  unfolding handle handle_keep_alive handle_ping handle_cookie_request handle_store_cookie
  handle-Unmade (keep_alive now packet) player h =
      let p : Packet = record { id = serverbound_keep_alive; contents = packet.contents } in
      after_scan-Unmade (scan packet (read_long ∷ [])) player _ h (λ vs.
        written_packet-Unmade (write_error p) p
          (record player { deadline = now + keep_alive_duration }) h)
  handle-Unmade (ping packet) player h =
      let p : Packet = record { id = serverbound_pong; contents = packet.contents } in
      after_scan-Unmade (scan packet (read_int ∷ [])) player _ h
        (λ vs. written_packet-Unmade (write_error p) p player h)
  handle-Unmade (cookie_request packet) player h =
      after_scan-Unmade (scan packet (read_string ∷ [])) player _ h
        (λ vs. respond-Unmade player vs h)
  handle-Unmade (store packet) player h =
      after_scan-Unmade (scan packet (read_string ∷ read_byte_array ∷ [])) player _ h
        (λ vs. store_cookie-Unmade player vs h)

  Served-Unmade : (q : Player) → Served write_error q → q.cookies ≡ none
  unfolding new_player
  Served-Unmade _ (joined deadline) = refl
  Served-Unmade _ (then_handled r p q e s h) =
      cookies-Unmade (subst Unmade h (handle-Unmade r p (Served-Unmade p s)))

  -- With the client that NewClient makes, after any sequence of keep-alives, pings, requests
  -- for cookies and stored cookies that the handlers have returned from, and whatever
  -- WritePacket returned, a packet that stores a cookie makes its handler panic: nothing has
  -- made the map. The key and the payload are shorter than 2 ^ 31 bytes.
  pub store_cookie_panics :
      (q : Player) (id : ℕ) (key payload : Bytes)
      → Served write_error q
      → FitsInt (length key)
      → FitsInt (length payload)
      → handle write_error (store (store_packet id key payload)) q ≡ panicked
  unfolding handle handle_store_cookie after_scan store_cookie assign
  store_cookie_panics q id key payload s h k =
      rw (scan-store_packet id key payload h k)
        (ap (λ c. assign {E = E} c key payload q) (Served-Unmade q s))
