-- ===== src/Bot/Basic/Cookies.antt =====
-- A cookie that the server stores and asks for (bot/basic/cookie.go).
use mc_afk_go.Base.{ℕ, ◌≡◌, true}
use mc_afk_go.Base.{some, [], ◌∷◌, ◌++◌, length}
use mc_afk_go.Io.{Bytes, read_full}
use mc_afk_go.Wire.Text.{write_string, read_string, write_byte_array, read_byte_array}
use mc_afk_go.Wire.Text.RoundTrip.{
  FitsInt, length_prefixed, write_string-prefixed, read_string-prefixed, write_byte_array-prefixed,
  read_byte_array-prefixed,
}
use mc_afk_go.Field.Optional.{write_option}
use mc_afk_go.Field.Tuple.Laws.{Slot, SlotLaws}
use mc_afk_go.Base.{List}
use mc_afk_go.Io.{done, source}
use mc_afk_go.Packet.{Packet, scan}
use mc_afk_go.Packet.Fields.{scan-slots}
use mc_afk_go.Bot.Basic.{Player, cookie_field, serverbound_cookie_response}

abbrev string_slot : Bytes → Slot Bytes
string_slot s = record {
  encoder = write_string s;
  decoder = read_string;
  bytes = length_prefixed s;
  value = s;
}

string_slot-SlotLaws : (s : Bytes) → FitsInt (length s) → SlotLaws (string_slot s)
string_slot-SlotLaws s h = record {
  writes = λ w. write_string-prefixed s w h;
  reads = λ rest b. read_string-prefixed s rest b h;
}

abbrev byte_array_slot : Bytes → Slot Bytes
byte_array_slot s = record {
  encoder = write_byte_array s;
  decoder = read_byte_array;
  bytes = length_prefixed s;
  value = s;
}

byte_array_slot-SlotLaws : (s : Bytes) → FitsInt (length s) → SlotLaws (byte_array_slot s)
byte_array_slot-SlotLaws s h = record {
  writes = λ w. write_byte_array-prefixed s w h;
  reads = λ rest b. read_byte_array-prefixed s rest b h;
}

-- The content in an answer: a payload of no bytes is absent.
abbrev pub content_bytes : Bytes → Bytes
content_bytes [] = 0 ∷ []
content_bytes (b ∷ bs) = 1 ∷ length_prefixed (b ∷ bs)

-- Only the writing of this field is used; reading it takes its bytes as they are.
abbrev content_slot : Bytes → Slot Bytes
content_slot payload = record {
  encoder = write_option write_byte_array (cookie_field (some payload));
  decoder = read_full (length (content_bytes payload));
  bytes = content_bytes payload;
  value = content_bytes payload;
}

with_cookie : Bytes → Bytes → List (Bytes × Bytes) → Player → Player
with_cookie key payload cookies player = record player { cookies = some ((key, payload) ∷ cookies) }

-- The packet that stores a cookie, as the server sends it.
abbrev pub store_packet : ℕ → Bytes → Bytes → Packet
store_packet id key payload = record {
  id = id;
  contents = length_prefixed key ++ (length_prefixed payload ++ []);
}

pub scan-store_packet :
    (id : ℕ) (key payload : Bytes)
    → FitsInt (length key)
    → FitsInt (length payload)
    → scan (store_packet id key payload) (read_string ∷ read_byte_array ∷ [])
      ≡ done
          (length (length_prefixed key ++ (length_prefixed payload ++ [])))
          (key ∷ payload ∷ [])
          (source [] true)
scan-store_packet id key payload h k =
    scan-slots id (string_slot key ∷ byte_array_slot payload ∷ [])
      (string_slot-SlotLaws key h, (byte_array_slot-SlotLaws payload k, tt))

-- The answer to a request for a cookie.
abbrev pub cookie_answer : Bytes → Bytes → Packet
cookie_answer key payload = record {
  id = serverbound_cookie_response;
  contents = length_prefixed key ++ (content_bytes payload ++ []);
}
