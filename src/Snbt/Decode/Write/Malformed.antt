-- ===== src/Snbt/Decode/Write/Malformed.antt =====
-- Texts that the scanner of nbt/snbt_scanner.go refuses, in `StringifiedMessage.MarshalNBT` of
-- nbt/snbt.go and `writeListOrArray` of nbt/snbt_decode.go.
use mc_afk_go.Base.{ℕ}
use mc_afk_go.Io.{Bytes}
use mc_afk_go.Snbt.{reset, scan_error, scan_begin_list}
use mc_afk_go.Snbt.Scan.Brackets.{refusing, in_one_list}
use mc_afk_go.Snbt.Decode.{DecodeState}

-- What the scanner reports of a byte.
refused_at : Bytes → ℕ → ℕ → DecodeState
refused_at content off c = record {
  content = content;
  off = off;
  opcode = scan_error;
  scan = refusing reset c;
}

opened : Bytes → DecodeState
opened content = record { content = content; off = 1; opcode = scan_begin_list; scan = in_one_list }

refused_in : Bytes → ℕ → ℕ → DecodeState
refused_in content off c = record {
  content = content;
  off = off;
  opcode = scan_error;
  scan = refusing in_one_list c;
}
