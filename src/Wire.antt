-- ===== src/Wire.antt =====
-- The wire types of net/packet/types.go. A signed value is its two's complement bit pattern, so a
-- conversion between types of one width changes nothing.
pub mod Fixed
pub mod VarInt
pub mod Text
pub mod Position
