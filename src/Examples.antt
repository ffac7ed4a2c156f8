-- ===== src/Examples.antt =====
-- The library's theorems at concrete inputs.
mod Encodings
mod Fields
mod Packets
mod Streams
mod Scans
mod Games
mod Tags
mod Texts
mod Connects
