-- ===== src/Bitstream.antt =====
-- crates/core/src/bitstream: the bit writer, the forward reader and the reverse reader.
pub mod Writer
pub mod Reader
pub mod Reverse
pub mod RoundTrip
