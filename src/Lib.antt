-- ===== src/Lib.antt =====
-- zrip: Zstandard compression in Rust, in the crates under crates/. `core` has the bit streams, the
-- entropy coders, the hash and the headers, `decode` the decompressor, `encode` the compressor.
--
-- The parts and their files:
--   Bitstream   crates/core/src/bitstream: `BitWriter` (Bitstream/Writer), `BitReader`
--               (Bitstream/Reader) and `ReverseBitReader` (Bitstream/Reverse). The encoder packs fields
--               with the first; headers and table descriptions are read with the second, and the
--               entropy-coded streams, from their end, with the third. Bitstream/RoundTrip joins them.
--   Xxhash      crates/core/src/xxhash: the content checksum, in one shot and as a stream.
--   Header      the headers of frames and blocks: crates/core/src/frame and crates/core/src/block for
--               reading, crates/encode/src/lib.rs and block_encoder.rs for writing.
--   Literals    the headers of the literals section: crates/decode/src/literals.rs for reading,
--               crates/encode/src/block_encoder.rs for writing.
--   Sequences   sequence counts, repeat offsets, the code tables and the packing of sequences:
--               crates/decode/src/sequences.rs, crates/core/src/fse/mod.rs and
--               crates/encode/src/block_encoder.rs.
--   SeqTable    crates/decode/src/seq_table.rs: the rows of the sequence loop, made from the entries
--               that Fse/Table builds.
--   Tables      crates/decode/src/sequences.rs: the three tables of a decoder, from the header of a
--               block's sequences: predefined, of one symbol, described, or repeated; the cache of the
--               last header (Tables/Cache); the tables of a dictionary and those that a frame starts
--               with (Tables/Dict), with crates/decode/src/lib.rs and crates/core/src/dict/mod.rs.
--   Copy        crates/decode/src/fast_vec.rs: the output of a block and the copies of literals and
--               matches in whole chunks.
--   Exec        crates/decode/src/exec.rs: the bit reader of the sequence loop, which reads the same
--               streams as `ReverseBitReader`, and the loop itself (Exec/Decoder), which decodes with
--               the rows of SeqTable and executes with Copy.
--   Frame       crates/decode/src/lib.rs: the raw and RLE blocks of a frame, with the output limits, the
--               checksum and the declared size.
--   Fse         crates/core/src/fse: `normalize_counts`, the parser of table descriptions
--               (Fse/Description) and the building of decoding tables (Fse/Table) of
--               table_builder.rs, and the decoding state of decode.rs (Fse/State). The parser reads
--               with `BitReader`, the state with `ReverseBitReader`.
--   Strategy    crates/encode/src/strategy.rs: the parameters of the levels.
--   Rebase      crates/encode/src/rebase.rs: table positions on inputs past 4 GiB.
--   Hash        crates/core/src/hash.rs: the hashes of the match finders.
--   Output      crates/encode/src/output.rs: the sinks that the encoder writes to.
--   Common      the helpers that these share, and the errors of crates/core/src/error.rs.
--
-- A struct is a record with its fields, and a method that takes `&mut self` a function that returns
-- the new record beside its result. A `Result` is `Result`, or `Option` where one error or a panic is
-- all that can happen. Bytes are numbers, and a buffer is a list of them. `usize` has 64 bits. A
-- conversion that can lose bits is written `u8`, `u16`, `u32` or `u64`; sums that the source computes
-- without wrapping are plain sums, except for the sums of 32 bits of the sequence loop and of the
-- hashes' shifts, which wrap around as without overflow checks.
--
-- Loops are recursions on the list they run over, or on fuel: `flush_loop` gets as many rounds as
-- there are bits, and each round takes one bit at least; the loops of `finish` get as many rounds as
-- there are bytes; `run_end` gets the length of its table. `skip_high` gets as many rounds as a table has
-- cells, `parse_probs` as many as there are symbols, and `repeat_zeros` as many as the input has
-- windows of 32 bits, and one more. The loops of the copies get as many rounds as there are bytes.
-- The block loop of a frame is a relation, with a step for each block.
--
-- The capacity that `Vec` allocates is a parameter, `grow`, of the bit writer; nothing depends on it.
--
-- Not modelled: the writer of FSE table descriptions and the FSE encoding tables and states, the
-- Huffman coder, the sections of a compressed block around its sequences and so the compressed blocks
-- of a frame, blocks of one sequence, the loop over frames, the block loop of the encoder, the match
-- finders, dictionaries beyond their sequence tables, the streaming types, `Display` of the errors, SIMD
-- dispatch, and the facade crate with its bindings, benchmarks and fuzz targets. The parameters for long
-- distance matching belong to a feature; `LevelParams` has their field, and its search is not modelled.
pub mod Common
pub mod Copy
pub mod SeqTable
pub mod Tables
pub mod Frame
pub mod Bitstream
pub mod Xxhash
pub mod Header
pub mod Literals
pub mod Sequences
pub mod Fse
pub mod Strategy
pub mod Rebase
pub mod Hash
pub mod Output
pub mod Exec
