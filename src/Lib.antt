-- ===== src/Lib.antt =====
-- The .6cy container: a Rust crate (`sixcy`) that packs files into one archive of self-describing blocks
-- and reads them back. This library models its core and proves what makes an archive readable.
--
-- The parts, and how they fit. An archive is a 256-byte superblock, then blocks (an 84-byte header and a
-- payload each), then an index block, then a recovery map. The writer cuts a file into chunks, encodes a
-- chunk as a block (compress, then perhaps encrypt), skips chunks that it has written already, keeps a
-- record per file with references to blocks, and at the end writes the index and patches the superblock.
-- The reader checks the superblock, decodes the index, and follows the references of a record. The
-- facade wraps both under names and passwords, and the commands use the facade. The recovery scanner
-- walks over the blocks without the index, reports on each, and can pack what it finds anew.
--
--   Codec, Codec/*            src/codec/mod.rs: identities, UUIDs, names, the factory, the five codecs
--   Crypto, Crypto/*          src/crypto/mod.rs: encrypt, decrypt, derive_key
--   Block, Block/*            src/block.rs: BlockHeader::write and ::read, encode_block, decode_block
--   Superblock, Superblock/*  src/superblock.rs: write, read, check_codecs, add_required_codec
--   Index                     src/index/mod.rs, src/recovery/mod.rs: the records, compute_root_hash
--   Writer                    src/io_stream/mod.rs: SixCyWriter, solid sessions
--   Writer/Files              the same file: add_file, in both modes
--   Writer/Finish             the same file: finalize
--   Writer/Chunks, Stored, Adding, Archive, Packing
--                             the invariant of an archive in writing, kept by add_file
--   Writer/Session, Slices, Solid
--                             the same for a solid session
--   Writer/Batches, Packed, Idle, Labels, Named, Success
--                             mixes of both, their names, and that they succeed
--   Writer/Encoded            one block of encode_block, written and read
--   Writer/Finalized, Opening, RoundTrip
--                             what finalize leaves, and what the reader makes of it
--   Reader, Reader/*          src/io_stream/mod.rs: SixCyReader::with_key, unpack_file, read_at
--   Reader/Scan, Reader/Scan/*
--                             the same file: scan_blocks
--   Archive                   src/archive.rs: the facade Archive, its modes and options
--   Archive/Filling, Reopened, RoundTrip
--                             filling it through the facade, and opening it again
--   Recovery                  src/recovery/scanner.rs: scan, scan_file
--   Recovery/Walks            the loop of scan as a step relation
--   Recovery/Account, Verdicts, Log
--                             its counters and its log
--   Recovery/Refs, Agreement  scan beside scan_blocks of the reader
--   Recovery/Layout           files as stretches of blocks and of damage, and the log of each
--   Recovery/Extract          the same file: extract_recoverable
--   Recovery/Salvage, Salvage/*
--                             the files of a log, and that the extraction packs these
--   Recovery/Rebuilt          the archive that is built of them
--   Perf/*                    src/perf.rs: rle_encode and rle_decode, WriteBuffer,
--                             compress_chunks_parallel, decompress_into
--   Plugin, Plugin/Laws       src/plugin.rs: PluginCodec over the functions of a plugin
--   Commands                  src/main.rs: pack, unpack, recover, optimize, merge
--   Commands/Adding, Readable, RoundTrip, Merging
--                             what these fill, and that it is read back
--   Errors                    the error values of all of these
--   Io                        Rust's readers and writers, as far as the code uses them
--   Libs                      the crates the code calls, and what is relied on of each
--   Common, Bytes             shared helpers: tests, lists, results, little-endian fields, layouts
--   Examples/*                stand-ins for the crates, and runs of the model
--
-- Names are those of the source in lower case. A byte is a natural number below 256 and `&[u8]`, `Vec<u8>`
-- and `[u8; N]` are lists of these; an integer of w bits is a natural number, with its wrap written out
-- where a cast or a product can exceed it. A method of the writer takes the state and returns its result
-- beside the new state, which it leaves on an error too; `?` is the bind of `Result`. A file is its bytes
-- and a position. Reading needs no position in the state, as every read of the reader seeks first.
--
-- What is a parameter. `Libs` holds the compressors, the checksums, AES-256-GCM and Argon2id, and `Json`
-- what serde derives; `IsHashes`, `IsLossless`, `IsAead` and `IsJson` state what is relied on of their
-- results, `IsTotal` and `IsWritable` when they do not fail.
-- `Host` holds the nonces and times that the process draws; random archive UUIDs are arguments. The
-- facade and the commands take the bytes at a path as an argument, and what `extract_all` does to a
-- directory as a `Folder`. The bytes of an opened archive stay as they are: that `merge` writes to, or
-- `extract_all` creates a file at, the path of the very archive that it reads is outside of the model.
-- (`recover` with one path for both empties its source first, which is modelled.)
-- A codec plugin is a record of functions, and `IsPlugin` its contract in plugin_abi/sixcy_plugin.h.
--
-- Bounds and fuel. `rle_encode`, `rle_decode`, `chunks`, `scan_blocks` and `scan` run on about as much
-- fuel as their input has bytes: every round takes a byte at least, and the theorems show that the fuel is never
-- used up. Archives are read back under a bound of 4 GiB, as the header keeps payload sizes in 32 bits.
-- The scanner's shares of healthy blocks are compared as integers, which agrees with `f64` for fewer than
-- 2^48 blocks.
--
-- Not modelled: faults of devices and of memory; the formatting of reports for display (`health_pct`,
-- `summary`); the commands of src/main.rs that only print (list, info, scan, bench), and the parsing of
-- its arguments, which is derived code.
pub mod Common
pub mod Bytes
pub mod Errors
pub mod Libs
pub mod Codec
pub mod Crypto
pub mod Io
pub mod Block
pub mod Superblock
pub mod Perf
pub mod Index
pub mod Writer
pub mod Reader
pub mod Recovery
pub mod Archive
pub mod Plugin
pub mod Commands
pub mod Examples
