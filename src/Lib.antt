-- ===== src/Lib.antt =====
-- Mosaic Archive, the Python package src/mosaic_archive: an archiver that cuts files into blocks or
-- content-defined chunks, compresses each by the mode that suits it, pads and encrypts the result
-- frame by frame, and restores the files exactly.
--
-- The parts modelled, from the bottom up, and the files that model them:
--   Base, Base/*      lists and byte strings over the native numbers, Boolean tests, and `Result`,
--                     the outcome of a function that may raise (exceptions.py; the class of an
--                     exception is kept, its text is not).
--   Struct            Python's `struct` formats, which every header and manifest is written in: big
--                     endian unsigned integers, signed 64-bit integers and fixed byte strings.
--   Modes/Rle         modes/rle.py, `RleMode.encode` and `decode`.
--   Modes/Delta8      modes/delta.py, `Delta8Mode.encode` and `decode`, over Modes/Rle.
--   Modes/LzSimple    modes/lz_simple.py: the table of positions with its trimming, the search for
--                     the longest match, the token stream, and the decoder with its copies.
--   Modes/ByteRans    modes/rans.py: the normalisation of the counts to 4096, the table, the state
--                     of the coder with its renormalisation, the payload's header, the decoder.
--   Modes/LzRans      modes/lz_rans.py: the variable-length numbers (Varint), the tokenizer with its
--                     five streams, the header, and the decoder that plays the tokens.
--   Modes/Raw, Modes/Deflate, Modes/Features
--                     modes/raw.py, modes/deflate.py over an interface of zlib, and the one statistic of
--                     features.py that the choice of a mode reads as a number.
--   Modes/Registry    modes/base.py and modes/__init__.py: the modes by number, and the choice of one.
--   Text, Paths       Python's `str` over an interface of Unicode's tables, and paths.py,
--                     `validate_relative_path`.
--   Manifest          the manifests of stream_archive.py (Stream) and dedup_archive.py (Dedup): their bytes
--                     and their parsers.
--   Padding           padding.py, `pad_payload` and `unpad_payload`.
--   Format            container_format.py (PublicHeader, MSC1), stream_format.py (StreamHeader, MSC2,
--                     and Frame, the header and the nonce of a frame) and dedup_format.py
--                     (DedupHeader, MSC3 to MSC6). Format/Parse is what the parsers share.
--   Cdc               cdc.py: the state of `iter_content_defined_chunks` (buffer, sizes, fingerprint,
--                     position), one round of its inner loop, the blocks that are read, and the
--                     chunks yielded. Cdc/Boundaries says what the chunks of a byte string are
--                     without blocks, buffer or positions.
--   Aead              crypto.py: the cipher as an interface, with the laws its package documents.
--   Crypto            crypto.py, `normalize_password` and `derive_key`.
--   Archive           archive.py, MSC1: `encode_file`, `decode_file` and `inspect_archive` between the bytes
--                     of a file and those of its archive. `Platform` (Archive/Types) collects the packages
--                     and the random bytes.
--   StreamArchive     stream_archive.py, MSC2: `_write_frame` and `_read_frame`, and the data frames of one
--                     file, in the loop of `encode_stream_archive` and in that of the decoder.
--   ResourceLimits    resource_limits.py, `validate_decode_limits`.
--   Dedup/Chunks      dedup_archive.py: the table of chunks that `_scan_manifest` plans, and the tests
--                     of `parse_dedup_manifest` on the table it reads.
--   Dedup/Frames      dedup_archive.py: `_write_frame` and `_read_frame`, over Padding, Format and Aead.
--   Solid/FramedSize  solid_frames.py: `solid_lane_framed_size`.
--   Solid/Frames      solid_frames.py: `write_precompressed_solid_lane_frames` and, for a lane that is
--                     passed through, `read_solid_lane_frames`.
-- Every path of a Python file above starts in src/mosaic_archive.
--
-- How the model stands to the code. Byte strings are lists of native numbers; that an element is
-- below 256 is the predicate `IsByte`, a hypothesis where a theorem needs it. A method that changes
-- local variables is a function from their record to their record; a generator is the list of what
-- it yields. Masks and shifts are `bit_and`, `bit_xor` and doubling on the native numbers, as Python's
-- integers have no width.
--
-- Bounds on loops. A loop on an index or a condition is a recursion on fuel: the bytes of the block in
-- Cdc, where each round moves the position; the bytes of the payload in the decoders, where each
-- token takes one at least; the value of the state in the renormalisation of Modes/ByteRans, which
-- each step divides by 256; the surplus in the removal of counts, of which each cycle through the order
-- takes off one at least. `out_of_fuel` is an error of its own, so that a theorem that says `ok`
-- or `archive_format` also says that the fuel was enough.
--
-- Code of other packages is a parameter: `os.urandom` (only the length of what it returns is used), the
-- Gear table (256 values that SHA-256 gives), digests, zlib (a complete stream that is read with room
-- for more than its data gives the data and ends), the test on the entropy that the floating-point
-- logarithm decides, Unicode's normal form, case mappings and UTF-8 (normalizing is idempotent and the
-- codec's directions are inverse), and ChaCha20-Poly1305 (with a key of 32
-- bytes, a nonce of 12, and texts and data below 2 ^ 31 bytes, decryption undoes encryption and the tag
-- has 16 bytes; on others it raises).
--
-- Not modelled: the file system (scanning, metadata, temporary files, atomic replacement, source
-- identity), the command line, statistics and progress events, scrypt itself, the archives MSC2 to
-- MSC6 as a whole (MSC2's header, manifest and data frames and MSC3's header, manifest, chunk table
-- and frames are), the solid archives but for the frames of their lanes, and the benchmark, comparison
-- and release tools.
pub mod Aead
pub mod Archive
pub mod Base
pub mod Cdc
pub mod Crypto
pub mod Dedup
pub mod Format
pub mod Manifest
pub mod Modes
pub mod Padding
pub mod Paths
pub mod ResourceLimits
pub mod Solid
pub mod StreamArchive
pub mod Struct
pub mod Text
