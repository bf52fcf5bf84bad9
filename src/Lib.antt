-- ===== src/Lib.antt =====
-- Verification of adelie, a columnar analytics store with SQL, written in Rust.
--
-- Three parts are modelled. One is the path of a column chunk to its bytes and back. A chunk's
-- values are mapped to 64-bit words and encoded (src/storage/segment/encode/), the encoders write
-- through an append-only `Sink`, the decoders read through a checked `Cursor` (src/storage/segment/wire.rs),
-- and a column's validity is a `Bitmap` (src/exec/bitmap.rs). The second is the manifest, the one
-- mutable object of a store (src/storage/manifest/): the tables with their segments, the running
-- migrations, the retired tables and the garbage, and the commits that take it from one version to
-- the next, with the bytes that they are stored as. A segment's bytes are written by the first part;
-- the manifest says which tables use it, and its codec writes through the same `Sink`. The third is
-- the matcher of LIKE (src/exec/expr/like.rs).
--
-- Base: the shared names, lists over native numbers, powers of two, and the laws of `&`, `|` and
--   `^` at every width.
-- Wire: `zigzag`, `unzigzag`, the decoders' errors and `?`; Wire.Sink and Wire.Cursor are the two
--   structs of wire.rs with a function for each method, which takes and returns the state. The
--   other children state what the two sides owe one another (Wire.RoundTrip) and prove it. Trips
--   puts writers that may panic and readers of several fields together, with a lemma for each way
--   to do so; Yields does the same for what holds of all that a reader gives.
-- Bitpack: `BitWriter`, `BitReader`, `write_for` and `read_for` of encode/bitpack.rs.
-- Encode: FrameOfRef, Delta and Rle are frame_of_ref.rs, delta.rs and rle.rs
--   (Rle.Bools for its BOOL pair, over a Bitmap). The signed maps
--   `map_i64` and `unmap_i64` of delta.rs stand in FrameOfRef, which writes them out in place.
-- Bitmap: exec/bitmap.rs; Bitmap.Rows says which list of bits a bitmap stands for.
-- Kernels: exec/kernels/boolean.rs, three-valued logic on BOOL columns, with the BOOL case of
--   `len`, `is_null`, `get` and `from_parts` of exec/column.rs; Kernels.Builder says which list of
--   outcomes a column stands for. The kernels push into a Bitmap, one row a round.
-- Types: src/types/datatype.rs and value.rs; Types.Fit is `coerce` of fit.rs, which commits apply
--   to the values of tombstones.
-- Manifest: the methods of manifest/mod.rs; Records has its records and those of lifecycle.rs
--   and ledger.rs, Outcome the errors of an edit. Spec is spec.rs, Alter alter.rs, Ids ids.rs.
--   Tables, Segments, Jobs, Tombstones and Commit are commit.rs: `apply_…` is the handler of an
--   edit, which makes its checks and then calls `…_at`, what the edit does with what the checks
--   have found; `apply_edit` and `apply` call the handlers. Step is the same as a relation between
--   manifests, with a case for each edit. Refs counts how often a manifest names a segment,
--   Ascending is about the order of the tables, and Valid says when a manifest is well-formed, with
--   Valid.Unique on the ids of tables. Ids.Fill is the loop that hands out the ids that are missing.
--   Codec is codec.rs, a child for each kind of record.
-- Segment: type_id.rs, value.rs and crc.rs of src/storage/segment/, and the trailer of footer.rs.
-- Ledger: src/storage/ledger.rs: `list` over the entries of a directory, `plan`, the checks of
--   `apply_migrations` and what is pending, and in Ledger.Run the loop that executes and records it.
--   The hash of a file, the caller's `exec`, the clock and the publication are parameters.
-- Like: src/exec/expr/like.rs. Like.Matches is what a pattern means; State and Covers are about the
--   loop of the matcher.
-- Examples: runs on concrete inputs, and the theorems at inputs that meet their hypotheses.
--
-- Numbers. A byte and a word of any width are natural numbers; wrap-around is written out, and a
-- signed word is its two's complement bit pattern, so that casts between `i64` and `u64` are the
-- identity. The counters of a manifest wrap as they do in a release build, which has no checks of
-- overflow and no `debug_assert`. `usize` has 64 bits. A buffer
-- is the list of its bytes. A decoder's failure is `err` with the source's error; a failed
-- `assert!` is `none`.
--
-- Loops. Loops over a sequence are recursion on the list, `uvarint` of the writer is recursion on
-- an accessible number, and the loops of `BitWriter::write` and `BitReader::read` have as much
-- fuel as there are bits: each round takes one at least, and the theorems on `write` and `read`
-- give their whole result, so the fuel is enough. The loop of `like_match` has fuel for n·(m + 1) + m
-- rounds, for n characters and m tokens: each round moves on in the pattern, or gives up the place
-- where a `%` began for the next one, and starts again behind the `%`.
--
-- Manifest. A text is the list of its UTF-8 bytes, a `Duration` its nanoseconds, a BTreeMap the
-- list of its entries by key, and a FLOAT64 its bit pattern. A commit gives `ok` with the next
-- manifest, `err` with an error, whose message is a constructor with the values shown, or
-- `panicked` where an `expect` fails or an index is out of range. `partition_point` is the length
-- of the passing lead, which is what its binary search finds where the vector is parted.
--
-- Codec. A decoder's state is its `Cursor`; what a function reads in a record of its own is a reader,
-- and its caller opens the record. The path that an error names is that of the call and left out. A
-- length is a `u64`, and the frame's a `u32`: so the bytes of a manifest are fewer than 2^32.
--
-- Not modelled: the capacity of a `Vec`, the columns of other types than BOOL, and so `like` over a
-- STRING column, the other chunk encodings (null maps, dictionary, XOR and plain), the manifest's
-- publication, SQL, the operators and the other scalar expressions of query execution, and everything
-- that touches files, which is most of src/storage/mod.rs and of the segment writer and reader.
pub mod Base
pub mod Wire
pub mod Bitpack
pub mod Encode
pub mod Bitmap
pub mod Kernels
pub mod Types
pub mod Like
pub mod Segment
pub mod Manifest
pub mod Ledger
mod Examples
