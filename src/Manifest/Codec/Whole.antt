-- ===== src/Manifest/Codec/Whole.antt =====
-- `encode` and `decode` of src/storage/manifest/codec.rs, and those of `Manifest` in src/storage/manifest/mod.rs.
pub mod RoundTrip
use adelie.Base.{
  ℕ, ◌≡◌, ◌^◌, ◌<◌, ◌+◌, refl, arith, List, [], ◌∷◌, ◌++◌, take, length, Bool, true, not, Option,
  some, none, ltb, if◌then◌else◌,
}
use adelie.Base.Text.{text_eq, bytes}
use adelie.Wire.{Outcome, ok, err, ◌>>=◌, ◌>>◌, fail_if}
use adelie.Wire.Sink.{to_le_bytes}
use adelie.Wire.Sink
use adelie.Wire.Cursor.{Cursor, from_le_bytes}
use adelie.Wire.Cursor
use adelie.Wire.Trips.{Writer, Reader, or_absent, map_err, record_of, then_sink, ◌⊳◌}
use adelie.Wire.Trips.Lists.{write_list}
use adelie.Segment.Trailer.{
  TrailerError, bad_magic, unsupported_version, truncated, corrupt_footer, write_trailer,
  read_trailer, slice,
}
use adelie.Manifest.{TableEntry, Job, Retired, Manifest}
use adelie.Manifest.Ids.{assign_missing}
use adelie.Manifest.Codec.{
  Error, corrupt, truncated_header, put_uvarint, get_uvarint, get_record, get_list,
}
use adelie.Manifest.Codec
use adelie.Manifest.Codec.Tables.{encode_table_entry, decode_table_entry}
use adelie.Manifest.Codec.Lifecycle.{
  encode_garbage, decode_garbage, encode_lifecycle, decode_lifecycle, encode_migrations,
  decode_migrations,
}

abbrev pub manifest_magic : List ℕ
manifest_magic = bytes "ADLMAN"

abbrev pub manifest_version : ℕ
manifest_version = 1

abbrev pub header_len : ℕ
header_len = 8

unfoldable pub encode_header_fields : Manifest → Writer
encode_header_fields m =
    put_uvarint m.version ⊳ put_uvarint m.next_segment_id ⊳ put_uvarint m.next_table_id

unfoldable pub decode_header_fields : Reader Error (ℕ × ℕ × ℕ)
decode_header_fields c = do
  (version, c1) ← get_uvarint c
  (next_segment_id, c2) ← get_uvarint c1
  (next_table_id, c3) ← or_absent 0 get_uvarint c2
  ok ((version, next_segment_id, next_table_id), c3)

unfoldable pub encode_tables : List TableEntry → Writer
encode_tables tables = write_list (λ t. record_of (encode_table_entry t)) tables

-- What is in the record of the tables.
unfoldable pub decode_tables : Reader Error (List TableEntry)
decode_tables c = get_list 1 (get_record decode_table_entry) c

unfoldable pub encode_body : Manifest → Writer
encode_body m =
    record_of (encode_header_fields m)
    ⊳ record_of (encode_tables m.tables)
    ⊳ record_of (encode_garbage m.garbage)
    ⊳ record_of (encode_lifecycle m)
    ⊳ record_of (encode_migrations m.migrations)

unfoldable pub decode_body : Reader Error Manifest
decode_body c = do
  ((version, next_segment_id, next_table_id), c1) ← get_record decode_header_fields c
  (tables, c2) ← get_record decode_tables c1
  (garbage, c3) ← get_record decode_garbage c2
  ((next_job_id, jobs, retired), c4) ← or_absent (1, [], []) (get_record decode_lifecycle) c3
  (migrations, c5) ← or_absent [] (get_record decode_migrations) c4
  ok (
    record {
      version = version;
      next_segment_id = next_segment_id;
      next_table_id = next_table_id;
      tables = tables;
      garbage = garbage;
      next_job_id = next_job_id;
      jobs = jobs;
      retired = retired;
      migrations = migrations;
    },
    c5,
  )

abbrev header : List ℕ
header = manifest_magic ++ to_le_bytes 2 manifest_version

-- `None` where an encoder of a part panics.
unfoldable pub encode : Manifest → Option (List ℕ)
encode m =
    then_sink (encode_body m Sink.new) (λ body. some (write_trailer header manifest_magic body))

abbrev pub trailer_err : TrailerError → Error
trailer_err bad_magic = corrupt Codec.bad_magic
trailer_err truncated = corrupt Codec.truncated
trailer_err corrupt_footer = corrupt Codec.corrupt_footer
trailer_err (unsupported_version v) = Codec.unsupported_version v

unfoldable pub decode : List ℕ → Outcome Error Manifest
decode bytes = do
  fail_if (ltb (length bytes) header_len) (corrupt truncated_header)
  fail_if (not (text_eq (take 6 bytes) manifest_magic)) (corrupt Codec.bad_magic)
  let header_version = from_le_bytes (slice 6 8 bytes)
  fail_if (ltb manifest_version header_version) (Codec.unsupported_version header_version)
  (start, end) ← map_err trailer_err (read_trailer bytes manifest_magic header_len)
  (m, _) ← decode_body (Cursor.new (slice start end bytes))
  ok m

-- `Manifest::decode`
unfoldable pub decode_and_assign : List ℕ → Outcome Error Manifest
decode_and_assign bytes = do m ← decode bytes; ok (assign_missing m)
