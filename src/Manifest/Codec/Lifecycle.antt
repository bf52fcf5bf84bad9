-- ===== src/Manifest/Codec/Lifecycle.antt =====
-- Garbage, jobs, retired tables and the migration ledger in src/storage/manifest/codec.rs.
pub mod RoundTrip
use adelie.Base.{
  ℕ, ◌≡◌, ◌^◌, ◌<◌, refl, arith, List, [], Bool, true, false, not, ◌||◌, ◌==◌, leb, Option, none,
  some, if◌then◌else◌,
}
use adelie.Base.Each.{Each}
use adelie.Wire.{Outcome, ok, err, ◌>>=◌, ◌>>◌, fail_if, ok_or, IsU64}
use adelie.Wire.Sink
use adelie.Wire.Cursor.{Cursor}
use adelie.Wire.Cursor
use adelie.Wire.Trips.{
  Trips, Writer, Reader, writes, field_then, last_field, same_reader, checked, or_absent,
  or_absent-Trips, map_err, map_err-Trips, record_of, ◌⊳◌,
}
use adelie.Wire.Trips.Fields.{in_record-Trips, word-Trips}
use adelie.Wire.Trips.Lists.{write_list}
use adelie.Manifest.{
  TableName, Garbage, Job, RetireReason, swapped, reverted, dropped, Retired, MigrationRecord,
  Manifest, is_path_component,
}
use adelie.Manifest.Codec.{
  Error, corrupt, bad_job_id, unknown_reason, wire_error, check_component, put_str, get_str,
  str_field, put_u8, get_u8, u8_field, put_uvarint, get_uvarint, uvarint_field, put_ids, get_ids,
  ids_field, get_record, get_list, list_field, IsFew, IsText,
}
use adelie.Manifest.Codec.Segments.{encode_segment, decode_segment, IsSegment, segment-Trips}
use adelie.Manifest.Codec.Tables.{encode_table_entry, decode_table_entry, IsTable, table-Trips}

unfoldable pub encode_garbage_entry : Garbage → Writer
encode_garbage_entry g =
    put_str g.table.db
    ⊳ put_str g.table.name
    ⊳ put_uvarint g.removed_at_ms
    ⊳ record_of (encode_segment [] g.segment)
    ⊳ put_uvarint g.removed_at_version

unfoldable pub encode_garbage : List Garbage → Writer
encode_garbage garbage = write_list (λ g. record_of (encode_garbage_entry g)) garbage

unfoldable pub decode_garbage_entry : Reader Error Garbage
decode_garbage_entry c = do
  (db, c1) ← get_str c
  (name, c2) ← get_str c1
  check_component db
  check_component name
  (removed_at_ms, c3) ← get_uvarint c2
  (segment, c4) ← get_record (decode_segment []) c3
  (removed_at_version, c5) ← or_absent 0 get_uvarint c4
  ok (
    record {
      table = record { db = db; name = name };
      segment = segment;
      removed_at_ms = removed_at_ms;
      removed_at_version = removed_at_version;
    },
    c5,
  )

-- What is in the record of the garbage.
unfoldable pub decode_garbage : Reader Error (List Garbage)
decode_garbage c = get_list 1 (get_record decode_garbage_entry) c

unfoldable pub encode_job : Job → Writer
encode_job j =
    put_uvarint j.id
    ⊳ put_uvarint j.source
    ⊳ put_uvarint j.snapshot
    ⊳ record_of (put_ids j.handled)
    ⊳ put_uvarint j.reused
    ⊳ put_uvarint j.rewritten
    ⊳ record_of (encode_table_entry j.target)

unfoldable pub decode_job : ℕ → Reader Error Job
decode_job next_job_id c = do
  (id, c1) ← get_uvarint c
  fail_if (id == 0 || leb next_job_id id) (corrupt (bad_job_id id))
  (source, c2) ← get_uvarint c1
  (snapshot, c3) ← get_uvarint c2
  (handled, c4) ← get_record get_ids c3
  (reused, c5) ← get_uvarint c4
  (rewritten, c6) ← get_uvarint c5
  (target, c7) ← get_record decode_table_entry c6
  ok (
    record {
      id = id;
      source = source;
      snapshot = snapshot;
      target = target;
      handled = handled;
      reused = reused;
      rewritten = rewritten;
    },
    c7,
  )

abbrev pub retire_reason_id : RetireReason → ℕ
retire_reason_id swapped = 0
retire_reason_id reverted = 1
retire_reason_id dropped = 2

abbrev pub retire_reason_from_id : ℕ → Option RetireReason
retire_reason_from_id id =
    if id == 0
    then some swapped
    else if id == 1
    then some reverted
    else if id == 2
    then some dropped
    else none

unfoldable pub encode_retired : Retired → Writer
encode_retired r =
    put_u8 (retire_reason_id r.reason)
    ⊳ put_uvarint r.retired_at_ms
    ⊳ put_uvarint r.version
    ⊳ record_of (put_ids r.successor_segments)
    ⊳ record_of (encode_table_entry r.entry)

unfoldable pub decode_retired : Reader Error Retired
decode_retired c = do
  (reason_byte, c1) ← get_u8 c
  reason ← ok_or (retire_reason_from_id reason_byte) (corrupt (unknown_reason reason_byte))
  (retired_at_ms, c2) ← get_uvarint c1
  (version, c3) ← get_uvarint c2
  (successor_segments, c4) ← get_record get_ids c3
  (entry, c5) ← get_record decode_table_entry c4
  ok (
    record {
      entry = entry;
      reason = reason;
      retired_at_ms = retired_at_ms;
      version = version;
      successor_segments = successor_segments;
    },
    c5,
  )

unfoldable pub encode_lifecycle : Manifest → Writer
encode_lifecycle m =
    put_uvarint m.next_job_id
    ⊳ write_list (λ j. record_of (encode_job j)) m.jobs
    ⊳ write_list (λ r. record_of (encode_retired r)) m.retired

-- What is in the record of the lifecycle.
unfoldable pub decode_lifecycle : Reader Error (ℕ × List Job × List Retired)
decode_lifecycle c = do
  (next_job_id, c1) ← get_uvarint c
  (jobs, c2) ← get_list 1 (get_record (decode_job next_job_id)) c1
  (retired, c3) ← get_list 1 (get_record decode_retired) c2
  ok ((next_job_id, jobs, retired), c3)

abbrev put_u64 : ℕ → Writer
put_u64 v = writes (λ buf. Sink.u64 buf v)

abbrev get_u64 : Reader Error ℕ
get_u64 c = map_err wire_error (Cursor.u64 c)

unfoldable pub encode_migration : MigrationRecord → Writer
encode_migration r = put_str r.name ⊳ put_u64 r.checksum ⊳ put_uvarint r.applied_at_ms

unfoldable pub encode_migrations : List MigrationRecord → Writer
encode_migrations migrations = write_list (λ r. record_of (encode_migration r)) migrations

unfoldable pub decode_migration : Reader Error MigrationRecord
decode_migration c = do
  (name, c1) ← get_str c
  (checksum, c2) ← get_u64 c1
  (applied_at_ms, c3) ← get_uvarint c2
  ok (record { name = name; checksum = checksum; applied_at_ms = applied_at_ms }, c3)

-- What is in the record of the migrations.
unfoldable pub decode_migrations : Reader Error (List MigrationRecord)
decode_migrations c = get_list 1 (get_record decode_migration) c
