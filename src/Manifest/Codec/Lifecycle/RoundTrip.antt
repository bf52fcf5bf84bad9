-- ===== src/Manifest/Codec/Lifecycle/RoundTrip.antt =====
-- The decoders of garbage, jobs, retired tables and migrations in src/storage/manifest/codec.rs read back
-- what their encoders write.
use adelie.Base.{ℕ, ◌≡◌, refl, List, [], true, false, ◌||◌, ◌==◌, leb, some}
use adelie.Base.Each.{Each}
use adelie.Wire.{IsU64}
use adelie.Wire.Sink
use adelie.Wire.Cursor
use adelie.Wire.Trips.{
  Trips, field_then, last_field, checked, passed, or_absent-Trips, map_err-Trips,
}
use adelie.Wire.Trips.Fields.{in_record-Trips, word-Trips}
use adelie.Manifest.{
  Garbage, Job, RetireReason, swapped, reverted, dropped, Retired, MigrationRecord, Manifest,
  is_path_component,
}
use adelie.Manifest.Codec.{
  wire_error, str_field, u8_field, uvarint_field, ids_field, list_field, IsFew, IsText,
}
use adelie.Manifest.Codec.Segments.{IsSegment, segment-Trips}
use adelie.Manifest.Codec.Tables.{IsTable, table-Trips}
use adelie.Manifest.Codec.Lifecycle.{
  encode_garbage_entry, decode_garbage_entry, encode_garbage, decode_garbage, encode_job,
  decode_job, retire_reason_id, retire_reason_from_id, encode_retired, decode_retired,
  encode_lifecycle, decode_lifecycle, encode_migration, decode_migration, encode_migrations,
  decode_migrations,
}

-- A garbage entry has no column statistics, since there is no schema for them.
pub record IsGarbage (g : Garbage) : Type 0 where
  pub db : IsText g.table.db
  pub name : IsText g.table.name
  pub db_component : is_path_component g.table.db ≡ true
  pub name_component : is_path_component g.table.name ≡ true
  pub removed_at_ms : IsU64 g.removed_at_ms
  pub segment : IsSegment [] g.segment
  pub removed_at_version : IsU64 g.removed_at_version

pub record IsJob (next_job_id : ℕ) (j : Job) : Type 0 where
  pub id : IsU64 j.id
  pub known : (j.id == 0 || leb next_job_id j.id) ≡ false
  pub source : IsU64 j.source
  pub snapshot : IsU64 j.snapshot
  pub handled : Each IsU64 j.handled × IsFew j.handled
  pub reused : IsU64 j.reused
  pub rewritten : IsU64 j.rewritten
  pub target : IsTable j.target

pub record IsRetired (r : Retired) : Type 0 where
  pub retired_at_ms : IsU64 r.retired_at_ms
  pub version : IsU64 r.version
  pub successor_segments : Each IsU64 r.successor_segments × IsFew r.successor_segments
  pub entry : IsTable r.entry

pub record IsMigration (r : MigrationRecord) : Type 0 where
  pub name : IsText r.name
  pub checksum : IsU64 r.checksum
  pub applied_at_ms : IsU64 r.applied_at_ms

garbage_entry-Trips :
    (g : Garbage) → IsGarbage g → Trips (encode_garbage_entry g) decode_garbage_entry g
unfolding encode_garbage_entry decode_garbage_entry
garbage_entry-Trips g h = field_then _ (str_field g.table.db h.db) (
    field_then _ (str_field g.table.name h.name) (
      checked _ (rw h.db_component) (
        checked _ (rw h.name_component) (
          field_then _ (uvarint_field g.removed_at_ms h.removed_at_ms) (
            field_then _ (in_record-Trips wire_error (segment-Trips [] g.segment h.segment)) (
              last_field _ (λ c. refl)
                (or_absent-Trips 0 (uvarint_field g.removed_at_version h.removed_at_version))))))))

pub garbage-Trips :
    (garbage : List Garbage)
    → Each IsGarbage garbage
    → IsFew garbage
    → Trips (encode_garbage garbage) decode_garbage garbage
unfolding encode_garbage decode_garbage
garbage-Trips garbage h few =
    list_field IsGarbage (λ g k. in_record-Trips wire_error (garbage_entry-Trips g k)) garbage h few

job-Trips : (next : ℕ) (j : Job) → IsJob next j → Trips (encode_job j) (decode_job next) j
unfolding encode_job decode_job
job-Trips next j h = field_then _ (uvarint_field j.id h.id) (
    checked _ (rw h.known) (
      field_then _ (uvarint_field j.source h.source) (
        field_then _ (uvarint_field j.snapshot h.snapshot) (
          field_then _ (in_record-Trips wire_error (ids_field j.handled h.handled.0 h.handled.1)) (
            field_then _ (uvarint_field j.reused h.reused) (
              field_then _ (uvarint_field j.rewritten h.rewritten) (
                last_field _ (λ c. refl)
                  (in_record-Trips wire_error (table-Trips j.target h.target)))))))))

reason_lem : (r : RetireReason) → retire_reason_from_id (retire_reason_id r) ≡ some r
reason_lem swapped = refl
reason_lem reverted = refl
reason_lem dropped = refl

retired-Trips : (r : Retired) → IsRetired r → Trips (encode_retired r) decode_retired r
unfolding encode_retired decode_retired
retired-Trips r h = field_then _ (u8_field (retire_reason_id r.reason)) (
    passed _ _ (reason_lem r.reason) (
      field_then _ (uvarint_field r.retired_at_ms h.retired_at_ms) (
        field_then _ (uvarint_field r.version h.version) (
          field_then _
            (in_record-Trips wire_error
              (ids_field r.successor_segments h.successor_segments.0 h.successor_segments.1))
            (last_field _ (λ c. refl)
              (in_record-Trips wire_error (table-Trips r.entry h.entry)))))))

pub lifecycle-Trips :
    (m : Manifest)
    → IsU64 m.next_job_id
    → Each (IsJob m.next_job_id) m.jobs × IsFew m.jobs
    → Each IsRetired m.retired × IsFew m.retired
    → Trips (encode_lifecycle m) decode_lifecycle (m.next_job_id, m.jobs, m.retired)
unfolding encode_lifecycle decode_lifecycle
lifecycle-Trips m next jobs retired = field_then _ (uvarint_field m.next_job_id next) (
    field_then _
      (list_field (IsJob m.next_job_id)
        (λ j k. in_record-Trips wire_error (job-Trips m.next_job_id j k)) m.jobs jobs.0 jobs.1)
      (last_field _ (λ c. refl)
        (list_field IsRetired (λ r k. in_record-Trips wire_error (retired-Trips r k)) m.retired
          retired.0 retired.1)))

migration-Trips :
    (r : MigrationRecord) → IsMigration r → Trips (encode_migration r) decode_migration r
unfolding encode_migration decode_migration Sink.u64 Cursor.u64
migration-Trips r h = field_then _ (str_field r.name h.name) (
    field_then _ (map_err-Trips wire_error (word-Trips 7 r.checksum h.checksum))
      (last_field _ (λ c. refl) (uvarint_field r.applied_at_ms h.applied_at_ms)))

pub migrations-Trips :
    (migrations : List MigrationRecord)
    → Each IsMigration migrations
    → IsFew migrations
    → Trips (encode_migrations migrations) decode_migrations migrations
unfolding encode_migrations decode_migrations
migrations-Trips migrations h few =
    list_field IsMigration (λ r k. in_record-Trips wire_error (migration-Trips r k)) migrations h
      few
