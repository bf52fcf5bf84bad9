-- ===== src/Manifest/Codec/Whole/RoundTrip.antt =====
-- A manifest goes through its bytes unchanged: `encode` and `decode` of src/storage/manifest/codec.rs.
use adelie.Base.{
  ℕ, ◌≡◌, ◌^◌, ◌<◌, ◌+◌, refl, ap, sym, ◌∙◌, arith, List, [], take, length, false, some, ltb,
}
use adelie.Base.Each.{Each, some-injective}
use adelie.Base.Text.{text_eq_refl}
use adelie.Wire.{ok, IsU64}
use adelie.Wire.Sink.{to_le_bytes}
use adelie.Wire.Cursor.{from_le_bytes, Cursor}
use adelie.Wire.Cursor
use adelie.Wire.Trips.{Trips, field_then, last_field, or_absent-Trips, alone}
use adelie.Wire.Trips.Fields.{in_record-Trips}
use adelie.Segment.Trailer.{write_trailer, slice, read_trailer-write_trailer, length-write_trailer}
use adelie.Manifest.{Manifest}
use adelie.Manifest.Ids.{assign_missing}
use adelie.Manifest.Ids.Idempotent.{HasIds, assign_missing-assign_missing}
use adelie.Manifest.Codec.{wire_error, uvarint_field, list_field, IsFew}
use adelie.Manifest.Codec.Tables.{IsTable, table-Trips}
use adelie.Manifest.Codec.Lifecycle.RoundTrip.{
  IsGarbage, IsJob, IsRetired, IsMigration, garbage-Trips, lifecycle-Trips, migrations-Trips,
}
use adelie.Manifest.Codec.Whole.{
  encode_header_fields, decode_header_fields, encode_tables, decode_tables, encode_body,
  decode_body, encode, decode, decode_and_assign, header, manifest_magic, manifest_version,
  header_len,
}

-- A manifest in the ranges of its format: numbers in their ranges, texts in UTF-8, names that are path
-- components, ids that are assigned and known, and no more elements than a decoder takes.
pub record IsEncodable (m : Manifest) : Type 0 where
  pub version : IsU64 m.version
  pub next_segment_id : IsU64 m.next_segment_id
  pub next_table_id : IsU64 m.next_table_id
  pub tables : Each IsTable m.tables
  pub tables_few : IsFew m.tables
  pub garbage : Each IsGarbage m.garbage
  pub garbage_few : IsFew m.garbage
  pub next_job_id : IsU64 m.next_job_id
  pub jobs : Each (IsJob m.next_job_id) m.jobs × IsFew m.jobs
  pub retired : Each IsRetired m.retired × IsFew m.retired
  pub migrations : Each IsMigration m.migrations
  pub migrations_few : IsFew m.migrations

header-Trips :
    (m : Manifest)
    → IsEncodable m
    → Trips
        (encode_header_fields m)
        decode_header_fields
        (m.version, m.next_segment_id, m.next_table_id)
unfolding encode_header_fields decode_header_fields
header-Trips m h = field_then _ (uvarint_field m.version h.version) (
    field_then _ (uvarint_field m.next_segment_id h.next_segment_id) (
      last_field _ (λ c. refl) (or_absent-Trips 0 (uvarint_field m.next_table_id h.next_table_id))))

body-Trips : (m : Manifest) → IsEncodable m → Trips (encode_body m) decode_body m
unfolding encode_body decode_body encode_tables decode_tables
body-Trips m h = field_then _ (in_record-Trips wire_error (header-Trips m h)) (
    field_then _
      (in_record-Trips wire_error (
        list_field IsTable (λ t k. in_record-Trips wire_error (table-Trips t k)) m.tables h.tables
          h.tables_few))
      (field_then _ (in_record-Trips wire_error (garbage-Trips m.garbage h.garbage h.garbage_few)) (
        field_then _
          (or_absent-Trips (1, [], [])
            (in_record-Trips wire_error (lifecycle-Trips m h.next_job_id h.jobs h.retired)))
          (last_field _ (λ c. refl)
            (or_absent-Trips [] (
              in_record-Trips wire_error
                (migrations-Trips m.migrations h.migrations h.migrations_few)))))))

module _ (body : List ℕ) where
  framed : List ℕ
  framed = write_trailer header manifest_magic body

  head : (take 6 framed ≡ manifest_magic) × (from_le_bytes (slice 6 8 framed) ≡ manifest_version)
  unfolding framed write_trailer to_le_bytes from_le_bytes
  head = (refl, refl)

  length-framed : length framed ≡ 8 + length body + 16
  unfolding framed to_le_bytes
  length-framed = length-write_trailer header manifest_magic body refl

  decode-framed :
      (m : Manifest) (c : Cursor)
      → length body < 2 ^ 32
      → decode_body (record { buf = body; pos = 0 }) ≡ ok (m, c)
      → decode framed ≡ ok m
  unfolding decode framed to_le_bytes Cursor.new
  decode-framed m c small e =
      let (range, same) = read_trailer-write_trailer header manifest_magic body refl small in
      let (magic, version) = head in
      rw (long, magic, version, range, same, e, text_eq_refl manifest_magic) refl
    where
      long : ltb (length (write_trailer header manifest_magic body)) header_len ≡ false
      long = ground (arith, length-framed)

encode-framed :
    (m : Manifest) (h : IsEncodable m) → encode m ≡ some (framed (body-Trips m h).written)
unfolding encode framed
encode-framed m h = rw ((body-Trips m h).appends [])

-- `decode` gives back a manifest from the bytes that `encode` has made of it, where they are fewer
-- than 2^32 and the manifest is encodable: numbers in their ranges, texts in UTF-8, names that are path
-- components, ids that are assigned and known, and no more elements than a decoder takes.
pub decode-encode :
    (m : Manifest) (bytes : List ℕ)
    → IsEncodable m
    → encode m ≡ some bytes
    → length bytes < 2 ^ 32
    → decode bytes ≡ ok m
decode-encode m bytes h made short =
    let trip = body-Trips m h in
    let size = length-framed trip.written in
    let same : bytes ≡ framed trip.written = some-injective (sym made ∙ encode-framed m h) in
    let small : length trip.written < 2 ^ 32 = omega (arith, size, ap length same) in
    let (c, e) = alone trip trip.written (trip.appends []) (omega arith) in
    ap decode same ∙ decode-framed trip.written m c small e

-- A manifest that was opened, once more encoded and opened, is the same again: the ids that were
-- assigned when it was opened first stay. The conditions are those of `decode-encode`, and that the ids
-- that may be assigned stay in the range of a `u64`.
pub reopen_lem :
    (m : Manifest) (bytes : List ℕ)
    → HasIds m
    → IsEncodable (assign_missing m)
    → encode (assign_missing m) ≡ some bytes
    → length bytes < 2 ^ 32
    → decode_and_assign bytes ≡ ok (assign_missing m)
unfolding decode_and_assign
reopen_lem m bytes room h made short =
    rw (decode-encode (assign_missing m) bytes h made short)
      (ap ok (assign_missing-assign_missing m room))
