-- ===== src/Examples/Codec.antt =====
-- A small manifest, its bytes and what is read from them; types, values and frames.
use adelie.Base.{ℕ, ◌≡◌, refl, arith, List, [], ◌∷◌, none, some, subst, sym, ap, ◌∙◌}
use adelie.Base.Each.{some-injective}
use adelie.Segment.Values.{IsValue}
use adelie.Base.Text.{bytes, text_eq, text_lt}
use adelie.Base.Utf8.{is_utf8, utf8_rest}
use adelie.Types.{DataType, Value, pos}
use adelie.Wire.{ok}
use adelie.Manifest.{
  ColumnStats, SegmentEntry, TableEntry, SchemaField, Tombstone, Garbage, MigrationRecord, Manifest,
  ge, is_path_component,
}
use adelie.Manifest.Codec.Definition.{check_definition_ids, definition_of, IsDefined}
use adelie.Manifest.Codec.Segments.{IsSegment, split_slash, check_distinct}
use adelie.Manifest.Codec.Tables.{IsTable}
use adelie.Manifest.Codec.Whole.{
  encode, decode, decode_and_assign, encode_body, encode_header_fields, encode_tables,
}
use adelie.Manifest.Codec.Tables.{encode_table_entry, encode_segments, encode_tombstones}
use adelie.Manifest.Codec.Schema.{encode_schema, encode_field}
use adelie.Manifest.Codec.Segments.{encode_segment, encode_side_files}
use adelie.Manifest.Codec.Columns.{encode_columns, encode_stats}
use adelie.Manifest.Codec.Tombstones.{encode_tombstone, encode_predicate}
use adelie.Manifest.Codec.Definition.{encode_definition}
use adelie.Manifest.Codec.Options.{encode_options, encode_option}
use adelie.Manifest.Codec.Lifecycle.{
  encode_garbage, encode_garbage_entry, encode_lifecycle, encode_migrations, encode_migration,
}
use adelie.Segment.TypeId.{encode_type, encode_raw_type}
use adelie.Segment.Values.{encode_opt, encode_value}
use adelie.Segment.Trailer.{write_trailer, read_trailer, slice, read_trailer-write_trailer}
use adelie.Segment.TypeId.{decode_type, type-Trips}
use adelie.Segment.Values.{decode_value, value-Trips}
use adelie.Wire.Trips.{Trips, writes}
use adelie.Types.{negsuc, new_decimal_type}
use adelie.Manifest.Codec.Confined.{IsConfined, decode-IsConfined}
use adelie.Manifest.Ids.{
  assign_missing, assign_field_ids, assign_segment_dirs, assign_segment_dir, assign_garbage_dir,
  fill,
}
use adelie.Segment.Crc.{crc32c, crc_loop, table, shift_rounds}
use adelie.Wire.Trips.{record_of}
use adelie.Wire.Trips.Lists.{write_list, write_each}
use adelie.Wire.Trips.Zip.{write_zip}
use adelie.Wire.Sink
use adelie.Manifest.Codec.Whole.RoundTrip.{IsEncodable, decode-encode, reopen_lem}

abbrev schema : List SchemaField
schema = record { id = 1; field = record { name = bytes "n"; ty = DataType.int64 } } ∷ []

abbrev stats : ColumnStats
stats = record { rows = 4; null_count = 0; min = some (Value.int64 (pos 3)); max = none }

abbrev segment : SegmentEntry
segment = record {
  id = 0;
  partition = bytes "_";
  seq = 1;
  rows = 4;
  bytes = 300;
  footer_crc = 7;
  columns = stats ∷ [];
  side_files = [];
  dir = bytes "a/b";
  field_ids = 1 ∷ [];
  file_field_ids = 1 ∷ 0 ∷ [];
}

abbrev old_rows : Tombstone
old_rows = record {
  seq = 2;
  predicates = record { column = bytes "n"; op = ge; value = Value.int64 (pos 5) } ∷ [];
}

abbrev events : TableEntry
events = record {
  id = 1;
  name = record { db = bytes "a"; name = bytes "b" };
  engine = bytes "append";
  schema = schema;
  next_field_id = 2;
  key = [];
  version = none;
  order_by = 1 ∷ [];
  partition_by = none;
  ttl = none;
  options = (bytes "j", bytes "x") ∷ (bytes "k", bytes "y") ∷ [];
  segments = segment ∷ [];
  tombstones = old_rows ∷ [];
}

abbrev removed : Garbage
removed = record {
  table = record { db = bytes "a"; name = bytes "b" };
  segment = record segment { columns = []; field_ids = []; file_field_ids = [] };
  removed_at_ms = 9;
  removed_at_version = 1;
}

abbrev applied : MigrationRecord
applied = record { name = bytes "1.sql"; checksum = 12; applied_at_ms = 8 }

abbrev sample : Manifest
sample = record {
  version = 2;
  next_segment_id = 2;
  next_table_id = 2;
  tables = events ∷ [];
  garbage = removed ∷ [];
  next_job_id = 1;
  jobs = [];
  retired = [];
  migrations = applied ∷ [];
}

segment-IsSegment : IsSegment schema segment
unfolding is_utf8 utf8_rest is_path_component split_slash check_distinct text_eq
segment-IsSegment = record {
  id = omega arith;
  partition = refl;
  component = refl;
  seq = omega arith;
  rows = omega arith;
  bytes = omega arith;
  footer_crc = omega arith;
  columns = (
    (
      record {
        rows = omega arith;
        null_count = omega arith;
        min = λ v e. subst (λ v. IsValue v DataType.int64) (some-injective e) (omega arith);
        max = λ v e. cc;
      },
      tt,
    ),
    omega arith,
  );
  side_files = refl;
  dir = refl;
  parts = refl;
  field_ids = ((omega arith, tt), omega arith);
  arity = refl;
  file_field_ids = ((omega arith, (omega arith, tt)), omega arith);
  distinct = refl;
}

garbage-IsSegment : IsSegment [] removed.segment
unfolding is_utf8 utf8_rest is_path_component split_slash check_distinct text_eq
garbage-IsSegment = record {
  id = omega arith;
  partition = refl;
  component = refl;
  seq = omega arith;
  rows = omega arith;
  bytes = omega arith;
  footer_crc = omega arith;
  columns = (tt, omega arith);
  side_files = refl;
  dir = refl;
  parts = refl;
  field_ids = (tt, omega arith);
  arity = refl;
  file_field_ids = (tt, omega arith);
  distinct = refl;
}

events-IsDefined : IsDefined events
unfolding is_utf8 utf8_rest text_lt
events-IsDefined = record {
  id = omega arith;
  some_id = refl;
  next_field_id = omega arith;
  key = tt;
  key_few = omega arith;
  version = λ v e. cc;
  order_by = (omega arith, tt);
  order_by_few = omega arith;
  partition_by = λ p e. cc;
  ttl = λ l e. cc;
  options = record {
    texts = ((refl, refl), ((refl, refl), tt));
    sorted = ((refl, tt), (tt, tt));
    few = omega arith;
  };
}

events-IsTable : IsTable events
unfolding is_utf8 utf8_rest is_path_component text_eq check_definition_ids definition_of
events-IsTable = record {
  db = refl;
  name = refl;
  engine = refl;
  db_component = refl;
  name_component = refl;
  schema = ((record { name = refl; ty = tt; id = omega arith; some_id = refl }, tt), omega arith);
  segments = (segment-IsSegment, tt);
  segments_few = omega arith;
  tombstones = (
    record {
      seq = omega arith;
      predicates = (
        record {
          column = refl;
          field = record { id = 1; field = record { name = bytes "n"; ty = DataType.int64 } };
          found = refl;
          value = omega arith;
        },
        tt,
      );
      few = omega arith;
    },
    tt,
  );
  tombstones_few = omega arith;
  defined = events-IsDefined;
  ids_known = refl;
}

sample-IsEncodable : IsEncodable sample
unfolding is_utf8 utf8_rest is_path_component text_eq
sample-IsEncodable = record {
  version = omega arith;
  next_segment_id = omega arith;
  next_table_id = omega arith;
  tables = (events-IsTable, tt);
  tables_few = omega arith;
  garbage = (
    record {
      db = refl;
      name = refl;
      db_component = refl;
      name_component = refl;
      removed_at_ms = omega arith;
      segment = garbage-IsSegment;
      removed_at_version = omega arith;
    },
    tt,
  );
  garbage_few = omega arith;
  next_job_id = omega arith;
  jobs = (tt, omega arith);
  retired = (tt, omega arith);
  migrations = (record { name = refl; checksum = omega arith; applied_at_ms = omega arith }, tt);
  migrations_few = omega arith;
}

-- Its header, five records and trailer.
abbrev sample_bytes : List ℕ
sample_bytes =
    65 ∷ 68 ∷ 76 ∷ 77 ∷ 65 ∷ 78 ∷ 1 ∷ 0 ∷ 3 ∷ 2 ∷ 2 ∷ 2 ∷ 98 ∷ 1 ∷ 96 ∷ 1 ∷ 97 ∷ 1 ∷ 98 ∷ 6 ∷ 97
    ∷ 112 ∷ 112 ∷ 101 ∷ 110 ∷ 100 ∷ 7 ∷ 1 ∷ 5 ∷ 1 ∷ 110 ∷ 2 ∷ 0 ∷ 1 ∷ 41 ∷ 1 ∷ 39 ∷ 0 ∷ 1 ∷ 95 ∷ 1
    ∷ 4 ∷ 172 ∷ 2 ∷ 7 ∷ 0 ∷ 0 ∷ 0 ∷ 14 ∷ 1 ∷ 12 ∷ 4 ∷ 0 ∷ 1 ∷ 3 ∷ 0 ∷ 0 ∷ 0 ∷ 0 ∷ 0 ∷ 0 ∷ 0 ∷ 0 ∷ 1
    ∷ 0 ∷ 3 ∷ 97 ∷ 47 ∷ 98 ∷ 2 ∷ 1 ∷ 1 ∷ 3 ∷ 2 ∷ 1 ∷ 0 ∷ 16 ∷ 1 ∷ 14 ∷ 2 ∷ 1 ∷ 11 ∷ 1 ∷ 110 ∷ 5 ∷ 5
    ∷ 0 ∷ 0 ∷ 0 ∷ 0 ∷ 0 ∷ 0 ∷ 0 ∷ 17 ∷ 1 ∷ 2 ∷ 0 ∷ 0 ∷ 1 ∷ 1 ∷ 0 ∷ 0 ∷ 2 ∷ 1 ∷ 106 ∷ 1 ∷ 120 ∷ 1
    ∷ 107 ∷ 1 ∷ 121 ∷ 32 ∷ 1 ∷ 30 ∷ 1 ∷ 97 ∷ 1 ∷ 98 ∷ 9 ∷ 23 ∷ 0 ∷ 1 ∷ 95 ∷ 1 ∷ 4 ∷ 172 ∷ 2 ∷ 7 ∷ 0
    ∷ 0 ∷ 0 ∷ 1 ∷ 0 ∷ 1 ∷ 0 ∷ 3 ∷ 97 ∷ 47 ∷ 98 ∷ 1 ∷ 0 ∷ 1 ∷ 0 ∷ 1 ∷ 3 ∷ 1 ∷ 0 ∷ 0 ∷ 17 ∷ 1 ∷ 15 ∷ 5
    ∷ 49 ∷ 46 ∷ 115 ∷ 113 ∷ 108 ∷ 12 ∷ 0 ∷ 0 ∷ 0 ∷ 0 ∷ 0 ∷ 0 ∷ 0 ∷ 8 ∷ 158 ∷ 0 ∷ 0 ∷ 0 ∷ 72 ∷ 185
    ∷ 59 ∷ 205 ∷ 65 ∷ 68 ∷ 76 ∷ 77 ∷ 65 ∷ 78 ∷ 1 ∷ 0 ∷ []

encode-sample : encode sample ≡ some sample_bytes
unfolding encode encode_body encode_header_fields encode_tables encode_table_entry encode_schema
    encode_field encode_segments encode_segment encode_columns encode_stats encode_side_files
    encode_tombstones encode_tombstone encode_predicate encode_definition encode_options
    encode_option encode_garbage encode_garbage_entry encode_lifecycle encode_migrations
    encode_migration encode_type encode_raw_type encode_opt encode_value write_list write_each
    write_zip record_of Sink.uvarint Sink.uvarint_loop Sink.u8 Sink.u32 Sink.u64 Sink.i64 Sink.raw
    Sink.to_le_bytes Sink.bytes Sink.str write_trailer crc32c crc_loop table shift_rounds text_eq
encode-sample = refl

decode-encode_example : decode sample_bytes ≡ ok sample
decode-encode_example =
    decode-encode sample sample_bytes sample-IsEncodable encode-sample (omega arith)

sample-assigned : assign_missing sample ≡ sample
unfolding assign_missing assign_field_ids assign_segment_dirs assign_segment_dir assign_garbage_dir
    fill text_eq
sample-assigned = refl

reopen_lem_example : decode_and_assign sample_bytes ≡ ok (assign_missing sample)
reopen_lem_example =
    reopen_lem sample sample_bytes (record { tables = omega arith; fields = (omega arith, tt) })
      (subst IsEncodable (sym sample-assigned) sample-IsEncodable)
      (ap encode sample-assigned ∙ encode-sample) (omega arith)

decode-IsConfined_example : IsConfined sample
decode-IsConfined_example = decode-IsConfined sample_bytes sample decode-encode_example

-- `LIST(DECIMAL(9, 2))`
abbrev prices : DataType
prices = DataType.list (DataType.decimal (record { precision = 9; scale = 2 }))

type-Trips_example : Trips (writes (encode_type prices)) decode_type prices
unfolding new_decimal_type
type-Trips_example = type-Trips prices refl

value-Trips_example :
    Trips
      (encode_value (Value.int64 (negsuc 4)) DataType.int64)
      (decode_value DataType.int64)
      (Value.int64 (negsuc 4))
value-Trips_example = value-Trips (Value.int64 (negsuc 4)) DataType.int64 (omega arith)

read_trailer-write_trailer_example :
    (read_trailer (write_trailer (1 ∷ 2 ∷ []) (bytes "ADLSEG") (7 ∷ 8 ∷ 9 ∷ [])) (bytes "ADLSEG") 2
      ≡ ok (2, 5))
    × (slice 2 5 (write_trailer (1 ∷ 2 ∷ []) (bytes "ADLSEG") (7 ∷ 8 ∷ 9 ∷ [])) ≡ 7 ∷ 8 ∷ 9 ∷ [])
read_trailer-write_trailer_example =
    read_trailer-write_trailer (1 ∷ 2 ∷ []) (bytes "ADLSEG") (7 ∷ 8 ∷ 9 ∷ []) refl (omega arith)

crc_check : crc32c (bytes "123456789") ≡ 0xe306_9283
unfolding crc32c crc_loop table shift_rounds
crc_check = refl
