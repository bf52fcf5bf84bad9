-- ===== src/Manifest/Codec/Tables.antt =====
-- A table's entry in src/storage/manifest/codec.rs.
use adelie.Base.{◌≡◌, refl, List, true}
use adelie.Base.Each.{Each}
use adelie.Wire.{ok, ◌>>=◌, ◌>>◌}
use adelie.Wire.Trips.{
  Trips, Writer, Reader, field_then, last_field, checked, or_absent, or_absent-Trips, record_of,
  ◌⊳◌,
}
use adelie.Wire.Trips.Fields.{in_record-Trips}
use adelie.Wire.Trips.Lists.{write_list}
use adelie.Manifest.{SchemaField, SegmentEntry, Tombstone, TableEntry, is_path_component}
use adelie.Manifest.Codec.{
  Error, wire_error, check_component, put_str, get_str, str_field, get_record, get_list, list_field,
  IsFew, IsText,
}
use adelie.Manifest.Codec.Schema.{encode_schema, decode_schema, IsSchema, schema-Trips}
use adelie.Manifest.Codec.Segments.{encode_segment, decode_segment, IsSegment, segment-Trips}
use adelie.Manifest.Codec.Tombstones.{
  encode_tombstone, decode_tombstone, IsTombstone, tombstone-Trips,
}
use adelie.Manifest.Codec.Definition.{
  absent, encode_definition, decode_definition, definition_of, definition-Trips,
  check_definition_ids, IsDefined,
}

unfoldable pub encode_segments : List SchemaField → List SegmentEntry → Writer
encode_segments schema segments = write_list (λ s. record_of (encode_segment schema s)) segments

unfoldable pub decode_segments : List SchemaField → Reader Error (List SegmentEntry)
decode_segments schema c = get_list 1 (get_record (decode_segment schema)) c

unfoldable pub encode_tombstones : List SchemaField → List Tombstone → Writer
encode_tombstones schema tombstones =
    write_list (λ t. record_of (encode_tombstone schema t)) tombstones

unfoldable pub decode_tombstones : List SchemaField → Reader Error (List Tombstone)
decode_tombstones schema c = get_list 1 (get_record (decode_tombstone schema)) c

unfoldable pub encode_table_entry : TableEntry → Writer
encode_table_entry t =
    put_str t.name.db
    ⊳ put_str t.name.name
    ⊳ put_str t.engine
    ⊳ record_of (encode_schema t.schema)
    ⊳ record_of (encode_segments t.schema t.segments)
    ⊳ record_of (encode_tombstones t.schema t.tombstones)
    ⊳ record_of (encode_definition t)

-- What is in the record of a table.
unfoldable pub decode_table_entry : Reader Error TableEntry
decode_table_entry c = do
  (db, c1) ← get_str c
  (name, c2) ← get_str c1
  (engine, c3) ← get_str c2
  check_component db
  check_component name
  (schema, c4) ← get_record decode_schema c3
  (segments, c5) ← get_record (decode_segments schema) c4
  (tombstones, c6) ← get_record (decode_tombstones schema) c5
  (def, c7) ← or_absent absent (get_record decode_definition) c6
  check_definition_ids def schema
  ok (
    record {
      id = def.id;
      name = record { db = db; name = name };
      engine = engine;
      schema = schema;
      next_field_id = def.next_field_id;
      key = def.key;
      version = def.version;
      order_by = def.order_by;
      partition_by = def.partition_by;
      ttl = def.ttl;
      options = def.options;
      segments = segments;
      tombstones = tombstones;
    },
    c7,
  )

-- An entry that a decoder accepts.
pub record IsTable (t : TableEntry) : Type 0 where
  pub db : IsText t.name.db
  pub name : IsText t.name.name
  pub engine : IsText t.engine
  pub db_component : is_path_component t.name.db ≡ true
  pub name_component : is_path_component t.name.name ≡ true
  pub schema : IsSchema t.schema
  pub segments : Each (IsSegment t.schema) t.segments
  pub segments_few : IsFew t.segments
  pub tombstones : Each (IsTombstone t.schema) t.tombstones
  pub tombstones_few : IsFew t.tombstones
  pub defined : IsDefined t
  pub ids_known : check_definition_ids (definition_of t) t.schema ≡ ok tt

pub table-Trips : (t : TableEntry) → IsTable t → Trips (encode_table_entry t) decode_table_entry t
unfolding encode_table_entry decode_table_entry encode_segments decode_segments encode_tombstones
    decode_tombstones definition_of
table-Trips t h = field_then _ (str_field t.name.db h.db) (
    field_then _ (str_field t.name.name h.name) (
      field_then _ (str_field t.engine h.engine) (
        checked _ (rw h.db_component) (
          checked _ (rw h.name_component) (
            field_then _ (in_record-Trips wire_error (schema-Trips t.schema h.schema)) (
              field_then _
                (in_record-Trips wire_error (
                  list_field (IsSegment t.schema)
                    (λ s k. in_record-Trips wire_error (segment-Trips t.schema s k)) t.segments
                    h.segments h.segments_few))
                (field_then _
                  (in_record-Trips wire_error (
                    list_field (IsTombstone t.schema)
                      (λ s k. in_record-Trips wire_error (tombstone-Trips t.schema s k))
                      t.tombstones h.tombstones h.tombstones_few))
                  (last_field _ (λ c. rw h.ids_known refl)
                    (or_absent-Trips absent
                      (in_record-Trips wire_error (definition-Trips t h.defined)))))))))))
