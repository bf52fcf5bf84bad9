-- ===== src/Manifest/Codec/Schema.antt =====
-- The schema of a table in src/storage/manifest/codec.rs.
use adelie.Base.{ℕ, ◌≡◌, refl, List, false, ◌==◌}
use adelie.Base.Each.{Each}
use adelie.Wire.{ok, ◌>>=◌, ◌>>◌, fail_if, IsU64}
use adelie.Wire.Trips.{
  Trips, Writer, Reader, writes, field_then, last_field, or_absent, or_absent-Trips, map_err,
  map_err-Trips, record_of, ◌⊳◌,
}
use adelie.Wire.Trips.Fields.{in_record-Trips}
use adelie.Wire.Trips.Lists.{write_list}
use adelie.Types.{DataType}
use adelie.Segment.TypeId.{encode_type, decode_type, type-Trips, IsDataType}
use adelie.Manifest.{SchemaField}
use adelie.Manifest.Codec.{
  Error, corrupt, zero_field_id, wire_error, put_str, get_str, str_field, put_uvarint, get_uvarint,
  uvarint_field, get_record, get_list, list_field, IsFew, IsText,
}

unfoldable pub encode_field : SchemaField → Writer
encode_field f = put_str f.field.name ⊳ writes (encode_type f.field.ty) ⊳ put_uvarint f.id

unfoldable pub encode_schema : List SchemaField → Writer
encode_schema fields = write_list (λ f. record_of (encode_field f)) fields

abbrev pub get_type : Reader Error DataType
get_type c = map_err wire_error (decode_type c)

-- The id of a field, where there is one.
unfoldable pub decode_field_id : Reader Error ℕ
decode_field_id c = do
  (raw, c') ← get_uvarint c
  fail_if (raw == 0) (corrupt zero_field_id)
  ok (raw, c')

unfoldable pub decode_field : Reader Error SchemaField
decode_field c = do
  (name, c1) ← get_str c
  (ty, c2) ← get_type c1
  (id, c3) ← or_absent 0 decode_field_id c2
  ok (record { id = id; field = record { name = name; ty = ty } }, c3)

-- What is in the record of the schema.
unfoldable pub decode_schema : Reader Error (List SchemaField)
decode_schema c = get_list 1 (get_record decode_field) c

pub record IsField (f : SchemaField) : Type 0 where
  pub name : IsText f.field.name
  pub ty : IsDataType f.field.ty
  pub id : IsU64 f.id
  pub some_id : (f.id == 0) ≡ false

field-Trips : (f : SchemaField) → IsField f → Trips (encode_field f) decode_field f
unfolding encode_field decode_field decode_field_id
field-Trips f h = field_then _ (str_field f.field.name h.name) (
    field_then _ (map_err-Trips wire_error (type-Trips f.field.ty h.ty)) (
      last_field _ (λ c. refl)
        (or_absent-Trips 0 (last_field _ (λ c. rw h.some_id) (uvarint_field f.id h.id)))))

abbrev pub IsSchema : List SchemaField → Type 0
IsSchema fields = Each IsField fields × IsFew fields

pub schema-Trips :
    (fields : List SchemaField)
    → IsSchema fields
    → Trips (encode_schema fields) decode_schema fields
unfolding encode_schema decode_schema
schema-Trips fields (h, few) =
    list_field IsField (λ f p. in_record-Trips wire_error (field-Trips f p)) fields h few
