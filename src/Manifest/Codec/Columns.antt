-- ===== src/Manifest/Codec/Columns.antt =====
-- The column statistics of a segment in src/storage/manifest/codec.rs, one for each field of the schema.
use adelie.Base.{ℕ, ◌≡◌, ◌≤◌, refl, arith, List, length, true, not, ◌==◌, Option, none, some}
use adelie.Wire.{ok, ◌>>=◌, ◌>>◌, fail_if, IsU64, max_decode_rows}
use adelie.Wire.Cursor.{Cursor, remaining}
use adelie.Wire.Cursor
use adelie.Wire.Trips.{
  Trips, Writer, Reader, field_then, last_field, map_err, map_err-Trips, record_of, ◌⊳◌,
}
use adelie.Wire.Trips.Fields.{in_record-Trips}
use adelie.Wire.Trips.Zip.{write_zip, read_zip, Pairwise, length-Pairwise, zip_then-Trips}
use adelie.Types.{DataType, Value}
use adelie.Segment.Values.{encode_opt, decode_opt, opt_value-Trips, IsValue, no_list}
use adelie.Manifest.{SchemaField, ColumnStats}
use adelie.Manifest.Codec.{
  Error, corrupt, stats_arity, wire_error, put_uvarint, get_uvarint, uvarint_field, get_record,
  IsFew,
}

-- The bounds of a column that are written: LIST has none.
abbrev pub stats_value : DataType → Option Value → Option Value
stats_value (DataType.list elem) v = none
stats_value ty v = v

abbrev put_value : DataType → Option Value → Writer
put_value ty v = encode_opt (stats_value ty v) ty

abbrev get_value : DataType → Reader Error (Option Value)
get_value ty c = map_err wire_error (decode_opt ty c)

unfoldable pub encode_stats : SchemaField → ColumnStats → Writer
encode_stats f s =
    put_uvarint s.rows
    ⊳ put_uvarint s.null_count
    ⊳ put_value f.field.ty s.min
    ⊳ put_value f.field.ty s.max

-- Without the check of the lengths, which a release build leaves out.
unfoldable pub encode_columns : List ColumnStats → List SchemaField → Writer
encode_columns columns schema =
    put_uvarint (length columns) ⊳ write_zip (λ f s. record_of (encode_stats f s)) columns schema

unfoldable pub decode_stats : SchemaField → Reader Error ColumnStats
decode_stats f c = do
  (rows, c1) ← get_uvarint c
  (null_count, c2) ← get_uvarint c1
  (min, c3) ← get_value f.field.ty c2
  (max, c4) ← get_value f.field.ty c3
  ok (record { rows = rows; null_count = null_count; min = min; max = max }, c4)

-- What is in the record of the statistics.
unfoldable pub decode_columns : List SchemaField → Reader Error (List ColumnStats)
decode_columns schema c = do
  (n, c1) ← get_uvarint c
  n' ← map_err wire_error (Cursor.guard_len n 1 c1)
  fail_if (not (n' == length schema)) (corrupt (stats_arity n' (length schema)))
  read_zip (λ f. get_record (decode_stats f)) schema c1

pub record IsStats (f : SchemaField) (s : ColumnStats) : Type 0 where
  pub rows : IsU64 s.rows
  pub null_count : IsU64 s.null_count
  pub min : (v : Value) → s.min ≡ some v → IsValue v f.field.ty
  pub max : (v : Value) → s.max ≡ some v → IsValue v f.field.ty

stats_value_lem :
    (ty : DataType) (v : Option Value)
    → ((x : Value) → v ≡ some x → IsValue x ty)
    → stats_value ty v ≡ v
stats_value_lem (DataType.list elem) none h = refl
stats_value_lem (DataType.list elem) (some x) h = absurd (no_list x elem (h x refl))
stats_value_lem DataType.bool v h = refl
stats_value_lem DataType.int64 v h = refl
stats_value_lem DataType.uint64 v h = refl
stats_value_lem DataType.float64 v h = refl
stats_value_lem (DataType.decimal dt) v h = refl
stats_value_lem DataType.string v h = refl
stats_value_lem DataType.bytes v h = refl
stats_value_lem DataType.timestamp v h = refl
stats_value_lem DataType.date v h = refl
stats_value_lem DataType.uuid v h = refl
stats_value_lem DataType.ip v h = refl

put_value-Trips :
    (ty : DataType) (v : Option Value)
    → ((x : Value) → v ≡ some x → IsValue x ty)
    → Trips (put_value ty v) (get_value ty) v
put_value-Trips ty v h =
    rw (stats_value_lem ty v h) (map_err-Trips wire_error (opt_value-Trips v ty h))

stats-Trips :
    (f : SchemaField) (s : ColumnStats) → IsStats f s → Trips (encode_stats f s) (decode_stats f) s
unfolding encode_stats decode_stats
stats-Trips f s h = field_then _ (uvarint_field s.rows h.rows) (
    field_then _ (uvarint_field s.null_count h.null_count) (
      field_then _ (put_value-Trips f.field.ty s.min h.min)
        (last_field _ (λ c. refl) (put_value-Trips f.field.ty s.max h.max))))

abbrev pub IsColumns : List ColumnStats → List SchemaField → Type 0
IsColumns columns schema = Pairwise IsStats columns schema × IsFew columns

pub guard_len-one :
    (n : ℕ) (c : Cursor) → n ≤ max_decode_rows → n ≤ remaining c → Cursor.guard_len n 1 c ≡ ok n
unfolding Cursor.guard_len
guard_len-one n c few room = ground arith

pub columns-Trips :
    (columns : List ColumnStats) (schema : List SchemaField)
    → IsColumns columns schema
    → Trips (encode_columns columns schema) (decode_columns schema) columns
unfolding encode_columns decode_columns
columns-Trips columns schema (h, few) =
    (zip_then-Trips IsStats (λ f s p. in_record-Trips wire_error (stats-Trips f s p)) _ columns
      schema (uvarint_field (length columns) (omega arith)) h
      (λ c room. rw (guard_len-one (length columns) c few room, same)))
  where
    same : (length columns == length schema) ≡ true
    same = ground (arith, length-Pairwise IsStats columns schema h)
