-- ===== src/Manifest/Codec/Definition.antt =====
-- The definition of a table in src/storage/manifest/codec.rs: its ids, key, clauses and options.
use adelie.Base.{
  arith, ℕ, ◌%◌, ◌^◌, ◌≡◌, refl, List, [], ◌∷◌, ◌++◌, Bool, false, not, ◌==◌, Option, none, some,
}
use Prim.Native.String.{String}
use adelie.Base.Each.{Each}
use adelie.Base.Search.{any}
use adelie.Wire.{Outcome, ok, ◌>>=◌, ◌>>◌, fail_if, IsU64}
use adelie.Wire.Trips.{Trips, Writer, Reader, field_then, last_field, checked, ◌⊳◌}
use adelie.Wire.Trips.Fields.{write_opt, read_opt, opt-Trips}
use adelie.Manifest.{PartitionBy, Ttl, SchemaField, TableEntry}
use adelie.Manifest.Codec.{
  Error, corrupt, zero_table_id, bad_tag, unknown_field_id, wire_error, put_uvarint, get_uvarint,
  uvarint_field, put_ids, get_ids, ids_field, IsFew,
}
use adelie.Manifest.Codec.Options.{Entry, encode_options, decode_options, IsOptions, options-Trips}

pub record Definition : Type 0 where
  pub id : ℕ
  pub next_field_id : ℕ
  pub key : List ℕ
  pub version : Option ℕ
  pub order_by : List ℕ
  pub partition_by : Option PartitionBy
  pub ttl : Option Ttl
  pub options : List Entry

abbrev pub absent : Definition
absent = record {
  id = 0;
  next_field_id = 0;
  key = [];
  version = none;
  order_by = [];
  partition_by = none;
  ttl = none;
  options = [];
}

-- A duration is written in nanoseconds, `as u64`.
abbrev put_partition : PartitionBy → Writer
put_partition p = put_uvarint p.column ⊳ put_uvarint (p.bucket % 2 ^ 64)

abbrev put_ttl : Ttl → Writer
put_ttl t = put_uvarint t.column ⊳ put_uvarint (t.after % 2 ^ 64)

unfoldable pub encode_definition : TableEntry → Writer
encode_definition t =
    put_uvarint t.id
    ⊳ put_uvarint t.next_field_id
    ⊳ put_ids t.key
    ⊳ write_opt put_uvarint t.version
    ⊳ put_ids t.order_by
    ⊳ write_opt put_partition t.partition_by
    ⊳ write_opt put_ttl t.ttl
    ⊳ encode_options t.options

abbrev get_partition : Reader Error PartitionBy
get_partition c = do
  (column, c1) ← get_uvarint c
  (bucket, c2) ← get_uvarint c1
  ok (record { column = column; bucket = bucket }, c2)

abbrev get_ttl : Reader Error Ttl
get_ttl c = do
  (column, c1) ← get_uvarint c
  (after, c2) ← get_uvarint c1
  ok (record { column = column; after = after }, c2)

abbrev tag_error : String → ℕ → Error
tag_error clause tag = corrupt (bad_tag clause tag)

-- What is in the record of the definition.
unfoldable pub decode_definition : Reader Error Definition
decode_definition c = do
  (id, c1) ← get_uvarint c
  fail_if (id == 0) (corrupt zero_table_id)
  (next_field_id, c2) ← get_uvarint c1
  (key, c3) ← get_ids c2
  (version, c4) ← read_opt wire_error (tag_error "VERSION") get_uvarint c3
  (order_by, c5) ← get_ids c4
  (partition_by, c6) ← read_opt wire_error (tag_error "PARTITION BY") get_partition c5
  (ttl, c7) ← read_opt wire_error (tag_error "TTL") get_ttl c6
  (options, c8) ← decode_options c7
  ok (
    record {
      id = id;
      next_field_id = next_field_id;
      key = key;
      version = version;
      order_by = order_by;
      partition_by = partition_by;
      ttl = ttl;
      options = options;
    },
    c8,
  )

abbrev of_option : {A : Type 0} → (A → ℕ) → Option A → List ℕ
of_option f none = []
of_option f (some a) = f a ∷ []

-- The field ids that a definition names, as far as there are any.
abbrev pub named_ids : Definition → List ℕ
named_ids def =
    def.key
    ++ def.order_by
    ++ of_option (λ id. id) def.version
    ++ of_option (λ p. p.column) def.partition_by
    ++ of_option (λ t. t.column) def.ttl

abbrev is_field_id : List SchemaField → ℕ → Bool
is_field_id schema id = any (λ f. f.id == id) schema

abbrev pub check_ids : List SchemaField → List ℕ → Outcome Error (Unit {0})
check_ids schema [] = ok tt
check_ids schema (id ∷ ids) = do
  fail_if (not (is_field_id schema id)) (corrupt (unknown_field_id id))
  check_ids schema ids

unfoldable pub check_definition_ids : Definition → List SchemaField → Outcome Error (Unit {0})
check_definition_ids def schema = check_ids schema (named_ids def)

-- The definition that a table's bytes stand for.
unfoldable pub definition_of : TableEntry → Definition
definition_of t = record {
  id = t.id;
  next_field_id = t.next_field_id;
  key = t.key;
  version = t.version;
  order_by = t.order_by;
  partition_by = t.partition_by;
  ttl = t.ttl;
  options = t.options;
}

pub record IsDefined (t : TableEntry) : Type 0 where
  pub id : IsU64 t.id
  pub some_id : (t.id == 0) ≡ false
  pub next_field_id : IsU64 t.next_field_id
  pub key : Each IsU64 t.key
  pub key_few : IsFew t.key
  pub version : (id : ℕ) → t.version ≡ some id → IsU64 id
  pub order_by : Each IsU64 t.order_by
  pub order_by_few : IsFew t.order_by
  pub partition_by : (p : PartitionBy) → t.partition_by ≡ some p → IsU64 p.column × IsU64 p.bucket
  pub ttl : (l : Ttl) → t.ttl ≡ some l → IsU64 l.column × IsU64 l.after
  pub options : IsOptions t.options

mod_u64 : (n : ℕ) → IsU64 n → n % 2 ^ 64 ≡ n
mod_u64 n h = omega (arith, h)

partition-Trips :
    (p : PartitionBy) → IsU64 p.column × IsU64 p.bucket → Trips (put_partition p) get_partition p
partition-Trips p h = rw (mod_u64 p.bucket h.1) (
    field_then _ (uvarint_field p.column h.0)
      (last_field _ (λ c. refl) (uvarint_field p.bucket h.1)))

ttl-Trips : (t : Ttl) → IsU64 t.column × IsU64 t.after → Trips (put_ttl t) get_ttl t
ttl-Trips t h = rw (mod_u64 t.after h.1) (
    field_then _ (uvarint_field t.column h.0)
      (last_field _ (λ c. refl) (uvarint_field t.after h.1)))

pub definition-Trips :
    (t : TableEntry) → IsDefined t → Trips (encode_definition t) decode_definition (definition_of t)
unfolding encode_definition decode_definition definition_of
definition-Trips t h = field_then _ (uvarint_field t.id h.id) (
    checked _ (rw h.some_id) (
      field_then _ (uvarint_field t.next_field_id h.next_field_id) (
        field_then _ (ids_field t.key h.key h.key_few) (
          field_then _
            (opt-Trips wire_error _ put_uvarint get_uvarint t.version
              (λ id e. uvarint_field id (h.version id e)))
            (field_then _ (ids_field t.order_by h.order_by h.order_by_few) (
              field_then _
                (opt-Trips wire_error _ put_partition get_partition t.partition_by
                  (λ p e. partition-Trips p (h.partition_by p e)))
                (field_then _
                  (opt-Trips wire_error _ put_ttl get_ttl t.ttl (λ l e. ttl-Trips l (h.ttl l e)))
                  (last_field _ (λ c. refl) (options-Trips t.options h.options)))))))))
