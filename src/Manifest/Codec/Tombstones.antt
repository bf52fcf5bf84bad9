-- ===== src/Manifest/Codec/Tombstones.antt =====
-- Tombstones in src/storage/manifest/codec.rs.
use adelie.Base.{ℕ, ◌≡◌, refl, List, Option, none, some, ◌==◌, if◌then◌else◌}
use adelie.Base.Each.{Each}
use adelie.Base.Search.{find}
use adelie.Base.Text.{Text, text_eq}
use adelie.Wire.{ok, ◌>>=◌, ok_or, IsU64}
use adelie.Wire.Trips.{
  Trips, Writer, Reader, field_then, last_field, same_reader, map_err, map_err-Trips, record_of,
  ◌⊳◌,
}
use adelie.Wire.Trips.Fields.{in_record-Trips}
use adelie.Wire.Trips.Lists.{write_list}
use adelie.Types.{Value}
use adelie.Segment.Values.{encode_value, decode_value, value-Trips, IsValue}
use adelie.Manifest.{SchemaField, CmpOp, eq, ne, lt, le, gt, ge, Predicate, Tombstone}
use adelie.Manifest.Codec.{
  Error, corrupt, unknown_op, unknown_column, wire_error, put_str, get_str, str_field, put_u8,
  get_u8, u8_field, put_uvarint, get_uvarint, uvarint_field, get_record, get_list, list_field,
  IsFew, IsText,
}

abbrev pub cmp_op_id : CmpOp → ℕ
cmp_op_id eq = 0
cmp_op_id ne = 1
cmp_op_id lt = 2
cmp_op_id le = 3
cmp_op_id gt = 4
cmp_op_id ge = 5

abbrev pub cmp_op_from_id : ℕ → Option CmpOp
cmp_op_from_id id =
    if id == 0
    then some eq
    else if id == 1
    then some ne
    else if id == 2
    then some lt
    else if id == 3
    then some le
    else if id == 4
    then some gt
    else if id == 5
    then some ge
    else none

abbrev pub find_field : List SchemaField → Text → Option SchemaField
find_field schema column = find (λ f. text_eq f.field.name column) schema

-- The value of a predicate, under the type of its column; no such column is a panic.
abbrev put_typed : Option SchemaField → Value → Writer
put_typed none v buf = none
put_typed (some f) v buf = encode_value v f.field.ty buf

unfoldable pub encode_predicate : List SchemaField → Predicate → Writer
encode_predicate schema p =
    put_str p.column ⊳ put_u8 (cmp_op_id p.op) ⊳ put_typed (find_field schema p.column) p.value

abbrev get_typed : SchemaField → Reader Error Value
get_typed f c = map_err wire_error (decode_value f.field.ty c)

-- What is in the record of a predicate.
unfoldable pub decode_predicate : List SchemaField → Reader Error Predicate
decode_predicate schema c = do
  (column, c1) ← get_str c
  (op_byte, c2) ← get_u8 c1
  op ← ok_or (cmp_op_from_id op_byte) (corrupt (unknown_op op_byte))
  field ← ok_or (find_field schema column) (corrupt (unknown_column column))
  (value, c3) ← get_typed field c2
  ok (record { column = column; op = op; value = value }, c3)

unfoldable pub encode_tombstone : List SchemaField → Tombstone → Writer
encode_tombstone schema t =
    put_uvarint t.seq ⊳ write_list (λ p. record_of (encode_predicate schema p)) t.predicates

unfoldable pub decode_tombstone : List SchemaField → Reader Error Tombstone
decode_tombstone schema c = do
  (seq, c1) ← get_uvarint c
  (predicates, c2) ← get_list 1 (get_record (decode_predicate schema)) c1
  ok (record { seq = seq; predicates = predicates }, c2)

-- A predicate on a column of the schema, with a value of the column's type.
pub record IsPredicate (schema : List SchemaField) (p : Predicate) : Type 0 where
  pub column : IsText p.column
  pub field : SchemaField
  pub found : find_field schema p.column ≡ some field
  pub value : IsValue p.value field.field.ty

pub record IsTombstone (schema : List SchemaField) (t : Tombstone) : Type 0 where
  pub seq : IsU64 t.seq
  pub predicates : Each (IsPredicate schema) t.predicates
  pub few : IsFew t.predicates

cmp_op_lem : (op : CmpOp) → cmp_op_from_id (cmp_op_id op) ≡ some op
cmp_op_lem eq = refl
cmp_op_lem ne = refl
cmp_op_lem lt = refl
cmp_op_lem le = refl
cmp_op_lem gt = refl
cmp_op_lem ge = refl

typed-Trips :
    (schema : List SchemaField) (p : Predicate) (h : IsPredicate schema p)
    → Trips (put_typed (find_field schema p.column) p.value) (get_typed h.field) p.value
typed-Trips schema p h =
    rw h.found (map_err-Trips wire_error (value-Trips p.value h.field.field.ty h.value))

predicate-Trips :
    (schema : List SchemaField) (p : Predicate)
    → IsPredicate schema p
    → Trips (encode_predicate schema p) (decode_predicate schema) p
unfolding encode_predicate decode_predicate
predicate-Trips schema p h = field_then _ (str_field p.column h.column) (
    field_then _ (u8_field (cmp_op_id p.op)) (
      same_reader (λ c. rw (cmp_op_lem p.op, h.found) refl)
        (last_field (λ x. ok (record { column = p.column; op = p.op; value = x.0 }, x.1))
          (λ c. refl) (typed-Trips schema p h))))

pub tombstone-Trips :
    (schema : List SchemaField) (t : Tombstone)
    → IsTombstone schema t
    → Trips (encode_tombstone schema t) (decode_tombstone schema) t
unfolding encode_tombstone decode_tombstone
tombstone-Trips schema t h = field_then _ (uvarint_field t.seq h.seq) (
    last_field _ (λ c. refl)
      (list_field (IsPredicate schema)
        (λ p k. in_record-Trips wire_error (predicate-Trips schema p k)) t.predicates h.predicates
        h.few))
