-- ===== src/Manifest/Tombstones.antt =====
-- `add_tombstone` of src/storage/manifest/commit.rs.
use adelie.Base.{
  succ_u64, ℕ, List, [], ◌∷◌, ◌++◌, set, Bool, true, false, not, Option, none, some, if◌then◌else◌,
}
use adelie.Base.Search.{any, find}
use adelie.Types.{DataType, Value, is_null}
use adelie.Types.Fit.{coerce}
use adelie.Manifest.{
  TableEntry, TableName, SchemaField, Predicate, Job, Manifest, Detail, Result, ok, ◌>>=◌, ◌>>◌,
  fail_if, ok_or, is_some, collect, field, job_for, usage, job_running,
}
use adelie.Manifest.Alter.{named}
use adelie.Manifest.Tables.{table_index}

-- The value and type pairs that a segment can store.
unfoldable pub value_matches_type : Value → DataType → Bool
value_matches_type (Value.bool b) DataType.bool = true
value_matches_type (Value.int64 n) DataType.int64 = true
value_matches_type (Value.uint64 n) DataType.uint64 = true
value_matches_type (Value.float64 f) DataType.float64 = true
value_matches_type (Value.decimal d) (DataType.decimal dt) = true
value_matches_type (Value.string s) DataType.string = true
value_matches_type (Value.bytes b) DataType.bytes = true
value_matches_type (Value.timestamp t) DataType.timestamp = true
value_matches_type (Value.date d) DataType.date = true
value_matches_type (Value.uuid u) DataType.uuid = true
value_matches_type (Value.ip a) DataType.ip = true
value_matches_type v ty = false

-- `coerce(..).filter(..)`
abbrev pub stored_value : Value → DataType → Option Value
stored_value v ty = elim (coerce v ty) [
  | none ↦ none
  | some w ↦ if value_matches_type w ty then some w else none
]

unfoldable pub store_predicate : TableName → List SchemaField → Predicate → Result Predicate
store_predicate name schema p = do
  fail_if (is_null p.value) (usage name (Detail.null_predicate p.column))
  f ← ok_or (find (named p.column) schema) (usage name (Detail.unknown_column p.column))
  v ← ok_or (stored_value p.value f.field.ty) (usage name (Detail.unfit_predicate p.column))
  ok (record p { value = v })

-- Whether a predicate is on a column that the running job drops.
unfoldable pub on_dropped : List SchemaField → Job → Predicate → Bool
on_dropped schema j p = elim (find (named p.column) schema) [
  | none ↦ false
  | some f ↦ not (is_some (field j.target.schema f.id))
]

unfoldable pub fail_if_dropping :
    Manifest → TableName → List SchemaField → List Predicate → Result (Unit {0})
fail_if_dropping m name schema predicates = elim (job_for m name) [
  | none ↦ ok tt
  | some j ↦ fail_if (any (on_dropped schema j) predicates) (job_running name j.id)
]

unfoldable pub tombstone_at : Manifest → ℕ → TableEntry → List Predicate → Manifest
tombstone_at m idx t stored = record m {
  tables = set m.tables idx (record t {
    tombstones = t.tombstones ++ (record { seq = succ_u64 m.version; predicates = stored } ∷ []);
  });
}

unfoldable pub apply_add_tombstone : Manifest → TableName → List Predicate → Result Manifest
apply_add_tombstone m name predicates = do
  (idx, t) ← table_index m name
  fail_if_dropping m name t.schema predicates
  stored ← collect (store_predicate name t.schema) predicates
  ok (tombstone_at m idx t stored)
