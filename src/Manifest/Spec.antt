-- ===== src/Manifest/Spec.antt =====
-- src/storage/manifest/spec.rs: a `CREATE TABLE` in waiting and the rules that it is checked by,
-- and `TableEntry::spec` of src/storage/manifest/mod.rs, which names a table's ids again.
pub mod Total
use Prim.Native.String.{String}
use adelie.Base.{ℕ, List, [], ◌∷◌, map, Bool, true, false, not, ◌&&◌, Option, none, some}
use adelie.Base.{◌==◌, if◌then◌else◌}
use adelie.Base.Search.{any, find}
use adelie.Base.Text.{Text, text_eq, text_lt, bytes}
use adelie.Types.{DataType}
use adelie.Manifest.{
  TableName, is_path_component, Field, SchemaField, PartitionBy, Ttl, TableEntry, field, Detail,
  Result, ok, ◌>>=◌, ◌>>◌, fail_if, ok_or, expect, is_some, check_all, usage, unknown_engine,
  key_required, key_not_allowed, key_not_sort_prefix, ids_eq,
}

pub record EngineRules : Type 0 where
  pub name : Text
  pub keyed : Bool
  pub version : Bool

abbrev pub engines : List EngineRules
engines =
    record { name = bytes "append"; keyed = false; version = false }
    ∷ record { name = bytes "latest"; keyed = true; version = true }
    ∷ record { name = bytes "rollup"; keyed = true; version = false }
    ∷ record { name = bytes "vector"; keyed = false; version = false }
    ∷ record { name = bytes "ledger"; keyed = true; version = false }
    ∷ []

unfoldable pub engine_rules : Text → Option EngineRules
engine_rules name = find (λ e. text_eq e.name name) engines

-- `options` is the entries of the map, ascending by key; a duration is in nanoseconds.
pub record TableSpec : Type 0 where
  pub name : TableName
  pub columns : List Field
  pub engine : Text
  pub key : List Text
  pub version : Option Text
  pub order_by : List Text
  pub partition_by : Option (Text × ℕ)
  pub ttl : Option (Text × ℕ)
  pub options : List (Text × Text)

-- `BTreeMap::insert`
unfoldable pub insert_option : List (Text × Text) → Text → Text → List (Text × Text)
insert_option [] k v = (k, v) ∷ []
insert_option ((j, w) ∷ m) k v =
    if text_eq j k
    then (k, v) ∷ m
    else if text_lt k j
    then (k, v) ∷ (j, w) ∷ m
    else (j, w) ∷ insert_option m k v

-- The loop `for (k, v) in options { spec = spec.with(k, v) }`.
unfoldable pub insert_options : List (Text × Text) → List (Text × Text) → List (Text × Text)
insert_options m [] = m
insert_options m ((k, v) ∷ rest) = insert_options (insert_option m k v) rest

abbrev pub is_nil {ℓ} : {A : Type ℓ} → List A → Bool
is_nil [] = true
is_nil (x ∷ xs) = false

abbrev pub is_keyed : Option EngineRules → Bool
is_keyed none = false
is_keyed (some r) = r.keyed

unfoldable pub resolved_order_by : TableSpec → List Text
resolved_order_by s =
    if is_nil s.order_by && (is_keyed (engine_rules s.engine) && not (is_nil s.key))
    then s.key
    else s.order_by

unfoldable pub column : TableSpec → Text → Option Field
column s name = find (λ c. text_eq c.name name) s.columns

unfoldable pub check_names_exist : TableSpec → String → List Text → Result (Unit {0})
check_names_exist s clause cols =
    check_all
      (λ c. fail_if (not (is_some (column s c))) (usage s.name (Detail.names_unknown clause c)))
      cols

abbrev pub among : Text → List Text → Bool
among c seen = any (λ d. text_eq d c) seen

-- The loops over `seen`, a set that a name is inserted into.
unfoldable pub check_no_duplicates : TableSpec → String → List Text → List Text → Result (Unit {0})
check_no_duplicates s clause seen [] = ok tt
check_no_duplicates s clause seen (c ∷ cols) =
    fail_if (among c seen) (usage s.name (Detail.names_twice clause c))
    >>= (λ _. check_no_duplicates s clause (c ∷ seen) cols)

unfoldable pub check_declared_once : TableName → List Text → List Field → Result (Unit {0})
check_declared_once name seen [] = ok tt
check_declared_once name seen (c ∷ cols) =
    fail_if (among c.name seen) (usage name (Detail.declared_twice c.name))
    >>= (λ _. check_declared_once name (c.name ∷ seen) cols)

abbrev pub is_timestamp : DataType → Bool
is_timestamp DataType.timestamp = true
is_timestamp ty = false

unfoldable pub check_timestamp_column : TableSpec → String → Text → Result (Unit {0})
check_timestamp_column s clause col = do
  f ← expect (column s col)
  fail_if (not (is_timestamp f.ty)) (usage s.name (Detail.not_timestamp clause col))

abbrev pub check_some {ℓ} : {A : Type ℓ} → Option A → (A → Result (Unit {0})) → Result (Unit {0})
check_some none f = ok tt
check_some (some a) f = f a

-- `resolved.len() >= key.len() && zip(key).all(==)`
unfoldable pub is_prefix : List Text → List Text → Bool
is_prefix [] resolved = true
is_prefix (k ∷ key) [] = false
is_prefix (k ∷ key) (r ∷ resolved) = if text_eq r k then is_prefix key resolved else false

-- Rule 9 for one clause: a TIMESTAMP column and a duration that is not zero.
unfoldable pub check_duration : TableSpec → String → Detail → Text × ℕ → Result (Unit {0})
check_duration s clause zero_detail (col, duration) = do
  check_timestamp_column s clause col
  fail_if (duration == 0) (usage s.name zero_detail)

-- The rules that read the engine's: 4 to 9.
unfoldable pub check_clauses : TableSpec → EngineRules → Result (Unit {0})
check_clauses s rules = do
  check_names_exist s "KEY" s.key
  check_no_duplicates s "KEY" [] s.key
  check_some s.version (λ v. check_names_exist s "VERSION" (v ∷ []))
  check_names_exist s "ORDER BY" s.order_by
  check_no_duplicates s "ORDER BY" [] s.order_by
  check_some s.partition_by (λ p. check_names_exist s "PARTITION BY" (p.0 ∷ []))
  check_some s.ttl (λ t. check_names_exist s "TTL" (t.0 ∷ []))
  fail_if (not (is_nil s.key) && not rules.keyed) (key_not_allowed s.name s.engine s.key)
  fail_if (is_nil s.key && rules.keyed) (key_required s.name s.engine)
  fail_if (is_some s.version && not rules.version) (usage s.name Detail.version_not_allowed)
  fail_if (not (is_nil s.key) && not (is_prefix s.key (resolved_order_by s)))
      (key_not_sort_prefix s.name s.key (resolved_order_by s))
  check_some s.partition_by (check_duration s "PARTITION BY" Detail.zero_bucket)
  check_some s.ttl (check_duration s "TTL" Detail.zero_ttl)

unfoldable pub validate : TableSpec → Result (Unit {0})
validate s = do
  fail_if (not (is_path_component s.name.db && is_path_component s.name.name))
      (usage s.name Detail.not_path_component)
  check_declared_once s.name [] s.columns
  rules ← ok_or (engine_rules s.engine) (unknown_engine s.name s.engine)
  check_clauses s rules

-- `name_of`: the name of a field id, or the empty text.
unfoldable pub name_of : List SchemaField → ℕ → Text
name_of schema id = elim (field schema id) [ none ↦ [] | some f ↦ f.field.name ]

abbrev pub clause_of : List SchemaField → Option PartitionBy → Option (Text × ℕ)
clause_of schema none = none
clause_of schema (some p) = some (name_of schema p.column, p.bucket)

abbrev pub ttl_of : List SchemaField → Option Ttl → Option (Text × ℕ)
ttl_of schema none = none
ttl_of schema (some t) = some (name_of schema t.column, t.after)

abbrev pub version_of : List SchemaField → Option ℕ → Option Text
version_of schema none = none
version_of schema (some v) = some (name_of schema v)

-- The builder calls that `spec` and `plan_alter` share: every id named through a schema.
unfoldable pub spec_with : TableEntry → List SchemaField → List Text → TableSpec
spec_with t schema order_by = record {
  name = t.name;
  columns = map (λ f. f.field) schema;
  engine = t.engine;
  key = map (name_of schema) t.key;
  version = version_of schema t.version;
  order_by = order_by;
  partition_by = clause_of schema t.partition_by;
  ttl = ttl_of schema t.ttl;
  options = insert_options [] t.options;
}

unfoldable pub spec : TableEntry → TableSpec
spec t =
    spec_with t t.schema (if ids_eq t.order_by t.key then [] else map (name_of t.schema) t.order_by)
