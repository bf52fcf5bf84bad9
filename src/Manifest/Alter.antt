-- ===== src/Manifest/Alter.antt =====
-- src/storage/manifest/alter.rs: the planner of `ALTER TABLE`. `Alter` steps over a working copy of
-- the schema, the next field id and the names of ORDER BY.
use adelie.Base.{
  succ_u64, ℕ, List, [], ◌∷◌, ◌++◌, map, length, set, Bool, true, false, not, ◌&&◌, ◌||◌, Option,
  none, some, ◌==◌, if◌then◌else◌,
}
use adelie.Base.Search.{any, find, position, remove, sum_by}
use adelie.Base.Text.{Text, text_eq}
use adelie.Types.{DataType}
use adelie.Manifest.{
  Field, SchemaField, PartitionBy, Ttl, TableEntry, Tombstone, field, Detail, Result, ok, err,
  ◌>>=◌, ◌>>◌, fail_if, ok_or, expect, check_all, collect, contains, usage, fixed_column,
  column_in_tombstone, column_used_by_rollup, migration_not_built, ids_eq,
}
use adelie.Manifest.Spec.{spec, spec_with, resolved_order_by, validate, is_nil, among}

pub data Alter : Type 0 where
  add_column : Field → Alter
  drop_column : Text → Alter
  rename_column : Text → Text → Alter
  order_by : List Text → Alter
  partition_by : Option (Text × ℕ) → Alter
  set_type : Text → DataType → Alter

-- Rollups are not built: none uses a column.
unfoldable pub rollups_using : TableEntry → ℕ → List Text
rollups_using t f = []

-- The variables of the loop over the clauses.
pub record Plan : Type 0 where
  pub schema : List SchemaField
  pub next_field_id : ℕ
  pub order_by : List Text

abbrev pub named : Text → SchemaField → Bool
named c f = text_eq f.field.name c

abbrev pub has_column : List SchemaField → Text → Bool
has_column schema c = any (named c) schema

unfoldable pub add : TableEntry → Plan → Field → Result Plan
add source p f = do
  fail_if (has_column p.schema f.name) (usage source.name (Detail.column_exists f.name))
  ok (record p {
    schema = p.schema ++ (record { id = p.next_field_id; field = f } ∷ []);
    next_field_id = succ_u64 p.next_field_id;
  })

abbrev pub fail_if_rollup : TableEntry → ℕ → Text → Result (Unit {0})
fail_if_rollup source id c = elim (rollups_using source id) [
  | [] ↦ ok tt
  | rollup ∷ more ↦ err (column_used_by_rollup source.name c rollup)
]

abbrev is_version : Option ℕ → ℕ → Bool
is_version none id = false
is_version (some v) id = v == id

abbrev is_partition : Option PartitionBy → ℕ → Bool
is_partition none id = false
is_partition (some p) id = p.column == id

abbrev is_ttl : Option Ttl → ℕ → Bool
is_ttl none id = false
is_ttl (some t) id = t.column == id

-- The name that the tombstones of the source know a field by.
unfoldable pub original_name : TableEntry → ℕ → Text → Text
original_name source id c = elim (field source.schema id) [ none ↦ c | some f ↦ f.field.name ]

unfoldable pub tombstone_on : List Tombstone → Text → Option Tombstone
tombstone_on tombstones name = find (λ t. any (λ p. text_eq p.column name) t.predicates) tombstones

abbrev pub fail_if_tombstone : TableEntry → ℕ → Text → Result (Unit {0})
fail_if_tombstone source id c = elim (tombstone_on source.tombstones (original_name source id c)) [
  | none ↦ ok tt
  | some t ↦ err (column_in_tombstone source.name c t.seq)
]

unfoldable pub drop : TableEntry → Plan → Text → Result Plan
drop source p c = do
  (idx, f) ← ok_or (position (named c) p.schema) (usage source.name (Detail.unknown_column c))
  fail_if_rollup source f.id c
  fail_if (contains source.key f.id) (fixed_column source.name c "KEY")
  fail_if (is_version source.version f.id) (fixed_column source.name c "VERSION")
  fail_if (among c p.order_by) (usage source.name (Detail.in_order_by c))
  fail_if (is_partition source.partition_by f.id) (usage source.name (Detail.in_partition_by c))
  fail_if (is_ttl source.ttl f.id) (usage source.name (Detail.in_ttl c))
  fail_if_tombstone source f.id c
  ok (record p { schema = remove p.schema idx })

unfoldable pub rename : TableEntry → Plan → Text → Text → Result Plan
rename source p from to = do
  (idx, f) ← ok_or (position (named from) p.schema) (usage source.name (Detail.unknown_column from))
  fail_if (has_column p.schema to) (usage source.name (Detail.column_exists to))
  ok (record p {
    schema = set p.schema idx (record f { field = record { name = to; ty = f.field.ty } });
    order_by = map (λ n. if text_eq n from then to else n) p.order_by;
  })

unfoldable pub set_order_by : TableEntry → Plan → List Text → Result Plan
set_order_by source p cols = do
  check_all
      (λ c. fail_if (not (has_column p.schema c)) (usage source.name (Detail.order_by_unknown c)))
      cols
  ok (record p { order_by = cols })

unfoldable pub set_column_type : TableEntry → Plan → Text → Result Plan
set_column_type source p c = do
  f ← ok_or (find (named c) p.schema) (usage source.name (Detail.unknown_column c))
  fail_if_rollup source f.id c
  err (migration_not_built source.name "changing a column's type")

-- One round of the loop.
unfoldable pub plan_step : TableEntry → Plan → Alter → Result Plan
plan_step source p (Alter.add_column f) = add source p f
plan_step source p (Alter.drop_column c) = drop source p c
plan_step source p (Alter.rename_column from to) = rename source p from to
plan_step source p (Alter.order_by cols) = set_order_by source p cols
plan_step source p (Alter.partition_by clause) =
    err (migration_not_built source.name "PARTITION BY")
plan_step source p (Alter.set_type c ty) = set_column_type source p c

unfoldable pub plan_steps : TableEntry → Plan → List Alter → Result Plan
plan_steps source p [] = ok p
plan_steps source p (op ∷ ops) = plan_step source p op >>= (λ p'. plan_steps source p' ops)

abbrev pub id_named : List SchemaField → Text → Result ℕ
id_named schema c = expect (find (named c) schema) >>= (λ f. ok f.id)

-- What follows the loop: ORDER BY resolved to ids, and the target checked as a table of its own.
unfoldable pub target_of : TableEntry → Plan → Result TableEntry
target_of source p = do
  sort_ids ← collect (id_named p.schema) (resolved_order_by (spec_with source p.schema p.order_by))
  let target = record source {
    id = 0;
    schema = p.schema;
    next_field_id = p.next_field_id;
    order_by = sort_ids;
    segments = [];
    tombstones = [];
  }
  validate (spec target)
  ok target

unfoldable pub plan_alter : TableEntry → List Alter → Result TableEntry
plan_alter source ops = do
  fail_if (is_nil ops) (usage source.name Detail.no_clause)
  p ←
      plan_steps source
        (record {
          schema = source.schema;
          next_field_id = source.next_field_id;
          order_by = (spec source).order_by;
        })
        ops
  target_of source p

abbrev same_partition : Option PartitionBy → Option PartitionBy → Bool
same_partition none none = true
same_partition none (some q) = false
same_partition (some p) none = false
same_partition (some p) (some q) = p.column == q.column && p.bucket == q.bucket

unfoldable pub rewrites_segments : TableEntry → TableEntry → Bool
rewrites_segments source target =
    not (ids_eq source.order_by target.order_by)
    || not (same_partition source.partition_by target.partition_by)

pub record AlterPlan : Type 0 where
  pub segments : ℕ
  pub rewrites : ℕ
  pub rewrite_bytes : ℕ

unfoldable pub explain : TableEntry → TableEntry → AlterPlan
explain source target =
    let segments = length source.segments in
    if rewrites_segments source target
    then record {
      segments = segments;
      rewrites = segments;
      rewrite_bytes = sum_by (λ s. s.bytes) source.segments;
    }
    else record { segments = segments; rewrites = 0; rewrite_bytes = 0 }
