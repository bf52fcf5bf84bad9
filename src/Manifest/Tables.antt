-- ===== src/Manifest/Tables.antt =====
-- The tables of a manifest in src/storage/manifest/commit.rs: finding and inserting one, and the
-- edits that create, drop and bring back a table. A vector's index is found with the element there.
pub mod Total
use adelie.Base.{
  succ_u64, ℕ, ◌+◌, List, [], ◌∷◌, ◌++◌, Bool, true, false, ◌&&◌, Option, none, some, length, ◌==◌,
}
use adelie.Base.Search.{position, rposition, remove, insert_at, partition_point}
use adelie.Base.Text.{Text}
use adelie.Manifest.{
  Retired, TableName, name_eq, name_lt, Field, SchemaField, TableEntry, RetireReason, Manifest,
  swapped, reverted, dropped, Detail, Result, ok, err, ◌>>=◌, ◌>>◌, fail_if, ok_or, is_some,
  collect, table, job_for, conflict, job_running, not_dropped,
}
use adelie.Manifest.Spec.{TableSpec, validate, resolved_order_by}
use adelie.Manifest.Alter.{id_named}

abbrev pub table_named : TableName → TableEntry → Bool
table_named name t = name_eq t.name name

unfoldable pub table_index : Manifest → TableName → Result (ℕ × TableEntry)
table_index m name = ok_or (position (table_named name) m.tables) (conflict name Detail.no_table)

unfoldable pub table_index_by_id : Manifest → ℕ → Option (ℕ × TableEntry)
table_index_by_id m id = position (λ t. t.id == id) m.tables

-- `tables.insert(partition_point(name <), entry)`
unfoldable pub insert_table : Manifest → TableEntry → Manifest
insert_table m t = record m {
  tables = insert_at m.tables (partition_point (λ u. name_lt u.name t.name) m.tables) t;
}

-- `columns.iter().enumerate()`, with the ids from 1.
unfoldable pub number_fields : ℕ → List Field → List SchemaField
number_fields id [] = []
number_fields id (f ∷ fs) = record { id = id; field = f } ∷ number_fields (id + 1) fs

abbrev pub optional {ℓ κ} :
    {A : Type ℓ} {B : Type κ} → (A → Result B) → Option A → Result (Option B)
optional f none = ok none
optional f (some a) = f a >>= (λ b. ok (some b))

unfoldable pub new_table : TableSpec → ℕ → Result TableEntry
new_table s id = do
  let schema = number_fields 1 s.columns
  key ← collect (id_named schema) s.key
  version ← optional (id_named schema) s.version
  order_by ← collect (id_named schema) (resolved_order_by s)
  partition_by ←
      optional
        (λ (p : Text × ℕ). id_named schema p.0 >>= (λ c. ok (record { column = c; bucket = p.1 })))
        s.partition_by
  ttl ←
      optional
        (λ (t : Text × ℕ). id_named schema t.0 >>= (λ c. ok (record { column = c; after = t.1 })))
        s.ttl
  ok (record {
    id = id;
    name = s.name;
    engine = s.engine;
    schema = schema;
    next_field_id = length schema + 1;
    key = key;
    version = version;
    order_by = order_by;
    partition_by = partition_by;
    ttl = ttl;
    options = s.options;
    segments = [];
    tombstones = [];
  })

-- What each edit does to the manifest, once its checks have passed, is a function `…_at` of what
-- the checks have found.
unfoldable pub create_at : Manifest → TableEntry → Manifest
create_at m t = insert_table (record m { next_table_id = succ_u64 m.next_table_id }) t

unfoldable pub apply_create_table : Manifest → TableSpec → Result Manifest
apply_create_table m s = do
  validate s
  fail_if (is_some (table m s.name)) (conflict s.name Detail.table_exists)
  t ← new_table s m.next_table_id
  ok (create_at m t)

unfoldable pub fail_if_job : Manifest → TableName → Result (Unit {0})
fail_if_job m name = elim (job_for m name) [ none ↦ ok tt | some j ↦ err (job_running name j.id) ]

unfoldable pub drop_at : Manifest → ℕ → TableEntry → ℕ → ℕ → Manifest
drop_at m idx t version now_ms = record m {
  tables = remove m.tables idx;
  retired =
      m.retired
      ++ (record {
        entry = t;
        reason = dropped;
        retired_at_ms = now_ms;
        version = version;
        successor_segments = [];
      }
          ∷ []);
}

unfoldable pub apply_drop_table : Manifest → TableName → ℕ → ℕ → Result Manifest
apply_drop_table m name version now_ms = do
  (idx, t) ← table_index m name
  fail_if_job m name
  ok (drop_at m idx t version now_ms)

abbrev pub is_dropped : RetireReason → Bool
is_dropped dropped = true
is_dropped swapped = false
is_dropped reverted = false

unfoldable pub undrop_at : Manifest → ℕ → Retired → Manifest
undrop_at m r_idx r = insert_table (record m { retired = remove m.retired r_idx }) r.entry

abbrev pub dropped_named : TableName → Retired → Bool
dropped_named name r = is_dropped r.reason && name_eq r.entry.name name

unfoldable pub apply_undrop_table : Manifest → TableName → Result Manifest
apply_undrop_table m name = do
  (r_idx, r) ← ok_or (rposition (dropped_named name) m.retired) (not_dropped name)
  fail_if (is_some (table m name)) (conflict name Detail.table_exists)
  ok (undrop_at m r_idx r)
