-- ===== src/Manifest/Ids.antt =====
-- src/storage/manifest/ids.rs: ids for what a manifest from before stable ids lacks.
pub mod Fill
pub mod Idempotent
use adelie.Base.{succ_u64, ℕ, ◌+◌, List, [], ◌∷◌, ◌++◌, map, max, ◌==◌, if◌then◌else◌, not, ◌&&◌}
use adelie.Base.Text.{Text, text_eq}
use adelie.Manifest.{TableName, SchemaField, SegmentEntry, TableEntry, Garbage, Manifest, ids_eq}
use adelie.Manifest.Spec.{is_nil}

-- `.max().unwrap_or(0)`
abbrev pub max_by {ℓ} : {A : Type ℓ} → (A → ℕ) → List A → ℕ
max_by f [] = 0
max_by f (x ∷ xs) = max (f x) (max_by f xs)

-- The first id to hand out.
abbrev pub first_free : ℕ → ℕ → ℕ
first_free next max_assigned = max (max next (succ_u64 max_assigned)) 1

-- The loops over the tables and over a schema, with `next`.
unfoldable pub fill {ℓ} : {A : Type ℓ} → (A → ℕ) → (A → ℕ → A) → ℕ → List A → List A × ℕ
fill id with_id next [] = ([], next)
fill id with_id next (x ∷ xs) =
    let rest = fill id with_id (if id x == 0 then succ_u64 next else next) xs in
    ((if id x == 0 then with_id x next else x) ∷ rest.0, rest.1)

abbrev pub fill_tables : ℕ → List TableEntry → List TableEntry × ℕ
fill_tables = fill (λ t. t.id) (λ t id. record t { id = id })

abbrev pub fill_fields : ℕ → List SchemaField → List SchemaField × ℕ
fill_fields = fill (λ f. f.id) (λ f id. record f { id = id })

unfoldable pub assign_field_ids : TableEntry → TableEntry
assign_field_ids t =
    let (schema, next) =
      fill_fields (first_free t.next_field_id (max_by (λ f. f.id) t.schema)) t.schema in
    record t { schema = schema; next_field_id = next }

-- `format!("{}/{}", db, name)`
abbrev pub legacy_dir : TableName → Text
legacy_dir n = n.db ++ (47 ∷ n.name)

unfoldable pub assign_segment_dir : Text → List ℕ → SegmentEntry → SegmentEntry
assign_segment_dir dir schema_ids s = record s {
  dir = if text_eq s.dir [] then dir else s.dir;
  field_ids = if ids_eq s.field_ids [] && not (is_nil s.columns) then schema_ids else s.field_ids;
}

unfoldable pub assign_segment_dirs : TableEntry → TableEntry
assign_segment_dirs t = record t {
  segments = map (assign_segment_dir (legacy_dir t.name) (map (λ f. f.id) t.schema)) t.segments;
}

unfoldable pub assign_garbage_dir : Garbage → Garbage
assign_garbage_dir g = record g {
  segment = record g.segment {
    dir = if text_eq g.segment.dir [] then legacy_dir g.table else g.segment.dir;
  };
}

unfoldable pub assign_missing : Manifest → Manifest
assign_missing m =
    let (tables, next) =
      fill_tables (first_free m.next_table_id (max_by (λ t. t.id) m.tables)) m.tables in
    record m {
      next_table_id = next;
      tables = map (λ t. assign_segment_dirs (assign_field_ids t)) tables;
      garbage = map assign_garbage_dir m.garbage;
    }
