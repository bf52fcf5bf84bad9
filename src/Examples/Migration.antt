-- ===== src/Examples/Migration.antt =====
-- The store of Examples.Manifest with a running migration, which adds a column.
use adelie.Base.{
  arith, ◌+◌, ◌<◌, ◌≤◌, ◌^◌, true, false, map, ◌≡◌, refl, [], ◌∷◌, none, some, get_elem?,
}
use adelie.Manifest.Segments.{in_garbage}
use adelie.Manifest.Refs.Bounds.{IsBounded, apply-next_segment_id}
use adelie.Base.Text.{bytes, text_eq, text_lt}
use adelie.Base.Search.{sort_by}
use adelie.Types.{DataType}
use adelie.Manifest.{
  SchemaField, TableEntry, Job, Manifest, ok, table, empty, name_eq, name_lt, is_path_component,
  references_segment, job_for, fields, field,
}
use adelie.Manifest.Spec.{
  engine_rules, resolved_order_by, column, check_names_exist, check_no_duplicates,
  check_declared_once, check_clauses, validate, name_of, spec_with, spec, insert_options,
}
use adelie.Manifest.Alter.{Alter, add, plan_step, plan_steps, target_of, plan_alter}
use adelie.Manifest.Tables.{
  table_index, insert_table, number_fields, new_table, create_at, apply_create_table, fail_if_job,
  drop_at, apply_drop_table, apply_undrop_table,
}
use adelie.Manifest.Segments.{
  is_dir_from, is_dir, validate_new_segments, sort_segments, raise_next, schema_ids, add_at,
  apply_add_segments,
}
use adelie.Manifest.Jobs.{create_job_at, apply_create_job}
use adelie.Manifest.Commit.{Edit, Commit, apply, apply_edits, apply_edit}
use adelie.Manifest.Ids.{
  assign_missing, assign_field_ids, assign_segment_dirs, assign_segment_dir, fill,
}
use adelie.Manifest.Spec.Total.{panics}
use adelie.Manifest.Tables.Total.{apply_create_table-panics}
use adelie.Manifest.Valid.Undrop.{apply_undrop_table-apply_drop_table}
use adelie.Manifest.Valid.{IsValid, empty-IsValid}
use adelie.Manifest.Valid.Commits.{
  all_created, Reachable, apply-IsValid, Reachable-table, Reachable-id, Reachable-source,
}
use adelie.Examples.Manifest.{events_spec, events, segment, created, or_empty, before}

abbrev migration : Commit
migration = record {
  base = 1;
  edits =
      Edit.create_job events
        (Alter.add_column (record { name = bytes "s"; ty = DataType.string }) ∷ [])
      ∷ [];
}

abbrev migrating : Manifest
migrating = or_empty (apply migration before 30)

abbrev column_n : SchemaField
column_n = record { id = 1; field = record { name = bytes "n"; ty = DataType.int64 } }

abbrev column_s : SchemaField
column_s = record { id = 2; field = record { name = bytes "s"; ty = DataType.string } }

abbrev live : TableEntry
live = record {
  id = 1;
  name = events;
  engine = bytes "append";
  schema = column_n ∷ [];
  next_field_id = 2;
  key = [];
  version = none;
  order_by = 1 ∷ [];
  partition_by = none;
  ttl = none;
  options = [];
  segments = segment 0 ∷ segment 1 ∷ [];
  tombstones = [];
}

abbrev running : Job
running = record {
  id = 1;
  source = 1;
  snapshot = 1;
  target = record live {
    id = 2;
    schema = column_n ∷ column_s ∷ [];
    next_field_id = 3;
    segments = [];
  };
  handled = [];
  reused = 0;
  rewritten = 0;
}

runs :
    (apply created empty 10 ≡ ok before)
    × (apply migration before 30 ≡ ok migrating)
    × (get_elem? migrating.tables 0 ≡ some live)
    × (get_elem? migrating.jobs 0 ≡ some running)
unfolding apply apply_edits apply_edit table name_eq name_lt is_path_component references_segment
    job_for fields field engine_rules resolved_order_by column check_names_exist check_no_duplicates
    check_declared_once check_clauses validate name_of spec_with spec insert_options add plan_step
    plan_steps target_of plan_alter table_index insert_table number_fields new_table create_at
    apply_create_table fail_if_job is_dir_from is_dir validate_new_segments sort_segments raise_next
    schema_ids add_at apply_add_segments create_job_at apply_create_job text_eq text_lt sort_by
    empty
runs = (refl, refl, refl, refl)

abbrev migrating_reachable : Reachable migrating
migrating_reachable =
    Reachable.next before migrating migration 30
      (Reachable.next empty before created 10 Reachable.start runs.0) runs.1

apply-IsValid_example : IsValid before × (before.next_table_id ≡ 1 + 1)
unfolding empty
apply-IsValid_example = apply-IsValid 10 empty before created runs.0 (omega arith) empty-IsValid

empty-IsBounded : IsBounded empty
unfolding empty references_segment in_garbage
empty-IsBounded = record { small = omega arith; below = λ id k. absurd (clash k) }
  where
    clash : false ≡ true → ⊥
    clash k = cc

apply-next_segment_id_example : IsBounded before × (empty.next_segment_id ≤ before.next_segment_id)
apply-next_segment_id_example =
    apply-next_segment_id 10 empty before created runs.0
      (tt, ((omega arith, (omega arith, tt)), tt)) empty-IsBounded

few : all_created migrating_reachable + 1 < 2 ^ 64
unfolding all_created
few = omega arith

Reachable-table_example : table migrating events ≡ some live
Reachable-table_example = Reachable-table migrating 0 live migrating_reachable few runs.2

Reachable-id_example : live ≡ live
Reachable-id_example =
    Reachable-id migrating 0 0 live live migrating_reachable few runs.2 runs.2 refl

Reachable-source_example : events ≡ running.target.name
Reachable-source_example =
    Reachable-source migrating 0 0 running live migrating_reachable few runs.3 runs.2 refl

-- A manifest from before ids: one table without an id, whose column has none either.
abbrev legacy : Manifest
legacy = record empty {
  tables =
      record live {
        id = 0;
        schema = record { id = 0; field = column_n.field } ∷ [];
        next_field_id = 0;
        segments = record (segment 0) { dir = []; field_ids = [] } ∷ [];
      }
      ∷ [];
}

-- It gets the id 1 and its column too, and the segment the ids of the columns.
backfilled :
    (map (λ t. t.id) (assign_missing legacy).tables ≡ 1 ∷ [])
    × (map (λ t. schema_ids t.schema) (assign_missing legacy).tables ≡ (1 ∷ []) ∷ [])
    × (map (λ t. map (λ s. s.field_ids) t.segments) (assign_missing legacy).tables
        ≡ ((1 ∷ []) ∷ []) ∷ [])
unfolding assign_missing assign_field_ids assign_segment_dirs assign_segment_dir fill empty
    schema_ids text_eq
backfilled = (refl, refl, refl)

abbrev dropped_events : Manifest
dropped_events = or_empty (apply_drop_table before events 2 40)

drops : apply_drop_table before events 2 40 ≡ ok dropped_events
unfolding apply_drop_table drop_at apply apply_edits apply_edit table name_eq name_lt
    is_path_component references_segment job_for engine_rules resolved_order_by column
    check_names_exist check_no_duplicates check_declared_once check_clauses validate table_index
    insert_table number_fields new_table create_at apply_create_table fail_if_job is_dir_from is_dir
    validate_new_segments sort_segments raise_next schema_ids add_at apply_add_segments text_eq
    text_lt sort_by empty
drops = refl

apply_undrop_table-apply_drop_table_example : apply_undrop_table dropped_events events ≡ ok before
apply_undrop_table-apply_drop_table_example =
    apply_undrop_table-apply_drop_table before dropped_events events 2 40 apply-IsValid_example.0
      drops

apply_create_table-panics_example : panics (apply_create_table before events_spec) ≡ false
apply_create_table-panics_example = apply_create_table-panics before events_spec
