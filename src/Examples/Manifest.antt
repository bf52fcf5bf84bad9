-- ===== src/Examples/Manifest.antt =====
-- A store with one table of two segments, and the commit of a compaction: it replaces one of them.
use adelie.Base.{arith, ℕ, ◌≡◌, refl, [], ◌∷◌, true, false, none}
use adelie.Base.Text.{bytes, text_eq, text_lt}
use adelie.Types.{DataType}
use adelie.Manifest.{
  TableName, ColumnStats, SegmentEntry, Manifest, Result, ok, err, panicked, empty, table, name_eq,
  name_lt, is_path_component, references_segment, job_for,
}
use adelie.Manifest.Spec.{
  TableSpec, engine_rules, resolved_order_by, column, check_names_exist, check_no_duplicates,
  check_declared_once, check_clauses, validate,
}
use adelie.Manifest.Tables.{
  table_index, insert_table, number_fields, new_table, create_at, apply_create_table, fail_if_job,
}
use adelie.Manifest.Segments.{
  is_dir_from, is_dir, validate_new_segments, sort_segments, raise_next, schema_ids, add_at,
  apply_add_segments, in_garbage, release_one, release, remove_at, apply_remove_segments,
}
use adelie.Base.Search.{sort_by}
use adelie.Manifest.Commit.{Edit, Commit, apply, apply_edits, apply_edit}
use adelie.Manifest.Refs.Commits.{
  is_known, is_used_garbage, apply-keeps_known, apply-spares_used, apply-invents_none,
}

abbrev pub events : TableName
events = record { db = bytes "main"; name = bytes "events" }

abbrev pub events_spec : TableSpec
events_spec = record {
  name = events;
  columns = record { name = bytes "n"; ty = DataType.int64 } ∷ [];
  engine = bytes "append";
  key = [];
  version = none;
  order_by = bytes "n" ∷ [];
  partition_by = none;
  ttl = none;
  options = [];
}

abbrev stats : ColumnStats
stats = record { rows = 4; null_count = 0; min = none; max = none }

abbrev pub segment : ℕ → SegmentEntry
segment id = record {
  id = id;
  partition = bytes "_";
  seq = 1;
  rows = 4;
  bytes = 64;
  footer_crc = 7;
  columns = stats ∷ [];
  side_files = [];
  dir = bytes "main/0000000000000001";
  field_ids = 1 ∷ [];
  file_field_ids = [];
}

abbrev pub created : Commit
created = record {
  base = 0;
  edits =
      Edit.create_table events_spec ∷ Edit.add_segments events (segment 0 ∷ segment 1 ∷ []) ∷ [];
}

abbrev compaction : Commit
compaction = record {
  base = 1;
  edits = Edit.remove_segments events (0 ∷ []) ∷ Edit.add_segments events (segment 2 ∷ []) ∷ [];
}

abbrev pub or_empty : Result Manifest → Manifest
or_empty (ok m) = m
or_empty (err e) = empty
or_empty panicked = empty

abbrev pub before : Manifest
before = or_empty (apply created empty 10)

abbrev after : Manifest
after = or_empty (apply compaction before 20)

-- What the two commits compute: the compaction's input is garbage, and its output is used.
runs :
    (apply compaction before 20 ≡ ok after)
    × (is_known before 0 ≡ true)
    × (is_used_garbage before 0 ≡ false)
    × (is_known before 5 ≡ false)
    × (in_garbage after 0 ≡ true)
    × (references_segment after 2 ≡ true)
    × (before.next_segment_id ≡ 2)
    × (after.next_segment_id ≡ 3)
unfolding apply apply_edits apply_edit table name_eq name_lt is_path_component references_segment
    job_for engine_rules resolved_order_by column check_names_exist check_no_duplicates
    check_declared_once check_clauses validate table_index insert_table number_fields new_table
    create_at apply_create_table fail_if_job is_dir_from is_dir validate_new_segments sort_segments
    raise_next schema_ids add_at apply_add_segments in_garbage release_one release remove_at
    apply_remove_segments text_eq text_lt sort_by empty
runs = (refl, refl, refl, refl, refl, refl, refl, refl)

apply-keeps_known_example : is_known after 0 ≡ true
apply-keeps_known_example = apply-keeps_known 20 0 before after compaction runs.0 refl runs.1

apply-spares_used_example : is_used_garbage after 0 ≡ false
apply-spares_used_example =
    apply-spares_used 20 0 before after compaction runs.0 (omega arith) (λ k. refl) runs.2

apply-invents_none_example : is_known after 5 ≡ false
apply-invents_none_example = apply-invents_none 20 5 before after compaction runs.0 refl runs.3
