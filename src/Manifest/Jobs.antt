-- ===== src/Manifest/Jobs.antt =====
-- Migration jobs in src/storage/manifest/commit.rs: planning, carrying segments over, the swap, and
-- its reversal.
use adelie.Base.{
  ℕ, ◌+◌, ◌%◌, ◌^◌, succ_u64, List, [], ◌∷◌, ◌++◌, map, set, max, Bool, true, false, not, ◌&&◌,
  ◌||◌, none, some, length, ltb, ◌==◌,
}
use adelie.Base.Search.{find, position, rposition, filter, remove, sort_by}
use adelie.Base.Text.{Text}
use adelie.Manifest.{
  Retired, TableName, name_eq, SchemaField, SegmentEntry, Predicate, Tombstone, TableEntry, Job,
  RetireReason, Manifest, swapped, reverted, dropped, Error, Detail, Result, ok, err, ◌>>=◌, ◌>>◌,
  fail_if, ok_or, expect, collect, check_all, contains, field, has, project_onto, conflict, usage,
  revert_stale, no_such_job, nothing_to_revert,
}
use adelie.Manifest.Alter.{Alter, plan_alter, named}
use adelie.Manifest.Tables.{table_named, table_index, table_index_by_id, insert_table, fail_if_job}
use adelie.Manifest.Segments.{validate_new_segments, sort_segments, raise_next, schema_ids, release}

unfoldable pub create_job_at : Manifest → TableEntry → TableEntry → Manifest
create_job_at m t target = record m {
  next_table_id = succ_u64 m.next_table_id;
  next_job_id = succ_u64 m.next_job_id;
  jobs =
      m.jobs
      ++ (record {
        id = m.next_job_id;
        source = t.id;
        snapshot = m.version;
        target = record target { id = m.next_table_id };
        handled = [];
        reused = 0;
        rewritten = 0;
      }
          ∷ []);
}

unfoldable pub apply_create_job : Manifest → TableName → List Alter → Result Manifest
apply_create_job m name ops = do
  (idx, t) ← table_index m name
  fail_if_job m name
  target ← plan_alter t ops
  ok (create_job_at m t target)

unfoldable pub job_index : Manifest → ℕ → Result (ℕ × Job)
job_index m id = ok_or (position (λ j. j.id == id) m.jobs) (no_such_job id)

unfoldable pub source_index : Manifest → Job → Result (ℕ × TableEntry)
source_index m j = ok_or (table_index_by_id m j.source) (conflict j.target.name Detail.no_source)

-- A segment of the source as the target sees it.
unfoldable pub reuse : TableEntry → List SchemaField → ℕ → Result SegmentEntry
reuse source schema id = do
  s ← expect (find (λ s. s.id == id) source.segments)
  project_onto s schema

unfoldable pub sort_ids : List ℕ → List ℕ
sort_ids = sort_by (λ a b. ltb a b)

-- `carried` are the reused segments as the target sees them.
unfoldable pub advance_at :
    Manifest → ℕ → Job → List ℕ → List ℕ → List SegmentEntry → List SegmentEntry → Manifest
advance_at m job_idx j reused rewritten carried segments =
    let built = sort_segments (j.target.segments ++ (carried ++ segments)) in
    record m {
      jobs = set m.jobs job_idx (record j {
        target = record j.target { segments = built };
        handled = sort_ids (j.handled ++ (reused ++ rewritten));
        reused = (j.reused + length reused) % 2 ^ 64;
        rewritten = (j.rewritten + length rewritten) % 2 ^ 64;
      });
      next_segment_id = raise_next m.next_segment_id built;
    }

unfoldable pub apply_advance_job :
    Manifest → ℕ → List ℕ → List ℕ → List SegmentEntry → Result Manifest
apply_advance_job m job_id reused rewritten segments = do
  (job_idx, j) ← job_index m job_id
  (source_idx, source) ← source_index m j
  check_all
      (λ id.
        fail_if (not (has id source.segments) || contains j.handled id)
          (conflict source.name (Detail.handled_or_not_live id)))
      (reused ++ rewritten)
  validate_new_segments source.name (schema_ids j.target.schema) segments
  carried ← collect (reuse source j.target.schema) reused
  ok (advance_at m job_idx j reused rewritten carried segments)

-- A tombstone's predicate, its column renamed by field id from one schema to another; the two
-- errors are those of a column that either lacks.
unfoldable pub rename_predicate :
    List SchemaField
    → List SchemaField
    → (Text → Error)
    → (Text → Error)
    → Predicate
    → Result Predicate
rename_predicate from to unknown lost p = do
  f ← ok_or (find (named p.column) from) (unknown p.column)
  g ← ok_or (field to f.id) (lost p.column)
  ok (record p { column = g.field.name })

unfoldable pub rename_tombstone :
    List SchemaField
    → List SchemaField
    → (ℕ → Text → Error)
    → (ℕ → Text → Error)
    → Tombstone
    → Result Tombstone
rename_tombstone from to unknown lost t = do
  predicates ← collect (rename_predicate from to (unknown t.seq) (lost t.seq)) t.predicates
  ok (record { seq = t.seq; predicates = predicates })

unfoldable pub swap_at : Manifest → ℕ → Job → ℕ → TableEntry → List Tombstone → ℕ → ℕ → Manifest
swap_at m job_idx j source_idx source tombstones version now_ms =
    insert_table
      (record m {
        tables = remove m.tables source_idx;
        jobs = remove m.jobs job_idx;
        retired =
            m.retired
            ++ (record {
              entry = source;
              reason = swapped;
              retired_at_ms = now_ms;
              version = version;
              successor_segments = sort_ids (map (λ s. s.id) j.target.segments);
            }
                ∷ []);
      })
      (record j.target { tombstones = tombstones })

unfoldable pub fail_if_behind : Job → TableEntry → Result (Unit {0})
fail_if_behind j source = elim (find (λ s. not (contains j.handled s.id)) source.segments) [
  | none ↦ ok tt
  | some s ↦ err (conflict source.name (Detail.catch_up_incomplete s.id))
]

unfoldable pub apply_swap_job : Manifest → ℕ → ℕ → ℕ → Result Manifest
apply_swap_job m job_id version now_ms = do
  (job_idx, j) ← job_index m job_id
  (source_idx, source) ← source_index m j
  fail_if_behind j source
  tombstones ←
      collect
        (rename_tombstone source.schema j.target.schema
          (λ seq c. usage source.name (Detail.tombstone_unknown_column seq c))
          (λ seq c. usage source.name (Detail.tombstone_lost_column seq c)))
        source.tombstones
  ok (swap_at m job_idx j source_idx source tombstones version now_ms)

unfoldable pub cancel_at : Manifest → ℕ → Job → ℕ → ℕ → Manifest
cancel_at m job_idx j version now_ms =
    release (record m { jobs = remove m.jobs job_idx }) j.target.name j.target.segments version
      now_ms

unfoldable pub apply_cancel_job : Manifest → ℕ → ℕ → ℕ → Result Manifest
apply_cancel_job m job_id version now_ms = do
  (job_idx, j) ← job_index m job_id
  ok (cancel_at m job_idx j version now_ms)

abbrev pub is_swapped : RetireReason → Bool
is_swapped swapped = true
is_swapped reverted = false
is_swapped dropped = false

-- The segments of the replaced table that the swap did not put there, as the restored one sees them.
unfoldable pub carry_back :
    List SchemaField → List ℕ → List SegmentEntry → Result (List SegmentEntry)
carry_back schema successors segments =
    collect (λ s. project_onto s schema) (filter (λ s. not (contains successors s.id)) segments)

-- `carried` and `tombstones` are what the restored table takes over from the current one.
unfoldable pub revert_at :
    Manifest → ℕ → Retired → ℕ → TableEntry → List SegmentEntry → List Tombstone → ℕ → ℕ → Manifest
revert_at m r_idx r cur_idx cur carried tombstones version now_ms =
    insert_table
      (record m {
        tables = remove m.tables cur_idx;
        retired =
            remove m.retired r_idx
            ++ (record {
              entry = cur;
              reason = reverted;
              retired_at_ms = now_ms;
              version = version;
              successor_segments = [];
            }
                ∷ []);
      })
      (record r.entry {
        next_field_id = max r.entry.next_field_id cur.next_field_id;
        segments = sort_segments (r.entry.segments ++ carried);
        tombstones = r.entry.tombstones ++ tombstones;
      })

abbrev pub swapped_named : TableName → Retired → Bool
swapped_named name r = is_swapped r.reason && name_eq r.entry.name name

unfoldable pub apply_revert_table : Manifest → TableName → ℕ → ℕ → Result Manifest
apply_revert_table m name version now_ms = do
  (r_idx, r) ← ok_or (rposition (swapped_named name) m.retired) (nothing_to_revert name)
  (cur_idx, cur) ← ok_or (position (table_named name) m.tables) (nothing_to_revert name)
  fail_if_job m name
  check_all
      (λ id.
        fail_if (not (has id cur.segments)) (revert_stale name (Detail.compacted_since_swap id)))
      r.successor_segments
  carried ← carry_back r.entry.schema r.successor_segments cur.segments
  tombstones ←
      collect
        (rename_tombstone cur.schema r.entry.schema
          (λ seq c. revert_stale name (Detail.tombstone_unknown_column seq c))
          (λ seq c. revert_stale name (Detail.tombstone_lost_column seq c)))
        (filter (λ t. ltb r.version t.seq) cur.tombstones)
  ok (revert_at m r_idx r cur_idx cur carried tombstones version now_ms)
