-- ===== src/Manifest/Step.antt =====
-- The edits of src/storage/manifest/commit.rs as steps from one manifest to the next: what the
-- checks of each edit have found, and what the edit then does.
pub mod Sound
use adelie.Base.{ℕ, ◌+◌, ◌≡◌, List, [], ◌∷◌, ◌++◌, get_elem?, ◌==◌, true, false}
use adelie.Base.{none, some}
use adelie.Base.Search.{any}
use adelie.Base.Text.{Text, text_eq}
use adelie.Manifest.{
  TableName, SegmentEntry, Predicate, Tombstone, TableEntry, Job, Retired, Manifest, ok, table,
  collect,
}
use adelie.Manifest.Spec.{TableSpec}
use adelie.Manifest.Alter.{Alter, plan_alter}
use adelie.Manifest.Tables.{table_named, new_table, create_at, drop_at, dropped_named, undrop_at}
use adelie.Manifest.Segments.{
  add_at, remove_at, truncate_at, apply_expire_retired, apply_forget_garbage,
  apply_reserve_segment_ids,
}
use adelie.Manifest.Jobs.{
  create_job_at, reuse, advance_at, swap_at, cancel_at, swapped_named, carry_back, revert_at,
}
use adelie.Manifest.Tombstones.{tombstone_at}
use adelie.Manifest.Commit.{Edit}

abbrev pub TableAt : Manifest → TableName → ℕ → TableEntry → Type 0
TableAt m name i t = (get_elem? m.tables i ≡ some t) × (table_named name t ≡ true)

abbrev pub JobAt : Manifest → ℕ → ℕ → Job → Type 0
JobAt m id i j = get_elem? m.jobs i ≡ some j

pub data Step (version now_ms : ℕ) (m m' : Manifest) : Edit → Type 0 where
  create_table :
      (s : TableSpec) (t : TableEntry)
      → table m s.name ≡ none
      → new_table s m.next_table_id ≡ ok t
      → create_at m t ≡ m'
      → Step version now_ms m m' (Edit.create_table s)
  add_segments :
      (name : TableName) (segments : List SegmentEntry) (i : ℕ) (t : TableEntry)
      → TableAt m name i t
      → add_at m i t segments ≡ m'
      → Step version now_ms m m' (Edit.add_segments name segments)
  remove_segments :
      (name : TableName) (ids : List ℕ) (i : ℕ) (t : TableEntry)
      → TableAt m name i t
      → remove_at m name i t ids version now_ms ≡ m'
      → Step version now_ms m m' (Edit.remove_segments name ids)
  add_tombstone :
      (name : TableName) (predicates stored : List Predicate) (i : ℕ) (t : TableEntry)
      → TableAt m name i t
      → tombstone_at m i t stored ≡ m'
      → Step version now_ms m m' (Edit.add_tombstone name predicates)
  forget_garbage :
      (ids : List ℕ)
      → apply_forget_garbage m ids ≡ m'
      → Step version now_ms m m' (Edit.forget_garbage ids)
  reserve_segment_ids :
      (next : ℕ)
      → apply_reserve_segment_ids m next ≡ m'
      → Step version now_ms m m' (Edit.reserve_segment_ids next)
  create_job :
      (name : TableName) (ops : List Alter) (i : ℕ) (t target : TableEntry)
      → TableAt m name i t
      → plan_alter t ops ≡ ok target
      → create_job_at m t target ≡ m'
      → Step version now_ms m m' (Edit.create_job name ops)
  advance_job :
      (id : ℕ) (reused rewritten : List ℕ) (carried segments : List SegmentEntry) (i : ℕ) (j : Job)
      (k : ℕ) (source : TableEntry)
      → JobAt m id i j
      → get_elem? m.tables k ≡ some source
      → collect (reuse source j.target.schema) reused ≡ ok carried
      → advance_at m i j reused rewritten carried segments ≡ m'
      → Step version now_ms m m' (Edit.advance_job id reused rewritten segments)
  swap_job :
      (id i : ℕ) (j : Job) (k : ℕ) (source : TableEntry) (tombstones : List Tombstone)
      → JobAt m id i j
      → get_elem? m.tables k ≡ some source
      → (source.id == j.source) ≡ true
      → swap_at m i j k source tombstones version now_ms ≡ m'
      → Step version now_ms m m' (Edit.swap_job id)
  cancel_job :
      (id i : ℕ) (j : Job)
      → JobAt m id i j
      → cancel_at m i j version now_ms ≡ m'
      → Step version now_ms m m' (Edit.cancel_job id)
  revert_table :
      (name : TableName) (k : ℕ) (r : Retired) (i : ℕ) (cur : TableEntry)
      (carried : List SegmentEntry) (tombstones : List Tombstone)
      → get_elem? m.retired k ≡ some r
      → swapped_named name r ≡ true
      → TableAt m name i cur
      → carry_back r.entry.schema r.successor_segments cur.segments ≡ ok carried
      → revert_at m k r i cur carried tombstones version now_ms ≡ m'
      → Step version now_ms m m' (Edit.revert_table name)
  drop_table :
      (name : TableName) (i : ℕ) (t : TableEntry)
      → TableAt m name i t
      → drop_at m i t version now_ms ≡ m'
      → Step version now_ms m m' (Edit.drop_table name)
  undrop_table :
      (name : TableName) (k : ℕ) (r : Retired)
      → get_elem? m.retired k ≡ some r
      → dropped_named name r ≡ true
      → table m name ≡ none
      → undrop_at m k r ≡ m'
      → Step version now_ms m m' (Edit.undrop_table name)
  truncate_table :
      (name : TableName) (i : ℕ) (t : TableEntry)
      → TableAt m name i t
      → truncate_at m name i t version now_ms ≡ m'
      → Step version now_ms m m' (Edit.truncate_table name)
  expire_retired :
      (before_ms : ℕ)
      → apply_expire_retired m before_ms version now_ms ≡ m'
      → Step version now_ms m m' (Edit.expire_retired before_ms)
  record_migration :
      (name : Text) (checksum : ℕ)
      → any (λ r. text_eq r.name name) m.migrations ≡ false
      → record m {
        migrations =
            m.migrations
            ++ (record { name = name; checksum = checksum; applied_at_ms = now_ms } ∷ []);
      }
        ≡ m'
      → Step version now_ms m m' (Edit.record_migration name checksum)
