-- ===== src/Manifest/Step/Sound.antt =====
-- `apply_edit` of src/storage/manifest/commit.rs and the steps of its edits.
use adelie.Base.{true, ltb, get_elem?, ◌==◌, ℕ, ◌≡◌, List, false, Option, none, some, refl}
use adelie.Base.Search.{position-some, rposition-some, filter}
use adelie.Base.Text.{Text}
use adelie.Manifest.{
  TableName, SegmentEntry, Predicate, TableEntry, Job, Manifest, ok, Detail, is_some, table, ok_or,
  collect, conflict, not_dropped, no_such_job, nothing_to_revert, migration_recorded,
}
use adelie.Manifest.Spec.{TableSpec, validate}
use adelie.Manifest.Alter.{Alter, plan_alter}
use adelie.Manifest.Tables.{
  table_named, table_index, table_index_by_id, new_table, apply_create_table, apply_drop_table,
  dropped_named, apply_undrop_table,
}
use adelie.Manifest.Segments.{apply_add_segments, apply_remove_segments, apply_truncate_table}
use adelie.Manifest.Jobs.{
  apply_create_job, job_index, source_index, reuse, apply_advance_job, apply_swap_job,
  apply_cancel_job, swapped_named, carry_back, apply_revert_table,
}
use adelie.Manifest.Tombstones.{apply_add_tombstone, store_predicate}
use adelie.Manifest.Commit.{Edit, apply_edit, apply_record_migration}
use adelie.Manifest.Results.{check_split, ok_split, ok-injective, ok_or-ok, fail_if-ok}
use adelie.Manifest.Step.{Step}
use adelie.Manifest.Refs.Moves.{table_index-ok}

is_some-false {ℓ} : {A : Type ℓ} (o : Option A) → is_some o ≡ false → o ≡ none
is_some-false none h = refl
is_some-false (some a) h = cc

module _ (m m' : Manifest) (version now_ms : ℕ) where
  create_table-Step :
      (s : TableSpec)
      → apply_create_table m s ≡ ok m'
      → Step version now_ms m m' (Edit.create_table s)
  unfolding apply_create_table
  create_table-Step s h =
      let (checks, h1) = check_split (validate s) _ h in
      let (fresh, h2) = check_split _ _ h1 in
      let (t, made, h3) = ok_split (new_table s m.next_table_id) _ h2 in
      Step.create_table s t (is_some-false (table m s.name) (fail_if-ok _ _ fresh)) made
        (ok-injective h3)

  add_segments-Step :
      (name : TableName) (segments : List SegmentEntry)
      → apply_add_segments m name segments ≡ ok m'
      → Step version now_ms m m' (Edit.add_segments name segments)
  unfolding apply_add_segments
  add_segments-Step name segments h =
      let ((i, t), found, h1) = ok_split (table_index m name) _ h in
      let (checks, h2) = check_split _ _ h1 in
      Step.add_segments name segments i t (table_index-ok m name i t found) (ok-injective h2)

  remove_segments-Step :
      (name : TableName) (ids : List ℕ)
      → apply_remove_segments m name ids version now_ms ≡ ok m'
      → Step version now_ms m m' (Edit.remove_segments name ids)
  unfolding apply_remove_segments
  remove_segments-Step name ids h =
      let ((i, t), found, h1) = ok_split (table_index m name) _ h in
      let (idle, h2) = check_split _ _ h1 in
      let (checks, h3) = check_split _ _ h2 in
      Step.remove_segments name ids i t (table_index-ok m name i t found) (ok-injective h3)

  truncate_table-Step :
      (name : TableName)
      → apply_truncate_table m name version now_ms ≡ ok m'
      → Step version now_ms m m' (Edit.truncate_table name)
  unfolding apply_truncate_table
  truncate_table-Step name h =
      let ((i, t), found, h1) = ok_split (table_index m name) _ h in
      let (idle, h2) = check_split _ _ h1 in
      Step.truncate_table name i t (table_index-ok m name i t found) (ok-injective h2)

  drop_table-Step :
      (name : TableName)
      → apply_drop_table m name version now_ms ≡ ok m'
      → Step version now_ms m m' (Edit.drop_table name)
  unfolding apply_drop_table
  drop_table-Step name h =
      let ((i, t), found, h1) = ok_split (table_index m name) _ h in
      let (idle, h2) = check_split _ _ h1 in
      Step.drop_table name i t (table_index-ok m name i t found) (ok-injective h2)

  undrop_table-Step :
      (name : TableName)
      → apply_undrop_table m name ≡ ok m'
      → Step version now_ms m m' (Edit.undrop_table name)
  unfolding apply_undrop_table
  undrop_table-Step name h =
      let ((k, r), found, h1) = ok_split (ok_or _ _) _ h in
      let (fresh, h2) = check_split _ _ h1 in
      let (at_k, passes) =
        rposition-some (dropped_named name) m.retired k r (ok_or-ok _ (not_dropped name) found) in
      Step.undrop_table name k r at_k passes (is_some-false (table m name) (fail_if-ok _ _ fresh))
        (ok-injective h2)

  add_tombstone-Step :
      (name : TableName) (predicates : List Predicate)
      → apply_add_tombstone m name predicates ≡ ok m'
      → Step version now_ms m m' (Edit.add_tombstone name predicates)
  unfolding apply_add_tombstone
  add_tombstone-Step name predicates h =
      let ((i, t), found, h1) = ok_split (table_index m name) _ h in
      let (idle, h2) = check_split _ _ h1 in
      let (stored, stores, h3) =
        ok_split (collect (store_predicate name t.schema) predicates) _ h2 in
      Step.add_tombstone name predicates stored i t (table_index-ok m name i t found)
        (ok-injective h3)

  create_job-Step :
      (name : TableName) (ops : List Alter)
      → apply_create_job m name ops ≡ ok m'
      → Step version now_ms m m' (Edit.create_job name ops)
  unfolding apply_create_job
  create_job-Step name ops h =
      let ((i, t), found, h1) = ok_split (table_index m name) _ h in
      let (idle, h2) = check_split _ _ h1 in
      let (target, plans, h3) = ok_split (plan_alter t ops) _ h2 in
      Step.create_job name ops i t target (table_index-ok m name i t found) plans (ok-injective h3)

  job_index-ok : (id i : ℕ) (j : Job) → job_index m id ≡ ok (i, j) → get_elem? m.jobs i ≡ some j
  unfolding job_index
  job_index-ok id i j h =
      (position-some (λ j. j.id == id) m.jobs i j (ok_or-ok _ (no_such_job id) h)).0

  source_index-ok :
      (j : Job) (k : ℕ) (t : TableEntry)
      → source_index m j ≡ ok (k, t)
      → (get_elem? m.tables k ≡ some t) × ((t.id == j.source) ≡ true)
  unfolding source_index table_index_by_id
  source_index-ok j k t h =
      position-some (λ t. t.id == j.source) m.tables k t
        (ok_or-ok _ (conflict j.target.name Detail.no_source) h)

  advance_job-Step :
      (id : ℕ) (reused rewritten : List ℕ) (segments : List SegmentEntry)
      → apply_advance_job m id reused rewritten segments ≡ ok m'
      → Step version now_ms m m' (Edit.advance_job id reused rewritten segments)
  unfolding apply_advance_job
  advance_job-Step id reused rewritten segments h =
      let ((i, j), found, h1) = ok_split (job_index m id) _ h in
      let ((k, source), found', h2) = ok_split (source_index m j) _ h1 in
      let (live, h3) = check_split _ _ h2 in
      let (valid, h4) = check_split _ _ h3 in
      let (carried, carries, h5) = ok_split (collect (reuse source j.target.schema) reused) _ h4 in
      Step.advance_job id reused rewritten carried segments i j k source (job_index-ok id i j found)
        (source_index-ok j k source found').0 carries (ok-injective h5)

  swap_job-Step :
      (id : ℕ)
      → apply_swap_job m id version now_ms ≡ ok m'
      → Step version now_ms m m' (Edit.swap_job id)
  unfolding apply_swap_job
  swap_job-Step id h =
      let ((i, j), found, h1) = ok_split (job_index m id) _ h in
      let ((k, source), found', h2) = ok_split (source_index m j) _ h1 in
      let (done, h3) = check_split _ _ h2 in
      let (tombstones, renames, h4) = ok_split (collect _ source.tombstones) _ h3 in
      Step.swap_job id i j k source tombstones (job_index-ok id i j found)
        (source_index-ok j k source found').0 (source_index-ok j k source found').1
        (ok-injective h4)

  cancel_job-Step :
      (id : ℕ)
      → apply_cancel_job m id version now_ms ≡ ok m'
      → Step version now_ms m m' (Edit.cancel_job id)
  unfolding apply_cancel_job
  cancel_job-Step id h =
      let ((i, j), found, h1) = ok_split (job_index m id) _ h in
      Step.cancel_job id i j (job_index-ok id i j found) (ok-injective h1)

  revert_table-Step :
      (name : TableName)
      → apply_revert_table m name version now_ms ≡ ok m'
      → Step version now_ms m m' (Edit.revert_table name)
  unfolding apply_revert_table
  revert_table-Step name h =
      let ((k, r), found, h1) = ok_split (ok_or _ _) _ h in
      let ((i, cur), found', h2) = ok_split (ok_or _ _) _ h1 in
      let (idle, h3) = check_split _ _ h2 in
      let (live, h4) = check_split _ _ h3 in
      let (carried, carries, h5) =
        ok_split (carry_back r.entry.schema r.successor_segments cur.segments) _ h4 in
      let (tombstones, renames, h6) =
        ok_split (collect _ (filter (λ t. ltb r.version t.seq) cur.tombstones)) _ h5 in
      let (at_k, passes) =
        rposition-some (swapped_named name) m.retired k r
          (ok_or-ok _ (nothing_to_revert name) found) in
      let at_i =
        position-some (table_named name) m.tables i cur
          (ok_or-ok _ (nothing_to_revert name) found') in
      Step.revert_table name k r i cur carried tombstones at_k passes at_i carries (ok-injective h6)

  record_migration-Step :
      (name : Text) (checksum : ℕ)
      → apply_record_migration m name checksum now_ms ≡ ok m'
      → Step version now_ms m m' (Edit.record_migration name checksum)
  unfolding apply_record_migration
  record_migration-Step name checksum h =
      let (fresh, h1) = check_split _ _ h in
      Step.record_migration name checksum (fail_if-ok _ (migration_recorded name) fresh)
        (ok-injective h1)

  pub apply_edit-Step :
      (e : Edit) → apply_edit m e version now_ms ≡ ok m' → Step version now_ms m m' e
  unfolding apply_edit
  apply_edit-Step (Edit.create_table s) h = create_table-Step s h
  apply_edit-Step (Edit.add_segments name segments) h = add_segments-Step name segments h
  apply_edit-Step (Edit.remove_segments name ids) h = remove_segments-Step name ids h
  apply_edit-Step (Edit.add_tombstone name predicates) h = add_tombstone-Step name predicates h
  apply_edit-Step (Edit.forget_garbage ids) h = Step.forget_garbage ids (ok-injective h)
  apply_edit-Step (Edit.reserve_segment_ids next) h = Step.reserve_segment_ids next (ok-injective h)
  apply_edit-Step (Edit.create_job name ops) h = create_job-Step name ops h
  apply_edit-Step (Edit.advance_job id reused rewritten segments) h =
      advance_job-Step id reused rewritten segments h
  apply_edit-Step (Edit.swap_job id) h = swap_job-Step id h
  apply_edit-Step (Edit.cancel_job id) h = cancel_job-Step id h
  apply_edit-Step (Edit.revert_table name) h = revert_table-Step name h
  apply_edit-Step (Edit.drop_table name) h = drop_table-Step name h
  apply_edit-Step (Edit.undrop_table name) h = undrop_table-Step name h
  apply_edit-Step (Edit.truncate_table name) h = truncate_table-Step name h
  apply_edit-Step (Edit.expire_retired before_ms) h = Step.expire_retired before_ms (ok-injective h)
  apply_edit-Step (Edit.record_migration name checksum) h = record_migration-Step name checksum h
