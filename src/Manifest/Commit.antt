-- ===== src/Manifest/Commit.antt =====
-- `Commit` and `Edit` of src/storage/manifest/commit.rs. A failed edit, or a panic, is the result of
-- the whole commit, which leaves the current manifest as it is.
use adelie.Base.{succ_u64, ℕ, List, [], ◌∷◌, ◌++◌}
use adelie.Base.Search.{any}
use adelie.Base.Text.{Text, text_eq}
use adelie.Manifest.{
  TableName, SegmentEntry, Predicate, Manifest, Result, ok, ◌>>=◌, ◌>>◌, fail_if,
  migration_recorded,
}
use adelie.Manifest.Spec.{TableSpec}
use adelie.Manifest.Alter.{Alter}
use adelie.Manifest.Tables.{apply_create_table, apply_drop_table, apply_undrop_table}
use adelie.Manifest.Segments.{
  apply_add_segments, apply_remove_segments, apply_truncate_table, apply_expire_retired,
  apply_forget_garbage, apply_reserve_segment_ids,
}
use adelie.Manifest.Jobs.{
  apply_create_job, apply_advance_job, apply_swap_job, apply_cancel_job, apply_revert_table,
}
use adelie.Manifest.Tombstones.{apply_add_tombstone}

pub data Edit : Type 0 where
  create_table : TableSpec → Edit
  add_segments : TableName → List SegmentEntry → Edit
  remove_segments : TableName → List ℕ → Edit
  add_tombstone : TableName → List Predicate → Edit
  forget_garbage : List ℕ → Edit
  reserve_segment_ids : ℕ → Edit
  create_job : TableName → List Alter → Edit
  advance_job : ℕ → List ℕ → List ℕ → List SegmentEntry → Edit
  swap_job : ℕ → Edit
  cancel_job : ℕ → Edit
  revert_table : TableName → Edit
  drop_table : TableName → Edit
  undrop_table : TableName → Edit
  truncate_table : TableName → Edit
  expire_retired : ℕ → Edit
  record_migration : Text → ℕ → Edit

pub record Commit : Type 0 where
  pub base : ℕ
  pub edits : List Edit

unfoldable pub apply_record_migration : Manifest → Text → ℕ → ℕ → Result Manifest
apply_record_migration m name checksum now_ms = do
  fail_if (any (λ r. text_eq r.name name) m.migrations) (migration_recorded name)
  ok (record m {
    migrations =
        m.migrations ++ (record { name = name; checksum = checksum; applied_at_ms = now_ms } ∷ []);
  })

unfoldable pub apply_edit : Manifest → Edit → ℕ → ℕ → Result Manifest
apply_edit m (Edit.create_table spec) version now_ms = apply_create_table m spec
apply_edit m (Edit.add_segments name segments) version now_ms = apply_add_segments m name segments
apply_edit m (Edit.remove_segments name ids) version now_ms =
    apply_remove_segments m name ids version now_ms
apply_edit m (Edit.add_tombstone name predicates) version now_ms =
    apply_add_tombstone m name predicates
apply_edit m (Edit.forget_garbage ids) version now_ms = ok (apply_forget_garbage m ids)
apply_edit m (Edit.reserve_segment_ids next) version now_ms = ok (apply_reserve_segment_ids m next)
apply_edit m (Edit.create_job name ops) version now_ms = apply_create_job m name ops
apply_edit m (Edit.advance_job job reused rewritten segments) version now_ms =
    apply_advance_job m job reused rewritten segments
apply_edit m (Edit.swap_job job) version now_ms = apply_swap_job m job version now_ms
apply_edit m (Edit.cancel_job job) version now_ms = apply_cancel_job m job version now_ms
apply_edit m (Edit.revert_table name) version now_ms = apply_revert_table m name version now_ms
apply_edit m (Edit.drop_table name) version now_ms = apply_drop_table m name version now_ms
apply_edit m (Edit.undrop_table name) version now_ms = apply_undrop_table m name
apply_edit m (Edit.truncate_table name) version now_ms = apply_truncate_table m name version now_ms
apply_edit m (Edit.expire_retired before_ms) version now_ms =
    ok (apply_expire_retired m before_ms version now_ms)
apply_edit m (Edit.record_migration name checksum) version now_ms =
    apply_record_migration m name checksum now_ms

-- The loop of `Commit::apply`.
unfoldable pub apply_edits : Manifest → List Edit → ℕ → ℕ → Result Manifest
apply_edits m [] version now_ms = ok m
apply_edits m (e ∷ edits) version now_ms =
    apply_edit m e version now_ms >>= (λ m'. apply_edits m' edits version now_ms)

unfoldable pub apply : Commit → Manifest → ℕ → Result Manifest
apply c current now_ms = do
  next ← apply_edits current c.edits (succ_u64 current.version) now_ms
  ok (record next { version = succ_u64 current.version })
