-- ===== src/Manifest/Valid/Steps.antt =====
-- The steps of a commit of src/storage/manifest/commit.rs and well-formed manifests.
use adelie.Base.{
  succ_u64, succ_u64-room, ◌<◌, ◌^◌, ℕ, ◌+◌, ◌≡◌, refl, sym, ap, ◌∙◌, subst, arith, [], Bool, true,
  false, not, ◌&&◌,
}
use adelie.Manifest.Valid.Unique.{creations}
use adelie.Base.Search.{filter}
use adelie.Base.Each.{Each-filter}
use adelie.Manifest.{Manifest, table, contains}
use adelie.Manifest.Tables.{create_at, drop_at, undrop_at, is_dropped}
use adelie.Manifest.Segments.{
  add_at, remove_at, truncate_at, apply_expire_retired, apply_forget_garbage,
  apply_reserve_segment_ids,
}
use adelie.Manifest.Jobs.{create_job_at, advance_at, swap_at, cancel_at, revert_at, is_swapped}
use adelie.Manifest.Tombstones.{tombstone_at}
use adelie.Manifest.Commit.{Edit}
use adelie.Manifest.Step.{Step}
use adelie.Manifest.Ascending.{name_eq-true, find-Unnamed, Ascending-Unnamed}
use adelie.Manifest.Refs.Release.{release-SameRest, release_all-SameRest}
use adelie.Manifest.Refs.Kept.{new_table-MadeFrom, plan_alter-MadeFrom}
use adelie.Manifest.Valid.{IsLabelled, HasLabels, relabel, relabel-new, Label-relabel}
use adelie.Manifest.Valid.Labels.{
  SameRest-IsLabelled, set-IsLabelled, insert_table-IsLabelled, relabel-IsLabelled,
  remove_tables-IsLabelled, remove_retired-IsLabelled, remove_jobs-IsLabelled,
  push_retired-IsLabelled, set_jobs-IsLabelled, push_jobs-IsLabelled, table-Label, retired-Label,
  job-JobLabel,
}

and_right : (a b : Bool) → (a && b) ≡ true → b ≡ true
and_right true b h = h
and_right false b h = cc

module _ (version now_ms : ℕ) (m m' : Manifest) (v : HasLabels m) where
  same_label : (n : Manifest) → n ≡ m' → IsLabelled v.label n → HasLabels m'
  same_label n e h = subst HasLabels e (record { label = v.label; labelled = h })

  pub Step-HasLabels :
      {e : Edit}
      → m.next_table_id + creations e < 2 ^ 64
      → Step version now_ms m m' e
      → HasLabels m'
  unfolding create_at drop_at undrop_at add_at remove_at truncate_at apply_expire_retired table
      apply_forget_garbage apply_reserve_segment_ids create_job_at advance_at swap_at cancel_at
      revert_at tombstone_at
  Step-HasLabels room (Step.create_table s t fresh makes e) =
      let r = new_table-MadeFrom s m.next_table_id t makes in
      let label = relabel v.label m.next_table_id s.name in
      subst HasLabels e (record {
        label = label;
        labelled =
            insert_table-IsLabelled label _ (relabel-IsLabelled v.label m v.labelled s.name room) t
              (
                r.name_same ∙ sym (ap label r.id_same ∙ relabel-new v.label m.next_table_id s.name),
                omega (arith, r.id_same, succ_u64-room m.next_table_id room),
              )
              (rw r.name_same (find-Unnamed s.name m.tables fresh));
      })
  Step-HasLabels room (Step.add_segments name segments i t (here, named) e) =
      same_label _ e (set-IsLabelled v.label m v.labelled i t _ _ here refl refl)
  Step-HasLabels room (Step.remove_segments name ids i t (here, named) e) =
      let kept = filter (λ s. not (contains ids s.id)) t.segments in
      same_label _ e (
        SameRest-IsLabelled v.label _ _ (release-SameRest _ name _ version now_ms) (
          set-IsLabelled v.label m v.labelled i t (record t { segments = kept }) m.next_segment_id
            here refl refl))
  Step-HasLabels room (Step.add_tombstone name predicates stored i t (here, named) e) =
      same_label _ e (set-IsLabelled v.label m v.labelled i t _ m.next_segment_id here refl refl)
  Step-HasLabels room (Step.forget_garbage ids e) = same_label _ e (record {
    tables = v.labelled.tables;
    retired = v.labelled.retired;
    jobs = v.labelled.jobs;
    ascending = v.labelled.ascending;
  })
  Step-HasLabels room (Step.reserve_segment_ids next e) = same_label _ e (record {
    tables = v.labelled.tables;
    retired = v.labelled.retired;
    jobs = v.labelled.jobs;
    ascending = v.labelled.ascending;
  })
  Step-HasLabels room (Step.create_job name ops i t target (here, named) plans e) =
      let r = plan_alter-MadeFrom t ops target plans in
      let label = relabel v.label m.next_table_id t.name in
      let (t_named, t_old) =
        Label-relabel v.label m.next_table_id t.name t
          (table-Label v.label m v.labelled i t here) in
      subst HasLabels e (record {
        label = label;
        labelled =
            push_jobs-IsLabelled label _ (relabel-IsLabelled v.label m v.labelled t.name room) _
              (succ_u64 m.next_job_id)
              (
                (
                  r.name_same ∙ sym (relabel-new v.label m.next_table_id t.name),
                  omega (arith, succ_u64-room m.next_table_id room),
                ),
                r.name_same ∙ t_named,
                omega (arith, t_old, succ_u64-room m.next_table_id room),
              );
      })
  Step-HasLabels room
        (Step.advance_job job reused rewritten carried segments i j k source here there carries e) =
      same_label _ e (
        set_jobs-IsLabelled v.label m v.labelled i _ _ (job-JobLabel v.label m v.labelled i j here))
  Step-HasLabels room (Step.swap_job job i j k source tombstones here there same e) =
      let (target, j_named, j_old) = job-JobLabel v.label m v.labelled i j here in
      let s = table-Label v.label m v.labelled k source there in
      let id_same : source.id ≡ j.source = ground (arith, same) in
      let name_same = j_named ∙ sym (s.0 ∙ ap v.label id_same) in
      let l1 = remove_tables-IsLabelled v.label m v.labelled k in
      let l2 = remove_jobs-IsLabelled v.label _ l1 i in
      let l3 = push_retired-IsLabelled v.label _ l2 _ s in
      same_label _ e (
        insert_table-IsLabelled v.label _ l3 _ target
          (rw name_same (Ascending-Unnamed m.tables k source there v.labelled.ascending)))
  Step-HasLabels room (Step.cancel_job job i j here e) = same_label _ e (
      SameRest-IsLabelled v.label _ _
        (release-SameRest _ j.target.name j.target.segments version now_ms)
        (remove_jobs-IsLabelled v.label m v.labelled i))
  Step-HasLabels room
        (Step.revert_table name k r i cur carried tombstones at_k is_old (here, named) carries e) =
      let r_name = name_eq-true r.entry.name name (and_right (is_swapped r.reason) _ is_old) in
      let name_same = r_name ∙ sym (name_eq-true cur.name name named) in
      let l1 = remove_tables-IsLabelled v.label m v.labelled i in
      let l2 = remove_retired-IsLabelled v.label _ l1 k in
      let l3 =
        push_retired-IsLabelled v.label _ l2 _ (table-Label v.label m v.labelled i cur here) in
      same_label _ e (
        insert_table-IsLabelled v.label _ l3 _ (retired-Label v.label m v.labelled k r at_k)
          (rw name_same (Ascending-Unnamed m.tables i cur here v.labelled.ascending)))
  Step-HasLabels room (Step.drop_table name i t (here, named) e) = same_label _ e (
      push_retired-IsLabelled v.label _ (remove_tables-IsLabelled v.label m v.labelled i) _
        (table-Label v.label m v.labelled i t here))
  Step-HasLabels room (Step.undrop_table name k r at_k is_old fresh e) =
      let r_name = name_eq-true r.entry.name name (and_right (is_dropped r.reason) _ is_old) in
      same_label _ e (
        insert_table-IsLabelled v.label _ (remove_retired-IsLabelled v.label m v.labelled k) r.entry
          (retired-Label v.label m v.labelled k r at_k)
          (rw r_name (find-Unnamed name m.tables fresh)))
  Step-HasLabels room (Step.truncate_table name i t (here, named) e) = same_label _ e (
      SameRest-IsLabelled v.label _ _ (release-SameRest _ name t.segments version now_ms) (
        set-IsLabelled v.label m v.labelled i t (record t { segments = []; tombstones = [] })
          m.next_segment_id here refl refl))
  Step-HasLabels room (Step.expire_retired before_ms e) = same_label _ e (
      SameRest-IsLabelled v.label _ _ (release_all-SameRest _ _ version now_ms) (record {
        tables = v.labelled.tables;
        retired = Each-filter _ _ m.retired v.labelled.retired;
        jobs = v.labelled.jobs;
        ascending = v.labelled.ascending;
      }))
  Step-HasLabels room (Step.record_migration name checksum fresh e) = same_label _ e (record {
    tables = v.labelled.tables;
    retired = v.labelled.retired;
    jobs = v.labelled.jobs;
    ascending = v.labelled.ascending;
  })
