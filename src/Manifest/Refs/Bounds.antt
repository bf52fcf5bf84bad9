-- ===== src/Manifest/Refs/Bounds.antt =====
-- `next_segment_id` of a manifest: what the commits of src/storage/manifest/commit.rs
-- do with it.
use adelie.Base.{
  ◌^◌, ltb, lt→ltb, ltb→lt, succ_u64, ℕ, ◌+◌, ◌<◌, ◌≤◌, ◌≡◌, refl, sym, ap, ◌∙◌, subst, arith, List,
  [], ◌∷◌, ◌++◌, true,
}
use adelie.Base.Each.{Each}
use adelie.Manifest.Refs.Kept.{sum_by-at, reuse-count}
use adelie.Manifest.{Manifest, ok}
use adelie.Manifest.Tables.{insert_table, create_at, drop_at, undrop_at}
use adelie.Manifest.Segments.{
  sort_segments, add_at, remove_at, truncate_at, apply_expire_retired, apply_forget_garbage,
  apply_reserve_segment_ids,
}
use adelie.Manifest.Jobs.{create_job_at, advance_at, swap_at, cancel_at, revert_at}
use adelie.Manifest.Tombstones.{tombstone_at}
use adelie.Manifest.Commit.{Edit, Commit, apply_edit, apply_edits, apply}
use adelie.Manifest.Results.{ok_split, ok-injective}
use adelie.Manifest.Step.{Step}
use adelie.Manifest.Step.Sound.{apply_edit-Step}
use adelie.Manifest.Refs.{seg_count, refs, garb, references_segment-refs, in_garbage-garb}
use adelie.Manifest.Refs.Release.{release-SameRest, release_all-SameRest}
use adelie.Manifest.Refs.Effects.{sort_segments-count, seg_count-append}
use adelie.Manifest.Refs.Edits.{brought, Step-Moves}
use adelie.Manifest.Refs.Commits.{is_known}
use adelie.Manifest.Refs.Raise.{HasNext, count-HasNext, HasNext-count, Raises, raise_next-Raises}

-- What an edit brings are ids that leave room for the counter, and counters that are a `u64`.
abbrev pub IsInRange : Edit → Type 0
IsInRange (Edit.add_segments name segments) = Each HasNext segments
IsInRange (Edit.advance_job job reused rewritten segments) = Each HasNext segments
IsInRange (Edit.reserve_segment_ids next) = next < 2 ^ 64
IsInRange e = Unit

still : (next id next' : ℕ) → next' ≡ next → Raises next id 0 next'
still next id next' e = record {
  grows = omega arith;
  passes = λ p. omega (arith, p);
  small = λ p. omega (arith, p, e);
}

-- Every segment that a manifest names is below its counter, which is a `u64`.
abbrev AllBelow : Manifest → Type 0
AllBelow m =
    (m.next_segment_id < 2 ^ 64) × ((id : ℕ) → 0 < refs id m + garb id m → id < m.next_segment_id)

module _ (version now_ms id : ℕ) (m m' : Manifest) where
  next_same :
      (n : Manifest)
      → n ≡ m'
      → n.next_segment_id ≡ m.next_segment_id
      → Raises m.next_segment_id id 0 m'.next_segment_id
  next_same n e h =
      still m.next_segment_id id m'.next_segment_id (ap (λ n. n.next_segment_id) (sym e) ∙ h)

  reach :
      (a : ℕ) (n : Manifest)
      → n ≡ m'
      → Raises m.next_segment_id id a n.next_segment_id
      → Raises m.next_segment_id id a m'.next_segment_id
  reach a n e h = subst (λ n. Raises m.next_segment_id id a n.next_segment_id) e h

  Step-Raises :
      {e : Edit}
      → AllBelow m
      → IsInRange e
      → Step version now_ms m m' e
      → Raises m.next_segment_id id (brought id e) m'.next_segment_id
  unfolding create_at insert_table drop_at undrop_at add_at remove_at truncate_at
      apply_expire_retired apply_forget_garbage apply_reserve_segment_ids create_job_at advance_at
      swap_at cancel_at revert_at tombstone_at
  Step-Raises v range (Step.create_table s t fresh makes e) = next_same _ e refl
  Step-Raises v range (Step.add_segments name segments idx t (here, named) e) =
      let live = sort_segments (t.segments ++ segments) in
      let r = raise_next-Raises m.next_segment_id id live (
        count-HasNext live (λ i p. ground (
          arith,
          p,
          v.0,
          v.1 i,
          HasNext-count i segments range,
          sort_segments-count i (t.segments ++ segments),
          seg_count-append i t.segments segments,
          sum_by-at (λ t. seg_count i t.segments) m.tables idx t here,
        ))) in
      let c =
        sort_segments-count id (t.segments ++ segments) ∙ seg_count-append id t.segments segments in
      reach (seg_count id segments) _ e
        (record { grows = r.grows; passes = λ p. r.passes (omega (arith, c, p)); small = r.small })
  Step-Raises v range (Step.remove_segments name ids i t (here, named) e) =
      next_same _ e (release-SameRest _ name _ version now_ms).next_segment_id
  Step-Raises v range (Step.add_tombstone name predicates stored i t (here, named) e) =
      next_same _ e refl
  Step-Raises v range (Step.forget_garbage ids e) = next_same _ e refl
  Step-Raises v range (Step.reserve_segment_ids next e) = reach 0 _ e (record {
    grows = ground arith;
    passes = λ p. omega (arith, p);
    small = λ p. ground (arith, p, range);
  })
  Step-Raises v range (Step.create_job name ops i t target (here, named) plans e) =
      next_same _ e refl
  Step-Raises v range
        (Step.advance_job job reused rewritten carried segments i j k source here there carries e) =
      let all_new = j.target.segments ++ (carried ++ segments) in
      let r = raise_next-Raises m.next_segment_id id (sort_segments all_new) (
        count-HasNext (sort_segments all_new) (λ q p. ground (
          arith,
          p,
          v.0,
          v.1 q,
          HasNext-count q segments range,
          sort_segments-count q all_new,
          seg_count-append q j.target.segments (carried ++ segments),
          seg_count-append q carried segments,
          sum_by-at (λ j. seg_count q j.target.segments) m.jobs i j here,
          reuse-count q source j.target.schema reused carried carries,
          sum_by-at (λ t. seg_count q t.segments) m.tables k source there,
        ))) in
      let c =
        sort_segments-count id all_new
        ∙ seg_count-append id j.target.segments (carried ++ segments) in
      let c' = seg_count-append id carried segments in
      reach (seg_count id segments) _ e (record {
        grows = r.grows;
        passes = λ p. r.passes (omega (arith, c, c', p));
        small = r.small;
      })
  Step-Raises v range (Step.swap_job job i j k source tombstones here there same e) =
      next_same _ e refl
  Step-Raises v range (Step.cancel_job job i j here e) =
      next_same _ e
        (release-SameRest _ j.target.name j.target.segments version now_ms).next_segment_id
  Step-Raises v range
        (Step.revert_table name k r i cur carried tombstones at_k swapped (here, named) carries e) =
      next_same _ e refl
  Step-Raises v range (Step.drop_table name i t (here, named) e) = next_same _ e refl
  Step-Raises v range (Step.undrop_table name k r at_k dropped fresh e) = next_same _ e refl
  Step-Raises v range (Step.truncate_table name i t (here, named) e) =
      next_same _ e (release-SameRest _ name t.segments version now_ms).next_segment_id
  Step-Raises v range (Step.expire_retired before_ms e) =
      next_same _ e (release_all-SameRest _ _ version now_ms).next_segment_id
  Step-Raises v range (Step.record_migration name checksum fresh e) = next_same _ e refl

-- What an edit leaves below the counter.
Step-AllBelow :
    (version now_ms : ℕ) (m m' : Manifest) {e : Edit}
    → AllBelow m
    → IsInRange e
    → Step version now_ms m m' e
    → AllBelow m' × (m.next_segment_id ≤ m'.next_segment_id)
Step-AllBelow version now_ms m m' v range step =
    let raises = λ (id : ℕ). Step-Raises version now_ms id m m' v range step in
    (
      (
        (raises 0).small v.0,
        λ id p. ground (
          arith,
          p,
          (Step-Moves version now_ms id m m' step).known,
          (raises id).grows,
          (raises id).passes,
          v.1 id,
        ),
      ),
      (raises 0).grows,
    )

apply_edits-AllBelow :
    (version now_ms : ℕ) (m m' : Manifest) (edits : List Edit)
    → apply_edits m edits version now_ms ≡ ok m'
    → Each IsInRange edits
    → AllBelow m
    → AllBelow m' × (m.next_segment_id ≤ m'.next_segment_id)
unfolding apply_edits
apply_edits-AllBelow version now_ms m m' [] h range v =
    subst (λ n. AllBelow n × (m.next_segment_id ≤ n.next_segment_id)) (ok-injective h)
      (v, omega arith)
apply_edits-AllBelow version now_ms m m' (e ∷ edits) h (here, range) v =
    let (n, first, rest) = ok_split (apply_edit m e version now_ms) _ h in
    let (v1, up) =
      Step-AllBelow version now_ms m n v here (apply_edit-Step m n version now_ms e first) in
    let (v2, up') = apply_edits-AllBelow version now_ms n m' edits rest range v1 in
    (v2, omega (arith, up, up'))

-- `next_segment_id` is a `u64` above every segment that the manifest names.
pub record IsBounded (m : Manifest) : Type 0 where
  pub small : m.next_segment_id < 2 ^ 64
  pub below : (id : ℕ) → is_known m id ≡ true → id < m.next_segment_id

known-pos : (m : Manifest) (id : ℕ) → is_known m id ≡ ltb 0 (refs id m + garb id m)
known-pos m id = rw (references_segment-refs m id, in_garbage-garb m id) (ground arith)

-- A commit that succeeds keeps `next_segment_id` a `u64` above every segment that the manifest names,
-- and does not lower it, where the ids that the commit brings are below 2^64 - 1 and those that it
-- reserves are a `u64`.
pub apply-next_segment_id :
    (now_ms : ℕ) (m m' : Manifest) (c : Commit)
    → apply c m now_ms ≡ ok m'
    → Each IsInRange c.edits
    → IsBounded m
    → IsBounded m' × (m.next_segment_id ≤ m'.next_segment_id)
unfolding apply
apply-next_segment_id now_ms m m' c h range v =
    let (n, run, e) = ok_split (apply_edits m c.edits (succ_u64 m.version) now_ms) _ h in
    let (done, up) =
      apply_edits-AllBelow (succ_u64 m.version) now_ms m n c.edits run range
        (v.small, λ id p. v.below id (known-pos m id ∙ lt→ltb 0 _ p)) in
    subst (λ k. IsBounded k × (m.next_segment_id ≤ k.next_segment_id)) (ok-injective e)
      (
        record {
          small = done.0;
          below = λ id k.
              done.1 id
                (ltb→lt 0 _ (sym (known-pos (record n { version = succ_u64 m.version }) id) ∙ k));
        },
        up,
      )
