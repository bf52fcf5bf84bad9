-- ===== src/Manifest/Refs/Edits.antt =====
-- `apply` of src/storage/manifest/commit.rs and the segments.
use adelie.Base.{
  succ_u64, ℕ, ◌≡◌, refl, subst, arith, List, [], ◌∷◌, ◌++◌, Bool, true, false, some, not, ◌==◌,
  get_elem?, Bool-cases, inl, inr,
}
use adelie.Base.Search.{filter, sum_by-filter, indicator}
use adelie.Manifest.{Predicate, TableEntry, Garbage, Manifest, contains}
use adelie.Manifest.Segments.{apply_forget_garbage, apply_reserve_segment_ids}
use adelie.Manifest.Tombstones.{tombstone_at}
use adelie.Manifest.Commit.{Edit}
use adelie.Manifest.Step.{Step}
use adelie.Manifest.Refs.{seg_count, refs, garb, garb_count}
use adelie.Manifest.Refs.Moves.{Moves, Moves-shift, in_tables-set}
use adelie.Manifest.Refs.Kept.{
  sum_by-at, reuse-count, carry_back-count, new_table-MadeFrom, plan_alter-MadeFrom,
}
use adelie.Manifest.Refs.Effects.{
  create_at-Moves, add_at-Moves, remove_at-Moves, truncate_at-Moves, drop_at-Moves, undrop_at-Moves,
  expire_retired-Moves,
}
use adelie.Manifest.Refs.Effects.Jobs.{
  create_job_at-Moves, advance_at-Moves, swap_at-Moves, cancel_at-Moves, revert_at-Moves,
}

-- How often an edit brings the segment, and whether it forgets the segment's garbage.
abbrev pub brought : ℕ → Edit → ℕ
brought id (Edit.add_segments name segments) = seg_count id segments
brought id (Edit.advance_job job reused rewritten segments) = seg_count id segments
brought id e = 0

abbrev pub forgets : ℕ → Edit → Bool
forgets id (Edit.forget_garbage ids) = contains ids id
forgets id e = false

same_id :
    (a b : ℕ) (ids : List ℕ) → contains ids a ≡ true → contains ids b ≡ false → (a == b) ≡ false
same_id a b ids h k = elim (Bool-cases (a == b)) [
  | inl same ↦ let e : a ≡ b = ground arith in cc
  | inr other ↦ other
]

-- The garbage that is left after some is forgotten.
forget-garb :
    (ids : List ℕ) (id : ℕ) (gs : List Garbage)
    → contains ids id ≡ false
    → garb_count id (filter (λ g. not (contains ids g.segment.id)) gs) ≡ garb_count id gs
forget-garb ids id [] h = refl
forget-garb ids id (g ∷ gs) h = elim (Bool-cases (contains ids g.segment.id)) [
  | inl gone ↦
      rw (gone, same_id g.segment.id id ids gone h) (omega (arith, forget-garb ids id gs h))
  | inr stays ↦ rw stays (omega (arith, forget-garb ids id gs h))
]

forget_garbage-Moves :
    (ids : List ℕ) (id : ℕ) (m : Manifest)
    → Moves
        (contains ids id)
        0
        (refs id m)
        (garb id m)
        (refs id (apply_forget_garbage m ids))
        (garb id (apply_forget_garbage m ids))
unfolding apply_forget_garbage
forget_garbage-Moves ids id m =
    let less =
      sum_by-filter (λ g. not (contains ids g.segment.id)) (λ g. indicator (g.segment.id == id))
        m.garbage in
    record {
      kept = λ h p. omega (arith, forget-garb ids id m.garbage h, p);
      apart = λ s t p. s (omega (arith, p));
      known = λ p. omega (arith, p);
    }

tombstone_at-Moves :
    (f : Bool) (id : ℕ) (m : Manifest) (i : ℕ) (t : TableEntry) (stored : List Predicate)
    → get_elem? m.tables i ≡ some t
    → Moves f 0
        (refs id m)
        (garb id m)
        (refs id (tombstone_at m i t stored))
        (garb id (tombstone_at m i t stored))
unfolding tombstone_at
tombstone_at-Moves f id m i t stored h =
    let t' : TableEntry = record t {
      tombstones = t.tombstones ++ (record { seq = succ_u64 m.version; predicates = stored } ∷ []);
    } in
    let e = in_tables-set id m.tables i t t' h in
    Moves-shift f 0 (refs id m) (garb id m) _ _ refl (λ p. omega arith) (λ p. omega arith)

reserve-Moves :
    (f : Bool) (id : ℕ) (m : Manifest) (next : ℕ)
    → Moves f 0
        (refs id m)
        (garb id m)
        (refs id (apply_reserve_segment_ids m next))
        (garb id (apply_reserve_segment_ids m next))
unfolding apply_reserve_segment_ids
reserve-Moves f id m next =
    Moves-shift f 0 (refs id m) (garb id m) _ _ refl (λ p. p) (λ p. omega (arith, p))

module _ (version now_ms id : ℕ) (m m' : Manifest) where
  -- At the manifest that an edit computes, hence at the next one.
  reach :
      (f : Bool) (a : ℕ) (n : Manifest)
      → n ≡ m'
      → Moves f a (refs id m) (garb id m) (refs id n) (garb id n)
      → Moves f a (refs id m) (garb id m) (refs id m') (garb id m')
  reach f a n e h = subst (λ n. Moves f a (refs id m) (garb id m) (refs id n) (garb id n)) e h

  pub Step-Moves :
      {e : Edit}
      → Step version now_ms m m' e
      → Moves (forgets id e) (brought id e) (refs id m) (garb id m) (refs id m') (garb id m')
  Step-Moves (Step.create_table s t fresh makes e) =
      reach false 0 _ e
        (create_at-Moves false id m t (new_table-MadeFrom s m.next_table_id t makes).no_segments)
  Step-Moves (Step.add_segments name segments i t (here, named) e) =
      reach false (seg_count id segments) _ e (add_at-Moves false id m i t segments here)
  Step-Moves (Step.remove_segments name ids i t (here, named) e) =
      reach false 0 _ e (remove_at-Moves false id m name i t ids version now_ms here)
  Step-Moves (Step.add_tombstone name predicates stored i t (here, named) e) =
      reach false 0 _ e (tombstone_at-Moves false id m i t stored here)
  Step-Moves (Step.forget_garbage ids e) =
      reach (contains ids id) 0 _ e (forget_garbage-Moves ids id m)
  Step-Moves (Step.reserve_segment_ids next e) = reach false 0 _ e (reserve-Moves false id m next)
  Step-Moves (Step.create_job name ops i t target (here, named) plans e) =
      reach false 0 _ e (
        create_job_at-Moves false id m t target
          (plan_alter-MadeFrom t ops target plans).no_segments)
  Step-Moves
        (Step.advance_job job reused rewritten carried segments i j k source here there carries e) =
      reach false (seg_count id segments) _ e (
        advance_at-Moves false id m i j reused rewritten carried segments here (λ p. ground (
          arith,
          p,
          reuse-count id source j.target.schema reused carried carries,
          sum_by-at (λ t. seg_count id t.segments) m.tables k source there,
        )))
  Step-Moves (Step.swap_job job i j k source tombstones here there same e) =
      reach false 0 _ e (swap_at-Moves false id m i j k source tombstones version now_ms here there)
  Step-Moves (Step.cancel_job job i j here e) =
      reach false 0 _ e (cancel_at-Moves false id m i j version now_ms here)
  Step-Moves
        (Step.revert_table name k r i cur carried tombstones at_k swapped (here, named) carries e) =
      reach false 0 _ e (
        revert_at-Moves false id m k r i cur carried tombstones version now_ms at_k here
          (carry_back-count id r.entry.schema r.successor_segments cur.segments carried carries))
  Step-Moves (Step.drop_table name i t (here, named) e) =
      reach false 0 _ e (drop_at-Moves false id m i t version now_ms here)
  Step-Moves (Step.undrop_table name k r at_k dropped fresh e) =
      reach false 0 _ e (undrop_at-Moves false id m k r at_k)
  Step-Moves (Step.truncate_table name i t (here, named) e) =
      reach false 0 _ e (truncate_at-Moves false id m name i t version now_ms here)
  Step-Moves (Step.expire_retired before_ms e) =
      reach false 0 _ e (expire_retired-Moves false id m before_ms version now_ms)
  Step-Moves (Step.record_migration name checksum fresh e) =
      reach false 0 _ e
        (Moves-shift false 0 (refs id m) (garb id m) _ _ refl (λ p. p) (λ p. omega (arith, p)))
