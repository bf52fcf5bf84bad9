-- ===== src/Manifest/Valid/Unique.antt =====
-- The ids of tables that the edits of src/storage/manifest/commit.rs hand out.
use adelie.Base.{ℕ, ◌+◌, ◌<◌, ◌≤◌, ◌≡◌, ◌^◌, refl, ap, ◌∙◌, subst, arith, List, [], ◌∷◌, set}
use adelie.Base.{◌==◌, some, get_elem?, succ_u64-room, Bool-cases, inl, inr}
use adelie.Base.Search.{
  sum_by, indicator, remove, sum_by-append, sum_by-remove, sum_by-set, sum_by-insert_at,
  sum_by-filter,
}
use adelie.Base.Each.{Each, Each-map}
use adelie.Manifest.{TableName, TableEntry, Manifest}
use adelie.Manifest.Tables.{insert_table, create_at, drop_at, undrop_at}
use adelie.Manifest.Segments.{
  add_at, remove_at, truncate_at, apply_expire_retired, apply_forget_garbage,
  apply_reserve_segment_ids,
}
use adelie.Manifest.Jobs.{create_job_at, advance_at, swap_at, cancel_at, revert_at}
use adelie.Manifest.Tombstones.{tombstone_at}
use adelie.Manifest.Commit.{Edit}
use adelie.Manifest.Step.{Step}
use adelie.Manifest.Refs.Release.{SameRest, release-SameRest, release_all-SameRest}
use adelie.Manifest.Refs.Kept.{new_table-MadeFrom}
use adelie.Manifest.Valid.{uses, IsLabelled}

-- How many ids of tables an edit takes.
abbrev pub creations : Edit → ℕ
creations (Edit.create_table spec) = 1
creations (Edit.create_job name ops) = 1
creations e = 0

-- From `u` uses of an id and the counter `next` to `u'` and `next'`, where `n` ids are handed out.
pub record Hands (id n u next u' next' : ℕ) : Type 0 where
  pub counter : next' ≡ next + n
  pub once : u' ≤ u + indicator (next == id)

abbrev HandsOver : ℕ → ℕ → Manifest → Manifest → Type 0
HandsOver id n m m' = Hands id n (uses id m) m.next_table_id (uses id m') m'.next_table_id

SameRest-Hands :
    (id : ℕ) (m n k : Manifest) → SameRest n k → HandsOver id 0 m n → HandsOver id 0 m k
SameRest-Hands id m n k s h = record {
  counter = s.next_table_id ∙ h.counter;
  once = rw (s.tables, s.retired, s.jobs) h.once;
}

module _ (id : ℕ) (m : Manifest) where
  -- A table comes in.
  insert_table-Hands :
      (k : ℕ) (n : Manifest) (t : TableEntry)
      → n.next_table_id ≡ m.next_table_id + k
      → uses id n + indicator (t.id == id) ≤ uses id m + indicator (m.next_table_id == id)
      → HandsOver id k m (insert_table n t)
  unfolding insert_table
  insert_table-Hands k n t same h = record {
    counter = same;
    once = omega (arith, h, sum_by-insert_at (λ t. indicator (t.id == id)) n.tables _ t);
  }

  -- A table gives way to one of the same id.
  set-Hands :
      (i : ℕ) (t u : TableEntry) (next : ℕ)
      → get_elem? m.tables i ≡ some t
      → u.id ≡ t.id
      → HandsOver id 0 m (record m { tables = set m.tables i u; next_segment_id = next })
  set-Hands i t u next here same = record {
    counter = omega arith;
    once = omega (
      arith,
      sum_by-set (λ t. indicator (t.id == id)) m.tables i t u here,
      ap (λ k. indicator (k == id)) same,
    );
  }

module _ (version now_ms id : ℕ) (m m' : Manifest) where
  reach : (k : ℕ) (n : Manifest) → n ≡ m' → HandsOver id k m n → HandsOver id k m m'
  reach k n e h = subst (λ n. HandsOver id k m n) e h

  pub Step-Hands :
      {e : Edit}
      → m.next_table_id + creations e < 2 ^ 64
      → Step version now_ms m m' e
      → HandsOver id (creations e) m m'
  unfolding create_at drop_at undrop_at add_at remove_at truncate_at apply_expire_retired
      apply_forget_garbage apply_reserve_segment_ids create_job_at advance_at swap_at cancel_at
      revert_at tombstone_at
  Step-Hands room (Step.create_table s t fresh makes e) =
      let r = new_table-MadeFrom s m.next_table_id t makes in
      reach 1 _ e (
        insert_table-Hands id m 1 _ _ (succ_u64-room m.next_table_id room)
          (omega (arith, ap (λ k. indicator (k == id)) r.id_same)))
  Step-Hands room (Step.add_segments name segments i t (here, named) e) =
      reach 0 _ e (set-Hands id m i t _ (add_at m i t segments).next_segment_id here refl)
  Step-Hands room (Step.remove_segments name ids i t (here, named) e) = reach 0 _ e (
      SameRest-Hands id m _ _ (release-SameRest _ name _ version now_ms)
        (set-Hands id m i t _ m.next_segment_id here refl))
  Step-Hands room (Step.add_tombstone name predicates stored i t (here, named) e) =
      reach 0 _ e (set-Hands id m i t _ m.next_segment_id here refl)
  Step-Hands room (Step.forget_garbage ids e) =
      reach 0 _ e (record { counter = omega arith; once = omega arith })
  Step-Hands room (Step.reserve_segment_ids next e) =
      reach 0 _ e (record { counter = omega arith; once = omega arith })
  Step-Hands room (Step.create_job name ops i t target (here, named) plans e) =
      reach 1 _ e (record {
        counter = succ_u64-room m.next_table_id room;
        once = omega (arith, sum_by-append (λ j. indicator (j.target.id == id)) m.jobs _);
      })
  Step-Hands room
        (Step.advance_job job reused rewritten carried segments i j k source here there carries e) =
      reach 0 _ e (record {
        counter = omega arith;
        once = omega (arith, sum_by-set (λ j. indicator (j.target.id == id)) m.jobs i j _ here);
      })
  Step-Hands room (Step.swap_job job i j k source tombstones here there same e) = reach 0 _ e (
      insert_table-Hands id m 0 _ _ (omega arith) (
        omega (
          arith,
          sum_by-remove (λ t. indicator (t.id == id)) m.tables k source there,
          sum_by-remove (λ j. indicator (j.target.id == id)) m.jobs i j here,
          sum_by-append (λ r. indicator (r.entry.id == id)) m.retired _,
        )))
  Step-Hands room (Step.cancel_job job i j here e) = reach 0 _ e (
      SameRest-Hands id m _ _ (release-SameRest _ j.target.name j.target.segments version now_ms)
        (record {
          counter = omega arith;
          once = omega (arith, sum_by-remove (λ j. indicator (j.target.id == id)) m.jobs i j here);
        }))
  Step-Hands room
        (Step.revert_table name k r i cur carried tombstones at_k swapped (here, named) carries e) =
      reach 0 _ e (
        insert_table-Hands id m 0 _ _ (omega arith) (
          omega (
            arith,
            sum_by-remove (λ t. indicator (t.id == id)) m.tables i cur here,
            sum_by-remove (λ r. indicator (r.entry.id == id)) m.retired k r at_k,
            sum_by-append (λ r. indicator (r.entry.id == id)) (remove m.retired k) _,
          )))
  Step-Hands room (Step.drop_table name i t (here, named) e) = reach 0 _ e (record {
    counter = omega arith;
    once = omega (
      arith,
      sum_by-remove (λ t. indicator (t.id == id)) m.tables i t here,
      sum_by-append (λ r. indicator (r.entry.id == id)) m.retired _,
    );
  })
  Step-Hands room (Step.undrop_table name k r at_k dropped fresh e) = reach 0 _ e (
      insert_table-Hands id m 0 _ _ (omega arith)
        (omega (arith, sum_by-remove (λ r. indicator (r.entry.id == id)) m.retired k r at_k)))
  Step-Hands room (Step.truncate_table name i t (here, named) e) = reach 0 _ e (
      SameRest-Hands id m _ _ (release-SameRest _ name t.segments version now_ms)
        (set-Hands id m i t _ m.next_segment_id here refl))
  Step-Hands room (Step.expire_retired before_ms e) = reach 0 _ e (
      SameRest-Hands id m _ _ (release_all-SameRest _ _ version now_ms) (record {
        counter = omega arith;
        once = omega (arith, sum_by-filter _ (λ r. indicator (r.entry.id == id)) m.retired);
      }))
  Step-Hands room (Step.record_migration name checksum fresh e) =
      reach 0 _ e (record { counter = omega arith; once = omega arith })

Below-uses :
    {A : Type 0} (id : A → ℕ) (next : ℕ) (xs : List A)
    → Each (λ x. id x < next) xs
    → sum_by (λ x. indicator (id x == next)) xs ≡ 0
Below-uses id next [] h = refl
Below-uses id next (x ∷ xs) (below, rest) = elim (Bool-cases (id x == next)) [
  | inl same ↦ absurd (ground (arith, same, below))
  | inr other ↦ rw other (omega (arith, Below-uses id next xs rest))
]

-- The next id is not in use.
pub Fresh-uses :
    (label : ℕ → TableName) (m : Manifest) → IsLabelled label m → uses m.next_table_id m ≡ 0
Fresh-uses label m v = omega (
  arith,
  Below-uses (λ t. t.id) m.next_table_id m.tables (Each-map _ _ (λ t h. h.1) m.tables v.tables),
  Below-uses (λ r. r.entry.id) m.next_table_id m.retired
      (Each-map _ _ (λ r h. h.1) m.retired v.retired),
  Below-uses (λ j. j.target.id) m.next_table_id m.jobs (Each-map _ _ (λ j h. h.0.1) m.jobs v.jobs),
)
