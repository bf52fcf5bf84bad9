-- ===== src/Manifest/Refs/Effects/Jobs.antt =====
-- What the edits of a migration in src/storage/manifest/commit.rs do with the references to a segment
-- and with its garbage.
use adelie.Base.{
  ℕ, ◌+◌, ◌%◌, ◌^◌, ◌<◌, ◌≤◌, ◌≡◌, refl, ap, ◌∙◌, arith, List, [], ◌∷◌, ◌++◌, Bool, some, get_elem?,
  max, length, map,
}
use adelie.Base.Search.{remove, sum_by-append, sum_by-remove, sum_by-set}
use adelie.Manifest.{Tombstone, SegmentEntry, TableEntry, Job, Retired, Manifest, swapped, reverted}
use adelie.Manifest.Segments.{sort_segments}
use adelie.Manifest.Jobs.{sort_ids, create_job_at, advance_at, swap_at, cancel_at, revert_at}
use adelie.Manifest.Refs.{seg_count, in_tables, refs, garb}
use adelie.Manifest.Refs.Release.{SameRest-refs, release-SameRest, release-Released}
use adelie.Manifest.Refs.Moves.{
  Moves, Moves-shift, Moves-release, in_tables-remove, in_retired-push,
}
use adelie.Manifest.Refs.Effects.{
  insert_table-refs, insert_table-garb, sort_segments-count, seg_count-append,
}

module _ (f : Bool) (id : ℕ) (m : Manifest) where
  pub create_job_at-Moves :
      (t target : TableEntry)
      → target.segments ≡ []
      → Moves f 0
          (refs id m)
          (garb id m)
          (refs id (create_job_at m t target))
          (garb id (create_job_at m t target))
  unfolding create_job_at
  create_job_at-Moves t target none_yet =
      let j : Job = record {
        id = m.next_job_id;
        source = t.id;
        snapshot = m.version;
        target = record target { id = m.next_table_id };
        handled = [];
        reused = 0;
        rewritten = 0;
      } in
      let s = sum_by-append (λ j. seg_count id j.target.segments) m.jobs (j ∷ []) in
      let z = ap (seg_count id) none_yet in
      Moves-shift f 0 (refs id m) (garb id m) _ _ refl (λ p. omega (arith, s))
        (λ p. omega (arith, s))

  pub advance_at-Moves :
      (i : ℕ) (j : Job) (reused rewritten : List ℕ) (carried segments : List SegmentEntry)
      → get_elem? m.jobs i ≡ some j
      → (0 < seg_count id carried → 0 < in_tables id m.tables)
      → Moves f
          (seg_count id segments)
          (refs id m)
          (garb id m)
          (refs id (advance_at m i j reused rewritten carried segments))
          (garb id (advance_at m i j reused rewritten carried segments))
  unfolding advance_at
  advance_at-Moves i j reused rewritten carried segments h from =
      let built = sort_segments (j.target.segments ++ (carried ++ segments)) in
      let advanced : Job = record j {
        target = record j.target { segments = built };
        handled = sort_ids (j.handled ++ (reused ++ rewritten));
        reused = (j.reused + length reused) % 2 ^ 64;
        rewritten = (j.rewritten + length rewritten) % 2 ^ 64;
      } in
      let e = sum_by-set (λ j. seg_count id j.target.segments) m.jobs i j advanced h in
      let s =
        sort_segments-count id (j.target.segments ++ (carried ++ segments))
        ∙ seg_count-append id j.target.segments (carried ++ segments) in
      let c = seg_count-append id carried segments in
      Moves-shift f (seg_count id segments) (refs id m) (garb id m) _ _ refl
        (λ p. ground (arith, e)) (λ p. ground (arith, e, from))

  pub swap_at-Moves :
      (i : ℕ) (j : Job) (k : ℕ) (source : TableEntry) (tombstones : List Tombstone)
      (version now_ms : ℕ)
      → get_elem? m.jobs i ≡ some j
      → get_elem? m.tables k ≡ some source
      → Moves f 0
          (refs id m)
          (garb id m)
          (refs id (swap_at m i j k source tombstones version now_ms))
          (garb id (swap_at m i j k source tombstones version now_ms))
  unfolding swap_at
  swap_at-Moves i j k source tombstones version now_ms h h' =
      let e = in_tables-remove id m.tables k source h' in
      let gone : Retired = record {
        entry = source;
        reason = swapped;
        retired_at_ms = now_ms;
        version = version;
        successor_segments = sort_ids (map (λ s. s.id) j.target.segments);
      } in
      let s = in_retired-push id m.retired gone in
      let d = sum_by-remove (λ j. seg_count id j.target.segments) m.jobs i j h in
      let m1 : Manifest = record m {
        tables = remove m.tables k;
        jobs = remove m.jobs i;
        retired = m.retired ++ (gone ∷ []);
      } in
      let n = insert_table-refs id m1 (record j.target { tombstones = tombstones }) in
      Moves-shift f 0 (refs id m) (garb id m) _ _ (insert_table-garb id _ _)
        (λ p. omega (arith, s, n)) (λ p. omega (arith, s, n))

  pub cancel_at-Moves :
      (i : ℕ) (j : Job) (version now_ms : ℕ)
      → get_elem? m.jobs i ≡ some j
      → Moves f 0
          (refs id m)
          (garb id m)
          (refs id (cancel_at m i j version now_ms))
          (garb id (cancel_at m i j version now_ms))
  unfolding cancel_at
  cancel_at-Moves i j version now_ms h =
      let m1 : Manifest = record m { jobs = remove m.jobs i } in
      let d = sum_by-remove (λ j. seg_count id j.target.segments) m.jobs i j h in
      let same =
        SameRest-refs m1 _ id
          (release-SameRest m1 j.target.name j.target.segments version now_ms) in
      rw same (
        Moves-release f (refs id m) (garb id m) (seg_count id j.target.segments) (refs id m1) _
          (omega arith) (release-Released m1 j.target.name j.target.segments version now_ms id))

  pub revert_at-Moves :
      (k : ℕ) (r : Retired) (i : ℕ) (cur : TableEntry) (carried : List SegmentEntry)
      (tombstones : List Tombstone) (version now_ms : ℕ)
      → get_elem? m.retired k ≡ some r
      → get_elem? m.tables i ≡ some cur
      → seg_count id carried ≤ seg_count id cur.segments
      → Moves f 0
          (refs id m)
          (garb id m)
          (refs id (revert_at m k r i cur carried tombstones version now_ms))
          (garb id (revert_at m k r i cur carried tombstones version now_ms))
  unfolding revert_at
  revert_at-Moves k r i cur carried tombstones version now_ms h h' from =
      let e = in_tables-remove id m.tables i cur h' in
      let d = sum_by-remove (λ r. seg_count id r.entry.segments) m.retired k r h in
      let gone : Retired = record {
        entry = cur;
        reason = reverted;
        retired_at_ms = now_ms;
        version = version;
        successor_segments = [];
      } in
      let s = in_retired-push id (remove m.retired k) gone in
      let m1 : Manifest = record m {
        tables = remove m.tables i;
        retired = remove m.retired k ++ (gone ∷ []);
      } in
      let restored : TableEntry = record r.entry {
        next_field_id = max r.entry.next_field_id cur.next_field_id;
        segments = sort_segments (r.entry.segments ++ carried);
        tombstones = r.entry.tombstones ++ tombstones;
      } in
      let n = insert_table-refs id m1 restored in
      let c =
        sort_segments-count id (r.entry.segments ++ carried)
        ∙ seg_count-append id r.entry.segments carried in
      Moves-shift f 0 (refs id m) (garb id m) _ _ (insert_table-garb id _ _)
        (λ p. omega (arith, s, n)) (λ p. omega (arith, s, n))
