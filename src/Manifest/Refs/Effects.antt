-- ===== src/Manifest/Refs/Effects.antt =====
-- What the edits of src/storage/manifest/commit.rs do with the references to a segment and with its
-- garbage.
pub mod Jobs
use adelie.Base.{
  succ_u64, ℕ, ◌+◌, ◌≡◌, refl, ap, ◌∙◌, arith, List, [], ◌++◌, Bool, some, not, ◌==◌, get_elem?,
  set, ltb,
}
use adelie.Base.Search.{
  filter, remove, sum_by-append, sum_by-insert_at, sum_by-sort_by, sum_by-remove, sum_by-filter,
  indicator,
}
use adelie.Manifest.{TableName, SegmentEntry, TableEntry, Retired, Manifest, contains, dropped}
use adelie.Manifest.Tables.{insert_table, create_at, drop_at, undrop_at}
use adelie.Manifest.Segments.{sort_segments, add_at, remove_at, truncate_at, apply_expire_retired}
use adelie.Manifest.Refs.{seg_count, in_retired, refs, garb}
use adelie.Manifest.Refs.Release.{
  SameRest-refs, release-SameRest, release-Released, release_all-SameRest, release_all-Released,
}
use adelie.Manifest.Refs.Moves.{
  Moves, Moves-shift, Moves-release, in_tables-set, in_tables-remove, in_retired-push,
}

pub insert_table-refs :
    (id : ℕ) (m : Manifest) (t : TableEntry)
    → refs id (insert_table m t) ≡ refs id m + seg_count id t.segments
unfolding insert_table
insert_table-refs id m t =
    omega (arith, sum_by-insert_at (λ t. seg_count id t.segments) m.tables _ t)

pub insert_table-garb :
    (id : ℕ) (m : Manifest) (t : TableEntry) → garb id (insert_table m t) ≡ garb id m
unfolding insert_table
insert_table-garb id m t = refl

pub sort_segments-count :
    (id : ℕ) (segs : List SegmentEntry) → seg_count id (sort_segments segs) ≡ seg_count id segs
unfolding sort_segments
sort_segments-count id segs = sum_by-sort_by (λ s. indicator (s.id == id)) _ segs

pub seg_count-append :
    (id : ℕ) (xs ys : List SegmentEntry)
    → seg_count id (xs ++ ys) ≡ seg_count id xs + seg_count id ys
seg_count-append id xs ys = sum_by-append (λ s. indicator (s.id == id)) xs ys

module _ (f : Bool) (id : ℕ) (m : Manifest) where
  pub create_at-Moves :
      (t : TableEntry)
      → t.segments ≡ []
      → Moves f 0 (refs id m) (garb id m) (refs id (create_at m t)) (garb id (create_at m t))
  unfolding create_at
  create_at-Moves t none_yet =
      let m1 : Manifest = record m { next_table_id = succ_u64 m.next_table_id } in
      let e = insert_table-refs id m1 t in
      let z = ap (seg_count id) none_yet in
      Moves-shift f 0 (refs id m) (garb id m) _ _ (insert_table-garb id m1 t) (λ p. omega arith)
        (λ p. omega arith)

  pub add_at-Moves :
      (i : ℕ) (t : TableEntry) (segments : List SegmentEntry)
      → get_elem? m.tables i ≡ some t
      → Moves f
          (seg_count id segments)
          (refs id m)
          (garb id m)
          (refs id (add_at m i t segments))
          (garb id (add_at m i t segments))
  unfolding add_at
  add_at-Moves i t segments h =
      let e =
        in_tables-set id m.tables i t
          (record t { segments = sort_segments (t.segments ++ segments) }) h in
      let s =
        sort_segments-count id (t.segments ++ segments) ∙ seg_count-append id t.segments segments in
      Moves-shift f (seg_count id segments) (refs id m) (garb id m) _ _ refl (λ p. omega arith)
        (λ p. omega arith)

  pub remove_at-Moves :
      (name : TableName) (i : ℕ) (t : TableEntry) (ids : List ℕ) (version now_ms : ℕ)
      → get_elem? m.tables i ≡ some t
      → Moves f 0
          (refs id m)
          (garb id m)
          (refs id (remove_at m name i t ids version now_ms))
          (garb id (remove_at m name i t ids version now_ms))
  unfolding remove_at
  remove_at-Moves name i t ids version now_ms h =
      let kept = filter (λ s. not (contains ids s.id)) t.segments in
      let removed = filter (λ s. contains ids s.id) t.segments in
      let m1 : Manifest = record m { tables = set m.tables i (record t { segments = kept }) } in
      let e = in_tables-set id m.tables i t (record t { segments = kept }) h in
      let s = sum_by-filter (λ s. contains ids s.id) (λ s. indicator (s.id == id)) t.segments in
      let same = SameRest-refs m1 _ id (release-SameRest m1 name removed version now_ms) in
      rw same (
        Moves-release f (refs id m) (garb id m) (seg_count id removed) (refs id m1) _ (omega arith)
          (release-Released m1 name removed version now_ms id))

  pub truncate_at-Moves :
      (name : TableName) (i : ℕ) (t : TableEntry) (version now_ms : ℕ)
      → get_elem? m.tables i ≡ some t
      → Moves f 0
          (refs id m)
          (garb id m)
          (refs id (truncate_at m name i t version now_ms))
          (garb id (truncate_at m name i t version now_ms))
  unfolding truncate_at
  truncate_at-Moves name i t version now_ms h =
      let t1 : TableEntry = record t { segments = []; tombstones = [] } in
      let m1 : Manifest = record m { tables = set m.tables i t1 } in
      let e = in_tables-set id m.tables i t t1 h in
      let same = SameRest-refs m1 _ id (release-SameRest m1 name t.segments version now_ms) in
      rw same (
        Moves-release f (refs id m) (garb id m) (seg_count id t.segments) (refs id m1) _
          (omega arith) (release-Released m1 name t.segments version now_ms id))

  pub drop_at-Moves :
      (i : ℕ) (t : TableEntry) (version now_ms : ℕ)
      → get_elem? m.tables i ≡ some t
      → Moves f 0
          (refs id m)
          (garb id m)
          (refs id (drop_at m i t version now_ms))
          (garb id (drop_at m i t version now_ms))
  unfolding drop_at
  drop_at-Moves i t version now_ms h =
      let e = in_tables-remove id m.tables i t h in
      let gone : Retired = record {
        entry = t;
        reason = dropped;
        retired_at_ms = now_ms;
        version = version;
        successor_segments = [];
      } in
      let s = in_retired-push id m.retired gone in
      Moves-shift f 0 (refs id m) (garb id m) _ _ refl (λ p. omega (arith, s))
        (λ p. omega (arith, s))

  pub undrop_at-Moves :
      (k : ℕ) (r : Retired)
      → get_elem? m.retired k ≡ some r
      → Moves f 0 (refs id m) (garb id m) (refs id (undrop_at m k r)) (garb id (undrop_at m k r))
  unfolding undrop_at
  undrop_at-Moves k r h =
      let m1 : Manifest = record m { retired = remove m.retired k } in
      let e = insert_table-refs id m1 r.entry in
      let s = sum_by-remove (λ r. seg_count id r.entry.segments) m.retired k r h in
      Moves-shift f 0 (refs id m) (garb id m) _ _ (insert_table-garb id m1 r.entry)
        (λ p. omega arith) (λ p. omega arith)

  pub expire_retired-Moves :
      (before_ms version now_ms : ℕ)
      → Moves f 0
          (refs id m)
          (garb id m)
          (refs id (apply_expire_retired m before_ms version now_ms))
          (garb id (apply_expire_retired m before_ms version now_ms))
  unfolding apply_expire_retired
  expire_retired-Moves before_ms version now_ms =
      let expired = filter (λ r. ltb r.retired_at_ms before_ms) m.retired in
      let m1 : Manifest = record m {
        retired = filter (λ r. not (ltb r.retired_at_ms before_ms)) m.retired;
      } in
      let s =
        sum_by-filter (λ r. ltb r.retired_at_ms before_ms) (λ r. seg_count id r.entry.segments)
          m.retired in
      let same = SameRest-refs m1 _ id (release_all-SameRest m1 expired version now_ms) in
      rw same (
        Moves-release f (refs id m) (garb id m) (in_retired id expired) (refs id m1) _ (omega arith)
          (release_all-Released m1 expired version now_ms id))
