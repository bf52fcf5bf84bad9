-- ===== src/Manifest/Refs/Release.antt =====
-- `release` of src/storage/manifest/commit.rs: what it puts in the garbage, and that it changes
-- nothing else.
use adelie.Base.{ℕ, ◌+◌, ◌<◌, ◌≤◌, ◌≡◌, ap, ◌∙◌, arith, List, [], ◌∷◌}
use adelie.Base.{◌||◌, ◌==◌, Bool-cases, inl, inr}
use adelie.Base.Search.{indicator, sum_by-append}
use adelie.Manifest.{TableName, SegmentEntry, Manifest, Retired, references_segment}
use adelie.Manifest.Segments.{in_garbage, release_one, release, release_all}
use adelie.Manifest.Refs.{
  seg_count, in_retired, refs, garb, references_segment-refs, in_garbage-garb,
}

-- From `g` to `g'` entries of a segment that has `r` references and that `s` of the released are.
pub record Released (r g s g' : ℕ) : Type 0 where
  pub grows : g ≤ g'
  pub covers : r ≡ 0 → 0 < s → 0 < g'
  pub from : g < g' → (r ≡ 0) × (0 < s)

-- Everything but the garbage is as it was.
pub record SameRest (m m' : Manifest) : Type 0 where
  pub version : m'.version ≡ m.version
  pub next_segment_id : m'.next_segment_id ≡ m.next_segment_id
  pub next_table_id : m'.next_table_id ≡ m.next_table_id
  pub tables : m'.tables ≡ m.tables
  pub next_job_id : m'.next_job_id ≡ m.next_job_id
  pub jobs : m'.jobs ≡ m.jobs
  pub retired : m'.retired ≡ m.retired
  pub migrations : m'.migrations ≡ m.migrations

pub SameRest-refs : (m m' : Manifest) (id : ℕ) → SameRest m m' → refs id m' ≡ refs id m
SameRest-refs m m' id h = rw (h.tables, h.jobs, h.retired)

release_one-SameRest :
    (m : Manifest) (name : TableName) (s : SegmentEntry) (version now_ms : ℕ)
    → SameRest m (release_one m name s version now_ms)
unfolding release_one
release_one-SameRest m name s version now_ms =
    elim (Bool-cases (references_segment m s.id || in_garbage m s.id)) [
      | inl stays ↦ rw stays (ground arith)
      | inr goes ↦ rw goes (ground arith)
    ]

release_one-Released :
    (m : Manifest) (name : TableName) (s : SegmentEntry) (version now_ms id : ℕ)
    → Released
        (refs id m)
        (garb id m)
        (indicator (s.id == id))
        (garb id (release_one m name s version now_ms))
unfolding release_one
release_one-Released m name s version now_ms id = elim (Bool-cases (s.id == id)) [
  | inl same ↦
      let e : s.id ≡ id = ground arith in
      let r = ap (λ i. refs i m) e in
      let g = ap (λ i. garb i m) e in
      elim (Bool-cases (references_segment m s.id || in_garbage m s.id)) [
        | inl stays ↦
            rw (stays, same)
              (ground (arith, references_segment-refs m s.id, in_garbage-garb m s.id, r, g))
        | inr goes ↦
            rw (goes, same, sum_by-append, same)
              (ground (arith, references_segment-refs m s.id, in_garbage-garb m s.id, r, g))
      ]
  | inr other ↦ elim (Bool-cases (references_segment m s.id || in_garbage m s.id)) [
    | inl stays ↦ rw (stays, other) (ground arith)
    | inr goes ↦ rw (goes, other, sum_by-append, other) (ground arith)
  ]
]

Released-trans :
    (r g s g' s' g'' : ℕ) → Released r g s g' → Released r g' s' g'' → Released r g (s + s') g''
Released-trans r g s g' s' g'' h k = record {
  grows = omega arith;
  covers = λ e p. ground (arith, h.covers e, k.covers e);
  from = λ p. ground (arith, h.from, k.from);
}

SameRest-trans : (a b c : Manifest) → SameRest a b → SameRest b c → SameRest a c
SameRest-trans a b c h k = record {
  version = k.version ∙ h.version;
  next_segment_id = k.next_segment_id ∙ h.next_segment_id;
  next_table_id = k.next_table_id ∙ h.next_table_id;
  tables = k.tables ∙ h.tables;
  next_job_id = k.next_job_id ∙ h.next_job_id;
  jobs = k.jobs ∙ h.jobs;
  retired = k.retired ∙ h.retired;
  migrations = k.migrations ∙ h.migrations;
}

-- `release` changes the garbage alone, which gains the released segments that nothing names.
pub release-SameRest :
    (m : Manifest) (name : TableName) (segments : List SegmentEntry) (version now_ms : ℕ)
    → SameRest m (release m name segments version now_ms)
unfolding release
release-SameRest m name [] version now_ms = ground arith
release-SameRest m name (s ∷ segments) version now_ms =
    let m1 = release_one m name s version now_ms in
    SameRest-trans m m1 (release m1 name segments version now_ms)
      (release_one-SameRest m name s version now_ms)
      (release-SameRest m1 name segments version now_ms)

pub release-Released :
    (m : Manifest) (name : TableName) (segments : List SegmentEntry) (version now_ms id : ℕ)
    → Released
        (refs id m)
        (garb id m)
        (seg_count id segments)
        (garb id (release m name segments version now_ms))
unfolding release
release-Released m name [] version now_ms id = ground arith
release-Released m name (s ∷ segments) version now_ms id =
    let m1 = release_one m name s version now_ms in
    let same = SameRest-refs m m1 id (release_one-SameRest m name s version now_ms) in
    Released-trans (refs id m) (garb id m) (indicator (s.id == id)) (garb id m1)
      (seg_count id segments) (garb id (release m1 name segments version now_ms))
      (release_one-Released m name s version now_ms id)
      (rw same at (release-Released m1 name segments version now_ms id))

pub release_all-SameRest :
    (m : Manifest) (expired : List Retired) (version now_ms : ℕ)
    → SameRest m (release_all m expired version now_ms)
unfolding release_all
release_all-SameRest m [] version now_ms = ground arith
release_all-SameRest m (r ∷ expired) version now_ms =
    let m1 = release m r.entry.name r.entry.segments version now_ms in
    SameRest-trans m m1 (release_all m1 expired version now_ms)
      (release-SameRest m r.entry.name r.entry.segments version now_ms)
      (release_all-SameRest m1 expired version now_ms)

pub release_all-Released :
    (m : Manifest) (expired : List Retired) (version now_ms id : ℕ)
    → Released
        (refs id m)
        (garb id m)
        (in_retired id expired)
        (garb id (release_all m expired version now_ms))
unfolding release_all
release_all-Released m [] version now_ms id = ground arith
release_all-Released m (r ∷ expired) version now_ms id =
    let m1 = release m r.entry.name r.entry.segments version now_ms in
    let same =
      SameRest-refs m m1 id (release-SameRest m r.entry.name r.entry.segments version now_ms) in
    Released-trans (refs id m) (garb id m) (seg_count id r.entry.segments) (garb id m1)
      (in_retired id expired) (garb id (release_all m1 expired version now_ms))
      (release-Released m r.entry.name r.entry.segments version now_ms id)
      (rw same at (release_all-Released m1 expired version now_ms id))
