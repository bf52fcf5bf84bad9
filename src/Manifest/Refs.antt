-- ===== src/Manifest/Refs.antt =====
-- How often a manifest names a segment: in its tables, its retired tables and the targets of its
-- jobs, which is what `references_segment` of src/storage/manifest/mod.rs asks, and in its garbage.
pub mod Release
pub mod Moves
pub mod Kept
pub mod Effects
pub mod Edits
pub mod Commits
pub mod Raise
pub mod Bounds
use adelie.Base.{
  ℕ, ◌+◌, ◌≡◌, refl, ◌∙◌, arith, List, [], ◌∷◌, Bool, true, false, ◌||◌, ltb, ◌==◌, Bool-cases, inl,
  inr,
}
use adelie.Base.Search.{any, sum_by, indicator}
use adelie.Manifest.{
  SegmentEntry, TableEntry, Job, Retired, Garbage, Manifest, has, references_segment,
}
use adelie.Manifest.Segments.{in_garbage}

abbrev pub seg_count : ℕ → List SegmentEntry → ℕ
seg_count id segs = sum_by (λ s. indicator (s.id == id)) segs

abbrev pub in_tables : ℕ → List TableEntry → ℕ
in_tables id ts = sum_by (λ t. seg_count id t.segments) ts

abbrev pub in_retired : ℕ → List Retired → ℕ
in_retired id rs = sum_by (λ r. seg_count id r.entry.segments) rs

abbrev pub in_jobs : ℕ → List Job → ℕ
in_jobs id js = sum_by (λ j. seg_count id j.target.segments) js

abbrev pub refs : ℕ → Manifest → ℕ
refs id m = in_tables id m.tables + in_retired id m.retired + in_jobs id m.jobs

abbrev pub garb_count : ℕ → List Garbage → ℕ
garb_count id gs = sum_by (λ g. indicator (g.segment.id == id)) gs

abbrev pub garb : ℕ → Manifest → ℕ
garb id m = garb_count id m.garbage

-- A test by a positive measure of each element.
any-pos {ℓ} :
    {A : Type ℓ} (p : A → Bool) (f : A → ℕ)
    → ((x : A) → p x ≡ ltb 0 (f x))
    → (xs : List A) → any p xs ≡ ltb 0 (sum_by f xs)
any-pos p f h [] = refl
any-pos p f h (x ∷ xs) = elim (Bool-cases (p x)) [
  | inl here ↦ rw here (ground (arith, h x))
  | inr there ↦ rw there (any-pos p f h xs ∙ ground (arith, h x))
]

indicator-pos : (b : Bool) → b ≡ ltb 0 (indicator b)
indicator-pos true = refl
indicator-pos false = refl

has-seg_count : (id : ℕ) (segs : List SegmentEntry) → has id segs ≡ ltb 0 (seg_count id segs)
has-seg_count id segs =
    any-pos (λ s. s.id == id) (λ s. indicator (s.id == id)) (λ s. indicator-pos (s.id == id)) segs

or-pos : (a b : ℕ) → ltb 0 a || ltb 0 b ≡ ltb 0 (a + b)
or-pos a b = ground arith

-- The Boolean tests ask whether the counts are positive.
pub references_segment-refs : (m : Manifest) (id : ℕ) → references_segment m id ≡ ltb 0 (refs id m)
unfolding references_segment
references_segment-refs m id =
    let t =
      any-pos (λ t. has id t.segments) (λ t. seg_count id t.segments)
        (λ t. has-seg_count id t.segments) m.tables in
    let r =
      any-pos (λ r. has id r.entry.segments) (λ r. seg_count id r.entry.segments)
        (λ r. has-seg_count id r.entry.segments) m.retired in
    let j =
      any-pos (λ j. has id j.target.segments) (λ j. seg_count id j.target.segments)
        (λ j. has-seg_count id j.target.segments) m.jobs in
    rw (t, r, j) (ground arith)

pub in_garbage-garb : (m : Manifest) (id : ℕ) → in_garbage m id ≡ ltb 0 (garb id m)
unfolding in_garbage
in_garbage-garb m id =
    any-pos (λ g. g.segment.id == id) (λ g. indicator (g.segment.id == id))
      (λ g. indicator-pos (g.segment.id == id)) m.garbage
