-- ===== src/Manifest/Refs/Raise.antt =====
-- `next_segment_id.max(max_id + 1)` of src/storage/manifest/commit.rs, as a loop that takes one segment a round.
use adelie.Base.{
  succ_u64-room, ◌^◌, Option-cases, some, ℕ, ◌+◌, ◌<◌, ◌≤◌, ◌≡◌, ap, subst, arith, List, [], ◌∷◌,
  max, ◌==◌, Bool-cases, inl, inr,
}
use adelie.Base.Each.{Each, some-injective}
use adelie.Manifest.{SegmentEntry}
use adelie.Manifest.Segments.{max_id, raise_next}
use adelie.Manifest.Refs.{seg_count}

-- Ids whose successor is a `u64`.
abbrev pub HasNext : SegmentEntry → Type 0
HasNext s = s.id + 1 < 2 ^ 64

pub count-HasNext :
    (segs : List SegmentEntry)
    → ((id : ℕ) → 0 < seg_count id segs → id + 1 < 2 ^ 64)
    → Each HasNext segs
count-HasNext [] h = tt
count-HasNext (s ∷ segs) h =
    (h s.id (ground arith), count-HasNext segs (λ id p. h id (omega (arith, p))))

pub HasNext-count :
    (id : ℕ) (segs : List SegmentEntry)
    → Each HasNext segs
    → 0 < seg_count id segs
    → id + 1 < 2 ^ 64
HasNext-count id [] h p = omega (arith, p)
HasNext-count id (s ∷ segs) (first, rest) p = elim (Bool-cases (s.id == id)) [
  | inl same ↦ ground (arith, first, same)
  | inr other ↦ HasNext-count id segs rest (ground (arith, p, other))
]

max_id-HasNext :
    (segs : List SegmentEntry) (highest : ℕ)
    → Each HasNext segs
    → max_id segs ≡ some highest
    → highest + 1 < 2 ^ 64
max_id-HasNext [] highest h e = cc
max_id-HasNext (s ∷ segs) highest (first, rest) e = elim (Option-cases (max_id segs)) [
  | inl empty ↦ subst (λ n. n + 1 < 2 ^ 64) (some-injective (rw empty at e)) first
  | inr (other, there) ↦
      let below = max_id-HasNext segs other rest there in
      subst (λ n. n + 1 < 2 ^ 64) (some-injective (rw there at e)) (ground (arith, first, below))
]

-- The counter is raised one segment at a time.
raise_next-cons :
    (next : ℕ) (s : SegmentEntry) (segs : List SegmentEntry)
    → Each HasNext (s ∷ segs)
    → raise_next next (s ∷ segs) ≡ raise_next (max next (s.id + 1)) segs
unfolding raise_next
raise_next-cons next s segs (first, rest) = elim (Option-cases (max_id segs)) [
  | inl empty ↦ rw empty (ap (max next) (succ_u64-room s.id first))
  | inr (other, there) ↦
      let below = max_id-HasNext segs other rest there in
      rw
        (
          there,
          succ_u64-room other below,
          succ_u64-room (max s.id other) (ground (arith, first, below)),
        )
        (ground arith)
]

-- The counter does not fall, passes a segment that comes in, and stays a `u64`.
pub record Raises (next : ℕ) (id a next' : ℕ) : Type 0 where
  pub grows : next ≤ next'
  pub passes : 0 < a → id < next'
  pub small : next < 2 ^ 64 → next' < 2 ^ 64

pub raise_next-Raises :
    (next id : ℕ) (segs : List SegmentEntry)
    → Each HasNext segs
    → Raises next id (seg_count id segs) (raise_next next segs)
unfolding raise_next
raise_next-Raises next id [] h = record {
  grows = omega arith;
  passes = λ p. omega (arith, p);
  small = λ p. p;
}
raise_next-Raises next id (s ∷ segs) (first, h) =
    let rest = raise_next-Raises (max next (s.id + 1)) id segs h in
    rw (raise_next-cons next s segs (first, h)) (record {
      grows = ground (arith, rest.grows);
      passes = elim (Bool-cases (s.id == id)) [
        | inl same ↦ λ p. ground (arith, rest.grows, same)
        | inr other ↦ rw other (λ p. rest.passes (omega (arith, p)))
      ];
      small = λ p. rest.small (ground (arith, p, first));
    })
