-- ===== src/Manifest/Refs/Commits.antt =====
-- `Commit::apply` of src/storage/manifest/commit.rs: what a whole commit does with the segments.
use adelie.Base.{
  succ_u64, ℕ, ◌+◌, ◌<◌, ◌≤◌, ◌≡◌, refl, subst, arith, List, [], ◌∷◌, Bool, true, false,
  if◌then◌else◌, ◌||◌, ◌&&◌,
}
use adelie.Base.Search.{sum_by, any}
use adelie.Manifest.{Manifest, ok, references_segment}
use adelie.Manifest.Segments.{in_garbage}
use adelie.Manifest.Commit.{Edit, Commit, apply_edit, apply_edits, apply}
use adelie.Manifest.Results.{ok_split, ok-injective}
use adelie.Manifest.Step.Sound.{apply_edit-Step}
use adelie.Manifest.Refs.{refs, garb, references_segment-refs, in_garbage-garb}
use adelie.Manifest.Refs.Moves.{Moves}
use adelie.Manifest.Refs.Edits.{brought, forgets, Step-Moves}

-- Whether the manifest names the segment at all.
abbrev pub is_known : Manifest → ℕ → Bool
is_known m id = references_segment m id || in_garbage m id

-- Whether the manifest uses the segment and has it as garbage, for the engine to delete.
abbrev pub is_used_garbage : Manifest → ℕ → Bool
is_used_garbage m id = references_segment m id && in_garbage m id

-- How often a commit's edits bring the segment.
abbrev pub brings : ℕ → List Edit → ℕ
brings id edits = sum_by (brought id) edits

-- `Moves` for a list of edits, which bring a segment once at most, and none that is known.
record Runs (forgotten : Bool) (a r g r' g' : ℕ) : Type 0 where
  kept : forgotten ≡ false → 0 < r + g → 0 < r' + g'
  apart : (0 < g → r ≡ 0) → (0 < r + g → a ≡ 0) → a ≤ 1 → 0 < g' → r' ≡ 0
  known : 0 < r' + g' → 0 < r + g + a

neither : (b c : Bool) → (if b then true else c) ≡ false → (b ≡ false) × (c ≡ false)
neither true c h = cc
neither false c h = (refl, h)

Runs-step :
    (f f' : Bool) (a b r g r' g' r'' g'' : ℕ)
    → Moves f a r g r' g'
    → Runs f' b r' g' r'' g''
    → Runs (if f then true else f') (a + b) r g r'' g''
Runs-step f f' a b r g r' g' r'' g'' h k = record {
  kept = λ e p. let (first, rest) = neither f f' e in k.kept rest (h.kept first p);
  apart = λ s new once p.
      k.apart (h.apart s (λ q. ground (arith, q, new))) (λ q. ground (arith, q, h.known, new, once))
        (omega (arith, once)) p;
  known = λ p. ground (arith, p, k.known, h.known);
}

apply_edits-Runs :
    (version now_ms id : ℕ) (m m' : Manifest) (edits : List Edit)
    → apply_edits m edits version now_ms ≡ ok m'
    → Runs
        (any (forgets id) edits)
        (brings id edits)
        (refs id m)
        (garb id m)
        (refs id m')
        (garb id m')
unfolding apply_edits
apply_edits-Runs version now_ms id m m' [] h =
    subst (λ n. Runs false 0 (refs id m) (garb id m) (refs id n) (garb id n)) (ok-injective h)
      (record { kept = λ e p. p; apart = λ s new once. s; known = λ p. omega (arith, p) })
apply_edits-Runs version now_ms id m m' (e ∷ edits) h =
    let (n, first, rest) = ok_split (apply_edit m e version now_ms) _ h in
    Runs-step (forgets id e) (any (forgets id) edits) (brought id e) (brings id edits) (refs id m)
      (garb id m) (refs id n) (garb id n) (refs id m') (garb id m')
      (Step-Moves version now_ms id m n (apply_edit-Step m n version now_ms e first))
      (apply_edits-Runs version now_ms id n m' edits rest)

apply-Runs :
    (now_ms id : ℕ) (m m' : Manifest) (c : Commit)
    → apply c m now_ms ≡ ok m'
    → Runs
        (any (forgets id) c.edits)
        (brings id c.edits)
        (refs id m)
        (garb id m)
        (refs id m')
        (garb id m')
unfolding apply
apply-Runs now_ms id m m' c h =
    let (n, run, e) = ok_split (apply_edits m c.edits (succ_u64 m.version) now_ms) _ h in
    subst
      (λ k.
        Runs (any (forgets id) c.edits) (brings id c.edits) (refs id m) (garb id m) (refs id k)
          (garb id k))
      (ok-injective e) (apply_edits-Runs (succ_u64 m.version) now_ms id m n c.edits run)

-- A commit that succeeds loses no segment: one that the manifest named, and whose garbage no edit
-- forgets, the next manifest names.
pub apply-keeps_known :
    (now_ms id : ℕ) (m m' : Manifest) (c : Commit)
    → apply c m now_ms ≡ ok m'
    → any (forgets id) c.edits ≡ false
    → is_known m id ≡ true
    → is_known m' id ≡ true
apply-keeps_known now_ms id m m' c h still known =
    let k = (apply-Runs now_ms id m m' c h).kept still in
    rw (references_segment-refs m' id, in_garbage-garb m' id)
      (ground (arith, k, known, references_segment-refs m id, in_garbage-garb m id))

-- A commit that succeeds makes no segment garbage that the next manifest uses, where the current
-- one had none such, and where the edits bring the segment once at most, and only if the current
-- manifest does not name it.
pub apply-spares_used :
    (now_ms id : ℕ) (m m' : Manifest) (c : Commit)
    → apply c m now_ms ≡ ok m'
    → brings id c.edits ≤ 1
    → (is_known m id ≡ true → brings id c.edits ≡ 0)
    → is_used_garbage m id ≡ false
    → is_used_garbage m' id ≡ false
apply-spares_used now_ms id m m' c h once new spared =
    let r = references_segment-refs m id in
    let g = in_garbage-garb m id in
    let k =
      (apply-Runs now_ms id m m' c h).apart (λ p. ground (arith, p, spared, r, g))
        (λ p. new (ground (arith, p, r, g))) once in
    rw (references_segment-refs m' id, in_garbage-garb m' id) (ground (arith, k))

-- After a commit that succeeds the manifest names no segment that it did not name before and that
-- no edit brings.
pub apply-invents_none :
    (now_ms id : ℕ) (m m' : Manifest) (c : Commit)
    → apply c m now_ms ≡ ok m'
    → brings id c.edits ≡ 0
    → is_known m id ≡ false
    → is_known m' id ≡ false
apply-invents_none now_ms id m m' c h none unknown =
    let k = (apply-Runs now_ms id m m' c h).known in
    rw (references_segment-refs m' id, in_garbage-garb m' id)
      (ground (arith, k, none, unknown, references_segment-refs m id, in_garbage-garb m id))
