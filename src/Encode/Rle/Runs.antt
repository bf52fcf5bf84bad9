-- ===== src/Encode/Rle/Runs.antt =====
-- `run_lengths` of src/storage/segment/encode/rle.rs: the runs spell out the values, and each is
-- as long as it can be.
use adelie.Base.{
  ℕ, zero, suc, ◌+◌, ◌≤◌, ◌≡◌, refl, ap, ◌∙◌, arith, List, [], ◌∷◌, ◌++◌, append_assoc,
}
use adelie.Base.{
  append-nil, length, length-append, length-replicate, replicate, All, ◌==◌, Bool-cases, inl, inr,
}
use adelie.Encode.Rle.{push_run, run_lengths}
use mathlib.Core.List.{foldl}
use native.Mathlib.Numerals.{add-one}

unfoldable pub expand : List (ℕ × ℕ) → List ℕ
expand [] = []
expand ((x, len) ∷ runs) = replicate len x ++ expand runs

replicate-suc : (n : ℕ) (x : ℕ) → replicate (suc n) x ≡ replicate n x ++ (x ∷ [])
replicate-suc zero x = refl
replicate-suc (suc n) x = ap (λ t. x ∷ t) (replicate-suc n x)

replicate_more : (n : ℕ) (x : ℕ) → replicate (n + 1) x ≡ replicate n x ++ (x ∷ [])
replicate_more n x = rw add-one (replicate-suc n x)

expand-push_run : (runs : List (ℕ × ℕ)) (x : ℕ) → expand (push_run runs x) ≡ expand runs ++ (x ∷ [])
unfolding expand push_run
expand-push_run [] x = refl
expand-push_run ((last, len) ∷ []) x = elim (Bool-cases (last == x)) [
  | inl same ↦
      let e : last ≡ x = ground arith in rw (same, e) (simp append-nil (replicate_more len x))
  | inr new ↦ rw new (simp append-nil)
]
expand-push_run (r ∷ s ∷ runs) x = rw (expand-push_run (s ∷ runs) x) (simp append_assoc)

expand-foldl :
    (v : List ℕ) (runs : List (ℕ × ℕ)) → expand (foldl push_run runs v) ≡ expand runs ++ v
expand-foldl [] runs = rw append-nil
expand-foldl (x ∷ v) runs =
    expand-foldl v (push_run runs x)
    ∙ rw (expand-push_run runs x) (append_assoc (expand runs) (x ∷ []) v)

-- The runs spell out the values.
pub expand-run_lengths : (v : List ℕ) → expand (run_lengths v) ≡ v
unfolding run_lengths expand
expand-run_lengths v = expand-foldl v []

-- What holds of a run that is as long as one at least, and that keeps a property of the values.
abbrev pub IsRun : (ℕ → Type 0) → ℕ × ℕ → Type 0
IsRun P r = P r.0 × (1 ≤ r.1)

push_run-IsRun :
    (P : ℕ → Type 0) (runs : List (ℕ × ℕ)) (x : ℕ)
    → P x
    → All (IsRun P) runs
    → All (IsRun P) (push_run runs x)
unfolding push_run
push_run-IsRun P [] x px h = ((px, omega arith), tt)
push_run-IsRun P ((last, len) ∷ []) x px h = elim (Bool-cases (last == x)) [
  | inl same ↦ rw same ((h.0.0, omega arith), tt)
  | inr new ↦ rw new (h.0, ((px, omega arith), tt))
]
push_run-IsRun P (r ∷ s ∷ runs) x px h = (h.0, push_run-IsRun P (s ∷ runs) x px h.1)

foldl-IsRun :
    (P : ℕ → Type 0) (v : List ℕ) (runs : List (ℕ × ℕ))
    → All P v
    → All (IsRun P) runs
    → All (IsRun P) (foldl push_run runs v)
foldl-IsRun P [] runs h k = k
foldl-IsRun P (x ∷ v) runs h k =
    foldl-IsRun P v (push_run runs x) h.1 (push_run-IsRun P runs x h.0 k)

-- Each run is one value long at least, and its value is one of those encoded.
pub run_lengths-IsRun : (P : ℕ → Type 0) (v : List ℕ) → All P v → All (IsRun P) (run_lengths v)
unfolding run_lengths
run_lengths-IsRun P v h = foldl-IsRun P v [] h tt

length-expand :
    (P : ℕ → Type 0) (runs : List (ℕ × ℕ)) → All (IsRun P) runs → length runs ≤ length (expand runs)
unfolding expand
length-expand P [] h = omega arith
length-expand P ((x, len) ∷ runs) h = omega (
  arith,
  length-append (replicate len x) (expand runs),
  length-replicate len x,
  length-expand P runs h.1,
  h.0.1,
)

-- There are no more runs than values.
pub length-run_lengths : (v : List ℕ) → length (run_lengths v) ≤ length v
length-run_lengths v =
    let long =
      length-expand (λ x. Unit) (run_lengths v) (run_lengths-IsRun (λ x. Unit) v (trivial v)) in
    rw (expand-run_lengths v) at long
  where
    trivial : (v : List ℕ) → All (λ x. Unit {0}) v
    trivial = elim [ [] ↦ tt | x ∷ (v → h) ↦ (tt, h) ]
