-- ===== src/Base/Search.antt =====
-- Searching, editing and ordering vectors: what the source calls `find`, `position`, `any`,
-- `retain`, `remove`, `insert`, `partition_point` and `sort_by_key` of.
use Prim.Native.Nat.{ℕ, zero, suc, ◌+◌}
use mathlib.Core.Path.{◌≡◌, refl, ap, ◌∙◌, subst}
use mathlib.Core.Bool.{Bool, true, false, not}
use mathlib.Core.Option.{Option, none, some}
use mathlib.Core.List.{List, [], ◌∷◌, ◌++◌}
use mathlib.Core.Logic.{inl, inr}
use native.Mathlib.Omega.{arith}
use adelie.Base.Tests.{ltb, if◌then◌else◌, Bool-cases, Option-cases}
use adelie.Base.Lists.{get_elem?, set}

abbrev pub indicator : Bool → ℕ
indicator true = 1
indicator false = 0

module _ {ℓ} {A : Type ℓ} where
  abbrev pub any : (A → Bool) → List A → Bool
  any p [] = false
  any p (x ∷ xs) = if p x then true else any p xs

  abbrev pub all : (A → Bool) → List A → Bool
  all p [] = true
  all p (x ∷ xs) = if p x then all p xs else false

  abbrev pub find : (A → Bool) → List A → Option A
  find p [] = none
  find p (x ∷ xs) = if p x then some x else find p xs

  abbrev pub later : Option (ℕ × A) → Option (ℕ × A)
  later none = none
  later (some (i, x)) = some (i + 1, x)

  -- The first element that passes, with its index.
  abbrev pub position : (A → Bool) → List A → Option (ℕ × A)
  position p [] = none
  position p (x ∷ xs) = if p x then some (0, x) else later (position p xs)

  abbrev pub or_else : Option (ℕ × A) → Option (ℕ × A) → Option (ℕ × A)
  or_else (some x) y = some x
  or_else none y = y

  -- The last element that passes, with its index.
  abbrev pub rposition : (A → Bool) → List A → Option (ℕ × A)
  rposition p [] = none
  rposition p (x ∷ xs) = or_else (later (rposition p xs)) (if p x then some (0, x) else none)

  abbrev pub filter : (A → Bool) → List A → List A
  filter p [] = []
  filter p (x ∷ xs) = if p x then x ∷ filter p xs else filter p xs

  abbrev pub remove : List A → ℕ → List A
  remove [] i = []
  remove (x ∷ xs) zero = xs
  remove (x ∷ xs) (suc i) = x ∷ remove xs i

  abbrev pub insert_at : List A → ℕ → A → List A
  insert_at xs zero a = a ∷ xs
  insert_at [] (suc i) a = a ∷ []
  insert_at (x ∷ xs) (suc i) a = x ∷ insert_at xs i a

  -- How many lead elements pass: `partition_point` of a vector that the test parts.
  abbrev pub partition_point : (A → Bool) → List A → ℕ
  partition_point p [] = 0
  partition_point p (x ∷ xs) = if p x then suc (partition_point p xs) else 0

  -- A stable sort by insertion, for a strict order `lt`.
  abbrev pub sort_in : (A → A → Bool) → A → List A → List A
  sort_in lt a [] = a ∷ []
  sort_in lt a (x ∷ xs) = if lt x a then x ∷ sort_in lt a xs else a ∷ x ∷ xs

  unfoldable pub sort_by : (A → A → Bool) → List A → List A
  sort_by lt [] = []
  sort_by lt (x ∷ xs) = sort_in lt x (sort_by lt xs)

  -- The sum of a measure over the elements.
  abbrev pub sum_by : (A → ℕ) → List A → ℕ
  sum_by f [] = 0
  sum_by f (x ∷ xs) = f x + sum_by f xs

module _ {ℓ} {A : Type ℓ} where
  pub sum_by-append : (f : A → ℕ) (xs ys : List A) → sum_by f (xs ++ ys) ≡ sum_by f xs + sum_by f ys
  sum_by-append f [] ys = omega arith
  sum_by-append f (x ∷ xs) ys = omega (arith, sum_by-append f xs ys)

  pub sum_by-insert_at :
      (f : A → ℕ) (xs : List A) (i : ℕ) (a : A) → sum_by f (insert_at xs i a) ≡ sum_by f xs + f a
  sum_by-insert_at f xs zero a = omega arith
  sum_by-insert_at f [] (suc i) a = omega arith
  sum_by-insert_at f (x ∷ xs) (suc i) a = omega (arith, sum_by-insert_at f xs i a)

  sum_by-sort_in :
      (f : A → ℕ) (lt : A → A → Bool) (a : A) (xs : List A)
      → sum_by f (sort_in lt a xs) ≡ f a + sum_by f xs
  sum_by-sort_in f lt a [] = refl
  sum_by-sort_in f lt a (x ∷ xs) = elim (Bool-cases (lt x a)) [
    | inl before ↦ rw before (omega (arith, sum_by-sort_in f lt a xs))
    | inr after ↦ rw after
  ]

  pub sum_by-sort_by :
      (f : A → ℕ) (lt : A → A → Bool) (xs : List A) → sum_by f (sort_by lt xs) ≡ sum_by f xs
  unfolding sort_by
  sum_by-sort_by f lt [] = refl
  sum_by-sort_by f lt (x ∷ xs) =
      omega (arith, sum_by-sort_in f lt x (sort_by lt xs), sum_by-sort_by f lt xs)

  -- The element at an index is in the sum; to remove it or to replace it changes the sum by it.
  pub sum_by-remove :
      (f : A → ℕ) (xs : List A) (i : ℕ) (a : A)
      → get_elem? xs i ≡ some a
      → sum_by f (remove xs i) + f a ≡ sum_by f xs
  sum_by-remove f [] i a h = cc
  sum_by-remove f (x ∷ xs) zero a h = ground arith
  sum_by-remove f (x ∷ xs) (suc i) a h = omega (arith, sum_by-remove f xs i a h)

  pub sum_by-set :
      (f : A → ℕ) (xs : List A) (i : ℕ) (a b : A)
      → get_elem? xs i ≡ some a
      → sum_by f (set xs i b) + f a ≡ sum_by f xs + f b
  sum_by-set f [] i a b h = cc
  sum_by-set f (x ∷ xs) zero a b h = ground arith
  sum_by-set f (x ∷ xs) (suc i) a b h = omega (arith, sum_by-set f xs i a b h)

  later-inv :
      (o : Option (ℕ × A)) (i : ℕ) (a : A)
      → later o ≡ some (i, a)
      → (j : ℕ) × (i ≡ suc j) × (o ≡ some (j, a))
  later-inv none i a h = cc
  later-inv (some (j, b)) i a h = (j, ground arith, ground arith)

  zero-inv :
      (x a : A) (i : ℕ) → ◌≡◌ {A = Option (ℕ × A)} (some (0, x)) (some (i, a)) → (i ≡ 0) × (x ≡ a)
  zero-inv x a i h = (ground arith, ground arith)

  -- What `position` finds stands at its index and passes.
  pub position-some :
      (p : A → Bool) (xs : List A) (i : ℕ) (a : A)
      → position p xs ≡ some (i, a)
      → (get_elem? xs i ≡ some a) × (p a ≡ true)
  position-some p [] i a h = cc
  position-some p (x ∷ xs) i a h = elim (Bool-cases (p x)) [
    | inl found ↦
        let (e, same) = zero-inv x a i (rw found at h) in
        rw e (ap some same, subst (λ t. p t ≡ true) same found)
    | inr next ↦
        let (j, e, there) = later-inv (position p xs) i a (rw next at h) in
        rw e (position-some p xs j a there)
  ]

  pub rposition-some :
      (p : A → Bool) (xs : List A) (i : ℕ) (a : A)
      → rposition p xs ≡ some (i, a)
      → (get_elem? xs i ≡ some a) × (p a ≡ true)
  rposition-some p [] i a h = cc
  rposition-some p (x ∷ xs) i a h = elim (Option-cases (later (rposition p xs))) [
    | inl no_later ↦ elim (Bool-cases (p x)) [
      | inl found ↦
          let (e, same) = zero-inv x a i (rw (no_later, found) at h) in
          rw e (ap some same, subst (λ t. p t ≡ true) same found)
      | inr bad ↦ absurd (nothing (rw (no_later, bad) at h))
    ]
    | inr (r, e) ↦
        let (j, e', there) = later-inv (rposition p xs) i a (e ∙ (rw e at h)) in
        rw e' (rposition-some p xs j a there)
  ]
    where
      nothing : ◌≡◌ {A = Option (ℕ × A)} none (some (i, a)) → ⊥
      nothing k = cc

  -- A test holds of some element exactly when the elements that pass it sum to one at least.
  pub any-sum_by :
      (p : A → Bool) (xs : List A) → any p xs ≡ ltb 0 (sum_by (λ x. indicator (p x)) xs)
  any-sum_by p [] = refl
  any-sum_by p (x ∷ xs) = elim (Bool-cases (p x)) [
    | inl yes_it ↦ rw yes_it (ground arith)
    | inr other ↦ rw other (any-sum_by p xs ∙ ground arith)
  ]

  pub sum_by-filter :
      (p : A → Bool) (f : A → ℕ) (xs : List A)
      → sum_by f (filter p xs) + sum_by f (filter (λ x. not (p x)) xs) ≡ sum_by f xs
  sum_by-filter p f [] = refl
  sum_by-filter p f (x ∷ xs) = elim (Bool-cases (p x)) [
    | inl keep ↦ rw keep (omega (arith, sum_by-filter p f xs))
    | inr leave ↦ rw leave (omega (arith, sum_by-filter p f xs))
  ]
