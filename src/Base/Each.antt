-- ===== src/Base/Each.antt =====
-- A predicate that each element of a vector has, and what keeps it.
use Prim.Native.Nat.{ℕ, zero, suc}
use mathlib.Core.Path.{◌≡◌, subst}
use mathlib.Core.Bool.{Bool}
use mathlib.Core.Option.{Option, some}
use mathlib.Core.List.{List, [], ◌∷◌, ◌++◌}
use mathlib.Core.Logic.{inl, inr}
use adelie.Base.Tests.{Bool-cases}
use adelie.Base.Lists.{get_elem?, set}
use adelie.Base.Search.{filter, remove, insert_at}

module _ {ℓ} {A : Type ℓ} where
  abbrev pub Each : (A → Type 0) → List A → Type 0
  Each P [] = Unit
  Each P (x ∷ xs) = P x × Each P xs

  pub some-injective : {a b : A} → ◌≡◌ {A = Option A} (some a) (some b) → a ≡ b
  some-injective h = cc

  pub Each-at :
      (P : A → Type 0) (xs : List A) (i : ℕ) (a : A) → Each P xs → get_elem? xs i ≡ some a → P a
  Each-at P [] i a h e = cc
  Each-at P (x ∷ xs) zero a (first, rest) e = subst P (some-injective e) first
  Each-at P (x ∷ xs) (suc i) a (first, rest) e = Each-at P xs i a rest e

  pub Each-map : (P Q : A → Type 0) → ((a : A) → P a → Q a) → (xs : List A) → Each P xs → Each Q xs
  Each-map P Q f [] h = tt
  Each-map P Q f (x ∷ xs) (first, rest) = (f x first, Each-map P Q f xs rest)

  pub Each-set :
      (P : A → Type 0) (xs : List A) (i : ℕ) (a : A) → P a → Each P xs → Each P (set xs i a)
  Each-set P [] i a p h = tt
  Each-set P (x ∷ xs) zero a p (first, rest) = (p, rest)
  Each-set P (x ∷ xs) (suc i) a p (first, rest) = (first, Each-set P xs i a p rest)

  pub Each-remove : (P : A → Type 0) (xs : List A) (i : ℕ) → Each P xs → Each P (remove xs i)
  Each-remove P [] i h = tt
  Each-remove P (x ∷ xs) zero (first, rest) = rest
  Each-remove P (x ∷ xs) (suc i) (first, rest) = (first, Each-remove P xs i rest)

  pub Each-insert_at :
      (P : A → Type 0) (xs : List A) (i : ℕ) (a : A) → P a → Each P xs → Each P (insert_at xs i a)
  Each-insert_at P xs zero a p h = (p, h)
  Each-insert_at P [] (suc i) a p h = (p, tt)
  Each-insert_at P (x ∷ xs) (suc i) a p (first, rest) = (first, Each-insert_at P xs i a p rest)

  pub Each-push : (P : A → Type 0) (xs : List A) (a : A) → P a → Each P xs → Each P (xs ++ (a ∷ []))
  Each-push P [] a p h = (p, tt)
  Each-push P (x ∷ xs) a p (first, rest) = (first, Each-push P xs a p rest)

  pub Each-filter : (P : A → Type 0) (p : A → Bool) (xs : List A) → Each P xs → Each P (filter p xs)
  Each-filter P p [] h = tt
  Each-filter P p (x ∷ xs) (first, rest) = elim (Bool-cases (p x)) [
    | inl keep ↦ rw keep (first, Each-filter P p xs rest)
    | inr leave ↦ rw leave (Each-filter P p xs rest)
  ]
