-- ===== src/Like/Matches.antt =====
-- What LIKE means, apart from the matcher of src/exec/expr/like.rs: `%` stands for any characters.
use adelie.Base.{ℕ, arith, ◌≡◌, refl, List, [], ◌∷◌}
use adelie.Base.{Bool, true, false, ◌||◌, Bool-cases, inl, inr, ◌⊎◌, if◌then◌else◌, ◌≢◌}
use adelie.Like.{Token, any, one, char}

-- Of the same character, in the sense of a section's parameter.
module _ (same : ℕ → ℕ → Bool) where
  unfoldable pub matches : List Token → List ℕ → Bool
  matches [] [] = true
  matches [] (c ∷ s) = false
  matches (any ∷ p) [] = matches p []
  matches (any ∷ p) (c ∷ s) = matches p (c ∷ s) || matches (any ∷ p) s
  matches (one ∷ p) [] = false
  matches (one ∷ p) (c ∷ s) = matches p s
  matches (char pc ∷ p) [] = false
  matches (char pc ∷ p) (c ∷ s) = if same pc c then matches p s else false

  -- A `%` takes no character, or the first one and then what a `%` takes of the rest.
  pub matches-any_skip :
      (p : List Token) (s : List ℕ) → matches p s ≡ true → matches (any ∷ p) s ≡ true
  unfolding matches
  matches-any_skip p [] h = h
  matches-any_skip p (c ∷ s) h = rw h

  pub matches-any_more :
      (p : List Token) (c : ℕ) (s : List ℕ)
      → matches (any ∷ p) s ≡ true
      → matches (any ∷ p) (c ∷ s) ≡ true
  unfolding matches
  matches-any_more p c s h = ground arith

  pub matches-any_inv :
      (p : List Token) (c : ℕ) (s : List ℕ)
      → matches (any ∷ p) (c ∷ s) ≡ true
      → (matches p (c ∷ s) ≡ true) ⊎ (matches (any ∷ p) s ≡ true)
  unfolding matches
  matches-any_inv p c s h = elim (Bool-cases (matches p (c ∷ s))) [
    | inl e ↦ inl e
    | inr e ↦ inr (rw e at h)
  ]

  pub matches-any_fail :
      (p : List Token) (c : ℕ) (s : List ℕ)
      → matches p (c ∷ s) ≡ false
      → matches (any ∷ p) (c ∷ s) ≡ matches (any ∷ p) s
  unfolding matches
  matches-any_fail p c s h = rw h

  pub matches-any_nil : (p : List Token) → matches (any ∷ p) [] ≡ matches p []
  unfolding matches
  matches-any_nil p = refl

  pub matches-any-any :
      (p : List Token) (s : List ℕ) → matches (any ∷ any ∷ p) s ≡ true → matches (any ∷ p) s ≡ true
  matches-any-any p [] h = rw (← matches-any_nil (any ∷ p)) h
  matches-any-any p (c ∷ s) h = elim (matches-any_inv (any ∷ p) c s h) [
    | inl e ↦ e
    | inr e ↦ matches-any_more p c s (matches-any-any p s e)
  ]

  -- A token other than `%` takes one character.
  abbrev pub takes : Token → ℕ → Bool
  takes any c = false
  takes one c = true
  takes (char pc) c = same pc c

  pub matches-takes :
      (t : Token) (p : List Token) (c : ℕ) (s : List ℕ)
      → takes t c ≡ true
      → matches (t ∷ p) (c ∷ s) ≡ matches p s
  unfolding matches
  matches-takes any p c s h = cc
  matches-takes one p c s h = refl
  matches-takes (char pc) p c s h = rw h

  pub matches-refuses :
      (t : Token) (p : List Token) (c : ℕ) (s : List ℕ)
      → t ≢ any
      → takes t c ≡ false
      → matches (t ∷ p) (c ∷ s) ≡ false
  unfolding matches
  matches-refuses any p c s n h = absurd (n refl)
  matches-refuses one p c s n h = cc
  matches-refuses (char pc) p c s n h = rw h

  pub matches-token :
      (t : Token) (p : List Token) (u : List ℕ)
      → t ≢ any
      → matches (t ∷ p) u ≡ true
      → (d : ℕ) × (r : List ℕ) × (u ≡ d ∷ r) × (matches p r ≡ true)
  unfolding matches
  matches-token any p u n h = absurd (n refl)
  matches-token one p [] n h = cc
  matches-token one p (d ∷ r) n h = (d, r, refl, h)
  matches-token (char pc) p [] n h = cc
  matches-token (char pc) p (d ∷ r) n h = (d, r, refl, ground arith)

  pub takes-token : (t : Token) (c : ℕ) → takes t c ≡ true → t ≢ any
  takes-token any c h = cc
  takes-token one c h = cc
  takes-token (char pc) c h = cc
