-- ===== src/Like/Covers.antt =====
-- How the matcher of src/exec/expr/like.rs goes on without a `%`: some tokens taken off a pattern, one for
-- each character taken off a text.
use adelie.Base.{ℕ, ◌≡◌, refl, ◌∙◌, sym, subst, List, [], ◌∷◌}
use adelie.Base.{Bool, true, false, inl, inr}
use adelie.Like.{Token, any}
use adelie.Like.Matches.{
  matches, matches-any_skip, matches-any_more, matches-any_inv, matches-any_nil, matches-any-any,
  takes, takes-token, matches-takes, matches-token,
}

pub data Suffix : List ℕ → List ℕ → Type 0 where
  whole : (s : List ℕ) → Suffix s s
  later : (u s : List ℕ) (c : ℕ) → Suffix u s → Suffix u (c ∷ s)

tail-Suffix : (u s : List ℕ) (c : ℕ) → Suffix (c ∷ u) s → Suffix u s
tail-Suffix u s c (whole _) = later u u c (whole u)
tail-Suffix u s c (later _ s' d h) = later u s' d (tail-Suffix u s' c h)

tails-Suffix : (u s : List ℕ) (c d : ℕ) → Suffix (c ∷ u) (d ∷ s) → Suffix u s
tails-Suffix u s c d (whole _) = whole u
tails-Suffix u s c d (later _ _ _ h) = tail-Suffix u s c h

module _ (same : ℕ → ℕ → Bool) where
  pub data Covers : List Token → List ℕ → List Token → List ℕ → Type 0 where
    none_yet : (p : List Token) (s : List ℕ) → Covers p s p s
    one_more :
        (t : Token) (c : ℕ) {p q : List Token} {s r : List ℕ}
        → Covers p s (t ∷ q) (c ∷ r)
        → takes same t c ≡ true
        → Covers p s q r

  -- What is left decides.
  pub Covers-matches :
      (p q : List Token) (s r : List ℕ) → Covers p s q r → matches same p s ≡ matches same q r
  Covers-matches p q s r (none_yet _ _) = refl
  Covers-matches p q s r (one_more t c h e) =
      Covers-matches p (t ∷ q) s (c ∷ r) h ∙ matches-takes same t q c r e

  any-Suffix :
      (p : List Token) (u s : List ℕ)
      → Suffix u s
      → matches same p u ≡ true
      → matches same (any ∷ p) s ≡ true
  any-Suffix p u s (whole _) m = matches-any_skip same p s m
  any-Suffix p u s (later _ s' c h) m = matches-any_more same p c s' (any-Suffix p u s' h m)

  any-Suffix_inv :
      (p : List Token) (s : List ℕ)
      → matches same (any ∷ p) s ≡ true
      → (u : List ℕ) × Suffix u s × (matches same p u ≡ true)
  any-Suffix_inv p [] m = ([], whole [], rw (← matches-any_nil same p) m)
  any-Suffix_inv p (c ∷ s) m = elim (matches-any_inv same p c s m) [
    | inl here ↦ (c ∷ s, whole (c ∷ s), here)
    | inr after ↦ let (u, at, h) = any-Suffix_inv p s after in (u, later u s c at, h)
  ]

  -- A match of the whole pattern further on leaves the rest of the pattern a match further on.
  Covers-Suffix :
      (p q : List Token) (s r u : List ℕ)
      → Covers p s q r
      → Suffix u s
      → matches same p u ≡ true
      → (v : List ℕ) × Suffix v r × (matches same q v ≡ true)
  Covers-Suffix p q s r u (none_yet _ _) h m = (u, h, m)
  Covers-Suffix p q s r u (one_more t c e k) h m =
      let (v, at, n) = Covers-Suffix p (t ∷ q) s (c ∷ r) u e h m in
      let (d, w, same_v, n') = matches-token same t q v (takes-token same t c k) n in
      (w, tails-Suffix w r d c (subst (λ v. Suffix v (c ∷ r)) same_v at), n')

  -- So after some tokens, a `%` in front of the pattern is as good as one in front of what is left.
  pub Covers-any :
      (p q : List Token) (s r : List ℕ)
      → Covers p s q r
      → matches same (any ∷ p) s ≡ true
      → matches same (any ∷ q) r ≡ true
  Covers-any p q s r h m =
      let (u, at, n) = any-Suffix_inv p s m in
      let (v, at', n') = Covers-Suffix p q s r u h at n in any-Suffix q v r at' n'

  both_ways : (a b : Bool) → (a ≡ true → b ≡ true) → (b ≡ true → a ≡ true) → a ≡ b
  both_ways true b f g = sym (f refl)
  both_ways false true f g = g refl
  both_ways false false f g = refl

  -- A later `%` takes the place of an earlier one.
  pub Covers-any-any :
      (p q : List Token) (s r : List ℕ)
      → Covers p s (any ∷ q) r
      → matches same (any ∷ p) s ≡ matches same (any ∷ q) r
  Covers-any-any p q s r h =
      both_ways _ _ (λ m. matches-any-any same q r (Covers-any p (any ∷ q) s r h m))
        (λ m. matches-any_skip same p s (rw (Covers-matches p (any ∷ q) s r h) m))

  -- Where the text is used up, the `%` takes nothing.
  pub Covers-end :
      (p q : List Token) (s : List ℕ)
      → Covers p s q []
      → matches same (any ∷ p) s ≡ matches same q []
  Covers-end p q s h =
      both_ways _ _ (λ m. rw (← matches-any_nil same q) (Covers-any p q s [] h m))
        (λ m. matches-any_skip same p s (rw (Covers-matches p q s [] h) m))
