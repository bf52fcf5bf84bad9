-- ===== src/Like/State.antt =====
-- The state of the loop of `like_match` in src/exec/expr/like.rs: what a round does to it.
use adelie.Base.{
  ℕ, zero, suc, ◌+◌, ◌-◌, ◌*◌, ◌<◌, ◌≤◌, arith, ◌≡◌, refl, ap, ap₂, ◌∙◌, sym, subst, subst₂, List,
  [], ◌∷◌,
}
use adelie.Base.{length, get_elem?, drop, get_elem-some, ◌==◌}
use adelie.Base.{Bool, true, false, Option, none, some, ◌≢◌}
use adelie.Base.Each.{some-injective}
use adelie.Like.{Token, any, one, char, Greedy, start, skip_any}
use adelie.Like.Matches.{matches, matches-any_fail, takes, matches-takes, matches-refuses}
use adelie.Like.Covers.{Covers, none_yet, one_more, Covers-matches, Covers-any-any, Covers-end}

drop-step {ℓ} :
    {A : Type ℓ} (xs : List A) (i : ℕ) (x : A)
    → get_elem? xs i ≡ some x
    → drop i xs ≡ x ∷ drop (i + 1) xs
drop-step [] i x h = cc
drop-step (y ∷ xs) zero x h = ap (λ z. z ∷ xs) (ground arith)
drop-step (y ∷ xs) (suc i) x h =
    drop-step xs i x h ∙ ap (λ n. x ∷ drop n (y ∷ xs)) {x = suc (i + 1)} (omega arith)

pub drop-end {ℓ} : {A : Type ℓ} (xs : List A) (i : ℕ) → get_elem? xs i ≡ none → drop i xs ≡ []
drop-end [] zero h = refl
drop-end [] (suc i) h = refl
drop-end (x ∷ xs) zero h = cc
drop-end (x ∷ xs) (suc i) h = drop-end xs i h

pub get_elem-lt {ℓ} :
    {A : Type ℓ} (xs : List A) (i : ℕ) (x : A) → get_elem? xs i ≡ some x → i < length xs
get_elem-lt [] i x h = cc
get_elem-lt (y ∷ xs) zero x h = omega arith
get_elem-lt (y ∷ xs) (suc i) x h = omega (arith, get_elem-lt xs i x h)

module _ (same : ℕ → ℕ → Bool) where
  pub skip_any-matches :
      (ts : List Token) (pi : ℕ) → (skip_any ts pi == pi + length ts) ≡ matches same ts []
  unfolding skip_any matches
  skip_any-matches [] pi = ground arith
  skip_any-matches (any ∷ ts) pi =
      ap (λ n. skip_any ts (pi + 1) == n) (omega arith) ∙ skip_any-matches ts (pi + 1)
  skip_any-matches (one ∷ ts) pi = ground arith
  skip_any-matches (char c ∷ ts) pi = ground arith

module _ (same : ℕ → ℕ → Bool) (s : List ℕ) (p : List Token) where
  -- The match that is left to decide at a state of the loop.
  abbrev pub goal : Option ℕ → ℕ → ℕ → ℕ → Bool
  goal none match_from si pi = matches same (drop pi p) (drop si s)
  goal (some star) match_from si pi = matches same (any ∷ drop (star + 1) p) (drop match_from s)

  -- How the loop came there from its last `%`.
  abbrev pub Way : Option ℕ → ℕ → ℕ → ℕ → Type 0
  Way none match_from si pi = Unit
  Way (some star) match_from si pi =
      Covers same (drop (star + 1) p) (drop match_from s) (drop pi p) (drop si s)

  pub record IsState (g : Greedy) : Type 0 where
    pub inside : g.pi ≤ length p
    pub behind : g.match_from ≤ g.si
    pub answer : matches same p s ≡ goal g.star g.match_from g.si g.pi
    pub way : Way g.star g.match_from g.si g.pi
    pub starred : (star : ℕ) → g.star ≡ some star → star < length p

  unfoldable pub rounds_left : Greedy → ℕ
  rounds_left g = (length s - g.match_from) * (length p + 1) + (length p - g.pi)

  pub start-IsState : IsState start
  start-IsState = record {
    inside = omega arith;
    behind = omega arith;
    answer = refl;
    way = tt;
    starred = λ star e. absurd (no_star star e);
  }
    where
      no_star : (star : ℕ) → ◌≡◌ {A = Option ℕ} none (some star) → ⊥
      no_star star e = cc

  module _ (mf si pi : ℕ) where
    abbrev Ahead : Type 0
    Ahead = matches same (drop pi p) (drop si s) ≡ false

    literal-goal :
        (star : Option ℕ) (t : Token) (c : ℕ)
        → drop pi p ≡ t ∷ drop (pi + 1) p
        → drop si s ≡ c ∷ drop (si + 1) s
        → takes same t c ≡ true
        → goal star mf si pi ≡ goal star mf (si + 1) (pi + 1)
    literal-goal none t c h k e = ap₂ (matches same) h k ∙ matches-takes same t _ c _ e
    literal-goal (some star) t c h k e = refl

    literal-Way :
        (star : Option ℕ) (t : Token) (c : ℕ)
        → drop pi p ≡ t ∷ drop (pi + 1) p
        → drop si s ≡ c ∷ drop (si + 1) s
        → takes same t c ≡ true
        → Way star mf si pi
        → Way star mf (si + 1) (pi + 1)
    literal-Way none t c h k e w = tt
    literal-Way (some star) t c h k e w =
        one_more t c (subst₂ (Covers same (drop (star + 1) p) (drop mf s)) h k w) e

    any-goal :
        (star : Option ℕ)
        → drop pi p ≡ any ∷ drop (pi + 1) p
        → Way star mf si pi
        → goal star mf si pi ≡ goal (some pi) si si (pi + 1)
    any-goal none h w = ap (λ q. matches same q (drop si s)) h
    any-goal (some star) h w =
        Covers-any-any same _ _ _ _
          (subst (λ q. Covers same (drop (star + 1) p) (drop mf s) q (drop si s)) h w)

    back-goal :
        (star d : ℕ)
        → Ahead
        → drop mf s ≡ d ∷ drop (mf + 1) s
        → Way (some star) mf si pi
        → goal (some star) mf si pi ≡ goal (some star) (mf + 1) (mf + 1) (star + 1)
    back-goal star d e h w =
        ap (matches same (any ∷ drop (star + 1) p)) h
        ∙ matches-any_fail same _ d _
            (ap (matches same (drop (star + 1) p)) (sym h) ∙ Covers-matches same _ _ _ _ w ∙ e)

    pub end-goal :
        (star : Option ℕ)
        → drop si s ≡ []
        → Way star mf si pi
        → goal star mf si pi ≡ matches same (drop pi p) []
    end-goal none h w = ap (matches same (drop pi p)) h
    end-goal (some star) h w =
        Covers-end same _ _ _ (subst (Covers same (drop (star + 1) p) (drop mf s) (drop pi p)) h w)

  -- What a round comes to.
  abbrev pub After : Greedy → Option Greedy → Type 0
  After g none = matches same p s ≡ false
  After g (some g') = IsState g' × (rounds_left g' < rounds_left g)

  module _ (g : Greedy) (c : ℕ) (h : IsState g) (at_s : get_elem? s g.si ≡ some c) where
    pub literal-After :
        (t : Token)
        → get_elem? p g.pi ≡ some t
        → takes same t c ≡ true
        → After g (some (record g { si = g.si + 1; pi = g.pi + 1 }))
    unfolding rounds_left
    literal-After t at_p e = (
      record {
        inside = omega (arith, get_elem-lt p g.pi t at_p);
        behind = omega (arith, h.behind);
        answer =
            h.answer
            ∙ literal-goal _ _ _ g.star t c (drop-step p g.pi t at_p) (drop-step s g.si c at_s) e;
        way =
            literal-Way _ _ _ g.star t c (drop-step p g.pi t at_p) (drop-step s g.si c at_s) e
              h.way;
        starred = h.starred;
      },
      omega (arith, get_elem-lt p g.pi t at_p),
    )

    pub any-After :
        get_elem? p g.pi ≡ some any
        → After g (some (record g { star = some g.pi; match_from = g.si; pi = g.pi + 1 }))
    unfolding rounds_left
    any-After at_p = (
      record {
        inside = omega (arith, get_elem-lt p g.pi any at_p);
        behind = omega arith;
        answer = h.answer ∙ any-goal g.match_from _ _ g.star (drop-step p g.pi any at_p) h.way;
        way = none_yet _ _;
        starred =
            λ star e. subst (λ k. k < length p) (some-injective e) (get_elem-lt p g.pi any at_p);
      },
      grind (arith, get_elem-lt p g.pi any at_p, h.behind),
    )

    pub back-After :
        (star : ℕ)
        → g.star ≡ some star
        → matches same (drop g.pi p) (drop g.si s) ≡ false
        → After g (
            some (record g { pi = star + 1; match_from = g.match_from + 1; si = g.match_from + 1 }))
    unfolding rounds_left
    back-After star e ahead =
        let (d, at_d) =
          get_elem-some s g.match_from (omega (arith, get_elem-lt s g.si c at_s, h.behind)) in
        (
          record {
            inside = omega (arith, h.starred star e);
            behind = omega arith;
            answer =
                h.answer
                ∙ ap (λ o. goal o g.match_from g.si g.pi) e
                ∙ back-goal g.match_from g.si g.pi star d ahead (drop-step s g.match_from d at_d)
                    (subst (λ o. Way o g.match_from g.si g.pi) e h.way)
                ∙ ap (λ o. goal o (g.match_from + 1) (g.match_from + 1) (star + 1)) (sym e);
            way =
                subst (λ o. Way o (g.match_from + 1) (g.match_from + 1) (star + 1)) (sym e)
                  (none_yet _ _);
            starred = h.starred;
          },
          grind (arith, get_elem-lt s g.si c at_s, h.behind),
        )

    -- No token takes the character.
    pub stuck-After :
        (o : Option Token)
        → get_elem? p g.pi ≡ o
        → o ≢ some any
        → ((t : Token) → o ≡ some t → takes same t c ≡ false)
        → matches same (drop g.pi p) (drop g.si s) ≡ false
    unfolding matches
    stuck-After none at_p n e = ap₂ (matches same) (drop-end p g.pi at_p) (drop-step s g.si c at_s)
    stuck-After (some t) at_p n e =
        ap₂ (matches same) (drop-step p g.pi t at_p) (drop-step s g.si c at_s)
        ∙ matches-refuses same t _ c _ (λ k. n (ap some k)) (e t refl)
