-- ===== src/Like/Matcher.antt =====
-- `like_match` of src/exec/expr/like.rs against what LIKE means.
use adelie.Base.{
  ℕ, zero, suc, ◌+◌, ◌*◌, ◌<◌, arith, ◌≡◌, refl, ap, ◌∙◌, sym, subst, List, length, get_elem?, drop,
  length-drop, ◌==◌, Option-cases, Bool, true, false, inl, inr, Bool-cases, Option, none, some, ◌≢◌,
}
use adelie.Like.{
  Token, any, one, char, Greedy, start, is_any, skip_any, literal_match, char_eq, round, match_loop,
  like_match,
}
use adelie.Like.Matches.{matches, takes}
use adelie.Like.State.{
  IsState, start-IsState, rounds_left, After, literal-After, any-After, back-After, stuck-After,
  goal, end-goal, skip_any-matches, drop-end,
}

module _ (lower : ℕ → List ℕ) (case_insensitive : Bool) where
  abbrev same : ℕ → ℕ → Bool
  same = char_eq lower case_insensitive

  literal_match-takes :
      (o : Option Token) (c : ℕ)
      → literal_match lower case_insensitive o c ≡ true
      → (t : Token) × (o ≡ some t) × (takes same t c ≡ true)
  literal_match-takes none c h = cc
  literal_match-takes (some any) c h = cc
  literal_match-takes (some one) c h = (one, refl, refl)
  literal_match-takes (some (char pc)) c h = (char pc, refl, h)

  literal_match-refuses :
      (t : Token) (c : ℕ)
      → literal_match lower case_insensitive (some t) c ≡ false
      → takes same t c ≡ false
  literal_match-refuses any c h = refl
  literal_match-refuses one c h = cc
  literal_match-refuses (char pc) c h = h

  is_any-some : (o : Option Token) → is_any o ≡ true → o ≡ some any
  is_any-some none h = cc
  is_any-some (some any) h = refl
  is_any-some (some one) h = cc
  is_any-some (some (char pc)) h = cc

  is_any-other : (o : Option Token) → is_any o ≡ false → o ≢ some any
  is_any-other o h e = cc

  module _ (s : List ℕ) (p : List Token) where
    round-After :
        (g : Greedy) (c : ℕ)
        → IsState same s p g
        → get_elem? s g.si ≡ some c
        → After same s p g (round lower case_insensitive p c g)
    unfolding round rounds_left
    round-After g c h at_s =
        elim (Bool-cases (literal_match lower case_insensitive (get_elem? p g.pi) c)) [
          | inl e ↦
              let (t, at_p, e') = literal_match-takes (get_elem? p g.pi) c e in
              rw e (literal-After same s p g c h at_s t at_p e')
          | inr e ↦ elim (Bool-cases (is_any (get_elem? p g.pi))) [
            | inl e' ↦ rw (e, e') (any-After same s p g c h at_s (is_any-some _ e'))
            | inr e' ↦
                let ahead =
                  stuck-After same s p g c h at_s (get_elem? p g.pi) refl (is_any-other _ e')
                    (λ t k.
                      literal_match-refuses t c
                        (subst (λ o. literal_match lower case_insensitive o c ≡ false) k e)) in
                elim (Option-cases g.star) [
                  | inl k ↦
                      rw (e, e', k)
                        (h.answer ∙ ap (λ o. goal same s p o g.match_from g.si g.pi) k ∙ ahead)
                  | inr (star, k) ↦ rw (e, e', k) (back-After same s p g c h at_s star k ahead)
                ]
          ]
        ]

    -- The text is used up.
    end-matches :
        (g : Greedy)
        → IsState same s p g
        → get_elem? s g.si ≡ none
        → (skip_any (drop g.pi p) g.pi == length p) ≡ matches same p s
    end-matches g h at_s =
        ap (λ n. skip_any (drop g.pi p) g.pi == n) (omega (arith, length-drop g.pi p, h.inside))
        ∙ skip_any-matches same (drop g.pi p) g.pi
        ∙ sym (
            h.answer ∙ end-goal same s p g.match_from g.si g.pi g.star (drop-end s g.si at_s) h.way)

    match_loop-matches :
        (fuel : ℕ) (g : Greedy)
        → IsState same s p g
        → rounds_left same s p g < fuel
        → match_loop lower case_insensitive fuel s p g ≡ some (matches same p s)
    unfolding match_loop
    match_loop-matches zero g h enough = absurd (omega arith)
    match_loop-matches (suc fuel) g h enough = elim (Option-cases (get_elem? s g.si)) [
      | inl at_s ↦ rw (at_s, match_loop) (ap some (end-matches g h at_s))
      | inr (c, at_s) ↦
          let after = round-After g c h at_s in
          elim (Option-cases (round lower case_insensitive p c g)) [
            | inl e ↦ rw (at_s, e, match_loop) (ap some (sym (rw e at after)))
            | inr (g', e) ↦
                let (h', less) = subst (After same s p g) e after in
                rw (at_s, e, match_loop) (match_loop-matches fuel g' h' (omega arith))
          ]
    ]

    enough-matches :
        (fuel : ℕ)
        → length s * (length p + 1) + length p < fuel
        → match_loop lower case_insensitive fuel s p start ≡ some (matches same p s)
    unfolding rounds_left
    enough-matches fuel enough =
        match_loop-matches fuel start (start-IsState same s p) (grind arith)

    -- `like_match` returns, and its answer is that of the reference, which tries for each `%` all
    -- lengths of what it stands for.
    pub like_match-matches :
        like_match lower case_insensitive s p ≡ some (matches (char_eq lower case_insensitive) p s)
    unfolding like_match
    like_match-matches = enough-matches (length s * (length p + 1) + length p + 1) (omega arith)

    -- The loop of `like_match` ends: for `n` characters and `m` tokens, whatever fuel above
    -- `n * (m + 1) + m` rounds it has, it returns an answer, and always the one of `like_match`.
    pub match_loop-ends :
        (fuel : ℕ)
        → length s * (length p + 1) + length p < fuel
        → (answer : Bool) × (match_loop lower case_insensitive fuel s p start ≡ some answer)
          × (like_match lower case_insensitive s p ≡ some answer)
    match_loop-ends fuel enough = (matches same p s, enough-matches fuel enough, like_match-matches)
