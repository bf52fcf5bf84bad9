-- ===== src/Like.antt =====
-- src/exec/expr/like.rs: LIKE and ILIKE. A `char` is its code point, and `lower` is what
-- `char::to_lowercase` gives for one. The matcher's loop runs on fuel, `none` where that ends.
pub mod Matches
pub mod Covers
pub mod State
pub mod Matcher
use adelie.Base.{ℕ, zero, suc, ◌+◌, ◌*◌, List, [], ◌∷◌, length, get_elem?, drop}
use adelie.Base.{Bool, true, false, Option, none, some, ◌==◌, if◌then◌else◌}
use adelie.Base.Text.{text_eq}

pub data Token : Type 0 where
  any one : Token
  char : ℕ → Token

abbrev pub token_then : Token → Option (List Token) → Option (List Token)
token_then t none = none
token_then t (some ts) = some (t ∷ ts)

abbrev pub token : ℕ → Token
token c = if c == 37 then any else if c == 95 then one else char c

-- The tokens of the characters that are left, the first of them escaped or not. `none` is the error
-- of a pattern that ends with an escape.
unfoldable pub compile_rest : Bool → List ℕ → Option (List Token)
compile_rest false [] = some []
compile_rest true [] = none
compile_rest true (c ∷ cs) = token_then (char c) (compile_rest false cs)
compile_rest false (c ∷ cs) = elim (c == 92) [
  | true ↦ compile_rest true cs
  | false ↦ token_then (token c) (compile_rest false cs)
]

unfoldable pub compile : List ℕ → Option (List Token)
compile pattern = compile_rest false pattern

-- The state of the loop of `like_match`.
pub record Greedy : Type 0 where
  pub si : ℕ
  pub pi : ℕ
  pub star : Option ℕ
  pub match_from : ℕ

abbrev pub start : Greedy
start = record { si = 0; pi = 0; star = none; match_from = 0 }

-- `p.get(pi) == Some(&Token::Any)`
abbrev pub is_any : Option Token → Bool
is_any (some any) = true
is_any _ = false

-- The loop behind the main one, over the tokens from `pi` on.
unfoldable pub skip_any : List Token → ℕ → ℕ
skip_any [] pi = pi
skip_any (any ∷ ts) pi = skip_any ts (pi + 1)
skip_any (one ∷ ts) pi = pi
skip_any (char c ∷ ts) pi = pi

module _ (lower : ℕ → List ℕ) (case_insensitive : Bool) where
  unfoldable pub char_eq : ℕ → ℕ → Bool
  char_eq a b = if case_insensitive then text_eq (lower a) (lower b) else a == b

  abbrev pub literal_match : Option Token → ℕ → Bool
  literal_match (some one) c = true
  literal_match (some (char pc)) c = char_eq pc c
  literal_match (some any) c = false
  literal_match none c = false

  -- One round, at the character `s[si]`; `none` is `return false`.
  unfoldable pub round : List Token → ℕ → Greedy → Option Greedy
  round p c g =
      if literal_match (get_elem? p g.pi) c
      then some (record g { si = g.si + 1; pi = g.pi + 1 })
      else if is_any (get_elem? p g.pi)
      then some (record g { star = some g.pi; match_from = g.si; pi = g.pi + 1 })
      else elim g.star [
        | some star_pos ↦
            some
              (record g { pi = star_pos + 1; match_from = g.match_from + 1; si = g.match_from + 1 })
        | none ↦ none
      ]

  unfoldable pub match_loop : ℕ → List ℕ → List Token → Greedy → Option Bool
  match_loop zero s p g = none
  match_loop (suc fuel) s p g = elim (get_elem? s g.si) [
    | none ↦ some (skip_any (drop g.pi p) g.pi == length p)
    | some c ↦ elim (round p c g) [ none ↦ some false | some g' ↦ match_loop fuel s p g' ]
  ]

  -- For `n` characters and `m` tokens, `n * (m + 1) + m` rounds and the last test.
  unfoldable pub like_match : List ℕ → List Token → Option Bool
  like_match s p = match_loop (length s * (length p + 1) + length p + 1) s p start
