-- ===== src/Examples/Like.antt =====
-- LIKE on small texts, with the two cases of ASCII letters folded.
use adelie.Base.{
  Bool, ℕ, ◌≡◌, refl, arith, ◌+◌, List, [], ◌∷◌, true, false, none, some, leb, if◌then◌else◌, ◌&&◌,
}
use adelie.Base.Text.{bytes, text_eq}
use adelie.Like.{
  Token, any, one, char, start, compile, compile_rest, char_eq, round, match_loop, like_match,
  skip_any,
}
use adelie.Like.Matches.{matches}
use adelie.Like.Matcher.{like_match-matches, match_loop-ends}

abbrev lower : ℕ → List ℕ
lower c = (if leb 65 c && leb c 90 then c + 32 else c) ∷ []

-- `%ab_`
abbrev tokens : List Token
tokens = any ∷ char 97 ∷ char 98 ∷ one ∷ []

compile_example : compile (bytes "%ab_") ≡ some tokens
unfolding compile compile_rest
compile_example = refl

compile_escape : compile (bytes "\\%") ≡ some (char 37 ∷ [])
unfolding compile compile_rest
compile_escape = refl

compile_fails : compile (bytes "a\\") ≡ none
unfolding compile compile_rest
compile_fails = refl

ilike : like_match lower true (bytes "aABabx") tokens ≡ some true
unfolding like_match match_loop round skip_any char_eq text_eq
ilike = refl

like : like_match lower false (bytes "aABabxy") tokens ≡ some false
unfolding like_match match_loop round skip_any char_eq
like = refl

like_match-matches_example :
    like_match lower true (bytes "aABabx") tokens
    ≡ some (matches (char_eq lower true) tokens (bytes "aABabx"))
like_match-matches_example = like_match-matches lower true (bytes "aABabx") tokens

match_loop-ends_example :
    (answer : Bool) × (match_loop lower true 100 (bytes "aABabx") tokens start ≡ some answer)
    × (like_match lower true (bytes "aABabx") tokens ≡ some answer)
match_loop-ends_example = match_loop-ends lower true (bytes "aABabx") tokens 100 (omega arith)
