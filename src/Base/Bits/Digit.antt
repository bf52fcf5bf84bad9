-- ===== src/Base/Bits/Digit.antt =====
-- One binary digit of the results of `|` and `&`, and of the words that a shift by `k` makes.
use Prim.Native.Nat.{ℕ, zero, suc, ◌-◌, ◌/◌, ◌%◌, ◌^◌, ◌≤◌, ◌<◌, min, max, bit_and, bit_or}
use mathlib.Core.Path.{◌≡◌, refl, ap, ◌∙◌, sym}
use native.Mathlib.Omega.{arith}
use native.Mathlib.Nat.{zero-div, pow-suc, div-div-eq-div-mul}
use adelie.Base.Bits.Step.{or_halves, and_halves}
use adelie.Base.Tests.{◌==◌, if◌then◌else◌}

abbrev pub digit : ℕ → ℕ → ℕ
digit a k = a / 2 ^ k % 2

-- The digit above the lowest is a digit of the half.
pub digit-suc : (a k : ℕ) → digit a (suc k) ≡ digit (a / 2) k
digit-suc a k =
    ap (λ (t : ℕ). a / t % 2) (omega (arith, pow-suc 2 k))
    ∙ ap (λ (t : ℕ). t % 2) (sym (div-div-eq-div-mul a 2 (2 ^ k)))

pub digit-bit_or : (k a b : ℕ) → digit (bit_or a b) k ≡ max (digit a k) (digit b k)
digit-bit_or zero a b = omega (arith, or_halves a b)
digit-bit_or (suc k) a b =
    rw (digit-suc (bit_or a b) k, digit-suc a k, digit-suc b k)
      (ap (λ (t : ℕ). digit t k) (omega (arith, or_halves a b)) ∙ digit-bit_or k (a / 2) (b / 2))

pub digit-bit_and : (k a b : ℕ) → digit (bit_and a b) k ≡ min (digit a k) (digit b k)
digit-bit_and zero a b = omega (arith, and_halves a b)
digit-bit_and (suc k) a b =
    rw (digit-suc (bit_and a b) k, digit-suc a k, digit-suc b k)
      (ap (λ (t : ℕ). digit t k) (omega (arith, and_halves a b)) ∙ digit-bit_and k (a / 2) (b / 2))

-- `1 << j` has the digit `j` alone.
pub digit-pow : (k j : ℕ) → digit (2 ^ j) k ≡ (if k == j then 1 else 0)
digit-pow zero zero = refl
digit-pow zero (suc j) = ground (arith, pow-suc 2 j)
digit-pow (suc k) zero = digit-suc 1 k ∙ ground arith
digit-pow (suc k) (suc j) =
    digit-suc (2 ^ suc j) k
    ∙ ap (λ (t : ℕ). digit t k) (omega (arith, pow-suc 2 j))
    ∙ digit-pow k j
    ∙ ground arith

-- A number below 2 ^ w has no digit from `w` on.
pub digit_beyond : (w a k : ℕ) → a < 2 ^ w → w ≤ k → digit a k ≡ 0
digit_beyond zero zero k h le = rw zero-div
digit_beyond zero (suc a) k h le = absurd (omega arith)
digit_beyond (suc w) a zero h le = absurd (omega arith)
digit_beyond (suc w) a (suc k) h le =
    digit-suc a k ∙ digit_beyond w (a / 2) k (omega (arith, pow-suc 2 w)) (omega arith)

-- The complement of `a` in a word of `w` bits has the other digits.
pub digit-not : (w a k : ℕ) → a < 2 ^ w → k < w → digit (2 ^ w - 1 - a) k ≡ 1 - digit a k
digit-not zero a k h lt = absurd (omega arith)
digit-not (suc w) a zero h lt = omega (arith, pow-suc 2 w)
digit-not (suc w) a (suc k) h lt =
    digit-suc (2 ^ suc w - 1 - a) k
    ∙ ap (λ (t : ℕ). digit t k) (omega (arith, pow-suc 2 w))
    ∙ digit-not w (a / 2) k (omega (arith, pow-suc 2 w)) (omega arith)
    ∙ ap (λ (t : ℕ). 1 - t) (sym (digit-suc a k))

-- Numbers of `w` bits with the same digits are equal.
pub digits-injective :
    (w a b : ℕ) → a < 2 ^ w → b < 2 ^ w → ((k : ℕ) → digit a k ≡ digit b k) → a ≡ b
digits-injective zero a b h g e = omega arith
digits-injective (suc w) a b h g e =
    let halves : a / 2 ≡ b / 2 =
      digits-injective w (a / 2) (b / 2) (omega (arith, pow-suc 2 w)) (omega (arith, pow-suc 2 w))
        (λ k. sym (digit-suc a k) ∙ e (suc k) ∙ digit-suc b k) in
    omega (arith, e 0, halves)
