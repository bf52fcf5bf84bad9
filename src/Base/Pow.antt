-- ===== src/Base/Pow.antt =====
-- Powers of two: sums of exponents, and the binary digits of a number from one place to another.
use Prim.Native.Nat.{ℕ, zero, suc, ◌+◌, ◌*◌, ◌/◌, ◌%◌, ◌^◌, ◌<◌}
use mathlib.Core.Path.{◌≡◌, refl, sym, ap, ◌∙◌}
use native.Mathlib.Omega.{arith}
use native.Mathlib.Nat.{
  zero-add, suc-add, pow-suc, one-le-pow, div-div-eq-div-mul, mod-lt, mod-eq_of_lt, div-add-mod',
}
use native.Mathlib.Nat.{add-mul-mod_self_right, add-mul-div_right, div-eq_of_lt}

pub pow_add : (a b : ℕ) → 2 ^ (a + b) ≡ 2 ^ a * 2 ^ b
pow_add zero b = rw zero-add (omega arith)
pow_add (suc a) b = rw suc-add (
    omega
      (arith, pow-suc 2 (a + b), pow-suc 2 a, pow_add a b, ap (λ (t : ℕ). t * 2 ^ b) (pow-suc 2 a)))

pub pow_pos : (a : ℕ) → 0 < 2 ^ a
pow_pos a = one-le-pow a 2 (omega arith)

eight_more : (i : ℕ) → 8 * i + 8 ≡ 8 * suc i
eight_more i = omega arith

pub pow_256 : (i : ℕ) → 256 ^ i ≡ 2 ^ (8 * i)
pow_256 zero = refl
pow_256 (suc i) =
    pow-suc 256 i
    ∙ ap (λ (t : ℕ). t * 256) (pow_256 i)
    ∙ sym (pow_add (8 * i) 8)
    ∙ ap (λ (t : ℕ). 2 ^ t) (eight_more i)

-- A number in two parts: the part below 2 ^ a, and the part above.
pub low_part : (a r q : ℕ) → r < 2 ^ a → (r + q * 2 ^ a) % 2 ^ a ≡ r
low_part a r q h = add-mul-mod_self_right r q (2 ^ a) ∙ mod-eq_of_lt h

pub high_part : (a r q : ℕ) → r < 2 ^ a → (r + q * 2 ^ a) / 2 ^ a ≡ q
high_part a r q h = add-mul-div_right r q (pow_pos a) ∙ omega (arith, div-eq_of_lt h)

pub div_pow_add : (x a b : ℕ) → x / 2 ^ (a + b) ≡ x / 2 ^ a / 2 ^ b
div_pow_add x a b = ap (λ (t : ℕ). x / t) (pow_add a b) ∙ sym (div-div-eq-div-mul x (2 ^ a) (2 ^ b))

-- Two parts that fit their places fit together.
pub fits_pow_add : (a b r q : ℕ) → r < 2 ^ a → q < 2 ^ b → r + q * 2 ^ a < 2 ^ (a + b)
fits_pow_add a b r q hr hq = rw pow_add (grind arith)

-- The lowest `a + b` digits are the lowest `a`, and `b` digits above them.
pub mod_pow_add : (x a b : ℕ) → x % 2 ^ (a + b) ≡ x % 2 ^ a + x / 2 ^ a % 2 ^ b * 2 ^ a
mod_pow_add x a b =
    let r = x % 2 ^ a + x / 2 ^ a % 2 ^ b * 2 ^ a in
    let q = x / 2 ^ a / 2 ^ b in
    let split : x ≡ r + q * 2 ^ (a + b) = omega (
      arith,
      div-add-mod' x (2 ^ a),
      ap (λ (t : ℕ). t * 2 ^ a) (div-add-mod' (x / 2 ^ a) (2 ^ b)),
      ap (λ (t : ℕ). q * t) (pow_add a b),
    ) in
    ap (λ (t : ℕ). t % 2 ^ (a + b)) split
    ∙ low_part (a + b) r q (
        fits_pow_add a b (x % 2 ^ a) (x / 2 ^ a % 2 ^ b) (mod-lt x (pow_pos a))
          (mod-lt (x / 2 ^ a) (pow_pos b)))

-- The two parts of a number are determined by it.
pub parts-injective :
    (a r q r' q' : ℕ)
    → r < 2 ^ a
    → r' < 2 ^ a
    → r + q * 2 ^ a ≡ r' + q' * 2 ^ a
    → (r ≡ r') × (q ≡ q')
parts-injective a r q r' q' h h' e = (
  sym (low_part a r q h) ∙ ap (λ (t : ℕ). t % 2 ^ a) e ∙ low_part a r' q' h',
  sym (high_part a r q h) ∙ ap (λ (t : ℕ). t / 2 ^ a) e ∙ high_part a r' q' h',
)
