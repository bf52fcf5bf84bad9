-- ===== src/Base/Bits.antt =====
-- `&`, `|` and `^` of machine words as arithmetic, at every width: a mask, a field that is
-- or-ed in above the bits in use, a word flipped, the top bit flipped, and `x ^ p ^ p`.
mod Step
pub mod Digit
use Step.{or_halves, and_halves, xor_halves}
use Prim.Native.Nat.{ℕ, zero, suc, ◌+◌, ◌-◌, ◌*◌, ◌/◌, ◌%◌, ◌^◌, ◌≤◌, ◌<◌}
use Prim.Native.Nat.{bit_and, bit_or, bit_xor, bit_or-bitwise}
use mathlib.Core.Path.{◌≡◌, refl, ap, ◌∙◌}
use adelie.Base.Tests.{ltb, if◌then◌else◌}
use native.Mathlib.Omega.{arith}
use native.Mathlib.Nat.{pow-suc, one-le-pow, div-add-mod', mod-lt, mod-eq_of_lt, zero-add}
use native.Mathlib.Nat.{add-mul-mod_self_right, div-div-eq-div-mul}

and-zero_fuel : (n a : ℕ) → a ≤ n → bit_and a 0 ≡ 0
and-zero_fuel n zero h = refl
and-zero_fuel zero (suc a) h = absurd (omega arith)
and-zero_fuel (suc n) (suc a) h =
    omega (arith, and_halves (suc a) 0, and-zero_fuel n (suc a / 2) (omega arith))

or-zero_fuel : (n a : ℕ) → a ≤ n → bit_or a 0 ≡ a
or-zero_fuel n zero h = refl
or-zero_fuel zero (suc a) h = absurd (omega arith)
or-zero_fuel (suc n) (suc a) h =
    omega (arith, or_halves (suc a) 0, or-zero_fuel n (suc a / 2) (omega arith))

xor-zero_fuel : (n a : ℕ) → a ≤ n → bit_xor a 0 ≡ a
xor-zero_fuel n zero h = refl
xor-zero_fuel zero (suc a) h = absurd (omega arith)
xor-zero_fuel (suc n) (suc a) h =
    omega (arith, xor_halves (suc a) 0, xor-zero_fuel n (suc a / 2) (omega arith))

double_pow : (q k : ℕ) → q * 2 ^ suc k ≡ 2 * (q * 2 ^ k)
double_pow q k = omega (arith, ap (λ (t : ℕ). q * t) (pow-suc 2 k))

-- The lowest `k + 1` bits are the lowest bit and the `k` bits above it.
half_mod : (k a : ℕ) → a % 2 ^ suc k ≡ a / 2 % 2 ^ k * 2 + a % 2
half_mod k a =
    let r = a / 2 % 2 ^ k * 2 + a % 2 in
    let q = a / 2 / 2 ^ k in
    let split : a ≡ r + q * 2 ^ suc k =
      omega (arith, div-add-mod' (a / 2) (2 ^ k), double_pow q k) in
    let low : r < 2 ^ suc k =
      omega (arith, pow-suc 2 k, mod-lt (a / 2) {m = 2 ^ k} (one-le-pow k 2 (omega arith))) in
    ap (λ (t : ℕ). t % 2 ^ suc k) split ∙ add-mul-mod_self_right r q (2 ^ suc k) ∙ mod-eq_of_lt low

-- A mask of `k` ones keeps the remainder by `2 ^ k`.
pub and_low_ones : (k a : ℕ) → bit_and a (2 ^ k - 1) ≡ a % 2 ^ k
and_low_ones zero a = rw (and-zero_fuel a a (omega arith)) (omega arith)
and_low_ones (suc k) a = ground (
  arith,
  and_halves a (2 ^ suc k - 1),
  pow-suc 2 k,
  one-le-pow k 2,
  and_low_ones k (a / 2),
  half_mod k a,
)

-- A field or-ed in above the `k` bits in use is added.
pub or_above : (k a q : ℕ) → a < 2 ^ k → bit_or a (q * 2 ^ k) ≡ a + q * 2 ^ k
or_above zero zero q h = rw zero-add (bit_or-bitwise 0 _)
or_above zero (suc a) q h = absurd (omega arith)
or_above (suc k) a q h = ground (
  arith,
  or_halves a (q * 2 ^ suc k),
  double_pow q k,
  pow-suc 2 k,
  or_above k (a / 2) q (omega (arith, pow-suc 2 k)),
)

-- Exclusive or with `k` ones flips every bit.
pub xor_ones : (k a : ℕ) → a < 2 ^ k → bit_xor a (2 ^ k - 1) ≡ 2 ^ k - 1 - a
xor_ones zero a h = rw (xor-zero_fuel a a (omega arith)) (omega arith)
xor_ones (suc k) a h = ground (
  arith,
  xor_halves a (2 ^ suc k - 1),
  pow-suc 2 k,
  one-le-pow k 2,
  xor_ones k (a / 2) (omega (arith, pow-suc 2 k)),
)

-- Exclusive or with the bit above the lowest `k` flips that bit alone.
pub xor_top :
    (k a : ℕ) → a < 2 ^ suc k → bit_xor a (2 ^ k) ≡ (if ltb a (2 ^ k) then a + 2 ^ k else a - 2 ^ k)
xor_top zero zero h = refl
xor_top zero (suc zero) h = refl
xor_top zero (suc (suc a)) h = absurd (omega arith)
xor_top (suc k) a h = ground (
  arith,
  xor_halves a (2 ^ suc k),
  pow-suc 2 k,
  pow-suc 2 (suc k),
  xor_top k (a / 2) (omega (arith, pow-suc 2 (suc k))),
)

xor_undo_fuel : (n a b : ℕ) → a + b ≤ n → bit_xor (bit_xor a b) b ≡ a
xor_undo_fuel n zero zero h = refl
xor_undo_fuel zero a b h = absurd (omega arith)
xor_undo_fuel (suc n) a b h = ground (
  arith,
  xor_halves (bit_xor a b) b,
  xor_halves a b,
  xor_undo_fuel n (a / 2) (b / 2) (omega arith),
)

-- Exclusive or with the same word twice changes nothing.
pub xor_undo : (a b : ℕ) → bit_xor (bit_xor a b) b ≡ a
xor_undo a b = xor_undo_fuel (a + b) a b (omega arith)

-- Exclusive or stays within the width.
pub xor-lt : (k a b : ℕ) → a < 2 ^ k → b < 2 ^ k → bit_xor a b < 2 ^ k
xor-lt zero zero zero h g = omega arith
xor-lt zero zero (suc b) h g = absurd (omega arith)
xor-lt zero (suc a) b h g = absurd (omega arith)
xor-lt (suc k) a b h g = omega (
  arith,
  xor_halves a b,
  pow-suc 2 k,
  xor-lt k (a / 2) (b / 2) (omega (arith, pow-suc 2 k)) (omega (arith, pow-suc 2 k)),
)

pub xor-zero : (a : ℕ) → bit_xor a 0 ≡ a
xor-zero a = xor-zero_fuel a a (omega arith)

-- A mask of one bit.
pub and_one_bit : (k a : ℕ) → bit_and a (2 ^ k) ≡ a / 2 ^ k % 2 * 2 ^ k
and_one_bit zero a = omega (arith, and_low_ones 1 a)
and_one_bit (suc k) a = ground (
  arith,
  and_halves a (2 ^ suc k),
  pow-suc 2 k,
  double_pow (a / 2 / 2 ^ k % 2) k,
  and_one_bit k (a / 2),
  half_div,
)
  where
    half_div : a / 2 / 2 ^ k ≡ a / 2 ^ suc k
    half_div = div-div-eq-div-mul a 2 (2 ^ k) ∙ ap (λ (t : ℕ). a / t) (omega (arith, pow-suc 2 k))

-- Or-ing stays within the width.
pub or-lt : (k a b : ℕ) → a < 2 ^ k → b < 2 ^ k → bit_or a b < 2 ^ k
or-lt zero zero zero h g = omega arith
or-lt zero zero (suc b) h g = absurd (omega arith)
or-lt zero (suc a) b h g = absurd (omega arith)
or-lt (suc k) a b h g = omega (
  arith,
  or_halves a b,
  pow-suc 2 k,
  or-lt k (a / 2) (b / 2) (omega (arith, pow-suc 2 k)) (omega (arith, pow-suc 2 k)),
)

-- And-ing with anything stays within the width of the first word.
pub and-lt : (k a b : ℕ) → a < 2 ^ k → b < 2 ^ k → bit_and a b < 2 ^ k
and-lt zero zero zero h g = omega arith
and-lt zero zero (suc b) h g = absurd (omega arith)
and-lt zero (suc a) b h g = absurd (omega arith)
and-lt (suc k) a b h g = omega (
  arith,
  and_halves a b,
  pow-suc 2 k,
  and-lt k (a / 2) (b / 2) (omega (arith, pow-suc 2 k)) (omega (arith, pow-suc 2 k)),
)
