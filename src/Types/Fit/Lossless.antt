-- ===== src/Types/Fit/Lossless.antt =====
-- `rescale` of src/types/fit.rs and the value of a decimal.
use adelie.Base.Each.{some-injective}
use adelie.Base.{
  ℕ, zero, suc, ◌+◌, ◌-◌, ◌*◌, ◌/◌, ◌^◌, ◌<◌, ◌≡◌, refl, sym, ap, ◌∙◌, arith, Bool, true, false,
}
use adelie.Base.{Option, none, some, ltb, leb, ◌==◌, Bool-cases, inl, inr}
use native.Mathlib.Nat.{mul_assoc, one-le-pow, div-add-mod', mod-lt, pow-suc, zero-add, suc-add}
use adelie.Types.{ℤ, pos, negsuc, unsigned_abs, DecimalType, Decimal, new_decimal, pow10}
use adelie.Types.Fit.{
  or_none, accepted, checked, within, times, rem_euclid, div_euclid, rescaled, rescale,
}

mul_positive : (a b : ℕ) → 0 < a → 0 < b → 0 < a * b
mul_positive a b h k = grind (arith, h, k)

times-negsuc : (n p : ℕ) → 0 < p → times (negsuc n) p ≡ negsuc ((n + 1) * p - 1)
times-negsuc n p h = let e : (p == 0) ≡ false = ground (arith, h) in rw e refl

times-times : (n : ℤ) (a b : ℕ) → 0 < a → 0 < b → times (times n a) b ≡ times n (a * b)
times-times (pos n) a b h k = ap pos (mul_assoc n a b)
times-times (negsuc n) a b h k =
    let e : (n + 1) * a - 1 + 1 ≡ (n + 1) * a =
      omega (arith, mul_positive (n + 1) a (omega arith) h) in
    rw
      (
        times-negsuc n a h,
        times-negsuc ((n + 1) * a - 1) b k,
        times-negsuc n (a * b) (mul_positive a b h k),
        e,
      )
      (ap (λ t. negsuc (t - 1)) (mul_assoc (n + 1) a b))

times-div_euclid : (n : ℤ) (d : ℕ) → 0 < d → rem_euclid n d ≡ 0 → times (div_euclid n d) d ≡ n
times-div_euclid (pos n) d h e = ap pos (omega (arith, div-add-mod' n d, e))
times-div_euclid (negsuc n) d h e =
    rw (times-negsuc (n / d) d h) (ap negsuc (grind (arith, div-add-mod' n d, mod-lt n h, e)))

pow10_positive : (n : ℕ) → 0 < pow10 n
pow10_positive n = one-le-pow n 10 (omega arith)

pow10_add : (a b : ℕ) → pow10 (a + b) ≡ pow10 a * pow10 b
pow10_add zero b = rw zero-add (omega arith)
pow10_add (suc a) b = rw suc-add (
    omega (
      arith,
      pow-suc 10 (a + b),
      pow-suc 10 a,
      pow10_add a b,
      ap (λ (t : ℕ). t * 10 ^ b) (pow-suc 10 a),
    ))

checked-some {ℓ} : {A : Type ℓ} (b : Bool) (a c : A) → checked b a ≡ some c → (b ≡ true) × (a ≡ c)
checked-some true a c h = (refl, some-injective h)
checked-some false a c h = cc

-- The digits stand for the same value at the two scales.
rescaled-value :
    (d : Decimal) (target : ℕ) (n : ℤ)
    → rescaled d target ≡ some n
    → times n (pow10 d.scale) ≡ times d.unscaled (pow10 target)
unfolding rescaled
rescaled-value d target n h = elim (Bool-cases (leb d.scale target)) [
  | inl up ↦
      let more = pow10_positive (target - d.scale) in
      let (fits_it, e) = checked-some _ _ n (rw up at h) in
      let scales : target - d.scale + d.scale ≡ target = ground (arith, up) in
      rw
        (
          sym e,
          times-times d.unscaled (pow10 (target - d.scale)) (pow10 d.scale) more
              (pow10_positive d.scale),
        )
        (ap (times d.unscaled) (sym (pow10_add (target - d.scale) d.scale) ∙ ap pow10 scales))
  | inr down ↦
      let more = pow10_positive (d.scale - target) in
      let (exact, e) = checked-some _ _ n (rw down at h) in
      let scales : d.scale ≡ d.scale - target + target = ground (arith, down) in
      let whole =
        times-div_euclid d.unscaled (pow10 (d.scale - target)) more (ground (arith, exact)) in
      ap (times n) (ap pow10 scales ∙ pow10_add (d.scale - target) target)
      ∙ sym (times-times n (pow10 (d.scale - target)) (pow10 target) more (pow10_positive target))
      ∙ ap (λ k. times k (pow10 target))
          (ap (λ k. times k (pow10 (d.scale - target))) (sym e) ∙ whole)
]

new_decimal-ok :
    (n : ℤ) (scale : ℕ) (d : Decimal)
    → accepted (new_decimal n scale) ≡ some d
    → (d.unscaled ≡ n) × (d.scale ≡ scale)
unfolding new_decimal
new_decimal-ok n scale d h = elim (Bool-cases (ltb 38 scale)) [
  | inl wide ↦ absurd (nothing (rw wide at h))
  | inr narrow ↦ elim (Bool-cases (leb (pow10 38) (unsigned_abs n))) [
    | inl long ↦ absurd (nothing (rw (narrow, long) at h))
    | inr short ↦
        let e = some-injective (rw (narrow, short) at h) in
        (ap (λ d. d.unscaled) (sym e), ap (λ d. d.scale) (sym e))
  ]
]
  where
    nothing : ◌≡◌ {A = Option Decimal} none (some d) → ⊥
    nothing k = cc

within-ok :
    (dt : DecimalType) (n : ℤ) (e : Decimal)
    → within dt n ≡ some e
    → (e.unscaled ≡ n) × (e.scale ≡ dt.scale) × (unsigned_abs n < pow10 dt.precision)
within-ok dt n e h = elim (Bool-cases (leb (pow10 dt.precision) (unsigned_abs n))) [
  | inl long ↦ absurd (nothing (rw long at h))
  | inr short ↦
      let (a, b) = new_decimal-ok n dt.scale e (rw short at h) in (a, b, ground (arith, short))
]
  where
    nothing : ◌≡◌ {A = Option Decimal} none (some e) → ⊥
    nothing k = cc

or_none-some {ℓ κ} :
    {A : Type ℓ} {B : Type κ} (o : Option A) (f : A → Option B) (b : B)
    → or_none o f ≡ some b
    → (a : A) × (o ≡ some a) × (f a ≡ some b)
or_none-some none f b h = cc
or_none-some (some a) f b h = (a, refl, h)

-- Where `rescale` gives a decimal, its scale is the column's, its digits are below ten to the
-- column's precision, and its value is the same: the new digits times ten to the old scale are the
-- old digits times ten to the new scale.
pub rescale-lossless :
    (d : Decimal) (dt : DecimalType) (e : Decimal)
    → rescale d dt ≡ some e
    → (e.scale ≡ dt.scale)
      × (unsigned_abs e.unscaled < pow10 dt.precision)
      × (times e.unscaled (pow10 d.scale) ≡ times d.unscaled (pow10 e.scale))
unfolding rescale
rescale-lossless d dt e h =
    let (n, digits, kept) = or_none-some (rescaled d dt.scale) (within dt) e h in
    let (u, s, short) = within-ok dt n e kept in
    (
      s,
      omega (arith, short, ap unsigned_abs u),
      ap (λ k. times k (pow10 d.scale)) u
          ∙ rescaled-value d dt.scale n digits
          ∙ ap (λ t. times d.unscaled (pow10 t)) (sym s),
    )
