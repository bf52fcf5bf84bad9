-- ===== src/Wire/Zigzag.antt =====
-- `zigzag` and `unzigzag` of src/storage/segment/wire.rs are inverse to one another, and small
-- magnitudes of either sign stay small.
use adelie.Base.{ℕ, ◌+◌, ◌-◌, ◌*◌, ◌/◌, ◌%◌, ◌^◌, ◌≡◌, ltb, if◌then◌else◌, arith}
use adelie.Base.Bits.{and_low_ones, xor_ones, xor-zero}
use adelie.Wire.{IsU64, zigzag, unzigzag}

zigzag_lem :
    (v : ℕ) → IsU64 v → zigzag v ≡ (if ltb v (2 ^ 63) then 2 * v else 2 * (2 ^ 64 - 1 - v) + 1)
unfolding zigzag
zigzag_lem v h = ground (arith, xor_ones 64 (v * 2 % 2 ^ 64), xor-zero (v * 2 % 2 ^ 64))

unzigzag_lem :
    (v : ℕ) → IsU64 v → unzigzag v ≡ (if ltb 0 (v % 2) then 2 ^ 64 - 1 - v / 2 else v / 2)
unfolding unzigzag
unzigzag_lem v h = ground (arith, and_low_ones 1 v, xor_ones 64 (v / 2), xor-zero (v / 2))

pub zigzag-lt : (v : ℕ) → IsU64 v → IsU64 (zigzag v)
zigzag-lt v h = ground (arith, zigzag_lem v)

pub unzigzag-zigzag : (v : ℕ) → IsU64 v → unzigzag (zigzag v) ≡ v
unzigzag-zigzag v h = ground (arith, zigzag_lem v, unzigzag_lem (zigzag v))

pub zigzag-unzigzag : (v : ℕ) → IsU64 v → zigzag (unzigzag v) ≡ v
zigzag-unzigzag v h = ground (arith, unzigzag_lem v, zigzag_lem (unzigzag v))

-- `zigzag` and `unzigzag` are inverse to one another on 64-bit words, and the word that stands for
-- n or for -n - 1, with n below 2 ^ 63, goes to 2 * n or to 2 * n + 1.
pub zigzag_bijective :
    (v : ℕ)
    → IsU64 v
    → (unzigzag (zigzag v) ≡ v)
      × (zigzag (unzigzag v) ≡ v)
      × (zigzag v ≡ (if ltb v (2 ^ 63) then 2 * v else 2 * (2 ^ 64 - 1 - v) + 1))
zigzag_bijective v h = (unzigzag-zigzag v h, zigzag-unzigzag v h, zigzag_lem v h)
