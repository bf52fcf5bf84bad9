-- ===== src/Segment/Crc.antt =====
-- src/storage/segment/crc.rs: CRC32C. A `u32` is a number below 2^32, so that `!x` is 2^32 - 1 - x.
use adelie.Base.{
  ℕ, zero, suc, ◌-◌, ◌/◌, ◌^◌, ◌<◌, arith, bit_and, bit_xor, List, [], ◌∷◌, ◌==◌, if◌then◌else◌,
}

abbrev poly : ℕ
poly = 0x82f63b78

-- The inner loop of `build_table`, of `n` rounds, and the entry of the table that it makes.
unfoldable pub shift_rounds : ℕ → ℕ → ℕ
shift_rounds zero c = c
shift_rounds (suc n) c = shift_rounds n (if bit_and c 1 == 0 then c / 2 else bit_xor poly (c / 2))

unfoldable pub table : ℕ → ℕ
unfolding shift_rounds
table i = shift_rounds 8 i

unfoldable pub crc_loop : ℕ → List ℕ → ℕ
unfolding table
crc_loop crc [] = crc
crc_loop crc (b ∷ bytes) =
    crc_loop (bit_xor (table (bit_and (bit_xor crc b) 0xff)) (crc / 2 ^ 8)) bytes

unfoldable pub crc32c : List ℕ → ℕ
unfolding crc_loop
crc32c bytes = 2 ^ 32 - 1 - crc_loop (2 ^ 32 - 1) bytes

pub crc32c-lt : (bytes : List ℕ) → crc32c bytes < 2 ^ 32
unfolding crc32c
crc32c-lt bytes = omega arith
