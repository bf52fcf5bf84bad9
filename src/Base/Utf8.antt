-- ===== src/Base/Utf8.antt =====
-- UTF-8: the byte strings that `std::str::from_utf8` accepts.
use Prim.Native.Nat.{ℕ, zero, suc}
use mathlib.Core.Bool.{Bool, true, false, ◌&&◌}
use mathlib.Core.List.{List, [], ◌∷◌}
use adelie.Base.Tests.{ltb, leb, ◌==◌, if◌then◌else◌}

-- What may follow a lead byte: how many continuation bytes, and the bounds of the first one.
pub record Lead : Type 0 where
  pub more : ℕ
  pub low : ℕ
  pub high : ℕ

abbrev pub continuation : ℕ → Lead
continuation n = record { more = n; low = 128; high = 191 }

-- No byte is in the bounds of what no byte may follow.
abbrev pub bad_lead : Lead
bad_lead = record { more = 1; low = 1; high = 0 }

abbrev pub lead : ℕ → Lead
lead b =
    if ltb b 128
    then continuation 0
    else if ltb b 194
    then bad_lead
    else if ltb b 224
    then continuation 1
    else if b == 224
    then record { more = 2; low = 160; high = 191 }
    else if b == 237
    then record { more = 2; low = 128; high = 159 }
    else if ltb b 240
    then continuation 2
    else if b == 240
    then record { more = 3; low = 144; high = 191 }
    else if ltb b 244
    then continuation 3
    else if b == 244
    then record { more = 3; low = 128; high = 143 }
    else bad_lead

-- The bytes that are left, with what has to come first.
unfoldable pub utf8_rest : ℕ → ℕ → ℕ → List ℕ → Bool
utf8_rest zero low high [] = true
utf8_rest (suc more) low high [] = false
utf8_rest zero low high (b ∷ bs) = utf8_rest (lead b).more (lead b).low (lead b).high bs
utf8_rest (suc more) low high (b ∷ bs) = leb low b && (leb b high && utf8_rest more 128 191 bs)

unfoldable pub is_utf8 : List ℕ → Bool
unfolding utf8_rest
is_utf8 bs = utf8_rest 0 0 0 bs
