-- ===== src/Bitpack/Fields.antt =====
-- A run of fields of one width in the buffer of src/storage/segment/encode/bitpack.rs: the loops
-- of `write_for` and `read_for` over the values.
use adelie.Base.{ℕ, ◌+◌, ◌-◌, ◌*◌, ◌/◌, ◌%◌, ◌^◌, ◌<◌, ◌≤◌, ◌≡◌, refl, ap, ◌∙◌, sym, arith}
use adelie.Base.{false, List, [], ◌∷◌, length, All, ltb}
use adelie.Base.Pow.{pow_add, pow_pos, parts-injective}
use native.Mathlib.Nat.{mod-lt, mod-eq_of_lt}
use adelie.Wire.{IsByte, IsU64, ok, wrapping_add, wrapping_sub}
use adelie.Wire.Cursor.{from_le_bytes}
use adelie.Bitpack.{BitWriter, write, write_all, read, read_all}
use adelie.Bitpack.Writer.{IsPacked, Holds, write-Holds}
use adelie.Bitpack.Reader.{field, field_add, read_lem}

-- The number that the fields make, the first one lowest.
pub packed : ℕ → ℕ → List ℕ → ℕ
packed low width [] = 0
packed low width (v ∷ vs) = (v - low) + packed low width vs * 2 ^ width

-- `v` lies at most a field above `low`.
abbrev pub Fits : ℕ → ℕ → ℕ → Type 0
Fits low width v = (low ≤ v) × IsU64 v × (v - low < 2 ^ width)

Holds-trans :
    (w1 w2 w3 : BitWriter) (v n v' n' : ℕ)
    → Holds w1 v n w2
    → Holds w2 v' n' w3
    → Holds w1 (v + v' * 2 ^ n) (n + n') w3
Holds-trans w1 w2 w3 v n v' n' a b = (
  b.0,
  omega (arith, a.1, b.1),
  omega (arith, a.2, b.2, ap (λ (t : ℕ). v' * t) (ap (λ (t : ℕ). 2 ^ t) a.1 ∙ pow_add w1.bits n)),
)

code : (low width v : ℕ) → Fits low width v → wrapping_sub v low % 2 ^ width ≡ v - low
code low width v h = ap (λ (t : ℕ). t % 2 ^ width) (omega arith) ∙ mod-eq_of_lt h.2

pub write_all-Holds :
    (low width : ℕ) (vs : List ℕ) (w : BitWriter)
    → width ≤ 64
    → All (Fits low width) vs
    → IsPacked w
    → Holds w (packed low width vs) (length vs * width) (write_all low width vs w)
unfolding write_all packed
write_all-Holds low width [] w hw h p = (p, omega arith, omega arith)
write_all-Holds low width (v ∷ vs) w hw h p =
    let w' = write (wrapping_sub v low) width w in
    let first : Holds w (v - low) width w' =
      rw (code low width v h.0) at (write-Holds (wrapping_sub v low) width w hw p) in
    let rest = write_all-Holds low width vs w' hw h.1 first.0 in
    let both = Holds-trans w w' (write_all low width vs w') (v - low) width _ _ first rest in
    (both.0, omega (arith, both.1), both.2)

read_step :
    (n : ℕ) (buf : List ℕ) (p : ℕ)
    → All IsByte buf
    → n ≤ 64
    → p + n ≤ length buf * 8
    → read n (record { buf = buf; bits = p })
      ≡ ok (field (from_le_bytes buf) p n, record { buf = buf; bits = p + n })
read_step n buf p h k fits = rw (read_lem n (record { buf = buf; bits = p }) h k) (rw (enough) refl)
  where
    enough : ltb (length buf * 8) (p + n) ≡ false
    enough = ground arith

restored : (low width v : ℕ) → Fits low width v → wrapping_add low (v - low) ≡ v
restored low width v h = omega arith

pub read_all_lem :
    (low width : ℕ) (vs : List ℕ) (buf : List ℕ) (p : ℕ)
    → width ≤ 64
    → All IsByte buf
    → All (Fits low width) vs
    → p + length vs * width ≤ length buf * 8
    → field (from_le_bytes buf) p (length vs * width) ≡ packed low width vs
    → read_all (length vs) low width (record { buf = buf; bits = p }) ≡ ok vs
unfolding read_all packed
read_all_lem low width [] buf p hw hb h fits e = refl
read_all_lem low width (v ∷ vs) buf p hw hb h fits e =
    let number = from_le_bytes buf in
    let more = length vs * width in
    let (first, rest) =
      parts-injective width (field number p width) (field number (p + width) more) (v - low)
        (packed low width vs) (mod-lt (number / 2 ^ p) (pow_pos width)) h.0.2
        (sym (field_add number p width more)
          ∙ ap (λ (t : ℕ). field number p t) (omega arith)
          ∙ e) in
    let again : read_all (length vs) low width (record { buf = buf; bits = p + width }) ≡ ok vs =
      read_all_lem low width vs buf (p + width) hw hb h.1 (omega arith) rest in
    rw (read_step width buf p hb hw (omega arith), again, first)
      (ap (λ t. ok (t ∷ vs)) (restored low width v h.0))
