-- ===== src/Wire/Varint.antt =====
-- LEB128 of src/storage/segment/wire.rs: what `Sink::uvarint` writes and `Cursor::uvarint` reads.
use mathlib.Core.WellFounded.{Acc}
use mathlib.Core.Logic.{dif_pos, dif_neg}
use adelie.Base.{ℕ, zero, suc, ◌+◌, ◌*◌, ◌/◌, ◌%◌, ◌^◌, ◌<◌, ◌≤◌, ◌≡◌, ap, ◌∙◌, arith}
use adelie.Base.{List, [], ◌∷◌, ◌++◌, append_assoc, length, ltb, if◌then◌else◌, All}
use adelie.Base.{bit_and, bit_or, ℕ_discrete, pow-suc}
use adelie.Base.{ap₂, sym, ◌==◌, false, true, Bool-cases, inl, inr}
use native.Mathlib.Nat.{mod-eq_of_lt, div-add-mod}
use native.Mathlib.Numerals.{towards_suc}
use adelie.Base.Order.{lt_wf}
use native.Mathlib.Nat.{ℕ_set}
use adelie.Base.Bits.{and_low_ones, and_one_bit, or_above}
use adelie.Wire.{ok, IsU64, IsByte}
use adelie.Wire.Sink.{Sink}
use adelie.Wire.Cursor.{Cursor}
use adelie.Wire.Sink
use adelie.Wire.Cursor
use adelie.Wire.Zigzag.{zigzag-lt, unzigzag-zigzag}
use adelie.Wire.{zigzag}
use adelie.Wire.RoundTrip.{RoundTrips, cursor_at}
use adelie.Wire.Fixed.{u8-cursor_at}

-- The LEB128 bytes of `v`, for `v` below 2 ^ (7 * (k + 1)).
pub leb128 : ℕ → ℕ → List ℕ
leb128 zero v = v ∷ []
leb128 (suc k) v =
    let more = leb128 k (v / 128) in if ltb v 128 then v ∷ [] else (v % 128 + 128) ∷ more

leb128-suc : (k v : ℕ) → 128 ≤ v → (v % 128 + 128) ∷ leb128 k (v / 128) ≡ leb128 (suc k) v
unfolding leb128
leb128-suc k v h = ground arith

low_byte : (v : ℕ) → bit_and v 0x7f % 256 ≡ v % 128
low_byte v = omega (arith, and_low_ones 7 v)

continued_byte : (v : ℕ) → bit_or (bit_and v 0x7f % 256) 0x80 ≡ v % 128 + 128
continued_byte v =
    omega (arith, low_byte v, or_above 7 (bit_and v 0x7f % 256) 1 (omega (arith, low_byte v)))

uvarint_loop-leb128 :
    (k : ℕ) (buf : Sink) (v : ℕ) (w : Acc ◌<◌ v)
    → v < 128 ^ suc k
    → Sink.uvarint_loop buf v w ≡ buf ++ leb128 k v
unfolding Sink.uvarint_loop leb128
uvarint_loop-leb128 zero buf v (Acc.intro _ smaller) h = ground (arith, low_byte v)
uvarint_loop-leb128 (suc k) buf v (Acc.intro _ smaller) h = elim (ℕ_discrete (v / 128) 0) [
  | yes e ↦ rw (dif_pos _ (ℕ_set _ _) e) (ground (arith, low_byte v))
  | no more ↦
      let head = (v % 128 + 128) ∷ [] in
      rw (dif_neg _ more, continued_byte v)
        (uvarint_loop-leb128 k (buf ++ head) (v / 128) (smaller (v / 2 ^ 7) (Sink.shift-lt v more))
            (omega (arith, pow-suc 128 (suc k)))
          ∙ append_assoc buf head (leb128 k (v / 128))
          ∙ ap (λ t. buf ++ t) (leb128-suc k v (omega arith)))
]

pub uvarint-leb128 : (buf : Sink) (v : ℕ) → IsU64 v → Sink.uvarint buf v ≡ buf ++ leb128 9 v
unfolding Sink.uvarint
uvarint-leb128 buf v h = uvarint_loop-leb128 9 buf v (lt_wf.apply v) (omega arith)

below_power : (v : ℕ) → v < 128 ^ suc v
below_power zero = omega arith
below_power (suc v) = omega (arith, below_power v, pow-suc 128 (suc v))

-- A number of any size is appended, in a byte at least.
pub uvarint-append : (buf : Sink) (v : ℕ) → Sink.uvarint buf v ≡ buf ++ Sink.uvarint [] v
unfolding Sink.uvarint
uvarint-append buf v =
    uvarint_loop-leb128 v buf v (lt_wf.apply v) (below_power v)
    ∙ ap (λ t. buf ++ t) (sym (uvarint_loop-leb128 v [] v (lt_wf.apply v) (below_power v)))

pub length-leb128 : (k v : ℕ) → (1 ≤ length (leb128 k v)) × (length (leb128 k v) ≤ k + 1)
unfolding leb128
length-leb128 zero v = omega arith
length-leb128 (suc k) v = ground (arith, length-leb128 k (v / 128))

pub length-uvarint : (v : ℕ) → 1 ≤ length (Sink.uvarint [] v)
unfolding Sink.uvarint
length-uvarint v = omega (
  arith,
  ap length (uvarint_loop-leb128 v [] v (lt_wf.apply v) (below_power v)),
  (length-leb128 v v).0,
)

pub leb128-IsByte : (k v : ℕ) → v < 128 ^ suc k → All IsByte (leb128 k v)
unfolding leb128
leb128-IsByte zero v h = omega arith
leb128-IsByte (suc k) v h =
    ground (arith, leb128-IsByte k (v / 128) (omega (arith, pow-suc 128 (suc k))))

high_bit : (b : ℕ) → b < 256 → bit_and b 0x80 ≡ b / 128 * 128
high_bit b h = omega (arith, and_one_bit 7 b)

-- One round of the reader, on a byte `b` at index `i` with `result` below the bits that it adds.
last_round :
    (left i b result : ℕ) (pre post : List ℕ)
    → b < 128
    → i ≤ 9
    → result < 2 ^ (7 * i)
    → result + b * 2 ^ (7 * i) < 2 ^ 64
    → Cursor.uvarint_loop (suc left) i result (cursor_at pre (b ∷ post))
      ≡ ok (result + b * 2 ^ (7 * i), cursor_at (pre ++ (b ∷ [])) post)
unfolding Cursor.uvarint_loop
last_round left i b result pre post hb hi hr fits =
    rw (u8-cursor_at b pre post)
      (ground (arith, and_low_ones 7 b, high_bit b, or_above (7 * i) result b hr))

or_group_lem :
    (b g result i : ℕ)
    → b % 128 ≡ g
    → result < 2 ^ (7 * i)
    → result + g * 2 ^ (7 * i) < 2 ^ 64
    → Cursor.or_group result b i ≡ result + g * 2 ^ (7 * i)
or_group_lem b g result i e hr fits =
    let fits' : g * 2 ^ (7 * i) < 2 ^ 64 = omega arith in
    rw (and_low_ones 7 b, e, mod-eq_of_lt fits') (or_above (7 * i) result g hr)

not_last : (i : ℕ) → i < 9 → (i == 9) ≡ false
not_last i h = ground arith

goes_on : (g : ℕ) → g < 128 → (bit_and (g + 128) 0x80 == 0) ≡ false
goes_on g h = ground (arith, high_bit (g + 128))

inner_round :
    (left i g result : ℕ) (pre post : List ℕ)
    → g < 128
    → i < 9
    → result < 2 ^ (7 * i)
    → result + g * 2 ^ (7 * i) < 2 ^ 64
    → Cursor.uvarint_loop (suc left) i result (cursor_at pre ((g + 128) ∷ post))
      ≡ Cursor.uvarint_loop left
          (i + 1)
          (result + g * 2 ^ (7 * i))
          (cursor_at (pre ++ ((g + 128) ∷ [])) post)
unfolding Cursor.uvarint_loop
inner_round left i g result pre post hg hi hr fits =
    rw (u8-cursor_at (g + 128) pre post, not_last i hi, goes_on g hg)
      (ap (λ r. Cursor.uvarint_loop left (i + 1) r (cursor_at (pre ++ ((g + 128) ∷ [])) post))
        (or_group_lem (g + 128) g result i (omega arith) hr fits))

seven_more : (s : ℕ) → 2 ^ (s + 7) ≡ 128 * 2 ^ s
seven_more s = simp towards_suc (omega arith)

shifted : (i : ℕ) → 7 * (i + 1) ≡ 7 * i + 7
shifted i = omega arith

next_shift : (i : ℕ) → 2 ^ (7 * (i + 1)) ≡ 128 * 2 ^ (7 * i)
next_shift i = ap (λ (t : ℕ). 2 ^ t) (shifted i) ∙ seven_more (7 * i)

-- The low group of `w` and the groups above it, shifted to index `i`.
split_groups : (w i : ℕ) → w * 2 ^ (7 * i) ≡ w % 128 * 2 ^ (7 * i) + w / 128 * 2 ^ (7 * (i + 1))
split_groups w i = omega (
  arith,
  ap (λ (t : ℕ). t * 2 ^ (7 * i)) (div-add-mod w 128),
  ap (λ (t : ℕ). w / 128 * t) (next_shift i),
)

low_room :
    (i g result : ℕ) → g < 128 → result < 2 ^ (7 * i) → result + g * 2 ^ (7 * i) < 2 ^ (7 * (i + 1))
low_room i g result hg hr = rw next_shift (grind arith)

leb128_small : (k w : ℕ) → ltb w 128 ≡ true → leb128 (suc k) w ≡ w ∷ []
unfolding leb128
leb128_small k w h = rw h

leb128_large :
    (k w : ℕ) → ltb w 128 ≡ false → leb128 (suc k) w ≡ (w % 128 + 128) ∷ leb128 k (w / 128)
unfolding leb128
leb128_large k w h = rw h

uvarint_loop-reads :
    (k i w result : ℕ) (pre post : List ℕ)
    → w < 128 ^ suc k
    → k + i ≡ 9
    → result < 2 ^ (7 * i)
    → result + w * 2 ^ (7 * i) < 2 ^ 64
    → Cursor.uvarint_loop (suc k) i result (cursor_at pre (leb128 k w ++ post))
      ≡ ok (result + w * 2 ^ (7 * i), cursor_at (pre ++ leb128 k w) post)
uvarint_loop-reads zero i w result pre post hw hi hr fits =
    unfold leb128 in last_round zero i w result pre post (omega arith) (omega arith) hr fits
uvarint_loop-reads (suc k) i w result pre post hw hi hr fits = elim (Bool-cases (ltb w 128)) [
  | inl small ↦
      rw (leb128_small k w small)
        (last_round (suc k) i w result pre post (ground arith) (omega arith) hr fits)
  | inr large ↦ rw (leb128_large k w large) (
      inner_round (suc k) i (w % 128) result pre (leb128 k (w / 128) ++ post) (omega arith)
        (omega arith) hr (omega (arith, split_groups w i))
      ∙ uvarint_loop-reads k (i + 1) (w / 128) (result + w % 128 * 2 ^ (7 * i))
          (pre ++ ((w % 128 + 128) ∷ [])) post (omega (arith, pow-suc 128 (suc k))) (omega arith)
          (low_room i (w % 128) result (omega arith) hr) (omega (arith, split_groups w i))
      ∙ ap₂ (λ v c. ok (v, c)) (omega (arith, split_groups w i))
          (ap (λ p. cursor_at p post)
            (append_assoc pre ((w % 128 + 128) ∷ []) (leb128 k (w / 128)))))
]

uvarint-cursor_at :
    (v : ℕ) (pre post : List ℕ)
    → IsU64 v
    → Cursor.uvarint (cursor_at pre (leb128 9 v ++ post))
      ≡ ok (v, cursor_at (pre ++ leb128 9 v) post)
unfolding Cursor.uvarint
uvarint-cursor_at v pre post h =
    uvarint_loop-reads 9 0 v 0 pre post (omega arith) (omega arith) (omega arith) (omega arith)
    ∙ ap (λ r. ok (r, cursor_at (pre ++ leb128 9 v) post)) (omega arith)

pub uvarint_trips : (v : ℕ) → IsU64 v → RoundTrips Sink.uvarint Cursor.uvarint v
uvarint_trips v h = record {
  written = leb128 9 v;
  writes = λ buf. uvarint-leb128 buf v h;
  reads = λ pre post. uvarint-cursor_at v pre post h;
}

pub svarint_trips : (v : ℕ) → IsU64 v → RoundTrips Sink.svarint Cursor.svarint v
unfolding Sink.svarint Cursor.svarint
svarint_trips v h = record {
  written = leb128 9 (zigzag v);
  writes = λ buf. uvarint-leb128 buf (zigzag v) (zigzag-lt v h);
  reads =
      λ pre post. rw (uvarint-cursor_at (zigzag v) pre post (zigzag-lt v h), unzigzag-zigzag v h);
}

-- For every `u64`, `Cursor::uvarint` reads back what `Sink::uvarint` appended, at any place and with
-- any bytes behind, and stops where the writer ended.
pub uvarint-RoundTrips : (v : ℕ) → IsU64 v → RoundTrips Sink.uvarint Cursor.uvarint v
uvarint-RoundTrips v h = uvarint_trips v h

-- For every `i64` bit pattern, `Cursor::svarint` reads back what `Sink::svarint` appended.
pub svarint-RoundTrips : (v : ℕ) → IsU64 v → RoundTrips Sink.svarint Cursor.svarint v
svarint-RoundTrips v h = svarint_trips v h

-- A varint takes a byte at least.
pub uvarint_written : (v : ℕ) (h : IsU64 v) → 1 ≤ length (uvarint_trips v h).written
unfolding uvarint_trips
uvarint_written v h = (length-leb128 9 v).0

pub svarint_written : (v : ℕ) (h : IsU64 v) → 1 ≤ length (svarint_trips v h).written
unfolding svarint_trips
svarint_written v h = (length-leb128 9 (zigzag v)).0
