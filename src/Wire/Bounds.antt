-- ===== src/Wire/Bounds.antt =====
-- `Cursor` of src/storage/segment/wire.rs on arbitrary bytes, well formed or not.
use adelie.Base.{ℕ, zero, suc, ◌+◌, ◌*◌, ◌^◌, ◌<◌, ◌≤◌, ◌≡◌, refl, ◌∙◌, arith, List, length}
use adelie.Base.{ltb, ◌==◌, if◌then◌else◌}
use adelie.Base.{length-take, length-drop, take as take_bytes, drop}
use adelie.Base.{◌⊎◌, inl, inr, ◌↔◌, ◌&&◌, bit_and, Bool-cases, subst, subst₂, ap}
use adelie.Wire.{err, malformed}
use adelie.Wire.{ok, ok_split, IsU64, max_decode_rows}
use adelie.Wire.Cursor.{
  Cursor, take, u8, uvarint_loop, uvarint, bytes, guard_len, remaining, or_group,
}
use adelie.Base.Bits.{or-lt}

-- The same buffer, read on by at most what there was.
pub record Advances (c c' : Cursor) : Type 0 where
  pub same_buf : c'.buf ≡ c.buf
  pub onward : c.pos ≤ c'.pos
  pub within : c'.pos ≤ length c'.buf

abbrev pub IsWithin : Cursor → Type 0
IsWithin c = c.pos ≤ length c.buf

Advances-trans : {a b c : Cursor} → Advances a b → Advances b c → Advances a c
Advances-trans p q = record {
  same_buf = q.same_buf ∙ p.same_buf;
  onward = omega arith;
  within = q.within;
}

take_inversion :
    (n : ℕ) (c : Cursor) (s : List ℕ) (c' : Cursor)
    → take n c ≡ ok (s, c')
    → (n ≤ remaining c)
      × (s ≡ take_bytes n (drop c.pos c.buf))
      × (c' ≡ record { buf = c.buf; pos = c.pos + n })
unfolding take
take_inversion n c s c' e = ground arith

-- `take` on any cursor gives what it was asked for, from bytes that are there.
pub take-Advances :
    (n : ℕ) (c : Cursor) (s : List ℕ) (c' : Cursor)
    → IsWithin c
    → take n c ≡ ok (s, c')
    → Advances c c' × (length s ≡ n) × (c'.pos ≡ c.pos + n)
take-Advances n c s c' h e =
    let (fits, taken, moved) = take_inversion n c s c' e in
    rw (moved, taken)
      (
        record { same_buf = refl; onward = omega arith; within = omega arith },
        omega (arith, length-take n (drop c.pos c.buf), length-drop c.pos c.buf),
        refl,
      )

u8-Advances :
    (c : Cursor) (b : ℕ) (c' : Cursor)
    → IsWithin c
    → u8 c ≡ ok (b, c')
    → Advances c c' × (c'.pos ≡ c.pos + 1)
unfolding u8
u8-Advances c b c' h e =
    let ((s, c''), taken, rest) = ok_split (take 1 c) _ e in
    let (adv, _, moved) = take-Advances 1 c s c'' h taken in
    let same : c'' ≡ c' = cc in subst (λ d. Advances c d × (d.pos ≡ c.pos + 1)) same (adv, moved)

or_group-lt : (result byte i : ℕ) → IsU64 result → IsU64 (or_group result byte i)
or_group-lt result byte i h = or-lt 64 result _ h (omega arith)

-- A round that does not fail ends the loop or goes on with it.
round_outcome :
    (left i result byte : ℕ) (c1 : Cursor) (v : ℕ) (c' : Cursor)
    → (if i == 9 && ltb 1 byte
        then err (malformed "varint overflow")
        else if bit_and byte 0x80 == 0
        then ok (or_group result byte i, c1)
        else uvarint_loop left (i + 1) (or_group result byte i) c1)
      ≡ ok (v, c')
    → ((or_group result byte i ≡ v) × (c1 ≡ c'))
      ⊎ (uvarint_loop left (i + 1) (or_group result byte i) c1 ≡ ok (v, c'))
round_outcome left i result byte c1 v c' e = elim (Bool-cases (i == 9 && ltb 1 byte)) [
  | inl big ↦ cc (rw big at e)
  | inr fine ↦ elim (Bool-cases (bit_and byte 0x80 == 0)) [
    | inl last ↦ inl (cc (rw (fine, last) at e), cc (rw (fine, last) at e))
    | inr more ↦ inr (rw (fine, more) at e)
  ]
]

uvarint_loop-Advances :
    (left i result : ℕ) (c : Cursor) (v : ℕ) (c' : Cursor)
    → IsWithin c
    → IsU64 result
    → uvarint_loop left i result c ≡ ok (v, c')
    → IsU64 v × Advances c c' × (c.pos < c'.pos) × (c'.pos ≤ c.pos + left)
unfolding uvarint_loop
uvarint_loop-Advances zero i result c v c' h hr e = cc
uvarint_loop-Advances (suc left) i result c v c' h hr e =
    let ((byte, c1), first, rest) = ok_split (u8 c) _ e in
    let (adv, moved) = u8-Advances c byte c1 h first in
    let small = or_group-lt result byte i hr in
    elim (round_outcome left i result byte c1 v c' rest) [
      | inl (value, same) ↦
          subst₂ (λ w d. IsU64 w × Advances c d × (c.pos < d.pos) × (d.pos ≤ c.pos + suc left))
            value same (small, adv, omega arith, omega arith)
      | inr more ↦
          let (fits, adv', lo, hi) =
            uvarint_loop-Advances left (i + 1) (or_group result byte i) c1 v c' (adv.within) small
              more in
          (fits, Advances-trans adv adv', omega arith, omega arith)
    ]

-- On any bytes, a varint that is accepted is a `u64`, took 1 to 10 bytes and read only inside the
-- buffer.
pub uvarint-Advances :
    (c : Cursor) (v : ℕ) (c' : Cursor)
    → IsWithin c
    → uvarint c ≡ ok (v, c')
    → IsU64 v × Advances c c' × (c.pos < c'.pos) × (c'.pos ≤ c.pos + 10)
unfolding uvarint
uvarint-Advances c v c' h e = uvarint_loop-Advances 10 0 0 c v c' h (omega arith) e

-- On any bytes, a length prefix that is accepted is followed by that many bytes of the buffer.
pub bytes-Advances :
    (c : Cursor) (b : List ℕ) (c' : Cursor)
    → IsWithin c
    → bytes c ≡ ok (b, c')
    → Advances c c' × (length b < length c.buf) × (c.pos + length b < c'.pos)
unfolding bytes
bytes-Advances c b c' h e =
    let ((len, c1), prefix, body) = ok_split (uvarint c) _ e in
    let (_, adv, moved, _) = uvarint-Advances c len c1 h prefix in
    let (adv', long, moved') = take-Advances len c1 b c' (adv.within) body in
    let both = Advances-trans adv adv' in
    (both, omega (arith, ap length both.same_buf), omega arith)

-- `guard_len` accepts a count exactly when it is in range and its elements can be in the bytes left.
guard_len_iff :
    (n min_bytes_each : ℕ) (c : Cursor)
    → length c.buf < 2 ^ 64
    → (guard_len n min_bytes_each c ≡ ok n)
      ↔ ((n ≤ max_decode_rows) × (n * min_bytes_each ≤ remaining c))
unfolding guard_len
guard_len_iff n min_bytes_each c h = (λ e. ground arith, λ e. ground arith)

pub guard_len_ok :
    (n min_bytes_each : ℕ) (c : Cursor)
    → n ≤ max_decode_rows
    → n * min_bytes_each < 2 ^ 64
    → n * min_bytes_each ≤ remaining c
    → guard_len n min_bytes_each c ≡ ok n
unfolding guard_len
guard_len_ok n min_bytes_each c h k room = ground arith
