-- ===== src/Wire/Sink.antt =====
-- `Sink` of src/storage/segment/wire.rs: an append-only byte buffer. Each method takes the buffer
-- and returns it with the new bytes at its end.
use mathlib.Core.WellFounded.{Acc}
use mathlib.Core.Logic.{dite}
use adelie.Base.{ℕ, zero, suc, ◌/◌, ◌%◌, ◌^◌, ◌<◌, ◌≢◌, bit_and, bit_or, arith}
use adelie.Base.{List, [], ◌∷◌, ◌++◌, length, ℕ_discrete}
use adelie.Base.Order.{lt_wf}
use adelie.Wire.{zigzag}

abbrev pub Sink : Type 0
Sink = List ℕ

abbrev pub new : Sink
new = []

unfoldable pub u8 : Sink → ℕ → Sink
u8 buf v = buf ++ (v ∷ [])

-- `to_le_bytes` of a word of `n` bytes.
unfoldable pub to_le_bytes : ℕ → ℕ → List ℕ
to_le_bytes zero v = []
to_le_bytes (suc n) v = (v % 256) ∷ to_le_bytes n (v / 256)

unfoldable pub raw : Sink → List ℕ → Sink
raw buf b = buf ++ b

unfoldable pub u32 : Sink → ℕ → Sink
unfolding raw
u32 buf v = raw buf (to_le_bytes 4 v)

unfoldable pub u64 : Sink → ℕ → Sink
unfolding raw
u64 buf v = raw buf (to_le_bytes 8 v)

unfoldable pub i32 : Sink → ℕ → Sink
unfolding raw
i32 buf v = raw buf (to_le_bytes 4 v)

unfoldable pub i64 : Sink → ℕ → Sink
unfolding raw
i64 buf v = raw buf (to_le_bytes 8 v)

unfoldable pub i128 : Sink → ℕ → Sink
unfolding raw
i128 buf v = raw buf (to_le_bytes 16 v)

pub shift-lt : (v : ℕ) → v / 2 ^ 7 ≢ 0 → v / 2 ^ 7 < v
shift-lt v h = omega arith

-- The `loop` of `uvarint`; it ends because `v >>= 7` shrinks `v`.
unfoldable pub uvarint_loop : Sink → (v : ℕ) → Acc ◌<◌ v → Sink
uvarint_loop buf v (Acc.intro _ smaller) =
    let byte = bit_and v 0x7f % 256 in
    dite (ℕ_discrete (v / 2 ^ 7) 0) (λ _. buf ++ (byte ∷ []))
      (λ more.
        uvarint_loop (buf ++ (bit_or byte 0x80 ∷ [])) (v / 2 ^ 7) (smaller _ (shift-lt v more)))

unfoldable pub uvarint : Sink → ℕ → Sink
unfolding uvarint_loop lt_wf ℕ_discrete
uvarint buf v = uvarint_loop buf v (lt_wf.apply v)

unfoldable pub svarint : Sink → ℕ → Sink
svarint buf v = uvarint buf (zigzag v)

unfoldable pub bytes : Sink → List ℕ → Sink
bytes buf b = raw (uvarint buf (length b)) b

-- A `&str` is the list of its UTF-8 bytes.
unfoldable pub str : Sink → List ℕ → Sink
str buf s = bytes buf s

-- `f` writes into a sink of its own.
unfoldable pub record_body : Sink → (Sink → Sink) → Sink
record_body buf f = bytes buf (f new)
