-- ===== src/Examples/Wire.antt =====
-- The wire format on concrete bytes.
use adelie.Base.{ℕ, ◌+◌, ◌-◌, ◌^◌, ◌≤◌, ◌<◌, ◌≡◌, refl, arith, List, [], ◌∷◌}
use adelie.Wire.{ok, err, truncated, zigzag, IsU64}
use adelie.Wire.Sink
use adelie.Wire.Cursor
use adelie.Wire.Cursor.{Cursor, guard_len, remaining}
use adelie.Wire.RoundTrip.{RoundTrips}
use adelie.Wire.Varint.{uvarint-RoundTrips}
use adelie.Wire.Bounds.{Advances, uvarint-Advances}

abbrev cursor : List ℕ → Cursor
cursor b = record { buf = b; pos = 0 }

uvarint_300 : Sink.uvarint [] 300 ≡ 0xac ∷ 0x02 ∷ []
unfolding Sink.uvarint
uvarint_300 = refl

-- The sign goes to the lowest bit: -2 is 3.
svarint_minus_two : Sink.svarint [] (2 ^ 64 - 2) ≡ 3 ∷ []
unfolding Sink.svarint Sink.uvarint zigzag
svarint_minus_two = refl

read_300 :
    Cursor.uvarint (cursor (0xac ∷ 0x02 ∷ 7 ∷ []))
    ≡ ok (300, record { buf = 0xac ∷ 0x02 ∷ 7 ∷ []; pos = 2 })
unfolding Cursor.uvarint Cursor.uvarint_loop Cursor.u8 Cursor.take
read_300 = refl

read_cut : Cursor.uvarint (cursor (0xac ∷ [])) ≡ err truncated
unfolding Cursor.uvarint Cursor.uvarint_loop Cursor.u8 Cursor.take
read_cut = refl

read_bytes :
    Cursor.bytes (cursor (2 ∷ 5 ∷ 6 ∷ []))
    ≡ ok (5 ∷ 6 ∷ [], record { buf = 2 ∷ 5 ∷ 6 ∷ []; pos = 3 })
unfolding Cursor.bytes Cursor.uvarint Cursor.uvarint_loop Cursor.u8 Cursor.take
read_bytes = refl

uvarint-RoundTrips_example : RoundTrips Sink.uvarint Cursor.uvarint 300
uvarint-RoundTrips_example = uvarint-RoundTrips 300 (omega arith)

uvarint-Advances_example :
    IsU64 300
    × Advances (cursor (0xac ∷ 0x02 ∷ 7 ∷ [])) (record { buf = 0xac ∷ 0x02 ∷ 7 ∷ []; pos = 2 })
    × (0 < 2)
    × (2 ≤ 0 + 10)
uvarint-Advances_example =
    uvarint-Advances (cursor (0xac ∷ 0x02 ∷ 7 ∷ [])) 300
      (record { buf = 0xac ∷ 0x02 ∷ 7 ∷ []; pos = 2 }) (omega arith) read_300
