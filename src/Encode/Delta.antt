-- ===== src/Encode/Delta.antt =====
-- src/storage/segment/encode/delta.rs: DELTA and DELTA_OF_DELTA over words, with wrapping
-- differences. A signed difference is its bit pattern.
pub mod RoundTrip
use adelie.Base.{ℕ, zero, suc, ◌+◌, List, [], ◌∷◌}
use adelie.Wire.{Result, ok, ◌>>=◌, zigzag, unzigzag, wrapping_add, wrapping_sub}
use adelie.Wire.Sink.{Sink}
use adelie.Wire.Sink
use adelie.Wire.Cursor.{Cursor}
use adelie.Wire.Cursor
use adelie.Bitpack.{write_for, read_for}
use adelie.Encode.FrameOfRef.{map_i64, unmap_i64}

-- `x.windows(2)`, each pair zigzagged.
unfoldable pub deltas : List ℕ → List ℕ
deltas [] = []
deltas (a ∷ []) = []
deltas (a ∷ b ∷ x) = zigzag (wrapping_sub b a) ∷ deltas (b ∷ x)

unfoldable pub encode_delta_mapped : List ℕ → Sink → Sink
encode_delta_mapped [] out = out
encode_delta_mapped (first ∷ []) out = Sink.u64 out first
encode_delta_mapped (first ∷ second ∷ x) out =
    write_for (deltas (first ∷ second ∷ x)) (Sink.u64 out first)

-- The loop over the deltas: every value behind `prev`.
unfoldable pub undelta : ℕ → List ℕ → List ℕ
undelta prev [] = []
undelta prev (dz ∷ ds) = let next = wrapping_add prev (unzigzag dz) in next ∷ undelta next ds

unfoldable pub decode_delta_mapped : ℕ → Cursor → Result (List ℕ × Cursor)
decode_delta_mapped zero c = ok ([], c)
decode_delta_mapped (suc zero) c = do (first, c1) ← Cursor.u64 c; ok (first ∷ [], c1)
decode_delta_mapped (suc (suc n)) c = do
  (first, c1) ← Cursor.u64 c
  (ds, c2) ← read_for (suc n) c1
  ok (first ∷ undelta first ds, c2)

-- The loop of `encode_dod_mapped` from the second value on: `x[i - 1]` and the delta before.
unfoldable pub seconds : ℕ → ℕ → List ℕ → List ℕ
seconds before prev_delta [] = []
seconds before prev_delta (b ∷ x) =
    let delta = wrapping_sub b before in zigzag (wrapping_sub delta prev_delta) ∷ seconds b delta x

unfoldable pub encode_dod_mapped : List ℕ → Sink → Sink
encode_dod_mapped [] out = out
encode_dod_mapped (first ∷ []) out = Sink.u64 out first
encode_dod_mapped (first ∷ second ∷ x) out =
    let first_delta = wrapping_sub second first in
    write_for (seconds second first_delta x) (Sink.svarint (Sink.u64 out first) first_delta)

-- The loop of `decode_dod_mapped`: every value behind `prev_val`.
unfoldable pub unseconds : ℕ → ℕ → List ℕ → List ℕ
unseconds prev_val prev_delta [] = []
unseconds prev_val prev_delta (dz ∷ ds) =
    let delta = wrapping_add prev_delta (unzigzag dz) in
    let next = wrapping_add prev_val delta in next ∷ unseconds next delta ds

unfoldable pub decode_dod_mapped : ℕ → Cursor → Result (List ℕ × Cursor)
decode_dod_mapped zero c = ok ([], c)
decode_dod_mapped (suc zero) c = do (first, c1) ← Cursor.u64 c; ok (first ∷ [], c1)
decode_dod_mapped (suc (suc n)) c = do
  (first, c1) ← Cursor.u64 c
  (first_delta, c2) ← Cursor.svarint c1
  (ds, c3) ← read_for n c2
  let second = wrapping_add first first_delta
  ok (first ∷ second ∷ unseconds second first_delta ds, c3)

unfoldable pub encode_delta_i64 : List ℕ → Sink → Sink
encode_delta_i64 v out = encode_delta_mapped (map_i64 v) out

unfoldable pub decode_delta_i64 : ℕ → Cursor → Result (List ℕ × Cursor)
decode_delta_i64 rows c = do (u, c') ← decode_delta_mapped rows c; ok (unmap_i64 u, c')

unfoldable pub encode_delta_u64 : List ℕ → Sink → Sink
encode_delta_u64 v out = encode_delta_mapped v out

unfoldable pub decode_delta_u64 : ℕ → Cursor → Result (List ℕ × Cursor)
decode_delta_u64 rows c = decode_delta_mapped rows c

unfoldable pub encode_dod_i64 : List ℕ → Sink → Sink
encode_dod_i64 v out = encode_dod_mapped (map_i64 v) out

unfoldable pub decode_dod_i64 : ℕ → Cursor → Result (List ℕ × Cursor)
decode_dod_i64 rows c = do (u, c') ← decode_dod_mapped rows c; ok (unmap_i64 u, c')

unfoldable pub encode_dod_u64 : List ℕ → Sink → Sink
encode_dod_u64 v out = encode_dod_mapped v out

unfoldable pub decode_dod_u64 : ℕ → Cursor → Result (List ℕ × Cursor)
decode_dod_u64 rows c = decode_dod_mapped rows c
