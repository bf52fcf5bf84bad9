-- ===== src/Encode/FrameOfRef.antt =====
-- src/storage/segment/encode/frame_of_ref.rs: FOR. Signed values flip the sign bit first, which
-- keeps their order.
use adelie.Base.{
  ℕ, ◌^◌, ◌≤◌, ◌≡◌, refl, ap, arith, bit_xor, List, [], ◌∷◌, map, length, length-map, All,
}
use adelie.Base.Bits.{xor_undo, xor-lt}
use adelie.Wire.{Result, ok, ◌>>=◌, IsU64, max_decode_rows}
use adelie.Wire.Sink.{Sink}
use adelie.Wire.Cursor.{Cursor}
use adelie.Wire.RoundTrip.{RoundTrips}
use adelie.Bitpack.{write_for, read_for}
use adelie.Bitpack.Block.{write_for-RoundTrips}

abbrev pub sign : ℕ
sign = 2 ^ 63

unfoldable pub map_i64 : List ℕ → List ℕ
map_i64 v = map (λ x. bit_xor x sign) v

unfoldable pub unmap_i64 : List ℕ → List ℕ
unmap_i64 v = map (λ u. bit_xor u sign) v

unfoldable pub encode_i64 : List ℕ → Sink → Sink
encode_i64 v out = write_for (map_i64 v) out

unfoldable pub decode_i64 : ℕ → Cursor → Result (List ℕ × Cursor)
decode_i64 rows c = do (mapped, c') ← read_for rows c; ok (unmap_i64 mapped, c')

unfoldable pub encode_u64 : List ℕ → Sink → Sink
encode_u64 v out = write_for v out

unfoldable pub decode_u64 : ℕ → Cursor → Result (List ℕ × Cursor)
decode_u64 rows c = read_for rows c

pub length-map_i64 : (v : List ℕ) → length (map_i64 v) ≡ length v
unfolding map_i64
length-map_i64 v = length-map v (λ x. bit_xor x sign)

pub map_i64-IsU64 : (v : List ℕ) → All IsU64 v → All IsU64 (map_i64 v)
unfolding map_i64
map_i64-IsU64 [] h = tt
map_i64-IsU64 (x ∷ xs) h = (xor-lt 64 x sign h.0 (omega arith), map_i64-IsU64 xs h.1)

-- Flipping the sign bit twice gives the value back.
pub unmap_i64-map_i64 : (v : List ℕ) → unmap_i64 (map_i64 v) ≡ v
unfolding unmap_i64 map_i64
unmap_i64-map_i64 [] = refl
unmap_i64-map_i64 (x ∷ xs) = rw (xor_undo x sign) (ap (λ t. x ∷ t) (unmap_i64-map_i64 xs))

-- `encode_i64` of FOR and `decode_i64` are inverse.
pub for_i64-RoundTrips :
    (v : List ℕ)
    → All IsU64 v
    → length v ≤ max_decode_rows
    → RoundTrips (λ out x. encode_i64 x out) (decode_i64 (length v)) v
unfolding encode_i64 decode_i64
for_i64-RoundTrips v h few =
    let block = write_for-RoundTrips (map_i64 v) (map_i64-IsU64 v h) (rw length-map_i64 few) in
    record {
      written = block.written;
      writes = block.writes;
      reads = λ pre post. rw (← length-map_i64 v, block.reads pre post, unmap_i64-map_i64);
    }
