-- ===== src/Encode/Delta/RoundTrip.antt =====
-- DELTA and DELTA_OF_DELTA give every word sequence back, whatever wraps.
use adelie.Base.{ℕ, suc, ◌≤◌, ◌≡◌, refl, ap, arith, List, [], ◌∷◌, ◌++◌, length, All}
use adelie.Base.{append_assoc, append-nil}
use adelie.Wire.{IsU64, max_decode_rows, wrapping_add, wrapping_sub}
use adelie.Wire.RoundTrip.{RoundTrips}
use adelie.Wire.Zigzag.{zigzag-lt, unzigzag-zigzag}
use adelie.Wire.Fixed.{u64-RoundTrips}
use adelie.Wire.Varint.{svarint-RoundTrips}
use adelie.Bitpack.Block.{write_for-RoundTrips_rows}
use adelie.Encode.FrameOfRef.{map_i64, length-map_i64, map_i64-IsU64, unmap_i64-map_i64}
use adelie.Encode.Delta.{
  deltas, undelta, seconds, unseconds, encode_delta_mapped, decode_delta_mapped, encode_dod_mapped,
  decode_dod_mapped, encode_delta_i64, decode_delta_i64, encode_dod_i64, decode_dod_i64,
}

wrapping_sub-lt : (a b : ℕ) → IsU64 (wrapping_sub b a)
wrapping_sub-lt a b = omega arith

wrapping_add-wrapping_sub : (a b : ℕ) → IsU64 a → IsU64 b → wrapping_add a (wrapping_sub b a) ≡ b
wrapping_add-wrapping_sub a b h k = omega arith

length-deltas : (a : ℕ) (x : List ℕ) → length (deltas (a ∷ x)) ≡ length x
unfolding deltas
length-deltas a [] = refl
length-deltas a (b ∷ x) = ap suc (length-deltas b x)

deltas-IsU64 : (a : ℕ) (x : List ℕ) → All IsU64 (deltas (a ∷ x))
unfolding deltas
deltas-IsU64 a [] = tt
deltas-IsU64 a (b ∷ x) = (zigzag-lt (wrapping_sub b a) (wrapping_sub-lt a b), deltas-IsU64 b x)

undelta-deltas : (a : ℕ) (x : List ℕ) → IsU64 a → All IsU64 x → undelta a (deltas (a ∷ x)) ≡ x
unfolding deltas undelta
undelta-deltas a [] h k = refl
undelta-deltas a (b ∷ x) h k =
    rw
      (
        unzigzag-zigzag (wrapping_sub b a) (wrapping_sub-lt a b),
        wrapping_add-wrapping_sub a b h k.0,
      )
      (ap (λ t. b ∷ t) (undelta-deltas b x k.0 k.1))

length-seconds : (a d : ℕ) (x : List ℕ) → length (seconds a d x) ≡ length x
unfolding seconds
length-seconds a d [] = refl
length-seconds a d (b ∷ x) = ap suc (length-seconds b _ x)

seconds-IsU64 : (a d : ℕ) (x : List ℕ) → All IsU64 (seconds a d x)
unfolding seconds
seconds-IsU64 a d [] = tt
seconds-IsU64 a d (b ∷ x) = (
  zigzag-lt (wrapping_sub (wrapping_sub b a) d) (wrapping_sub-lt d _),
  seconds-IsU64 b (wrapping_sub b a) x,
)

unseconds-seconds :
    (a d : ℕ) (x : List ℕ) → IsU64 a → IsU64 d → All IsU64 x → unseconds a d (seconds a d x) ≡ x
unfolding seconds unseconds
unseconds-seconds a d [] h hd k = refl
unseconds-seconds a d (b ∷ x) h hd k =
    let delta = wrapping_sub b a in
    rw
      (
        unzigzag-zigzag (wrapping_sub delta d) (wrapping_sub-lt d delta),
        wrapping_add-wrapping_sub d delta hd (wrapping_sub-lt a b),
        wrapping_add-wrapping_sub a b h k.0,
      )
      (ap (λ t. b ∷ t) (unseconds-seconds b delta x k.0 (wrapping_sub-lt a b) k.1))

pub delta_mapped-RoundTrips :
    (x : List ℕ)
    → All IsU64 x
    → length x ≤ max_decode_rows
    → RoundTrips (λ out v. encode_delta_mapped v out) (decode_delta_mapped (length x)) x
unfolding encode_delta_mapped decode_delta_mapped
delta_mapped-RoundTrips [] h few = record {
  written = [];
  writes = λ buf. rw append-nil;
  reads = λ pre post. rw append-nil;
}
delta_mapped-RoundTrips (a ∷ []) h few =
    let first = u64-RoundTrips a h.0 in
    record {
      written = first.written;
      writes = first.writes;
      reads = λ pre post. rw (first.reads pre post);
    }
delta_mapped-RoundTrips (a ∷ b ∷ x) h few =
    let first = u64-RoundTrips a h.0 in
    let block =
      write_for-RoundTrips_rows (suc (length x)) (deltas (a ∷ b ∷ x)) (length-deltas a (b ∷ x))
        (deltas-IsU64 a (b ∷ x)) (omega arith) in
    record {
      written = first.written ++ block.written;
      writes = λ buf. rw (first.writes buf, block.writes) (rw append_assoc);
      reads = λ pre post.
          simp append_assoc
            (rw (first.reads, block.reads, undelta-deltas a (b ∷ x) h.0 h.1) (simp append_assoc));
    }

pub dod_mapped-RoundTrips :
    (x : List ℕ)
    → All IsU64 x
    → length x ≤ max_decode_rows
    → RoundTrips (λ out v. encode_dod_mapped v out) (decode_dod_mapped (length x)) x
unfolding encode_dod_mapped decode_dod_mapped
dod_mapped-RoundTrips [] h few = record {
  written = [];
  writes = λ buf. rw append-nil;
  reads = λ pre post. rw append-nil;
}
dod_mapped-RoundTrips (a ∷ []) h few =
    let first = u64-RoundTrips a h.0 in
    record {
      written = first.written;
      writes = first.writes;
      reads = λ pre post. rw (first.reads pre post);
    }
dod_mapped-RoundTrips (a ∷ b ∷ x) h few =
    let d = wrapping_sub b a in
    let first = u64-RoundTrips a h.0 in
    let delta = svarint-RoundTrips d (wrapping_sub-lt a b) in
    let block =
      write_for-RoundTrips_rows (length x) (seconds b d x) (length-seconds b d x)
        (seconds-IsU64 b d x) (omega arith) in
    record {
      written = first.written ++ (delta.written ++ block.written);
      writes = λ buf. rw (first.writes buf, delta.writes, block.writes) (simp append_assoc);
      reads = λ pre post. simp append_assoc (
          rw
            (
              first.reads,
              delta.reads,
              block.reads,
              wrapping_add-wrapping_sub a b h.0 h.1.0,
              unseconds-seconds b d x h.1.0 (wrapping_sub-lt a b) h.1.1,
            )
            (simp append_assoc));
    }

-- `encode_delta_i64` and `decode_delta_i64` are inverse on every column of `i64` bit patterns.
pub delta_i64-RoundTrips :
    (v : List ℕ)
    → All IsU64 v
    → length v ≤ max_decode_rows
    → RoundTrips (λ out x. encode_delta_i64 x out) (decode_delta_i64 (length v)) v
unfolding encode_delta_i64 decode_delta_i64
delta_i64-RoundTrips v h few =
    let block = delta_mapped-RoundTrips (map_i64 v) (map_i64-IsU64 v h) (rw length-map_i64 few) in
    record {
      written = block.written;
      writes = block.writes;
      reads = λ pre post. rw (← length-map_i64 v, block.reads pre post, unmap_i64-map_i64);
    }

-- `encode_dod_i64` and `decode_dod_i64` are inverse on every column of `i64` bit patterns.
pub dod_i64-RoundTrips :
    (v : List ℕ)
    → All IsU64 v
    → length v ≤ max_decode_rows
    → RoundTrips (λ out x. encode_dod_i64 x out) (decode_dod_i64 (length v)) v
unfolding encode_dod_i64 decode_dod_i64
dod_i64-RoundTrips v h few =
    let block = dod_mapped-RoundTrips (map_i64 v) (map_i64-IsU64 v h) (rw length-map_i64 few) in
    record {
      written = block.written;
      writes = block.writes;
      reads = λ pre post. rw (← length-map_i64 v, block.reads pre post, unmap_i64-map_i64);
    }
