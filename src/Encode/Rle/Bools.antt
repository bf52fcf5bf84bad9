-- ===== src/Encode/Rle/Bools.antt =====
-- `encode_bool` and `decode_bool` of src/storage/segment/encode/rle.rs, over a Bitmap. A panic of
-- the bitmap's `assert!` is `none`, outside the decoder's own result.
pub mod Loops
pub mod RoundTrip
use adelie.Base.{ℕ, zero, suc, ◌+◌, List, [], length, Bool, true, false, not}
use adelie.Base.{Option, none, some, ltb, ◌==◌}
use adelie.Wire.{Result, ok, err, malformed, fail_if}
use adelie.Wire.Sink.{Sink}
use adelie.Wire.Sink
use adelie.Wire.Cursor.{Cursor}
use adelie.Wire.Cursor
use adelie.Bitmap.{Bitmap, get, push, new_null}
use adelie.Encode.Rle.{push_run, write_runs, read_nruns, read_run_len}

-- `as u8`
abbrev pub as_u8 : Bool → ℕ
as_u8 true = 1
as_u8 false = 0

-- What follows a step that may panic, and `?` where what follows may panic.
abbrev pub or_panic {ℓ κ} : {A : Type ℓ} {B : Type κ} → Option A → (A → Option B) → Option B
or_panic none next = none
or_panic (some a) next = next a

abbrev pub or_fail {ℓ κ} :
    {A : Type ℓ} {B : Type κ} → Result A → (A → Option (Result B)) → Option (Result B)
or_fail (err e) next = some (err e)
or_fail (ok a) next = next a

-- The loop of `encode_bool` over the rows `i`, `i + 1`, ….
unfoldable pub bool_runs : Bitmap → ℕ → ℕ → List (ℕ × ℕ) → Option (List (ℕ × ℕ))
bool_runs bits zero i runs = some runs
bool_runs bits (suc n) i runs =
    or_panic (get bits i) (λ v. bool_runs bits n (i + 1) (push_run runs (as_u8 v)))

unfoldable pub encode_bool : Bitmap → Sink → Option Sink
encode_bool bits out =
    or_panic (bool_runs bits bits.len 0 [])
      (λ runs. some (write_runs Sink.u8 (Sink.uvarint out (length runs)) runs))

-- `for _ in 0..len`
unfoldable pub push_many : ℕ → Bool → Bitmap → Option Bitmap
push_many zero v bm = some bm
push_many (suc n) v bm = or_panic (push bm v) (λ bm'. push_many n v bm')

-- The loop of `decode_bool`.
unfoldable pub read_bool_runs : ℕ → ℕ → ℕ → Bitmap → Cursor → Option (Result (Bitmap × ℕ × Cursor))
read_bool_runs rows zero pos bm c = some (ok (bm, pos, c))
read_bool_runs rows (suc n) pos bm c = or_fail (Cursor.u8 c) (λ (v, c1).
    or_fail (fail_if (ltb 1 v) (malformed "rle: bool value not 0 or 1")) (λ _.
      or_fail (read_run_len rows pos c1) (λ (len, c2).
        or_panic (push_many len (v == 1) bm) (λ bm'. read_bool_runs rows n (pos + len) bm' c2))))

unfoldable pub decode_bool : ℕ → Cursor → Option (Result (Bitmap × Cursor))
decode_bool rows c = or_fail (read_nruns rows c) (λ (nruns, c1).
    or_panic (read_bool_runs rows nruns 0 (new_null 0) c1) (λ r. or_fail r (λ (bm, pos, c2).
      or_fail (fail_if (not (pos == rows)) (malformed "rle: run sum does not match rows"))
        (λ _. some (ok (bm, c2))))))
