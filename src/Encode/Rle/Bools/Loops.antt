-- ===== src/Encode/Rle/Bools/Loops.antt =====
-- The loops of `encode_bool` and `decode_bool` of src/storage/segment/encode/rle.rs, run by run.
use adelie.Base.{ℕ, zero, suc, ◌+◌, ◌<◌, ◌≤◌, ◌≡◌, refl, ap, ◌∙◌, sym, subst, arith}
use adelie.Base.{
  List, [], ◌∷◌, ◌++◌, length, length-append, length-replicate, replicate, get_elem?, map,
  append_assoc, append-nil, All, Bool, true, false, some, ltb, ◌==◌,
}
use mathlib.Core.List.{foldl, map-append}
use adelie.Wire.{ok, IsU64, max_decode_rows}
use adelie.Wire.Sink.{Sink}
use adelie.Wire.Sink
use adelie.Wire.Cursor.{Cursor}
use adelie.Wire.Cursor
use adelie.Wire.RoundTrip.{cursor_at}
use adelie.Wire.Fixed.{u8-RoundTrips, u8_written}
use adelie.Wire.Varint.{uvarint_trips}
use adelie.Base.{ap₂}
use adelie.Bitmap.{Bitmap, get}
use adelie.Bitmap.Rows.{IsRows, push-IsRows}
use adelie.Encode.Rle.{push_run}
use adelie.Encode.Rle.Runs.{expand, IsRun}
use adelie.Encode.Rle.RoundTrip.{ValueCodec, IsShort, runs, runs_written, read_run_len-cursor_at}
use adelie.Encode.Rle.Bools.{as_u8, bool_runs, push_many, read_bool_runs}

pub u8_codec : ValueCodec Sink.u8 Cursor.u8
u8_codec = record { trips = λ v h. u8-RoundTrips v; takes = λ v h. u8_written v }

abbrev pub is_one : ℕ → Bool
is_one v = v == 1

pub is_one-as_u8 : (rows : List Bool) → map is_one (map as_u8 rows) ≡ rows
is_one-as_u8 [] = refl
is_one-as_u8 (true ∷ rows) = ap (λ t. true ∷ t) (is_one-as_u8 rows)
is_one-as_u8 (false ∷ rows) = ap (λ t. false ∷ t) (is_one-as_u8 rows)

is_one-replicate : (n x : ℕ) → replicate n (is_one x) ≡ map is_one (replicate n x)
is_one-replicate zero x = refl
is_one-replicate (suc n) x = ap (λ t. is_one x ∷ t) (is_one-replicate n x)

pub as_u8-Small : (rows : List Bool) → All (λ v. v ≤ 1) (map as_u8 rows)
as_u8-Small [] = tt
as_u8-Small (true ∷ rows) = (omega arith, as_u8-Small rows)
as_u8-Small (false ∷ rows) = (omega arith, as_u8-Small rows)

-- The encoder's loop finds the runs of the rows.
pub bool_runs_lem :
    (bits : Bitmap) (todo : List Bool) (i : ℕ) (runs : List (ℕ × ℕ))
    → ((k : ℕ) → k < length todo → get bits (i + k) ≡ get_elem? todo k)
    → bool_runs bits (length todo) i runs ≡ some (foldl push_run runs (map as_u8 todo))
unfolding bool_runs
bool_runs_lem bits [] i runs h = refl
bool_runs_lem bits (v ∷ todo) i runs h =
    rw now (bool_runs_lem bits todo (i + 1) (push_run runs (as_u8 v)) later)
  where
    now : get bits i ≡ some v
    now = ap (get bits) (omega arith) ∙ h 0 (omega arith)

    later : (k : ℕ) → k < length todo → get bits (i + 1 + k) ≡ get_elem? todo k
    later k lt = ap (get bits) (omega arith) ∙ h (suc k) (omega arith)

push_many-IsRows :
    (n : ℕ) (v : Bool) (bm : Bitmap) (done : List Bool)
    → IsRows bm done
    → (bm' : Bitmap) × (push_many n v bm ≡ some bm') × IsRows bm' (done ++ replicate n v)
unfolding push_many
push_many-IsRows zero v bm done h = (bm, refl, subst (IsRows bm) (sym (append-nil done)) h)
push_many-IsRows (suc n) v bm done h =
    let (bm1, made, next) = push-IsRows bm done v h in
    let (bm2, all, last) = push_many-IsRows n v bm1 (done ++ (v ∷ [])) next in
    (bm2, rw made all, subst (IsRows bm2) (append_assoc done (v ∷ []) (replicate n v)) last)

-- One round of the decoder's loop, over one run of bits.
read_bool_run :
    (x len : ℕ) (hx : IsU64 x) (hl : IsU64 len) (rows n pos : ℕ) (bm bm1 : Bitmap)
    (pre rest : List ℕ)
    → x ≤ 1
    → 1 ≤ len
    → pos + len ≤ rows
    → rows ≤ max_decode_rows
    → push_many len (is_one x) bm ≡ some bm1
    → read_bool_runs rows
        (suc n)
        pos
        bm
        (cursor_at pre ((u8_codec.trips x hx).written ++ ((uvarint_trips len hl).written ++ rest)))
      ≡ read_bool_runs rows n (pos + len) bm1 (
          cursor_at ((pre ++ (u8_codec.trips x hx).written) ++ (uvarint_trips len hl).written) rest)
unfolding read_bool_runs
read_bool_run x len hx hl rows n pos bm bm1 pre rest small one fits k made =
    let a = (u8_codec.trips x hx).written in
    let c = (uvarint_trips len hl).written in
    rw
      (
        (u8_codec.trips x hx).reads pre (c ++ rest),
        bit,
        read_run_len-cursor_at rows pos len hl (pre ++ a) rest one fits k,
        made,
      )
      refl
  where
    bit : ltb 1 x ≡ false
    bit = ground arith

pub read_bool_runs_lem :
    (runs : List (ℕ × ℕ)) (h : All IsShort runs) (rows pos : ℕ) (done : List Bool) (bm : Bitmap)
    (pre post : List ℕ)
    → All (IsRun (λ v. v ≤ 1)) runs
    → IsRows bm done
    → rows ≤ max_decode_rows
    → pos + length (expand runs) ≤ rows
    → (bm' : Bitmap) × (read_bool_runs rows
          (length runs)
          pos
          bm
          (cursor_at pre (runs_written Sink.u8 Cursor.u8 u8_codec runs h ++ post))
        ≡ some (
            ok (
              bm',
              pos + length (expand runs),
              cursor_at (pre ++ runs_written Sink.u8 Cursor.u8 u8_codec runs h) post,
            )))
      × IsRows bm' (done ++ map is_one (expand runs))
unfolding read_bool_runs runs_written expand
read_bool_runs_lem [] h rows pos done bm pre post s b k fits = (
  bm,
  ap₂ (λ p c. some (ok (bm, p, c))) (omega arith)
      (ap (λ q. cursor_at q post) (sym (append-nil pre))),
  subst (IsRows bm) (sym (append-nil done)) b,
)
read_bool_runs_lem ((x, len) ∷ runs) h rows pos done bm pre post s b k fits =
    let a = (u8_codec.trips x h.0.0).written in
    let c = (uvarint_trips len h.0.2).written in
    let tail = runs_written Sink.u8 Cursor.u8 u8_codec runs h.1 in
    let (bm1, made, next) = push_many-IsRows len (is_one x) bm done b in
    let (bm2, all, last) =
      read_bool_runs_lem runs h.1 rows (pos + len) (done ++ replicate len (is_one x)) bm1
        ((pre ++ a) ++ c) post s.1 next k (omega (arith, room)) in
    (
      bm2,
      ap (λ bs. read_bool_runs rows (suc (length runs)) pos bm (cursor_at pre bs))
            (append_assoc a (c ++ tail) post ∙ ap (λ t. a ++ t) (append_assoc c tail post))
          ∙ read_bool_run x len h.0.0 h.0.2 rows (length runs) pos bm bm1 pre (tail ++ post) s.0.0
              h.0.1 (omega (arith, room)) k made
          ∙ all
          ∙ ap₂ (λ p q. some (ok (bm2, p, cursor_at q post))) (omega (arith, room))
              (append_assoc (pre ++ a) c tail ∙ append_assoc pre a (c ++ tail)),
      subst (IsRows bm2)
          (append_assoc done (replicate len (is_one x)) (map is_one (expand runs))
            ∙ ap (λ t. done ++ t)
                (ap (λ t. t ++ map is_one (expand runs)) (is_one-replicate len x)
                  ∙ sym (map-append is_one (replicate len x) (expand runs))))
          last,
    )
  where
    room : length (replicate len x ++ expand runs) ≡ len + length (expand runs)
    room = omega (arith, length-append (replicate len x) (expand runs), length-replicate len x)
