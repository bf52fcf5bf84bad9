-- ===== src/Wire/Trips/Zip.antt =====
-- As in Lists, where each element is written and read by its own partner of a second list, as the codecs of
-- src/storage/manifest/codec.rs do with the columns of a schema.
use adelie.Base.{
  ℕ, suc, ◌≤◌, ◌≡◌, refl, ap, ◌∙◌, sym, arith, List, [], ◌∷◌, ◌++◌, length, length-append,
  append_assoc, append-nil, some,
}
use adelie.Wire.{Outcome, ok, ◌>>=◌, IsU64}
use adelie.Wire.Sink.{Sink}
use adelie.Wire.Cursor.{Cursor, remaining}
use adelie.Wire.RoundTrip.{cursor_at}
use adelie.Wire.Bytes.{two_fields, past_both}
use adelie.Wire.Trips.{Trips, Writer, Reader, then_sink, ◌⊳◌}

unfoldable pub write_zip : {A B : Type 0} → (B → A → Writer) → List A → List B → Writer
write_zip w [] fs buf = some buf
write_zip w (x ∷ xs) [] buf = some buf
write_zip w (x ∷ xs) (f ∷ fs) buf = (w f x ⊳ write_zip w xs fs) buf

unfoldable pub read_zip : {E A B : Type 0} → (B → Reader E A) → List B → Reader E (List A)
read_zip r [] c = ok ([], c)
read_zip r (f ∷ fs) c = do (x, c1) ← r f c; (xs, c2) ← read_zip r fs c1; ok (x ∷ xs, c2)

abbrev pub Pairwise : {A B : Type 0} → (B → A → Type 0) → List A → List B → Type 0
Pairwise P [] [] = Unit
Pairwise P (x ∷ xs) (f ∷ fs) = P f x × Pairwise P xs fs
Pairwise P xs fs = ⊥

pub length-Pairwise :
    {A B : Type 0} (P : B → A → Type 0) (xs : List A) (fs : List B)
    → Pairwise P xs fs
    → length xs ≡ length fs
length-Pairwise P [] [] h = refl
length-Pairwise P (x ∷ xs) (f ∷ fs) (p, h) = ap suc (length-Pairwise P xs fs h)
length-Pairwise P [] (f ∷ fs) h = elim h [ ]
length-Pairwise P (x ∷ xs) [] h = elim h [ ]

module _ {E A B : Type 0} {w : B → A → Writer} {r : B → Reader E A} (P : B → A → Type 0)
    (trip : (f : B) (x : A) → P f x → Trips (w f x) (r f) x) where
  zip_written : (xs : List A) (fs : List B) → Pairwise P xs fs → List ℕ
  zip_written [] [] h = []
  zip_written (x ∷ xs) (f ∷ fs) (p, h) = (trip f x p).written ++ zip_written xs fs h
  zip_written [] (f ∷ fs) h = []
  zip_written (x ∷ xs) [] h = []

  zip-appends :
      (xs : List A) (fs : List B) (h : Pairwise P xs fs) (buf : Sink)
      → write_zip w xs fs buf ≡ some (buf ++ zip_written xs fs h)
  unfolding write_zip zip_written
  zip-appends [] [] h buf = ap some (sym (append-nil buf))
  zip-appends (x ∷ xs) (f ∷ fs) (p, h) buf =
      rw ((trip f x p).appends buf, zip-appends xs fs h)
        (ap some (append_assoc buf (trip f x p).written (zip_written xs fs h)))
  zip-appends [] (f ∷ fs) h buf = elim h [ ]
  zip-appends (x ∷ xs) [] h buf = elim h [ ]

  zip-reads :
      (xs : List A) (fs : List B) (h : Pairwise P xs fs)
      → IsU64 (length (zip_written xs fs h))
      → (pre post : List ℕ)
      → read_zip r fs (cursor_at pre (zip_written xs fs h ++ post))
        ≡ ok (xs, cursor_at (pre ++ zip_written xs fs h) post)
  unfolding read_zip zip_written
  zip-reads [] [] h small pre post = ap (λ p. ok ([], cursor_at p post)) (sym (append-nil pre))
  zip-reads (x ∷ xs) (f ∷ fs) (p, h) small pre post =
      let a = (trip f x p).written in
      let b = zip_written xs fs h in
      rw
        (
          two_fields pre a b post,
          (trip f x p).reads (omega (arith, length-append a b)) pre (b ++ post),
          zip-reads xs fs h (omega (arith, length-append a b)) (pre ++ a) post,
        )
        (ap (λ c. ok (x ∷ xs, c)) (past_both pre a b post))
  zip-reads [] (f ∷ fs) h small pre post = elim h [ ]
  zip-reads (x ∷ xs) [] h small pre post = elim h [ ]

  length-zip_written :
      (xs : List A) (fs : List B) (h : Pairwise P xs fs) → length xs ≤ length (zip_written xs fs h)
  unfolding zip_written
  length-zip_written [] [] h = omega arith
  length-zip_written (x ∷ xs) (f ∷ fs) (p, h) = omega (
    arith,
    (trip f x p).some_byte,
    length-zip_written xs fs h,
    length-append (trip f x p).written (zip_written xs fs h),
  )
  length-zip_written [] (f ∷ fs) h = elim h [ ]
  length-zip_written (x ∷ xs) [] h = elim h [ ]

  -- The elements behind a field: what the decoder makes of the field leads to their reader.
  pub zip_then-Trips :
      {K : Type 0} {v : Writer} {first : Reader E K} {k : K}
      (next : K × Cursor → Outcome E (List A × Cursor)) (xs : List A) (fs : List B)
      → Trips v first k
      → Pairwise P xs fs
      → ((c : Cursor) → length xs ≤ remaining c → next (k, c) ≡ read_zip r fs c)
      → Trips (v ⊳ write_zip w xs fs) (λ c. first c >>= next) xs
  zip_then-Trips {first = first} next xs fs t h go = record {
    written = t.written ++ s;
    some_byte = omega (arith, t.some_byte, length-append t.written s);
    appends = λ buf.
        ap (λ o. then_sink o (write_zip w xs fs)) (t.appends buf)
        ∙ zip-appends xs fs h (buf ++ t.written)
        ∙ ap some (append_assoc buf t.written s);
    reads = λ small pre post.
        ap (λ c. first c >>= next) (two_fields pre t.written s post)
        ∙ ap (λ o. o >>= next) (t.reads (omega (arith, length-append t.written s)) pre (s ++ post))
        ∙ go _ (
            omega (
              arith,
              length-zip_written xs fs h,
              length-append (pre ++ t.written) (s ++ post),
              length-append s post,
            ))
        ∙ zip-reads xs fs h (omega (arith, length-append t.written s)) (pre ++ t.written) post
        ∙ ap (λ c. ok (xs, c)) (past_both pre t.written s post);
  }
    where
      s : List ℕ
      s = zip_written xs fs h
