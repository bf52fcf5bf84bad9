-- ===== src/Wire/Yields.antt =====
-- What holds of all that a reader gives, on any bytes: readers on the `Cursor` of src/storage/segment/wire.rs, put together.
use adelie.Base.{
  ℕ, zero, suc, ◌≡◌, refl, subst, [], ◌∷◌, Bool, true, false, not, inl, inr, Bool-cases, Option,
}
use adelie.Base.Each.{Each}
use adelie.Wire.{Outcome, DecodeError, ok, ok_split, ◌>>=◌, ◌>>◌, fail_if, ok_or}
use adelie.Wire.Cursor.{Cursor, is_empty}
use adelie.Wire.Cursor
use adelie.Wire.Trips.{Reader, map_err, or_absent}
use adelie.Wire.Trips.Fields.{in_record}
use adelie.Wire.Trips.Lists.{read_each, read_list}

pub record Yields {E A : Type 0} (r : Reader E A) (P : A → Type 0) : Type 0 where
  pub result : (c : Cursor) (a : A) (c' : Cursor) → r c ≡ ok (a, c') → P a

value_of :
    {E A : Type 0} (P : A → Type 0) (a b : A) (c d : Cursor)
    → ◌≡◌ {A = Outcome E (A × Cursor)} (ok (a, c)) (ok (b, d))
    → P a
    → P b
value_of P a b c d e p = subst P same p
  where
    same : a ≡ b
    same = cc

pub gives : {E A : Type 0} (P : A → Type 0) (a : A) → P a → Yields {E = E} (λ c. ok (a, c)) P
gives P a p = record { result = λ c b c' e. value_of P a b c c' e p }

module _ {E A B : Type 0} {Q : B → Type 0} where
  -- A field of which `P` holds, and what is read behind it.
  pub field_yields :
      (P : A → Type 0) (first : Reader E A) (next : A × Cursor → Outcome E (B × Cursor))
      → Yields first P
      → ((a : A) → P a → Yields (λ c. next (a, c)) Q)
      → Yields (λ c. first c >>= next) Q
  field_yields P first next h k = record {
    result = λ c b c' e.
        let ((a, c1), read, rest) = ok_split (first c) next e in
        (k a (h.result c a c1 read)).result c1 b c' rest;
  }

  -- A field of no account.
  pub skip_field :
      (first : Reader E A) (next : A × Cursor → Outcome E (B × Cursor))
      → ((a : A) → Yields (λ c. next (a, c)) Q)
      → Yields (λ c. first c >>= next) Q
  skip_field first next k = record {
    result = λ c b c' e.
        let ((a, c1), read, rest) = ok_split (first c) next e in (k a).result c1 b c' rest;
  }

module _ {E A : Type 0} {P : A → Type 0} where
  pub check_yields :
      (check : Outcome E (Unit {0})) (read : Reader E A)
      → (check ≡ ok tt → Yields read P)
      → Yields (λ c. check >> read c) P
  check_yields check read k = record {
    result = λ c a c' e.
        let (u, passed, rest) = ok_split check (λ _. read c) e in (k passed).result c a c' rest;
  }

  -- What `ok_or` lets through.
  pub passed_yields :
      {K : Type 0} (o : Option K) (why : E) (use_it : K → Reader E A)
      → ((k : K) → Yields (use_it k) P)
      → Yields (λ c. ok_or o why >>= (λ k. use_it k c)) P
  passed_yields o why use_it h = record {
    result = λ c a c' e.
        let (k, found, rest) = ok_split (ok_or o why) (λ k. use_it k c) e in
        (h k).result c a c' rest;
  }

  pub in_record_yields :
      (f : DecodeError → E) (r : Reader E A) → Yields r P → Yields (in_record f r) P
  unfolding in_record
  in_record_yields f r h = record {
    result = λ c a c' e.
        let ((body, c1), opened, rest) = ok_split (map_err f (Cursor.record_body c)) _ e in
        let ((b, c2), read, last) = ok_split (r body) _ rest in
        value_of P b a c1 c' last (h.result body b c2 read);
  }

  pub or_absent_yields : (d : A) (r : Reader E A) → P d → Yields r P → Yields (or_absent d r) P
  or_absent_yields d r p h = record {
    result = λ c a c' e. elim (Bool-cases (is_empty c)) [
      | inl none_left ↦ value_of P d a c c' (rw none_left at e) p
      | inr more ↦ h.result c a c' (rw more at e)
    ];
  }

  Each-read_each : (r : Reader E A) → Yields r P → (n : ℕ) → Yields (read_each r n) (Each P)
  unfolding read_each
  Each-read_each r h zero = gives (Each P) [] tt
  Each-read_each r h (suc n) = field_yields P r _ h (λ x p.
      field_yields (Each P) (read_each r n) _ (Each-read_each r h n)
        (λ xs ps. gives (Each P) (x ∷ xs) (p, ps)))

  pub list_yields :
      (f : DecodeError → E) (min_each : ℕ) (r : Reader E A)
      → Yields r P
      → Yields (read_list f min_each r) (Each P)
  unfolding read_list
  list_yields f min_each r h = record {
    result = λ c xs c' e.
        let ((n, c1), counted, rest) = ok_split (map_err f (Cursor.uvarint c)) _ e in
        let (n', guarded, last) = ok_split (map_err f (Cursor.guard_len n min_each c1)) _ rest in
        (Each-read_each r h n').result c1 xs c' last;
  }

pub fail_if_passes : {E : Type 0} (b : Bool) (why : E) → fail_if (not b) why ≡ ok tt → b ≡ true
fail_if_passes true why h = refl
fail_if_passes false why h = cc
