-- ===== src/Manifest/Ids/Fill.antt =====
-- The loops of src/storage/manifest/ids.rs that hand out the ids that are missing.
use adelie.Base.{
  succ_u64, succ_u64-room, max, length, ◌^◌, ℕ, ◌+◌, ◌<◌, ◌≤◌, ◌≡◌, refl, sym, subst, arith, List,
  [], ◌∷◌, Bool, false, ◌==◌, if◌then◌else◌, Bool-cases, inl, inr,
}
use adelie.Base.Each.{Each}
use adelie.Manifest.Ids.{max_by, first_free, fill}

-- What a fill leaves: ids that are set, below the counter.
abbrev pub Filled {ℓ} : {A : Type ℓ} → (A → ℕ) → ℕ → List A → Type 0
Filled id next xs = Each (λ x. (0 < id x) × (id x < next)) xs

max_by-Filled {ℓ} :
    {A : Type ℓ} (id : A → ℕ) (next : ℕ) (xs : List A)
    → 0 < next
    → Filled id next xs
    → max_by id xs < next
max_by-Filled id next [] p h = p
max_by-Filled id next (x ∷ xs) p ((set_id, below), rest) =
    ground (arith, below, max_by-Filled id next xs p rest)

first_free-same :
    (next highest : ℕ) → 0 < next → highest < next → next < 2 ^ 64 → first_free next highest ≡ next
first_free-same next highest p h room =
    rw (succ_u64-room highest (omega (arith, h, room))) (ground (arith, p, h))

-- The ids, and one more for each element, stay in the range of a `u64`.
abbrev pub HasRoom {ℓ} : {A : Type ℓ} → (A → ℕ) → ℕ → List A → Type 0
HasRoom id next xs = max next (max_by id xs) + length xs + 1 < 2 ^ 64

-- What `fill` leaves: the counter has not gone down nor wrapped, and the ids are below it.
pub record IsFilled {ℓ} {A : Type ℓ} (id : A → ℕ) (next : ℕ) (done : List A × ℕ) : Type 0 where
  pub grows : next ≤ done.1
  pub small : done.1 < 2 ^ 64
  pub filled : Filled id done.1 done.0

module _ {ℓ} {A : Type ℓ} (id : A → ℕ) (with_id : A → ℕ → A) where
  -- `fill` of a list with a head, by whether the head's id is missing.
  abbrev fill_cons : Bool → ℕ → A → List A → List A × ℕ
  fill_cons b next x xs =
      let rest = fill id with_id (if b then succ_u64 next else next) xs in
      ((if b then with_id x next else x) ∷ rest.0, rest.1)

  fill-IsFilled :
      ((x : A) (i : ℕ) → id (with_id x i) ≡ i)
      → (next : ℕ) (xs : List A) → 0 < next
      → max_by id xs < next
      → next + length xs < 2 ^ 64
      → IsFilled id next (fill id with_id next xs)
  unfolding fill
  fill-IsFilled set_it next [] p h room = record {
    grows = omega arith;
    small = omega (arith, room);
    filled = tt;
  }
  fill-IsFilled set_it next (x ∷ xs) p h room = elim (Bool-cases (id x == 0)) [
    | inl missing ↦
        let up = succ_u64-room next (omega (arith, room)) in
        let rest =
          subst (λ n. IsFilled id (next + 1) (fill id with_id n xs)) (sym up)
            (fill-IsFilled set_it (next + 1) xs (omega arith) (ground (arith, h))
              (omega (arith, room))) in
        subst (λ b. IsFilled id next (fill_cons b next x xs)) (sym missing)
          (record {
            grows = omega (arith, rest.grows);
            small = rest.small;
            filled = (
              (omega (arith, set_it x next, p), omega (arith, set_it x next, rest.grows)),
              rest.filled,
            );
          })
    | inr there ↦
        let rest = fill-IsFilled set_it next xs p (ground (arith, h)) (omega (arith, room)) in
        subst (λ b. IsFilled id next (fill_cons b next x xs)) (sym there)
          (record {
            grows = rest.grows;
            small = rest.small;
            filled = ((ground (arith, there), ground (arith, h, rest.grows)), rest.filled);
          })
  ]

  fill-same :
      (bound next : ℕ) (xs : List A) → Filled id bound xs → fill id with_id next xs ≡ (xs, next)
  unfolding fill
  fill-same bound next [] h = refl
  fill-same bound next (x ∷ xs) ((set_id, below), rest) =
      let e : (id x == 0) ≡ false = ground (arith, set_id) in
      rw (e, fill-same bound next xs rest) refl

  -- A pass over ids that are all set changes nothing, and the first pass leaves such.
  pub fill-settled :
      (next : ℕ) (xs : List A)
      → 0 < next
      → next < 2 ^ 64
      → Filled id next xs
      → fill id with_id (first_free next (max_by id xs)) xs ≡ (xs, next)
  fill-settled next xs p small filled =
      rw (first_free-same next (max_by id xs) p (max_by-Filled id next xs p filled) small)
        (fill-same next next xs filled)

  pub fill-first :
      ((x : A) (i : ℕ) → id (with_id x i) ≡ i)
      → (next : ℕ) (xs : List A) → HasRoom id next xs
      → IsFilled id 1 (fill id with_id (first_free next (max_by id xs)) xs)
  fill-first set_it next xs room =
      let up = succ_u64-room (max_by id xs) (ground (arith, room)) in
      let first = max (max next (max_by id xs + 1)) 1 in
      let done =
        subst (λ n. IsFilled id first (fill id with_id (max (max next n) 1) xs)) (sym up)
          (fill-IsFilled set_it first xs (ground arith) (ground arith) (ground (arith, room))) in
      record { grows = ground (arith, done.grows); small = done.small; filled = done.filled }

  -- What new ids do not change stays.
  pub Each-fill :
      (P : A → Type 0)
      → ((x : A) (i : ℕ) → P x → P (with_id x i))
      → (next : ℕ) (xs : List A) → Each P xs
      → Each P (fill id with_id next xs).0
  unfolding fill
  Each-fill P keeps next [] h = tt
  Each-fill P keeps next (x ∷ xs) (first, rest) = elim (Bool-cases (id x == 0)) [
    | inl missing ↦
        subst (λ b. Each P (fill_cons b next x xs).0) (sym missing)
          (keeps x next first, Each-fill P keeps (succ_u64 next) xs rest)
    | inr there ↦
        subst (λ b. Each P (fill_cons b next x xs).0) (sym there)
          (first, Each-fill P keeps next xs rest)
  ]
