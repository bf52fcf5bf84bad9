-- ===== src/Manifest/Ascending.antt =====
-- The tables of a manifest in src/storage/manifest/commit.rs by name: what finding, inserting,
-- replacing and removing a table rely on.
use adelie.Base.{
  ℕ, zero, suc, ◌≡◌, refl, sym, ap, ◌∙◌, subst, List, [], ◌∷◌, Bool, true, false, Option, none,
  some, get_elem?, set,
}
use adelie.Base.{Bool-cases, inl, inr, ◌⊎◌}
use adelie.Base.Search.{find, remove, insert_at, partition_point}
use adelie.Base.Each.{Each, Each-at, Each-map, Each-set, Each-remove, Each-insert_at}
use adelie.Base.Text.{
  text_eq, text_lt, text_eq-true, text_eq_refl, text_lt_irrefl, text_lt_trans, text_lt_total,
}
use adelie.Manifest.{TableName, name_eq, name_lt, TableEntry}

pub name_eq-true : (a b : TableName) → name_eq a b ≡ true → a ≡ b
unfolding name_eq
name_eq-true a b h = elim (Bool-cases (text_eq a.db b.db)) [
  | inl same ↦
      let d = text_eq-true a.db b.db same in
      let n = text_eq-true a.name b.name (rw same at h) in λ i. record { db = d i; name = n i }
  | inr other ↦ absurd (distinct (rw other at h))
]
  where
    distinct : false ≡ true → ⊥
    distinct k = cc

pub name_eq_refl : (a : TableName) → name_eq a a ≡ true
unfolding name_eq
name_eq_refl a = rw (text_eq_refl a.db, text_eq_refl a.name) refl

pub name_lt_irrefl : (a : TableName) → name_lt a a ≡ false
unfolding name_lt
name_lt_irrefl a = rw (text_lt_irrefl a.db, text_eq_refl a.db) (text_lt_irrefl a.name)

name_lt-cases :
    (a b : TableName)
    → name_lt a b ≡ true
    → (text_lt a.db b.db ≡ true) ⊎ ((a.db ≡ b.db) × (text_lt a.name b.name ≡ true))
unfolding name_lt
name_lt-cases a b h = elim (Bool-cases (text_lt a.db b.db)) [
  | inl before ↦ inl before
  | inr after ↦ elim (Bool-cases (text_eq a.db b.db)) [
    | inl same ↦ inr (text_eq-true a.db b.db same, rw (after, same) at h)
    | inr other ↦ absurd (distinct (rw (after, other) at h))
  ]
]
  where
    distinct : false ≡ true → ⊥
    distinct k = cc

name_lt-db : (a b : TableName) → text_lt a.db b.db ≡ true → name_lt a b ≡ true
unfolding name_lt
name_lt-db a b h = rw h refl

name_lt-name : (a b : TableName) → a.db ≡ b.db → text_lt a.name b.name ≡ true → name_lt a b ≡ true
unfolding name_lt
name_lt-name a b d h = rw (d, text_lt_irrefl b.db, text_eq_refl b.db) h

name_lt_trans : (a b c : TableName) → name_lt a b ≡ true → name_lt b c ≡ true → name_lt a c ≡ true
name_lt_trans a b c h k = elim (name_lt-cases a b h) [
  | inl h1 ↦ elim (name_lt-cases b c k) [
    | inl k1 ↦ name_lt-db a c (text_lt_trans a.db b.db c.db h1 k1)
    | inr (d, k1) ↦ name_lt-db a c (subst (λ t. text_lt a.db t ≡ true) d h1)
  ]
  | inr (d, h1) ↦ elim (name_lt-cases b c k) [
    | inl k1 ↦ name_lt-db a c (subst (λ t. text_lt t c.db ≡ true) (sym d) k1)
    | inr (d', k1) ↦ name_lt-name a c (d ∙ d') (text_lt_trans a.name b.name c.name h1 k1)
  ]
]

name_lt_total : (a b : TableName) → name_lt a b ≡ false → name_eq a b ≡ false → name_lt b a ≡ true
unfolding name_lt name_eq
name_lt_total a b h k = elim (Bool-cases (text_lt a.db b.db)) [
  | inl before ↦ absurd (distinct (rw before at h))
  | inr after ↦ elim (Bool-cases (text_eq a.db b.db)) [
    | inl same ↦
        name_lt-name b a (sym (text_eq-true a.db b.db same))
          (text_lt_total a.name b.name (rw (after, same) at h) (rw same at k))
    | inr other ↦ name_lt-db b a (text_lt_total a.db b.db after other)
  ]
]
  where
    distinct : true ≡ false → ⊥
    distinct e = cc

abbrev pub Ascending : List TableEntry → Type 0
Ascending [] = Unit
Ascending (t ∷ ts) = Each (λ u. name_lt t.name u.name ≡ true) ts × Ascending ts

-- No table has the name.
abbrev pub Unnamed : TableName → List TableEntry → Type 0
Unnamed name ts = Each (λ u. name_eq u.name name ≡ false) ts

pub find-Unnamed :
    (name : TableName) (ts : List TableEntry)
    → find (λ t. name_eq t.name name) ts ≡ none
    → Unnamed name ts
find-Unnamed name [] h = tt
find-Unnamed name (t ∷ ts) h = elim (Bool-cases (name_eq t.name name)) [
  | inl found ↦ absurd (distinct (rw found at h))
  | inr other ↦ (other, find-Unnamed name ts (rw other at h))
]
  where
    distinct : ◌≡◌ {A = Option TableEntry} (some t) none → ⊥
    distinct k = cc

pub Ascending-set :
    (ts : List TableEntry) (i : ℕ) (t u : TableEntry)
    → get_elem? ts i ≡ some t
    → u.name ≡ t.name
    → Ascending ts
    → Ascending (set ts i u)
Ascending-set [] i t u h e a = cc
Ascending-set (x ∷ xs) zero t u h e (first, rest) =
    let same : x ≡ t = cc in (rw (e ∙ ap (λ t. t.name) (sym same)) first, rest)
Ascending-set (x ∷ xs) (suc i) t u h e (first, rest) = (
  Each-set (λ u. name_lt x.name u.name ≡ true) xs i u
      (rw e (Each-at (λ u. name_lt x.name u.name ≡ true) xs i t first h)) first,
  Ascending-set xs i t u h e rest,
)

pub Ascending-remove : (ts : List TableEntry) (i : ℕ) → Ascending ts → Ascending (remove ts i)
Ascending-remove [] i a = tt
Ascending-remove (x ∷ xs) zero (first, rest) = rest
Ascending-remove (x ∷ xs) (suc i) (first, rest) =
    (Each-remove (λ u. name_lt x.name u.name ≡ true) xs i first, Ascending-remove xs i rest)

pub Ascending-insert_at :
    (ts : List TableEntry) (t : TableEntry)
    → Unnamed t.name ts
    → Ascending ts
    → Ascending (insert_at ts (partition_point (λ u. name_lt u.name t.name) ts) t)
Ascending-insert_at [] t n a = (tt, tt)
Ascending-insert_at (x ∷ xs) t (other, n) (first, rest) =
    elim (Bool-cases (name_lt x.name t.name)) [
      | inl before ↦ rw before (
        Each-insert_at (λ u. name_lt x.name u.name ≡ true) xs _ t before first,
        Ascending-insert_at xs t n rest,
      )
      | inr after ↦
          let lt = name_lt_total x.name t.name after other in
          rw after (
            (lt, Each-map _ _ (λ u k. name_lt_trans t.name x.name u.name lt k) xs first),
            (first, rest),
          )
    ]

lt-distinct : (a b : TableName) → name_lt a b ≡ true → a ≡ b → ⊥
lt-distinct a b h e = differ (subst (λ c. name_lt c b ≡ true) e h) (name_lt_irrefl b)
  where
    differ : {t : Bool} → t ≡ true → t ≡ false → ⊥
    differ k l = cc

before-name_eq :
    (a b : TableName) → name_lt a b ≡ true → (name_eq a b ≡ false) × (name_eq b a ≡ false)
before-name_eq a b h = (
  elim (Bool-cases (name_eq a b)) [
    | inl same ↦ absurd (lt-distinct a b h (name_eq-true a b same))
    | inr other ↦ other
  ],
  elim (Bool-cases (name_eq b a)) [
    | inl same ↦ absurd (lt-distinct a b h (sym (name_eq-true b a same)))
    | inr other ↦ other
  ],
)

-- Without one of its tables an ascending list has none of that name.
pub Ascending-Unnamed :
    (ts : List TableEntry) (i : ℕ) (t : TableEntry)
    → get_elem? ts i ≡ some t
    → Ascending ts
    → Unnamed t.name (remove ts i)
Ascending-Unnamed [] i t h a = cc
Ascending-Unnamed (x ∷ xs) zero t h (first, rest) =
    let same : x ≡ t = cc in
    Each-map _ _ (λ u k. rw (sym same) (before-name_eq x.name u.name k).1) xs first
Ascending-Unnamed (x ∷ xs) (suc i) t h (first, rest) = (
  (before-name_eq x.name t.name (Each-at (λ u. name_lt x.name u.name ≡ true) xs i t first h)).0,
  Ascending-Unnamed xs i t h rest,
)

-- The first table of a name is the only one.
pub Ascending-find :
    (ts : List TableEntry) (i : ℕ) (t : TableEntry)
    → get_elem? ts i ≡ some t
    → Ascending ts
    → find (λ u. name_eq u.name t.name) ts ≡ some t
Ascending-find [] i t h a = cc
Ascending-find (x ∷ xs) zero t h (first, rest) =
    let same : x ≡ t = cc in rw (same, name_eq_refl t.name) refl
Ascending-find (x ∷ xs) (suc i) t h (first, rest) =
    let other =
      (before-name_eq x.name t.name
        (Each-at (λ u. name_lt x.name u.name ≡ true) xs i t first h)).0 in
    rw other (Ascending-find xs i t h rest)

pub lt-asym : (a b : TableName) → name_lt a b ≡ true → name_lt b a ≡ false
lt-asym a b h = elim (Bool-cases (name_lt b a)) [
  | inl back ↦ absurd (lt-distinct a a (name_lt_trans a b a h back) refl)
  | inr ahead ↦ ahead
]
