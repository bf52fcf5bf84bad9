-- ===== src/Manifest/Refs/Kept.antt =====
-- The segments that the edits of src/storage/manifest/commit.rs carry from one table to another: a
-- projected segment keeps its id, and a new table or target has none.
use adelie.Base.Each.{some-injective}
use adelie.Base.{ℕ, ◌+◌, ◌<◌, ◌≤◌, ◌≡◌, refl, sym, ap, subst, arith, List, [], ◌∷◌, Bool, some, not}
use adelie.Base.{◌==◌, get_elem?, Bool-cases, inl, inr}
use adelie.Base.Search.{find, filter, sum_by, indicator, sum_by-remove, sum_by-filter}
use adelie.Manifest.{
  TableName, SegmentEntry, SchemaField, TableEntry, Result, ok, collect, contains, expect,
  project_stats, project_onto,
}
use adelie.Manifest.Results.{ok_split, check_split, ok-injective, expect-ok}
use adelie.Manifest.Spec.{TableSpec, resolved_order_by, spec_with}
use adelie.Manifest.Alter.{Plan, Alter, plan_steps, target_of, plan_alter, id_named}
use adelie.Manifest.Tables.{optional, new_table, number_fields}
use adelie.Manifest.Jobs.{reuse, carry_back}
use adelie.Manifest.Refs.{seg_count}

-- An element's share of a sum.
pub sum_by-at {ℓ} :
    {A : Type ℓ} (f : A → ℕ) (xs : List A) (i : ℕ) (a : A)
    → get_elem? xs i ≡ some a
    → f a ≤ sum_by f xs
sum_by-at f xs i a h = omega (arith, sum_by-remove f xs i a h)

sum_by-find {ℓ} :
    {A : Type ℓ} (f : A → ℕ) (p : A → Bool) (xs : List A) (a : A)
    → find p xs ≡ some a
    → f a ≤ sum_by f xs
sum_by-find f p [] a h = cc
sum_by-find f p (x ∷ xs) a h = elim (Bool-cases (p x)) [
  | inl found ↦ omega (arith, ap f (some-injective (rw found at h)))
  | inr next ↦ omega (arith, sum_by-find f p xs a (rw next at h))
]

-- A loop whose bodies keep a measure keeps the sum of it, and one whose bodies give what is
-- measured from a source only gives no more.
collect-sum_by {ℓ κ} :
    {A : Type ℓ} {B : Type κ} (f : A → Result B) (g : A → ℕ) (h : B → ℕ)
    → ((x : A) (y : B) → f x ≡ ok y → h y ≡ g x)
    → (xs : List A) (ys : List B) → collect f xs ≡ ok ys
    → sum_by h ys ≡ sum_by g xs
collect-sum_by f g h keeps [] ys e = subst (λ ys. sum_by h ys ≡ 0) (ok-injective e) refl
collect-sum_by f g h keeps (x ∷ xs) ys e =
    let (y, first, e1) = ok_split (f x) _ e in
    let (rest, others, e2) = ok_split (collect f xs) _ e1 in
    subst (λ ys. sum_by h ys ≡ g x + sum_by g xs) (ok-injective e2)
      (omega (arith, keeps x y first, collect-sum_by f g h keeps xs rest others))

collect-pos {ℓ κ} :
    {A : Type ℓ} {B : Type κ} (f : A → Result B) (h : B → ℕ) (n : ℕ)
    → ((x : A) (y : B) → f x ≡ ok y → h y ≤ n)
    → (xs : List A) (ys : List B) → collect f xs ≡ ok ys
    → 0 < sum_by h ys
    → 0 < n
collect-pos f h n from [] ys e p = omega (arith, p, ap (sum_by h) (ok-injective e))
collect-pos f h n from (x ∷ xs) ys e p =
    let (y, first, e1) = ok_split (f x) _ e in
    let (rest, others, e2) = ok_split (collect f xs) _ e1 in
    ground (
      arith,
      p,
      ap (sum_by h) (ok-injective e2),
      from x y first,
      collect-pos f h n from xs rest others,
    )

pub project_onto-id :
    (s t : SegmentEntry) (schema : List SchemaField) → project_onto s schema ≡ ok t → t.id ≡ s.id
unfolding project_onto
project_onto-id s t schema e =
    let (columns, first, e1) = ok_split (collect (project_stats s) schema) _ e in
    sym (ap (λ t. t.id) (ok-injective e1))

pub carry_back-count :
    (id : ℕ) (schema : List SchemaField) (successors : List ℕ)
    (segments carried : List SegmentEntry)
    → carry_back schema successors segments ≡ ok carried
    → seg_count id carried ≤ seg_count id segments
unfolding carry_back
carry_back-count id schema successors segments carried e = omega (
  arith,
  collect-sum_by (λ s. project_onto s schema) (λ s. indicator (s.id == id))
      (λ s. indicator (s.id == id))
      (λ s t h. ap (λ i. indicator (i == id)) (project_onto-id s t schema h))
      (filter (λ s. not (contains successors s.id)) segments) carried e,
  sum_by-filter (λ s. contains successors s.id) (λ s. indicator (s.id == id)) segments,
)

reuse-from :
    (id : ℕ) (source : TableEntry) (schema : List SchemaField) (from : ℕ) (s : SegmentEntry)
    → reuse source schema from ≡ ok s
    → indicator (s.id == id) ≤ seg_count id source.segments
unfolding reuse
reuse-from id source schema from s e =
    let (t, found, e1) = ok_split (expect (find (λ s. s.id == from) source.segments)) _ e in
    omega (
      arith,
      ap (λ i. indicator (i == id)) (project_onto-id t s schema e1),
      sum_by-find (λ s. indicator (s.id == id)) _ source.segments t (expect-ok _ found),
    )

pub reuse-count :
    (id : ℕ) (source : TableEntry) (schema : List SchemaField) (ids : List ℕ)
    (carried : List SegmentEntry)
    → collect (reuse source schema) ids ≡ ok carried
    → 0 < seg_count id carried
    → 0 < seg_count id source.segments
reuse-count id source schema ids carried e p =
    collect-pos (reuse source schema) (λ s. indicator (s.id == id)) (seg_count id source.segments)
      (λ x y h. reuse-from id source schema x y h) ids carried e p

-- What `new_table` and `plan_alter` make.
pub record MadeFrom (spec_name : TableName) (id : ℕ) (t : TableEntry) : Type 0 where
  pub id_same : t.id ≡ id
  pub name_same : t.name ≡ spec_name
  pub no_segments : t.segments ≡ []

made :
    (name : TableName) (id : ℕ) (t : TableEntry)
    → t.id ≡ id
    → t.name ≡ name
    → t.segments ≡ []
    → MadeFrom name id t
made name id t a b c = record { id_same = a; name_same = b; no_segments = c }

pub new_table-MadeFrom :
    (s : TableSpec) (id : ℕ) (t : TableEntry) → new_table s id ≡ ok t → MadeFrom s.name id t
unfolding new_table
new_table-MadeFrom s id t h =
    let (key, e1, h1) = ok_split (collect (id_named (number_fields 1 s.columns)) s.key) _ h in
    let (version, e2, h2) =
      ok_split (optional (id_named (number_fields 1 s.columns)) s.version) _ h1 in
    let (order_by, e3, h3) =
      ok_split (collect (id_named (number_fields 1 s.columns)) (resolved_order_by s)) _ h2 in
    let (partition_by, e4, h4) = ok_split (optional _ s.partition_by) _ h3 in
    let (ttl, e5, h5) = ok_split (optional _ s.ttl) _ h4 in
    subst (λ t. MadeFrom s.name id t) (ok-injective h5) (made s.name id _ refl refl refl)

target_of-MadeFrom :
    (source : TableEntry) (p : Plan) (t : TableEntry)
    → target_of source p ≡ ok t
    → MadeFrom source.name 0 t
unfolding target_of
target_of-MadeFrom source p t h =
    let (sort_ids, ids, h1) =
      ok_split
        (collect (id_named p.schema) (resolved_order_by (spec_with source p.schema p.order_by))) _
        h in
    let (valid, h2) = check_split _ _ h1 in
    subst (λ t. MadeFrom source.name 0 t) (ok-injective h2) (made source.name 0 _ refl refl refl)

pub plan_alter-MadeFrom :
    (source : TableEntry) (ops : List Alter) (t : TableEntry)
    → plan_alter source ops ≡ ok t
    → MadeFrom source.name 0 t
unfolding plan_alter
plan_alter-MadeFrom source ops t h =
    let (some_op, h1) = check_split _ _ h in
    let (p, planned, h2) = ok_split (plan_steps source _ ops) _ h1 in
    target_of-MadeFrom source p t h2
