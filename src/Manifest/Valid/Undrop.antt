-- ===== src/Manifest/Valid/Undrop.antt =====
-- `undrop_table` after `drop_table`, both of src/storage/manifest/commit.rs.
use adelie.Base.{
  ℕ, zero, suc, ◌≡◌, refl, sym, ap, ap₂, subst, arith, List, [], ◌∷◌, ◌++◌, Bool, true, none, some,
  get_elem?, length,
}
use adelie.Base.Search.{find, remove, insert_at, partition_point, rposition}
use adelie.Base.Each.{Each-at}
use adelie.Manifest.{TableName, name_eq, name_lt, TableEntry, Retired, Manifest, ok, dropped, table}
use adelie.Manifest.Tables.{
  table_named, table_index, insert_table, drop_at, apply_drop_table, undrop_at, dropped_named,
  apply_undrop_table,
}
use adelie.Manifest.Results.{ok_split, check_split, ok-injective}
use adelie.Manifest.Refs.Moves.{table_index-ok}
use adelie.Manifest.Ascending.{Ascending, Unnamed, name_eq-true, lt-asym, Ascending-Unnamed}
use adelie.Manifest.Valid.{IsValid}

module _ {ℓ} {A : Type ℓ} where
  rposition-push :
      (p : A → Bool) (xs : List A) (a : A)
      → p a ≡ true
      → rposition p (xs ++ (a ∷ [])) ≡ some (length xs, a)
  rposition-push p [] a h = rw h refl
  rposition-push p (x ∷ xs) a h = rw (rposition-push p xs a h) (ap (λ i. some (i, a)) (omega arith))

  remove-push : (xs : List A) (a : A) → remove (xs ++ (a ∷ [])) (length xs) ≡ xs
  remove-push [] a = refl
  remove-push (x ∷ xs) a = ap (λ ys. x ∷ ys) (remove-push xs a)

Unnamed-find :
    (name : TableName) (ts : List TableEntry)
    → Unnamed name ts
    → find (λ t. name_eq t.name name) ts ≡ none
Unnamed-find name [] h = refl
Unnamed-find name (t ∷ ts) (other, rest) = rw other (Unnamed-find name ts rest)

-- A table that is taken out of an ascending list goes back to its place.
insert_at-remove :
    (ts : List TableEntry) (i : ℕ) (t : TableEntry)
    → get_elem? ts i ≡ some t
    → Ascending ts
    → insert_at (remove ts i) (partition_point (λ u. name_lt u.name t.name) (remove ts i)) t ≡ ts
insert_at-remove [] i t h a = cc
insert_at-remove (x ∷ []) zero t h a = let same : x ≡ t = cc in ap (λ u. u ∷ []) (sym same)
insert_at-remove (x ∷ y ∷ xs) zero t h ((lt, first), rest) =
    let same : x ≡ t = cc in rw (sym same, lt-asym x.name y.name lt) refl
insert_at-remove (x ∷ xs) (suc i) t h (first, rest) =
    let lt = Each-at (λ u. name_lt x.name u.name ≡ true) xs i t first h in
    rw lt (ap (λ us. x ∷ us) (insert_at-remove xs i t h rest))

-- What `drop_table` does in a well-formed manifest `undrop_table` undoes: right after a drop that
-- succeeds it succeeds, and gives back the manifest from before the drop.
pub apply_undrop_table-apply_drop_table :
    (m m' : Manifest) (name : TableName) (version now_ms : ℕ)
    → IsValid m
    → apply_drop_table m name version now_ms ≡ ok m'
    → apply_undrop_table m' name ≡ ok m
unfolding apply_drop_table apply_undrop_table drop_at undrop_at insert_table table
apply_undrop_table-apply_drop_table m m' name version now_ms v h =
    let ((i, t), found, h1) = ok_split (table_index m name) _ h in
    let (idle, h2) = check_split _ _ h1 in
    let (here, named) = table_index-ok m name i t found in
    subst (λ n. apply_undrop_table n name ≡ ok m) (ok-injective h2) (restored i t here named)
  where
    restored :
        (i : ℕ) (t : TableEntry)
        → get_elem? m.tables i ≡ some t
        → table_named name t ≡ true
        → apply_undrop_table (drop_at m i t version now_ms) name ≡ ok m
    restored i t here named =
        let gone : Retired = record {
          entry = t;
          reason = dropped;
          retired_at_ms = now_ms;
          version = version;
          successor_segments = [];
        } in
        let free =
          subst (λ n. Unnamed n (remove m.tables i)) (name_eq-true t.name name named)
            (Ascending-Unnamed m.tables i t here v.labels.labelled.ascending) in
        rw
          (
            rposition-push (dropped_named name) m.retired gone named,
            Unnamed-find name (remove m.tables i) free,
          )
          (ap₂ (λ tables retired. ok (record m { tables = tables; retired = retired }))
            (insert_at-remove m.tables i t here v.labels.labelled.ascending)
            (remove-push m.retired gone))
