-- ===== src/Manifest/Tables/Total.antt =====
-- The `expect` calls of `create_table` in src/storage/manifest/commit.rs.
use adelie.Base.{ℕ, ◌+◌, ◌≡◌, refl, List, [], ◌∷◌, true, false, not}
use adelie.Base.{◌&&◌, Bool-cases, inl, inr}
use adelie.Base.Search.{find}
use adelie.Base.Each.{Each, Each-map}
use adelie.Base.Text.{Text, text_eq}
use adelie.Manifest.{Field, Manifest, Detail, expect, is_some, collect, table, conflict}
use adelie.Manifest.Spec.{TableSpec, engine_rules, resolved_order_by, is_nil, is_keyed, column}
use adelie.Manifest.Alter.{named, id_named}
use adelie.Manifest.Tables.{number_fields, optional, new_table, apply_create_table}
use adelie.Manifest.Spec.Total.{
  panics, bind-total, collect-total, optional-total, expect-total, then-total, guard-total, Found,
  ClausesFound, validate-total, validate-Found,
}

find-number_fields :
    (c : Text) (id : ℕ) (cols : List Field)
    → is_some (find (λ f. text_eq f.name c) cols) ≡ true
    → is_some (find (named c) (number_fields id cols)) ≡ true
unfolding number_fields
find-number_fields c id [] h = cc
find-number_fields c id (f ∷ cols) h = elim (Bool-cases (text_eq f.name c)) [
  | inl here ↦ rw here refl
  | inr other ↦ rw other (find-number_fields c (id + 1) cols (rw other at h))
]

id_named-total :
    (s : TableSpec) (c : Text) → Found s c → panics (id_named (number_fields 1 s.columns) c) ≡ false
unfolding column
id_named-total s c found =
    bind-total (expect _) _ (expect-total _ (find-number_fields c 1 s.columns found)) (λ f e. refl)

resolved-Found : (s : TableSpec) → ClausesFound s → Each (Found s) (resolved_order_by s)
unfolding resolved_order_by
resolved-Found s h =
    elim (Bool-cases
      (is_nil s.order_by && (is_keyed (engine_rules s.engine) && not (is_nil s.key)))) [
        | inl by_key ↦ rw by_key h.key
        | inr given ↦ rw given h.order_by
      ]

new_table-total : (s : TableSpec) (id : ℕ) → ClausesFound s → panics (new_table s id) ≡ false
unfolding new_table
new_table-total s id h =
    let named_total =
      Each-map (Found s) (λ c. panics (id_named (number_fields 1 s.columns) c) ≡ false)
        (id_named-total s) in
    bind-total (collect _ s.key) _ (collect-total _ s.key (named_total s.key h.key)) (λ key e1.
      bind-total (optional _ s.version) _
        (optional-total _ s.version (λ c e. id_named-total s c (h.version c e)))
        (λ version e2.
          bind-total (collect _ (resolved_order_by s)) _
            (collect-total _ (resolved_order_by s)
              (named_total (resolved_order_by s) (resolved-Found s h)))
            (λ order_by e3.
              bind-total (optional _ s.partition_by) _
                (optional-total _ s.partition_by (λ (p : Text × ℕ) e.
                  bind-total (id_named _ p.0) _ (id_named-total s p.0 (h.partition_by p e))
                    (λ c e'. refl)))
                (λ partition_by e4.
                  bind-total (optional _ s.ttl) _
                    (optional-total _ s.ttl (λ (t : Text × ℕ) e.
                      bind-total (id_named _ t.0) _ (id_named-total s t.0 (h.ttl t e))
                        (λ c e'. refl)))
                    (λ ttl e5. refl)))))

-- To create a table panics on no spec: it succeeds or is an error.
pub apply_create_table-panics :
    (m : Manifest) (s : TableSpec) → panics (apply_create_table m s) ≡ false
unfolding apply_create_table
apply_create_table-panics m s = then-total _ _ (validate-total s) (λ valid.
    guard-total (is_some (table m s.name)) (conflict s.name Detail.table_exists) _ (
      bind-total (new_table s m.next_table_id) _
        (new_table-total s m.next_table_id (validate-Found s valid)) (λ t e. refl)))
