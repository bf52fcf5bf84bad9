-- ===== src/Manifest/Ids/Idempotent.antt =====
-- `assign_missing` of src/storage/manifest/ids.rs, the second time.
use adelie.Base.{
  ℕ, ◌≡◌, refl, ap, ap₂, ◌∙◌, List, [], ◌∷◌, map, Bool, true, false, not, ◌&&◌, if◌then◌else◌,
  Bool-cases, inl, inr,
}
use adelie.Base.Each.{Each}
use adelie.Base.Text.{Text, text_eq}
use adelie.Manifest.{SchemaField, SegmentEntry, TableEntry, Garbage, Manifest, ids_eq}
use adelie.Manifest.Spec.{is_nil}
use adelie.Manifest.Ids.{
  max_by, first_free, fill_tables, assign_field_ids, legacy_dir, assign_segment_dir,
  assign_segment_dirs, assign_garbage_dir, assign_missing,
}
use adelie.Manifest.Ids.Fill.{Filled, HasRoom, fill-settled, fill-first, Each-fill}

-- A default that is put in is left alone, or put in again.
default_twice {ℓ} :
    {A : Type ℓ} (p : A → Bool) (a x : A)
    → (if p (if p x then a else x) then a else (if p x then a else x)) ≡ (if p x then a else x)
default_twice p a x = elim (Bool-cases (p x)) [
  | inl missing ↦ rw missing (either_way (p a))
  | inr there ↦ rw (there, there) refl
]
  where
    either_way : (b : Bool) → (if b then a else a) ≡ a
    either_way true = refl
    either_way false = refl

segment_dir_twice :
    (dir : Text) (schema_ids : List ℕ) (s : SegmentEntry)
    → assign_segment_dir dir schema_ids (assign_segment_dir dir schema_ids s)
      ≡ assign_segment_dir dir schema_ids s
unfolding assign_segment_dir
segment_dir_twice dir schema_ids s =
    ap₂ (λ d ids. with_dir s d ids) (default_twice (λ d. text_eq d []) dir s.dir)
      (default_twice (λ ids. ids_eq ids [] && not (is_nil s.columns)) schema_ids s.field_ids)
  where
    with_dir : SegmentEntry → Text → List ℕ → SegmentEntry
    with_dir s d ids = record s { dir = d; field_ids = ids }

map_twice {ℓ} :
    {A : Type ℓ} (f : A → A)
    → ((x : A) → f (f x) ≡ f x)
    → (xs : List A) → map f (map f xs) ≡ map f xs
map_twice f h [] = refl
map_twice f h (x ∷ xs) = rw (h x, map_twice f h xs) refl

map_twice_each :
    {A : Type 0} (P : A → Type 0) (f : A → A)
    → ((x : A) → P x → f (f x) ≡ f x)
    → (xs : List A) → Each P xs
    → map f (map f xs) ≡ map f xs
map_twice_each P f h [] each = refl
map_twice_each P f h (x ∷ xs) (first, rest) = rw (h x first, map_twice_each P f h xs rest) refl

segment_dirs_twice :
    (t : TableEntry) → assign_segment_dirs (assign_segment_dirs t) ≡ assign_segment_dirs t
unfolding assign_segment_dirs
segment_dirs_twice t =
    ap (λ segments. with_segments t segments)
      (map_twice _ (segment_dir_twice (legacy_dir t.name) (map (λ f. f.id) t.schema)) t.segments)
  where
    with_segments : TableEntry → List SegmentEntry → TableEntry
    with_segments t segments = record t { segments = segments }

garbage_dir_twice : (g : Garbage) → assign_garbage_dir (assign_garbage_dir g) ≡ assign_garbage_dir g
unfolding assign_garbage_dir
garbage_dir_twice g =
    ap (λ d. with_dir g d) (default_twice (λ d. text_eq d []) (legacy_dir g.table) g.segment.dir)
  where
    with_dir : Garbage → Text → Garbage
    with_dir g d = record g { segment = record g.segment { dir = d } }

-- No counter of a table's columns wraps.
abbrev HasFields : TableEntry → Type 0
HasFields t = HasRoom (λ f. f.id) t.next_field_id t.schema

field_ids_twice :
    (t : TableEntry)
    → HasFields t
    → assign_field_ids (assign_segment_dirs (assign_field_ids t))
      ≡ assign_segment_dirs (assign_field_ids t)
unfolding assign_field_ids assign_segment_dirs
field_ids_twice t room =
    let done =
      fill-first (λ f. f.id) (λ f id. record f { id = id }) (λ f i. refl) t.next_field_id t.schema
        room in
    ap (λ done. with_schema (assign_segment_dirs (assign_field_ids t)) done)
      (fill-settled (λ f. f.id) (λ f id. record f { id = id }) _ _ done.grows done.small
        done.filled)
  where
    with_schema : TableEntry → List SchemaField × ℕ → TableEntry
    with_schema t done = record t { schema = done.0; next_field_id = done.1 }

table_twice :
    (t : TableEntry)
    → HasFields t
    → assign_segment_dirs (assign_field_ids (assign_segment_dirs (assign_field_ids t)))
      ≡ assign_segment_dirs (assign_field_ids t)
table_twice t room =
    ap assign_segment_dirs (field_ids_twice t room) ∙ segment_dirs_twice (assign_field_ids t)

Filled-map :
    (next : ℕ) (ts : List TableEntry)
    → Filled (λ t. t.id) next ts
    → Filled (λ t. t.id) next (map (λ t. assign_segment_dirs (assign_field_ids t)) ts)
unfolding assign_segment_dirs assign_field_ids
Filled-map next [] h = tt
Filled-map next (t ∷ ts) (first, rest) = (first, Filled-map next ts rest)

-- The ids that `assign_missing` may hand out stay in the range of a `u64`.
pub record HasIds (m : Manifest) : Type 0 where
  pub tables : HasRoom (λ t. t.id) m.next_table_id m.tables
  pub fields : Each (λ t. HasRoom (λ f. f.id) t.next_field_id t.schema) m.tables

pub assign_missing-assign_missing :
    (m : Manifest) → HasIds m → assign_missing (assign_missing m) ≡ assign_missing m
unfolding assign_missing
assign_missing-assign_missing m room =
    let done = fill_tables (first_free m.next_table_id (max_by (λ t. t.id) m.tables)) m.tables in
    let h =
      fill-first (λ t. t.id) (λ t id. record t { id = id }) (λ t i. refl) m.next_table_id m.tables
        room.tables in
    let e =
      fill-settled (λ t. t.id) (λ t id. record t { id = id }) done.1 _ h.grows h.small
        (Filled-map done.1 done.0 h.filled) in
    let fields =
      Each-fill (λ t. t.id) (λ t id. record t { id = id }) HasFields (λ t i k. k) _ m.tables
        room.fields in
    ap₂ (λ (d : List TableEntry × ℕ) garbage. with_tables m (map whole d.0) d.1 garbage) e
      (map_twice assign_garbage_dir garbage_dir_twice m.garbage)
    ∙ ap (λ tables. with_tables m tables done.1 (map assign_garbage_dir m.garbage))
        (map_twice_each HasFields whole table_twice done.0 fields)
  where
    whole : TableEntry → TableEntry
    whole t = assign_segment_dirs (assign_field_ids t)

    with_tables : Manifest → List TableEntry → ℕ → List Garbage → Manifest
    with_tables m tables next garbage = record m {
      next_table_id = next;
      tables = tables;
      garbage = garbage;
    }
