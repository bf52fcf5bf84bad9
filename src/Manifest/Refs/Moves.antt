-- ===== src/Manifest/Refs/Moves.antt =====
-- What an edit may do with a segment, by how often it is named and how often it is garbage.
use adelie.Base.{
  Bool, false, true, ◌∙◌, ℕ, ◌+◌, ◌<◌, ◌≡◌, arith, get_elem?, some, set, List, [], ◌∷◌, ◌++◌,
}
use adelie.Base.Search.{sum_by-append, sum_by-remove, sum_by-set, position-some, remove}
use adelie.Manifest.{TableName, TableEntry, Retired, Manifest, ok, conflict, Detail}
use adelie.Manifest.Tables.{table_index, table_named}
use adelie.Manifest.Results.{ok_or-ok}
use adelie.Manifest.Refs.{seg_count, in_tables, in_retired}
use adelie.Manifest.Refs.Release.{Released}

-- From `r` references and `g` garbage entries to `r'` and `g'`, where an edit brings `a` and may
-- forget the segment's garbage. `kept`: a segment that was known is, if it is not forgotten.
-- `apart`: where no garbage was named, and what the edit brings was no garbage, no garbage is
-- named. `known`: what is known was, or is brought.
pub record Moves (forgotten : Bool) (a r g r' g' : ℕ) : Type 0 where
  pub kept : forgotten ≡ false → 0 < r + g → 0 < r' + g'
  pub apart : (0 < g → r ≡ 0) → (0 < a → g ≡ 0) → 0 < g' → r' ≡ 0
  pub known : 0 < r' + g' → 0 < r + g + a

-- An edit that leaves the garbage alone.
pub Moves-shift :
    (f : Bool) (a r g r' g' : ℕ)
    → g' ≡ g
    → (0 < r → 0 < r')
    → (0 < r' → 0 < r + a)
    → Moves f a r g r' g'
Moves-shift f a r g r' g' same up down = record {
  kept = λ e p. ground (arith, up, p);
  apart = λ s t p. ground (arith, s, t, p, down);
  known = λ p. ground (arith, p, down);
}

-- An edit that lets `s` references go, and then releases them.
pub Moves-release :
    (f : Bool) (r g s r' g' : ℕ) → r' + s ≡ r → Released r' g s g' → Moves f 0 r g r' g'
Moves-release f r g s r' g' e h = record {
  kept = λ k p. ground (arith, h.grows, h.covers);
  apart = λ t k p. ground (arith, t, p, h.grows, h.from);
  known = λ p. ground (arith, p, h.grows, h.from);
}

-- The table that a name leads to stands at the index, under that name.
pub table_index-ok :
    (m : Manifest) (name : TableName) (i : ℕ) (t : TableEntry)
    → table_index m name ≡ ok (i, t)
    → (get_elem? m.tables i ≡ some t) × (table_named name t ≡ true)
unfolding table_index
table_index-ok m name i t h =
    position-some (table_named name) m.tables i t (ok_or-ok _ (conflict name Detail.no_table) h)

-- References under a change of one table.
pub in_tables-set :
    (id : ℕ) (ts : List TableEntry) (i : ℕ) (t u : TableEntry)
    → get_elem? ts i ≡ some t
    → in_tables id (set ts i u) + seg_count id t.segments
      ≡ in_tables id ts + seg_count id u.segments
in_tables-set id ts i t u h = sum_by-set (λ t. seg_count id t.segments) ts i t u h

pub in_tables-remove :
    (id : ℕ) (ts : List TableEntry) (i : ℕ) (t : TableEntry)
    → get_elem? ts i ≡ some t
    → in_tables id (remove ts i) + seg_count id t.segments ≡ in_tables id ts
in_tables-remove id ts i t h = sum_by-remove (λ t. seg_count id t.segments) ts i t h

pub in_retired-push :
    (id : ℕ) (rs : List Retired) (r : Retired)
    → in_retired id (rs ++ (r ∷ [])) ≡ in_retired id rs + seg_count id r.entry.segments
in_retired-push id rs r =
    sum_by-append (λ r. seg_count id r.entry.segments) rs (r ∷ []) ∙ omega arith
