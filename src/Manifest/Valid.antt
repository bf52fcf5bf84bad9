-- ===== src/Manifest/Valid.antt =====
-- When a manifest of src/storage/manifest/mod.rs is well-formed: the tables ascend by name, an id stands for one name and one table in the tables, the retired
-- tables and the targets of jobs, and a job's source has the name of its target.
pub mod Labels
pub mod Steps
pub mod Unique
pub mod Commits
pub mod Undrop
use adelie.Base.{
  ℕ, ◌+◌, ◌<◌, ◌≤◌, ◌≡◌, refl, sym, ◌∙◌, arith, [], ◌==◌, if◌then◌else◌, Bool-cases, inl, inr,
}
use adelie.Base.Each.{Each}
use adelie.Base.Search.{sum_by, indicator}
use adelie.Manifest.{TableName, TableEntry, Job, Manifest, empty, table}
use adelie.Manifest.Ascending.{Ascending}

-- The name of the table with an id, and an id that was handed out.
abbrev pub Label : (ℕ → TableName) → ℕ → TableEntry → Type 0
Label label next t = (t.name ≡ label t.id) × (t.id < next)

abbrev pub JobLabel : (ℕ → TableName) → ℕ → Job → Type 0
JobLabel label next j =
    Label label next j.target × (j.target.name ≡ label j.source) × (j.source < next)

pub record IsLabelled (label : ℕ → TableName) (m : Manifest) : Type 0 where
  pub tables : Each (λ t. Label label m.next_table_id t) m.tables
  pub retired : Each (λ r. Label label m.next_table_id r.entry) m.retired
  pub jobs : Each (λ j. JobLabel label m.next_table_id j) m.jobs
  pub ascending : Ascending m.tables

pub record HasLabels (m : Manifest) : Type 0 where
  pub label : ℕ → TableName
  pub labelled : IsLabelled label m

-- How many tables, retired tables and targets of jobs have an id.
abbrev pub uses : ℕ → Manifest → ℕ
uses id m =
    sum_by (λ t. indicator (t.id == id)) m.tables
    + sum_by (λ r. indicator (r.entry.id == id)) m.retired
    + sum_by (λ j. indicator (j.target.id == id)) m.jobs

pub record IsValid (m : Manifest) : Type 0 where
  pub labels : HasLabels m
  pub unique : (id : ℕ) → uses id m ≤ 1

pub empty-IsValid : IsValid empty
unfolding empty
empty-IsValid = record {
  labels = record {
    label = λ i. record { db = []; name = [] };
    labelled = record { tables = tt; retired = tt; jobs = tt; ascending = tt };
  };
  unique = λ id. omega arith;
}

-- The labels after the next id is handed out for a name.
abbrev pub relabel : (ℕ → TableName) → ℕ → TableName → ℕ → TableName
relabel label next name i = if i == next then name else label i

relabel-old :
    (label : ℕ → TableName) (next : ℕ) (name : TableName) (i : ℕ)
    → i < next
    → relabel label next name i ≡ label i
relabel-old label next name i h = elim (Bool-cases (i == next)) [
  | inl same ↦ absurd (ground (arith, same, h))
  | inr other ↦ rw other refl
]

pub relabel-new :
    (label : ℕ → TableName) (next : ℕ) (name : TableName) → relabel label next name next ≡ name
relabel-new label next name = elim (Bool-cases (next == next)) [
  | inl same ↦ rw same refl
  | inr other ↦ absurd (ground (arith, other))
]

pub Label-relabel :
    (label : ℕ → TableName) (next : ℕ) (name : TableName) (t : TableEntry)
    → Label label next t
    → Label (relabel label next name) (next + 1) t
Label-relabel label next name t (named, old) =
    (named ∙ sym (relabel-old label next name t.id old), omega (arith, old))

pub JobLabel-relabel :
    (label : ℕ → TableName) (next : ℕ) (name : TableName) (j : Job)
    → JobLabel label next j
    → JobLabel (relabel label next name) (next + 1) j
JobLabel-relabel label next name j (target, named, old) = (
  Label-relabel label next name j.target target,
  named ∙ sym (relabel-old label next name j.source old),
  omega (arith, old),
)
