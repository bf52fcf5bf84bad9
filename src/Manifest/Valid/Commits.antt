-- ===== src/Manifest/Valid/Commits.antt =====
-- `Commit::apply` of src/storage/manifest/commit.rs and well-formed manifests.
use adelie.Base.{
  succ_u64, ℕ, ◌+◌, ◌≡◌, sym, ap, ◌∙◌, subst, List, [], ◌∷◌, some, get_elem?, ◌<◌, ◌^◌, arith, ◌==◌,
  Bool-cases, inl, inr, refl,
}
use adelie.Base.Each.{some-injective}
use adelie.Manifest.{TableEntry, Job, Manifest, ok, empty, table}
use adelie.Manifest.Commit.{Edit, Commit, apply_edit, apply_edits, apply}
use adelie.Manifest.Results.{ok_split, ok-injective}
use adelie.Manifest.Step.{Step}
use adelie.Manifest.Step.Sound.{apply_edit-Step}
use adelie.Manifest.Ascending.{Ascending-find}
use adelie.Manifest.Valid.{IsValid, empty-IsValid, uses}
use adelie.Manifest.Valid.Labels.{table-Label, job-JobLabel}
use adelie.Manifest.Valid.Steps.{Step-HasLabels}
use adelie.Manifest.Valid.Unique.{creations, Step-Hands, Fresh-uses}
use adelie.Base.Search.{sum_by}

Step-IsValid :
    (version now_ms : ℕ) (m m' : Manifest) {e : Edit}
    → m.next_table_id + creations e < 2 ^ 64
    → Step version now_ms m m' e
    → IsValid m
    → IsValid m'
Step-IsValid version now_ms m m' {e = e} room step v = record {
  labels = Step-HasLabels version now_ms m m' v.labels room step;
  unique = λ id.
      let h = (Step-Hands version now_ms id m m' room step).once in
      elim (Bool-cases (m.next_table_id == id)) [
        | inl same ↦
            let fresh = Fresh-uses v.labels.label m v.labels.labelled in
            let this : m.next_table_id ≡ id = ground (arith, same) in
            let none_yet = subst (λ k. uses k m ≡ 0) this fresh in
            omega (arith, rw same at h, none_yet)
        | inr other ↦ omega (arith, rw other at h, v.unique id)
      ];
}

-- How many ids of tables a commit takes.
abbrev pub all_creations : List Edit → ℕ
all_creations edits = sum_by creations edits

apply_edits-IsValid :
    (version now_ms : ℕ) (m m' : Manifest) (edits : List Edit)
    → m.next_table_id + all_creations edits < 2 ^ 64
    → apply_edits m edits version now_ms ≡ ok m'
    → IsValid m
    → IsValid m' × (m'.next_table_id ≡ m.next_table_id + all_creations edits)
unfolding apply_edits
apply_edits-IsValid version now_ms m m' [] room h v =
    subst (λ n. IsValid n × (n.next_table_id ≡ m.next_table_id + 0)) (ok-injective h)
      (v, omega arith)
apply_edits-IsValid version now_ms m m' (e ∷ edits) room h v =
    let (n, first, rest) = ok_split (apply_edit m e version now_ms) _ h in
    let step = apply_edit-Step m n version now_ms e first in
    let here : m.next_table_id + creations e < 2 ^ 64 = omega (arith, room) in
    let up = (Step-Hands version now_ms 0 m n here step).counter in
    let (v', up') =
      apply_edits-IsValid version now_ms n m' edits (omega (arith, room, up)) rest
        (Step-IsValid version now_ms m n here step v) in
    (v', omega (arith, up, up'))

at_version : (m : Manifest) (version : ℕ) → IsValid m → IsValid (record m { version = version })
at_version m version v = record {
  labels = record {
    label = v.labels.label;
    labelled = record {
      tables = v.labels.labelled.tables;
      retired = v.labels.labelled.retired;
      jobs = v.labels.labelled.jobs;
      ascending = v.labels.labelled.ascending;
    };
  };
  unique = v.unique;
}

-- A commit that succeeds keeps a manifest well-formed: its tables ascend by name, strictly; no id stands
-- for two of the tables, the retired tables and the targets of jobs, nor for two names; all of them
-- have ids below `next_table_id`; and the id of a job's source stands for the name of the job's
-- target. The condition is that `next_table_id` and the tables and jobs that the commit creates stay
-- in the range of a `u64`, and then the counter goes up by their number.
pub apply-IsValid :
    (now_ms : ℕ) (m m' : Manifest) (c : Commit)
    → apply c m now_ms ≡ ok m'
    → m.next_table_id + all_creations c.edits < 2 ^ 64
    → IsValid m
    → IsValid m' × (m'.next_table_id ≡ m.next_table_id + all_creations c.edits)
unfolding apply
apply-IsValid now_ms m m' c h room v =
    let (n, run, e) = ok_split (apply_edits m c.edits (succ_u64 m.version) now_ms) _ h in
    let (v', up) = apply_edits-IsValid (succ_u64 m.version) now_ms m n c.edits room run v in
    subst (λ k. IsValid k × (k.next_table_id ≡ m.next_table_id + all_creations c.edits))
      (ok-injective e) (at_version n (succ_u64 m.version) v', up)

-- The manifests that commits make of the empty one.
pub data Reachable : Manifest → Type 0 where
  start : Reachable empty
  next :
      (m m' : Manifest) (c : Commit) (now_ms : ℕ)
      → Reachable m
      → apply c m now_ms ≡ ok m'
      → Reachable m'

-- How many tables and jobs the commits on the way have created.
unfoldable pub all_created : {m : Manifest} → Reachable m → ℕ
all_created Reachable.start = 0
all_created (Reachable.next m m' c now_ms before h) = all_created before + all_creations c.edits

Reachable-IsValid :
    {m : Manifest} (r : Reachable m)
    → all_created r + 1 < 2 ^ 64
    → IsValid m × (m.next_table_id ≡ all_created r + 1)
unfolding all_created empty
Reachable-IsValid Reachable.start room = (empty-IsValid, refl)
Reachable-IsValid (Reachable.next m m' c now_ms before h) room =
    let (v, at) = Reachable-IsValid before (omega (arith, room)) in
    let (v', up) = apply-IsValid now_ms m m' c h (omega (arith, room, at)) v in
    (v', omega (arith, at, up))

-- In a manifest that commits make of the empty one, which have created fewer than 2^64 - 1 tables and
-- jobs, `table` finds each table under its name: the
-- name is the table's alone.
pub Reachable-table :
    (m : Manifest) (i : ℕ) (t : TableEntry)
    → (r : Reachable m) → all_created r + 1 < 2 ^ 64
    → get_elem? m.tables i ≡ some t
    → table m t.name ≡ some t
unfolding table
Reachable-table m i t r room here =
    Ascending-find m.tables i t here (Reachable-IsValid r room).0.labels.labelled.ascending

-- In a manifest that commits make of the empty one, which have created fewer than 2^64 - 1 tables and
-- jobs, two tables with the same id are the same.
pub Reachable-id :
    (m : Manifest) (i k : ℕ) (t u : TableEntry)
    → (r : Reachable m) → all_created r + 1 < 2 ^ 64
    → get_elem? m.tables i ≡ some t
    → get_elem? m.tables k ≡ some u
    → t.id ≡ u.id
    → t ≡ u
unfolding table
Reachable-id m i k t u r room here there same =
    let v = (Reachable-IsValid r room).0.labels in
    let t_label = table-Label v.label m v.labelled i t here in
    let u_label = table-Label v.label m v.labelled k u there in
    let name_same = t_label.0 ∙ ap v.label same ∙ sym u_label.0 in
    some-injective (
      sym (Ascending-find m.tables i t here v.labelled.ascending)
      ∙ (rw name_same (Ascending-find m.tables k u there v.labelled.ascending)))

-- In a manifest that commits make of the empty one, which have created fewer than 2^64 - 1 tables and
-- jobs, the live table that a job migrates has the name of
-- the job's target.
pub Reachable-source :
    (m : Manifest) (i k : ℕ) (j : Job) (t : TableEntry)
    → (r : Reachable m) → all_created r + 1 < 2 ^ 64
    → get_elem? m.jobs i ≡ some j
    → get_elem? m.tables k ≡ some t
    → t.id ≡ j.source
    → t.name ≡ j.target.name
Reachable-source m i k j t r room here there same =
    let v = (Reachable-IsValid r room).0.labels in
    let (target, named, old) = job-JobLabel v.label m v.labelled i j here in
    let t_label = table-Label v.label m v.labelled k t there in
    t_label.0 ∙ ap v.label same ∙ sym named
