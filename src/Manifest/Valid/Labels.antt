-- ===== src/Manifest/Valid/Labels.antt =====
-- What the changes of a manifest in src/storage/manifest/commit.rs do to its labels.
use adelie.Base.{
  succ_u64, succ_u64-room, ◌<◌, ◌^◌, subst, ℕ, ◌+◌, ◌≡◌, sym, ap, ◌∙◌, arith, [], ◌∷◌, ◌++◌, some,
  get_elem?, set,
}
use adelie.Base.Search.{remove}
use adelie.Base.Each.{Each-at, Each-map, Each-set, Each-remove, Each-insert_at, Each-push}
use adelie.Manifest.{TableName, TableEntry, Job, Retired, Manifest}
use adelie.Manifest.Tables.{insert_table}
use adelie.Manifest.Ascending.{Unnamed, Ascending-set, Ascending-remove, Ascending-insert_at}
use adelie.Manifest.Refs.Release.{SameRest}
use adelie.Manifest.Valid.{IsLabelled, Label, JobLabel, relabel, Label-relabel, JobLabel-relabel}

-- A change of other fields than the tables, the retired, the jobs and the next id.
pub SameRest-IsLabelled :
    (label : ℕ → TableName) (m m' : Manifest)
    → SameRest m m'
    → IsLabelled label m
    → IsLabelled label m'
SameRest-IsLabelled label m m' s v = record {
  tables = rw (s.tables, s.next_table_id) v.tables;
  retired = rw (s.retired, s.next_table_id) v.retired;
  jobs = rw (s.jobs, s.next_table_id) v.jobs;
  ascending = rw s.tables v.ascending;
}

module _ (label : ℕ → TableName) (m : Manifest) (v : IsLabelled label m) where
  pub set-IsLabelled :
      (i : ℕ) (t u : TableEntry) (next : ℕ)
      → get_elem? m.tables i ≡ some t
      → u.name ≡ t.name
      → u.id ≡ t.id
      → IsLabelled label (record m { tables = set m.tables i u; next_segment_id = next })
  set-IsLabelled i t u next here name_same id_same =
      let (named, old) = Each-at (λ t. Label label m.next_table_id t) m.tables i t v.tables here in
      record {
        tables =
            Each-set (λ t. Label label m.next_table_id t) m.tables i u
              (name_same ∙ named ∙ ap label (sym id_same), omega (arith, old, id_same)) v.tables;
        retired = v.retired;
        jobs = v.jobs;
        ascending = Ascending-set m.tables i t u here name_same v.ascending;
      }

  pub insert_table-IsLabelled :
      (t : TableEntry)
      → Label label m.next_table_id t
      → Unnamed t.name m.tables
      → IsLabelled label (insert_table m t)
  unfolding insert_table
  insert_table-IsLabelled t labelled fresh = record {
    tables = Each-insert_at (λ t. Label label m.next_table_id t) m.tables _ t labelled v.tables;
    retired = v.retired;
    jobs = v.jobs;
    ascending = Ascending-insert_at m.tables t fresh v.ascending;
  }

  -- The next id is handed out for a name.
  pub relabel-IsLabelled :
      (name : TableName)
      → m.next_table_id + 1 < 2 ^ 64
      → IsLabelled
          (relabel label m.next_table_id name)
          (record m { next_table_id = succ_u64 m.next_table_id })
  relabel-IsLabelled name room =
      subst (λ n. IsLabelled (relabel label m.next_table_id name) (record m { next_table_id = n }))
        (sym (succ_u64-room m.next_table_id room))
        (record {
          tables =
              Each-map _ _ (λ t h. Label-relabel label m.next_table_id name t h) m.tables v.tables;
          retired =
              Each-map _ _ (λ r h. Label-relabel label m.next_table_id name r.entry h) m.retired
                v.retired;
          jobs =
              Each-map _ _ (λ j h. JobLabel-relabel label m.next_table_id name j h) m.jobs v.jobs;
          ascending = v.ascending;
        })

  pub remove_tables-IsLabelled :
      (i : ℕ) → IsLabelled label (record m { tables = remove m.tables i })
  remove_tables-IsLabelled i = record {
    tables = Each-remove (λ t. Label label m.next_table_id t) m.tables i v.tables;
    retired = v.retired;
    jobs = v.jobs;
    ascending = Ascending-remove m.tables i v.ascending;
  }

  pub remove_retired-IsLabelled :
      (i : ℕ) → IsLabelled label (record m { retired = remove m.retired i })
  remove_retired-IsLabelled i = record {
    tables = v.tables;
    retired = Each-remove (λ r. Label label m.next_table_id r.entry) m.retired i v.retired;
    jobs = v.jobs;
    ascending = v.ascending;
  }

  pub remove_jobs-IsLabelled : (i : ℕ) → IsLabelled label (record m { jobs = remove m.jobs i })
  remove_jobs-IsLabelled i = record {
    tables = v.tables;
    retired = v.retired;
    jobs = Each-remove (λ j. JobLabel label m.next_table_id j) m.jobs i v.jobs;
    ascending = v.ascending;
  }

  pub push_retired-IsLabelled :
      (r : Retired)
      → Label label m.next_table_id r.entry
      → IsLabelled label (record m { retired = m.retired ++ (r ∷ []) })
  push_retired-IsLabelled r labelled = record {
    tables = v.tables;
    retired = Each-push (λ r. Label label m.next_table_id r.entry) m.retired r labelled v.retired;
    jobs = v.jobs;
    ascending = v.ascending;
  }

  pub set_jobs-IsLabelled :
      (i : ℕ) (j : Job) (next : ℕ)
      → JobLabel label m.next_table_id j
      → IsLabelled label (record m { jobs = set m.jobs i j; next_segment_id = next })
  set_jobs-IsLabelled i j next labelled = record {
    tables = v.tables;
    retired = v.retired;
    jobs = Each-set (λ j. JobLabel label m.next_table_id j) m.jobs i j labelled v.jobs;
    ascending = v.ascending;
  }

  pub push_jobs-IsLabelled :
      (j : Job) (next : ℕ)
      → JobLabel label m.next_table_id j
      → IsLabelled label (record m { jobs = m.jobs ++ (j ∷ []); next_job_id = next })
  push_jobs-IsLabelled j next labelled = record {
    tables = v.tables;
    retired = v.retired;
    jobs = Each-push (λ j. JobLabel label m.next_table_id j) m.jobs j labelled v.jobs;
    ascending = v.ascending;
  }

  pub table-Label :
      (i : ℕ) (t : TableEntry) → get_elem? m.tables i ≡ some t → Label label m.next_table_id t
  table-Label i t here = Each-at (λ t. Label label m.next_table_id t) m.tables i t v.tables here

  pub retired-Label :
      (k : ℕ) (r : Retired) → get_elem? m.retired k ≡ some r → Label label m.next_table_id r.entry
  retired-Label k r here =
      Each-at (λ r. Label label m.next_table_id r.entry) m.retired k r v.retired here

  pub job-JobLabel :
      (i : ℕ) (j : Job) → get_elem? m.jobs i ≡ some j → JobLabel label m.next_table_id j
  job-JobLabel i j here = Each-at (λ j. JobLabel label m.next_table_id j) m.jobs i j v.jobs here
