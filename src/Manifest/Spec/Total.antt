-- ===== src/Manifest/Spec/Total.antt =====
-- The `expect` calls of `validate` in src/storage/manifest/spec.rs, and the columns it has found.
use adelie.Base.{ℕ, ◌≡◌, refl, subst, List, [], ◌∷◌, Bool, true, false, Option, none, some, not}
use adelie.Base.{◌&&◌}
use adelie.Base.Each.{Each, some-injective}
use adelie.Base.Text.{Text}
use adelie.Manifest.{
  Field, TableName, Error, Detail, unknown_engine, key_not_allowed, key_required,
  key_not_sort_prefix, Result, ok, err, panicked, usage, ◌>>=◌, ◌>>◌, fail_if, ok_or, expect,
  is_some, collect, is_path_component,
}
use adelie.Manifest.Spec.{
  TableSpec, EngineRules, engine_rules, resolved_order_by, is_nil, is_prefix, column,
  check_names_exist, check_no_duplicates, check_declared_once, check_timestamp_column, check_some,
  check_duration, check_clauses, validate,
}
use adelie.Manifest.Tables.{optional}
use adelie.Manifest.Results.{ok_split, check_split, fail_if-ok}
use Prim.Native.String.{String}

abbrev pub panics {ℓ} : {A : Type ℓ} → Result A → Bool
panics panicked = true
panics (err why) = false
panics (ok a) = false

pub bind-total {ℓ κ} :
    {A : Type ℓ} {B : Type κ} (r : Result A) (f : A → Result B)
    → panics r ≡ false
    → ((a : A) → r ≡ ok a → panics (f a) ≡ false)
    → panics (r >>= f) ≡ false
bind-total panicked f h k = cc
bind-total (err why) f h k = refl
bind-total (ok a) f h k = k a refl

fail_if-total : (b : Bool) (why : Error) → panics (fail_if b why) ≡ false
fail_if-total true why = refl
fail_if-total false why = refl

pub collect-total {ℓ κ} :
    {A : Type ℓ} {B : Type κ} (f : A → Result B) (xs : List A)
    → Each (λ x. panics (f x) ≡ false) xs
    → panics (collect f xs) ≡ false
collect-total f [] h = refl
collect-total f (x ∷ xs) (first, rest) =
    bind-total (f x) _ first
      (λ y e. bind-total (collect f xs) _ (collect-total f xs rest) (λ ys e'. refl))

pub optional-total {ℓ κ} :
    {A : Type ℓ} {B : Type κ} (f : A → Result B) (o : Option A)
    → ((a : A) → o ≡ some a → panics (f a) ≡ false)
    → panics (optional f o) ≡ false
optional-total f none h = refl
optional-total f (some a) h = bind-total (f a) _ (h a refl) (λ b e. refl)

check_some-total {ℓ} :
    {A : Type ℓ} (o : Option A) (f : A → Result (Unit {0}))
    → ((a : A) → o ≡ some a → panics (f a) ≡ false)
    → panics (check_some o f) ≡ false
check_some-total none f h = refl
check_some-total (some a) f h = h a refl

-- The spec has a column of the name.
abbrev pub Found : TableSpec → Text → Type 0
Found s c = is_some (column s c) ≡ true

check_names_exist-total :
    (s : TableSpec) (clause : String) (cols : List Text)
    → panics (check_names_exist s clause cols) ≡ false
unfolding check_names_exist
check_names_exist-total s clause [] = refl
check_names_exist-total s clause (c ∷ cols) =
    bind-total (fail_if _ _) _ (fail_if-total _ _) (λ u e. check_names_exist-total s clause cols)

check_names_exist-Found :
    (s : TableSpec) (clause : String) (cols : List Text) {u : Unit {0}}
    → check_names_exist s clause cols ≡ ok u
    → Each (Found s) cols
unfolding check_names_exist
check_names_exist-Found s clause [] h = tt
check_names_exist-Found s clause (c ∷ cols) h =
    let (u, first, rest) = ok_split (fail_if _ _) _ h in
    (unnot (fail_if-ok _ _ first), check_names_exist-Found s clause cols rest)
  where
    unnot : {b : Bool} → not b ≡ false → b ≡ true
    unnot {b = true} k = refl
    unnot {b = false} k = cc

check_no_duplicates-total :
    (s : TableSpec) (clause : String) (seen cols : List Text)
    → panics (check_no_duplicates s clause seen cols) ≡ false
unfolding check_no_duplicates
check_no_duplicates-total s clause seen [] = refl
check_no_duplicates-total s clause seen (c ∷ cols) =
    bind-total (fail_if _ _) _ (fail_if-total _ _)
      (λ u e. check_no_duplicates-total s clause (c ∷ seen) cols)

check_declared_once-total :
    (name : TableName) (seen : List Text) (cols : List Field)
    → panics (check_declared_once name seen cols) ≡ false
unfolding check_declared_once
check_declared_once-total name seen [] = refl
check_declared_once-total name seen (c ∷ cols) =
    bind-total (fail_if _ _) _ (fail_if-total _ _)
      (λ u e. check_declared_once-total name (c.name ∷ seen) cols)

pub expect-total {ℓ} : {A : Type ℓ} (o : Option A) → is_some o ≡ true → panics (expect o) ≡ false
expect-total none h = cc
expect-total (some a) h = refl

check_duration-total :
    (s : TableSpec) (clause : String) (zero_detail : Detail) (c : Text) (duration : ℕ)
    → Found s c
    → panics (check_duration s clause zero_detail (c, duration)) ≡ false
unfolding check_duration check_timestamp_column
check_duration-total s clause zero_detail c duration found =
    bind-total (expect (column s c) >>= _) _
      (bind-total (expect (column s c)) _ (expect-total (column s c) found)
        (λ f e. fail_if-total _ _))
      (λ u e. fail_if-total _ _)

pub then-total {κ} :
    {B : Type κ} (check : Result (Unit {0})) (next : Result B)
    → panics check ≡ false
    → (check ≡ ok tt → panics next ≡ false)
    → panics (check >> next) ≡ false
then-total panicked next h k = cc
then-total (err why) next h k = refl
then-total (ok tt) next h k = k refl

-- Every column that a clause names is one of the spec's.
pub record ClausesFound (s : TableSpec) : Type 0 where
  pub key : Each (Found s) s.key
  pub version : (c : Text) → s.version ≡ some c → Found s c
  pub order_by : Each (Found s) s.order_by
  pub partition_by : (p : Text × ℕ) → s.partition_by ≡ some p → Found s p.0
  pub ttl : (t : Text × ℕ) → s.ttl ≡ some t → Found s t.0

check_some-Found {ℓ} :
    {A : Type ℓ} (s : TableSpec) (clause : String) (o : Option A) (name : A → Text)
    → check_some o (λ a. check_names_exist s clause (name a ∷ [])) ≡ ok tt
    → (a : A) → o ≡ some a
    → Found s (name a)
check_some-Found s clause none name h a e = cc
check_some-Found s clause (some b) name h a e =
    subst (λ c. Found s (name c)) (some-injective e)
      (check_names_exist-Found s clause (name b ∷ []) h).0

check_clauses-Found :
    (s : TableSpec) (rules : EngineRules) → check_clauses s rules ≡ ok tt → ClausesFound s
unfolding check_clauses
check_clauses-Found s rules h =
    let (key, h1) = check_split _ _ h in
    let (once, h2) = check_split _ _ h1 in
    let (version, h3) = check_split _ _ h2 in
    let (order_by, h4) = check_split _ _ h3 in
    let (once', h5) = check_split _ _ h4 in
    let (partition_by, h6) = check_split _ _ h5 in
    let (ttl, h7) = check_split _ _ h6 in
    record {
      key = check_names_exist-Found s "KEY" s.key key;
      version = check_some-Found s "VERSION" s.version (λ c. c) version;
      order_by = check_names_exist-Found s "ORDER BY" s.order_by order_by;
      partition_by = check_some-Found s "PARTITION BY" s.partition_by (λ p. p.0) partition_by;
      ttl = check_some-Found s "TTL" s.ttl (λ t. t.0) ttl;
    }

check_some_names-total {ℓ} :
    {A : Type ℓ} (s : TableSpec) (clause : String) (o : Option A) (name : A → Text)
    → panics (check_some o (λ a. check_names_exist s clause (name a ∷ []))) ≡ false
check_some_names-total s clause o name =
    check_some-total o _ (λ a e. check_names_exist-total s clause (name a ∷ []))

pub guard-total {κ} :
    {B : Type κ} (b : Bool) (why : Error) (next : Result B)
    → panics next ≡ false
    → panics (fail_if b why >> next) ≡ false
guard-total true why next h = refl
guard-total false why next h = h

check_clauses-total : (s : TableSpec) (rules : EngineRules) → panics (check_clauses s rules) ≡ false
unfolding check_clauses
check_clauses-total s rules = then-total _ _ (check_names_exist-total s "KEY" s.key) (λ key.
    then-total _ _ (check_no_duplicates-total s "KEY" [] s.key) (λ once.
      then-total _ _ (check_some_names-total s "VERSION" s.version (λ c. c)) (λ version.
        then-total _ _ (check_names_exist-total s "ORDER BY" s.order_by) (λ order_by.
          then-total _ _ (check_no_duplicates-total s "ORDER BY" [] s.order_by) (λ once'.
            then-total _ _ (check_some_names-total s "PARTITION BY" s.partition_by (λ p. p.0))
              (λ partition_by.
                then-total _ _ (check_some_names-total s "TTL" s.ttl (λ t. t.0)) (λ ttl.
                  guard-total (not (is_nil s.key) && not rules.keyed)
                    (key_not_allowed s.name s.engine s.key) _
                    (guard-total (is_nil s.key && rules.keyed) (key_required s.name s.engine) _ (
                      guard-total (is_some s.version && not rules.version)
                        (usage s.name Detail.version_not_allowed) _
                        (guard-total
                          (not (is_nil s.key) && not (is_prefix s.key (resolved_order_by s)))
                          (key_not_sort_prefix s.name s.key (resolved_order_by s)) _
                          (then-total _ _
                            (check_some-total s.partition_by _ (λ p e.
                              check_duration-total s "PARTITION BY" Detail.zero_bucket p.0 p.1 (
                                check_some-Found s "PARTITION BY" s.partition_by (λ p. p.0)
                                  partition_by p e)))
                            (λ sized. check_some-total s.ttl _ (λ t e.
                              check_duration-total s "TTL" Detail.zero_ttl t.0 t.1
                                (check_some-Found s "TTL" s.ttl (λ t. t.0) ttl t e))))))))))))))

pub validate-total : (s : TableSpec) → panics (validate s) ≡ false
unfolding validate
validate-total s =
    guard-total (not (is_path_component s.name.db && is_path_component s.name.name))
      (usage s.name Detail.not_path_component) _
      (then-total _ _ (check_declared_once-total s.name [] s.columns) (λ once.
        bind-total (ok_or (engine_rules s.engine) (unknown_engine s.name s.engine)) _
          (ok_or-total (engine_rules s.engine) _) (λ rules e. check_clauses-total s rules)))
  where
    ok_or-total : (o : Option EngineRules) (why : Error) → panics (ok_or o why) ≡ false
    ok_or-total none why = refl
    ok_or-total (some r) why = refl

pub validate-Found : (s : TableSpec) → validate s ≡ ok tt → ClausesFound s
unfolding validate
validate-Found s h =
    let (path, h1) = check_split _ _ h in
    let (once, h2) = check_split _ _ h1 in
    let (rules, known, h3) = ok_split (ok_or (engine_rules s.engine) _) _ h2 in
    check_clauses-Found s rules h3
