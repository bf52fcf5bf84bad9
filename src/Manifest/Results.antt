-- ===== src/Manifest/Results.antt =====
-- What a result of the manifest's operations that is a success says of its steps.
use adelie.Base.{◌≡◌, refl, Bool, true, false, Option, none, some}
use adelie.Manifest.{Error, Result, ok, err, panicked, ◌>>=◌, ◌>>◌, fail_if, ok_or, expect}

pub ok_split {ℓ κ} :
    {A : Type ℓ} {B : Type κ} (step : Result A) (next : A → Result B) {out : B}
    → (step >>= next) ≡ ok out
    → (value : A) × (step ≡ ok value) × (next value ≡ ok out)
ok_split panicked next done = cc
ok_split (err why) next done = cc
ok_split (ok value) next done = (value, refl, done)

pub ok-injective {ℓ} : {A : Type ℓ} {a b : A} → ◌≡◌ {A = Result A} (ok a) (ok b) → a ≡ b
ok-injective h = cc

pub ok_or-ok {ℓ} :
    {A : Type ℓ} (o : Option A) (why : Error) {a : A} → ok_or o why ≡ ok a → o ≡ some a
ok_or-ok none why h = cc
ok_or-ok (some b) why h = cc

pub fail_if-ok : (b : Bool) (why : Error) {u : Unit {0}} → fail_if b why ≡ ok u → b ≡ false
fail_if-ok true why h = cc
fail_if-ok false why h = refl

pub expect-ok {ℓ} : {A : Type ℓ} (o : Option A) {a : A} → expect o ≡ ok a → o ≡ some a
expect-ok none h = cc
expect-ok (some b) h = cc

-- After a check that passed.
pub check_split {κ} :
    {B : Type κ} (check : Result (Unit {0})) (next : Result B) {out : B}
    → (check >> next) ≡ ok out
    → (check ≡ ok tt) × (next ≡ ok out)
check_split panicked next done = cc
check_split (err why) next done = cc
check_split (ok tt) next done = (refl, done)
