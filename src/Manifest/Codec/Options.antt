-- ===== src/Manifest/Codec/Options.antt =====
-- The options of a table in src/storage/manifest/codec.rs, a `BTreeMap<String, String>`, as the list of its entries by key.
use adelie.Base.{
  ◌≡◌, ◌≤◌, ap, ◌∙◌, sym, refl, subst, List, [], ◌∷◌, ◌++◌, append_assoc, append-nil, length, Bool,
  true, false, if◌then◌else◌,
}
use adelie.Base.Each.{Each, Each-push}
use adelie.Base.Text.{Text, text_eq, text_lt, text_eq-true, text_lt_irrefl, text_lt_trans}
use adelie.Wire.{ok, ◌>>=◌}
use adelie.Wire.Trips.{Trips, Writer, Reader, field_then, length-field_then, last_field, ◌⊳◌}
use adelie.Wire.Trips.Lists.{write_list, list-Trips}
use adelie.Manifest.Codec.{Error, wire_error, put_str, get_str, str_field, get_list, IsFew, IsText}

abbrev pub Entry : Type 0
Entry = Text × Text

-- `BTreeMap::insert`
abbrev pub insert : Entry → List Entry → List Entry
insert e [] = e ∷ []
insert e (x ∷ xs) =
    let rest = insert e xs in
    if text_eq e.0 x.0 then e ∷ xs else if text_lt e.0 x.0 then e ∷ x ∷ xs else x ∷ rest

abbrev pub insert_all : List Entry → List Entry → List Entry
insert_all options [] = options
insert_all options (e ∷ entries) = insert_all (insert e options) entries

unfoldable pub encode_option : Entry → Writer
encode_option e = put_str e.0 ⊳ put_str e.1

unfoldable pub decode_option : Reader Error Entry
decode_option c = do (k, c1) ← get_str c; (v, c2) ← get_str c1; ok ((k, v), c2)

unfoldable pub encode_options : List Entry → Writer
encode_options options = write_list encode_option options

unfoldable pub decode_options : Reader Error (List Entry)
decode_options c = do (entries, c') ← get_list 2 decode_option c; ok (insert_all [] entries, c')

abbrev Before : Entry → Entry → Type 0
Before a b = text_lt a.0 b.0 ≡ true

-- The keys ascend.
abbrev pub IsSorted : List Entry → Type 0
IsSorted [] = Unit
IsSorted (x ∷ xs) = Each (Before x) xs × IsSorted xs

Before-asym : (a b : Entry) → Before a b → (text_eq b.0 a.0 ≡ false) × (text_lt b.0 a.0 ≡ false)
Before-asym a b h = (
  by_contradiction (text_eq b.0 a.0)
      (λ e. clash (subst (λ t. text_lt a.0 t ≡ true) (text_eq-true b.0 a.0 e) h)),
  by_contradiction (text_lt b.0 a.0) (λ l. clash (text_lt_trans a.0 b.0 a.0 h l)),
)
  where
    clash : text_lt a.0 a.0 ≡ true → ⊥
    clash l = cc (text_lt_irrefl a.0)

    by_contradiction : (x : Bool) → (x ≡ true → ⊥) → x ≡ false
    by_contradiction true f = absurd (f refl)
    by_contradiction false f = refl

insert-last :
    (options : List Entry) (e : Entry)
    → Each (λ x. Before x e) options
    → insert e options ≡ options ++ (e ∷ [])
insert-last [] e h = refl
insert-last (x ∷ xs) e (p, h) =
    let (differs, not_less) = Before-asym x e p in
    rw (differs, not_less) (ap (λ t. x ∷ t) (insert-last xs e h))

insert_all-append :
    (options entries : List Entry)
    → Each (λ e. Each (λ x. Before x e) options) entries
    → IsSorted entries
    → insert_all options entries ≡ options ++ entries
insert_all-append options [] h s = sym (append-nil options)
insert_all-append options (e ∷ entries) (p, h) (q, s) =
    ap (λ t. insert_all t entries) (insert-last options e p)
    ∙ insert_all-append (options ++ (e ∷ [])) entries (later entries h q) s
    ∙ append_assoc options (e ∷ []) entries
  where
    later :
        (es : List Entry)
        → Each (λ e'. Each (λ x. Before x e') options) es
        → Each (Before e) es
        → Each (λ e'. Each (λ x. Before x e') (options ++ (e ∷ []))) es
    later [] h q = tt
    later (x ∷ es) (h, hs) (q, qs) = (Each-push (λ y. Before y x) options e q h, later es hs qs)

abbrev pub IsOption : Entry → Type 0
IsOption e = IsText e.0 × IsText e.1

option-Trips : (e : Entry) → IsOption e → Trips (encode_option e) decode_option e
unfolding encode_option decode_option
option-Trips e h = field_then _ (str_field e.0 h.0) (last_field _ (λ c. refl) (str_field e.1 h.1))

option_two : (e : Entry) (h : IsOption e) → 2 ≤ length (option-Trips e h).written
unfolding option-Trips
option_two e h =
    length-field_then _ (str_field e.0 h.0) (last_field _ (λ c. refl) (str_field e.1 h.1))

pub record IsOptions (options : List Entry) : Type 0 where
  pub texts : Each IsOption options
  pub sorted : IsSorted options
  pub few : IsFew options

pub options-Trips :
    (options : List Entry)
    → IsOptions options
    → Trips (encode_options options) decode_options options
unfolding encode_options decode_options
options-Trips options h =
    last_field _
      (λ c. ap (λ o. ok (o, c)) (insert_all-append [] options (nothing options) h.sorted))
      (list-Trips IsOption option-Trips 2 option_two wire_error options h.texts h.few)
  where
    nothing : (es : List Entry) → Each (λ e. Each (λ x. Before x e) []) es
    nothing [] = tt
    nothing (e ∷ es) = (tt, nothing es)
