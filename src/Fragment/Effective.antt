-- ===== src/Fragment/Effective.antt =====
-- The effective model of `Load` of internal/authz/fragment/fragment.go: which types it has, and whose.
use kiban.Shared.{
  String, true, false, Option, none, some, List, [], ◌∷◌, Memᴰ, lookup, string_eq, ◌≡◌, refl, ◌∙◌,
  ap, ◌⊎◌, inl, inr, Option-cases, Bool-cases, subst, arith,
}
use kiban.Engine.Model.{
  Model, Relations, ModelError, merge, merge_into, load_model, validate_company_module_anchor,
  check_anchor, validate_targets, first_error_of,
}
use kiban.Engine.WellTyped.{first_error_of-none}
use kiban.Fragment.Load.{
  Row, Owners, Known, Loaded, LoadError, Loading, loaded, refused, ◌>>=◌, ◌>>◌, is_in, is_enabled,
  is_effective, harvest, valid, decoded_of, merged_of, claim, load_effective, load_row, load_rows,
  base_only, load,
}
use kiban.Fragment.Merging.{merge-kept, merge-from, claim-kept, claim-owned, claim-from}

-- The type is owned by an enabled module, and it carries the anchor as a direct relation.
pub record IsOwned (owners : Owners) (known : Known) (typ : String) (rels : Relations)
    : Type 0 where
  pub module_key : String
  pub owned : lookup typ owners ≡ some module_key
  pub enabled : is_enabled known module_key ≡ true
  pub anchored : check_anchor (typ, rels) ≡ none

pub record IsEffective (base : Model) (known : Known) (model : Model) (owners : Owners)
    : Type 0 where
  -- the base types are those of the base model
  pub base_kept :
      (typ : String) (rels : Relations) → lookup typ base ≡ some rels → lookup typ model ≡ some rels
  -- any other type belongs to an enabled module
  pub others_owned :
      (typ : String) (rels : Relations)
      → lookup typ model ≡ some rels
      → (lookup typ base ≡ some rels) ⊎ IsOwned owners known typ rels
  -- no base type has an owner
  pub base_unowned : (typ key : String) → lookup typ owners ≡ some key → is_in typ base ≡ false

pub bind-loaded :
    {A B : Type 0} {b : B} (call : Loading A) (rest : A → Loading B)
    → (call >>= rest) ≡ loaded b
    → (a : A) × (call ≡ loaded a) × (rest a ≡ loaded b)
bind-loaded (refused why) rest h = cc h
bind-loaded (loaded a) rest h = (a, refl, h)

valid-loaded :
    {B : Type 0} {b : B} (o : Option ModelError) (f : ModelError → LoadError) (rest : Loading B)
    → (valid o f >> rest) ≡ loaded b
    → (o ≡ none) × (rest ≡ loaded b)
valid-loaded none f rest h = (refl, h)
valid-loaded (some e) f rest h = cc h

decoded-loaded : {m : Model} (r : Row) → decoded_of r ≡ loaded m → r.decoded ≡ some m
decoded-loaded r h = elim (Option-cases r.decoded) [
  | inl e ↦ cc (rw e at h)
  | inr (m, e) ↦ e ∙ ap some (loaded-inj (rw e at h))
]
  where
    loaded-inj : {m n : Model} → loaded m ≡ loaded n → m ≡ n
    loaded-inj e = cc e

merged-loaded :
    {m : Model} (key : String) (o : Option Model × Option ModelError)
    → merged_of key o ≡ loaded m
    → o.0 ≡ some m
merged-loaded key (some m, x) h = cc h
merged-loaded key (none, some x) h = cc h
merged-loaded key (none, none) h = cc h

-- What a successful `load_effective` did.
pub record Step (base : Model) (r : Row) (s s2 : Loaded) (m : Model) : Type 0 where
  pub decoded : r.decoded ≡ some m
  pub claimed : claim base r.module_key m s.type_owner ≡ loaded s2.type_owner
  pub anchored : validate_company_module_anchor m ≡ none
  pub merged : (merge s.model m).0 ≡ some s2.model
  pub known_same : s2.known_enabled ≡ s.known_enabled
  pub allowed_same : s2.allowed_types ≡ s.allowed_types

pub load_effective-Step :
    (base : Model) (r : Row) (s s2 : Loaded)
    → load_effective base r s ≡ loaded s2
    → (m : Model) × Step base r s s2 m
unfolding load_effective
load_effective-Step base r s s2 h =
    let (m, dec, h2) = bind-loaded (decoded_of r) _ h in
    let (_, h3) = valid-loaded (load_model m) _ _ h2 in
    let (owner, cl, h4) = bind-loaded (claim base r.module_key m s.type_owner) _ h3 in
    let (anch, h5) = valid-loaded (validate_company_module_anchor m) _ _ h4 in
    let (merged, mg, h6) = bind-loaded (merged_of r.module_key (merge s.model m)) _ h5 in
    (
      m,
      subst (λ t. Step base r s t m) (loaded-inj h6)
          (record {
            decoded = decoded-loaded r dec;
            claimed = cl;
            anchored = anch;
            merged = merged-loaded r.module_key (merge s.model m) mg;
            known_same = refl;
            allowed_same = refl;
          }),
    )
  where
    loaded-inj : {a b : Loaded} → loaded a ≡ loaded b → a ≡ b
    loaded-inj e = cc e

pub merge-pair :
    {m : Model} (a b : Model)
    → (merge a b).0 ≡ some m
    → merge_into a b ≡ (some m, (merge_into a b).1)
unfolding merge
merge-pair a b h = ap (λ o. (o, (merge_into a b).1)) h

anchors-checked :
    (m : Model) → validate_company_module_anchor m ≡ none → first_error_of check_anchor m ≡ none
unfolding validate_company_module_anchor
anchors-checked m h = h

-- A row that was loaded: its fragment was merged, or only its names were taken.
pub load_row-cases :
    (base : Model) (r : Row) (s s2 : Loaded)
    → load_row base r s ≡ loaded s2
    → ((is_effective s.known_enabled r ≡ true) × ((m : Model) × Step base r (harvest r s) s2 m))
      ⊎ ((is_effective s.known_enabled r ≡ false) × (harvest r s ≡ s2))
unfolding load_row
load_row-cases base r s s2 h = elim (Bool-cases (is_effective s.known_enabled r)) [
  | inl b ↦ inl (b, load_effective-Step base r (harvest r s) s2 (rw b at h))
  | inr b ↦ inr (b, loaded-inj (rw b at h))
]
  where
    loaded-inj : {a b : Loaded} → loaded a ≡ loaded b → a ≡ b
    loaded-inj e = cc e

module _ (base : Model) (known : Known) where
  abbrev Effective : Loaded → Type 0
  Effective s = (s.known_enabled ≡ known) × IsEffective base known s.model s.type_owner

  Step-IsEffective :
      (r : Row) (s s2 : Loaded) (m : Model)
      → Step base r s s2 m
      → is_enabled known r.module_key ≡ true
      → IsEffective base known s.model s.type_owner
      → IsEffective base known s2.model s2.type_owner
  Step-IsEffective r s s2 m st on eff = record {
    base_kept = λ typ rels h.
        merge-kept typ s.model m (eff.base_kept typ rels h) (merge-pair s.model m st.merged);
    others_owned = λ typ rels h.
        elim (merge-from typ s.model m (merge-pair s.model m st.merged) h) [
          | inr found ↦ inr (record {
            module_key = r.module_key;
            owned = (claim-owned base r.module_key typ m s.type_owner found st.claimed).0;
            enabled = on;
            anchored = by_anchor found;
          })
          | inl old ↦ elim (eff.others_owned typ rels old) [
            | inl b ↦ inl b
            | inr o ↦ inr (record {
              module_key = o.module_key;
              owned = claim-kept base r.module_key typ m s.type_owner o.owned st.claimed;
              enabled = o.enabled;
              anchored = o.anchored;
            })
          ]
        ];
    base_unowned = λ typ key h.
        elim (claim-from base r.module_key typ m s.type_owner st.claimed h) [
          | inl old ↦ eff.base_unowned typ key old
          | inr (_, b) ↦ b
        ];
  }
    where
      by_anchor :
          {typ : String} {rels : Relations} → Memᴰ (typ, rels) m → check_anchor (typ, rels) ≡ none
      by_anchor found = first_error_of-none check_anchor (anchors-checked m st.anchored) found

  load_row-Effective :
      (r : Row) (s s2 : Loaded) → load_row base r s ≡ loaded s2 → Effective s → Effective s2
  load_row-Effective r s s2 h (k, eff) = elim (load_row-cases base r s s2 h) [
    | inr (b, same) ↦ subst Effective same (k, eff)
    | inl (b, step) ↦
        let (m, st) = step in
        (st.known_same ∙ k, Step-IsEffective r (harvest r s) s2 m st (enabled_of (rw k at b)) eff)
  ]
    where
      enabled_of : is_effective known r ≡ true → is_enabled known r.module_key ≡ true
      enabled_of b = ground arith

  load_rows-Effective :
      (rs : List Row) (s s2 : Loaded) → load_rows base rs s ≡ loaded s2 → Effective s → Effective s2
  unfolding load_rows
  load_rows-Effective [] s s2 h eff = subst Effective (loaded-inj h) eff
    where
      loaded-inj : {a b : Loaded} → loaded a ≡ loaded b → a ≡ b
      loaded-inj e = cc e
  load_rows-Effective (r ∷ rs) s s2 h eff =
      let (s1, h1, h2) = bind-loaded (load_row base r s) (load_rows base rs) h in
      load_rows-Effective rs s1 s2 h2 (load_row-Effective r s s1 h1 eff)

  pub load-rows :
      (rows : List Row) (l : Loaded)
      → load base known rows ≡ loaded l
      → load_rows base rows (base_only base known) ≡ loaded l
  unfolding load
  load-rows rows l h =
      let (s, h1, h2) = bind-loaded (load_rows base rows (base_only base known)) _ h in
      h1 ∙ (valid-loaded (validate_targets s.model) _ _ h2).1

  -- A model that Load returns keeps every base type as it is; each of its other types is owned by
  -- an enabled module and carries the company anchor as a direct relation, and no base type is
  -- owned.
  pub load-IsEffective :
      (rows : List Row) (l : Loaded)
      → load base known rows ≡ loaded l
      → IsEffective base known l.model l.type_owner
  unfolding lookup
  load-IsEffective rows l h =
      (load_rows-Effective rows (base_only base known) l (load-rows rows l h) (
        refl,
        record {
          base_kept = λ typ rels e. e;
          others_owned = λ typ rels e. inl e;
          base_unowned = λ typ key e. cc e;
        },
      )).1
