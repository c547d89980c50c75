-- ===== src/Modvalidate/Fragment/Loads.antt =====
-- A fragment whose relations modvalidate accepts is loaded by internal/authz/fragment, beside the
-- base model, with the model that modvalidate checked it against.
use kiban.Shared.{
  append-nil_left, append-nil_right, String, true, false, Option, none, some, List, [], ◌∷◌, ◌++◌,
  map, string_eq, if◌then◌else◌, lookup, ◌≡◌, refl, sym, ap, ◌∙◌, subst, inl, inr, beq-cases,
  Bool-cases,
}
use kiban.Engine.Model.{
  Model, Relations, ModelError, load_model, merge, merge_into, validate_targets,
  validate_company_module_anchor,
}
use kiban.Fragment.Load.{
  Row, Known, Loaded, Owners, loaded, refused, redefines_base, owned_twice, is_in, is_effective,
  claim, load_effective, load_row, load_rows, load, base_only, harvest, harvested,
}
use kiban.Fragment.Merging.{merge-step}
use kiban.Modvalidate.Errors.{Rule, ValidationError, authz_relation_unknown, authz_anchor_missing}
use kiban.Modvalidate.Artifacts.{decoded}
use kiban.Modvalidate.Fragment.{
  check_relations, redeclared, own_types, merged, error_of, check_types, after_load,
}

module _ (base : Model) (key : String) where
  -- Without an error for a base type the fragment declares none.
  own-all : (m : Model) → redeclared base key m ≡ [] → own_types base m ≡ m
  own-all [] h = refl
  own-all ((typ, rels) ∷ m) h = elim (Bool-cases (is_in typ base)) [
    | inl e ↦ cc (rw e at h)
    | inr f ↦ rw f (ap (λ rest. (typ, rels) ∷ rest) (own-all m (rw f at h)))
  ]

  claim-next :
      (typ : String) (rels : Relations) (m : Model) (owner : Owners)
      → is_in typ base ≡ false
      → lookup typ owner ≡ none
      → claim base key ((typ, rels) ∷ m) owner ≡ claim base key m ((typ, key) ∷ owner)
  unfolding claim
  claim-next typ rels m owner f e =
      ap
        (λ b. if b then refused (redefines_base key typ) else elim (lookup typ owner) [
          | some other ↦ refused (owned_twice key typ other)
          | none ↦ claim base key m ((typ, key) ∷ owner)
        ])
        f
      ∙ ap
          (λ o. elim o [
            | some other ↦ refused (owned_twice key typ other)
            | none ↦ claim base key m ((typ, key) ∷ owner)
          ])
          e

  -- The types that are owned or in the base model are among those that were merged.
  IsInside : Model → Owners → Type 0
  IsInside out owner =
      (typ : String) → lookup typ out ≡ none → (is_in typ base ≡ false) × (lookup typ owner ≡ none)

  IsInside-cons :
      (typ : String) (rels : Relations) (out : Model) (owner : Owners)
      → IsInside out owner
      → IsInside ((typ, rels) ∷ out) ((typ, key) ∷ owner)
  unfolding lookup IsInside
  IsInside-cons typ rels out owner inside other h = elim (beq-cases typ other) [
    | inl (e, t) ↦ cc (rw t at h)
    | inr f ↦ rw f (inside other (rw f at h))
  ]

  -- What a merge accepts, the loop over the owners accepts.
  claim_of_merge :
      (m out : Model) (owner : Owners) (effective : Model) (e : Option ModelError)
      → IsInside out owner
      → merge_into out m ≡ (some effective, e)
      → (o : Owners) × (claim base key m owner ≡ loaded o)
  unfolding claim IsInside
  claim_of_merge [] out owner effective e inside h = (owner, refl)
  claim_of_merge ((typ, rels) ∷ m) out owner effective e inside h =
      (let (free, rest) = merge-step out typ rels m h in
        let (o, c) =
          claim_of_merge m ((typ, rels) ∷ out) ((typ, key) ∷ owner) effective e
            (IsInside-cons typ rels out owner inside) rest in
        (o, claim-next typ rels m owner (inside typ free).0 (inside typ free).1 ∙ c))

  -- The parts of an accepted block on relations.
  record IsAccepted (m effective : Model) : Type 0 where
    loads : load_model m ≡ none
    merges : (e : Option ModelError) × (merge base m ≡ (some effective, e))
    targets : validate_targets effective ≡ none
    anchors : validate_company_module_anchor m ≡ none

  no_error : (rule : Rule) (o : Option ModelError) → error_of key rule o ≡ [] → o ≡ none
  no_error rule none h = refl
  no_error rule (some e) h = cc h

  merged-parts :
      (m : Model) (found : Option Model × Option ModelError)
      → merge base m ≡ found
      → load_model m ≡ none
      → (merged base key found).0 ≡ []
      → error_of key authz_relation_unknown (validate_targets (merged base key found).1) ≡ []
      → error_of key authz_anchor_missing (validate_company_module_anchor m) ≡ []
      → IsAccepted m (merged base key found).1
  merged-parts m (none, e) g l a b c = cc a
  merged-parts m (some effective, e) g l a b c = record {
    loads = l;
    merges = (e, g);
    targets = no_error authz_relation_unknown (validate_targets effective) b;
    anchors = no_error authz_anchor_missing (validate_company_module_anchor m) c;
  }

  -- The errors are none where all the parts are.
  parts :
      (m own : Model)
      → own ≡ m
      → load_model m ≡ none
      → (check_types base key m own).0 ≡ []
      → IsAccepted m (check_types base key m own).1
  parts m own e l h =
      subst
        (λ x.
          (merged base key (merge base x)).0 ≡ []
          → error_of key authz_relation_unknown
              (validate_targets (merged base key (merge base x)).1)
            ≡ []
          → error_of key authz_anchor_missing (validate_company_module_anchor x) ≡ []
          → IsAccepted m (merged base key (merge base x)).1)
        (sym e) (merged-parts m (merge base m) refl l)
        (append-nil_right (redeclared base key m) (merged base key (merge base own)).0
          (append-nil_left _ targets (append-nil_left _ anchors h)))
        (append-nil_right _ targets (append-nil_left _ anchors h)) (append-nil_right _ anchors h)
    where
      targets : List ValidationError
      targets =
          error_of key authz_relation_unknown
            (validate_targets (merged base key (merge base own)).1)

      anchors : List ValidationError
      anchors = error_of key authz_anchor_missing (validate_company_module_anchor own)

  redeclared_none :
      (m own : Model) → (check_types base key m own).0 ≡ [] → redeclared base key m ≡ []
  redeclared_none m own h =
      append-nil_left (redeclared base key m) (merged base key (merge base own)).0 (
        append-nil_left _
          (error_of key authz_relation_unknown
            (validate_targets (merged base key (merge base own)).1))
          (append-nil_left _
            (error_of key authz_anchor_missing (validate_company_module_anchor own)) h))

  accepted :
      (m : Model)
      → (check_relations base key (decoded m)).0 ≡ []
      → IsAccepted m (check_relations base key (decoded m)).1
  unfolding check_relations
  accepted m h = by_load (load_model m) refl h
    where
      by_load :
          (o : Option ModelError)
          → load_model m ≡ o
          → (after_load base key o (check_types base key m (own_types base m))).0 ≡ []
          → IsAccepted m (after_load base key o (check_types base key m (own_types base m))).1
      by_load (some e) l h = cc h
      by_load none l h =
          parts m (own_types base m) (own-all m (redeclared_none m (own_types base m) h)) l h

  at_base : IsInside base []
  unfolding lookup IsInside
  at_base typ h = (ap (λ o. elim o [ none ↦ false | some v ↦ true ]) h, refl)

-- The row that internal/authz/fragment reads for a fragment with these relations.
abbrev pub row_of : String → Option (List String) → Model → Row
row_of key names m = record {
  module_key = key;
  type_names = names;
  decoded = some m;
  active = true;
}

abbrev with_types : Row → Model → Model → Owners → Known → Loaded
with_types r base effective owner known = record {
  model = effective;
  allowed_types = harvested r ++ map (λ (typ, _). typ) base;
  type_owner = owner;
  known_enabled = known;
}

load_effective_parts :
    (base m effective : Model) (e : Option ModelError) (owner : Owners) (key : String)
    (names : Option (List String)) (known : Known)
    → load_model m ≡ none
    → claim base key m [] ≡ loaded owner
    → validate_company_module_anchor m ≡ none
    → merge base m ≡ (some effective, e)
    → load_effective base (row_of key names m) (harvest (row_of key names m) (base_only base known))
      ≡ loaded (with_types (row_of key names m) base effective owner known)
unfolding load_effective
load_effective_parts base m effective e owner key names known l c a g = rw (l, c, a, g) refl

load_parts :
    (base effective : Model) (r : Row) (owner : Owners) (known : Known)
    → is_effective known r ≡ true
    → load_effective base r (harvest r (base_only base known))
      ≡ loaded (with_types r base effective owner known)
    → validate_targets effective ≡ none
    → load base known (r ∷ []) ≡ loaded (with_types r base effective owner known)
unfolding load load_rows load_row
load_parts base effective r owner known on h t = rw (on, h, t) refl

-- Relations that the validation of a fragment accepts are loaded by the authorization service
-- beside the base model, without an error, and its model is the one that the validation checked
-- the features against.
pub check_relations-load :
    (base m : Model) (key : String) (names : Option (List String)) (known : Known)
    → is_effective known (row_of key names m) ≡ true
    → (check_relations base key (decoded m)).0 ≡ []
    → (l : Loaded) × (load base known (row_of key names m ∷ []) ≡ loaded l)
      × (l.model ≡ (check_relations base key (decoded m)).1)
unfolding merge
check_relations-load base m key names known on h =
    (let a = accepted base key m h in
      let (owner, c) =
        claim_of_merge base key m base [] (check_relations base key (decoded m)).1 a.merges.0
          (at_base base key) a.merges.1 in
      (
        with_types (row_of key names m) base (check_relations base key (decoded m)).1 owner known,
        load_parts base (check_relations base key (decoded m)).1 (row_of key names m) owner known on
            (load_effective_parts base m _ a.merges.0 owner key names known a.loads c a.anchors
              a.merges.1)
            a.targets,
        refl,
      ))
