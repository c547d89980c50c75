-- ===== src/Modvalidate/Fragment.antt =====
-- internal/modvalidate/fragment.go: the rules of an authorization fragment, over any base model.
pub mod Loads
use Prim.Native.String.{◌++◌ as str_append}
use kiban.Shared.{
  String, Bool, true, false, not, ◌&&◌, ◌||◌, Option, none, some, List, [], ◌∷◌, ◌++◌, map, ◌==◌,
  string_eq, if◌then◌else◌, flat_map, keep, contains, lookup, sort, remove,
}
use kiban.Engine.Model.{
  Model, Relations, ModelError, load_model, merge, validate_targets, validate_company_module_anchor,
  definition,
}
use kiban.Fragment.Load.{is_in}
use kiban.Modvalidate.Errors.{
  Rule, ValidationError, errf, fragment_module_key_mismatch, feature_prefix_mismatch,
  authz_subset_wall, authz_base_type_redeclared, authz_relation_unknown, authz_anchor_missing,
  fragment_feature_invalid, fragment_role_invalid, fragment_object_invalid,
  fragment_row_scope_invalid,
}
use kiban.Modvalidate.Artifacts.{
  AuthzFragment, FragmentRole, FragmentObject, FragmentFeature, RelationsDoc, absent, undecodable,
  decoded,
}
use kiban.Modvalidate.Manifest.{unless, starts_with, allowed_scope_types}

abbrev pub allowed_access_rule_kinds : List String
allowed_access_rule_kinds = "relation" ∷ "platform_role" ∷ "module_eligibility" ∷ []

abbrev pub allowed_scope_kinds : List String
allowed_scope_kinds = "module" ∷ "directory" ∷ "object" ∷ "document" ∷ []

abbrev pub error_of : String → Rule → Option ModelError → List ValidationError
error_of key rule none = []
error_of key rule (some e) = errf key rule

abbrev has_relation : String → Relations → Bool
has_relation rel rels = elim (lookup rel rels) [ none ↦ false | some e ↦ true ]

module _ (base : Model) where
  -- the errors of the base types that a fragment declares
  abbrev pub redeclared : String → Model → List ValidationError
  redeclared key m =
      flat_map
        (λ (t : String × Relations).
          if is_in t.0 base then errf key authz_base_type_redeclared else [])
        m

  -- `delete(m, typ)` of the base types
  abbrev pub own_types : Model → Model
  own_types m = keep (λ (t : String × Relations). not (is_in t.0 base)) m

  -- the effective model, and the error of the merge
  abbrev pub merged : String → Option Model × Option ModelError → List ValidationError × Model
  merged key (some effective, e) = ([], effective)
  merged key (none, e) = (errf key authz_base_type_redeclared, base)

  -- the checks of a model that is loaded, with its own types: the errors, and the effective model
  abbrev pub check_types : String → Model → Model → List ValidationError × Model
  check_types key m own =
      let (errs, effective) = merged key (merge base own) in
      (
        redeclared key m
            ++ errs
            ++ error_of key authz_relation_unknown (validate_targets effective)
            ++ error_of key authz_anchor_missing (validate_company_module_anchor own),
        effective,
      )

  abbrev pub after_load :
      String → Option ModelError → List ValidationError × Model → List ValidationError × Model
  after_load key none checked = checked
  after_load key (some e) checked = (errf key authz_subset_wall, base)

  -- the block on `relations`
  unfoldable pub check_relations : String → RelationsDoc → List ValidationError × Model
  check_relations key absent = ([], base)
  check_relations key (undecodable keys) = (errf key authz_subset_wall, base)
  check_relations key (decoded m) = after_load key (load_model m) (check_types key m (own_types m))

  module _ (key : String) (effective : Model) where
    abbrev pub check_prefix : FragmentFeature → List ValidationError
    check_prefix feat =
        unless (starts_with (str_append key ".") feat.feature_key) key feature_prefix_mismatch

    abbrev pub check_feature : FragmentFeature → List ValidationError
    check_feature feat =
        unless (contains feat.scope_type allowed_scope_types) key fragment_feature_invalid
        ++ unless (contains feat.access_rule_kind allowed_access_rule_kinds) key
            fragment_feature_invalid
        ++ (if feat.object_type == "" && feat.relation == ""
            then []
            else elim (definition effective feat.object_type feat.relation) [
              | none ↦ errf key authz_relation_unknown
              | some e ↦ []
            ])

    abbrev pub check_role : FragmentRole → List ValidationError
    check_role role =
        unless (contains role.scope_type allowed_scope_types) key fragment_role_invalid

    abbrev pub check_object : FragmentObject → List ValidationError
    check_object o = elim (lookup o.object_type effective) [
      | none ↦ errf key fragment_object_invalid
      | some rels ↦
          if is_in o.object_type base
          then errf key fragment_object_invalid
          else unless (contains o.scope_kind allowed_scope_kinds) key fragment_object_invalid
            ++ unless (is_in o.parent_kind effective) key fragment_object_invalid
            ++ unless (has_relation o.manager_relation rels) key fragment_object_invalid
            ++ flat_map (λ gr. unless (has_relation gr rels) key fragment_object_invalid)
                o.grantable_relations
    ]

    abbrev pub check_row_scope : String → List ValidationError
    check_row_scope typ =
        unless (is_in typ effective && not (is_in typ base)) key fragment_row_scope_invalid

  -- `validateFragment`
  unfoldable pub validate_fragment : String → AuthzFragment → List ValidationError
  validate_fragment key f =
      let (errs, effective) = check_relations key f.relations in
      unless (f.module_key == key) key fragment_module_key_mismatch
      ++ flat_map (check_prefix key effective) f.features
      ++ errs
      ++ flat_map (check_feature key effective) f.features
      ++ flat_map (check_role key effective) f.roles
      ++ flat_map (check_object key effective) f.objects
      ++ flat_map (check_row_scope key effective) f.row_scopes

-- `fragmentFeatureKeys`
abbrev pub fragment_feature_keys : Option AuthzFragment → List String
fragment_feature_keys none = []
fragment_feature_keys (some f) = map (λ (feat : FragmentFeature). feat.feature_key) f.features

-- A list without repetitions, as the keys of a Go map.
unfoldable pub distinct : List String → List String
distinct [] = []
distinct (x ∷ xs) = let rest = distinct xs in if contains x xs then rest else x ∷ rest

abbrev relation_types : RelationsDoc → List String
relation_types absent = []
relation_types (undecodable keys) = keys
relation_types (decoded m) = map (λ (t : String × Relations). t.0) m

-- `fragmentObjectTypes`, whose decoder of the relations reads their keys only
abbrev pub fragment_object_types : Option AuthzFragment → List String
fragment_object_types none = []
fragment_object_types (some f) =
    sort (
      distinct
        (map (λ (o : FragmentObject). o.object_type) f.objects ++ relation_types f.relations))
