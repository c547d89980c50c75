-- ===== src/Modvalidate/Catalog.antt =====
-- internal/modvalidate/catalog.go and validate.go: duplicates across a batch of modules and a
-- catalog, and the whole validation.
pub mod Duplicates
use kiban.Shared.{
  ℕ, String, Bool, true, false, not, Option, none, some, List, [], ◌∷◌, ◌++◌, map, ◌==◌, string_eq,
  nat_eq, if◌then◌else◌, flat_map, lookup, put, sort,
}
use kiban.Engine.Model.{Model}
use kiban.Modvalidate.Errors.{
  Rule, ValidationError, errf, duplicate_module_key, duplicate_base_path, duplicate_port,
  duplicate_route_id, duplicate_feature_key, duplicate_object_type, openapi_unknown_required_module,
}
use kiban.Modvalidate.Artifacts.{
  Manifest, AuthzFragment, OpenApi, FrontendManifest, FrontendRoute, Module, CatalogEntry, Semver,
}
use kiban.Modvalidate.Deps.{Known, validate_dependency_graph}
use kiban.Modvalidate.Manifest.{validate_manifest, validate_license_file}
use kiban.Modvalidate.Fragment.{validate_fragment, fragment_feature_keys, fragment_object_types}
use kiban.Modvalidate.Migrations.{validate_migrations}
use kiban.Modvalidate.Frontend.{validate_frontend, validate_open_api, open_api_required_modules}

-- `occurrence`: a module, and a value that it claims
pub record Occurrence : Type 0 where
  pub module_key : String
  pub value : String

-- The modules that claim each value, in the order of their claims.
abbrev pub Occurrences : Type 0
Occurrences = List (String × List String)

abbrev pub owners_in : String → Occurrences → List String
owners_in v m = elim (lookup v m) [ none ↦ [] | some owners ↦ owners ]

-- `addOcc`
unfoldable pub add_occ : Occurrence → Occurrences → Occurrences
add_occ o m = if o.value == "" then m else put o.value (owners_in o.value m ++ o.module_key ∷ []) m

unfoldable pub add_all : List Occurrence → Occurrences → Occurrences
add_all [] m = m
add_all (o ∷ os) m = add_all os (add_occ o m)

-- the errors of one value: one for each of its owners, if they are several
unfoldable pub report_value : Rule → List String → List ValidationError
report_value rule [] = []
report_value rule (owner ∷ []) = []
report_value rule (owner ∷ other ∷ owners) =
    map (λ key. record { module_key = key; rule = rule }) (owner ∷ other ∷ owners)

-- `reportDuplicates`
unfoldable pub report_duplicates : Rule → Occurrences → List ValidationError
report_duplicates rule occs =
    flat_map (λ v. report_value rule (owners_in v occs))
      (sort (map (λ (o : String × List String). o.0) occs))

abbrev pub claims : String → List String → List Occurrence
claims key values = map (λ v. record { module_key = key; value = v }) values

-- `routeIDsOf`
abbrev pub route_ids_of : Option FrontendManifest → List String
route_ids_of none = []
route_ids_of (some fe) = map (λ (r : FrontendRoute). r.id) fe.routes

-- What a module or an entry of the catalog claims.
pub record Claimed : Type 0 where
  pub module_key : String
  pub base_path : String
  pub port : ℕ
  pub route_ids : List String
  pub feature_keys : List String
  pub object_types : List String

-- one round of the loop over the modules; a module without a manifest claims nothing
abbrev pub claimed_by : Module → List Claimed
claimed_by m = elim m.manifest [
  | none ↦ []
  | some mf ↦
      record {
        module_key = mf.module_key;
        base_path = mf.service.base_path;
        port = mf.service.port;
        route_ids = route_ids_of m.frontend;
        feature_keys = fragment_feature_keys m.fragment;
        object_types = fragment_object_types m.fragment;
      }
      ∷ []
]

abbrev pub claimed_entry : CatalogEntry → Claimed
claimed_entry e = record {
  module_key = e.module_key;
  base_path = e.base_path;
  port = e.port;
  route_ids = e.route_ids;
  feature_keys = e.feature_keys;
  object_types = e.object_types;
}

-- `x-required-modules` that no module has
abbrev pub check_required_modules : Occurrences → Module → List ValidationError
check_required_modules keys m = elim m.manifest [
  | none ↦ []
  | some mf ↦ elim m.open_api [
    | none ↦ []
    | some doc ↦
        flat_map
          (λ req. elim (lookup req keys) [
            | none ↦ errf mf.module_key openapi_unknown_required_module
            | some o ↦ []
          ])
          (open_api_required_modules doc)
  ]
]

-- The claims of one kind, over all the modules and entries.
abbrev pub all_claims : (Claimed → List String) → List Claimed → List Occurrence
all_claims f cs = flat_map (λ c. claims c.module_key (f c)) cs

abbrev pub occurrences : (Claimed → List String) → List Claimed → Occurrences
occurrences f cs = add_all (all_claims f cs) []

-- `strconv.Itoa` is an argument.
module _ (itoa : ℕ → String) where
  -- `portKey`
  abbrev pub port_key : ℕ → String
  port_key p = if p == 0 then "" else itoa p

  abbrev pub everything_claimed : List Module → List CatalogEntry → List Claimed
  everything_claimed modules snapshot = flat_map claimed_by modules ++ map claimed_entry snapshot

  -- `validateCatalogDuplicates`
  unfoldable pub validate_catalog_duplicates :
      List Module → List CatalogEntry → List ValidationError
  validate_catalog_duplicates modules snapshot =
      let cs = everything_claimed modules snapshot in
      report_duplicates duplicate_module_key (occurrences (λ c. c.module_key ∷ []) cs)
      ++ report_duplicates duplicate_base_path (occurrences (λ c. c.base_path ∷ []) cs)
      ++ report_duplicates duplicate_port (occurrences (λ c. port_key c.port ∷ []) cs)
      ++ report_duplicates duplicate_route_id (occurrences (λ c. c.route_ids) cs)
      ++ report_duplicates duplicate_feature_key (occurrences (λ c. c.feature_keys) cs)
      ++ report_duplicates duplicate_object_type (occurrences (λ c. c.object_types) cs)
      ++ flat_map (check_required_modules (occurrences (λ c. c.module_key ∷ []) cs)) modules

-- What `ValidateModule` takes from outside: the semver library, the patterns, and the license texts.
pub record Outside : Type 0 where
  pub semver : Semver
  pub is_module_key : String → Bool
  pub number_of : String → Option String
  pub split : String → List String
  pub is_param : String → Bool
  pub is_segment : String → Bool
  pub canonical : String → Option String
  pub normalize : String → String
  pub itoa : ℕ → String

module _ (out : Outside) (base : Model) where
  abbrev optional {ℓ} : {A : Type ℓ} → Option A → (A → List ValidationError) → List ValidationError
  optional none f = []
  optional (some a) f = f a

  -- `ValidateModule`; `none` for a panic in the scan of a migration
  unfoldable pub validate_module : Module → Option (List ValidationError)
  validate_module m = elim m.manifest [
    | none ↦ some []
    | some mf ↦ elim (validate_migrations out.number_of mf.module_key m.ledger m.migrations) [
      | none ↦ none
      | some errs ↦ some (
          validate_manifest out.semver out.is_module_key mf
          ++ validate_license_file out.canonical out.normalize mf.module_key mf.license
              m.license_text
          ++ optional m.fragment (validate_fragment base mf.module_key)
          ++ optional m.open_api (validate_open_api mf.module_key mf.service.base_path)
          ++ errs
          ++ optional m.frontend (λ fe.
            validate_frontend out.split out.is_param out.is_segment out.semver mf.module_key fe
              m.fragment))
    ]
  ]

  unfoldable pub validate_modules : List Module → Option (List ValidationError)
  validate_modules [] = some []
  validate_modules (m ∷ modules) = elim (validate_module m) [
    | none ↦ none
    | some errs ↦ elim (validate_modules modules) [ none ↦ none | some more ↦ some (errs ++ more) ]
  ]

  abbrev manifest_of : Module → List Manifest
  manifest_of m = elim m.manifest [ none ↦ [] | some mf ↦ mf ∷ [] ]

  abbrev pub known_entry : CatalogEntry → Known
  known_entry e = (e.module_key, e.version)

  -- `ValidateBatch`
  unfoldable pub validate_batch : List Module → List CatalogEntry → Option (List ValidationError)
  validate_batch modules snapshot = elim (validate_modules modules) [
    | none ↦ none
    | some errs ↦ some (
        errs
        ++ validate_catalog_duplicates out.itoa modules snapshot
        ++ validate_dependency_graph out.semver (flat_map manifest_of modules)
            (map known_entry snapshot))
  ]
