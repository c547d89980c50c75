-- ===== src/Modvalidate/Manifest.antt =====
-- internal/modvalidate/manifest.go and license.go: the rules of a manifest alone, and of its license.
use Prim.Native.String.{◌++◌ as str_append}
use kiban.Shared.{
  String, Bool, true, false, not, ◌||◌, Option, none, some, List, [], ◌∷◌, ◌++◌, ◌==◌, string_eq,
  if◌then◌else◌, flat_map, ltb, contains, lookup, strip_prefix,
}
use kiban.Modvalidate.Errors.{
  Rule, ValidationError, errf, unknown_contract_version, module_key_format, scope_type_invalid,
  service_port, health_path, dependency_required, version_format, base_path_mismatch,
  schema_mismatch, license_class_invalid, license_spdx_invalid, dependency_range_syntax,
  license_file_class_mismatch,
}
use kiban.Modvalidate.Artifacts.{Manifest, ManifestDependency, ManifestLicense, Semver}

-- An error where a condition does not hold.
abbrev pub unless : Bool → String → Rule → List ValidationError
unless ok key rule = if ok then [] else errf key rule

abbrev pub starts_with : String → String → Bool
starts_with p s = elim (strip_prefix p s) [ none ↦ false | some rest ↦ true ]

abbrev pub allowed_scope_types : List String
allowed_scope_types = "global" ∷ "company" ∷ []

-- `licenseClassAllowedSPDX`
abbrev pub license_class_allowed_spdx : List (String × List String)
license_class_allowed_spdx =
    ("foundation", "Apache-2.0" ∷ []) ∷ ("open", "Apache-2.0" ∷ "MIT" ∷ []) ∷ []

unfoldable pub check_license : String → ManifestLicense → List ValidationError
check_license key license = elim (lookup license.class license_class_allowed_spdx) [
  | none ↦ errf key license_class_invalid
  | some allowed ↦ unless (contains license.spdx allowed) key license_spdx_invalid
]

-- The pattern of module keys is a test.
module _ (semver : Semver) (is_module_key : String → Bool) where
  abbrev pub check_required : String → ManifestDependency → List ValidationError
  check_required key dep = unless dep.required key dependency_required

  abbrev pub check_dependency_syntax : String → ManifestDependency → List ValidationError
  check_dependency_syntax key dep =
      if is_module_key dep.module_key
      then unless (semver.is_constraint dep.version_range) key dependency_range_syntax
      else errf key module_key_format

  -- `validateManifest`
  unfoldable pub validate_manifest : Manifest → List ValidationError
  validate_manifest m =
      unless (m.contract_version == "1") m.module_key unknown_contract_version
      ++ unless (is_module_key m.module_key) m.module_key module_key_format
      ++ unless (contains m.scope_type allowed_scope_types) m.module_key scope_type_invalid
      ++ unless (not (ltb m.service.port 1 || ltb 65535 m.service.port)) m.module_key service_port
      ++ unless (starts_with "/" m.service.health_path) m.module_key health_path
      ++ flat_map (check_required m.module_key) m.dependencies
      ++ unless (semver.is_version m.version) m.module_key version_format
      ++ unless (m.service.base_path == str_append "/api/" m.module_key) m.module_key
          base_path_mismatch
      ++ unless (m.postgres_schema == m.module_key) m.module_key schema_mismatch
      ++ check_license m.module_key m.license
      ++ flat_map (check_dependency_syntax m.module_key) m.dependencies

-- `validateLicenseFile`; the canonical texts and the normalization of white space are arguments
unfoldable pub validate_license_file :
    (String → Option String)
    → (String → String)
    → String
    → ManifestLicense
    → Option String
    → List ValidationError
validate_license_file canonical normalize key license none =
    if license.class == "" then [] else errf key license_file_class_mismatch
validate_license_file canonical normalize key license (some text) =
    if license.class == "" then [] else elim (canonical license.spdx) [
      | none ↦ []
      | some body ↦ unless (normalize text == normalize body) key license_file_class_mismatch
    ]
