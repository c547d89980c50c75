-- ===== src/Modvalidate/Errors.antt =====
-- The rules and errors of internal/modvalidate/errors.go. An error's message, a formatted text that
-- nothing reads, is left out.
use kiban.Shared.{String, List, [], ◌∷◌}

-- The constants of errors.go, and the rules that the code writes as literals.
pub data Rule : Type 0 where
  unknown_field unknown_contract_version module_key_format base_path_mismatch : Rule
  schema_mismatch feature_prefix_mismatch route_base_mismatch : Rule
  fragment_module_key_mismatch authz_subset_wall authz_base_type_redeclared : Rule
  authz_relation_unknown authz_anchor_missing dependency_unknown dependency_cycle : Rule
  dependency_range dependency_range_syntax migration_filename migration_order : Rule
  migration_cross_schema migration_unsafe_statement migration_checksum : Rule
  scope_type_invalid service_port health_path dependency_required : Rule
  fragment_object_invalid fragment_feature_invalid fragment_role_invalid : Rule
  fragment_row_scope_invalid frontend_sdk_version_range : Rule
  openapi_unknown_required_module duplicate_port openapi_operation_id : Rule
  openapi_path_outside_base_path openapi_missing_capability_annotation : Rule
  frontend_duplicate_route_id frontend_path_collision frontend_bad_param_name : Rule
  frontend_feature_key_missing duplicate_module_key duplicate_base_path : Rule
  duplicate_route_id duplicate_feature_key duplicate_object_type version_format : Rule
  license_file_class_mismatch license_spdx_invalid license_class_invalid : Rule

pub record ValidationError : Type 0 where
  pub module_key : String
  pub rule : Rule

-- `[]ValidationError{errf(moduleKey, rule, …)}`
abbrev pub errf : String → Rule → List ValidationError
errf key rule = record { module_key = key; rule = rule } ∷ []
