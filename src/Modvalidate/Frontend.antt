-- ===== src/Modvalidate/Frontend.antt =====
-- internal/modvalidate/frontend.go and openapi.go: the rules of a frontend manifest, and of an
-- OpenAPI document.
use Prim.Native.String.{◌++◌ as str_append}
use kiban.Shared.{
  String, Bool, true, false, not, ◌&&◌, ◌||◌, Option, none, some, List, [], ◌∷◌, ◌++◌, map, ◌==◌,
  string_eq, if◌then◌else◌, flat_map, keep, contains, lookup, sort,
}
use kiban.Http.Summary.{access_feature}
use kiban.Modvalidate.Errors.{
  ValidationError, errf, fragment_module_key_mismatch, route_base_mismatch,
  frontend_sdk_version_range, frontend_duplicate_route_id, frontend_path_collision,
  frontend_bad_param_name, frontend_feature_key_missing, openapi_path_outside_base_path,
  openapi_operation_id, openapi_missing_capability_annotation,
}
use kiban.Modvalidate.Artifacts.{
  AuthzFragment, FrontendManifest, FrontendRoute, Semver, OpenApi, Operation,
}
use kiban.Modvalidate.Manifest.{unless, starts_with}
use kiban.Modvalidate.Fragment.{fragment_feature_keys, distinct}

-- The segments of a path (`strings.Split(p, "/")`) and the two patterns are arguments.
module _ (split : String → List String) (is_param is_segment : String → Bool) where
  -- a segment of `normalizeRoutePath`
  abbrev pub normalize_segment : String → String
  normalize_segment seg = if starts_with ":" seg then ":*" else seg

  -- `normalizeRoutePath`, before the segments are joined again
  abbrev pub normalize_route_path : String → List String
  normalize_route_path p = map normalize_segment (split p)

  abbrev same_path : List String → List String → Bool
  same_path [] [] = true
  same_path [] (y ∷ ys) = false
  same_path (x ∷ xs) [] = false
  same_path (x ∷ xs) (y ∷ ys) = x == y && same_path xs ys

  abbrev is_path_in : List String → List (List String) → Bool
  is_path_in p [] = false
  is_path_in p (q ∷ qs) = same_path q p || is_path_in p qs

  abbrev pub check_segment : String → String → List ValidationError
  check_segment key seg =
      if seg == ""
      then []
      else if starts_with ":" seg
      then unless (is_param seg) key frontend_bad_param_name
      else unless (is_segment seg) key frontend_bad_param_name

  module _ (key : String) (feature_keys : List String) where
    -- one round of the loop over the routes, with the ids and the paths of the earlier ones
    abbrev pub check_route : List String → List (List String) → FrontendRoute → List ValidationError
    check_route ids paths route =
        (if contains route.id ids then errf key frontend_duplicate_route_id else [])
        ++ (if is_path_in (normalize_route_path route.path) paths
            then errf key frontend_path_collision
            else [])
        ++ flat_map (check_segment key) (split route.path)
        ++ (if not (route.feature_key == access_feature key)
              && not (contains route.feature_key feature_keys)
            then errf key frontend_feature_key_missing
            else [])

    unfoldable pub check_routes :
        List String → List (List String) → List FrontendRoute → List ValidationError
    check_routes ids paths [] = []
    check_routes ids paths (route ∷ routes) =
        check_route ids paths route
        ++ check_routes (route.id ∷ ids) (normalize_route_path route.path ∷ paths) routes

  -- `validateFrontend`
  unfoldable pub validate_frontend :
      Semver → String → FrontendManifest → Option AuthzFragment → List ValidationError
  validate_frontend semver key fe fragment =
      unless (fe.module_key == key) key fragment_module_key_mismatch
      ++ unless (fe.route_base == str_append "/app/" key) key route_base_mismatch
      ++ unless (semver.is_constraint fe.sdk_version_range) key frontend_sdk_version_range
      ++ check_routes key (fragment_feature_keys fragment) [] [] fe.routes

-- the servers behind the first
abbrev pub check_more_servers : String → List String → List ValidationError
check_more_servers key urls =
    flat_map (λ url. unless (url == "/") key openapi_path_outside_base_path) urls

abbrev pub check_servers : String → String → List String → List ValidationError
check_servers key base_path [] = errf key openapi_path_outside_base_path
check_servers key base_path (url ∷ urls) =
    unless (url == base_path) key openapi_path_outside_base_path ++ check_more_servers key urls

abbrev has_modules : Option (List String) → Bool
has_modules none = false
has_modules (some []) = false
has_modules (some (m ∷ ms)) = true

abbrev pub http_methods : List String
http_methods = "get" ∷ "put" ∷ "post" ∷ "delete" ∷ "options" ∷ "head" ∷ "patch" ∷ "trace" ∷ []

-- the operations of a path, in the order of `httpMethods`
abbrev pub operations_of : List Operation → List Operation
operations_of ops = flat_map (λ m. keep (λ (op : Operation). op.method == m) ops) http_methods

abbrev is_health_probe : String → Bool
is_health_probe path = path == "/health" || path == "/ready"

module _ (key : String) where
  abbrev pub check_operation : String → List String → Operation → List ValidationError
  check_operation path seen op =
      (if op.operation_id == ""
        then errf key openapi_operation_id
        else if contains op.operation_id seen
        then errf key openapi_operation_id
        else [])
      ++ (if is_health_probe path || has_modules op.required_modules
          then []
          else errf key openapi_missing_capability_annotation)

  -- the loop over the operations of one path, and the ids that are seen behind it
  unfoldable pub check_operations :
      String → List String → List Operation → List ValidationError × List String
  check_operations path seen [] = ([], seen)
  check_operations path seen (op ∷ ops) =
      let (errs, after) =
        check_operations path (if op.operation_id == "" then seen else op.operation_id ∷ seen)
          ops in
      (check_operation path seen op ++ errs, after)

  abbrev pub check_path : String → List ValidationError
  check_path path =
      if not (starts_with "/" path) || starts_with "/api/" path
      then errf key openapi_path_outside_base_path
      else []

  -- the loop over the sorted paths; those are keys of `doc.paths`
  unfoldable pub check_paths :
      List (String × List Operation) → List String → List String → List ValidationError
  check_paths paths seen [] = []
  check_paths paths seen (p ∷ ps) = elim (lookup p paths) [
    | none ↦ check_paths paths seen ps
    | some ops ↦
        (let (errs, after) = check_operations p seen (operations_of ops) in
          check_path p ++ errs ++ check_paths paths after ps)
  ]

  -- `validateOpenAPI`
  unfoldable pub validate_open_api : String → OpenApi → List ValidationError
  validate_open_api base_path doc =
      check_servers key base_path doc.servers
      ++ check_paths doc.paths [] (sort (map (λ (p : String × List Operation). p.0) doc.paths))

abbrev modules_of : Operation → List String
modules_of op = elim op.required_modules [ none ↦ [] | some ms ↦ ms ]

-- `openAPIRequiredModules`
unfoldable pub open_api_required_modules : OpenApi → List String
open_api_required_modules doc = sort (
    distinct (
      flat_map (λ (p : String × List Operation). flat_map modules_of (operations_of p.1))
        doc.paths))
