-- ===== src/Modvalidate/Artifacts.antt =====
-- The artifacts of a module that internal/modvalidate/types.go declares, behind the JSON decoder;
-- fields that no rule reads are left out. A regular expression, and the semver library, is a test
-- that is an argument.
use kiban.Shared.{ℕ, String, Bool, Option, List}
use kiban.Engine.Model.{Model}
use kiban.Modvalidate.Sql.Bytes.{Bytes}

pub record ManifestDependency : Type 0 where
  pub module_key : String
  pub version_range : String
  pub required : Bool

-- `ManifestService`; a port is negative only in a manifest that is refused, as is a port of 0
pub record ManifestService : Type 0 where
  pub base_path : String
  pub port : ℕ
  pub health_path : String

pub record ManifestLicense : Type 0 where
  pub class : String
  pub spdx : String

-- `Manifest`, with the schema of its `Data`
pub record Manifest : Type 0 where
  pub contract_version : String
  pub module_key : String
  pub version : String
  pub scope_type : String
  pub service : ManifestService
  pub dependencies : List ManifestDependency
  pub postgres_schema : String
  pub license : ManifestLicense

-- What the code asks of github.com/Masterminds/semver.
pub record Semver : Type 0 where
  pub is_version : String → Bool
  pub is_constraint : String → Bool
  pub check : String → String → Bool

pub record FragmentRole : Type 0 where
  pub scope_type : String

pub record FragmentObject : Type 0 where
  pub object_type : String
  pub scope_kind : String
  pub parent_kind : String
  pub manager_relation : String
  pub grantable_relations : List String

-- `FragmentFeature`, with `accessRulePayload["objectType"]` and `["relation"]`, each empty if it is
-- missing or no text
pub record FragmentFeature : Type 0 where
  pub feature_key : String
  pub scope_type : String
  pub access_rule_kind : String
  pub object_type : String
  pub relation : String

-- `json.RawMessage` of the relations, as the decoder of internal/authz/engine reads it; a document
-- that it refuses still has the keys that the plain decoder finds
pub data RelationsDoc : Type 0 where
  absent : RelationsDoc
  undecodable : List String → RelationsDoc
  decoded : Model → RelationsDoc

-- `AuthzFragment`
pub record AuthzFragment : Type 0 where
  pub module_key : String
  pub roles : List FragmentRole
  pub objects : List FragmentObject
  pub relations : RelationsDoc
  pub features : List FragmentFeature
  pub row_scopes : List String

pub record FrontendRoute : Type 0 where
  pub id : String
  pub path : String
  pub feature_key : String

pub record FrontendManifest : Type 0 where
  pub module_key : String
  pub route_base : String
  pub routes : List FrontendRoute
  pub sdk_version_range : String

pub record MigrationFile : Type 0 where
  pub name : String
  pub contents : Bytes
  pub checksum : String

-- An operation of an OpenAPI document: its id, empty if it is missing, and its `x-required-modules`,
-- `none` if that is no list; a list holds texts only
pub record Operation : Type 0 where
  pub method : String
  pub operation_id : String
  pub required_modules : Option (List String)

-- The document that `yaml.Unmarshal` gives, as the code reads it: the URLs of its servers, and its
-- paths with the operations of each.
pub record OpenApi : Type 0 where
  pub servers : List String
  pub paths : List (String × List Operation)

-- `Module`, behind `LoadModule`, with its checksum ledger and the text of its LICENSE file, each
-- `none` if it cannot be read
pub record Module : Type 0 where
  pub manifest : Option Manifest
  pub fragment : Option AuthzFragment
  pub open_api : Option OpenApi
  pub migrations : List MigrationFile
  pub ledger : Option (List (String × String))
  pub frontend : Option FrontendManifest
  pub license_text : Option String

pub record CatalogEntry : Type 0 where
  pub module_key : String
  pub version : String
  pub base_path : String
  pub port : ℕ
  pub route_ids : List String
  pub feature_keys : List String
  pub object_types : List String
