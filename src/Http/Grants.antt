-- ===== src/Http/Grants.antt =====
-- `handleGrants` and `writeGrants` of internal/authz/http.go, behind the token and the JSON decoder.
use Prim.Native.String.{◌++◌ as str_append}
use kiban.Shared.{
  ℕ, String, Bool, true, false, not, ◌&&◌, Option, none, some, List, [], ◌∷◌, ◌==◌, string_eq,
  if◌then◌else◌,
}
use kiban.Store.Tables.{Tuple, Op, grant_op, revoke_op, Db}
use kiban.Fragment.Load.{Loaded}
use kiban.Decision.Types.{
  Reason, Decision, Request, ObjectRef, scope_global, scope_company, dependency_unavailable,
  foundation_module_key,
}
use kiban.Http.Replies.{denied, unavailable_reply, Step, reply_with, go_on}
use kiban.Http.Wiring.{Sources, platform_role_superadmin}

-- `Claims`
pub record Claims : Type 0 where
  pub subject : String
  pub client_id : String

-- `grantsRequestWire`
pub record GrantsRequest : Type 0 where
  pub op : String
  pub company_id : String
  pub tuples : List Tuple
  pub correlation_id : String

-- What the handler asks outside this repository's code, and of the other services.
pub record Service : Type 0 where
  pub sources : Sources
  -- `fragment.Load`, `none` for an error
  pub effective : Option Loaded
  -- `AppOwners`: `none` for nil, and an answer that may be an error
  pub app_owners : Option (Option (List (String × String)))
  -- `uuid.Parse` succeeds
  pub is_uuid : String → Bool

-- An audit row: a denial, or a change with its module and count.
pub data Audited : Type 0 where
  denial : String → String → Reason → Audited
  change : String → Op → String → String → ℕ → Audited

pub record Served : Type 0 where
  pub db : Db
  pub audit : List Audited

-- `req.Op`
abbrev pub op_of : String → Option Op
op_of s = if s == "grant" then some grant_op else if s == "revoke" then some revoke_op else none

abbrev pub is_grant : Op → Bool
is_grant grant_op = true
is_grant revoke_op = false

-- one round of the loop of `isCompanyAdminAppointment`
abbrev pub appoints : String → Tuple → Bool
appoints company_id t =
    t.object_type == "company"
    && t.object_id == company_id
    && t.relation == "admin"
    && t.subject_type == "user"
    && not (t.subject_id == "")
    && t.subject_relation == ""

-- `isCompanyAdminAppointment`
unfoldable pub is_appointment : String → List Tuple → Bool
is_appointment company_id [] = true
is_appointment company_id (t ∷ ts) = appoints company_id t && is_appointment company_id ts

-- The decision's denial, audited; uncertainty replies 503 and anything else 403.
abbrev pub admit : String → Decision → Step (Unit {0})
admit feature d =
    if d.allowed
    then go_on tt
    else reply_with
        (elim d.reason [
          | dependency_unavailable ↦ unavailable_reply d.dependency d.step
          | reason ↦ denied reason
        ])
        (some (feature, d.reason))

abbrev pub no_object : ObjectRef
no_object = record { typ = ""; id = "" }

abbrev pub appoint_request : String → Request
appoint_request subject = record {
  subject_id = subject;
  feature_key = "auth.company_administration.appoint";
  module_key = foundation_module_key;
  scope = scope_global;
  company_id = "";
  required_platform_role = platform_role_superadmin;
  allow_platform_operator_company_scope = false;
  required_company_role = "";
  object = no_object;
  relation = "";
  requires_eligibility = false;
}

-- The request of rule 3; an app's service account on a module of another app needs the admin role.
abbrev pub grants_request : String → String → String → Bool → Request
grants_request subject company_id module_key registered_app = record {
  subject_id = subject;
  feature_key = str_append module_key ".grants";
  module_key = module_key;
  scope = scope_company;
  company_id = company_id;
  required_platform_role = platform_role_superadmin;
  allow_platform_operator_company_scope = true;
  required_company_role = if registered_app then "admin" else "";
  object = no_object;
  relation = "";
  requires_eligibility = false;
}

-- `t.ObjectType+":"+t.ObjectID`
abbrev pub object_key : Tuple → String
object_key t = str_append t.object_type (str_append ":" t.object_id)
