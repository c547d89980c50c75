-- ===== src/Decision/Types.antt =====
-- internal/authz/decision/decision.go: reasons, evidence, decisions, requests and dependencies.
use Prim.Native.String.{◌++◌ as str_append}
use kiban.Shared.{ℕ, String, Bool, true, false, Option, List, [], ◌∷◌, ◌++◌}

pub data Reason : Type 0 where
  allowed_reason : Reason
  auth_user_not_found : Reason
  keycloak_disabled : Reason
  user_lifecycle_disabled : Reason
  company_inactive : Reason
  company_membership_required : Reason
  company_access_blocked : Reason
  module_disabled : Reason
  platform_role_required : Reason
  company_role_required : Reason
  engine_denied : Reason
  business_eligibility_denied : Reason
  dependency_unavailable : Reason

-- `Evidence`: a key and a value
abbrev pub Evidence : Type 0
Evidence = String × String

pub record Decision : Type 0 where
  pub allowed : Bool
  pub reason : Reason
  pub evidence : List Evidence
  pub dependency : String
  pub step : String

-- `deny`, `unavailable` and `allow`, with `appendEvidence` as `++`
abbrev pub deny : Reason → List Evidence → List Evidence → Decision
deny reason ev kv = record {
  allowed = false;
  reason = reason;
  evidence = ev ++ kv;
  dependency = "";
  step = "";
}

abbrev pub unavailable : String → String → List Evidence → Decision
unavailable dependency step ev = record {
  allowed = false;
  reason = dependency_unavailable;
  evidence = ev ++ ("dependency", dependency) ∷ ("step", step) ∷ [];
  dependency = dependency;
  step = step;
}

abbrev pub allow : List Evidence → List Evidence → Decision
allow ev kv = record {
  allowed = true;
  reason = allowed_reason;
  evidence = ev ++ kv;
  dependency = "";
  step = "";
}

pub record SubjectResult : Type 0 where
  pub found : Bool
  pub lifecycle_active : Bool

-- `KCState` is a text in the source; `kc_other` is any text but the three that are named.
pub data KcState : Type 0 where
  kc_true kc_false kc_unknown kc_other : KcState

pub record CompanyState : Type 0 where
  pub exists : Bool
  pub active : Bool

pub record MembershipState : Type 0 where
  pub is_member : Bool
  pub blocked : Bool

pub data EligibilityOutcome : Type 0 where
  eligibility_allow eligibility_denial eligibility_error : EligibilityOutcome
  -- any other number of the source's `int`
  eligibility_other : EligibilityOutcome

-- `Scope` is a text in the source too.
pub data Scope : Type 0 where
  scope_global scope_company scope_other : Scope

pub record ObjectRef : Type 0 where
  pub typ : String
  pub id : String

pub record Request : Type 0 where
  pub subject_id : String
  pub feature_key : String
  pub module_key : String
  pub scope : Scope
  pub company_id : String
  pub required_platform_role : String
  pub allow_platform_operator_company_scope : Bool
  pub required_company_role : String
  pub object : ObjectRef
  pub relation : String
  pub requires_eligibility : Bool

-- `EngineChecker`, with `CompanyScopedChecker` where the engine offers it: object type and id,
-- relation, subject type and id, and the company. `none` is an error.
pub record EngineChecker : Type 0 where
  pub check : String → String → String → String → String → Option Bool
  pub check_in_company : Option (String → String → String → String → String → String → Option Bool)

-- The callback's outcome or error, and whether its own timeout (not the caller's) ran out.
pub record EligibilityRun : Type 0 where
  pub outcome : Option EligibilityOutcome
  pub timed_out : Bool

-- `Deps`. Each source answers by its arguments for the time of one decision; `none` is an error.
pub record Deps : Type 0 where
  pub subject : String → Option SubjectResult
  pub keycloak : String → Option KcState
  pub platform_role : String → String → Option Bool
  pub company : String → Option CompanyState
  pub membership : String → String → Option MembershipState
  pub company_role : String → String → String → Option Bool
  pub module_state : String → Option Bool
  pub engine : EngineChecker
  pub model : Option (String → String → Bool)
  -- the timeout in nanoseconds, and the request
  pub eligibility : Option (ℕ → Request → EligibilityRun)
  pub eligibility_timeout : ℕ

abbrev pub foundation_module_key : String
foundation_module_key = "auth"

-- `companyID + "/" + moduleKey`
abbrev pub module_object_id : String → String → String
module_object_id company_id module_key = str_append company_id (str_append "/" module_key)

abbrev pub object_label : ObjectRef → String
object_label obj = str_append obj.typ (str_append ":" obj.id)
