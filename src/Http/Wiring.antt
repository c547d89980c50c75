-- ===== src/Http/Wiring.antt =====
-- What internal/authz/http.go and clients.go build for one request: the engine over the loaded model,
-- and the fact sources that are engine checks.
use kiban.Shared.{String, Bool, true, false, Option, none, some, ◌==◌, string_eq, if◌then◌else◌}
use kiban.Engine.Eval.{Answer, answer, failed}
use kiban.Engine.Model.{definition}
use kiban.Store.Tables.{Db, superadmin_tuple}
use kiban.Store.Checks.{env_of}
use kiban.Fragment.Load.{Loaded, check_loaded}
use kiban.Decision.Types.{
  SubjectResult, KcState, CompanyState, MembershipState, EngineChecker, Deps,
}

-- The pair `(bool, error)` of a check, with all errors as one.
abbrev pub checked : Answer → Option Bool
checked (answer b) = some b
checked (failed x) = none

-- `fragmentEngineChecker`
abbrev pub fragment_checker : Loaded → Db → EngineChecker
fragment_checker l db = record {
  check = λ typ id rel subj_type subj_id. checked (
      check_loaded l (env_of l.model db subj_type subj_id "")
        (record { obj_type = typ; obj_id = id; rel = rel }));
  check_in_company = some λ typ id rel subj_type subj_id company_id. checked (
      check_loaded l (env_of l.model db subj_type subj_id company_id)
        (record { obj_type = typ; obj_id = id; rel = rel }));
}

-- `fragmentEngineChecker.Defines`
abbrev pub defines : Loaded → String → String → Bool
defines l typ rel = elim (definition l.model typ rel) [ none ↦ false | some _ ↦ true ]

-- `PlatformRoleSuperadmin`
abbrev pub platform_role_superadmin : String
platform_role_superadmin = "kiban-superadmin"

-- `enginePlatformRoleSource.HasRole`
abbrev pub has_platform_role : EngineChecker → String → String → Option Bool
has_platform_role checker subject_id role =
    if role == platform_role_superadmin
    then (let t = superadmin_tuple subject_id in
        checker.check t.object_type t.object_id t.relation t.subject_type t.subject_id)
    else some false

-- `engineCompanyRoleSource.HasRole`
abbrev pub has_company_role : EngineChecker → String → String → String → Option Bool
has_company_role checker company_id subject_id role =
    checker.check "company" company_id role "user" subject_id

-- The answers of the other services: identity, org and the registry.
pub record Sources : Type 0 where
  pub subject : String → Option SubjectResult
  pub keycloak : String → Option KcState
  pub company : String → Option CompanyState
  pub membership : String → String → Option MembershipState
  pub module_state : String → Option Bool

-- `buildDeciderAndChecker`
abbrev pub build_deps : Sources → Loaded → Db → Deps
build_deps src l db = record {
  subject = src.subject;
  keycloak = src.keycloak;
  platform_role = has_platform_role (fragment_checker l db);
  company = src.company;
  membership = src.membership;
  company_role = has_company_role (fragment_checker l db);
  module_state = src.module_state;
  engine = fragment_checker l db;
  model = some (defines l);
  eligibility = none;
  eligibility_timeout = 0;
}
