-- ===== src/Http/Can.antt =====
-- `handleCan` and `handleBatchCan` of internal/authz/http.go behind the token and the JSON decoder,
-- `featureDeclared` of service.go, and the audit rows of denials.
use Prim.Native.String.{◌++◌ as str_append}
use kiban.Shared.{
  ℕ, String, Bool, not, ◌&&◌, ◌||◌, Option, none, some, List, ◌∷◌, ◌==◌, string_eq, if◌then◌else◌,
  lookup, contains, cut,
}
use kiban.Store.Tables.{Db}
use kiban.Fragment.Load.{Loaded}
use kiban.Decision.Types.{
  Reason, Decision, Request, ObjectRef, scope_global, scope_company, dependency_unavailable,
}
use kiban.Decision.Evaluate.{evaluate, BatchItem}
use kiban.Http.Replies.{
  Refusal, bad_request, validation_failed, unavailable_reply, internal_error, Step, reply_with,
  go_on, ◌>>=◌, ◌>>◌, refuse, require, answer_of,
}
use kiban.Http.Wiring.{Sources, build_deps}

-- `canRequestWire`
pub record CanRequest : Type 0 where
  pub actor_override : String
  pub feature_key : String
  pub module_key : String
  pub scope : String
  pub company_id : String
  pub required_platform_role : String
  pub allow_platform_operator : Bool
  pub required_company_role : String
  pub object : ObjectRef
  pub relation : String
  pub requires_eligibility : Bool

-- `Service`, as these handlers read it
pub record CanService : Type 0 where
  pub sources : Sources
  pub effective : Option Loaded
  -- `AppFeatures`: `none` for nil; a module's features, or an error
  pub app_features : Option (Option (List (String × List String)))

-- A 200 with the decisions, or a refusal.
pub data CanReply : Type 0 where
  decided_one : Decision → CanReply
  decided_batch : List (BatchItem × Decision) → CanReply
  refused_with : Refusal → CanReply

-- The payload of a denial's audit row: one reason, or the denied items, their number, and whether
-- the list is cut short.
pub data DenialAudit : Type 0 where
  one_denial : String → String → Reason → DenialAudit
  batch_denial : String → String → ℕ → List (BatchItem × Decision) → Bool → DenialAudit

-- `toDecisionRequest`
unfoldable pub to_decision_request : CanRequest → String → Request
to_decision_request w subject = record {
  subject_id = subject;
  feature_key = w.feature_key;
  module_key = w.module_key;
  scope = if w.scope == "global" then scope_global else scope_company;
  company_id = w.company_id;
  required_platform_role = w.required_platform_role;
  allow_platform_operator_company_scope = w.allow_platform_operator;
  required_company_role = w.required_company_role;
  object = w.object;
  relation = w.relation;
  requires_eligibility = w.requires_eligibility;
}

-- a text before its first `.`, which is byte 46; the empty text where there is none or it comes first
abbrev pub first_segment : String → String
first_segment key = let (before, _) = cut 46 key in if before == key then "" else before

-- `moduleOrFeaturePrefix`
unfoldable pub module_or_feature_prefix : String → String → String
module_or_feature_prefix module_key feature_key =
    if not (module_key == "") then module_key else first_segment feature_key

-- `validateCanRequest`
unfoldable pub validate_can_request : String → CanRequest → Step (Unit {0})
validate_can_request subject req = do
  require (req.actor_override == "" || req.actor_override == subject) bad_request
  require (not req.requires_eligibility) bad_request
  require (not (req.scope == "global" && req.required_platform_role == "")) bad_request

-- `featureDeclared`, for one feature
unfoldable pub feature_declared : CanService → String → String → Step (Unit {0})
feature_declared svc module_key feature =
    if module_key == "" then go_on tt else elim svc.app_features [
      | none ↦ go_on tt
      | some known ↦ (do
        apps ← answer_of known "registry" "features"
        elim (lookup module_key apps) [
          | none ↦ go_on tt
          | some declared ↦
              require (feature == str_append module_key ".access" || contains feature declared)
                validation_failed
        ])
    ]

-- The request with its module filled in.
abbrev pub with_module : CanRequest → CanRequest
with_module req = record req {
  module_key = module_or_feature_prefix req.module_key req.feature_key;
}

-- `buildDecider`: an error replies 500
abbrev pub built : Option Loaded → Step Loaded
built none = refuse internal_error
built (some l) = go_on l

-- What both handlers do before the decision: the decision's request, and the loaded model.
unfoldable pub prepare :
    CanService → String → CanRequest → Step (Unit {0}) → Step (Request × Loaded)
prepare svc subject req guards = do
  validate_can_request subject req
  feature_declared svc (with_module req).module_key req.feature_key
  guards
  l ← built svc.effective
  go_on (to_decision_request (with_module req) subject, l)

-- `writeDecision`, which looks at the reason
abbrev pub reply_for : Reason → Decision → CanReply
reply_for dependency_unavailable d = refused_with (unavailable_reply d.dependency d.step)
reply_for _ d = decided_one d

abbrev pub write_decision : Decision → CanReply
write_decision d = reply_for d.reason d

abbrev pub audit_one : String → String → Decision → List DenialAudit → List DenialAudit
audit_one subject feature d rows =
    if d.allowed then rows else one_denial subject feature d.reason ∷ rows

abbrev pub no_guards : Step (Unit {0})
no_guards = go_on tt

-- the decision of `handleCan`, its audit row and its reply
abbrev pub finish_can :
    CanService
    → Db
    → String
    → CanRequest
    → List DenialAudit
    → Step (Request × Loaded)
    → CanReply × List DenialAudit
finish_can svc db subject req rows (reply_with r _) = (refused_with r, rows)
finish_can svc db subject req rows (go_on (request, l)) =
    let d = evaluate (build_deps svc.sources l db) request in
    (write_decision d, audit_one subject req.feature_key d rows)

-- `handleCan`: its reply, and the audit rows after it
unfoldable pub handle_can :
    CanService → Db → String → CanRequest → List DenialAudit → CanReply × List DenialAudit
handle_can svc db subject req rows =
    finish_can svc db subject req rows (prepare svc subject req no_guards)
