-- ===== src/Tests/DecisionTests.antt =====
-- Concrete decisions by the models of internal/authz/decision.
use kiban.Shared.{
  String, ◌≡◌, refl, Bool, true, false, ◌||◌, Option, none, some, [], ◌∷◌, map, ◌==◌, string_eq,
  ◌≢◌,
}
use kiban.Decision.Types.{
  allowed_reason, company_access_blocked, engine_denied, kc_true, scope_company, scope_global,
  Scope, Request, Deps, ObjectRef, eligibility_allow,
}
use kiban.Decision.Evaluate.{
  evaluate, evaluate_run, evaluate_batch, prefix_of, first_evidence, subject_steps, global_step,
}
use kiban.Decision.Gates.{verdict, gates}
use kiban.Decision.Gates.Verdict.{evaluate-verdict}
use kiban.Decision.Shape.{IsShaped, evaluate-IsShaped}
use kiban.Decision.Batch.{AllAgree, item_request, evaluate_batch-Agrees, evaluate_batch-global}

-- An engine that knows one reader of each document, and that documents belong to company c1.
abbrev reads : String → String → String → String → String → Option Bool
reads typ id rel subject_type subject_id = some (subject_id == "ann" || subject_id == "c1")

abbrev deps : Bool → Deps
deps blocked = record {
  subject = λ id. some (record { found = true; lifecycle_active = true });
  keycloak = λ id. some kc_true;
  platform_role = λ id role. some true;
  company = λ id. some (record { exists = true; active = true });
  membership = λ company id. some (record { is_member = true; blocked = blocked });
  company_role = λ company id role. some true;
  module_state = λ key. some true;
  engine = record { check = reads; check_in_company = none };
  model = some λ typ rel. rel == "company";
  eligibility = some λ timeout req. record { outcome = some eligibility_allow; timed_out = false };
  eligibility_timeout = 0;
}

abbrev doc : String → ObjectRef
doc id = record { typ = "doc"; id = id }

abbrev request : Scope → String → Request
request scope subject = record {
  subject_id = subject;
  feature_key = "docs.read";
  module_key = "docs";
  scope = scope;
  company_id = "c1";
  required_platform_role = "superadmin";
  allow_platform_operator_company_scope = false;
  required_company_role = "";
  object = doc "a";
  relation = "reader";
  requires_eligibility = true;
}

evaluate-verdict_example :
    (evaluate (deps true) (request scope_company "ann")).reason
    ≡ verdict (gates (deps true) (request scope_company "ann"))
evaluate-verdict_example = evaluate-verdict (deps true) (request scope_company "ann")

blocked_member : verdict (gates (deps true) (request scope_company "ann")) ≡ company_access_blocked
blocked_member = refl

evaluate-IsShaped_example :
    IsShaped
      (first_evidence (request scope_company "bob"))
      (evaluate (deps false) (request scope_company "bob"))
evaluate-IsShaped_example = evaluate-IsShaped (deps false) (request scope_company "bob")

at_company : (request scope_company "ann").scope ≢ scope_global
at_company e = cc e

evaluate_batch-Agrees_example :
    AllAgree (deps false) (request scope_company "bob") ((doc "a", "reader") ∷ (doc "b", "") ∷ []) (
      evaluate_batch
        (deps false)
        (request scope_company "bob")
        ((doc "a", "reader") ∷ (doc "b", "") ∷ []))
evaluate_batch-Agrees_example =
    evaluate_batch-Agrees (deps false) (request scope_company "bob") at_company
      ((doc "a", "reader") ∷ (doc "b", "") ∷ [])

admitted : (evaluate (deps false) (prefix_of (request scope_global "bob"))).reason ≡ allowed_reason
unfolding evaluate evaluate_run subject_steps global_step
admitted = refl

evaluate_batch-global_example :
    ((evaluate (deps false) (item_request (request scope_global "bob") (doc "a", "reader"))).reason
      ≡ allowed_reason)
    × (map
          (λ r. r.1.reason)
          (evaluate_batch (deps false) (request scope_global "bob") ((doc "a", "reader") ∷ []))
        ≡ engine_denied ∷ [])
evaluate_batch-global_example =
    evaluate_batch-global (deps false) (request scope_global "bob") (doc "a") "reader" refl admitted
      refl refl
