-- ===== src/Http/Decided.antt =====
-- What the replies of `handleCan` and `handleBatchCan` of internal/authz/http.go rest on.
use kiban.Shared.{String, Option, none, some, List, ◌∷◌, ◌++◌, string_eq, ◌≡◌, sym, ◌∙◌, ap}
use kiban.Fragment.Load.{Loaded}
use kiban.Decision.Types.{Decision, Request, Deps}
use kiban.Decision.Gates.{Gate, module_gate, relation_gates, eligibility_gates}
use kiban.Http.Replies.{Step, go_on, step-go_on}
use kiban.Http.Can.{
  CanRequest, CanService, prepare, validate_can_request, feature_declared, with_module, built,
  to_decision_request,
}

abbrev rest_gates : Deps → Request → List Gate
rest_gates d req =
    module_gate d req ∷ (relation_gates d req req.object req.relation ++ eligibility_gates d req)

go_on-inj : {A : Type 0} {a b : A} → go_on a ≡ go_on b → a ≡ b
go_on-inj e = cc e

-- What the preparation of a request has checked.
pub record IsPrepared (svc : CanService) (subject : String) (req : CanRequest)
    (guards : Step (Unit {0})) (request : Request) (l : Loaded) : Type 0 where
  pub validated : validate_can_request subject req ≡ go_on tt
  pub declared : feature_declared svc (with_module req).module_key req.feature_key ≡ go_on tt
  pub guarded : guards ≡ go_on tt
  pub loaded_as : svc.effective ≡ some l
  pub request_is : request ≡ to_decision_request (with_module req) subject

pub prepare-IsPrepared :
    (svc : CanService) (subject : String) (req : CanRequest) (guards : Step (Unit {0}))
    (request : Request) (l : Loaded)
    → prepare svc subject req guards ≡ go_on (request, l)
    → IsPrepared svc subject req guards request l
unfolding prepare
prepare-IsPrepared svc subject req guards request l h =
    let (_, h1, h2) = step-go_on (validate_can_request subject req) _ h in
    let (_, h3, h4) =
      step-go_on (feature_declared svc (with_module req).module_key req.feature_key) _ h2 in
    let (_, h5, h6) = step-go_on guards _ h4 in
    let (found, h7, h8) = step-go_on (built svc.effective) _ h6 in
    record {
      validated = h1;
      declared = h3;
      guarded = h5;
      loaded_as = effective_of svc.effective l (h7 ∙ ap go_on (ap (λ p. p.1) (go_on-inj h8)));
      request_is = sym (ap (λ p. p.0) (go_on-inj h8));
    }
  where
    effective_of : (o : Option Loaded) (l : Loaded) → built o ≡ go_on l → o ≡ some l
    effective_of none l h = cc h
    effective_of (some k) l h = ap some (go_on-inj h)
