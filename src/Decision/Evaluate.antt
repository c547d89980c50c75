-- ===== src/Decision/Evaluate.antt =====
-- internal/authz/decision/evaluate.go: `Evaluate`, `EvaluateBatch` and their steps.
use kiban.Shared.{
  ℕ, String, Bool, true, false, not, ◌&&◌, Option, none, some, List, [], ◌∷◌, ◌++◌, map,
  if◌then◌else◌, ◌==◌, string_eq, nat_eq,
}
use kiban.Decision.Types.{
  Reason, allowed_reason, auth_user_not_found, keycloak_disabled, user_lifecycle_disabled,
  company_inactive, company_membership_required, company_access_blocked, module_disabled,
  platform_role_required, company_role_required, engine_denied, business_eligibility_denied,
  Evidence, Decision, deny, unavailable, allow, KcState, kc_false, kc_unknown, EligibilityOutcome,
  eligibility_allow, eligibility_denial, eligibility_error, eligibility_other, Scope, scope_global,
  scope_company, scope_other, ObjectRef, Request, Deps, foundation_module_key, module_object_id,
  object_label,
}

-- A part of the decision: it returns at once, or goes on with a value.
pub data Run {ℓ} (A : Type ℓ) : Type ℓ where
  stop : Decision → Run A
  next : A → Run A

infixl 5 ◌>>=◌ ◌>>◌
abbrev pub ◌>>=◌ {ℓ κ} : {A : Type ℓ} {B : Type κ} → Run A → (A → Run B) → Run B
stop d >>= f = stop d
next a >>= f = f a

abbrev pub ◌>>◌ {ℓ κ} : {A : Type ℓ} {B : Type κ} → Run A → Run B → Run B
m >> k = m >>= λ _. k

-- `if err != nil { return unavailable(…) }`
abbrev pub ask {ℓ} : {A : Type ℓ} → Option A → String → String → List Evidence → Run A
ask none dependency step ev = stop (unavailable dependency step ev)
ask (some a) dependency step ev = next a

-- `if !ok { return deny(…) }`
abbrev pub guard : Bool → Reason → List Evidence → List Evidence → Run (Unit {0})
guard true reason ev kv = next tt
guard false reason ev kv = stop (deny reason ev kv)

abbrev pub keycloak_gate : KcState → List Evidence → Run (Unit {0})
keycloak_gate kc_unknown ev = stop (unavailable "keycloak" "keycloak_enabled" ev)
keycloak_gate kc_false ev = stop (deny keycloak_disabled ev (("kcEnabled", "false") ∷ []))
keycloak_gate _ ev = next tt

-- `d.deps.Model != nil && d.deps.Model.Defines(typ, rel)`
abbrev pub model_defines : Option (String → String → Bool) → String → String → Bool
model_defines none typ rel = false
model_defines (some defines) typ rel = defines typ rel

abbrev pub is_company_scope : Scope → Bool
is_company_scope scope_company = true
is_company_scope _ = false

-- `if timeout <= 0 { timeout = 2 * time.Second }`
abbrev pub effective_timeout : ℕ → ℕ
effective_timeout t = if t == 0 then 2_000_000_000 else t

abbrev pub eligibility_gate : EligibilityOutcome → List Evidence → Run (List Evidence)
eligibility_gate eligibility_denial ev =
    stop (deny business_eligibility_denied ev (("eligible", "false") ∷ []))
eligibility_gate eligibility_error ev =
    stop (unavailable "module-eligibility" "business_eligibility" ev)
eligibility_gate eligibility_allow ev = next (ev ++ ("eligible", "true") ∷ [])
eligibility_gate eligibility_other ev = next (ev ++ ("eligible", "true") ∷ [])

abbrev pub first_evidence : Request → List Evidence
first_evidence req = ("featureKey", req.feature_key) ∷ ("subjectId", req.subject_id) ∷ []

abbrev pub decided : Run Decision → Decision
decided (stop x) = x
decided (next x) = x

-- `reason != ReasonAllowed`
abbrev pub is_allowed : Reason → Bool
is_allowed allowed_reason = true
is_allowed _ = false

-- `BatchItem`: an object and a relation
abbrev pub BatchItem : Type 0
BatchItem = ObjectRef × String

abbrev pub prefix_of : Request → Request
prefix_of base = record base { relation = ""; requires_eligibility = false }

module _ (d : Deps) where
  -- Steps 1 to 3
  unfoldable pub subject_steps : Request → List Evidence → Run (List Evidence)
  subject_steps req ev = do
    subj ← ask (d.subject req.subject_id) "identity" "subject_lookup" ev
    guard subj.found auth_user_not_found ev (("subjectFound", "false") ∷ [])
    kc ← ask (d.keycloak req.subject_id) "keycloak" "keycloak_enabled" ev
    keycloak_gate kc ev
    let ev2 = ev ++ ("kcEnabled", "true") ∷ []
    guard subj.lifecycle_active user_lifecycle_disabled ev2 (("lifecycleActive", "false") ∷ [])
    next (ev2 ++ ("lifecycleActive", "true") ∷ [])

  -- Step 4: the whole rest of a decision at global scope
  unfoldable pub global_step : Request → List Evidence → Run (List Evidence)
  global_step req ev = do
    has ←
        ask (d.platform_role req.subject_id req.required_platform_role) "engine" "platform_role" ev
    guard has platform_role_required ev (("requiredPlatformRole", req.required_platform_role) ∷ [])
    stop (allow ev (("scope", "global") ∷ ("platformRole", req.required_platform_role) ∷ []))

  -- The operator exception of step 5
  unfoldable pub operator_step : Request → List Evidence → Run (Bool × List Evidence)
  operator_step req ev =
      if req.allow_platform_operator_company_scope
      then (do
        has ←
            ask (d.platform_role req.subject_id req.required_platform_role) "engine"
              "platform_operator_exception" ev
        next (has, if has then ev ++ ("platformOperatorException", "true") ∷ [] else ev))
      else next (false, ev)

  unfoldable pub membership_step : Request → Bool → List Evidence → Run (List Evidence)
  membership_step req operator ev = if operator then next ev else (do
    ms ← ask (d.membership req.company_id req.subject_id) "org" "company_membership" ev
    guard ms.is_member company_membership_required ev (("isMember", "false") ∷ [])
    guard (not ms.blocked) company_access_blocked ev (("accessBlocked", "true") ∷ [])
    next (ev ++ ("isMember", "true") ∷ []))

  unfoldable pub company_role_step : Request → Bool → List Evidence → Run (List Evidence)
  company_role_step req operator ev =
      if not (req.required_company_role == "") && not operator
      then (do
        has ←
            ask (d.company_role req.company_id req.subject_id req.required_company_role) "org"
              "company_role" ev
        guard has company_role_required ev (("requiredCompanyRole", req.required_company_role) ∷ [])
        next (ev ++ ("companyRole", req.required_company_role) ∷ []))
      else next ev

  -- Step 5
  unfoldable pub company_step : Request → List Evidence → Run (List Evidence)
  unfolding operator_step membership_step company_role_step
  company_step req ev = do
    cs ← ask (d.company req.company_id) "org" "company_state" ev
    guard (cs.exists && cs.active) company_inactive ev (("companyActive", "false") ∷ [])
    (operator, ev2) ← operator_step req (ev ++ ("companyActive", "true") ∷ [])
    ev3 ← membership_step req operator ev2
    company_role_step req operator ev3

  -- `switch req.Scope`
  abbrev pub scope_step : Scope → Request → List Evidence → Run (List Evidence)
  scope_step scope_global req ev = global_step req ev
  scope_step scope_company req ev = company_step req ev
  scope_step scope_other req ev = next ev

  -- Step 6
  unfoldable pub module_step : Request → List Evidence → Run (List Evidence)
  module_step req ev = do
    enabled ←
        (if req.module_key == foundation_module_key
          then next true
          else ask (d.module_state req.module_key) "registry" "module_state" ev)
    guard enabled module_disabled ev (("moduleEnabled", "false") ∷ [])
    next (ev ++ ("moduleEnabled", "true") ∷ [])

  -- the `switch` of `relationCheck`: whether the object is bound to the request's company
  unfoldable pub bound_to_company : Request → ObjectRef → Option Bool
  bound_to_company req obj =
      if obj.typ == "company"
      then some (obj.id == req.company_id)
      else if obj.typ == "company_module"
      then some (obj.id == module_object_id req.company_id req.module_key)
      else if model_defines d.model obj.typ "company"
      then d.engine.check obj.typ obj.id "company" "company" req.company_id
      else if model_defines d.model obj.typ "company_module"
      then d.engine.check obj.typ obj.id "company_module" "company_module"
          (module_object_id req.company_id req.module_key)
      else some false

  unfoldable pub binding_step : Request → ObjectRef → List Evidence → Run (List Evidence)
  binding_step req obj ev =
      if is_company_scope req.scope
      then (do
        bound ← ask (bound_to_company req obj) "engine" "relation_check" ev
        guard bound engine_denied ev
            (("objectCompany", "false") ∷ ("object", object_label obj) ∷ [])
        next (ev ++ ("objectCompany", "true") ∷ []))
      else next ev

  -- `Check`, or `CheckInCompany` at company scope where the engine has it
  abbrev pub checked_with :
      Option (String → String → String → String → String → String → Option Bool)
      → Bool
      → String
      → String
      → ObjectRef
      → String
      → Option Bool
  checked_with (some scoped) true subject company obj rel =
      scoped obj.typ obj.id rel "user" subject company
  checked_with _ _ subject company obj rel = d.engine.check obj.typ obj.id rel "user" subject

  unfoldable pub engine_answer : Request → ObjectRef → String → Option Bool
  engine_answer req obj rel =
      checked_with d.engine.check_in_company (is_company_scope req.scope) req.subject_id
        req.company_id obj rel

  -- `relationCheck`
  unfoldable pub relation_check : Request → ObjectRef → String → List Evidence → Run (List Evidence)
  unfolding binding_step
  relation_check req obj rel ev = do
    ev2 ← binding_step req obj ev
    allowed ← ask (engine_answer req obj rel) "engine" "relation_check" ev2
    guard allowed engine_denied ev2 (("relation", rel) ∷ ("object", object_label obj) ∷ [])
    next (ev2 ++ ("relation", rel) ∷ [])

  -- Step 7
  unfoldable pub relation_step : Request → ObjectRef → String → List Evidence → Run (List Evidence)
  relation_step req obj rel ev = if rel == "" then next ev else relation_check req obj rel ev

  -- `eligibility`
  unfoldable pub eligibility : Request → List Evidence → Run (List Evidence)
  eligibility req ev = do
    callback ← ask d.eligibility "module-eligibility" "business_eligibility" ev
    let run = callback (effective_timeout d.eligibility_timeout) req
    outcome ←
        ask (if run.timed_out then none else run.outcome) "module-eligibility"
          "business_eligibility" ev
    eligibility_gate outcome ev

  -- Step 8
  unfoldable pub eligibility_step : Request → List Evidence → Run (List Evidence)
  eligibility_step req ev = if req.requires_eligibility then eligibility req ev else next ev

  -- The body of `Evaluate`, with the scope that its `switch` reads.
  unfoldable pub evaluate_run : Request → Scope → Run Decision
  evaluate_run req scope = do
    ev ← subject_steps req (first_evidence req)
    ev2 ← scope_step scope req ev
    ev3 ← module_step req ev2
    ev4 ← relation_step req req.object req.relation ev3
    ev5 ← eligibility_step req ev4
    next (allow ev5 (("scope", "company") ∷ []))

  -- `Evaluate`
  unfoldable pub evaluate : Request → Decision
  evaluate req = decided (evaluate_run req req.scope)

  -- `evaluateSteps7And8`
  unfoldable pub evaluate_steps_7_and_8 : Request → ObjectRef → String → List Evidence → Decision
  evaluate_steps_7_and_8 base obj rel ev = decided (do
    ev2 ← relation_step base obj rel ev
    ev3 ← eligibility_step (record base { object = obj; relation = rel }) ev2
    next (allow ev3 []))

  -- `EvaluateBatch`
  unfoldable pub evaluate_batch : Request → List BatchItem → List (BatchItem × Decision)
  evaluate_batch base items =
      let p = evaluate (prefix_of base) in
      if is_allowed p.reason
      then map (λ it. (it, evaluate_steps_7_and_8 base it.0 it.1 p.evidence)) items
      else map (λ it. (it, p)) items
