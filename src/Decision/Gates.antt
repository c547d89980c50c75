-- ===== src/Decision/Gates.antt =====
-- The effective-access decision of internal/authz/decision as an ordered list of gates, with no
-- evidence and no early return in it.
pub mod Verdict
use kiban.Shared.{
  ℕ, String, Bool, true, false, not, ◌&&◌, ◌||◌, Option, none, some, List, [], ◌∷◌, ◌++◌, ◌≡◌, refl,
  ap, ◌∙◌, if◌then◌else◌, ◌==◌, Eq, string_eq, nat_eq, Bool-cases, Option-cases, arith, inl, inr,
}
use kiban.Decision.Types.{
  Reason, allowed_reason, auth_user_not_found, keycloak_disabled, user_lifecycle_disabled,
  company_inactive, company_membership_required, company_access_blocked, module_disabled,
  platform_role_required, company_role_required, engine_denied, business_eligibility_denied,
  dependency_unavailable, Evidence, Decision, deny, unavailable, allow, SubjectResult, KcState,
  kc_true, kc_false, kc_unknown, kc_other, CompanyState, MembershipState, EligibilityOutcome,
  eligibility_allow, eligibility_denial, eligibility_error, eligibility_other, Scope, scope_global,
  scope_company, scope_other, ObjectRef, Request, EngineChecker, EligibilityRun, Deps,
  foundation_module_key, module_object_id, object_label,
}
use kiban.Decision.Evaluate.{
  Run, stop, next, ◌>>=◌, ◌>>◌, ask, guard, keycloak_gate, subject_steps, global_step,
  operator_step, membership_step, company_role_step, company_step, scope_step, module_step,
  bound_to_company, is_company_scope, binding_step, engine_answer, relation_check, relation_step,
  effective_timeout, eligibility_gate, eligibility, eligibility_step, evaluate,
  evaluate_steps_7_and_8, decided,
}

-- One gate: it passes, it denies for its reason, or its dependency does not answer.
pub data Gate : Type 0 where
  pass : Gate
  denies : Reason → Gate
  broken : Gate

-- A dependency's Boolean answer, and the reason for a no.
abbrev pub gate : Option Bool → Reason → Gate
gate none r = broken
gate (some true) r = pass
gate (some false) r = denies r

abbrev pub on_answer {ℓ} : {A : Type ℓ} → Option A → (A → Bool) → Reason → Gate
on_answer none f r = broken
on_answer (some a) f r = gate (some (f a)) r

-- The reason of the first gate that does not pass.
abbrev pub verdict : List Gate → Reason
verdict [] = allowed_reason
verdict (pass ∷ gs) = verdict gs
verdict (denies r ∷ gs) = r
verdict (broken ∷ gs) = dependency_unavailable

abbrev pub keycloak_answer : Option KcState → Gate
keycloak_answer none = broken
keycloak_answer (some kc_unknown) = broken
keycloak_answer (some kc_false) = denies keycloak_disabled
keycloak_answer (some _) = pass

abbrev pub eligibility_answer : Option EligibilityOutcome → Gate
eligibility_answer none = broken
eligibility_answer (some eligibility_allow) = pass
eligibility_answer (some eligibility_denial) = denies business_eligibility_denied
eligibility_answer (some eligibility_error) = broken
eligibility_answer (some eligibility_other) = pass

module _ (d : Deps) (req : Request) where
  abbrev pub identity_gates : List Gate
  identity_gates =
      on_answer (d.subject req.subject_id) (λ s. s.found) auth_user_not_found
      ∷ keycloak_answer (d.keycloak req.subject_id)
      ∷ on_answer (d.subject req.subject_id) (λ s. s.lifecycle_active) user_lifecycle_disabled
      ∷ []

  abbrev pub has_platform_role : Option Bool
  has_platform_role = d.platform_role req.subject_id req.required_platform_role

  -- Membership and company role, which a platform operator skips where the request allows it.
  abbrev pub member_gates : List Gate
  member_gates =
      on_answer (d.membership req.company_id req.subject_id) (λ m. m.is_member)
        company_membership_required
      ∷ on_answer (d.membership req.company_id req.subject_id) (λ m. not m.blocked)
          company_access_blocked
      ∷ (if req.required_company_role == ""
          then []
          else gate (d.company_role req.company_id req.subject_id req.required_company_role)
              company_role_required
            ∷ [])

  abbrev pub as_operator : Option Bool → List Gate
  as_operator none = broken ∷ []
  as_operator (some true) = []
  as_operator (some false) = member_gates

  abbrev pub company_gates : List Gate
  company_gates =
      on_answer (d.company req.company_id) (λ c. c.exists && c.active) company_inactive
      ∷ (if req.allow_platform_operator_company_scope
          then as_operator has_platform_role
          else member_gates)

  abbrev pub scope_gates : Scope → List Gate
  scope_gates scope_company = company_gates
  scope_gates _ = []

  abbrev pub module_gate : Gate
  module_gate =
      if req.module_key == foundation_module_key
      then pass
      else gate (d.module_state req.module_key) module_disabled

  abbrev pub relation_gates : ObjectRef → String → List Gate
  relation_gates obj rel =
      if rel == ""
      then []
      else (if is_company_scope req.scope
          then gate (bound_to_company d req obj) engine_denied
          else pass)
        ∷ gate (engine_answer d req obj rel) engine_denied
        ∷ []

  abbrev pub eligibility_gates : List Gate
  eligibility_gates =
      if req.requires_eligibility
      then (elim d.eligibility [
        | none ↦ broken
        | some callback ↦
            let run = callback (effective_timeout d.eligibility_timeout) req in
            if run.timed_out then broken else eligibility_answer run.outcome
      ])
        ∷ []
      else []

  abbrev pub prefix_gates : Scope → List Gate
  prefix_gates scope = identity_gates ++ (scope_gates scope ++ module_gate ∷ [])

  -- All gates of a request, in order. At global scope the platform role is the last one.
  abbrev pub gates_at : Scope → List Gate
  gates_at scope_global = identity_gates ++ gate has_platform_role platform_role_required ∷ []
  gates_at scope =
      identity_gates
      ++ (scope_gates scope
          ++ module_gate ∷ (relation_gates req.object req.relation ++ eligibility_gates))

  abbrev pub gates : List Gate
  gates = gates_at req.scope
