-- ===== src/Decision/Gates/Verdict.antt =====
-- `Evaluate` of internal/authz/decision/evaluate.go against its list of gates.
use kiban.Shared.{
  String, Bool, true, false, Option, none, some, List, [], ◌∷◌, ◌++◌, ◌≡◌, refl, sym, ◌∙◌,
  string_eq, nat_eq, arith, inl, inr, ◌⊎◌, ◌≢◌, All,
}
use kiban.Decision.Types.{
  Reason, allowed_reason, platform_role_required, dependency_unavailable, Evidence, Decision, allow,
  Scope, scope_global, scope_company, scope_other, ObjectRef, Request, Deps,
}
use kiban.Decision.Evaluate.{
  Run, stop, next, ◌>>=◌, subject_steps, global_step, company_step, module_step, relation_check,
  relation_step, eligibility, eligibility_step, evaluate_run, evaluate, decided,
}
use kiban.Decision.Gates.{
  Gate, pass, denies, broken, gate, verdict, identity_gates, company_gates, module_gate,
  relation_gates, eligibility_gates, gates_at, gates, has_platform_role,
}

abbrev failure : List Gate → Option Reason
failure [] = none
failure (pass ∷ gs) = failure gs
failure (denies r ∷ gs) = some r
failure (broken ∷ gs) = some dependency_unavailable

abbrev reason_of {ℓ} : {A : Type ℓ} → Run A → Option Reason
reason_of (stop x) = some x.reason
reason_of (next a) = none

failure-append_some :
    (gs hs : List Gate) (r : Reason) → failure gs ≡ some r → failure (gs ++ hs) ≡ some r
failure-append_some [] hs r h = cc
failure-append_some (pass ∷ gs) hs r h = failure-append_some gs hs r h
failure-append_some (denies q ∷ gs) hs r h = h
failure-append_some (broken ∷ gs) hs r h = h

failure-append_none : (gs hs : List Gate) → failure gs ≡ none → failure (gs ++ hs) ≡ failure hs
failure-append_none [] hs h = refl
failure-append_none (pass ∷ gs) hs h = failure-append_none gs hs h
failure-append_none (denies q ∷ gs) hs h = cc
failure-append_none (broken ∷ gs) hs h = cc

verdict-of_some : (gs : List Gate) (r : Reason) → failure gs ≡ some r → verdict gs ≡ r
verdict-of_some [] r h = cc
verdict-of_some (pass ∷ gs) r h = verdict-of_some gs r h
verdict-of_some (denies q ∷ gs) r h = cc
verdict-of_some (broken ∷ gs) r h = cc

verdict-of_none : (gs : List Gate) → failure gs ≡ none → verdict gs ≡ allowed_reason
verdict-of_none [] h = refl
verdict-of_none (pass ∷ gs) h = verdict-of_none gs h
verdict-of_none (denies q ∷ gs) h = cc
verdict-of_none (broken ∷ gs) h = cc

pub verdict-append : (gs hs : List Gate) → failure gs ≡ none → verdict (gs ++ hs) ≡ verdict hs
verdict-append [] hs h = refl
verdict-append (pass ∷ gs) hs h = verdict-append gs hs h
verdict-append (denies q ∷ gs) hs h = cc
verdict-append (broken ∷ gs) hs h = cc

-- No gate denies by the reason of an allow.
abbrev pub IsHonest : Gate → Type 0
IsHonest pass = Unit {0}
IsHonest (denies r) = r ≢ allowed_reason
IsHonest broken = Unit {0}

-- Honest gates that do not all pass refuse, whatever gates follow.
pub verdict-cases :
    (gs : List Gate)
    → All IsHonest gs
    → ((verdict gs ≡ allowed_reason) × ((hs : List Gate) → verdict (gs ++ hs) ≡ verdict hs))
      ⊎ ((verdict gs ≢ allowed_reason) × ((hs : List Gate) → verdict (gs ++ hs) ≡ verdict gs))
verdict-cases [] h = inl (refl, λ hs. refl)
verdict-cases (pass ∷ gs) h = verdict-cases gs h.1
verdict-cases (denies r ∷ gs) h = inr (h.0, λ hs. refl)
verdict-cases (broken ∷ gs) h = inr ((λ e. cc), λ hs. refl)

pub gate-IsHonest : (o : Option Bool) (r : Reason) → r ≢ allowed_reason → IsHonest (gate o r)
gate-IsHonest none r h = tt
gate-IsHonest (some true) r h = tt
gate-IsHonest (some false) r h = h

-- The gates of a step, then those of what follows.
bind-verdict :
    {A : Type 0} (m : Run A) (f : A → Run Decision) (gs hs : List Gate)
    → reason_of m ≡ failure gs
    → ((a : A) → (decided (f a)).reason ≡ verdict hs)
    → (decided (m >>= f)).reason ≡ verdict (gs ++ hs)
bind-verdict (stop x) f gs hs h k =
    sym (verdict-of_some (gs ++ hs) x.reason (failure-append_some gs hs x.reason (sym h)))
bind-verdict (next a) f gs hs h k = k a ∙ sym (verdict-append gs hs (sym h))

module _ (d : Deps) (req : Request) (ev : List Evidence) where
  subject_steps-failure : reason_of (subject_steps d req ev) ≡ failure (identity_gates d req)
  unfolding subject_steps
  subject_steps-failure = ground arith

  company_step-failure : reason_of (company_step d req ev) ≡ failure (company_gates d req)
  unfolding company_step
  company_step-failure = ground arith

  module_step-failure : reason_of (module_step d req ev) ≡ failure (module_gate d req ∷ [])
  unfolding module_step
  module_step-failure = ground arith

  relation_step-failure :
      (obj : ObjectRef) (rel : String)
      → reason_of (relation_step d req obj rel ev) ≡ failure (relation_gates d req obj rel)
  unfolding relation_step relation_check
  relation_step-failure obj rel = ground arith

  eligibility_step-failure :
      reason_of (eligibility_step d req ev) ≡ failure (eligibility_gates d req)
  unfolding eligibility_step eligibility
  eligibility_step-failure = ground arith

-- Steps 7 and 8 for one object, then the final allow.
pub tail-verdict :
    (d : Deps) (req base : Request) (obj : ObjectRef) (rel : String) (ev kv : List Evidence)
    → (decided (
        relation_step d base obj rel ev >>= λ ev2.
        eligibility_step d req ev2 >>= λ ev3. next (allow ev3 kv))).reason
      ≡ verdict (relation_gates d base obj rel ++ eligibility_gates d req)
tail-verdict d req base obj rel ev kv =
    bind-verdict (relation_step d base obj rel ev) _ (relation_gates d base obj rel)
      (eligibility_gates d req) (relation_step-failure d base ev obj rel)
      λ ev2.
        bind-last (eligibility_step d req ev2) (eligibility_gates d req)
          (eligibility_step-failure d req ev2)
  where
    bind-last :
        (m : Run (List Evidence)) (gs : List Gate)
        → reason_of m ≡ failure gs
        → (decided (m >>= λ ev3. next (allow ev3 kv))).reason ≡ verdict gs
    bind-last (stop x) gs h = sym (verdict-of_some gs x.reason (sym h))
    bind-last (next a) gs h = sym (verdict-of_none gs (sym h))

-- Steps 6 to 8.
rest-verdict :
    (d : Deps) (req : Request) (ev : List Evidence)
    → (decided (
        module_step d req ev >>= λ ev3. relation_step d req req.object req.relation ev3 >>= λ ev4.
        eligibility_step d req ev4 >>= λ ev5. next (allow ev5 (("scope", "company") ∷ [])))).reason
      ≡ verdict (
          module_gate d req
          ∷ (relation_gates d req req.object req.relation ++ eligibility_gates d req))
rest-verdict d req ev =
    bind-verdict (module_step d req ev) _ (module_gate d req ∷ []) _ (module_step-failure d req ev)
      λ ev3. tail-verdict d req req req.object req.relation ev3 _

global_step-verdict :
    (d : Deps) (req : Request) (ev : List Evidence) (f : List Evidence → Run Decision)
    → (decided (global_step d req ev >>= f)).reason
      ≡ verdict (gate (has_platform_role d req) platform_role_required ∷ [])
unfolding global_step
global_step-verdict d req ev f = ground arith

evaluate_run-verdict :
    (d : Deps) (req : Request) (sc : Scope)
    → (decided (evaluate_run d req sc)).reason ≡ verdict (gates_at d req sc)
unfolding evaluate_run
evaluate_run-verdict d req scope_global =
    bind-verdict (subject_steps d req _) _ (identity_gates d req) _ (subject_steps-failure d req _)
      λ ev. global_step-verdict d req ev _
evaluate_run-verdict d req scope_company =
    bind-verdict (subject_steps d req _) _ (identity_gates d req) _ (subject_steps-failure d req _)
      λ ev.
        bind-verdict (company_step d req ev) _ (company_gates d req) _
          (company_step-failure d req ev) (rest-verdict d req)
evaluate_run-verdict d req scope_other =
    bind-verdict (subject_steps d req _) _ (identity_gates d req) _ (subject_steps-failure d req _)
      (rest-verdict d req)

-- At every scope and over any answers of the fact sources, Evaluate returns the reason of the
-- first gate that does not pass, in the fixed order of the gates, and the reason of an allow when
-- all pass.
pub evaluate-verdict : (d : Deps) (req : Request) → (evaluate d req).reason ≡ verdict (gates d req)
unfolding evaluate
evaluate-verdict d req = evaluate_run-verdict d req req.scope
