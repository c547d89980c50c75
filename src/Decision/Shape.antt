-- ===== src/Decision/Shape.antt =====
-- The verdict, dependency, step and evidence of decisions of internal/authz/decision/evaluate.go.
use kiban.Shared.{
  String, Bool, true, false, ◌&&◌, Option, none, some, List, [], ◌∷◌, ◌++◌, ◌≡◌, ◌↔◌, refl, ◌∙◌,
  arith, if◌then◌else◌, ◌==◌, string_eq, Bool-cases, inl, inr,
}
use kiban.Decision.Types.{
  Reason, allowed_reason, dependency_unavailable, Evidence, Decision, Scope, scope_global,
  scope_company, scope_other, company_inactive, engine_denied, deny, EligibilityOutcome,
  eligibility_allow, eligibility_denial, eligibility_error, eligibility_other, ObjectRef, Request,
  Deps, allow,
}
use kiban.Decision.Evaluate.{
  Run, stop, next, ◌>>=◌, ask, guard, eligibility_gate, subject_steps, global_step, operator_step,
  membership_step, company_role_step, company_step, scope_step, module_step, binding_step,
  engine_answer, relation_check, relation_step, eligibility, eligibility_step, evaluate_run,
  evaluate, decided, first_evidence,
}

-- `xs` is a prefix of `ys`.
abbrev pub Starts : List Evidence → List Evidence → Type 0
Starts [] ys = Unit
Starts (x ∷ xs) [] = ⊥
Starts (x ∷ xs) (y ∷ ys) = (x ≡ y) × Starts xs ys

Starts-refl : (xs : List Evidence) → Starts xs xs
Starts-refl [] = tt
Starts-refl (x ∷ xs) = (refl, Starts-refl xs)

Starts-append : (xs ys : List Evidence) → Starts xs (xs ++ ys)
Starts-append [] ys = tt
Starts-append (x ∷ xs) ys = (refl, Starts-append xs ys)

Starts-trans : (xs ys zs : List Evidence) → Starts xs ys → Starts ys zs → Starts xs zs
Starts-trans [] ys zs h k = tt
Starts-trans (x ∷ xs) [] zs h k = absurd h
Starts-trans (x ∷ xs) (y ∷ ys) [] h k = k
Starts-trans (x ∷ xs) (y ∷ ys) (z ∷ zs) h k = (h.0 ∙ k.0, Starts-trans xs ys zs h.1 k.1)

ruleset shape_rules = (arith, Starts-append, Starts-trans, Starts-refl)

-- The fields of a decision agree.
pub record IsConsistent (x : Decision) : Type 0 where
  pub verdict_agrees : (x.allowed ≡ true) ↔ (x.reason ≡ allowed_reason)
  pub dependency_agrees : (x.reason ≡ dependency_unavailable) ↔ ((x.dependency == "") ≡ false)
  pub step_agrees : (x.reason ≡ dependency_unavailable) ↔ ((x.step == "") ≡ false)

abbrev pub IsShaped : List Evidence → Decision → Type 0
IsShaped ev x = IsConsistent x × Starts ev x.evidence

-- A step from the evidence `ev`: it stops with a decision of this shape, or only adds evidence.
abbrev Adds : List Evidence → Run (List Evidence) → Type 0
Adds ev (stop x) = IsShaped ev x
Adds ev (next ev2) = Starts ev ev2

-- What adds to more evidence adds to less.
widen : (e e2 : List Evidence) (r : Run (List Evidence)) → Starts e e2 → Adds e2 r → Adds e r
widen e e2 (stop x) h (c, g) = (c, Starts-trans e e2 x.evidence h g)
widen e e2 (next e3) h g = Starts-trans e e2 e3 h g

Adds-bind :
    (ev : List Evidence) (m : Run (List Evidence)) (f : List Evidence → Run (List Evidence))
    → Adds ev m
    → ((ev2 : List Evidence) → Adds ev2 (f ev2))
    → Adds ev (m >>= f)
Adds-bind ev (stop x) f h k = h
Adds-bind ev (next ev2) f h k = widen ev ev2 (f ev2) h (k ev2)

ask-Adds :
    {A : Type 0} (ev : List Evidence) (o : Option A) (dependency step : String)
    (f : A → Run (List Evidence))
    → (dependency == "") ≡ false
    → (step == "") ≡ false
    → ((a : A) → Adds ev (f a))
    → Adds ev (ask o dependency step ev >>= f)
ask-Adds ev none dependency step f p q k = grind (shape_rules, p, q)
ask-Adds ev (some a) dependency step f p q k = k a

abbrev is_denial : Reason → Bool
is_denial allowed_reason = false
is_denial dependency_unavailable = false
is_denial _ = true

guard-Adds :
    (ev kv : List Evidence) (b : Bool) (r : Reason) (rest : Run (List Evidence))
    → is_denial r ≡ true
    → Adds ev rest
    → Adds ev (guard b r ev kv >>= λ _. rest)
guard-Adds ev kv true r rest h k = k
guard-Adds ev kv false r rest h k = (denial r h, Starts-append ev kv)
  where
    denial : (q : Reason) → is_denial q ≡ true → IsConsistent (deny q ev kv)
    denial q e = ground arith

module _ (d : Deps) (req : Request) (ev : List Evidence) where
  subject_steps-Adds : Adds ev (subject_steps d req ev)
  unfolding subject_steps
  subject_steps-Adds = grind shape_rules

  global_step-Adds : Adds ev (global_step d req ev)
  unfolding global_step
  global_step-Adds = grind shape_rules

  membership_step-Adds : (b : Bool) → Adds ev (membership_step d req b ev)
  unfolding membership_step
  membership_step-Adds b = grind shape_rules

  company_role_step-Adds : (b : Bool) → Adds ev (company_role_step d req b ev)
  unfolding company_role_step
  company_role_step-Adds b = grind shape_rules

  module_step-Adds : Adds ev (module_step d req ev)
  unfolding module_step
  module_step-Adds = grind shape_rules

  binding_step-Adds : (obj : ObjectRef) → Adds ev (binding_step d req obj ev)
  unfolding binding_step
  binding_step-Adds obj = grind shape_rules

  eligibility_step-Adds : Adds ev (eligibility_step d req ev)
  unfolding eligibility_step eligibility
  eligibility_step-Adds = elim (Bool-cases req.requires_eligibility) [
    | inl r ↦ rw r (
        ask-Adds ev d.eligibility "module-eligibility" "business_eligibility" _ refl refl
          λ callback. ask-Adds ev _ "module-eligibility" "business_eligibility" _ refl refl last)
    | inr r ↦ rw r (Starts-refl ev)
  ]
    where
      last : (o : EligibilityOutcome) → Adds ev (eligibility_gate o ev)
      last eligibility_allow = Starts-append ev _
      last eligibility_denial = grind shape_rules
      last eligibility_error = grind shape_rules
      last eligibility_other = Starts-append ev _

module _ (d : Deps) (req : Request) where
  relation_step-Adds :
      (obj : ObjectRef) (rel : String) (ev : List Evidence)
      → Adds ev (relation_step d req obj rel ev)
  unfolding relation_step relation_check
  relation_step-Adds obj rel ev = elim (Bool-cases (rel == "")) [
    | inl e ↦ rw e (Starts-refl ev)
    | inr e ↦ rw e (
        Adds-bind ev (binding_step d req obj ev) _ (binding_step-Adds d req ev obj) λ ev2.
          ask-Adds ev2 (engine_answer d req obj rel) "engine" "relation_check" _ refl refl
            λ allowed. guard-Adds ev2 _ allowed engine_denied _ refl (Starts-append ev2 _))
  ]

  operator_step-Adds :
      (ev : List Evidence) (f : Bool → List Evidence → Run (List Evidence))
      → ((b : Bool) (ev2 : List Evidence) → Adds ev2 (f b ev2))
      → Adds ev (operator_step d req ev >>= λ (b, ev2). f b ev2)
  unfolding operator_step
  operator_step-Adds ev f k = elim (Bool-cases req.allow_platform_operator_company_scope) [
    | inl a ↦ rw a (asked (d.platform_role req.subject_id req.required_platform_role))
    | inr a ↦ rw a (k false ev)
  ]
    where
      asked :
          (o : Option Bool)
          → Adds ev (
              (ask o "engine" "platform_operator_exception" ev >>= λ has.
              next (has, if has then ev ++ ("platformOperatorException", "true") ∷ [] else ev))
              >>= λ (b, ev2). f b ev2)
      asked none = grind shape_rules
      asked (some true) = widen ev _ _ (Starts-append ev _) (k true _)
      asked (some false) = k false ev

  company_step-Adds : (ev : List Evidence) → Adds ev (company_step d req ev)
  unfolding company_step
  company_step-Adds ev =
      ask-Adds ev (d.company req.company_id) "org" "company_state" _ refl refl λ cs.
        guard-Adds ev _ (cs.exists && cs.active) company_inactive _ refl (
          widen ev _ _ (Starts-append ev _) (
            operator_step-Adds _
              (λ b ev2. membership_step d req b ev2 >>= company_role_step d req b)
              λ b ev2.
                Adds-bind ev2 (membership_step d req b ev2) _ (membership_step-Adds d req ev2 b)
                  λ ev3. company_role_step-Adds d req ev3 b))

  scope_step-Adds : (sc : Scope) (ev : List Evidence) → Adds ev (scope_step d sc req ev)
  scope_step-Adds scope_global ev = global_step-Adds d req ev
  scope_step-Adds scope_company ev = company_step-Adds ev
  scope_step-Adds scope_other ev = Starts-refl ev

  -- The whole body behind its final allow.
  final-IsShaped :
      (ev kv : List Evidence) (m : Run (List Evidence))
      → Adds ev m
      → IsShaped ev (decided (m >>= λ ev2. next (allow ev2 kv)))
  final-IsShaped ev kv (stop x) h = h
  final-IsShaped ev kv (next ev2) h = (ground arith, Starts-trans ev ev2 _ h (Starts-append ev2 kv))

before-IsShaped :
    (ev : List Evidence) (m : Run (List Evidence)) (f : List Evidence → Run Decision)
    → Adds ev m
    → ((ev2 : List Evidence) → IsShaped ev2 (decided (f ev2)))
    → IsShaped ev (decided (m >>= f))
before-IsShaped ev (stop x) f h k = h
before-IsShaped ev (next ev2) f h k = ((k ev2).0, Starts-trans ev ev2 _ h (k ev2).1)

-- Every decision of Evaluate has a verdict that agrees with its reason, names a dependency and a
-- step exactly when it is uncertain, and its evidence begins with the feature and the subject
-- asked about.
pub evaluate-IsShaped : (d : Deps) (req : Request) → IsShaped (first_evidence req) (evaluate d req)
unfolding evaluate evaluate_run
evaluate-IsShaped d req =
    before-IsShaped (first_evidence req) (subject_steps d req (first_evidence req)) _
      (subject_steps-Adds d req _)
      λ ev.
        before-IsShaped ev (scope_step d req.scope req ev) _ (scope_step-Adds d req req.scope ev)
          λ ev2. before-IsShaped ev2 (module_step d req ev2) _ (module_step-Adds d req ev2) λ ev3.
            before-IsShaped ev3 _ _ (relation_step-Adds d req req.object req.relation ev3) λ ev4.
              final-IsShaped d req ev4 _ (eligibility_step d req ev4)
                (eligibility_step-Adds d req ev4)
