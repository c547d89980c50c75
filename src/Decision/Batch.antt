-- ===== src/Decision/Batch.antt =====
-- `EvaluateBatch` of internal/authz/decision/evaluate.go against `Evaluate` on each item.
use kiban.Shared.{
  String, false, some, List, [], ◌∷◌, ◌++◌, map, ◌≡◌, ◌≢◌, refl, sym, ap, ◌∙◌, All, ◌==◌, string_eq,
  arith, inl, inr,
}
use mathlib.Core.List.{append_assoc}
use kiban.Decision.Types.{
  Reason, allowed_reason, engine_denied, Evidence, Decision, Scope, scope_global, scope_company,
  scope_other, ObjectRef, Request, Deps,
}
use kiban.Decision.Evaluate.{
  bound_to_company, engine_answer, evaluate, evaluate_batch, evaluate_steps_7_and_8, prefix_of,
  BatchItem, is_allowed,
}
use kiban.Decision.Gates.{
  verdict, prefix_gates, relation_gates, eligibility_gates, gates_at, identity_gates, module_gate,
}
use kiban.Decision.Gates.{company_gates}
use kiban.Decision.Gates.Verdict.{evaluate-verdict, tail-verdict, verdict-cases, IsHonest}

-- The request that asks `Evaluate` about one item of the batch.
abbrev pub item_request : Request → BatchItem → Request
item_request base (obj, rel) = record base { object = obj; relation = rel }

module _ (d : Deps) (base : Request) where
  gates-prefix :
      (sc : Scope) → sc ≢ scope_global → gates_at d (prefix_of base) sc ≡ prefix_gates d base sc
  gates-prefix scope_global h = absurd (h refl)
  gates-prefix scope_company h = refl
  gates-prefix scope_other h = refl

  -- The object is an argument of the relation gates, so the request may carry another.
  relation-item :
      (it : BatchItem)
      → relation_gates d (item_request base it) it.0 it.1 ≡ relation_gates d base it.0 it.1
  unfolding bound_to_company engine_answer
  relation-item it = refl

  gates-item :
      (sc : Scope) (it : BatchItem)
      → sc ≢ scope_global
      → gates_at d (item_request base it) sc
        ≡ prefix_gates d base sc
          ++ (relation_gates d base it.0 it.1 ++ eligibility_gates d (item_request base it))
  gates-item scope_global it h = absurd (h refl)
  gates-item scope_company it h = rw (← relation-item it) (
      ap (λ t. identity_gates d base ++ t)
        (sym (append_assoc (company_gates d base) (module_gate d base ∷ []) _)))
  gates-item scope_other it h = rw (← relation-item it)

  prefix-IsHonest : (sc : Scope) → All IsHonest (prefix_gates d base sc)
  prefix-IsHonest scope_global = ground arith
  prefix-IsHonest scope_company = ground arith
  prefix-IsHonest scope_other = ground arith

-- An item's decision has the reason that `Evaluate` gives on the item alone.
abbrev pub AgreesWithEvaluate : Deps → Request → BatchItem × Decision → Type 0
AgreesWithEvaluate d base (it, x) = x.reason ≡ (evaluate d (item_request base it)).reason

-- One result for each item, in the order of the items, that names the item and has its reason.
abbrev pub AllAgree : Deps → Request → List BatchItem → List (BatchItem × Decision) → Type 0
AllAgree d base [] [] = Unit
AllAgree d base (it ∷ items) (r ∷ results) =
    (r.0 ≡ it) × AgreesWithEvaluate d base r × AllAgree d base items results
AllAgree d base _ _ = ⊥

AllAgree-map :
    (d : Deps) (base : Request) (f : BatchItem → Decision) (items : List BatchItem)
    → ((it : BatchItem) → AgreesWithEvaluate d base (it, f it))
    → AllAgree d base items (map (λ it. (it, f it)) items)
AllAgree-map d base f [] h = tt
AllAgree-map d base f (it ∷ items) h = (refl, h it, AllAgree-map d base f items h)

module _ (d : Deps) (base : Request) (company : base.scope ≢ scope_global) where
  prefix_reason : (evaluate d (prefix_of base)).reason ≡ verdict (prefix_gates d base base.scope)
  prefix_reason =
      evaluate-verdict d (prefix_of base) ∙ ap verdict (gates-prefix d base base.scope company)

  item_reason :
      (it : BatchItem)
      → (evaluate d (item_request base it)).reason
        ≡ verdict (
            prefix_gates d base base.scope
            ++ (relation_gates d base it.0 it.1 ++ eligibility_gates d (item_request base it)))
  item_reason it =
      evaluate-verdict d (item_request base it)
      ∙ ap verdict (gates-item d base base.scope it company)

  tail_reason :
      (it : BatchItem) (ev : List Evidence)
      → (evaluate_steps_7_and_8 d base it.0 it.1 ev).reason
        ≡ verdict (relation_gates d base it.0 it.1 ++ eligibility_gates d (item_request base it))
  unfolding evaluate_steps_7_and_8
  tail_reason it ev = tail-verdict d (item_request base it) base it.0 it.1 ev []

  is_allowed-false : (r : Reason) → r ≢ allowed_reason → is_allowed r ≡ false
  is_allowed-false allowed_reason h = absurd (h refl)
  is_allowed-false _ h = refl

  -- Away from global scope a batch gives one result for each item, in their order, and each has
  -- the reason that Evaluate gives for the item alone, whatever the fact sources answer.
  pub evaluate_batch-Agrees :
      (items : List BatchItem) → AllAgree d base items (evaluate_batch d base items)
  unfolding evaluate_batch
  evaluate_batch-Agrees items =
      elim (verdict-cases (prefix_gates d base base.scope) (prefix-IsHonest d base base.scope)) [
        | inl (yes_all, k) ↦
            rw (ap is_allowed (prefix_reason ∙ yes_all)) (
              AllAgree-map d base _ items λ it. tail_reason it _ ∙ sym (k _) ∙ sym (item_reason it))
        | inr (refused, k) ↦
            rw (ap is_allowed prefix_reason ∙ is_allowed-false _ refused)
              (AllAgree-map d base _ items λ it. prefix_reason ∙ sym (k _) ∙ sym (item_reason it))
      ]

-- At global scope it is not: `Evaluate` answers by the platform role alone, and the batch goes on to
-- the relation of each item. Where the engine refuses the item the two answers differ.
module _ (d : Deps) (base : Request) (obj : ObjectRef) (rel : String)
    (global : base.scope ≡ scope_global)
    (admitted : (evaluate d (prefix_of base)).reason ≡ allowed_reason) (asked : (rel == "") ≡ false)
    (refused : d.engine.check obj.typ obj.id rel "user" base.subject_id ≡ some false) where
  alone : (evaluate d (item_request base (obj, rel))).reason ≡ allowed_reason
  alone =
      evaluate-verdict d (item_request base (obj, rel))
      ∙ ap (λ sc. verdict (gates_at d (item_request base (obj, rel)) sc)) global
      ∙ sym (ap (λ sc. verdict (gates_at d (prefix_of base) sc)) global)
      ∙ sym (evaluate-verdict d (prefix_of base))
      ∙ admitted

  refused_gates :
      verdict (relation_gates d base obj rel ++ eligibility_gates d (item_request base (obj, rel)))
      ≡ engine_denied
  unfolding engine_answer
  refused_gates = rw asked (ground arith)

  -- At global scope, where the request without a relation is allowed and the engine refuses the
  -- relation that an item names, Evaluate allows the item and the batch denies it.
  pub evaluate_batch-global :
      ((evaluate d (item_request base (obj, rel))).reason ≡ allowed_reason)
      × (map (λ r. r.1.reason) (evaluate_batch d base ((obj, rel) ∷ [])) ≡ engine_denied ∷ [])
  unfolding evaluate_batch evaluate_steps_7_and_8
  evaluate_batch-global = (
    alone,
    rw (ap is_allowed admitted) (
        ap (λ r. r ∷ [])
          (tail-verdict d (item_request base (obj, rel)) base obj rel _ [] ∙ refused_gates)),
  )
