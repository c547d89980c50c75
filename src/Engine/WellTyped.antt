-- ===== src/Engine/WellTyped.antt =====
-- The evaluator of internal/authz/engine/eval.go over models that `LoadModel` of
-- internal/authz/engine/model.go accepts, and over tuples that fit them.
use mathlib.Core.List.Memᴰ
use kiban.Shared.{
  String, ◌≡◌, refl, ◌⊎◌, inl, inr, false, Option, none, some, List, [], ◌∷◌, ◌++◌, Memᴰ,
  Option-cases, arith, lookup, string_eq, mem-lookup,
}
use kiban.Engine.Model.{
  Expr, Exprs, Model, ModelError, this, computed_userset, tuple_to_userset, union, intersection,
  nil, cons, definition, first_error, first_error_of, for_each_relation, validate_self_refs,
  validate_self_refs_all, load_model, require,
}
use kiban.Engine.Eval.{
  Node, TupleRow, Env, CheckError, depth_exceeded, query_failed, failed, is_object, userset_of,
  check_in_company, start, enough_fuel,
}
use kiban.Engine.Grants.{expr_of}
use kiban.Engine.Errors.{
  CallsIn, AllCallsIn, of_this, of_computed, of_ttu, of_union, of_intersection, calls_nil,
  calls_cons, TargetsIn, check-Errs,
}

first_error-none : (a b : Option ModelError) → first_error a b ≡ none → (a ≡ none) × (b ≡ none)
first_error-none none b h = (refl, h)
first_error-none (some x) b h = cc

pub first_error_of-none {ℓ} :
    {A : Type ℓ} (f : A → Option ModelError) {a : A} {xs : List A}
    → first_error_of f xs ≡ none
    → Memᴰ a xs
    → f a ≡ none
first_error_of-none f {xs = x ∷ xs} h (Memᴰ.head e) = rw e (first_error-none (f x) _ h).0
first_error_of-none f {xs = x ∷ xs} h (Memᴰ.tail m) =
    first_error_of-none f (first_error-none (f x) _ h).1 m
first_error_of-none f {xs = []} h m = elim m [ ]

-- The node's type has its relation.
abbrev pub IsDefined : Env → Node → Type 0
IsDefined en n = (e : Expr) × (expr_of en n ≡ some e)

unfoldable mutual
  -- The tuple-to-usersets of an expression.
  pub links : Expr → List (String × String)
  links this = []
  links (computed_userset r) = []
  links (tuple_to_userset t c) = (t, c) ∷ []
  links (union es) = links_all es
  links (intersection es) = links_all es

  pub links_all : Exprs → List (String × String)
  links_all nil = []
  links_all (cons e es) = links e ++ links_all es

-- Every stored userset names a relation of its type, and every object that a tupleset points at has
-- the relation that is asked of it.
pub record TypedTuples (en : Env) : Type 0 where
  pub usersets :
      (n : Node) (rs : List TupleRow)
      → en.rows n ≡ some rs
      → (r : TupleRow) → Memᴰ r rs
      → is_object r ≡ false
      → IsDefined en (userset_of r)
  pub objects :
      (n : Node) (e : Expr)
      → expr_of en n ≡ some e
      → (t c : String) → Memᴰ (t, c) (links e)
      → TargetsIn en (IsDefined en) (record n { rel = t }) c

for_each_relation-none :
    (f : String → String → Expr → Option ModelError) (m : Model) (typ rel : String) {e : Expr}
    → for_each_relation f m ≡ none
    → definition m typ rel ≡ some e
    → f typ rel e ≡ none
unfolding definition
for_each_relation-none f m typ rel h d = elim (Option-cases (lookup typ m)) [
  | inl t ↦ cc (rw (t, definition) at d)
  | inr (rels, t) ↦
      first_error_of-none (λ (r, e). f typ r e) (first_error_of-none _ h (mem-lookup typ m t))
        (mem-lookup rel rels (rw (t, definition) at d))
]

required : (o : Option Expr) (x : ModelError) → require o x ≡ none → (e : Expr) × (o ≡ some e)
required none x h = cc
required (some e) x h = (e, refl)

load_model-none :
    (m : Model) (typ rel : String) {e : Expr}
    → load_model m ≡ none
    → definition m typ rel ≡ some e
    → validate_self_refs m typ rel e ≡ none
unfolding load_model
load_model-none [] typ rel h d = cc
load_model-none (t ∷ m) typ rel h d =
    for_each_relation-none (validate_self_refs (t ∷ m)) (t ∷ m) typ rel h d

module _ (en : Env) (typed : TypedTuples en) where
  mutual
    unfolding validate_self_refs links

    calls-IsDefined :
        (n : Node) (rel : String) (e : Expr)
        → validate_self_refs en.model n.obj_type rel e ≡ none
        → ((t c : String)
            → Memᴰ (t, c) (links e)
            → TargetsIn en (IsDefined en) (record n { rel = t }) c)
        → CallsIn en (IsDefined en) n e
    calls-IsDefined n rel this h k = of_this (typed.usersets n)
    calls-IsDefined n rel (computed_userset r) h k = of_computed (required _ _ h)
    calls-IsDefined n rel (tuple_to_userset t c) h k = of_ttu (k t c (Memᴰ.head refl))
    calls-IsDefined n rel (union es) h k = of_union (all_calls-IsDefined n rel es h k)
    calls-IsDefined n rel (intersection es) h k = of_intersection (all_calls-IsDefined n rel es h k)

    all_calls-IsDefined :
        (n : Node) (rel : String) (es : Exprs)
        → validate_self_refs_all en.model n.obj_type rel es ≡ none
        → ((t c : String)
            → Memᴰ (t, c) (links_all es)
            → TargetsIn en (IsDefined en) (record n { rel = t }) c)
        → AllCallsIn en (IsDefined en) n es
    all_calls-IsDefined n rel nil h k = calls_nil
    all_calls-IsDefined n rel (cons e es) h k =
        let (h1, h2) = first_error-none (validate_self_refs en.model n.obj_type rel e) _ h in
        calls_cons (calls-IsDefined n rel e h1 (λ t c m. k t c (Memᴰ.append_left (links_all es) m)))
          (all_calls-IsDefined n rel es h2 (λ t c m. k t c (Memᴰ.append_right (links e) m)))

-- The two errors that are left.
abbrev pub IsOperational : CheckError → Type 0
IsOperational x = (x ≡ depth_exceeded) ⊎ (x ≡ query_failed)

-- Over a model that LoadModel accepts and well-typed tuples, a check of a defined node can fail
-- only at the depth fence or on a failed query.
pub check_in_company-IsOperational :
    (en : Env) (n : Node)
    → load_model en.model ≡ none
    → TypedTuples en
    → IsDefined en n
    → (x : CheckError) → check_in_company en n ≡ failed x
    → IsOperational x
unfolding check_in_company
check_in_company-IsOperational en n loaded typed d x e = rw e at (
    check-Errs IsOperational (inr refl) (inl refl) en (IsDefined en) (λ m (f, p) q. cc)
      (λ m f _ p.
        calls-IsDefined en typed m m.rel f (load_model-none en.model m.obj_type m.rel loaded p)
          (typed.objects m f p))
      enough_fuel n 0 start (omega arith) (omega arith) d)
