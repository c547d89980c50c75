-- ===== src/Engine/Model.antt =====
-- internal/authz/engine/model.go, expr_accessors.go: relation expressions and models.
use kiban.Shared.{
  String, Bool, true, false, ◌||◌, Option, none, some, List, [], ◌∷◌, if◌then◌else◌, string_eq,
  lookup,
}

-- `Expr`: the five constructs of the subset, with the children of a union or an intersection.
mutual
  pub data Expr : Type 0 where
    this : Expr
    computed_userset : String → Expr
    tuple_to_userset : String → String → Expr
    union : Exprs → Expr
    intersection : Exprs → Expr

  pub data Exprs : Type 0 where
    nil : Exprs
    cons : Expr → Exprs → Exprs

abbrev pub Relations : Type 0
Relations = List (String × Expr)

abbrev pub Model : Type 0
Model = List (String × Relations)

-- `IsThis`
unfoldable pub is_this : Expr → Bool
is_this this = true
is_this _ = false

-- `ComputedUsersetRel`: the empty text for any other construct
unfoldable pub computed_userset_rel : Expr → String
computed_userset_rel (computed_userset r) = r
computed_userset_rel _ = ""

-- `TupleToUsersetExpr`
unfoldable pub tuple_to_userset_expr : Expr → Option (String × String)
tuple_to_userset_expr (tuple_to_userset t c) = some (t, c)
tuple_to_userset_expr _ = none

-- `UnionChildren`
unfoldable pub union_children : Expr → Exprs
union_children (union es) = es
union_children _ = nil

-- `IntersectionChildren`
unfoldable pub intersection_children : Expr → Exprs
intersection_children (intersection es) = es
intersection_children _ = nil

pub data ModelError : Type 0 where
  empty_model : ModelError
  undefined_computed_userset : String → String → String → ModelError
  undefined_tupleset : String → String → String → ModelError
  duplicate_type : String → ModelError
  undefined_target : String → String → String → ModelError
  missing_anchor : String → ModelError

-- The first error of two checks made one after the other.
abbrev pub first_error : Option ModelError → Option ModelError → Option ModelError
first_error none next = next
first_error (some e) next = some e

abbrev pub first_error_of {ℓ} : {A : Type ℓ} → (A → Option ModelError) → List A → Option ModelError
first_error_of f [] = none
first_error_of f (x ∷ xs) = first_error (f x) (first_error_of f xs)

-- `m[typ][rel]`: a missing type reads as a type with no relation.
unfoldable pub definition : Model → String → String → Option Expr
definition m typ rel = elim (lookup typ m) [ none ↦ none | some rels ↦ lookup rel rels ]

abbrev pub require {ℓ} : {A : Type ℓ} → Option A → ModelError → Option ModelError
require none e = some e
require (some a) e = none

unfoldable mutual
  pub validate_self_refs : Model → String → String → Expr → Option ModelError
  validate_self_refs m typ rel this = none
  validate_self_refs m typ rel (computed_userset r) =
      require (definition m typ r) (undefined_computed_userset typ rel r)
  validate_self_refs m typ rel (tuple_to_userset t c) =
      require (definition m typ t) (undefined_tupleset typ rel t)
  validate_self_refs m typ rel (union es) = validate_self_refs_all m typ rel es
  validate_self_refs m typ rel (intersection es) = validate_self_refs_all m typ rel es

  pub validate_self_refs_all : Model → String → String → Exprs → Option ModelError
  validate_self_refs_all m typ rel nil = none
  validate_self_refs_all m typ rel (cons e es) =
      first_error (validate_self_refs m typ rel e) (validate_self_refs_all m typ rel es)

-- The two nested loops over a model's types and relations.
abbrev pub for_each_relation :
    (String → String → Expr → Option ModelError) → Model → Option ModelError
for_each_relation f = first_error_of λ (typ, rels). first_error_of (λ (rel, e). f typ rel e) rels

-- `LoadModel` behind the JSON decoder: the model, or the first error.
unfoldable pub load_model : Model → Option ModelError
load_model [] = some empty_model
load_model (t ∷ m) = for_each_relation (validate_self_refs (t ∷ m)) (t ∷ m)

-- the loop of `Merge` over the other model's types
unfoldable pub merge_into : Model → Model → Option Model × Option ModelError
merge_into out [] = (some out, none)
merge_into out ((k, v) ∷ other) = elim (lookup k out) [
  | some _ ↦ (none, some (duplicate_type k))
  | none ↦ merge_into ((k, v) ∷ out) other
]

-- `Merge`
unfoldable pub merge : Model → Model → Option Model × Option ModelError
unfolding merge_into
merge m other = merge_into m other

-- `defined[rel]`: some type of the model has the relation.
unfoldable pub defined_somewhere : Model → String → Bool
defined_somewhere [] rel = false
defined_somewhere ((_, rels) ∷ m) rel =
    (elim (lookup rel rels) [ none ↦ false | some _ ↦ true ]) || defined_somewhere m rel

unfoldable mutual
  -- `walk` of `ValidateTupleToUsersetTargets`
  pub walk : Model → String → String → Expr → Option ModelError
  walk m typ rel this = none
  walk m typ rel (computed_userset r) = none
  walk m typ rel (tuple_to_userset t c) =
      if defined_somewhere m c then none else some (undefined_target typ rel c)
  walk m typ rel (union es) = walk_all m typ rel es
  walk m typ rel (intersection es) = walk_all m typ rel es

  pub walk_all : Model → String → String → Exprs → Option ModelError
  walk_all m typ rel nil = none
  walk_all m typ rel (cons e es) = first_error (walk m typ rel e) (walk_all m typ rel es)

-- `ValidateTupleToUsersetTargets`
unfoldable pub validate_targets : Model → Option ModelError
validate_targets m = for_each_relation (walk m) m

unfoldable pub check_anchor : String × Relations → Option ModelError
unfolding is_this
check_anchor (typ, rels) = elim (lookup "company_module" rels) [
  | none ↦ some (missing_anchor typ)
  | some anchor ↦ if is_this anchor then none else some (missing_anchor typ)
]

-- `ValidateCompanyModuleAnchor`
unfoldable pub validate_company_module_anchor : Model → Option ModelError
unfolding check_anchor
validate_company_module_anchor m = first_error_of check_anchor m
