-- ===== src/Engine/Grants.antt =====
-- The relation that a check of internal/authz/engine is about, with no order of search, memo or depth
-- in it: the least set of nodes that the tuples and the model give to the subject.
use kiban.Shared.{
  String, ◌≡◌, refl, true, false, Option, none, some, List, [], ◌∷◌, Memᴰ, contains, lookup,
  string_eq, contains-cons_self, subst, sym, ◌⊎◌, inl, inr, beq-cases,
}
use kiban.Engine.Model.{
  Expr, Exprs, this, computed_userset, tuple_to_userset, union, intersection, nil, cons, definition,
}
use kiban.Engine.Eval.{
  Node, node_eq, TupleRow, Env, answer, userset_of, is_object, is_subject, row_in_company,
}

abbrev pub expr_of : Env → Node → Option Expr
expr_of en n = definition en.model n.obj_type n.rel

pub definition_of :
    {rels : List (String × Expr)} {e : Expr} (en : Env) (n : Node)
    → lookup n.obj_type en.model ≡ some rels
    → lookup n.rel rels ≡ some e
    → expr_of en n ≡ some e
unfolding definition
definition_of en n t r = rw (t, definition) r

pub type_none : (en : Env) (n : Node) → lookup n.obj_type en.model ≡ none → expr_of en n ≡ none
unfolding definition
type_none en n t = rw (t, definition) refl

pub definition_none :
    {rels : List (String × Expr)} (en : Env) (n : Node)
    → lookup n.obj_type en.model ≡ some rels
    → lookup n.rel rels ≡ none
    → expr_of en n ≡ none
unfolding definition
definition_none en n t r = rw (t, definition) r

abbrev pub target_of : String → TupleRow → Node
target_of cu r = record { obj_type = r.subject_type; obj_id = r.subject_id; rel = cu }

-- `Holds en avoided n`: the subject has the node by a derivation that passes no avoided node.
mutual
  pub data Holds (en : Env) (avoided : List Node) : Node → Type 0 where
    by_definition :
        {n : Node} {e : Expr}
        → contains n avoided ≡ false
        → expr_of en n ≡ some e
        → Satisfies en avoided n e
        → Holds en avoided n

  pub data Satisfies (en : Env) (avoided : List Node) : Node → Expr → Type 0 where
    direct :
        {n : Node} {rs : List TupleRow} {r : TupleRow}
        → en.rows n ≡ some rs
        → Memᴰ r rs
        → is_object r ≡ true
        → is_subject en r ≡ true
        → Satisfies en avoided n this
    userset :
        {n : Node} {rs : List TupleRow} {r : TupleRow}
        → en.rows n ≡ some rs
        → Memᴰ r rs
        → is_object r ≡ false
        → row_in_company en r ≡ answer true
        → Holds en avoided (userset_of r)
        → Satisfies en avoided n this
    computed :
        {n : Node} {rel : String}
        → Holds en avoided (record n { rel = rel })
        → Satisfies en avoided n (computed_userset rel)
    through :
        {n : Node} {tupleset cu : String} {rs : List TupleRow} {r : TupleRow}
        → en.rows (record n { rel = tupleset }) ≡ some rs
        → Memᴰ r rs
        → is_object r ≡ true
        → Holds en avoided (target_of cu r)
        → Satisfies en avoided n (tuple_to_userset tupleset cu)
    some_of :
        {n : Node} {es : Exprs} → SatisfiesAny en avoided n es → Satisfies en avoided n (union es)
    all_of :
        {n : Node} {es : Exprs}
        → SatisfiesAll en avoided n es
        → Satisfies en avoided n (intersection es)

  pub data SatisfiesAny (en : Env) (avoided : List Node) : Node → Exprs → Type 0 where
    here :
        {n : Node} {e : Expr} {es : Exprs}
        → Satisfies en avoided n e
        → SatisfiesAny en avoided n (cons e es)
    later :
        {n : Node} {e : Expr} {es : Exprs}
        → SatisfiesAny en avoided n es
        → SatisfiesAny en avoided n (cons e es)

  pub data SatisfiesAll (en : Env) (avoided : List Node) : Node → Exprs → Type 0 where
    every_nil : {n : Node} → SatisfiesAll en avoided n nil
    every_cons :
        {n : Node} {e : Expr} {es : Exprs}
        → Satisfies en avoided n e
        → SatisfiesAll en avoided n es
        → SatisfiesAll en avoided n (cons e es)

-- The subject has the node.
abbrev pub Grants : Env → Node → Type 0
Grants en n = Holds en [] n

-- A derivation that avoids some nodes is a derivation.
module _ {en : Env} {avoided : List Node} where
  mutual
    unfolding contains

    pub Holds-Grants : {n : Node} → Holds en avoided n → Grants en n
    Holds-Grants (by_definition a d s) = by_definition refl d (Satisfies-Grants s)

    pub Satisfies-Grants : {n : Node} {e : Expr} → Satisfies en avoided n e → Satisfies en [] n e
    Satisfies-Grants (direct f m o s) = direct f m o s
    Satisfies-Grants (userset f m o c h) = userset f m o c (Holds-Grants h)
    Satisfies-Grants (computed h) = computed (Holds-Grants h)
    Satisfies-Grants (through f m o h) = through f m o (Holds-Grants h)
    Satisfies-Grants (some_of a) = some_of (Any-Grants a)
    Satisfies-Grants (all_of a) = all_of (All-Grants a)

    Any-Grants : {n : Node} {es : Exprs} → SatisfiesAny en avoided n es → SatisfiesAny en [] n es
    Any-Grants (here s) = here (Satisfies-Grants s)
    Any-Grants (later a) = later (Any-Grants a)

    All-Grants : {n : Node} {es : Exprs} → SatisfiesAll en avoided n es → SatisfiesAll en [] n es
    All-Grants every_nil = every_nil
    All-Grants (every_cons s a) = every_cons (Satisfies-Grants s) (All-Grants a)

-- A node that is derived is derived with no second visit of itself: either a derivation passes `n`
-- nowhere, or its part above the last visit of `n` satisfies the definition of `n` without `n`.
module _ (en : Env) (avoided : List Node) (n : Node) (e : Expr) (def : expr_of en n ≡ some e) where
  visit :
      {m : Node} {e' : Expr}
      → contains m avoided ≡ false
      → expr_of en m ≡ some e'
      → Satisfies en (n ∷ avoided) m e'
      → Holds en (n ∷ avoided) m ⊎ Satisfies en (n ∷ avoided) n e
  unfolding contains
  visit {m} {e'} a d s = elim (beq-cases n m) [
    | inl (same, t) ↦
        let eq : e' ≡ e = cc in
        inr (
          subst (λ k. Satisfies en (n ∷ avoided) k e) (sym same)
            (subst (λ x. Satisfies en (n ∷ avoided) m x) eq s))
    | inr f ↦ inl (by_definition (rw f a) d s)
  ]

  mutual
    shorten :
        {m : Node} → Holds en avoided m → Holds en (n ∷ avoided) m ⊎ Satisfies en (n ∷ avoided) n e
    shorten (by_definition a d s) = elim (shorten_body s) [
      | inl s' ↦ visit a d s'
      | inr loop ↦ inr loop
    ]

    shorten_body :
        {m : Node} {x : Expr}
        → Satisfies en avoided m x
        → Satisfies en (n ∷ avoided) m x ⊎ Satisfies en (n ∷ avoided) n e
    shorten_body (direct f m o s) = inl (direct f m o s)
    shorten_body (userset f m o c h) = elim (shorten h) [
      | inl h' ↦ inl (userset f m o c h')
      | inr loop ↦ inr loop
    ]
    shorten_body (computed h) = elim (shorten h) [
      | inl h' ↦ inl (computed h')
      | inr loop ↦ inr loop
    ]
    shorten_body (through f m o h) = elim (shorten h) [
      | inl h' ↦ inl (through f m o h')
      | inr loop ↦ inr loop
    ]
    shorten_body (some_of a) = elim (shorten_any a) [
      | inl a' ↦ inl (some_of a')
      | inr loop ↦ inr loop
    ]
    shorten_body (all_of a) = elim (shorten_all a) [
      | inl a' ↦ inl (all_of a')
      | inr loop ↦ inr loop
    ]

    shorten_any :
        {m : Node} {xs : Exprs}
        → SatisfiesAny en avoided m xs
        → SatisfiesAny en (n ∷ avoided) m xs ⊎ Satisfies en (n ∷ avoided) n e
    shorten_any (here s) = elim (shorten_body s) [ inl s' ↦ inl (here s') | inr loop ↦ inr loop ]
    shorten_any (later a) = elim (shorten_any a) [ inl a' ↦ inl (later a') | inr loop ↦ inr loop ]

    shorten_all :
        {m : Node} {xs : Exprs}
        → SatisfiesAll en avoided m xs
        → SatisfiesAll en (n ∷ avoided) m xs ⊎ Satisfies en (n ∷ avoided) n e
    shorten_all every_nil = inl every_nil
    shorten_all (every_cons s a) = elim (shorten_body s) [
      | inl s' ↦ elim (shorten_all a) [ inl a' ↦ inl (every_cons s' a') | inr loop ↦ inr loop ]
      | inr loop ↦ inr loop
    ]

  pub not_avoiding : Holds en (n ∷ avoided) n → ⊥
  not_avoiding (by_definition a d s) = cc (contains-cons_self n avoided)

  -- What a derivation of `n` leaves for the evaluation of its definition while `n` is visited.
  pub Holds-unroll : Holds en avoided n → Satisfies en (n ∷ avoided) n e
  Holds-unroll h = elim (shorten h) [ inl h' ↦ absurd (not_avoiding h') | inr loop ↦ loop ]
