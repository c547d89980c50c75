-- ===== src/Engine/Loops.antt =====
-- The loops over rows and the recursion over an expression of internal/authz/engine/eval.go, for any
-- checker of nodes.
use kiban.Shared.{
  ℕ, ◌+◌, String, ◌≡◌, refl, ◌∙◌, true, false, Option, none, some, List, [], ◌∷◌, Memᴰ, ◌⊎◌, inl,
  inr, if◌then◌else◌, Bool-cases, subst,
}
use kiban.Engine.Model.{
  Expr, Exprs, this, computed_userset, tuple_to_userset, union, intersection, nil, cons,
}
use kiban.Engine.Eval.{
  Node, TupleRow, Env, State, Answer-cases, answer, Out, Checker, userset_of, is_object, is_subject,
  row_in_company, any_row, this_row, ttu_row, over_rows, query_failed,
}
use kiban.Engine.Grants.{
  Holds, Satisfies, SatisfiesAny, SatisfiesAll, direct, userset, computed, through, some_of, all_of,
  here, later, every_cons, Grants, target_of,
}
use kiban.Engine.Decides.{
  Decides, Decides-map, failed-Decides, answer-Decides, or_else-Decides, MemoIsRight,
}

-- What one row gives to `this`, and to a tuple-to-userset.
pub data Gives (en : Env) (avoided : List Node) (r : TupleRow) : Type 0 where
  is_direct : is_object r ≡ true → is_subject en r ≡ true → Gives en avoided r
  is_userset :
      is_object r ≡ false
      → row_in_company en r ≡ answer true
      → Holds en avoided (userset_of r)
      → Gives en avoided r

abbrev pub Leads : Env → List Node → String → TupleRow → Type 0
Leads en avoided cu r = (is_object r ≡ true) × Holds en avoided (target_of cu r)

abbrev pub SomeRow : (TupleRow → Type 0) → List TupleRow → Type 0
SomeRow P rs = (r : TupleRow) × Memᴰ r rs × P r

SomeRow-cons :
    {P : TupleRow → Type 0} {r : TupleRow} {rs : List TupleRow}
    → P r ⊎ SomeRow P rs
    → SomeRow P (r ∷ rs)
SomeRow-cons {r} (inl p) = (r, Memᴰ.head refl, p)
SomeRow-cons (inr (r, m, p)) = (r, Memᴰ.tail m, p)

SomeRow-uncons :
    {P : TupleRow → Type 0} {r : TupleRow} {rs : List TupleRow}
    → SomeRow P (r ∷ rs)
    → P r ⊎ SomeRow P rs
SomeRow-uncons {P} (q, Memᴰ.head e, p) = inl (subst P e p)
SomeRow-uncons (q, Memᴰ.tail m, p) = inr (q, m, p)

through_userset :
    {en : Env} {avoided : List Node} {r : TupleRow}
    → is_object r ≡ false
    → Gives en avoided r
    → Holds en avoided (userset_of r)
through_userset o (is_direct o' s) = cc
through_userset o (is_userset _ c h) = h

outside :
    {en : Env} {avoided : List Node} {r : TupleRow}
    → is_object r ≡ false
    → row_in_company en r ≡ answer false
    → ¬ Gives en avoided r
outside o c (is_direct o' s) = cc
outside o c (is_userset _ c' h) = cc

subject_of_direct :
    {en : Env} {avoided : List Node} {r : TupleRow}
    → is_object r ≡ true
    → Gives en avoided r
    → is_subject en r ≡ true
subject_of_direct o (is_direct _ s) = s
subject_of_direct o (is_userset o' c h) = cc

direct_row-Decides :
    {en : Env} {avoided : List Node} (r : TupleRow) (s : State)
    → is_object r ≡ true
    → MemoIsRight en s.memo
    → Decides en s (Gives en [] r) (Gives en avoided r) (answer (is_subject en r), s)
direct_row-Decides {en} r s o m = elim (Bool-cases (is_subject en r)) [
  | inl t ↦ rw t (answer-Decides true m (is_direct o t) (λ g. is_direct o (subject_of_direct o g)))
  | inr f ↦ rw f (
      answer-Decides false m (λ g. cc (subject_of_direct o g))
        (λ g. is_direct o (subject_of_direct o g)))
]

module _ (en : Env) (check : Checker) (avoided : List Node) where
  -- The checker decides every node, from each state whose visited nodes are `avoided`.
  abbrev pub ChecksRight : Type 0
  ChecksRight =
      (n : Node) (depth : ℕ) (s : State)
      → s.visiting ≡ avoided
      → MemoIsRight en s.memo
      → Decides en s (Grants en n) (Holds en avoided n) (check n depth s)

  any_row-Decides :
      (P Q : TupleRow → Type 0) (body : TupleRow → State → Out)
      → ((r : TupleRow) (s : State)
          → s.visiting ≡ avoided
          → MemoIsRight en s.memo
          → Decides en s (P r) (Q r) (body r s))
      → (rs : List TupleRow) (s : State) → s.visiting ≡ avoided
      → MemoIsRight en s.memo
      → Decides en s (SomeRow P rs) (SomeRow Q rs) (any_row en body rs s)
  unfolding any_row
  any_row-Decides P Q body h [] s v m =
      answer-Decides false m (λ (r, e, p). elim e [ ]) (λ (r, e, p). elim e [ ])
  any_row-Decides P Q body h (r ∷ rs) s v m =
      Decides-map SomeRow-cons SomeRow-uncons SomeRow-uncons (
        or_else-Decides (body r s) (any_row en body rs) (h r s v m)
          λ t f. any_row-Decides P Q body h rs t (f.0 ∙ v) f.1)

  module _ (right : ChecksRight) where
    pub this_row-Decides :
        (depth : ℕ) (r : TupleRow) (s : State)
        → s.visiting ≡ avoided
        → MemoIsRight en s.memo
        → Decides en s (Gives en [] r) (Gives en avoided r) (this_row en check depth r s)
    unfolding this_row
    this_row-Decides depth r s v m = elim (Bool-cases (is_object r)) [
      | inl o ↦ rw (o, if◌then◌else◌) (direct_row-Decides r s o m)
      | inr o ↦ elim (Answer-cases (row_in_company en r)) [
        | inl c ↦
            rw (o, c)
              (Decides-map (λ g. is_userset o c g) (through_userset o) (through_userset o)
                (right (userset_of r) (depth + 1) s v m))
        | inr (inl c) ↦
            rw (o, c)
              (answer-Decides false m (λ g. absurd (outside o c g)) (λ g. absurd (outside o c g)))
        | inr (inr (e, c)) ↦ rw (o, c) (failed-Decides e m)
      ]
    ]

    pub ttu_row-Decides :
        (cu : String) (depth : ℕ) (r : TupleRow) (s : State)
        → s.visiting ≡ avoided
        → MemoIsRight en s.memo
        → Decides en s (Leads en [] cu r) (Leads en avoided cu r) (ttu_row en check cu depth r s)
    unfolding ttu_row
    ttu_row-Decides cu depth r s v m = elim (Bool-cases (is_object r)) [
      | inl o ↦ rw o (
          Decides-map (λ g. (refl, g)) (λ g. g.1) (λ g. g.1)
            (right (target_of cu r) (depth + 1) s v m))
      | inr o ↦ rw o (answer-Decides false m (λ g. cc) (λ g. cc))
    ]

    pub over_rows-Decides :
        (P Q : TupleRow → Type 0) (G A : Type 0) (body : TupleRow → State → Out)
        (o : Option (List TupleRow))
        → ((r : TupleRow) (s : State)
            → s.visiting ≡ avoided
            → MemoIsRight en s.memo
            → Decides en s (P r) (Q r) (body r s))
        → ((rs : List TupleRow) → o ≡ some rs → SomeRow P rs → G)
        → ((rs : List TupleRow) → o ≡ some rs → G → SomeRow P rs)
        → ((rs : List TupleRow) → o ≡ some rs → A → SomeRow Q rs)
        → (s : State) → s.visiting ≡ avoided
        → MemoIsRight en s.memo
        → Decides en s G A (over_rows en check body o s)
    unfolding over_rows
    over_rows-Decides P Q G A body none h f g k s v m = failed-Decides query_failed m
    over_rows-Decides P Q G A body (some rs) h f g k s v m =
        Decides-map (f rs refl) (g rs refl) (k rs refl) (any_row-Decides P Q body h rs s v m)

-- What a satisfied `this`, and a satisfied tuple-to-userset, rests on.
module _ {en : Env} {avoided : List Node} {n : Node} where
  pub rows_of_this :
      Satisfies en avoided n this
      → (rs : List TupleRow) × (en.rows n ≡ some rs) × SomeRow (Gives en avoided) rs
  rows_of_this (direct {rs} {r} e m o s) = (rs, e, (r, m, is_direct o s))
  rows_of_this (userset {rs} {r} e m o c h) = (rs, e, (r, m, is_userset o c h))

  pub this_of_row :
      {rs : List TupleRow}
      → en.rows n ≡ some rs
      → SomeRow (Gives en avoided) rs
      → Satisfies en avoided n this
  this_of_row e (r, m, is_direct o s) = direct e m o s
  this_of_row e (r, m, is_userset o c h) = userset e m o c h

  pub rows_of_ttu :
      {t cu : String}
      → Satisfies en avoided n (tuple_to_userset t cu)
      → (rs : List TupleRow) × (en.rows (record n { rel = t }) ≡ some rs)
        × SomeRow (Leads en avoided cu) rs
  rows_of_ttu (through {rs} {r} e m o h) = (rs, e, (r, m, (o, h)))

  pub node_of_computed :
      {rel : String}
      → Satisfies en avoided n (computed_userset rel)
      → Holds en avoided (record n { rel = rel })
  node_of_computed (computed h) = h

  pub any_of_union : {es : Exprs} → Satisfies en avoided n (union es) → SatisfiesAny en avoided n es
  any_of_union (some_of a) = a

  pub all_of_intersection :
      {es : Exprs} → Satisfies en avoided n (intersection es) → SatisfiesAll en avoided n es
  all_of_intersection (all_of a) = a

  pub not_any_nil : ¬ SatisfiesAny en avoided n nil
  not_any_nil a = elim a [ ]

  pub any_cons :
      {e : Expr} {es : Exprs}
      → Satisfies en avoided n e ⊎ SatisfiesAny en avoided n es
      → SatisfiesAny en avoided n (cons e es)
  any_cons (inl s) = here s
  any_cons (inr a) = later a

  pub any_uncons :
      {e : Expr} {es : Exprs}
      → SatisfiesAny en avoided n (cons e es)
      → Satisfies en avoided n e ⊎ SatisfiesAny en avoided n es
  any_uncons (here s) = inl s
  any_uncons (later a) = inr a

  pub all_uncons :
      {e : Expr} {es : Exprs}
      → SatisfiesAll en avoided n (cons e es)
      → Satisfies en avoided n e × SatisfiesAll en avoided n es
  all_uncons (every_cons s a) = (s, a)
