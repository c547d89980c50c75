-- ===== src/Engine/Check.antt =====
-- `check`, `Check` and `CheckInCompany` of internal/authz/engine/eval.go against `Grants`.
use kiban.Shared.{
  ℕ, zero, suc, ◌+◌, ◌≡◌, refl, ◌∙◌, Bool, true, false, Option, some, List, [], ◌∷◌, inl, inr,
  Bool-cases, Option-cases, arith, ap, subst, lookup, contains, remove, remove-cons, ltb, beq-cases,
  nat_eq, string_eq,
}
use kiban.Engine.Model.{
  Expr, Exprs, this, computed_userset, tuple_to_userset, union, intersection, nil, cons,
}
use kiban.Engine.Eval.{
  Node, node_eq, TupleRow, Env, State, answer, failed, Out, Checker, eval_expr, this_row, ttu_row,
  eval_union, eval_intersection, enter, finish, check_miss, check, max_depth, depth_exceeded,
  unknown_type, unknown_relation, out_of_fuel, check_in_company, start, enough_fuel,
}
use kiban.Engine.Grants.{
  Holds, Satisfies, SatisfiesAny, SatisfiesAll, computed, through, some_of, all_of, every_nil,
  every_cons, by_definition, Grants, Holds-Grants, Holds-unroll, expr_of, definition_of,
}
use kiban.Engine.Decides.{
  Decides, Decides-map, failed-Decides, answer-Decides, or_else-Decides, and_then-Decides,
  MemoIsRight, Says, store-MemoIsRight,
}
use kiban.Engine.Loops.{
  Gives, Leads, SomeRow, ChecksRight, this_row-Decides, ttu_row-Decides, over_rows-Decides,
  rows_of_this, this_of_row, rows_of_ttu, node_of_computed, any_of_union, all_of_intersection,
  not_any_nil, any_cons, any_uncons, all_uncons,
}

-- The rows that a fact was read from are the rows that were fetched.
rows_at :
    {o : Option (List TupleRow)} {P : TupleRow → Type 0} (rs : List TupleRow)
    → o ≡ some rs
    → (qs : List TupleRow) × (o ≡ some qs) × SomeRow P qs
    → SomeRow P rs
rows_at {P} rs e (qs, e', p) = let eq : qs ≡ rs = cc in subst (SomeRow P) eq p

module _ (en : Env) (check : Checker) (avoided : List Node)
    (right : ChecksRight en check avoided) where
  mutual
    unfolding eval_expr

    eval_expr-Decides :
        (n : Node) (depth : ℕ) (e : Expr) (s : State)
        → s.visiting ≡ avoided
        → MemoIsRight en s.memo
        → Decides en s
            (Satisfies en [] n e)
            (Satisfies en avoided n e)
            (eval_expr en check n depth e s)
    eval_expr-Decides n depth this s v m =
        over_rows-Decides en check avoided right (Gives en []) (Gives en avoided) _ _
          (this_row en check depth) (en.rows n) (this_row-Decides en check avoided right depth)
          (λ rs e p. this_of_row e p) (λ rs e h. rows_at rs e (rows_of_this h))
          (λ rs e h. rows_at rs e (rows_of_this h)) s v m
    eval_expr-Decides n depth (computed_userset r) s v m =
        Decides-map computed node_of_computed node_of_computed (right _ (depth + 1) s v m)
    eval_expr-Decides n depth (tuple_to_userset t c) s v m =
        over_rows-Decides en check avoided right (Leads en [] c) (Leads en avoided c) _ _
          (ttu_row en check c depth) (en.rows (record n { rel = t }))
          (ttu_row-Decides en check avoided right c depth) (λ rs e (r, i, p). through e i p.0 p.1)
          (λ rs e h. rows_at rs e (rows_of_ttu h)) (λ rs e h. rows_at rs e (rows_of_ttu h)) s v m
    eval_expr-Decides n depth (union es) s v m =
        Decides-map some_of any_of_union any_of_union (eval_union-Decides n depth es s v m)
    eval_expr-Decides n depth (intersection es) s v m =
        Decides-map all_of all_of_intersection all_of_intersection
          (eval_intersection-Decides n depth es s v m)

    eval_union-Decides :
        (n : Node) (depth : ℕ) (es : Exprs) (s : State)
        → s.visiting ≡ avoided
        → MemoIsRight en s.memo
        → Decides en s
            (SatisfiesAny en [] n es)
            (SatisfiesAny en avoided n es)
            (eval_union en check n depth es s)
    eval_union-Decides n depth nil s v m =
        answer-Decides false m not_any_nil (λ a. absurd (not_any_nil a))
    eval_union-Decides n depth (cons e es) s v m = Decides-map any_cons any_uncons any_uncons (
        or_else-Decides (eval_expr en check n depth e s) (eval_union en check n depth es)
          (eval_expr-Decides n depth e s v m) λ t f. eval_union-Decides n depth es t (f.0 ∙ v) f.1)

    eval_intersection-Decides :
        (n : Node) (depth : ℕ) (es : Exprs) (s : State)
        → s.visiting ≡ avoided
        → MemoIsRight en s.memo
        → Decides en s
            (SatisfiesAll en [] n es)
            (SatisfiesAll en avoided n es)
            (eval_intersection en check n depth es s)
    eval_intersection-Decides n depth nil s v m = answer-Decides true m every_nil (λ a. every_nil)
    eval_intersection-Decides n depth (cons e es) s v m =
        Decides-map (λ p. every_cons p.0 p.1) all_uncons all_uncons
          (and_then-Decides (eval_expr en check n depth e s) (eval_intersection en check n depth es)
            (eval_expr-Decides n depth e s v m)
            λ t f. eval_intersection-Decides n depth es t (f.0 ∙ v) f.1)

module _ (en : Env) (n : Node) (e : Expr) (def : expr_of en n ≡ some e) where
  pub body-Grants : Satisfies en [] n e → Grants en n
  unfolding contains
  body-Grants = by_definition refl def

  body_of_grants : Grants en n → Satisfies en [] n e
  body_of_grants (by_definition _ d s) =
      let eq : _ ≡ e = cc in subst (λ x. Satisfies en [] n x) eq s

  -- Leaving the node: the state is the one before, with at most a right memo entry more.
  finish-Decides :
      (s : State) (out : Out)
      → contains n s.visiting ≡ false
      → Decides en (enter n s) (Satisfies en [] n e) (Satisfies en (n ∷ s.visiting) n e) out
      → Decides en s (Grants en n) (Holds en s.visiting n) (finish n s.cuts out)
  unfolding finish
  finish-Decides s (failed x, t) fresh d = record {
    visiting_kept = ap (remove n) d.visiting_kept ∙ remove-cons n s.visiting fresh;
    memo_right = d.memo_right;
    cuts_grow = d.cuts_grow;
    sound = λ q. cc;
    complete = λ q. cc;
    exact = λ q. cc;
  }
  finish-Decides s (answer true, t) fresh d = record {
    visiting_kept = ap (remove n) d.visiting_kept ∙ remove-cons n s.visiting fresh;
    memo_right = store-MemoIsRight en _ n true t.memo (body-Grants (d.sound refl)) d.memo_right;
    cuts_grow = d.cuts_grow;
    sound = λ q. body-Grants (d.sound refl);
    complete = λ q. cc;
    exact = λ q. cc;
  }
  finish-Decides s (answer false, t) fresh d = record {
    visiting_kept = ap (remove n) d.visiting_kept ∙ remove-cons n s.visiting fresh;
    memo_right = elim (beq-cases t.cuts s.cuts) [
      | inl (same, b) ↦ rw b (
          store-MemoIsRight en _ n false t.memo (λ g. d.exact refl same (body_of_grants g))
            d.memo_right)
      | inr b ↦ rw b d.memo_right
    ];
    cuts_grow = d.cuts_grow;
    sound = λ q. cc;
    complete = λ q h. d.complete refl (Holds-unroll en s.visiting n e def h);
    exact = λ q c g. d.exact refl c (body_of_grants g);
  }

not-Holds_visited :
    (en : Env) (n : Node) (avoided : List Node) → contains n avoided ≡ true → ¬ Holds en avoided n
not-Holds_visited en n avoided c (by_definition a _ _) = cc

-- Behind a memo miss, given a checker that is right while the node is visited.
check_miss-Decides :
    (en : Env) (chk : Checker) (n : Node) (depth : ℕ) (s : State)
    → ChecksRight en chk (n ∷ s.visiting)
    → MemoIsRight en s.memo
    → Decides en s (Grants en n) (Holds en s.visiting n) (check_miss en chk n depth s)
unfolding check_miss
check_miss-Decides en chk n depth s right m = elim (Bool-cases (contains n s.visiting)) [
  | inl c ↦ rw c (record {
    visiting_kept = refl;
    memo_right = m;
    cuts_grow = omega arith;
    sound = λ q. cc;
    complete = λ q. not-Holds_visited en n s.visiting c;
    exact = λ q k. absurd (omega arith);
  })
  | inr c ↦ elim (Bool-cases (ltb max_depth depth)) [
    | inl d ↦ rw (c, d) (failed-Decides depth_exceeded m)
    | inr d ↦ elim (Option-cases (lookup n.obj_type en.model)) [
      | inl t ↦ rw (c, d, t) (failed-Decides unknown_type m)
      | inr (rels, t) ↦ elim (Option-cases (lookup n.rel rels)) [
        | inl r ↦ rw (c, d, t, r) (failed-Decides unknown_relation m)
        | inr (e, r) ↦
            rw (c, d, t, r)
              (finish-Decides en n e (definition_of en n t r) s _ c
                (eval_expr-Decides en chk (n ∷ s.visiting) right n depth e (enter n s) refl m))
      ]
    ]
  ]
]

-- Every check, on any fuel and at any depth, decides its node.
pub check-ChecksRight :
    (en : Env) (fuel : ℕ) (avoided : List Node) → ChecksRight en (check en fuel) avoided
unfolding check
check-ChecksRight en zero avoided n depth s v m = failed-Decides out_of_fuel m
check-ChecksRight en (suc fuel) avoided n depth s v m = elim (Option-cases (lookup n s.memo)) [
  | inl e ↦
      rw (e, check)
        (subst
          (λ a. Decides en s (Grants en n) (Holds en a n) (check_miss en (check en fuel) n depth s))
          v
          (check_miss-Decides en (check en fuel) n depth s
            (check-ChecksRight en fuel (n ∷ s.visiting)) m))
  | inr (b, e) ↦ rw (e, check) (answer-Decides b m (m n b e) Holds-Grants)
]

pub no_memo : (en : Env) → MemoIsRight en []
unfolding lookup
no_memo en n b e = cc

-- Whatever a check answers, with its memo, cycle cuts and company, is right: a true is a
-- derivation in the least set of nodes that the tuples and the model give to the subject, and a
-- false is the lack of one.
pub check_in_company-Says :
    (en : Env) (n : Node) (b : Bool) → check_in_company en n ≡ answer b → Says b (Grants en n)
unfolding check_in_company
check_in_company-Says en n true e =
    (check-ChecksRight en enough_fuel [] n 0 start refl (no_memo en)).sound e
check_in_company-Says en n false e =
    (check-ChecksRight en enough_fuel [] n 0 start refl (no_memo en)).complete e
