-- ===== src/Engine/Errors.antt =====
-- The errors of the evaluator of internal/authz/engine/eval.go, and its fuel.
use kiban.Shared.{
  ℕ, zero, suc, ◌+◌, ◌≤◌, ◌<◌, String, ◌≡◌, ◌≢◌, refl, inl, inr, Bool, true, false, Option, none,
  some, List, [], ◌∷◌, Memᴰ, Bool-cases, Option-cases, arith, if◌then◌else◌, lookup, contains, ltb,
  ltb-false, string_eq, ◌==◌, ◌||◌,
}
use kiban.Engine.Model.{
  Expr, Exprs, this, computed_userset, tuple_to_userset, union, intersection, nil, cons,
}
use kiban.Engine.Eval.{
  Node, node_eq, TupleRow, Env, State, CheckError, depth_exceeded, unknown_type, unknown_relation,
  query_failed, out_of_fuel, Answer, Answer-cases, answer, failed, Out, Checker, or_else, and_then,
  is_object, row_in_company, subject_in_company, userset_of, any_row, this_row, ttu_row, over_rows,
  eval_expr, eval_union, eval_intersection, finish, check_miss, check, max_depth, check_in_company,
  start, enough_fuel,
}
use kiban.Engine.Grants.{expr_of, target_of, definition_of, definition_none, type_none}

-- If the answer is an error, it satisfies `E`.
abbrev pub Errs : (CheckError → Type 0) → Answer → Type 0
Errs E (answer b) = Unit
Errs E (failed x) = E x

module _ (E : CheckError → Type 0) where
  or_else-Errs :
      (out : Out) (next : State → Out)
      → Errs E out.0
      → ((s : State) → Errs E (next s).0)
      → Errs E (or_else out next).0
  or_else-Errs (answer true, s) next h k = tt
  or_else-Errs (answer false, s) next h k = k s
  or_else-Errs (failed x, s) next h k = h

  and_then-Errs :
      (out : Out) (next : State → Out)
      → Errs E out.0
      → ((s : State) → Errs E (next s).0)
      → Errs E (and_then out next).0
  and_then-Errs (answer true, s) next h k = k s
  and_then-Errs (answer false, s) next h k = tt
  and_then-Errs (failed x, s) next h k = h

  finish-Errs : (n : Node) (c : ℕ) (out : Out) → Errs E out.0 → Errs E (finish n c out).0
  unfolding finish
  finish-Errs n c (answer b, s) h = tt
  finish-Errs n c (failed x, s) h = h

  any_row-Errs :
      (en : Env) (body : TupleRow → State → Out) (rs : List TupleRow) (s : State)
      → ((r : TupleRow) (t : State) → Memᴰ r rs → Errs E (body r t).0)
      → Errs E (any_row en body rs s).0
  unfolding any_row
  any_row-Errs en body [] s h = tt
  any_row-Errs en body (r ∷ rs) s h =
      or_else-Errs (body r s) (any_row en body rs) (h r s (Memᴰ.head refl))
        λ t. any_row-Errs en body rs t (λ q u m. h q u (Memᴰ.tail m))

  over_rows-Errs :
      (en : Env) (chk : Checker) (body : TupleRow → State → Out) (o : Option (List TupleRow))
      (s : State)
      → E query_failed
      → ((rs : List TupleRow)
          → o ≡ some rs
          → (r : TupleRow) (t : State) → Memᴰ r rs
          → Errs E (body r t).0)
      → Errs E (over_rows en chk body o s).0
  unfolding over_rows
  over_rows-Errs en chk body none s q h = q
  over_rows-Errs en chk body (some rs) s q h = any_row-Errs en body rs s (h rs refl)

-- The nodes that the evaluation of an expression at `n` may check are all in `D`.
module _ (en : Env) (D : Node → Type 0) where
  abbrev pub RowsIn : Node → Type 0
  RowsIn n =
      (rs : List TupleRow)
      → en.rows n ≡ some rs
      → (r : TupleRow) → Memᴰ r rs
      → is_object r ≡ false
      → D (userset_of r)

  abbrev pub TargetsIn : Node → String → Type 0
  TargetsIn n cu =
      (rs : List TupleRow)
      → en.rows n ≡ some rs
      → (r : TupleRow) → Memᴰ r rs
      → is_object r ≡ true
      → D (target_of cu r)

  mutual
    pub data CallsIn : Node → Expr → Type 0 where
      of_this : {n : Node} → RowsIn n → CallsIn n this
      of_computed :
          {n : Node} {r : String} → D (record n { rel = r }) → CallsIn n (computed_userset r)
      of_ttu :
          {n : Node} {t cu : String}
          → TargetsIn (record n { rel = t }) cu
          → CallsIn n (tuple_to_userset t cu)
      of_union : {n : Node} {es : Exprs} → AllCallsIn n es → CallsIn n (union es)
      of_intersection : {n : Node} {es : Exprs} → AllCallsIn n es → CallsIn n (intersection es)

    pub data AllCallsIn : Node → Exprs → Type 0 where
      calls_nil : {n : Node} → AllCallsIn n nil
      calls_cons :
          {n : Node} {e : Expr} {es : Exprs}
          → CallsIn n e
          → AllCallsIn n es
          → AllCallsIn n (cons e es)

module _ (E : CheckError → Type 0) (query : E query_failed) (en : Env) where
  if-Errs : (t : Bool) (a b : Answer) → Errs E a → Errs E b → Errs E (if t then a else b)
  if-Errs true a b x y = x
  if-Errs false a b x y = y

  reading :
      (o : Option (List TupleRow)) (f : List TupleRow → Bool)
      → Errs E (elim o [ none ↦ failed query_failed | some rs ↦ answer (f rs) ])
  reading none f = query
  reading (some rs) f = tt

  row_in_company-Errs : (r : TupleRow) → Errs E (row_in_company en r)
  unfolding row_in_company subject_in_company
  row_in_company-Errs r = if-Errs (en.company_id == "") _ _ tt (
      if-Errs (r.subject_type == "position" || r.subject_type == "group") _ _
        (reading (en.rows _) _)
        (if-Errs (r.subject_type == "member") _ _ (reading (en.rows _) _) tt))

  module _ (D : Node → Type 0) (chk : Checker) (depth : ℕ)
      (calls : (m : Node) (s : State) → D m → Errs E (chk m (depth + 1) s).0) where
    this_row-Errs :
        (r : TupleRow) (s : State)
        → (is_object r ≡ false → D (userset_of r))
        → Errs E (this_row en chk depth r s).0
    unfolding this_row
    this_row-Errs r s h = elim (Bool-cases (is_object r)) [
      | inl o ↦ rw o tt
      | inr o ↦ elim (Answer-cases (row_in_company en r)) [
        | inl c ↦ rw (o, c) (calls (userset_of r) s (h o))
        | inr (inl c) ↦ rw (o, c) tt
        | inr (inr (x, c)) ↦ rw (o, c) (rw c at (row_in_company-Errs r))
      ]
    ]

    ttu_row-Errs :
        (cu : String) (r : TupleRow) (s : State)
        → (is_object r ≡ true → D (target_of cu r))
        → Errs E (ttu_row en chk cu depth r s).0
    unfolding ttu_row
    ttu_row-Errs cu r s h = elim (Bool-cases (is_object r)) [
      | inl o ↦ rw o (calls (target_of cu r) s (h o))
      | inr o ↦ rw o tt
    ]

    mutual
      unfolding eval_expr

      eval_expr-Errs :
          (n : Node) (e : Expr) (s : State)
          → CallsIn en D n e
          → Errs E (eval_expr en chk n depth e s).0
      eval_expr-Errs n this s (of_this h) =
          over_rows-Errs E en chk (this_row en chk depth) (en.rows n) s query
            λ rs e r t m. this_row-Errs r t (h rs e r m)
      eval_expr-Errs n (computed_userset r) s (of_computed d) = calls _ s d
      eval_expr-Errs n (tuple_to_userset t c) s (of_ttu h) =
          over_rows-Errs E en chk (ttu_row en chk c depth) (en.rows (record n { rel = t })) s query
            λ rs e r u m. ttu_row-Errs c r u (h rs e r m)
      eval_expr-Errs n (union es) s (of_union h) = eval_union-Errs n es s h
      eval_expr-Errs n (intersection es) s (of_intersection h) = eval_intersection-Errs n es s h

      eval_union-Errs :
          (n : Node) (es : Exprs) (s : State)
          → AllCallsIn en D n es
          → Errs E (eval_union en chk n depth es s).0
      eval_union-Errs n nil s h = tt
      eval_union-Errs n (cons e es) s (calls_cons h hs) =
          or_else-Errs E (eval_expr en chk n depth e s) (eval_union en chk n depth es)
            (eval_expr-Errs n e s h) (λ t. eval_union-Errs n es t hs)

      eval_intersection-Errs :
          (n : Node) (es : Exprs) (s : State)
          → AllCallsIn en D n es
          → Errs E (eval_intersection en chk n depth es s).0
      eval_intersection-Errs n nil s h = tt
      eval_intersection-Errs n (cons e es) s (calls_cons h hs) =
          and_then-Errs E (eval_expr en chk n depth e s) (eval_intersection en chk n depth es)
            (eval_expr-Errs n e s h) (λ t. eval_intersection-Errs n es t hs)

-- From a set of nodes that is closed under the calls, and on fuel that reaches the fence.
module _ (E : CheckError → Type 0) (query : E query_failed) (deep : E depth_exceeded) (en : Env)
    (D : Node → Type 0)
    (unknown : (n : Node) → D n → (expr_of en n ≡ none) → E unknown_type × E unknown_relation)
    (closed : (n : Node) (e : Expr) → D n → expr_of en n ≡ some e → CallsIn en D n e) where
  check_miss-Errs :
      (chk : Checker) (n : Node) (depth : ℕ) (s : State)
      → D n
      → (depth ≤ max_depth → (m : Node) (t : State) → D m → Errs E (chk m (depth + 1) t).0)
      → Errs E (check_miss en chk n depth s).0
  unfolding check_miss
  check_miss-Errs chk n depth s d calls = elim (Bool-cases (contains n s.visiting)) [
    | inl c ↦ rw c tt
    | inr c ↦ elim (Bool-cases (ltb max_depth depth)) [
      | inl f ↦ rw (c, f) deep
      | inr f ↦ elim (Option-cases (lookup n.obj_type en.model)) [
        | inl t ↦ rw (c, f, t) (unknown n d (type_none en n t)).0
        | inr (rels, t) ↦ elim (Option-cases (lookup n.rel rels)) [
          | inl r ↦ rw (c, f, t, r) (unknown n d (definition_none en n t r)).1
          | inr (e, r) ↦
              rw (c, f, t, r)
                (finish-Errs E n s.cuts _ (
                  eval_expr-Errs E query en D chk depth (calls (ltb-false max_depth depth f)) n e _
                    (closed n e d (definition_of en n t r))))
        ]
      ]
    ]
  ]

  pub check-Errs :
      (fuel : ℕ) (n : Node) (depth : ℕ) (s : State)
      → 0 < fuel
      → max_depth + 1 < fuel + depth
      → D n
      → Errs E (check en fuel n depth s).0
  unfolding check
  check-Errs zero n depth s p h d = absurd (omega arith)
  check-Errs (suc fuel) n depth s p h d = elim (Option-cases (lookup n s.memo)) [
    | inl e ↦
        rw (e, check)
          (check_miss-Errs (check en fuel) n depth s d
            (λ le m t dm. check-Errs fuel m (depth + 1) t (omega arith) (omega arith) dm))
    | inr (b, e) ↦ rw (e, check) tt
  ]

-- Every expression calls nodes.
mutual
  any_calls : (en : Env) (n : Node) (e : Expr) → CallsIn en (λ _. Unit {0}) n e
  any_calls en n this = of_this (λ rs e r m o. tt)
  any_calls en n (computed_userset r) = of_computed tt
  any_calls en n (tuple_to_userset t c) = of_ttu (λ rs e r m o. tt)
  any_calls en n (union es) = of_union (all_any_calls en n es)
  any_calls en n (intersection es) = of_intersection (all_any_calls en n es)

  all_any_calls : (en : Env) (n : Node) (es : Exprs) → AllCallsIn en (λ _. Unit {0}) n es
  all_any_calls en n nil = calls_nil
  all_any_calls en n (cons e es) = calls_cons (any_calls en n e) (all_any_calls en n es)

abbrev IsReal : CheckError → Type 0
IsReal x = x ≢ out_of_fuel

answered : {a : Answer} → Errs IsReal a → a ≢ failed out_of_fuel
answered {a = answer b} h e = cc
answered {a = failed x} h e = h cc

-- A check ends within fuel 34 over any tuples, cycles included, with an answer or with an error
-- that the code returns.
pub check_in_company_ends : (en : Env) (n : Node) → check_in_company en n ≢ failed out_of_fuel
unfolding check_in_company
check_in_company_ends en n = answered (
    check-Errs IsReal (λ e. cc) (λ e. cc) en (λ _. Unit {0}) (λ m d u. ((λ e. cc), (λ e. cc)))
      (λ m e d f. any_calls en m e) enough_fuel n 0 start (omega arith) (omega arith) tt)
