-- ===== src/Engine/Eval.antt =====
-- internal/authz/engine/eval.go: one check, with its memo, its cycle cuts and its depth fence.
-- A query's answer depends on its arguments alone: no tuple is written while a check runs.
use kiban.Shared.{
  ℕ, zero, suc, ◌+◌, String, ◌≡◌, refl, ◌↔◌, ◌⊎◌, inl, inr, Bool, true, false, ◌&&◌, ◌||◌, Option,
  none, some, List, [], ◌∷◌, if◌then◌else◌, ltb, ◌==◌, Eq, string_eq, nat_eq, eq_iff, lookup,
  contains, remove, arith,
}
use kiban.Engine.Model.{
  Expr, Exprs, Model, this, computed_userset, tuple_to_userset, union, intersection, nil, cons,
}

-- What `memoKey` packs into one text: PostgreSQL texts hold no NUL, so the parts can be read back.
pub record Node : Type 0 where
  pub obj_type : String
  pub obj_id : String
  pub rel : String

abbrev node_beq : Node → Node → Bool
node_beq a b = a.obj_type == b.obj_type && a.obj_id == b.obj_id && a.rel == b.rel

pub node_beq_iff : (a b : Node) → (node_beq a b ≡ true) ↔ (a ≡ b)
node_beq_iff a b =
    ground (arith, eq_iff a.obj_type b.obj_type, eq_iff a.obj_id b.obj_id, eq_iff a.rel b.rel)

instance abbrev pub node_eq : Eq Node
node_eq = record { same = node_beq; same_iff = node_beq_iff }

pub record TupleRow : Type 0 where
  pub subject_type : String
  pub subject_id : String
  pub subject_relation : String

-- `CheckError`'s codes, a failed query, and the model's own `out_of_fuel`.
pub data CheckError : Type 0 where
  depth_exceeded unknown_type unknown_relation query_failed out_of_fuel : CheckError

-- The pair `(bool, error)` that a check returns.
pub data Answer : Type 0 where
  answer : Bool → Answer
  failed : CheckError → Answer

pub Answer-cases :
    (a : Answer) → (a ≡ answer true) ⊎ (a ≡ answer false) ⊎ ((e : CheckError) × (a ≡ failed e))
Answer-cases (answer true) = inl refl
Answer-cases (answer false) = inr (inl refl)
Answer-cases (failed e) = inr (inr (e, refl))

abbrev pub Memo : Type 0
Memo = List (Node × Bool)

-- The two implementations of the interface `memo`.
pub data MemoKind : Type 0 where
  map_memo sync_map_memo : MemoKind

-- `m[key] = v`, and `LoadOrStore`, which keeps a value that is there
unfoldable pub store : MemoKind → Node → Bool → Memo → Memo
store map_memo n v m = (n, v) ∷ m
store sync_map_memo n v m = elim (lookup n m) [ none ↦ (n, v) ∷ m | some _ ↦ m ]

-- What stays fixed during a check: the engine, the tuples, the subject and the company.
pub record Env : Type 0 where
  pub model : Model
  -- `fetchRows`, with `none` for a query that fails
  pub rows : Node → Option (List TupleRow)
  pub subj_type : String
  pub subj_id : String
  pub company_id : String

-- The fields of `evalCtx` that a check changes.
pub record State : Type 0 where
  pub memo_kind : MemoKind
  pub memo : Memo
  pub visiting : List Node
  pub cuts : ℕ

abbrev pub Out : Type 0
Out = Answer × State

-- `ec.check` as its callers see it: the node, the depth and the state before.
abbrev pub Checker : Type 0
Checker = Node → ℕ → State → Out

-- Going on after `(false, nil)`, and after `(true, nil)`; an error or the other answer returns.
abbrev pub or_else : Out → (State → Out) → Out
or_else (answer true, s) next = (answer true, s)
or_else (answer false, s) next = next s
or_else (failed e, s) next = (failed e, s)

abbrev pub and_then : Out → (State → Out) → Out
and_then (answer true, s) next = next s
and_then (answer false, s) next = (answer false, s)
and_then (failed e, s) next = (failed e, s)

abbrev pub userset_of : TupleRow → Node
userset_of r = record { obj_type = r.subject_type; obj_id = r.subject_id; rel = r.subject_relation }

abbrev pub is_object : TupleRow → Bool
is_object r = r.subject_relation == ""

-- `MaxDepth`
abbrev pub max_depth : ℕ
max_depth = 32

-- `ec.visiting[key] = true`
abbrev pub enter : Node → State → State
enter n s = record s { visiting = n ∷ s.visiting }

-- the end of `check`: leave the node, and memoize unless a false rests on a cut
unfoldable pub finish : Node → ℕ → Out → Out
finish n cuts_before (failed e, s) = (failed e, record s { visiting = remove n s.visiting })
finish n cuts_before (answer b, s) =
    let memo' = if b || s.cuts == cuts_before then store s.memo_kind n b s.memo else s.memo in
    (answer b, record s { visiting = remove n s.visiting; memo = memo' })

module _ (en : Env) where
  open en use {rows, company_id}

  abbrev pub is_subject : TupleRow → Bool
  is_subject r = r.subject_type == en.subj_type && r.subject_id == en.subj_id

  -- the loops of `subjectInCompany`
  abbrev pub names_company : List TupleRow → Bool
  names_company [] = false
  names_company (r ∷ rs) =
      r.subject_type == "company" && r.subject_id == company_id && is_object r || names_company rs

  abbrev pub names_member : String → List TupleRow → Bool
  names_member id [] = false
  names_member id (r ∷ rs) =
      r.subject_type == "member" && r.subject_id == id && r.subject_relation == "mapped_user"
      || names_member id rs

  -- `subjectInCompany`
  unfoldable pub subject_in_company : String → String → Answer
  subject_in_company typ id =
      if typ == "position" || typ == "group"
      then elim (rows (record { obj_type = typ; obj_id = id; rel = "company" })) [
        | none ↦ failed query_failed
        | some rs ↦ answer (names_company rs)
      ]
      else if typ == "member"
      then elim (rows (record { obj_type = "company"; obj_id = company_id; rel = "member" })) [
        | none ↦ failed query_failed
        | some rs ↦ answer (names_member id rs)
      ]
      else answer true

  -- the company test of the loop in `evalThis`
  unfoldable pub row_in_company : TupleRow → Answer
  row_in_company r =
      if company_id == "" then answer true else subject_in_company r.subject_type r.subject_id

  -- `for _, r := range rows` where the body returns on true or on an error
  unfoldable pub any_row : (TupleRow → State → Out) → List TupleRow → State → Out
  any_row body [] s = (answer false, s)
  any_row body (r ∷ rs) s = or_else (body r s) (any_row body rs)

  module _ (check : Checker) where
    -- the body of the loop in `evalThis`
    unfoldable pub this_row : ℕ → TupleRow → State → Out
    this_row depth r s =
        if is_object r then (answer (is_subject r), s) else elim (row_in_company r) [
          | failed e ↦ (failed e, s)
          | answer false ↦ (answer false, s)
          | answer true ↦ check (userset_of r) (depth + 1) s
        ]

    -- the body of the loop in `evalTupleToUserset`
    unfoldable pub ttu_row : String → ℕ → TupleRow → State → Out
    ttu_row cu depth r s =
        if is_object r
        then check (record { obj_type = r.subject_type; obj_id = r.subject_id; rel = cu })
            (depth + 1) s
        else (answer false, s)

    unfoldable pub over_rows : (TupleRow → State → Out) → Option (List TupleRow) → State → Out
    over_rows body none s = (failed query_failed, s)
    over_rows body (some rs) s = any_row body rs s

    -- `evalExpr`
    unfoldable mutual
      pub eval_expr : Node → ℕ → Expr → State → Out
      eval_expr n depth this s = over_rows (this_row depth) (rows n) s
      eval_expr n depth (computed_userset r) s = check (record n { rel = r }) (depth + 1) s
      eval_expr n depth (tuple_to_userset t c) s =
          over_rows (ttu_row c depth) (rows (record n { rel = t })) s
      eval_expr n depth (union es) s = eval_union n depth es s
      eval_expr n depth (intersection es) s = eval_intersection n depth es s

      pub eval_union : Node → ℕ → Exprs → State → Out
      eval_union n depth nil s = (answer false, s)
      eval_union n depth (cons e es) s = or_else (eval_expr n depth e s) (eval_union n depth es)

      pub eval_intersection : Node → ℕ → Exprs → State → Out
      eval_intersection n depth nil s = (answer true, s)
      eval_intersection n depth (cons e es) s =
          and_then (eval_expr n depth e s) (eval_intersection n depth es)

  -- `check` behind a memo miss
  unfoldable pub check_miss : Checker → Checker
  check_miss chk n depth s =
      if contains n s.visiting
      then (answer false, record s { cuts = s.cuts + 1 })
      else if ltb max_depth depth
      then (failed depth_exceeded, s)
      else elim (lookup n.obj_type en.model) [
        | none ↦ (failed unknown_type, s)
        | some rels ↦ elim (lookup n.rel rels) [
          | none ↦ (failed unknown_relation, s)
          | some e ↦ finish n s.cuts (eval_expr chk n depth e (enter n s))
        ]
      ]

  -- `check`. The fuel falls as the depth grows, and only the fence at `max_depth` stops the code.
  unfoldable pub check : ℕ → Checker
  check zero n depth s = (failed out_of_fuel, s)
  check (suc fuel) n depth s = elim (lookup n s.memo) [
    | some v ↦ (answer v, s)
    | none ↦ check_miss (check fuel) n depth s
  ]

abbrev pub start : State
start = record { memo_kind = map_memo; memo = []; visiting = []; cuts = 0 }

-- One more than the deepest call, at depth 33.
abbrev pub enough_fuel : ℕ
enough_fuel = 34

-- `CheckInCompany`; with an empty company it is `Check`.
unfoldable pub check_in_company : Env → Node → Answer
check_in_company en n = (check en enough_fuel n 0 start).0
