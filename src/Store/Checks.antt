-- ===== src/Store/Checks.antt =====
-- The tuple table as the engine reads it: `fetchRows` of internal/authz/engine/eval.go over the table
-- of internal/authz/store.
use kiban.Shared.{
  String, Bool, true, false, ◌&&◌, Option, some, List, [], ◌∷◌, ◌≡◌, ◌≢◌, refl, sym, Memᴰ, map,
  ◌==◌, contains, keep, arith, Bool-cases, beq-cases, inl, inr, string_eq, subst, beq_self,
}
use kiban.Engine.Model.{Model, this}
use kiban.Engine.Eval.{Node, TupleRow, Env, answer, check_in_company}
use kiban.Engine.Grants.{Grants, direct, expr_of}
use kiban.Engine.Check.{check_in_company-Says, body-Grants}
use kiban.Store.Keeps.{Keeps, bind-Keeps}
use kiban.Store.Tables.{
  Tuple, tuple_eq, grant_op, Db, anchor_conflict, entry, Result, ok, err, Inserted, present,
  violation, inserted, insert_tuple, grant_one, write_one, write_each, write_tuples,
  has_empty_field, grant, correlation,
}

abbrev pub node_of : Tuple → Node
node_of t = record { obj_type = t.object_type; obj_id = t.object_id; rel = t.relation }

abbrev pub row_of : Tuple → TupleRow
row_of t = record {
  subject_type = t.subject_type;
  subject_id = t.subject_id;
  subject_relation = t.subject_relation;
}

abbrev pub is_at : Node → Tuple → Bool
is_at n t = t.object_type == n.obj_type && t.object_id == n.obj_id && t.relation == n.rel

-- `SELECT … WHERE object_type = $1 AND object_id = $2 AND relation = $3`
abbrev pub fetch_rows : List Tuple → Node → List TupleRow
fetch_rows ts n = map row_of (keep (is_at n) ts)

abbrev pub env_of : Model → Db → String → String → String → Env
env_of model db subj_type subj_id company_id = record {
  model = model;
  rows = λ n. some (fetch_rows db.tuples n);
  subj_type = subj_type;
  subj_id = subj_id;
  company_id = company_id;
}

is_at_self : (t : Tuple) → is_at (node_of t) t ≡ true
is_at_self t = rw (beq_self t.object_type) (rw (beq_self t.object_id) (beq_self t.relation))

mem_of_contains :
    (t : Tuple) (ts : List Tuple)
    → contains t ts ≡ true
    → Memᴰ (row_of t) (fetch_rows ts (node_of t))
unfolding contains
mem_of_contains t [] h = cc
mem_of_contains t (x ∷ ts) h = elim (beq-cases x t) [
  | inl (e, b) ↦
      subst (λ y. Memᴰ (row_of t) (fetch_rows (y ∷ ts) (node_of t))) (sym e)
        (rw (is_at_self t) (Memᴰ.head refl))
  | inr b ↦ elim (Bool-cases (is_at (node_of t) x)) [
    | inl k ↦ rw k (Memᴰ.tail (mem_of_contains t ts (rw b at h)))
    | inr k ↦ rw k (mem_of_contains t ts (rw b at h))
  ]
]

present-contains :
    (t : Tuple) (ts : List Tuple) → insert_tuple ts t ≡ present → contains t ts ≡ true
unfolding insert_tuple
present-contains t ts h = ground arith

contains-cons : (t : Tuple) (ts : List Tuple) → contains t (t ∷ ts) ≡ true
unfolding contains
contains-cons t ts = rw (beq_self t)

module _ (actor : String) (corr : Option String) (t : Tuple) where
  abbrev Holding : Db → Type 0
  Holding db = contains t db.tuples ≡ true

  grant_one-Holding : (db : Db) → Keeps Holding (grant_one actor corr t db)
  unfolding grant_one
  grant_one-Holding db = by_row (insert_tuple db.tuples t) refl
    where
      by_row :
          (i : Inserted)
          → insert_tuple db.tuples t ≡ i
          → Keeps Holding (elim i [
            | present ↦ ok db
            | violation ↦ err (anchor_conflict t)
            | inserted ↦ ok (record {
              tuples = t ∷ db.tuples;
              ledger = entry actor corr grant_op t ∷ db.ledger;
            })
          ])
      by_row present e = present-contains t db.tuples e
      by_row violation e = tt
      by_row inserted e = contains-cons t db.tuples

  write_one-Holding : (db : Db) → Keeps Holding (write_one actor corr grant_op t db)
  unfolding write_one
  write_one-Holding db = elim (Bool-cases (has_empty_field t)) [
    | inl e ↦ rw e tt
    | inr e ↦ rw e (grant_one-Holding db)
  ]

-- A successful grant of one tuple leaves it in the table.
pub grant-Holding :
    (actor corr : String) (t : Tuple) (db : Db)
    → Keeps (Holding actor (correlation corr) t) (grant actor corr (t ∷ []) db)
unfolding write_tuples write_each
grant-Holding actor corr t db =
    bind-Keeps (Holding actor (correlation corr) t) _ _
      (write_one-Holding actor (correlation corr) t db) (λ db2 h. h)

-- A direct tuple in the table, of a relation that the model defines as `this`, is a grant.
granted :
    (model : Model) (db : Db) (t : Tuple) (company_id : String)
    → contains t db.tuples ≡ true
    → t.subject_relation ≡ ""
    → expr_of (env_of model db t.subject_type t.subject_id company_id) (node_of t) ≡ some this
    → Grants (env_of model db t.subject_type t.subject_id company_id) (node_of t)
granted model db t company_id c d e =
    body-Grants (env_of model db t.subject_type t.subject_id company_id) (node_of t) this e (
      direct refl (mem_of_contains t db.tuples c) (rw d)
        (rw (beq_self t.subject_type) (beq_self t.subject_id)))

-- After a successful grant of a direct tuple, of a relation that the model defines as this, a
-- check of that relation for that subject never answers no, in any company.
pub grant-check :
    (model : Model) (actor corr company_id : String) (t : Tuple) (db : Db)
    → t.subject_relation ≡ ""
    → expr_of (env_of model db t.subject_type t.subject_id company_id) (node_of t) ≡ some this
    → Keeps
        (λ db2.
          check_in_company (env_of model db2 t.subject_type t.subject_id company_id) (node_of t)
          ≢ answer false)
        (grant actor corr (t ∷ []) db)
grant-check model actor corr company_id t db d e =
    weaken (grant actor corr (t ∷ []) db) (grant-Holding actor corr t db)
  where
    weaken :
        (r : Result Db)
        → Keeps (Holding actor (correlation corr) t) r
        → Keeps
            (λ db2.
              check_in_company (env_of model db2 t.subject_type t.subject_id company_id) (node_of t)
              ≢ answer false)
            r
    weaken (ok db2) h =
        λ no. check_in_company-Says _ (node_of t) false no (granted model db2 t company_id h d e)
    weaken (err x) h = tt
