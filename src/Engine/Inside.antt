-- ===== src/Engine/Inside.antt =====
-- Which usersets are from inside a company, by the stored tuples, and `subjectInCompany` of
-- internal/authz/engine/eval.go against it.
use kiban.Shared.{
  ◌≡◌, refl, Bool, true, false, some, List, [], Option-cases, ◌||◌, ◌&&◌, ◌==◌, string_eq, inl, inr,
  String, none, ◌∷◌, if◌then◌else◌, any, arith, Bool-cases, ◌∙◌,
}
use kiban.Engine.Eval.{
  Node, node_eq, TupleRow, Env, Answer, answer, names_company, names_member, subject_in_company,
  row_in_company,
}

abbrev pub is_yes : Answer → Bool
is_yes (answer true) = true
is_yes _ = false

-- Whether a tuple is stored, which is not so where the query fails.
abbrev is_stored : Env → Node → TupleRow → Bool
is_stored en n q = elim (en.rows n) [
  | none ↦ false
  | some rs ↦
      any
        (λ r.
          r.subject_type == q.subject_type
          && r.subject_id == q.subject_id
          && r.subject_relation == q.subject_relation)
        rs
]

-- Whether a userset is from inside the company: a position or a group that the tuples place in the
-- company, a member that they make one of its members, or anything of another type.
abbrev pub is_inside : Env → String → String → Bool
is_inside en typ id =
    if typ == "position" || typ == "group"
    then is_stored en (record { obj_type = typ; obj_id = id; rel = "company" })
        (record { subject_type = "company"; subject_id = en.company_id; subject_relation = "" })
    else if typ == "member"
    then is_stored en (record { obj_type = "company"; obj_id = en.company_id; rel = "member" })
        (record { subject_type = "member"; subject_id = id; subject_relation = "mapped_user" })
    else true

names_company-any :
    (en : Env) (rs : List TupleRow)
    → names_company en rs
      ≡ any
          (λ r.
            r.subject_type == "company"
            && r.subject_id == en.company_id
            && r.subject_relation == "")
          rs
names_company-any en [] = refl
names_company-any en (r ∷ rs) = ground (arith, names_company-any en rs)

names_member-any :
    (en : Env) (id : String) (rs : List TupleRow)
    → names_member en id rs
      ≡ any
          (λ r.
            r.subject_type == "member" && r.subject_id == id && r.subject_relation == "mapped_user")
          rs
names_member-any en id [] = refl
names_member-any en id (r ∷ rs) = ground (arith, names_member-any en id rs)

subject_in_company-inside :
    (en : Env) (typ id : String) → is_yes (subject_in_company en typ id) ≡ is_inside en typ id
unfolding subject_in_company
subject_in_company-inside en typ id = elim (Bool-cases (typ == "position" || typ == "group")) [
  | inl e ↦
      elim (Option-cases (en.rows (record { obj_type = typ; obj_id = id; rel = "company" }))) [
        | inl f ↦ rw (e, is_stored, f) refl
        | inr (rs, f) ↦
            rw (e, is_stored, f) (yes_answer (names_company en rs) ∙ names_company-any en rs)
      ]
  | inr e ↦ elim (Bool-cases (typ == "member")) [
    | inr g ↦ rw (e, g) refl
    | inl g ↦
        elim (Option-cases
          (en.rows (record { obj_type = "company"; obj_id = en.company_id; rel = "member" }))) [
            | inl f ↦ rw (e, g, is_stored, f) refl
            | inr (rs, f) ↦
                rw (e, g, is_stored, f)
                  (yes_answer (names_member en id rs) ∙ names_member-any en id rs)
          ]
  ]
]
  where
    yes_answer : (b : Bool) → is_yes (answer b) ≡ b
    yes_answer true = refl
    yes_answer false = refl

pub row_in_company-inside :
    (en : Env) (r : TupleRow)
    → is_yes (row_in_company en r)
      ≡ (en.company_id == "" || is_inside en r.subject_type r.subject_id)
unfolding row_in_company
row_in_company-inside en r = elim (Bool-cases (en.company_id == "")) [
  | inl e ↦ rw e refl
  | inr e ↦ rw e (subject_in_company-inside en r.subject_type r.subject_id)
]
