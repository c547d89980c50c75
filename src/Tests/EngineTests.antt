-- ===== src/Tests/EngineTests.antt =====
-- Concrete checks by the models of internal/authz/engine.
use kiban.Shared.{
  String, ◌≡◌, ◌≢◌, refl, true, false, Option, none, some, List, [], ◌∷◌, if◌then◌else◌, ◌==◌,
  string_eq, Memᴰ, lookup, contains, inl, inr, Bool-cases, subst, sym, ap, ◌∙◌,
}
use kiban.Engine.Model.{
  Model, Expr, this, computed_userset, tuple_to_userset, union, intersection, nil, cons, load_model,
  validate_self_refs, definition,
}
use kiban.Engine.Eval.{
  Node, TupleRow, Env, answer, failed, query_failed, out_of_fuel, check_in_company, check,
  check_miss, is_object, finish, eval_expr, any_row, over_rows, this_row, ttu_row, row_in_company,
  subject_in_company, store,
}
use kiban.Engine.Grants.{Grants, target_of}
use kiban.Engine.Check.{check_in_company-Says}
use kiban.Engine.Errors.{check_in_company_ends}
use kiban.Engine.WellTyped.{
  TypedTuples, IsDefined, IsOperational, links, check_in_company-IsOperational,
}
use kiban.Engine.Company.{Compatible, restricted, check_in_company-restricted}
use kiban.Engine.Batch.{AllAgree, plain, batch_can, batch_can-AllAgree}

-- A document is readable by whoever reads its folder, and writable by its owners who read it.
abbrev docs_model : Model
docs_model =
    (
      "doc",
      ("folder", this)
          ∷ ("owner", this)
          ∷ ("reader", union (cons this (cons (tuple_to_userset "folder" "reader") nil)))
          ∷ (
            "writer",
            intersection (cons (computed_userset "owner") (cons (computed_userset "reader") nil)),
          )
          ∷ [],
    )
    ∷ []

abbrev node : String → String → Node
node id rel = record { obj_type = "doc"; obj_id = id; rel = rel }

abbrev row : String → String → String → TupleRow
row typ id rel = record { subject_type = typ; subject_id = id; subject_relation = rel }

-- Two documents that are each other's folder; ann reads and owns b, as does a group of company c2.
abbrev docs_rows : String → String → List TupleRow
docs_rows id rel =
    if rel == "folder"
    then (if id == "a" then row "doc" "b" "" ∷ [] else row "doc" "a" "" ∷ [])
    else if rel == "company"
    then row "company" "c2" "" ∷ []
    else if id == "b"
    then row "group" "g" "reader" ∷ row "user" "ann" "" ∷ []
    else []

abbrev docs : String → String → Env
docs subject company = record {
  model = docs_model;
  rows = λ n. some (docs_rows n.obj_id n.rel);
  subj_type = "user";
  subj_id = subject;
  company_id = company;
}

reader_in_company : check_in_company (docs "ann" "c1") (node "a" "reader") ≡ answer true
unfolding check_in_company check check_miss finish eval_expr any_row over_rows this_row ttu_row
    row_in_company subject_in_company store lookup contains
reader_in_company = refl

stranger : check_in_company (docs "bob" "c1") (node "b" "writer") ≡ answer false
unfolding check_in_company check check_miss finish eval_expr any_row over_rows this_row ttu_row
    row_in_company subject_in_company store lookup contains
stranger = refl

check_in_company-Says_example : Grants (docs "ann" "c1") (node "a" "reader")
check_in_company-Says_example =
    check_in_company-Says (docs "ann" "c1") (node "a" "reader") true reader_in_company

check_in_company_ends_example :
    check_in_company (docs "bob" "") (node "a" "reader") ≢ failed out_of_fuel
check_in_company_ends_example = check_in_company_ends (docs "bob" "") (node "a" "reader")

reader_restricted :
    check_in_company (restricted (docs "ann" "c1")) (node "a" "reader") ≡ answer true
unfolding check_in_company check check_miss finish eval_expr any_row over_rows this_row ttu_row
    row_in_company subject_in_company store lookup contains
reader_restricted = refl

check_in_company-restricted_example :
    Compatible
      (check_in_company (docs "ann" "c1") (node "a" "reader"))
      (check_in_company (restricted (docs "ann" "c1")) (node "a" "reader"))
check_in_company-restricted_example =
    check_in_company-restricted (docs "ann" "c1") (node "a" "reader")

batch_can-AllAgree_example :
    AllAgree
      (plain (docs "ann" "c1"))
      ((0, node "a" "reader") ∷ (1, node "b" "folder") ∷ [])
      (batch_can (docs "ann" "c1") ((0, node "a" "reader") ∷ (1, node "b" "folder") ∷ []))
batch_can-AllAgree_example =
    batch_can-AllAgree (docs "ann" "c1") ((0, node "a" "reader") ∷ (1, node "b" "folder") ∷ [])

-- The same documents, in a table whose query for readers fails.
abbrev broken_rows : String → Option (List TupleRow)
broken_rows rel = if rel == "folder" then some (row "doc" "b" "" ∷ []) else none

abbrev broken_docs : Env
broken_docs = record (docs "ann" "") { rows = λ n. broken_rows n.rel }

loaded : load_model docs_model ≡ none
unfolding load_model validate_self_refs definition lookup
loaded = refl

broken_reader : check_in_company broken_docs (node "a" "reader") ≡ failed query_failed
unfolding check_in_company check check_miss finish eval_expr any_row over_rows this_row ttu_row
    row_in_company subject_in_company store lookup contains
broken_reader = refl

folder_rows :
    (rel : String) (rs : List TupleRow) (r : TupleRow)
    → broken_rows rel ≡ some rs
    → Memᴰ r rs
    → r ≡ row "doc" "b" ""
folder_rows rel rs r e m = elim (Bool-cases (rel == "folder")) [
  | inl f ↦ only r (subst (λ xs. Memᴰ r xs) (sym (some-inj (rw f at e))) m)
  | inr f ↦ cc (rw f at e)
]
  where
    some-inj : {xs ys : List TupleRow} → some xs ≡ some ys → xs ≡ ys
    some-inj e = cc e

    only : (r : TupleRow) → Memᴰ r (row "doc" "b" "" ∷ []) → r ≡ row "doc" "b" ""
    only r (Memᴰ.head e) = e
    only r (Memᴰ.tail m) = elim m [ ]

only_readers :
    (typ rel t c : String) (x : Expr)
    → definition docs_model typ rel ≡ some x
    → Memᴰ {A = String × String} (t, c) (links x)
    → c ≡ "reader"
unfolding definition lookup links
only_readers typ rel t c x d m = elim (Bool-cases ("doc" == typ)) [
  | inr f ↦ cc (rw (definition, lookup, f) at d)
  | inl f ↦ elim (Bool-cases ("folder" == rel)) [
    | inl g ↦ no_link (
        subst (λ y. Memᴰ {A = String × String} (t, c) (links y))
          (sym (some-inj (rw (definition, lookup, f, g) at d))) m)
    | inr g ↦ elim (Bool-cases ("owner" == rel)) [
      | inl h ↦ no_link (
          subst (λ y. Memᴰ {A = String × String} (t, c) (links y))
            (sym (some-inj (rw (definition, lookup, f, g, h) at d))) m)
      | inr h ↦ elim (Bool-cases ("reader" == rel)) [
        | inl i ↦ link (
            subst (λ y. Memᴰ {A = String × String} (t, c) (links y))
              (sym (some-inj (rw (definition, lookup, f, g, h, i) at d))) m)
        | inr i ↦ elim (Bool-cases ("writer" == rel)) [
          | inl j ↦ no_link (
              subst (λ y. Memᴰ {A = String × String} (t, c) (links y))
                (sym (some-inj (rw (definition, lookup, f, g, h, i, j) at d))) m)
          | inr j ↦ cc (rw (definition, lookup, f, g, h, i, j) at d)
        ]
      ]
    ]
  ]
]
  where
    some-inj : {x y : Expr} → some x ≡ some y → x ≡ y
    some-inj e = cc e

    no_link : Memᴰ {A = String × String} (t, c) [] → c ≡ "reader"
    no_link m = elim m [ ]

    link : Memᴰ {A = String × String} (t, c) (("folder", "reader") ∷ []) → c ≡ "reader"
    link (Memᴰ.head e) = ap (λ p. p.1) e
    link (Memᴰ.tail m) = elim m [ ]

reader-IsDefined : IsDefined broken_docs (node "b" "reader")
unfolding definition lookup
reader-IsDefined = (_, refl)

reader_of_a-IsDefined : IsDefined broken_docs (node "a" "reader")
unfolding definition lookup
reader_of_a-IsDefined = (_, refl)

broken_docs-TypedTuples : TypedTuples broken_docs
broken_docs-TypedTuples = record {
  usersets =
      λ n rs e r m o. absurd (not_object (sym (ap is_object (folder_rows n.rel rs r e m)) ∙ o));
  objects = λ n x d t c l rs e r m o.
      subst (λ q. IsDefined broken_docs (target_of c q)) (sym (folder_rows t rs r e m))
        (subst (λ k. IsDefined broken_docs (node "b" k))
          (sym (only_readers n.obj_type n.rel t c x d l)) reader-IsDefined);
}
  where
    not_object : true ≡ false → ⊥
    not_object e = cc e

check_in_company-IsOperational_example : IsOperational query_failed
check_in_company-IsOperational_example =
    check_in_company-IsOperational broken_docs (node "a" "reader") loaded broken_docs-TypedTuples
      reader_of_a-IsDefined query_failed broken_reader
