-- ===== src/Tests/SummaryTests.antt =====
-- Concrete summaries by the models of internal/authz/summary.go.
use kiban.Shared.{String, Bool, some, List, [], ◌∷◌, Memᴰ, lookup, ◌≡◌, refl, All, ◌==◌, string_eq}
use kiban.Store.Tables.{Tuple, Db}
use kiban.Decision.Types.{Deps, allowed_reason}
use kiban.Decision.Evaluate.{
  evaluate, evaluate_run, subject_steps, company_step, module_step, relation_step, eligibility_step,
  operator_step, membership_step, company_role_step,
}
use kiban.Http.Wiring.{build_deps}
use kiban.Http.Summary.{
  ObjectKey, ObjectRelation, access_request, access_feature, summary_feature_keys, group_one,
  group_all, group_rows, insert_row, order_rows, list_direct_tuples_for_subject,
  summary_object_access,
}
use kiban.Http.Features.{IsAllowedFeature, summary_feature_keys-IsAllowed, summary_feature_keys-Mem}
use kiban.Http.Access.{relations_of, summary_object_access-All, summary_object_access-Mem}
use kiban.Tests.FragmentTests.{result, known}
use kiban.Tests.HttpTests.{sources, nothing_served}

abbrev tuple : String → String → String → Tuple
tuple id rel subject = record {
  object_type = "doc";
  object_id = id;
  relation = rel;
  subject_type = "user";
  subject_id = subject;
  subject_relation = "";
}

abbrev db : Db
db = record {
  tuples =
      tuple "d" "owner" "ann"
      ∷ tuple "e" "owner" "bob"
      ∷ tuple "f" "admin" "ann"
      ∷ tuple "d" "admin" "ann"
      ∷ [];
  ledger = [];
}

-- An order by the relation alone.
abbrev before : ObjectRelation → ObjectRelation → Bool
before (k, rel) (j, other) = rel == "admin"

abbrev deps : Deps
deps = build_deps sources result nothing_served.db

listed :
    summary_object_access before db "ann"
    ≡ (("doc", "d"), "admin" ∷ "owner" ∷ []) ∷ (("doc", "f"), "admin" ∷ []) ∷ []
unfolding group_one group_all group_rows insert_row order_rows lookup
listed = refl

summary_object_access-All_example :
    All
      (λ (k, rels). rels ≡ relations_of k (list_direct_tuples_for_subject before db "user" "ann"))
      (summary_object_access before db "ann")
summary_object_access-All_example = summary_object_access-All before db "ann"

summary_object_access-Mem_example :
    (rels : List String) × Memᴰ "owner" rels
    × Memᴰ {A = ObjectKey × List String}
        (("doc", "d"), rels)
        (summary_object_access before db "ann")
summary_object_access-Mem_example =
    summary_object_access-Mem before db "ann" (tuple "d" "owner" "ann") (Memᴰ.head refl) refl

docs_allowed : (evaluate deps (access_request "ann" "c1" "docs")).reason ≡ allowed_reason
unfolding evaluate evaluate_run subject_steps company_step operator_step membership_step
    company_role_step module_step relation_step eligibility_step
docs_allowed = refl

summary_feature_keys-IsAllowed_example :
    All (IsAllowedFeature deps "ann" "c1") (summary_feature_keys deps (some known) "ann" "c1")
summary_feature_keys-IsAllowed_example = summary_feature_keys-IsAllowed deps "ann" "c1" (some known)

summary_feature_keys-Mem_example :
    Memᴰ (access_feature "docs") (summary_feature_keys deps (some known) "ann" "c1")
summary_feature_keys-Mem_example =
    summary_feature_keys-Mem deps known "ann" "c1" "docs" refl (Memᴰ.head refl) docs_allowed
