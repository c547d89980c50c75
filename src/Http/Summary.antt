-- ===== src/Http/Summary.antt =====
-- `handleSummary` of internal/authz/summary.go and its parts, with `ListDirectTuplesForSubject` of
-- store/store.go. The order of the database's collation is an argument, the test `before`.
use Prim.Native.String.{◌++◌ as str_append}
use kiban.Shared.{
  String, Bool, true, false, not, ◌&&◌, Option, none, some, List, [], ◌∷◌, ◌++◌, map, ◌==◌,
  string_eq, if◌then◌else◌, lookup, sort, keep, Eq, ◌≡◌, ◌↔◌, arith, eq_iff,
}
use kiban.Store.Tables.{Tuple, Db}
use kiban.Fragment.Load.{Known, Loaded}
use kiban.Decision.Types.{Request, Deps, EngineChecker, scope_global, scope_company}
use kiban.Decision.Evaluate.{evaluate, is_allowed}
use kiban.Http.Grants.{no_object}
use kiban.Http.Replies.{Refusal, bad_request, internal_error}
use kiban.Http.Wiring.{
  Sources, build_deps, fragment_checker, platform_role_superadmin, has_platform_role,
}

abbrev pub superadmin_feature : String
superadmin_feature = "auth.platform_administration.access"

abbrev pub plain_request : String → String → Request
plain_request subject feature = record {
  subject_id = subject;
  feature_key = feature;
  module_key = "";
  scope = scope_global;
  company_id = "";
  required_platform_role = "";
  allow_platform_operator_company_scope = false;
  required_company_role = "";
  object = no_object;
  relation = "";
  requires_eligibility = false;
}

abbrev pub superadmin_request : String → Request
superadmin_request subject = record (plain_request subject superadmin_feature) {
  required_platform_role = platform_role_superadmin;
}

-- `moduleKey + ".access"`
abbrev pub access_feature : String → String
access_feature module_key = str_append module_key ".access"

abbrev pub access_request : String → String → String → Request
access_request subject company_id module_key =
    record (plain_request subject (access_feature module_key)) {
      module_key = module_key;
      scope = scope_company;
      company_id = company_id;
    }

-- The keys of the enabled modules.
unfoldable pub enabled_keys : Known → List String
enabled_keys [] = []
enabled_keys ((key, on) ∷ known) = let rest = enabled_keys known in if on then key ∷ rest else rest

-- The features of the modules that are allowed.
unfoldable pub module_features : Deps → String → String → List String → List String
module_features d subject company_id [] = []
module_features d subject company_id (key ∷ keys) =
    let rest = module_features d subject company_id keys in
    if is_allowed (evaluate d (access_request subject company_id key)).reason
    then access_feature key ∷ rest
    else rest

abbrev pub platform_features : Deps → String → List String
platform_features d subject =
    if is_allowed (evaluate d (superadmin_request subject)).reason
    then superadmin_feature ∷ []
    else []

-- `summaryFeatureKeys`; `none` for a registry that does not answer
unfoldable pub summary_feature_keys : Deps → Option Known → String → String → List String
summary_feature_keys d known subject company_id =
    if company_id == "" then platform_features d subject else elim known [
      | none ↦ platform_features d subject
      | some k ↦
          platform_features d subject
          ++ module_features d subject company_id (sort (enabled_keys k))
    ]

-- A binding: its company, empty at global scope, and its role.
abbrev pub Binding : Type 0
Binding = String × String

abbrev pub holds : Option Bool → Bool
holds none = false
holds (some b) = b

unfoldable pub company_bindings : EngineChecker → String → String → List String → List Binding
company_bindings checker subject company_id [] = []
company_bindings checker subject company_id (role ∷ roles) =
    let rest = company_bindings checker subject company_id roles in
    if holds (checker.check "company" company_id role "user" subject)
    then (company_id, role) ∷ rest
    else rest

-- `summaryRoleBindings`
unfoldable pub summary_role_bindings : EngineChecker → String → String → List Binding
summary_role_bindings checker subject company_id =
    let platform =
      if holds (has_platform_role checker subject platform_role_superadmin)
      then ("", platform_role_superadmin) ∷ []
      else [] in
    if company_id == ""
    then platform
    else platform ++ company_bindings checker subject company_id ("admin" ∷ "viewer" ∷ [])

-- `objectKey`
abbrev pub ObjectKey : Type 0
ObjectKey = String × String

abbrev key_beq : ObjectKey → ObjectKey → Bool
key_beq a b = a.0 == b.0 && a.1 == b.1

pub key_beq_iff : (a b : ObjectKey) → (key_beq a b ≡ true) ↔ (a ≡ b)
key_beq_iff a b = ground (arith, eq_iff a.0 b.0, eq_iff a.1 b.1)

instance abbrev pub key_eq : Eq ObjectKey
key_eq = record { same = key_beq; same_iff = key_beq_iff }

-- `ObjectRelation`
abbrev pub ObjectRelation : Type 0
ObjectRelation = ObjectKey × String

-- `order` and `relationsByObject`
pub record Grouped : Type 0 where
  pub order : List ObjectKey
  pub by_object : List (ObjectKey × List String)

abbrev pub relations_in : ObjectKey → List (ObjectKey × List String) → List String
relations_in k m = elim (lookup k m) [ none ↦ [] | some rels ↦ rels ]

abbrev pub is_seen : ObjectKey → List (ObjectKey × List String) → Bool
is_seen k m = elim (lookup k m) [ none ↦ false | some rels ↦ true ]

-- one round of the loop of `summaryObjectAccess`
unfoldable pub group_one : ObjectRelation → Grouped → Grouped
group_one (k, rel) g = record {
  order = if is_seen k g.by_object then g.order else g.order ++ k ∷ [];
  by_object = (k, relations_in k g.by_object ++ rel ∷ []) ∷ g.by_object;
}

unfoldable pub group_all : List ObjectRelation → Grouped → Grouped
group_all [] g = g
group_all (r ∷ rs) g = group_all rs (group_one r g)

-- the two loops of `summaryObjectAccess`, on the rows of the query
unfoldable pub group_rows : List ObjectRelation → List (ObjectKey × List String)
group_rows rows =
    let g = group_all rows (record { order = []; by_object = [] }) in
    map (λ k. (k, relations_in k g.by_object)) g.order

-- the condition of `listDirectTuplesForSubjectSQL`
abbrev pub is_direct : String → String → Tuple → Bool
is_direct subject_type subject_id t =
    t.subject_type == subject_type && t.subject_id == subject_id && t.subject_relation == ""

abbrev pub row_of : Tuple → ObjectRelation
row_of t = ((t.object_type, t.object_id), t.relation)

-- `ORDER BY object_type, object_id, relation`
unfoldable pub insert_row :
    (ObjectRelation → ObjectRelation → Bool)
    → ObjectRelation
    → List ObjectRelation
    → List ObjectRelation
insert_row before r [] = r ∷ []
insert_row before r (s ∷ rows) =
    let rest = insert_row before r rows in if before s r then s ∷ rest else r ∷ s ∷ rows

unfoldable pub order_rows :
    (ObjectRelation → ObjectRelation → Bool) → List Tuple → List ObjectRelation
order_rows before [] = []
order_rows before (t ∷ ts) = insert_row before (row_of t) (order_rows before ts)

-- `ListDirectTuplesForSubject`
abbrev pub list_direct_tuples_for_subject :
    (ObjectRelation → ObjectRelation → Bool) → Db → String → String → List ObjectRelation
list_direct_tuples_for_subject before db subject_type subject_id =
    order_rows before (keep (is_direct subject_type subject_id) db.tuples)

-- `summaryObjectAccess`, of a query that answers
abbrev pub summary_object_access :
    (ObjectRelation → ObjectRelation → Bool) → Db → String → List (ObjectKey × List String)
summary_object_access before db subject =
    group_rows (list_direct_tuples_for_subject before db "user" subject)

-- The fields of the reply that are not constant.
pub record Summary : Type 0 where
  pub subject_id : String
  pub company_id : String
  pub feature_keys : List String
  pub role_bindings : List Binding
  pub object_access : List (ObjectKey × List String)

pub data SummaryReply : Type 0 where
  summary : Summary → SummaryReply
  no_summary : Refusal → SummaryReply

-- `handleSummary`, with the registry's answer, and whether the query answers
unfoldable pub handle_summary :
    Sources
    → Option Loaded
    → (ObjectRelation → ObjectRelation → Bool)
    → Db
    → Option Known
    → Bool
    → String
    → String
    → SummaryReply
handle_summary src none before db known answers subject company_id =
    no_summary (if subject == "" then bad_request else internal_error)
handle_summary src (some l) before db known answers subject company_id =
    if subject == ""
    then no_summary bad_request
    else if not answers
    then no_summary internal_error
    else summary (record {
      subject_id = subject;
      company_id = company_id;
      feature_keys = summary_feature_keys (build_deps src l db) known subject company_id;
      role_bindings = summary_role_bindings (fragment_checker l db) subject company_id;
      object_access = summary_object_access before db subject;
    })
