-- ===== src/Http/Authorize.antt =====
-- The rules of `handleGrants` of internal/authz/http.go, each over the tuples of one request.
use Prim.Native.String.{◌++◌ as str_append}
use kiban.Shared.{
  String, Bool, true, false, not, ◌&&◌, ◌||◌, Option, none, some, List, [], ◌∷◌, ◌==◌, string_eq,
  if◌then◌else◌, lookup, contains, trim_prefix, cut,
}
use kiban.Store.Tables.{Tuple, Op, grant_op, revoke_op, Db, anchor_of, member_of_company}
use kiban.Fragment.Load.{Loaded}
use kiban.Decision.Types.{
  Deps, EngineChecker, engine_denied, module_disabled, foundation_module_key, module_object_id,
}
use kiban.Decision.Evaluate.{evaluate}
use kiban.Http.Replies.{
  validation_failed, denied, Step, reply_with, go_on, ◌>>=◌, ◌>>◌, refuse, require, answer_of,
}
use kiban.Http.Wiring.{build_deps, fragment_checker}
use kiban.Http.Grants.{
  Claims, Service, is_grant, is_appointment, admit, appoint_request, grants_request, object_key,
}

abbrev pub only_admin : String → Bool → Step Bool
only_admin module_key true = go_on true
only_admin module_key false =
    reply_with (denied engine_denied) (some (str_append module_key ".grants", engine_denied))

abbrev pub for_each : (Tuple → Step (Unit {0})) → List Tuple → Step (Unit {0})
for_each f [] = go_on tt
for_each f (t ∷ ts) = f t >> for_each f ts

abbrev pub is_client : String → List (String × String) → Bool
is_client client_id [] = false
is_client client_id ((_, c) ∷ owners) = c == client_id || is_client client_id owners

abbrev pub owns : String → String → List (String × String) → Bool
owns module_key client_id owners = elim (lookup module_key owners) [
  | none ↦ "" == client_id
  | some c ↦ c == client_id
]

-- the keys of `inRequestAnchor`
unfoldable pub request_anchors : String → List Tuple → List String
request_anchors anchor_id [] = []
request_anchors anchor_id (t ∷ ts) =
    let rest = request_anchors anchor_id ts in
    if t.relation == "company_module"
      && t.subject_type == "company_module"
      && t.subject_id == anchor_id
      && t.subject_relation == ""
    then object_key t ∷ rest
    else rest

abbrev pub anchors_of : Op → String → List Tuple → List String
anchors_of grant_op anchor_id ts = request_anchors anchor_id ts
anchors_of revoke_op anchor_id ts = []

-- the module of a company module: its id has the company's prefix, and the catalog knows the module
abbrev pub known_module : Bool → Option Bool → String → Step String
known_module false (some _) key = go_on key
known_module _ _ key = refuse validation_failed

-- the module of any other object: the one that owns its type
abbrev pub owning_module : Option String → Step String
owning_module none = refuse validation_failed
owning_module (some key) = if key == "" then refuse validation_failed else go_on key

-- the part of a round for a company module, which asks once for the admin relation
abbrev pub admin_round : String → Bool → Option Bool → Step Bool
admin_round module_key true is_admin = go_on true
admin_round module_key false is_admin =
    answer_of is_admin "engine" "grants_admin" >>= only_admin module_key

-- the part for any other object: whether the request anchors it, whether the tuple is a granted
-- anchor, whether the table anchors it, and whether it is an owner's revocation with no anchor left
abbrev pub anchor_round : Bool → Bool → Option Bool → Bool → Bool → Step Bool
anchor_round true anchor_granted anchored unanchored admin_checked = go_on admin_checked
anchor_round false true anchored unanchored admin_checked = refuse validation_failed
anchor_round false false anchored unanchored admin_checked =
    answer_of anchored "engine" "grants_anchor" >>= λ is_anchored.
    require (is_anchored || unanchored) validation_failed >> go_on admin_checked

-- The calls behind one request: the loaded model, the tables, and the engine over both.
module _ (svc : Service) (l : Loaded) (db : Db) where
  abbrev pub checker : EngineChecker
  checker = fragment_checker l db

  abbrev pub deps : Deps
  deps = build_deps svc.sources l db

  -- Rule 1 for one tuple: the module of its object
  unfoldable pub resolve_tuple : String → Tuple → Step String
  resolve_tuple company_id t =
      if t.object_type == "company_module"
      then (let key = trim_prefix t.object_id (str_append company_id "/") in
          known_module (key == t.object_id) (lookup key l.known_enabled) key)
      else owning_module (lookup t.object_type l.type_owner)

  -- Rule 1: one module for all, from the module so far, which is empty at the start
  unfoldable pub resolve : String → String → List Tuple → Step String
  resolve company_id module_key [] = go_on module_key
  resolve company_id module_key (t ∷ ts) = do
    key ← resolve_tuple company_id t
    require (module_key == "" || key == module_key) validation_failed
    resolve company_id key ts

  -- a userset subject names a relation of its type
  unfoldable pub check_shape : Tuple → Step (Unit {0})
  check_shape t =
      if t.subject_relation == "" then go_on tt else elim (lookup t.subject_type l.model) [
        | none ↦ refuse validation_failed
        | some rels ↦ elim (lookup t.subject_relation rels) [
          | none ↦ refuse validation_failed
          | some _ ↦ go_on tt
        ]
      ]

  -- a position, group or member belongs to the company
  unfoldable pub check_subject : String → Tuple → Step (Unit {0})
  check_subject company_id t =
      if t.subject_type == "position" || t.subject_type == "group"
      then (do
        inside ←
            answer_of (checker.check t.subject_type t.subject_id "company" "company" company_id)
              "engine" "grants_subject"
        require inside validation_failed)
      else if t.subject_type == "member"
      then require (member_of_company db.tuples company_id t.subject_id) validation_failed
      else go_on tt

  unfoldable pub check_subjects : String → Op → List Tuple → Step (Unit {0})
  check_subjects company_id revoke_op ts = go_on tt
  check_subjects company_id grant_op ts =
      for_each check_shape ts >> for_each (check_subject company_id) ts

  -- the owner rule: whether the caller owns the module, and whether it is a registered app
  unfoldable pub owner_rule : Claims → String → Step (Bool × Bool)
  owner_rule claims module_key =
      if claims.client_id == "" then go_on (false, false) else elim svc.app_owners [
        | none ↦ go_on (false, false)
        | some owners ↦ (do
          apps ← answer_of owners "registry" "grants_owner"
          go_on (owns module_key claims.client_id apps, is_client claims.client_id apps))
      ]

  -- Rule 3: the owner's module is enabled, or the bearer passes the decision
  unfoldable pub admit_caller : Claims → String → String → Bool → Bool → Step (Unit {0})
  admit_caller claims company_id module_key true registered_app = do
    enabled ← answer_of (svc.sources.module_state module_key) "registry" "grants_owner"
    require enabled (denied module_disabled)
  admit_caller claims company_id module_key false registered_app =
      admit (str_append module_key ".grants")
        (evaluate deps (grants_request claims.subject company_id module_key registered_app))

  -- an object that is anchored elsewhere is refused; 58 is the byte `:`
  unfoldable pub check_anchors : String → List String → Step (Unit {0})
  check_anchors anchor_id [] = go_on tt
  check_anchors anchor_id (key ∷ keys) = do
    let (typ, id) = cut 58 key
    let existing = anchor_of db.tuples typ id
    require (existing == "" || existing == anchor_id) validation_failed
    check_anchors anchor_id keys

  -- one round of the loop of rules 2 and 4, with `adminChecked` before it and after it
  unfoldable pub check_object :
      String → String → String → Op → Bool → List String → Bool → Tuple → Step Bool
  check_object subject module_key anchor_id op owner_call anchors admin_checked t =
      if t.object_type == "company_module"
      then admin_round module_key admin_checked
          (checker.check "company_module" anchor_id "admin" "user" subject)
      else anchor_round (contains (object_key t) anchors)
          (t.relation == "company_module" && is_grant op)
          (checker.check t.object_type t.object_id "company_module" "company_module" anchor_id)
          (not (is_grant op) && owner_call && anchor_of db.tuples t.object_type t.object_id == "")
          admin_checked

  unfoldable pub check_objects :
      String → String → String → Op → Bool → List String → Bool → List Tuple → Step (Unit {0})
  check_objects subject module_key anchor_id op owner_call anchors admin_checked [] = go_on tt
  check_objects subject module_key anchor_id op owner_call anchors admin_checked (t ∷ ts) = do
    admin ← check_object subject module_key anchor_id op owner_call anchors admin_checked t
    check_objects subject module_key anchor_id op owner_call anchors admin ts

  -- Rules 1 to 4 of `handleGrants`: the module of the request
  unfoldable pub authorize_objects : Claims → String → Op → List Tuple → Step String
  authorize_objects claims company_id op ts = do
    module_key ← resolve company_id "" ts
    check_subjects company_id op ts
    (owner_call, registered_app) ← owner_rule claims module_key
    admit_caller claims company_id module_key owner_call registered_app
    let anchor_id = module_object_id company_id module_key
    let anchors = anchors_of op anchor_id ts
    check_anchors anchor_id anchors
    check_objects claims.subject module_key anchor_id op owner_call anchors false ts
    go_on module_key

  -- what `handleGrants` asks behind its first guards
  unfoldable pub authorize : Claims → String → Op → List Tuple → Step String
  authorize claims company_id op ts =
      if is_appointment company_id ts
      then (do
        admit "auth.grants" (evaluate deps (appoint_request claims.subject))
        go_on foundation_module_key)
      else authorize_objects claims company_id op ts
