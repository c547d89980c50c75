-- ===== src/Http/Permits.antt =====
-- What the rules of `handleGrants` of internal/authz/http.go let through.
use kiban.Shared.{
  String, Bool, true, false, not, ◌&&◌, Option, none, some, List, [], ◌∷◌, ◌==◌, string_eq, lookup,
  contains, ◌≡◌, refl, ◌∙◌, ◌⊎◌, inl, inr, All, Bool-cases, beq-cases, sym, arith, eq_iff,
}
use kiban.Store.Tables.{Tuple, Op, grant_op, revoke_op, Db, anchor_of}
use kiban.Fragment.Load.{Loaded}
use kiban.Decision.Types.{module_object_id, Decision}
use kiban.Decision.Evaluate.{evaluate}
use kiban.Http.Replies.{Step, go_on, ◌>>=◌, ◌>>◌, answer_of, step-go_on}
use kiban.Http.Grants.{
  Claims, Service, is_grant, appoints, admit, appoint_request, grants_request, object_key,
}
use kiban.Http.Authorize.{
  checker, deps, owner_rule, check_object, check_objects, request_anchors, anchors_of, admin_round,
  anchor_round,
}

pub admit-go_on :
    {B : Type 0} {b : B} (feature : String) (d : Decision) (f : Step B)
    → (admit feature d >> f) ≡ go_on b
    → (d.allowed ≡ true) × (f ≡ go_on b)
admit-go_on feature d f h = elim (Bool-cases d.allowed) [
  | inl e ↦ (e, rw e at h)
  | inr e ↦ cc (rw e at h)
]

pub answer-go_on :
    {A B : Type 0} {b : B} (o : Option A) (dependency step : String) (f : A → Step B)
    → (answer_of o dependency step >>= f) ≡ go_on b
    → (a : A) × (o ≡ some a) × (f a ≡ go_on b)
answer-go_on none dependency step f h = cc h
answer-go_on (some a) dependency step f h = (a, refl, h)

admin_round-holds :
    (module_key : String) (admin_checked admin : Bool) (o : Option Bool)
    → (admin_checked ≡ true → o ≡ some true)
    → admin_round module_key admin_checked o ≡ go_on admin
    → o ≡ some true
admin_round-holds module_key true admin o known h = known refl
admin_round-holds module_key false admin none known h = cc h
admin_round-holds module_key false admin (some true) known h = refl
admin_round-holds module_key false admin (some false) known h = cc h

anchor_round-facts :
    (in_request granted : Bool) (o : Option Bool) (unanchored admin_checked admin : Bool)
    → anchor_round in_request granted o unanchored admin_checked ≡ go_on admin
    → ((in_request ≡ true) ⊎ (o ≡ some true) ⊎ (unanchored ≡ true)) × (admin_checked ≡ admin)
anchor_round-facts true granted o unanchored admin_checked admin h = (inl refl, cc h)
anchor_round-facts false true o unanchored admin_checked admin h = cc h
anchor_round-facts false false none unanchored admin_checked admin h = cc h
anchor_round-facts false false (some true) unanchored admin_checked admin h = (inr (inl refl), cc h)
anchor_round-facts false false (some false) true admin_checked admin h = (inr (inr refl), cc h)
anchor_round-facts false false (some false) false admin_checked admin h = cc h

pub go_on-inj : {A : Type 0} {a b : A} → go_on a ≡ go_on b → a ≡ b
go_on-inj e = cc e

module _ (svc : Service) (l : Loaded) (db : Db) (claims : Claims) (company_id : String) (op : Op)
    (ts : List Tuple) where
  abbrev anchor_id : String → String
  anchor_id module_key = module_object_id company_id module_key

  -- The bearer holds the module's admin relation.
  abbrev pub HoldsAdmin : String → Type 0
  HoldsAdmin module_key =
      (checker svc l db).check "company_module" (anchor_id module_key) "admin" "user" claims.subject
      ≡ some true

  -- The caller owns the enabled module, or passes the decision for it and the company.
  pub data IsAdmitted (module_key : String) : Type 0 where
    as_owner :
        (registered : Bool)
        → owner_rule svc l db claims module_key ≡ go_on (true, registered)
        → svc.sources.module_state module_key ≡ some true
        → IsAdmitted module_key
    as_bearer :
        (registered : Bool)
        → owner_rule svc l db claims module_key ≡ go_on (false, registered)
        → (evaluate
            (deps svc l db)
            (grants_request claims.subject company_id module_key registered)).allowed
          ≡ true
        → IsAdmitted module_key

  -- One of the tuples is the module's anchor on the object of a key.
  abbrev pub IsAnchoring : String → String → List Tuple → Type 0
  IsAnchoring module_key key [] = ⊥
  IsAnchoring module_key key (u ∷ us) =
      (object_key u ≡ key)
        × (u.relation ≡ "company_module")
        × (u.subject_type ≡ "company_module")
        × (u.subject_id ≡ anchor_id module_key)
        × (u.subject_relation ≡ "")
      ⊎ IsAnchoring module_key key us

  request_anchors-IsAnchoring :
      (module_key key : String) (us : List Tuple)
      → contains key (request_anchors (anchor_id module_key) us) ≡ true
      → IsAnchoring module_key key us
  unfolding request_anchors contains
  request_anchors-IsAnchoring module_key key [] h = cc h
  request_anchors-IsAnchoring module_key key (u ∷ us) h =
      elim (Bool-cases (
        u.relation == "company_module"
        && u.subject_type == "company_module"
        && u.subject_id == anchor_id module_key
        && u.subject_relation == "")) [
          | inr f ↦ inr (request_anchors-IsAnchoring module_key key us (rw f at h))
          | inl e ↦ elim (beq-cases (object_key u) key) [
            | inr f ↦ inr (request_anchors-IsAnchoring module_key key us (rw (e, f) at h))
            | inl (same, _) ↦ inl (
              same,
              ground (arith, e, eq_iff u.relation "company_module"),
              ground (arith, e, eq_iff u.subject_type "company_module"),
              ground (arith, e, eq_iff u.subject_id (anchor_id module_key)),
              ground (arith, e, eq_iff u.subject_relation ""),
            )
          ]
        ]

  -- The object carries the module's anchor, in the request or in the table, or an owner's revocation
  -- meets an object with no anchor.
  pub data IsAnchored (module_key : String) (t : Tuple) : Type 0 where
    in_request : op ≡ grant_op → IsAnchoring module_key (object_key t) ts → IsAnchored module_key t
    stored :
        (checker svc l db).check t.object_type t.object_id "company_module" "company_module"
            (anchor_id module_key)
          ≡ some true
        → IsAnchored module_key t
    unanchored :
        (registered : Bool)
        → op ≡ revoke_op
        → owner_rule svc l db claims module_key ≡ go_on (true, registered)
        → anchor_of db.tuples t.object_type t.object_id ≡ ""
        → IsAnchored module_key t

  -- Only a grant has anchors in its request.
  pub anchors_of-IsAnchored :
      (module_key : String) (o : Op) (t : Tuple)
      → o ≡ op
      → contains (object_key t) (anchors_of o (anchor_id module_key) ts) ≡ true
      → IsAnchored module_key t
  unfolding contains
  anchors_of-IsAnchored module_key grant_op t e h =
      in_request (sym e) (request_anchors-IsAnchoring module_key (object_key t) ts h)
  anchors_of-IsAnchored module_key revoke_op t e h = cc h

  pub data IsPermitted (t : Tuple) : Type 0 where
    appointment :
        appoints company_id t ≡ true
        → (evaluate (deps svc l db) (appoint_request claims.subject)).allowed ≡ true
        → IsPermitted t
    module_object :
        (module_key : String)
        → IsAdmitted module_key
        → t.object_type ≡ "company_module"
        → t.object_id ≡ anchor_id module_key
        → HoldsAdmin module_key
        → IsPermitted t
    owned_object :
        (module_key : String)
        → IsAdmitted module_key
        → lookup t.object_type l.type_owner ≡ some module_key
        → IsAnchored module_key t
        → IsPermitted t

  -- What the last loop has established of a tuple.
  abbrev pub Examined : String → Bool → Tuple → Type 0
  Examined module_key owner_call t =
      ((t.object_type == "company_module") ≡ true) × HoldsAdmin module_key
      ⊎ ((t.object_type == "company_module") ≡ false)
        × ((contains (object_key t) (anchors_of op (anchor_id module_key) ts) ≡ true)
            ⊎ ((checker svc l db).check t.object_type t.object_id "company_module" "company_module"
                  (anchor_id module_key)
                ≡ some true)
            ⊎ ((not (is_grant op)
                  && owner_call
                  && anchor_of db.tuples t.object_type t.object_id == "")
                ≡ true))

  check_object-Examined :
      (module_key : String) (owner_call admin_checked admin : Bool) (t : Tuple)
      → (admin_checked ≡ true → HoldsAdmin module_key)
      → check_object svc l db claims.subject module_key
          (anchor_id module_key)
          op
          owner_call
          (anchors_of op (anchor_id module_key) ts)
          admin_checked
          t
        ≡ go_on admin
      → Examined module_key owner_call t × (admin ≡ true → HoldsAdmin module_key)
  unfolding check_object
  check_object-Examined module_key owner_call admin_checked admin t known h =
      elim (Bool-cases (t.object_type == "company_module")) [
        | inl b ↦
            let holds = admin_round-holds module_key admin_checked admin _ known (rw b at h) in
            (inl (b, holds), λ e. holds)
        | inr b ↦
            let (facts, same) = anchor_round-facts _ _ _ _ admin_checked admin (rw b at h) in
            (inr (b, facts), λ e. known (same ∙ e))
      ]

  pub check_objects-Examined :
      (module_key : String) (owner_call admin_checked : Bool) (us : List Tuple)
      → (admin_checked ≡ true → HoldsAdmin module_key)
      → check_objects svc l db claims.subject module_key
          (anchor_id module_key)
          op
          owner_call
          (anchors_of op (anchor_id module_key) ts)
          admin_checked
          us
        ≡ go_on tt
      → All (Examined module_key owner_call) us
  unfolding check_objects
  check_objects-Examined module_key owner_call admin_checked [] known h = tt
  check_objects-Examined module_key owner_call admin_checked (t ∷ us) known h =
      let (admin, h1, h2) =
        step-go_on
          (check_object svc l db claims.subject module_key (anchor_id module_key) op owner_call
            (anchors_of op (anchor_id module_key) ts) admin_checked t)
          _ h in
      let (facts, known2) =
        check_object-Examined module_key owner_call admin_checked admin t known h1 in
      (facts, check_objects-Examined module_key owner_call admin us known2 h2)
