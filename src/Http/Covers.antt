-- ===== src/Http/Covers.antt =====
-- `handleGrants` of internal/authz/http.go as a whole: which tuples of a request it lets through.
use kiban.Shared.{
  ℕ, String, Bool, true, false, not, ◌&&◌, Option, none, some, List, [], ◌∷◌, ◌==◌, string_eq,
  lookup, ◌≡◌, refl, inl, inr, All, Bool-cases, eq_iff, arith,
}
use kiban.Store.Tables.{Tuple, Op, grant_op, revoke_op, Db, anchor_of}
use kiban.Fragment.Load.{Loaded}
use kiban.Decision.Types.{module_object_id, module_disabled}
use kiban.Decision.Evaluate.{evaluate}
use kiban.Http.Replies.{
  Reply, accepted, Step, reply_with, go_on, ◌>>=◌, ◌>>◌, require, step-go_on, answer_of, denied,
}
use kiban.Http.Grants.{
  Claims, GrantsRequest, Service, Served, is_grant, appoints, is_appointment, appoint_request,
  grants_request,
}
use kiban.Http.Authorize.{
  deps, resolve, check_subjects, owner_rule, admit_caller, check_anchors, check_objects, anchors_of,
  authorize_objects, authorize,
}
use kiban.Http.Handle.{well_formed, finish_with, handle_grants}
use kiban.Http.Permits.{
  admit-go_on, IsAdmitted, as_owner, as_bearer, anchors_of-IsAnchored, stored, unanchored,
  IsPermitted, appointment, module_object, owned_object, Examined, check_objects-Examined,
}
use kiban.Http.Resolves.{Resolved, resolve-All}

owner_enabled :
    {B : Type 0} {b : B} (state : Option Bool) (f : Step B)
    → ((answer_of state "registry" "grants_owner" >>= λ enabled.
          require enabled (denied module_disabled))
        >> f)
      ≡ go_on b
    → (state ≡ some true) × (f ≡ go_on b)
owner_enabled none f h = cc h
owner_enabled (some true) f h = (refl, h)
owner_enabled (some false) f h = cc h

unanchored_facts :
    (op : Op) (owner_call : Bool) (anchor : String)
    → (not (is_grant op) && owner_call && anchor == "") ≡ true
    → (op ≡ revoke_op) × (owner_call ≡ true) × (anchor ≡ "")
unanchored_facts grant_op owner_call anchor h = cc h
unanchored_facts revoke_op false anchor h = cc h
unanchored_facts revoke_op true anchor h = (refl, refl, (eq_iff anchor "").0 h)

module _ (svc : Service) (l : Loaded) (db : Db) (claims : Claims) (company_id : String) (op : Op)
    (ts : List Tuple) where
  admit_caller-IsAdmitted :
      {B : Type 0} {b : B} (module_key : String) (owner_call registered : Bool) (f : Step B)
      → owner_rule svc l db claims module_key ≡ go_on (owner_call, registered)
      → (admit_caller svc l db claims company_id module_key owner_call registered >> f) ≡ go_on b
      → IsAdmitted svc l db claims company_id op ts module_key × (f ≡ go_on b)
  unfolding admit_caller
  admit_caller-IsAdmitted module_key true registered f o h =
      let (enabled, on) = owner_enabled (svc.sources.module_state module_key) f h in
      (as_owner registered o enabled, on)
  admit_caller-IsAdmitted module_key false registered f o h =
      let (passes, rest) =
        admit-go_on _
          (evaluate (deps svc l db)
            (grants_request claims.subject company_id module_key registered))
          f h in
      (as_bearer registered o passes, rest)

  Permitted_of :
      (module_key : String) (owner_call registered : Bool) (t : Tuple)
      → owner_rule svc l db claims module_key ≡ go_on (owner_call, registered)
      → IsAdmitted svc l db claims company_id op ts module_key
      → Resolved svc l db company_id t module_key
      → Examined svc l db claims company_id op ts module_key owner_call t
      → IsPermitted svc l db claims company_id op ts t
  Permitted_of module_key owner_call registered t o admitted (inl (b, id, known))
        (inl (b2, admin)) =
      module_object module_key admitted ((eq_iff t.object_type "company_module").0 b) id admin
  Permitted_of module_key owner_call registered t o admitted (inl (b, id, known))
        (inr (b2, facts)) =
      cc
  Permitted_of module_key owner_call registered t o admitted (inr (b, owned, k)) (inl (b2, admin)) =
      cc
  Permitted_of module_key owner_call registered t o admitted (inr (b, owned, k)) (inr (b2, inl e)) =
      owned_object module_key admitted owned
        (anchors_of-IsAnchored svc l db claims company_id op ts module_key op t refl e)
  Permitted_of module_key owner_call registered t o admitted (inr (b, owned, k))
        (inr (b2, inr (inl e))) =
      owned_object module_key admitted owned (stored e)
  Permitted_of module_key owner_call registered t o admitted (inr (b, owned, k))
        (inr (b2, inr (inr e))) =
      let (revoking, own, none_left) =
        unanchored_facts op owner_call (anchor_of db.tuples t.object_type t.object_id) e in
      owned_object module_key admitted owned
        (unanchored registered revoking (rw own at o) none_left)

  Permitted_of-All :
      (module_key : String) (owner_call registered : Bool) (us : List Tuple)
      → owner_rule svc l db claims module_key ≡ go_on (owner_call, registered)
      → IsAdmitted svc l db claims company_id op ts module_key
      → All (λ t. Resolved svc l db company_id t module_key) us
      → All (Examined svc l db claims company_id op ts module_key owner_call) us
      → All (IsPermitted svc l db claims company_id op ts) us
  Permitted_of-All module_key owner_call registered [] o admitted found seen = tt
  Permitted_of-All module_key owner_call registered (t ∷ us) o admitted found seen = (
    Permitted_of module_key owner_call registered t o admitted found.0 seen.0,
    Permitted_of-All module_key owner_call registered us o admitted found.1 seen.1,
  )

  appointed-All :
      (us : List Tuple)
      → (evaluate (deps svc l db) (appoint_request claims.subject)).allowed ≡ true
      → is_appointment company_id us ≡ true
      → All (IsPermitted svc l db claims company_id op ts) us
  unfolding is_appointment
  appointed-All [] passes h = tt
  appointed-All (t ∷ us) passes h = elim (Bool-cases (appoints company_id t)) [
    | inl b ↦ (appointment b passes, appointed-All us passes (rw b at h))
    | inr b ↦ cc (rw b at h)
  ]

  authorize_objects-All :
      (m : String)
      → lookup "" l.known_enabled ≡ none
      → authorize_objects svc l db claims company_id op ts ≡ go_on m
      → All (IsPermitted svc l db claims company_id op ts) ts
  unfolding authorize_objects
  authorize_objects-All m named h =
      let (module_key, h1, h2) = step-go_on (resolve svc l db company_id "" ts) _ h in
      let (_, _, h3) = step-go_on (check_subjects svc l db company_id op ts) _ h2 in
      let ((owner_call, registered), o, h4) =
        step-go_on (owner_rule svc l db claims module_key) _ h3 in
      let (admitted, h5) = admit_caller-IsAdmitted module_key owner_call registered _ o h4 in
      let (_, _, h6) =
        step-go_on
          (check_anchors svc l db (module_object_id company_id module_key)
            (anchors_of op (module_object_id company_id module_key) ts))
          _ h5 in
      let (_, e, _) =
        step-go_on
          (check_objects svc l db claims.subject module_key (module_object_id company_id module_key)
            op owner_call (anchors_of op (module_object_id company_id module_key) ts) false ts)
          _ h6 in
      Permitted_of-All module_key owner_call registered ts o admitted
        (resolve-All svc l db company_id named "" module_key ts h1).0
        (check_objects-Examined svc l db claims company_id op ts module_key owner_call false ts
          (λ e. cc e) e)

  authorize-All :
      (m : String)
      → lookup "" l.known_enabled ≡ none
      → authorize svc l db claims company_id op ts ≡ go_on m
      → All (IsPermitted svc l db claims company_id op ts) ts
  unfolding authorize
  authorize-All m named h = elim (Bool-cases (is_appointment company_id ts)) [
    | inl b ↦
        appointed-All ts
          (admit-go_on _ (evaluate (deps svc l db) (appoint_request claims.subject)) _
            (rw b at h)).0
          b
    | inr b ↦ authorize_objects-All m named (rw b at h)
  ]

-- A handler whose end is an accepted reply went on.
finish-accepted :
    {A : Type 0} {n : ℕ} {s2 : Served} (subject : String) (step : Step A)
    (write : A → Served → Reply × Served) (s : Served)
    → finish_with subject step write s ≡ (accepted n, s2)
    → (a : A) × (step ≡ go_on a) × (write a s ≡ (accepted n, s2))
finish-accepted subject (reply_with r denied_as) write s h = cc h
finish-accepted subject (go_on a) write s h = (a, refl, h)

-- The text of a request's operation.
abbrev pub op_text : Op → String
op_text grant_op = "grant"
op_text revoke_op = "revoke"

well_formed-op :
    (svc : Service) (req : GrantsRequest) (op : Op)
    → well_formed svc req ≡ go_on op
    → req.op ≡ op_text op
unfolding well_formed
well_formed-op svc req op h = ground (arith, h, eq_iff req.op "grant", eq_iff req.op "revoke")

-- When the grants route replies that it wrote, over a registry that knows no module with an empty
-- key, the request names a grant or a revoke and every tuple is permitted for that operation: it
-- appoints an administrator of the request's company and the caller passes the global superadmin
-- decision; or its object is the company's instance of a module, of which the caller is an
-- administrator; or its type is owned by a module and the object carries that module's anchor for
-- the request's company, in the table or, for a grant, among the tuples of the request, or the
-- request is a revoke by the module's owner and no anchor of the object is left. In the last two
-- cases the caller owns the enabled module or passes the decision for it.
pub handle_grants-All :
    (svc : Service) (l : Loaded) (claims : Claims) (req : GrantsRequest) (s s2 : Served) (n : ℕ)
    → svc.effective ≡ some l
    → lookup "" l.known_enabled ≡ none
    → handle_grants svc claims req s ≡ (accepted n, s2)
    → (op : Op) × (req.op ≡ op_text op)
      × All (IsPermitted svc l s.db claims req.company_id op req.tuples) req.tuples
unfolding handle_grants
handle_grants-All svc l claims req s s2 n loaded_as named h =
    let (op, w, h2) = finish-accepted claims.subject (well_formed svc req) _ s h in
    let (m, e, _) =
      finish-accepted claims.subject (authorize svc l s.db claims req.company_id op req.tuples) _ s
        (rw loaded_as at h2) in
    (
      op,
      well_formed-op svc req op w,
      authorize-All svc l s.db claims req.company_id op req.tuples m named e,
    )
