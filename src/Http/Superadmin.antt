-- ===== src/Http/Superadmin.antt =====
-- The platform role from its grant in internal/authz/platform_role.go to the decision that asks for
-- it, over the wiring of internal/authz/clients.go and http.go.
use kiban.Shared.{
  String, Bool, true, false, Option, none, some, List, [], ◌∷◌, ◌++◌, ◌≡◌, ◌≢◌, refl, sym, ◌∙◌, ap,
  Option-cases, inl, inr, string_eq, lookup, arith, subst,
}
use kiban.Engine.Model.{this, definition}
use kiban.Engine.Eval.{Answer, answer, failed, check_in_company}
use kiban.Store.Tables.{grant_op, Db, Result, ok, err, grant, superadmin_tuple}
use kiban.Store.Keeps.{Keeps}
use kiban.Store.Checks.{node_of, env_of, grant-check}
use kiban.Store.Superadmins.{Roles, write_platform_role, record_audit}
use kiban.Fragment.Load.{Loaded, check_loaded, is_in}
use kiban.Decision.Types.{Request, Deps, platform_role_required, scope_global}
use kiban.Decision.Evaluate.{evaluate}
use kiban.Decision.Gates.{Gate, gate, pass, denies, broken, verdict, identity_gates, gates_at}
use kiban.Decision.Gates.Verdict.{evaluate-verdict}
use kiban.Http.Wiring.{
  Sources, build_deps, fragment_checker, has_platform_role, platform_role_superadmin, checked,
}

-- A last gate that does not deny leaves no denial for its reason, behind gates with other reasons.
abbrev Others : List Gate → Type 0
Others [] = Unit
Others (pass ∷ gs) = Others gs
Others (denies r ∷ gs) = r ≢ platform_role_required
Others (broken ∷ gs) = Unit

other_verdict :
    (gs : List Gate) (o : Option Bool)
    → Others gs
    → o ≢ some false
    → verdict (gs ++ gate o platform_role_required ∷ []) ≢ platform_role_required
other_verdict [] none h k = λ e. cc
other_verdict [] (some true) h k = λ e. cc
other_verdict [] (some false) h k = absurd (k refl)
other_verdict (pass ∷ gs) o h k = other_verdict gs o h k
other_verdict (denies r ∷ gs) o h k = h
other_verdict (broken ∷ gs) o h k = λ e. cc

identity-Others : (d : Deps) (req : Request) → Others (identity_gates d req)
identity-Others d req = ground arith

granted_db :
    (actor subject_id : String) (r r2 : Roles) (res : Result Db)
    → record_audit actor grant_op subject_id r res ≡ (r2, none)
    → res ≡ ok r2.db
granted_db actor subject_id r r2 (ok db) h = ap ok (ap (λ o. o.0.db) h)
granted_db actor subject_id r r2 (err x) h = cc (ap (λ o. o.1) h)

checked-no : (a : Answer) → a ≢ answer false → checked a ≢ some false
checked-no (answer true) h = λ e. cc
checked-no (answer false) h = absurd (h refl)
checked-no (failed x) h = λ e. cc

module _ (l : Loaded) (defined : definition l.model "system" "superadmin" ≡ some this) where
  system_known : is_in "system" l.model ≡ true
  unfolding definition
  system_known = elim (Option-cases (lookup "system" l.model)) [
    | inl e ↦ cc (rw (e, definition) at defined)
    | inr (rels, e) ↦ rw (e, is_in) refl
  ]

  role_held :
      (actor subject_id : String) (r r2 : Roles)
      → write_platform_role actor grant_op subject_id r ≡ (r2, none)
      → has_platform_role (fragment_checker l r2.db) subject_id platform_role_superadmin
        ≢ some false
  unfolding write_platform_role check_loaded
  role_held actor subject_id r r2 h = rw system_known (
      checked-no _ (
        subst
          (Keeps (λ db.
            check_in_company (env_of l.model db "user" subject_id "")
              (node_of (superadmin_tuple subject_id))
            ≢ answer false))
          (granted_db actor subject_id r r2 (grant actor "" (superadmin_tuple subject_id ∷ []) r.db)
            h)
          (grant-check l.model actor "" "" (superadmin_tuple subject_id) r.db refl defined)))

-- After a grant of the platform role that succeeded, over a loaded model that defines the
-- superadmin relation of the system as direct, no global-scope decision for the role is refused
-- to the subject for the lack of it, whatever the other services answer.
pub write_platform_role-evaluate :
    (l : Loaded) (src : Sources) (actor : String) (r r2 : Roles) (req : Request)
    → definition l.model "system" "superadmin" ≡ some this
    → req.scope ≡ scope_global
    → req.required_platform_role ≡ platform_role_superadmin
    → write_platform_role actor grant_op req.subject_id r ≡ (r2, none)
    → (evaluate (build_deps src l r2.db) req).reason ≢ platform_role_required
write_platform_role-evaluate l src actor r r2 req defined global role h =
    subst (λ x. x ≢ platform_role_required)
      (sym (
        evaluate-verdict (build_deps src l r2.db) req
        ∙ ap (λ sc. verdict (gates_at (build_deps src l r2.db) req sc)) global))
      (other_verdict (identity_gates (build_deps src l r2.db) req) _
        (identity-Others (build_deps src l r2.db) req)
        (subst (λ x. has_platform_role (fragment_checker l r2.db) req.subject_id x ≢ some false)
          (sym role) (role_held l defined actor req.subject_id r r2 h)))
