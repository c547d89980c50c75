-- ===== src/Tests/StoreTests.antt =====
-- Concrete writes by the models of internal/authz/store and of the platform role.
use kiban.Shared.{
  String, ◌≡◌, ◌≢◌, refl, Bool, true, false, not, ◌&&◌, none, some, List, [], ◌∷◌, contains, lookup,
  arith,
}
use kiban.Engine.Model.{Model, this, definition}
use kiban.Engine.Eval.{answer, check_in_company}
use kiban.Store.Tables.{
  Tuple, tuple_eq, Op, grant_op, revoke_op, Db, Result, ok, err, Claims, grant, write_tuples,
  write_each, write_one, grant_one, revoke_one, insert_tuple, same_object, superadmin_tuple,
  count_superadmins, ensure_default_grant, ensure_company_module_anchor,
}
use kiban.Store.Keeps.{Keeps}
use kiban.Store.Ledger.{replay, IsReplayed, write_tuples-IsReplayed}
use kiban.Store.Anchor.{OneAnchor, write_tuples-OneAnchor, revoke_one-anchor}
use kiban.Store.Superadmins.{Roles, IsGoverned, change_roles, change_roles-IsGoverned}
use kiban.Store.Checks.{node_of, env_of, grant-check}
use kiban.Store.DefaultGrant.{anchor_tuple, IsAnchoredFrom, ensure_default_grant_once}

abbrev direct : String → String → String → String → String → Tuple
direct typ id rel subject_type subject_id = record {
  object_type = typ;
  object_id = id;
  relation = rel;
  subject_type = subject_type;
  subject_id = subject_id;
  subject_relation = "";
}

abbrev no_db : Db
no_db = record { tuples = []; ledger = [] }

abbrev anchor : Tuple
anchor = direct "doc" "d" "company_module" "company_module" "c1/docs"

abbrev reader : Tuple
reader = direct "doc" "d" "reader" "user" "ann"

-- An anchored document and its reader, written with the newest row first.
abbrev anchored : Db
anchored = record {
  tuples = reader ∷ anchor ∷ [];
  ledger =
      record { actor = "root"; op = grant_op; tuple = reader; correlation_id = none }
      ∷ record { actor = "root"; op = grant_op; tuple = anchor; correlation_id = none }
      ∷ [];
}

granted_in_order : grant "root" "" (anchor ∷ reader ∷ []) no_db ≡ ok anchored
unfolding write_tuples write_each write_one grant_one insert_tuple contains
granted_in_order = refl

no_db-IsReplayed : IsReplayed no_db
unfolding contains replay
no_db-IsReplayed t = refl

write_tuples-IsReplayed_example :
    Keeps IsReplayed (write_tuples "root" "" grant_op (anchor ∷ reader ∷ []) no_db)
write_tuples-IsReplayed_example =
    write_tuples-IsReplayed "root" "" grant_op (anchor ∷ reader ∷ []) no_db no_db-IsReplayed

no_db-OneAnchor : OneAnchor no_db
unfolding contains
no_db-OneAnchor t u ct cu at au s = cc ct

write_tuples-OneAnchor_example :
    Keeps OneAnchor (write_tuples "root" "" grant_op (anchor ∷ reader ∷ []) no_db)
write_tuples-OneAnchor_example =
    write_tuples-OneAnchor "root" "" grant_op (anchor ∷ reader ∷ []) no_db no_db-OneAnchor

anchor_stored : contains anchor anchored.tuples ≡ true
unfolding contains
anchor_stored = refl

revoke_one-anchor_example :
    Keeps
      (λ db.
        contains reader db.tuples
        ≡ (not (same_object reader anchor) && contains reader anchored.tuples))
      (revoke_one "root" none anchor anchored)
revoke_one-anchor_example = revoke_one-anchor "root" none anchor anchored anchor_stored refl reader

abbrev one_root : Roles
one_root = record { db = record { tuples = superadmin_tuple "root" ∷ []; ledger = [] }; audit = [] }

one_root-IsGoverned : IsGoverned one_root
unfolding count_superadmins contains
one_root-IsGoverned = record { some_superadmin = ground arith; keyed = (refl, tt) }

abbrev handover : List (String × Op × String)
handover = ("root", grant_op, "ann") ∷ ("ann", revoke_op, "root") ∷ ("ann", revoke_op, "ann") ∷ []

change_roles-IsGoverned_example : IsGoverned (change_roles handover one_root)
change_roles-IsGoverned_example = change_roles-IsGoverned handover one_root one_root-IsGoverned

abbrev docs_model : Model
docs_model = ("doc", ("company_module", this) ∷ ("reader", this) ∷ []) ∷ []

reader_defined : (definition docs_model "doc" "reader") ≡ some this
unfolding definition lookup
reader_defined = refl

grant-check_example :
    Keeps
      (λ db.
        check_in_company (env_of docs_model db "user" "ann" "c1") (node_of reader) ≢ answer false)
      (grant "root" "" (reader ∷ []) no_db)
grant-check_example = grant-check docs_model "root" "" "c1" reader no_db refl reader_defined

abbrev defaulted : Result (Db × Claims × Bool)
defaulted = ensure_default_grant "root" "" "c1" "docs" no_db []

abbrev after_default : Db × Claims × Bool
after_default = elim defaulted [ ok out ↦ out | err x ↦ (no_db, [], false) ]

default_succeeds : defaulted ≡ ok after_default
unfolding ensure_default_grant ensure_company_module_anchor write_tuples write_each write_one
    grant_one insert_tuple contains
default_succeeds = refl

-- The default was claimed for another module too, and every tuple is gone again.
ensure_default_grant_once_example :
    (next : Db) × (ensure_default_grant "eve" "r2" "c1" "docs" no_db
        (("c1", "desk") ∷ after_default.1)
      ≡ ok (next, ("c1", "desk") ∷ after_default.1, false))
    × IsAnchoredFrom (anchor_tuple "c1" "docs") no_db next
ensure_default_grant_once_example =
    ensure_default_grant_once "root" "" "eve" "r2" "c1" "docs" no_db no_db [] (("c1", "desk") ∷ [])
      after_default default_succeeds
