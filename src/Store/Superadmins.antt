-- ===== src/Store/Superadmins.antt =====
-- internal/authz/platform_role.go: the grant and the revocation of the platform role, in one
-- transaction under an advisory lock, which makes concurrent calls one after the other.
use kiban.Shared.{
  ℕ, suc, ◌+◌, ◌≤◌, String, Bool, true, false, not, ◌&&◌, Option, none, some, List, [], ◌∷◌, ◌≡◌,
  refl, ◌∙◌, if◌then◌else◌, ◌==◌, contains, remove, arith, leb, Bool-cases, beq-cases, inl, inr,
  ◌⊎◌, string_eq, remove_absent, contains-remove, subst,
}
use kiban.Store.Keeps.{Keeps, bind-Keeps}
use kiban.Store.Tables.{
  Tuple, tuple_eq, Op, grant_op, revoke_op, Db, StoreError, Result, ok, err, is_anchor, Inserted,
  present, violation, inserted, insert_tuple, superadmin_tuple, is_superadmin, count_superadmins,
  write_tuples, write_each, write_one, grant_one, revoke_one, grant, revoke, has_empty_field,
}

-- `errNotHeld`, `errLastSuperadmin`, or an error of the store
pub data RoleError : Type 0 where
  not_held last_superadmin : RoleError
  store_failed : StoreError → RoleError

-- The tables, with the audit rows of the role changes: actor, operation and subject.
pub record Roles : Type 0 where
  pub db : Db
  pub audit : List (String × Op × String)

-- One transaction: the tables after it, and its error. An error rolls everything back.
abbrev pub Outcome : Type 0
Outcome = Roles × Option RoleError

abbrev pub record_audit : String → Op → String → Roles → Result Db → Outcome
record_audit actor op subject_id r (ok db) =
    (record { db = db; audit = (actor, op, subject_id) ∷ r.audit }, none)
record_audit actor op subject_id r (err x) = (r, some (store_failed x))

-- `writePlatformRole`
unfoldable pub write_platform_role : String → Op → String → Roles → Outcome
write_platform_role actor grant_op subject_id r =
    record_audit actor grant_op subject_id r
      (grant actor "" (superadmin_tuple subject_id ∷ []) r.db)
write_platform_role actor revoke_op subject_id r =
    if not (contains (superadmin_tuple subject_id) r.db.tuples)
    then (r, some not_held)
    else if leb (count_superadmins r.db.tuples) 1
    then (r, some last_superadmin)
    else record_audit actor revoke_op subject_id r
        (revoke actor "" (superadmin_tuple subject_id ∷ []) r.db)

-- The table's primary key: no tuple twice.
abbrev pub Unique : List Tuple → Type 0
Unique [] = Unit
Unique (t ∷ ts) = (contains t ts ≡ false) × Unique ts

abbrev pub IsKeyed : Db → Type 0
IsKeyed db = Unique db.tuples

count-cons_le :
    (t : Tuple) (ts : List Tuple)
    → (count_superadmins ts ≤ count_superadmins (t ∷ ts))
      × (count_superadmins (t ∷ ts) ≤ count_superadmins ts + 1)
unfolding count_superadmins
count-cons_le t ts = elim (Bool-cases (is_superadmin t)) [
  | inl b ↦ rw b (omega arith, omega arith)
  | inr b ↦ rw b (omega arith, omega arith)
]

count-cons_mono :
    (t : Tuple) (ts us : List Tuple)
    → count_superadmins ts ≤ count_superadmins us + 1
    → count_superadmins (t ∷ ts) ≤ count_superadmins (t ∷ us) + 1
unfolding count_superadmins
count-cons_mono t ts us h = elim (Bool-cases (is_superadmin t)) [
  | inl b ↦ rw b (omega arith)
  | inr b ↦ rw b (omega arith)
]

-- Deleting a row of a keyed table loses at most one superadmin.
count-remove :
    (t : Tuple) (ts : List Tuple)
    → Unique ts
    → count_superadmins ts ≤ count_superadmins (remove t ts) + 1
unfolding remove
count-remove t [] u = omega arith
count-remove t (x ∷ ts) u = elim (beq-cases x t) [
  | inl (e, b) ↦
      rw b
        (rw (remove_absent t ts (subst (λ y. contains y ts ≡ false) e u.0)) (count-cons_le x ts).1)
  | inr b ↦ rw b (count-cons_mono x ts (remove t ts) (count-remove t ts u.1))
]

absent_of_remove :
    (t x : Tuple) (ts : List Tuple) → contains x ts ≡ false → contains x (remove t ts) ≡ false
absent_of_remove t x ts h = contains-remove x t ts ∙ both (not (t == x)) (contains x ts) h
  where
    both : (a b : Bool) → b ≡ false → (a && b) ≡ false
    both true b e = e
    both false b e = refl

Unique-remove : (t : Tuple) (ts : List Tuple) → Unique ts → Unique (remove t ts)
unfolding remove
Unique-remove t [] u = tt
Unique-remove t (x ∷ ts) u = elim (Bool-cases (x == t)) [
  | inl b ↦ rw b (Unique-remove t ts u.1)
  | inr b ↦ rw b (absent_of_remove t x ts u.0, Unique-remove t ts u.1)
]

-- The state in which the platform can be administered.
pub record IsGoverned (r : Roles) : Type 0 where
  pub some_superadmin : 1 ≤ count_superadmins r.db.tuples
  pub keyed : Unique r.db.tuples

abbrev Governs : Db → Type 0
Governs db = (1 ≤ count_superadmins db.tuples) × Unique db.tuples

record_audit-IsGoverned :
    (actor : String) (op : Op) (subject_id : String) (r : Roles) (res : Result Db)
    → IsGoverned r
    → Keeps Governs res
    → IsGoverned (record_audit actor op subject_id r res).0
record_audit-IsGoverned actor op subject_id r (ok db) g k = record {
  some_superadmin = k.0;
  keyed = k.1;
}
record_audit-IsGoverned actor op subject_id r (err x) g k = g

Inserted-cases : (i : Inserted) → (i ≡ present) ⊎ (i ≡ violation) ⊎ (i ≡ inserted)
Inserted-cases present = inl refl
Inserted-cases violation = inr (inl refl)
Inserted-cases inserted = inr (inr refl)

inserted-absent :
    (t : Tuple) (ts : List Tuple) → insert_tuple ts t ≡ inserted → contains t ts ≡ false
unfolding insert_tuple
inserted-absent t ts h = ground arith

grant_one-Governs :
    (actor : String) (corr : Option String) (t : Tuple) (db : Db)
    → Governs db
    → Keeps Governs (grant_one actor corr t db)
unfolding grant_one
grant_one-Governs actor corr t db g = elim (Inserted-cases (insert_tuple db.tuples t)) [
  | inl e ↦ rw (e, grant_one) g
  | inr (inl e) ↦ rw (e, grant_one) tt
  | inr (inr e) ↦
      rw (e, grant_one)
        (omega (arith, (count-cons_le t db.tuples).0), (inserted-absent t db.tuples e, g.1))
]

revoke_one-Governs :
    (actor : String) (corr : Option String) (t : Tuple) (db : Db)
    → is_anchor t ≡ false
    → 2 ≤ count_superadmins db.tuples
    → Unique db.tuples
    → Keeps Governs (revoke_one actor corr t db)
unfolding revoke_one
revoke_one-Governs actor corr t db a two u = elim (Bool-cases (contains t db.tuples)) [
  | inl c ↦ rw (c, a) (omega (arith, count-remove t db.tuples u), Unique-remove t db.tuples u)
  | inr c ↦ rw c (omega arith, u)
]

-- A call with one tuple.
single-Governs :
    (actor : String) (op : Op) (t : Tuple) (db : Db)
    → Keeps Governs
        (elim op [ grant_op ↦ grant_one actor none t db | revoke_op ↦ revoke_one actor none t db ])
    → Keeps Governs (write_tuples actor "" op (t ∷ []) db)
unfolding write_tuples write_each write_one
single-Governs actor op t db h = elim (Bool-cases (has_empty_field t)) [
  | inl e ↦ rw e tt
  | inr e ↦ rw e (bind-Keeps Governs _ _ h (λ db2 k. k))
]

-- Granting or revoking the platform role, whatever the call's outcome, leaves at least one holder
-- of it and no tuple twice.
write_platform_role-IsGoverned :
    (actor : String) (op : Op) (subject_id : String) (r : Roles)
    → IsGoverned r
    → IsGoverned (write_platform_role actor op subject_id r).0
unfolding write_platform_role
write_platform_role-IsGoverned actor grant_op subject_id r g =
    record_audit-IsGoverned actor grant_op subject_id r _ g (
      single-Governs actor grant_op (superadmin_tuple subject_id) r.db
        (grant_one-Governs actor none _ r.db (g.some_superadmin, g.keyed)))
write_platform_role-IsGoverned actor revoke_op subject_id r g =
    elim (Bool-cases (contains (superadmin_tuple subject_id) r.db.tuples)) [
      | inr c ↦ rw c g
      | inl c ↦ elim (Bool-cases (leb (count_superadmins r.db.tuples) 1)) [
        | inl l ↦ rw (c, l) g
        | inr l ↦
            rw (c, l)
              (record_audit-IsGoverned actor revoke_op subject_id r _ g (
                single-Governs actor revoke_op (superadmin_tuple subject_id) r.db
                  (revoke_one-Governs actor none _ r.db refl (leb-false _ 1 l) g.keyed)))
      ]
    ]
  where
    leb-false : (a b : ℕ) → leb a b ≡ false → suc b ≤ a
    leb-false a b h = ground arith

-- A history of role changes: each with its actor, its operation and its subject.
unfoldable pub change_roles : List (String × Op × String) → Roles → Roles
change_roles [] r = r
change_roles ((actor, op, subject_id) ∷ calls) r =
    change_roles calls (write_platform_role actor op subject_id r).0

-- Under any history of grants and revocations of the platform role, by any callers and with any
-- outcomes, a table that starts with a superadmin and with no tuple twice keeps both.
pub change_roles-IsGoverned :
    (calls : List (String × Op × String)) (r : Roles)
    → IsGoverned r
    → IsGoverned (change_roles calls r)
unfolding change_roles
change_roles-IsGoverned [] r g = g
change_roles-IsGoverned ((actor, op, subject_id) ∷ calls) r g =
    change_roles-IsGoverned calls _ (write_platform_role-IsGoverned actor op subject_id r g)
