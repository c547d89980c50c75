-- ===== src/Store/Tables.antt =====
-- internal/authz/store/store.go and default_grant.go: the tuple table and its ledger. The keys of
-- the table are those of migrations/authz/0002_authz_tables.sql and 0012_one_anchor_per_object.sql.
-- A failed statement rolls its transaction back, so an I/O error leaves both tables as they were.
use Prim.Native.String.{◌++◌ as str_append}
use kiban.Shared.{
  ℕ, String, Bool, true, false, not, ◌&&◌, ◌||◌, Option, none, some, List, [], ◌∷◌, ◌≡◌, ◌↔◌,
  if◌then◌else◌, ◌==◌, Eq, string_eq, contains, remove, keep, any, length, arith, eq_iff,
}

pub record Tuple : Type 0 where
  pub object_type : String
  pub object_id : String
  pub relation : String
  pub subject_type : String
  pub subject_id : String
  -- empty for a direct subject
  pub subject_relation : String

abbrev pub same_object : Tuple → Tuple → Bool
same_object t u = t.object_type == u.object_type && t.object_id == u.object_id

abbrev tuple_beq : Tuple → Tuple → Bool
tuple_beq t u =
    t.object_type == u.object_type
    && t.object_id == u.object_id
    && t.relation == u.relation
    && t.subject_type == u.subject_type
    && t.subject_id == u.subject_id
    && t.subject_relation == u.subject_relation

pub tuple_beq_iff : (t u : Tuple) → (tuple_beq t u ≡ true) ↔ (t ≡ u)
tuple_beq_iff t u = ground (
  arith,
  eq_iff t.object_type u.object_type,
  eq_iff t.object_id u.object_id,
  eq_iff t.relation u.relation,
  eq_iff t.subject_type u.subject_type,
  eq_iff t.subject_id u.subject_id,
  eq_iff t.subject_relation u.subject_relation,
)

instance abbrev pub tuple_eq : Eq Tuple
tuple_eq = record { same = tuple_beq; same_iff = tuple_beq_iff }

pub data Op : Type 0 where
  grant_op revoke_op : Op

-- A row of grant_ledger.
pub record Entry : Type 0 where
  pub actor : String
  pub op : Op
  pub tuple : Tuple
  pub correlation_id : Option String

-- The tables, with the newest row of each first.
pub record Db : Type 0 where
  pub tuples : List Tuple
  pub ledger : List Entry

pub data StoreError : Type 0 where
  no_tuples : StoreError
  empty_field : Tuple → StoreError
  anchor_conflict : Tuple → StoreError
  missing_argument : StoreError

pub data Result {ℓ} (A : Type ℓ) : Type ℓ where
  err : StoreError → Result A
  ok : A → Result A

-- `if err != nil { return err }` after a call, and what follows it
infixl 5 ◌>>=◌
abbrev pub ◌>>=◌ {ℓ κ} : {A : Type ℓ} {B : Type κ} → Result A → (A → Result B) → Result B
err failure >>= rest = err failure
ok value >>= rest = rest value

-- The rows of the partial unique index on (object_type, object_id).
abbrev pub is_anchor : Tuple → Bool
is_anchor t = t.relation == "company_module" && t.subject_type == "company_module"

abbrev pub clashes : Tuple → Tuple → Bool
clashes t u = is_anchor u && same_object u t

-- What an `INSERT … ON CONFLICT DO NOTHING` does: no row, a row, or a violation of the index.
pub data Inserted : Type 0 where
  present : Inserted
  violation : Inserted
  inserted : Inserted

unfoldable pub insert_tuple : List Tuple → Tuple → Inserted
insert_tuple ts t =
    if contains t ts
    then present
    else if is_anchor t && any (clashes t) ts
    then violation
    else inserted

abbrev pub has_empty_field : Tuple → Bool
has_empty_field t =
    t.object_type == ""
    || t.object_id == ""
    || t.relation == ""
    || t.subject_type == ""
    || t.subject_id == ""

-- `corrID`: NULL for an empty correlation id
abbrev pub correlation : String → Option String
correlation c = if c == "" then none else some c

abbrev pub entry : String → Option String → Op → Tuple → Entry
entry actor corr op t = record { actor = actor; op = op; tuple = t; correlation_id = corr }

-- the ledger rows of `revokeObjectRest`, in the order of the deleted rows
unfoldable pub log_revoked : String → Option String → List Tuple → List Entry → List Entry
log_revoked actor corr [] ledger = ledger
log_revoked actor corr (t ∷ gone) ledger =
    log_revoked actor corr gone (entry actor corr revoke_op t ∷ ledger)

-- `revokeObjectRest`
unfoldable pub revoke_object_rest : String → Option String → Tuple → Db → Db
revoke_object_rest actor corr t db = record {
  tuples = keep (λ u. not (same_object u t)) db.tuples;
  ledger = log_revoked actor corr (keep (λ u. same_object u t) db.tuples) db.ledger;
}

-- the body of the loop in `writeTuples`
unfoldable pub grant_one : String → Option String → Tuple → Db → Result Db
grant_one actor corr t db = elim (insert_tuple db.tuples t) [
  | present ↦ ok db
  | violation ↦ err (anchor_conflict t)
  | inserted ↦
      ok (record { tuples = t ∷ db.tuples; ledger = entry actor corr grant_op t ∷ db.ledger })
]

unfoldable pub revoke_one : String → Option String → Tuple → Db → Result Db
revoke_one actor corr t db =
    if contains t db.tuples
    then (let deleted : Db = record {
      tuples = remove t db.tuples;
      ledger = entry actor corr revoke_op t ∷ db.ledger;
    } in
        ok (if is_anchor t then revoke_object_rest actor corr t deleted else deleted))
    else ok db

unfoldable pub write_one : String → Option String → Op → Tuple → Db → Result Db
write_one actor corr op t db =
    if has_empty_field t
    then err (empty_field t)
    else elim op [ grant_op ↦ grant_one actor corr t db | revoke_op ↦ revoke_one actor corr t db ]

unfoldable pub write_each : String → Option String → Op → List Tuple → Db → Result Db
write_each actor corr op [] db = ok db
write_each actor corr op (t ∷ ts) db =
    write_one actor corr op t db >>= λ db2. write_each actor corr op ts db2

-- `writeTuples`, which `Grant` and `Revoke` call
unfoldable pub write_tuples : String → String → Op → List Tuple → Db → Result Db
write_tuples actor corr op [] db = err no_tuples
write_tuples actor corr op (t ∷ ts) db = write_each actor (correlation corr) op (t ∷ ts) db

abbrev pub grant : String → String → List Tuple → Db → Result Db
grant actor corr ts db = write_tuples actor corr grant_op ts db

abbrev pub revoke : String → String → List Tuple → Db → Result Db
revoke actor corr ts db = write_tuples actor corr revoke_op ts db

-- the `SELECT` of `AnchorOf`: the empty text where there is none
unfoldable pub anchor_of : List Tuple → String → String → String
anchor_of [] typ id = ""
anchor_of (t ∷ ts) typ id =
    if is_anchor t && t.object_type == typ && t.object_id == id
    then t.subject_id
    else anchor_of ts typ id

-- `MemberOfCompany`
unfoldable pub member_of_company : List Tuple → String → String → Bool
member_of_company ts company_id member_id =
    contains
      (record {
        object_type = "company";
        object_id = company_id;
        relation = "member";
        subject_type = "member";
        subject_id = member_id;
        subject_relation = "mapped_user";
      })
      ts

abbrev pub superadmin_tuple : String → Tuple
superadmin_tuple subject_id = record {
  object_type = "system";
  object_id = "platform";
  relation = "superadmin";
  subject_type = "user";
  subject_id = subject_id;
  subject_relation = "";
}

-- the rows that `CountSuperadmins` counts
abbrev pub is_superadmin : Tuple → Bool
is_superadmin t =
    t.object_type == "system"
    && t.object_id == "platform"
    && t.relation == "superadmin"
    && t.subject_type == "user"
    && t.subject_relation == ""

unfoldable pub count_superadmins : List Tuple → ℕ
count_superadmins ts = length (keep is_superadmin ts)

-- The tuples of `EnsureDefaultGrant` and `EnsureCompanyModuleAnchor`.
abbrev pub module_company_tuple : String → String → Tuple
module_company_tuple company_id module_key = record {
  object_type = "company_module";
  object_id = str_append company_id (str_append "/" module_key);
  relation = "company";
  subject_type = "company";
  subject_id = company_id;
  subject_relation = "";
}

abbrev pub module_system_tuple : String → String → Tuple
module_system_tuple company_id module_key = record {
  object_type = "company_module";
  object_id = str_append company_id (str_append "/" module_key);
  relation = "system";
  subject_type = "system";
  subject_id = "platform";
  subject_relation = "";
}

-- `EnsureCompanyModuleAnchor`
unfoldable pub ensure_company_module_anchor : String → String → String → String → Db → Result Db
ensure_company_module_anchor actor corr company_id module_key db =
    let t = module_company_tuple company_id module_key in
    if contains t db.tuples then ok db else grant actor corr (t ∷ []) db

-- The claims of table default_grant: pairs of a company and a module.
abbrev pub Claims : Type 0
Claims = List (String × String)

abbrev pub is_claimed : String → String → Claims → Bool
is_claimed company_id module_key = any (λ (c, m). c == company_id && m == module_key)

-- `EnsureDefaultGrant`: the tables after it, and whether it granted
unfoldable pub ensure_default_grant :
    String → String → String → String → Db → Claims → Result (Db × Claims × Bool)
ensure_default_grant actor corr company_id module_key db claims =
    if company_id == "" || module_key == ""
    then err missing_argument
    else (ensure_company_module_anchor actor corr company_id module_key db >>= λ db2.
        if is_claimed company_id module_key claims
        then ok (db2, claims, false)
        else (grant actor corr (module_system_tuple company_id module_key ∷ []) db2 >>= λ db3.
            ok (db3, (company_id, module_key) ∷ claims, true)))
