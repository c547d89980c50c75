-- ===== src/Store/DefaultGrant.antt =====
-- Calls of `EnsureDefaultGrant` of internal/authz/store/default_grant.go one after another.
use kiban.Shared.{
  refl, String, Bool, true, false, ◌||◌, [], ◌∷◌, ◌≡◌, if◌then◌else◌, ◌==◌, string_eq, Bool-cases,
  inl, inr, beq_self, ap, ◌∙◌, sym, beq-cases, ◌++◌, ◌⊎◌, contains, arith,
}
use Prim.Native.String.{◌++◌ as str_append}
use text.Mathlib.TextLemmas.{cons-append}
use kiban.Store.Tables.{
  Tuple, grant_op, entry, correlation, write_tuples, write_each, write_one, grant_one, insert_tuple,
  tuple_eq, Db, ok, ◌>>=◌, Result, err, Claims, is_claimed, grant, ensure_company_module_anchor,
  ensure_default_grant, module_system_tuple,
}

bind-ok :
    {A B : Type 0} {out : B} (call : Result A) (rest : A → Result B)
    → (call >>= rest) ≡ ok out
    → (value : A) × (call ≡ ok value) × (rest value ≡ ok out)
bind-ok (err failure) rest h = cc
bind-ok (ok value) rest h = (value, refl, h)

claimed_self : (c m : String) (claims : Claims) → is_claimed c m ((c, m) ∷ claims) ≡ true
claimed_self c m claims = rw (beq_self c) (rw (beq_self m))

module _ (actor corr company_id module_key : String) (claims : Claims)
    (out : Db × Claims × Bool) where
  named :
      (db : Db)
      → ensure_default_grant actor corr company_id module_key db claims ≡ ok out
      → (company_id == "" || module_key == "") ≡ false
  unfolding ensure_default_grant
  named db h = elim (Bool-cases (company_id == "" || module_key == "")) [
    | inl e ↦ cc (rw e at h)
    | inr e ↦ e
  ]

  out-claims :
      (db2 : Db)
      → (if is_claimed company_id module_key claims
          then ok (db2, claims, false)
          else (grant actor corr (module_system_tuple company_id module_key ∷ []) db2 >>= λ db3.
              ok (db3, (company_id, module_key) ∷ claims, true)))
        ≡ ok out
      → is_claimed company_id module_key out.1 ≡ true
  out-claims db2 h = elim (Bool-cases (is_claimed company_id module_key claims)) [
    | inl e ↦
        let same : out ≡ (db2, claims, false) = cc (rw e at h) in
        ap (λ o. is_claimed company_id module_key o.1) same ∙ e
    | inr e ↦
        let (db3, _, g) =
          bind-ok (grant actor corr (module_system_tuple company_id module_key ∷ []) db2) _
            (rw e at h) in
        let same : out ≡ (db3, (company_id, module_key) ∷ claims, true) = cc g in
        ap (λ o. is_claimed company_id module_key o.1) same
        ∙ claimed_self company_id module_key claims
  ]

  now_claimed :
      (db : Db)
      → ensure_default_grant actor corr company_id module_key db claims ≡ ok out
      → is_claimed company_id module_key out.1 ≡ true
  unfolding ensure_default_grant
  now_claimed db h =
      let (db2, _, g) =
        bind-ok (ensure_company_module_anchor actor corr company_id module_key db) _
          (rw (named db h) at h) in
      out-claims db2 g

-- The anchor of a company's instance of a module, written out.
abbrev pub anchor_tuple : String → String → Tuple
anchor_tuple company_id module_key = record {
  object_type = "company_module";
  object_id = str_append company_id (str_append "/" module_key);
  relation = "company";
  subject_type = "company";
  subject_id = company_id;
  subject_relation = "";
}

path-not_empty :
    (company_id module_key : String)
    → (company_id == "") ≡ false
    → (str_append company_id (str_append "/" module_key) == "") ≡ false
path-not_empty String.[] module_key h = cc h
path-not_empty (String.◌∷◌ c s) module_key h =
    elim (beq-cases (str_append (String.◌∷◌ c s) (str_append "/" module_key)) "") [
      | inl (e, _) ↦ cc (sym (cons-append c s (str_append "/" module_key)) ∙ e)
      | inr f ↦ f
    ]

-- Where the anchor is stored nothing changes, and else it is the newest tuple.
abbrev pub IsAnchoredFrom : Tuple → Db → Db → Type 0
IsAnchoredFrom t db next =
    (contains t db.tuples ≡ true) × (next ≡ db)
    ⊎ (contains t db.tuples ≡ false) × (next.tuples ≡ t ∷ db.tuples)

ensure_company_module_anchor-IsAnchoredFrom :
    (actor corr company_id module_key : String) (db : Db)
    → (company_id == "") ≡ false
    → (next : Db) × (ensure_company_module_anchor actor corr company_id module_key db ≡ ok next)
      × IsAnchoredFrom (anchor_tuple company_id module_key) db next
unfolding ensure_company_module_anchor write_tuples write_each write_one grant_one insert_tuple
ensure_company_module_anchor-IsAnchoredFrom actor corr company_id module_key db given =
    elim (Bool-cases (contains (anchor_tuple company_id module_key) db.tuples)) [
      | inl e ↦ (db, rw e, inl (e, refl))
      | inr e ↦ (
        record {
          tuples = anchor_tuple company_id module_key ∷ db.tuples;
          ledger =
              entry actor (correlation corr) grant_op (anchor_tuple company_id module_key)
              ∷ db.ledger;
        },
        rw (e, path-not_empty company_id module_key given, given, grant_one, insert_tuple) refl,
        inr (e, refl),
      )
    ]

is_claimed-append :
    (c m : String) (more claims : Claims)
    → is_claimed c m claims ≡ true
    → is_claimed c m (more ++ claims) ≡ true
is_claimed-append c m [] claims h = h
is_claimed-append c m (x ∷ more) claims h = ground (arith, is_claimed-append c m more claims h)

-- After a call of EnsureDefaultGrant that succeeded, whatever became of the tuples since and
-- whatever was claimed beside it, a later call for the same company and module, by any caller,
-- succeeds and says that it granted nothing: it leaves the tables alone where the company anchor
-- is stored, and else the anchor is the only new tuple.
pub ensure_default_grant_once :
    (actor corr caller caller_corr company_id module_key : String) (db later : Db)
    (claims more : Claims) (out : Db × Claims × Bool)
    → ensure_default_grant actor corr company_id module_key db claims ≡ ok out
    → (next : Db) × (ensure_default_grant caller caller_corr company_id module_key later
          (more ++ out.1)
        ≡ ok (next, more ++ out.1, false))
      × IsAnchoredFrom (anchor_tuple company_id module_key) later next
unfolding ensure_default_grant
ensure_default_grant_once actor corr caller caller_corr company_id module_key db later claims more
      out h =
    let n = named actor corr company_id module_key claims out db h in
    let (next, e, a) =
      ensure_company_module_anchor-IsAnchoredFrom caller caller_corr company_id module_key later
        (ground (arith, n)) in
    let c =
      is_claimed-append company_id module_key more out.1
        (now_claimed actor corr company_id module_key claims out db h) in
    (next, rw (n, e, c) refl, a)
