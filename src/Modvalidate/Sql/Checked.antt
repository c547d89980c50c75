-- ===== src/Modvalidate/Sql/Checked.antt =====
-- What ALTER and CREATE of internal/modvalidate/sqlscan.go have checked where they fail nothing.
use kiban.Shared.{
  append-nil_left, append-nil_right, suc, String, Bool, true, false, not, ◌&&◌, none, List, [], ◌∷◌,
  ◌++◌, nat_eq, if◌then◌else◌, length, flat_map, ◌≡◌, ◌≢◌, refl, sym, ap, ◌∙◌, subst, ◌⊎◌, inl, inr,
  Memᴰ, Bool-cases,
}
use kiban.Modvalidate.Errors.{Rule}
use kiban.Modvalidate.Sql.Bytes.{bytes_eq}
use kiban.Modvalidate.Sql.Tokens.{Token}
use kiban.Modvalidate.Sql.Refs.{
  is_ident, in_kinds, is_kw, drop, SchemaRef, dot_ident, ref_of, more_tokens, ref_at, is_qualified,
  refs_upto, dml_refs, after_kw, before_kw,
}
use kiban.Modvalidate.Sql.Clauses.{
  SqlScan, cross, unsafe, create_kinds, alter_kinds, schema_scoped_kinds, forbid_anywhere,
  forbid_moves, alter_kind, alter_name, create_kind, create_name,
}
use kiban.Modvalidate.Sql.Scan.{
  check_ref, check_refs, check_on, check_body, alter_target, alter_object, alter, create_object,
  create,
}
use kiban.Modvalidate.Sql.Listed.{Occurs, steps, Occurs-steps, refs_upto-Mem}

pub flat_map-nil :
    (f : SchemaRef → List Rule) (r : SchemaRef) (rs : List SchemaRef)
    → flat_map f rs ≡ []
    → Memᴰ r rs
    → f r ≡ []
flat_map-nil f r [] h m = elim m [ ]
flat_map-nil f r (q ∷ rs) h (Memᴰ.head e) = ap f e ∙ append-nil_left (f q) (flat_map f rs) h
flat_map-nil f r (q ∷ rs) h (Memᴰ.tail m) =
    flat_map-nil f r rs (append-nil_right (f q) (flat_map f rs) h) m

-- An occurrence behind a name is the name, or is listed behind it.
pub name-or_listed :
    (r : SchemaRef) (name : List Token)
    → r.schema ≢ []
    → Occurs r false name
    → (r ≡ (ref_at name).0) ⊎ Memᴰ r (refs_upto (length (ref_at name).1) 0 (ref_at name).1)
unfolding ref_at
name-or_listed r [] q o = absurd o
name-or_listed r (t ∷ ts) q o = elim (Bool-cases (is_ident t)) [
  | inr f ↦ rw f (inr (refs_upto-Mem r q false (t ∷ ts) o))
  | inl i ↦ rw i (by_place o)
]
  where
    by_place :
        Occurs r false (t ∷ ts)
        → (r ≡ ref_of t ts)
          ⊎ Memᴰ r (refs_upto (length (drop (more_tokens ts) ts)) 0 (drop (more_tokens ts) ts))
    by_place (inl (b, i, e, h)) = inl (rw e h)
    by_place (inr p) = elim (Bool-cases (dot_ident ts)) [
      | inr f ↦ rw f (inr (refs_upto-Mem r q _ ts p))
      | inl e ↦ rw e (
          let (b, later) = Occurs-steps r _ ts e p in
          inr (refs_upto-Mem r q b (drop (steps ts) ts) later))
    ]

if-nil : (b : Bool) (xs ys : List Rule) → (if b then xs else ys) ≡ [] → b ≡ true → xs ≡ []
if-nil true xs ys h e = h
if-nil false xs ys h e = cc e

not_then :
    (b : Bool) (rules : List Rule)
    → (if not b then unsafe else rules) ≡ []
    → (b ≡ true) × (rules ≡ [])
not_then true rules h = (refl, h)
not_then false rules h = cc h

before_none :
    (word : String) (ts : List Token) → after_kw word ts ≡ none → before_kw word ts ≡ length ts
unfolding after_kw before_kw
before_none word [] h = refl
before_none word (t ∷ ts) h = elim (Bool-cases (is_kw word (t ∷ ts))) [
  | inl e ↦ cc (rw e at h)
  | inr f ↦ rw f (ap suc (before_none word ts (rw f at h)))
]

-- A target is read from the name where the kind does not stand on a table.
target_plain :
    (s : SqlScan) (on_table : Bool) (ts : List Token)
    → on_table ≡ false
    → alter_target s on_table ts ≡ ref_at ts
unfolding alter_target
target_plain s on_table ts h = rw h

-- What an accepted statement has checked.
pub record IsChecked (s : SqlScan) (name : List Token) : Type 0 where
  pub at_name : is_qualified (ref_at name).0 ≡ true → check_ref s true (ref_at name).0 ≡ []
  pub behind : check_refs s (length (ref_at name).1) (ref_at name).1 ≡ []

alter_object-IsChecked :
    (s : SqlScan) (all kind name : List Token)
    → in_kinds ("trigger" ∷ "policy" ∷ []) kind ≡ false
    → alter_object s all kind name ≡ []
    → IsChecked s name
unfolding alter_object
alter_object-IsChecked s all kind name plain h = by_target _ (target_plain s _ name plain) h
  where
    by_target :
        (found : SchemaRef × List Token)
        → found ≡ ref_at name
        → ((forbid_anywhere all ++ forbid_moves name)
              ++ (if is_qualified found.0 then check_ref s true found.0 else cross))
            ++ check_refs s (length found.1) found.1
          ≡ []
        → IsChecked s name
    by_target found e h =
        subst
          (λ (f : SchemaRef × List Token).
            (is_qualified f.0 ≡ true → check_ref s true f.0 ≡ [])
              × (check_refs s (length f.1) f.1 ≡ [])
            → IsChecked s name)
          (sym e) (λ c. record { at_name = c.0; behind = c.1 })
          (
            if-nil (is_qualified found.0) (check_ref s true found.0) cross (
                append-nil_right (forbid_anywhere all ++ forbid_moves name) _
                  (append-nil_left _ (check_refs s (length found.1) found.1) h)),
            append-nil_right _ (check_refs s (length found.1) found.1) h,
          )

pub alter-IsChecked :
    (s : SqlScan) (ts : List Token)
    → in_kinds ("trigger" ∷ "policy" ∷ []) (alter_kind ts) ≡ false
    → alter s ts ≡ []
    → IsChecked s (alter_name ts)
unfolding alter
alter-IsChecked s ts plain h =
    alter_object-IsChecked s ts (alter_kind ts) (alter_name ts) plain
      (not_then (in_kinds alter_kinds (alter_kind ts))
        (alter_object s ts (alter_kind ts) (alter_name ts)) h).1

-- A query behind AS is the one place where references are read by position only.
abbrev pub HasNoQuery : List Token → List Token → Type 0
HasNoQuery kind name =
    (in_kinds ("view" ∷ "table" ∷ []) kind ≡ false) ⊎ (after_kw "as" (ref_at name).1 ≡ none)

body_checked :
    (s : SqlScan) (has_query : Bool) (next : List Token)
    → (has_query ≡ false) ⊎ (after_kw "as" next ≡ none)
    → check_body s has_query next ≡ []
    → check_refs s (length next) next ≡ []
body_checked s false next none_there h = h
body_checked s true next (inl e) h = cc e
body_checked s true next (inr e) h =
    ap (λ n. check_refs s n next) (sym (before_none "as" next e))
    ∙ append-nil_right (flat_map (check_ref s false) (dml_refs (drop (before_kw "as" next) next)))
        (check_refs s (before_kw "as" next) next) h

create_object-IsChecked :
    (s : SqlScan) (all kind name : List Token)
    → HasNoQuery kind name
    → create_object s all kind name ≡ []
    → IsChecked s name
unfolding create_object
create_object-IsChecked s all kind name plain h = record {
  at_name = if-nil (is_qualified (ref_at name).0) (check_ref s true (ref_at name).0) [] (
      append-nil_right
        (forbid_anywhere all
          ++ (if in_kinds schema_scoped_kinds kind && not (is_qualified (ref_at name).0)
              then cross
              else []))
        _
        (append-nil_left _
          (check_on s (in_kinds ("index" ∷ "trigger" ∷ "policy" ∷ []) kind) (ref_at name).1)
          (append-nil_left _ (check_body s (in_kinds ("view" ∷ "table" ∷ []) kind) (ref_at name).1)
            h)));
  behind =
      body_checked s (in_kinds ("view" ∷ "table" ∷ []) kind) (ref_at name).1 plain (
        append-nil_right _ (check_body s (in_kinds ("view" ∷ "table" ∷ []) kind) (ref_at name).1)
          h);
}

pub create-IsChecked :
    (s : SqlScan) (ts : List Token)
    → is_kw "schema" (create_kind ts) ≡ false
    → is_kw "extension" (create_kind ts) ≡ false
    → HasNoQuery (create_kind ts) (create_name ts)
    → create s ts ≡ []
    → IsChecked s (create_name ts)
unfolding create
create-IsChecked s ts no_schema no_extension plain h =
    create_object-IsChecked s ts (create_kind ts) (create_name ts) plain (
      neither (is_kw "schema" (create_kind ts)) (is_kw "extension" (create_kind ts)) _ _ _ no_schema
        no_extension (not_then (in_kinds create_kinds (create_kind ts)) _ h).1)
  where
    neither :
        (a b : Bool) (xs ys zs : List Rule)
        → a ≡ false
        → b ≡ false
        → (if a then xs else if b then ys else zs) ≡ []
        → zs ≡ []
    neither true b xs ys zs e f h = cc e
    neither false true xs ys zs e f h = cc f
    neither false false xs ys zs e f h = h
