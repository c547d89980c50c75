-- ===== src/Modvalidate/Sql/Fence.antt =====
-- What an accepted CREATE or ALTER may refer to: the fence of `checkRef` of sqlscan.go.
use kiban.Shared.{
  Bool, true, false, ◌&&◌, some, List, [], ◌∷◌, ◌++◌, ◌==◌, nat_eq, ◌≡◌, ◌≢◌, refl, sym, ap, ◌∙◌,
  ◌⊎◌, inl, inr, Bool-cases, Option-cases, beq-cases, arith,
}
use kiban.Modvalidate.Sql.Bytes.{Bytes, codes, bytes_eq, strip, has_prefix}
use kiban.Modvalidate.Sql.Tokens.{Token}
use kiban.Modvalidate.Sql.Refs.{in_kinds, is_kw, SchemaRef, is_qualified}
use kiban.Modvalidate.Sql.Clauses.{SqlScan, alter_kind, alter_name, create_kind, create_name}
use kiban.Modvalidate.Sql.Scan.{check_ref, alter, create}
use kiban.Modvalidate.Sql.Listed.{Occurs, qualified}
use kiban.Modvalidate.Sql.Checked.{
  flat_map-nil, name-or_listed, IsChecked, alter-IsChecked, HasNoQuery, create-IsChecked,
}

-- The module's own schema, its audit objects, the shared audit function, or its version table.
abbrev pub IsFenced : Bytes → SchemaRef → Type 0
IsFenced key r =
    (r.schema ≡ key)
    ⊎ ((r.schema ≡ codes "audit") × ((rest : Bytes) × (r.name ≡ (key ++ codes "__") ++ rest)))
    ⊎ ((r.schema ≡ codes "audit") × (r.name ≡ codes "reject_mutation"))
    ⊎ (r.schema ≡ codes "public") × (r.name ≡ codes "schema_version_" ++ key)

strip-append : (p s rest : Bytes) → strip p s ≡ some rest → s ≡ p ++ rest
unfolding strip
strip-append [] s rest h = ground (arith, h)
strip-append (c ∷ p) [] rest h = cc h
strip-append (c ∷ p) (d ∷ s) rest h = elim (beq-cases c d) [
  | inr f ↦ cc (rw f at h)
  | inl (e, t) ↦ ap (λ x. x ∷ s) (sym e) ∙ ap (λ x. c ∷ x) (strip-append p s rest (rw t at h))
]

and_true : (a b : Bool) → (a && b) ≡ true → (a ≡ true) × (b ≡ true)
and_true true b h = (refl, h)
and_true false b h = cc h

same : (a b : Bytes) → (a == b) ≡ true → a ≡ b
same a b h = (bytes_eq.same_iff a b).0 h

prefixed : (p s : Bytes) → has_prefix p s ≡ true → (rest : Bytes) × (s ≡ p ++ rest)
prefixed p s h = elim (Option-cases (strip p s)) [
  | inl e ↦ cc (rw (e, has_prefix) at h)
  | inr (rest, e) ↦ (rest, strip-append p s rest e)
]

module _ (s : SqlScan) where
  -- A reference that passes is within the fence.
  pub check_ref-IsFenced :
      (target : Bool) (r : SchemaRef) → check_ref s target r ≡ [] → IsFenced s.module_key r
  unfolding check_ref
  check_ref-IsFenced target r h = elim (Bool-cases (r.schema == s.module_key)) [
    | inl own ↦ inl (same r.schema s.module_key own)
    | inr a ↦
        elim (Bool-cases
          (r.schema == codes "audit" && has_prefix (s.module_key ++ codes "__") r.name)) [
            | inl e ↦
                (let (schema, name) = and_true (r.schema == codes "audit") _ e in
                  let (rest, p) = prefixed (s.module_key ++ codes "__") r.name name in
                  inr (inl (same r.schema (codes "audit") schema, (rest, p))))
            | inr b ↦
                elim (Bool-cases (r.schema == codes "audit" && r.name == codes "reject_mutation")) [
                  | inl e ↦
                      (let (schema, name) = and_true (r.schema == codes "audit") _ e in
                        inr (
                          inr (
                            inl (
                              same r.schema (codes "audit") schema,
                              same r.name (codes "reject_mutation") name,
                            ))))
                  | inr c ↦
                      elim (Bool-cases (
                        r.schema == codes "public"
                        && r.name == codes "schema_version_" ++ s.module_key)) [
                          | inl e ↦
                              (let (schema, name) = and_true (r.schema == codes "public") _ e in
                                inr (
                                  inr (
                                    inr (
                                      same r.schema (codes "public") schema,
                                      same r.name (codes "schema_version_" ++ s.module_key) name,
                                    ))))
                          | inr d ↦ cc (rw (a, b, c, d) at h)
                        ]
                ]
          ]
  ]

module _ (s : SqlScan) (r : SchemaRef) (q : r.schema ≢ []) where
  -- Where the name passes, and what is listed behind it, every occurrence passes.
  occurrence-IsFenced :
      (name : List Token) → IsChecked s name → Occurs r false name → IsFenced s.module_key r
  occurrence-IsFenced name c o = elim (name-or_listed r name q o) [
    | inl e ↦
        check_ref-IsFenced s true r
          (ap (check_ref s true) e ∙ c.at_name (ap is_qualified (sym e) ∙ qualified r q))
    | inr m ↦ check_ref-IsFenced s false r (flat_map-nil (check_ref s false) r _ c.behind m)
  ]

  -- An accepted ALTER of anything but a trigger or a policy names, from the name of its object
  -- on, among the qualified names whose schema is not empty only names in the schema of the
  -- module, of its audit objects, the shared audit function, or its version table.
  pub alter-IsFenced :
      (ts : List Token)
      → in_kinds ("trigger" ∷ "policy" ∷ []) (alter_kind ts) ≡ false
      → alter s ts ≡ []
      → Occurs r false (alter_name ts)
      → IsFenced s.module_key r
  alter-IsFenced ts plain h o = occurrence-IsFenced (alter_name ts) (alter-IsChecked s ts plain h) o

  -- An accepted CREATE without a query behind AS, of anything but a schema or an extension,
  -- names, from the name of its object on, among the qualified names whose schema is not empty
  -- only names within the same fence.
  pub create-IsFenced :
      (ts : List Token)
      → is_kw "schema" (create_kind ts) ≡ false
      → is_kw "extension" (create_kind ts) ≡ false
      → HasNoQuery (create_kind ts) (create_name ts)
      → create s ts ≡ []
      → Occurs r false (create_name ts)
      → IsFenced s.module_key r
  create-IsFenced ts no_schema no_extension plain h o =
      occurrence-IsFenced (create_name ts) (create-IsChecked s ts no_schema no_extension plain h) o
