-- ===== src/Modvalidate/Sql/Scan.antt =====
-- The rule table of internal/modvalidate/sqlscan.go. A failure is its rule: the module and the file
-- of all of them are those of the scan.
use kiban.Shared.{
  ℕ, String, Bool, true, false, not, ◌&&◌, ◌||◌, List, [], ◌∷◌, ◌++◌, none, some, ◌==◌, nat_eq,
  if◌then◌else◌, length, flat_map, any,
}
use kiban.Modvalidate.Errors.{Rule}
use kiban.Modvalidate.Sql.Bytes.{Bytes, codes, bytes_eq, has_prefix}
use kiban.Modvalidate.Sql.Tokens.{Token, tokenize}
use kiban.Modvalidate.Sql.Refs.{
  drop, kw, is_kw, in_kinds, SchemaRef, at_ref, ref_at, is_qualified, refs_upto, dml_refs, after_kw,
  before_kw, skip_words, name_list, split_statements,
}
use kiban.Modvalidate.Sql.Clauses.{
  SqlScan, cross, unsafe, Outcome, create_kinds, alter_kinds, drop_kinds, comment_kinds,
  schema_scoped_kinds, slice_at, forbid_anywhere, forbid_moves, forbid_grant_option, target_list,
  alter_kind, alter_name, create_kind, behind_concurrently, if_not_exists, create_name, problems,
  panics,
}

module _ (s : SqlScan) where
  -- `checkRef`
  unfoldable pub check_ref : Bool → SchemaRef → List Rule
  check_ref target r =
      if r.schema == s.module_key
      then []
      else if r.schema == codes "audit" && has_prefix (s.module_key ++ codes "__") r.name
      then []
      else if r.schema == codes "audit" && r.name == codes "reject_mutation"
      then (if not target || s.grandfathered then [] else cross)
      else if r.schema == codes "public" && r.name == codes "schema_version_" ++ s.module_key
      then []
      else cross

  -- `targetList`, and `checkRef` on each of its references
  abbrev pub check_targets : List Token → List Rule
  check_targets ts =
      let (rules, refs) = target_list (length ts) ts in rules ++ flat_map (check_ref true) refs

  abbrev pub check_refs : ℕ → List Token → List Rule
  check_refs n ts = flat_map (check_ref false) (refs_upto n 0 ts)

  -- `CREATE SCHEMA`
  abbrev pub create_schema : Bool → List Token → List Rule
  create_schema idempotent ts =
      (if not (kw ts == s.module_key) && not (is_kw "audit" ts && idempotent) then cross else [])
      ++ (if is_kw "authorization" (drop 1 ts) && not (is_kw "kiban" (drop 2 ts))
          then unsafe
          else [])

  abbrev pub create_extension : List Token → List Rule
  create_extension ts = if not (is_kw "pgcrypto" ts) || not (length ts == 1) then unsafe else []

  -- the `ON <table>` of an index, a trigger or a policy
  abbrev pub check_on : Bool → List Token → List Rule
  check_on on_table next = elim (after_kw "on" next) [
    | none ↦ []
    | some ts ↦
        if at_ref ts
        then (if is_qualified (ref_at ts).0
            then check_ref true (ref_at ts).0
            else if on_table
            then cross
            else [])
        else []
  ]

  -- the references behind the name; a query behind AS is read at its table positions
  abbrev pub check_body : Bool → List Token → List Rule
  check_body has_query next =
      if has_query
      then flat_map (check_ref false) (dml_refs (drop (before_kw "as" next) next))
        ++ check_refs (before_kw "as" next) next
      else check_refs (length next) next

  -- the rest of `create`, for the kinds that are no schema and no extension
  unfoldable pub create_object : List Token → List Token → List Token → List Rule
  create_object all kind ts =
      let (target, next) = ref_at ts in
      forbid_anywhere all
      ++ (if in_kinds schema_scoped_kinds kind && not (is_qualified target) then cross else [])
      ++ (if is_qualified target then check_ref true target else [])
      ++ check_on (in_kinds ("index" ∷ "trigger" ∷ "policy" ∷ []) kind) next
      ++ check_body (in_kinds ("view" ∷ "table" ∷ []) kind) next

  -- `create`
  unfoldable pub create : List Token → List Rule
  create ts =
      if not (in_kinds create_kinds (create_kind ts))
      then unsafe
      else if is_kw "schema" (create_kind ts)
      then create_schema (if_not_exists (behind_concurrently (drop 1 (create_kind ts))))
          (create_name ts)
      else if is_kw "extension" (create_kind ts)
      then create_extension (create_name ts)
      else create_object ts (create_kind ts) (create_name ts)

  -- the name that `alter` checks: for a trigger or a policy, that of its table
  unfoldable pub alter_target : Bool → List Token → SchemaRef × List Token
  alter_target on_table ts =
      if on_table
      then elim (after_kw "on" (ref_at ts).1) [ none ↦ ref_at ts | some table ↦ ref_at table ]
      else ref_at ts

  unfoldable pub alter_object : List Token → List Token → List Token → List Rule
  alter_object all kind ts =
      let (target, next) = alter_target (in_kinds ("trigger" ∷ "policy" ∷ []) kind) ts in
      forbid_anywhere all
      ++ forbid_moves ts
      ++ (if is_qualified target then check_ref true target else cross)
      ++ check_refs (length next) next

  -- `alter`
  unfoldable pub alter : List Token → List Rule
  alter ts =
      if not (in_kinds alter_kinds (alter_kind ts))
      then unsafe
      else alter_object ts (alter_kind ts) (alter_name ts)

  -- the tokens behind the first ON, in `drop` and `comment` for the kinds that stand on a table
  abbrev behind_on : Bool → List Token → List Token
  behind_on on_table ts =
      if on_table then elim (after_kw "on" ts) [ none ↦ ts | some table ↦ table ] else ts

  -- `drop`
  unfoldable pub drop_object : List Token → List Rule
  drop_object ts =
      let kind = drop 1 ts in
      let at = behind_concurrently (drop 2 ts) in
      let name = if is_kw "if" at && is_kw "exists" (drop 1 at) then drop 2 at else at in
      if not (in_kinds drop_kinds kind)
      then unsafe
      else if is_kw "schema" kind
      then (if kw name == s.module_key then [] else cross)
      else check_targets (behind_on (in_kinds ("trigger" ∷ "policy" ∷ []) kind) name)

  abbrev only_schemas : List Bytes → List Bytes → List Rule
  only_schemas allowed names = flat_map (λ n. if any (λ a. n == a) allowed then [] else cross) names

  -- the switch of `grant`, on what follows ON
  abbrev pub grant_on : List Token → List Rule
  grant_on ts =
      if is_kw "schema" ts
      then only_schemas (s.module_key ∷ codes "audit" ∷ []) (name_list (drop 1 ts))
      else if is_kw "all" ts
      then elim (after_kw "schema" ts) [
        | none ↦ []
        | some names ↦ only_schemas (s.module_key ∷ []) (name_list names)
      ]
      else if in_kinds ("table" ∷ "sequence" ∷ "function" ∷ "procedure" ∷ "routine" ∷ []) ts
      then check_targets (drop 1 ts)
      else if in_kinds
          ("database" ∷ "tablespace" ∷ "language" ∷ "foreign" ∷ "large" ∷ "type" ∷ "domain"
            ∷ "parameter" ∷ [])
          ts
      then unsafe
      else check_targets ts

  -- the roles that are granted to, or revoked from
  abbrev pub grant_roles : String → List Token → List Rule
  grant_roles word ts = elim (after_kw word ts) [
    | none ↦ []
    | some names ↦
        flat_map (λ r. if r == codes "kiban_" ++ s.module_key then [] else unsafe) (name_list names)
  ]

  -- `grant`
  unfoldable pub grant : List Token → List Rule
  grant ts = elim (after_kw "on" ts) [
    | none ↦ unsafe
    | some behind ↦
        forbid_grant_option ts
        ++ grant_on behind
        ++ grant_roles (if is_kw "revoke" ts then "from" else "to") behind
  ]

  -- `comment`
  unfoldable pub comment : List Token → Outcome
  comment ts =
      if not (is_kw "on" (drop 1 ts)) || not (in_kinds comment_kinds (drop 2 ts))
      then slice_at 2 ts unsafe
      else problems (
          check_targets (
            behind_on (in_kinds ("trigger" ∷ "policy" ∷ "constraint" ∷ []) (drop 2 ts))
              (drop 3 ts)))

  -- the case of TRUNCATE
  unfoldable pub truncate : List Token → List Rule
  truncate ts =
      let rest = skip_words ("table" ∷ "only" ∷ []) (drop 1 ts) in
      let (rules, refs) = target_list (length rest) rest in
      rules ++ flat_map (λ (r : SchemaRef). if r.schema == s.module_key then [] else unsafe) refs

  -- `statement`
  unfoldable pub statement : List Token → Outcome
  statement ts =
      if is_kw "create" ts
      then problems (create ts)
      else if is_kw "alter" ts
      then problems (alter ts)
      else if is_kw "drop" ts
      then problems (drop_object ts)
      else if in_kinds ("grant" ∷ "revoke" ∷ []) ts
      then problems (grant ts)
      else if is_kw "truncate" ts
      then problems (truncate ts)
      else if in_kinds ("insert" ∷ "update" ∷ "delete" ∷ "with" ∷ []) ts
      then problems (flat_map (check_ref true) (dml_refs ts))
      else if is_kw "comment" ts
      then comment ts
      else problems unsafe

  -- the failures so far, and those of the next statement
  abbrev add_problems : List Rule → Outcome → Outcome
  add_problems rules (problems more) = problems (rules ++ more)
  add_problems rules panics = panics

  abbrev both : Outcome → Outcome → Outcome
  both (problems rules) more = add_problems rules more
  both panics more = panics

  unfoldable pub scan_statements : List (List Token) → Outcome
  scan_statements [] = problems []
  scan_statements (st ∷ sts) = both (statement st) (scan_statements sts)

-- `grandfatheredMigrations`, by checksum
abbrev pub grandfathered_migrations : List String
grandfathered_migrations =
    "d6f7ea747260278ff115ac1d7597de8ef80bbccd3f40c7d6fb8cd9f48c883207"
    ∷ "dc4c983ab0fdfa989fc6bb5e11b0d841620260538123ce5c575227658298358e"
    ∷ "4fac26da34ae6af10d01b439e86cc0c54e84e4f2eaa4f66254f5dc6d2ed09241"
    ∷ "0aac013ce237b0395cf5680db60af67904a53837a45d37b3cc68a70af169d862" ∷ []

-- `scanMigration`, on the bytes of a file and its checksum
unfoldable pub scan_migration : Bytes → String → Bytes → Outcome
scan_migration key checksum contents =
    scan_statements
      (record {
        module_key = key;
        grandfathered = any (λ g. codes g == codes checksum) grandfathered_migrations;
      })
      (split_statements (tokenize contents))
