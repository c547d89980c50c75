-- ===== src/Modvalidate/Sql/Clauses.antt =====
-- internal/modvalidate/sqlscan.go: the kinds of objects, where the parts of a statement stand, and the
-- failures that do not depend on the module.
use kiban.Shared.{ℕ, zero, suc, String, Bool, ◌&&◌, List, [], ◌∷◌, ◌++◌, nat_eq, if◌then◌else◌}
use kiban.Modvalidate.Errors.{Rule, migration_cross_schema, migration_unsafe_statement}
use kiban.Modvalidate.Sql.Bytes.{Bytes, bytes_eq}
use kiban.Modvalidate.Sql.Tokens.{Token}
use kiban.Modvalidate.Sql.Refs.{
  drop, is_kw, SchemaRef, at_ref, ref_at, is_qualified, skip_words, skip_args, next_punct,
}

-- `sqlScan`
pub record SqlScan : Type 0 where
  pub module_key : Bytes
  pub grandfathered : Bool

abbrev pub cross : List Rule
cross = migration_cross_schema ∷ []

abbrev pub unsafe : List Rule
unsafe = migration_unsafe_statement ∷ []

-- What the scan of a statement comes to.
pub data Outcome : Type 0 where
  problems : List Rule → Outcome
  panics : Outcome

abbrev pub create_modifiers : List String
create_modifiers =
    "or" ∷ "replace" ∷ "unique" ∷ "materialized" ∷ "temp" ∷ "temporary" ∷ "unlogged" ∷ "constraint"
    ∷ "global" ∷ "local" ∷ []

abbrev pub create_kinds : List String
create_kinds =
    "schema" ∷ "extension" ∷ "table" ∷ "index" ∷ "function" ∷ "procedure" ∷ "trigger" ∷ "type"
    ∷ "sequence" ∷ "view" ∷ "policy" ∷ "domain" ∷ []

abbrev pub alter_kinds : List String
alter_kinds =
    "table" ∷ "index" ∷ "function" ∷ "procedure" ∷ "trigger" ∷ "type" ∷ "sequence" ∷ "view"
    ∷ "policy" ∷ "domain" ∷ []

abbrev pub drop_kinds : List String
drop_kinds = "schema" ∷ alter_kinds

abbrev pub comment_kinds : List String
comment_kinds = "column" ∷ "constraint" ∷ alter_kinds

abbrev pub schema_scoped_kinds : List String
schema_scoped_kinds =
    "table" ∷ "function" ∷ "procedure" ∷ "type" ∷ "sequence" ∷ "view" ∷ "domain" ∷ []

-- `describe(ts[i:])`, of which only the slice is kept: it panics past the end
abbrev pub slice_at : ℕ → List Token → List Rule → Outcome
slice_at zero ts rules = problems rules
slice_at (suc i) [] rules = panics
slice_at (suc i) (t ∷ ts) rules = slice_at i ts rules

-- the two failures of a loop over neighbouring keywords
abbrev pub pair_is : String → String → List Token → Bool
pair_is a b ts = is_kw a ts && is_kw b (drop 1 ts)

-- `forbidAnywhere`
unfoldable pub forbid_anywhere : List Token → List Rule
forbid_anywhere [] = []
forbid_anywhere (t ∷ ts) =
    (if pair_is "security" "definer" (t ∷ ts)
      then unsafe
      else if is_kw "search_path" (t ∷ ts)
      then unsafe
      else [])
    ++ forbid_anywhere ts

-- the loop of `alter`
unfoldable pub forbid_moves : List Token → List Rule
forbid_moves [] = []
forbid_moves (t ∷ ts) =
    (if pair_is "owner" "to" (t ∷ ts)
      then unsafe
      else if pair_is "set" "schema" (t ∷ ts)
      then unsafe
      else [])
    ++ forbid_moves ts

-- the loop of `grant`
unfoldable pub forbid_grant_option : List Token → List Rule
forbid_grant_option [] = []
forbid_grant_option (t ∷ ts) =
    (if pair_is "grant" "option" (t ∷ ts) then unsafe else []) ++ forbid_grant_option ts

-- one round of the loop of `targetList`, before what the other rounds give
abbrev pub add_target : SchemaRef → List Rule × List SchemaRef → List Rule × List SchemaRef
add_target r (rules, refs) =
    if is_qualified r then (rules, r ∷ refs) else (migration_cross_schema ∷ rules, refs)

-- what follows a name and its argument list
abbrev pub behind_args : List Token → List Token
behind_args next = if next_punct b'(' next then skip_args 0 next else next

-- The references of `ref[, ref...]`, and a failure for each name without a schema. The fuel is the
-- number of tokens, and a round takes at least one.
unfoldable pub target_list : ℕ → List Token → List Rule × List SchemaRef
target_list zero ts = ([], [])
target_list (suc fuel) ts =
    let behind = behind_args (ref_at ts).1 in
    let rest = target_list fuel (drop 1 behind) in
    let more : List Rule × List SchemaRef = if next_punct b',' behind then rest else ([], []) in
    let found = add_target (ref_at ts).0 more in if at_ref ts then found else ([], [])

-- where the kind and the name stand in ALTER
abbrev pub alter_kind : List Token → List Token
alter_kind ts = if is_kw "materialized" (drop 1 ts) then drop 2 ts else drop 1 ts

abbrev pub alter_name : List Token → List Token
alter_name ts = skip_words ("if" ∷ "exists" ∷ "only" ∷ []) (drop 1 (alter_kind ts))

-- where the kind and the name stand in CREATE
abbrev pub create_kind : List Token → List Token
create_kind ts = skip_words create_modifiers (drop 1 ts)

abbrev pub behind_concurrently : List Token → List Token
behind_concurrently ts = if is_kw "concurrently" ts then drop 1 ts else ts

abbrev pub if_not_exists : List Token → Bool
if_not_exists ts = is_kw "if" ts && is_kw "not" (drop 1 ts) && is_kw "exists" (drop 2 ts)

abbrev pub behind_if : List Token → List Token
behind_if ts = if if_not_exists ts then drop 3 ts else ts

abbrev pub create_name : List Token → List Token
create_name ts = behind_if (behind_concurrently (drop 1 (create_kind ts)))
