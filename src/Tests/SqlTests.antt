-- ===== src/Tests/SqlTests.antt =====
-- Concrete migrations for the model of internal/modvalidate/sqlscan.go.
use kiban.Shared.{true, false, List, [], ◌∷◌, ◌≡◌, ◌≢◌, ◌↔◌, refl, inl, inr}
use kiban.Modvalidate.Errors.{migration_cross_schema}
use kiban.Modvalidate.Sql.Bytes.{Bytes, codes, is_ident_start, is_ident_char, lower, strip}
use kiban.Modvalidate.Sql.Tokens.{
  Token, token, quoted_ident, string, number, punct, is_space, tokenize, lex, lex_one, lex_dollar,
  span, read_quoted, skip_line, skip_block, split_at,
}
use kiban.Modvalidate.Sql.Printed.{print, tokenize-print}
use kiban.Modvalidate.Sql.Refs.{
  SchemaRef, is_kw, split_from, ref_at, refs_upto, dml_refs, after_kw, before_kw, skip_words,
  skip_args,
}
use kiban.Modvalidate.Sql.Clauses.{
  SqlScan, Outcome, problems, panics, forbid_anywhere, forbid_moves, target_list,
}
use kiban.Modvalidate.Sql.Scan.{
  check_ref, create, create_object, alter, alter_object, alter_target, drop_object, truncate,
  statement, scan_statements, scan_migration,
}
use kiban.Modvalidate.Sql.Fence.{IsFenced, alter-IsFenced, create-IsFenced}
use kiban.Modvalidate.Sql.Panics.{word, statement-panics, statement-drop_schema}

abbrev docs : SqlScan
docs = record { module_key = codes "docs"; grandfathered = false }

abbrev scan : Bytes → Outcome
scan sql = scan_migration (codes "docs") "" sql

scan_table :
    scan (codes "create table docs.file (id uuid, owner docs.owner); -- done") ≡ problems []
unfolding scan_migration scan_statements statement create create_object check_ref forbid_anywhere
    split_from ref_at refs_upto after_kw before_kw skip_words tokenize lex lex_one lex_dollar span
    read_quoted skip_line skip_block split_at is_space is_ident_start is_ident_char lower strip
    dml_refs
scan_table = refl

scan_other :
    scan (codes "drop table if exists docs.a, identity.users")
    ≡ problems (migration_cross_schema ∷ [])
unfolding scan_migration scan_statements statement drop_object target_list check_ref split_from
    ref_at skip_args tokenize lex lex_one span is_space is_ident_start is_ident_char lower strip
scan_other = refl

-- TRUNCATE stops at the asterisk, and a list behind FROM at its comma.
scan_truncate : scan (codes "truncate docs.a *, identity.users") ≡ problems []
unfolding scan_migration scan_statements statement truncate target_list check_ref split_from ref_at
    skip_args skip_words tokenize lex lex_one span is_space is_ident_start is_ident_char lower strip
scan_truncate = refl

scan_comma : scan (codes "delete from docs.a, identity.users") ≡ problems []
unfolding scan_migration scan_statements statement check_ref split_from ref_at dml_refs tokenize lex
    lex_one span is_space is_ident_start is_ident_char lower strip
scan_comma = refl

-- A schema's elements may be grants, which are not read.
scan_schema : scan (codes "create schema docs grant all on identity.users to public") ≡ problems []
unfolding scan_migration scan_statements statement create check_ref split_from skip_words tokenize
    lex lex_one span is_space is_ident_start is_ident_char lower strip
scan_schema = refl

abbrev printed : List Token
printed =
    word (codes "drop_1")
    ∷ quoted_ident (codes "say \"x\"")
    ∷ token string (codes "it's -- no comment")
    ∷ token number (codes "1.5")
    ∷ token punct (codes "$")
    ∷ token punct (codes ";")
    ∷ []

tokenize-print_example : tokenize (print printed) ≡ printed
unfolding is_ident_char is_ident_start lower is_space
tokenize-print_example = tokenize-print printed (
  (
    refl,
    (
      (refl, refl),
      ((refl, refl), ((refl, refl), ((refl, refl), ((refl, refl), ((refl, refl), tt))))),
    ),
  ),
  (tt, (refl, ((refl, (refl, (refl, (refl, (refl, tt))))), ((refl, refl), ((refl, refl), tt))))),
)

abbrev dot : Token
dot = token punct (codes ".")

abbrev alter_file : List Token
alter_file =
    word (codes "alter")
    ∷ word (codes "table")
    ∷ word (codes "docs")
    ∷ dot
    ∷ word (codes "file")
    ∷ word (codes "add")
    ∷ word (codes "owner")
    ∷ word (codes "docs")
    ∷ dot
    ∷ word (codes "owner")
    ∷ []

abbrev docs_owner : SchemaRef
docs_owner = record { schema = codes "docs"; name = codes "owner" }

not_empty : docs_owner.schema ≢ []
not_empty e = cc e

alter_accepted : alter docs alter_file ≡ []
unfolding alter alter_object alter_target forbid_anywhere forbid_moves check_ref ref_at refs_upto
    skip_words
alter_accepted = refl

alter-IsFenced_example : IsFenced (codes "docs") docs_owner
unfolding skip_words
alter-IsFenced_example =
    alter-IsFenced docs docs_owner not_empty alter_file refl alter_accepted
      (inr (inr (inr (inr (inr (inl (refl, refl, refl, refl)))))))

abbrev create_file : List Token
create_file =
    word (codes "create")
    ∷ word (codes "table")
    ∷ word (codes "docs")
    ∷ dot
    ∷ word (codes "file")
    ∷ token punct (codes "(")
    ∷ word (codes "docs")
    ∷ dot
    ∷ word (codes "owner")
    ∷ token punct (codes ")")
    ∷ []

create_accepted : create docs create_file ≡ []
unfolding create create_object forbid_anywhere check_ref ref_at refs_upto skip_words after_kw
    before_kw dml_refs
create_accepted = refl

create-IsFenced_example : IsFenced (codes "docs") docs_owner
unfolding skip_words ref_at after_kw
create-IsFenced_example =
    create-IsFenced docs docs_owner not_empty create_file refl refl (inr refl) create_accepted
      (inr (inr (inr (inr (inl (refl, refl, refl, refl))))))

statement-panics_example : (statement docs (word (codes "comment") ∷ []) ≡ panics) ↔ (
    (is_kw "comment" (word (codes "comment") ∷ []) ≡ true)
    × ((t : Token) × (word (codes "comment") ∷ [] ≡ t ∷ [])))
statement-panics_example = statement-panics docs (word (codes "comment") ∷ [])

abbrev and_identity : List Token
and_identity = token punct (codes ",") ∷ word (codes "identity") ∷ word (codes "cascade") ∷ []

drops_two_schemas :
    statement docs
      (word (codes "drop") ∷ word (codes "schema") ∷ word (codes "docs") ∷ and_identity)
    ≡ problems []
drops_two_schemas = statement-drop_schema docs and_identity refl refl
