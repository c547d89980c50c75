-- ===== src/Modvalidate/Sql/Panics.antt =====
-- Where the scan of sqlscan.go panics, and a statement whose tail it does not read.
use kiban.Shared.{
  Bool, true, false, not, ◌||◌, List, [], ◌∷◌, if◌then◌else◌, ◌≡◌, ◌↔◌, refl, sym, ap, ◌∙◌, arith,
  beq_self, flat_map,
}
use kiban.Modvalidate.Errors.{Rule}
use kiban.Modvalidate.Sql.Bytes.{Bytes, codes, bytes_eq}
use kiban.Modvalidate.Sql.Tokens.{ident, Token, token}
use kiban.Modvalidate.Sql.Refs.{kw, is_kw, in_kinds, drop, dml_refs}
use kiban.Modvalidate.Sql.Clauses.{
  SqlScan, unsafe, Outcome, problems, panics, comment_kinds, slice_at,
}
use kiban.Modvalidate.Sql.Scan.{
  comment, drop_object, statement, check_ref, create, alter, grant, truncate,
}

-- Of the cases of `statement`, all but COMMENT have failures as their result.
last_case :
    (a b c d e f g : Bool) (p1 p2 p3 p4 p5 p6 : List Rule) (o : Outcome)
    → (if a
        then problems p1
        else if b
        then problems p2
        else if c
        then problems p3
        else if d
        then problems p4
        else if e
        then problems p5
        else if f
        then problems p6
        else if g
        then o
        else problems unsafe)
      ≡ panics
    → (g ≡ true) × (o ≡ panics)
last_case a b c d e f g p1 p2 p3 p4 p5 p6 o h = ground arith

slice_panics :
    (b : Bool) (ts : List Token) (rules more : List Rule)
    → (if b then slice_at 2 ts rules else problems more) ≡ panics
    → is_kw "comment" ts ≡ true
    → (t : Token) × (ts ≡ t ∷ [])
slice_panics true [] rules more h k = cc k
slice_panics true (t ∷ []) rules more h k = (t, refl)
slice_panics true (t ∷ u ∷ ts) rules more h k = cc h
slice_panics false ts rules more h k = cc h

lone_comment :
    (s : SqlScan) (ts : List Token)
    → statement s ts ≡ panics
    → (is_kw "comment" ts ≡ true) × ((t : Token) × (ts ≡ t ∷ []))
unfolding statement comment
lone_comment s ts h =
    (let (k, c) =
        last_case (is_kw "create" ts) (is_kw "alter" ts) (is_kw "drop" ts)
          (in_kinds ("grant" ∷ "revoke" ∷ []) ts) (is_kw "truncate" ts)
          (in_kinds ("insert" ∷ "update" ∷ "delete" ∷ "with" ∷ []) ts) (is_kw "comment" ts)
          (create s ts) (alter s ts) (drop_object s ts) (grant s ts) (truncate s ts)
          (flat_map (check_ref s true) (dml_refs ts)) (comment s ts) h in
      (
        k,
        slice_panics (not (is_kw "on" (drop 1 ts)) || not (in_kinds comment_kinds (drop 2 ts))) ts
            unsafe _ c k,
      ))

comment_panics :
    (s : SqlScan) (t : Token) → is_kw "comment" (t ∷ []) ≡ true → statement s (t ∷ []) ≡ panics
unfolding statement comment
comment_panics s t h = rw ((bytes_eq.same_iff (kw (t ∷ [])) (codes "comment")).0 h) refl

-- The scan of a statement panics exactly where the statement is the lone keyword COMMENT.
pub statement-panics :
    (s : SqlScan) (ts : List Token)
    → (statement s ts ≡ panics) ↔ ((is_kw "comment" ts ≡ true) × ((t : Token) × (ts ≡ t ∷ [])))
statement-panics s ts = (
  lone_comment s ts,
  λ (k, (t, e)). ap (statement s) e ∙ comment_panics s t (ap (is_kw "comment") (sym e) ∙ k),
)

abbrev pub word : Bytes → Token
word = token ident

-- DROP SCHEMA with the module's own schema as its first name, without CONCURRENTLY or IF before
-- it, is accepted whatever stands behind that name.
pub statement-drop_schema :
    (s : SqlScan) (rest : List Token)
    → is_kw "concurrently" (word s.module_key ∷ rest) ≡ false
    → is_kw "if" (word s.module_key ∷ rest) ≡ false
    → statement s (word (codes "drop") ∷ word (codes "schema") ∷ word s.module_key ∷ rest)
      ≡ problems []
unfolding statement drop_object
statement-drop_schema s rest h k = rw (h, k, beq_self s.module_key) refl
