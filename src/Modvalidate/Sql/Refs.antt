-- ===== src/Modvalidate/Sql/Refs.antt =====
-- Keywords and references in a statement, of internal/modvalidate/sqlscan.go. An index into the
-- tokens of a statement is the list of the tokens that stand from there on.
use kiban.Shared.{
  ℕ, zero, suc, ◌+◌, ◌-◌, String, Bool, true, false, not, ◌&&◌, List, [], ◌∷◌, ◌++◌, Option, none,
  some, ◌==◌, nat_eq, if◌then◌else◌, any,
}
use kiban.Modvalidate.Sql.Bytes.{Bytes, codes, bytes_eq}
use kiban.Modvalidate.Sql.Tokens.{TokKind, ident, string, number, punct, Token}

abbrev pub has_ident_kind : TokKind → Bool
has_ident_kind ident = true
has_ident_kind string = false
has_ident_kind number = false
has_ident_kind punct = false

abbrev pub has_punct_kind : TokKind → Bool
has_punct_kind ident = false
has_punct_kind string = false
has_punct_kind number = false
has_punct_kind punct = true

abbrev pub is_ident : Token → Bool
is_ident t = has_ident_kind t.kind

-- `t.kind == tPunct && t.text == "c"`
abbrev pub is_punct : ℕ → Token → Bool
is_punct c t = has_punct_kind t.kind && t.text == c ∷ []

-- `splitStatements`, with the tokens of the statement that is open
unfoldable pub split_from : List Token → List Token → List (List Token)
split_from [] [] = []
split_from (c ∷ cur) [] = (c ∷ cur) ∷ []
split_from [] (t ∷ ts) =
    let skip = split_from [] ts in
    let more = split_from (t ∷ []) ts in if is_punct b';' t then skip else more
split_from (c ∷ cur) (t ∷ ts) =
    let cut = (c ∷ cur) ∷ split_from [] ts in
    let more = split_from (c ∷ cur ++ t ∷ []) ts in if is_punct b';' t then cut else more

abbrev pub split_statements : List Token → List (List Token)
split_statements = split_from []

abbrev pub drop {ℓ} : {A : Type ℓ} → ℕ → List A → List A
drop zero xs = xs
drop (suc n) [] = []
drop (suc n) (x ∷ xs) = drop n xs

-- `kw(ts, i)`: the unquoted keyword, or the empty text
abbrev pub kw : List Token → Bytes
kw [] = []
kw (t ∷ ts) = if is_ident t && not t.quoted then t.text else []

-- `kw(ts, i) == word`
abbrev pub is_kw : String → List Token → Bool
is_kw word ts = kw ts == codes word

-- whether `kw(ts, i)` is one of the words of a set
abbrev pub in_kinds : List String → List Token → Bool
in_kinds words ts = any (λ w. is_kw w ts) words

-- `schemaRef`, without the position, which nothing reads
pub record SchemaRef : Type 0 where
  pub schema : Bytes
  pub name : Bytes

-- `ts[i].text == "."` with an identifier behind it
abbrev pub dot_ident : List Token → Bool
dot_ident [] = false
dot_ident (d ∷ []) = false
dot_ident (d ∷ u ∷ ts) = is_punct b'.' d && is_ident u

abbrev pub second_text : List Token → Bytes
second_text [] = []
second_text (d ∷ []) = []
second_text (d ∷ u ∷ ts) = u.text

abbrev no_ref : SchemaRef
no_ref = record { schema = []; name = [] }

-- the reference that starts with an identifier before `ts`
abbrev pub ref_of : Token → List Token → SchemaRef
ref_of t ts =
    if dot_ident ts
    then record { schema = t.text; name = second_text ts }
    else record { schema = []; name = t.text }

-- how many tokens the reference takes behind its first
abbrev pub more_tokens : List Token → ℕ
more_tokens ts = if dot_ident ts then (if dot_ident (drop 2 ts) then 4 else 2) else 0

-- whether `refAt` moves, which it does at an identifier
abbrev pub at_ref : List Token → Bool
at_ref [] = false
at_ref (t ∷ ts) = is_ident t

-- `refAt`: the reference, and the tokens behind it
unfoldable pub ref_at : List Token → SchemaRef × List Token
ref_at [] = (no_ref, [])
ref_at (t ∷ ts) = if is_ident t then (ref_of t ts, drop (more_tokens ts) ts) else (no_ref, t ∷ ts)

abbrev pub is_qualified : SchemaRef → Bool
is_qualified r = not (r.schema == [])

-- `allRefs`, over the first `n` tokens of the list, where the next `skip` belong to a reference
unfoldable pub refs_upto : ℕ → ℕ → List Token → List SchemaRef
refs_upto zero skip ts = []
refs_upto (suc n) skip [] = []
refs_upto (suc n) (suc skip) (t ∷ ts) = refs_upto n skip ts
refs_upto (suc n) zero (t ∷ ts) =
    let rest = refs_upto n (if is_ident t then more_tokens ts else 0) ts in
    if is_ident t && is_qualified (ref_of t ts) then ref_of t ts ∷ rest else rest

abbrev dml_words : List String
dml_words = "into" ∷ "update" ∷ "from" ∷ "join" ∷ "using" ∷ "only" ∷ []

-- `dmlRefs`, to the end of the statement
unfoldable pub dml_refs : List Token → List SchemaRef
dml_refs [] = []
dml_refs (t ∷ ts) =
    let rest = dml_refs ts in
    if in_kinds dml_words (t ∷ ts) && at_ref ts && is_qualified (ref_at ts).0
    then (ref_at ts).0 ∷ rest
    else rest

-- The tokens behind the first keyword `word`.
unfoldable pub after_kw : String → List Token → Option (List Token)
after_kw word [] = none
after_kw word (t ∷ ts) = if is_kw word (t ∷ ts) then some ts else after_kw word ts

-- How many tokens stand before the first keyword `word`.
unfoldable pub before_kw : String → List Token → ℕ
before_kw word [] = 0
before_kw word (t ∷ ts) = if is_kw word (t ∷ ts) then 0 else suc (before_kw word ts)

-- `for words[kw(ts, i)] { i++ }`
unfoldable pub skip_words : List String → List Token → List Token
skip_words words [] = []
skip_words words (t ∷ ts) = if in_kinds words (t ∷ ts) then skip_words words ts else t ∷ ts

-- the loop over a function's argument list
unfoldable pub skip_args : ℕ → List Token → List Token
skip_args depth [] = []
skip_args depth (t ∷ ts) =
    let deeper = skip_args (depth + 1) ts in
    let outer = skip_args (depth - 1) ts in
    let next = skip_args depth ts in
    if is_punct b'(' t
    then deeper
    else if is_punct b')' t
    then (if depth - 1 == 0 then ts else outer)
    else next

abbrev pub next_punct : ℕ → List Token → Bool
next_punct c [] = false
next_punct c (t ∷ ts) = is_punct c t

-- `nameList`
unfoldable pub name_list : List Token → List Bytes
name_list [] = []
name_list (t ∷ []) = if is_ident t then t.text ∷ [] else []
name_list (t ∷ comma ∷ ts) =
    let rest = name_list ts in
    if is_ident t then t.text ∷ (if is_punct b',' comma then rest else []) else []
