-- ===== src/Modvalidate/Sql/Tokens.antt =====
-- `tokenize` of internal/modvalidate/sqlscan.go. A loop over an index into `src` is a recursion on
-- the bytes that are left.
use kiban.Shared.{
  ℕ, zero, suc, ◌+◌, ◌-◌, Bool, true, false, not, ◌&&◌, ◌||◌, List, [], ◌∷◌, ◌++◌, map, Option,
  none, some, ◌==◌, nat_eq, if◌then◌else◌, length,
}
use kiban.Modvalidate.Sql.Bytes.{
  Bytes, is_digit, is_ident_start, is_ident_char, lower, next_is, strip,
}

pub data TokKind : Type 0 where
  ident string number punct : TokKind

pub record Token : Type 0 where
  pub kind : TokKind
  pub text : Bytes
  pub quoted : Bool

abbrev pub token : TokKind → Bytes → Token
token kind text = record { kind = kind; text = text; quoted = false }

abbrev pub quoted_ident : Bytes → Token
quoted_ident text = record { kind = ident; text = text; quoted = true }

unfoldable pub is_space : ℕ → Bool
is_space c = c == b' ' || c == b'\t' || c == b'\n' || c == b'\r'

-- a `--` comment, up to its newline
unfoldable pub skip_line : Bytes → Bytes
skip_line [] = []
skip_line (c ∷ s) = if c == b'\n' then c ∷ s else skip_line s

-- a block comment, with those inside it; the depth is positive at each `*/`
unfoldable pub skip_block : ℕ → Bytes → Bytes
skip_block depth [] = []
skip_block depth (c ∷ []) = []
skip_block depth (c ∷ d ∷ s) =
    let deeper = skip_block (depth + 1) s in
    let outer = skip_block (depth - 1) s in
    let next = skip_block depth (d ∷ s) in
    if c == b'/' && d == b'*'
    then deeper
    else if c == b'*' && d == b'/'
    then (if depth - 1 == 0 then s else outer)
    else next

-- `b.WriteByte(c)`
abbrev pub push : ℕ → Bytes × Bytes → Bytes × Bytes
push c (text, rest) = (c ∷ text, rest)

-- The loops behind an opening quote `q`, a quote twice standing for one: the text, and what is left.
unfoldable pub read_quoted : ℕ → Bool → Bytes → Bytes × Bytes
read_quoted q escaped [] = ([], [])
read_quoted q escaped (c ∷ []) = if c == q then ([], []) else (c ∷ [], [])
read_quoted q escaped (c ∷ d ∷ s) =
    let literal = push d (read_quoted q escaped s) in
    let doubled = push q (read_quoted q escaped s) in
    let next = push c (read_quoted q escaped (d ∷ s)) in
    if escaped && c == b'\\'
    then literal
    else if c == q
    then (if d == q then doubled else ([], d ∷ s))
    else next

-- The longest prefix whose bytes pass a test, and what is left.
unfoldable pub span : (ℕ → Bool) → Bytes → Bytes × Bytes
span p [] = ([], [])
span p (c ∷ s) = let more = push c (span p s) in if p c then more else ([], c ∷ s)

-- what `split_at` gives at the byte `c`, from the match there and the split of what follows
abbrev pub split_here : ℕ → Option Bytes → Option (Bytes × Bytes) → Option (Bytes × Bytes)
split_here c (some rest) later = some ([], rest)
split_here c none none = none
split_here c none (some (before, rest)) = some (c ∷ before, rest)

-- `strings.Index(src, tag)`: what stands before the first `tag`, and behind it
unfoldable pub split_at : Bytes → Bytes → Option (Bytes × Bytes)
split_at tag [] = none
split_at tag (c ∷ s) = let later = split_at tag s in split_here c (strip tag (c ∷ s)) later

abbrev pub is_tag_char : ℕ → Bool
is_tag_char c = is_ident_char c && not (c == b'$')

abbrev pub is_tag : Bytes → Bool
is_tag [] = true
is_tag (c ∷ s) = is_ident_start c

abbrev pub next_is_digit : Bytes → Bool
next_is_digit [] = false
next_is_digit (d ∷ s) = is_digit d

abbrev pub tail : Bytes → Bytes
tail [] = []
tail (c ∷ s) = s

-- the body of a dollar quote, up to its closing tag or the end
abbrev pub dollar_string : Bytes → Option (Bytes × Bytes) → Option Token × Bytes
dollar_string s none = (some (token string s), [])
dollar_string s (some (body, rest)) = (some (token string body), rest)

-- the case of `$`: a dollar quote, a parameter, or a bare punct
unfoldable pub lex_dollar : Bytes → Option Token × Bytes
lex_dollar s =
    let (name, rest) = span is_tag_char s in
    let tag = b'$' ∷ name ++ b'$' ∷ [] in
    if next_is b'$' rest && is_tag name
    then dollar_string (tail rest) (split_at tag (tail rest))
    else if next_is_digit s
    then (some (token number (b'$' ∷ [])), (span (λ c. c == b'$' || is_digit c) s).1)
    else (some (token punct (b'$' ∷ [])), s)

-- One round of the loop, at the byte `c` before `s`: the token that it appends, and what is left.
unfoldable pub lex_one : ℕ → Bytes → Option Token × Bytes
lex_one c s =
    if is_space c
    then (none, s)
    else if c == b'-' && next_is b'-' s
    then (none, skip_line (c ∷ s))
    else if c == b'/' && next_is b'*' s
    then (none, skip_block 0 (c ∷ s))
    else if c == b'\''
    then (let (text, rest) = read_quoted b'\'' false s in (some (token string text), rest))
    else if (c == b'e' || c == b'E') && next_is b'\'' s
    then (let (text, rest) = read_quoted b'\'' true (tail s) in (some (token string text), rest))
    else if c == b'"'
    then (let (text, rest) = read_quoted b'"' false s in (some (quoted_ident text), rest))
    else if c == b'$'
    then lex_dollar s
    else if is_ident_start c
    then (let (text, rest) = span is_ident_char (c ∷ s) in
        (some (token ident (map lower text)), rest))
    else if is_digit c
    then (let (text, rest) = span (λ d. is_ident_char d || d == b'.') (c ∷ s) in
        (some (token number text), rest))
    else (some (token punct (c ∷ [])), s)

-- `append(out, t)`, in a round that has a token
abbrev pub add_token : Option Token → List Token → List Token
add_token none ts = ts
add_token (some t) ts = t ∷ ts

-- the loop, on fuel
unfoldable pub lex : ℕ → Bytes → List Token
lex zero s = []
lex (suc fuel) [] = []
lex (suc fuel) (c ∷ s) = let (t, rest) = lex_one c s in add_token t (lex fuel rest)

-- Every round shortens the bytes, so that their number is fuel enough.
unfoldable pub tokenize : Bytes → List Token
tokenize s = lex (length s) s
