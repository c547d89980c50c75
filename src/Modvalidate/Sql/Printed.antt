-- ===== src/Modvalidate/Sql/Printed.antt =====
-- A text of tokens, and that `tokenize` of sqlscan.go reads the tokens back.
use mathlib.Core.List.{append_assoc}
use kiban.Shared.{
  ℕ, Bool, true, false, not, ◌||◌, List, [], ◌∷◌, ◌++◌, map, Option, some, ◌==◌, nat_eq,
  if◌then◌else◌, ◌≡◌, refl, ap, ◌∙◌, inl, inr, arith, All, beq-cases, beq_self,
}
use kiban.Modvalidate.Sql.Bytes.{Bytes, next_is, is_digit, is_ident_start, is_ident_char, lower}
use kiban.Modvalidate.Sql.Tokens.{
  TokKind, ident, string, number, punct, Token, token, quoted_ident, is_space, read_quoted, push,
  span, lex_dollar, lex_one, add_token, tokenize, lex,
}
use kiban.Modvalidate.Sql.Lexed.{tokenize-cons}

-- A quote inside a text is written twice.
abbrev pub escape : ℕ → Bytes → Bytes
escape q [] = []
escape q (c ∷ s) = if c == q then q ∷ q ∷ escape q s else c ∷ escape q s

abbrev enclose : ℕ → Bytes → Bytes
enclose q s = q ∷ escape q s ++ q ∷ []

abbrev print_kind : TokKind → Bool → Bytes → Bytes
print_kind ident true text = enclose b'"' text
print_kind string quoted text = enclose b'\'' text
print_kind ident false text = text
print_kind number quoted text = text
print_kind punct quoted text = text

-- The tokens, each with a space behind it.
abbrev pub print : List Token → Bytes
print [] = []
print (t ∷ ts) = print_kind t.kind t.quoted t.text ++ b' ' ∷ print ts

abbrev pub is_number_char : ℕ → Bool
is_number_char c = is_ident_char c || c == b'.'

abbrev pub is_mark : ℕ → Bool
is_mark c = not (is_space c || c == b'\'' || c == b'"' || is_ident_start c || is_digit c)

abbrev IsWord : Bytes → Type 0
IsWord [] = ⊥
IsWord (c ∷ s) =
    (is_ident_start c ≡ true) × All (λ d. (is_ident_char d ≡ true) × (lower d ≡ d)) (c ∷ s)

abbrev IsNumber : Bytes → Type 0
IsNumber [] = ⊥
IsNumber (c ∷ s) = (is_digit c ≡ true) × All (λ d. is_number_char d ≡ true) (c ∷ s)

abbrev IsMark : Bytes → Type 0
IsMark [] = ⊥
IsMark (c ∷ []) = is_mark c ≡ true
IsMark (c ∷ d ∷ s) = ⊥

abbrev IsTokenOf : TokKind → Bool → Bytes → Type 0
IsTokenOf ident true text = Unit
IsTokenOf ident false text = IsWord text
IsTokenOf string quoted text = quoted ≡ false
IsTokenOf number quoted text = (quoted ≡ false) × IsNumber text
IsTokenOf punct quoted text = (quoted ≡ false) × IsMark text

-- A token that a text can have: a word of lower case, any quoted name, any string, a number or a mark.
abbrev pub IsToken : Token → Type 0
IsToken t = IsTokenOf t.kind t.quoted t.text

read-step :
    (q c : ℕ) (s : Bytes)
    → (c == q) ≡ false
    → read_quoted q false (c ∷ s) ≡ push c (read_quoted q false s)
unfolding read_quoted
read-step q c [] h = rw h
read-step q c (d ∷ s) h = rw h

read-end : (q : ℕ) (s : Bytes) → next_is q s ≡ false → read_quoted q false (q ∷ s) ≡ ([], s)
unfolding read_quoted
read-end q [] h = rw (beq_self q)
read-end q (d ∷ s) h = rw (beq_self q, h)

-- A text in quotes is read back, whatever it holds.
read_quoted-escape :
    (q : ℕ) (text rest : Bytes)
    → next_is q rest ≡ false
    → read_quoted q false (escape q text ++ q ∷ rest) ≡ (text, rest)
unfolding read_quoted
read_quoted-escape q [] rest h = read-end q rest h
read_quoted-escape q (c ∷ text) rest h = elim (beq-cases c q) [
  | inr f ↦
      rw f (
        read-step q c (escape q text ++ q ∷ rest) f
        ∙ ap (push c) (read_quoted-escape q text rest h))
  | inl (e, t) ↦ rw (t, beq_self q, e) (ap (push q) (read_quoted-escape q text rest h))
]

span-append :
    (p : ℕ → Bool) (w : Bytes) (d : ℕ) (s : Bytes)
    → All (λ c. p c ≡ true) w
    → p d ≡ false
    → span p (w ++ d ∷ s) ≡ (w, d ∷ s)
unfolding span
span-append p [] d s h k = rw k
span-append p (c ∷ w) d s h k = rw (h.0) (ap (push c) (span-append p w d s h.1 k))

lex_one-word :
    (c : ℕ) (s : Bytes)
    → is_ident_start c ≡ true
    → next_is b'\'' s ≡ false
    → lex_one c s ≡ (
      some (token ident (map lower (span is_ident_char (c ∷ s)).0)),
      (span is_ident_char (c ∷ s)).1,
    )
unfolding lex_one is_space is_ident_start
lex_one-word c s h k = ground arith

lex_one-number :
    (c : ℕ) (s : Bytes)
    → is_digit c ≡ true
    → lex_one c s
      ≡ (some (token number (span is_number_char (c ∷ s)).0), (span is_number_char (c ∷ s)).1)
unfolding lex_one is_space is_ident_start
lex_one-number c s h = ground arith

lex_dollar_mark : (s : Bytes) → lex_dollar (b' ' ∷ s) ≡ (some (token punct (b'$' ∷ [])), b' ' ∷ s)
unfolding lex_dollar span is_ident_char
lex_dollar_mark s = refl

lex_one-mark :
    (c : ℕ) (s : Bytes)
    → is_mark c ≡ true
    → lex_one c (b' ' ∷ s) ≡ (some (token punct (c ∷ [])), b' ' ∷ s)
unfolding lex_one is_space is_ident_start
lex_one-mark c s h = ground (arith, lex_dollar_mark s)

-- A word's next byte does not open a string.
no_quote :
    (s rest : Bytes)
    → All (λ d. (is_ident_char d ≡ true) × (lower d ≡ d)) s
    → next_is b'\'' (s ++ b' ' ∷ rest) ≡ false
unfolding is_ident_char is_ident_start
no_quote [] rest h = refl
no_quote (d ∷ s) rest h = ground (arith, h.0.0)

map-lower : (s : Bytes) → All (λ d. (is_ident_char d ≡ true) × (lower d ≡ d)) s → map lower s ≡ s
map-lower [] h = refl
map-lower (d ∷ s) h = ap (λ x. x ∷ map lower s) h.0.1 ∙ ap (λ r. d ∷ r) (map-lower s h.1)

only_chars :
    (s : Bytes)
    → All (λ d. (is_ident_char d ≡ true) × (lower d ≡ d)) s
    → All (λ d. is_ident_char d ≡ true) s
only_chars [] h = tt
only_chars (d ∷ s) h = (h.0.0, only_chars s h.1)

space_round : (rest : Bytes) → tokenize (b' ' ∷ rest) ≡ tokenize rest
unfolding lex_one is_space
space_round rest = tokenize-cons b' ' rest

-- A round that reads `t` and stops at a space gives `t`, and the tokens behind the space.
after_round :
    (c : ℕ) (s rest : Bytes) (t : Token)
    → lex_one c s ≡ (some t, b' ' ∷ rest)
    → tokenize (c ∷ s) ≡ t ∷ tokenize rest
after_round c s rest t h =
    tokenize-cons c s
    ∙ ap (λ (r : Option Token × Bytes). add_token r.0 (tokenize r.1)) h
    ∙ ap (λ ts. t ∷ ts) (space_round rest)

space_stops : is_ident_char b' ' ≡ false
unfolding is_ident_char is_ident_start
space_stops = refl

space_stops_number : is_number_char b' ' ≡ false
unfolding is_ident_char is_ident_start
space_stops_number = refl

tokenize-word :
    (text rest : Bytes)
    → IsWord text
    → tokenize (text ++ b' ' ∷ rest) ≡ token ident text ∷ tokenize rest
tokenize-word [] rest h = absurd h
tokenize-word (c ∷ s) rest h = after_round c (s ++ b' ' ∷ rest) rest (token ident (c ∷ s)) (
    lex_one-word c (s ++ b' ' ∷ rest) h.0 (no_quote s rest h.1.1)
    ∙ ap (λ (r : Bytes × Bytes). (some (token ident (map lower r.0)), r.1))
        (span-append is_ident_char (c ∷ s) b' ' rest (only_chars (c ∷ s) h.1) space_stops)
    ∙ ap (λ w. (some (token ident w), b' ' ∷ rest)) (map-lower (c ∷ s) h.1))

tokenize-number :
    (text rest : Bytes)
    → IsNumber text
    → tokenize (text ++ b' ' ∷ rest) ≡ token number text ∷ tokenize rest
tokenize-number [] rest h = absurd h
tokenize-number (c ∷ s) rest h = after_round c (s ++ b' ' ∷ rest) rest (token number (c ∷ s)) (
    lex_one-number c (s ++ b' ' ∷ rest) h.0
    ∙ ap (λ (r : Bytes × Bytes). (some (token number r.0), r.1))
        (span-append is_number_char (c ∷ s) b' ' rest h.1 space_stops_number))

tokenize-mark :
    (text rest : Bytes)
    → IsMark text
    → tokenize (text ++ b' ' ∷ rest) ≡ token punct text ∷ tokenize rest
tokenize-mark [] rest h = absurd h
tokenize-mark (c ∷ []) rest h =
    after_round c (b' ' ∷ rest) rest (token punct (c ∷ [])) (lex_one-mark c rest h)
tokenize-mark (c ∷ d ∷ s) rest h = absurd h

enclosed :
    (q : ℕ) (text rest : Bytes)
    → (q == b' ') ≡ false
    → read_quoted q false ((escape q text ++ q ∷ []) ++ b' ' ∷ rest) ≡ (text, b' ' ∷ rest)
enclosed q text rest h =
    ap (read_quoted q false) (append_assoc (escape q text) (q ∷ []) (b' ' ∷ rest))
    ∙ read_quoted-escape q text (b' ' ∷ rest) (ground (arith, h))

tokenize-string :
    (text rest : Bytes)
    → tokenize (enclose b'\'' text ++ b' ' ∷ rest) ≡ token string text ∷ tokenize rest
unfolding lex_one is_space
tokenize-string text rest =
    after_round b'\'' ((escape b'\'' text ++ b'\'' ∷ []) ++ b' ' ∷ rest) rest (token string text)
      (ap (λ (r : Bytes × Bytes). (some (token string r.0), r.1)) (enclosed b'\'' text rest refl))

tokenize-quoted :
    (text rest : Bytes)
    → tokenize (enclose b'"' text ++ b' ' ∷ rest) ≡ quoted_ident text ∷ tokenize rest
unfolding lex_one is_space
tokenize-quoted text rest =
    after_round b'"' ((escape b'"' text ++ b'"' ∷ []) ++ b' ' ∷ rest) rest (quoted_ident text)
      (ap (λ (r : Bytes × Bytes). (some (quoted_ident r.0), r.1)) (enclosed b'"' text rest refl))

tokenize-token :
    (kind : TokKind) (quoted : Bool) (text rest : Bytes)
    → IsTokenOf kind quoted text
    → tokenize (print_kind kind quoted text ++ b' ' ∷ rest)
      ≡ (record { kind = kind; text = text; quoted = quoted }) ∷ tokenize rest
tokenize-token ident true text rest h = tokenize-quoted text rest
tokenize-token ident false text rest h = tokenize-word text rest h
tokenize-token string quoted text rest h = rw h (tokenize-string text rest)
tokenize-token number quoted text rest h = rw (h.0) (tokenize-number text rest h.1)
tokenize-token punct quoted text rest h = rw (h.0) (tokenize-mark text rest h.1)

-- Every list of well-formed tokens that is printed as words, quoted names, strings, numbers and
-- marks is read back by the tokenizer.
pub tokenize-print : (ts : List Token) → All IsToken ts → tokenize (print ts) ≡ ts
unfolding tokenize lex
tokenize-print [] h = refl
tokenize-print (t ∷ ts) h =
    tokenize-token t.kind t.quoted t.text (print ts) h.0
    ∙ ap (λ rest. t ∷ rest) (tokenize-print ts h.1)
