-- ===== src/Modvalidate/Sql/Lexed.antt =====
-- Each round of `tokenize` leaves fewer bytes, so that its fuel is enough.
use kiban.Shared.{
  ℕ, zero, suc, ◌+◌, ◌-◌, ◌≤◌, Bool, true, false, ◌||◌, [], ◌∷◌, ◌++◌, Option, none, some, ◌==◌,
  nat_eq, length, ◌≡◌, refl, ap, arith,
}
use kiban.Modvalidate.Sql.Bytes.{Bytes, strip, next_is, is_digit, is_ident_start, is_ident_char}
use kiban.Modvalidate.Sql.Tokens.{
  skip_line, skip_block, read_quoted, span, split_at, split_here, dollar_string, is_tag_char,
  lex_dollar, lex_one, tail, add_token, lex, tokenize,
}

skip_line-le : (s : Bytes) → length (skip_line s) ≤ length s
unfolding skip_line
skip_line-le [] = omega arith
skip_line-le (c ∷ s) = ground (arith, skip_line-le s)

skip_block-le : (depth : ℕ) (s : Bytes) → length (skip_block depth s) ≤ length s
unfolding skip_block
skip_block-le depth [] = omega arith
skip_block-le depth (c ∷ []) = omega arith
skip_block-le depth (c ∷ d ∷ s) =
    ground
      (arith, skip_block-le (depth + 1) s, skip_block-le (depth - 1) s, skip_block-le depth (d ∷ s))

read_quoted-le :
    (q : ℕ) (escaped : Bool) (s : Bytes) → length (read_quoted q escaped s).1 ≤ length s
unfolding read_quoted
read_quoted-le q escaped [] = omega arith
read_quoted-le q escaped (c ∷ []) = ground arith
read_quoted-le q escaped (c ∷ d ∷ s) =
    ground (arith, read_quoted-le q escaped s, read_quoted-le q escaped (d ∷ s))

span-le : (p : ℕ → Bool) (s : Bytes) → length (span p s).1 ≤ length s
unfolding span
span-le p [] = omega arith
span-le p (c ∷ s) = ground (arith, span-le p s)

strip-le : (p s rest : Bytes) → strip p s ≡ some rest → length rest ≤ length s
unfolding strip
strip-le [] s rest h = ground arith
strip-le (c ∷ p) [] rest h = cc h
strip-le (c ∷ p) (d ∷ s) rest h = ground (arith, strip-le p s rest)

split_at-le :
    (tag s before rest : Bytes) → split_at tag s ≡ some (before, rest) → length rest ≤ length s
unfolding split_at
split_at-le tag [] before rest h = cc h
split_at-le tag (c ∷ s) before rest h =
    by_strip (strip tag (c ∷ s)) (split_at tag s) refl refl (split_at-le tag s) h
  where
    by_strip :
        (o : Option Bytes) (later : Option (Bytes × Bytes))
        → strip tag (c ∷ s) ≡ o
        → split_at tag s ≡ later
        → ((b r : Bytes) → split_at tag s ≡ some (b, r) → length r ≤ length s)
        → split_here c o later ≡ some (before, rest)
        → length rest ≤ length (c ∷ s)
    by_strip (some r) later e l ih h = ground (arith, strip-le tag (c ∷ s) r e)
    by_strip none none e l ih h = cc h
    by_strip none (some (b, r)) e l ih h = ground (arith, ih b r l)

tail-le : (s : Bytes) → length (tail s) ≤ length s
tail-le [] = omega arith
tail-le (c ∷ s) = omega arith

dollar_string-le :
    (tag s : Bytes) (o : Option (Bytes × Bytes))
    → split_at tag s ≡ o
    → length (dollar_string s o).1 ≤ length s
dollar_string-le tag s none e = omega arith
dollar_string-le tag s (some (body, rest)) e = split_at-le tag s body rest e

lex_dollar-le : (s : Bytes) → length (lex_dollar s).1 ≤ length s
unfolding lex_dollar
lex_dollar-le s = ground (
  arith,
  dollar_string-le (b'$' ∷ (span is_tag_char s).0 ++ b'$' ∷ []) (tail (span is_tag_char s).1) _
      refl,
  tail-le (span is_tag_char s).1,
  span-le is_tag_char s,
  span-le (λ (c : ℕ). c == b'$' || is_digit c) s,
)

skip_line-lt : (c : ℕ) (s : Bytes) → (c == b'\n') ≡ false → length (skip_line (c ∷ s)) ≤ length s
unfolding skip_line
skip_line-lt c s h = rw h (skip_line-le s)

skip_block-lt :
    (c : ℕ) (s : Bytes)
    → c ≡ b'/'
    → next_is b'*' s ≡ true
    → length (skip_block 0 (c ∷ s)) ≤ length s
unfolding skip_block
skip_block-lt c [] e h = cc h
skip_block-lt c (d ∷ s) e h = rw (e, h) (omega (arith, skip_block-le 1 s))

span-lt : (p : ℕ → Bool) (c : ℕ) (s : Bytes) → p c ≡ true → length (span p (c ∷ s)).1 ≤ length s
unfolding span
span-lt p c s h = rw h (span-le p s)

pub start-char : (c : ℕ) → is_ident_start c ≡ true → is_ident_char c ≡ true
unfolding is_ident_char
start-char c h = rw h

pub digit-char : (c : ℕ) → is_digit c ≡ true → is_ident_char c ≡ true
unfolding is_ident_char
digit-char c h = ground arith

-- A round leaves fewer bytes.
lex_one-le : (c : ℕ) (s : Bytes) → length (lex_one c s).1 ≤ length s
unfolding lex_one
lex_one-le c s = ground (
  arith,
  skip_line-lt c s,
  skip_block-lt c s,
  read_quoted-le b'\'' false s,
  read_quoted-le b'\'' true (tail s),
  tail-le s,
  read_quoted-le b'"' false s,
  lex_dollar-le s,
  start-char c,
  digit-char c,
  span-lt is_ident_char c s,
  span-lt (λ (d : ℕ). is_ident_char d || d == b'.') c s,
)

-- Fuel that covers the bytes is as good as any other.
lex_enough : (f g : ℕ) (s : Bytes) → length s ≤ f → length s ≤ g → lex f s ≡ lex g s
unfolding lex
lex_enough zero zero s h k = refl
lex_enough zero (suc g) [] h k = refl
lex_enough zero (suc g) (c ∷ s) h k = absurd (omega arith)
lex_enough (suc f) zero [] h k = refl
lex_enough (suc f) zero (c ∷ s) h k = absurd (omega arith)
lex_enough (suc f) (suc g) [] h k = refl
lex_enough (suc f) (suc g) (c ∷ s) h k =
    ap (add_token (lex_one c s).0) (
      lex_enough f g (lex_one c s).1 (omega (arith, lex_one-le c s))
        (omega (arith, lex_one-le c s)))

-- The tokens of a text are those of its first round, and of all the bytes that the round leaves.
pub tokenize-cons :
    (c : ℕ) (s : Bytes) → tokenize (c ∷ s) ≡ add_token (lex_one c s).0 (tokenize (lex_one c s).1)
unfolding tokenize lex
tokenize-cons c s =
    ap (add_token (lex_one c s).0) (
      lex_enough (length s) (length (lex_one c s).1) (lex_one c s).1 (lex_one-le c s) (omega arith))
