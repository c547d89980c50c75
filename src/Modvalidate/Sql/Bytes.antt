-- ===== src/Modvalidate/Sql/Bytes.antt =====
-- Byte strings of internal/modvalidate/sqlscan.go, as lists of numbers.
use Prim.Native.Char.{code}
use Prim.Native.String.{String}
use kiban.Shared.{
  ℕ, ◌+◌, Bool, true, false, ◌&&◌, ◌||◌, List, [], ◌∷◌, Option, none, some, ◌==◌, nat_eq, Eq, leb,
  if◌then◌else◌, ◌≡◌, ◌↔◌, arith,
}

abbrev pub Bytes : Type 0
Bytes = List ℕ

-- The bytes of an ASCII text.
abbrev pub codes : String → Bytes
codes String.[] = []
codes (String.◌∷◌ c s) = code c ∷ codes s

abbrev bytes_beq : Bytes → Bytes → Bool
bytes_beq [] [] = true
bytes_beq [] (d ∷ t) = false
bytes_beq (c ∷ s) [] = false
bytes_beq (c ∷ s) (d ∷ t) = c == d && bytes_beq s t

pub bytes_beq_iff : (s t : Bytes) → (bytes_beq s t ≡ true) ↔ (s ≡ t)
bytes_beq_iff [] [] = ground arith
bytes_beq_iff [] (d ∷ t) = ground arith
bytes_beq_iff (c ∷ s) [] = ground arith
bytes_beq_iff (c ∷ s) (d ∷ t) = ground (arith, bytes_beq_iff s t)

instance abbrev pub bytes_eq : Eq Bytes
bytes_eq = record { same = bytes_beq; same_iff = bytes_beq_iff }

abbrev pub within : ℕ → ℕ → ℕ → Bool
within lo hi c = leb lo c && leb c hi

abbrev pub is_digit : ℕ → Bool
is_digit = within b'0' b'9'

-- `isIdentStart`
unfoldable pub is_ident_start : ℕ → Bool
is_ident_start c = c == b'_' || within b'a' b'z' c || within b'A' b'Z' c || leb 0x80 c

-- `isIdentChar`
unfoldable pub is_ident_char : ℕ → Bool
unfolding is_ident_start
is_ident_char c = is_ident_start c || is_digit c || c == b'$'

-- `strings.ToLower` on a byte of an ASCII text; letters beyond ASCII are left as they are
unfoldable pub lower : ℕ → ℕ
lower c = if within b'A' b'Z' c then c + 32 else c

-- `i < len(src) && src[i] == c`
abbrev pub next_is : ℕ → Bytes → Bool
next_is c [] = false
next_is c (d ∷ s) = d == c

-- What is left of a text behind a prefix.
unfoldable pub strip : Bytes → Bytes → Option Bytes
strip [] s = some s
strip (c ∷ p) [] = none
strip (c ∷ p) (d ∷ s) = let rest = strip p s in if c == d then rest else none

abbrev pub has_prefix : Bytes → Bytes → Bool
has_prefix p s = elim (strip p s) [ none ↦ false | some rest ↦ true ]
