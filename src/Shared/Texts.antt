-- ===== src/Shared/Texts.antt =====
-- Go's `strings.TrimPrefix`, `strings.Cut` and `strings.IndexByte`, on native texts.
use Prim.Native.Char.{code}
use Prim.Native.Nat.{ℕ}
use Prim.Native.String.{String, ◌++◌ as str_append}
use mathlib.Core.Path.{◌≡◌, sym, ap, ◌∙◌}
use mathlib.Core.Logic.{inl, inr}
use mathlib.Core.Bool.{false}
use mathlib.Core.Option.{Option, none, some, some_inj}
use text.Mathlib.TextLemmas.{nil-append, cons-append}
use text.Mathlib.TextEquality.{Char-path}
use kiban.Shared.Tests.{◌==◌, nat_eq, string_eq, if◌then◌else◌, Option-cases, beq-cases, beq_self}

-- What is left of a text behind a prefix.
unfoldable pub strip_prefix : String → String → Option String
strip_prefix String.[] s = some s
strip_prefix (String.◌∷◌ c p) String.[] = none
strip_prefix (String.◌∷◌ c p) (String.◌∷◌ d s) =
    let rest = strip_prefix p s in if code c == code d then rest else none

-- `strings.TrimPrefix(s, p)`
unfoldable pub trim_prefix : String → String → String
trim_prefix s p = elim (strip_prefix p s) [ none ↦ s | some rest ↦ rest ]

-- `strings.Cut(s, ":")`, for the byte of the separator: without one, all of `s` and the empty text
unfoldable pub cut : ℕ → String → String × String
cut sep String.[] = (String.[], String.[])
cut sep (String.◌∷◌ c s) =
    let (before, after) = cut sep s in
    if code c == sep then (String.[], s) else (String.◌∷◌ c before, after)

pub strip-append : {r : String} (p s : String) → strip_prefix p s ≡ some r → s ≡ str_append p r
unfolding strip_prefix
strip-append {r} String.[] s h = some_inj.0 h ∙ sym (nil-append r)
strip-append (String.◌∷◌ c p) String.[] h = cc h
strip-append {r} (String.◌∷◌ c p) (String.◌∷◌ d s) h = elim (beq-cases (code c) (code d)) [
  | inr f ↦ cc (rw f at h)
  | inl (e, t) ↦
      ap (λ x. String.◌∷◌ x s) (sym (Char-path c d e))
      ∙ ap (λ x. String.◌∷◌ c x) (strip-append p s (rw t at h))
      ∙ sym (cons-append c p r)
]

-- A text that a trim changed has the prefix.
pub trim-append :
    (p s : String) → (trim_prefix s p == s) ≡ false → s ≡ str_append p (trim_prefix s p)
unfolding trim_prefix
trim-append p s h = elim (Option-cases (strip_prefix p s)) [
  | inl e ↦ absurd (same_not (rw (e, trim_prefix) at h))
  | inr (r, e) ↦ rw (e, trim_prefix) (strip-append p s e)
]
  where
    same_not : (s == s) ≡ false → ⊥
    same_not e = cc (sym (beq_self s) ∙ e)
