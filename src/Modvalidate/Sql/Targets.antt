-- ===== src/Modvalidate/Sql/Targets.antt =====
-- The fuel of `targetList` of sqlscan.go is enough: a round takes at least one token.
use kiban.Shared.{
  ℕ, zero, suc, ◌+◌, ◌-◌, ◌≤◌, Bool, true, false, List, [], ◌∷◌, if◌then◌else◌, nat_eq, length, ◌≡◌,
  refl, ap, arith,
}
use kiban.Modvalidate.Errors.{Rule}
use kiban.Modvalidate.Sql.Tokens.{Token}
use kiban.Modvalidate.Sql.Refs.{drop, SchemaRef, at_ref, ref_at, more_tokens, skip_args, next_punct}
use kiban.Modvalidate.Sql.Clauses.{add_target, behind_args, target_list}
use kiban.Modvalidate.Sql.Listed.{length-drop}

skip_args-le : (depth : ℕ) (ts : List Token) → length (skip_args depth ts) ≤ length ts
unfolding skip_args
skip_args-le depth [] = omega arith
skip_args-le depth (t ∷ ts) =
    ground (arith, skip_args-le (depth + 1) ts, skip_args-le (depth - 1) ts, skip_args-le depth ts)

behind_args-le : (ts : List Token) → length (behind_args ts) ≤ length ts
behind_args-le ts = ground (arith, skip_args-le 0 ts)

ref_at-le : (ts : List Token) → length (ref_at ts).1 ≤ length ts
unfolding ref_at
ref_at-le [] = omega arith
ref_at-le (t ∷ ts) = ground (arith, length-drop (more_tokens ts) ts)

-- The tokens behind a comma are fewer.
behind_comma :
    (c : ℕ) (ts : List Token) → next_punct c ts ≡ true → length (drop 1 ts) + 1 ≤ length ts
behind_comma c [] h = cc h
behind_comma c (t ∷ ts) h = omega arith

-- A round reads the rest only behind a comma.
after_comma :
    (found : Bool) (r : SchemaRef) (comma : Bool) (x y : List Rule × List SchemaRef)
    → (comma ≡ true → x ≡ y)
    → (if found then add_target r (if comma then x else ([], [])) else ([], []))
      ≡ (if found then add_target r (if comma then y else ([], [])) else ([], []))
after_comma false r comma x y h = refl
after_comma true r true x y h = ap (add_target r) (h refl)
after_comma true r false x y h = refl

-- Fuel that covers the tokens is as good as any other.
pub target_list_enough :
    (f g : ℕ) (ts : List Token)
    → length ts ≤ f
    → length ts ≤ g
    → target_list f ts ≡ target_list g ts
unfolding target_list
target_list_enough zero zero ts h k = refl
target_list_enough zero (suc g) [] h k = refl
target_list_enough zero (suc g) (t ∷ ts) h k = absurd (omega arith)
target_list_enough (suc f) zero [] h k = refl
target_list_enough (suc f) zero (t ∷ ts) h k = absurd (omega arith)
target_list_enough (suc f) (suc g) [] h k = refl
target_list_enough (suc f) (suc g) (t ∷ ts) h k =
    after_comma (at_ref (t ∷ ts)) (ref_at (t ∷ ts)).0 (next_punct b',' behind) _ _ (λ comma.
      target_list_enough f g (drop 1 behind)
        (omega (
          arith,
          behind_comma b',' behind comma,
          behind_args-le (ref_at (t ∷ ts)).1,
          ref_at-le (t ∷ ts),
        ))
        (omega (
          arith,
          behind_comma b',' behind comma,
          behind_args-le (ref_at (t ∷ ts)).1,
          ref_at-le (t ∷ ts),
        )))
  where
    behind : List Token
    behind = behind_args (ref_at (t ∷ ts)).1
