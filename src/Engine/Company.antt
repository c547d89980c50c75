-- ===== src/Engine/Company.antt =====
-- `CheckInCompany` of internal/authz/engine/eval.go against the plain check over fewer tuples.
use kiban.Shared.{
  ◌≡◌, refl, Bool, true, false, some, List, [], Memᴰ, keep, mem-keep, mem_of_keep, Option-cases,
  ◌||◌, ◌==◌, string_eq, inl, inr, sym, ap, ◌∙◌,
}
use mathlib.Core.Option
use kiban.Engine.Model.{Expr, Exprs}
use kiban.Engine.Eval.{
  Node, node_eq, TupleRow, Env, Answer, answer, failed, is_object, row_in_company, check_in_company,
}
use kiban.Engine.Grants.{
  Satisfies, SatisfiesAny, SatisfiesAll, direct, userset, computed, through, some_of, all_of, here,
  later, every_nil, every_cons, by_definition, Grants,
}
use kiban.Engine.Inside.{is_yes, is_inside, row_in_company-inside}
use kiban.Engine.Decides.{Says}
use kiban.Engine.Check.{check_in_company-Says}

-- Objects, and usersets from inside the company, where the check is bound to one.
abbrev pub is_kept : Env → TupleRow → Bool
is_kept en r = is_object r || en.company_id == "" || is_inside en r.subject_type r.subject_id

-- The same engine and subject over the rows that are kept, and with no company.
abbrev pub restricted : Env → Env
restricted en = record en {
  rows = λ n. Option.map (keep (is_kept en)) (en.rows n);
  company_id = "";
}

module _ (en : Env) where
  rows-restricted :
      {rs : List TupleRow} (n : Node)
      → en.rows n ≡ some rs
      → (restricted en).rows n ≡ some (keep (is_kept en) rs)
  rows-restricted n e = rw e

  rows_of_restricted :
      {qs : List TupleRow} (n : Node)
      → (restricted en).rows n ≡ some qs
      → (rs : List TupleRow) × (en.rows n ≡ some rs) × (qs ≡ keep (is_kept en) rs)
  rows_of_restricted n e = elim (Option-cases (en.rows n)) [
    | inl f ↦ cc (rw f at e)
    | inr (rs, f) ↦ (rs, f, cc (rw f at e))
  ]

  passes :
      (r : TupleRow) → is_object r ≡ false → row_in_company en r ≡ answer true → is_kept en r ≡ true
  passes r o c = rw o (sym (row_in_company-inside en r) ∙ ap is_yes c)

  object_kept : (r : TupleRow) → is_object r ≡ true → is_kept en r ≡ true
  object_kept r o = rw o

  passed :
      (r : TupleRow) → is_object r ≡ false → is_kept en r ≡ true → row_in_company en r ≡ answer true
  passed r o k = yes_only (row_in_company en r) (row_in_company-inside en r ∙ rw o at k)
    where
      yes_only : (a : Answer) → is_yes a ≡ true → a ≡ answer true
      yes_only (answer true) h = refl
      yes_only (answer false) h = cc
      yes_only (failed x) h = cc

  plain_in_company : (r : TupleRow) → row_in_company (restricted en) r ≡ answer true
  unfolding row_in_company
  plain_in_company r = refl

  mutual
    restrict : {n : Node} → Grants en n → Grants (restricted en) n
    restrict (by_definition a d s) = by_definition a d (restrict_body s)

    restrict_body : {n : Node} {e : Expr} → Satisfies en [] n e → Satisfies (restricted en) [] n e
    restrict_body (direct {n} {rs} {r} f m o s) =
        direct (rows-restricted n f) (mem-keep _ rs m (object_kept r o)) o s
    restrict_body (userset {n} {rs} {r} f m o c h) =
        userset (rows-restricted n f) (mem-keep _ rs m (passes r o c)) o (plain_in_company r)
          (restrict h)
    restrict_body (computed h) = computed (restrict h)
    restrict_body (through {n} {tupleset} {cu} {rs} {r} f m o h) =
        through (rows-restricted _ f) (mem-keep _ rs m (object_kept r o)) o (restrict h)
    restrict_body (some_of a) = some_of (restrict_any a)
    restrict_body (all_of a) = all_of (restrict_all a)

    restrict_any :
        {n : Node} {es : Exprs} → SatisfiesAny en [] n es → SatisfiesAny (restricted en) [] n es
    restrict_any (here s) = here (restrict_body s)
    restrict_any (later a) = later (restrict_any a)

    restrict_all :
        {n : Node} {es : Exprs} → SatisfiesAll en [] n es → SatisfiesAll (restricted en) [] n es
    restrict_all every_nil = every_nil
    restrict_all (every_cons s a) = every_cons (restrict_body s) (restrict_all a)

  kept_in :
      {r : TupleRow} {qs : List TupleRow} (n : Node)
      → (restricted en).rows n ≡ some qs
      → Memᴰ r qs
      → (rs : List TupleRow) × (en.rows n ≡ some rs) × Memᴰ r rs × (is_kept en r ≡ true)
  kept_in {r} n e m =
      let (rs, f, q) = rows_of_restricted n e in
      let (i, k) = mem_of_keep (is_kept en) rs (rw q at m) in (rs, f, i, k)

  mutual
    extend : {n : Node} → Grants (restricted en) n → Grants en n
    extend (by_definition a d s) = by_definition a d (extend_body s)

    extend_body : {n : Node} {e : Expr} → Satisfies (restricted en) [] n e → Satisfies en [] n e
    extend_body (direct {n} f m o s) = let (rs, g, i, k) = kept_in n f m in direct g i o s
    extend_body (userset {n} {rs = qs} {r} f m o c h) =
        let (rs, g, i, k) = kept_in n f m in userset g i o (passed r o k) (extend h)
    extend_body (computed h) = computed (extend h)
    extend_body (through f m o h) = let (rs, g, i, k) = kept_in _ f m in through g i o (extend h)
    extend_body (some_of a) = some_of (extend_any a)
    extend_body (all_of a) = all_of (extend_all a)

    extend_any :
        {n : Node} {es : Exprs} → SatisfiesAny (restricted en) [] n es → SatisfiesAny en [] n es
    extend_any (here s) = here (extend_body s)
    extend_any (later a) = later (extend_any a)

    extend_all :
        {n : Node} {es : Exprs} → SatisfiesAll (restricted en) [] n es → SatisfiesAll en [] n es
    extend_all every_nil = every_nil
    extend_all (every_cons s a) = every_cons (extend_body s) (extend_all a)

-- Two results that do not contradict each other: they are equal where both are answers.
abbrev pub Compatible : Answer → Answer → Type 0
Compatible (answer b) (answer c) = b ≡ c
Compatible _ _ = Unit

-- What two results say of two equivalent claims.
pub compatible :
    {G H : Type 0} (a b : Answer)
    → ((c : Bool) → a ≡ answer c → Says c G)
    → ((c : Bool) → b ≡ answer c → Says c H)
    → (G → H)
    → (H → G)
    → Compatible a b
compatible (failed x) b g h f k = tt
compatible (answer a) (failed x) g h f k = tt
compatible (answer a) (answer b) g h f k = same_answer a b (g a refl) (h b refl) f k
  where
    same_answer : {G H : Type 0} (a b : Bool) → Says a G → Says b H → (G → H) → (H → G) → a ≡ b
    same_answer true true g h f k = refl
    same_answer true false g h f k = absurd (h (f g))
    same_answer false true g h f k = absurd (g (k h))
    same_answer false false g h f k = refl

-- A check bound to a company and the plain check over the tuples without the usersets from
-- outside the company, which are the positions and groups that no tuple places in it and the
-- members that no tuple makes its own, give the same answer, wherever both answer.
pub check_in_company-restricted :
    (en : Env) (n : Node) → Compatible (check_in_company en n) (check_in_company (restricted en) n)
check_in_company-restricted en n =
    compatible _ _ (check_in_company-Says en n) (check_in_company-Says (restricted en) n)
      (restrict en) (extend en)
