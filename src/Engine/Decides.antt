-- ===== src/Engine/Decides.antt =====
-- What it means that a part of internal/authz/engine/eval.go decides a claim: memo, cuts and answer.
use kiban.Shared.{
  ◌≤◌, ◌≡◌, refl, ◌∙◌, Bool, true, false, some, ◌∷◌, ◌⊎◌, inl, inr, lookup, beq-cases, Option-cases,
  arith, subst,
}
use kiban.Engine.Eval.{
  Node, node_eq, Env, State, Memo, MemoKind, map_memo, sync_map_memo, store, answer, failed, Out,
  or_else, and_then,
}
use kiban.Engine.Grants.{Grants}

-- What a Boolean answer says of a claim.
abbrev pub Says : Bool → Type 0 → Type 0
Says true G = G
Says false G = ¬ G

-- Every memoized value is the truth, for a check with nothing in progress.
abbrev pub MemoIsRight : Env → Memo → Type 0
MemoIsRight en m = (n : Node) (b : Bool) → lookup n m ≡ some b → Says b (Grants en n)

memo-cons :
    (en : Env) (n : Node) (b : Bool) (m : Memo)
    → Says b (Grants en n)
    → MemoIsRight en m
    → MemoIsRight en ((n, b) ∷ m)
unfolding lookup
memo-cons en n b m h right k c e = elim (beq-cases n k) [
  | inl (same, t) ↦
      let eq : b ≡ c = cc (rw t at e) in
      subst (λ x. Says c (Grants en x)) same (subst (λ x. Says x (Grants en n)) eq h)
  | inr f ↦ right k c (rw f at e)
]

pub store-MemoIsRight :
    (en : Env) (kind : MemoKind) (n : Node) (b : Bool) (m : Memo)
    → Says b (Grants en n)
    → MemoIsRight en m
    → MemoIsRight en (store kind n b m)
unfolding store
store-MemoIsRight en map_memo n b m h right = memo-cons en n b m h right
store-MemoIsRight en sync_map_memo n b m h right = elim (Option-cases (lookup n m)) [
  | inl e ↦ rw (e, store) (memo-cons en n b m h right)
  | inr (v, e) ↦ rw (e, store) right
]

-- One evaluation, from the state `s`: `G` is what it decides, `A` what a false refutes at once.
pub record Decides (en : Env) (s : State) (G A : Type 0) (out : Out) : Type 0 where
  pub visiting_kept : out.1.visiting ≡ s.visiting
  pub memo_right : MemoIsRight en out.1.memo
  pub cuts_grow : s.cuts ≤ out.1.cuts
  pub sound : out.0 ≡ answer true → G
  pub complete : out.0 ≡ answer false → ¬ A
  pub exact : out.0 ≡ answer false → out.1.cuts ≡ s.cuts → ¬ G

-- The evaluations that start where `s` stands.
abbrev pub Follows : Env → State → State → Type 0
Follows en s t = (t.visiting ≡ s.visiting) × MemoIsRight en t.memo

module _ {en : Env} where
  pub Decides-map :
      {s : State} {G A G' A' : Type 0} {out : Out}
      → (G → G')
      → (G' → G)
      → (A' → A)
      → Decides en s G A out
      → Decides en s G' A' out
  Decides-map f g h d = record {
    visiting_kept = d.visiting_kept;
    memo_right = d.memo_right;
    cuts_grow = d.cuts_grow;
    sound = λ e. f (d.sound e);
    complete = λ e a. d.complete e (h a);
    exact = λ e c a. d.exact e c (g a);
  }

  pub failed-Decides :
      {s : State} {G A : Type 0} (x : _) → MemoIsRight en s.memo → Decides en s G A (failed x, s)
  failed-Decides x right = record {
    visiting_kept = refl;
    memo_right = right;
    cuts_grow = omega arith;
    sound = λ e. cc;
    complete = λ e. cc;
    exact = λ e. cc;
  }

  pub answer-Decides :
      {s : State} {G A : Type 0} (b : Bool)
      → MemoIsRight en s.memo
      → Says b G
      → (A → G)
      → Decides en s G A (answer b, s)
  answer-Decides {s} true right g f = record {
    visiting_kept = refl;
    memo_right = right;
    cuts_grow = omega arith;
    sound = λ e. g;
    complete = λ e. cc;
    exact = λ e. cc;
  }
  answer-Decides {s} false right n f = record {
    visiting_kept = refl;
    memo_right = right;
    cuts_grow = omega arith;
    sound = λ e. cc;
    complete = λ e a. n (f a);
    exact = λ e c. n;
  }

  pub or_else-Decides :
      {s : State} {G A G' A' : Type 0} (out : Out) (next : State → Out)
      → Decides en s G A out
      → ((t : State) → Follows en s t → Decides en t G' A' (next t))
      → Decides en s (G ⊎ G') (A ⊎ A') (or_else out next)
  or_else-Decides (answer true, t) next d k = record {
    visiting_kept = d.visiting_kept;
    memo_right = d.memo_right;
    cuts_grow = d.cuts_grow;
    sound = λ e. inl (d.sound refl);
    complete = λ e. cc;
    exact = λ e. cc;
  }
  or_else-Decides (answer false, t) next d k =
      let d' = k t (d.visiting_kept, d.memo_right) in
      record {
        visiting_kept = d'.visiting_kept ∙ d.visiting_kept;
        memo_right = d'.memo_right;
        cuts_grow = omega (arith, d.cuts_grow, d'.cuts_grow);
        sound = λ e. inr (d'.sound e);
        complete = λ e. elim [ inl a ↦ d.complete refl a | inr a ↦ d'.complete e a ];
        exact = λ e c. elim [
          | inl g ↦ d.exact refl (omega (arith, d.cuts_grow, d'.cuts_grow)) g
          | inr g ↦ d'.exact e (omega (arith, d.cuts_grow, d'.cuts_grow)) g
        ];
      }
  or_else-Decides (failed x, t) next d k = record {
    visiting_kept = d.visiting_kept;
    memo_right = d.memo_right;
    cuts_grow = d.cuts_grow;
    sound = λ e. cc;
    complete = λ e. cc;
    exact = λ e. cc;
  }

  pub and_then-Decides :
      {s : State} {G A G' A' : Type 0} (out : Out) (next : State → Out)
      → Decides en s G A out
      → ((t : State) → Follows en s t → Decides en t G' A' (next t))
      → Decides en s (G × G') (A × A') (and_then out next)
  and_then-Decides (answer true, t) next d k =
      let d' = k t (d.visiting_kept, d.memo_right) in
      record {
        visiting_kept = d'.visiting_kept ∙ d.visiting_kept;
        memo_right = d'.memo_right;
        cuts_grow = omega (arith, d.cuts_grow, d'.cuts_grow);
        sound = λ e. (d.sound refl, d'.sound e);
        complete = λ e a. d'.complete e a.1;
        exact = λ e c g. d'.exact e (omega (arith, d.cuts_grow, d'.cuts_grow)) g.1;
      }
  and_then-Decides (answer false, t) next d k = record {
    visiting_kept = d.visiting_kept;
    memo_right = d.memo_right;
    cuts_grow = d.cuts_grow;
    sound = λ e. cc;
    complete = λ e a. d.complete refl a.0;
    exact = λ e c g. d.exact refl c g.0;
  }
  and_then-Decides (failed x, t) next d k = record {
    visiting_kept = d.visiting_kept;
    memo_right = d.memo_right;
    cuts_grow = d.cuts_grow;
    sound = λ e. cc;
    complete = λ e. cc;
    exact = λ e. cc;
  }
