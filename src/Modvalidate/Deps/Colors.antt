-- ===== src/Modvalidate/Deps/Colors.antt =====
-- The colors of the search: what a black key promises, and the count that the fuel covers.
use kiban.Shared.{
  ℕ, ◌+◌, ◌≤◌, ◌<◌, String, false, List, [], ◌∷◌, ◌++◌, ◌==◌, string_eq, ◌≡◌, refl, sym, ◌∙◌, subst,
  inl, inr, Memᴰ, beq-cases, beq_self, arith, length,
}
use kiban.Modvalidate.Deps.{Nodes, Color, white, gray, black, Colors, color_of}
use kiban.Modvalidate.Deps.Walks.{Edge, IsWalk}

pub color_of_hit : (k : String) (c : Color) (cs : Colors) → color_of k ((k, c) ∷ cs) ≡ c
unfolding color_of
color_of_hit k c cs = rw (beq_self k)

pub color_of_miss :
    (k j : String) (c : Color) (cs : Colors)
    → (j == k) ≡ false
    → color_of k ((j, c) ∷ cs) ≡ color_of k cs
unfolding color_of
color_of_miss k j c cs f = rw f

pub color_of_nil : (k : String) → color_of k [] ≡ white
unfolding color_of
color_of_nil k = refl

-- Entries go from white to gray to black, and at black the targets are black already.
abbrev pub IsOrdered : Nodes → Colors → Type 0
IsOrdered nodes [] = Unit
IsOrdered nodes ((k, white) ∷ cs) = ⊥
IsOrdered nodes ((k, gray) ∷ cs) = (color_of k cs ≡ white) × IsOrdered nodes cs
IsOrdered nodes ((k, black) ∷ cs) =
    (color_of k cs ≡ gray)
    × ((d : String) → Edge nodes k d → color_of d cs ≡ black)
    × IsOrdered nodes cs

-- Black and gray keys stay what they are.
abbrev pub Keeps : Colors → Colors → Type 0
Keeps before after =
    (k : String)
    → (color_of k before ≡ black → color_of k after ≡ black)
      × (color_of k before ≡ gray → color_of k after ≡ gray)

module _ (nodes : Nodes) where
  -- black keys stay black under a new entry
  black_kept :
      (k j : String) (c : Color) (cs : Colors)
      → IsOrdered nodes ((j, c) ∷ cs)
      → color_of k cs ≡ black
      → color_of k ((j, c) ∷ cs) ≡ black
  black_kept k j c cs o b = elim (beq-cases j k) [
    | inr f ↦ color_of_miss k j c cs f ∙ b
    | inl (e, t) ↦
        subst (λ x. color_of x ((j, c) ∷ cs) ≡ black) e
          (color_of_hit j c cs ∙ by_entry c o (subst (λ x. color_of x cs ≡ black) (sym e) b))
  ]
    where
      by_entry : (c : Color) → IsOrdered nodes ((j, c) ∷ cs) → color_of j cs ≡ black → c ≡ black
      by_entry white o b = absurd o
      by_entry gray o b = cc (o.0, b)
      by_entry black o b = refl

  -- The targets of a black key are black.
  pub closed :
      (k d : String) (cs : Colors)
      → IsOrdered nodes cs
      → color_of k cs ≡ black
      → Edge nodes k d
      → color_of d cs ≡ black
  closed k d [] o b e = cc (color_of_nil k, b)
  closed k d ((j, c) ∷ cs) o b e = elim (beq-cases j k) [
    | inr f ↦
        black_kept d j c cs o (closed k d cs (older c o) (sym (color_of_miss k j c cs f) ∙ b) e)
    | inl (same, t) ↦ black_kept d j c cs o (
        at_entry c o
          (sym (color_of_hit j c cs) ∙ subst (λ x. color_of x ((j, c) ∷ cs) ≡ black) (sym same) b)
          (subst (λ x. Edge nodes x d) (sym same) e))
  ]
    where
      older : (c : Color) → IsOrdered nodes ((j, c) ∷ cs) → IsOrdered nodes cs
      older white o = absurd o
      older gray o = o.1
      older black o = o.2

      at_entry :
          (c : Color)
          → IsOrdered nodes ((j, c) ∷ cs)
          → c ≡ black
          → Edge nodes j d
          → color_of d cs ≡ black
      at_entry white o b e = absurd o
      at_entry gray o b e = cc b
      at_entry black o b e = o.1 d e

  -- Every key of a walk from a black key is black.
  walk_black :
      (cs : Colors) (a : String) (path : List String) (b : String)
      → IsOrdered nodes cs
      → color_of a cs ≡ black
      → IsWalk nodes (a ∷ path ++ b ∷ [])
      → color_of b cs ≡ black
  walk_black cs a [] b o h w = closed a b cs o h w.0
  walk_black cs a (p ∷ path) b o h w = walk_black cs p path b o (closed a p cs o h w.0) w.1

  -- No cycle goes through a black key.
  pub black-no_cycle :
      (cs : Colors) (k : String) (between : List String)
      → IsOrdered nodes cs
      → color_of k cs ≡ black
      → IsWalk nodes (k ∷ between ++ k ∷ [])
      → ⊥
  black-no_cycle [] k between o b w = cc (color_of_nil k, b)
  black-no_cycle ((j, white) ∷ cs) k between o b w = absurd o
  black-no_cycle ((j, gray) ∷ cs) k between o b w = elim (beq-cases j k) [
    | inr f ↦ black-no_cycle cs k between o.1 (sym (color_of_miss k j gray cs f) ∙ b) w
    | inl (e, t) ↦
        cc (
          sym (color_of_hit j gray cs) ∙ subst (λ x. color_of x ((j, gray) ∷ cs) ≡ black) (sym e) b)
  ]
  black-no_cycle ((j, black) ∷ cs) k between o b w = elim (beq-cases j k) [
    | inr f ↦ black-no_cycle cs k between o.2 (sym (color_of_miss k j black cs f) ∙ b) w
    | inl (e, t) ↦ last_edge between (subst (λ x. IsWalk nodes (x ∷ between ++ x ∷ [])) (sym e) w)
  ]
    where
      back : color_of j cs ≡ black → ⊥
      back h = cc (o.0, h)

      last_edge : (between : List String) → IsWalk nodes (j ∷ between ++ j ∷ []) → ⊥
      last_edge [] w = back (o.1 j w.0)
      last_edge (p ∷ path) w = back (walk_black cs p path j o.2 (o.1 p w.0) w.1)

one_if_white : Color → ℕ
one_if_white white = 1
one_if_white gray = 0
one_if_white black = 0

-- How many of the keys are white.
pub whites : List String → Colors → ℕ
unfolding one_if_white
whites [] cs = 0
whites (k ∷ keys) cs = one_if_white (color_of k cs) + whites keys cs

-- A key that was no more white is not white again.
pub whites-le :
    (keys : List String) (before after : Colors)
    → ((k : String) → color_of k after ≡ white → color_of k before ≡ white)
    → whites keys after ≤ whites keys before
unfolding whites
whites-le [] before after h = omega arith
whites-le (k ∷ keys) before after h =
    omega
      (arith, by_color (color_of k after) (color_of k before) (h k), whites-le keys before after h)
  where
    by_color : (a b : Color) → (a ≡ white → b ≡ white) → one_if_white a ≤ one_if_white b
    by_color white white h = omega arith
    by_color white gray h = cc (h refl)
    by_color white black h = cc (h refl)
    by_color gray b h = omega arith
    by_color black b h = omega arith

still_white :
    (k key : String) (cs : Colors) → color_of k ((key, gray) ∷ cs) ≡ white → color_of k cs ≡ white
still_white k key cs h = elim (beq-cases key k) [
  | inr f ↦ sym (color_of_miss k key gray cs f) ∙ h
  | inl (e, t) ↦ cc (
      sym (color_of_hit key gray cs) ∙ subst (λ x. color_of x ((key, gray) ∷ cs) ≡ white) (sym e) h)
]

-- Marking a white key gray makes the count fall.
pub whites-lt :
    (keys : List String) (key : String) (cs : Colors)
    → Memᴰ key keys
    → color_of key cs ≡ white
    → whites keys ((key, gray) ∷ cs) < whites keys cs
unfolding whites one_if_white
whites-lt [] key cs m w = elim m [ ]
whites-lt (k ∷ keys) key cs (Memᴰ.head e) w =
    rw (← e, w, color_of_hit key gray cs)
      (omega (arith, whites-le keys cs ((key, gray) ∷ cs) (λ j. still_white j key cs)))
whites-lt (k ∷ keys) key cs (Memᴰ.tail m) w = omega (
  arith,
  whites-lt keys key cs m w,
  whites-le (k ∷ []) cs ((key, gray) ∷ cs) (λ j. still_white j key cs),
)

pub whites-le-length : (keys : List String) (cs : Colors) → whites keys cs ≤ length keys
unfolding whites one_if_white
whites-le-length [] cs = omega arith
whites-le-length (k ∷ keys) cs =
    omega (arith, at_most_one (color_of k cs), whites-le-length keys cs)
  where
    at_most_one : (c : Color) → one_if_white c ≤ 1
    at_most_one white = omega arith
    at_most_one gray = omega arith
    at_most_one black = omega arith
