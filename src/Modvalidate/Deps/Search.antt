-- ===== src/Modvalidate/Deps/Search.antt =====
-- The search of deps.go finds a cycle exactly when there is one, and its fuel is enough.
use mathlib.Core.List.Memᴰ
use kiban.Shared.{
  ℕ, zero, suc, ◌<◌, String, List, [], ◌∷◌, ◌++◌, ◌==◌, string_eq, ◌≡◌, refl, sym, ap, ◌∙◌, subst,
  ◌⊎◌, inl, inr, Memᴰ, beq-cases, beq_self, arith, length,
}
use kiban.Modvalidate.Deps.{
  Nodes, targets, Color, white, gray, black, Colors, color_of, cycle_of, Visit, finished, cycle,
  out_of_fuel, visit_targets, visit, visit_keys,
}
use kiban.Modvalidate.Deps.Walks.{Edge, IsWalk, IsCycle, IsWalk-concat, cycle_of-IsCycle}
use kiban.Modvalidate.Deps.Colors.{
  color_of_hit, color_of_miss, IsOrdered, Keeps, whites, whites-le, whites-lt, whites-le-length,
}

Keeps-trans : (a b c : Colors) → Keeps a b → Keeps b c → Keeps a c
Keeps-trans a b c h k x = (λ e. (k x).0 ((h x).0 e), λ e. (k x).1 ((h x).1 e))

-- What was kept shows that no key became white.
Keeps-white :
    (a b : Colors) → Keeps a b → (k : String) → color_of k b ≡ white → color_of k a ≡ white
Keeps-white a b h k w = by_color (color_of k a) refl
  where
    by_color : (x : Color) → color_of k a ≡ x → color_of k a ≡ white
    by_color white e = e
    by_color gray e = cc ((h k).1 e, w)
    by_color black e = cc ((h k).0 e, w)

module _ (nodes : Nodes) (keys : List String) where
  abbrev pub OnPath : List String → Colors → Type 0
  OnPath path colors = (k : String) → color_of k colors ≡ gray → Memᴰ k path

  -- When a visit of `key` may start.
  record IsReady (fuel : ℕ) (key : String) (path : List String) (colors : Colors) : Type 0 where
    is_white : color_of key colors ≡ white
    ordered : IsOrdered nodes colors
    on_path : OnPath path colors
    walk : IsWalk nodes (path ++ key ∷ [])
    known : Memᴰ key keys
    enough : whites keys colors < fuel

  -- What a visit of `key` gives.
  abbrev Gives : String → List String → Colors → Visit → Type 0
  Gives key path colors (finished c) =
      Keeps colors c × IsOrdered nodes c × OnPath path c × (color_of key c ≡ black)
  Gives key path colors (cycle p) = IsCycle nodes p
  Gives key path colors out_of_fuel = ⊥

  -- What the loop over the targets gives, where `c` is what it leaves before `key` is black.
  abbrev LoopGives : String → List String → Colors → Visit → Type 0
  LoopGives key path colors (finished after) =
      (c : Colors) × (after ≡ (key, black) ∷ c)
      × Keeps colors c
      × IsOrdered nodes ((key, black) ∷ c)
      × OnPath path c
  LoopGives key path colors (cycle p) = IsCycle nodes p
  LoopGives key path colors out_of_fuel = ⊥

  LoopGives-later :
      (key : String) (path : List String) (a b : Colors) (r : Visit)
      → Keeps a b
      → LoopGives key path b r
      → LoopGives key path a r
  LoopGives-later key path a b (finished after) h (c, e, k, o, p) =
      (c, e, Keeps-trans a b c h k, o, p)
  LoopGives-later key path a b (cycle p) h g = g
  LoopGives-later key path a b out_of_fuel h g = g

  -- Where the loop over the targets of `key` stands.
  record IsRound (fuel : ℕ) (key : String) (before deps : List String) (colors : Colors)
      : Type 0 where
    is_gray : color_of key colors ≡ gray
    ordered : IsOrdered nodes colors
    on_path : OnPath (before ++ key ∷ []) colors
    walk : IsWalk nodes (before ++ key ∷ [])
    left : (d : String) → Memᴰ d deps → Edge nodes key d
    treated : (d : String) → Edge nodes key d → Memᴰ d deps ⊎ (color_of d colors ≡ black)
    enough : whites keys colors < fuel

  module _ (closed_keys : (a d : String) → Edge nodes a d → Memᴰ d keys) (fuel : ℕ)
      (rec : (key : String) (path : List String) (colors : Colors)
        → IsReady fuel key path colors
        → Gives key path colors (visit nodes fuel key path colors)) where
    treat :
        (key dep : String) (before deps : List String) (colors after : Colors)
        → IsRound fuel key before (dep ∷ deps) colors
        → Keeps colors after
        → IsOrdered nodes after
        → OnPath (before ++ key ∷ []) after
        → color_of dep after ≡ black
        → IsRound fuel key before deps after
    treat key dep before deps colors after r k o p b = record {
      is_gray = (k key).1 r.is_gray;
      ordered = o;
      on_path = p;
      walk = r.walk;
      left = λ d m. r.left d (Memᴰ.tail m);
      treated = λ d e. next d (r.treated d e);
      enough = omega (arith, r.enough, whites-le keys colors after (Keeps-white colors after k));
    }
      where
        next :
            (d : String)
            → Memᴰ d (dep ∷ deps) ⊎ (color_of d colors ≡ black)
            → Memᴰ d deps ⊎ (color_of d after ≡ black)
        next d (inr h) = inr ((k d).0 h)
        next d (inl (Memᴰ.head e)) = inr (ap (λ x. color_of x after) e ∙ b)
        next d (inl (Memᴰ.tail m)) = inl m

    loop :
        (key : String) (before deps : List String) (colors : Colors)
        → IsRound fuel key before deps colors
        → LoopGives key
            (before ++ key ∷ [])
            colors
            (visit_targets (visit nodes fuel) key (before ++ key ∷ []) deps colors)
    unfolding visit_targets
    loop key before [] colors r = (
      colors,
      refl,
      (λ k. (λ e. e, λ e. e)),
      (r.is_gray, (λ d e. black_target d (r.treated d e)), r.ordered),
      r.on_path,
    )
      where
        black_target :
            (d : String) → Memᴰ d [] ⊎ (color_of d colors ≡ black) → color_of d colors ≡ black
        black_target d (inr h) = h
        black_target d (inl m) = elim m [ ]
    loop key before (dep ∷ deps) colors r =
        by_color (color_of dep colors) refl (loop key before deps)
      where
        by_visit :
            (v : Visit)
            → Gives dep (before ++ key ∷ []) colors v
            → ((c : Colors)
                → IsRound fuel key before deps c
                → LoopGives key
                    (before ++ key ∷ [])
                    c
                    (visit_targets (visit nodes fuel) key (before ++ key ∷ []) deps c))
            → LoopGives key (before ++ key ∷ []) colors (elim v [
              | finished c ↦ visit_targets (visit nodes fuel) key (before ++ key ∷ []) deps c
              | cycle p ↦ cycle p
              | out_of_fuel ↦ out_of_fuel
            ])
        by_visit (finished c) (k, o, p, b) rest =
            LoopGives-later key (before ++ key ∷ []) colors c _ k
              (rest c (treat key dep before deps colors c r k o p b))
        by_visit (cycle p) g rest = g
        by_visit out_of_fuel g rest = g

        by_color :
            (x : Color)
            → color_of dep colors ≡ x
            → ((c : Colors)
                → IsRound fuel key before deps c
                → LoopGives key
                    (before ++ key ∷ [])
                    c
                    (visit_targets (visit nodes fuel) key (before ++ key ∷ []) deps c))
            → LoopGives key (before ++ key ∷ []) colors (elim x [
              | gray ↦ cycle (cycle_of dep key (before ++ key ∷ []))
              | white ↦ elim (visit nodes fuel dep (before ++ key ∷ []) colors) [
                | finished c ↦ visit_targets (visit nodes fuel) key (before ++ key ∷ []) deps c
                | cycle p ↦ cycle p
                | out_of_fuel ↦ out_of_fuel
              ]
              | black ↦ visit_targets (visit nodes fuel) key (before ++ key ∷ []) deps colors
            ])
        by_color gray e rest =
            cycle_of-IsCycle nodes dep key (before ++ key ∷ []) (r.on_path dep e)
              (IsWalk-concat nodes before key dep r.walk (r.left dep (Memᴰ.head refl)))
        by_color white e rest =
            by_visit _
              (rec dep (before ++ key ∷ []) colors (record {
                is_white = e;
                ordered = r.ordered;
                on_path = r.on_path;
                walk = IsWalk-concat nodes before key dep r.walk (r.left dep (Memᴰ.head refl));
                known = closed_keys key dep (r.left dep (Memᴰ.head refl));
                enough = r.enough;
              }))
              rest
        by_color black e rest = rest colors (
            treat key dep before deps colors colors r (λ k. (λ h. h, λ h. h)) r.ordered r.on_path e)

  module _ (key : String) (path : List String) (colors c : Colors)
      (w : color_of key colors ≡ white) where
    Keeps-around : Keeps ((key, gray) ∷ colors) c → Keeps colors ((key, black) ∷ c)
    Keeps-around h x = elim (beq-cases key x) [
      | inr f ↦ (
        λ e. color_of_miss x key black c f ∙ (h x).0 (color_of_miss x key gray colors f ∙ e),
        λ e. color_of_miss x key black c f ∙ (h x).1 (color_of_miss x key gray colors f ∙ e),
      )
      | inl (e, t) ↦ (
        λ b. cc (sym w ∙ ap (λ y. color_of y colors) e ∙ b),
        λ b. cc (sym w ∙ ap (λ y. color_of y colors) e ∙ b),
      )
    ]

    OnPath-around : OnPath (path ++ key ∷ []) c → OnPath path ((key, black) ∷ c)
    OnPath-around h x g = elim (beq-cases key x) [
      | inl (e, t) ↦
          cc (sym (color_of_hit key black c) ∙ ap (λ y. color_of y ((key, black) ∷ c)) e ∙ g)
      | inr f ↦ elim (Memᴰ.append_cases path (h x (sym (color_of_miss x key black c f) ∙ g))) [
        | inl m ↦ m
        | inr last ↦ cc (f, ap (λ y. key == y) (Memᴰ.eq_of_singleton last), beq_self key)
      ]
    ]

  Gives_of_loop :
      (key : String) (path : List String) (colors : Colors) (r : Visit)
      → color_of key colors ≡ white
      → LoopGives key (path ++ key ∷ []) ((key, gray) ∷ colors) r
      → Gives key path colors r
  Gives_of_loop key path colors (finished after) w (c, e, k, o, p) =
      subst (λ x. Gives key path colors (finished x)) (sym e)
        (
          Keeps-around key path colors c w k,
          o,
          OnPath-around key path colors c w p,
          color_of_hit key black c,
        )
  Gives_of_loop key path colors (cycle p) w g = g
  Gives_of_loop key path colors out_of_fuel w g = g

  module _ (closed_keys : (a d : String) → Edge nodes a d → Memᴰ d keys) where
    start :
        (fuel : ℕ) (key : String) (path : List String) (colors : Colors)
        → IsReady (suc fuel) key path colors
        → IsRound fuel key path (targets nodes key) ((key, gray) ∷ colors)
    start fuel key path colors r = record {
      is_gray = color_of_hit key gray colors;
      ordered = (r.is_white, r.ordered);
      on_path = λ x g. elim (beq-cases key x) [
        | inl (e, t) ↦ Memᴰ.append_right path (Memᴰ.head (sym e))
        | inr f ↦
            Memᴰ.append_left (key ∷ []) (r.on_path x (sym (color_of_miss x key gray colors f) ∙ g))
      ];
      walk = r.walk;
      left = λ d m. m;
      treated = λ d e. inl e;
      enough = omega (arith, r.enough, whites-lt keys key colors r.known r.is_white);
    }

    visit-Gives :
        (fuel : ℕ) (key : String) (path : List String) (colors : Colors)
        → IsReady fuel key path colors
        → Gives key path colors (visit nodes fuel key path colors)
    unfolding visit
    visit-Gives zero key path colors r = absurd (omega (arith, r.enough))
    visit-Gives (suc fuel) key path colors r = Gives_of_loop key path colors _ r.is_white (
        loop closed_keys fuel (visit-Gives fuel) key path (targets nodes key) ((key, gray) ∷ colors)
          (start fuel key path colors r))

    -- What the loop over the keys gives: all of them are black at the end.
    abbrev pub KeysGive : List String → Colors → Visit → Type 0
    KeysGive ks colors (finished c) =
        Keeps colors c × IsOrdered nodes c × ((k : String) → Memᴰ k ks → color_of k c ≡ black)
    KeysGive ks colors (cycle p) = IsCycle nodes p
    KeysGive ks colors out_of_fuel = ⊥

    add_key :
        (k : String) (ks : List String) (before colors : Colors) (r : Visit)
        → Keeps before colors
        → color_of k colors ≡ black
        → KeysGive ks colors r
        → KeysGive (k ∷ ks) before r
    add_key k ks before colors (finished c) h b (kept, o, all) =
        (Keeps-trans before colors c h kept, o, λ x m. member x m)
      where
        member : (x : String) → Memᴰ x (k ∷ ks) → color_of x c ≡ black
        member x (Memᴰ.head e) = ap (λ y. color_of y c) e ∙ (kept k).0 b
        member x (Memᴰ.tail m) = all x m
    add_key k ks before colors (cycle p) h b g = g
    add_key k ks before colors out_of_fuel h b g = g

    pub visit_keys-Give :
        (ks : List String) (colors : Colors)
        → IsOrdered nodes colors
        → OnPath [] colors
        → ((k : String) → Memᴰ k ks → Memᴰ k keys)
        → KeysGive ks colors (visit_keys nodes (suc (length keys)) ks colors)
    unfolding visit_keys
    visit_keys-Give [] colors o p inside = ((λ k. (λ e. e, λ e. e)), o, λ k m. elim m [ ])
    visit_keys-Give (k ∷ ks) colors o p inside =
        by_color (color_of k colors) refl
          (λ c o p. visit_keys-Give ks c o p (λ x m. inside x (Memᴰ.tail m)))
      where
        by_visit :
            (v : Visit)
            → Gives k [] colors v
            → ((c : Colors)
                → IsOrdered nodes c
                → OnPath [] c
                → KeysGive ks c (visit_keys nodes (suc (length keys)) ks c))
            → KeysGive (k ∷ ks) colors (elim v [
              | finished c ↦ visit_keys nodes (suc (length keys)) ks c
              | cycle p ↦ cycle p
              | out_of_fuel ↦ out_of_fuel
            ])
        by_visit (finished c) (kept, o, p, b) rest = add_key k ks colors c _ kept b (rest c o p)
        by_visit (cycle p) g rest = g
        by_visit out_of_fuel g rest = g

        by_color :
            (x : Color)
            → color_of k colors ≡ x
            → ((c : Colors)
                → IsOrdered nodes c
                → OnPath [] c
                → KeysGive ks c (visit_keys nodes (suc (length keys)) ks c))
            → KeysGive (k ∷ ks) colors (elim x [
              | white ↦ elim (visit nodes (suc (length keys)) k [] colors) [
                | finished c ↦ visit_keys nodes (suc (length keys)) ks c
                | cycle p ↦ cycle p
                | out_of_fuel ↦ out_of_fuel
              ]
              | gray ↦ visit_keys nodes (suc (length keys)) ks colors
              | black ↦ visit_keys nodes (suc (length keys)) ks colors
            ])
        by_color white e rest =
            by_visit _
              (visit-Gives (suc (length keys)) k [] colors (record {
                is_white = e;
                ordered = o;
                on_path = p;
                walk = tt;
                known = inside k (Memᴰ.head refl);
                enough = omega (arith, whites-le-length keys colors);
              }))
              rest
        by_color gray e rest = elim (p k e) [ ]
        by_color black e rest =
            add_key k ks colors colors _ (λ x. (λ h. h, λ h. h)) e (rest colors o p)
