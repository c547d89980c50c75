-- ===== src/Fragment/Inert.antt =====
-- The types of single fragments in what `Load` of internal/authz/fragment/fragment.go returns, and
-- the checks of internal/authz/fragment/check.go on them.
use kiban.Shared.{
  String, true, false, some, List, [], ◌∷◌, ◌++◌, Memᴰ, lookup, string_eq, contains, ◌≡◌, refl, sym,
  ◌∙◌, ap, inl, inr, Bool-cases, subst, mem-lookup, ◌==◌,
}
use kiban.Engine.Model.{Model, Relations}
use kiban.Engine.Eval.{Node, Env, answer}
use kiban.Fragment.Load.{
  Row, Known, Loaded, loaded, is_in, is_effective, harvested, load_row, load_rows, base_only, load,
  check_loaded,
}
use kiban.Fragment.Merging.{merge-kept, merge-added, claim-kept, claim-owned}
use kiban.Fragment.Effective.{bind-loaded, load_row-cases, merge-pair, load-rows}

contains-append :
    (x : String) (xs ys : List String) → contains x ys ≡ true → contains x (xs ++ ys) ≡ true
unfolding contains
contains-append x [] ys h = h
contains-append x (z ∷ xs) ys h = elim (Bool-cases (z == x)) [
  | inl b ↦ rw b
  | inr b ↦ rw b (contains-append x xs ys h)
]

contains-append_left :
    (x : String) (xs ys : List String) → contains x xs ≡ true → contains x (xs ++ ys) ≡ true
unfolding contains
contains-append_left x [] ys h = cc h
contains-append_left x (z ∷ xs) ys h = elim (Bool-cases (z == x)) [
  | inl b ↦ rw b
  | inr b ↦ rw b (contains-append_left x xs ys (rw b at h))
]

module _ (base : Model) where
  -- What one row leaves, every later row leaves.
  module _ (P : Loaded → Type 0)
      (kept : (r : Row) (s s2 : Loaded) → load_row base r s ≡ loaded s2 → P s → P s2) where
    rows-keep : (rs : List Row) (s s2 : Loaded) → load_rows base rs s ≡ loaded s2 → P s → P s2
    unfolding load_rows
    rows-keep [] s s2 h p = subst P (loaded-inj h) p
      where
        loaded-inj : {a b : Loaded} → loaded a ≡ loaded b → a ≡ b
        loaded-inj e = cc e
    rows-keep (r ∷ rs) s s2 h p =
        let (s1, h1, h2) = bind-loaded (load_row base r s) (load_rows base rs) h in
        rows-keep rs s1 s2 h2 (kept r s s1 h1 p)

    -- A row that establishes it at its place establishes it at the end.
    rows-establish :
        (Q : Loaded → Type 0)
        → ((r : Row) (s s2 : Loaded) → load_row base r s ≡ loaded s2 → Q s → Q s2)
        → {r : Row} (rs : List Row) (s s2 : Loaded)
        → ((t t2 : Loaded) → load_row base r t ≡ loaded t2 → Q t → P t2)
        → Memᴰ r rs
        → load_rows base rs s ≡ loaded s2
        → Q s
        → P s2
    unfolding load_rows
    rows-establish Q q_kept (r ∷ rs) s s2 est (Memᴰ.head e) h q =
        let (s1, h1, h2) = bind-loaded (load_row base r s) (load_rows base rs) h in
        rows-keep rs s1 s2 h2 (est s s1 (subst (λ x. load_row base x s ≡ loaded s1) (sym e) h1) q)
    rows-establish Q q_kept (r ∷ rs) s s2 est (Memᴰ.tail m) h q =
        let (s1, h1, h2) = bind-loaded (load_row base r s) (load_rows base rs) h in
        rows-establish Q q_kept rs s1 s2 est m h2 (q_kept r s s1 h1 q)
    rows-establish Q q_kept [] s s2 est m h q = elim m [ ]

  known-kept :
      (known : Known) (r : Row) (s s2 : Loaded)
      → load_row base r s ≡ loaded s2
      → s.known_enabled ≡ known
      → s2.known_enabled ≡ known
  known-kept known r s s2 h k = elim (load_row-cases base r s s2 h) [
    | inl (b, step) ↦ let (m, st) = step in st.known_same ∙ k
    | inr (b, same) ↦ subst (λ t. t.known_enabled ≡ known) same k
  ]

  -- The type as the module's fragment declares it.
  abbrev Declares : String → Relations → String → Loaded → Type 0
  Declares typ rels key l = (lookup typ l.model ≡ some rels) × (lookup typ l.type_owner ≡ some key)

  Declares-kept :
      (typ : String) (rels : Relations) (key : String) (r : Row) (s s2 : Loaded)
      → load_row base r s ≡ loaded s2
      → Declares typ rels key s
      → Declares typ rels key s2
  Declares-kept typ rels key r s s2 h (d, o) = elim (load_row-cases base r s s2 h) [
    | inr (b, same) ↦ subst (Declares typ rels key) same (d, o)
    | inl (b, step) ↦
        let (m, st) = step in
        (
          merge-kept typ s.model m d (merge-pair s.model m st.merged),
          claim-kept base r.module_key typ m s.type_owner o st.claimed,
        )
  ]

  -- Every type of an enabled module's active fragment is in the model that Load returns, with the
  -- relations that the fragment declares, and is owned by the module.
  pub load-effective_types :
      (known : Known) (rows : List Row) (l : Loaded) (r : Row) (m : Model) (typ : String)
      (rels : Relations)
      → load base known rows ≡ loaded l
      → Memᴰ r rows
      → is_effective known r ≡ true
      → r.decoded ≡ some m
      → lookup typ m ≡ some rels
      → (lookup typ l.model ≡ some rels) × (lookup typ l.type_owner ≡ some r.module_key)
  load-effective_types known rows l r m typ rels h mem eff dec found =
      rows-establish (Declares typ rels r.module_key) (Declares-kept typ rels r.module_key)
        (λ s. s.known_enabled ≡ known) (known-kept known) rows (base_only base known) l here mem
        (load-rows base known rows l h) refl
    where
      not_both : true ≡ false → ⊥
      not_both e = cc e

      some-inj : {a b : Model} → some a ≡ some b → a ≡ b
      some-inj e = cc e

      here :
          (t t2 : Loaded)
          → load_row base r t ≡ loaded t2
          → t.known_enabled ≡ known
          → Declares typ rels r.module_key t2
      here t t2 e k = elim (load_row-cases base r t t2 e) [
        | inr (b, same) ↦ absurd (not_both (sym eff ∙ (rw k at b)))
        | inl (b, step) ↦
            let (m2, st) = step in
            let declared =
              subst (λ x. lookup typ x ≡ some rels) (some-inj (sym dec ∙ st.decoded)) found in
            (
              merge-added typ t.model m2 declared (merge-pair t.model m2 st.merged),
              (claim-owned base r.module_key typ m2 t.type_owner (mem-lookup typ m2 declared)
                  st.claimed).0,
            )
      ]

  allowed_after :
      (r : Row) (s s2 : Loaded)
      → load_row base r s ≡ loaded s2
      → s2.allowed_types ≡ harvested r ++ s.allowed_types
  allowed_after r s s2 h = elim (load_row-cases base r s s2 h) [
    | inl (b, step) ↦ let (m, st) = step in st.allowed_same
    | inr (b, same) ↦ sym (ap (λ t. t.allowed_types) same)
  ]

  -- A check of a type that some stored fragment names answers no, and never an error, when the
  -- type is not in the loaded model: for instance while its module is disabled or unknown.
  pub load-inert :
      (known : Known) (rows : List Row) (l : Loaded) (r : Row) (en : Env) (n : Node)
      → load base known rows ≡ loaded l
      → Memᴰ r rows
      → contains n.obj_type (harvested r) ≡ true
      → is_in n.obj_type l.model ≡ false
      → check_loaded l en n ≡ answer false
  unfolding check_loaded
  load-inert known rows l r en n h mem named out = rw (
    out,
    rows-establish (λ s. contains n.obj_type s.allowed_types ≡ true) allowed-kept (λ s. Unit {0})
        (λ r s s2 e u. tt) rows (base_only base known) l here mem (load-rows base known rows l h)
        tt,
  )
    where
      allowed-kept :
          (r : Row) (s s2 : Loaded)
          → load_row base r s ≡ loaded s2
          → contains n.obj_type s.allowed_types ≡ true
          → contains n.obj_type s2.allowed_types ≡ true
      allowed-kept r s s2 e c =
          rw (allowed_after r s s2 e) (contains-append n.obj_type (harvested r) s.allowed_types c)

      here :
          (t t2 : Loaded)
          → load_row base r t ≡ loaded t2
          → Unit {0}
          → contains n.obj_type t2.allowed_types ≡ true
      here t t2 e u =
          rw (allowed_after r t t2 e)
            (contains-append_left n.obj_type (harvested r) t.allowed_types named)
