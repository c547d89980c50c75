-- ===== src/Modvalidate/Deps/Walks.antt =====
-- Walks and cycles of the dependency graph, and what the path of a search becomes.
use kiban.Shared.{
  String, false, List, [], ◌∷◌, ◌++◌, ◌==◌, string_eq, if◌then◌else◌, ◌≡◌, sym, ap, subst, inl, inr,
  Memᴰ, beq-cases, beq_self,
}
use kiban.Modvalidate.Deps.{Nodes, targets, path_from, cycle_of}

-- `a` declares a dependency on `b`.
abbrev pub Edge : Nodes → String → String → Type 0
Edge nodes a b = Memᴰ b (targets nodes a)

abbrev pub IsWalk : Nodes → List String → Type 0
IsWalk nodes [] = Unit
IsWalk nodes (a ∷ []) = Unit
IsWalk nodes (a ∷ b ∷ path) = Edge nodes a b × IsWalk nodes (b ∷ path)

-- A walk of at least one edge that ends where it starts.
abbrev pub IsCycle : Nodes → List String → Type 0
IsCycle nodes path =
    (k : String) × (between : List String) × (path ≡ k ∷ between ++ k ∷ []) × IsWalk nodes path

module _ (nodes : Nodes) where
  pub IsWalk-concat :
      (path : List String) (a b : String)
      → IsWalk nodes (path ++ a ∷ [])
      → Edge nodes a b
      → IsWalk nodes ((path ++ a ∷ []) ++ b ∷ [])
  IsWalk-concat [] a b w e = (e, tt)
  IsWalk-concat (p ∷ []) a b w e = (w.0, (e, tt))
  IsWalk-concat (p ∷ q ∷ path) a b w e = (w.0, IsWalk-concat (q ∷ path) a b w.1 e)

  IsWalk-tail : (a : String) (path : List String) → IsWalk nodes (a ∷ path) → IsWalk nodes path
  IsWalk-tail a [] w = tt
  IsWalk-tail a (b ∷ path) w = w.1

  abbrev closed : String → String → List String → List String
  closed dep key path = elim path [ [] ↦ dep ∷ key ∷ dep ∷ [] | p ∷ rest ↦ (p ∷ rest) ++ dep ∷ [] ]

  pub cycle_of-IsCycle :
      (dep key : String) (path : List String)
      → Memᴰ dep path
      → IsWalk nodes (path ++ dep ∷ [])
      → IsCycle nodes (cycle_of dep key path)
  unfolding cycle_of path_from
  cycle_of-IsCycle dep key [] m w = elim m [ ]
  cycle_of-IsCycle dep key (p ∷ path) m w = elim (beq-cases p dep) [
    | inl (e, t) ↦
        subst (λ found. IsCycle nodes (closed dep key found))
          (sym (ap (λ b. if b then p ∷ path else path_from dep path) t))
          (p, path, ap (λ (x : String). p ∷ path ++ x ∷ []) (sym e), w)
    | inr f ↦
        subst (λ found. IsCycle nodes (closed dep key found))
          (sym (ap (λ b. if b then p ∷ path else path_from dep path) f))
          (cycle_of-IsCycle dep key path (later m f) (IsWalk-tail p (path ++ dep ∷ []) w))
  ]
    where
      later : Memᴰ dep (p ∷ path) → (p == dep) ≡ false → Memᴰ dep path
      later (Memᴰ.tail n) f = n
      later (Memᴰ.head e) f = cc (f, ap (λ x. p == x) e, beq_self p)
