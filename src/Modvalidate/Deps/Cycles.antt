-- ===== src/Modvalidate/Deps/Cycles.antt =====
-- `findDependencyCycle` and `validateDependencyGraph` against cycles of the graph.
use mathlib.Core.List.Memᴰ
use kiban.Shared.{
  String, some, none, List, [], ◌∷◌, ◌++◌, map, ◌≡◌, refl, sym, subst, ◌⊎◌, inl, inr, Memᴰ,
  flat_map, lookup, string_eq, mem-lookup, map-Mem, flat_map-Mem, sort, sort-Mem, mem_of_sort,
  Option-cases,
}
use kiban.Modvalidate.Errors.{ValidationError, dependency_cycle}
use kiban.Modvalidate.Artifacts.{Manifest, Semver}
use kiban.Modvalidate.Deps.{
  Nodes, DepNode, key_of, targets, Known, Visit, Colors, finished, cycle, out_of_fuel, node_keys,
  all_keys, find_dependency_cycle, cycle_errors, check_dependencies, graph_nodes,
  validate_dependency_graph,
}
use kiban.Modvalidate.Deps.Walks.{Edge, IsWalk, IsCycle}
use kiban.Modvalidate.Deps.Colors.{black-no_cycle, color_of_nil}
use kiban.Modvalidate.Deps.Search.{KeysGive, visit_keys-Give}

module _ (nodes : Nodes) where
  -- Only a key of the graph has an edge.
  edge_from : (a d : String) → Edge nodes a d → Memᴰ a (node_keys nodes)
  unfolding targets
  edge_from a d e = elim (Option-cases (lookup a nodes)) [
    | inl n ↦
        elim (subst (λ o. Memᴰ d (elim o [ none ↦ [] | some n ↦ map key_of n.dependencies ])) n
          e) [ ]
    | inr (n, s) ↦ map-Mem (λ (p : String × DepNode). p.0) (a, n) nodes (mem-lookup a nodes s)
  ]

  closed_keys : (a d : String) → Edge nodes a d → Memᴰ d (all_keys nodes)
  closed_keys a d e =
      Memᴰ.append_right (node_keys nodes)
        (flat_map-Mem (targets nodes) a d (node_keys nodes) (edge_from a d e) e)

  keys_give :
      KeysGive nodes
        (all_keys nodes)
        closed_keys
        (sort (node_keys nodes))
        []
        (find_dependency_cycle nodes)
  unfolding find_dependency_cycle
  keys_give =
      visit_keys-Give nodes (all_keys nodes) closed_keys (sort (node_keys nodes)) [] tt
        (λ k g. cc (color_of_nil k, g))
        (λ k m.
          Memᴰ.append_left (flat_map (targets nodes) (node_keys nodes))
            (mem_of_sort k (node_keys nodes) m))

  -- The search for a dependency cycle ends within its fuel, and what it returns is a walk along
  -- dependencies of at least one edge that ends where it starts.
  pub find_dependency_cycle-IsCycle :
      ((colors : Colors) × (find_dependency_cycle nodes ≡ finished colors))
      ⊎ ((path : List String) × (find_dependency_cycle nodes ≡ cycle path) × IsCycle nodes path)
  find_dependency_cycle-IsCycle = by_visit (find_dependency_cycle nodes) refl keys_give
    where
      by_visit :
          (v : Visit)
          → find_dependency_cycle nodes ≡ v
          → KeysGive nodes (all_keys nodes) closed_keys (sort (node_keys nodes)) [] v
          → ((colors : Colors) × (find_dependency_cycle nodes ≡ finished colors))
            ⊎ ((path : List String) × (find_dependency_cycle nodes ≡ cycle path)
                × IsCycle nodes path)
      by_visit (finished colors) e g = inl (colors, e)
      by_visit (cycle path) e g = inr (path, e, g)
      by_visit out_of_fuel e g = absurd g

  first_edge :
      (k : String) (between : List String)
      → IsWalk nodes (k ∷ between ++ k ∷ [])
      → Memᴰ k (node_keys nodes)
  first_edge k [] w = edge_from k k w.0
  first_edge k (d ∷ between) w = edge_from k d w.0

  -- A search that finds nothing has seen a graph without cycles.
  finished-no_cycle :
      (colors : Colors) (k : String) (between : List String)
      → find_dependency_cycle nodes ≡ finished colors
      → IsWalk nodes (k ∷ between ++ k ∷ [])
      → ⊥
  finished-no_cycle colors k between e w =
      (let (kept, ordered, all) =
          subst (KeysGive nodes (all_keys nodes) closed_keys (sort (node_keys nodes)) []) e
            keys_give in
        black-no_cycle nodes colors k between ordered
          (all k (sort-Mem k (node_keys nodes) (first_edge k between w))) w)

cycle_errors-Mem :
    (nodes : Nodes) (path : List String)
    → IsCycle nodes path
    → (k : String) × Memᴰ {A = ValidationError}
        (record { module_key = k; rule = dependency_cycle })
        (cycle_errors (cycle path))
cycle_errors-Mem nodes path (k, between, e, w) = (
  k,
  subst
      (λ p.
        Memᴰ {A = ValidationError} (record { module_key = k; rule = dependency_cycle })
          (cycle_errors (cycle p)))
      (sym e) (Memᴰ.head refl),
)

-- Where the graph of a batch and the known modules has a cycle, the validation of the batch
-- reports a dependency cycle.
pub validate_dependency_graph-Mem :
    (semver : Semver) (modules : List Manifest) (known : List Known) (path : List String)
    → IsCycle (graph_nodes modules known) path
    → (k : String) × Memᴰ {A = ValidationError}
        (record { module_key = k; rule = dependency_cycle })
        (validate_dependency_graph semver modules known)
unfolding validate_dependency_graph
validate_dependency_graph-Mem semver modules known path (k, between, e, w) =
    elim (find_dependency_cycle-IsCycle (graph_nodes modules known)) [
      | inl (colors, f) ↦ absurd (
          finished-no_cycle (graph_nodes modules known) colors k between f
            (subst (IsWalk (graph_nodes modules known)) e w))
      | inr (found, f, c) ↦
          (let (j, m) = cycle_errors-Mem (graph_nodes modules known) found c in
            (
              j,
              Memᴰ.append_right
                  (flat_map (check_dependencies semver (graph_nodes modules known)) modules)
                  (rw f m),
            ))
    ]
