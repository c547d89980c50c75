-- ===== src/Modvalidate/Deps.antt =====
-- internal/modvalidate/deps.go: the dependency graph of a batch of modules, and the search for a
-- cycle in it.
pub mod Walks
pub mod Colors
pub mod Search
pub mod Cycles
use kiban.Shared.{
  ℕ, zero, suc, ◌+◌, String, Bool, true, false, Option, none, some, List, [], ◌∷◌, ◌++◌, map, ◌==◌,
  string_eq, if◌then◌else◌, lookup, put, length, sort, flat_map,
}
use kiban.Modvalidate.Errors.{
  Rule, ValidationError, errf, dependency_unknown, dependency_range, dependency_cycle,
}
use kiban.Modvalidate.Artifacts.{Manifest, ManifestDependency, Semver}

-- `depNode`
pub record DepNode : Type 0 where
  pub version : String
  pub dependencies : List ManifestDependency

abbrev pub Nodes : Type 0
Nodes = List (String × DepNode)

abbrev pub key_of : ManifestDependency → String
key_of dep = dep.module_key

-- the keys of `nodes[key].dependencies`
unfoldable pub targets : Nodes → String → List String
targets nodes key = elim (lookup key nodes) [ none ↦ [] | some n ↦ map key_of n.dependencies ]

pub data Color : Type 0 where
  white gray black : Color

abbrev pub Colors : Type 0
Colors = List (String × Color)

-- `color[key]`: an entry that is missing is white
unfoldable pub color_of : String → Colors → Color
color_of k [] = white
color_of k ((j, c) ∷ cs) = if j == k then c else color_of k cs

-- `path[i:]` for the first `i` with `path[i] == key`
unfoldable pub path_from : String → List String → List String
path_from k [] = []
path_from k (p ∷ path) = if p == k then p ∷ path else path_from k path

-- the path of the cycle that an edge from `key` to the gray `dep` closes
unfoldable pub cycle_of : String → String → List String → List String
cycle_of dep key path = elim (path_from dep path) [
  | [] ↦ dep ∷ key ∷ dep ∷ []
  | p ∷ rest ↦ (p ∷ rest) ++ dep ∷ []
]

-- What a visit returns: nil, with the colors that it leaves, or a cycle.
pub data Visit : Type 0 where
  finished : Colors → Visit
  cycle : List String → Visit
  out_of_fuel : Visit

module _ (visit : String → List String → Colors → Visit) where
  -- the loop over the dependencies of `key`, which is the last of `path`, and what follows the loop
  unfoldable pub visit_targets : String → List String → List String → Colors → Visit
  visit_targets key path [] colors = finished ((key, black) ∷ colors)
  visit_targets key path (dep ∷ deps) colors = elim (color_of dep colors) [
    | gray ↦ cycle (cycle_of dep key path)
    | white ↦ elim (visit dep path colors) [
      | finished c ↦ visit_targets key path deps c
      | cycle p ↦ cycle p
      | out_of_fuel ↦ out_of_fuel
    ]
    | black ↦ visit_targets key path deps colors
  ]

module _ (nodes : Nodes) where
  -- `visit`: the path is an argument, since a visit that returns nil leaves it as it was
  unfoldable pub visit : ℕ → String → List String → Colors → Visit
  visit zero key path colors = out_of_fuel
  visit (suc fuel) key path colors =
      visit_targets (visit fuel) key (path ++ key ∷ []) (targets nodes key) ((key, gray) ∷ colors)

  -- the loop over the sorted keys
  unfoldable pub visit_keys : ℕ → List String → Colors → Visit
  visit_keys fuel [] colors = finished colors
  visit_keys fuel (k ∷ keys) colors = elim (color_of k colors) [
    | white ↦ elim (visit fuel k [] colors) [
      | finished c ↦ visit_keys fuel keys c
      | cycle p ↦ cycle p
      | out_of_fuel ↦ out_of_fuel
    ]
    | gray ↦ visit_keys fuel keys colors
    | black ↦ visit_keys fuel keys colors
  ]

  abbrev pub node_keys : List String
  node_keys = map (λ n. n.0) nodes

  -- Every key that a visit can meet.
  abbrev pub all_keys : List String
  all_keys = node_keys ++ flat_map (targets nodes) node_keys

  -- `findDependencyCycle`
  unfoldable pub find_dependency_cycle : Visit
  find_dependency_cycle = visit_keys (suc (length all_keys)) (sort node_keys) []

-- A catalog entry's key and version, of `CatalogEntry`.
abbrev pub Known : Type 0
Known = String × String

-- the first loop: a later module of the same key replaces an earlier one
unfoldable pub batch_nodes : List Manifest → Nodes → Nodes
batch_nodes [] nodes = nodes
batch_nodes (m ∷ modules) nodes =
    batch_nodes modules
      (put m.module_key (record { version = m.version; dependencies = m.dependencies }) nodes)

-- the second loop: "batch always wins over a possibly-stale snapshot entry"
unfoldable pub snapshot_nodes : List Known → Nodes → Nodes
snapshot_nodes [] nodes = nodes
snapshot_nodes ((key, version) ∷ known) nodes = snapshot_nodes known (elim (lookup key nodes) [
  | some n ↦ nodes
  | none ↦ put key (record { version = version; dependencies = [] }) nodes
])

module _ (semver : Semver) (nodes : Nodes) where
  -- one round of the loop over a module's dependencies
  unfoldable pub check_dependency : String → ManifestDependency → List ValidationError
  check_dependency key dep = elim (lookup dep.module_key nodes) [
    | none ↦ errf key dependency_unknown
    | some target ↦
        if semver.is_constraint dep.version_range
        then (if semver.is_version target.version
            then (if semver.check dep.version_range target.version
                then []
                else errf key dependency_range)
            else [])
        else []
  ]

  abbrev pub check_dependencies : Manifest → List ValidationError
  check_dependencies m = flat_map (check_dependency m.module_key) m.dependencies

-- the error of a cycle stands under the first key of the cycle
abbrev pub cycle_errors : Visit → List ValidationError
cycle_errors (finished colors) = []
cycle_errors (cycle []) = []
cycle_errors (cycle (p ∷ path)) = errf p dependency_cycle
cycle_errors out_of_fuel = []

abbrev pub graph_nodes : List Manifest → List Known → Nodes
graph_nodes modules known = snapshot_nodes known (batch_nodes modules [])

-- `validateDependencyGraph`, on the modules that have a manifest
unfoldable pub validate_dependency_graph :
    Semver → List Manifest → List Known → List ValidationError
validate_dependency_graph semver modules known =
    let nodes = graph_nodes modules known in
    flat_map (check_dependencies semver nodes) modules ++ cycle_errors (find_dependency_cycle nodes)
