-- ===== src/Tests/ModvalidateTests.antt =====
-- Concrete batches of modules for the models of internal/modvalidate.
use kiban.Shared.{
  String, true, List, [], ◌∷◌, Memᴰ, ◌≡◌, ◌⊎◌, refl, lookup, put, string_eq, sort, some, Option,
  contains, ◌↔◌,
}
use kiban.Modvalidate.Errors.{ValidationError, dependency_cycle}
use kiban.Modvalidate.Artifacts.{Manifest, ManifestDependency, Semver}
use kiban.Modvalidate.Deps.{
  Nodes, Colors, finished, cycle, visit, visit_targets, visit_keys, color_of, targets, path_from,
  cycle_of, find_dependency_cycle, batch_nodes, snapshot_nodes, graph_nodes,
  validate_dependency_graph,
}
use kiban.Engine.Model.{
  load_model, validate_self_refs, definition, merge, merge_into, validate_targets, walk,
  defined_somewhere, validate_company_module_anchor, check_anchor,
}
use kiban.Fragment.Load.{Loaded, loaded, load}
use kiban.Modvalidate.Errors.{duplicate_port}
use kiban.Modvalidate.Artifacts.{MigrationFile, decoded}
use kiban.Modvalidate.Fragment.{check_relations}
use kiban.Modvalidate.Fragment.Loads.{row_of, check_relations-load}
use kiban.Modvalidate.Catalog.{Occurrence, add_all, report_duplicates}
use kiban.Modvalidate.Catalog.Duplicates.{IsShared, report_duplicates-Mem}
use kiban.Modvalidate.Migrations.{check_numbers, validate_migration_layout, write_checksum_ledger}
use kiban.Modvalidate.Migrations.Ledger.{validate_migration_layout-write}
use kiban.Tests.FragmentTests.{base, docs, known}
use kiban.Modvalidate.Deps.Walks.{IsCycle}
use kiban.Modvalidate.Deps.Cycles.{find_dependency_cycle-IsCycle, validate_dependency_graph-Mem}

abbrev semver : Semver
semver = record { is_version = λ v. true; is_constraint = λ r. true; check = λ r v. true }

abbrev needs : String → ManifestDependency
needs key = record { module_key = key; version_range = "^1"; required = true }

abbrev manifest : String → List ManifestDependency → Manifest
manifest key deps = record {
  contract_version = "1";
  module_key = key;
  version = "1.0.0";
  scope_type = "company";
  service = record { base_path = "/api/x"; port = 8080; health_path = "/health" };
  dependencies = deps;
  postgres_schema = key;
  license = record { class = "open"; spdx = "MIT" };
}

-- docs needs desk, and desk needs docs.
abbrev batch : List Manifest
batch =
    manifest "docs" (needs "base" ∷ needs "desk" ∷ []) ∷ manifest "desk" (needs "docs" ∷ []) ∷ []

abbrev nodes : Nodes
nodes = graph_nodes batch (("base", "1.0.0") ∷ [])

found : find_dependency_cycle nodes ≡ cycle ("desk" ∷ "docs" ∷ "desk" ∷ [])
unfolding find_dependency_cycle visit_keys visit visit_targets color_of targets path_from cycle_of
    batch_nodes snapshot_nodes lookup put sort
found = refl

find_dependency_cycle-IsCycle_example :
    ((colors : Colors) × (find_dependency_cycle nodes ≡ finished colors))
    ⊎ ((path : List String) × (find_dependency_cycle nodes ≡ cycle path) × IsCycle nodes path)
find_dependency_cycle-IsCycle_example = find_dependency_cycle-IsCycle nodes

docs_desk : IsCycle nodes ("docs" ∷ "desk" ∷ "docs" ∷ [])
unfolding targets batch_nodes snapshot_nodes lookup put
docs_desk = ("docs", "desk" ∷ [], refl, (Memᴰ.tail (Memᴰ.head refl), (Memᴰ.head refl, tt)))

validate_dependency_graph-Mem_example :
    (k : String) × Memᴰ {A = ValidationError}
      (record { module_key = k; rule = dependency_cycle })
      (validate_dependency_graph semver batch (("base", "1.0.0") ∷ []))
validate_dependency_graph-Mem_example =
    validate_dependency_graph-Mem semver batch (("base", "1.0.0") ∷ [])
      ("docs" ∷ "desk" ∷ "docs" ∷ []) docs_desk

abbrev claim : String → String → Occurrence
claim key value = record { module_key = key; value = value }

abbrev ports : List Occurrence
ports = claim "docs" "8080" ∷ claim "desk" "8080" ∷ claim "base" "" ∷ []

report_duplicates-Mem_example :
    Memᴰ {A = ValidationError}
      (record { module_key = "desk"; rule = duplicate_port })
      (report_duplicates duplicate_port (add_all ports []))
    ↔ ((v : String) × IsShared ports "desk" v)
report_duplicates-Mem_example = report_duplicates-Mem duplicate_port ports "desk"

docs_accepted : (check_relations base "docs" (decoded docs)).0 ≡ []
unfolding check_relations load_model validate_self_refs definition merge merge_into validate_targets
    walk defined_somewhere validate_company_module_anchor check_anchor lookup
docs_accepted = refl

check_relations-load_example :
    (l : Loaded) × (load base known (row_of "docs" (some ("doc" ∷ [])) docs ∷ []) ≡ loaded l)
    × (l.model ≡ (check_relations base "docs" (decoded docs)).1)
unfolding lookup
check_relations-load_example =
    check_relations-load base docs "docs" (some ("doc" ∷ [])) known refl docs_accepted

abbrev file : String → String → MigrationFile
file name checksum = record { name = name; contents = []; checksum = checksum }

abbrev files : List MigrationFile
files = file "0001_schema.sql" "a1" ∷ file "0002_audit.sql" "b2" ∷ []

abbrev number_of : String → Option String
number_of name = some name

validate_migration_layout-write_example :
    validate_migration_layout number_of "docs" (some (write_checksum_ledger files)) files
    ≡ check_numbers number_of "docs" files
unfolding contains
validate_migration_layout-write_example =
    validate_migration_layout-write number_of "docs" files (refl, (refl, tt))
