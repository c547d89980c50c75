-- ===== src/Tests/FragmentTests.antt =====
-- Concrete loads by the models of internal/authz/fragment.
use kiban.Shared.{
  String, true, false, some, List, [], ◌∷◌, Memᴰ, lookup, contains, string_eq, ◌≡◌, refl,
}
use kiban.Engine.Model.{
  Model, Relations, this, tuple_to_userset, load_model, validate_self_refs, definition, merge,
  merge_into, validate_targets, walk, defined_somewhere, validate_company_module_anchor,
  check_anchor,
}
use kiban.Engine.Eval.{Node, Env, answer}
use kiban.Fragment.Load.{
  Row, Known, Loaded, loaded, is_in, is_effective, load, load_rows, load_row, load_effective, claim,
  check_loaded,
}
use kiban.Fragment.Effective.{IsEffective, load-IsEffective}
use kiban.Fragment.Inert.{load-effective_types, load-inert}

abbrev pub base : Model
base =
    ("company", ("admin", this) ∷ [])
    ∷ ("company_module", ("admin", this) ∷ [])
    ∷ ("system", ("superadmin", this) ∷ [])
    ∷ []

abbrev doc_relations : Relations
doc_relations =
    ("company_module", this)
    ∷ ("owner", this)
    ∷ ("admin", tuple_to_userset "company_module" "admin")
    ∷ []

abbrev pub docs : Model
docs = ("doc", doc_relations) ∷ []

abbrev row : String → String → Model → Row
row key typ m = record {
  module_key = key;
  type_names = some (typ ∷ []);
  decoded = some m;
  active = true;
}

abbrev pub rows : List Row
rows = row "docs" "doc" docs ∷ row "desk" "ticket" (("ticket", doc_relations) ∷ []) ∷ []

-- The help desk is known, but disabled.
abbrev pub known : Known
known = ("docs", true) ∷ ("desk", false) ∷ []

abbrev pub result : Loaded
result = record {
  model = ("doc", doc_relations) ∷ base;
  allowed_types = "ticket" ∷ "doc" ∷ "company" ∷ "company_module" ∷ "system" ∷ [];
  type_owner = ("doc", "docs") ∷ [];
  known_enabled = known;
}

pub is_loaded : load base known rows ≡ loaded result
unfolding load load_rows load_row load_effective claim load_model validate_self_refs definition
    merge merge_into validate_targets walk defined_somewhere validate_company_module_anchor
    check_anchor lookup
is_loaded = refl

load-IsEffective_example : IsEffective base known result.model result.type_owner
load-IsEffective_example = load-IsEffective base known rows result is_loaded

doc_found : lookup "doc" docs ≡ some doc_relations
unfolding lookup
doc_found = refl

docs_effective : is_effective known (row "docs" "doc" docs) ≡ true
unfolding lookup
docs_effective = refl

load-effective_types_example :
    (lookup "doc" result.model ≡ some doc_relations)
    × (lookup "doc" result.type_owner ≡ some "docs")
load-effective_types_example =
    load-effective_types base known rows result (row "docs" "doc" docs) docs "doc" doc_relations
      is_loaded (Memᴰ.head refl) docs_effective refl doc_found

abbrev env : Env
env = record {
  model = [];
  rows = λ n. some [];
  subj_type = "user";
  subj_id = "ann";
  company_id = "c1";
}

abbrev ticket : Node
ticket = record { obj_type = "ticket"; obj_id = "1"; rel = "owner" }

ticket_named : contains {A = String} "ticket" ("ticket" ∷ []) ≡ true
unfolding contains
ticket_named = refl

ticket_out : is_in "ticket" result.model ≡ false
unfolding lookup
ticket_out = refl

load-inert_example : check_loaded result env ticket ≡ answer false
load-inert_example =
    load-inert base known rows result (row "desk" "ticket" (("ticket", doc_relations) ∷ [])) env
      ticket is_loaded (Memᴰ.tail (Memᴰ.head refl)) ticket_named ticket_out
