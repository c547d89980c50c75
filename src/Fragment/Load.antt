-- ===== src/Fragment/Load.antt =====
-- internal/authz/fragment/fragment.go and check.go, over any base model.
use kiban.Shared.{
  String, Bool, true, false, not, ◌&&◌, Option, none, some, List, [], ◌∷◌, ◌++◌, map, if◌then◌else◌,
  lookup, contains, string_eq,
}
use kiban.Engine.Model.{
  Model, ModelError, load_model, merge, validate_targets, validate_company_module_anchor,
}
use kiban.Engine.Eval.{Node, Env, Answer, answer, check_in_company}

-- `Row`, with what the JSON decoder reads of the fragment: its type names, and its model.
pub record Row : Type 0 where
  pub module_key : String
  pub type_names : Option (List String)
  pub decoded : Option Model
  pub active : Bool

pub data LoadError : Type 0 where
  undecodable : String → LoadError
  invalid : String → ModelError → LoadError
  redefines_base : String → String → LoadError
  owned_twice : String → String → String → LoadError
  invalid_effective : ModelError → LoadError

-- A value, or the error that `Load` returns.
pub data Loading {ℓ} (A : Type ℓ) : Type ℓ where
  refused : LoadError → Loading A
  loaded : A → Loading A

infixl 5 ◌>>=◌ ◌>>◌
abbrev pub ◌>>=◌ {ℓ κ} : {A : Type ℓ} {B : Type κ} → Loading A → (A → Loading B) → Loading B
refused why >>= rest = refused why
loaded a >>= rest = rest a

abbrev pub ◌>>◌ {ℓ κ} : {A : Type ℓ} {B : Type κ} → Loading A → Loading B → Loading B
refused why >> rest = refused why
loaded a >> rest = rest

-- The module key of each type that an enabled fragment declares.
abbrev pub Owners : Type 0
Owners = List (String × String)

-- `knownEnabled`, with the key of every module that the catalog knows
abbrev pub Known : Type 0
Known = List (String × Bool)

-- `Loaded`, and the variables of the loop of `Load`
pub record Loaded : Type 0 where
  pub model : Model
  pub allowed_types : List String
  pub type_owner : Owners
  pub known_enabled : Known

-- `knownEnabled[key]`: false for an unknown module
abbrev pub is_enabled : Known → String → Bool
is_enabled known key = elim (lookup key known) [ none ↦ false | some b ↦ b ]

abbrev pub is_effective : Known → Row → Bool
is_effective known r = is_enabled known r.module_key && r.active

abbrev pub is_in : String → Model → Bool
is_in typ m = elim (lookup typ m) [ none ↦ false | some _ ↦ true ]

-- `harvestTypeNames`, whose error leaves the names out
abbrev pub harvested : Row → List String
harvested r = elim r.type_names [ none ↦ [] | some names ↦ names ]

abbrev pub harvest : Row → Loaded → Loaded
harvest r s = record s { allowed_types = harvested r ++ s.allowed_types }

abbrev pub valid : Option ModelError → (ModelError → LoadError) → Loading (Unit {0})
valid none f = loaded tt
valid (some e) f = refused (f e)

abbrev pub decoded_of : Row → Loading Model
decoded_of r = elim r.decoded [ none ↦ refused (undecodable r.module_key) | some m ↦ loaded m ]

abbrev pub merged_of : String → Option Model × Option ModelError → Loading Model
merged_of key (some m, _) = loaded m
merged_of key (none, some e) = refused (invalid key e)
merged_of key (none, none) = refused (undecodable key)

module _ (base : Model) where
  -- the loop over the types of one fragment; `IsBaseType` is a lookup in the base model
  unfoldable pub claim : String → Model → Owners → Loading Owners
  claim key [] owner = loaded owner
  claim key ((typ, _) ∷ m) owner =
      let rest = claim key m ((typ, key) ∷ owner) in
      if is_in typ base then refused (redefines_base key typ) else elim (lookup typ owner) [
        | some other ↦ refused (owned_twice key typ other)
        | none ↦ rest
      ]

  -- the body of the loop of `Load` behind its `continue`
  unfoldable pub load_effective : Row → Loaded → Loading Loaded
  load_effective r s = do
    m ← decoded_of r
    valid (load_model m) (invalid r.module_key)
    owner ← claim r.module_key m s.type_owner
    valid (validate_company_module_anchor m) (invalid r.module_key)
    merged ← merged_of r.module_key (merge s.model m)
    loaded (record s { model = merged; type_owner = owner })

  -- the body of the loop of `Load`
  unfoldable pub load_row : Row → Loaded → Loading Loaded
  load_row r s =
      if is_effective s.known_enabled r
      then load_effective r (harvest r s)
      else loaded (harvest r s)

  unfoldable pub load_rows : List Row → Loaded → Loading Loaded
  load_rows [] s = loaded s
  load_rows (r ∷ rs) s = load_row r s >>= load_rows rs

  -- what `Load` starts from
  abbrev pub base_only : Known → Loaded
  base_only known = record {
    model = base;
    allowed_types = map (λ (typ, _). typ) base;
    type_owner = [];
    known_enabled = known;
  }

  -- `Load` behind `FetchRows`
  unfoldable pub load : Known → List Row → Loading Loaded
  load known rows = do
    s ← load_rows rows (base_only known)
    valid (validate_targets s.model) invalid_effective
    loaded s

-- `Check` and `CheckInCompany`: the engine with the loaded model, behind the inert types
unfoldable pub check_loaded : Loaded → Env → Node → Answer
check_loaded l en n =
    if not (is_in n.obj_type l.model) && contains n.obj_type l.allowed_types
    then answer false
    else check_in_company (record en { model = l.model }) n
