-- ===== src/Http/Resolves.antt =====
-- Rule 1 of `handleGrants` of internal/authz/http.go: the module of each object of a request.
use Prim.Native.String.{◌++◌ as str_append}
use text.Mathlib.TextLemmas.{append_assoc}
use kiban.Shared.{
  String, Bool, true, false, ◌||◌, Option, none, some, List, [], ◌∷◌, ◌==◌, string_eq, lookup,
  trim_prefix, trim-append, ◌≡◌, refl, sym, ◌∙◌, ap, subst, ◌⊎◌, inl, inr, All, Bool-cases,
  beq-cases, arith, eq_iff,
}
use kiban.Store.Tables.{Tuple, Db}
use kiban.Fragment.Load.{Loaded}
use kiban.Decision.Types.{module_object_id}
use kiban.Http.Replies.{go_on, step-go_on, require-go_on}
use kiban.Http.Grants.{Service}
use kiban.Http.Authorize.{resolve_tuple, resolve, known_module, owning_module}
use kiban.Http.Permits.{go_on-inj}

known_module-go_on :
    {m : String} (same : Bool) (o : Option Bool) (key : String)
    → known_module same o key ≡ go_on m
    → (same ≡ false) × ((b : Bool) × (o ≡ some b)) × (key ≡ m)
known_module-go_on true o key h = cc h
known_module-go_on false none key h = cc h
known_module-go_on false (some b) key h = (refl, (b, refl), go_on-inj h)

owning_module-go_on :
    {m : String} (o : Option String)
    → owning_module o ≡ go_on m
    → (o ≡ some m) × ((m == "") ≡ false)
owning_module-go_on none h = cc h
owning_module-go_on (some key) h = elim (Bool-cases (key == "")) [
  | inl e ↦ cc (rw e at h)
  | inr e ↦
      (ap some (go_on-inj (rw e at h)), subst (λ k. (k == "") ≡ false) (go_on-inj (rw e at h)) e)
]

module _ (svc : Service) (l : Loaded) (db : Db) (company_id : String) where
  -- The module of an object, by the object's own evidence.
  abbrev pub Resolved : Tuple → String → Type 0
  Resolved t key =
      ((t.object_type == "company_module") ≡ true)
        × (t.object_id ≡ module_object_id company_id key)
        × ((b : Bool) × (lookup key l.known_enabled ≡ some b))
      ⊎ ((t.object_type == "company_module") ≡ false)
        × (lookup t.object_type l.type_owner ≡ some key)
        × ((key == "") ≡ false)

  resolve_tuple-Resolved :
      (t : Tuple) (key : String) → resolve_tuple svc l db company_id t ≡ go_on key → Resolved t key
  unfolding resolve_tuple
  resolve_tuple-Resolved t key h = elim (Bool-cases (t.object_type == "company_module")) [
    | inr b ↦
        let (o, e) = owning_module-go_on (lookup t.object_type l.type_owner) (rw b at h) in
        inr (b, o, e)
    | inl b ↦
        let stripped = trim_prefix t.object_id (str_append company_id "/") in
        let (changed, (v, found), eq) =
          known_module-go_on (stripped == t.object_id) (lookup stripped l.known_enabled) stripped
            (rw b at h) in
        inl (
          b,
          trim-append (str_append company_id "/") t.object_id changed
              ∙ append_assoc company_id "/" stripped
              ∙ ap (module_object_id company_id) eq,
          (v, subst (λ k. lookup k l.known_enabled ≡ some v) eq found),
        )
  ]

module _ (svc : Service) (l : Loaded) (db : Db) (company_id : String)
    (named : lookup "" l.known_enabled ≡ none) where
  Resolved-named :
      (t : Tuple) (key : String) → Resolved svc l db company_id t key → (key == "") ≡ false
  Resolved-named t key (inr (b, o, e)) = e
  Resolved-named t key (inl (b, i, (v, found))) = elim (beq-cases key "") [
    | inr e ↦ e
    | inl (same, e) ↦
        absurd (none_some (sym named ∙ subst (λ k. lookup k l.known_enabled ≡ some v) same found))
  ]
    where
      none_some : none ≡ some v → ⊥
      none_some e = cc e

  pub resolve-All :
      (key m : String) (ts : List Tuple)
      → resolve svc l db company_id key ts ≡ go_on m
      → All (λ t. Resolved svc l db company_id t m) ts × ((key == "") ≡ false → key ≡ m)
  unfolding resolve
  resolve-All key m [] h = (tt, λ e. go_on-inj h)
  resolve-All key m (t ∷ ts) h =
      let (k, h1, h2) = step-go_on (resolve_tuple svc l db company_id t) _ h in
      let (same, h3) = require-go_on (key == "" || k == key) _ _ h2 in
      let (rest, k_is_m) = resolve-All k m ts h3 in
      let found = resolve_tuple-Resolved svc l db company_id t k h1 in
      let km = k_is_m (Resolved-named t k found) in
      ((subst (Resolved svc l db company_id t) km found, rest), λ e. one_module same e ∙ km)
    where
      one_module : {k : String} → (key == "" || k == key) ≡ true → (key == "") ≡ false → key ≡ k
      one_module {k} same e = ground (arith, eq_iff k key)
