-- ===== src/Http/Features.antt =====
-- The features that `summaryFeatureKeys` of internal/authz/summary.go lists.
use mathlib.Core.List.Memᴰ
use kiban.Shared.{
  String, Bool, true, false, Option, none, some, List, [], ◌∷◌, ◌++◌, Memᴰ, ◌==◌, string_eq, ◌≡◌,
  refl, sym, ap, ◌⊎◌, inl, inr, All, Bool-cases, sort, sort-Mem,
}
use kiban.Fragment.Load.{Known}
use kiban.Decision.Types.{Reason, allowed_reason, Deps}
use kiban.Decision.Evaluate.{evaluate, is_allowed}
use kiban.Http.Summary.{
  superadmin_feature, superadmin_request, access_feature, access_request, enabled_keys,
  module_features, platform_features, summary_feature_keys,
}

allowed-reason : (r : Reason) → is_allowed r ≡ true → r ≡ allowed_reason
allowed-reason allowed_reason h = refl
allowed-reason _ h = cc h

-- `Evaluate` allows the feature: the platform's administration, or access to a module in the company.
abbrev pub IsAllowedFeature : Deps → String → String → String → Type 0
IsAllowedFeature d subject company_id key =
    (key ≡ superadmin_feature) × ((evaluate d (superadmin_request subject)).reason ≡ allowed_reason)
    ⊎ ((m : String) × (key ≡ access_feature m)
        × ((evaluate d (access_request subject company_id m)).reason ≡ allowed_reason))

module _ (d : Deps) (subject company_id : String) where
  platform-IsAllowed : All (IsAllowedFeature d subject company_id) (platform_features d subject)
  platform-IsAllowed =
      elim (Bool-cases (is_allowed (evaluate d (superadmin_request subject)).reason)) [
        | inl e ↦ rw e (inl (refl, allowed-reason _ e), tt)
        | inr e ↦ rw e tt
      ]

  modules-IsAllowed :
      (keys : List String)
      → All (IsAllowedFeature d subject company_id) (module_features d subject company_id keys)
  unfolding module_features
  modules-IsAllowed [] = tt
  modules-IsAllowed (key ∷ keys) =
      elim (Bool-cases (is_allowed (evaluate d (access_request subject company_id key)).reason)) [
        | inl e ↦ rw e (inr (key, refl, allowed-reason _ e), modules-IsAllowed keys)
        | inr e ↦ rw e (modules-IsAllowed keys)
      ]

  both-All : (P : String → Type 0) (xs ys : List String) → All P xs → All P ys → All P (xs ++ ys)
  both-All P [] ys h k = k
  both-All P (x ∷ xs) ys h k = (h.0, both-All P xs ys h.1 k)

  -- Every feature that the summary lists is one for which the decision of that moment is an
  -- allow: the platform's administration for a holder of the platform role, or access to a module
  -- in the company.
  pub summary_feature_keys-IsAllowed :
      (known : Option Known)
      → All
          (IsAllowedFeature d subject company_id)
          (summary_feature_keys d known subject company_id)
  unfolding summary_feature_keys
  summary_feature_keys-IsAllowed known = elim (Bool-cases (company_id == "")) [
    | inl e ↦ rw e platform-IsAllowed
    | inr e ↦ rw e (by_known known)
  ]
    where
      by_known :
          (known : Option Known)
          → All (IsAllowedFeature d subject company_id) (elim known [
            | none ↦ platform_features d subject
            | some k ↦
                platform_features d subject
                ++ module_features d subject company_id (sort (enabled_keys k))
          ])
      by_known none = platform-IsAllowed
      by_known (some k) =
          both-All _ (platform_features d subject) _ platform-IsAllowed (modules-IsAllowed _)

  module_listed :
      (m : String) (keys : List String)
      → is_allowed (evaluate d (access_request subject company_id m)).reason ≡ true
      → Memᴰ m keys
      → Memᴰ (access_feature m) (module_features d subject company_id keys)
  unfolding module_features
  module_listed m [] h mem = elim mem [ ]
  module_listed m (key ∷ keys) h (Memᴰ.head e) = rw (← e, h) (Memᴰ.head refl)
  module_listed m (key ∷ keys) h (Memᴰ.tail mem) =
      elim (Bool-cases (is_allowed (evaluate d (access_request subject company_id key)).reason)) [
        | inl e ↦ rw e (Memᴰ.tail (module_listed m keys h mem))
        | inr e ↦ rw e (module_listed m keys h mem)
      ]

enabled-Mem :
    (m : String) (known : Known)
    → Memᴰ {A = String × Bool} (m, true) known
    → Memᴰ m (enabled_keys known)
unfolding enabled_keys
enabled-Mem m [] h = elim h [ ]
enabled-Mem m ((key, on) ∷ known) (Memᴰ.head e) =
    rw (sym (ap (λ p. p.1) e)) (Memᴰ.head (ap (λ p. p.0) e))
enabled-Mem m ((key, on) ∷ known) (Memᴰ.tail h) = elim (Bool-cases on) [
  | inl e ↦ rw e (Memᴰ.tail (enabled-Mem m known h))
  | inr e ↦ rw e (enabled-Mem m known h)
]

-- Where a company is named and the registry answers, the summary lists access to every enabled
-- module that the decision allows in the company.
pub summary_feature_keys-Mem :
    (d : Deps) (known : Known) (subject company_id m : String)
    → (company_id == "") ≡ false
    → Memᴰ {A = String × Bool} (m, true) known
    → (evaluate d (access_request subject company_id m)).reason ≡ allowed_reason
    → Memᴰ (access_feature m) (summary_feature_keys d (some known) subject company_id)
unfolding summary_feature_keys
summary_feature_keys-Mem d known subject company_id m named mem passes = rw named (
    Memᴰ.append_right (platform_features d subject) (
      module_listed d subject company_id m (sort (enabled_keys known)) (ap is_allowed passes)
        (sort-Mem m (enabled_keys known) (enabled-Mem m known mem))))
