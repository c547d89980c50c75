-- ===== src/Shared/Maps.antt =====
-- A Go map as an association list whose newest entry for a key counts.
use mathlib.Core.Path.{◌≡◌, refl}
use mathlib.Core.Option.{Option, none, some}
use mathlib.Core.List.{List, [], ◌∷◌, Memᴰ}
use mathlib.Core.Logic.{inl, inr}
use native.Mathlib.Omega.{arith}
use kiban.Shared.Tests.{Eq, ◌==◌, if◌then◌else◌, beq-cases}

module _ {ℓ κ} {K : Type ℓ} {V : Type κ} ⦃e : Eq K⦄ where
  -- `m[k]`, with `none` where the key is missing
  unfoldable pub lookup : K → List (K × V) → Option V
  lookup k [] = none
  lookup k ((j, v) ∷ m) = if j == k then some v else lookup k m

  pub mem-lookup : (k : K) {v : V} (m : List (K × V)) → lookup k m ≡ some v → Memᴰ (k, v) m
  unfolding lookup
  mem-lookup k [] h = cc
  mem-lookup k {v} ((j, w) ∷ m) h = elim (beq-cases j k) [
    | inl (same, t) ↦ Memᴰ.head (cc (rw t at h))
    | inr f ↦ Memᴰ.tail (mem-lookup k m (rw f at h))
  ]

  -- `m[k] = v`, in the place of an older entry
  unfoldable pub put : K → V → List (K × V) → List (K × V)
  put k v [] = (k, v) ∷ []
  put k v ((j, w) ∷ m) = let rest = put k v m in if j == k then (k, v) ∷ m else (j, w) ∷ rest

  pub lookup-put :
      (k j : K) (v : V) (m : List (K × V))
      → lookup j (put k v m) ≡ (if k == j then some v else lookup j m)
  unfolding lookup put
  lookup-put k j v [] = refl
  lookup-put k j v ((i, w) ∷ m) =
      ground (arith, e.same_iff k j, e.same_iff i k, e.same_iff i j, lookup-put k j v m)
