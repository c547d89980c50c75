-- ===== src/Fragment/Merging.antt =====
-- What `Merge` of internal/authz/engine/model.go and the loop over a fragment's types in
-- internal/authz/fragment/fragment.go do to single types.
use kiban.Shared.{
  String, false, Option, none, some, List, [], ◌∷◌, Memᴰ, lookup, string_eq, ◌≡◌, refl, sym, ◌∙◌,
  ap, ◌⊎◌, inl, inr, beq-cases, Option-cases, Bool-cases, beq_self, subst,
}
use kiban.Engine.Model.{Model, Relations, ModelError, merge_into}
use kiban.Fragment.Load.{Owners, loaded, is_in, claim}

module _ {V : Type 0} where
  pub lookup-cons_self :
      (k : String) (v : V) (m : List (String × V)) → lookup k ((k, v) ∷ m) ≡ some v
  unfolding lookup
  lookup-cons_self k v m = rw (beq_self k) refl

  -- An entry for a key that is missing hides no other entry.
  pub lookup-cons_fresh :
      {v : V} (j k : String) (w : V) (m : List (String × V))
      → lookup j m ≡ none
      → lookup k m ≡ some v
      → lookup k ((j, w) ∷ m) ≡ some v
  unfolding lookup
  lookup-cons_fresh j k w m fresh h = elim (beq-cases j k) [
    | inl (e, t) ↦ absurd (none_some (sym fresh ∙ ap (λ i. lookup i m) e ∙ h))
    | inr f ↦ rw f h
  ]
    where
      none_some : {v : V} → none ≡ some v → ⊥
      none_some e = cc e

  pub lookup-cons_cases :
      {v : V} (j k : String) (w : V) (m : List (String × V))
      → lookup k ((j, w) ∷ m) ≡ some v
      → ((j ≡ k) × (w ≡ v)) ⊎ (lookup k m ≡ some v)
  unfolding lookup
  lookup-cons_cases j k w m h = elim (beq-cases j k) [
    | inl (e, t) ↦ inl (e, cc (rw t at h))
    | inr f ↦ inr (rw f at h)
  ]

pub merge-step :
    {m : Model} {x : Option ModelError} (out : Model) (k : String) (v : Relations) (other : Model)
    → merge_into out ((k, v) ∷ other) ≡ (some m, x)
    → (lookup k out ≡ none) × (merge_into ((k, v) ∷ out) other ≡ (some m, x))
unfolding merge_into
merge-step out k v other h = elim (Option-cases (lookup k out)) [
  | inl e ↦ (e, (rw (e, merge_into) at h))
  | inr (old, e) ↦ cc (rw (e, merge_into) at h)
]

pub merge-end :
    {m : Model} {x : Option ModelError} (out : Model) → merge_into out [] ≡ (some m, x) → out ≡ m
unfolding merge_into
merge-end out h = cc h

-- A merged model has the types of the first model,
pub merge-kept :
    {m : Model} {x : Option ModelError} {v : Relations} (typ : String) (out other : Model)
    → lookup typ out ≡ some v
    → merge_into out other ≡ (some m, x)
    → lookup typ m ≡ some v
merge-kept {v} typ out [] h e = subst (λ o. lookup typ o ≡ some v) (merge-end out e) h
merge-kept typ out ((k, w) ∷ other) h e =
    let (fresh, e2) = merge-step out k w other e in
    merge-kept typ ((k, w) ∷ out) other (lookup-cons_fresh k typ w out fresh h) e2

-- and those of the second,
pub merge-added :
    {m : Model} {x : Option ModelError} {v : Relations} (typ : String) (out other : Model)
    → lookup typ other ≡ some v
    → merge_into out other ≡ (some m, x)
    → lookup typ m ≡ some v
unfolding lookup
merge-added typ out [] h e = cc
merge-added {v} typ out ((k, w) ∷ other) h e =
    let (fresh, e2) = merge-step out k w other e in
    elim (lookup-cons_cases k typ w other h) [
      | inl (same, eq) ↦
          merge-kept typ ((k, w) ∷ out) other
            (subst (λ t. lookup t ((k, w) ∷ out) ≡ some v) same
              (lookup-cons_self k w out ∙ ap some eq))
            e2
      | inr found ↦ merge-added typ ((k, w) ∷ out) other found e2
    ]

-- and no others.
pub merge-from :
    {m : Model} {x : Option ModelError} {v : Relations} (typ : String) (out other : Model)
    → merge_into out other ≡ (some m, x)
    → lookup typ m ≡ some v
    → (lookup typ out ≡ some v) ⊎ Memᴰ (typ, v) other
merge-from {v} typ out [] e h = inl (subst (λ o. lookup typ o ≡ some v) (sym (merge-end out e)) h)
merge-from {v} typ out ((k, w) ∷ other) e h =
    let (fresh, e2) = merge-step out k w other e in
    elim (merge-from typ ((k, w) ∷ out) other e2 h) [
      | inr found ↦ inr (Memᴰ.tail found)
      | inl found ↦ elim (lookup-cons_cases k typ w out found) [
        | inl (same, eq) ↦ inr (Memᴰ.head (sym (ap (λ s. (s, w)) same ∙ ap (λ u. (typ, u)) eq)))
        | inr old ↦ inl old
      ]
    ]

module _ (base : Model) (key : String) where
  claim-step :
      {owner2 : Owners} (typ : String) (rels : Relations) (m : Model) (owner : Owners)
      → claim base key ((typ, rels) ∷ m) owner ≡ loaded owner2
      → (is_in typ base ≡ false)
        × (lookup typ owner ≡ none)
        × (claim base key m ((typ, key) ∷ owner) ≡ loaded owner2)
  unfolding claim
  claim-step typ rels m owner h = elim (Bool-cases (is_in typ base)) [
    | inl b ↦ cc (rw b at h)
    | inr b ↦ elim (Option-cases (lookup typ owner)) [
      | inr (other, e) ↦ cc (rw (b, e) at h)
      | inl e ↦ (b, e, (rw (b, e) at h))
    ]
  ]

  claim-end :
      {owner2 : Owners} (owner : Owners) → claim base key [] owner ≡ loaded owner2 → owner ≡ owner2
  unfolding claim
  claim-end owner h = cc h

  -- Owners stay,
  pub claim-kept :
      {owner2 : Owners} {k : String} (typ : String) (m : Model) (owner : Owners)
      → lookup typ owner ≡ some k
      → claim base key m owner ≡ loaded owner2
      → lookup typ owner2 ≡ some k
  claim-kept {k} typ [] owner h e = subst (λ o. lookup typ o ≡ some k) (claim-end owner e) h
  claim-kept typ ((t, rels) ∷ m) owner h e =
      let (_, fresh, e2) = claim-step t rels m owner e in
      claim-kept typ m ((t, key) ∷ owner) (lookup-cons_fresh t typ key owner fresh h) e2

  -- each of the fragment's types is owned by its module, and is no base type,
  pub claim-owned :
      {owner2 : Owners} {rels : Relations} (typ : String) (m : Model) (owner : Owners)
      → Memᴰ (typ, rels) m
      → claim base key m owner ≡ loaded owner2
      → (lookup typ owner2 ≡ some key) × (is_in typ base ≡ false)
  claim-owned typ [] owner h e = elim h [ ]
  claim-owned {owner2} typ ((t, rels) ∷ m) owner (Memᴰ.head p) e =
      let (b, fresh, e2) = claim-step t rels m owner e in
      subst (λ s. (lookup s owner2 ≡ some key) × (is_in s base ≡ false)) (sym (ap (λ q. q.0) p))
        (claim-kept t m ((t, key) ∷ owner) (lookup-cons_self t key owner) e2, b)
  claim-owned typ ((t, rels) ∷ m) owner (Memᴰ.tail h) e =
      claim-owned typ m ((t, key) ∷ owner) h (claim-step t rels m owner e).2

  -- and no other type gets an owner.
  pub claim-from :
      {owner2 : Owners} {k : String} (typ : String) (m : Model) (owner : Owners)
      → claim base key m owner ≡ loaded owner2
      → lookup typ owner2 ≡ some k
      → (lookup typ owner ≡ some k) ⊎ ((k ≡ key) × (is_in typ base ≡ false))
  claim-from {k} typ [] owner e h =
      inl (subst (λ o. lookup typ o ≡ some k) (sym (claim-end owner e)) h)
  claim-from typ ((t, rels) ∷ m) owner e h =
      let (b, fresh, e2) = claim-step t rels m owner e in
      elim (claim-from typ m ((t, key) ∷ owner) e2 h) [
        | inr found ↦ inr found
        | inl found ↦ elim (lookup-cons_cases t typ key owner found) [
          | inl (same, eq) ↦ inr (sym eq, subst (λ s. is_in s base ≡ false) same b)
          | inr old ↦ inl old
        ]
      ]
