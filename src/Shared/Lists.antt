-- ===== src/Shared/Lists.antt =====
-- Lists measured by native numbers, membership as a test, and predicates on lists.
use Prim.Native.Nat.{ℕ, suc}
use mathlib.Core.Path.{◌≡◌, refl, ap}
use mathlib.Core.Bool.{Bool, true, false, ◌||◌, ◌&&◌, not}
use mathlib.Core.List.{List, [], ◌∷◌, ◌++◌, map, Memᴰ}
use mathlib.Core.List.Memᴰ
use native.Mathlib.Omega.{arith}
use kiban.Shared.Tests.{Eq, ◌==◌, if◌then◌else◌, Bool-cases, beq_self}
use mathlib.Core.Logic.{inl, inr}

module _ {ℓ} {A : Type ℓ} where
  abbrev pub length : List A → ℕ
  length [] = 0
  length (x ∷ xs) = suc (length xs)

  abbrev pub All {κ} : (A → Type κ) → List A → Type κ
  All P [] = Unit
  All P (x ∷ xs) = P x × All P xs

  abbrev pub all : (A → Bool) → List A → Bool
  all p [] = true
  all p (x ∷ xs) = p x && all p xs

  abbrev pub any : (A → Bool) → List A → Bool
  any p [] = false
  any p (x ∷ xs) = p x || any p xs

  abbrev pub keep : (A → Bool) → List A → List A
  keep p [] = []
  keep p (x ∷ xs) = if p x then x ∷ keep p xs else keep p xs

-- The results of a loop that appends, in the order of its rounds.
abbrev pub flat_map {ℓ κ} : {A : Type ℓ} {B : Type κ} → (A → List B) → List A → List B
flat_map f [] = []
flat_map f (x ∷ xs) = f x ++ flat_map f xs

module _ {ℓ κ} {A : Type ℓ} (P : A → Type κ) where
  pub All-Mem : {a : A} {xs : List A} → All P xs → Memᴰ a xs → P a
  All-Mem {a} h (Memᴰ.head e) = rw e h.0
  All-Mem h (Memᴰ.tail m) = All-Mem h.1 m

-- The fuel that a length gives: a mapped list is as long.
pub length-map {ℓ κ} :
    {A : Type ℓ} {B : Type κ} (f : A → B) (xs : List A) → length (map f xs) ≡ length xs
length-map f [] = refl
length-map f (x ∷ xs) = ap suc (length-map f xs)

module _ {ℓ} {A : Type ℓ} (p : A → Bool) where
  pub mem-keep : {a : A} (xs : List A) → Memᴰ a xs → p a ≡ true → Memᴰ a (keep p xs)
  mem-keep [] m h = elim m [ ]
  mem-keep (x ∷ xs) (Memᴰ.head e) h = rw (← e, h) (Memᴰ.head refl)
  mem-keep (x ∷ xs) (Memᴰ.tail m) h = elim (Bool-cases (p x)) [
    | inl t ↦ rw t (Memᴰ.tail (mem-keep xs m h))
    | inr f ↦ rw f (mem-keep xs m h)
  ]

  mem_of_keep-cons :
      {a : A} (x : A) (xs : List A) (b : Bool)
      → p x ≡ b
      → (Memᴰ a (keep p xs) → Memᴰ a xs × (p a ≡ true))
      → Memᴰ a (if b then x ∷ keep p xs else keep p xs)
      → Memᴰ a (x ∷ xs) × (p a ≡ true)
  mem_of_keep-cons x xs true t ih (Memᴰ.head e) = (Memᴰ.head e, rw e t)
  mem_of_keep-cons x xs true t ih (Memᴰ.tail n) = (Memᴰ.tail (ih n).0, (ih n).1)
  mem_of_keep-cons x xs false t ih n = (Memᴰ.tail (ih n).0, (ih n).1)

  pub mem_of_keep : {a : A} (xs : List A) → Memᴰ a (keep p xs) → Memᴰ a xs × (p a ≡ true)
  mem_of_keep [] m = elim m [ ]
  mem_of_keep (x ∷ xs) m = mem_of_keep-cons x xs (p x) refl (mem_of_keep xs) m

-- A set as a list without order: membership and removal by Go's `==`.
module _ {ℓ} {A : Type ℓ} ⦃e : Eq A⦄ where
  unfoldable pub contains : A → List A → Bool
  contains a [] = false
  contains a (x ∷ xs) = x == a || contains a xs

  -- `delete(set, a)`
  unfoldable pub remove : A → List A → List A
  remove a [] = []
  remove a (x ∷ xs) = if x == a then remove a xs else x ∷ remove a xs

  pub remove_absent : (a : A) (xs : List A) → contains a xs ≡ false → remove a xs ≡ xs
  unfolding contains remove
  remove_absent a [] h = refl
  remove_absent a (x ∷ xs) h = ground (arith, remove_absent a xs)

  pub remove-cons : (a : A) (xs : List A) → contains a xs ≡ false → remove a (a ∷ xs) ≡ xs
  unfolding remove
  remove-cons a xs h = rw (beq_self a) (remove_absent a xs h)

  pub contains-cons_self : (a : A) (xs : List A) → contains a (a ∷ xs) ≡ true
  unfolding contains
  contains-cons_self a xs = rw (beq_self a)

  pub contains-remove :
      (a b : A) (xs : List A) → contains a (remove b xs) ≡ (not (b == a) && contains a xs)
  unfolding contains remove
  contains-remove a b [] = ground arith
  contains-remove a b (x ∷ xs) =
      ground (arith, contains-remove a b xs, e.same_iff x b, e.same_iff x a, e.same_iff b a)

  pub contains-keep :
      (p : A → Bool) (a : A) (xs : List A) → contains a (keep p xs) ≡ (p a && contains a xs)
  unfolding contains
  contains-keep p a [] = ground arith
  contains-keep p a (x ∷ xs) = ground (arith, contains-keep p a xs, e.same_iff x a)

pub flat_map-Mem {ℓ κ} :
    {A : Type ℓ} {B : Type κ} (f : A → List B) (a : A) (b : B) (xs : List A)
    → Memᴰ a xs
    → Memᴰ b (f a)
    → Memᴰ b (flat_map f xs)
flat_map-Mem f a b [] m h = elim m [ ]
flat_map-Mem f a b (x ∷ xs) (Memᴰ.head e) h = Memᴰ.append_left (flat_map f xs) (rw (← e) h)
flat_map-Mem f a b (x ∷ xs) (Memᴰ.tail m) h = Memᴰ.append_right (f x) (flat_map-Mem f a b xs m h)

pub map-Mem {ℓ κ} :
    {A : Type ℓ} {B : Type κ} (f : A → B) (a : A) (xs : List A) → Memᴰ a xs → Memᴰ (f a) (map f xs)
map-Mem f a (x ∷ xs) (Memᴰ.head e) = Memᴰ.head (ap f e)
map-Mem f a (x ∷ xs) (Memᴰ.tail m) = Memᴰ.tail (map-Mem f a xs m)
map-Mem f a [] m = elim m [ ]

pub mem_of_map {ℓ κ} :
    {A : Type ℓ} {B : Type κ} (f : A → B) (b : B) (xs : List A)
    → Memᴰ b (map f xs)
    → (a : A) × Memᴰ a xs × (b ≡ f a)
mem_of_map f b [] m = elim m [ ]
mem_of_map f b (x ∷ xs) (Memᴰ.head e) = (x, Memᴰ.head refl, e)
mem_of_map f b (x ∷ xs) (Memᴰ.tail m) = (let (a, n, e) = mem_of_map f b xs m in (a, Memᴰ.tail n, e))

pub mem_of_flat_map {ℓ κ} :
    {A : Type ℓ} {B : Type κ} (f : A → List B) (b : B) (xs : List A)
    → Memᴰ b (flat_map f xs)
    → (a : A) × Memᴰ a xs × Memᴰ b (f a)
mem_of_flat_map f b [] m = elim m [ ]
mem_of_flat_map f b (x ∷ xs) m = elim (Memᴰ.append_cases (f x) m) [
  | inl here ↦ (x, Memᴰ.head refl, here)
  | inr later ↦ (let (a, n, h) = mem_of_flat_map f b xs later in (a, Memᴰ.tail n, h))
]

module _ {ℓ} {A : Type ℓ} where
  pub append-nil_left : (xs ys : List A) → xs ++ ys ≡ [] → xs ≡ []
  append-nil_left [] ys h = refl
  append-nil_left (x ∷ xs) ys h = cc h

  pub append-nil_right : (xs ys : List A) → xs ++ ys ≡ [] → ys ≡ []
  append-nil_right [] ys h = h
  append-nil_right (x ∷ xs) ys h = cc h
