-- ===== src/Shared/Sorting.antt =====
-- `sort.Strings`, as an insertion sort that keeps the members.
use Prim.Native.String.{String, compare}
use Prim.Native.Nat.{Ordering}
use mathlib.Core.List.{List, [], ◌∷◌, Memᴰ}

abbrev pub insert_sorted : String → List String → List String
insert_sorted x [] = x ∷ []
insert_sorted x (y ∷ ys) =
    let rest = insert_sorted x ys in elim (compare x y) [ Ordering.gt ↦ y ∷ rest | _ ↦ x ∷ y ∷ ys ]

unfoldable pub sort : List String → List String
sort [] = []
sort (x ∷ xs) = insert_sorted x (sort xs)

insert-Mem : (x y : String) (ys : List String) → Memᴰ x (y ∷ ys) → Memᴰ x (insert_sorted y ys)
insert-Mem x y [] h = h
insert-Mem x y (z ∷ ys) h = by_order (compare y z) (insert-Mem x y ys) h
  where
    by_order :
        (o : Ordering)
        → (Memᴰ x (y ∷ ys) → Memᴰ x (insert_sorted y ys))
        → Memᴰ x (y ∷ z ∷ ys)
        → Memᴰ x (elim o [ Ordering.gt ↦ z ∷ insert_sorted y ys | _ ↦ y ∷ z ∷ ys ])
    by_order Ordering.gt ih (Memᴰ.head e) = Memᴰ.tail (ih (Memᴰ.head e))
    by_order Ordering.gt ih (Memᴰ.tail (Memᴰ.head e)) = Memᴰ.head e
    by_order Ordering.gt ih (Memᴰ.tail (Memᴰ.tail t)) = Memᴰ.tail (ih (Memᴰ.tail t))
    by_order Ordering.lt ih t = t
    by_order Ordering.eq ih t = t

pub sort-Mem : (x : String) (xs : List String) → Memᴰ x xs → Memᴰ x (sort xs)
unfolding sort
sort-Mem x [] h = h
sort-Mem x (y ∷ ys) (Memᴰ.head e) = insert-Mem x y (sort ys) (Memᴰ.head e)
sort-Mem x (y ∷ ys) (Memᴰ.tail h) = insert-Mem x y (sort ys) (Memᴰ.tail (sort-Mem x ys h))

mem_of_insert : (x y : String) (ys : List String) → Memᴰ x (insert_sorted y ys) → Memᴰ x (y ∷ ys)
mem_of_insert x y [] h = h
mem_of_insert x y (z ∷ ys) h = by_order (compare y z) (mem_of_insert x y ys) h
  where
    swap : Memᴰ x (z ∷ y ∷ ys) → Memᴰ x (y ∷ z ∷ ys)
    swap (Memᴰ.head e) = Memᴰ.tail (Memᴰ.head e)
    swap (Memᴰ.tail (Memᴰ.head e)) = Memᴰ.head e
    swap (Memᴰ.tail (Memᴰ.tail t)) = Memᴰ.tail (Memᴰ.tail t)

    by_order :
        (o : Ordering)
        → (Memᴰ x (insert_sorted y ys) → Memᴰ x (y ∷ ys))
        → Memᴰ x (elim o [ Ordering.gt ↦ z ∷ insert_sorted y ys | _ ↦ y ∷ z ∷ ys ])
        → Memᴰ x (y ∷ z ∷ ys)
    by_order Ordering.gt ih (Memᴰ.head e) = Memᴰ.tail (Memᴰ.head e)
    by_order Ordering.gt ih (Memᴰ.tail t) = swap (Memᴰ.tail (ih t))
    by_order Ordering.lt ih t = t
    by_order Ordering.eq ih t = t

pub mem_of_sort : (x : String) (xs : List String) → Memᴰ x (sort xs) → Memᴰ x xs
unfolding sort
mem_of_sort x [] h = h
mem_of_sort x (y ∷ ys) h = elim (mem_of_insert x y (sort ys) h) [
  | Memᴰ.head e ↦ Memᴰ.head e
  | Memᴰ.tail t ↦ Memᴰ.tail (mem_of_sort x ys t)
]
