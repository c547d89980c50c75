-- ===== src/Http/Access.antt =====
-- The objects that `summaryObjectAccess` of internal/authz/summary.go lists.
use mathlib.Core.List.Memᴰ
use mathlib.Core.List.{append_assoc, append-nil}
use kiban.Shared.{
  String, Bool, true, false, none, some, List, [], ◌∷◌, ◌++◌, map, Memᴰ, subst, ◌==◌, if◌then◌else◌,
  lookup, ◌≡◌, refl, sym, ◌∙◌, ap, All, Bool-cases, beq-cases, inl, inr, beq_self, mem-keep,
  map-Mem,
}
use kiban.Store.Tables.{Tuple, Db}
use kiban.Http.Summary.{
  ObjectKey, key_eq, ObjectRelation, Grouped, relations_in, is_seen, group_one, group_all,
  group_rows, is_direct, row_of, insert_row, order_rows, list_direct_tuples_for_subject,
  summary_object_access,
}

-- The relations of one object among the rows, in their order.
abbrev pub relations_of : ObjectKey → List ObjectRelation → List String
relations_of k [] = []
relations_of k ((j, rel) ∷ rows) = if j == k then rel ∷ relations_of k rows else relations_of k rows

lookup-hit :
    (k j : ObjectKey) (v : List String) (m : List (ObjectKey × List String))
    → (j == k) ≡ true
    → lookup k ((j, v) ∷ m) ≡ some v
unfolding lookup
lookup-hit k j v m b = ap (λ t. if t then some v else lookup k m) b

lookup-miss :
    (k j : ObjectKey) (v : List String) (m : List (ObjectKey × List String))
    → (j == k) ≡ false
    → lookup k ((j, v) ∷ m) ≡ lookup k m
unfolding lookup
lookup-miss k j v m b = ap (λ t. if t then some v else lookup k m) b

group_one-relations :
    (k j : ObjectKey) (rel : String) (g : Grouped)
    → relations_in k (group_one (j, rel) g).by_object
      ≡ (if j == k then relations_in k g.by_object ++ rel ∷ [] else relations_in k g.by_object)
unfolding group_one
group_one-relations k j rel g = elim (beq-cases j k) [
  | inl (e, b) ↦
      ap (λ o. elim o [ none ↦ [] | some rels ↦ rels ])
        (lookup-hit k j (relations_in j g.by_object ++ rel ∷ []) g.by_object b)
      ∙ ap (λ i. relations_in i g.by_object ++ rel ∷ []) e
      ∙ sym (
          ap (λ t. if t then relations_in k g.by_object ++ rel ∷ [] else relations_in k g.by_object)
            b)
  | inr b ↦
      ap (λ o. elim o [ none ↦ [] | some rels ↦ rels ])
        (lookup-miss k j (relations_in j g.by_object ++ rel ∷ []) g.by_object b)
      ∙ sym (
          ap (λ t. if t then relations_in k g.by_object ++ rel ∷ [] else relations_in k g.by_object)
            b)
]

-- Behind the loop an object has the relations that it had, and those of the rows.
group_all-relations :
    (k : ObjectKey) (rows : List ObjectRelation) (g : Grouped)
    → relations_in k (group_all rows g).by_object
      ≡ relations_in k g.by_object ++ relations_of k rows
unfolding group_all
group_all-relations k [] g = sym (append-nil (relations_in k g.by_object))
group_all-relations k ((j, rel) ∷ rows) g =
    group_all-relations k rows (group_one (j, rel) g)
    ∙ ap (λ rs. rs ++ relations_of k rows) (group_one-relations k j rel g)
    ∙ regroup (j == k)
  where
    regroup :
        (b : Bool)
        → (if b then relations_in k g.by_object ++ rel ∷ [] else relations_in k g.by_object)
            ++ relations_of k rows
          ≡ relations_in k g.by_object
            ++ (if b then rel ∷ relations_of k rows else relations_of k rows)
    regroup true = append_assoc (relations_in k g.by_object) (rel ∷ []) (relations_of k rows)
    regroup false = refl

listed-All :
    (rows : List ObjectRelation) (ks : List ObjectKey)
    → All
        (λ (k, rels). rels ≡ relations_of k rows)
        (map
          (λ k.
            (k, relations_in k (group_all rows (record { order = []; by_object = [] })).by_object))
          ks)
unfolding lookup
listed-All rows [] = tt
listed-All rows (k ∷ ks) =
    (group_all-relations k rows (record { order = []; by_object = [] }), listed-All rows ks)

-- Each object that the summary lists has exactly the relations of the rows of the query that name
-- the object, in their order.
pub summary_object_access-All :
    (before : ObjectRelation → ObjectRelation → Bool) (db : Db) (subject : String)
    → All
        (λ (k, rels).
          rels ≡ relations_of k (list_direct_tuples_for_subject before db "user" subject))
        (summary_object_access before db subject)
unfolding group_rows
summary_object_access-All before db subject =
    (let rows = list_direct_tuples_for_subject before db "user" subject in
      listed-All rows (group_all rows (record { order = []; by_object = [] })).order)

-- Every object with an entry is in the order.
abbrev IsOrdered : Grouped → Type 0
IsOrdered g = (k : ObjectKey) → is_seen k g.by_object ≡ true → Memᴰ k g.order

order-kept :
    (k : ObjectKey) (r : ObjectRelation) (g : Grouped)
    → Memᴰ k g.order
    → Memᴰ k (group_one r g).order
unfolding group_one
order-kept k (j, rel) g h = elim (Bool-cases (is_seen j g.by_object)) [
  | inl e ↦ rw e h
  | inr e ↦ rw e (Memᴰ.append_left (j ∷ []) h)
]

order-added :
    (k : ObjectKey) (rel : String) (g : Grouped) → IsOrdered g → Memᴰ k (group_one (k, rel) g).order
unfolding group_one
order-added k rel g h = elim (Bool-cases (is_seen k g.by_object)) [
  | inl e ↦ rw e (h k e)
  | inr e ↦ rw e (Memᴰ.append_right g.order (Memᴰ.head refl))
]

still_seen :
    (k j : ObjectKey) (rel : String) (g : Grouped)
    → (j == k) ≡ false
    → is_seen k (group_one (j, rel) g).by_object ≡ true
    → is_seen k g.by_object ≡ true
unfolding group_one
still_seen k j rel g b s =
    sym (
      ap (λ o. elim o [ none ↦ false | some rels ↦ true ])
        (lookup-miss k j (relations_in j g.by_object ++ rel ∷ []) g.by_object b))
    ∙ s

group_one-IsOrdered : (r : ObjectRelation) (g : Grouped) → IsOrdered g → IsOrdered (group_one r g)
group_one-IsOrdered (j, rel) g h k seen = elim (beq-cases j k) [
  | inl (e, b) ↦ subst (λ i. Memᴰ i (group_one (j, rel) g).order) e (order-added j rel g h)
  | inr b ↦ order-kept k (j, rel) g (h k (still_seen k j rel g b seen))
]

group_all-kept :
    (k : ObjectKey) (rows : List ObjectRelation) (g : Grouped)
    → Memᴰ k g.order
    → Memᴰ k (group_all rows g).order
unfolding group_all
group_all-kept k [] g h = h
group_all-kept k (r ∷ rows) g h = group_all-kept k rows (group_one r g) (order-kept k r g h)

group_all-order :
    (k : ObjectKey) (rel : String) (rows : List ObjectRelation) (g : Grouped)
    → IsOrdered g
    → Memᴰ {A = ObjectRelation} (k, rel) rows
    → Memᴰ k (group_all rows g).order
unfolding group_all
group_all-order k rel [] g h m = elim m [ ]
group_all-order k rel (r ∷ rows) g h (Memᴰ.head e) =
    subst (λ x. Memᴰ k (group_all rows (group_one x g)).order) e
      (group_all-kept k rows (group_one (k, rel) g) (order-added k rel g h))
group_all-order k rel (r ∷ rows) g h (Memᴰ.tail m) =
    group_all-order k rel rows (group_one r g) (group_one-IsOrdered r g h) m

group_rows-Mem :
    (rows : List ObjectRelation) (k : ObjectKey) (rel : String)
    → Memᴰ {A = ObjectRelation} (k, rel) rows
    → Memᴰ {A = ObjectKey × List String} (k, relations_of k rows) (group_rows rows)
unfolding group_rows lookup
group_rows-Mem rows k rel m =
    subst (λ rels. Memᴰ {A = ObjectKey × List String} (k, rels) (group_rows rows))
      (group_all-relations k rows (record { order = []; by_object = [] }))
      (map-Mem
        (λ j.
          (j, relations_in j (group_all rows (record { order = []; by_object = [] })).by_object))
        k _ (group_all-order k rel rows (record { order = []; by_object = [] }) (λ i s. cc s) m))

relations_of-Mem :
    (rows : List ObjectRelation) (k : ObjectKey) (rel : String)
    → Memᴰ {A = ObjectRelation} (k, rel) rows
    → Memᴰ rel (relations_of k rows)
relations_of-Mem [] k rel m = elim m [ ]
relations_of-Mem ((j, other) ∷ rows) k rel (Memᴰ.head e) =
    rw (sym (ap (λ r. r.0) e), beq_self k) (Memᴰ.head (ap (λ r. r.1) e))
relations_of-Mem ((j, other) ∷ rows) k rel (Memᴰ.tail m) = elim (Bool-cases (j == k)) [
  | inl e ↦ rw e (Memᴰ.tail (relations_of-Mem rows k rel m))
  | inr e ↦ rw e (relations_of-Mem rows k rel m)
]

module _ (before : ObjectRelation → ObjectRelation → Bool) where
  insert_row-Mem :
      (x r : ObjectRelation) (rows : List ObjectRelation)
      → Memᴰ x (r ∷ rows)
      → Memᴰ x (insert_row before r rows)
  unfolding insert_row
  insert_row-Mem x r [] h = h
  insert_row-Mem x r (s ∷ rows) h = by_order (before s r) (insert_row-Mem x r rows) h
    where
      by_order :
          (b : Bool)
          → (Memᴰ x (r ∷ rows) → Memᴰ x (insert_row before r rows))
          → Memᴰ x (r ∷ s ∷ rows)
          → Memᴰ x (if b then s ∷ insert_row before r rows else r ∷ s ∷ rows)
      by_order true ih (Memᴰ.head e) = Memᴰ.tail (ih (Memᴰ.head e))
      by_order true ih (Memᴰ.tail (Memᴰ.head e)) = Memᴰ.head e
      by_order true ih (Memᴰ.tail (Memᴰ.tail t)) = Memᴰ.tail (ih (Memᴰ.tail t))
      by_order false ih t = t

  order_rows-Mem :
      (t : Tuple) (ts : List Tuple) → Memᴰ t ts → Memᴰ (row_of t) (order_rows before ts)
  unfolding order_rows
  order_rows-Mem t [] m = elim m [ ]
  order_rows-Mem t (u ∷ ts) (Memᴰ.head e) =
      insert_row-Mem (row_of t) (row_of u) _ (Memᴰ.head (ap row_of e))
  order_rows-Mem t (u ∷ ts) (Memᴰ.tail m) =
      insert_row-Mem (row_of t) (row_of u) _ (Memᴰ.tail (order_rows-Mem t ts m))

-- The object of every direct tuple of the user is listed in the summary, with the relation of the
-- tuple, whatever the order of the query.
pub summary_object_access-Mem :
    (before : ObjectRelation → ObjectRelation → Bool) (db : Db) (subject : String) (t : Tuple)
    → Memᴰ t db.tuples
    → is_direct "user" subject t ≡ true
    → (rels : List String) × Memᴰ t.relation rels
      × Memᴰ {A = ObjectKey × List String}
          ((t.object_type, t.object_id), rels)
          (summary_object_access before db subject)
summary_object_access-Mem before db subject t m direct =
    (let rows = list_direct_tuples_for_subject before db "user" subject in
      let k : ObjectKey = (t.object_type, t.object_id) in
      let listed =
        order_rows-Mem before t _ (mem-keep (is_direct "user" subject) db.tuples m direct) in
      (
        relations_of k rows,
        relations_of-Mem rows k t.relation listed,
        group_rows-Mem rows k t.relation listed,
      ))
