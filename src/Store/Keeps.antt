-- ===== src/Store/Keeps.antt =====
-- Predicates on the tables of internal/authz/store/store.go under the loop of `writeTuples`. A failed
-- call changes nothing, so only a successful one has to keep a predicate.
use kiban.Shared.{
  String, true, false, Option, List, [], ◌∷◌, ◌≡◌, refl, Bool-cases, inl, inr, contains,
}
use kiban.Store.Tables.{
  Tuple, tuple_eq, Op, grant_op, revoke_op, Db, Result, ok, err, ◌>>=◌, has_empty_field, is_anchor,
  correlation, grant_one, revoke_one, revoke_object_rest, write_one, write_each, write_tuples,
  Inserted, anchor_conflict, insert_tuple, present, violation, inserted, entry,
}
use kiban.Shared.{remove}

abbrev pub Keeps : (Db → Type 0) → Result Db → Type 0
Keeps P (ok db) = P db
Keeps P (err x) = Unit

module _ (P : Db → Type 0) where
  pub bind-Keeps :
      (m : Result Db) (f : Db → Result Db)
      → Keeps P m
      → ((db : Db) → P db → Keeps P (f db))
      → Keeps P (m >>= f)
  bind-Keeps (ok db) f h k = k db h
  bind-Keeps (err x) f h k = tt

  -- What has to be shown of an inserted row, a deleted row and the rest of a deleted anchor's object.
  pub record KeptByRows : Type 0 where
    pub on_insert :
        (actor : String) (corr : Option String) (t : Tuple) (db : Db)
        → has_empty_field t ≡ false
        → insert_tuple db.tuples t ≡ inserted
        → P db
        → P (record { tuples = t ∷ db.tuples; ledger = entry actor corr grant_op t ∷ db.ledger })
    pub on_delete :
        (actor : String) (corr : Option String) (t : Tuple) (db : Db)
        → contains t db.tuples ≡ true
        → P db
        → P (record {
          tuples = remove t db.tuples;
          ledger = entry actor corr revoke_op t ∷ db.ledger;
        })
    pub on_rest :
        (actor : String) (corr : Option String) (t : Tuple) (db : Db)
        → P db
        → P (revoke_object_rest actor corr t db)

  module _ (k : KeptByRows) (actor : String) (corr : Option String) where
    grant_one-Keeps :
        (t : Tuple) (db : Db)
        → has_empty_field t ≡ false
        → P db
        → Keeps P (grant_one actor corr t db)
    unfolding grant_one
    grant_one-Keeps t db f h = by_row (insert_tuple db.tuples t) refl
      where
        by_row :
            (i : Inserted)
            → insert_tuple db.tuples t ≡ i
            → Keeps P (elim i [
              | present ↦ ok db
              | violation ↦ err (anchor_conflict t)
              | inserted ↦ ok (record {
                tuples = t ∷ db.tuples;
                ledger = entry actor corr grant_op t ∷ db.ledger;
              })
            ])
        by_row present e = h
        by_row violation e = tt
        by_row inserted e = k.on_insert actor corr t db f e h

    revoke_one-Keeps : (t : Tuple) (db : Db) → P db → Keeps P (revoke_one actor corr t db)
    unfolding revoke_one
    revoke_one-Keeps t db h = elim (Bool-cases (contains t db.tuples)) [
      | inl c ↦ elim (Bool-cases (is_anchor t)) [
        | inl a ↦ rw (c, a) (k.on_rest actor corr t _ (k.on_delete actor corr t db c h))
        | inr a ↦ rw (c, a) (k.on_delete actor corr t db c h)
      ]
      | inr c ↦ rw c h
    ]

    write_one-Keeps :
        (op : Op) (t : Tuple) (db : Db) → P db → Keeps P (write_one actor corr op t db)
    unfolding write_one
    write_one-Keeps op t db h = elim (Bool-cases (has_empty_field t)) [
      | inl e ↦ rw e tt
      | inr e ↦ rw e (by_op op e)
    ]
      where
        by_op :
            (o : Op)
            → has_empty_field t ≡ false
            → Keeps P (elim o [
              | grant_op ↦ grant_one actor corr t db
              | revoke_op ↦ revoke_one actor corr t db
            ])
        by_op grant_op e = grant_one-Keeps t db e h
        by_op revoke_op e = revoke_one-Keeps t db h

    write_each-Keeps :
        (op : Op) (ts : List Tuple) (db : Db) → P db → Keeps P (write_each actor corr op ts db)
    unfolding write_each
    write_each-Keeps op [] db h = h
    write_each-Keeps op (t ∷ ts) db h =
        bind-Keeps (write_one actor corr op t db) _ (write_one-Keeps op t db h)
          (write_each-Keeps op ts)

  pub write_tuples-Keeps :
      KeptByRows
      → (actor corr : String) (op : Op) (ts : List Tuple) (db : Db) → P db
      → Keeps P (write_tuples actor corr op ts db)
  unfolding write_tuples
  write_tuples-Keeps k actor corr op [] db h = tt
  write_tuples-Keeps k actor corr op (t ∷ ts) db h =
      write_each-Keeps k actor (correlation corr) op (t ∷ ts) db h
