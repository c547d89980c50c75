-- ===== src/Store/Anchor.antt =====
-- The anchors of objects under the writes of internal/authz/store/store.go.
use kiban.Shared.{
  String, Bool, true, false, not, ◌&&◌, Option, List, [], ◌∷◌, ◌≡◌, sym, ◌∙◌, ap, ◌==◌, contains,
  remove, keep, any, contains-remove, contains-keep, arith, Bool-cases, beq-cases, inl, inr,
  string_eq, eq_iff, ◌⊎◌, subst, beq_self,
}
use kiban.Store.Keeps.{Keeps, KeptByRows, write_tuples-Keeps}
use kiban.Store.Tables.{
  Tuple, tuple_eq, Op, grant_op, Entry, Db, is_anchor, same_object, clashes, inserted, insert_tuple,
  entry, revoke_object_rest, revoke_one, write_tuples,
}

-- Two anchors of one object are one tuple.
abbrev pub OneAnchor : Db → Type 0
OneAnchor db =
    (t u : Tuple)
    → contains t db.tuples ≡ true
    → contains u db.tuples ≡ true
    → is_anchor t ≡ true
    → is_anchor u ≡ true
    → same_object t u ≡ true
    → t ≡ u

any_of_contains :
    (p : Tuple → Bool) (u : Tuple) (ts : List Tuple)
    → contains u ts ≡ true
    → p u ≡ true
    → any p ts ≡ true
unfolding contains
any_of_contains p u [] h k = cc
any_of_contains p u (t ∷ ts) h k = elim (beq-cases t u) [
  | inl (e, b) ↦ rw (subst (λ x. p x ≡ true) (sym e) k)
  | inr b ↦ elim (Bool-cases (p t)) [
    | inl c ↦ rw c
    | inr c ↦ rw c (any_of_contains p u ts (rw b at h) k)
  ]
]

same_object_sym : (t u : Tuple) → same_object t u ≡ true → same_object u t ≡ true
same_object_sym t u h = ground (
  arith,
  eq_iff t.object_type u.object_type,
  eq_iff u.object_type t.object_type,
  eq_iff t.object_id u.object_id,
  eq_iff u.object_id t.object_id,
)

same_object_self : (t : Tuple) → same_object t t ≡ true
same_object_self t = rw (beq_self t.object_type) (beq_self t.object_id)

-- An inserted anchor meets no other one.
no_clash :
    (ts : List Tuple) (t u : Tuple)
    → insert_tuple ts t ≡ inserted
    → contains u ts ≡ true
    → is_anchor t ≡ true
    → is_anchor u ≡ true
    → same_object u t ≡ true
    → ⊥
unfolding insert_tuple
no_clash ts t u i c a b s = ground (arith, any_of_contains (clashes t) u ts c (rw b s))

contains_of_cons :
    (t x : Tuple) (ts : List Tuple) → contains x (t ∷ ts) ≡ true → (t ≡ x) ⊎ (contains x ts ≡ true)
unfolding contains
contains_of_cons t x ts h = elim (beq-cases t x) [ inl (e, _) ↦ inl e | inr b ↦ inr (rw b at h) ]

kept_of_remove :
    (t x : Tuple) (ts : List Tuple) → contains x (remove t ts) ≡ true → contains x ts ≡ true
kept_of_remove t x ts h = right_of (not (t == x)) (contains x ts) (sym (contains-remove x t ts) ∙ h)
  where
    right_of : (a b : Bool) → (a && b) ≡ true → b ≡ true
    right_of true b e = e
    right_of false b e = cc

kept_of_keep :
    (p : Tuple → Bool) (x : Tuple) (ts : List Tuple)
    → contains x (keep p ts) ≡ true
    → contains x ts ≡ true
kept_of_keep p x ts h = right_of (p x) (contains x ts) (sym (contains-keep p x ts) ∙ h)
  where
    right_of : (a b : Bool) → (a && b) ≡ true → b ≡ true
    right_of true b e = e
    right_of false b e = cc

insert-OneAnchor :
    (t : Tuple) (db : Db) (ledger : List Entry)
    → insert_tuple db.tuples t ≡ inserted
    → OneAnchor db
    → OneAnchor (record { tuples = t ∷ db.tuples; ledger = ledger })
insert-OneAnchor t db ledger i one x y cx cy ax ay s = elim (contains_of_cons t x db.tuples cx) [
  | inl ex ↦ elim (contains_of_cons t y db.tuples cy) [
    | inl ey ↦ sym ex ∙ ey
    | inr my ↦
        absurd
          (no_clash db.tuples t y i my (rw (← ex) at ax) ay (same_object_sym t y (rw (← ex) at s)))
  ]
  | inr mx ↦ elim (contains_of_cons t y db.tuples cy) [
    | inl ey ↦ absurd (no_clash db.tuples t x i mx (rw (← ey) at ay) ax (rw (← ey) at s))
    | inr my ↦ one x y mx my ax ay s
  ]
]

OneAnchor-KeptByRows : KeptByRows OneAnchor
unfolding revoke_object_rest
OneAnchor-KeptByRows = record {
  on_insert = λ actor corr t db _ i one.
      insert-OneAnchor t db (entry actor corr grant_op t ∷ db.ledger) i one;
  on_delete = λ actor corr t db _ one x y cx cy.
      one x y (kept_of_remove t x db.tuples cx) (kept_of_remove t y db.tuples cy);
  on_rest = λ actor corr t db one x y cx cy.
      one x y (kept_of_keep _ x db.tuples cx) (kept_of_keep _ y db.tuples cy);
}

-- A successful grant or revoke keeps at most one anchor for each object.
pub write_tuples-OneAnchor :
    (actor corr : String) (op : Op) (ts : List Tuple) (db : Db)
    → OneAnchor db
    → Keeps OneAnchor (write_tuples actor corr op ts db)
write_tuples-OneAnchor = write_tuples-Keeps OneAnchor OneAnchor-KeptByRows

-- Revoking a stored anchor leaves no tuple of its object, and every tuple of other objects.
pub revoke_one-anchor :
    (actor : String) (corr : Option String) (t : Tuple) (db : Db)
    → contains t db.tuples ≡ true
    → is_anchor t ≡ true
    → (a : Tuple)
    → Keeps
        (λ db2. contains a db2.tuples ≡ (not (same_object a t) && contains a db.tuples))
        (revoke_one actor corr t db)
unfolding revoke_one revoke_object_rest
revoke_one-anchor actor corr t db c k a =
    rw (c, k)
      (contains-keep (λ u. not (same_object u t)) a (remove t db.tuples)
        ∙ ap (λ b. not (same_object a t) && b) (contains-remove a t db.tuples)
        ∙ other)
  where
    other :
        (not (same_object a t) && (not (t == a) && contains a db.tuples))
        ≡ (not (same_object a t) && contains a db.tuples)
    other = elim (beq-cases t a) [
      | inl (e, b) ↦ rw (b, subst (λ x. same_object a x ≡ true) (sym e) (same_object_self a))
      | inr b ↦ rw b
    ]
