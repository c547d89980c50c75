-- ===== src/Store/Ledger.antt =====
-- The tuple table of internal/authz/store/store.go against a replay of its ledger.
use kiban.Shared.{
  String, Bool, true, false, not, ◌&&◌, ◌||◌, Option, List, [], ◌∷◌, ◌≡◌, refl, sym, ◌∙◌, ap, ◌==◌,
  contains, remove, keep, contains-remove, contains-keep, string_eq,
}
use kiban.Store.Keeps.{Keeps, KeptByRows, write_tuples-Keeps}
use kiban.Store.Tables.{
  Tuple, tuple_eq, Op, grant_op, revoke_op, Entry, Db, same_object, entry, log_revoked,
  revoke_object_rest, write_tuples,
}

-- The tuples that a ledger leaves, read from its oldest row on.
unfoldable pub replay : List Entry → List Tuple
replay [] = []
replay (e ∷ es) = elim e.op [
  | grant_op ↦ e.tuple ∷ replay es
  | revoke_op ↦ remove e.tuple (replay es)
]

-- The table holds a tuple exactly when the replayed ledger does.
abbrev pub IsReplayed : Db → Type 0
IsReplayed db = (t : Tuple) → contains t db.tuples ≡ contains t (replay db.ledger)

regroup : (x g c : Bool) → (not g && (not x && c)) ≡ (not (x || g) && c)
regroup true true c = refl
regroup true false c = refl
regroup false g c = refl

log_revoked-contains :
    (actor : String) (corr : Option String) (gone : List Tuple) (ledger : List Entry) (a : Tuple)
    → contains a (replay (log_revoked actor corr gone ledger))
      ≡ (not (contains a gone) && contains a (replay ledger))
unfolding log_revoked replay contains
log_revoked-contains actor corr [] ledger a = refl
log_revoked-contains actor corr (t ∷ gone) ledger a =
    log_revoked-contains actor corr gone (entry actor corr revoke_op t ∷ ledger) a
    ∙ (rw (contains-remove a t (replay ledger)) (regroup (t == a) (contains a gone) _))

without : (o c : Bool) → (not o && c) ≡ (not (o && c) && c)
without true true = refl
without true false = refl
without false c = refl

revoke_object_rest-IsReplayed :
    (actor : String) (corr : Option String) (t : Tuple) (db : Db)
    → IsReplayed db
    → IsReplayed (revoke_object_rest actor corr t db)
unfolding revoke_object_rest
revoke_object_rest-IsReplayed actor corr t db h a =
    contains-keep (λ u. not (same_object u t)) a db.tuples
    ∙ without (same_object a t) (contains a db.tuples)
    ∙ ap (λ b. not (same_object a t && contains a db.tuples) && b) (h a)
    ∙ ap (λ b. not b && contains a (replay db.ledger))
        (sym (contains-keep (λ u. same_object u t) a db.tuples))
    ∙ sym (log_revoked-contains actor corr (keep (λ u. same_object u t) db.tuples) db.ledger a)

IsReplayed-KeptByRows : KeptByRows IsReplayed
unfolding replay contains
IsReplayed-KeptByRows = record {
  on_insert = λ actor corr t db _ _ h a. ap (λ b. t == a || b) (h a);
  on_delete = λ actor corr t db _ h a.
      contains-remove a t db.tuples
      ∙ ap (λ b. not (t == a) && b) (h a)
      ∙ sym (contains-remove a t (replay db.ledger));
  on_rest = revoke_object_rest-IsReplayed;
}

-- A successful grant or revoke keeps the tuple table equal to what a replay of the ledger gives,
-- the rest of the object that a revoked anchor takes with it included.
pub write_tuples-IsReplayed :
    (actor corr : String) (op : Op) (ts : List Tuple) (db : Db)
    → IsReplayed db
    → Keeps IsReplayed (write_tuples actor corr op ts db)
write_tuples-IsReplayed = write_tuples-Keeps IsReplayed IsReplayed-KeptByRows
