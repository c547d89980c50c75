-- ===== src/Timesheet/Settled.antt =====
-- What a decided submission says of its decision, over any calls of modules/timesheet/service.
use kiban.Shared.{
  ℕ, String, Bool, true, false, Option, none, some, List, [], ◌∷◌, ◌≡◌, refl, sym, ap, inl, inr,
  ◌==◌, string_eq, beq-cases, Bool-cases, All, eq_iff,
}
use kiban.Timesheet.Tables.{
  Status, draft, submitted, approved, rejected, Submission, Db, find, at_most_one_update,
}
use kiban.Timesheet.Submissions.{Week, supersede_row, supersede_current}
use kiban.Timesheet.Decisions.{check_decision, decided}
use kiban.Timesheet.Calls.{Call, perform, run}
use kiban.Timesheet.Rows.{Step, same, inserted, decided_one, check_decision-none, perform-Step}

-- the columns of a decision, beside the approver of the header
abbrev IsSettledAs : Status → String → Option String → Option String → Type 0
IsSettledAs draft approver decided_by reason = ⊥
IsSettledAs submitted approver decided_by reason = (decided_by ≡ none) × (reason ≡ none)
IsSettledAs approved approver decided_by reason = (decided_by ≡ some approver) × (reason ≡ none)
IsSettledAs rejected approver decided_by reason =
    (decided_by ≡ some approver) × ((text : String) × (reason ≡ some text) × ((text == "") ≡ false))

-- A submission that waits has no decision, an approved one was decided by its assigned approver, and
-- a rejected one too, with a reason.
abbrev pub IsSettled : Submission → Type 0
IsSettled s =
    IsSettledAs s.status s.header.assigned_approver_kc_sub s.decided_by_kc_sub s.reject_reason

supersede_row-All :
    (id : String) (rows : List Submission)
    → All IsSettled rows
    → All IsSettled (supersede_row id rows)
unfolding supersede_row
supersede_row-All id [] a = a
supersede_row-All id (r ∷ rows) (x, a) = elim (beq-cases r.header.id id) [
  | inl (e, t) ↦ rw t (x, supersede_row-All id rows a)
  | inr f ↦ rw f (x, supersede_row-All id rows a)
]

update-All :
    (p : Submission → Bool) (f : Submission → Submission) (rows : List Submission)
    → ((r : Submission) → find p rows ≡ some r → IsSettled (f r))
    → All IsSettled rows
    → All IsSettled (at_most_one_update p f rows)
update-All p f [] h a = a
update-All p f (r ∷ rows) h (x, a) = elim (Bool-cases (p r)) [
  | inl t ↦ rw (at_most_one_update, t) (h r (rw (find, t) refl), a)
  | inr t ↦ rw (at_most_one_update, t) (x, update-All p f rows (λ q g. h q (rw (find, t) g)) a)
]

decided-IsSettled :
    (actor : String) (approve : Bool) (reason : String) (s : Submission)
    → check_decision actor approve reason s ≡ none
    → IsSettled (decided actor approve reason s)
decided-IsSettled actor true reason s h =
    (let (a, c, d, g) = check_decision-none actor true reason s h in
      (ap some (sym ((eq_iff s.header.assigned_approver_kc_sub actor).0 a)), refl))
decided-IsSettled actor false reason s h =
    (let (a, c, d, g) = check_decision-none actor false reason s h in
      (ap some (sym ((eq_iff s.header.assigned_approver_kc_sub actor).0 a)), (reason, refl, g)))

supersede_current-All :
    (prev : Option Submission) (rows : List Submission)
    → All IsSettled rows
    → All IsSettled (supersede_current prev rows)
supersede_current-All none rows a = a
supersede_current-All (some prev) rows a = supersede_row-All prev.header.id rows a

Step-All : (rows next : List Submission) → Step rows next → All IsSettled rows → All IsSettled next
Step-All rows next same a = a
Step-All rows next (inserted payload_hash actor key new_id new_root w approver prev b) a =
    ((refl, refl), supersede_current-All prev rows a)
Step-All rows next (decided_one p actor approve reason r e c) a =
    update-All p (decided actor approve reason) rows
      (λ q g. decided-IsSettled actor approve reason q (cc (e, c, g))) a

module _ {H : Type 0} (before : H → H → Bool) (hours : ℕ → H) (rounded : H → H)
    (payload_hash : Week → String) where
  -- Over any calls, where each submission of the table is either waiting without a decision,
  -- approved by its assigned approver, or rejected by that approver with a reason that is not
  -- empty, so is each submission afterwards.
  pub run-IsSettled :
      (calls : List (Call H)) (db : Db H)
      → All IsSettled db.submissions
      → All IsSettled (run before hours rounded payload_hash calls db).submissions
  unfolding run
  run-IsSettled [] db a = a
  run-IsSettled (c ∷ calls) db a =
      run-IsSettled calls (perform before hours rounded payload_hash c db)
        (Step-All _ _ (perform-Step before hours rounded payload_hash c db) a)
