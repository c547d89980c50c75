-- ===== src/Timesheet/Decisions.antt =====
-- modules/timesheet/service/store_submissions.go: decideSubmission.
use Prim.Native.String.{◌++◌ as str_append}
use kiban.Shared.{
  String, Bool, not, ◌&&◌, Option, none, some, List, map, if◌then◌else◌, ◌==◌, string_eq, nat_eq,
}
use kiban.Timesheet.Tables.{
  Status, draft, approved, rejected, is_submitted, Entry, Submission, Db, TimesheetError,
  submission_not_found, not_assigned_approver, submission_superseded, submission_not_submitted,
  invalid, Outcome, failed, done, unless, find, at_most_one_update,
}
use kiban.Timesheet.Entries.{is_in_week, record_event}
use kiban.Timesheet.Submissions.{with_status, with_tables}

abbrev pub status_update : Status → String → Option String → Submission → Submission
status_update status actor reason s = record {
  header = s.header;
  is_current = s.is_current;
  status = status;
  decided_by_kc_sub = some actor;
  reject_reason = reason;
}

-- the guards of `decideSubmission`, in their order
unfoldable pub check_decision : String → Bool → String → Submission → Option TimesheetError
check_decision actor approve reason s =
    if not (s.header.assigned_approver_kc_sub == actor)
    then some not_assigned_approver
    else if not s.is_current
    then some submission_superseded
    else if not (is_submitted s.status)
    then some submission_not_submitted
    else if not approve && reason == ""
    then some (invalid "reason")
    else none

abbrev pub is_row : String → String → Submission → Bool
is_row company_id submission_id s =
    s.header.company_id == company_id && s.header.id == submission_id

abbrev pub decided : String → Bool → String → Submission → Submission
decided actor approve reason =
    status_update (if approve then approved else rejected) actor
      (if approve then none else some reason)

module _ {H : Type 0} where
  -- the update of the entries of the week
  unfoldable pub settle_entries : Bool → Submission → List (Entry H) → List (Entry H)
  settle_entries approve s entries =
      map
        (λ (e : Entry H).
          if is_in_week s.header.company_id s.header.member_id s.header.week_start e
            && is_submitted e.status
          then with_status (if approve then approved else draft) e
          else e)
        entries

  -- `decideSubmission`
  unfoldable pub decide_submission :
      String → String → String → Bool → String → Db H → Outcome (Submission × Db H)
  decide_submission actor company_id submission_id approve reason db =
      elim (find (is_row company_id submission_id) db.submissions) [
        | none ↦ failed submission_not_found
        | some s ↦ unless (check_decision actor approve reason s) (
            done (
              decided actor approve reason s,
              record_event actor
                  (if approve
                    then "timesheet.submission.approve"
                    else "timesheet.submission.reject")
                  (str_append "submission:" submission_id)
                  (with_tables (settle_entries approve s db.entries)
                    (at_most_one_update (is_row company_id submission_id)
                      (decided actor approve reason) db.submissions)
                    db.submission_entries db),
            ))
      ]
