-- ===== src/Timesheet/Calls.antt =====
-- The calls of modules/timesheet/service that change its tables, one after another. A call that fails
-- rolls its transaction back.
use kiban.Shared.{ℕ, String, Bool, List, [], ◌∷◌}
use kiban.Timesheet.Tables.{ApproverAssignment, Submission, Db, Outcome, failed, done}
use kiban.Timesheet.Entries.{upsert_entry, delete_entry, record_approver_assignment}
use kiban.Timesheet.Projects.{ℤ, update_config, create_project, update_project}
use kiban.Timesheet.Submissions.{Week, submit_week}
use kiban.Timesheet.Decisions.{decide_submission}

pub data Call (H : Type 0) : Type 0 where
  upsert :
      (now : ℕ) (new_id actor company_id member_id project_id : String) (entry_date : ℕ)
      (worked billable : H)
      → Call H
  configure : (actor company_id : String) (within above : Bool) (previous future : ℤ) → Call H
  add_project : (new_id actor company_id code name status : String) → Call H
  edit_project : (actor company_id project_id code name status : String) → Call H
  delete : (actor company_id member_id entry_id : String) → Call H
  assign : ApproverAssignment → Call H
  submit : (actor : String) (w : Week) (key new_id new_root : String) → Call H
  decide : (actor company_id submission_id : String) (approve : Bool) (reason : String) → Call H

module _ {H : Type 0} where
  abbrev pub after_entry : Db H → Outcome (Db H) → Db H
  after_entry db (failed e) = db
  after_entry db (done next) = next

  abbrev pub after_submit : Db H → Outcome (Submission × Bool × Db H) → Db H
  after_submit db (failed e) = db
  after_submit db (done (s, inserted, next)) = next

  abbrev pub after_decide : Db H → Outcome (Submission × Db H) → Db H
  after_decide db (failed e) = db
  after_decide db (done (s, next)) = next

module _ {H : Type 0} (before : H → H → Bool) (hours : ℕ → H) (rounded : H → H)
    (payload_hash : Week → String) where
  unfoldable pub perform : Call H → Db H → Db H
  perform (upsert now new_id actor company_id member_id project_id entry_date worked billable) db =
      after_entry db (
        upsert_entry before hours rounded now new_id actor company_id member_id project_id
          entry_date worked billable db)
  perform (configure actor company_id within above previous future) db =
      after_entry db (update_config actor company_id within above previous future db)
  perform (add_project new_id actor company_id code name status) db =
      after_entry db (create_project new_id actor company_id code name status db)
  perform (edit_project actor company_id project_id code name status) db =
      after_entry db (update_project actor company_id project_id code name status db)
  perform (delete actor company_id member_id entry_id) db =
      after_entry db (delete_entry actor company_id member_id entry_id db)
  perform (assign a) db = record_approver_assignment a db
  perform (submit actor w key new_id new_root) db =
      after_submit db (submit_week payload_hash actor w key new_id new_root db)
  perform (decide actor company_id submission_id approve reason) db =
      after_decide db (decide_submission actor company_id submission_id approve reason db)

  unfoldable pub run : List (Call H) → Db H → Db H
  run [] db = db
  run (c ∷ calls) db = run calls (perform c db)
