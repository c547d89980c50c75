-- ===== src/Tests/TimesheetTests.antt =====
-- modules/timesheet/service at concrete weeks. Hours are whole numbers here.
use kiban.Shared.{ℕ, String, Bool, true, false, none, List, [], ◌∷◌, ◌≡◌, refl, ltb, All, map, Memᴰ}
use kiban.Timesheet.Tables.{
  failed, conflict, invalid, Status, draft, submitted, approved, Project, Entry, Submission,
  SubmissionEntry, Db, done,
}
use kiban.Timesheet.Entries.{
  record_event, upsert_entry, upsert_row, validate_hours, validate_week_window,
}
use kiban.Timesheet.Submissions.{
  Week, submit_week, submit_to, replay, insert_submission, submit_drafts, draft_entries,
  supersede_row, new_submission, with_tables, snapshot,
}
use kiban.Timesheet.Decisions.{decide_submission, check_decision, settle_entries}
use kiban.Timesheet.Calls.{configure, Call, upsert, submit, decide, perform, run}
use kiban.Timesheet.Projects.{
  pos, update_config, create_project, update_project, validate_project, byte_length,
}
use kiban.Timesheet.Lifecycle.{IsKeptIn, run-IsKeptIn}
use kiban.Timesheet.Settled.{IsSettled, run-IsSettled}
use kiban.Timesheet.Replays.{submit_week-run}

abbrev hours : ℕ → ℕ
hours n = n

abbrev rounded : ℕ → ℕ
rounded n = n

abbrev payload_hash : Week → String
payload_hash w = w.member_id

abbrev project : Project
project = record { id = "p1"; company_id = "acme"; code = "ONE"; name = "First"; status = "active" }

abbrev entry_of : String → ℕ → Status → Entry ℕ
entry_of id day status = record {
  id = id;
  company_id = "acme";
  member_id = "ann";
  project_id = "p1";
  entry_date = day;
  real_hours = 8;
  billable_hours = 6;
  status = status;
}

abbrev db : Db ℕ
db = record {
  configs = [];
  projects = project ∷ [];
  entries = entry_of "e1" 70 draft ∷ [];
  submissions = [];
  submission_entries = [];
  approvers =
      record {
        company_id = "acme";
        member_id = "ann";
        member_kc_sub = "kc-ann";
        approver_member_id = "bob";
        approver_kc_sub = "kc-bob";
        assigned_by_kc_sub = "kc-eve";
      }
      ∷ [];
  events = [];
}

abbrev week : Week
week = record { company_id = "acme"; member_id = "ann"; week_start = 70 }

abbrev first : Submission
first = new_submission payload_hash "kc-ann" "key1" "s1" "r1" week ("bob", "kc-bob") none

abbrev submitted_db : Db ℕ
submitted_db = record_event "kc-ann" "timesheet.submission.submit" "submission:s1" (
    with_tables (entry_of "e1" 70 submitted ∷ []) (first ∷ [])
      (snapshot "s1" (entry_of "e1" 70 draft, project) ∷ []) db)

submitted_first :
    submit_week payload_hash "kc-ann" week "key1" "s1" "r1" db ≡ done (first, true, submitted_db)
unfolding submit_week submit_to replay insert_submission submit_drafts draft_entries
submitted_first = refl

-- A second day is entered and submitted, and the new version is approved.
abbrev calls : List (Call ℕ)
calls =
    upsert 72 "e2" "kc-ann" "acme" "ann" "p1" 71 8 8
    ∷ submit "kc-ann" week "key2" "s2" "r2"
    ∷ decide "kc-bob" "acme" "s1" true ""
    ∷ decide "kc-bob" "acme" "s2" true ""
    ∷ []

abbrev final : Db ℕ
final = run ltb hours rounded payload_hash calls submitted_db

-- The decision on the superseded version is refused.
statuses :
    map {B = String × Bool × Status}
      (λ (s : Submission). (s.header.id, s.is_current, s.status))
      final.submissions
    ≡ ("s2", true, approved) ∷ ("s1", false, submitted) ∷ []
unfolding run perform upsert_entry upsert_row validate_hours validate_week_window submit_week
    submit_to replay insert_submission submit_drafts draft_entries supersede_row decide_submission
    check_decision settle_entries
statuses = refl

-- Approving the second version approves the first day too, which is not among its entries.
approved_entries :
    map {B = String × Status} (λ (e : Entry ℕ). (e.id, e.status)) final.entries
    ≡ ("e2", approved) ∷ ("e1", approved) ∷ []
unfolding run perform upsert_entry upsert_row validate_hours validate_week_window submit_week
    submit_to replay insert_submission submit_drafts draft_entries supersede_row decide_submission
    check_decision settle_entries
approved_entries = refl

snapshots :
    map {B = String × ℕ}
      (λ (e : SubmissionEntry ℕ). (e.submission_id, e.entry_date))
      final.submission_entries
    ≡ ("s2", 71) ∷ ("s1", 70) ∷ []
unfolding run perform upsert_entry upsert_row validate_hours validate_week_window submit_week
    submit_to replay insert_submission submit_drafts draft_entries supersede_row decide_submission
    check_decision settle_entries
snapshots = refl

-- A code is in upper case, and a company has it once.
renamed : update_project "kc-eve" "acme" "p1" "two" "Second" "" db ≡ failed (invalid "code")
unfolding update_project validate_project byte_length
renamed = refl

added_twice : create_project "p2" "kc-eve" "acme" "ONE" "Second" "" db ≡ failed conflict
unfolding create_project validate_project byte_length
added_twice = refl

-- With no week in the future, next week cannot be entered.
configured :
    map
      (λ (e : Entry ℕ). e.id)
      (run ltb hours rounded payload_hash
        (configure "kc-eve" "acme" true false (pos 4) (pos 0)
          ∷ upsert 72 "e2" "kc-ann" "acme" "ann" "p1" 77 8 8
          ∷ [])
        db).entries
    ≡ "e1" ∷ []
unfolding run perform update_config upsert_entry upsert_row validate_hours validate_week_window
configured = refl

run-IsKeptIn_example : IsKeptIn final.submissions first
run-IsKeptIn_example =
    run-IsKeptIn ltb hours rounded payload_hash calls submitted_db first (Memᴰ.head refl)

run-IsSettled_example : All IsSettled final.submissions
run-IsSettled_example =
    run-IsSettled ltb hours rounded payload_hash calls submitted_db ((refl, refl), tt)

submit_week-run_example :
    (n : Submission) × (n.header ≡ first.header)
    × (submit_week payload_hash "kc-ann" week "key1" "s3" "r3" final ≡ done (n, false, final))
submit_week-run_example =
    submit_week-run ltb hours rounded payload_hash "kc-ann" "key1" "s1" "r1" week db submitted_db
      first refl submitted_first calls "kc-ann" "s3" "r3"
