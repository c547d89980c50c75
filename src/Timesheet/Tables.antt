-- ===== src/Timesheet/Tables.antt =====
-- The tables of modules/timesheet/migrations/0002_timesheet_tables.sql, and the errors and the
-- configuration of modules/timesheet/service/store.go. A date is its number of days from a Monday,
-- a UUID is its text, and the type of hours, float64, is an argument. Times of writing are left out.
use kiban.Shared.{leb, ℕ, String, Bool, true, false, Option, none, some, List, string_eq, ◌∷◌, []}

pub data Status : Type 0 where
  draft submitted approved rejected : Status

abbrev pub is_draft : Status → Bool
is_draft draft = true
is_draft submitted = false
is_draft approved = false
is_draft rejected = false

abbrev pub is_submitted : Status → Bool
is_submitted draft = false
is_submitted submitted = true
is_submitted approved = false
is_submitted rejected = false

pub record Project : Type 0 where
  pub id : String
  pub company_id : String
  pub code : String
  pub name : String
  pub status : String

pub record Entry (H : Type 0) : Type 0 where
  pub id : String
  pub company_id : String
  pub member_id : String
  pub project_id : String
  pub entry_date : ℕ
  pub real_hours : H
  pub billable_hours : H
  pub status : Status

-- The columns of a submission that no statement updates.
pub record Header : Type 0 where
  pub id : String
  pub company_id : String
  pub member_id : String
  pub week_start : ℕ
  pub version_number : ℕ
  pub root_id : String
  pub supersedes_id : Option String
  pub assigned_approver_member_id : String
  pub assigned_approver_kc_sub : String
  pub submitted_by_kc_sub : String
  pub idempotency_key : Option String
  pub idempotency_key_hash : Option String

pub record Submission : Type 0 where
  pub header : Header
  pub is_current : Bool
  pub status : Status
  pub decided_by_kc_sub : Option String
  pub reject_reason : Option String

pub record SubmissionEntry (H : Type 0) : Type 0 where
  pub submission_id : String
  pub project_id : String
  pub project_code : String
  pub project_name : String
  pub entry_date : ℕ
  pub real_hours : H
  pub billable_hours : H

pub record ApproverAssignment : Type 0 where
  pub company_id : String
  pub member_id : String
  pub member_kc_sub : String
  pub approver_member_id : String
  pub approver_kc_sub : String
  pub assigned_by_kc_sub : String

pub record Config : Type 0 where
  pub company_id : String
  pub enforce_billable_within_actual : Bool
  pub allow_billable_above_eight_hours : Bool
  pub allowed_previous_weeks : ℕ
  pub allowed_future_weeks : ℕ

-- Whether a number is one of the column type `integer`.
abbrev pub fits : ℕ → Bool
fits n = leb n 2147483647

-- A row of audit.timesheet__events.
pub record AuditEvent : Type 0 where
  pub actor : String
  pub action : String
  pub subject : String

-- The tables, with the newest row of each first.
pub record Db (H : Type 0) : Type 0 where
  pub configs : List Config
  pub projects : List Project
  pub entries : List (Entry H)
  pub submissions : List Submission
  pub submission_entries : List (SubmissionEntry H)
  pub approvers : List ApproverAssignment
  pub events : List AuditEvent

pub data TimesheetError : Type 0 where
  conflict project_not_found entry_not_found submission_not_found entry_not_draft : TimesheetError
  no_draft_entries no_approver_assigned not_assigned_approver : TimesheetError
  submission_superseded submission_not_submitted idempotency_conflict : TimesheetError
  -- a statement that the database refuses for its values
  query_failed : TimesheetError
  -- `ValidationError` of a field
  invalid : String → TimesheetError

pub data Outcome {ℓ} (A : Type ℓ) : Type ℓ where
  failed : TimesheetError → Outcome A
  done : A → Outcome A

-- `if err := check; err != nil { return err }`, and what follows it
abbrev pub unless {ℓ} : {A : Type ℓ} → Option TimesheetError → Outcome A → Outcome A
unless (some e) next = failed e
unless none next = next

-- the first row that a WHERE clause selects
abbrev pub find {ℓ} : {A : Type ℓ} → (A → Bool) → List A → Option A
find p [] = none
find p (x ∷ xs) = elim (p x) [ true ↦ some x | false ↦ find p xs ]

abbrev pub at_most_one_update {ℓ} : {A : Type ℓ} → (A → Bool) → (A → A) → List A → List A
at_most_one_update p f [] = []
at_most_one_update p f (x ∷ xs) = elim (p x) [
  | true ↦ f x ∷ xs
  | false ↦ x ∷ at_most_one_update p f xs
]
