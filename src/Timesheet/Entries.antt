-- ===== src/Timesheet/Entries.antt =====
-- modules/timesheet/service/store_entries.go, with GetConfig and getProject of store.go and
-- RecordApproverAssignment and AssignedApprover of store_approvers.go.
use Prim.Native.String.{◌++◌ as str_append}
use kiban.Shared.{
  ℕ, String, Bool, true, false, not, ◌&&◌, ◌||◌, ◌+◌, ◌-◌, ◌*◌, ◌%◌, Option, none, some, List, ◌∷◌,
  if◌then◌else◌, ◌==◌, string_eq, nat_eq, keep, ltb, leb,
}
use kiban.Timesheet.Tables.{
  draft, is_draft, Project, Entry, ApproverAssignment, Config, Db, TimesheetError,
  project_not_found, entry_not_found, entry_not_draft, invalid, Outcome, failed, done, unless, find,
  at_most_one_update,
}

-- `isoMonday`: day 0 is a Monday
abbrev pub iso_monday : ℕ → ℕ
iso_monday day = day - day % 7

abbrev pub default_config : String → Config
default_config company_id = record {
  company_id = company_id;
  enforce_billable_within_actual = true;
  allow_billable_above_eight_hours = false;
  allowed_previous_weeks = 4;
  allowed_future_weeks = 1;
}

-- `validateWeekWindow`: the bounds are compared without a subtraction
unfoldable pub validate_week_window : Config → ℕ → ℕ → Option TimesheetError
validate_week_window cfg now entry_date =
    if ltb (iso_monday entry_date + 7 * cfg.allowed_previous_weeks) (iso_monday now)
      || ltb (iso_monday now + 7 * cfg.allowed_future_weeks) (iso_monday entry_date)
    then some (invalid "entryDate")
    else none

-- `validateHours`, over the order of the hours and the hours that a whole number stands for
module _ {H : Type 0} (before : H → H → Bool) (hours : ℕ → H) where
  unfoldable pub validate_hours : Config → H → H → Option TimesheetError
  validate_hours cfg worked billable =
      if before worked (hours 0) || before (hours 24) worked
      then some (invalid "realHours")
      else if before billable (hours 0) || before (hours 24) billable
      then some (invalid "billableHours")
      else if cfg.enforce_billable_within_actual && before worked billable
      then some (invalid "billableHours")
      else if not cfg.allow_billable_above_eight_hours && before (hours 8) billable
      then some (invalid "billableHours")
      else none

-- `AssignedApprover`
abbrev pub is_assignment_of : String → String → ApproverAssignment → Bool
is_assignment_of company_id member_id a = a.company_id == company_id && a.member_id == member_id

-- `RecordApproverAssignment`: an older row keeps its `member_kc_sub`
unfoldable pub assign_row : ApproverAssignment → List ApproverAssignment → List ApproverAssignment
assign_row a rows = elim (find (is_assignment_of a.company_id a.member_id) rows) [
  | none ↦ a ∷ rows
  | some old ↦
      at_most_one_update (is_assignment_of a.company_id a.member_id)
        (λ row. record {
          company_id = row.company_id;
          member_id = row.member_id;
          member_kc_sub = row.member_kc_sub;
          approver_member_id = a.approver_member_id;
          approver_kc_sub = a.approver_kc_sub;
          assigned_by_kc_sub = a.assigned_by_kc_sub;
        })
        rows
]

module _ {H : Type 0} where
  abbrev pub get_config : Db H → String → Config
  get_config db company_id = elim (find (λ (c : Config). c.company_id == company_id) db.configs) [
    | none ↦ default_config company_id
    | some c ↦ c
  ]

  abbrev pub get_project : Db H → String → String → Option TimesheetError
  get_project db company_id project_id =
      elim (find (λ (p : Project). p.company_id == company_id && p.id == project_id) db.projects) [
        | none ↦ some project_not_found
        | some p ↦ none
      ]

  abbrev pub record_event : String → String → String → Db H → Db H
  record_event actor action subject db = record {
    configs = db.configs;
    projects = db.projects;
    entries = db.entries;
    submissions = db.submissions;
    submission_entries = db.submission_entries;
    approvers = db.approvers;
    events = record { actor = actor; action = action; subject = subject } ∷ db.events;
  }

  abbrev pub with_entries : List (Entry H) → Db H → Db H
  with_entries entries db = record {
    configs = db.configs;
    projects = db.projects;
    entries = entries;
    submissions = db.submissions;
    submission_entries = db.submission_entries;
    approvers = db.approvers;
    events = db.events;
  }

  -- the unique key of `timesheet.entry`
  abbrev pub is_entry_of : String → String → String → ℕ → Entry H → Bool
  is_entry_of company_id member_id project_id entry_date e =
      e.company_id == company_id
      && e.member_id == member_id
      && e.project_id == project_id
      && e.entry_date == entry_date

  -- `INSERT ... ON CONFLICT DO UPDATE`; a new row gets the id `new_id`
  unfoldable pub upsert_row :
      String → String → String → String → ℕ → H → H → List (Entry H) → List (Entry H) × String
  upsert_row new_id company_id member_id project_id entry_date worked billable entries =
      let entry_with : String → Entry H = λ id. record {
        id = id;
        company_id = company_id;
        member_id = member_id;
        project_id = project_id;
        entry_date = entry_date;
        real_hours = worked;
        billable_hours = billable;
        status = draft;
      } in
      let selects = is_entry_of company_id member_id project_id entry_date in
      elim (find selects entries) [
        | none ↦ (entry_with new_id ∷ entries, new_id)
        | some e ↦ (at_most_one_update selects (λ old. entry_with old.id) entries, e.id)
      ]

  -- the check of the locked row
  abbrev pub check_draft : Option (Entry H) → Option TimesheetError
  check_draft none = none
  check_draft (some e) = if is_draft e.status then none else some entry_not_draft

  -- `DeleteEntry`
  unfoldable pub delete_entry : String → String → String → String → Db H → Outcome (Db H)
  delete_entry actor company_id member_id entry_id db =
      elim (find
        (λ (e : Entry H).
          e.id == entry_id && e.company_id == company_id && e.member_id == member_id)
        db.entries) [
          | none ↦ failed entry_not_found
          | some e ↦
              if not (is_draft e.status)
              then failed entry_not_draft
              else done (
                  record_event actor "timesheet.entry.delete"
                    (str_append "timesheet_entry:" entry_id)
                    (with_entries (keep (λ (f : Entry H). not (f.id == entry_id)) db.entries) db))
        ]

  -- `ListEntriesForWeek` without its order
  abbrev pub is_in_week : String → String → ℕ → Entry H → Bool
  is_in_week company_id member_id week_start e =
      e.company_id == company_id
      && e.member_id == member_id
      && leb week_start e.entry_date
      && ltb e.entry_date (week_start + 7)

  abbrev pub assigned_approver : Db H → String → String → Option (String × String)
  assigned_approver db company_id member_id =
      elim (find (is_assignment_of company_id member_id) db.approvers) [
        | none ↦ none
        | some a ↦ some (a.approver_member_id, a.approver_kc_sub)
      ]

  unfoldable pub record_approver_assignment : ApproverAssignment → Db H → Db H
  record_approver_assignment a db =
      record_event a.assigned_by_kc_sub "timesheet.approver.assign"
        (str_append (str_append "company_module:" a.company_id) "/timesheet")
        (record {
          configs = db.configs;
          projects = db.projects;
          entries = db.entries;
          submissions = db.submissions;
          submission_entries = db.submission_entries;
          approvers = assign_row a db.approvers;
          events = db.events;
        })

module _ {H : Type 0} (before : H → H → Bool) (hours : ℕ → H) (rounded : H → H) where
  -- `UpsertEntry`, at the day `now`; the columns `numeric(6,2)` store the hours rounded
  unfoldable pub upsert_entry :
      ℕ → String → String → String → String → String → ℕ → H → H → Db H → Outcome (Db H)
  upsert_entry now new_id actor company_id member_id project_id entry_date worked billable db =
      let cfg = get_config db company_id in
      let (entries, id) =
        upsert_row new_id company_id member_id project_id entry_date (rounded worked)
          (rounded billable) db.entries in
      unless (validate_hours before hours cfg worked billable) (
        unless (validate_week_window cfg now entry_date) (
          unless (get_project db company_id project_id) (
            unless
              (check_draft
                (find (is_entry_of company_id member_id project_id entry_date) db.entries))
              (done (
                record_event actor "timesheet.entry.upsert" (str_append "timesheet_entry:" id)
                  (with_entries entries db))))))
