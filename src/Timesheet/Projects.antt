-- ===== src/Timesheet/Projects.antt =====
-- modules/timesheet/service/store.go: the configuration of a company, and its projects.
use Prim.Native.Char.{code}
use Prim.Native.String.{◌++◌ as str_append}
use kiban.Shared.{
  ℕ, String, Bool, true, false, not, ◌&&◌, ◌||◌, ◌+◌, Option, none, some, List, [], ◌∷◌,
  if◌then◌else◌, ◌==◌, string_eq, nat_eq, any, all, length, ltb, leb,
}
use kiban.Timesheet.Tables.{
  fits, Project, Config, Db, TimesheetError, conflict, project_not_found, query_failed, invalid,
  Outcome, failed, done, unless, find, at_most_one_update,
}
use kiban.Timesheet.Entries.{record_event}

-- Go's `int`, of which only the sign and the size are read.
pub data ℤ : Type 0 where
  pos negsuc : ℕ → ℤ

abbrev code_points : String → List ℕ
code_points String.[] = []
code_points (String.◌∷◌ c s) = code c ∷ code_points s

-- the bytes of a code point in UTF-8
abbrev utf8_length : ℕ → ℕ
utf8_length c = if ltb c 128 then 1 else if ltb c 2048 then 2 else if ltb c 65536 then 3 else 4

unfoldable pub byte_length : List ℕ → ℕ
byte_length [] = 0
byte_length (c ∷ s) = utf8_length c + byte_length s

abbrev is_code_char : ℕ → Bool
is_code_char c = leb b'A' c && leb c b'Z' || leb b'0' c && leb c b'9' || c == b'_' || c == b'-'

-- `projectCodePattern`
abbrev is_project_code : List ℕ → Bool
is_project_code s = all is_code_char s && leb 1 (length s) && leb (length s) 20

-- `validateProject`
unfoldable pub validate_project : String → String → String → Option TimesheetError
validate_project project_code name status =
    if not (is_project_code (code_points project_code))
    then some (invalid "code")
    else if ltb (byte_length (code_points name)) 1 || ltb 100 (byte_length (code_points name))
    then some (invalid "name")
    else if not (status == "") && not (status == "active") && not (status == "inactive")
    then some (invalid "status")
    else none

abbrev status_or_active : String → String
status_or_active status = if status == "" then "active" else status

-- `INSERT ... ON CONFLICT (company_id) DO UPDATE`
abbrev pub put_config : Config → List Config → List Config
put_config c rows = elim (any (λ (row : Config). row.company_id == c.company_id) rows) [
  | false ↦ c ∷ rows
  | true ↦ at_most_one_update (λ (row : Config). row.company_id == c.company_id) (λ row. c) rows
]

abbrev pub is_project : String → String → Project → Bool
is_project company_id project_id p = p.company_id == company_id && p.id == project_id

module _ {H : Type 0} where
  abbrev pub with_configs : List Config → List Project → Db H → Db H
  with_configs configs projects db = record {
    configs = configs;
    projects = projects;
    entries = db.entries;
    submissions = db.submissions;
    submission_entries = db.submission_entries;
    approvers = db.approvers;
    events = db.events;
  }

  -- `UpdateConfig`
  unfoldable pub update_config : String → String → Bool → Bool → ℤ → ℤ → Db H → Outcome (Db H)
  update_config actor company_id within above (negsuc n) future db =
      failed (invalid "allowedPreviousWeeks")
  update_config actor company_id within above (pos previous) (negsuc n) db =
      failed (invalid "allowedFutureWeeks")
  update_config actor company_id within above (pos previous) (pos future) db =
      if not (fits previous && fits future)
      then failed query_failed
      else done (
          record_event actor "timesheet.config.update"
            (str_append (str_append "company_module:" company_id) "/timesheet")
            (with_configs
              (put_config
                (record {
                  company_id = company_id;
                  enforce_billable_within_actual = within;
                  allow_billable_above_eight_hours = above;
                  allowed_previous_weeks = previous;
                  allowed_future_weeks = future;
                })
                db.configs)
              db.projects db))

  -- `CreateProject`; the new row gets the id `new_id`
  unfoldable pub create_project :
      String → String → String → String → String → String → Db H → Outcome (Db H)
  create_project new_id actor company_id project_code name status db =
      unless (validate_project project_code name (status_or_active status)) (
        if any
          (λ (p : Project). p.id == new_id || p.company_id == company_id && p.code == project_code)
          db.projects
        then failed conflict
        else done (
            record_event actor "timesheet.project.create" (str_append "project:" new_id) (
              with_configs db.configs
                (record {
                  id = new_id;
                  company_id = company_id;
                  code = project_code;
                  name = name;
                  status = status_or_active status;
                }
                  ∷ db.projects)
                db)))

  -- `UpdateProject`
  unfoldable pub update_project :
      String → String → String → String → String → String → Db H → Outcome (Db H)
  update_project actor company_id project_id project_code name status db =
      unless (validate_project project_code name (status_or_active status))
        (elim (find (is_project company_id project_id) db.projects) [
          | none ↦ failed project_not_found
          | some row ↦
              if any
                (λ (p : Project).
                  not (p.id == project_id) && p.company_id == company_id && p.code == project_code)
                db.projects
              then failed conflict
              else done (
                  record_event actor "timesheet.project.update" (str_append "project:" project_id) (
                    with_configs db.configs
                      (at_most_one_update (is_project company_id project_id)
                        (λ (p : Project). record {
                          id = p.id;
                          company_id = p.company_id;
                          code = project_code;
                          name = name;
                          status = status_or_active status;
                        })
                        db.projects)
                      db))
        ])
