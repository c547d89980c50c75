-- ===== src/Timesheet/Submissions.antt =====
-- modules/timesheet/service/store_submissions.go: SubmitWeek.
use Prim.Native.String.{◌++◌ as str_append}
use kiban.Shared.{
  not, ℕ, String, Bool, true, false, ◌&&◌, ◌||◌, ◌+◌, Option, none, some, List, [], ◌∷◌, map,
  flat_map, if◌then◌else◌, ◌==◌, string_eq, nat_eq, keep, any,
}
use kiban.Timesheet.Tables.{
  fits, query_failed, Status, submitted, is_draft, Project, Entry, Header, Submission,
  SubmissionEntry, Db, conflict, no_draft_entries, no_approver_assigned, idempotency_conflict,
  Outcome, failed, done, find,
}
use kiban.Timesheet.Entries.{is_in_week, assigned_approver, record_event}

-- what a submission of a week is asked with
pub record Week : Type 0 where
  pub company_id : String
  pub member_id : String
  pub week_start : ℕ

abbrev pub option_is : Option String → String → Bool
option_is none b = false
option_is (some a) b = a == b

-- a query of the row of a key, `findSubmissionByIdempotencyKey`
abbrev pub is_keyed : Week → String → Header → Bool
is_keyed w key h =
    h.company_id == w.company_id && h.member_id == w.member_id && option_is h.idempotency_key key

abbrev pub has_key : Week → String → Submission → Bool
has_key w key s = is_keyed w key s.header

-- the row that `submission_current_unique` allows once
abbrev pub is_current_of : Week → Submission → Bool
is_current_of w s =
    s.header.company_id == w.company_id
    && s.header.member_id == w.member_id
    && s.header.week_start == w.week_start
    && s.is_current

abbrev pub supersede : Submission → Submission
supersede s = record {
  header = s.header;
  is_current = false;
  status = s.status;
  decided_by_kc_sub = s.decided_by_kc_sub;
  reject_reason = s.reject_reason;
}

-- `UPDATE timesheet.submission SET is_current = false WHERE id = $1`
unfoldable pub supersede_row : String → List Submission → List Submission
supersede_row id [] = []
supersede_row id (s ∷ rows) =
    let rest = supersede_row id rows in if s.header.id == id then supersede s ∷ rest else s ∷ rest

-- the superseding of the current version, if there is one
abbrev pub supersede_current : Option Submission → List Submission → List Submission
supersede_current none rows = rows
supersede_current (some prev) rows = supersede_row prev.header.id rows

-- whether a new current row breaks one of the keys of the table
abbrev pub breaks_key : Week → Header → List Submission → Bool
breaks_key w h rows =
    any (λ (s : Submission). s.header.id == h.id) rows
    || any (is_current_of w) rows
    || elim h.idempotency_key [ none ↦ false | some key ↦ any (has_key w key) rows ]

abbrev version_after : Option Submission → ℕ
version_after none = 1
version_after (some prev) = prev.header.version_number + 1

abbrev root_after : Option Submission → String → String
root_after none new_root = new_root
root_after (some prev) new_root = prev.header.root_id

abbrev supersedes : Option Submission → Option String
supersedes none = none
supersedes (some prev) = some prev.header.id

abbrev if_given : String → String → Option String
if_given key v = if key == "" then none else some v

abbrev pub new_submission :
    (Week → String)
    → String
    → String
    → String
    → String
    → Week
    → String × String
    → Option Submission
    → Submission
new_submission payload_hash actor key new_id new_root w approver prev = record {
  header = record {
    id = new_id;
    company_id = w.company_id;
    member_id = w.member_id;
    week_start = w.week_start;
    version_number = version_after prev;
    root_id = root_after prev new_root;
    supersedes_id = supersedes prev;
    assigned_approver_member_id = approver.0;
    assigned_approver_kc_sub = approver.1;
    submitted_by_kc_sub = actor;
    idempotency_key = if_given key key;
    idempotency_key_hash = if_given key (payload_hash w);
  };
  is_current = true;
  status = submitted;
  decided_by_kc_sub = none;
  reject_reason = none;
}

module _ {H : Type 0} where
  abbrev pub with_status : Status → Entry H → Entry H
  with_status status e = record {
    id = e.id;
    company_id = e.company_id;
    member_id = e.member_id;
    project_id = e.project_id;
    entry_date = e.entry_date;
    real_hours = e.real_hours;
    billable_hours = e.billable_hours;
    status = status;
  }

  -- the query of the draft entries, each with its project
  unfoldable pub draft_entries : Week → Db H → List (Entry H × Project)
  draft_entries w db =
      flat_map
        (λ (e : Entry H).
          map (λ (p : Project). (e, p)) (keep (λ (p : Project). p.id == e.project_id) db.projects))
        (keep
          (λ (e : Entry H). is_in_week w.company_id w.member_id w.week_start e && is_draft e.status)
          db.entries)

  abbrev pub snapshot : String → Entry H × Project → SubmissionEntry H
  snapshot submission_id (e, p) = record {
    submission_id = submission_id;
    project_id = e.project_id;
    project_code = p.code;
    project_name = p.name;
    entry_date = e.entry_date;
    real_hours = e.real_hours;
    billable_hours = e.billable_hours;
  }

  -- the loop over the drafts: a snapshot row, and the entry's new status
  unfoldable pub submit_drafts :
      String
      → List (Entry H × Project)
      → List (SubmissionEntry H) × List (Entry H)
      → List (SubmissionEntry H) × List (Entry H)
  submit_drafts submission_id [] tables = tables
  submit_drafts submission_id (d ∷ drafts) (snapshots, entries) =
      submit_drafts submission_id drafts (
        snapshot submission_id d ∷ snapshots,
        map (λ (e : Entry H). if e.id == d.0.id then with_status submitted e else e) entries,
      )

  abbrev pub with_tables : List (Entry H) → List Submission → List (SubmissionEntry H) → Db H → Db H
  with_tables entries submissions snapshots db = record {
    configs = db.configs;
    projects = db.projects;
    entries = entries;
    submissions = submissions;
    submission_entries = snapshots;
    approvers = db.approvers;
    events = db.events;
  }

  -- from the INSERT on, over the table with the previous version superseded
  unfoldable pub insert_submission :
      String
      → Week
      → Submission
      → List Submission
      → List (Entry H × Project)
      → Db H
      → Outcome (Submission × Bool × Db H)
  insert_submission actor w sub rows drafts db =
      let (snapshots, entries) =
        submit_drafts sub.header.id drafts (db.submission_entries, db.entries) in
      if not (fits sub.header.version_number)
      then failed query_failed
      else if breaks_key w sub.header rows
      then failed conflict
      else done (
        sub,
        true,
        record_event actor "timesheet.submission.submit" (str_append "submission:" sub.header.id)
            (with_tables entries (sub ∷ rows) snapshots db),
      )

  -- the digest of a company, a member and a week
  module _ (payload_hash : Week → String) where
    -- the answer from an earlier call with the key
    unfoldable pub replay : String → Week → Db H → Option (Outcome (Submission × Bool × Db H))
    replay key w db = if key == "" then none else elim (find (has_key w key) db.submissions) [
      | none ↦ none
      | some s ↦ some (
          if option_is s.header.idempotency_key_hash (payload_hash w)
          then done (s, false, db)
          else failed idempotency_conflict)
    ]

    -- the transaction
    unfoldable pub submit_to :
        String
        → String
        → String
        → String
        → Week
        → String × String
        → Db H
        → Outcome (Submission × Bool × Db H)
    submit_to actor key new_id new_root w approver db =
        let prev = find (is_current_of w) db.submissions in
        elim (draft_entries w db) [
          | [] ↦ failed no_draft_entries
          | d ∷ drafts ↦
              insert_submission actor w
                (new_submission payload_hash actor key new_id new_root w approver prev)
                (supersede_current prev db.submissions) (d ∷ drafts) db
        ]

    -- `SubmitWeek`; a new row gets the id `new_id`, and a new chain the root `new_root`
    unfoldable pub submit_week :
        String → Week → String → String → String → Db H → Outcome (Submission × Bool × Db H)
    submit_week actor w key new_id new_root db = elim (replay key w db) [
      | some answer ↦ answer
      | none ↦ elim (assigned_approver db w.company_id w.member_id) [
        | none ↦ failed no_approver_assigned
        | some approver ↦ submit_to actor key new_id new_root w approver db
      ]
    ]
