-- ===== src/Timesheet/Rows.antt =====
-- What one call does to the table of submissions, as a step relation: nothing, a new row above the
-- superseded rows, or a decision of one row.
use kiban.Shared.{
  ℕ, String, Bool, true, false, not, Option, none, some, List, [], ◌∷◌, ◌≡◌, refl, sym, ap, ◌∙◌,
  subst, inl, inr, ◌==◌, string_eq, Bool-cases, Option-cases, arith, ◌&&◌,
}
use kiban.Timesheet.Tables.{
  fits, ApproverAssignment, Entry, Project, no_draft_entries, Status, draft, submitted, approved,
  rejected, is_submitted, Submission, Db, Outcome, failed, find, at_most_one_update,
}
use kiban.Timesheet.Entries.{
  upsert_entry, delete_entry, record_approver_assignment, assigned_approver,
}
use kiban.Timesheet.Projects.{ℤ, update_config, create_project, update_project}
use kiban.Timesheet.Submissions.{
  Week, supersede_current, submit_week, submit_to, replay, insert_submission, is_current_of,
  draft_entries, breaks_key, new_submission,
}
use kiban.Timesheet.Decisions.{decide_submission, check_decision, decided, is_row}
use kiban.Timesheet.Calls.{
  configure, add_project, edit_project, Call, upsert, delete, assign, submit, decide, after_entry,
  after_submit, after_decide, perform,
}

pub data Step : List Submission → List Submission → Type 0 where
  same : {rows : List Submission} → Step rows rows
  inserted :
      {rows : List Submission} (payload_hash : Week → String) (actor key new_id new_root : String)
      (w : Week) (approver : String × String) (prev : Option Submission)
      → breaks_key w
          (new_submission payload_hash actor key new_id new_root w approver prev).header
          (supersede_current prev rows)
        ≡ false
      → Step rows (
          new_submission payload_hash actor key new_id new_root w approver prev
          ∷ supersede_current prev rows)
  decided_one :
      {rows : List Submission} (p : Submission → Bool) (actor : String) (approve : Bool)
      (reason : String) (s : Submission)
      → find p rows ≡ some s
      → check_decision actor approve reason s ≡ none
      → Step rows (at_most_one_update p (decided actor approve reason) rows)

pub is_submitted-eq : (status : Status) → is_submitted status ≡ true → status ≡ submitted
is_submitted-eq draft h = cc h
is_submitted-eq submitted h = refl
is_submitted-eq approved h = cc h
is_submitted-eq rejected h = cc h

pub check_decision-none :
    (actor : String) (approve : Bool) (reason : String) (s : Submission)
    → check_decision actor approve reason s ≡ none
    → ((s.header.assigned_approver_kc_sub == actor) ≡ true)
      × (s.is_current ≡ true)
      × (is_submitted s.status ≡ true)
      × ((not approve && reason == "") ≡ false)
unfolding check_decision
check_decision-none actor approve reason s h = ground (arith, h)

module _ {H : Type 0} where
  pub delete_entry-submissions :
      (actor company_id member_id entry_id : String) (db : Db H)
      → (after_entry db (delete_entry actor company_id member_id entry_id db)).submissions
        ≡ db.submissions
  unfolding delete_entry
  delete_entry-submissions actor company_id member_id entry_id db = ground arith

  pub update_config-submissions :
      (actor company_id : String) (within above : Bool) (previous future : ℤ) (db : Db H)
      → (after_entry db
          (update_config actor company_id within above previous future db)).submissions
        ≡ db.submissions
  unfolding update_config
  update_config-submissions actor company_id within above previous future db = ground arith

  pub create_project-submissions :
      (new_id actor company_id code name status : String) (db : Db H)
      → (after_entry db (create_project new_id actor company_id code name status db)).submissions
        ≡ db.submissions
  unfolding create_project
  create_project-submissions new_id actor company_id code name status db = ground arith

  pub update_project-submissions :
      (actor company_id project_id code name status : String) (db : Db H)
      → (after_entry db
          (update_project actor company_id project_id code name status db)).submissions
        ≡ db.submissions
  unfolding update_project
  update_project-submissions actor company_id project_id code name status db = ground arith

  pub record_approver_assignment-submissions :
      (a : ApproverAssignment) (db : Db H)
      → (record_approver_assignment a db).submissions ≡ db.submissions
  unfolding record_approver_assignment
  record_approver_assignment-submissions a db = refl

  pub upsert_entry-submissions :
      (before : H → H → Bool) (hours : ℕ → H) (rounded : H → H) (now : ℕ)
      (new_id actor company_id member_id project_id : String) (entry_date : ℕ) (worked billable : H)
      (db : Db H)
      → (after_entry db (
          upsert_entry before hours rounded now new_id actor company_id member_id project_id
            entry_date worked billable db)).submissions
        ≡ db.submissions
  unfolding upsert_entry
  upsert_entry-submissions before hours rounded now new_id actor company_id member_id project_id
        entry_date worked billable db =
      ground arith

module _ {H : Type 0} (before : H → H → Bool) (hours : ℕ → H) (rounded : H → H)
    (payload_hash : Week → String) where
  decide_submission-Step :
      (actor company_id submission_id : String) (approve : Bool) (reason : String) (db : Db H)
      → Step db.submissions
          (after_decide db
            (decide_submission actor company_id submission_id approve reason db)).submissions
  unfolding decide_submission
  decide_submission-Step actor company_id submission_id approve reason db =
      elim (Option-cases (find (is_row company_id submission_id) db.submissions)) [
        | inl e ↦ rw (after_decide, e) same
        | inr (r, e) ↦ elim (Option-cases (check_decision actor approve reason r)) [
          | inr (x, c) ↦ rw (after_decide, e, c) same
          | inl c ↦
              rw (after_decide, e, c)
                (decided_one (is_row company_id submission_id) actor approve reason r e c)
        ]
      ]

  insert_submission-Step :
      (actor key new_id new_root : String) (w : Week) (approver : String × String)
      (prev : Option Submission) (db : Db H) (drafts : List (Entry H × Project))
      → Step db.submissions
          (after_submit db (elim drafts [
            | [] ↦ failed no_draft_entries
            | d ∷ more ↦
                insert_submission actor w
                  (new_submission payload_hash actor key new_id new_root w approver prev)
                  (supersede_current prev db.submissions)
                  (d ∷ more)
                  db
          ])).submissions
  unfolding insert_submission
  insert_submission-Step actor key new_id new_root w approver prev db [] = same
  insert_submission-Step actor key new_id new_root w approver prev db (d ∷ more) =
      elim (Bool-cases (
        fits
          (new_submission payload_hash actor key new_id new_root w approver
            prev).header.version_number)) [
              | inr f ↦ rw f same
              | inl f ↦
                  elim (Bool-cases (
                    breaks_key w
                      (new_submission payload_hash actor key new_id new_root w approver prev).header
                      (supersede_current prev db.submissions))) [
                        | inl t ↦ rw (f, t) same
                        | inr t ↦
                            rw (f, t)
                              (inserted payload_hash actor key new_id new_root w approver prev t)
                      ]
            ]

  submit_to-Step :
      (actor key new_id new_root : String) (w : Week) (approver : String × String) (db : Db H)
      → Step db.submissions
          (after_submit db
            (submit_to payload_hash actor key new_id new_root w approver db)).submissions
  unfolding submit_to
  submit_to-Step actor key new_id new_root w approver db =
      insert_submission-Step actor key new_id new_root w approver
        (find (is_current_of w) db.submissions) db (draft_entries w db)

  pub replay_same :
      (key : String) (w : Week) (db : Db H) (answer : Outcome (Submission × Bool × Db H))
      → replay payload_hash key w db ≡ some answer
      → after_submit db answer ≡ db
  unfolding replay
  replay_same key w db answer h = ground (arith, h)

  pub submit_week-replay :
      (actor key new_id new_root : String) (w : Week) (db : Db H)
      (answer : Outcome (Submission × Bool × Db H))
      → replay payload_hash key w db ≡ some answer
      → submit_week payload_hash actor w key new_id new_root db ≡ answer
  unfolding submit_week
  submit_week-replay actor key new_id new_root w db answer e = rw (submit_week, e) refl

  submit_week-Step :
      (actor : String) (w : Week) (key new_id new_root : String) (db : Db H)
      → Step db.submissions
          (after_submit db (submit_week payload_hash actor w key new_id new_root db)).submissions
  unfolding submit_week
  submit_week-Step actor w key new_id new_root db =
      elim (Option-cases (replay payload_hash key w db)) [
        | inr (answer, e) ↦
            subst (λ (d : Db H). Step db.submissions d.submissions)
              (sym (replay_same key w db answer e)
                ∙ sym (
                    ap (after_submit db)
                      (submit_week-replay actor key new_id new_root w db answer e)))
              same
        | inl e ↦ elim (Option-cases (assigned_approver db w.company_id w.member_id)) [
          | inl n ↦ rw (after_submit, submit_week, e, n) same
          | inr (approver, n) ↦
              rw (after_submit, submit_week, e, n)
                (submit_to-Step actor key new_id new_root w approver db)
        ]
      ]

  pub perform-Step :
      (c : Call H) (db : Db H)
      → Step db.submissions (perform before hours rounded payload_hash c db).submissions
  unfolding perform
  perform-Step (upsert now new_id actor company_id member_id project_id entry_date worked billable)
        db =
      subst (Step db.submissions)
        (sym (
          upsert_entry-submissions before hours rounded now new_id actor company_id member_id
            project_id entry_date worked billable db))
        same
  perform-Step (configure actor company_id within above previous future) db =
      subst (Step db.submissions)
        (sym (update_config-submissions actor company_id within above previous future db)) same
  perform-Step (add_project new_id actor company_id code name status) db =
      subst (Step db.submissions)
        (sym (create_project-submissions new_id actor company_id code name status db)) same
  perform-Step (edit_project actor company_id project_id code name status) db =
      subst (Step db.submissions)
        (sym (update_project-submissions actor company_id project_id code name status db)) same
  perform-Step (delete actor company_id member_id entry_id) db =
      subst (Step db.submissions)
        (sym (delete_entry-submissions actor company_id member_id entry_id db)) same
  perform-Step (assign row) db =
      subst (Step db.submissions) (sym (record_approver_assignment-submissions row db)) same
  perform-Step (submit actor w key new_id new_root) db =
      submit_week-Step actor w key new_id new_root db
  perform-Step (decide actor company_id submission_id approve reason) db =
      decide_submission-Step actor company_id submission_id approve reason db
