-- ===== src/Timesheet/Replays.antt =====
-- SubmitWeek with an idempotency key, asked again after any calls.
use kiban.Shared.{
  ℕ, String, Bool, true, false, Option, some, List, [], ◌∷◌, ◌≡◌, ◌≢◌, refl, sym, ap, ◌∙◌, subst,
  inl, inr, ◌==◌, string_eq, Bool-cases, Option-cases, any, arith, ◌&&◌, eq_iff,
}
use kiban.Timesheet.Tables.{
  fits, Entry, Project, no_draft_entries, Header, Submission, Db, Outcome, failed, done, find,
}
use kiban.Timesheet.Entries.{assigned_approver}
use kiban.Timesheet.Submissions.{
  Week, option_is, is_keyed, has_key, is_current_of, supersede_current, submit_week, submit_to,
  replay, insert_submission, draft_entries, breaks_key, new_submission,
}
use kiban.Timesheet.Rows.{Step, same, inserted, decided_one, perform-Step, submit_week-replay}
use kiban.Timesheet.Calls.{Call, run, perform}
use kiban.Timesheet.Headers.{
  headers, headers-supersede_current, headers-update, found_row, found_holds, found_not_any,
}

same_key :
    (w : Week) (a b : String) (h : Header)
    → is_keyed w a h ≡ true
    → (v : Week) → (v.company_id == w.company_id) ≡ true
    → (v.member_id == w.member_id) ≡ true
    → (b == a) ≡ true
    → is_keyed v b h ≡ true
same_key w a b h k v c m e =
    subst
      (λ x.
        (h.company_id == x && h.member_id == v.member_id && option_is h.idempotency_key b) ≡ true)
      (sym ((eq_iff v.company_id w.company_id).0 c))
      (subst
        (λ x.
          (h.company_id == w.company_id && h.member_id == x && option_is h.idempotency_key b)
          ≡ true)
        (sym ((eq_iff v.member_id w.member_id).0 m))
        (subst
          (λ x.
            (h.company_id == w.company_id
              && h.member_id == w.member_id
              && option_is h.idempotency_key x)
            ≡ true)
          (sym ((eq_iff b a).0 e)) k))

-- A new row does not have the key of a row that is there.
keyed_once :
    (w : Week) (key : String) (h : Header) (rows : List Submission) (payload_hash : Week → String)
    (actor other new_id new_root : String) (v : Week) (approver : String × String)
    (prev : Option Submission)
    → find (is_keyed w key) (headers rows) ≡ some h
    → breaks_key v
        (new_submission payload_hash actor other new_id new_root v approver prev).header
        rows
      ≡ false
    → is_keyed w key
        (new_submission payload_hash actor other new_id new_root v approver prev).header
      ≡ false
keyed_once w key h rows payload_hash actor other new_id new_root v approver prev f b =
    elim (Bool-cases (other == "")) [
      | inl t ↦ rw t (ground arith)
      | inr t ↦
          (let unused : any (has_key v other) rows ≡ false = ground (arith, rw t at b) in
            let absent = found_not_any (is_keyed w key) (is_keyed v other) h rows f unused in
            elim (Bool-cases
              (v.company_id == w.company_id && v.member_id == w.member_id && other == key)) [
                | inr g ↦ rw t g
                | inl g ↦ cc (
                  absent,
                  same_key w key other h (found_holds (is_keyed w key) h (headers rows) f) v
                      (ground (arith, g)) (ground (arith, g)) (ground (arith, g)),
                )
              ])
    ]

Step-found :
    (w : Week) (key : String) (h : Header) (rows next : List Submission)
    → Step rows next
    → find (is_keyed w key) (headers rows) ≡ some h
    → find (is_keyed w key) (headers next) ≡ some h
Step-found w key h rows next same f = f
Step-found w key h rows next (inserted payload_hash actor other new_id new_root v approver prev b)
      f =
    (let kept = ap (find (is_keyed w key)) (headers-supersede_current prev rows) ∙ f in
      rw
        (
          find,
          keyed_once w key h (supersede_current prev rows) payload_hash actor other new_id new_root
              v approver prev kept b,
        )
        kept)
Step-found w key h rows next (decided_one p actor approve reason s e c) f =
    ap (find (is_keyed w key)) (headers-update p actor approve reason rows) ∙ f

module _ {H : Type 0} (before : H → H → Bool) (hours : ℕ → H) (rounded : H → H)
    (payload_hash : Week → String) where
  run-found :
      (w : Week) (key : String) (h : Header) (calls : List (Call H)) (db : Db H)
      → find (is_keyed w key) (headers db.submissions) ≡ some h
      → find (is_keyed w key) (headers (run before hours rounded payload_hash calls db).submissions)
        ≡ some h
  unfolding run
  run-found w key h [] db f = f
  run-found w key h (c ∷ calls) db f =
      run-found w key h calls (perform before hours rounded payload_hash c db) (
        Step-found w key h db.submissions _ (perform-Step before hours rounded payload_hash c db) f)

  -- what an inserting call has put on top of the table
  abbrev IsNew : Week → String → Submission → Db H → Type 0
  IsNew w key s next =
      (s.header.idempotency_key_hash ≡ some (payload_hash w))
      × (find (is_keyed w key) (headers next.submissions) ≡ some s.header)

  new-keyed :
      (actor key new_id new_root : String) (w : Week) (approver : String × String)
      (prev : Option Submission)
      → (key == "") ≡ false
      → ((new_submission payload_hash actor key new_id new_root w approver
            prev).header.idempotency_key_hash
          ≡ some (payload_hash w))
        × (is_keyed w key
              (new_submission payload_hash actor key new_id new_root w approver prev).header
            ≡ true)
  new-keyed actor key new_id new_root w approver prev k = (
    rw k refl,
    rw k (
        ground (
          arith,
          eq_iff w.company_id w.company_id,
          eq_iff w.member_id w.member_id,
          eq_iff key key,
        )),
  )

  done_same :
      (a s : Submission) (d next : Db H)
      → ◌≡◌ {A = Outcome (Submission × Bool × Db H)} (done (a, true, d)) (done (s, true, next))
      → (a ≡ s) × (d ≡ next)
  done_same a s d next e = (cc e, cc e)

  insert_submission-IsNew :
      (actor key new_id new_root : String) (w : Week) (approver : String × String)
      (prev : Option Submission) (drafts : List (Entry H × Project)) (db : Db H) (s : Submission)
      (next : Db H)
      → (key == "") ≡ false
      → ◌≡◌ {A = Outcome (Submission × Bool × Db H)}
          (elim drafts [
            | [] ↦ failed no_draft_entries
            | d ∷ more ↦
                insert_submission actor w
                  (new_submission payload_hash actor key new_id new_root w approver prev)
                  (supersede_current prev db.submissions)
                  (d ∷ more)
                  db
          ])
          (done (s, true, next))
      → IsNew w key s next
  unfolding insert_submission
  insert_submission-IsNew actor key new_id new_root w approver prev [] db s next k e = cc e
  insert_submission-IsNew actor key new_id new_root w approver prev (d ∷ more) db s next k e =
      elim (Bool-cases (
        fits
          (new_submission payload_hash actor key new_id new_root w approver
            prev).header.version_number)) [
              | inr f ↦ cc (rw f at e)
              | inl f ↦
                  elim (Bool-cases (
                    breaks_key w
                      (new_submission payload_hash actor key new_id new_root w approver prev).header
                      (supersede_current prev db.submissions))) [
                        | inl t ↦ cc (rw (f, t) at e)
                        | inr t ↦
                            (let (a, b) = done_same _ s _ next (rw (f, t) at e) in
                              let (hash, keyed) =
                                new-keyed actor key new_id new_root w approver prev k in
                              (
                                subst
                                    (λ (x : Submission).
                                      x.header.idempotency_key_hash ≡ some (payload_hash w))
                                    a hash,
                                subst
                                    (λ (x : Submission).
                                      find (is_keyed w key) (headers next.submissions)
                                      ≡ some x.header)
                                    a
                                    (subst
                                      (λ (x : Db H).
                                        find (is_keyed w key) (headers x.submissions)
                                        ≡ some
                                            (new_submission payload_hash actor key new_id new_root w
                                              approver prev).header)
                                      b (rw (find, keyed) refl)),
                              ))
                      ]
            ]

  replay_old :
      (key : String) (w : Week) (db : Db H) (answer : Outcome (Submission × Bool × Db H))
      (s : Submission) (next : Db H)
      → replay payload_hash key w db ≡ some answer
      → answer ≢ done (s, true, next)
  unfolding replay
  replay_old key w db answer s next h e = ground (arith, h, e)

  submit_week-IsNew :
      (actor key new_id new_root : String) (w : Week) (db : Db H) (s : Submission) (next : Db H)
      → (key == "") ≡ false
      → submit_week payload_hash actor w key new_id new_root db ≡ done (s, true, next)
      → IsNew w key s next
  unfolding submit_week submit_to
  submit_week-IsNew actor key new_id new_root w db s next k e =
      elim (Option-cases (replay payload_hash key w db)) [
        | inr (answer, r) ↦ absurd (replay_old key w db answer s next r (rw (submit_week, r) at e))
        | inl r ↦ elim (Option-cases (assigned_approver db w.company_id w.member_id)) [
          | inl n ↦ cc (rw (submit_week, r, n) at e)
          | inr (approver, n) ↦
              insert_submission-IsNew actor key new_id new_root w approver
                (find (is_current_of w) db.submissions) (draft_entries w db) db s next k
                (rw (submit_week, r, n) at e)
        ]
      ]

  replay-keyed :
      (key : String) (w : Week) (db : Db H) (n : Submission)
      → (key == "") ≡ false
      → find (has_key w key) db.submissions ≡ some n
      → option_is n.header.idempotency_key_hash (payload_hash w) ≡ true
      → replay payload_hash key w db ≡ some (done (n, false, db))
  unfolding replay
  replay-keyed key w db n k g m = rw (k, g, m) refl

  -- Where a submit with an idempotency key, not empty, has inserted a submission, the same submit
  -- after any calls changes nothing and answers with the row that has the header of that
  -- submission.
  pub submit_week-run :
      (actor key new_id new_root : String) (w : Week) (db next : Db H) (s : Submission)
      → (key == "") ≡ false
      → submit_week payload_hash actor w key new_id new_root db ≡ done (s, true, next)
      → (calls : List (Call H)) (caller other_id other_root : String)
      → (n : Submission) × (n.header ≡ s.header)
        × (submit_week payload_hash caller w key other_id other_root
              (run before hours rounded payload_hash calls next)
            ≡ done (n, false, run before hours rounded payload_hash calls next))
  submit_week-run actor key new_id new_root w db next s k e calls caller other_id other_root =
      (let (hash, f) = submit_week-IsNew actor key new_id new_root w db s next k e in
        let (n, g, h) =
          found_row (is_keyed w key) s.header _ (run-found w key s.header calls next f) in
        let matches : option_is n.header.idempotency_key_hash (payload_hash w) ≡ true =
          subst (λ (x : Header). option_is x.idempotency_key_hash (payload_hash w) ≡ true) (sym h)
            (rw hash ((eq_iff (payload_hash w) (payload_hash w)).1 refl)) in
        (
          n,
          h,
          submit_week-replay before hours rounded payload_hash caller key other_id other_root w _ _
              (replay-keyed key w _ n k g matches),
        ))
