-- ===== src/Timesheet/Lifecycle.antt =====
-- The status machine of submissions, over any calls of modules/timesheet/service: what becomes of a row.
use kiban.Shared.{
  ℕ, String, Bool, true, Option, none, some, List, [], ◌∷◌, ◌≡◌, refl, sym, ap, ◌∙◌, subst, ◌⊎◌,
  inl, inr, string_eq, beq-cases, Bool-cases, Memᴰ,
}
use kiban.Timesheet.Tables.{submitted, Submission, Db, find, at_most_one_update}
use kiban.Timesheet.Submissions.{Week, supersede, supersede_row, supersede_current}
use kiban.Timesheet.Decisions.{check_decision, decided}
use kiban.Timesheet.Rows.{
  Step, same, inserted, decided_one, is_submitted-eq, check_decision-none, perform-Step,
}
use kiban.Timesheet.Calls.{Call, perform, run}

-- What may become of a row: its header stays, a superseded row stays as it is, and a decision is final.
abbrev pub Keeps : Submission → Submission → Type 0
Keeps old new =
    (new.header ≡ old.header)
    × ((old.is_current ≡ true) ⊎ (new ≡ old))
    × ((old.status ≡ submitted)
        ⊎ (new.status ≡ old.status)
          × (new.decided_by_kc_sub ≡ old.decided_by_kc_sub)
          × (new.reject_reason ≡ old.reject_reason))

abbrev pub IsKeptIn : List Submission → Submission → Type 0
IsKeptIn rows old = (new : Submission) × Memᴰ new rows × Keeps old new

Keeps-self : (s : Submission) → Keeps s s
Keeps-self s = (refl, inr refl, inr (refl, refl, refl))

Keeps-trans : (a b c : Submission) → Keeps a b → Keeps b c → Keeps a c
Keeps-trans a b c (h, cur, dec) (h', cur', dec') = (
  h' ∙ h,
  elim cur [
    | inl t ↦ inl t
    | inr e ↦ elim cur' [
      | inl t ↦ inl (ap (λ (s : Submission). s.is_current) (sym e) ∙ t)
      | inr e' ↦ inr (e' ∙ e)
    ]
  ],
  elim dec [
    | inl t ↦ inl t
    | inr (e, d, r) ↦ elim dec' [
      | inl t ↦ inl (sym e ∙ t)
      | inr (e', d', r') ↦ inr (e' ∙ e, d' ∙ d, r' ∙ r)
    ]
  ],
)

supersede-Keeps : (s : Submission) → Keeps s (supersede s)
supersede-Keeps s = (
  refl,
  elim (Bool-cases s.is_current) [
    | inl t ↦ inl t
    | inr f ↦ inr (
        ap
          (λ b. record {
            header = s.header;
            is_current = b;
            status = s.status;
            decided_by_kc_sub = s.decided_by_kc_sub;
            reject_reason = s.reject_reason;
          })
          (sym f))
  ],
  inr (refl, refl, refl),
)

IsKept-cons :
    (s new : Submission) (rows : List Submission) → IsKeptIn rows s → IsKeptIn (new ∷ rows) s
IsKept-cons s new rows (n, m, k) = (n, Memᴰ.tail m, k)

IsKept-head :
    (s r new : Submission) (rows : List Submission) → s ≡ r → Keeps r new → IsKeptIn (new ∷ rows) s
IsKept-head s r new rows e k = (new, Memᴰ.head refl, subst (λ x. Keeps x new) (sym e) k)

supersede_row-IsKeptIn :
    (id : String) (rows : List Submission) (s : Submission)
    → Memᴰ s rows
    → IsKeptIn (supersede_row id rows) s
unfolding supersede_row
supersede_row-IsKeptIn id [] s m = elim m [ ]
supersede_row-IsKeptIn id (r ∷ rows) s m = elim (beq-cases r.header.id id) [
  | inl (e, t) ↦ rw t (elim m [
    | Memᴰ.head h ↦ IsKept-head s r (supersede r) _ h (supersede-Keeps r)
    | Memᴰ.tail n ↦ IsKept-cons s _ _ (supersede_row-IsKeptIn id rows s n)
  ])
  | inr f ↦ rw f (elim m [
    | Memᴰ.head h ↦ IsKept-head s r r _ h (Keeps-self r)
    | Memᴰ.tail n ↦ IsKept-cons s _ _ (supersede_row-IsKeptIn id rows s n)
  ])
]

update-IsKeptIn :
    (p : Submission → Bool) (f : Submission → Submission) (rows : List Submission)
    → ((r : Submission) → find p rows ≡ some r → Keeps r (f r))
    → (s : Submission) → Memᴰ s rows
    → IsKeptIn (at_most_one_update p f rows) s
update-IsKeptIn p f [] h s m = elim m [ ]
update-IsKeptIn p f (r ∷ rows) h s m = elim (Bool-cases (p r)) [
  | inl t ↦
      rw (at_most_one_update, t)
        (elim m [
          | Memᴰ.head e ↦ IsKept-head s r (f r) _ e (h r (rw (find, t) refl))
          | Memᴰ.tail n ↦ (s, Memᴰ.tail n, Keeps-self s)
        ])
  | inr t ↦
      rw (at_most_one_update, t)
        (elim m [
          | Memᴰ.head e ↦ IsKept-head s r r _ e (Keeps-self r)
          | Memᴰ.tail n ↦
              IsKept-cons s _ _ (update-IsKeptIn p f rows (λ q g. h q (rw (find, t) g)) s n)
        ])
]

decided-Keeps :
    (actor : String) (approve : Bool) (reason : String) (s : Submission)
    → check_decision actor approve reason s ≡ none
    → Keeps s (decided actor approve reason s)
decided-Keeps actor approve reason s h =
    (let (a, c, d, g) = check_decision-none actor approve reason s h in
      (refl, inl c, inl (is_submitted-eq s.status d)))

supersede_current-IsKeptIn :
    (prev : Option Submission) (rows : List Submission) (s : Submission)
    → Memᴰ s rows
    → IsKeptIn (supersede_current prev rows) s
supersede_current-IsKeptIn none rows s m = (s, m, Keeps-self s)
supersede_current-IsKeptIn (some prev) rows s m = supersede_row-IsKeptIn prev.header.id rows s m

Step-IsKeptIn :
    (rows next : List Submission)
    → Step rows next
    → (s : Submission) → Memᴰ s rows
    → IsKeptIn next s
Step-IsKeptIn rows next same s m = (s, m, Keeps-self s)
Step-IsKeptIn rows next (inserted payload_hash actor key new_id new_root w approver prev b) s m =
    IsKept-cons s _ _ (supersede_current-IsKeptIn prev rows s m)
Step-IsKeptIn rows next (decided_one p actor approve reason r e c) s m =
    update-IsKeptIn p (decided actor approve reason) rows
      (λ q g. decided-Keeps actor approve reason q (cc (e, c, g))) s m

module _ {H : Type 0} (before : H → H → Bool) (hours : ℕ → H) (rounded : H → H)
    (payload_hash : Week → String) where
  -- Over any calls that change the timesheet tables, every submission stays: its header is never
  -- changed, a superseded row stays exactly as it is, and the status, decider and reason of a row
  -- that is no longer submitted are final.
  pub run-IsKeptIn :
      (calls : List (Call H)) (db : Db H) (s : Submission)
      → Memᴰ s db.submissions
      → IsKeptIn (run before hours rounded payload_hash calls db).submissions s
  unfolding run
  run-IsKeptIn [] db s m = (s, m, Keeps-self s)
  run-IsKeptIn (c ∷ calls) db s m =
      (let (n, there, k) =
          Step-IsKeptIn _ _ (perform-Step before hours rounded payload_hash c db) s m in
        let (last, at_end, j) =
          run-IsKeptIn calls (perform before hours rounded payload_hash c db) n there in
        (last, at_end, Keeps-trans s n last k j))
