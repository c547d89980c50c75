-- ===== src/Timesheet/Headers.antt =====
-- The headers of the submissions, which no update changes, and the first header that a test finds.
use kiban.Shared.{
  String, Bool, true, false, Option, none, some, List, [], ◌∷◌, ◌≡◌, refl, ap, subst, inl, inr,
  ◌==◌, string_eq, Bool-cases, map, any, arith,
}
use kiban.Timesheet.Tables.{Header, Submission, find, at_most_one_update}
use kiban.Timesheet.Submissions.{supersede_row, supersede_current}
use kiban.Timesheet.Decisions.{decided}

abbrev pub headers : List Submission → List Header
headers rows = map (λ (s : Submission). s.header) rows

-- Updates leave the headers as they are.
headers-supersede_row :
    (id : String) (rows : List Submission) → headers (supersede_row id rows) ≡ headers rows
unfolding supersede_row
headers-supersede_row id [] = refl
headers-supersede_row id (r ∷ rows) = elim (Bool-cases (r.header.id == id)) [
  | inl t ↦ rw t (ap (λ hs. r.header ∷ hs) (headers-supersede_row id rows))
  | inr t ↦ rw t (ap (λ hs. r.header ∷ hs) (headers-supersede_row id rows))
]

pub headers-supersede_current :
    (prev : Option Submission) (rows : List Submission)
    → headers (supersede_current prev rows) ≡ headers rows
headers-supersede_current none rows = refl
headers-supersede_current (some prev) rows = headers-supersede_row prev.header.id rows

pub headers-update :
    (p : Submission → Bool) (actor : String) (approve : Bool) (reason : String)
    (rows : List Submission)
    → headers (at_most_one_update p (decided actor approve reason) rows) ≡ headers rows
headers-update p actor approve reason [] = refl
headers-update p actor approve reason (r ∷ rows) = elim (Bool-cases (p r)) [
  | inl t ↦ rw (at_most_one_update, t) refl
  | inr t ↦
      rw (at_most_one_update, t)
        (ap (λ hs. r.header ∷ hs) (headers-update p actor approve reason rows))
]

pub found_row :
    (q : Header → Bool) (h : Header) (rows : List Submission)
    → find q (headers rows) ≡ some h
    → (n : Submission) × (find (λ (s : Submission). q s.header) rows ≡ some n) × (n.header ≡ h)
found_row q h [] e = cc e
found_row q h (r ∷ rows) e = elim (Bool-cases (q r.header)) [
  | inl t ↦ (r, rw (find, t) refl, cc (rw (find, t) at e))
  | inr t ↦ (let (n, f, g) = found_row q h rows (rw (find, t) at e) in (n, rw (find, t) f, g))
]

pub found_holds :
    (q : Header → Bool) (h : Header) (hs : List Header) → find q hs ≡ some h → q h ≡ true
found_holds q h [] e = cc e
found_holds q h (g ∷ hs) e = elim (Bool-cases (q g)) [
  | inl t ↦ cc (t, rw (find, t) at e)
  | inr t ↦ found_holds q h hs (rw (find, t) at e)
]

pub found_not_any :
    (p q : Header → Bool) (h : Header) (rows : List Submission)
    → find p (headers rows) ≡ some h
    → any (λ (s : Submission). q s.header) rows ≡ false
    → q h ≡ false
found_not_any p q h [] e a = cc e
found_not_any p q h (r ∷ rows) e a = elim (Bool-cases (p r.header)) [
  | inl t ↦
      (let same_header : r.header ≡ h = cc (rw (find, t) at e) in
        subst (λ x. q x ≡ false) same_header (ground (arith, a)))
  | inr t ↦ found_not_any p q h rows (rw (find, t) at e) (ground (arith, a))
]
