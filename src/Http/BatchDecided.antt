-- ===== src/Http/BatchDecided.antt =====
-- What the replies and the audit rows of `handleBatchCan` of internal/authz/http.go hold.
use kiban.Shared.{
  ℕ, zero, suc, String, true, false, some, List, [], ◌∷◌, ◌==◌, string_eq, nat_eq, ◌≡◌, ◌≢◌, refl,
  sym, ◌∙◌, ap, subst, All, length, keep, leb, ltb, ◌≤◌, arith, Bool-cases, inl, inr, ◌⊎◌, leb→le,
  ltb→lt, Memᴰ, mem_of_keep, not, ◌<◌,
}
use kiban.Store.Tables.{Db}
use kiban.Fragment.Load.{Loaded}
use kiban.Decision.Types.{Decision, Request, scope_global}
use kiban.Decision.Evaluate.{evaluate_batch, BatchItem}
use kiban.Decision.Batch.{AllAgree, evaluate_batch-Agrees}
use kiban.Http.Replies.{Step, reply_with, go_on}
use kiban.Http.Wiring.{build_deps}
use kiban.Http.Can.{
  CanRequest, CanService, decided_batch, DenialAudit, batch_denial, prepare, with_module,
  to_decision_request,
}
use kiban.Http.BatchCan.{
  max_batch_items, max_audited_denials, take, is_denied, audit_batch, finish_batch, capped,
  handle_batch_can,
}
use kiban.Http.Decided.{prepare-IsPrepared}

finish_batch-decided :
    (svc : CanService) (db : Db) (subject : String) (req : CanRequest) (items : List BatchItem)
    (rows rows2 : List DenialAudit) (results : List (BatchItem × Decision))
    (step : Step (Request × Loaded))
    → finish_batch svc db subject req items rows step ≡ (decided_batch results, rows2)
    → (request : Request) × (l : Loaded) × (step ≡ go_on (request, l))
      × (evaluate_batch (build_deps svc.sources l db) request items ≡ results)
finish_batch-decided svc db subject req items rows rows2 results (reply_with r a) h =
    cc (ap (λ o. o.0) h)
finish_batch-decided svc db subject req items rows rows2 results (go_on (request, l)) h =
    (request, l, refl, batch-inj (ap (λ o. o.0) h))
  where
    batch-inj : {a b : List (BatchItem × Decision)} → decided_batch a ≡ decided_batch b → a ≡ b
    batch-inj e = cc e

capped-le : (items : List BatchItem) → capped items ≡ go_on tt → length items ≤ max_batch_items
capped-le items h = elim (Bool-cases (leb (length items) max_batch_items)) [
  | inl e ↦ leb→le (length items) max_batch_items e
  | inr e ↦ cc (rw e at h)
]

company_scope :
    (req : CanRequest) (subject : String)
    → (req.scope == "global") ≡ false
    → (to_decision_request (with_module req) subject).scope ≢ scope_global
unfolding to_decision_request
company_scope req subject h = rw h (λ e. cc)

-- When the batch route replies with decisions for a request whose scope is not global, there are
-- at most 100 items, and one result for each of them, in their order, that has the reason that a
-- decision of its own gives to the bearer.
pub handle_batch_can-Agrees :
    (svc : CanService) (db : Db) (subject : String) (req : CanRequest) (items : List BatchItem)
    (rows rows2 : List DenialAudit) (results : List (BatchItem × Decision))
    → (req.scope == "global") ≡ false
    → handle_batch_can svc db subject req items rows ≡ (decided_batch results, rows2)
    → (length items ≤ max_batch_items)
      × ((l : Loaded) × (svc.effective ≡ some l)
          × AllAgree
              (build_deps svc.sources l db)
              (to_decision_request (with_module req) subject)
              items
              results)
unfolding handle_batch_can
handle_batch_can-Agrees svc db subject req items rows rows2 results scope h =
    let (request, l, prep, same) =
      finish_batch-decided svc db subject req items rows rows2 results
        (prepare svc subject req (capped items)) h in
    let p = prepare-IsPrepared svc subject req (capped items) request l prep in
    let agrees =
      evaluate_batch-Agrees (build_deps svc.sources l db)
        (to_decision_request (with_module req) subject) (company_scope req subject scope) items in
    (
      capped-le items p.guarded,
      (
        l,
        p.loaded_as,
        subst
            (AllAgree (build_deps svc.sources l db) (to_decision_request (with_module req) subject)
              items)
            (ap (λ r. evaluate_batch (build_deps svc.sources l db) r items) (sym p.request_is)
              ∙ same)
            agrees,
      ),
    )

length-take : (n : ℕ) (xs : List (BatchItem × Decision)) → length (take n xs) ≤ n
length-take zero xs = omega arith
length-take (suc n) [] = omega arith
length-take (suc n) (x ∷ xs) = omega (arith, length-take n xs)

-- A cut is full where it leaves something out, and whole where it does not.
length-take_cut :
    (n : ℕ) (xs : List (BatchItem × Decision))
    → (ltb (length (take n xs)) (length xs) ≡ true) × (length (take n xs) ≡ n)
      ⊎ (ltb (length (take n xs)) (length xs) ≡ false) × (take n xs ≡ xs)
length-take_cut zero [] = inr (refl, refl)
length-take_cut zero (x ∷ xs) = inl (ground arith, refl)
length-take_cut (suc n) [] = inr (refl, refl)
length-take_cut (suc n) (x ∷ xs) = elim (length-take_cut n xs) [
  | inl (e, f) ↦ inl (ground (arith, e), ap suc f)
  | inr (e, f) ↦ inr (ground (arith, e), ap (λ ys. x ∷ ys) f)
]

take-Mem :
    {r : BatchItem × Decision} (n : ℕ) (xs : List (BatchItem × Decision))
    → Memᴰ r (take n xs)
    → Memᴰ r xs
take-Mem zero xs m = elim m [ ]
take-Mem (suc n) [] m = elim m [ ]
take-Mem (suc n) (x ∷ xs) (Memᴰ.head e) = Memᴰ.head e
take-Mem (suc n) (x ∷ xs) (Memᴰ.tail m) = Memᴰ.tail (take-Mem n xs m)

Mem-All :
    (P : BatchItem × Decision → Type 0) (xs : List (BatchItem × Decision))
    → ((r : BatchItem × Decision) → Memᴰ r xs → P r)
    → All P xs
Mem-All P [] h = tt
Mem-All P (x ∷ xs) h = (h x (Memᴰ.head refl), Mem-All P xs (λ r m. h r (Memᴰ.tail m)))

-- The results of the items that are not allowed.
abbrev pub denials : List (BatchItem × Decision) → List (BatchItem × Decision)
denials results = keep (λ r. not r.1.allowed) results

-- What a batch's audit row says of its results: who asked for which feature, how many were denied,
-- and a list of them, which is whole unless the row says that it is cut off at 50.
abbrev pub AuditsDenials : String → String → List (BatchItem × Decision) → DenialAudit → Type 0
AuditsDenials subject feature results (batch_denial who what count listed truncated) =
    (who ≡ subject)
    × (what ≡ feature)
    × (count ≡ length (denials results))
    × All (λ r. Memᴰ r results × (r.1.allowed ≡ false)) listed
    × ((truncated ≡ true) × (length listed ≡ 50) × (50 < count)
        ⊎ (truncated ≡ false) × (listed ≡ denials results))
AuditsDenials subject feature results _ = ⊥

nothing_denied :
    (denied : List (BatchItem × Decision))
    → (length (take max_audited_denials denied) == 0) ≡ true
    → denied ≡ []
nothing_denied [] h = refl
nothing_denied (x ∷ xs) h = ground arith

something_denied :
    (denied : List (BatchItem × Decision))
    → (length (take max_audited_denials denied) == 0) ≡ false
    → (r : BatchItem × Decision) × Memᴰ r denied
something_denied [] h = cc h
something_denied (x ∷ xs) h = (x, Memᴰ.head refl)

denied-Mem :
    (results : List (BatchItem × Decision)) (r : BatchItem × Decision)
    → Memᴰ r (keep is_denied results)
    → Memᴰ r results × (r.1.allowed ≡ false)
denied-Mem results r m =
    let (there, d) = mem_of_keep is_denied results m in
    (there, elim (Bool-cases r.1.allowed) [ inl t ↦ cc (rw t at d) | inr f ↦ f ])

cut_of :
    (denied : List (BatchItem × Decision))
    → (ltb (length (take max_audited_denials denied)) (length denied) ≡ true)
        × (length (take max_audited_denials denied) ≡ 50)
        × (50 < length denied)
      ⊎ (ltb (length (take max_audited_denials denied)) (length denied) ≡ false)
        × (take max_audited_denials denied ≡ denied)
cut_of denied = elim (length-take_cut max_audited_denials denied) [
  | inl (e, f) ↦ inl (e, f, subst (λ n. n < length denied) f (ltb→lt _ _ e))
  | inr c ↦ inr c
]

-- Where every result is allowed a batch leaves no audit row, and where one is denied it leaves
-- one row, with the subject, the feature and the number of denied results, and a list of denied
-- results of the batch, which is all of them, or 50 of more than 50 and then marked as cut off.
pub audit_batch-AuditsDenials :
    (subject feature : String) (results : List (BatchItem × Decision)) (rows : List DenialAudit)
    → All (λ r. r.1.allowed ≡ true) results × (audit_batch subject feature results rows ≡ rows)
      ⊎ ((r : BatchItem × Decision) × Memᴰ r results × (r.1.allowed ≡ false))
        × ((row : DenialAudit) × (audit_batch subject feature results rows ≡ row ∷ rows)
            × AuditsDenials subject feature results row)
unfolding audit_batch
audit_batch-AuditsDenials subject feature results rows =
    elim (Bool-cases (length (take max_audited_denials (keep is_denied results)) == 0)) [
      | inl e ↦ inl (none_denied results (nothing_denied (keep is_denied results) e), rw e)
      | inr e ↦ inr (
        let (r, m) = something_denied (keep is_denied results) e in
            let (there, d) = denied-Mem results r m in (r, there, d),
        (
          batch_denial subject feature (length (keep is_denied results))
              (take max_audited_denials (keep is_denied results))
              (ltb (length (take max_audited_denials (keep is_denied results)))
                (length (keep is_denied results))),
          rw e refl,
          (
            refl,
            refl,
            refl,
            Mem-All _ (take max_audited_denials (keep is_denied results)) (λ r m.
                denied-Mem results r (take-Mem max_audited_denials (keep is_denied results) m)),
            cut_of (keep is_denied results),
          ),
        ),
      )
    ]
  where
    none_denied :
        (xs : List (BatchItem × Decision))
        → keep is_denied xs ≡ []
        → All (λ r. r.1.allowed ≡ true) xs
    none_denied [] h = tt
    none_denied (x ∷ xs) h = elim (Bool-cases x.1.allowed) [
      | inl t ↦ (t, none_denied xs (rw t at h))
      | inr f ↦ cc (rw f at h)
    ]
