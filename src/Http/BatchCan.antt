-- ===== src/Http/BatchCan.antt =====
-- `handleBatchCan` of internal/authz/http.go behind the token and the JSON decoder.
use kiban.Shared.{
  ℕ, zero, suc, String, Bool, not, List, [], ◌∷◌, ◌==◌, string_eq, nat_eq, if◌then◌else◌, length,
  keep, leb, ltb,
}
use kiban.Store.Tables.{Db}
use kiban.Fragment.Load.{Loaded}
use kiban.Decision.Types.{Decision, Request}
use kiban.Decision.Evaluate.{evaluate_batch, BatchItem}
use kiban.Http.Replies.{bad_request, Step, reply_with, go_on, require}
use kiban.Http.Wiring.{build_deps}
use kiban.Http.Can.{
  CanRequest, CanService, CanReply, decided_batch, refused_with, DenialAudit, batch_denial, prepare,
}

-- `maxBatchItems` and `maxAuditedDenials`
abbrev pub max_batch_items : ℕ
max_batch_items = 100

abbrev pub max_audited_denials : ℕ
max_audited_denials = 50

-- The first elements of a list, at most so many.
abbrev pub take {ℓ} : {A : Type ℓ} → ℕ → List A → List A
take zero xs = []
take (suc n) [] = []
take (suc n) (x ∷ xs) = x ∷ take n xs

abbrev pub is_denied : BatchItem × Decision → Bool
is_denied (item, d) = not d.allowed

-- the audit row of a batch, where an item is denied
unfoldable pub audit_batch :
    String → String → List (BatchItem × Decision) → List DenialAudit → List DenialAudit
audit_batch subject feature results rows =
    let denied = keep is_denied results in
    let listed = take max_audited_denials denied in
    if length listed == 0
    then rows
    else batch_denial subject feature (length denied) listed (ltb (length listed) (length denied))
      ∷ rows

-- the decisions of `handleBatchCan`, its audit row and its reply
abbrev pub finish_batch :
    CanService
    → Db
    → String
    → CanRequest
    → List BatchItem
    → List DenialAudit
    → Step (Request × Loaded)
    → CanReply × List DenialAudit
finish_batch svc db subject req items rows (reply_with r _) = (refused_with r, rows)
finish_batch svc db subject req items rows (go_on (request, l)) =
    let results = evaluate_batch (build_deps svc.sources l db) request items in
    (decided_batch results, audit_batch subject req.feature_key results rows)

-- the cap on the items
abbrev pub capped : List BatchItem → Step (Unit {0})
capped items = require (leb (length items) max_batch_items) bad_request

-- `handleBatchCan`: its reply, and the audit rows after it
unfoldable pub handle_batch_can :
    CanService
    → Db
    → String
    → CanRequest
    → List BatchItem
    → List DenialAudit
    → CanReply × List DenialAudit
handle_batch_can svc db subject req items rows =
    finish_batch svc db subject req items rows (prepare svc subject req (capped items))
