-- ===== src/Http/Handle.antt =====
-- `handleGrants` and `writeGrants` of internal/authz/http.go: the guards, the rules and the write.
use kiban.Shared.{String, Option, none, some, [], ◌∷◌, length, if◌then◌else◌, string_eq}
use kiban.Store.Tables.{
  Op, grant_op, revoke_op, Db, Result, ok, err, anchor_conflict, grant, revoke,
}
use kiban.Decision.Types.{Reason}
use kiban.Http.Replies.{
  Reply, accepted, replied, bad_request, validation_failed, internal_error, Step, reply_with, go_on,
  refuse,
}
use kiban.Http.Grants.{Claims, GrantsRequest, Service, denial, change, Served, op_of}
use kiban.Http.Authorize.{authorize}

-- `writeGrants`: one transaction of the tables and the audit row, or nothing
unfoldable pub write_grants : String → String → GrantsRequest → Op → Served → Reply × Served
write_grants subject module_key req op s =
    let written : Result Db = elim op [
      | grant_op ↦ grant subject req.correlation_id req.tuples s.db
      | revoke_op ↦ revoke subject req.correlation_id req.tuples s.db
    ] in
    elim written [
      | ok db ↦ (
        accepted (length req.tuples),
        record {
          db = db;
          audit = change subject op req.company_id module_key (length req.tuples) ∷ s.audit;
        },
      )
      | err (anchor_conflict t) ↦ (replied validation_failed, s)
      | err x ↦ (replied internal_error, s)
    ]

-- `auditDenial`
abbrev pub audited : String → Option (String × Reason) → Served → Served
audited subject none s = s
audited subject (some (feature, reason)) s = record s {
  audit = denial subject feature reason ∷ s.audit;
}

-- A handler's end: its early reply, or the write.
abbrev pub finish_with {ℓ} :
    {A : Type ℓ} → String → Step A → (A → Served → Reply × Served) → Served → Reply × Served
finish_with subject (reply_with r denied_as) write s = (replied r, audited subject denied_as s)
finish_with subject (go_on a) write s = write a s

-- the first guards of `handleGrants`
unfoldable pub well_formed : Service → GrantsRequest → Step Op
well_formed svc req = elim (op_of req.op) [
  | none ↦ refuse bad_request
  | some op ↦ elim req.tuples [
    | [] ↦ refuse bad_request
    | _ ∷ _ ↦ if svc.is_uuid req.company_id then go_on op else refuse bad_request
  ]
]

-- `handleGrants`
unfoldable pub handle_grants : Service → Claims → GrantsRequest → Served → Reply × Served
handle_grants svc claims req s =
    finish_with claims.subject (well_formed svc req)
      (λ op s. elim svc.effective [
        | none ↦ (replied internal_error, s)
        | some l ↦
            finish_with claims.subject (authorize svc l s.db claims req.company_id op req.tuples)
              (λ module_key. write_grants claims.subject module_key req op) s
      ])
      s
