-- ===== src/Tests/HttpTests.antt =====
-- Concrete requests to the models of the handlers of internal/authz.
use kiban.Shared.{
  Memᴰ, String, true, false, none, some, List, [], ◌∷◌, ◌≡◌, ◌≢◌, ◌≤◌, refl, All, lookup, contains,
  ◌⊎◌, string_eq, strip_prefix, trim_prefix, cut,
}
use kiban.Engine.Model.{this, definition}
use kiban.Engine.Eval.{
  check_in_company, check, check_miss, finish, eval_expr, any_row, over_rows, this_row, ttu_row,
  row_in_company, subject_in_company, store,
}
use kiban.Store.Tables.{
  Tuple, Op, grant_op, write_tuples, write_each, write_one, grant_one, insert_tuple, anchor_of,
  member_of_company,
}
use kiban.Store.Superadmins.{Roles, write_platform_role}
use kiban.Fragment.Load.{Loaded, check_loaded}
use kiban.Decision.Types.{kc_true, Decision, Request, scope_global, platform_role_required}
use kiban.Decision.Evaluate.{
  evaluate, evaluate_run, subject_steps, global_step, company_step, module_step, relation_step,
  relation_check, eligibility_step, operator_step, membership_step, company_role_step, binding_step,
  bound_to_company, engine_answer, evaluate_batch, BatchItem,
}
use kiban.Decision.Batch.{AllAgree}
use kiban.Http.Replies.{accepted}
use kiban.Http.Wiring.{Sources, build_deps, platform_role_superadmin}
use kiban.Http.Grants.{Claims, GrantsRequest, Service, Served, is_appointment}
use kiban.Http.Authorize.{
  resolve_tuple, resolve, check_shape, check_subject, check_subjects, owner_rule, admit_caller,
  request_anchors, check_anchors, check_object, check_objects, authorize_objects, authorize,
}
use kiban.Http.Handle.{write_grants, well_formed, handle_grants}
use kiban.Http.Permits.{IsPermitted}
use kiban.Http.Covers.{op_text, handle_grants-All}
use kiban.Http.BaseTypes.{SparesBase, handle_grants-SparesBase}
use kiban.Http.Superadmin.{write_platform_role-evaluate}
use kiban.Http.Can.{
  CanRequest, CanService, decided_batch, DenialAudit, with_module, to_decision_request, prepare,
  validate_can_request, feature_declared, module_or_feature_prefix,
}
use kiban.Http.BatchCan.{handle_batch_can, audit_batch, max_batch_items}
use kiban.Http.BatchDecided.{handle_batch_can-Agrees, audit_batch-AuditsDenials, AuditsDenials}
use kiban.Tests.FragmentTests.{base, known, rows, result, is_loaded}

abbrev pub sources : Sources
sources = record {
  subject = λ id. some (record { found = true; lifecycle_active = true });
  keycloak = λ id. some kc_true;
  company = λ id. some (record { exists = true; active = true });
  membership = λ company id. some (record { is_member = true; blocked = false });
  module_state = λ key. some true;
}

abbrev service : Service
service = record {
  sources = sources;
  effective = some result;
  app_owners = none;
  is_uuid = λ s. true;
}

abbrev tuple : String → String → String → String → String → Tuple
tuple typ id rel subject_type subject_id = record {
  object_type = typ;
  object_id = id;
  relation = rel;
  subject_type = subject_type;
  subject_id = subject_id;
  subject_relation = "";
}

-- A new document with its anchor and its owner, in one request.
abbrev create_doc : GrantsRequest
create_doc = record {
  op = "grant";
  company_id = "c1";
  tuples =
      tuple "doc" "d" "company_module" "company_module" "c1/docs"
      ∷ tuple "doc" "d" "owner" "user" "ann"
      ∷ [];
  correlation_id = "";
}

abbrev pub nothing_served : Served
nothing_served = record { db = record { tuples = []; ledger = [] }; audit = [] }

abbrev ann : Claims
ann = record { subject = "ann"; client_id = "" }

abbrev created : Served
created = (handle_grants service ann create_doc nothing_served).1

doc_created : handle_grants service ann create_doc nothing_served ≡ (accepted 2, created)
unfolding handle_grants well_formed authorize is_appointment authorize_objects resolve resolve_tuple
    lookup check_subjects check_shape check_subject owner_rule admit_caller evaluate evaluate_run
    subject_steps company_step check_loaded binding_step bound_to_company company_role_step
    eligibility_step engine_answer global_step membership_step module_step operator_step
    relation_check relation_step any_row check check_in_company check_miss eval_expr finish
    over_rows row_in_company store subject_in_company this_row ttu_row definition check_anchors
    check_object check_objects request_anchors write_grants contains cut strip_prefix trim_prefix
    anchor_of grant_one insert_tuple member_of_company write_each write_one write_tuples
doc_created = refl

no_empty_key : lookup "" result.known_enabled ≡ none
unfolding lookup
no_empty_key = refl

handle_grants-All_example :
    (op : Op) × ("grant" ≡ op_text op)
    × All
        (IsPermitted service result nothing_served.db ann "c1" op create_doc.tuples)
        create_doc.tuples
handle_grants-All_example =
    handle_grants-All service result ann create_doc nothing_served created 2 refl no_empty_key
      doc_created

handle_grants-SparesBase_example : All (SparesBase base "c1") create_doc.tuples
handle_grants-SparesBase_example =
    handle_grants-SparesBase service result base known rows is_loaded ann create_doc nothing_served
      created 2 refl no_empty_key doc_created

abbrev no_roles : Roles
no_roles = record { db = nothing_served.db; audit = [] }

abbrev with_ann : Roles
with_ann = (write_platform_role "root" grant_op "ann" no_roles).0

ann_granted : write_platform_role "root" grant_op "ann" no_roles ≡ (with_ann, none)
unfolding write_platform_role write_tuples write_each write_one grant_one insert_tuple contains
ann_granted = refl

abbrev administer : Request
administer = record {
  subject_id = "ann";
  feature_key = "auth.platform_administration.access";
  module_key = "";
  scope = scope_global;
  company_id = "";
  required_platform_role = platform_role_superadmin;
  allow_platform_operator_company_scope = false;
  required_company_role = "";
  object = record { typ = ""; id = "" };
  relation = "";
  requires_eligibility = false;
}

superadmin_defined : definition result.model "system" "superadmin" ≡ some this
unfolding definition lookup
superadmin_defined = refl

write_platform_role-evaluate_example :
    (evaluate (build_deps sources result with_ann.db) administer).reason ≢ platform_role_required
write_platform_role-evaluate_example =
    write_platform_role-evaluate result sources "root" no_roles with_ann administer
      superadmin_defined refl refl ann_granted

abbrev can_service : CanService
can_service = record { sources = sources; effective = some result; app_features = none }

-- A question about a feature of the docs module, with no module key and no object.
abbrev open_docs : CanRequest
open_docs = record {
  actor_override = "";
  feature_key = "docs.access";
  module_key = "";
  scope = "company";
  company_id = "c1";
  required_platform_role = "";
  allow_platform_operator = false;
  required_company_role = "";
  object = record { typ = ""; id = "" };
  relation = "";
  requires_eligibility = false;
}

abbrev docs_request : Request
docs_request = to_decision_request (with_module open_docs) "ann"

abbrev opened : Decision
opened = evaluate (build_deps sources result nothing_served.db) docs_request

abbrev no_item : BatchItem
no_item = (record { typ = "doc"; id = "d" }, "")

abbrev batch_results : List (BatchItem × Decision)
batch_results =
    evaluate_batch (build_deps sources result nothing_served.db) docs_request (no_item ∷ [])

batch_decided :
    handle_batch_can can_service nothing_served.db "ann" open_docs (no_item ∷ []) []
    ≡ (decided_batch batch_results, audit_batch "ann" "docs.access" batch_results [])
unfolding handle_batch_can prepare validate_can_request feature_declared module_or_feature_prefix
    cut
batch_decided = refl

handle_batch_can-Agrees_example :
    (1 ≤ max_batch_items)
    × ((l : Loaded) × (some result ≡ some l)
        × AllAgree
            (build_deps sources l nothing_served.db)
            docs_request
            (no_item ∷ [])
            batch_results)
handle_batch_can-Agrees_example =
    handle_batch_can-Agrees can_service nothing_served.db "ann" open_docs (no_item ∷ []) []
      (audit_batch "ann" "docs.access" batch_results []) batch_results refl batch_decided

audit_batch-AuditsDenials_example :
    All (λ r. r.1.allowed ≡ true) batch_results
      × (audit_batch "ann" "docs.access" batch_results [] ≡ [])
    ⊎ ((r : BatchItem × Decision) × Memᴰ r batch_results × (r.1.allowed ≡ false))
      × ((row : DenialAudit) × (audit_batch "ann" "docs.access" batch_results [] ≡ row ∷ [])
          × AuditsDenials "ann" "docs.access" batch_results row)
audit_batch-AuditsDenials_example = audit_batch-AuditsDenials "ann" "docs.access" batch_results []
