-- ===== src/Lib.antt =====
-- The authorization service of kiban, who may do what and how the facts behind that are written, with
-- the validation of modules before their installation and the store of the timesheet module.
--
-- The program's parts and their files here:
-- * Engine models internal/authz/engine. Engine/Model has the relation expressions and models of
--   model.go (LoadModel, Merge, the validations; Go maps are association lists with one entry for
--   each key) and the accessors of expr_accessors.go. Engine/Eval has eval.go: check is `check`, its
--   evalCtx is split into what a check keeps (Env) and what it changes (State), and evalExpr, evalThis
--   and evalTupleToUserset are eval_expr, this_row and ttu_row under loops over rows. Engine/Batch has
--   batch.go: workers with their own visited nodes over one shared memo. Engine/Grants says what a
--   check decides, as an indexed data type, and Engine/Inside which usersets are from inside a company;
--   Decides, Loops, Check, Errors, WellTyped and Company hold the proofs.
-- * Store models internal/authz/store and the transaction of internal/authz/platform_role.go.
--   Store/Tables has writeTuples, revokeObjectRest, the queries, EnsureCompanyModuleAnchor and
--   EnsureDefaultGrant over the tuple table and its ledger; the unique keys are those of
--   migrations/authz. Store/Superadmins has writePlatformRole. Store/Checks reads the table as the
--   engine does.
-- * Fragment models internal/authz/fragment: Fragment/Load has Load and the checks of inert types, over
--   any base model; the other files hold what Load does to single types.
-- * Decision models internal/authz/decision. Decision/Types has decision.go, Decision/Evaluate the
--   steps of evaluate.go in their order, Decision/Gates the list of gates that the decision promises.
-- * Http models the can, batch-can and grants routes of internal/authz/http.go behind the token and the
--   JSON decoder, with featureDeclared of service.go. Http/Wiring builds the decision's sources from the
--   loaded model and the tables (buildDeciderAndChecker, and the role sources of clients.go);
--   Http/Grants, Authorize and Handle are handleGrants and writeGrants; Http/Can and BatchCan are
--   handleCan and handleBatchCan; Http/Summary is handleSummary of summary.go, over the list of direct
--   tuples of store.go. Permits, Resolves, Covers, BaseTypes, Superadmin, Decided, BatchDecided, Features
--   and Access hold proofs.
-- * Modvalidate models internal/modvalidate. Modvalidate/Errors and Artifacts have the rules of errors.go
--   and the records of types.go; Deps has deps.go (Search and Cycles hold the proofs, over the walks of
--   Walks and the colours of Colors). Sql has sqlscan.go: Sql/Bytes and Tokens the tokenizer, Refs the
--   reading of names, Clauses and Scan the rule table; Lexed and Printed hold what the tokenizer reads, Listed,
--   Checked and Fence what an accepted statement names, Panics and Targets the edges. Manifest has manifest.go and
--   license.go, Migrations migrations.go, Fragment fragment.go, Frontend frontend.go and openapi.go, and
--   Catalog catalog.go and validate.go. Its errors keep the module and the rule.
-- * Timesheet models the store of modules/timesheet/service. Timesheet/Tables has the tables of its
--   migrations, Projects the configuration and the projects, Entries UpsertEntry, DeleteEntry and the
--   approver assignments, Submissions SubmitWeek,
--   Decisions decideSubmission, and Calls the calls one after another. Rows says what a call does to the
--   submissions, as a step relation; Lifecycle, Settled, Headers and Replays hold what
--   follows from it.
-- * Tests runs the models at concrete inputs.
-- The handlers ask the decision, the decision asks the engine through Deps, and the engine reads the
-- tuples that the store writes, over the model that the fragments give.
--
-- Fuel: `check` runs on fuel 34. A check starts at depth 0, every recursive call is one deeper, and
-- the code refuses a node at a depth above MaxDepth, which is 32, so no call is deeper than 33. The
-- search for a dependency cycle runs on one more than the number of keys, since every visit colours a
-- white key; the tokenizer runs on the number of bytes, of which every token takes one, and the lists of
-- names on the number of tokens.
--
-- Not modelled: the JSON decoder of expressions, SQL and transactions beyond their documented
-- effect (an error rolls back), contexts and deadlines beyond the timeout of the eligibility
-- callback, and the interleaving of two checks of one batch inside a check. A failed query of the
-- handlers' own lookups (AnchorOf, MemberOfCompany) replies 503 in the code and has no case here. Of
-- Modvalidate: the texts of the messages, and load.go, which reads files and decodes JSON and YAML. The
-- regular expressions, semver, the license texts and the splitting of paths are arguments, and letters
-- beyond ASCII are not lowered. Of Timesheet: the listings and the HTTP layer, and
-- two calls at one time; the payload digest and the order and the rounding of hours are arguments.
-- The other services and modules, the SDK and the web shell are outside.
pub mod Shared
pub mod Engine
pub mod Store
pub mod Fragment
pub mod Decision
pub mod Http
pub mod Modvalidate
pub mod Tests
pub mod Timesheet
