-- ===== src/Lib.antt =====
-- Crabhelm: a control plane for a fleet of OpenClaw agents ("claws"). Operators create and change
-- claws; people talk to them through personas; a persona acts for its requester, or for a service
-- principal, through an OAuth connection, and asks for a confirmation before it writes to the world
-- outside. The development models the parts that decide who may act, and the records they rest on.
--
-- Parts, and the code that each models:
--   Errors              src/errors.ts: what services throw, and what of it is shown.
--   Store               src/state.ts: createMemoryStateStore is a store as the list of its entries, in
--                       the order of their first insertion, with its laws as a map in Store/Laws, and
--                       Store/Sqlite the stores of SqliteStateDatabase, with their limit. A row holds
--                       its value's JSON; JSON.stringify and JSON.parse are a parameter (`Codec`).
--   Effect              the asynchronous methods: a method is a function from the stores to a result
--                       and the stores it leaves; `serialize` is the registries' #serialize, which runs
--                       one method at a time, in a transaction if the stores have one. A throw in a
--                       transaction rolls the stores back.
--   Slug                src/domain.ts (slugify).
--   Governance          src/governance.ts and src/governance-types.ts: Types has the records, Records the
--                       constructors and updates of principals and personas, Actor the choice of the
--                       actor and of its connection (resolveInvocationActor), Ingress the choice of the
--                       persona (selectSlackPersona), Capabilities the configured ones, Skills the
--                       approval and the delivery (buildManagedAgentSpec).
--   GovernanceRegistry  src/governance-registry.ts: one child for each kind of record, with the methods
--                       of the class GovernanceRegistry by their names: createPersona is
--                       `create_persona`, and `creating_persona` the operation that it serializes.
--   Claw                src/types.ts and the part of src/domain.ts that changes one record: setClawEnabled,
--                       rotateClawCredentials, fleetSummary; Claw/Policies has normalizeOwner,
--                       normalizeSlack, normalizeAccess and normalizeAppliance, Claw/Telemetry
--                       normalizeObservability, Claw/Models normalizeModels, and Claw/Create
--                       createClawRecord.
--   Registry            src/registry.ts: create (in Registry/Creation), setEnabled, rotateCredentials,
--                       requestRemoval and writeObserved of CrabhelmRegistry.
--   Reconciler          src/reconciler.ts: Removal has the stages of a removal, Upkeep the other
--                       branches of #reconcileOne, Round one round with its writes, its `catch` and its
--                       conflicts, and reconcileAll. The provider (ChildCoreProvider of
--                       src/providers.ts) and the router answer with arbitrary results, and what other
--                       methods do to the stores before each write of a round is a parameter. The
--                       quiet period is a number of milliseconds without a fraction.
--   Coordinator         worker/claw-coordinator.ts (with worker/slack-delivery.ts and
--                       worker/slack-config.ts): Sql has the statements on a table as functions on its
--                       rows, Tables the tables and what a call meets outside, Grants the grants, runs
--                       and tickets, Jobs the jobs' queue, Runtime the claims and starts of a runtime,
--                       Completion the completion of a turn, and Delivery the deliveries to Slack, the
--                       failures and the alarm. A call is a function on the tables; at each `await` of
--                       an envelope or of Slack other calls may change them (`others`). Deliveries are
--                       tried at most five times, so nothing needs fuel. The map of #deliver, by
--                       which two calls share one running delivery, is not modelled: each delivers.
--   Controller          worker/governance-controller.ts: the issue of an invocation (#issueInvocation).
--                       Arguments has normalizeGithubTarget and normalizeInvocationArguments of
--                       src/governance.ts, Prepare the checks, which read the stores at once, Issue the
--                       confirmation, the record, the grant and the events, on the registry of
--                       governance and the claw's coordinator. The digest of the arguments, the signed
--                       token, the confirmation's summary and the archive's queue are parameters.
--                       Execute is the execution of a grant (#executeGithub): the vault and GitHub
--                       answer arbitrarily, and each call that records the outcome may fail without an
--                       effect. No other call comes between the steps of one issue or execution.
--
-- Conventions. A request's optional field is an Option. `Date.now()`, `new Date()` and `randomUUID()`
-- are arguments (`Ambient`, `Call`). A timestamp is an instant in milliseconds or a text that
-- Date.parse does not read, which no test finds expired. Each loop is structural recursion, so there is
-- no fuel. A revision is a safe integer: `is_safe` has JavaScript's bound.
--
-- The reading of a URL (`new URL`) is a parameter of normalizeObservability, from a text to the URL's
-- parts if it is one; the order of `localeCompare`, by which a router's mapping is kept, is a
-- parameter of normalizeModels. The theorems hold whatever these are.
--
-- Not modelled: skills as they are created, the digests (they need canonical JSON and
-- SHA-256), the update of a claw, the managed
-- policies, the refresh of a runtime's token, the tokens, and all
-- input and output: HTTP, Slack, the providers, the worker and the AWS wiring. The legacy records that
-- lack a router or an observability policy are left out of `normalize_record`.
pub mod Common
pub mod Errors
pub mod Effect
pub mod Store
pub mod Slug
pub mod Governance
pub mod GovernanceRegistry
pub mod Claw
pub mod Registry
pub mod Reconciler
pub mod Coordinator
pub mod Controller
