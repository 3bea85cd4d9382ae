-- ===== src/Lib.antt =====
-- NeKiro: a model of the instance registry (registry/*.go), which tells where the instances of an
-- agent release can be reached, of the A2A router's choice among them
-- (apps/a2a-router/internal/routing), and of the control plane's catalog of agents and workspaces
-- that install them. The router observes one release at a time: it asks the directory for an
-- initial snapshot and a watch, applies the changes of the watch to its session, and sends an
-- invocation to the single endpoint that the current snapshot offers.
--
-- Prelude holds what all parts share: Boolean tests, results and options (Tests), lists (Lists),
-- Go strings as lists of code points with strings.TrimSpace and comparison (Text), rows of
-- database tables (Table), Go integers with strconv.Itoa and strconv.Atoi (Int), and the
-- sort-then-refuse-duplicates routine of the registry (Sort, Normalize).
--
-- Registry follows registry/*.go:
-- - Registry/Errors is registry/errors.go: outcomes, causes, the allowlist, typedTerminal. An error is
--   a tree, since the repository joins errors and wraps several at once.
-- - Registry/Target is registry/target.go: ReleaseTarget and its validation. net/url, net.ParseIP
--   and strings.ToLower are not part of the repository; Registry/Url names what is used of them as
--   the parameter record Net.
-- - Registry/Endpoint, Instance, Revision, Snapshot and Change are registry/model.go: one module
--   per type, with its constructor, Validate and Equal. An input record of the source has the
--   fields of the value it makes, so one record stands for both. Values are immutable here, so the
--   defensive copies of the source have no counterpart.
-- - Registry/Watch is registry/watch.go. Each definition is one critical section under the mutex;
--   Watch/System puts a provider and a consumer around it, and its step relation lets the critical
--   sections interleave in every order.
-- - Registry/Examples holds concrete data and the runs on it.
--
-- Routing follows apps/a2a-router/internal/routing:
-- - Routing/Selector is selector.go: selectSnapshotTarget with its two loops, and releaseTarget.
--   url.URL.String is a parameter, the record UrlPrinter.
-- - Routing/Session is the observationSession of watch_selector.go and the goroutine observe. The
--   results of Next are a list, so that every prefix of a run is the run on a shorter list. The
--   order after a change is computed modulo 2^64 as the source does.
-- - Routing/Table is the WatchSelector of watch_selector.go with its map of sessions; session gives
--   the table afterwards and the session that it returns.
-- - Routing/Examples holds concrete runs.
--
-- Contracts follows contracts/*.go and the use the ledger of the router makes of them:
-- - Contracts/Event is the lifecycle event of runtime_contracts.go with the tests of
--   runtime_contracts_validation.go on one event or two. The JSON schemas are a parameter.
-- - Contracts/Sequence is RuntimeInvocationSequenceValidator; Append of
--   apps/a2a-router/internal/ledger/store.go replays a history through it.
-- - Contracts/Stream is RuntimeResultStreamSequenceValidator; accept_stream_all calls its Accept on
--   the events of a stream in turn.
-- - Contracts/Trace is orderTraceProjections of store.go. Its loop runs on fuel, as many rounds as
--   there are records: a round that emits none ends the loop, so each other one leaves fewer.
-- - Contracts/Lineage is ValidateTraceResponseV1, ValidateNestedInvocationCorrelation and
--   NegotiateInvocationResultMode. Semantic versions are a parameter.
-- - Contracts/Examples holds concrete histories, streams and traces.
--
-- Nested follows apps/a2a-router/internal/nested:
-- - Nested/Binding is binding.go: NewAgentBinding and Authenticate, on the values of the
--   Authorization header. The map of digests is a list in the order of a range over it. Its child
--   Bearer is about the token of the header, Bound about the map and Identifier about
--   validIdentifier.
-- - Nested/Context is context.go, with lifecycleEvent of apps/a2a-router/internal/api; Lineage, its
--   child, is about the events of a child.
-- - Nested/Examples holds concrete bindings and children.
--
-- ConfigCenter follows config_center:
-- - ConfigCenter/Key is key.go, ConfigCenter/Revision is revision.go; the identity of a scope is a
--   number, and the order of a revision is computed modulo 2^64.
-- - ConfigCenter/Base64 is base64.RawURLEncoding of Go, which file/mapping.go uses, and
--   ConfigCenter/Mapping is file/mapping.go. Keys and file names are lists of bytes.
--
-- Catalog follows apps/control-plane/internal/catalog:
-- - Catalog/Model is model.go with the fields of an Agent Card that the catalog and the workspace
--   decide on. A digest is the list of its bytes.
-- - Catalog/Select is SelectInstallable of service.go with its regular expression. What it calls of
--   Masterminds/semver is the parameter record Semver, and Select/Greatest names what is assumed of
--   its order.
-- - Catalog/Store is postgres/store.go on the tables of agent identities and versions, and
--   Catalog/Releases the same file on releases. Transactions run one after another, each as one
--   step on the tables; what the source's read committed lets pass between them is left out (the
--   transition of a version does not lock the release that it reads). A Boolean argument tells
--   whether all its statements reach the database, and if not, nothing is written. A CHECK or unique constraint of postgres/migrations that fails undoes the transaction
--   too. The unique index on publication sequences is left out, since each comes from the clock.
-- - Catalog/ReleaseService is release.go; the store of trust is the parameter record TrustStore, of
--   which VerifyRelease takes two, for its two reads of a binding.
-- - Releases/Reachable lets owners call the operations of both in any order.
--
-- Workspace follows apps/control-plane/internal/workspace:
-- - Workspace/Model is model.go and policy.go with the records of contracts/contracts.go.
-- - Workspace/Store is postgres/store.go on the tables of workspaces and installations, by the same
--   conventions; Store/Reachable runs any sequence of its transactions, some of which fail. A time
--   is a number of nanoseconds, and what a column keeps of it is the parameter record Timestamps.
-- - Workspace/Eligibility, Authorize and Service are service.go: the tests of releases and
--   permissions, the authorization of an invocation, and the operations of an owner. The catalog is
--   the parameter record CatalogReader, the schema validators are the record Validator. Install
--   reads the tables before its transaction, so it takes both.
-- - ConfigCenter/Examples, Catalog/Examples and Workspace/Examples hold concrete data and runs.
--
-- The workspace installs what the catalog selects, and it authorizes an invocation by what both hold
-- at the time.
--
-- The router admits an invocation by its contract, sends it where Routing says, and records its
-- events in the ledger, which accepts them by Contracts/Sequence.
--
-- sort.Slice is an insertion sort: the comparison used is a strict total order on the elements up to
-- the equality that is refused afterwards, so any sorting routine gives the same list. A uint64
-- order of a revision is an unbounded number. strconv.Itoa prints at most 20 digits, which is enough
-- for a port number that was read by strconv.Atoi.
--
-- Not modelled: error texts, detail responses, the SQL of the ledger, TopologyStatus and the wait of
-- Select in watch_selector.go, the providers for Kubernetes and Nacos, the lists and cursors and
-- Resolve of the workspace, discovery, trust and public shares of the catalog, the reader, watcher and
-- publisher of the configuration, and the parts of the repository outside those named above.
mod Prelude
pub mod Registry
pub mod Routing
pub mod Contracts
pub mod ConfigCenter
pub mod Catalog
pub mod Workspace
pub mod Nested
