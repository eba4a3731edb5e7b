-- ===== src/Lib.antt =====
-- A model of kg-os, the program `kgosd` written in Go, which keeps a programmable knowledge graph
-- in a SQLite database with the Lithograph extension, and which serves it over HTTP and MCP.
--
-- Parts of the program, and how they interact. A client sends an Object Patch, a Git diff over the
-- canonical texts of objects. The kernel (internal/kernel) parses it, finds each object by its Ref,
-- applies the hunks to the object's canonical text, plans the change and executes it in an explicit
-- transaction of the Lithograph host (internal/lithograph). What goes wrong anywhere is given a
-- public form and a status by the kernel's errors. The daemon (internal/daemon) serves the kernel
-- and lets in those that hold the access token, or a token of a browser session. MCP clients come
-- in with access tokens of the OAuth broker (internal/mcpserver). One process owns an instance
-- directory: the runtime profile (internal/runtimeprofile) keeps its lock and the place where it
-- listens.
--
-- Files and sources.
-- Common and its children: byte strings, lists over the native numbers, UTF-8, decimal numbers,
--   results with errors, and maps with text keys (Table).
-- Kernel/Errors: internal/kernel/errors.go and the categories of internal/lithograph/errors.go.
--   `GoError` is a chain of wrapped errors, `as_public_error` is AsPublicError, `write_json_error`
--   is WriteJSONError.
-- Kernel/Refs: internal/kernel/refs.go. `parse_object_ref`, `parse_ontology_ref`,
--   `parse_new_object_target` and `parse_new_target` are the functions of those names; the texts
--   are written by `object_string` and `ontology_string`.
-- Kernel/Patch: internal/kernel/patch_parser.go. Text has documentLines, Hunks has applyExactHunks,
--   Tokens has splitGitTokens and the paths, Header has the regular expression of a hunk's header,
--   Parser has parsePatchHunk and the classification of an entry, Document has parseGitPatch.
-- Kernel/Model: internal/kernel/model.go, from `normalizeDomain` to `validatePublicName`, with the
--   type unions of internal/kernel/snapshot.go. Types has splitTopLevelTypeUnion and
--   normalizePropertyNullability, Members has the constraints and indexes, Definitions has
--   normalizeDefinition; the others have the proofs, by stage: Typed, Local, Filled, Ready, Canonical,
--   Resources and Normalized.
-- Kernel/Maintenance: internal/kernel/patch_conflict.go; `Plan` is what it reads of a plannedState.
--   Endpoints has applyEndpointTransitions of internal/kernel/patch_plan.go.
-- Lithograph/Transactions: internal/lithograph/transaction.go and write_connection.go, with
--   registerTransaction, unregisterTransaction, operationContext and Close of host.go. `State` is a
--   Transaction with its host's closed flag, its registration, and where connections went.
-- Daemon/WebSessions: internal/daemon/web_sessions.go. `Store` is webSessionStore, its file
--   included.
-- RuntimeProfile/InstanceLock: internal/runtimeprofile/lock.go. `Lock` is InstanceLock with the file
--   kgosd.lock; Inspection has InspectDaemon and ReadActiveEndpoint.
-- Observability/Rotation: internal/observability/rotation.go. `Writer` is RotatingWriter with the
--   files of its directory.
-- McpServer/OAuth: internal/mcpserver/oauth.go and oauth_flow.go. `Broker` is oauthBroker; Forms has
--   the checks of what clients send, Flow has beginAuthorization, authorizationDetails and
--   finishAuthorization, Grants has issueToken and principal.
-- Tests: the theorems at concrete inputs, and runs of the code.
--
-- How the code is modelled. A Go string is the list of its bytes. An error is its code where only
-- the code decides what a client sees; its message is left out there. What the operating system,
-- the database, the clock and the random source answer is an argument of each call. A mutex is held
-- through the whole of each method that takes it, so that calls follow one another. Fields and
-- statements that only log or measure are left out. In `restore` the first two readings of the
-- clock are one. In the OAuth broker an authorization request has two parts, before and behind the
-- fetch of the client's document, and other calls may come between them; each call has two readings
-- of the clock. A Go map is a list of its entries. `strings.ToUpper` is modelled as far as it shows
-- in a comparison with an ASCII text.
--
-- Parameters. `strconv.Unquote`, the hashes and the encodings of the session store and the OAuth
-- broker, and the URL and address parsers of the broker and the instance lock are arguments; what
-- is assumed of them is a hypothesis of the theorem that needs it. `encoding/json` is an argument
-- for the file of the instance lock, which is its bytes; it is assumed to read back a locator only
-- where its texts are valid UTF-8, since it changes others. The file of the session store, a form
-- and the JSON body of a request are represented by what decoding them gives.
--
-- Fuel. The loops of the patch parser take at least one line or byte in each round; each has one
-- round more than there are lines or bytes, which is enough, since a round with nothing left ends
-- the loop. All other loops are structural.
--
-- What is not modelled. Planning patches beyond rename maintenance and their execution, snapshots
-- and their canonical texts, Knowledge Nodes and Relationships with their property values, reading,
-- and the evolution of branches with its diffs and merges; the host's opening, its statements and
-- its merges; the daemon's routes; the tools of the MCP server and its sandbox; configuration and
-- distribution archives; the command line. The web pages, the TypeScript packages, the plugins and
-- the native library are outside of the program modelled here.
mod Common
pub mod Kernel
pub mod Lithograph
pub mod Daemon
pub mod RuntimeProfile
pub mod Observability
pub mod McpServer
mod Tests
