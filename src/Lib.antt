-- ===== src/Lib.antt =====
-- CodeNaut: the parts of the backend that decide what is indexed, when, and what is served.
--
-- The backend (backend/app) indexes GitHub repositories in the background and answers questions
-- about them with cited evidence. PostgreSQL is the truth about jobs and index builds; workers take
-- job ids from a Redis stream, claim the job in PostgreSQL, clone, parse, chunk, embed, and then
-- switch the repository to the new index version in one transaction.
--
-- Prelude: lists, Boolean tests, and a table as the list of its rows with SELECT, UPDATE … WHERE
-- and DELETE … WHERE (Table), row-by-row comparison of two versions of a table (Pairwise),
-- counting (Counting), lists whose elements are related to all later ones (Ordered) and a sort by a
-- key (Sorting), and what a SELECT finds after an update (Selecting).
--
-- Jobs: backend/app/services/indexing_jobs.py over the tables of backend/app/db/models. Model has
-- the rows (the columns that the store reads or writes), Rows the WHERE conditions, and Claim,
-- Access, Lease, Retry, Prepare, Graph, Vectors, Activate and Cleanup the methods of
-- IndexingJobStore, under their names. A method is one transaction and is modelled as a function on
-- the tables; a method that raises leaves them as they were, since the session closes without a
-- commit. Invariant and Index hold the two invariants and the proof that each method keeps them,
-- Trace any interleaving of methods as a list of operations, and Exclusion, Recovery, Switch and Due
-- the behaviour of single methods. UUIDs and times (milliseconds) are numbers; the time,
-- secrets.randbelow, the UUIDv5 symbol ids, the ORDER BY of the database and SHA-256 are arguments. The
-- unique indexes on running jobs and on active builds refuse a flush; that on the versions of
-- builds is part of the invariant, since the methods look a build up before they insert it; those on
-- symbols and edges are not modelled, so a repeated symbol does not make prepare_build raise.
--
-- Rag: backend/app/rag/evidence.py. Model has the records, Evidence the selection of evidence from
-- the hits of the vector store, Citations the check of a drafted answer's citations; Selection and
-- Ranking hold the proofs on the loop, Promise and Grounding the contracts. The sort is an insertion
-- sort by the source's key, the regular expression an automaton, the counters of files a function.
-- The number itself is the fuel of its decimal digits. A score is a number with the float's order.
--
-- Freshness: backend/app/indexing/freshness.py. Plan has the comparison, the path check, the
-- classification of changed files and plan_refresh; Classified and Defensible hold the proofs. A
-- ValueError is none, a frozenset a list that is read by membership, a Counter a function. A path is
-- split into parts as PurePosixPath splits it.
--
-- RateLimit: backend/app/services/rate_limit.py. Limiter has the two limiters over the Redis
-- transaction as an argument, Quota what they promise where Redis counts as documented.
--
-- Chunking: _pack_ranges, _split_lines and _line_slice of backend/app/indexing/chunking.py. Lines has
-- the loops (the split counts the lines that are left), Tiling and Packing the proofs.
--
-- Sessions: the refresh tokens, OAuth states and access tokens of backend/app/services/auth.py and
-- backend/app/auth/tokens.py. Tokens and OAuth have the methods, with the unique indexes as failing
-- INSERTs; Steps the requests as a relation between tables, in which a sign-in draws the UUID of a
-- family that no row has; Refines their specification, Families, Replay, Reuse, Moves and Once the
-- proofs; Access the access tokens with the arguments that jwt.decode is given. The keyed digest, the
-- drawn tokens, jwt.encode and jwt.decode are arguments.
--
-- Agent: backend/app/agent/service.py. Model has the contracts of backend/app/agent/models.py, Index
-- _load_active_index and _no_answer, State and Loop one turn of the loop of _run with _finalize and
-- _refresh_authorization, Run the loop and answer; Cases has the exits of a turn and the rule of the
-- loop, Whole the same for answer, and Cited, Grounded, Traces and Bounds the proofs. The provider, the
-- tools, the authorization and the index builds are functions of a world that each call may change;
-- an InstallationAccessError, of the authorization or of a tool, is an end of its own, the total timeout
-- an argument. The fuel is one more than the allowed number of tool calls, since each turn that goes on
-- adds a step to the trace.
--
-- Webhooks: backend/app/services/webhooks.py over the tables of the job store. Model has the request and
-- GitHub's payload, Validate the checks before the tables are read, Push and Access the events under
-- their names, Handle the transaction of a delivery and the hand-over to the queue; Frame, Events and Ends
-- hold what an event may change and the ends of a request, Once, Jobs, Sound, Queued and Revoked the
-- proofs. The HMAC, the media type of a header, the parser of a body and the ids of new rows are
-- arguments; a request that raises leaves the tables as they were. The unique indexes on a repository's
-- GitHub id and full name in its installation refuse the commit of rows that break them.
--
-- CallGraph: backend/app/indexing/call_graph.py. Names has Python's operations on dotted names, Resolve
-- the resolution of a call under the names of PythonCallGraphBuilder, Build the loop over the call sites;
-- Held and Counts hold the proofs, and Fuel is about the fuel of the loop of _local_candidates, the
-- length of the caller's name: each turn makes the name shorter. The dicts of _group are filters of the symbols. UUIDv5,
-- SHA-256, the order of the sort key, isidentifier and the stem of a path are arguments.
--
-- Not modelled: HTTP routing, settings and response schemas (no logic of their own); git, Redis,
-- Qdrant, the language model and GitHub (external); the tools of the agent, the other parts of
-- chunking, the parser (a walk over tree-sitter nodes), installations, identities and the worker's
-- loop.
--
pub mod Prelude
pub mod Jobs
pub mod Rag
pub mod Freshness
pub mod RateLimit
pub mod Chunking
pub mod Sessions
pub mod Webhooks
pub mod CallGraph
pub mod Agent
