-- ===== src/Lib.antt =====
-- The core of the code intelligence platform: who may do what in a project, how indexing jobs are
-- run by workers and cleaned up after them, and how events reach the connected clients.
--
-- The parts, from the bottom up:
--
--   Domain (backend-api/internal/domain): AppError with its constructors, the Go errors that are told
--   apart, and the roles of members, platform admins and API keys. A service returns a Result.
--
--   Postgres (backend-api/internal/storage/postgres): WithTx over a callback that reads and changes
--   tables. PostgreSQL is not this program's code: a Server says which calls fail in which attempt. A
--   query is its effect on the tables or the server's error; a transaction that did not commit, or
--   whose commit reported an error, left the tables as they were. Transactions are serialised, which
--   the services get by locking the rows they decide on. The nil checks of an unopened pool are left out.
--
--   Membership (backend-api/internal/membership/service.go and the queries of
--   datastore/postgres/sqlc/auth.sql.go): Rows has the tables and queries, Service the operations
--   UpdateRole, Add and Remove, Steps what their callbacks did, Counts the owners, Owners sequences of
--   requests, Guards the permissions.
--
--   ApiKeys (backend-api/internal/apikey/service.go, datastore/postgres/sqlc/api_keys.sql.go): project
--   and personal keys, created and deleted in transactions. The random generator, SHA-256, the UUID
--   parser, the clock and generated ids are the record Env.
--
--   Access (backend-api/internal/middleware/projectrole.go, and the view api_key_project_access of
--   datastore/postgres/migrations/000001_init.up.sql): what RequireProjectRole lets pass.
--
--   Jobs (datastore/postgres/sqlc/indexing.sql.go, backend-worker/internal/repository/job.go, and
--   ActivateSnapshotTx of backend-worker/internal/indexing/pipeline.go): Table has indexing_jobs and its
--   queries, Repository a worker's operations, Snapshots index_snapshots. Lifecycle and Once run any
--   interleaving of the operations of the API, the workers and the reapers. Of the API's HandleIndex
--   (backend-api/internal/handler/project.go) these are the INSERT of a job and the update that fails a
--   job whose enqueueing returned an error.
--
--   Worker (backend-worker/internal/registry, queue, reaper): Registry is the state under the mutex and
--   the heartbeat made of it, Consumer the bracket around a task's handler, Heartbeat what readers of
--   Redis see, Reaper one cycle over stale jobs and building snapshots. Redis and the JSON codec are
--   replies in a record Outside. The SCAN loop has the source's own bound of 1000 rounds, after which
--   it answers as the source does, so that it needs no fuel.
--
--   JobHealth (backend-api/internal/jobhealth/checker.go): the check of a running job on a read;
--   Agreement compares it with a reap cycle, Late lets it come after the worker's completion.
--
--   Sse (backend-api/internal/sse): the hub of the connected clients, with each method one step, and
--   the routing of the subscriber's messages.
--
--   Parser (backend-worker/internal/parser): Batch has the batches of files (batch.go; the byte length
--   is a parameter), Registry the tables from a file's name to its language (registry/registry.go).
--
--   Workflow (backend-worker/internal/workflow/fullindex and incremental, internal/indexing/pipeline.go,
--   and the diff of internal/gitclient): Bytes has strings as lists of bytes, with utf8.Valid; Split the
--   chunks that are cut to size; Scope the files that an incremental run covers; Files the reading of
--   the source files and their division; Steps the state of a run and calls in sequence; Pipeline the
--   storage pipeline; Run the two pipelines of the workflows, Handle the handler around them. The
--   splitting loops run on fuel and have no result when it is used up, as the source's loops go on for
--   ever where no cut is found; a fuel of the text's length is enough for valid UTF-8. The loop over
--   the batches of points takes as many rounds as there are points. Imports (internal/indexing/resolve.go)
--   has the targets of imports, over the functions of path, sort and strings in a record PathLibrary;
--   Embedding (internal/embedding/client.go) the batches of texts, in as many rounds as there are texts.
--
--   Base has the shared names, lists and dictionaries; Examples applies the theorems.
--
-- Conventions: a valid UUID is its canonical text, so that parsing and printing it is the identity;
-- generated ids are arguments; timestamps are numbers; columns that no rule reads are left out; the
-- values of the column status are a data type. Go maps are association lists with an entry replaced
-- in place. A query's failure is an answer that may be any error. An upsert of Qdrant puts a point in
-- the place of the one with its id, or adds it. The other loops are structural recursion, and WithTx recursion on the retries left.
--
-- Not modelled: the handlers and the wiring, logging, metrics and configuration (I/O); the git, ssh and
-- workspace code (processes and files); the parser's extractors (they walk syntax trees of a
-- third-party library); commit indexing and what the artifact writer and
-- copy-forward insert below a file's row; the HTTP requests to the embedding model and the vector
-- database; the back office, which is TypeScript.
pub mod Base
pub mod Domain
pub mod Postgres
pub mod Membership
pub mod Access
pub mod ApiKeys
pub mod Jobs
pub mod Worker
pub mod JobHealth
pub mod Sse
pub mod Parser
pub mod Workflow
pub mod Examples
