-- ===== src/Lib.antt =====
-- poc-la-graph: the project registry and the PL/SQL dependency analysis of the API service.
--
-- The service (apps/api/app) keeps knowledge projects: who may see and change them, the documents
-- uploaded into their drafts, and the builds that turn a sealed draft into an active snapshot.
-- Beside it stands a read-only analysis of PL/SQL sources, which answers questions on the
-- dependencies between database objects; documents are divided into chunks for the knowledge base,
-- and conversations are kept in a store. The parts that are modelled:
--
-- * The project registry, apps/api/app/projects/repository.py (`ProjectRepository`). The database
--   is a record of tables (Projects/Rows.antt), each a list of rows in the order of insertion. A
--   transaction is a function from the database to a result: an exception carries no database,
--   since `self._sessions.begin()` rolls back (Projects/Session/Monad.antt). A method that runs
--   several transactions one after the other is a `Call`, which keeps what was committed.
--   Projects/Session.antt has the statements all methods share, Projects/Access.antt the decisions
--   and memberships, Projects/Requests.antt the access requests, Projects/Registry.antt the life of
--   a project from its creation to its purge, Projects/Listing.antt the projects a caller is shown,
--   Projects/Uploads.antt (with Projects/Uploads/Finalization.antt) and Projects/Files.antt the
--   upload sessions and draft files, Projects/Builds.antt and Projects/Builds/Completion.antt the
--   build queue. The definitions have the names of the methods.
-- * The worker that runs the builds, apps/api/app/projects/worker.py: its recovery and
--   its loop (Projects/Worker.antt) with the codes of its failures (Projects/ErrorCode.antt). The build
--   itself, which works on files and calls the graph tool, is a parameter: the phases it reports
--   and how it ends.
-- * The PL/SQL analysis over a fixed corpus, apps/api/app/integrations/plsql/synthetic.py
--   (`SyntheticPlsqlAnalysisClient`), with its records (Plsql/Models.antt), the single-hop queries
--   (Plsql/Client.antt), path search (Plsql/Paths.antt), impact (Plsql/Impact.antt,
--   Plsql/Report.antt) and the cursors of apps/api/app/api/routes/plsql/router.py
--   (Plsql/Pages.antt).
--
-- * The chunking of documents for the knowledge base, apps/api/app/knowledge/chunking.py, with the
--   profiles of apps/api/app/knowledge/profiles.py. Knowledge/Text.antt and Knowledge/Patterns.antt
--   have the methods of `str` and the regular expressions that the code uses,
--   Knowledge/Profiles.antt the profiles and their validation, Knowledge/Chunking.antt the token
--   windows and the ranges, Knowledge/Chunking/Structure.antt the structural blocks and
--   Knowledge/Chunking/Build.antt the chunks. The tokenizer is a record of its special
--   tokens and its two methods (`Encoding`). `encode` raises a `ValueError` for a text that contains a
--   special token (`has_special`); what the tokenizer documents of other texts is the hypothesis
--   `IsEncoding`. The tables of Unicode (`Characters`), the digest (`Naming`) and the answer of
--   `PurePosixPath.match` for a pattern that is not empty are parameters too. Where the chunking
--   raises, the result is `none`; a selection of a profile says which error it raises (`Selection`).
-- * The stores of conversations, apps/api/app/store/conversations.py (`InMemoryConversationStore`,
--   Store/Memory.antt) and apps/api/app/store/sqlalchemy.py (`SQLAlchemyConversationStore`,
--   Store/Sql.antt over the tables of Store/Tables.antt), with the requests and answers of apps/api/app/store/protocol.py
--   (Store/Models.antt). The lock of the one and the transactions of the other make each method one
--   step; a method that raises returns the state as it was. Store/Refinement relates their states,
--   Store/Held.antt and Store/Exclusion.antt follow a lease through calls,
--   and Store/Pages.antt has a client that follows the cursors of a listing (Store/Pages/Client.antt).
--
-- Conventions. Identifiers, subjects, tenants, keys, names and checksums are natural numbers where
-- the code only compares or sorts them, and texts otherwise. `uuid4` draws from a supply that the
-- database carries, so that identifiers are fresh, which is what the code relies on. Times are
-- seconds; the clock is an argument of every method that reads it, and a retention that the code
-- subtracts from now is added to the other side of the comparison. Unique constraints are checked
-- at the insertion, and a clash is the `IntegrityError` of the database. Foreign keys that cascade
-- are written out in `delete_project`.
--
-- The two searches are recursive functions of the code bounded by `len(trail) >= bounded_hops`;
-- here they recurse on the hops that are left, which is the same bound, so that no fuel is added.
-- The clients that follow cursors (`follow`, `follow_cursors`) have fuel: one more than there are
-- results is enough, and the theorems on them say so. `range` has fuel for as many numbers as there
-- are tokens, each at least one after the one before it, and `decimal` for more digits than the number
-- needs, since each division by ten makes it smaller.
--
-- Left out: the listings that only select and sort rows (`list_tenant_projects`, `list_memberships`,
-- `list_access_requests`, `access_activity`), the engine's own life
-- (`initialize`, `close`), the order in which selected rows are listed, caseless search and the
-- reading of source files in the analysis, the text of cursors, the fingerprint of profiles, and the
-- other packages of the service: the knowledge ingestion, the agent and the clients, which call
-- files, databases, remote tools and a language model at almost every step, and the routes, which
-- convert their requests and answers.
pub mod Base
pub mod Knowledge
pub mod Plsql
pub mod Projects
pub mod Store
