-- ===== src/Lib.antt =====
-- pairdbase lets the members of a workspace query databases of seven kinds through one server. This
-- library models the parts of the server that decide what is run, for whom and with what result,
-- and proves what they promise.
--
-- The parts and how they interact. A user opens a query session on a connection
-- (QueryUseCases::open_session), which takes the connection from the connection store, builds a
-- pool of the database's client once, and enters the session into the SessionRegistry. To execute a
-- query (QueryUseCases::execute) the server looks for a session of the user on the connection that
-- has not expired, loads the user's permission on the connection, and asks the guard
-- (guard::evaluate) for a verdict. A rejected query is written to the history and answered as
-- rejected. An approved one goes to the executor (QueryExecutor::run), which picks the driver of
-- the pool and limits rows and time; the session is renewed, the result is written to the history
-- and turned into a sequence of events. Who a user is, passwords and the accounts of OAuth
-- providers tell; from then on refresh tokens are exchanged (AuthUseCases). Who may use a workspace
-- at all its owner and its admins decide (WorkspaceUseCases), as do those of an organization for
-- its members, who also join by invitations (OrgUseCases). What is to be mailed waits as an event
-- in the outbox, from which a worker takes it in batches. A connection's database is one of seven
-- kinds, and where its driver cares what a server can do it reads the server's version.
--
-- The files, and the code that each is about:
--   Common          Boolean tests, lists, maps as association lists, results and machine integers
--                   over the native numbers
--   Text            texts as lists of code points, with what the code uses of `str`; the Unicode
--                   case mappings are a parameter with the laws that ASCII gives it
--   Connections     crates/app/src/features/connections
--     Domain        domain.rs: DbType, SslMode and their conversions; connection_error.rs
--     Names         theorems about their names
--     Vault         vault.rs: encryption of stored passwords; theorems in Encryption
--     Rows          domain.rs, repository.rs: connections, their rows and views; map_connection
--     Repository    repository.rs: the calls on the table of connections (find_connection,
--                   insert_connection, save_connection, remove_connection), with the checks of
--                   migrations/20260907120223_create_db_connections.sql; the Store of all that is kept
--     UseCases      use_cases.rs, one function per use case (create_connection and so on), and pool.rs:
--                   DriverRegistry, and SchemaCache as cache_get, cache_set and cache_del
--     Requests      handler.rs: what a handler does besides calling a use case; all requests as one
--                   data type, with the store that each leaves
--     Storage, Creation, Unreadable, Removal, Schemas, Secrets   theorems on these
--     Versions      drivers/versions.rs: ServerVersion::parse and at_least, and in Capabilities and Own
--                   one function per table of capabilities; theorems in Parsing and Upgrade
--     Examples      concrete inputs for the theorems
--   Query           crates/app/src/features/query
--     Domain        domain.rs, error.rs: requests, events, verdicts, records of the history
--     Guard         guard.rs: evaluate with its stages check_permission, check_unbounded_mutation and
--                   check_injection; theorems in Approval and Injection
--     Session       session.rs: SessionRegistry and ConnectionRegistry, one function per method;
--                   theorems in Invariant, Lookup and Expiry
--     Executor      executor.rs: run, dispatch and the seven run_ functions, of which those for
--                   PostgreSQL, MySQL and SQLite are one, run_sqlx; theorems in Limits
--     Pools         pool.rs: build_execution_pool and its seven builders (build_kind), with the
--                   addresses of the databases
--     Repository    repository.rs: get_permission and save_history over lists of rows
--     UseCase       use_case.rs: open_session, close_session, execute, list_sessions. `execute` is
--                   cut where the code returns early: execute looks for the session, execute_in checks
--                   it again and loads the permission, judged follows the verdict, report turns the
--                   result into a record and events, finish stores the record. hand_over is the call of
--                   the executor, and `sent` of World keeps the queries that were given to it.
--                   Theorems in Cases (a rule by the ways in which an execution ends), Access, Audit, Batches, Opening
--     Examples      concrete inputs for the theorems
--   Workspace       crates/app/src/features/workspace
--     Domain        domain.rs, error.rs: MemberRole and its permissions, WorkspaceError
--     Repository    repository.rs: the calls on the table of members; update_member_role is
--                   set_member_role and remove_member is delete_member there
--     Members       use_case.rs: the checks and changes of update_member_role (update_checks,
--                   change_role), remove_member and invite_member (invite_checks, admit_member);
--                   theorems in Table, Authority and Ownership
--     Settings      use_case.rs, repository.rs: create, get, update and delete (create_workspace and
--                   so on) as Actions on the two tables; theorems in Lifecycle
--     Announcement  use_case.rs, repository.rs: the e-mail to a new member, with a theorem on it
--     Examples      concrete inputs for the theorems
--   Authentication  crates/app/src/features/auth: use_cases.rs, repository.rs, tokens.rs. register is
--                   register_user; login has its checks in check_login, refresh its changes in rotate
--     Database      domains.rs, auth_error.rs, tokens.rs: what is kept, read and issued
--     Oauth         oauth_login_or_register, cut into the ways to the user (known_account,
--                   linked_user), and consume_oauth_state
--     Sessions, Rotation, Linking   theorems on refresh tokens, passwords and accounts
--     Examples      concrete inputs for the theorems
--   Organization    crates/app/src/features/organization
--     Domain        domain.rs, error.rs: plans, roles, OrgError; slugify of use_case.rs
--     Rows          domain.rs: the rows of the tables, and what is read from them
--     Database      the tables, and the environment of a request
--     Repository    repository.rs, in Members, Organizations and Invitations: create_invitation,
--                   accept_invitation (accept_row, with acceptance in the transaction) and so on, with
--                   the constraints of migrations/20260921150144_create_tbl_organization.sql
--     UseCases      use_case.rs, in UseCases, Members and Invitations: one function per use case, its
--                   checks a function of their own (role_checks, removal_checks, invitation_checks)
--     Requests      all use cases as one data type, with the tables that each leaves
--     Reading, Writes   which calls only read, and the changes that each request makes
--     Roles         the abstract table of roles with its steps; in Table and Refinement the theorems
--     Invitations, Credits, Removal, Answers, Slug   theorems on these
--     Examples      concrete inputs for the theorems
--   Outbox          crates/app/src/services/outbox: worker.rs (process_batch and the changes of a
--                   row), publisher.rs (publish); theorems in Claims, Attempts, Settling and
--                   Tries
--     Events        events.rs, and dispatch of worker.rs: send_event gives the error of the e-mail, and
--                   dispatch_event its text; theorems in Mails
--     Examples      concrete inputs for the theorems
--   Email           crates/app/src/services/email
--     Renderer      renderer.rs: render; theorems in Replacing and Rendering
--     Types         types.rs, and EmailConfig of crates/app/src/config.rs
--     Service       mod.rs: new is new_service, and send is deliver
--     Messages      mod.rs: the seven send_ functions
--     Clients       provider.rs: the crates lettre and reqwest as a record, what they are given
--     Providers     provider.rs: the four providers as one data type, sent with by provider_send;
--                   theorems in Delivery
--     Examples      concrete inputs for the theorems
--
-- How state and effects are modelled. Uuids are numbers, and a time counts nanoseconds (seconds in
-- the outbox). A DashMap is an association list. A function that changes state takes the state and
-- returns the next one; the error of a call is a value of Result. The clock, fresh ids and faults
-- of the database are arguments: for an execution they are the record Readings. Events sent on the
-- broadcast channel are kept in a list. What sending an e-mail changes outside is a state of
-- any type, which a Mailer takes and returns.
-- In Organization, Authentication, Connections and Workspace.Settings a method is an Action: it also
-- leaves a state where it fails, as the rows that a statement wrote
-- stay where a later one fails; the error of each call of the database, its clock and the errors of
-- reading rows are the record Environment, in Authentication Outside, in Connections Surroundings, in
-- which the calls of a
-- use case are numbered in their order. A call is one step on the state: what two calls do to each
-- other at an await is not modelled. A database's client library is the record Drivers, a function
-- from a call to its answer. The parser of SQL, the SHA-256 digest, Argon2, AES-256-GCM, the signature
-- of access
-- tokens, random tokens, the Unicode tables, and the crates by which e-mails leave are parameters too.
--
-- Bounds. Widths of integers stand where the code converts or adds: `as u64` of the milliseconds of
-- an execution is taken modulo 2 ^ 64, `as i64` is a conversion to the integers, and the sum of the
-- counts of rows of SQL Server is taken modulo 2 ^ 64. The delay of an event of the outbox is 2 ^
-- attempts minutes, with fewer than five attempts. The percentage in the warning of a plan's limit is
-- counted in 64 bits, as in a release build. `slice::chunks` recurs on fuel, for which the
-- length of the list is enough, since each chunk holds an element.
--
-- Not modelled: the conversion of a cell of a row to JSON and the types of its column (a parameter),
-- the routes and the handlers other than those of connections, the drivers that read schemas, and
-- the HTML of the templates; of authentication, store_oauth_state, whose insertion the schema refuses,
-- and register_new_oauth_user, which nothing calls; of workspaces, the listings, and the member
-- that a change answers.
pub mod Common
pub mod Text
pub mod Connections
pub mod Query
pub mod Workspace
pub mod Email
pub mod Outbox
pub mod Organization
pub mod Authentication
