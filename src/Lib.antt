-- ===== src/Lib.antt =====
-- Verification of the SyncNesto backend, a FastAPI service for requirements, tasks and approvals.
--
-- A request is served by a function of app/services over repositories of app/repositories, which read
-- and write one SQLAlchemy session. Database models the session: what the transaction sees and what
-- is durable. A handler is an action over a record of the tables that it uses; it returns or raises an
-- error of Errors (app/core/exceptions.py), `request` closes the session as app/db/session.py does, and
-- `begin` is `with sessions.begin()`. Base holds tests, lists, texts and integers.
--
-- The parts, and the files that model them:
--   Task.Model          the tables of app/models/task.py, the lookup of a task, the change log
--   Task.Dependency     app/services/task_dependency.py, app/repositories/task_dependency.py; Graph is
--                       the specification, Cycle is about the search, Acyclic and Requests about
--                       sequences of requests, Accept about a single creation
--   Task.Tables, Task.Input  the tables and the requests of the handlers of tasks
--   Task.Check, Task.Rows    the checks of app/services/task.py in their order, with those of
--                       app/services/task_phase.py and app/services/task_type.py; the rows that
--                       app/repositories/task_item.py writes and the constraints of app/models/task.py
--   Task.Code           task codes; Task.Log the change log, with app/services/change_log_formatter.py
--   Task.Parent         the check of a new parent; Climb is about its loop, Rooted about the chains of
--                       parents through live tasks
--   Task.Item           the handlers of app/services/task.py, and `move_task` of
--                       app/services/task_board.py; Relation and Progress are about requirements, Step
--                       states what a handler does to the rows, Served is about sequences of requests,
--                       Outcome, Reason and Planning about one update, Fresh about new codes and their
--                       read-back
--   Auth.LoginAttempt   app/services/login_attempt.py, app/repositories/login_attempt.py; Refines has
--                       the specification of one email
--   Auth.Demo           revoke, cleanup and _cleanup of app/services/demo.py, as far as sessions depend
--                       on them
--   Auth.Mfa            login, flow and verify_code of app/services/mfa.py for the purpose `login`,
--                       app/repositories/mfa.py; Login has the requests, Login.Step what a match
--                       is, Login.Requests histories, Login.Once and Login.Recovery one use
--   Auth.Session        app/services/session.py, app/repositories/session.py; Valid is about one
--                       validation, Kept about what every operation keeps, History and Revoked about
--                       histories
--   Limit               app/services/request_limit.py, app/repositories/request_limit.py; Window is
--                       about one consumption, Budget about sequences of them, Mfa about the budget of
--                       the second factor
--   Mail                app/services/notification_email_delivery.py, app/models/notification_email.py;
--                       Delivery holds the steps on one delivery, Worker `deliver`, `run_once` and
--                       `resolve`; Invariant, Attempts and Sends are about histories, Sends.Bound
--                       about the calls of the transport, Keyed and Settled about what a run
--                       leaves alone, Live about mails that are due
--   Requirement.Model   the tables that approvals use, from app/models/requirement.py
--   Requirement.Approval  app/services/requirement_approval.py, app/repositories/requirement_approval.py
--                       and the trigger of alembic/versions/c9e3f6a1d547_add_fixed_approvals.py;
--                       Outcome is about one decision, Once about histories
--   Tests               runs on concrete tables
-- Sessions call the demos that they belong to; the other parts share only the session of the
-- database and the errors.
--
-- Names are those of the source; a method of a service has the name of the method, without a leading
-- underscore. Identifiers are natural numbers, times are microseconds (seconds in Limit), and every
-- reading of a clock is an argument. A table is a list of records in the order of the primary keys;
-- a unique constraint that a handler catches is written out as a test. Emails and keys are texts,
-- which are lists of code points, since the code normalizes them. `str.lower` and the HMAC are
-- parameters. Histories are sequential: one request after another. The worker holds its advisory lock, budgets are
-- upserts and the second factor locks its user, but approvals, dependencies and failed logins take no
-- lock in the source, and interleavings of two such requests are not modelled.
--
-- The loop of `_creates_cycle` runs on fuel: the number of rows and two more rounds, which are enough
-- since a task is expanded once and every row puts one task on the stack. The loop of
-- `_creates_parent_cycle` runs on one round for each task and one more, since it visits no task twice.
-- The digits of a number run on the number and one more. All other recursion is structural.
--
-- Not modelled: the signing of tokens and the cookies, the start of demos and the business data other
-- than sessions that a cleanup deletes, several readings of the clock within one cleanup, the reading
-- of the eligibility of mails, their rendering, the SMTP transport and the receipts (answers of the
-- surroundings of the worker), failures of the database inside `finish`, the free text of a
-- resolution, the created and updated times of rows, the bodies of version conflicts, the choice of the recipients of
-- notifications and the lock of a demo in a task's update, sizes of columns, the restore of deleted
-- tasks (app/services/trash.py), the enrollment, passkeys, reauthentication and recovery requests of
-- the second factor and the refusal of review accounts there, and the services that are not listed
-- above. Routers, schemas and presenters are glue around the services.
pub mod Base
pub mod Errors
pub mod Database
pub mod Auth
pub mod Limit
pub mod Mail
pub mod Task
pub mod Requirement
mod Tests
