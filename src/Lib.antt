-- ===== src/Lib.antt =====
-- AI Coach Keyholder: a model of the program's core, and what holds of it.
--
-- The program is a Discord bot that keeps a user to agreed rules. Its modules share one SQLite file
-- and talk through an outbox: `trust_manager` confirms incidents and keeps a score of trust for
-- each domain; `penalty_engine` consumes confirmed incidents, for which it starts and extends a
-- penalty window that counts down while it is active and stands still while a reason freezes it,
-- and credits completed recovery tasks; `infrastructure` gives both the transaction, the text form
-- of instants, the outbox with its consumers and the startup lease; `lock_state` keeps what the
-- user reported of the lock; `task_runtime` assigns the templates of `task_catalog` to users;
-- `recovery_plan` keeps the plan of a window with its tasks; `goal_management` keeps goals and the
-- proposals that change them; `system` registers what the modules do about each other's events;
-- `advanced_mode` keeps the operating mode and the requests to change it.
--
-- Prelude: tests, integers, and lists as tables, with their lemmas.
-- Infrastructure: `Transaction` is `Database.transaction` and `apply_transition` of
--   infrastructure/database.py, a transaction being a function of the tables that gives a value and
--   the new tables, or an exception; `Keeps` and `Returns` say what follows for its callers.
--   `TimeFormat` has the key by which the tables compare the texts of instants; its `Texts` is `iso` and
--   `parse_iso` of infrastructure/time_format.py on the fields of a date and time, and `Days`, `Order`
--   and `Instants` are the calendar's days and the order of the texts. `Outbox` is infrastructure/outbox.py with `ConsumerRegistry` and
--   `process_pending_events` of infrastructure/consumer_registry.py; the tables of the handlers are a
--   parameter. `StartupLease` is infrastructure/startup_lease.py.
-- PenaltyEngine: `Models`, `Window` and `Extension` are penalty_engine/models.py, window.py and
--   extension.py. `Store` has the tables that `PenaltyEngine` of penalty_engine/repository.py writes,
--   and `Consume`, `Credit`, `Freeze`, `Reconcile` and `Reads` are its methods. `FreezeSet` is the
--   invariant of its windows and freezes, with a file for the methods of each part, `Runs` for any
--   sequence of them, and `Override` for an emergency freeze and its resume. The reads that the engine
--   makes of other modules are records of functions, `TrustReads` and `RecoveryReads`.
-- TrustManager: `Severity` and `Recalculation` are trust_manager/severity.py and recalculation.py;
--   `Store` has the tables of trust_manager/repository.py, and `Domains` and `Incidents` are the methods
--   of its `TrustManager`. The exponential of `compute_confidence` is a parameter, a function of the
--   number of rows of evidence.
-- LockState: lock_state/models.py and repository.py.
-- TaskRuntime: task_runtime/models.py, eligibility.py, selection.py and repository.py. What it reads of
--   task_catalog/repository.py is a record of functions, `CatalogReads`, which `FromCatalog` fills by the
--   catalog's own reads.
-- TaskCatalog: task_catalog/models.py and repository.py: `Texts` is the normalization of a text,
--   `Administration` and `Reads` are the methods of `TaskCatalogAdministration` and `TaskCatalog`, and
--   `Catalogued` is the invariant of their tables.
-- RecoveryPlan: recovery_plan/models.py and repository.py: `Plans`, `Tasks` and `Reads` are the methods of
--   `RecoveryPlanManager`. `Tracked` is the invariant of its tables, `Stable` what later states keep.
-- GoalManagement: goal_management/models.py and repository.py: `Lifecycle`, `Observations`, `Proposals`
--   and `Reads` are the methods of its `GoalManager`. `Governed` is the invariant of its tables.
-- System: the handlers that `build_consumer_registry` of system/startup.py registers, over the tables of
--   all modules and over the events as typed values; `Credit` joins the recovery plan to the engine, whose
--   `RecoveryReads` are filled by the plan's own reads. `Startup` is `on_system_startup`, whose publisher
--   is a parameter, as the events here are typed and those of `Outbox` are rows of text.
-- AdvancedMode: advanced_mode/models.py and repository.py. Whether the penalty engine has a window that
--   is active or frozen is an argument of each method that reads it.
--
-- A text id is a number, in the order of the texts, and a new id is the next number, which no row
-- has, as `uuid4` gives; a text of a template is the list of its code points, and any other text a
-- number. An instant is a number of microseconds. Hours are whole numbers of half microseconds,
-- weights and scores of hundredths and ten-thousandths, in which the constants of the source are
-- exact; the rounding of floats is not modelled, and of an amount that mitigation cuts the part
-- below a unit is dropped. A table is the list of its rows, the newest first; where SQL leaves the
-- order of rows with one key open, the model picks one. A violated constraint is an
-- `integrity_error`, which ends the transaction. The loop of `process_pending_events` has the
-- source's own bound; all other loops run over a list.
--
-- Not modelled: the logging, and the other modules, among them the conversation, the Discord bot,
-- the Chaster client and the plugins.
pub mod Prelude
pub mod Infrastructure
pub mod PenaltyEngine
pub mod AdvancedMode
pub mod LockState
pub mod TrustManager
pub mod TaskRuntime
pub mod RecoveryPlan
pub mod GoalManagement
pub mod TaskCatalog
pub mod System
