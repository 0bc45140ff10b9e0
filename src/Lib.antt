-- ===== src/Lib.antt =====
-- A model of the core of M-Agent, a runtime for agents: the authoritative store of Runs and the
-- scoped sessions above it, translated from the Python sources and proved against what their
-- contracts promise.
--
-- Base (Base.antt and Base/) holds what the modules share: Boolean tests on numbers, Python dicts
-- as association lists in insertion order (Base/Dict), results that may be errors (Base/Fallible)
-- and methods that mutate an object and may raise (Base/Exec: a state goes in, a result and a state
-- come out, and what was written before a raise stays written). Errors.antt names the exception
-- classes of src/m_agent/_errors.py and src/m_agent/companion/_session.py, without their messages.
--
-- Run/Status models src/m_agent/_status.py; Run/Snapshot and Run/Records the records of
-- src/m_agent/_definition.py, _model.py, _tools.py, _run.py, _steps.py, _history.py and _policy.py
-- that the store keeps; Run/Failure src/m_agent/_failure.py; Run/Payload the split of a record into
-- metadata and encoded payloads in src/m_agent/_store.py. Run/Store and the modules below it model
-- InMemoryRunStore of src/m_agent/adapters/_in_memory_store.py: Leases (acquire_lease,
-- release_lease, get_lease, assert_lease, prepare_model_dispatch), Lifecycle (create_run, get_run,
-- transition_run) and Steps (steps, attempts, reservations, checkpoints, policy decisions).
-- Run/Store/Calls makes the mutating methods values, so that any sequence of calls by any clients
-- can be run; the other modules there prove. Run/Resolution models src/m_agent/_resolution.py, with
-- the reasons of src/m_agent/_runner.py. An enumeration stands for its value string, a time is a
-- number of ticks, and a reading of a clock is an argument.
--
-- Session/Model and Session/Store model src/m_agent/companion/_session.py and InMemorySessionStore
-- of src/m_agent/companion/_in_memory_session_store.py; Session/Effect makes its mutating methods
-- values and says what one call can do. A scope is its token, and a cursor cannot be negative.
-- Session/Runner models SessionRunner of src/m_agent/companion/_session_runner.py over that store;
-- what it calls of the Runner is an interface with a state of its own. Before each place where
-- submit awaits the store, other clients may call it (Others); between the awaits of resume and
-- commit_status, nobody does. Eval/Baseline models src/m_agent/companion/eval/_baseline.py;
-- Eval/Regression proves what its answer is worth.
--
-- Control.antt and the modules below it model the control entries of Runner of
-- src/m_agent/_runner.py over that store: Resolve (resolve_run), Cancel (cancel_run, _maybe_cancel)
-- and Start (create_run, start_run, resume_run, get_run, inspect_run). The state of a Runner is the
-- store, the active advancers, the Runs whose cancellation is requested and the updates that it has
-- published. Before every call of the store other clients may make any calls of their own; a
-- Schedule says, for each place of a method where it awaits the store, which ones, with the
-- readings of the clocks there. The tasks of one Runner meet in the store only. What advances a Run
-- is an interface (Services). Tool.antt and the modules below it model one Tool Step,
-- _run_tool_step: Attempt and Pass one attempt, Loop the loop of attempts; the tools and the policy
-- gates are an interface (Tools), and the state counts the calls that are dispatched. Context.antt
-- models the plan, the budget and the sizer of src/m_agent/_context_plan.py, with the check of the
-- Runner before a model request. Routing.antt models src/m_agent/companion/routing/_fallback.py,
-- with the router as a function of a policy. Policy.antt models the gates of policies,
-- _enforce_policy of src/m_agent/_runner.py, with src/m_agent/_policy.py; the digest of a payload
-- is a parameter. Session/Contract says what a store of sessions promises, without records and
-- clocks.
--
-- The payload codec and the JSON text of snapshots and histories are a parameter (Serialization in
-- Run/Payload), which encodes every text; Run/Store/Encoding models the writes of the store over a
-- codec that may refuse texts. The parameter has the documented round trips as laws (IsLossless);
-- Tests/Coding and Tests/Layout give a concrete one that has these laws, and the modules of Tests
-- apply the theorems to concrete Runs and sessions. The bodies of the methods have no await inside,
-- so a sequence of calls is what an event loop can bring about. The fuel of read_pages
-- (Session/Pages) bounds the pages that a reader asks for; as many as there are turns are enough.
-- The fuel of a Tool Step is the number of attempts that its frozen policy allows, and one:
-- enough_fuel of Tool/Loop, proved to be enough in Tool/Step.
--
-- Not modelled: the fields of a definition that no operation of the store reads (model bindings and
-- capabilities, the output contract, the Context Plan, the Compression Contract), the validation of
-- fields by pydantic, Model Steps and Context Steps of src/m_agent/_runner.py with the recovery of
-- a RUNNING Run, telemetry, the aggregation and the compression of contexts, the router with its
-- catalog, evidence and cost, the evaluation engine, and the SQLite stores, whose work is done by
-- SQL text.
pub mod Base
pub mod Errors
pub mod Run
pub mod Session
pub mod Control
pub mod Policy
pub mod Tool
pub mod Context
pub mod Eval
pub mod Routing
pub mod Tests
