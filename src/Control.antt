-- ===== src/Control.antt =====
-- The control entries of `Runner` (m_agent/_runner.py) over the store of Runs in memory: the state
-- of a Runner and the helpers that its entries share. Before each call of the store, an await, other
-- clients may call the store too.
pub mod Cancel
pub mod Resolve
pub mod Start
pub mod Checks
pub mod Versions
pub mod Cancelled
pub mod Calm
pub mod Ends
pub mod Resolved
pub mod Running
pub mod Advancers
use m_agent.Base.{
  ℕ, ◌+◌, String, Bool, true, false, Option, none, some, List, [], ◌∷◌, ◌++◌, ◌||◌, not, ◌==◌,
  ◌==ℕ◌, String_eq, Result, ok, err, if◌then◌else◌,
}
use m_agent.Base.Exec.{Exec, ◌>>=◌, ◌>>◌, pure, gets, or_raise, modify}
use m_agent.Errors.{Error, run_not_found, stale_run_version, lease_not_held}
use m_agent.Run.Status.{RunStatus}
use m_agent.Run.Snapshot.{DefinitionSnapshot}
use m_agent.Run.Records.{RunRecord, StepType}
use m_agent.Run.Payload.{Serialization}
use m_agent.Run.Resolution.{RunResolution}
use m_agent.Run.Store.{RunStore}
use m_agent.Run.Store.Leases.{RunLease, release_lease}
use m_agent.Run.Store.Lifecycle.{Transition, get_run, transition_run}
use m_agent.Run.Store.Calls.{Call, perform_all}

-- `RunUpdate`, which the subscribers of the Run get: of the types STATUS_CHANGED, STEP_STARTED,
-- ATTEMPT_FAILED and STEP_COMPLETED, each with the fields that it sets (the Run, the step, the
-- attempt). The text of a MODEL_DELTA is no part of the model.
pub data RunUpdate : Type 0 where
  status_changed : String → RunStatus → RunUpdate
  step_started : String → String → String → StepType → RunUpdate
  attempt_failed : String → String → String → StepType → RunUpdate
  step_completed : String → String → String → StepType → RunUpdate

-- What a Runner mutates. `cancel_events` are the Runs whose event is set; `updates` are those
-- that have been published, in their order.
pub record RunnerState : Type 0 where
  pub store : RunStore
  pub active_advancers : List String
  pub cancel_events : List String
  pub updates : List RunUpdate

abbrev pub Action : Type 0 → Type 0
Action A = Exec Error RunnerState A

-- What other clients call before a call of the store, and the readings of the clocks there.
pub record Moment : Type 0 where
  pub others : List Call
  pub now : ℕ
  pub updated_at : ℕ

-- The moments of a method's awaits, by their place in it.
abbrev pub Schedule : Type 0
Schedule = ℕ → Moment

-- The awaits from the n-th place on.
abbrev pub from : ℕ → Schedule → Schedule
from n m k = m (n + k)

-- What a Runner is made of and what it calls: the codec, the registry of definitions `D` with the
-- comparison of a snapshot with the registered contract, and the steps that advance a Run.
pub record Services (D : Type 0) : Type 0 where
  pub codec : Serialization
  pub owner : String
  pub lease_ttl : ℕ
  -- `self._registry.resolve`
  pub resolve : String → String → Result Error D
  -- `definition_id`, `version` and `frozen_snapshot` of a definition
  pub definition_id : D → String
  pub version : D → String
  pub frozen_snapshot : D → DefinitionSnapshot
  -- `_assert_adapter_contract_matches_snapshot`
  pub assert_contract : RunRecord → D → Result Error (Unit {0})
  -- `_enforce_policy` at the gate of the input
  pub enforce_input_policy : RunRecord → D → RunLease → Exec Error RunnerState RunRecord
  -- `_execute_steps` and `_resume_running`
  pub execute_steps : RunRecord → D → RunLease → Exec Error RunnerState RunRecord
  pub resume_running : RunRecord → RunLease → Exec Error RunnerState RunRecord
  -- The end of `resolve_run` for the actions that let a Run go on.
  pub go_on : RunRecord → RunLease → RunResolution → Exec Error RunnerState RunRecord

module _ {A : Type 0} where
  -- `await self._store...`
  unfoldable pub awaiting : Serialization → Moment → Exec Error RunStore A → Action A
  awaiting p moment act runner =
      let called = act (perform_all p moment.others runner.store) in
      (called.0, record runner { store = called.1 })

  -- `finally`, where the last part may raise too.
  unfoldable pub finally_do : Action A → Action (Unit {0}) → Action A
  finally_do body last runner =
      let ran = body runner in
      let ended = last ran.1 in elim ended.0 [ ok _ ↦ (ran.0, ended.1) | err e ↦ (err e, ended.1) ]

  -- `except BaseException: ...; raise`
  unfoldable pub on_error : Action A → Action (Unit {0}) → Action A
  on_error body last runner =
      let ran = body runner in
      elim ran.0 [
        | ok a ↦ (ok a, ran.1)
        | err e ↦
            let ended = last ran.1 in
            elim ended.0 [ ok _ ↦ (err e, ended.1) | err e' ↦ (err e', ended.1) ]
      ]

-- `_get_existing_run`
unfoldable pub get_existing_run : Serialization → Moment → String → Action RunRecord
unfolding awaiting
get_existing_run p moment run_id = do
  run ← awaiting p moment (λ s. (get_run p run_id s, s))
  or_raise run run_not_found

-- `except (LeaseNotHeldError, RunNotFoundError, StaleRunVersionError): pass`
abbrev pub quiet : Result Error (Unit {0}) → Result Error (Unit {0})
quiet (ok _) = ok tt
quiet (err lease_not_held) = ok tt
quiet (err run_not_found) = ok tt
quiet (err stale_run_version) = ok tt
quiet (err e) = err e

abbrev pub release_seen :
    Serialization → Moment → String → String → Option RunRecord → Action (Unit {0})
release_seen p moment run_id owner none = pure tt
release_seen p moment run_id owner (some current) =
    awaiting p moment (release_lease run_id owner current.version)

-- `_release_quietly`
unfoldable pub release_quietly : Serialization → Schedule → String → String → Action (Unit {0})
unfolding awaiting
release_quietly p m run_id owner runner =
    let released =
      (do
        current ← awaiting p (m 0) (λ s. (get_run p run_id s, s))
        release_seen p (m 1) run_id owner current)
        runner in
    (quiet released.0, released.1)

-- `_publish`
unfoldable pub publish : RunUpdate → Action (Unit {0})
publish update = modify λ r. record r { updates = r.updates ++ update ∷ [] }

-- `_publish_status`
unfoldable pub publish_status : String → RunStatus → Action (Unit {0})
unfolding publish
publish_status run_id status = publish (status_changed run_id status)

-- `run_id in self._active_advancers`, and the same for the events
unfoldable pub member : String → List String → Bool
member x [] = false
member x (y ∷ ys) = y == x || member x ys

-- `set.add` and `set.discard`
unfoldable pub insert : String → List String → List String
unfolding member
insert x ys = if member x ys then ys else x ∷ ys

unfoldable pub discard : String → List String → List String
discard x [] = []
discard x (y ∷ ys) = let rest = discard x ys in if y == x then rest else y ∷ rest

-- `_request_cancel` and `_cancel_requested`
unfoldable pub request_cancel : String → Action (Unit {0})
unfolding insert
request_cancel run_id = modify λ r. record r { cancel_events = insert run_id r.cancel_events }

unfoldable pub cancel_requested : String → RunnerState → Bool
unfolding member
cancel_requested run_id r = member run_id r.cancel_events

-- The arguments of a transition that gives a status only.
abbrev pub to_status : RunStatus → String → Transition
to_status status owner = record {
  status = status;
  snapshot = none;
  output = none;
  waiting_reason = none;
  waiting_step_id = none;
  error_code = none;
  lease_owner = some owner;
}

-- `expected_version is not None and run.version != expected_version`
abbrev pub is_stale : Option ℕ → ℕ → Bool
is_stale none version = false
is_stale (some expected) version = not (version ==ℕ expected)

-- A transition under the lease, published.
unfoldable pub move : Serialization → Moment → RunRecord → Transition → Action RunRecord
unfolding awaiting publish_status
move p moment run t = do
  result ←
      awaiting p moment (transition_run p run.run_id run.version t moment.now moment.updated_at)
  publish_status run.run_id t.status
  pure result

-- `_terminate_run`
unfoldable pub terminate_run :
    Serialization → Schedule → RunRecord → RunLease → RunStatus → Action RunRecord
unfolding awaiting publish_status
terminate_run p m run lease status = do
  result ← awaiting p (m 0) (
      transition_run p run.run_id run.version (to_status status lease.owner) (m 0).now
        (m 0).updated_at)
  awaiting p (m 1) (release_lease run.run_id lease.owner result.version)
  publish_status run.run_id status
  pure result
