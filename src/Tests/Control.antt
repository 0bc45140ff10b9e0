-- ===== src/Tests/Control.antt =====
-- The theorems about the control entries of the Runner at concrete inputs.
use m_agent.Base.{
  ℕ, ◌+◌, ◌<◌, String, ◌≡◌, refl, true, false, none, some, List, [], ◌∷◌, ◌⊎◌, arith, String_eq, ok,
}
use m_agent.Base.Exec.{pure}
use m_agent.Run.Status.{
  created, running, waiting, cancelled, validate_transition, allowed_transitions,
}
use m_agent.Run.Records.{RunRecord}
use m_agent.Run.Resolution.{
  cancel_run_of, reason_definition_unavailable, reason_uncertain_non_idempotent, require_allowed,
  allowed_resolutions, allowed_for_definition_unavailable,
}
use m_agent.Run.Store.{RunStore, holds_lease}
use m_agent.Run.Store.Leases.{RunLease, acquire_lease, is_held_by_other}
use m_agent.Run.Store.Lifecycle.{Transition, get_run, transition_run}
use m_agent.Run.Store.Evolution.{with_lease}
use m_agent.Run.Store.Transitions.{advance, transition_run-advance}
use m_agent.Run.Store.Leased.{Only, acquire_lease-Only}
use m_agent.Control.{status_changed, RunnerState, Schedule, Services, member, to_status}
use m_agent.Control.Checks.{IsTarget, at_moment}
use m_agent.Control.Resolve.{resolve_run}
use m_agent.Control.Cancel.{cancel_run, maybe_cancel}
use m_agent.Control.Start.{start_run, resume_run}
use m_agent.Control.Calm.{IsCalm}
use m_agent.Control.Versions.{resolve_run_on_version}
use m_agent.Control.Cancelled.{cancel_run_on_version}
use m_agent.Control.Ends.{ended_from, cancel_run_created}
use m_agent.Control.Resolved.{resolve_run_ends}
use m_agent.Control.Running.{cancel_run-maybe_cancel}
use m_agent.Control.Advancers.{IsLeft, advancers_cleared}
use m_agent.Tests.Layout.{plain, plain-IsLossless}
use m_agent.Tests.Sample.{snapshot_1, run_1, store_1, store_1-get_run}

-- A Runner "w" whose registry knows every definition and whose steps do nothing.
abbrev pub services_1 : Services (Unit {0})
services_1 = record {
  codec = plain;
  owner = "w";
  lease_ttl = 10;
  resolve = λ definition_id version. ok tt;
  definition_id = λ _. "assistant";
  version = λ _. "1";
  frozen_snapshot = λ _. snapshot_1;
  assert_contract = λ run definition. ok tt;
  enforce_input_policy = λ run definition lease. pure run;
  execute_steps = λ run definition lease. pure run;
  resume_running = λ run lease. pure run;
  go_on = λ run lease resolution. pure run;
}

abbrev pub holding : RunStore → List String → RunnerState
holding s advancers = record {
  store = s;
  active_advancers = advancers;
  cancel_events = [];
  updates = [];
}

-- Nobody else calls; the clock advances by one from await to await.
abbrev pub quiet_1 : Schedule
quiet_1 n = record { others = []; now = 30 + n; updated_at = 30 + n }

quiet_1-IsCalm : IsCalm quiet_1
quiet_1-IsCalm n = refl

cancel_run_created_example :
    let (result, after) = cancel_run services_1 quiet_1 "run-1" (some 0) (holding store_1 []) in
    let ended = ended_from services_1 run_1 31 33 cancelled in
    (result ≡ ok ended)
    × Only plain "run-1" store_1 after.store (with_lease ended none none)
    × (after.active_advancers ≡ [])
    × (after.cancel_events ≡ [])
    × (after.updates ≡ status_changed "run-1" cancelled ∷ [])
unfolding member is_held_by_other
cancel_run_created_example =
    cancel_run_created services_1 plain-IsLossless quiet_1 quiet_1-IsCalm (holding store_1 []) run_1
      store_1-get_run (some 0) refl refl refl refl (omega arith)

cancel_run_on_version_example :
    let (result, after) = cancel_run services_1 quiet_1 "run-1" (some 0) (holding store_1 []) in
    let run' = ended_from services_1 run_1 31 33 cancelled in
    ((run'.version ≡ 1) × (run'.status ≡ cancelled)) ⊎ (member "run-1" after.cancel_events ≡ true)
cancel_run_on_version_example =
    cancel_run_on_version services_1 "run-1" 0 (ended_from services_1 run_1 31 33 cancelled) quiet_1
      (holding store_1 []) (cancel_run_created_example.0)

-- The Run waits for its definition.
abbrev wait_1 : Transition
wait_1 = record {
  status = waiting;
  snapshot = none;
  output = none;
  waiting_reason = some reason_definition_unavailable;
  waiting_step_id = none;
  error_code = none;
  lease_owner = none;
}

abbrev waiting_1 : RunRecord
waiting_1 = advance run_1 wait_1 5

abbrev waiting_store : RunStore
waiting_store = (transition_run plain "run-1" 0 wait_1 4 5 store_1).1

created_waiting : validate_transition created waiting ≡ ok tt
unfolding validate_transition allowed_transitions
created_waiting = refl

waiting_store-get_run : get_run plain "run-1" waiting_store ≡ ok (some waiting_1)
waiting_store-get_run =
    (transition_run-advance plain plain-IsLossless "run-1" 0 wait_1 4 5 store_1 run_1
      store_1-get_run refl tt created_waiting).1

waiting_1-IsTarget : IsTarget waiting_1 (cancel_run_of none none)
unfolding advance require_allowed allowed_resolutions reason_definition_unavailable
    reason_uncertain_non_idempotent allowed_for_definition_unavailable
waiting_1-IsTarget = record { waits = refl; allowed = refl; own_step = refl }

resolve_run_ends_example :
    let (result, after) =
      resolve_run services_1 quiet_1 "run-1"
        (cancel_run_of none none)
        1
        (holding waiting_store []) in
    let ended = ended_from services_1 waiting_1 31 33 cancelled in
    (result ≡ ok ended)
    × Only plain "run-1" waiting_store after.store (with_lease ended none none)
    × (after.active_advancers ≡ [])
    × (after.cancel_events ≡ [])
    × (after.updates ≡ status_changed "run-1" cancelled ∷ [])
unfolding advance is_held_by_other
resolve_run_ends_example =
    resolve_run_ends services_1 plain-IsLossless (cancel_run_of none none) cancelled refl quiet_1
      quiet_1-IsCalm (holding waiting_store []) waiting_1 waiting_1-IsTarget waiting_store-get_run
      refl (omega arith)

resolve_run_on_version_example :
    let run' = ended_from services_1 waiting_1 31 33 cancelled in
    (run : RunRecord) × (get_run plain "run-1"
        (at_moment plain (quiet_1 0) (holding waiting_store [])).store
      ≡ ok (some run))
    × (run.status ≡ waiting)
    × (run.version ≡ 1)
    × (run'.version ≡ 2)
    × (run'.status ≡ cancelled)
resolve_run_on_version_example =
    resolve_run_on_version services_1 "run-1" (cancel_run_of none none) 1 cancelled refl
      (ended_from services_1 waiting_1 31 33 cancelled) quiet_1 (holding waiting_store [])
      (resolve_run_ends_example.0)

-- The Run runs under the lease of "w", and "w" advances it.
abbrev leased_1 : RunRecord
leased_1 = with_lease run_1 (some "w") (some 40)

abbrev pub running_1 : RunRecord
running_1 = advance leased_1 (to_status running "w") 31

abbrev pub running_store : RunStore
running_store =
    (transition_run plain "run-1" 0 (to_status running "w") 31 31
      (acquire_lease "run-1" "w" 10 0 30 store_1).1).1

created_running : validate_transition created running ≡ ok tt
unfolding validate_transition allowed_transitions
created_running = refl

nobody_holds : is_held_by_other none none "w" 30 ≡ false
unfolding is_held_by_other
nobody_holds = refl

held_until_40 : (now : ℕ) → now < 40 → holds_lease (some "w") (some 40) "w" now ≡ true
unfolding holds_lease
held_until_40 now h = ground arith

running_store-get_run : get_run plain "run-1" running_store ≡ ok (some running_1)
running_store-get_run =
    (transition_run-advance plain plain-IsLossless "run-1" 0 (to_status running "w") 31 31
      (acquire_lease "run-1" "w" 10 0 30 store_1).1 leased_1
      (acquire_lease-Only plain "run-1" store_1 run_1 store_1-get_run "w" 10 0 30 refl
        nobody_holds).1.0
      refl (held_until_40 31 (omega arith)) created_running).1

abbrev pub lease_1 : RunLease
lease_1 = record { run_id = "run-1"; owner = "w"; expires_at = 40 }

cancel_run-maybe_cancel_example :
    let (registered, asked) =
      cancel_run services_1 quiet_1 "run-1" none (holding running_store ("run-1" ∷ [])) in
    let (answer, after) = maybe_cancel services_1 quiet_1 running_1 lease_1 asked in
    let ended = advance running_1 (to_status cancelled "w") 30 in
    (registered ≡ ok running_1)
    × (answer ≡ ok (some ended))
    × Only plain "run-1" running_store after.store (with_lease ended none none)
    × (member "run-1" after.cancel_events ≡ false)
unfolding member advance
cancel_run-maybe_cancel_example =
    cancel_run-maybe_cancel services_1 plain-IsLossless quiet_1 quiet_1-IsCalm quiet_1
      quiet_1-IsCalm (holding running_store ("run-1" ∷ [])) running_1 lease_1 none
      running_store-get_run refl refl refl refl (held_until_40 30 (omega arith))

advancers_cleared_example :
    IsLeft "run-1" (start_run services_1 quiet_1 "run-1" (holding store_1 [])).1
    × IsLeft "run-1" (resume_run services_1 quiet_1 "run-1" (holding store_1 [])).1
unfolding member
advancers_cleared_example = advancers_cleared services_1 "run-1" quiet_1 (holding store_1 []) refl
