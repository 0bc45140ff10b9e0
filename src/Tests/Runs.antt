-- ===== src/Tests/Runs.antt =====
-- The theorems about the store of Runs at concrete inputs.
use m_agent.Base.{
  ℕ, ◌+◌, ◌≤◌, ◌<◌, String, ◌≡◌, ◌≢◌, refl, true, false, none, some, List, [], ◌∷◌, ◌++◌, map, ap,
  arith, ◌==◌, String_eq, pair_eq, is_some, if◌then◌else◌, ok, err,
}
use m_agent.Base.Dict.{get_or, get, put}
use m_agent.Errors.{Error, value_error, lease_not_held}
use m_agent.Run.Status.{RunStatus_eq, created, running, validate_transition, allowed_transitions}
use m_agent.Run.Snapshot.{primary}
use m_agent.Run.Records.{RunRecord}
use m_agent.Run.Payload.{Field_eq, split_attempt, snapshot_metadata}
use m_agent.Run.Store.{empty, require_current, check_lease, check_lease_if}
use m_agent.Run.Store.Leases.{RunLease, acquire_lease, assert_lease, get_lease, is_held_by_other}
use m_agent.Run.Store.Lifecycle.{Transition, create_run, get_run, transition_run}
use m_agent.Run.Store.Steps.{record_step, reserve_model_attempt, get_steps}
use m_agent.Run.Store.Invariant.{IsValid}
use m_agent.Run.Store.Create.{create_run-get_run}
use m_agent.Run.Store.Transitions.{advance, transition_run-advance}
use m_agent.Run.Store.Calls.{Call, perform, perform_all, create, acquire, transition, step}
use m_agent.Run.Store.Trace.{
  ArePermitted, Follows, empty-IsValid, perform_all-IsValid, perform_all-Follows,
}
use m_agent.Run.Store.Encoding.{Refusal}
use m_agent.Run.Store.Exclusion.{get_lease-exclusive, acquire_lease-grants}
use m_agent.Run.Store.Budget.{
  model_attempts, purpose_attempts, IsWithin, reserve_model_attempt-IsWithin,
}
use m_agent.Run.Store.Upsert.{find, record_step-get_steps}
use m_agent.Run.Store.Stale.{perform-stale, transition_run-spends}
use m_agent.Tests.Layout.{plain, plain-IsLossless}
use m_agent.Tests.Sample.{
  run_1, start_1, stored_1, step_1, attempt_1, store_1, store_2, empty_unknown, run_1-IsIdle,
  store_1-IsValid, store_1-get_run, store_1-get, store_2-get,
}

create_run-get_run_example :
    let (result, s') = create_run plain run_1 empty in
    (result ≡ ok run_1)
    × (get_run plain "run-1" s' ≡ ok (some run_1))
    × ((q : String) → "run-1" ≢ q → get_run plain q s' ≡ get_run plain q empty)
create_run-get_run_example =
    create_run-get_run plain plain-IsLossless run_1 empty (empty-IsValid plain) empty_unknown

created_running : validate_transition created running ≡ ok tt
unfolding validate_transition allowed_transitions
created_running = refl

transition_run-advance_example :
    let (result, s') = transition_run plain "run-1" 0 start_1 3 4 store_1 in
    (result ≡ ok (advance run_1 start_1 4))
    × (get_run plain "run-1" s' ≡ ok (some (advance run_1 start_1 4)))
    × ((q : String) → "run-1" ≢ q → get_run plain q s' ≡ get_run plain q store_1)
transition_run-advance_example =
    transition_run-advance plain plain-IsLossless "run-1" 0 start_1 3 4 store_1 run_1
      store_1-get_run refl tt created_running

abbrev calls_1 : List Call
calls_1 =
    acquire "run-1" "w" 10 0 10
    ∷ acquire "run-1" "x" 10 0 15
    ∷ step step_1 0 (some "w") 16
    ∷ transition "run-1" 0 start_1 17 17
    ∷ []

calls_1-ArePermitted : ArePermitted calls_1
calls_1-ArePermitted = (tt, (tt, (tt, (tt, tt))))

perform_all-Follows_example :
    (run' : RunRecord) × (get_run plain "run-1" (perform_all plain calls_1 store_1)
      ≡ ok (some run'))
    × Follows run_1 run'
perform_all-Follows_example =
    perform_all-Follows plain plain-IsLossless calls_1 store_1 "run-1" run_1 calls_1-ArePermitted
      store_1-IsValid store_1-get_run

perform_all-IsValid_example : IsValid plain (perform_all plain (create run_1 ∷ calls_1) empty)
perform_all-IsValid_example =
    perform_all-IsValid plain plain-IsLossless (create run_1 ∷ calls_1) empty
      (run_1-IsIdle, calls_1-ArePermitted) (empty-IsValid plain)

-- A codec that does not encode one text.
abbrev refusing : Refusal
refusing text = if text == "odd" then some value_error else none

abbrev odd_1 : Transition
odd_1 = record start_1 { output = some "odd" }

perform-stale_example :
    (e : Error) × (perform plain (transition "run-1" 7 start_1 3 4) store_1 ≡ (err e, store_1))
perform-stale_example =
    perform-stale plain store_1 (transition "run-1" 7 start_1 3 4) "run-1" 7 run_1 store_1-get_run
      refl (omega arith)

transition_run-spends_example :
    let s' = perform_all plain calls_1 (transition_run plain "run-1" 0 start_1 3 4 store_1).1 in
    (e : Error) × (perform plain (step step_1 0 none 20) s' ≡ (err e, s'))
transition_run-spends_example =
    transition_run-spends plain plain-IsLossless "run-1" 0 start_1 3 4 store_1 run_1 store_1-IsValid
      store_1-get_run refl tt created_running calls_1 calls_1-ArePermitted (step step_1 0 none 20)
      refl

abbrev lease_1 : RunLease
lease_1 = record { run_id = "run-1"; owner = "w"; expires_at = 20 }

nobody_holds : is_held_by_other none none "w" 10 ≡ false
unfolding is_held_by_other
nobody_holds = refl

acquire_lease-grants_example :
    let (result, s') = acquire_lease "run-1" "w" 10 0 10 store_1 in
    (result ≡ ok lease_1)
    × (get_lease "run-1" s' ≡ some lease_1)
    × ((later : ℕ) → later < 20 → assert_lease "run-1" 0 "w" later s' ≡ (ok tt, s'))
    × ((later : ℕ) → 20 ≤ later → assert_lease "run-1" 0 "w" later s' ≡ (err lease_not_held, s'))
    × ((q : String) (later : ℕ)
        → "w" ≢ q
        → assert_lease "run-1" 0 q later s' ≡ (err lease_not_held, s'))
acquire_lease-grants_example =
    acquire_lease-grants "run-1" "w" 0 10 10 store_1 stored_1 store_1-get refl nobody_holds

store_2-get_lease : get_lease "run-1" store_2 ≡ some lease_1
unfolding get_lease
store_2-get_lease = rw (get_lease, store_2-get) refl

owners_differ : ◌≢◌ {A = String} "w" "x"
owners_differ e = absurd (cc (ap (λ t. t == "w") e))

get_lease-exclusive_example :
    (acquire_lease "run-1" "x" 5 0 15 store_2 ≡ (err lease_not_held, store_2))
    × (assert_lease "run-1" 0 "x" 15 store_2 ≡ (err lease_not_held, store_2))
get_lease-exclusive_example =
    get_lease-exclusive "run-1" store_2 lease_1 "x" 0 5 15
      (record stored_1 { lease_owner = some "w"; lease_expires_at = some 20 }) store_2-get_lease
      owners_differ (omega arith) store_2-get refl

reserved_1 :
    (reserve_model_attempt plain step_1 attempt_1 (some 1) none 0 "w" 15 store_2).0 ≡ ok true
unfolding reserve_model_attempt acquire_lease require_current create_run empty get put
    snapshot_metadata check_lease
reserved_1 = refl

reserve_model_attempt-IsWithin_example :
    let s' = (reserve_model_attempt plain step_1 attempt_1 (some 1) none 0 "w" 15 store_2).1 in
    (get_or "run-1" s'.attempts []
      ≡ get_or "run-1" store_2.attempts [] ++ (split_attempt plain attempt_1).0 ∷ [])
    × (model_attempts "run-1" s' ≡ model_attempts "run-1" store_2 + 1)
    × IsWithin (some 1) (model_attempts "run-1" s')
    × IsWithin none (purpose_attempts "run-1" (some primary) s')
reserve_model_attempt-IsWithin_example =
    reserve_model_attempt-IsWithin plain step_1 attempt_1 (some 1) none 0 "w" 15 store_2 reserved_1

refused_1 :
    (reserve_model_attempt plain step_1 attempt_1 (some 0) none 0 "w" 15 store_2).0 ≡ ok false
unfolding reserve_model_attempt acquire_lease require_current create_run empty get put
    snapshot_metadata check_lease
refused_1 = refl

recorded_1 : (record_step step_1 0 (some "w") 15 store_2).0 ≡ ok step_1
unfolding record_step acquire_lease require_current create_run empty get put snapshot_metadata
    check_lease_if
recorded_1 = refl

record_step-get_steps_example :
    let before = get_steps "run-1" store_2 in
    let s' = (record_step step_1 0 (some "w") 15 store_2).1 in
    ((id : String)
      → find (λ x. x.step_id) id (get_steps "run-1" s')
        ≡ (if "model-1" == id then some step_1 else find (λ x. x.step_id) id before))
    × (map (λ x. x.step_id) (get_steps "run-1" s') ≡ (
        if is_some (find (λ x. x.step_id) "model-1" before)
        then map (λ x. x.step_id) before
        else map (λ x. x.step_id) before ++ "model-1" ∷ []))
    × ((q : String) → ("run-1" == q) ≡ false → get_steps q s' ≡ get_steps q store_2)
record_step-get_steps_example =
    record_step-get_steps step_1 0 (some "w") 15 store_2 step_1 recorded_1
