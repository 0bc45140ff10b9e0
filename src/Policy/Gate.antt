-- ===== src/Policy/Gate.antt =====
-- What a gate lets through.
use m_agent.Base.{
  String, ◌≡◌, refl, Option, none, some, arith, ◌⊎◌, ==_iff, String_eq, Bool-cases, inl, inr, ok,
  Result-cases, Option-cases,
}
use m_agent.Run.Status.{waiting, rejected, failed}
use m_agent.Run.Snapshot.{PolicyIdentity}
use m_agent.Run.Records.{RunRecord, PolicyGate, PolicyAction, allow, reject, require_resolution}
use m_agent.Run.Payload.{Serialization}
use m_agent.Run.Store.Leases.{RunLease, release_lease}
use m_agent.Run.Store.Lifecycle.{Transition, transition_run}
use m_agent.Run.Store.Returns.{transition_run-Returned}
use m_agent.Run.Store.Calls.{perform_all}
use m_agent.Control.{RunnerState, Schedule, from, awaiting, publish_status}
use m_agent.Policy.{
  PolicyDecision, RunPolicy, Protected, evaluate, leave, record_failure, record_pending, act_on,
  held, ended, keep_evidence, evidence, identity_or, frozen_identity, same_policy, enforce_policy,
}

module _ (codec : Serialization) (lease : RunLease) where
  leave-returns :
      (m : Schedule) (run : RunRecord) (t : Transition) (st : RunnerState) (run' : RunRecord)
      → (leave codec lease m run t st).0 ≡ ok run'
      → run'.status ≡ t.status
  unfolding leave awaiting publish_status
  leave-returns m run t st run' h =
      let s = perform_all codec (m 0).others st.store in
      let moved = transition_run codec run.run_id run.version t (m 0).now (m 0).updated_at s in
      elim (Result-cases moved.0) [
        | inr (e, refused) ↦ absurd (ground arith)
        | inl (result, done) ↦
            let released =
              release_lease run.run_id lease.owner result.version
                (perform_all codec (m 1).others moved.1) in
            elim (Result-cases released.0) [
              | inr (e, refused) ↦ absurd (ground arith)
              | inl (a, gone) ↦
                  (transition_run-Returned codec run.run_id run.version t (m 0).now (m 0).updated_at
                    s run' (ground arith)).status
            ]
      ]

  -- What the return of a gate says.
  abbrev pub Meant : RunRecord → PolicyDecision → RunRecord → Type 0
  Meant run decision run' =
      ((decision.action ≡ allow) × (run' ≡ run))
      ⊎ (((decision.action ≡ require_resolution) × (run'.status ≡ waiting))
          ⊎ ((decision.action ≡ reject) × (run'.status ≡ rejected)))

  act_on-Meant :
      (m : Schedule) (run : RunRecord) (action : PolicyAction) (reason_code : String)
      (step : Option Protected) (waiting_step_id : Option String) (st : RunnerState)
      (run' : RunRecord)
      → (act_on codec lease m run
          (record { action = action; reason_code = reason_code })
          step
          waiting_step_id
          st).0
        ≡ ok run'
      → Meant run (record { action = action; reason_code = reason_code }) run'
  unfolding act_on
  act_on-Meant m run allow reason_code step waiting_step_id st run' h = inl (refl, ground arith)
  act_on-Meant m run require_resolution reason_code step waiting_step_id st run' h =
      let kept = record_pending codec lease (m 0) run step st in
      elim (Result-cases kept.0) [
        | inr (e, refused) ↦ absurd (ground arith)
        | inl (_, done) ↦ inr (
            inl (
              refl,
              leave-returns (from 1 m) run
                  (held codec lease
                    (record { action = require_resolution; reason_code = reason_code }) step
                    waiting_step_id)
                  kept.1 run' (ground arith),
            ))
      ]
  act_on-Meant m run reject reason_code step waiting_step_id st run' h =
      let kept =
        record_failure codec lease m run reason_code "policy rejected the completed step result"
          step st in
      elim (Result-cases kept.0) [
        | inr (e, refused) ↦ absurd (ground arith)
        | inl (_, done) ↦ inr (
            inr (
              refl,
              leave-returns (from 2 m) run (ended codec lease rejected reason_code) kept.1 run'
                  (ground arith),
            ))
      ]

  -- The policy is the one that the snapshot of the Run froze.
  abbrev IsFrozen : RunPolicy → RunRecord → Type 0
  IsFrozen policy run =
      (identity : PolicyIdentity) × (frozen_identity run ≡ some identity)
      × (policy.identity.policy_id ≡ identity.policy_id)
      × (policy.identity.version ≡ identity.version)
      × (policy.identity.fingerprint ≡ identity.fingerprint)

  evaluate-IsFrozen :
      (policy : RunPolicy) (run : RunRecord) (gate : PolicyGate) (payload : String)
      (identity : PolicyIdentity) (decision : PolicyDecision)
      → evaluate policy run gate payload ≡ some (identity, decision)
      → IsFrozen policy run × (policy.evaluate gate run.run_id payload ≡ some decision)
  unfolding evaluate
  evaluate-IsFrozen policy run gate payload identity decision h =
      let own = policy.identity in
      elim (Option-cases (frozen_identity run)) [
        | inl unknown ↦ absurd (ground arith)
        | inr (frozen, found) ↦ elim (Bool-cases (same_policy own frozen)) [
          | inr other ↦ absurd (ground arith)
          | inl same ↦ elim (Option-cases (policy.evaluate gate run.run_id payload)) [
            | inl raised ↦ absurd (ground arith)
            | inr (made, decides) ↦ (
              (
                frozen,
                found,
                (==_iff own.policy_id frozen.policy_id).0 (ground arith),
                (==_iff own.version frozen.version).0 (ground arith),
                (==_iff own.fingerprint frozen.fingerprint).0 (ground arith),
              ),
              ground arith,
            )
          ]
        ]
      ]

  -- The gate of a policy: without a decision the Run fails, else the decision is carried out.
  abbrev pub Judged : RunPolicy → RunRecord → PolicyGate → String → RunRecord → Type 0
  Judged policy run gate payload run' =
      ((evaluate policy run gate payload ≡ none) × (run'.status ≡ failed))
      ⊎ ((decision : PolicyDecision) × IsFrozen policy run
          × (policy.evaluate gate run.run_id payload ≡ some decision)
          × Meant run decision run')

-- A gate fails closed: whatever other clients of the store do between its awaits, a gate that
-- returns either found no decision (the policy raised, or it is not the one that the snapshot
-- froze) and the Run is FAILED, or carried out the decision of the frozen policy: the Run goes on
-- as it was where that allows it, waits where it requires a resolution, and is REJECTED where it
-- rejects.
pub enforce_policy_closed :
    (codec : Serialization) (lease : RunLease) (policy : RunPolicy) (m : Schedule) (run : RunRecord)
    (gate : PolicyGate) (payload : String) (step : Option Protected)
    (waiting_step_id : Option String) (st : RunnerState) (run' : RunRecord)
    → (enforce_policy codec lease policy m run gate payload step waiting_step_id st).0 ≡ ok run'
    → Judged codec lease policy run gate payload run'
unfolding enforce_policy
enforce_policy_closed codec lease policy m run gate payload step waiting_step_id st run' h =
    elim (Option-cases (evaluate policy run gate payload)) [
      | inl none_made ↦
          let fault : PolicyDecision = record { action = reject; reason_code = "POLICY_ERROR" } in
          let identity = identity_or policy (frozen_identity run) in
          let kept =
            keep_evidence codec lease (m 0) run
              (evidence codec lease policy run gate payload identity fault (m 0)) st in
          elim (Result-cases kept.0) [
            | inr (e, refused) ↦ absurd (ground arith)
            | inl (_, done) ↦
                let failure =
                  record_failure codec lease (from 1 m) run "POLICY_ERROR"
                    "policy implementation fault" step kept.1 in
                elim (Result-cases failure.0) [
                  | inr (e, refused) ↦ absurd (ground arith)
                  | inl (_, done') ↦ inl (
                    none_made,
                    leave-returns codec lease (from 3 m) run
                        (ended codec lease failed "POLICY_ERROR") failure.1 run' (ground arith),
                  )
                ]
          ]
      | inr ((identity, decision), made) ↦
          let record_kept = evidence codec lease policy run gate payload identity decision (m 0) in
          let kept = keep_evidence codec lease (m 0) run record_kept st in
          elim (Result-cases kept.0) [
            | inr (e, refused) ↦ absurd (ground arith)
            | inl (_, done) ↦
                let (frozen, decides) =
                  evaluate-IsFrozen codec lease policy run gate payload identity decision made in
                inr (
                  decision,
                  frozen,
                  decides,
                  act_on-Meant codec lease (from 1 m) run decision.action decision.reason_code step
                      waiting_step_id kept.1 run' (ground arith),
                )
          ]
    ]
