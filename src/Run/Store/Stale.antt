-- ===== src/Run/Store/Stale.antt =====
-- Optimistic versions: a call that names a version that is not the current one is refused, so a
-- version is spent by one transition.
use m_agent.Base.{
  ℕ, String, ◌≡◌, ◌≢◌, ◌∙◌, Option, none, some, List, arith, String_eq, inl, inr, ok, err,
  Bool-cases,
}
use m_agent.Base.Dict.{get}
use m_agent.Errors.{Error, stale_run_version, value_error}
use m_agent.Run.Status.{validate_transition}
use m_agent.Run.Records.{RunRecord, StepRecord, StepAttempt}
use m_agent.Run.Payload.{Serialization, IsLossless, StoredRun}
use m_agent.Run.Store.{RunStore, require_current}
use m_agent.Run.Store.Leases.{acquire_lease, release_lease, assert_lease, prepare_model_dispatch}
use m_agent.Run.Store.Lifecycle.{Transition, get_run, transition_run}
use m_agent.Run.Store.Steps.{
  is_reservation, record_step, record_attempt, reserve_model_attempt, record_checkpoint,
  record_policy_decision,
}
use m_agent.Run.Store.Guard.{MayWrite}
use m_agent.Run.Store.Sound.Moves.{transition_run-Sound}
use m_agent.Run.Store.Invariant.{IsValid}
use m_agent.Run.Store.Transitions.{advance, get_run-some, read_record-Sees, transition_run-advance}
use m_agent.Run.Store.Calls.{
  Call, perform, perform_all, create, acquire, release, assert, prepare, transition, step, attempt,
  reserve, checkpoint, decide,
}
use m_agent.Run.Store.Trace.{ArePermitted, perform_all-Follows}

-- The Run and the version that a call names.
abbrev pub names : Call → Option (String × ℕ)
names (create run) = none
names (acquire r owner ttl v now) = some (r, v)
names (release r owner v) = some (r, v)
names (assert r v owner now) = some (r, v)
names (prepare r v owner guard now) = some (r, v)
names (transition r v t now u) = some (r, v)
names (step x v owner now) = some (x.run_id, v)
names (attempt a v owner now) = some (a.run_id, v)
names (reserve x a run_max purpose_max v owner now) = some (a.run_id, v)
names (checkpoint c v owner now) = some (c.run_id, v)
names (decide d v owner now) = some (d.run_id, v)

require_current-stale :
    (r : String) (v : ℕ) (s : RunStore) (stored : StoredRun)
    → get r s.runs ≡ some stored
    → stored.version ≢ v
    → require_current r v s ≡ (err stale_run_version, s)
unfolding require_current
require_current-stale r v s stored found stale = ground arith

abbrev Refuses : Serialization → RunStore → Call → Type 0
Refuses p s call = (e : Error) × (perform p call s ≡ (err e, s))

module _ (p : Serialization) (s : RunStore) (stored : StoredRun) where
  reserve-stale :
      (x : StepRecord) (a : StepAttempt) (run_max purpose_max : Option ℕ) (v : ℕ) (owner : String)
      (now : ℕ)
      → get a.run_id s.runs ≡ some stored
      → stored.version ≢ v
      → Refuses p s (reserve x a run_max purpose_max v owner now)
  unfolding perform reserve_model_attempt
  reserve-stale x a run_max purpose_max v owner now found stale =
      elim (Bool-cases (is_reservation x a)) [
        | inr misfit ↦ (value_error, ground arith)
        | inl fit ↦ (
          stale_run_version,
          ground (arith, require_current-stale a.run_id v s stored found stale),
        )
      ]

  perform-stale_stored :
      (call : Call) (r : String) (v : ℕ)
      → names call ≡ some (r, v)
      → get r s.runs ≡ some stored
      → stored.version ≢ v
      → Refuses p s call
  unfolding perform acquire_lease release_lease assert_lease prepare_model_dispatch transition_run
      record_step record_attempt record_checkpoint record_policy_decision
  perform-stale_stored (create run) r v named found stale = absurd (ground arith)
  perform-stale_stored (reserve x a run_max purpose_max w owner now) r v named found stale =
      reserve-stale x a run_max purpose_max w owner now (ground arith) (ground arith)
  perform-stale_stored call r v named found stale =
      (stale_run_version, ground (arith, require_current-stale r v s stored found stale))

-- A call that names a version other than the one a reader sees is refused and changes nothing,
-- whichever method it is.
pub perform-stale :
    (p : Serialization) (s : RunStore) (call : Call) (r : String) (v : ℕ) (run : RunRecord)
    → get_run p r s ≡ ok (some run)
    → names call ≡ some (r, v)
    → run.version ≢ v
    → (e : Error) × (perform p call s ≡ (err e, s))
perform-stale p s call r v run seen named stale =
    let (stored, found, read) = get_run-some p s r run seen in
    let (_, same, _, _, _) = read_record-Sees p s r stored run read in
    perform-stale_stored p s stored call r v named found (λ e. stale (same ∙ e))

-- A version is spent by one transition: in a valid store, after a transition that the version, the
-- lease and the table allow, and any calls that follow it, every call that names the same version
-- is refused and changes nothing. A record that is created on the way records what it waits for
-- only in WAITING.
pub transition_run-spends :
    (p : Serialization)
    → IsLossless p
    → (r : String) (v : ℕ) (t : Transition) (now u : ℕ) (s : RunStore) (run : RunRecord)
    → IsValid p s
    → get_run p r s ≡ ok (some run)
    → run.version ≡ v
    → MayWrite t.lease_owner run.lease_owner run.lease_expires_at now
    → validate_transition run.status t.status ≡ ok tt
    → (calls : List Call) → ArePermitted calls
    → (call : Call) → names call ≡ some (r, v)
    → let s' = perform_all p calls (transition_run p r v t now u s).1 in
      (e : Error) × (perform p call s' ≡ (err e, s'))
unfolding advance
transition_run-spends p lossless r v t now u s run valid seen version lease legal calls permitted
      call named =
    let s₁ = (transition_run p r v t now u s).1 in
    let (_, seen', _) =
      transition_run-advance p lossless r v t now u s run seen version lease legal in
    let valid' = (transition_run-Sound p lossless s valid r v t now u).valid in
    let (run', seen'', follows) =
      perform_all-Follows p lossless calls s₁ r (advance run t u) permitted valid' seen' in
    perform-stale p (perform_all p calls s₁) call r v run' seen'' named
      (λ e. omega (arith, follows.version, e, version))
