-- ===== src/Control/Calm.antt =====
-- Commands that no other client disturbs.
use m_agent.Base.{
  ℕ, ◌+◌, ◌<◌, String, ◌≡◌, refl, false, none, some, [], arith, ==_refl, String_eq, Result, ok,
}
use m_agent.Errors.{Error}
use m_agent.Run.Status.{RunStatus, validate_transition}
use m_agent.Run.Records.{RunRecord}
use m_agent.Run.Payload.{Serialization, IsLossless}
use m_agent.Run.Store.{RunStore, holds_lease}
use m_agent.Run.Store.Leases.{is_held_by_other, acquire_lease, release_lease}
use m_agent.Run.Store.Lifecycle.{get_run, transition_run}
use m_agent.Run.Store.Calls.{perform_all}
use m_agent.Run.Store.Evolution.{with_lease}
use m_agent.Run.Store.Transitions.{advance, transition_run-advance}
use m_agent.Run.Store.Leased.{Only, Only-trans, acquire_lease-Only, release_lease-Only}
use m_agent.Control.{RunnerState, Moment, Schedule, awaiting, get_existing_run, to_status}

abbrev pub IsCalm : Schedule → Type 0
IsCalm m = (n : ℕ) → (m n).others ≡ []

module _ (p : Serialization) (moment : Moment) (calm : moment.others ≡ []) where
  pub awaiting-calm :
      {A : Type 0} (act : RunStore → Result Error A × RunStore) (st : RunnerState)
      → awaiting p moment act st ≡ ((act st.store).0, record st { store = (act st.store).1 })
  unfolding awaiting perform_all
  awaiting-calm act st = rw calm refl

  pub get_existing_run-calm :
      (run_id : String) (st : RunnerState) (run : RunRecord)
      → get_run p run_id st.store ≡ ok (some run)
      → get_existing_run p moment run_id st ≡ (ok run, st)
  unfolding get_existing_run awaiting perform_all
  get_existing_run-calm run_id st run seen = ground (arith, calm)

-- A lease is acquired, the Run is moved to a status under it, and the lease is released.
module _ (p : Serialization) (lossless : IsLossless p) (r owner : String) (ttl now later u : ℕ)
    (status : RunStatus) (s : RunStore) (run : RunRecord) (seen : get_run p r s ≡ ok (some run))
    (free : is_held_by_other run.lease_owner run.lease_expires_at owner now ≡ false)
    (legal : validate_transition run.status status ≡ ok tt) (in_time : later < now + ttl) where
  -- The record under the lease, when it is moved, and when it is released.
  abbrev pub leased_record : RunRecord
  leased_record = with_lease run (some owner) (some (now + ttl))

  abbrev pub ended_record : RunRecord
  ended_record = advance leased_record (to_status status owner) u

  abbrev pub leased_store : RunStore
  leased_store = (acquire_lease r owner ttl run.version now s).1

  abbrev pub ended_store : RunStore
  ended_store = (transition_run p r run.version (to_status status owner) later u leased_store).1

  abbrev pub released_store : RunStore
  released_store = (release_lease r owner (run.version + 1) ended_store).1

  pub record IsSmooth : Type 0 where
    pub acquires :
        (acquire_lease r owner ttl run.version now s).0
        ≡ ok (record { run_id = r; owner = owner; expires_at = now + ttl })
    pub leased : get_run p r leased_store ≡ ok (some leased_record)
    pub moves :
        (transition_run p r run.version (to_status status owner) later u leased_store).0
        ≡ ok ended_record
    pub ended : get_run p r ended_store ≡ ok (some ended_record)
    pub releases : (release_lease r owner (run.version + 1) ended_store).0 ≡ ok tt
    pub released : Only p r s released_store (with_lease ended_record none none)

  pub smooth : IsSmooth
  unfolding advance holds_lease
  smooth =
      let (acquires, leased) =
        acquire_lease-Only p r s run seen owner ttl run.version now refl free in
      let (moves, seen', frame) =
        transition_run-advance p lossless r run.version (to_status status owner) later u
          leased_store leased_record leased.0 refl (ground (arith, ==_refl owner)) legal in
      let (releases, released) =
        release_lease-Only p r ended_store ended_record seen' owner (run.version + 1) refl refl in
      record {
        acquires = acquires;
        leased = leased.0;
        moves = moves;
        ended = seen';
        releases = releases;
        released =
            Only-trans p r s ended_store released_store ended_record
              (with_lease ended_record none none)
              (Only-trans p r s leased_store ended_store leased_record ended_record leased
                (seen', frame))
              released;
      }
