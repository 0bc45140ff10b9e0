-- ===== src/Run/Store/Returns.antt =====
-- What a transition that returns has found, and the record that it gives back.
use m_agent.Base.{ℕ, ◌+◌, String, ◌≡◌, refl, some, arith, inl, inr, ok, Result-cases, String_eq}
use m_agent.Base.Dict.{get}
use m_agent.Run.Status.{validate_transition}
use m_agent.Run.Records.{RunRecord}
use m_agent.Run.Payload.{Serialization, StoredRun}
use m_agent.Run.Store.{RunStore}
use m_agent.Run.Store.Lifecycle.{Transition, transition_run, transitioned}
use m_agent.Run.Store.Guard.{MayWrite, require_current-cases, check_lease_if-cases}
use m_agent.Run.Store.Transitions.{read_record-Sees, transition_run-moved, moved_store}

pub record Returned (r : String) (v : ℕ) (t : Transition) (now : ℕ) (s : RunStore) (run : RunRecord)
    : Type 0 where
  pub stored : StoredRun
  pub found : get r s.runs ≡ some stored
  pub current : stored.version ≡ v
  pub legal : validate_transition stored.status t.status ≡ ok tt
  pub lease : MayWrite t.lease_owner stored.lease_owner stored.lease_expires_at now
  pub version : run.version ≡ v + 1
  pub status : run.status ≡ t.status

pub transition_run-Returned :
    (p : Serialization) (r : String) (v : ℕ) (t : Transition) (now u : ℕ) (s : RunStore)
    (run : RunRecord)
    → (transition_run p r v t now u s).0 ≡ ok run
    → Returned r v t now s run
unfolding transition_run transitioned
transition_run-Returned p r v t now u s run h = elim (require_current-cases r v s) [
  | inr (e, raises) ↦ absurd (ground arith)
  | inl (stored, c) ↦ elim (check_lease_if-cases stored now s t.lease_owner) [
    | inr raises ↦ absurd (ground (arith, c.returns))
    | inl (lease, returns) ↦ elim (Result-cases (validate_transition stored.status t.status)) [
      | inr (e, illegal) ↦ absurd (ground (arith, c.returns))
      | inl (done, legal) ↦
          let moved = transition_run-moved p r v t now u s stored c.found c.version lease legal in
          let (_, version, status, _, _) =
            read_record-Sees p (moved_store p r stored t u s) r (transitioned stored t u) run
              (rw moved at h) in
          record {
            stored = stored;
            found = c.found;
            current = c.version;
            legal = legal;
            lease = lease;
            version = rw (version, c.version) refl;
            status = status;
          }
    ]
  ]
]
