-- ===== src/Run/Store/Sound/Moves.antt =====
-- Creation and transition.
use m_agent.Base.{
  ℕ, String, ◌≡◌, ◌≢◌, refl, subst, Option, none, some, arith, inl, inr, String_eq, ok, err,
  Result-cases, Option-cases,
}
use m_agent.Base.Dict.{get, get-put}
use m_agent.Errors.{duplicate_run, lease_not_held}
use m_agent.Run.Status.{RunStatus_eq, waiting, validate_transition}
use m_agent.Run.Records.{RunRecord}
use m_agent.Run.Payload.{Serialization, IsLossless, StoredRun, split_run}
use m_agent.Run.Store.{RunStore}
use m_agent.Run.Store.Lifecycle.{
  Transition, create_run, read_record, transition_run, transitioned, only_waiting,
}
use m_agent.Run.Store.Guard.{require_current-cases, check_lease_if-cases}
use m_agent.Run.Store.Invariant.{IsValid, IsValid-update}
use m_agent.Run.Store.Create.{
  IsIdle, created_store, create_run_duplicate, create_run-fresh, create_run-IsValid, payloads_frame,
}
use m_agent.Run.Store.Transitions.{
  advance, get_run-some, read_record-Sees, moved_store, moved_frame, read_record-moved,
  transition_run-moved,
}
use m_agent.Run.Store.Evolution.{Sound, Sound-by, Sound-unchanged, moved, Evolves-update}

module _ (p : Serialization) (lossless : IsLossless p) (s : RunStore) (valid : IsValid p s) where
  pub create_run-Sound : (run : RunRecord) → IsIdle run → Sound p s (create_run p run s)
  create_run-Sound run idle = elim (Option-cases (get run.run_id s.runs)) [
    | inr (stored, e) ↦
        Sound-unchanged p s _ (err duplicate_run) (create_run_duplicate p run s stored e) valid
    | inl fresh ↦
        let made = create_run-fresh p lossless run s fresh in
        Sound-by p s _ (ok run, created_store p run s) made
          (record {
            atomic = λ e h. cc;
            valid =
                subst (λ x. IsValid p x.1) made (create_run-IsValid p lossless run s idle valid);
            evolves =
                Evolves-update p s (created_store p run s) run.run_id (split_run p run).0
                  (λ q. get-put run.run_id q (split_run p run).0 s.runs)
                  (λ q ne field _. payloads_frame p lossless run s q field ne)
                  (λ old seen.
                    let (stored, found, _) = get_run-some p s run.run_id old seen in
                    absurd (cc (found, fresh)));
          })
  ]

  -- What a Run waits for is cleared on the way out of WAITING.
  only_waiting_cleared :
      (t : Transition) (value : Option String)
      → t.status ≢ waiting
      → only_waiting t.status value ≡ none
  only_waiting_cleared t value ne = grind arith

  moved-Sound :
      (r : String) (v : ℕ) (t : Transition) (now u : ℕ) (stored : StoredRun)
      → get r s.runs ≡ some stored
      → validate_transition stored.status t.status ≡ ok tt
      → Sound p s (
        read_record p (moved_store p r stored t u s) r (transitioned stored t u),
        moved_store p r stored t u s,
      )
  unfolding transitioned
  moved-Sound r v t now u stored found legal =
      let c = valid.consistent r stored found in
      let after = read_record-moved p r v t now u s lossless stored in
      record {
        atomic = λ e h. absurd (cc (after c.readable.0 c.readable.1));
        valid =
            IsValid-update p s (moved_store p r stored t u s) r (transitioned stored t u)
              (λ q. get-put r q (transitioned stored t u) s.runs)
              (moved_frame p r v t now u s stored)
              (record {
                own_id = c.own_id;
                readable = (advance c.readable.0 t u, after c.readable.0 c.readable.1);
                idle_reason = only_waiting_cleared t t.waiting_reason;
                idle_step = only_waiting_cleared t t.waiting_step_id;
              })
              valid;
        evolves =
            Evolves-update p s (moved_store p r stored t u s) r (transitioned stored t u)
              (λ q. get-put r q (transitioned stored t u) s.runs)
              (λ q ne field _. moved_frame p r v t now u s stored q field ne)
              λ run seen.
                let (other, found', read) = get_run-some p s r run seen in
                let same : read_record p s r stored ≡ ok run = cc in
                let (_, _, status, _, _) = read_record-Sees p s r stored run same in
                (advance run t u, after run same, moved t u (rw status legal) refl);
      }

  pub transition_run-Sound :
      (r : String) (v : ℕ) (t : Transition) (now u : ℕ) → Sound p s (transition_run p r v t now u s)
  unfolding transition_run
  transition_run-Sound r v t now u = elim (require_current-cases r v s) [
    | inr (e, raises) ↦ Sound-unchanged p s _ (err e) (ground arith) valid
    | inl (stored, c) ↦ elim (check_lease_if-cases stored now s t.lease_owner) [
      | inr raises ↦ Sound-unchanged p s _ (err lease_not_held) (ground arith) valid
      | inl (lease, returns) ↦ elim (Result-cases (validate_transition stored.status t.status)) [
        | inl (done, legal) ↦
            Sound-by p s _ _
              (transition_run-moved p r v t now u s stored c.found c.version lease legal)
              (moved-Sound r v t now u stored c.found legal)
        | inr (e, illegal) ↦ Sound-unchanged p s _ (err e) (ground arith) valid
      ]
    ]
  ]
