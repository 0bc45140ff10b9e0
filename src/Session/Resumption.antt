-- ===== src/Session/Resumption.antt =====
-- `resume` and `commit_status`.
use m_agent.Base.{
  String, ◌≡◌, ◌≢◌, refl, sym, ◌∙◌, ap, true, none, some, arith, ==-cases, String_eq, pair_eq, inl,
  inr, ok, err, Option-cases, Result-cases,
}
use m_agent.Base.Dict.{get, put}
use m_agent.Errors.{Error, run_not_found}
use m_agent.Run.Status.{RunStatus_eq, succeeded, is_terminal}
use m_agent.Run.Records.{RunRecord}
use m_agent.Session.Model.{SessionRunClaim, committed, pending}
use m_agent.Session.Store.{
  StoredSession, SessionStore, lookup, existing_turn, get_session, to_record, find_turn_by_run,
}
use m_agent.Session.Invariant.{IsSession}
use m_agent.Session.Completion.{release_claim-own, complete_by_status}
use m_agent.Session.Runner.{
  Runner, Fresh, turn_of, outcome, complete, clean_up, resume, commit_status,
}

clean_up-other :
    {W : Type 0} (runner : Runner W) (scope id r : String) (fresh : Fresh) (e : Error)
    (state : W × SessionStore)
    → e ≢ run_not_found
    → clean_up runner scope id r fresh (err e) state ≡ (err e, state)
unfolding clean_up
clean_up-other runner scope id r fresh run_not_found state other = absurd (other refl)
clean_up-other runner scope id r fresh e state other = refl

module _ {W : Type 0} (runner : Runner W) (scope id : String) (fresh : Fresh) (w : W)
    (s : SessionStore) (stored : StoredSession) where
  -- Resuming a claimed session asks for the Run of the claim. Where there is no such Run, the
  -- claim is cleared and the error goes on. Any other error leaves the sessions as they are. A
  -- Run that is terminal is completed at once, without being resumed.
  pub resume_by_answer :
      get (scope, id) s ≡ some stored
      → (c : SessionRunClaim) → stored.claim ≡ some c
      → (w' : W)
      → (runner.get_run c.run_id w ≡ (err run_not_found, w')
          → resume runner scope id fresh (w, s) ≡ (
            err run_not_found,
            (
              w',
              put (scope, id) (record stored { claim = none; updated_at = fresh.released_at }) s,
            ),
          ))
        × ((e : Error)
            → e ≢ run_not_found
            → runner.get_run c.run_id w ≡ (err e, w')
            → resume runner scope id fresh (w, s) ≡ (err e, (w', s)))
        × ((run : RunRecord)
            → runner.get_run c.run_id w ≡ (ok run, w')
            → is_terminal run.status ≡ true
            → let (result, s') = complete scope id run c fresh s in
              resume runner scope id fresh (w, s) ≡ (result, (w', s')))
  unfolding resume clean_up get_session to_record
  resume_by_answer found c claimed w' =
      let releasing =
        release_claim-own scope id s stored c c.run_id fresh.released_at found claimed refl in
      (
        λ missing. ground (arith, releasing),
        λ e other broken.
            ground (arith, clean_up-other runner scope id c.run_id fresh e (w', s) other),
        λ run known terminal. ground arith,
      )

  -- PENDING is a window in which a retry is safe: in a session that meets its invariant, the Run has succeeded, and completing it with
  -- the claim that the session still holds commits its turn.
  pub commit_status_pending :
      get (scope, id) s ≡ some stored
      → IsSession id stored
      → (run_id : String) → (commit_status runner scope id run_id (w, s)).0 ≡ ok pending
      → (run : RunRecord) × (w' : W) × (held : SessionRunClaim) × (runner.get_run run_id w
          ≡ (ok run, w'))
        × (run.status ≡ succeeded)
        × (stored.claim ≡ some held)
        × (run.run_id ≡ run_id
            → (complete scope id run held fresh s).0
              ≡ ok (outcome run held committed (some (turn_of id run fresh))))
  unfolding commit_status get_session to_record find_turn_by_run lookup
  commit_status_pending found valid run_id h =
      let answer = runner.get_run run_id w in
      elim (Option-cases (existing_turn stored.turns run_id)) [
        | inr (turn, there) ↦ absurd (ground arith)
        | inl new ↦ elim (Result-cases answer.0) [
          | inr (e, broken) ↦ absurd (ground arith)
          | inl (run, known) ↦ elim (==-cases run.status succeeded) [
            | inr (other, f) ↦ absurd (ground arith)
            | inl (status, t) ↦ elim (Option-cases stored.claim) [
              | inl free ↦ absurd (ground arith)
              | inr (held, claimed) ↦ elim (==-cases held.run_id run_id) [
                | inr (other, f) ↦ absurd (ground arith)
                | inl (own, t') ↦ (
                  run,
                  answer.1,
                  held,
                  ap (λ r. (r, answer.1)) known,
                  status,
                  claimed,
                  λ same.
                      ap (λ x. x.0)
                        ((complete_by_status scope id s stored held run fresh found valid claimed
                            (own ∙ sym same)).0
                          status),
                )
              ]
            ]
          ]
        ]
      ]
