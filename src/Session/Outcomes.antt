-- ===== src/Session/Outcomes.antt =====
-- Every call of the store of sessions has an outcome of the kinds of Session/Effect.antt.
use m_agent.Base.{
  ℕ, ◌+◌, String, none, some, [], ◌∷◌, ◌++◌, ◌&&◌, arith, ◌==◌, ◌==ℕ◌, String_eq, pair_eq, inl, inr,
  ok, err, Bool-cases, Option-cases, ==-cases,
}
use m_agent.Base.Dict.{get, put}
use m_agent.Errors.{
  session_not_found, duplicate_session, session_claim_conflict, session_version_conflict,
  value_error,
}
use m_agent.Session.Model.{SessionTurn, SessionRunClaim, committed, conflict}
use m_agent.Session.Store.{
  SessionStore, is_blank, existing_turn, is_claimed_by, create_session, to_record, claim_run,
  release_claim, commit_turn,
}
use m_agent.Session.Effect.{
  SessionCall, create, claim, release, commit, apply, key_of, claimed, released, appended, opened,
  updated, fresh_session, Outcome, Outcome-same, Outcome-ok, forget-Outcome, lookup-cases,
}

module _ (scope id : String) (s : SessionStore) where
  create_session-Outcome : (now : ℕ) → Outcome (scope, id) s (create_session scope id now s)
  unfolding create_session
  create_session-Outcome now = elim (Bool-cases (is_blank id)) [
    | inl blank ↦ Outcome-same (scope, id) s _ (err value_error) (ground arith)
    | inr named ↦ elim (Option-cases (get (scope, id) s)) [
      | inr (stored, e) ↦ Outcome-same (scope, id) s _ (err duplicate_session) (ground arith)
      | inl missing ↦
          Outcome-ok (scope, id) s _ (to_record (fresh_session id now))
            (put (scope, id) (fresh_session id now) s) (ground arith) (opened now missing)
    ]
  ]

  claim_run-Outcome :
      (r : String) (v now later : ℕ) → Outcome (scope, id) s (claim_run scope id r v now later s)
  unfolding claim_run
  claim_run-Outcome r v now later = elim (lookup-cases scope id s) [
    | inr raises ↦ Outcome-same (scope, id) s _ (err session_not_found) (ground arith)
    | inl (stored, found, returns) ↦ elim (Option-cases stored.claim) [
      | inr (c, e) ↦ Outcome-same (scope, id) s _ (err session_claim_conflict) (ground arith)
      | inl free ↦ elim (Option-cases (existing_turn stored.turns r)) [
        | inr (t, e) ↦ Outcome-same (scope, id) s _ (err session_claim_conflict) (ground arith)
        | inl fresh ↦ elim (Bool-cases (stored.version ==ℕ v)) [
          | inr stale ↦ Outcome-same (scope, id) s _ (err session_version_conflict) (ground arith)
          | inl current ↦
              let c : SessionRunClaim = record {
                session_id = stored.session_id;
                run_id = r;
                session_version = stored.version;
                claimed_at = now;
              } in
              Outcome-ok (scope, id) s _ c
                (put (scope, id) (record stored { claim = some c; updated_at = later }) s)
                (ground arith) (updated stored _ found (claimed r now later free fresh))
        ]
      ]
    ]
  ]

  release_claim-Outcome :
      (r : String) (now : ℕ) → Outcome (scope, id) s (release_claim scope id r now s)
  unfolding release_claim
  release_claim-Outcome r now = elim (lookup-cases scope id s) [
    | inr raises ↦ Outcome-same (scope, id) s _ (err session_not_found) (ground arith)
    | inl (stored, found, returns) ↦ elim (Option-cases stored.claim) [
      | inl free ↦ Outcome-same (scope, id) s _ (ok tt) (ground arith)
      | inr (c, e) ↦ elim (Bool-cases (c.run_id == r)) [
        | inr other ↦ Outcome-same (scope, id) s _ (err session_claim_conflict) (ground arith)
        | inl own ↦
            Outcome-ok (scope, id) s _ tt _ (ground arith) (updated stored _ found (released now))
      ]
    ]
  ]

  commit_turn-Outcome :
      (turn : SessionTurn) (v now : ℕ) → Outcome (scope, id) s (commit_turn scope id turn v now s)
  unfolding commit_turn
  commit_turn-Outcome turn v now = elim (lookup-cases scope id s) [
    | inr raises ↦ Outcome-same (scope, id) s _ (err session_not_found) (ground arith)
    | inl (stored, found, returns) ↦ elim (==-cases turn.session_id id) [
      | inr (other, f) ↦ Outcome-same (scope, id) s _ (err value_error) (ground arith)
      | inl (bound, own) ↦ elim (Option-cases (existing_turn stored.turns turn.run_id)) [
        | inr (existing, e) ↦
            Outcome-same (scope, id) s _
              (ok (record { status = committed; turn = some existing; version = stored.version }))
              (ground arith)
        | inl fresh ↦
            elim (Bool-cases (is_claimed_by stored.claim turn.run_id && stored.version ==ℕ v)) [
              | inr refused ↦
                  Outcome-same (scope, id) s _
                    (ok (record { status = conflict; turn = none; version = stored.version }))
                    (ground arith)
              | inl allowed ↦
                  Outcome-ok (scope, id) s _
                    (record { status = committed; turn = some turn; version = stored.version + 1 })
                    (put (scope, id)
                      (record stored {
                        turns = stored.turns ++ turn ∷ [];
                        claim = none;
                        version = stored.version + 1;
                        updated_at = now;
                      })
                      s)
                    (ground arith)
                    (updated stored _ found (appended turn now bound (ground arith) fresh))
            ]
      ]
    ]
  ]

-- A call that raises changes nothing, and any call has an effect on the session it names only.
pub apply-Outcome : (call : SessionCall) (s : SessionStore) → Outcome (key_of call) s (apply call s)
unfolding apply
apply-Outcome (create scope id now) s =
    forget-Outcome (scope, id) s _ (create_session-Outcome scope id s now)
apply-Outcome (claim scope id r v now later) s =
    forget-Outcome (scope, id) s _ (claim_run-Outcome scope id s r v now later)
apply-Outcome (release scope id r now) s =
    forget-Outcome (scope, id) s _ (release_claim-Outcome scope id s r now)
apply-Outcome (commit scope id turn v now) s =
    forget-Outcome (scope, id) s _ (commit_turn-Outcome scope id s turn v now)
