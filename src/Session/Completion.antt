-- ===== src/Session/Completion.antt =====
-- What a session goes through with a Run that it has claimed.
use m_agent.Base.{
  ℕ, ◌+◌, String, ◌≡◌, ◌≢◌, refl, true, false, none, some, [], ◌∷◌, ◌++◌, arith, ==_iff, String_eq,
  pair_eq, ok,
}
use m_agent.Base.Dict.{get, put}
use m_agent.Run.Status.{RunStatus_eq, succeeded, is_terminal, terminal_statuses}
use m_agent.Run.Records.{RunRecord}
use m_agent.Session.Model.{SessionRunClaim, not_ready, committed}
use m_agent.Session.Store.{StoredSession, SessionStore, lookup, release_claim}
use m_agent.Session.Invariant.{IsSession}
use m_agent.Session.Commit.{claim-exclusive}
use m_agent.Session.Runner.{Fresh, turn_of, outcome, commit_successful_run, complete}

pub release_claim-own :
    (scope id : String) (s : SessionStore) (stored : StoredSession) (c : SessionRunClaim)
    (r : String) (now : ℕ)
    → get (scope, id) s ≡ some stored
    → stored.claim ≡ some c
    → c.run_id ≡ r
    → release_claim scope id r now s
      ≡ (ok tt, put (scope, id) (record stored { claim = none; updated_at = now }) s)
unfolding release_claim lookup
release_claim-own scope id s stored c r now found claimed own = ground (arith, ==_iff c.run_id r)

module _ (scope id : String) (s : SessionStore) (stored : StoredSession) (c : SessionRunClaim)
    (run : RunRecord) (fresh : Fresh) where
  -- When the Run of the claim of a session that meets its invariant comes back, the session does with it what its status says.
  -- SUCCEEDED: its input and output become the next turn, the claim is cleared and the version is
  -- raised. Another terminal status: the claim is cleared and the turns stay. No terminal status:
  -- nothing changes, so that the claim holds off other messages.
  pub complete_by_status :
      get (scope, id) s ≡ some stored
      → IsSession id stored
      → stored.claim ≡ some c
      → c.run_id ≡ run.run_id
      → (run.status ≡ succeeded
          → complete scope id run c fresh s ≡ (
            ok (outcome run c committed (some (turn_of id run fresh))),
            put
                (scope, id)
                (record stored {
                  turns = stored.turns ++ turn_of id run fresh ∷ [];
                  claim = none;
                  version = stored.version + 1;
                  updated_at = fresh.committed_at;
                })
                s,
          ))
        × (is_terminal run.status ≡ true
            → run.status ≢ succeeded
            → complete scope id run c fresh s ≡ (
              ok (outcome run c not_ready none),
              put (scope, id) (record stored { claim = none; updated_at = fresh.released_at }) s,
            ))
        × (is_terminal run.status ≡ false
            → complete scope id run c fresh s ≡ (ok (outcome run c not_ready none), s))
  unfolding complete commit_successful_run turn_of is_terminal terminal_statuses
  complete_by_status found valid claimed own =
      let committing =
        (claim-exclusive scope id s stored c found valid claimed).2 (turn_of id run fresh)
          fresh.committed_at refl own in
      let releasing =
        release_claim-own scope id s stored c run.run_id fresh.released_at found claimed own in
      (
        λ status. ground (arith, committing),
        λ terminal status. ground (arith, releasing, ==_iff run.status succeeded),
        λ open_. ground (arith, ==_iff run.status succeeded),
      )
