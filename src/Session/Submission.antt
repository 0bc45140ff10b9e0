-- ===== src/Session/Submission.antt =====
-- `submit`: a message of a session becomes one Run and, where it succeeds, one turn.
use m_agent.Base.{
  ◌+◌, String, ◌≡◌, ◌∙◌, refl, sym, none, some, List, [], ◌∷◌, ◌++◌, arith, ==_refl, ==ℕ_iff,
  String_eq, pair_eq, Result, ok, err,
}
use m_agent.Base.Dict.{get, put, get-put}
use m_agent.Errors.{Error}
use m_agent.Run.Status.{RunStatus_eq, succeeded}
use m_agent.Run.Records.{RunRecord, ConversationMessage}
use m_agent.Session.Model.{SessionRunClaim, committed}
use m_agent.Session.Store.{
  StoredSession, SessionStore, lookup, existing_turn, claim_run, read_snapshot, to_snapshot, window,
}
use m_agent.Session.Invariant.{IsSession}
use m_agent.Session.Completion.{release_claim-own, complete_by_status}
use m_agent.Session.Effect.{SessionCall, apply_all}
use m_agent.Session.History.{Avoids, apply_all-isolated}
use m_agent.Session.Held.{AllSpare, apply_all-held}
use m_agent.Session.Runner.{
  Others, Runner, SessionRunResult, Fresh, turn_of, outcome, roll_back, submit,
  to_conversation_history,
}

module _ (scope id : String) (s : SessionStore) (stored : StoredSession) (fresh : Fresh) where
  abbrev pub claim_of : SessionRunClaim
  claim_of = record {
    session_id = stored.session_id;
    run_id = fresh.run_id;
    session_version = stored.version;
    claimed_at = fresh.claimed_at;
  }

  abbrev pub claimed_session : StoredSession
  claimed_session = record stored { claim = some claim_of; updated_at = fresh.updated_at }

  abbrev pub claimed_store : SessionStore
  claimed_store = put (scope, id) claimed_session s

  read_snapshot-whole :
      get (scope, id) s ≡ some stored
      → read_snapshot scope id none 0 none s ≡ (ok (to_snapshot stored 0 none), s)
  unfolding read_snapshot lookup
  read_snapshot-whole found = ground arith

  claim_run-granted :
      get (scope, id) s ≡ some stored
      → stored.claim ≡ none
      → existing_turn stored.turns fresh.run_id ≡ none
      → claim_run scope id fresh.run_id stored.version fresh.claimed_at fresh.updated_at s
        ≡ (ok claim_of, claimed_store)
  unfolding claim_run lookup
  claim_run-granted found free new = ground (arith, ==ℕ_iff stored.version stored.version)

  get-claimed_store : get (scope, id) claimed_store ≡ some claimed_session
  get-claimed_store = ground (
    arith,
    get-put (scope, id) (scope, id) claimed_session s,
    ==_refl {A = String × String} (scope, id),
  )

module _ {W : Type 0} (runner : Runner W) (others : Others)
    (scope id definition version input : String) (fresh : Fresh) (w : W) (s : SessionStore)
    (stored : StoredSession) where
  abbrev submitted : Result Error SessionRunResult × (W × SessionStore)
  submitted = submit runner others scope id definition version input fresh (w, s)

  abbrev history : List ConversationMessage
  history = to_conversation_history stored.turns

  -- The store at the reading, and at the claim.
  abbrev s₀ : SessionStore
  s₀ = apply_all (others 0) s

  abbrev s₁ : SessionStore
  s₁ = apply_all (others 1) s₀

  claim_at :
      get (scope, id) s₀ ≡ some stored
      → Avoids (scope, id) (others 1)
      → get (scope, id) s₁ ≡ some stored
  claim_at found avoids = apply_all-isolated (others 1) s₀ (scope, id) avoids ∙ found

  abbrev s₂ : List SessionCall → SessionStore
  s₂ calls = apply_all calls (claimed_store scope id s₁ stored fresh)

  held_at :
      (calls : List SessionCall)
      → AllSpare (scope, id) fresh.run_id calls
      → get (scope, id) (s₂ calls) ≡ some (claimed_session scope id s₁ stored fresh)
  held_at calls spare =
      apply_all-held scope id (claimed_session scope id s₁ stored fresh)
        (claim_of scope id s₁ stored fresh) refl calls (claimed_store scope id s₁ stored fresh)
        (get-claimed_store scope id s₁ stored fresh) spare

  -- A message of a session that is read unclaimed and without a turn of the new Run, where no other
  -- client calls for that session between the reading and the claim, and none releases or
  -- commits for the new Run after it: where the Run cannot be created, the error goes on, the Run is
  -- not started, and the session is as it was, unclaimed, but for the time of its last change.
  pub submit_rolls_back :
      get (scope, id) (apply_all (others 0) s) ≡ some stored
      → Avoids (scope, id) (others 1)
      → AllSpare (scope, id) fresh.run_id (others 2)
      → stored.claim ≡ none
      → existing_turn stored.turns fresh.run_id ≡ none
      → (e : Error) (w' : W)
      → runner.create_run definition version input fresh.run_id history w ≡ (err e, w')
      → (submitted.0 ≡ err e)
        × (submitted.1.0 ≡ w')
        × (get (scope, id) submitted.1.1
            ≡ some (record stored { claim = none; updated_at = fresh.released_at }))
  unfolding submit roll_back to_snapshot window
  submit_rolls_back found avoids spare free new e w' refused =
      let reading = read_snapshot-whole scope id s₀ stored fresh found in
      let claiming = claim_run-granted scope id s₁ stored fresh (claim_at found avoids) free new in
      let last : StoredSession = record stored { claim = none; updated_at = fresh.released_at } in
      let releasing =
        release_claim-own scope id (s₂ (others 2)) (claimed_session scope id s₁ stored fresh)
          (claim_of scope id s₁ stored fresh) fresh.run_id fresh.released_at
          (held_at (others 2) spare) refl refl in
      let s' = put (scope, id) last (s₂ (others 2)) in
      let made : submitted ≡ (err e, (w', s')) =
        ground (arith, reading, claiming, releasing, refused) in
      rw made (
        refl,
        refl,
        ground (
          arith,
          get-put (scope, id) (scope, id) last (s₂ (others 2)),
          ==_refl {A = String × String} (scope, id),
        ),
      )

  -- A message of a session that is read unclaimed, meeting its invariant and without a turn of the
  -- new Run: if no other client calls for that session between the reading and the claim, and none
  -- releases or commits for the new Run while it is under way, whatever else they call, and the
  -- Run is created and succeeds, then the message becomes the next turn of the session, with the
  -- Run's input and output; the claim is cleared, and the version is raised.
  pub submit_appends :
      get (scope, id) (apply_all (others 0) s) ≡ some stored
      → Avoids (scope, id) (others 1)
      → AllSpare (scope, id) fresh.run_id (others 3)
      → IsSession id stored
      → stored.claim ≡ none
      → existing_turn stored.turns fresh.run_id ≡ none
      → (made run : RunRecord) (w₁ w₂ : W)
      → runner.create_run definition version input fresh.run_id history w ≡ (ok made, w₁)
      → runner.start_run fresh.run_id w₁ ≡ (ok run, w₂)
      → run.run_id ≡ fresh.run_id
      → run.status ≡ succeeded
      → (submitted.0
          ≡ ok (
              outcome run
                (claim_of scope id s₁ stored fresh)
                committed
                (some (turn_of id run fresh))))
        × (submitted.1.0 ≡ w₂)
        × (get (scope, id) submitted.1.1
            ≡ some (record stored {
              turns = stored.turns ++ turn_of id run fresh ∷ [];
              claim = none;
              version = stored.version + 1;
              updated_at = fresh.committed_at;
            }))
  unfolding submit roll_back to_snapshot window
  submit_appends found avoids spare valid free new made run w₁ w₂ creating starting same status =
      let reading = read_snapshot-whole scope id s₀ stored fresh found in
      let claiming = claim_run-granted scope id s₁ stored fresh (claim_at found avoids) free new in
      let last : StoredSession = record stored {
        turns = stored.turns ++ turn_of id run fresh ∷ [];
        claim = none;
        version = stored.version + 1;
        updated_at = fresh.committed_at;
      } in
      let s₃ = s₂ (others 3) in
      let held = claimed_session scope id s₁ stored fresh in
      let valid₁ : IsSession id held = record {
        own_id = valid.own_id;
        version = valid.version;
        turns = valid.turns;
        claim = (valid.own_id, refl, new);
      } in
      let completing =
        (complete_by_status scope id s₃ held (claim_of scope id s₁ stored fresh) run fresh
            (held_at (others 3) spare) valid₁ refl (sym same)).0
          status in
      let done : submitted ≡ (
        ok (
            outcome run (claim_of scope id s₁ stored fresh) committed
              (some (turn_of id run fresh))),
        (w₂, put (scope, id) last s₃),
      ) =
        ground (arith, reading, claiming, creating, starting, completing) in
      rw done (
        refl,
        refl,
        ground (
          arith,
          get-put (scope, id) (scope, id) last s₃,
          ==_refl {A = String × String} (scope, id),
        ),
      )
