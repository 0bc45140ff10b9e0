-- ===== src/Tests/Submissions.antt =====
-- The theorems about the session runner at concrete inputs.
use m_agent.Base.{
  ℕ, zero, suc, ◌+◌, String, ◌≡◌, ◌≢◌, ◌==◌, refl, ap, inr, true, false, none, some, [], ◌∷◌,
  String_eq, pair_eq, Result, ok, err,
}
use m_agent.Base.Dict.{get, put}
use m_agent.Errors.{Error, run_not_found, definition_not_found}
use m_agent.Run.Status.{RunStatus_eq, succeeded, is_terminal}
use m_agent.Run.Records.{RunRecord}
use m_agent.Session.Model.{SessionRunClaim, not_ready, committed, pending}
use m_agent.Session.Store.{
  StoredSession, SessionStore, existing_turn, get_session, to_record, find_turn_by_run, lookup,
}
use m_agent.Session.Invariant.{IsSession}
use m_agent.Session.Effect.{create, claim, release, apply_all}
use m_agent.Session.History.{Avoids}
use m_agent.Session.Held.{AllSpare}
use m_agent.Session.Runner.{
  Others, Runner, Fresh, turn_of, outcome, complete, submit, resume, commit_status,
}
use m_agent.Session.Completion.{complete_by_status}
use m_agent.Session.Submission.{claim_of, submit_rolls_back, submit_appends}
use m_agent.Session.Resumption.{resume_by_answer, commit_status_pending}
use m_agent.Tests.Sample.{run_1}

-- A Runner that counts its calls, creates the Run that it is told, and finds and starts `run`.
abbrev counting : Result Error RunRecord → Result Error RunRecord → Runner ℕ
counting created known = record {
  create_run = λ definition version input run_id history n. (created, n + 1);
  start_run = λ run_id n. (known, n + 1);
  get_run = λ run_id n. (known, n + 1);
  resume_run = λ run_id n. (known, n + 1);
}

abbrev done_1 : RunRecord
done_1 = record run_1 { status = succeeded; output = some "hi" }

abbrev working : Runner ℕ
working = counting (ok run_1) (ok done_1)

abbrev failing : Runner ℕ
failing = counting (err definition_not_found) (err run_not_found)

abbrev fresh_1 : Fresh
fresh_1 = record {
  run_id = "run-1";
  turn_id = "turn-1";
  claimed_at = 2;
  updated_at = 3;
  released_at = 4;
  turn_at = 5;
  committed_at = 6;
}

abbrev idle_session : StoredSession
idle_session = record {
  session_id = "chat";
  version = 0;
  claim = none;
  turns = [];
  created_at = 1;
  updated_at = 1;
}

abbrev idle_store : SessionStore
idle_store = (("alice", "chat"), idle_session) ∷ []

abbrev claim_1 : SessionRunClaim
claim_1 = record { session_id = "chat"; run_id = "run-1"; session_version = 0; claimed_at = 2 }

abbrev busy_session : StoredSession
busy_session = record idle_session { claim = some claim_1; updated_at = 3 }

abbrev busy_store : SessionStore
busy_store = (("alice", "chat"), busy_session) ∷ []

idle_found : get ("alice", "chat") idle_store ≡ some idle_session
unfolding get
idle_found = refl

busy_found : get ("alice", "chat") busy_store ≡ some busy_session
unfolding get
busy_found = refl

idle-IsSession : IsSession "chat" idle_session
idle-IsSession = record { own_id = refl; version = refl; turns = tt; claim = tt }

busy-IsSession : IsSession "chat" busy_session
unfolding existing_turn
busy-IsSession = record { own_id = refl; version = refl; turns = tt; claim = (refl, refl, refl) }

no_turn : existing_turn [] "run-1" ≡ none
unfolding existing_turn
no_turn = refl

-- "bob" opens a session before the claim; while the Run is under way, another client tries to claim
-- the session for a Run of its own and to release it.
abbrev others_1 : Others
others_1 zero = []
others_1 (suc zero) = create "bob" "chat" 1 ∷ []
others_1 _ = claim "alice" "chat" "run-9" 0 4 5 ∷ release "alice" "chat" "run-9" 5 ∷ []

others_1-Avoids : Avoids ("alice", "chat") (others_1 1)
others_1-Avoids = (λ e. absurd (cc (ap (λ (k : String × String). k.0 == "alice") e)), tt)

others_1-AllSpare : (n : ℕ) → AllSpare ("alice", "chat") "run-1" (others_1 (suc (suc n)))
others_1-AllSpare n = (tt, (inr (λ e. absurd (cc (ap (λ r. r == "run-1") e))), tt))

idle_read : get ("alice", "chat") (apply_all (others_1 0) idle_store) ≡ some idle_session
unfolding apply_all
idle_read = idle_found

submit_appends_example :
    let (result, state) =
      submit working others_1 "alice" "chat" "assistant" "1" "hello" fresh_1 (0, idle_store) in
    (result
      ≡ ok (
          outcome done_1
            (claim_of "alice" "chat" idle_store idle_session fresh_1)
            committed
            (some (turn_of "chat" done_1 fresh_1))))
    × (state.0 ≡ 2)
    × (get ("alice", "chat") state.1
        ≡ some (record idle_session {
          turns = turn_of "chat" done_1 fresh_1 ∷ [];
          version = 1;
          updated_at = 6;
        }))
submit_appends_example =
    submit_appends working others_1 "alice" "chat" "assistant" "1" "hello" fresh_1 0 idle_store
      idle_session idle_read others_1-Avoids (others_1-AllSpare 1) idle-IsSession refl no_turn run_1
      done_1 1 2 refl refl refl refl

submit_rolls_back_example :
    let (result, state) =
      submit failing others_1 "alice" "chat" "nobody" "1" "hello" fresh_1 (0, idle_store) in
    (result ≡ err definition_not_found)
    × (state.0 ≡ 1)
    × (get ("alice", "chat") state.1 ≡ some (record idle_session { updated_at = 4 }))
submit_rolls_back_example =
    submit_rolls_back failing others_1 "alice" "chat" "nobody" "1" "hello" fresh_1 0 idle_store
      idle_session idle_read others_1-Avoids (others_1-AllSpare 0) refl no_turn definition_not_found
      1 refl

complete_by_status_example :
    (done_1.status ≡ succeeded
      → complete "alice" "chat" done_1 claim_1 fresh_1 busy_store ≡ (
        ok (outcome done_1 claim_1 committed (some (turn_of "chat" done_1 fresh_1))),
        put
            ("alice", "chat")
            (record busy_session {
              turns = turn_of "chat" done_1 fresh_1 ∷ [];
              claim = none;
              version = 1;
              updated_at = 6;
            })
            busy_store,
      ))
    × (is_terminal done_1.status ≡ true
        → done_1.status ≢ succeeded
        → complete "alice" "chat" done_1 claim_1 fresh_1 busy_store ≡ (
          ok (outcome done_1 claim_1 not_ready none),
          put ("alice", "chat") (record busy_session { claim = none; updated_at = 4 }) busy_store,
        ))
    × (is_terminal done_1.status ≡ false
        → complete "alice" "chat" done_1 claim_1 fresh_1 busy_store
          ≡ (ok (outcome done_1 claim_1 not_ready none), busy_store))
complete_by_status_example =
    complete_by_status "alice" "chat" busy_store busy_session claim_1 done_1 fresh_1 busy_found
      busy-IsSession refl refl

resume_by_answer_example :
    (failing.get_run "run-1" 0 ≡ (err run_not_found, 1)
      → resume failing "alice" "chat" fresh_1 (0, busy_store) ≡ (
        err run_not_found,
        (
          1,
          put ("alice", "chat") (record busy_session { claim = none; updated_at = 4 }) busy_store,
        ),
      ))
    × ((e : Error)
        → e ≢ run_not_found
        → failing.get_run "run-1" 0 ≡ (err e, 1)
        → resume failing "alice" "chat" fresh_1 (0, busy_store) ≡ (err e, (1, busy_store)))
    × ((run : RunRecord)
        → failing.get_run "run-1" 0 ≡ (ok run, 1)
        → is_terminal run.status ≡ true
        → let (result, s') = complete "alice" "chat" run claim_1 fresh_1 busy_store in
          resume failing "alice" "chat" fresh_1 (0, busy_store) ≡ (result, (1, s')))
resume_by_answer_example =
    resume_by_answer failing "alice" "chat" fresh_1 0 busy_store busy_session busy_found claim_1
      refl 1

pending_1 : (commit_status working "alice" "chat" "run-1" (0, busy_store)).0 ≡ ok pending
unfolding commit_status get_session to_record find_turn_by_run lookup get existing_turn
pending_1 = refl

commit_status_pending_example :
    (run : RunRecord) × (w' : ℕ) × (held : SessionRunClaim) × (working.get_run "run-1" 0
      ≡ (ok run, w'))
    × (run.status ≡ succeeded)
    × (busy_session.claim ≡ some held)
    × (run.run_id ≡ "run-1"
        → (complete "alice" "chat" run held fresh_1 busy_store).0
          ≡ ok (outcome run held committed (some (turn_of "chat" run fresh_1))))
commit_status_pending_example =
    commit_status_pending working "alice" "chat" fresh_1 0 busy_store busy_session busy_found
      busy-IsSession "run-1" pending_1
