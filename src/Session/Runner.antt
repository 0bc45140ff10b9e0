-- ===== src/Session/Runner.antt =====
-- `SessionRunner` (m_agent/companion/_session_runner.py) over the store of sessions in memory. The
-- Runner is an interface: its methods act on a world of its own. The fresh identifiers and the
-- readings of the clocks are arguments.
use m_agent.Base.{
  ℕ, String, Bool, true, false, Option, none, some, List, [], ◌∷◌, ◌==◌, not, ◌==ℕ◌, value_or,
  String_eq, pair_eq, Result, ok, err, if◌then◌else◌,
}
use m_agent.Base.Exec.{Exec, ◌>>=◌, ◌>>◌, pure, raise, gets, or_raise, catch, on_first, on_second}
use m_agent.Errors.{
  Error, run_not_found, session_not_found, duplicate_session, session_claim_conflict,
  session_version_conflict,
}
use m_agent.Run.Status.{RunStatus, RunStatus_eq, succeeded, is_terminal}
use m_agent.Run.Records.{ConversationMessage, user, assistant, RunRecord}
use m_agent.Session.Model.{
  SessionRunClaim, SessionTurn, SessionRecord, SessionCommitStatus, SessionCommitResult, not_ready,
  committed, pending, conflict,
}
use m_agent.Session.Effect.{SessionCall, apply_all}
use m_agent.Session.Store.{
  SessionStore, get_session, read_snapshot, claim_run, release_claim, commit_turn, find_turn_by_run,
}

-- What the session runner calls of the Runner.
pub record Runner (W : Type 0) : Type 0 where
  pub create_run :
      String → String → String → String → List ConversationMessage → Exec Error W RunRecord
  pub start_run : String → Exec Error W RunRecord
  pub get_run : String → Exec Error W RunRecord
  pub resume_run : String → Exec Error W RunRecord

-- `SessionRunResult`
pub record SessionRunResult : Type 0 where
  pub run : RunRecord
  pub claim : SessionRunClaim
  pub commit_status : SessionCommitStatus
  pub turn : Option SessionTurn

-- The identifiers that are made and the readings that are taken during one call.
pub record Fresh : Type 0 where
  pub run_id : String
  pub turn_id : String
  pub claimed_at : ℕ
  pub updated_at : ℕ
  pub released_at : ℕ
  pub turn_at : ℕ
  pub committed_at : ℕ

-- `_to_conversation_history`
unfoldable pub to_conversation_history : List SessionTurn → List ConversationMessage
to_conversation_history [] = []
to_conversation_history (turn ∷ turns) =
    record { role = user; content = turn.user_input }
    ∷ record { role = assistant; content = turn.assistant_output }
    ∷ to_conversation_history turns

-- `except SessionError`
abbrev is_session_error : Error → Bool
is_session_error session_not_found = true
is_session_error duplicate_session = true
is_session_error session_claim_conflict = true
is_session_error session_version_conflict = true
is_session_error _ = false

-- The turn that `_commit_successful_run` builds.
unfoldable pub turn_of : String → RunRecord → Fresh → SessionTurn
turn_of session_id run fresh = record {
  turn_id = fresh.turn_id;
  session_id = session_id;
  run_id = run.run_id;
  definition_id = run.definition_id;
  definition_version = run.definition_version;
  user_input = run.input;
  assistant_output = value_or run.output "";
  created_at = fresh.turn_at;
}

abbrev pub outcome :
    RunRecord → SessionRunClaim → SessionCommitStatus → Option SessionTurn → SessionRunResult
outcome run claim status turn = record {
  run = run;
  claim = claim;
  commit_status = status;
  turn = turn;
}

-- The answer of the session runner to that of the store.
abbrev after_commit :
    RunRecord → SessionRunClaim → Result Error SessionCommitResult → SessionRunResult
after_commit run claim (err e) = outcome run claim pending none
after_commit run claim (ok result) = elim result.status [
  | committed ↦ outcome run claim committed result.turn
  | _ ↦ outcome run claim conflict none
]

abbrev pub Action : Type 0 → Type 0
Action A = Exec Error SessionStore A

-- `_commit_successful_run`
unfoldable pub commit_successful_run :
    String → String → RunRecord → SessionRunClaim → Fresh → Action SessionRunResult
commit_successful_run scope session_id run claim fresh = do
  result ← catch (
      commit_turn scope session_id (turn_of session_id run fresh) claim.session_version
        fresh.committed_at)
  pure (after_commit run claim result)

abbrev complete_with :
    RunStatus → String → String → RunRecord → SessionRunClaim → Fresh → Action SessionRunResult
complete_with status scope session_id run claim fresh =
    if status == succeeded
    then commit_successful_run scope session_id run claim fresh
    else if is_terminal status
    then (do
      release_claim scope session_id run.run_id fresh.released_at
      pure (outcome run claim not_ready none))
    else pure (outcome run claim not_ready none)

-- `_complete`
unfoldable pub complete :
    String → String → RunRecord → SessionRunClaim → Fresh → Action SessionRunResult
unfolding commit_successful_run
complete scope session_id run claim fresh =
    complete_with run.status scope session_id run claim fresh

-- The end of the rollback of `submit`, by the outcome of the release.
abbrev give_up : Error → Result Error (Unit {0}) → Action RunRecord
give_up e (ok _) = raise e
give_up e (err other) = if is_session_error other then raise e else raise other

-- The `except` of `submit`: the claim is released, and the error goes on.
unfoldable pub roll_back : String → String → Fresh → Result Error RunRecord → Action RunRecord
roll_back scope session_id fresh (ok run) = pure run
roll_back scope session_id fresh (err e) = do
  released ← catch (release_claim scope session_id fresh.run_id fresh.released_at)
  give_up e released

-- What other clients call of the store of sessions before each place where `submit` awaits it: the
-- reading (0), the claim (1), the release after a Run that could not be created (2), and the
-- completion (3), before which the Runner has created and started the Run.
abbrev pub Others : Type 0
Others = ℕ → List SessionCall

abbrev pub awaiting : {A : Type 0} → List SessionCall → Action A → Action A
awaiting calls act s = act (apply_all calls s)

abbrev pub roll_back_after :
    List SessionCall → String → String → Fresh → Result Error RunRecord → Action RunRecord
roll_back_after calls scope session_id fresh (ok run) = pure run
roll_back_after calls scope session_id fresh (err e) =
    awaiting calls (roll_back scope session_id fresh (err e))

module _ {W : Type 0} (runner : Runner W) where
  unfoldable pub submit :
      Others
      → String
      → String
      → String
      → String
      → String
      → Fresh
      → Exec Error (W × SessionStore) SessionRunResult
  unfolding to_conversation_history roll_back complete apply_all
  submit others scope session_id definition_id definition_version user_input fresh = do
    snapshot ← on_second (awaiting (others 0) (read_snapshot scope session_id none 0 none))
    let history = to_conversation_history snapshot.turns
    claim ← on_second (
        awaiting (others 1) (
          claim_run scope session_id fresh.run_id snapshot.version fresh.claimed_at
            fresh.updated_at))
    created ← catch (
        on_first
          (runner.create_run definition_id definition_version user_input fresh.run_id history))
    _ ← on_second (roll_back_after (others 2) scope session_id fresh created)
    run ← on_first (runner.start_run fresh.run_id)
    on_second (awaiting (others 3) (complete scope session_id run claim fresh))

  -- The `except RunNotFoundError` of `resume`.
  unfoldable pub clean_up :
      String
      → String
      → String
      → Fresh
      → Result Error RunRecord
      → Exec Error (W × SessionStore) RunRecord
  clean_up scope session_id run_id fresh (ok run) = pure run
  clean_up scope session_id run_id fresh (err run_not_found) = do
    on_second (release_claim scope session_id run_id fresh.released_at)
    raise run_not_found
  clean_up scope session_id run_id fresh (err e) = raise e

  abbrev advance : RunRecord → String → Exec Error (W × SessionStore) RunRecord
  advance run run_id =
      if is_terminal run.status then pure run else on_first (runner.resume_run run_id)

  unfoldable pub resume : String → String → Fresh → Exec Error (W × SessionStore) SessionRunResult
  unfolding clean_up complete
  resume scope session_id fresh = do
    found ← gets (λ s. get_session scope session_id s.1)
    stored ← or_raise found session_not_found
    claim ← or_raise stored.claim session_claim_conflict
    known ← catch (on_first (runner.get_run claim.run_id))
    run ← clean_up scope session_id claim.run_id fresh known
    run' ← advance run claim.run_id
    on_second (complete scope session_id run' claim fresh)

  -- The claim is that of the Run, for the current version.
  abbrev status_of_claim : Option SessionRunClaim → ℕ → String → SessionCommitStatus
  status_of_claim none version run_id = conflict
  status_of_claim (some claim) version run_id =
      if not (claim.run_id == run_id)
      then conflict
      else if not (version ==ℕ claim.session_version)
      then conflict
      else pending

  abbrev status_of :
      SessionRecord
      → String
      → Option SessionTurn
      → Exec Error (W × SessionStore) SessionCommitStatus
  status_of stored run_id (some turn) = pure committed
  status_of stored run_id none = do
    run ← on_first (runner.get_run run_id)
    pure (
        if not (run.status == succeeded)
        then not_ready
        else status_of_claim stored.claim stored.version run_id)

  unfoldable pub commit_status :
      String → String → String → Exec Error (W × SessionStore) SessionCommitStatus
  commit_status scope session_id run_id = do
    found ← gets (λ s. get_session scope session_id s.1)
    stored ← or_raise found session_not_found
    turn ← on_second (find_turn_by_run scope session_id run_id)
    status_of stored run_id turn
