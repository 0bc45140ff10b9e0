-- ===== src/Tests/Sessions.antt =====
-- The theorems about sessions at concrete inputs.
use m_agent.Base.{
  ℕ, String, ◌≡◌, ◌≢◌, refl, ap, none, some, List, [], ◌∷◌, arith, ◌==◌, String_eq, pair_eq, ok,
  err,
}
use m_agent.Base.Dict.{get, put}
use m_agent.Errors.{session_claim_conflict}
use m_agent.Session.Model.{SessionRunClaim, SessionTurn, committed, conflict}
use m_agent.Session.Store.{
  StoredSession, SessionStore, existing_turn, is_blank, lookup, create_session, claim_run,
  release_claim, commit_turn, find_turn_by_run,
}
use m_agent.Session.Effect.{SessionCall, create, claim, release, commit, apply, apply_all}
use m_agent.Session.Invariant.{IsSession, IsValid, apply_all-IsValid, empty-IsValid}
use m_agent.Session.History.{Extends, apply_all-Extends, apply_all-isolated}
use m_agent.Session.Commit.{commit_turn-once, claim-exclusive}
use m_agent.Session.Pages.{read_pages, read_pages_complete}

abbrev pub turn_1 : SessionTurn
turn_1 = record {
  turn_id = "turn-1";
  session_id = "chat";
  run_id = "run-1";
  definition_id = "assistant";
  definition_version = "1";
  user_input = "hello";
  assistant_output = "hi";
  created_at = 5;
}

abbrev claim_1 : SessionRunClaim
claim_1 = record { session_id = "chat"; run_id = "run-1"; session_version = 0; claimed_at = 2 }

-- A session that Run "run-1" has claimed.
abbrev stored_1 : StoredSession
stored_1 = record {
  session_id = "chat";
  version = 0;
  claim = some claim_1;
  turns = [];
  created_at = 1;
  updated_at = 3;
}

abbrev claimed_store : SessionStore
claimed_store = (("alice", "chat"), stored_1) ∷ []

abbrev stored_2 : StoredSession
stored_2 = record {
  session_id = "chat";
  version = 1;
  claim = none;
  turns = turn_1 ∷ [];
  created_at = 1;
  updated_at = 6;
}

abbrev calls_1 : List SessionCall
calls_1 =
    create "alice" "chat" 1
    ∷ claim "alice" "chat" "run-1" 0 2 3
    ∷ claim "alice" "chat" "run-2" 0 3 4
    ∷ commit "alice" "chat" turn_1 0 6
    ∷ release "alice" "chat" "run-1" 7
    ∷ []

run_example : apply_all calls_1 [] ≡ (("alice", "chat"), stored_2) ∷ []
unfolding apply_all apply get put release_claim lookup commit_turn claim_run create_session is_blank
    existing_turn
run_example = refl

apply_all-IsValid_example : IsValid (apply_all calls_1 [])
apply_all-IsValid_example = apply_all-IsValid calls_1 [] empty-IsValid

found_1 : get ("alice", "chat") claimed_store ≡ some stored_1
unfolding get
found_1 = refl

apply_all-Extends_example : Extends ("alice", "chat") [] (apply_all calls_1 claimed_store)
apply_all-Extends_example =
    apply_all-Extends calls_1 claimed_store ("alice", "chat") stored_1 found_1

scopes_differ : (id : String) → ◌≢◌ {A = String × String} ("alice", id) ("bob", "chat")
scopes_differ id e = absurd (cc (ap (λ (k : String × String). k.0 == "alice") e))

apply_all-isolated_example :
    get ("bob", "chat") (apply_all calls_1 claimed_store) ≡ get ("bob", "chat") claimed_store
apply_all-isolated_example =
    apply_all-isolated calls_1 claimed_store ("bob", "chat")
      (
        scopes_differ "chat",
        (
          scopes_differ "chat",
          (scopes_differ "chat", (scopes_differ "chat", (scopes_differ "chat", tt))),
        ),
      )

committed_1 :
    (commit_turn "alice" "chat" turn_1 0 6 claimed_store).0
    ≡ ok (record { status = committed; turn = some turn_1; version = 1 })
unfolding commit_turn get put lookup existing_turn
committed_1 = refl

commit_turn-once_example :
    let s' = apply_all calls_1 (commit_turn "alice" "chat" turn_1 0 6 claimed_store).1 in
    (find_turn_by_run "alice" "chat" "run-1" s' ≡ (ok (some turn_1), s'))
    × ((turn' : SessionTurn) (v' now' : ℕ)
        → turn'.run_id ≡ "run-1"
        → turn'.session_id ≡ "chat"
        → (w' : ℕ) × (commit_turn "alice" "chat" turn' v' now' s'
            ≡ (ok (record { status = committed; turn = some turn_1; version = w' }), s')))
commit_turn-once_example =
    commit_turn-once "alice" "chat" turn_1 0 6 claimed_store turn_1 1 committed_1 calls_1

stored_1-IsSession : IsSession "chat" stored_1
unfolding existing_turn
stored_1-IsSession = record {
  own_id = refl;
  version = refl;
  turns = tt;
  claim = (refl, refl, refl);
}

claim-exclusive_example :
    ((r : String) (v now later : ℕ)
      → claim_run "alice" "chat" r v now later claimed_store
        ≡ (err session_claim_conflict, claimed_store))
    × ((turn : SessionTurn) (v now : ℕ)
        → turn.session_id ≡ "chat"
        → "run-1" ≢ turn.run_id
        → existing_turn [] turn.run_id ≡ none
        → commit_turn "alice" "chat" turn v now claimed_store
          ≡ (ok (record { status = conflict; turn = none; version = 0 }), claimed_store))
    × ((turn : SessionTurn) (now : ℕ)
        → turn.session_id ≡ "chat"
        → "run-1" ≡ turn.run_id
        → commit_turn "alice" "chat" turn 0 now claimed_store ≡ (
          ok (record { status = committed; turn = some turn; version = 1 }),
          put
              ("alice", "chat")
              (record stored_1 { turns = turn ∷ []; claim = none; version = 1; updated_at = now })
              claimed_store,
        ))
claim-exclusive_example =
    claim-exclusive "alice" "chat" claimed_store stored_1 claim_1 found_1 stored_1-IsSession refl

read_pages_complete_example : read_pages 1 stored_2 3 0 ≡ turn_1 ∷ []
read_pages_complete_example = read_pages_complete 1 stored_2 3 0 (omega arith) (omega arith)
