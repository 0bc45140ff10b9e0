-- ===== src/Session/Store.antt =====
-- `InMemorySessionStore` (m_agent/companion/_in_memory_session_store.py). A method is an action of
-- `Exec Error SessionStore`; a reading of the clock is an argument. Cursors are numbers, so a
-- negative one cannot be asked for.
use m_agent.Base.{
  ℕ, ◌+◌, String, Bool, true, false, Option, none, some, List, [], ◌∷◌, ◌++◌, ◌&&◌, ◌||◌, not, ◌==◌,
  ◌==ℕ◌, ltb, leb, String_eq, pair_eq, is_some, length, drop, take, if◌then◌else◌,
}
use m_agent.Base.Dict.{Dict, get, put}
use m_agent.Base.Exec.{Exec, ◌>>=◌, ◌>>◌, pure, raise_if, gets, or_raise, modify}
use m_agent.Errors.{
  Error, session_not_found, duplicate_session, session_claim_conflict, session_version_conflict,
  value_error,
}
use m_agent.Session.Model.{
  SessionRunClaim, SessionTurn, SessionSnapshot, SessionRecord, SessionCommitStatus,
  SessionCommitResult, committed, conflict,
}
use Prim.Native.Char.{Char, code}
use Prim.Native.String as Text

-- `_StoredSession`
pub record StoredSession : Type 0 where
  pub session_id : String
  pub version : ℕ
  pub claim : Option SessionRunClaim
  pub turns : List SessionTurn
  pub created_at : ℕ
  pub updated_at : ℕ

abbrev pub SessionStore : Type 0
SessionStore = Dict (String × String) StoredSession

abbrev pub Action : Type 0 → Type 0
Action A = Exec Error SessionStore A

-- The characters that `str.strip` takes off.
abbrev is_space : Char → Bool
is_space c =
    let n = code c in
    (leb 9 n && leb n 13)
    || (leb 28 n && leb n 32)
    || n ==ℕ 133
    || n ==ℕ 160
    || n ==ℕ 5760
    || (leb 8192 n && leb n 8202)
    || n ==ℕ 8232
    || n ==ℕ 8233
    || n ==ℕ 8239
    || n ==ℕ 8287
    || n ==ℕ 12288

-- `not session_id or not session_id.strip()`
unfoldable pub is_blank : String → Bool
is_blank Text.[] = true
is_blank (Text.◌∷◌ c s) = is_space c && is_blank s

-- `_lookup`
unfoldable pub lookup : String → String → Action StoredSession
lookup scope session_id = do
  found ← gets (get (scope, session_id))
  or_raise found session_not_found

-- `_record`
unfoldable pub to_record : StoredSession → SessionRecord
to_record stored = record {
  session_id = stored.session_id;
  version = stored.version;
  claim = stored.claim;
  created_at = stored.created_at;
  updated_at = stored.updated_at;
}

-- `_existing_turn`
unfoldable pub existing_turn : List SessionTurn → String → Option SessionTurn
existing_turn [] run_id = none
existing_turn (turn ∷ turns) run_id =
    if turn.run_id == run_id then some turn else existing_turn turns run_id

unfoldable pub create_session : String → String → ℕ → Action SessionRecord
unfolding to_record
create_session scope session_id now = do
  raise_if (is_blank session_id) value_error
  found ← gets (get (scope, session_id))
  raise_if (is_some found) duplicate_session
  let stored : StoredSession = record {
    session_id = session_id;
    version = 0;
    claim = none;
    turns = [];
    created_at = now;
    updated_at = now;
  }
  modify (put (scope, session_id) stored)
  pure (to_record stored)

unfoldable pub get_session : String → String → SessionStore → Option SessionRecord
unfolding to_record
get_session scope session_id s = elim (get (scope, session_id) s) [
  | none ↦ none
  | some stored ↦ some (to_record stored)
]

-- An expected version that is given differs from the version.
abbrev pub differs : Option ℕ → ℕ → Bool
differs none version = false
differs (some expected) version = not (expected ==ℕ version)

-- `limit is not None and limit <= 0`
abbrev pub is_no_page : Option ℕ → Bool
is_no_page none = false
is_no_page (some limit) = limit ==ℕ 0

-- `turns[after:]` or `turns[after : after + limit]`
unfoldable pub window : List SessionTurn → ℕ → Option ℕ → List SessionTurn
window turns after none = drop after turns
window turns after (some limit) = take limit (drop after turns)

unfoldable pub to_snapshot : StoredSession → ℕ → Option ℕ → SessionSnapshot
unfolding window
to_snapshot stored after limit =
    let next_cursor = after + length (window stored.turns after limit) in
    record {
      session_id = stored.session_id;
      version = stored.version;
      turns = window stored.turns after limit;
      next_cursor = if ltb next_cursor (length stored.turns) then some next_cursor else none;
    }

unfoldable pub read_snapshot : String → String → Option ℕ → ℕ → Option ℕ → Action SessionSnapshot
unfolding to_snapshot
read_snapshot scope session_id expected_version after limit = do
  raise_if (is_no_page limit) value_error
  stored ← lookup scope session_id
  raise_if (differs expected_version stored.version) session_version_conflict
  pure (to_snapshot stored after limit)

unfoldable pub get_claim : String → String → SessionStore → Option SessionRunClaim
get_claim scope session_id s = elim (get (scope, session_id) s) [
  | none ↦ none
  | some stored ↦ stored.claim
]

-- `now` and `later` are the two readings of the clock.
unfoldable pub claim_run : String → String → String → ℕ → ℕ → ℕ → Action SessionRunClaim
claim_run scope session_id run_id expected_version now later = do
  stored ← lookup scope session_id
  raise_if (is_some stored.claim) session_claim_conflict
  raise_if (is_some (existing_turn stored.turns run_id)) session_claim_conflict
  raise_if (not (stored.version ==ℕ expected_version)) session_version_conflict
  let claim : SessionRunClaim = record {
    session_id = stored.session_id;
    run_id = run_id;
    session_version = stored.version;
    claimed_at = now;
  }
  modify (put (scope, session_id) (record stored { claim = some claim; updated_at = later }))
  pure claim

-- The end of `release_claim`, by the claim that is recorded.
abbrev release :
    String → String → StoredSession → String → ℕ → Option SessionRunClaim → Action (Unit {0})
release scope session_id stored run_id now none = pure tt
release scope session_id stored run_id now (some claim) = do
  raise_if (not (claim.run_id == run_id)) session_claim_conflict
  modify (put (scope, session_id) (record stored { claim = none; updated_at = now }))

unfoldable pub release_claim : String → String → String → ℕ → Action (Unit {0})
release_claim scope session_id run_id now = do
  stored ← lookup scope session_id
  release scope session_id stored run_id now stored.claim

-- `claim is not None and claim.run_id == run_id`
unfoldable pub is_claimed_by : Option SessionRunClaim → String → Bool
is_claimed_by none run_id = false
is_claimed_by (some claim) run_id = claim.run_id == run_id

abbrev result_of : SessionCommitStatus → Option SessionTurn → ℕ → SessionCommitResult
result_of status turn version = record { status = status; turn = turn; version = version }

-- The end of `commit_turn`, by the turn of the same Run that is there.
abbrev commit :
    String
    → String
    → StoredSession
    → SessionTurn
    → ℕ
    → ℕ
    → Option SessionTurn
    → Action SessionCommitResult
commit scope session_id stored turn expected_version now (some existing) =
    pure (result_of committed (some existing) stored.version)
commit scope session_id stored turn expected_version now none =
    if is_claimed_by stored.claim turn.run_id && stored.version ==ℕ expected_version
    then (do
      modify (
          put (scope, session_id)
            (record stored {
              turns = stored.turns ++ turn ∷ [];
              claim = none;
              version = stored.version + 1;
              updated_at = now;
            }))
      pure (result_of committed (some turn) (stored.version + 1)))
    else pure (result_of conflict none stored.version)

unfoldable pub commit_turn : String → String → SessionTurn → ℕ → ℕ → Action SessionCommitResult
unfolding is_claimed_by
commit_turn scope session_id turn expected_version now = do
  stored ← lookup scope session_id
  raise_if (not (turn.session_id == session_id)) value_error
  commit scope session_id stored turn expected_version now (existing_turn stored.turns turn.run_id)

unfoldable pub find_turn_by_run : String → String → String → Action (Option SessionTurn)
find_turn_by_run scope session_id run_id = do
  stored ← lookup scope session_id
  pure (existing_turn stored.turns run_id)
