-- ===== src/Session/Contract.antt =====
-- What `SessionStore` of m_agent/companion/_session.py promises its clients, without records,
-- versions and clocks: a session is its turns and the Run that has claimed it, and its version is
-- the number of its turns.
use m_agent.Base.{
  ℕ, ◌+◌, String, Bool, false, Option, none, some, List, [], ◌∷◌, ◌++◌, ◌&&◌, not, ◌==◌, ◌==ℕ◌, ltb,
  String_eq, pair_eq, is_some, length, Result, ok, err, if◌then◌else◌,
}
use m_agent.Errors.{
  Error, session_not_found, duplicate_session, session_claim_conflict, session_version_conflict,
  value_error,
}
use m_agent.Session.Model.{SessionTurn, SessionCommitStatus, committed, conflict}
use m_agent.Session.Store.{
  StoredSession, SessionStore, is_blank, existing_turn, window, differs, is_no_page, create_session,
  claim_run, release_claim, commit_turn, find_turn_by_run, read_snapshot,
}

pub record Conversation : Type 0 where
  pub turns : List SessionTurn
  pub claimed_by : Option String

-- The methods of the contract, the ones that only read included, and what they answer, times left
-- out.
pub data Request : Type 0 where
  create : String → String → ℕ → Request
  claim : String → String → String → ℕ → ℕ → ℕ → Request
  release : String → String → String → ℕ → Request
  commit : String → String → SessionTurn → ℕ → ℕ → Request
  find : String → String → String → Request
  read : String → String → Option ℕ → ℕ → Option ℕ → Request

pub data Answer : Type 0 where
  done : Answer
  claimed : String → ℕ → Answer
  settled : SessionCommitStatus → Option SessionTurn → ℕ → Answer
  found : Option SessionTurn → Answer
  page : List SessionTurn → ℕ → Option ℕ → Answer

abbrev pub key_of : Request → String × String
key_of (create scope id now) = (scope, id)
key_of (claim scope id r v now later) = (scope, id)
key_of (release scope id r now) = (scope, id)
key_of (commit scope id turn v now) = (scope, id)
key_of (find scope id r) = (scope, id)
key_of (read scope id v after limit) = (scope, id)

abbrev pub Reply : Type 0
Reply = Result Error Answer × Option Conversation

-- Whether a commit of a Run at a version is due.
abbrev pub is_due : Conversation → String → ℕ → Bool
is_due c r v = elim c.claimed_by [ none ↦ false | some q ↦ q == r && length c.turns ==ℕ v ]

abbrev pub page_of : List SessionTurn → ℕ → Option ℕ → Answer
page_of turns after limit =
    let next = after + length (window turns after limit) in
    page (window turns after limit) (length turns)
      (if ltb next (length turns) then some next else none)

-- A request to a session that is there.
abbrev pub reply_known : Request → Conversation → Reply
reply_known (create scope id now) c =
    ((if is_blank id then err value_error else err duplicate_session), some c)
reply_known (claim scope id r v now later) c =
    if is_some c.claimed_by
    then (err session_claim_conflict, some c)
    else if is_some (existing_turn c.turns r)
    then (err session_claim_conflict, some c)
    else if length c.turns ==ℕ v
    then (ok (claimed r v), some (record c { claimed_by = some r }))
    else (err session_version_conflict, some c)
reply_known (release scope id r now) c = elim c.claimed_by [
  | none ↦ (ok done, some c)
  | some q ↦
      if q == r
      then (ok done, some (record c { claimed_by = none }))
      else (err session_claim_conflict, some c)
]
reply_known (commit scope id turn v now) c =
    if not (turn.session_id == id)
    then (err value_error, some c)
    else elim (existing_turn c.turns turn.run_id) [
      | some t ↦ (ok (settled committed (some t) (length c.turns)), some c)
      | none ↦
          if is_due c turn.run_id v
          then (
            ok (settled committed (some turn) (length c.turns + 1)),
            some (record { turns = c.turns ++ turn ∷ []; claimed_by = none }),
          )
          else (ok (settled conflict none (length c.turns)), some c)
    ]
reply_known (find scope id r) c = (ok (found (existing_turn c.turns r)), some c)
reply_known (read scope id v after limit) c =
    if is_no_page limit
    then (err value_error, some c)
    else if differs v (length c.turns)
    then (err session_version_conflict, some c)
    else (ok (page_of c.turns after limit), some c)

-- A request to a session that is not there: only `create` makes one.
abbrev pub reply_unknown : Request → Reply
reply_unknown (create scope id now) =
    if is_blank id
    then (err value_error, none)
    else (ok done, some (record { turns = []; claimed_by = none }))
reply_unknown (read scope id v after limit) =
    ((if is_no_page limit then err value_error else err session_not_found), none)
reply_unknown _ = (err session_not_found, none)

unfoldable pub reply : Request → Option Conversation → Reply
reply q none = reply_unknown q
reply q (some c) = reply_known q c

abbrev pub Conversations : Type 0
Conversations = String × String → Option Conversation

-- A request changes the session that it names only.
unfoldable pub specified : Request → Conversations → Result Error Answer × Conversations
specified q c =
    let answered = reply q (c (key_of q)) in
    (answered.0, λ k. if key_of q == k then answered.1 else c k)

unfoldable pub specified_all : List Request → Conversations → List (Result Error Answer)
unfolding specified
specified_all [] c = []
specified_all (q ∷ qs) c = let step = specified q c in step.0 ∷ specified_all qs step.1

-- The same requests to the store.
abbrev pub answered :
    {A : Type 0} → (A → Answer) → Result Error A × SessionStore → Result Error Answer × SessionStore
answered f (ok a, s) = (ok (f a), s)
answered f (err e, s) = (err e, s)

unfoldable pub performed : Request → SessionStore → Result Error Answer × SessionStore
performed (create scope id now) s = answered (λ _. done) (create_session scope id now s)
performed (claim scope id r v now later) s =
    answered (λ c. claimed c.run_id c.session_version) (claim_run scope id r v now later s)
performed (release scope id r now) s = answered (λ _. done) (release_claim scope id r now s)
performed (commit scope id turn v now) s =
    answered (λ x. settled x.status x.turn x.version) (commit_turn scope id turn v now s)
performed (find scope id r) s = answered found (find_turn_by_run scope id r s)
performed (read scope id v after limit) s =
    answered (λ x. page x.turns x.version x.next_cursor) (read_snapshot scope id v after limit s)

unfoldable pub performed_all : List Request → SessionStore → List (Result Error Answer)
unfolding performed
performed_all [] s = []
performed_all (q ∷ qs) s = let step = performed q s in step.0 ∷ performed_all qs step.1

-- What the contract sees of a stored session.
abbrev pub view : StoredSession → Conversation
view stored = record {
  turns = stored.turns;
  claimed_by = elim stored.claim [ none ↦ none | some c ↦ some c.run_id ];
}

abbrev pub view_some : Option StoredSession → Option Conversation
view_some none = none
view_some (some stored) = some (view stored)
