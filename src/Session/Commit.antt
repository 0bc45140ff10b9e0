-- ===== src/Session/Commit.antt =====
-- What `commit_turn` and `claim_run` promise.
use m_agent.Base.{
  ℕ, ◌+◌, String, ◌≡◌, ◌≢◌, subst, ap, none, some, List, [], ◌∷◌, ◌++◌, ◌&&◌, arith, ◌==ℕ◌, ==_iff,
  ==_refl, ==-cases, String_eq, pair_eq, inl, inr, ok, err, Option-cases, Bool-cases,
}
use m_agent.Base.Dict.{get, put, get-put}
use m_agent.Errors.{session_claim_conflict}
use m_agent.Session.Model.{SessionTurn, SessionRunClaim, committed, conflict}
use m_agent.Session.Store.{
  StoredSession, SessionStore, lookup, existing_turn, is_claimed_by, commit_turn, find_turn_by_run,
  claim_run,
}
use m_agent.Session.Effect.{SessionCall, apply_all, lookup-cases}
use m_agent.Session.Invariant.{IsSession, IsClaim, existing_turn-snoc}
use m_agent.Session.History.{apply_all-Extends}

existing_turn-append :
    (turns added : List SessionTurn) (r : String) (turn : SessionTurn)
    → existing_turn turns r ≡ some turn
    → existing_turn (turns ++ added) r ≡ some turn
unfolding existing_turn
existing_turn-append [] added r turn h = absurd (ground arith)
existing_turn-append (t ∷ turns) added r turn h =
    ground (arith, existing_turn-append turns added r turn)

-- What is found under a Run is found after any calls.
existing_turn-forever :
    (calls : List SessionCall) (s : SessionStore) (scope id r : String) (stored : StoredSession)
    (turn : SessionTurn)
    → get (scope, id) s ≡ some stored
    → existing_turn stored.turns r ≡ some turn
    → (last : StoredSession) × (get (scope, id) (apply_all calls s) ≡ some last)
      × (existing_turn last.turns r ≡ some turn)
existing_turn-forever calls s scope id r stored turn found there =
    let (last, added, found', more) = apply_all-Extends calls s (scope, id) stored found in
    (last, found', rw more (existing_turn-append stored.turns added r turn there))

committed-turn :
    (scope id : String) (turn : SessionTurn) (v now : ℕ) (s : SessionStore) (t : SessionTurn)
    (w : ℕ)
    → (commit_turn scope id turn v now s).0
      ≡ ok (record { status = committed; turn = some t; version = w })
    → (stored : StoredSession) × (get (scope, id) (commit_turn scope id turn v now s).1
        ≡ some stored)
      × (existing_turn stored.turns turn.run_id ≡ some t)
      × (turn.session_id ≡ id)
unfolding commit_turn
committed-turn scope id turn v now s t w h = elim (lookup-cases scope id s) [
  | inr raises ↦ absurd (ground arith)
  | inl (stored, found, returns) ↦ elim (==-cases turn.session_id id) [
    | inr (other, f) ↦ absurd (ground arith)
    | inl (bound, own) ↦ elim (Option-cases (existing_turn stored.turns turn.run_id)) [
      | inr (existing, e) ↦ (stored, ground arith, ground arith, bound)
      | inl fresh ↦
          elim (Bool-cases (is_claimed_by stored.claim turn.run_id && stored.version ==ℕ v)) [
            | inr refused ↦ absurd (ground arith)
            | inl allowed ↦
                let after : StoredSession = record stored {
                  turns = stored.turns ++ turn ∷ [];
                  claim = none;
                  version = stored.version + 1;
                  updated_at = now;
                } in
                (
                  after,
                  ground (
                    arith,
                    get-put (scope, id) (scope, id) after s,
                    ==_refl {A = String × String} (scope, id),
                  ),
                  ground (
                    arith,
                    existing_turn-snoc stored.turns turn turn.run_id,
                    ==_refl turn.run_id,
                  ),
                  bound,
                )
          ]
    ]
  ]
]

commit_turn-known :
    (scope id : String) (turn : SessionTurn) (v now : ℕ) (s : SessionStore) (stored : StoredSession)
    (t : SessionTurn)
    → get (scope, id) s ≡ some stored
    → existing_turn stored.turns turn.run_id ≡ some t
    → turn.session_id ≡ id
    → commit_turn scope id turn v now s
      ≡ (ok (record { status = committed; turn = some t; version = stored.version }), s)
unfolding commit_turn lookup
commit_turn-known scope id turn v now s stored t found there bound =
    ground (arith, ==_iff turn.session_id id)

-- A commit that reports a turn is final: after any calls the turn is found under its Run, and
-- every commit for that Run in that session, with any text, reports the same turn and changes nothing.
pub commit_turn-once :
    (scope id : String) (turn : SessionTurn) (v now : ℕ) (s : SessionStore) (t : SessionTurn)
    (w : ℕ)
    → (commit_turn scope id turn v now s).0
      ≡ ok (record { status = committed; turn = some t; version = w })
    → (calls : List SessionCall)
    → let s' = apply_all calls (commit_turn scope id turn v now s).1 in
      (find_turn_by_run scope id turn.run_id s' ≡ (ok (some t), s'))
      × ((turn' : SessionTurn) (v' now' : ℕ)
          → turn'.run_id ≡ turn.run_id
          → turn'.session_id ≡ id
          → (w' : ℕ) × (commit_turn scope id turn' v' now' s'
              ≡ (ok (record { status = committed; turn = some t; version = w' }), s')))
unfolding find_turn_by_run lookup
commit_turn-once scope id turn v now s t w h calls =
    let (stored, found, there, bound) = committed-turn scope id turn v now s t w h in
    let s₁ = (commit_turn scope id turn v now s).1 in
    let (last, found', there') =
      existing_turn-forever calls s₁ scope id turn.run_id stored t found there in
    (
      ground (arith, found', there'),
      λ turn' v' now' same own. (
        last.version,
        commit_turn-known scope id turn' v' now' (apply_all calls s₁) last t found' (rw same there')
            own,
      ),
    )

-- While a session that meets its invariant is claimed: no Run can claim it; a commit of another Run that has no turn yet is
-- a conflict; neither changes anything. The Run of the claim commits with the claimed version, and
-- its turn is appended, the claim cleared and the version raised by one.
pub claim-exclusive :
    (scope id : String) (s : SessionStore) (stored : StoredSession) (c : SessionRunClaim)
    → get (scope, id) s ≡ some stored
    → IsSession id stored
    → stored.claim ≡ some c
    → ((r : String) (v now later : ℕ)
        → claim_run scope id r v now later s ≡ (err session_claim_conflict, s))
      × ((turn : SessionTurn) (v now : ℕ)
          → turn.session_id ≡ id
          → c.run_id ≢ turn.run_id
          → existing_turn stored.turns turn.run_id ≡ none
          → commit_turn scope id turn v now s
            ≡ (ok (record { status = conflict; turn = none; version = stored.version }), s))
      × ((turn : SessionTurn) (now : ℕ)
          → turn.session_id ≡ id
          → c.run_id ≡ turn.run_id
          → commit_turn scope id turn c.session_version now s ≡ (
            ok (record { status = committed; turn = some turn; version = stored.version + 1 }),
            put
                (scope, id)
                (record stored {
                  turns = stored.turns ++ turn ∷ [];
                  claim = none;
                  version = stored.version + 1;
                  updated_at = now;
                })
                s,
          ))
unfolding claim_run commit_turn lookup is_claimed_by
claim-exclusive scope id s stored c found valid claimed =
    let claim_valid : IsClaim id stored (some c) = subst (IsClaim id stored) claimed valid.claim in
    (
      λ r v now later. ground arith,
      λ turn v now own other fresh.
          ground (arith, ==_iff turn.session_id id, ==_iff c.run_id turn.run_id),
      λ turn now own same. ground (
        arith,
        ==_iff turn.session_id id,
        ==_iff c.run_id turn.run_id,
        claim_valid,
        ap (existing_turn stored.turns) same,
      ),
    )
