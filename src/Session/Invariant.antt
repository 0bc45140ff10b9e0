-- ===== src/Session/Invariant.antt =====
-- What holds of the sessions between two calls, and how their histories grow.
use m_agent.Base.{
  String, ◌≡◌, refl, subst, ap, Option, none, some, List, [], ◌∷◌, ◌++◌, arith, ◌==◌, ==_iff,
  ==-cases, String_eq, pair_eq, inl, inr, length, length-append, if◌then◌else◌,
}
use m_agent.Base.Dict.{get, put, get-put}
use m_agent.Session.Model.{SessionRunClaim, SessionTurn}
use m_agent.Session.Store.{StoredSession, SessionStore, existing_turn}
use m_agent.Session.Effect.{
  SessionCall, apply, apply_all, key_of, Step, claimed, released, appended, Effect, unchanged,
  opened, updated, fresh_session,
}
use m_agent.Session.Outcomes.{apply-Outcome}

-- Every turn belongs to the session, and no two turns are of one Run.
abbrev pub AreTurns : String → List SessionTurn → Type 0
AreTurns id [] = Unit
AreTurns id (turn ∷ turns) =
    (turn.session_id ≡ id) × (existing_turn turns turn.run_id ≡ none) × AreTurns id turns

-- A claim names the session, its version, and a Run that has no turn yet.
abbrev pub IsClaim : String → StoredSession → Option SessionRunClaim → Type 0
IsClaim id stored none = Unit
IsClaim id stored (some c) =
    (c.session_id ≡ id)
    × (c.session_version ≡ stored.version)
    × (existing_turn stored.turns c.run_id ≡ none)

pub record IsSession (id : String) (stored : StoredSession) : Type 0 where
  pub own_id : stored.session_id ≡ id
  pub version : stored.version ≡ length stored.turns
  pub turns : AreTurns id stored.turns
  pub claim : IsClaim id stored stored.claim

abbrev pub IsValid : SessionStore → Type 0
IsValid s =
    (scope id : String) (stored : StoredSession)
    → get (scope, id) s ≡ some stored
    → IsSession id stored

pub existing_turn-snoc :
    (turns : List SessionTurn) (turn : SessionTurn) (r : String)
    → existing_turn (turns ++ turn ∷ []) r ≡ (elim (existing_turn turns r) [
      | some found ↦ some found
      | none ↦ if turn.run_id == r then some turn else none
    ])
unfolding existing_turn
existing_turn-snoc [] turn r = refl
existing_turn-snoc (t ∷ turns) turn r = ground (arith, existing_turn-snoc turns turn r)

AreTurns-snoc :
    (id : String) (turns : List SessionTurn) (turn : SessionTurn)
    → AreTurns id turns
    → turn.session_id ≡ id
    → existing_turn turns turn.run_id ≡ none
    → AreTurns id (turns ++ turn ∷ [])
unfolding existing_turn
AreTurns-snoc id [] turn h own fresh = (own, refl, tt)
AreTurns-snoc id (t ∷ turns) turn (own', fresh', rest) own fresh = (
  own',
  ground (
    arith,
    existing_turn-snoc turns turn t.run_id,
    ==_iff turn.run_id t.run_id,
    ==_iff t.run_id turn.run_id,
  ),
  AreTurns-snoc id turns turn rest own (ground arith),
)

Step-IsSession :
    (id : String) (stored stored' : StoredSession)
    → Step id stored stored'
    → IsSession id stored
    → IsSession id stored'
Step-IsSession id stored _ (claimed r now later free fresh) h = record {
  own_id = h.own_id;
  version = h.version;
  turns = h.turns;
  claim = (h.own_id, refl, fresh);
}
Step-IsSession id stored _ (released now) h = record {
  own_id = h.own_id;
  version = h.version;
  turns = h.turns;
  claim = tt;
}
Step-IsSession id stored _ (appended turn now own held fresh) h = record {
  own_id = h.own_id;
  version = rw (h.version, length-append stored.turns (turn ∷ [])) refl;
  turns = AreTurns-snoc id stored.turns turn h.turns own fresh;
  claim = tt;
}

put-IsValid :
    (key : String × String) (s : SessionStore) (stored : StoredSession)
    → IsValid s
    → IsSession key.1 stored
    → IsValid (put key stored s)
put-IsValid (scope, id) s stored valid own scope' id' other found =
    elim (==-cases {A = String × String} (scope, id) (scope', id')) [
      | inl (e, t) ↦
          let same : stored ≡ other = ground (arith, get-put (scope, id) (scope', id') stored s) in
          subst (λ k. IsSession k other) (ap (λ q. q.1) e) (subst (λ x. IsSession id x) same own)
      | inr (n, f) ↦
          valid scope' id' other (ground (arith, get-put (scope, id) (scope', id') stored s))
    ]

Effect-IsValid :
    (key : String × String) (s s' : SessionStore) → Effect key s s' → IsValid s → IsValid s'
Effect-IsValid key s _ unchanged valid = valid
Effect-IsValid key s _ (opened now missing) valid =
    put-IsValid key s (fresh_session key.1 now) valid
      (record { own_id = refl; version = refl; turns = tt; claim = tt })
Effect-IsValid (scope, id) s _ (updated stored stored' found step) valid =
    put-IsValid (scope, id) s stored' valid
      (Step-IsSession id stored stored' step (valid scope id stored found))

-- Any calls keep the invariant: the version of a session is the number of its turns, every turn
-- is its own, no two turns are of one Run, and a claim names the current version and a Run without
-- a turn.
pub apply_all-IsValid :
    (calls : List SessionCall) (s : SessionStore) → IsValid s → IsValid (apply_all calls s)
unfolding apply_all
apply_all-IsValid [] s valid = valid
apply_all-IsValid (call ∷ calls) s valid =
    apply_all-IsValid calls (apply call s).1
      (Effect-IsValid (key_of call) s (apply call s).1 (apply-Outcome call s).effect valid)

pub empty-IsValid : IsValid []
unfolding get
empty-IsValid scope id stored found = absurd (ground arith)
