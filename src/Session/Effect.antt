-- ===== src/Session/Effect.antt =====
-- What one call of the store of sessions does to it.
use m_agent.Base.{
  ℕ, ◌+◌, String, ◌≡◌, refl, sym, subst, true, none, some, List, [], ◌∷◌, ◌++◌, arith, String_eq,
  pair_eq, ◌⊎◌, inl, inr, Result, ok, err, Option-cases,
}
use m_agent.Base.Dict.{get, put}
use m_agent.Errors.{Error, session_not_found}
use m_agent.Session.Model.{SessionTurn}
use m_agent.Session.Store.{
  StoredSession, SessionStore, lookup, existing_turn, is_claimed_by, create_session, claim_run,
  release_claim, commit_turn,
}

-- The methods that write, with their arguments.
pub data SessionCall : Type 0 where
  create : String → String → ℕ → SessionCall
  claim : String → String → String → ℕ → ℕ → ℕ → SessionCall
  release : String → String → String → ℕ → SessionCall
  commit : String → String → SessionTurn → ℕ → ℕ → SessionCall

-- The value that a call returns is dropped.
abbrev pub forget :
    {A : Type 0} → Result Error A × SessionStore → Result Error (Unit {0}) × SessionStore
forget (ok a, s) = (ok tt, s)
forget (err e, s) = (err e, s)

unfoldable pub apply : SessionCall → SessionStore → Result Error (Unit {0}) × SessionStore
apply (create scope id now) s = forget (create_session scope id now s)
apply (claim scope id r v now later) s = forget (claim_run scope id r v now later s)
apply (release scope id r now) s = forget (release_claim scope id r now s)
apply (commit scope id turn v now) s = forget (commit_turn scope id turn v now s)

unfoldable pub apply_all : List SessionCall → SessionStore → SessionStore
unfolding apply
apply_all [] s = s
apply_all (call ∷ calls) s = apply_all calls (apply call s).1

abbrev pub key_of : SessionCall → String × String
key_of (create scope id now) = (scope, id)
key_of (claim scope id r v now later) = (scope, id)
key_of (release scope id r now) = (scope, id)
key_of (commit scope id turn v now) = (scope, id)

-- How the record of the session `id` may change.
pub data Step (id : String) (stored : StoredSession) : StoredSession → Type 0 where
  claimed :
      (run_id : String) (now later : ℕ)
      → stored.claim ≡ none
      → existing_turn stored.turns run_id ≡ none
      → Step id stored (record stored {
        claim = some (record {
          session_id = stored.session_id;
          run_id = run_id;
          session_version = stored.version;
          claimed_at = now;
        });
        updated_at = later;
      })
  released : (now : ℕ) → Step id stored (record stored { claim = none; updated_at = now })
  appended :
      (turn : SessionTurn) (now : ℕ)
      → turn.session_id ≡ id
      → is_claimed_by stored.claim turn.run_id ≡ true
      → existing_turn stored.turns turn.run_id ≡ none
      → Step id stored (record stored {
        turns = stored.turns ++ turn ∷ [];
        claim = none;
        version = stored.version + 1;
        updated_at = now;
      })

abbrev pub fresh_session : String → ℕ → StoredSession
fresh_session id now = record {
  session_id = id;
  version = 0;
  claim = none;
  turns = [];
  created_at = now;
  updated_at = now;
}

pub data Effect (key : String × String) (s : SessionStore) : SessionStore → Type 0 where
  unchanged : Effect key s s
  opened : (now : ℕ) → get key s ≡ none → Effect key s (put key (fresh_session key.1 now) s)
  updated :
      (stored stored' : StoredSession)
      → get key s ≡ some stored
      → Step key.1 stored stored'
      → Effect key s (put key stored' s)

-- An outcome that raises changes nothing, and any outcome is an effect on the session.
pub record Outcome {A : Type 0} (key : String × String) (s : SessionStore)
    (call : Result Error A × SessionStore) : Type 0 where
  pub atomic : (e : Error) → call.0 ≡ err e → call.1 ≡ s
  pub effect : Effect key s call.1

module _ {A : Type 0} (key : String × String) (s : SessionStore)
    (call : Result Error A × SessionStore) where
  pub Outcome-by :
      (other : Result Error A × SessionStore)
      → call ≡ other
      → Outcome key s other
      → Outcome key s call
  Outcome-by other e h = subst (Outcome key s) (sym e) h

  pub Outcome-same : (result : Result Error A) → call ≡ (result, s) → Outcome key s call
  Outcome-same result e =
      Outcome-by (result, s) e (record { atomic = λ e h. refl; effect = unchanged })

  pub Outcome-ok :
      (a : A) (s' : SessionStore) → call ≡ (ok a, s') → Effect key s s' → Outcome key s call
  Outcome-ok a s' e effect =
      Outcome-by (ok a, s') e (record { atomic = λ e h. cc; effect = effect })

pub forget-Outcome :
    {A : Type 0} (key : String × String) (s : SessionStore) (call : Result Error A × SessionStore)
    → Outcome key s call
    → Outcome key s (forget call)
forget-Outcome key s (ok a, s') h = record { atomic = λ e h. cc; effect = h.effect }
forget-Outcome key s (err e, s') h = record { atomic = λ _ _. h.atomic e refl; effect = h.effect }

pub lookup-cases :
    (scope id : String) (s : SessionStore)
    → ((stored : StoredSession) × (get (scope, id) s ≡ some stored)
        × (lookup scope id s ≡ (ok stored, s)))
      ⊎ (lookup scope id s ≡ (err session_not_found, s))
unfolding lookup
lookup-cases scope id s = elim (Option-cases (get (scope, id) s)) [
  | inl e ↦ inr (ground arith)
  | inr (stored, e) ↦ inl (stored, e, ground arith)
]
