-- ===== src/Session/Held.antt =====
-- A claimed session stays as it is, whatever other clients call, until the Run of the claim is
-- named.
use m_agent.Base.{
  ℕ, String, ◌≡◌, ◌≢◌, refl, sym, ◌∙◌, subst, some, List, [], ◌∷◌, arith, ==_iff, ==-cases,
  String_eq, pair_eq, ◌⊎◌, inl, inr, Result, ok, err, Option-cases, Bool-cases,
}
use m_agent.Base.Dict.{get}
use m_agent.Errors.{Error}
use m_agent.Session.Model.{SessionTurn, SessionRunClaim}
use m_agent.Session.Store.{
  StoredSession, SessionStore, lookup, existing_turn, is_blank, is_claimed_by, create_session,
  claim_run, release_claim, commit_turn,
}
use m_agent.Session.Effect.{
  SessionCall, create, claim, release, commit, forget, apply, apply_all, key_of,
}
use m_agent.Session.Outcomes.{apply-Outcome}
use m_agent.Session.History.{Effect-elsewhere}

-- The call does not release the claim of the Run and does not commit a turn of it.
abbrev pub Spares : String × String → String → SessionCall → Type 0
Spares key run_id (release scope id r now) = ((scope, id) ≢ key) ⊎ (run_id ≢ r)
Spares key run_id (commit scope id turn v now) = ((scope, id) ≢ key) ⊎ (run_id ≢ turn.run_id)
Spares key run_id _ = Unit

abbrev pub AllSpare : String × String → String → List SessionCall → Type 0
AllSpare key run_id [] = Unit
AllSpare key run_id (call ∷ calls) = Spares key run_id call × AllSpare key run_id calls

forget-state : {A : Type 0} (result : Result Error A × SessionStore) → (forget result).1 ≡ result.1
forget-state (ok a, s) = refl
forget-state (err e, s) = refl

module _ (scope id : String) (s : SessionStore) (stored : StoredSession) (c : SessionRunClaim)
    (found : get (scope, id) s ≡ some stored) (claimed : stored.claim ≡ some c) where
  create_session-held : (now : ℕ) → (create_session scope id now s).1 ≡ s
  unfolding create_session
  create_session-held now = elim (Bool-cases (is_blank id)) [
    | inl blank ↦ ground arith
    | inr named ↦ ground arith
  ]

  claim_run-held : (r : String) (v now later : ℕ) → (claim_run scope id r v now later s).1 ≡ s
  unfolding claim_run lookup
  claim_run-held r v now later = ground arith

  release_claim-held :
      (r : String) (now : ℕ) → c.run_id ≢ r → (release_claim scope id r now s).1 ≡ s
  unfolding release_claim lookup
  release_claim-held r now other = ground (arith, ==_iff c.run_id r)

  commit_turn-held :
      (turn : SessionTurn) (v now : ℕ)
      → c.run_id ≢ turn.run_id
      → (commit_turn scope id turn v now s).1 ≡ s
  unfolding commit_turn lookup is_claimed_by
  commit_turn-held turn v now other = elim (==-cases turn.session_id id) [
    | inr (elsewhere, f) ↦ ground arith
    | inl (bound, own) ↦ elim (Option-cases (existing_turn stored.turns turn.run_id)) [
      | inr (existing, e) ↦ ground arith
      | inl fresh ↦ ground (arith, ==_iff c.run_id turn.run_id)
    ]
  ]

module _ (scope id : String) (stored : StoredSession) (c : SessionRunClaim)
    (claimed : stored.claim ≡ some c) where
  abbrev Keeps : SessionCall → Type 0
  Keeps call =
      (s : SessionStore)
      → get (scope, id) s ≡ some stored
      → Spares (scope, id) c.run_id call
      → get (scope, id) (apply call s).1 ≡ some stored

  here-Keeps : (call : SessionCall) → key_of call ≡ (scope, id) → Keeps call
  unfolding apply
  here-Keeps (create scope' id' now) same s found spares =
      let found' = subst (λ k. get k s ≡ some stored) (sym same) found in
      rw
        (
          forget-state (create_session scope' id' now s),
          create_session-held scope' id' s stored c found' claimed now,
        )
        found
  here-Keeps (claim scope' id' r v now later) same s found spares =
      let found' = subst (λ k. get k s ≡ some stored) (sym same) found in
      rw
        (
          forget-state (claim_run scope' id' r v now later s),
          claim_run-held scope' id' s stored c found' claimed r v now later,
        )
        found
  here-Keeps (release scope' id' r now) same s found (inl elsewhere) = absurd (elsewhere same)
  here-Keeps (release scope' id' r now) same s found (inr other) =
      let found' = subst (λ k. get k s ≡ some stored) (sym same) found in
      rw
        (
          forget-state (release_claim scope' id' r now s),
          release_claim-held scope' id' s stored c found' claimed r now other,
        )
        found
  here-Keeps (commit scope' id' turn v now) same s found (inl elsewhere) = absurd (elsewhere same)
  here-Keeps (commit scope' id' turn v now) same s found (inr other) =
      let found' = subst (λ k. get k s ≡ some stored) (sym same) found in
      rw
        (
          forget-state (commit_turn scope' id' turn v now s),
          commit_turn-held scope' id' s stored c found' claimed turn v now other,
        )
        found

  apply-Keeps : (call : SessionCall) → Keeps call
  apply-Keeps call s found spares =
      elim (==-cases {A = String × String} (key_of call) (scope, id)) [
        | inl (same, _) ↦ here-Keeps call same s found spares
        | inr (other, _) ↦
            Effect-elsewhere (key_of call) (scope, id) s (apply call s).1
              (apply-Outcome call s).effect other
            ∙ found
      ]

  -- The session is as it was after any calls that spare the Run of its claim.
  pub apply_all-held :
      (calls : List SessionCall) (s : SessionStore)
      → get (scope, id) s ≡ some stored
      → AllSpare (scope, id) c.run_id calls
      → get (scope, id) (apply_all calls s) ≡ some stored
  unfolding apply_all
  apply_all-held [] s found spares = found
  apply_all-held (call ∷ calls) s found (spares, rest) =
      apply_all-held calls (apply call s).1 (apply-Keeps call s found spares) rest
