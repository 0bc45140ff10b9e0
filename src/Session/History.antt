-- ===== src/Session/History.antt =====
-- The history of a session only grows, a Run has one turn in it for good, and no call reaches
-- another session.
use m_agent.Base.{
  String, ◌≡◌, ◌≢◌, refl, sym, ◌∙◌, subst, ap, true, none, some, List, [], ◌∷◌, ◌++◌, arith, ◌==◌,
  ==_iff, ==-cases, String_eq, pair_eq, inl, inr,
}
use m_agent.Base.Dict.{get, get-put}
use m_agent.Session.Model.{SessionTurn}
use m_agent.Session.Store.{StoredSession, SessionStore}
use m_agent.Session.Effect.{
  SessionCall, apply, apply_all, key_of, Step, claimed, released, appended, Effect, unchanged,
  opened, updated, fresh_session,
}
use m_agent.Session.Outcomes.{apply-Outcome}

-- The session is there, and its turns are those given and more.
abbrev pub Extends : String × String → List SessionTurn → SessionStore → Type 0
Extends key turns s =
    (stored : StoredSession) × (added : List SessionTurn) × (get key s ≡ some stored)
    × (stored.turns ≡ turns ++ added)

append_nil : {A : Type 0} (xs : List A) → xs ++ [] ≡ xs
append_nil [] = refl
append_nil (x ∷ xs) = ground (arith, append_nil xs)

append_assoc : {A : Type 0} (xs ys zs : List A) → (xs ++ ys) ++ zs ≡ xs ++ (ys ++ zs)
append_assoc [] ys zs = refl
append_assoc (x ∷ xs) ys zs = ground (arith, append_assoc xs ys zs)

Step-extends :
    (id : String) (stored stored' : StoredSession)
    → Step id stored stored'
    → (added : List SessionTurn) × (stored'.turns ≡ stored.turns ++ added)
Step-extends id stored _ (claimed r now later free fresh) = ([], sym (append_nil stored.turns))
Step-extends id stored _ (released now) = ([], sym (append_nil stored.turns))
Step-extends id stored _ (appended turn now own held fresh) = (turn ∷ [], refl)

module _ (key q : String × String) (s : SessionStore) where
  pub Effect-elsewhere : (s' : SessionStore) → Effect key s s' → key ≢ q → get q s' ≡ get q s
  Effect-elsewhere _ unchanged ne = refl
  Effect-elsewhere _ (opened now missing) ne =
      ground (arith, get-put key q (fresh_session key.1 now) s, ==_iff key q)
  Effect-elsewhere _ (updated stored stored' found step) ne =
      ground (arith, get-put key q stored' s, ==_iff key q)

Effect-Extends :
    (key q : String × String) (s s' : SessionStore) (stored : StoredSession)
    → Effect key s s'
    → get q s ≡ some stored
    → Extends q stored.turns s'
Effect-Extends key q s s' stored effect found = elim (==-cases key q) [
  | inr (n, f) ↦
      (stored, [], Effect-elsewhere key q s s' effect n ∙ found, sym (append_nil stored.turns))
  | inl (e, t) ↦ here s' effect e t
]
  where
    here :
        (s' : SessionStore)
        → Effect key s s'
        → key ≡ q
        → (key == q) ≡ true
        → Extends q stored.turns s'
    here _ unchanged e t = (stored, [], found, sym (append_nil stored.turns))
    here _ (opened now missing) e t = absurd (cc (subst (λ k. get k s ≡ none) e missing, found))
    here _ (updated other other' found' step) e t =
        let same : other ≡ stored = cc (subst (λ k. get k s ≡ some other) e found', found) in
        let (added, more) = Step-extends key.1 other other' step in
        (
          other',
          added,
          ground (arith, get-put key q other' s),
          subst (λ x. other'.turns ≡ x.turns ++ added) same more,
        )

-- After any calls a session is still there, with the turns that it had, in their order, and those
-- that were added behind them.
pub apply_all-Extends :
    (calls : List SessionCall) (s : SessionStore) (key : String × String) (stored : StoredSession)
    → get key s ≡ some stored
    → Extends key stored.turns (apply_all calls s)
unfolding apply_all
apply_all-Extends [] s key stored found = (stored, [], found, sym (append_nil stored.turns))
apply_all-Extends (call ∷ calls) s key stored found =
    let (next, added, found', more) =
      Effect-Extends (key_of call) key s (apply call s).1 stored (apply-Outcome call s).effect
        found in
    let (last, later, found'', more') = apply_all-Extends calls (apply call s).1 key next found' in
    (
      last,
      added ++ later,
      found'',
      more' ∙ (ap (λ ts. ts ++ later) more ∙ append_assoc stored.turns added later),
    )

-- No call of the list names the session.
abbrev pub Avoids : String × String → List SessionCall → Type 0
Avoids key [] = Unit
Avoids key (call ∷ calls) = (key_of call ≢ key) × Avoids key calls

-- Calls with another scope or another identifier leave a session as it is.
pub apply_all-isolated :
    (calls : List SessionCall) (s : SessionStore) (key : String × String)
    → Avoids key calls
    → get key (apply_all calls s) ≡ get key s
unfolding apply_all
apply_all-isolated [] s key avoids = refl
apply_all-isolated (call ∷ calls) s key (other, rest) =
    apply_all-isolated calls (apply call s).1 key rest
    ∙ Effect-elsewhere (key_of call) key s (apply call s).1 (apply-Outcome call s).effect other
