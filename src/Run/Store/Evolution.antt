-- ===== src/Run/Store/Evolution.antt =====
-- How one call changes what readers see.
use m_agent.Base.{
  ℕ, String, ◌≡◌, ◌≢◌, refl, sym, subst, Option, some, arith, ◌==◌, ==-cases, inl, inr, String_eq,
  pair_eq, Result, ok, err, if◌then◌else◌,
}
use m_agent.Base.Dict.{get}
use m_agent.Errors.{Error}
use m_agent.Run.Status.{validate_transition}
use m_agent.Run.Records.{RunRecord}
use m_agent.Run.Payload.{Field_eq, Serialization, StoredRun}
use m_agent.Run.Store.{RunStore}
use m_agent.Run.Store.Lifecycle.{Transition, read_record, get_run}
use m_agent.Run.Store.Invariant.{IsValid, SamePayloads, get_run_frame}
use m_agent.Run.Store.Transitions.{advance}

-- The lease of a record replaced.
abbrev pub with_lease : RunRecord → Option String → Option ℕ → RunRecord
with_lease run owner expires_at = record run { lease_owner = owner; lease_expires_at = expires_at }

-- A record changes by its lease only, or by one transition of the table.
pub data Change (run run' : RunRecord) : Type 0 where
  kept :
      (owner : Option String) (expires_at : Option ℕ)
      → run' ≡ with_lease run owner expires_at
      → Change run run'
  moved :
      (t : Transition) (u : ℕ)
      → validate_transition run.status t.status ≡ ok tt
      → run' ≡ advance run t u
      → Change run run'

-- No Run is lost, and each changes as said above.
abbrev pub Evolves : Serialization → RunStore → RunStore → Type 0
Evolves p s s' =
    (r : String) (run : RunRecord)
    → get_run p r s ≡ ok (some run)
    → (run' : RunRecord) × (get_run p r s' ≡ ok (some run')) × Change run run'

-- A call that raises changes nothing; any call keeps the invariant and lets the Runs evolve.
pub record Sound {A : Type 0} (p : Serialization) (s : RunStore) (call : Result Error A × RunStore)
    : Type 0 where
  pub atomic : (e : Error) → call.0 ≡ err e → call.1 ≡ s
  pub valid : IsValid p call.1
  pub evolves : Evolves p s call.1

pub Evolves-refl : (p : Serialization) (s : RunStore) → Evolves p s s
Evolves-refl p s r run seen = (run, seen, kept run.lease_owner run.lease_expires_at refl)

pub Sound-refl :
    {A : Type 0} (p : Serialization) (s : RunStore) (result : Result Error A)
    → IsValid p s
    → Sound p s (result, s)
Sound-refl p s result valid = record {
  atomic = λ e h. refl;
  valid = valid;
  evolves = Evolves-refl p s;
}

pub Evolves-same :
    (p : Serialization) (s s' : RunStore)
    → ((q : String) → get_run p q s' ≡ get_run p q s)
    → Evolves p s s'
Evolves-same p s s' same r run seen =
    (run, rw (same r) seen, kept run.lease_owner run.lease_expires_at refl)

pub Evolves-update :
    (p : Serialization) (s s' : RunStore) (r : String) (stored : StoredRun)
    → ((q : String) → get q s'.runs ≡ (if r == q then some stored else get q s.runs))
    → ((q : String) → r ≢ q → SamePayloads q s s')
    → ((run : RunRecord)
        → get_run p r s ≡ ok (some run)
        → (run' : RunRecord) × (read_record p s' r stored ≡ ok run') × Change run run')
    → Evolves p s s'
unfolding get_run
Evolves-update p s s' r stored runs payloads own q run seen = elim (==-cases r q) [
  | inl (e, t) ↦
      let (run', read, change) =
        own run (subst (λ k. get_run p k s ≡ ok (some run)) (sym e) seen) in
      (
        run',
        subst (λ k. get_run p k s' ≡ ok (some run')) e (ground (arith, runs r, runs q, e, read)),
        change,
      )
  | inr (n, f) ↦ (
    run,
    rw (get_run_frame p s s' q (ground (arith, runs q)) (payloads q n)) seen,
    kept run.lease_owner run.lease_expires_at refl,
  )
]

-- A call is sound if what it computes to is.
module _ {A : Type 0} (p : Serialization) (s : RunStore) (call : Result Error A × RunStore) where
  pub Sound-by :
      (outcome : Result Error A × RunStore) → call ≡ outcome → Sound p s outcome → Sound p s call
  Sound-by outcome e h = subst (Sound p s) (sym e) h

  pub Sound-unchanged :
      (result : Result Error A) → call ≡ (result, s) → IsValid p s → Sound p s call
  Sound-unchanged result e valid = Sound-by (result, s) e (Sound-refl p s result valid)
