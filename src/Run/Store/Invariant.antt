-- ===== src/Run/Store/Invariant.antt =====
-- What holds of an `InMemoryRunStore` between two calls.
use m_agent.Base.{
  String, ◌≡◌, ◌≢◌, none, some, ◌==◌, ==-cases, subst, ◌∙◌, String_eq, pair_eq, ok, arith, inl, inr,
  Option-cases, if◌then◌else◌,
}
use m_agent.Base.Dict.{get}
use m_agent.Run.Status.{waiting}
use m_agent.Run.Records.{RunRecord}
use m_agent.Run.Payload.{
  Field, Field_eq, run_input, run_output, run_snapshot, run_history, attempt_output, attempt_error,
  checkpoint_output, Serialization, StoredRun,
}
use m_agent.Run.Store.{RunStore}
use m_agent.Run.Store.Lifecycle.{read_record, get_run}

-- The metadata of a Run and its payloads agree.
pub record IsConsistent (p : Serialization) (s : RunStore) (run_id : String) (stored : StoredRun)
    : Type 0 where
  pub own_id : stored.run_id ≡ run_id
  -- Every payload that the metadata refers to can be decoded.
  pub readable : (run : RunRecord) × (read_record p s run_id stored ≡ ok run)
  -- What a WAITING Run waits for is recorded only while it waits.
  pub idle_reason : stored.status ≢ waiting → stored.waiting_reason ≡ none
  pub idle_step : stored.status ≢ waiting → stored.waiting_step_id ≡ none

pub record IsValid (p : Serialization) (s : RunStore) : Type 0 where
  pub consistent :
      (run_id : String) (stored : StoredRun)
      → get run_id s.runs ≡ some stored
      → IsConsistent p s run_id stored
  -- No payload outlives or precedes its Run.
  pub no_orphan :
      (run_id : String) (field : Field)
      → get run_id s.runs ≡ none
      → get (run_id, field) s.payloads ≡ none

-- The payload fields of the record of a Run.
abbrev pub IsRunField : Field → Type 0
IsRunField run_input = Unit
IsRunField run_output = Unit
IsRunField run_snapshot = Unit
IsRunField run_history = Unit
IsRunField (attempt_output _) = ⊥
IsRunField (attempt_error _) = ⊥
IsRunField (checkpoint_output _) = ⊥

-- The record of `q` has the same payloads in both stores.
abbrev pub SamePayloads : String → RunStore → RunStore → Type 0
SamePayloads q s s' =
    (field : Field) → IsRunField field → get (q, field) s'.payloads ≡ get (q, field) s.payloads

-- Reading a Run depends only on its own payloads.
pub read_record_frame :
    (p : Serialization) (s s' : RunStore) (q : String) (stored : StoredRun)
    → SamePayloads q s s'
    → read_record p s' q stored ≡ read_record p s q stored
unfolding read_record
read_record_frame p s s' q stored h =
    rw (h run_input tt, h run_output tt, h run_snapshot tt, h run_history tt)

pub get_run_frame :
    (p : Serialization) (s s' : RunStore) (q : String)
    → get q s'.runs ≡ get q s.runs
    → SamePayloads q s s'
    → get_run p q s' ≡ get_run p q s
unfolding get_run
get_run_frame p s s' q same h = elim (Option-cases (get q s.runs)) [
  | inl e ↦ ground arith
  | inr (stored, e) ↦ ground (arith, read_record_frame p s s' q stored h)
]

pub IsConsistent-frame :
    (p : Serialization) (s s' : RunStore) (q : String) (stored : StoredRun)
    → SamePayloads q s s'
    → IsConsistent p s q stored
    → IsConsistent p s' q stored
IsConsistent-frame p s s' q stored h c = record {
  own_id = c.own_id;
  readable = (c.readable.0, rw (read_record_frame p s s' q stored h) c.readable.1);
  idle_reason = c.idle_reason;
  idle_step = c.idle_step;
}

-- A change of one Run, and of its payloads only, keeps the invariant if that Run stays consistent.
pub IsValid-update :
    (p : Serialization) (s s' : RunStore) (r : String) (stored : StoredRun)
    → ((q : String) → get q s'.runs ≡ (if r == q then some stored else get q s.runs))
    → ((q : String) (field : Field)
        → r ≢ q
        → get (q, field) s'.payloads ≡ get (q, field) s.payloads)
    → IsConsistent p s' r stored
    → IsValid p s
    → IsValid p s'
IsValid-update p s s' r stored runs payloads own valid = record {
  consistent = λ q other found. elim (==-cases r q) [
    | inl (e, t) ↦
        let same : stored ≡ other = ground (arith, runs q) in
        subst (λ k. IsConsistent p s' k other) e (subst (λ x. IsConsistent p s' r x) same own)
    | inr (n, f) ↦
        IsConsistent-frame p s s' q other (λ field _. payloads q field n)
          (valid.consistent q other (ground (arith, runs q)))
  ];
  no_orphan = λ q field missing. elim (==-cases r q) [
    | inl (e, t) ↦ absurd (ground (arith, runs q))
    | inr (n, f) ↦ payloads q field n ∙ valid.no_orphan q field (ground (arith, runs q))
  ];
}

-- A write to other payloads of a Run that exists keeps the invariant.
pub IsValid-payloads :
    (p : Serialization) (s s' : RunStore) (r : String) (stored : StoredRun)
    → get r s.runs ≡ some stored
    → s'.runs ≡ s.runs
    → ((q : String) → SamePayloads q s s')
    → ((q : String) (field : Field)
        → r ≢ q
        → get (q, field) s'.payloads ≡ get (q, field) s.payloads)
    → IsValid p s
    → IsValid p s'
IsValid-payloads p s s' r stored found runs same payloads valid = record {
  consistent = λ q other e.
      IsConsistent-frame p s s' q other (same q) (valid.consistent q other (rw runs at e));
  no_orphan = λ q field missing. elim (==-cases r q) [
    | inl (e, t) ↦ absurd (cc (found, missing, e, runs))
    | inr (n, f) ↦ payloads q field n ∙ valid.no_orphan q field (rw runs at missing)
  ];
}
