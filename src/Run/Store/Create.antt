-- ===== src/Run/Store/Create.antt =====
-- `create_run`: the round trip, and what it leaves alone.
use m_agent.Base.{
  String, ◌≡◌, ◌≢◌, refl, none, some, arith, ==_iff, ==_refl, String_eq, pair_eq, ok, err,
  Option-cases, inl, inr,
}
use m_agent.Base.Dict.{get, put, get-put}
use m_agent.Errors.{duplicate_run}
use m_agent.Run.Status.{waiting}
use m_agent.Run.Records.{RunRecord}
use m_agent.Run.Payload.{
  Field, Field_eq, Serialization, IsLossless, StoredRun, run_input, run_output, run_snapshot,
  run_history, split_run,
}
use m_agent.Run.Store.{RunStore, put_fields}
use m_agent.Run.Store.Lifecycle.{read_record, create_run, get_run}
use m_agent.Run.Store.Reads.{overlay, get-put_fields, get-put_fields_ne}
use m_agent.Run.Store.RoundTrip.{assemble-split_run}
use m_agent.Run.Store.Invariant.{IsConsistent, IsValid, get_run_frame, IsValid-update}

-- The store after a successful creation.
abbrev pub created_store : Serialization → RunRecord → RunStore → RunStore
created_store p run s = record s {
  runs = put run.run_id (split_run p run).0 s.runs;
  payloads = put_fields run.run_id (split_run p run).1 s.payloads;
}

module _ (p : Serialization) (lossless : IsLossless p) (run : RunRecord) (s : RunStore) where
  overlay-split_run :
      (field : Field) → overlay field (split_run p run).1 none ≡ get field (split_run p run).1
  unfolding split_run get
  overlay-split_run field = ground arith

  pub create_run-fresh :
      get run.run_id s.runs ≡ none → create_run p run s ≡ (ok run, created_store p run s)
  unfolding create_run
  create_run-fresh fresh =
      rw
        (
          fresh,
          ← overlay-split_run run_input,
          ← overlay-split_run run_output,
          ← overlay-split_run run_snapshot,
          ← overlay-split_run run_history,
          assemble-split_run p lossless run,
        )
        refl

  read_record-create :
      IsValid p s
      → get run.run_id s.runs ≡ none
      → read_record p (created_store p run s) run.run_id (split_run p run).0 ≡ ok run
  unfolding read_record
  read_record-create valid fresh =
      simp
        (
          get-put_fields,
          valid.no_orphan run.run_id run_input fresh,
          valid.no_orphan run.run_id run_output fresh,
          valid.no_orphan run.run_id run_snapshot fresh,
          valid.no_orphan run.run_id run_history fresh,
        )
        (assemble-split_run p lossless run)

  pub payloads_frame :
      (q : String) (field : Field)
      → run.run_id ≢ q
      → get (q, field) (created_store p run s).payloads ≡ get (q, field) s.payloads
  payloads_frame q field ne = get-put_fields_ne run.run_id q field (split_run p run).1 s.payloads ne

-- A Run is unknown to a reader exactly where the store has no metadata of it.
pub get-get_run-none :
    (p : Serialization) (r : String) (s : RunStore) → get_run p r s ≡ ok none → get r s.runs ≡ none
unfolding get_run
get-get_run-none p r s h = ground arith

-- In a valid store, creating a Run whose id is not taken returns the record that was given; a
-- read afterwards gives that record back, history and snapshot with instructions included, and
-- every other Run reads as before.
pub create_run-get_run :
    (p : Serialization)
    → IsLossless p
    → (run : RunRecord) (s : RunStore) → IsValid p s
    → get_run p run.run_id s ≡ ok none
    → let (result, s') = create_run p run s in
      (result ≡ ok run)
      × (get_run p run.run_id s' ≡ ok (some run))
      × ((q : String) → run.run_id ≢ q → get_run p q s' ≡ get_run p q s)
unfolding get_run
create_run-get_run p lossless run s valid missing =
    let fresh : get run.run_id s.runs ≡ none = get-get_run-none p run.run_id s missing in
    rw (create_run-fresh p lossless run s fresh) (
      refl,
      ground (
        arith,
        get-put run.run_id run.run_id (split_run p run).0 s.runs,
        ==_refl run.run_id,
        read_record-create p lossless run s valid fresh,
      ),
      λ q ne.
          get_run_frame p s (created_store p run s) q
            (ground (arith, get-put run.run_id q (split_run p run).0 s.runs, ==_iff run.run_id q))
            (λ field _. payloads_frame p lossless run s q field ne),
    )

-- A taken id is refused, and nothing changes.
pub create_run_duplicate :
    (p : Serialization) (run : RunRecord) (s : RunStore) (stored : StoredRun)
    → get run.run_id s.runs ≡ some stored
    → create_run p run s ≡ (err duplicate_run, s)
unfolding create_run
create_run_duplicate p run s stored h = rw h refl

abbrev pub IsIdle : RunRecord → Type 0
IsIdle run = run.status ≢ waiting → (run.waiting_reason ≡ none) × (run.waiting_step_id ≡ none)

-- Creation keeps the invariant, if what the record waits for is set only in WAITING.
pub create_run-IsValid :
    (p : Serialization)
    → IsLossless p
    → (run : RunRecord) (s : RunStore) → IsIdle run
    → IsValid p s
    → IsValid p (create_run p run s).1
unfolding split_run
create_run-IsValid p lossless run s idle valid = elim (Option-cases (get run.run_id s.runs)) [
  | inr (stored, e) ↦ rw (create_run_duplicate p run s stored e) valid
  | inl fresh ↦ rw (create_run-fresh p lossless run s fresh) (
      IsValid-update p s (created_store p run s) run.run_id (split_run p run).0
        (λ q. get-put run.run_id q (split_run p run).0 s.runs) (payloads_frame p lossless run s)
        (consistent fresh) valid)
]
  where
    consistent :
        get run.run_id s.runs ≡ none
        → IsConsistent p (created_store p run s) run.run_id (split_run p run).0
    consistent fresh = record {
      own_id = refl;
      readable = (run, read_record-create p lossless run s valid fresh);
      idle_reason = λ n. (idle n).0;
      idle_step = λ n. (idle n).1;
    }
