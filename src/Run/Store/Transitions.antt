-- ===== src/Run/Store/Transitions.antt =====
-- `transition_run` against the record that a reader sees.
use m_agent.Base.{
  ℕ, ◌+◌, String, ◌≡◌, ◌≢◌, refl, sym, ◌∙◌, subst, Option, none, some, arith, ==_iff, ==_refl,
  String_eq, pair_eq, Result, ok, err, Option-cases, inl, inr,
}
use m_agent.Base.Dict.{get, put, get-put}
use m_agent.Errors.{Error}
use m_agent.Run.Status.{RunStatus_eq, validate_transition}
use m_agent.Run.Records.{RunRecord}
use m_agent.Run.Payload.{
  Bytes, Field, Field_eq, Serialization, IsLossless, StoredRun, run_input, run_output, run_snapshot,
  run_history, run_to_record, restore_snapshot, restore_history, snapshot_metadata,
}
use m_agent.Run.Store.{
  RunStore, decode_some, put_fields, read_payload, require_current, check_lease, check_lease_if,
}
use m_agent.Run.Store.Lifecycle.{
  Transition, only_waiting, assemble, read_record, get_run, transition_run, transitioned,
  output_field, snapshot_field,
}
use m_agent.Run.Store.Guard.{MayWrite}
use m_agent.Run.Store.Reads.{overlay, get-put_fields, get-put_fields_ne}
use m_agent.Run.Store.Invariant.{get_run_frame}

abbrev pub or_else {ℓ} : {A : Type ℓ} → Option A → Option A → Option A
or_else none before = before
or_else (some a) before = some a

-- What a transition makes of a record: the new status and error code, the next version, an output
-- and a snapshot that replace the old ones where they are given, and a reason and a step only in
-- WAITING. All else stays.
unfoldable pub advance : RunRecord → Transition → ℕ → RunRecord
advance run t updated_at = record run {
  status = t.status;
  snapshot = or_else t.snapshot run.snapshot;
  output = or_else t.output run.output;
  waiting_reason = only_waiting t.status t.waiting_reason;
  waiting_step_id = only_waiting t.status t.waiting_step_id;
  error_code = t.error_code;
  version = run.version + 1;
  updated_at = updated_at;
}

-- The payloads that a transition writes, output first.
abbrev pub rewritten : Serialization → Transition → Field → Option Bytes → Option Bytes
rewritten p t field before =
    overlay field (snapshot_field p t.snapshot) (overlay field (output_field p t.output) before)

assemble-transitioned :
    (p : Serialization)
    → IsLossless p
    → (stored : StoredRun) (t : Transition) (u : ℕ) (i o x h : Option Bytes) (run : RunRecord)
    → assemble p stored (decode_some p i) (decode_some p o) (decode_some p x) (decode_some p h)
      ≡ ok run
    → assemble p
        (transitioned stored t u)
        (decode_some p (rewritten p t run_input i))
        (decode_some p (rewritten p t run_output o))
        (decode_some p (rewritten p t run_snapshot x))
        (decode_some p (rewritten p t run_history h))
      ≡ ok (advance run t u)
unfolding assemble transitioned decode_some restore_snapshot restore_history run_to_record
    snapshot_metadata advance
assemble-transitioned p lossless stored t u i o x h run e =
    grind (arith, lossless.decode-encode, lossless.load-dump_snapshot)

-- The metadata that a reader sees is the stored one.
abbrev pub Sees : StoredRun → RunRecord → Type 0
Sees stored run =
    (run.run_id ≡ stored.run_id)
    × (run.version ≡ stored.version)
    × (run.status ≡ stored.status)
    × (run.lease_owner ≡ stored.lease_owner)
    × (run.lease_expires_at ≡ stored.lease_expires_at)

assemble-Sees :
    (p : Serialization) (stored : StoredRun) (i o x h : Result Error (Option String))
    (run : RunRecord)
    → assemble p stored i o x h ≡ ok run
    → Sees stored run
unfolding assemble run_to_record
assemble-Sees p stored (err _) o x h run e = cc
assemble-Sees p stored (ok i) (err _) x h run e = cc
assemble-Sees p stored (ok i) (ok o) (err _) h run e = cc
assemble-Sees p stored (ok i) (ok o) (ok x) h run e = ground arith

pub read_record-Sees :
    (p : Serialization) (s : RunStore) (r : String) (stored : StoredRun) (run : RunRecord)
    → read_record p s r stored ≡ ok run
    → Sees stored run
unfolding read_record
read_record-Sees p s r stored run h =
    assemble-Sees p stored (read_payload p s r run_input) (read_payload p s r run_output)
      (read_payload p s r run_snapshot) (read_payload p s r run_history) run h

pub get_run-some :
    (p : Serialization) (s : RunStore) (r : String) (run : RunRecord)
    → get_run p r s ≡ ok (some run)
    → (stored : StoredRun) × (get r s.runs ≡ some stored) × (read_record p s r stored ≡ ok run)
unfolding get_run
get_run-some p s r run h = elim (Option-cases (get r s.runs)) [
  | inl e ↦ absurd (ground arith)
  | inr (stored, e) ↦ (stored, e, ground arith)
]

-- The store after a transition that is not refused.
abbrev pub moved_store : Serialization → String → StoredRun → Transition → ℕ → RunStore → RunStore
moved_store p r stored t u s = record s {
  runs = put r (transitioned stored t u) s.runs;
  payloads =
      put_fields r (snapshot_field p t.snapshot)
        (put_fields r (output_field p t.output) s.payloads);
}

module _ (p : Serialization) (r : String) (v : ℕ) (t : Transition) (now u : ℕ) (s : RunStore) where
  pub transition_run-moved :
      (stored : StoredRun)
      → get r s.runs ≡ some stored
      → stored.version ≡ v
      → MayWrite t.lease_owner stored.lease_owner stored.lease_expires_at now
      → validate_transition stored.status t.status ≡ ok tt
      → transition_run p r v t now u s ≡ (
        read_record p (moved_store p r stored t u s) r (transitioned stored t u),
        moved_store p r stored t u s,
      )
  unfolding transition_run require_current check_lease_if check_lease
  transition_run-moved stored found version lease legal = ground arith

  pub read_record-moved :
      IsLossless p
      → (stored : StoredRun) (run : RunRecord) → read_record p s r stored ≡ ok run
      → read_record p (moved_store p r stored t u s) r (transitioned stored t u)
        ≡ ok (advance run t u)
  unfolding read_record
  read_record-moved lossless stored run h =
      simp get-put_fields (assemble-transitioned p lossless stored t u _ _ _ _ run h)

  pub moved_frame :
      (stored : StoredRun) (q : String) (field : Field)
      → r ≢ q
      → get (q, field) (moved_store p r stored t u s).payloads ≡ get (q, field) s.payloads
  moved_frame stored q field ne =
      rw (get-put_fields_ne r q field _ _ ne, get-put_fields_ne r q field _ _ ne) refl

-- A transition that the version, the lease and the table allow returns the record that a reader
-- had seen, advanced, and a reader sees that record from then on; every other Run reads as before.
pub transition_run-advance :
    (p : Serialization)
    → IsLossless p
    → (r : String) (v : ℕ) (t : Transition) (now u : ℕ) (s : RunStore) (run : RunRecord)
    → get_run p r s ≡ ok (some run)
    → run.version ≡ v
    → MayWrite t.lease_owner run.lease_owner run.lease_expires_at now
    → validate_transition run.status t.status ≡ ok tt
    → let (result, s') = transition_run p r v t now u s in
      (result ≡ ok (advance run t u))
      × (get_run p r s' ≡ ok (some (advance run t u)))
      × ((q : String) → r ≢ q → get_run p q s' ≡ get_run p q s)
unfolding get_run
transition_run-advance p lossless r v t now u s run seen version lease legal =
    let (stored, found, read) = get_run-some p s r run seen in
    let (_, same_version, same_status, same_owner, same_expiry) =
      read_record-Sees p s r stored run read in
    let moved =
      transition_run-moved p r v t now u s stored found (sym same_version ∙ version)
        (subst (λ o. MayWrite t.lease_owner o stored.lease_expires_at now) same_owner
          (subst (λ e. MayWrite t.lease_owner run.lease_owner e now) same_expiry lease))
        (rw (← same_status) legal) in
    let after = read_record-moved p r v t now u s lossless stored run read in
    rw (moved, after)
      (
        refl,
        ground (arith, get-put r r (transitioned stored t u) s.runs, ==_refl r, after),
        λ q ne.
            get_run_frame p s (moved_store p r stored t u s) q
              (ground (arith, get-put r q (transitioned stored t u) s.runs, ==_iff r q))
              (λ field _. moved_frame p r v t now u s stored q field ne),
      )
