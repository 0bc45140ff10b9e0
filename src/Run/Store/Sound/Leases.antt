-- ===== src/Run/Store/Sound/Leases.antt =====
-- The lease methods.
use m_agent.Base.{
  ℕ, ◌+◌, String, ◌≡◌, refl, Option, none, some, arith, inl, inr, String_eq, pair_eq, Result, ok,
  err, Bool-cases,
}
use m_agent.Base.Dict.{get, put, get-put}
use m_agent.Errors.{Error, lease_not_held}
use m_agent.Run.Records.{RunRecord}
use m_agent.Run.Payload.{
  Serialization, StoredRun, run_to_record, run_input, run_output, run_snapshot, run_history,
}
use m_agent.Run.Store.{RunStore, read_payload}
use m_agent.Run.Store.Leases.{
  is_held_by_other, is_owner, acquire_lease, release_lease, assert_lease, prepare_model_dispatch,
}
use m_agent.Run.Store.Lifecycle.{assemble, read_record}
use m_agent.Run.Store.Guard.{require_current-cases, check_lease-cases}
use m_agent.Run.Store.Invariant.{IsValid, IsValid-update}
use m_agent.Run.Store.Transitions.{get_run-some}
use m_agent.Run.Store.Evolution.{with_lease, kept, Sound, Sound-by, Sound-unchanged, Evolves-update}

abbrev pub relet : StoredRun → Option String → Option ℕ → StoredRun
relet stored owner expires_at = record stored { lease_owner = owner; lease_expires_at = expires_at }

assemble-relet :
    (p : Serialization) (stored : StoredRun) (i o x h : Result Error (Option String))
    (run : RunRecord) (owner : Option String) (expires_at : Option ℕ)
    → assemble p stored i o x h ≡ ok run
    → assemble p (relet stored owner expires_at) i o x h ≡ ok (with_lease run owner expires_at)
unfolding assemble run_to_record
assemble-relet p stored (err _) o x h run owner expires_at e = cc
assemble-relet p stored (ok i) (err _) x h run owner expires_at e = cc
assemble-relet p stored (ok i) (ok o) (err _) h run owner expires_at e = cc
assemble-relet p stored (ok i) (ok o) (ok x) h run owner expires_at e = ground arith

abbrev pub relet_store : String → StoredRun → Option String → Option ℕ → RunStore → RunStore
relet_store r stored owner expires_at s = record s {
  runs = put r (relet stored owner expires_at) s.runs;
}

pub read_record-relet :
    (p : Serialization) (s : RunStore) (r : String) (stored : StoredRun) (run : RunRecord)
    (owner : Option String) (expires_at : Option ℕ)
    → read_record p s r stored ≡ ok run
    → read_record p (relet_store r stored owner expires_at s) r (relet stored owner expires_at)
      ≡ ok (with_lease run owner expires_at)
unfolding read_record
read_record-relet p s r stored run owner expires_at h =
    assemble-relet p stored (read_payload p s r run_input) (read_payload p s r run_output)
      (read_payload p s r run_snapshot) (read_payload p s r run_history) run owner expires_at h

-- A new lease on a Run that exists.
relet-Sound :
    {A : Type 0} (p : Serialization) (s : RunStore) (r : String) (stored : StoredRun)
    (owner : Option String) (expires_at : Option ℕ) (a : A)
    → get r s.runs ≡ some stored
    → IsValid p s
    → Sound p s (ok a, relet_store r stored owner expires_at s)
relet-Sound p s r stored owner expires_at a found valid =
    let c = valid.consistent r stored found in
    record {
      atomic = λ e h. cc;
      valid =
          IsValid-update p s (relet_store r stored owner expires_at s) r
            (relet stored owner expires_at)
            (λ q. get-put r q (relet stored owner expires_at) s.runs) (λ q field ne. refl)
            (record {
              own_id = c.own_id;
              readable = (
                with_lease c.readable.0 owner expires_at,
                read_record-relet p s r stored c.readable.0 owner expires_at c.readable.1,
              );
              idle_reason = c.idle_reason;
              idle_step = c.idle_step;
            })
            valid;
      evolves =
          Evolves-update p s (relet_store r stored owner expires_at s) r
            (relet stored owner expires_at)
            (λ q. get-put r q (relet stored owner expires_at) s.runs) (λ q ne field _. refl)
            λ run seen.
              let (other, found', read) = get_run-some p s r run seen in
              let same : read_record p s r stored ≡ ok run = cc in
              (
                with_lease run owner expires_at,
                read_record-relet p s r stored run owner expires_at same,
                kept owner expires_at refl,
              );
    }

module _ (p : Serialization) (r : String) (v : ℕ) (s : RunStore) (valid : IsValid p s) where
  pub acquire_lease-Sound :
      (owner : String) (ttl now : ℕ) → Sound p s (acquire_lease r owner ttl v now s)
  unfolding acquire_lease
  acquire_lease-Sound owner ttl now = elim (require_current-cases r v s) [
    | inr (e, raises) ↦ Sound-unchanged p s _ (err e) (ground arith) valid
    | inl (stored, c) ↦
        elim (Bool-cases (is_held_by_other stored.lease_owner stored.lease_expires_at owner now)) [
          | inl held ↦ Sound-unchanged p s _ (err lease_not_held) (ground arith) valid
          | inr free ↦ Sound-by p s _ _ (ground arith) (
              relet-Sound p s r stored (some owner) (some (now + ttl))
                (record { run_id = r; owner = owner; expires_at = now + ttl }) c.found valid)
        ]
  ]

  pub release_lease-Sound : (owner : String) → Sound p s (release_lease r owner v s)
  unfolding release_lease
  release_lease-Sound owner = elim (require_current-cases r v s) [
    | inr (e, raises) ↦ Sound-unchanged p s _ (err e) (ground arith) valid
    | inl (stored, c) ↦ elim (Bool-cases (is_owner stored.lease_owner owner)) [
      | inl own ↦
          Sound-by p s _ _ (ground arith) (relet-Sound p s r stored none none tt c.found valid)
      | inr other ↦ Sound-unchanged p s _ (err lease_not_held) (ground arith) valid
    ]
  ]

  pub assert_lease-Sound : (owner : String) (now : ℕ) → Sound p s (assert_lease r v owner now s)
  unfolding assert_lease
  assert_lease-Sound owner now = elim (require_current-cases r v s) [
    | inr (e, raises) ↦ Sound-unchanged p s _ (err e) (ground arith) valid
    | inl (stored, c) ↦ elim (check_lease-cases stored now s owner) [
      | inl (held, returns) ↦ Sound-unchanged p s _ (ok tt) (ground arith) valid
      | inr raises ↦ Sound-unchanged p s _ (err lease_not_held) (ground arith) valid
    ]
  ]

  pub prepare_model_dispatch-Sound :
      (owner : String) (guard : Result Error (Unit {0})) (now : ℕ)
      → Sound p s (prepare_model_dispatch r v owner guard now s)
  unfolding prepare_model_dispatch
  prepare_model_dispatch-Sound owner guard now = elim (require_current-cases r v s) [
    | inr (e, raises) ↦ Sound-unchanged p s _ (err e) (ground arith) valid
    | inl (stored, c) ↦ elim (check_lease-cases stored now s owner) [
      | inl (held, returns) ↦ Sound-unchanged p s _ guard (ground arith) valid
      | inr raises ↦
          Sound-unchanged p s _ (elim guard [ ok _ ↦ err lease_not_held | err e ↦ err e ])
            (ground arith) valid
    ]
  ]
