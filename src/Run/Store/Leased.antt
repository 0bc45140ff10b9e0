-- ===== src/Run/Store/Leased.antt =====
-- The lease methods against the record that a reader sees.
use m_agent.Base.{
  ℕ, ◌+◌, String, ◌≡◌, ◌≢◌, refl, ◌∙◌, false, Option, none, some, arith, ==_iff, ==_refl, String_eq,
  pair_eq, ok,
}
use m_agent.Base.Dict.{get-put}
use m_agent.Run.Records.{RunRecord}
use m_agent.Run.Payload.{Serialization, StoredRun}
use m_agent.Run.Store.{RunStore, require_current}
use m_agent.Run.Store.Leases.{is_held_by_other, is_owner, acquire_lease, release_lease}
use m_agent.Run.Store.Lifecycle.{read_record, get_run}
use m_agent.Run.Store.Invariant.{IsValid, get_run_frame}
use m_agent.Run.Store.Transitions.{get_run-some, read_record-Sees}
use m_agent.Run.Store.Evolution.{with_lease}
use m_agent.Run.Store.Sound.Leases.{relet, relet_store, read_record-relet}

-- A reader of the Run sees the new record, and every other Run reads as before.
abbrev pub Only : Serialization → String → RunStore → RunStore → RunRecord → Type 0
Only p r s s' run' =
    (get_run p r s' ≡ ok (some run')) × ((q : String) → r ≢ q → get_run p q s' ≡ get_run p q s)

pub Only-trans :
    (p : Serialization) (r : String) (s s' s'' : RunStore) (run run' : RunRecord)
    → Only p r s s' run
    → Only p r s' s'' run'
    → Only p r s s'' run'
Only-trans p r s s' s'' run run' (_, first) (seen, second) =
    (seen, λ q other. second q other ∙ first q other)

module _ (p : Serialization) (r : String) (s : RunStore) (run : RunRecord)
    (seen : get_run p r s ≡ ok (some run)) where
  -- A Run that is read from a valid store has the id under which it is read.
  pub get_run-own_id : IsValid p s → run.run_id ≡ r
  get_run-own_id valid =
      let (stored, found, read) = get_run-some p s r run seen in
      (read_record-Sees p s r stored run read).0 ∙ (valid.consistent r stored found).own_id

  relet_store-Only :
      (stored : StoredRun) (owner : Option String) (expires_at : Option ℕ)
      → read_record p s r stored ≡ ok run
      → Only p r s (relet_store r stored owner expires_at s) (with_lease run owner expires_at)
  unfolding get_run
  relet_store-Only stored owner expires_at read =
      let s' = relet_store r stored owner expires_at s in
      (
        ground (
          arith,
          get-put r r (relet stored owner expires_at) s.runs,
          ==_refl r,
          read_record-relet p s r stored run owner expires_at read,
        ),
        λ q ne.
            get_run_frame p s s' q
              (ground (arith, get-put r q (relet stored owner expires_at) s.runs, ==_iff r q))
              (λ field _. refl),
      )

  pub acquire_lease-Only :
      (owner : String) (ttl v now : ℕ)
      → run.version ≡ v
      → is_held_by_other run.lease_owner run.lease_expires_at owner now ≡ false
      → let (result, s') = acquire_lease r owner ttl v now s in
        (result ≡ ok (record { run_id = r; owner = owner; expires_at = now + ttl }))
        × Only p r s s' (with_lease run (some owner) (some (now + ttl)))
  unfolding acquire_lease require_current
  acquire_lease-Only owner ttl v now version free =
      let (stored, found, read) = get_run-some p s r run seen in
      let (_, same_version, _, same_owner, same_expiry) = read_record-Sees p s r stored run read in
      let made : acquire_lease r owner ttl v now s ≡ (
        ok (record { run_id = r; owner = owner; expires_at = now + ttl }),
        relet_store r stored (some owner) (some (now + ttl)) s,
      ) =
        ground (arith, found, same_version, same_owner, same_expiry) in
      rw made (refl, relet_store-Only stored (some owner) (some (now + ttl)) read)

  pub release_lease-Only :
      (owner : String) (v : ℕ)
      → run.version ≡ v
      → run.lease_owner ≡ some owner
      → let (result, s') = release_lease r owner v s in
        (result ≡ ok tt) × Only p r s s' (with_lease run none none)
  unfolding release_lease require_current is_owner
  release_lease-Only owner v version own =
      let (stored, found, read) = get_run-some p s r run seen in
      let (_, same_version, _, same_owner, _) = read_record-Sees p s r stored run read in
      let made : release_lease r owner v s ≡ (ok tt, relet_store r stored none none s) =
        ground (arith, found, same_version, same_owner, ==_refl owner) in
      rw made (refl, relet_store-Only stored none none read)
