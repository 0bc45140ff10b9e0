-- ===== src/Run/Store/Exclusion.antt =====
-- Leases: at most one owner writes at a time.
use m_agent.Base.{
  ℕ, ◌+◌, ◌≤◌, ◌<◌, String, ◌≡◌, ◌≢◌, refl, false, some, arith, String_eq, ◌==◌, ◌&&◌,
  if◌then◌else◌, ==_iff, ==_refl, ltb, ok, err,
}
use m_agent.Base.Dict.{get, put, get-put}
use m_agent.Errors.{lease_not_held}
use m_agent.Run.Payload.{StoredRun}
use m_agent.Run.Store.{RunStore, require_current, holds_lease, check_lease, put_run}
use m_agent.Run.Store.Leases.{RunLease, acquire_lease, get_lease, assert_lease, is_held_by_other}

module _ (r : String) (s : RunStore) (lease : RunLease) where
  -- A recorded lease that has not expired keeps every other owner out: with the current version of
  -- the Run, acquiring it is refused, and so is an assertion by another owner. Nothing changes.
  pub get_lease-exclusive :
      (owner : String) (v ttl now : ℕ) (stored : StoredRun)
      → get_lease r s ≡ some lease
      → lease.owner ≢ owner
      → now < lease.expires_at
      → get r s.runs ≡ some stored
      → stored.version ≡ v
      → (acquire_lease r owner ttl v now s ≡ (err lease_not_held, s))
        × (assert_lease r v owner now s ≡ (err lease_not_held, s))
  unfolding acquire_lease assert_lease get_lease require_current check_lease is_held_by_other
      holds_lease
  get_lease-exclusive owner v ttl now stored given other live found version =
      ground (arith, ==_iff lease.owner owner)

-- What an assertion says where a lease is recorded.
assert_lease-recorded :
    (r owner q : String) (v expires_at later : ℕ) (s : RunStore) (stored : StoredRun)
    → get r s.runs ≡ some stored
    → stored.version ≡ v
    → stored.lease_owner ≡ some owner
    → stored.lease_expires_at ≡ some expires_at
    → assert_lease r v q later s
      ≡ (if owner == q && ltb later expires_at then (ok tt, s) else (err lease_not_held, s))
unfolding assert_lease require_current check_lease holds_lease
assert_lease-recorded r owner q v expires_at later s stored found version own expiry = ground arith

-- Whoever asks for a free lease gets it, if it names the current version; then the lease recorded
-- is its own, it passes the check until the lease expires, and nobody else does.
pub acquire_lease-grants :
    (r owner : String) (v ttl now : ℕ) (s : RunStore) (stored : StoredRun)
    → get r s.runs ≡ some stored
    → stored.version ≡ v
    → is_held_by_other stored.lease_owner stored.lease_expires_at owner now ≡ false
    → let lease : RunLease = record { run_id = r; owner = owner; expires_at = now + ttl } in
      let (result, s') = acquire_lease r owner ttl v now s in
      (result ≡ ok lease)
      × (get_lease r s' ≡ some lease)
      × ((later : ℕ) → later < now + ttl → assert_lease r v owner later s' ≡ (ok tt, s'))
      × ((later : ℕ)
          → now + ttl ≤ later
          → assert_lease r v owner later s' ≡ (err lease_not_held, s'))
      × ((q : String) (later : ℕ)
          → owner ≢ q
          → assert_lease r v q later s' ≡ (err lease_not_held, s'))
unfolding acquire_lease get_lease require_current put_run
acquire_lease-grants r owner v ttl now s stored found version free =
    let leased = record stored { lease_owner = some owner; lease_expires_at = some (now + ttl) } in
    let s' = record s { runs = put r leased s.runs } in
    let made : acquire_lease r owner ttl v now s
        ≡ (ok (record { run_id = r; owner = owner; expires_at = now + ttl }), s') =
      ground arith in
    let found' : get r s'.runs ≡ some leased =
      ground (arith, get-put r r leased s.runs, ==_refl r) in
    let asserted = λ (q : String) (later : ℕ).
      assert_lease-recorded r owner q v (now + ttl) later s' leased found' version refl refl in
    rw made (
      refl,
      ground arith,
      λ later h. ground (arith, asserted owner later, ==_refl owner),
      λ later h. ground (arith, asserted owner later),
      λ q later h. ground (arith, asserted q later, ==_iff owner q),
    )
