-- ===== src/Run/Store/Leases.antt =====
-- The lease methods of `InMemoryRunStore`.
use m_agent.Base.{
  ℕ, ◌+◌, String, Bool, false, Option, none, some, ◌&&◌, not, ◌==◌, ltb, String_eq, Result,
}
use m_agent.Base.Dict.{get}
use m_agent.Base.Exec.{◌>>=◌, ◌>>◌, pure, lift, raise_if}
use m_agent.Errors.{Error, lease_not_held}
use m_agent.Run.Store.{RunStore, Action, require_current, check_lease, put_run}

-- `RunLease` of m_agent/_store.py
pub record RunLease : Type 0 where
  pub run_id : String
  pub owner : String
  pub expires_at : ℕ

-- Another owner's lease is recorded and has not expired at `now`.
unfoldable pub is_held_by_other : Option String → Option ℕ → String → ℕ → Bool
is_held_by_other (some holder) (some expires_at) owner now =
    not (holder == owner) && ltb now expires_at
is_held_by_other (some holder) none owner now = false
is_held_by_other none expires_at owner now = false

-- A `ttl` is a length of time that is not negative.
unfoldable pub acquire_lease : String → String → ℕ → ℕ → ℕ → Action RunLease
unfolding is_held_by_other put_run
acquire_lease run_id owner ttl expected_version now = do
  current ← require_current run_id expected_version
  raise_if (is_held_by_other current.lease_owner current.lease_expires_at owner now) lease_not_held
  put_run run_id (record current { lease_owner = some owner; lease_expires_at = some (now + ttl) })
  pure (record { run_id = run_id; owner = owner; expires_at = now + ttl })

-- `current.lease_owner == owner`
unfoldable pub is_owner : Option String → String → Bool
is_owner none owner = false
is_owner (some holder) owner = holder == owner

unfoldable pub release_lease : String → String → ℕ → Action (Unit {0})
unfolding is_owner put_run
release_lease run_id owner expected_version = do
  current ← require_current run_id expected_version
  raise_if (not (is_owner current.lease_owner owner)) lease_not_held
  put_run run_id (record current { lease_owner = none; lease_expires_at = none })

abbrev lease_of : String → Option String → Option ℕ → Option RunLease
lease_of run_id (some owner) (some expires_at) =
    some (record { run_id = run_id; owner = owner; expires_at = expires_at })
lease_of run_id (some owner) none = none
lease_of run_id none expires_at = none

unfoldable pub get_lease : String → RunStore → Option RunLease
get_lease run_id s = elim (get run_id s.runs) [
  | none ↦ none
  | some stored ↦ lease_of run_id stored.lease_owner stored.lease_expires_at
]

unfoldable pub assert_lease : String → ℕ → String → ℕ → Action (Unit {0})
assert_lease run_id expected_version owner now = do
  current ← require_current run_id expected_version
  check_lease current owner now

-- `guard` is a callback of the caller that returns or raises.
unfoldable pub prepare_model_dispatch :
    String → ℕ → String → Result Error (Unit {0}) → ℕ → Action (Unit {0})
prepare_model_dispatch run_id expected_version owner guard now = do
  current ← require_current run_id expected_version
  lift guard
  check_lease current owner now
