-- ===== src/Run/Store/Guard.antt =====
-- The checks that every mutation begins with: they let it go on with the stored Run, or raise and
-- change nothing.
use m_agent.Base.{
  ℕ, String, ◌≡◌, refl, ◌⊎◌, inl, inr, true, false, Option, none, some, arith, ◌==ℕ◌, ==ℕ_iff,
  String_eq, ok, err, Bool-cases, Option-cases,
}
use m_agent.Base.Dict.{get}
use m_agent.Errors.{Error, run_not_found, stale_run_version, lease_not_held}
use m_agent.Run.Payload.{StoredRun}
use m_agent.Run.Store.{RunStore, require_current, holds_lease, check_lease, check_lease_if}

-- The writer gives no lease owner, or one that holds the lease at `now`.
abbrev pub MayWrite : Option String → Option String → Option ℕ → ℕ → Type 0
MayWrite none holder expires_at now = Unit
MayWrite (some owner) holder expires_at now = holds_lease holder expires_at owner now ≡ true

MayWrite-cases :
    (writer holder : Option String) (expires_at : Option ℕ) (now : ℕ)
    → MayWrite writer holder expires_at now
      ⊎ ((owner : String) × (writer ≡ some owner)
          × (holds_lease holder expires_at owner now ≡ false))
MayWrite-cases none holder expires_at now = inl tt
MayWrite-cases (some owner) holder expires_at now =
    elim (Bool-cases (holds_lease holder expires_at owner now)) [
      | inl held ↦ inl held
      | inr lost ↦ inr (owner, refl, lost)
    ]

module _ (r : String) (v : ℕ) (s : RunStore) where
  -- The Run exists at the expected version.
  pub record IsCurrent (stored : StoredRun) : Type 0 where
    pub found : get r s.runs ≡ some stored
    pub version : stored.version ≡ v
    pub returns : require_current r v s ≡ (ok stored, s)

  -- An unknown Run comes before a stale version.
  pub require_current-cases :
      ((stored : StoredRun) × IsCurrent stored)
      ⊎ ((e : Error) × (require_current r v s ≡ (err e, s)))
  unfolding require_current
  require_current-cases = elim (Option-cases (get r s.runs)) [
    | inl missing ↦ inr (run_not_found, ground arith)
    | inr (stored, found) ↦ elim (Bool-cases (stored.version ==ℕ v)) [
      | inr stale ↦ inr (stale_run_version, ground arith)
      | inl current ↦ inl (
        stored,
        record { found = found; version = (==ℕ_iff _ _).0 current; returns = ground arith },
      )
    ]
  ]

module _ (stored : StoredRun) (now : ℕ) (s : RunStore) where
  pub check_lease_if-cases :
      (writer : Option String)
      → (MayWrite writer stored.lease_owner stored.lease_expires_at now
          × (check_lease_if stored writer now s ≡ (ok tt, s)))
        ⊎ (check_lease_if stored writer now s ≡ (err lease_not_held, s))
  unfolding check_lease_if check_lease
  check_lease_if-cases writer =
      elim (MayWrite-cases writer stored.lease_owner stored.lease_expires_at now) [
        | inl lease ↦ inl (lease, returns writer lease)
        | inr (owner, given, lost) ↦ inr (ground arith)
      ]
    where
      returns :
          (writer : Option String)
          → MayWrite writer stored.lease_owner stored.lease_expires_at now
          → check_lease_if stored writer now s ≡ (ok tt, s)
      returns none lease = refl
      returns (some owner) lease = ground arith

  pub check_lease-cases :
      (owner : String)
      → ((holds_lease stored.lease_owner stored.lease_expires_at owner now ≡ true)
          × (check_lease stored owner now s ≡ (ok tt, s)))
        ⊎ (check_lease stored owner now s ≡ (err lease_not_held, s))
  unfolding check_lease_if
  check_lease-cases owner = check_lease_if-cases (some owner)
