-- ===== src/Run/Store.antt =====
-- The state of `InMemoryRunStore` (m_agent/adapters/_in_memory_store.py) and the checks that its
-- methods share. A method is an action of `Exec Error RunStore`; a reading of the clock is an
-- argument, and what stands before a raise stays written.
pub mod Leases
pub mod Lifecycle
pub mod Steps
pub mod Reads
pub mod Guard
pub mod RoundTrip
pub mod Invariant
pub mod Create
pub mod Transitions
pub mod Evolution
pub mod Sound
pub mod Calls
pub mod Encoding
pub mod Accepted
pub mod Torn
pub mod Trace
pub mod Exclusion
pub mod Budget
pub mod Upsert
pub mod Stale
pub mod Returns
pub mod Leased
use m_agent.Base.{
  ℕ, String, Bool, true, false, Option, none, some, List, [], ◌∷◌, ◌&&◌, not, Eq, ◌==◌, ==ℕ_iff,
  ◌==ℕ◌, ltb, String_eq, pair_eq, Result, ok, err, if◌then◌else◌,
}
use m_agent.Base.Dict.{Dict, get, put}
use m_agent.Base.Exec.{Exec, ◌>>=◌, ◌>>◌, pure, raise, raise_if, gets, or_raise, modify}
use m_agent.Errors.{Error, run_not_found, stale_run_version, lease_not_held}
use m_agent.Run.Records.{StepRecord, PolicyDecisionRecord}
use m_agent.Run.Payload.{
  Bytes, Field, Field_eq, Fields, StoredRun, StoredAttempt, StoredCheckpoint, Serialization,
}

pub record RunStore : Type 0 where
  pub runs : Dict String StoredRun
  pub payloads : Dict (String × Field) Bytes
  pub steps : Dict String (List StepRecord)
  pub attempts : Dict String (List StoredAttempt)
  pub checkpoints : Dict String (List StoredCheckpoint)
  pub policy_decisions : Dict String (List PolicyDecisionRecord)

-- `InMemoryRunStore.__init__`
unfoldable pub empty : RunStore
empty = record {
  runs = [];
  payloads = [];
  steps = [];
  attempts = [];
  checkpoints = [];
  policy_decisions = [];
}

abbrev pub Action : Type 0 → Type 0
Action A = Exec Error RunStore A

-- `current = self._runs.get(run_id)`, with the two checks that every mutation begins with.
unfoldable pub require_current : String → ℕ → Action StoredRun
require_current run_id expected_version = do
  current ← (do or_raise (← gets (λ s. get run_id s.runs)) run_not_found)
  raise_if (not (current.version ==ℕ expected_version)) stale_run_version
  pure current

-- `owner` is the recorded owner, and the lease has not expired at `now`.
unfoldable pub holds_lease : Option String → Option ℕ → String → ℕ → Bool
holds_lease (some holder) (some expires_at) owner now = holder == owner && ltb now expires_at
holds_lease (some holder) none owner now = false
holds_lease none expires_at owner now = false

-- `_check_lease`
unfoldable pub check_lease : StoredRun → String → ℕ → Action (Unit {0})
unfolding holds_lease
check_lease stored owner now =
    raise_if (not (holds_lease stored.lease_owner stored.lease_expires_at owner now)) lease_not_held

-- `if lease_owner is not None: self._check_lease(current, lease_owner)`
unfoldable pub check_lease_if : StoredRun → Option String → ℕ → Action (Unit {0})
unfolding check_lease
check_lease_if stored none now = pure tt
check_lease_if stored (some owner) now = check_lease stored owner now

unfoldable pub put_run : String → StoredRun → Action (Unit {0})
put_run run_id stored = modify λ s. record s { runs = put run_id stored s.runs }

-- `for field, encoded in payloads.items(): self._payloads[(run_id, field)] = encoded`
unfoldable pub put_fields :
    String → Fields → Dict (String × Field) Bytes → Dict (String × Field) Bytes
put_fields run_id [] d = d
put_fields run_id ((field, encoded) ∷ fields) d =
    put_fields run_id fields (put (run_id, field) encoded d)

unfoldable pub put_payloads : String → Fields → Action (Unit {0})
unfolding put_fields
put_payloads run_id fields = modify λ s. record s { payloads = put_fields run_id fields s.payloads }

-- `self._codec.decode(encoded)` where there is something to decode.
unfoldable pub decode_some : Serialization → Option Bytes → Result Error (Option String)
decode_some p none = ok none
decode_some p (some encoded) = elim (p.decode encoded) [ ok text ↦ ok (some text) | err e ↦ err e ]

-- `_read_payload`
unfoldable pub read_payload :
    Serialization → RunStore → String → Field → Result Error (Option String)
unfolding decode_some
read_payload p s run_id field = decode_some p (get (run_id, field) s.payloads)
