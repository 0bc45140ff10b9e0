-- ===== src/Tests/Policies.antt =====
-- The gates of a policy at concrete inputs.
use m_agent.Base.{String, ◌≡◌, refl, none, some, [], String_eq, ok}
use m_agent.Run.Records.{PolicyGate, tool_request, final_output, allow, require_resolution}
use m_agent.Run.Store.{require_current}
use m_agent.Run.Store.Steps.{record_policy_decision}
use m_agent.Control.{awaiting}
use m_agent.Policy.{RunPolicy, PolicyDecision, evaluate, act_on, enforce_policy}
use m_agent.Policy.Gate.{Judged, enforce_policy_closed}
use m_agent.Tests.Layout.{plain}
use m_agent.Tests.Control.{quiet_1, holding, running_1, running_store, lease_1}

-- The final output has to be looked at, and everything else is allowed.
abbrev decide : PolicyGate → PolicyDecision
decide final_output = record { action = require_resolution; reason_code = "LOOK" }
decide _ = record { action = allow; reason_code = "ALLOWED" }

abbrev policy_1 : RunPolicy
policy_1 = record {
  identity = record { policy_id = "allow_all"; version = "1"; fingerprint = "builtin" };
  evaluate = λ gate run_id payload. some (decide gate);
  input_summary = λ payload. payload;
}

allowed_1 :
    (enforce_policy plain lease_1 policy_1 quiet_1 running_1 tool_request "{}" none none
      (holding running_store [])).0
    ≡ ok running_1
unfolding enforce_policy evaluate act_on awaiting record_policy_decision
    m_agent.Run.Store.Transitions.advance require_current m_agent.Base.Dict.get
    m_agent.Run.Store.Calls.perform_all m_agent.Run.Store.Lifecycle.transition_run
    m_agent.Run.Store.Leases.acquire_lease m_agent.Run.Store.Lifecycle.create_run
    m_agent.Run.Store.empty m_agent.Base.Dict.put m_agent.Run.Store.check_lease_if
allowed_1 = refl

enforce_policy_closed_example : Judged plain lease_1 policy_1 running_1 tool_request "{}" running_1
enforce_policy_closed_example =
    enforce_policy_closed plain lease_1 policy_1 quiet_1 running_1 tool_request "{}" none none
      (holding running_store []) running_1 allowed_1
