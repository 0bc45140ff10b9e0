-- ===== src/Tests/Routing.antt =====
-- The fallback and the replacement of Runs at concrete inputs.
use m_agent.Base.{
  String, true, false, List, [], ◌∷◌, length, ◌≡◌, ◌≤◌, ◌↔◌, refl, none, some, ok, ◌==◌, String_eq,
  if◌then◌else◌,
}
use m_agent.Run.Status.{succeeded}
use m_agent.Run.Records.{RunRecord}
use m_agent.Tests.Sample.{run_1}
use m_agent.Routing.{
  RoutingPolicyIdentity, RoutingResult, FallbackSequence, RoutingDecisionBinding,
  ReplacementRunRecord, selected, no_compatible_variant, make_sequence, execute_pre_run_fallback,
  register_replacement_run, is_reason_code, attempt_of, try_policies, has_duplicate,
}
use m_agent.Routing.Fallback.{IsConcluded, IsNumbered, execute_pre_run_fallback_stops}
use m_agent.Routing.Replacement.{IsReplacement, IsKept, register_replacement_run_iff}

abbrev policy : String → RoutingPolicyIdentity
policy policy_id = record { policy_id = policy_id; version = "1" }

abbrev policies_1 : List RoutingPolicyIdentity
policies_1 = policy "cheap" ∷ policy "near" ∷ policy "any" ∷ []

-- Only the second policy finds a variant.
abbrev select_1 : RoutingPolicyIdentity → RoutingResult
select_1 p =
    if p.policy_id == "near"
    then record { outcome = selected; reason_code = "SELECTED"; decision_id = some "d-1" }
    else record { outcome = no_compatible_variant; reason_code = "NONE"; decision_id = none }

abbrev sequence_1 : FallbackSequence
sequence_1 = record { policies = policies_1; max_attempts = 3 }

made_1 : make_sequence policies_1 3 ≡ ok sequence_1
unfolding make_sequence has_duplicate
made_1 = refl

two_tried : length (execute_pre_run_fallback select_1 sequence_1).attempts ≡ 2
unfolding execute_pre_run_fallback try_policies attempt_of
two_tried = refl

execute_pre_run_fallback_stops_example :
    IsConcluded select_1 policies_1 (execute_pre_run_fallback select_1 sequence_1)
    × IsNumbered 1 (execute_pre_run_fallback select_1 sequence_1).attempts
    × (length (execute_pre_run_fallback select_1 sequence_1).attempts ≤ 3)
execute_pre_run_fallback_stops_example =
    execute_pre_run_fallback_stops select_1 policies_1 3 sequence_1 made_1

abbrev predecessor_1 : RunRecord
predecessor_1 = record run_1 { status = succeeded }

abbrev successor_1 : RunRecord
successor_1 = record run_1 { run_id = "run-2" }

abbrev bound : String → String → RoutingDecisionBinding
bound decision_id run_id = record {
  decision_id = decision_id;
  run_id = run_id;
  variant_id = "small";
  variant_version = "1";
}

stable_code : is_reason_code "PROVIDER_FAILURE" ≡ true
unfolding is_reason_code
stable_code = refl

unstable_code : is_reason_code "1_failure" ≡ false
unfolding is_reason_code
unstable_code = refl

register_replacement_run_iff_example :
    ((made : ReplacementRunRecord) × (register_replacement_run predecessor_1 successor_1
          (bound "d-1" "run-1")
          (bound "d-2" "run-2")
          "PROVIDER_FAILURE"
        ≡ ok made)
      × IsKept (bound "d-1" "run-1") (bound "d-2" "run-2") "PROVIDER_FAILURE" made)
    ↔ (IsReplacement predecessor_1 successor_1 (bound "d-1" "run-1") (bound "d-2" "run-2")
        × (is_reason_code "PROVIDER_FAILURE" ≡ true))
register_replacement_run_iff_example =
    register_replacement_run_iff predecessor_1 successor_1 (bound "d-1" "run-1")
      (bound "d-2" "run-2") "PROVIDER_FAILURE"
