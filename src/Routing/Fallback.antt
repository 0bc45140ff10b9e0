-- ===== src/Routing/Fallback.antt =====
-- The fallback before a Run is created: which policies are tried, and what is selected.
use m_agent.Base.{
  ℕ, suc, ◌+◌, ◌≤◌, true, false, Option, some, none, List, [], ◌∷◌, ◌++◌, map, length,
  length-append, ◌≡◌, refl, sym, subst, ap, arith, ◌⊎◌, inl, inr, ok, Bool-cases,
}
use m_agent.Routing.{
  RoutingPolicyIdentity, RoutingResult, FallbackSequence, FallbackAttempt, PreRunFallbackResult,
  is_selected, attempt_of, make_sequence, try_policies, fallback_result, execute_pre_run_fallback,
}

abbrev IsPassedOver : (RoutingPolicyIdentity → RoutingResult) → List RoutingPolicyIdentity → Type 0
IsPassedOver select [] = Unit
IsPassedOver select (p ∷ ps) = (is_selected (select p).outcome ≡ false) × IsPassedOver select ps

abbrev identities : List FallbackAttempt → List RoutingPolicyIdentity
identities attempts = map (λ a. a.policy_identity) attempts

-- The numbers of the attempts count up from `index`.
abbrev pub IsNumbered : ℕ → List FallbackAttempt → Type 0
IsNumbered index [] = Unit
IsNumbered index (a ∷ attempts) = (a.attempt_index ≡ index) × IsNumbered (index + 1) attempts

-- The policies up to the one that is selected, and no other, were tried.
pub record IsChosen (select : RoutingPolicyIdentity → RoutingResult)
    (policies : List RoutingPolicyIdentity) (attempts : List FallbackAttempt)
    (result : RoutingResult) : Type 0 where
  pub before : List RoutingPolicyIdentity
  pub chosen : RoutingPolicyIdentity
  pub after : List RoutingPolicyIdentity
  pub split : policies ≡ before ++ chosen ∷ after
  pub passed_over : IsPassedOver select before
  pub result_of : result ≡ select chosen
  pub is_chosen : is_selected result.outcome ≡ true
  pub tried : identities attempts ≡ before ++ chosen ∷ []

module _ (select : RoutingPolicyIdentity → RoutingResult) where
  abbrev Ends : List RoutingPolicyIdentity → List FallbackAttempt → Option RoutingResult → Type 0
  Ends policies attempts (some result) = IsChosen select policies attempts result
  Ends policies attempts none = IsPassedOver select policies × (identities attempts ≡ policies)

  one_more :
      (index : ℕ) (p : RoutingPolicyIdentity) (ps : List RoutingPolicyIdentity)
      (rest : List FallbackAttempt × Option RoutingResult)
      → is_selected (select p).outcome ≡ false
      → Ends ps rest.0 rest.1
      → Ends (p ∷ ps) (attempt_of index p (select p) ∷ rest.0) rest.1
  unfolding attempt_of
  one_more index p ps (attempts, some result) passed ends = record {
    before = p ∷ ends.before;
    chosen = ends.chosen;
    after = ends.after;
    split = ap (p ∷◌) ends.split;
    passed_over = (passed, ends.passed_over);
    result_of = ends.result_of;
    is_chosen = ends.is_chosen;
    tried = ap (p ∷◌) ends.tried;
  }
  one_more index p ps (attempts, none) passed (all_passed, tried) =
      ((passed, all_passed), ap (p ∷◌) tried)

  abbrev IsTried :
      ℕ → List RoutingPolicyIdentity → List FallbackAttempt × Option RoutingResult → Type 0
  IsTried index policies made = Ends policies made.0 made.1 × IsNumbered index made.0

  try_policies-IsTried :
      (index : ℕ) (policies : List RoutingPolicyIdentity)
      → IsTried index policies (try_policies select index policies)
  unfolding try_policies attempt_of
  try_policies-IsTried index [] = ((tt, refl), tt)
  try_policies-IsTried index (p ∷ ps) =
      let rest = try_policies select (index + 1) ps in
      elim (Bool-cases (is_selected (select p).outcome)) [
        | inl chosen ↦
            let made : try_policies select index (p ∷ ps)
                ≡ (attempt_of index p (select p) ∷ [], some (select p)) =
              ground arith in
            subst (IsTried index (p ∷ ps)) (sym made) (
              record {
                before = [];
                chosen = p;
                after = ps;
                split = refl;
                passed_over = tt;
                result_of = refl;
                is_chosen = chosen;
                tried = refl;
              },
              (refl, tt),
            )
        | inr passed ↦
            let made : try_policies select index (p ∷ ps)
                ≡ (attempt_of index p (select p) ∷ rest.0, rest.1) =
              ground arith in
            let (ends, numbered) = try_policies-IsTried (index + 1) ps in
            subst (IsTried index (p ∷ ps)) (sym made)
              (one_more index p ps rest passed ends, (refl, numbered))
      ]

length-identities :
    (attempts : List FallbackAttempt) → length attempts ≡ length (identities attempts)
length-identities [] = refl
length-identities (a ∷ attempts) = ap suc (length-identities attempts)

made-sequence :
    (policies : List RoutingPolicyIdentity) (max_attempts : ℕ) (sequence : FallbackSequence)
    → make_sequence policies max_attempts ≡ ok sequence
    → (sequence.policies ≡ policies) × (length policies ≤ max_attempts)
unfolding make_sequence
made-sequence policies max_attempts sequence h = (ground arith, ground arith)

-- The policies that are tried are a prefix of the sequence.
few_tried :
    (select : RoutingPolicyIdentity → RoutingResult) (policies : List RoutingPolicyIdentity)
    (attempts : List FallbackAttempt) (selected : Option RoutingResult)
    → Ends select policies attempts selected
    → length attempts ≤ length policies
few_tried select policies attempts (some result) ends = omega (
  arith,
  length-identities attempts,
  ap length ends.tried,
  ap length ends.split,
  length-append ends.before (ends.chosen ∷ ends.after),
  length-append ends.before (ends.chosen ∷ []),
)
few_tried select policies attempts none (_, tried) =
    omega (arith, length-identities attempts, ap length tried)

abbrev pub IsConcluded :
    (RoutingPolicyIdentity → RoutingResult)
    → List RoutingPolicyIdentity
    → PreRunFallbackResult
    → Type 0
IsConcluded select policies result =
    ((chosen : RoutingResult) × (result.selected ≡ some chosen)
      × (result.exhausted ≡ false)
      × (result.outcome ≡ chosen.outcome)
      × IsChosen select policies result.attempts chosen)
    ⊎ ((result.selected ≡ none)
        × (result.exhausted ≡ true)
        × IsPassedOver select policies
        × (identities result.attempts ≡ policies))

concluded :
    (select : RoutingPolicyIdentity → RoutingResult) (policies : List RoutingPolicyIdentity)
    (max_attempts : ℕ) (tried : List FallbackAttempt × Option RoutingResult)
    → IsTried select 1 policies tried
    → length policies ≤ max_attempts
    → IsConcluded select policies (fallback_result tried)
      × IsNumbered 1 (fallback_result tried).attempts
      × (length (fallback_result tried).attempts ≤ max_attempts)
concluded select policies max_attempts (attempts, some result) (ends, numbered) room =
    let few = few_tried select policies attempts (some result) ends in
    (inl (result, refl, refl, refl, ends), numbered, omega arith)
concluded select policies max_attempts (attempts, none) (ends, numbered) room =
    let few = few_tried select policies attempts none ends in
    (inr (refl, refl, ends.0, ends.1), numbered, omega arith)

-- With a sequence that passed its validation, the fallback before a Run tries the policies in
-- their order and numbers the attempts from 1. Either it selects the result of the first policy
-- whose outcome is `selected` and tries none after it, or no policy of the sequence is selected,
-- all of them were tried and the result is marked as exhausted. There are at most `max_attempts`
-- attempts.
pub execute_pre_run_fallback_stops :
    (select : RoutingPolicyIdentity → RoutingResult) (policies : List RoutingPolicyIdentity)
    (max_attempts : ℕ) (sequence : FallbackSequence)
    → make_sequence policies max_attempts ≡ ok sequence
    → IsConcluded select policies (execute_pre_run_fallback select sequence)
      × IsNumbered 1 (execute_pre_run_fallback select sequence).attempts
      × (length (execute_pre_run_fallback select sequence).attempts ≤ max_attempts)
unfolding execute_pre_run_fallback
execute_pre_run_fallback_stops select policies max_attempts sequence h =
    let (same, room) = made-sequence policies max_attempts sequence h in
    subst
      (λ ps.
        let result = fallback_result (try_policies select 1 ps) in
        IsConcluded select policies result
        × IsNumbered 1 result.attempts
        × (length result.attempts ≤ max_attempts))
      (sym same)
      (concluded select policies max_attempts (try_policies select 1 policies)
        (try_policies-IsTried select 1 policies) room)
