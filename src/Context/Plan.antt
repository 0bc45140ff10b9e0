-- ===== src/Context/Plan.antt =====
-- What the validation of a Context Plan accepts.
use m_agent.Base.{
  String, ◌≡◌, ◌≢◌, ◌↔◌, refl, sym, false, List, [], ◌∷◌, arith, ==_iff, String_eq, inl, inr, ok,
  Result-cases, Bool-cases,
}
use m_agent.Context.{
  ContextStage, protected_channels, contains, declares_protected, check_unique, check_outputs,
  validate_plan,
}

-- A predicate holds of every element.
abbrev pub All {ℓ} : {A : Type ℓ} → (A → Type ℓ) → List A → Type ℓ
All P [] = Unit
All P (x ∷ xs) = P x × All P xs

-- No two stages have one id.
abbrev pub AreDistinct : List ContextStage → Type 0
AreDistinct [] = Unit
AreDistinct (stage ∷ stages) =
    All (λ other. other.identity.stage_id ≢ stage.identity.stage_id) stages × AreDistinct stages

-- No output channel is a protected one.
abbrev pub IsUnprotected : ContextStage → Type 0
IsUnprotected stage =
    All
      (λ channel.
        (channel ≢ "instructions")
        × (channel ≢ "run_input")
        × (channel ≢ "history")
        × (channel ≢ "tool_outcomes"))
      stage.output_channels

abbrev IsUnseen : List String → ContextStage → Type 0
IsUnseen seen stage = contains stage.identity.stage_id seen ≡ false

All-map :
    {A : Type 0} (P Q : A → Type 0) (xs : List A) → ((x : A) → P x → Q x) → All P xs → All Q xs
All-map P Q [] f h = tt
All-map P Q (x ∷ xs) f (p, h) = (f x p, All-map P Q xs f h)

All-zip :
    {A : Type 0} (P Q R : A → Type 0) (xs : List A)
    → ((x : A) → P x → Q x → R x)
    → All P xs
    → All Q xs
    → All R xs
All-zip P Q R [] f h k = tt
All-zip P Q R (x ∷ xs) f (p, h) (q, k) = (f x p q, All-zip P Q R xs f h k)

check_unique_sound :
    (seen : List String) (stages : List ContextStage)
    → check_unique seen stages ≡ ok tt
    → AreDistinct stages × All (IsUnseen seen) stages
unfolding check_unique contains
check_unique_sound seen [] h = (tt, tt)
check_unique_sound seen (stage ∷ stages) h =
    let id = stage.identity.stage_id in
    elim (Bool-cases (contains id seen)) [
      | inl twice ↦ absurd (ground arith)
      | inr fresh ↦
          let (distinct, unseen) = check_unique_sound (id ∷ seen) stages (ground arith) in
          (
            (
              All-map (IsUnseen (id ∷ seen)) (λ other. other.identity.stage_id ≢ id) stages
                  (λ other u e. ground (arith, ==_iff id other.identity.stage_id)) unseen,
              distinct,
            ),
            (
              fresh,
              All-map (IsUnseen (id ∷ seen)) (IsUnseen seen) stages (λ other u. ground arith)
                  unseen,
            ),
          )
    ]

check_unique_complete :
    (seen : List String) (stages : List ContextStage)
    → AreDistinct stages
    → All (IsUnseen seen) stages
    → check_unique seen stages ≡ ok tt
unfolding check_unique contains
check_unique_complete seen [] distinct unseen = refl
check_unique_complete seen (stage ∷ stages) (apart, distinct) (fresh, unseen) =
    let id = stage.identity.stage_id in
    ground (
      arith,
      check_unique_complete (id ∷ seen) stages distinct (
          All-zip (λ other. other.identity.stage_id ≢ id) (IsUnseen seen) (IsUnseen (id ∷ seen))
            stages (λ other n u. ground (arith, ==_iff id other.identity.stage_id)) apart unseen),
    )

declares_protected_iff :
    (channels : List String)
    → (declares_protected channels ≡ false)
      ↔ All
          (λ channel.
            (channel ≢ "instructions")
            × (channel ≢ "run_input")
            × (channel ≢ "history")
            × (channel ≢ "tool_outcomes"))
          channels
unfolding declares_protected contains protected_channels
declares_protected_iff [] = (λ h. tt, λ h. refl)
declares_protected_iff (channel ∷ channels) =
    let rest = declares_protected_iff channels in
    let a = ==_iff "instructions" channel in
    let b = ==_iff "run_input" channel in
    let c = ==_iff "history" channel in
    let d = ==_iff "tool_outcomes" channel in
    (
      λ h. (
        (
          λ e. ground (arith, a, sym e),
          λ e. ground (arith, b, sym e),
          λ e. ground (arith, c, sym e),
          λ e. ground (arith, d, sym e),
        ),
        rest.0 (ground arith),
      ),
      λ (p, h). ground (arith, rest.1 h, a, b, c, d, p.0, p.1, p.2, p.3),
    )

check_outputs_iff :
    (stages : List ContextStage) → (check_outputs stages ≡ ok tt) ↔ All IsUnprotected stages
unfolding check_outputs
check_outputs_iff [] = (λ h. tt, λ h. refl)
check_outputs_iff (stage ∷ stages) =
    let rest = check_outputs_iff stages in
    let own = declares_protected_iff stage.output_channels in
    elim (Bool-cases (declares_protected stage.output_channels)) [
      | inl bad ↦ (λ h. absurd (ground arith), λ (p, h). absurd (cc (bad, own.1 p)))
      | inr good ↦ (λ h. (own.0 good, rest.0 (ground arith)), λ (p, h). ground (arith, rest.1 h))
    ]

IsUnseen-at_first : (stages : List ContextStage) → All (IsUnseen []) stages
unfolding contains
IsUnseen-at_first [] = tt
IsUnseen-at_first (stage ∷ stages) = (refl, IsUnseen-at_first stages)

-- A plan is accepted exactly where no two of its stages have one id and no stage declares a
-- protected channel (the instructions, the input, the history, the outcomes of tools) as an output.
pub validate_plan_iff :
    (stages : List ContextStage)
    → (validate_plan stages ≡ ok tt) ↔ (AreDistinct stages × All IsUnprotected stages)
unfolding validate_plan
validate_plan_iff stages = elim (Result-cases (check_unique [] stages)) [
  | inl (done, unique) ↦ (
    λ h. (
      (check_unique_sound [] stages (ground arith)).0,
      (check_outputs_iff stages).0 (ground arith),
    ),
    λ (distinct, safe). ground (arith, (check_outputs_iff stages).1 safe),
  )
  | inr (e, refused) ↦ (
    λ h. absurd (ground arith),
    λ (distinct, safe).
        absurd (cc (refused, check_unique_complete [] stages distinct (IsUnseen-at_first stages))),
  )
]
