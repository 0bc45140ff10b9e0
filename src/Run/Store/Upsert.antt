-- ===== src/Run/Store/Upsert.antt =====
-- Steps are told apart by their ids: a step that is recorded again replaces the one before.
use m_agent.Base.{
  ℕ, String, ◌≡◌, refl, false, Option, none, some, List, [], ◌∷◌, ◌++◌, arith, map, ◌==◌, ==_iff,
  ==_refl, String_eq, if◌then◌else◌, inl, inr, ok, is_some,
}
use m_agent.Base.Dict.{get_or, get-put}
use m_agent.Run.Records.{StepRecord}
use m_agent.Run.Store.{RunStore}
use m_agent.Run.Store.Guard.{require_current-cases, check_lease_if-cases}
use m_agent.Run.Store.Steps.{upsert, put_step, record_step, get_steps}

module _ {ℓ} {A : Type ℓ} (key : A → String) where
  -- The first entry with a key.
  abbrev pub find : String → List A → Option A
  find k [] = none
  find k (x ∷ xs) = if key x == k then some x else find k xs

  pub find-upsert :
      (x : A) (k : String) (xs : List A)
      → find k (upsert key x xs) ≡ (if key x == k then some x else find k xs)
  unfolding upsert
  find-upsert x k [] = refl
  find-upsert x k (y ∷ ys) =
      ground (arith, ==_iff (key x) k, ==_iff (key y) k, ==_iff (key y) (key x), find-upsert x k ys)

  -- The keys stay in order; a new one comes last.
  pub keys-upsert :
      (x : A) (xs : List A)
      → map key (upsert key x xs)
        ≡ (if is_some (find (key x) xs) then map key xs else map key xs ++ key x ∷ [])
  unfolding upsert
  keys-upsert x [] = refl
  keys-upsert x (y ∷ ys) = ground (arith, ==_iff (key y) (key x), keys-upsert x ys)

record_step-stored :
    (step : StepRecord) (v : ℕ) (writer : Option String) (now : ℕ) (s : RunStore)
    (returned : StepRecord)
    → (record_step step v writer now s).0 ≡ ok returned
    → (record_step step v writer now s).1 ≡ put_step step s
unfolding record_step
record_step-stored step v writer now s returned h = elim (require_current-cases step.run_id v s) [
  | inr (e, raises) ↦ absurd (ground arith)
  | inl (stored, c) ↦ elim (check_lease_if-cases stored now s writer) [
    | inr raises ↦ absurd (ground arith)
    | inl (lease, returns) ↦ ground arith
  ]
]

get_or-put_step :
    (step : StepRecord) (s : RunStore) (q : String)
    → get_or q (put_step step s).steps [] ≡ (
        if step.run_id == q
        then upsert (λ x. x.step_id) step (get_or step.run_id s.steps [])
        else get_or q s.steps [])
unfolding put_step
get_or-put_step step s q = ground (
  arith,
  get-put step.run_id q (upsert (λ x. x.step_id) step (get_or step.run_id s.steps [])) s.steps,
)

-- Where `record_step` returns, a reader finds the step under its id and every other step as before;
-- the ids keep their order, and a new id comes last. The steps of other Runs are as before.
pub record_step-get_steps :
    (step : StepRecord) (v : ℕ) (writer : Option String) (now : ℕ) (s : RunStore)
    (returned : StepRecord)
    → (record_step step v writer now s).0 ≡ ok returned
    → let before = get_steps step.run_id s in
      let s' = (record_step step v writer now s).1 in
      ((id : String)
        → find (λ x. x.step_id) id (get_steps step.run_id s')
          ≡ (if step.step_id == id then some step else find (λ x. x.step_id) id before))
      × (map (λ x. x.step_id) (get_steps step.run_id s') ≡ (
          if is_some (find (λ x. x.step_id) step.step_id before)
          then map (λ x. x.step_id) before
          else map (λ x. x.step_id) before ++ step.step_id ∷ []))
      × ((q : String) → (step.run_id == q) ≡ false → get_steps q s' ≡ get_steps q s)
unfolding get_steps
record_step-get_steps step v writer now s returned h =
    rw (record_step-stored step v writer now s returned h) (
      λ id.
          rw (get_or-put_step step s step.run_id)
            (rw (==_refl step.run_id) (find-upsert (λ x. x.step_id) step id _)),
      rw (get_or-put_step step s step.run_id)
          (rw (==_refl step.run_id) (keys-upsert (λ x. x.step_id) step _)),
      λ q ne. rw (get_or-put_step step s q) (rw ne refl),
    )
