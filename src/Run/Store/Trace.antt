-- ===== src/Run/Store/Trace.antt =====
-- Any sequence of calls by any clients: what holds of the store and of each Run.
use m_agent.Base.{
  String, ◌≡◌, refl, sym, subst, ◌≤◌, true, some, List, [], ◌∷◌, arith, Result, ok, err,
}
use m_agent.Base.Dict.{get}
use m_agent.Errors.{Error}
use m_agent.Run.Status.{
  RunStatus, is_terminal, validate_transition, terminal_statuses, allowed_transitions,
}
use m_agent.Run.Status.Table.{Moves, stays, moves}
use m_agent.Run.Records.{RunRecord}
use m_agent.Run.Payload.{Serialization, IsLossless}
use m_agent.Run.Store.{RunStore, empty}
use m_agent.Run.Store.Lifecycle.{get_run}
use m_agent.Run.Store.Create.{IsIdle}
use m_agent.Run.Store.Transitions.{advance}
use m_agent.Run.Store.Invariant.{IsValid}
use m_agent.Run.Store.Calls.{
  Call, forget, perform, perform_all, create, acquire, release, assert, prepare, transition, step,
  attempt, reserve, checkpoint, decide,
}
use m_agent.Run.Store.Evolution.{with_lease, Change, kept, moved, Sound}
use m_agent.Run.Store.Sound.Leases.{
  acquire_lease-Sound, release_lease-Sound, assert_lease-Sound, prepare_model_dispatch-Sound,
}
use m_agent.Run.Store.Sound.Moves.{create_run-Sound, transition_run-Sound}
use m_agent.Run.Store.Sound.Entries.{
  record_step-Sound, record_attempt-Sound, reserve_model_attempt-Sound, record_checkpoint-Sound,
  record_policy_decision-Sound,
}

-- A record that is created waits for something only in WAITING.
abbrev pub IsPermitted : Call → Type 0
IsPermitted (create run) = IsIdle run
IsPermitted _ = Unit

abbrev pub ArePermitted : List Call → Type 0
ArePermitted [] = Unit
ArePermitted (call ∷ calls) = IsPermitted call × ArePermitted calls

forget-Sound :
    {A : Type 0} (p : Serialization) (s : RunStore) (call : Result Error A × RunStore)
    → Sound p s call
    → Sound p s (forget call)
forget-Sound p s (ok a, s') sound = record {
  atomic = λ e h. cc;
  valid = sound.valid;
  evolves = sound.evolves;
}
forget-Sound p s (err e, s') sound = record {
  atomic = λ _ _. sound.atomic e refl;
  valid = sound.valid;
  evolves = sound.evolves;
}

module _ (p : Serialization) (lossless : IsLossless p) where
  perform-Sound :
      (call : Call) (s : RunStore) → IsPermitted call → IsValid p s → Sound p s (perform p call s)
  unfolding perform
  perform-Sound (create run) s permitted valid =
      forget-Sound p s _ (create_run-Sound p lossless s valid run permitted)
  perform-Sound (acquire r owner ttl v now) s permitted valid =
      forget-Sound p s _ (acquire_lease-Sound p r v s valid owner ttl now)
  perform-Sound (release r owner v) s permitted valid =
      forget-Sound p s _ (release_lease-Sound p r v s valid owner)
  perform-Sound (assert r v owner now) s permitted valid =
      forget-Sound p s _ (assert_lease-Sound p r v s valid owner now)
  perform-Sound (prepare r v owner guard now) s permitted valid =
      forget-Sound p s _ (prepare_model_dispatch-Sound p r v s valid owner guard now)
  perform-Sound (transition r v t now u) s permitted valid =
      forget-Sound p s _ (transition_run-Sound p lossless s valid r v t now u)
  perform-Sound (step x v owner now) s permitted valid =
      forget-Sound p s _ (record_step-Sound p v now s valid x owner)
  perform-Sound (attempt a v owner now) s permitted valid =
      forget-Sound p s _ (record_attempt-Sound p v now s valid a owner)
  perform-Sound (reserve x a run_max purpose_max v owner now) s permitted valid =
      forget-Sound p s _ (reserve_model_attempt-Sound p v now s valid x a run_max purpose_max owner)
  perform-Sound (checkpoint c v owner now) s permitted valid =
      forget-Sound p s _ (record_checkpoint-Sound p v now s valid c owner)
  perform-Sound (decide d v owner now) s permitted valid =
      forget-Sound p s _ (record_policy_decision-Sound p v now s valid d owner)

-- What a Run is, which nothing after its creation changes.
pub record IsSameRun (run run' : RunRecord) : Type 0 where
  pub same_id : run'.run_id ≡ run.run_id
  pub same_definition : run'.definition_id ≡ run.definition_id
  pub same_version : run'.definition_version ≡ run.definition_version
  pub same_input : run'.input ≡ run.input
  pub same_history : run'.history ≡ run.history
  pub same_creation : run'.created_at ≡ run.created_at

-- What later readers see of a Run.
pub record Follows (run run' : RunRecord) : Type 0 where
  pub same : IsSameRun run run'
  pub version : run.version ≤ run'.version
  pub status : Moves run.status run'.status
  -- A terminal Run keeps all but its lease.
  pub frozen :
      is_terminal run.status ≡ true → run' ≡ with_lease run run'.lease_owner run'.lease_expires_at

no_transition : (a b : RunStatus) → is_terminal a ≡ true → validate_transition a b ≡ ok tt → ⊥
unfolding is_terminal validate_transition terminal_statuses allowed_transitions
no_transition a b h legal = ground arith

Follows-refl : (run : RunRecord) → Follows run run
Follows-refl run = record {
  same = record {
    same_id = refl;
    same_definition = refl;
    same_version = refl;
    same_input = refl;
    same_history = refl;
    same_creation = refl;
  };
  version = omega arith;
  status = stays;
  frozen = λ h. refl;
}

Follows-Change : (run now next : RunRecord) → Follows run now → Change now next → Follows run next
unfolding advance
Follows-Change run now next follows (kept owner expires_at e) = record {
  same = record {
    same_id = ground (arith, follows.same.same_id);
    same_definition = ground (arith, follows.same.same_definition);
    same_version = ground (arith, follows.same.same_version);
    same_input = ground (arith, follows.same.same_input);
    same_history = ground (arith, follows.same.same_history);
    same_creation = ground (arith, follows.same.same_creation);
  };
  version = ground (arith, follows.version);
  status = subst (λ x. Moves run.status x.status) (sym e) follows.status;
  frozen = λ terminal. ground (arith, follows.frozen terminal);
}
Follows-Change run now next follows (moved t u legal e) = record {
  same = record {
    same_id = ground (arith, follows.same.same_id);
    same_definition = ground (arith, follows.same.same_definition);
    same_version = ground (arith, follows.same.same_version);
    same_input = ground (arith, follows.same.same_input);
    same_history = ground (arith, follows.same.same_history);
    same_creation = ground (arith, follows.same.same_creation);
  };
  version = ground (arith, follows.version);
  status = subst (λ x. Moves run.status x.status) (sym e) (moves follows.status legal);
  frozen = λ terminal.
      absurd (no_transition now.status t.status (ground (arith, follows.frozen terminal)) legal);
}

module _ (p : Serialization) (lossless : IsLossless p) where
  -- In a valid store, over a codec that encodes every text, a call that raises leaves the store as
  -- it was, whichever method it is; a record that is to be created records what it waits for only
  -- in WAITING.
  pub perform-atomic :
      (call : Call) (s : RunStore)
      → IsPermitted call
      → IsValid p s
      → (e : Error) → (perform p call s).0 ≡ err e
      → (perform p call s).1 ≡ s
  perform-atomic call s permitted valid e raises =
      (perform-Sound p lossless call s permitted valid).atomic e raises

  -- Any calls keep the invariant: every Run stays readable under its own id, records what it waits
  -- for only in WAITING, and no payload is without a Run. A record that is created must itself
  -- record what it waits for only in WAITING.
  pub perform_all-IsValid :
      (calls : List Call) (s : RunStore)
      → ArePermitted calls
      → IsValid p s
      → IsValid p (perform_all p calls s)
  unfolding perform_all
  perform_all-IsValid [] s permitted valid = valid
  perform_all-IsValid (call ∷ calls) s (permitted, rest) valid =
      perform_all-IsValid calls (perform p call s).1 rest
        (perform-Sound p lossless call s permitted valid).valid

  perform_all-from :
      (calls : List Call) (s : RunStore) (r : String) (run now : RunRecord)
      → ArePermitted calls
      → IsValid p s
      → get_run p r s ≡ ok (some now)
      → Follows run now
      → (run' : RunRecord) × (get_run p r (perform_all p calls s) ≡ ok (some run'))
        × Follows run run'
  unfolding perform_all
  perform_all-from [] s r run now permitted valid seen follows = (now, seen, follows)
  perform_all-from (call ∷ calls) s r run now (permitted, rest) valid seen follows =
      let sound = perform-Sound p lossless call s permitted valid in
      let (next, seen', change) = sound.evolves r now seen in
      perform_all-from calls (perform p call s).1 r run next rest sound.valid seen'
        (Follows-Change run now next follows change)

  -- After any calls by any clients on a valid store, where a record that is created records what it
  -- waits for only in WAITING, a Run that was there is still there with its id, definition,
  -- input, history and time of creation; its version has not gone down, its status has moved along
  -- the table of transitions only, and a terminal Run has changed in its lease at most.
  pub perform_all-Follows :
      (calls : List Call) (s : RunStore) (r : String) (run : RunRecord)
      → ArePermitted calls
      → IsValid p s
      → get_run p r s ≡ ok (some run)
      → (run' : RunRecord) × (get_run p r (perform_all p calls s) ≡ ok (some run'))
        × Follows run run'
  perform_all-Follows calls s r run permitted valid seen =
      perform_all-from calls s r run run permitted valid seen (Follows-refl run)

pub empty-IsValid : (p : Serialization) → IsValid p empty
unfolding empty get
empty-IsValid p = record {
  consistent = λ r stored found. absurd (ground arith);
  no_orphan = λ r field missing. refl;
}
