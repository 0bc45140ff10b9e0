-- ===== src/Tests/Layout.antt =====
-- The snapshot and the history of a Run in the form of Tests/Coding.antt.
use m_agent.Base.{
  ℕ, zero, suc, String, ◌≡◌, refl, Bool, true, false, Option, none, some, Result, ok, err,
}
use m_agent.Errors.{Error, value_error}
use m_agent.Run.Snapshot.{
  ToolEffect, read_only, idempotent, non_idempotent, ToolDeclaration, RetryPolicy, PolicyIdentity,
  ModelExecutionBudget, DefinitionSnapshot,
}
use m_agent.Run.Records.{ConversationRole, user, assistant, ConversationMessage}
use m_agent.Run.Payload.{Serialization, IsLossless}
use m_agent.Tests.Coding.{
  Coder, number, text, both, through, items, optional, encode_text, decode_text, decode_text-encode,
}

abbrev flag : Coder Bool
flag = through number to from law
  where
    to : Bool → ℕ
    to false = 0
    to true = 1

    from : ℕ → Option Bool
    from zero = some false
    from (suc n) = some true

    law : (b : Bool) → from (to b) ≡ some b
    law false = refl
    law true = refl

abbrev effect : Coder ToolEffect
effect = through number to from law
  where
    to : ToolEffect → ℕ
    to read_only = 0
    to idempotent = 1
    to non_idempotent = 2

    from : ℕ → Option ToolEffect
    from zero = some read_only
    from (suc zero) = some idempotent
    from (suc (suc n)) = some non_idempotent

    law : (e : ToolEffect) → from (to e) ≡ some e
    law read_only = refl
    law idempotent = refl
    law non_idempotent = refl

abbrev role : Coder ConversationRole
role = through number to from law
  where
    to : ConversationRole → ℕ
    to user = 0
    to assistant = 1

    from : ℕ → Option ConversationRole
    from zero = some user
    from (suc n) = some assistant

    law : (r : ConversationRole) → from (to r) ≡ some r
    law user = refl
    law assistant = refl

abbrev message : Coder ConversationMessage
message =
    through (both role text) (λ m. (m.role, m.content))
      (λ (r, c). some (record { role = r; content = c })) (λ m. refl)

abbrev tool : Coder ToolDeclaration
tool =
    through (both text effect) (λ t. (t.name, t.effect))
      (λ (n, e). some (record { name = n; effect = e })) (λ t. refl)

abbrev retry : Coder RetryPolicy
retry =
    through (both number number) (λ r. (r.max_attempts, r.delay))
      (λ (m, d). some (record { max_attempts = m; delay = d })) (λ r. refl)

abbrev identity : Coder PolicyIdentity
identity =
    through (both text (both text text)) (λ i. (i.policy_id, (i.version, i.fingerprint)))
      (λ (i, (v, f)). some (record { policy_id = i; version = v; fingerprint = f })) (λ i. refl)

abbrev budget : Coder ModelExecutionBudget
budget =
    through (both number (both number (both number number)))
      (λ b. (
        b.run_max_attempts,
        (
          b.primary_max_attempts,
          (b.context_compression_max_attempts, b.output_repair_max_attempts),
        ),
      ))
      (λ (r, (m, (c, o))). some (record {
        run_max_attempts = r;
        primary_max_attempts = m;
        context_compression_max_attempts = c;
        output_repair_max_attempts = o;
      }))
      (λ b. refl)

abbrev snapshot : Coder DefinitionSnapshot
snapshot =
    through
      (both text (
        both text (
          both text (
            both (optional budget)
              (both flag (both (items tool) (both (optional retry) identity)))))))
      (λ x. (
        x.definition_id,
        (
          x.version,
          (
            x.instructions,
            (
              x.model_execution_budget,
              (x.has_context_provider, (x.tool_declarations, (x.retry_policy, x.policy_identity))),
            ),
          ),
        ),
      ))
      (λ (d, (v, (i, (b, (c, (t, (r, q))))))). some (record {
        definition_id = d;
        version = v;
        instructions = i;
        model_execution_budget = b;
        has_context_provider = c;
        tool_declarations = t;
        retry_policy = r;
        policy_identity = q;
      }))
      (λ x. refl)

abbrev or_value_error : {A : Type 0} → Option A → Result Error A
or_value_error none = err value_error
or_value_error (some a) = ok a

abbrev load : {A : Type 0} → Coder A → String → Result Error A
load a s = elim (a.read s) [ none ↦ err value_error | some (x, rest) ↦ ok x ]

load-write : {A : Type 0} (a : Coder A) (x : A) → load a (a.write x "") ≡ ok x
load-write a x = rw (load, a.read-write x "") refl

abbrev pub plain : Serialization
plain = record {
  encode = encode_text;
  decode = λ bytes. or_value_error (decode_text bytes);
  dump_snapshot = λ x. snapshot.write x "";
  load_snapshot = load snapshot;
  dump_history = λ h. (items message).write h "";
  load_history = load (items message);
}

pub plain-IsLossless : IsLossless plain
plain-IsLossless = record {
  decode-encode = λ t. rw (decode_text-encode t) refl;
  load-dump_snapshot = λ x. load-write snapshot x;
  load-dump_history = λ h. load-write (items message) h;
}
