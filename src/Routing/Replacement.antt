-- ===== src/Routing/Replacement.antt =====
-- A Run that has ended is replaced by another Run, under another decision.
use m_agent.Base.{
  String, Bool, true, false, not, ◌≡◌, ◌≢◌, ◌↔◌, refl, sym, ap, arith, inl, inr, Result, ok, err,
  ◌==◌, String_eq, ==-cases, ==_iff,
}
use m_agent.Base.Fallible.{◌>>◌, check}
use m_agent.Errors.{Error, value_error, routing_replacement}
use m_agent.Run.Status.{is_terminal}
use m_agent.Run.Records.{RunRecord}
use m_agent.Routing.{
  RoutingDecisionBinding, ReplacementRunRecord, register_replacement_run, is_reason_code,
}

-- Each binding is of its Run, the predecessor has ended, and the successor is another Run that
-- was routed by another decision.
pub record IsReplacement (predecessor successor : RunRecord)
    (binding binding' : RoutingDecisionBinding) : Type 0 where
  pub bound : binding.run_id ≡ predecessor.run_id
  pub bound_next : binding'.run_id ≡ successor.run_id
  pub other_run : successor.run_id ≢ predecessor.run_id
  pub ended : is_terminal predecessor.status ≡ true
  pub other_decision : binding'.decision_id ≢ binding.decision_id

-- What the record of a replacement keeps of the two bindings.
pub record IsKept (binding binding' : RoutingDecisionBinding) (reason_code : String)
    (made : ReplacementRunRecord) : Type 0 where
  pub predecessor : made.predecessor_run_id ≡ binding.run_id
  pub successor : made.successor_run_id ≡ binding'.run_id
  pub reason : made.reason_code ≡ reason_code
  pub decision : made.predecessor_decision_id ≡ binding.decision_id
  pub decision' : made.successor_decision_id ≡ binding'.decision_id
  pub variant :
      (made.predecessor_variant_id ≡ binding.variant_id)
      × (made.predecessor_variant_version ≡ binding.variant_version)
  pub variant' :
      (made.successor_variant_id ≡ binding'.variant_id)
      × (made.successor_variant_version ≡ binding'.variant_version)

-- What was checked first has passed as well.
>>-ok :
    {B : Type 0} (m : Result Error (Unit {0})) (rest : Result Error B) (a : B)
    → (m >> rest) ≡ ok a
    → (m ≡ ok tt) × (rest ≡ ok a)
>>-ok (ok tt) rest a h = (refl, h)
>>-ok (err e) rest a h = absurd (ground arith)

check-ok : (b : Bool) (e : Error) → check b e ≡ ok tt → b ≡ true
check-ok true e h = refl
check-ok false e h = absurd (ground arith)

>>-both :
    {B : Type 0} {m : Result Error (Unit {0})} {rest : Result Error B} {a : B}
    → m ≡ ok tt
    → rest ≡ ok a
    → (m >> rest) ≡ ok a
>>-both passed goes_on = ground (arith, passed, goes_on)

checked : {b : Bool} (e : Error) → b ≡ true → check b e ≡ ok tt
checked e h = ground (arith, h)

not_equal : (a b : String) → not (a == b) ≡ true → a ≢ b
not_equal a b h same = absurd (ground (arith, ==_iff a b))

not_equal_test : (a b : String) → a ≢ b → not (a == b) ≡ true
not_equal_test a b differ = elim (==-cases a b) [
  | inl (same, _) ↦ absurd (differ same)
  | inr (_, test) ↦ ap not test
]

-- A replacement is registered where the record is one of a Run that has ended by another Run under
-- another decision, each with its binding, and the reason is a stable code, and nowhere else; the
-- record keeps the Runs, the decisions, the variants and the reason.
pub register_replacement_run_iff :
    (predecessor successor : RunRecord) (binding binding' : RoutingDecisionBinding)
    (reason_code : String)
    → ((made : ReplacementRunRecord) × (register_replacement_run predecessor successor binding
            binding' reason_code
          ≡ ok made)
        × IsKept binding binding' reason_code made)
      ↔ (IsReplacement predecessor successor binding binding' × (is_reason_code reason_code ≡ true))
unfolding register_replacement_run
register_replacement_run_iff predecessor successor binding binding' reason_code = (
  λ (made, h, kept).
      let (h5, _) = >>-ok _ _ made h in
      let (h4, stable) = >>-ok _ _ tt h5 in
      let (h3, decided) = >>-ok _ _ tt h4 in
      let (h2, ended) = >>-ok _ _ tt h3 in
      let (h1, other) = >>-ok _ _ tt h2 in
      let (bound, bound') = >>-ok _ _ tt h1 in
      (
        record {
          bound = (==_iff binding.run_id predecessor.run_id).0 (check-ok _ _ bound);
          bound_next = (==_iff binding'.run_id successor.run_id).0 (check-ok _ _ bound');
          other_run = not_equal successor.run_id predecessor.run_id (check-ok _ _ other);
          ended = check-ok _ _ ended;
          other_decision =
              not_equal binding'.decision_id binding.decision_id (check-ok _ _ decided);
        },
        check-ok _ _ stable,
      ),
  λ (replaces, stable).
      let same = (==_iff binding.run_id predecessor.run_id).1 replaces.bound in
      let same' = (==_iff binding'.run_id successor.run_id).1 replaces.bound_next in
      let other = not_equal_test successor.run_id predecessor.run_id replaces.other_run in
      let decided =
        not_equal_test binding'.decision_id binding.decision_id replaces.other_decision in
      let both = >>-both (checked routing_replacement same) (checked routing_replacement same') in
      let ended =
        >>-both (>>-both both (checked routing_replacement other))
          (checked routing_replacement replaces.ended) in
      (
        _,
        >>-both
            (>>-both (>>-both ended (checked routing_replacement decided))
              (checked value_error stable))
            refl,
        record {
          predecessor = sym replaces.bound;
          successor = sym replaces.bound_next;
          reason = refl;
          decision = refl;
          decision' = refl;
          variant = (refl, refl);
          variant' = (refl, refl);
        },
      ),
)
