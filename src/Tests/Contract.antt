-- ===== src/Tests/Contract.antt =====
-- The contract of the store of sessions at a concrete conversation.
use m_agent.Base.{◌≡◌, refl, none, some, List, [], ◌∷◌, String_eq, pair_eq, ok, err}
use m_agent.Base.Dict.{get}
use m_agent.Errors.{session_claim_conflict}
use m_agent.Session.Model.{committed}
use m_agent.Session.Store.{is_blank, existing_turn, window}
use m_agent.Session.Invariant.{empty-IsValid}
use m_agent.Session.Contract.{
  Request, create, claim, commit, read, done, claimed, settled, page, specified_all, reply,
  performed_all,
}
use m_agent.Session.Refinement.{Represents, performed_all-specified_all}
use m_agent.Tests.Sessions.{turn_1}

-- A session is opened and claimed, a second claim fails, the turn is committed and read.
abbrev requests_1 : List Request
requests_1 =
    create "alice" "chat" 1
    ∷ claim "alice" "chat" "run-1" 0 2 3
    ∷ claim "alice" "chat" "run-2" 0 4 5
    ∷ commit "alice" "chat" turn_1 0 6
    ∷ read "alice" "chat" (some 1) 0 none
    ∷ []

requests_1_answers :
    specified_all requests_1 (λ _. none)
    ≡ ok done
      ∷ ok (claimed "run-1" 0)
      ∷ err session_claim_conflict
      ∷ ok (settled committed (some turn_1) 1)
      ∷ ok (page (turn_1 ∷ []) 1 none)
      ∷ []
unfolding specified_all reply is_blank existing_turn window
requests_1_answers = refl

empty-Represents : Represents [] (λ _. none)
unfolding get
empty-Represents k = refl

performed_all-specified_all_example :
    performed_all requests_1 [] ≡ specified_all requests_1 (λ _. none)
performed_all-specified_all_example =
    performed_all-specified_all requests_1 [] (λ _. none) empty-IsValid empty-Represents
