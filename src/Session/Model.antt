-- ===== src/Session/Model.antt =====
-- m_agent/companion/_session.py. A scope is its token.
use m_agent.Base.{ℕ, String, Option, List}

pub record SessionRunClaim : Type 0 where
  pub session_id : String
  pub run_id : String
  pub session_version : ℕ
  pub claimed_at : ℕ

pub record SessionTurn : Type 0 where
  pub turn_id : String
  pub session_id : String
  pub run_id : String
  pub definition_id : String
  pub definition_version : String
  pub user_input : String
  pub assistant_output : String
  pub created_at : ℕ

pub record SessionSnapshot : Type 0 where
  pub session_id : String
  pub version : ℕ
  pub turns : List SessionTurn
  pub next_cursor : Option ℕ

pub record SessionRecord : Type 0 where
  pub session_id : String
  pub version : ℕ
  pub claim : Option SessionRunClaim
  pub created_at : ℕ
  pub updated_at : ℕ

pub data SessionCommitStatus : Type 0 where
  not_ready committed pending conflict : SessionCommitStatus

pub record SessionCommitResult : Type 0 where
  pub status : SessionCommitStatus
  pub turn : Option SessionTurn
  pub version : ℕ
