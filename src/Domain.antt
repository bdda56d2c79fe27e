-- ===== src/Domain.antt =====
-- internal/core/domain/delegate.go: the task that a delegate keeps for a client.
pub mod Status
pub mod Repository
pub mod Ending
pub mod Tests
use fulmine.Base.{ℕ, String, Text, List, ℕ_discrete, codes_discrete}
use fulmine.Clock.{Time}

-- `wire.OutPoint`; the hash is the text that `Hash.String()` gives, the index a uint32.
pub record Outpoint : Type 0 where
  pub hash : Text
  pub index : ℕ

unfoldable pub outpoint_discrete : Discrete Outpoint
unfolding codes_discrete ℕ_discrete
outpoint_discrete = hlevel (codes_discrete, ℕ_discrete)

pub record Intent : Type 0 where
  pub message : String
  pub proof : String
  pub txid : String
  pub inputs : List Outpoint

-- `other n` is an int that is none of the constants.
pub data DelegateTaskStatus : Type 0 where
  pending completed failed cancelled : DelegateTaskStatus
  other : ℕ → DelegateTaskStatus

-- The map from an outpoint to its forfeit transaction is an association list.
pub record DelegateTask : Type 0 where
  pub id : String
  pub intent : Intent
  pub forfeit_txs : List (Outpoint × String)
  pub fee : ℕ
  pub delegate_public_key : String
  pub scheduled_at : Time
  pub status : DelegateTaskStatus
  pub fail_reason : String
  pub commitment_txid : String

pub record PendingDelegateTask : Type 0 where
  pub id : String
  pub scheduled_at : Time
