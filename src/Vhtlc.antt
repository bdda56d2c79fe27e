-- ===== src/Vhtlc.antt =====
-- internal/core/domain/vhtlc.go: the virtual HTLCs of the wallet, and the rows of the table that an
-- older version kept.
pub mod Args
pub mod Repository
pub mod Migration
pub mod Tests
use fulmine.Base.{ℕ, String, Text, List, ◌++◌}
use fulmine.Base.Int.{ℤ}

pub record Vhtlc : Type 0 where
  pub id : String
  pub script : String

pub record LegacyVhtlc : Type 0 where
  pub preimage_hash : Text
  pub sender : Text
  pub receiver : Text
  pub server : Text
  pub refund_locktime : ℤ
  pub unilateral_claim_delay_type : ℤ
  pub unilateral_claim_delay_value : ℤ
  pub unilateral_refund_delay_type : ℤ
  pub unilateral_refund_delay_value : ℤ
  pub unilateral_refund_without_receiver_delay_type : ℤ
  pub unilateral_refund_without_receiver_delay_value : ℤ

-- `NewVhtlc`
unfoldable pub new_vhtlc : String → String → Vhtlc
new_vhtlc vhtlc_id script = record { id = vhtlc_id; script = script }

-- `GetVhtlcId`; `id_hash` is the SHA-256 hash in hexadecimal digits.
unfoldable pub get_vhtlc_id : (List ℕ → String) → List ℕ → List ℕ → List ℕ → String
get_vhtlc_id id_hash preimage_hash sender receiver = id_hash (preimage_hash ++ sender ++ receiver)
