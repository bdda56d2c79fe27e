-- ===== src/Vhtlc/Args.antt =====
-- `buildVhtlcContractArgs` of internal/core/application/vhtlc_migration.go: the arguments of the
-- contract that a row of the old table stands for.
pub mod Made
use fulmine.Base.{
  ℕ, ◌%◌, String, Text, List, Option, none, some, Result, ok, err, ◌>>=◌, or_fail, same,
  codes_discrete, if◌then◌else◌,
}
use fulmine.Base.Int.{ℤ, to_u64, to_u32}
use fulmine.Base.Hex.{decode_string}
use fulmine.Vhtlc.{LegacyVhtlc, get_vhtlc_id}

-- What the code calls of btcec: the parsing of a public key and its compressed form.
pub record Keys : Type 1 where
  pub PubKey : Type 0
  pub parse_pub_key : List ℕ → Option PubKey
  pub serialize_compressed : PubKey → List ℕ

-- `arklib.RelativeLocktime`; its kind is a `uint`.
pub record RelativeLocktime : Type 0 where
  pub kind : ℕ
  pub value : ℕ

-- The tests that a row fails.
pub data ArgsError : Type 0 where
  bad_preimage_hash bad_sender bad_receiver bad_sender_pubkey bad_receiver_pubkey : ArgsError
  bad_server bad_server_pubkey not_owned : ArgsError

module _ (keys : Keys) where
  pub record KeyRef : Type 0 where
    pub id : String
    pub pub_key : keys.PubKey

  -- `ContractArgs`; a key id that is not set is the empty text.
  pub record ContractArgs : Type 0 where
    pub sender : keys.PubKey
    pub receiver : keys.PubKey
    pub signer : keys.PubKey
    pub sender_key_id : String
    pub receiver_key_id : String
    pub preimage_hash : List ℕ
    pub refund_locktime : ℕ
    pub unilateral_claim_delay : RelativeLocktime
    pub unilateral_refund_delay : RelativeLocktime
    pub unilateral_refund_without_receiver_delay : RelativeLocktime

  unfoldable pub relative_locktime : ℤ → ℤ → RelativeLocktime
  unfolding to_u64 to_u32
  relative_locktime kind value = record { kind = to_u64 kind; value = to_u32 value }

  -- The arguments before the wallet's key is set.
  unfoldable pub unowned_args :
      LegacyVhtlc → List ℕ → keys.PubKey → keys.PubKey → keys.PubKey → ContractArgs
  unfolding relative_locktime to_u32
  unowned_args row preimage sender receiver server = record {
    sender = sender;
    receiver = receiver;
    signer = server;
    sender_key_id = "";
    receiver_key_id = "";
    preimage_hash = preimage;
    refund_locktime = to_u32 row.refund_locktime;
    unilateral_claim_delay =
        relative_locktime row.unilateral_claim_delay_type row.unilateral_claim_delay_value;
    unilateral_refund_delay =
        relative_locktime row.unilateral_refund_delay_type row.unilateral_refund_delay_value;
    unilateral_refund_without_receiver_delay =
        relative_locktime row.unilateral_refund_without_receiver_delay_type
          row.unilateral_refund_without_receiver_delay_value;
  }

  -- The `switch` on the wallet's key.
  unfoldable pub owned_args : KeyRef → ContractArgs → Result ArgsError ContractArgs
  owned_args our_key_ref args =
      let our_compressed = keys.serialize_compressed our_key_ref.pub_key in
      if same codes_discrete (keys.serialize_compressed args.receiver) our_compressed
      then ok (record args { receiver_key_id = our_key_ref.id })
      else (if same codes_discrete (keys.serialize_compressed args.sender) our_compressed
          then ok (record args { sender_key_id = our_key_ref.id })
          else err not_owned)

  unfoldable pub build_vhtlc_contract_args :
      (List ℕ → String) → LegacyVhtlc → KeyRef → Result ArgsError (ContractArgs × String)
  unfolding decode_string unowned_args owned_args get_vhtlc_id
  build_vhtlc_contract_args id_hash row our_key_ref = do
    preimage ← or_fail (decode_string row.preimage_hash) bad_preimage_hash
    sender_bytes ← or_fail (decode_string row.sender) bad_sender
    receiver_bytes ← or_fail (decode_string row.receiver) bad_receiver
    sender ← or_fail (keys.parse_pub_key sender_bytes) bad_sender_pubkey
    receiver ← or_fail (keys.parse_pub_key receiver_bytes) bad_receiver_pubkey
    server_bytes ← or_fail (decode_string row.server) bad_server
    server ← or_fail (keys.parse_pub_key server_bytes) bad_server_pubkey
    args ← owned_args our_key_ref (unowned_args row preimage sender receiver server)
    ok (
      args,
      get_vhtlc_id id_hash preimage (keys.serialize_compressed sender)
          (keys.serialize_compressed receiver),
    )
