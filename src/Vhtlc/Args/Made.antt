-- ===== src/Vhtlc/Args/Made.antt =====
-- What `buildVhtlcContractArgs` of internal/core/application/vhtlc_migration.go makes of a row.
use fulmine.Base.{
  ◌≡◌, refl, subst, ℕ, ◌<◌, false, inl, inr, String, List, ok, or_fail-eq-ok, bind-eq-ok,
  ok-injective, Bool-cases, same, same-eq-true, codes_discrete,
}
use fulmine.Base.Int.{ℤ, pos, two32, IsU32, to_u32-IsU32, to_u32_bound}
use fulmine.Base.Hex.{decode_string}
use fulmine.Vhtlc.{LegacyVhtlc, get_vhtlc_id}
use fulmine.Vhtlc.Args.{
  Keys, bad_preimage_hash, bad_sender, bad_receiver, bad_sender_pubkey, bad_receiver_pubkey,
  bad_server, bad_server_pubkey, KeyRef, ContractArgs, relative_locktime, unowned_args, owned_args,
  build_vhtlc_contract_args,
}

module _ (keys : Keys) where
  -- Which side of the contract the wallet's key is on: the receiver's, or else the sender's.
  pub data Side (our : KeyRef keys) (args : ContractArgs keys) : Type 0 where
    receives :
        keys.serialize_compressed args.receiver ≡ keys.serialize_compressed our.pub_key
        → args.receiver_key_id ≡ our.id
        → args.sender_key_id ≡ ""
        → Side our args
    sends :
        keys.serialize_compressed args.sender ≡ keys.serialize_compressed our.pub_key
        → same codes_discrete
            (keys.serialize_compressed args.receiver)
            (keys.serialize_compressed our.pub_key)
          ≡ false
        → args.sender_key_id ≡ our.id
        → args.receiver_key_id ≡ ""
        → Side our args

  -- A lock time of the arguments and the value of the row that it was converted from.
  abbrev pub IsKept : ℕ → ℤ → Type 0
  IsKept n z = (n < two32) × (IsU32 z → pos n ≡ z)

  pub record Locktimes (row : LegacyVhtlc) (args : ContractArgs keys) : Type 0 where
    pub refund : IsKept args.refund_locktime row.refund_locktime
    pub claim_delay : IsKept args.unilateral_claim_delay.value row.unilateral_claim_delay_value
    pub refund_delay : IsKept args.unilateral_refund_delay.value row.unilateral_refund_delay_value
    pub refund_without_receiver_delay :
        IsKept args.unilateral_refund_without_receiver_delay.value
          row.unilateral_refund_without_receiver_delay_value

  unowned_args-Locktimes :
      (row : LegacyVhtlc) (preimage : List ℕ) (sender receiver server : keys.PubKey)
      → Locktimes row (unowned_args keys row preimage sender receiver server)
  unfolding unowned_args relative_locktime
  unowned_args-Locktimes row preimage sender receiver server = record {
    refund = (to_u32_bound _, λ h. to_u32-IsU32 _ h);
    claim_delay = (to_u32_bound _, λ h. to_u32-IsU32 _ h);
    refund_delay = (to_u32_bound _, λ h. to_u32-IsU32 _ h);
    refund_without_receiver_delay = (to_u32_bound _, λ h. to_u32-IsU32 _ h);
  }

  -- What the `switch` on the wallet's key leaves of the arguments.
  abbrev Kept : KeyRef keys → ContractArgs keys → ContractArgs keys → Type 0
  Kept our args made =
      Side our made
      × (made.sender ≡ args.sender)
      × (made.receiver ≡ args.receiver)
      × (made.preimage_hash ≡ args.preimage_hash)
      × ((row : LegacyVhtlc) → Locktimes row args → Locktimes row made)

  owned_args-Kept :
      (our : KeyRef keys) (args made : ContractArgs keys)
      → args.sender_key_id ≡ ""
      → args.receiver_key_id ≡ ""
      → owned_args keys our args ≡ ok made
      → Kept our args made
  unfolding owned_args
  owned_args-Kept our args made ns nr e =
      elim (Bool-cases (
        same codes_discrete (keys.serialize_compressed args.receiver)
          (keys.serialize_compressed our.pub_key))) [
            | inl ours ↦
                let m = ok-injective (rw (ours, owned_args) at e) in
                subst (Kept our args) m (
                  receives (same-eq-true codes_discrete _ _ ours) refl ns,
                  refl,
                  refl,
                  refl,
                  λ row l. record {
                    refund = l.refund;
                    claim_delay = l.claim_delay;
                    refund_delay = l.refund_delay;
                    refund_without_receiver_delay = l.refund_without_receiver_delay;
                  },
                )
            | inr other ↦
                elim (Bool-cases (
                  same codes_discrete (keys.serialize_compressed args.sender)
                    (keys.serialize_compressed our.pub_key))) [
                      | inr not_ours ↦ cc (rw (other, not_ours, owned_args) at e)
                      | inl ours ↦
                          let m = ok-injective (rw (other, ours, owned_args) at e) in
                          subst (Kept our args) m (
                            sends (same-eq-true codes_discrete _ _ ours) other refl nr,
                            refl,
                            refl,
                            refl,
                            λ row l. record {
                              refund = l.refund;
                              claim_delay = l.claim_delay;
                              refund_delay = l.refund_delay;
                              refund_without_receiver_delay = l.refund_without_receiver_delay;
                            },
                          )
                    ]
          ]

  abbrev pub IsMade :
      (List ℕ → String) → LegacyVhtlc → KeyRef keys → ContractArgs keys → String → Type 0
  IsMade id_hash row our args id =
      Side our args
      × (id
          ≡ get_vhtlc_id id_hash args.preimage_hash (keys.serialize_compressed args.sender)
              (keys.serialize_compressed args.receiver))
      × Locktimes row args

  owned_args-IsMade :
      (id_hash : List ℕ → String) (row : LegacyVhtlc) (our : KeyRef keys) (preimage : List ℕ)
      (sender receiver server : keys.PubKey) (made args : ContractArgs keys) (id : String)
      → owned_args keys our (unowned_args keys row preimage sender receiver server) ≡ ok made
      → ◌≡◌ {A = ContractArgs keys × String}
          (
            made,
            get_vhtlc_id id_hash preimage
                (keys.serialize_compressed sender)
                (keys.serialize_compressed receiver),
          )
          (args, id)
      → IsMade id_hash row our args id
  unfolding unowned_args
  owned_args-IsMade id_hash row our preimage sender receiver server made args id owned here =
      let (side, s_eq, r_eq, p_eq, later) =
        owned_args-Kept our (unowned_args keys row preimage sender receiver server) made refl refl
          owned in
      let found : IsMade id_hash row our made (
          get_vhtlc_id id_hash preimage (keys.serialize_compressed sender)
            (keys.serialize_compressed receiver)) =
        (
          side,
          rw (s_eq, r_eq, p_eq) refl,
          later row (unowned_args-Locktimes row preimage sender receiver server),
        ) in
      subst (λ p. IsMade id_hash row our p.0 p.1) here found

  -- The arguments that a row gives: the wallet's key is on one side of the contract, the receiver's
  -- if both are its own, and that side has the key's id; the id is that of the preimage hash, the
  -- sender and the receiver of the arguments; each lock time is below 2 ^ 32, and is the row's value
  -- if that is a uint32.
  pub build_vhtlc_contract_args-IsMade :
      (id_hash : List ℕ → String) (row : LegacyVhtlc) (our : KeyRef keys) (args : ContractArgs keys)
      (id : String)
      → build_vhtlc_contract_args keys id_hash row our ≡ ok (args, id)
      → IsMade id_hash row our args id
  unfolding build_vhtlc_contract_args unowned_args
  build_vhtlc_contract_args-IsMade id_hash row our args id e =
      let (preimage, _, e1) =
        or_fail-eq-ok (decode_string row.preimage_hash) bad_preimage_hash _ (args, id) e in
      let (sb, _, e2) = or_fail-eq-ok (decode_string row.sender) bad_sender _ (args, id) e1 in
      let (rb, _, e3) = or_fail-eq-ok (decode_string row.receiver) bad_receiver _ (args, id) e2 in
      let (sender, _, e4) =
        or_fail-eq-ok (keys.parse_pub_key sb) bad_sender_pubkey _ (args, id) e3 in
      let (receiver, _, e5) =
        or_fail-eq-ok (keys.parse_pub_key rb) bad_receiver_pubkey _ (args, id) e4 in
      let (vb, _, e6) = or_fail-eq-ok (decode_string row.server) bad_server _ (args, id) e5 in
      let (server, _, e7) =
        or_fail-eq-ok (keys.parse_pub_key vb) bad_server_pubkey _ (args, id) e6 in
      let (made, owned, e8) =
        bind-eq-ok (owned_args keys our (unowned_args keys row preimage sender receiver server)) _
          (args, id) e7 in
      owned_args-IsMade id_hash row our preimage sender receiver server made args id owned
        (ok-injective e8)
