-- ===== src/Delegate/Batch.antt =====
-- The forfeit transactions of a batch: `submitForfeitTxs` and `signForfeitWithDelegateKey` of
-- internal/core/application/delegate_batch_handler.go, and `extractConnector` of
-- internal/core/application/utils.go.
pub mod Signing
pub mod Collecting
pub mod Tests
use fulmine.Base.{
  ℕ, suc, ◌+◌, Bool, true, false, String, List, [], ◌∷◌, ◌++◌, Option, none, some, Result, ok, err,
  ◌>>=◌, guard, or_fail, contains, length, leb, text_discrete, if◌then◌else◌, ite,
}
use fulmine.Base.Maps.{get}
use fulmine.Domain.{Outpoint, outpoint_discrete, DelegateTask}
use fulmine.Domain.Repository.{RepoError, DelegateRepository}
use fulmine.Delegate.Forfeit.{
  TxOut, SpendSig, PsbtInput, Packet, Closure, multisig, cltv_multisig, condition_multisig,
  csv_multisig, other_closure,
}

-- A coin of the indexer: is it recoverable, and its outpoint if its text is one.
pub record Coin : Type 0 where
  pub recoverable : Bool
  pub outpoint : Option Outpoint

pub data BatchError : Type 0 where
  task_unreadable : RepoError → BatchError
  forfeit_unreadable insufficient_connectors connector_not_found : BatchError
  no_forfeit_inputs missing_prevout no_batch_sighash no_leaf_signature no_leaf_of_ours
        packet_encoding :
      BatchError

-- `decode` is `psbt.NewFromRawBytes`. The loop over the coins of one task: the forfeit transactions of those that are
-- not recoverable.
module _ (decode : String → Option Packet) where
  unfoldable pub forfeits_of_coins :
      List (Outpoint × String) → List Coin → Result BatchError (List Packet)
  unfolding get outpoint_discrete
  forfeits_of_coins forfeit_txs [] = ok []
  forfeits_of_coins forfeit_txs (c ∷ cs) =
      let rest = forfeits_of_coins forfeit_txs cs in
      if c.recoverable then rest else elim c.outpoint [
        | none ↦ rest
        | some outpoint ↦ elim (get outpoint_discrete outpoint forfeit_txs) [
          | none ↦ rest
          | some tx ↦ do
            packet ← or_fail (decode tx) forfeit_unreadable
            packets ← rest
            ok (packet ∷ packets)
        ]
      ]

  -- The loop over the tasks. `coins` is the answer of the indexer, `none` for an error, which is only logged.
  module _ (r : DelegateRepository) (coins : List Outpoint → Option (List Coin)) where
    unfoldable pub collect_forfeits : List String → r.Store → Result BatchError (List Packet)
    unfolding forfeits_of_coins
    collect_forfeits [] s = ok []
    collect_forfeits (id ∷ ids) s = elim (r.get_by_id id s) [
      | err e ↦ err (task_unreadable e)
      | ok task ↦ elim (coins task.intent.inputs) [
        | none ↦ collect_forfeits ids s
        | some cs ↦ do
          packets ← forfeits_of_coins task.forfeit_txs cs
          rest ← collect_forfeits ids s
          ok (packets ++ rest)
      ]
    ]

-- A connector transaction: the text of its hash, and its outputs.
pub record Connector : Type 0 where
  pub hash : List ℕ
  pub outs : List TxOut

-- `extractConnector`: the first output that is no anchor, with its outpoint.
unfoldable pub first_output : String → ℕ → List TxOut → Option (TxOut × ℕ)
unfolding text_discrete
first_output anchor i [] = none
first_output anchor i (o ∷ os) =
    let rest = first_output anchor (suc i) os in
    ite (text_discrete anchor o.pk_script) rest (some (o, i))

unfoldable pub extract_connector : String → Connector → Result BatchError (TxOut × Outpoint)
unfolding first_output
extract_connector anchor c = do
  found ← or_fail (first_output anchor 0 c.outs) connector_not_found
  ok (found.0, record { hash = c.hash; index = found.1 })

-- What the signing calls of the Bitcoin and Ark libraries. `sighash` has the packet, the leaf's script; `sign` the key
-- and the hash.
pub record SigningLibraries : Type 0 where
  pub decode_closure : String → Option Closure
  pub leaf_hash : String → String
  pub batch_sighash : Packet → ℕ → String → Option String
  pub sign : String → String → Option String
  pub x_only : String → String

-- `closureHasPubkey`
unfoldable pub closure_has_pubkey : Closure → String → Bool
unfolding text_discrete
closure_has_pubkey (csv_multisig keys) x_only = contains text_discrete x_only keys
closure_has_pubkey (multisig keys) x_only = contains text_discrete x_only keys
closure_has_pubkey (cltv_multisig keys) x_only = contains text_discrete x_only keys
closure_has_pubkey (condition_multisig keys) x_only = contains text_discrete x_only keys
closure_has_pubkey other_closure x_only = false

-- Every input carries the output that it spends.
unfoldable pub have_prevouts : List PsbtInput → Result BatchError (Unit {0})
have_prevouts [] = ok tt
have_prevouts (i ∷ is) = do utxo ← or_fail i.witness_utxo missing_prevout; have_prevouts is

-- The signatures are appended to those of the first input.
abbrev pub with_signatures : Packet → PsbtInput → List PsbtInput → List SpendSig → Packet
with_signatures f input inputs sigs = record f {
  inputs = record input { spend_sigs = input.spend_sigs ++ sigs } ∷ inputs;
}

abbrev pub some_signed : List SpendSig → Bool
some_signed [] = false
some_signed (s ∷ ss) = true

-- The forfeit transaction with the connector as its last input; its first input is signed with the default type.
unfoldable pub add_connector : Packet → TxOut × Outpoint → Packet
add_connector f (out, outpoint) = record {
  tx_in = f.tx_in ++ (outpoint ∷ []);
  tx_out = f.tx_out;
  inputs = default_sighash (f.inputs ++ (connector_input ∷ []));
}
  where
    connector_input : PsbtInput
    connector_input = record {
      witness_utxo = some out;
      spend_sigs = [];
      leaf_scripts = [];
      sighash_type = 0;
    }

    default_sighash : List PsbtInput → List PsbtInput
    default_sighash [] = []
    default_sighash (i ∷ is) = record i { sighash_type = 0 } ∷ is

module _ (lib : SigningLibraries) (key : String) where
  -- Is a leaf ours to sign?
  unfoldable pub is_ours : String → Bool
  unfolding closure_has_pubkey
  is_ours leaf = elim (lib.decode_closure leaf) [
    | none ↦ false
    | some closure ↦ closure_has_pubkey closure (lib.x_only key)
  ]

  -- The loop over the leaves: the signatures that are appended.
  unfoldable pub sign_leaves : Packet → ℕ → List String → Result BatchError (List SpendSig)
  unfolding is_ours
  sign_leaves f sighash_type [] = ok []
  sign_leaves f sighash_type (leaf ∷ leaves) =
      let rest = sign_leaves f sighash_type leaves in
      if is_ours leaf
      then (do
        preimage ← or_fail (lib.batch_sighash f sighash_type leaf) no_batch_sighash
        signature ← or_fail (lib.sign key preimage) no_leaf_signature
        sigs ← rest
        ok (
            record {
              x_only_pub_key = lib.x_only key;
              leaf_hash = lib.leaf_hash leaf;
              signature = signature;
              sig_hash = sighash_type;
            }
            ∷ sigs))
      else rest

  -- `signForfeitWithDelegateKey`, for a key that is loaded.
  unfoldable pub sign_forfeit_with_delegate_key : Packet → List PsbtInput → Result BatchError Packet
  unfolding have_prevouts sign_leaves
  sign_forfeit_with_delegate_key f [] = err no_forfeit_inputs
  sign_forfeit_with_delegate_key f (input ∷ inputs) = do
    _ ← have_prevouts (input ∷ inputs)
    sigs ← sign_leaves f input.sighash_type input.leaf_scripts
    _ ← guard (some_signed sigs) no_leaf_of_ours
    ok (with_signatures f input inputs sigs)

  -- The loop that completes the forfeit transactions, each with a connector of its own.
  module _ (anchor : String) (encode : Packet → Option String) where
    unfoldable pub sign_forfeits : List Packet → List Connector → Result BatchError (List String)
    unfolding extract_connector add_connector sign_forfeit_with_delegate_key
    sign_forfeits [] cs = ok []
    sign_forfeits (f ∷ fs) [] = err insufficient_connectors
    sign_forfeits (f ∷ fs) (c ∷ cs) = do
      connector ← extract_connector anchor c
      signed ←
          sign_forfeit_with_delegate_key (add_connector f connector)
            (add_connector f connector).inputs
      encoded ← or_fail (encode signed) packet_encoding
      rest ← sign_forfeits fs cs
      ok (encoded ∷ rest)

    -- `submitForfeitTxs`, up to its call of the server: the transactions that are submitted, `none` if there is nothing
    -- to do.
    unfoldable pub submit_forfeit_txs :
        (String → Option Packet)
        → (r : DelegateRepository) → (List Outpoint → Option (List Coin))
        → List Connector
        → List String
        → r.Store
        → Result BatchError (Option (List String))
    unfolding collect_forfeits sign_forfeits
    submit_forfeit_txs decode r coins [] ids s = ok none
    submit_forfeit_txs decode r coins (c ∷ cs) [] s = ok none
    submit_forfeit_txs decode r coins (c ∷ cs) (id ∷ ids) s = do
      forfeits ← collect_forfeits decode r coins (id ∷ ids) s
      _ ← guard (leb (length forfeits) (length (c ∷ cs))) insufficient_connectors
      signed ← sign_forfeits forfeits (c ∷ cs)
      ok (some signed)
