-- ===== src/Delegate/Forfeit.antt =====
-- `validateForfeits` of internal/core/application/delegate_service.go: the checks of the forfeit
-- transactions that come with a request. What the code reads of a transaction is a record; the
-- functions of the Bitcoin and Ark libraries are parameters.
pub mod Valid
use fulmine.Base.{
  ℕ, ◌==◌, ◌&&◌, Bool, true, false, String, List, [], ◌∷◌, Option, none, some, Result, ok, err,
  ◌>>=◌, guard, or_fail, contains, text_discrete, same,
}
use fulmine.Base.Int.{ℤ, ℤ_discrete, ◌+ℤ◌, wrap64, to_s64}
use fulmine.Domain.{Outpoint}

pub record TxOut : Type 0 where
  pub pk_script : String
  pub value : ℤ

pub record SpendSig : Type 0 where
  pub x_only_pub_key : String
  pub leaf_hash : String
  pub signature : String
  pub sig_hash : ℕ

-- `leaf_scripts` are the scripts of `TaprootLeafScript`.
pub record PsbtInput : Type 0 where
  pub witness_utxo : Option TxOut
  pub spend_sigs : List SpendSig
  pub leaf_scripts : List String
  pub sighash_type : ℕ

-- `psbt.Packet`: `tx_in` and `tx_out` are of the unsigned transaction.
pub record Packet : Type 0 where
  pub tx_in : List Outpoint
  pub tx_out : List TxOut
  pub inputs : List PsbtInput

-- The closures of the Ark library, with the signers' serialised keys.
pub data Closure : Type 0 where
  multisig cltv_multisig condition_multisig csv_multisig : List String → Closure
  other_closure : Closure

-- What the code calls of the Bitcoin and Ark libraries. `forfeit_script` is `btcutil.DecodeAddress` and then
-- `txscript.PayToAddrScript`; `sighash` has the transaction, the type, the spent output of its only input and the leaf.
pub record Libraries : Type 0 where
  pub forfeit_script : String → Option String
  pub anchor_pk_script : String
  pub tap_hash : String → String
  pub decode_closure : String → Option Closure
  pub sighash : Packet → ℕ → TxOut → String → Option String
  pub parse_pub_key : String → Option String
  pub parse_signature : String → Option String
  pub verify : String → String → String → Bool

pub data ForfeitError : Type 0 where
  bad_forfeit_address wrong_output_count wrong_input_count wrong_forfeit_script wrong_anchor
        no_witness_utxo wrong_sig_count wrong_leaf_count wrong_amount missing_leaf bad_closure
        wrong_closure_type key_not_found wrong_sighash_type no_sighash bad_signer_key
        bad_signature_encoding invalid_signature :
      ForfeitError

-- What the checks read of a forfeit transaction: the value of its first output, the output that it spends, and
-- the signature and the leaf of its input.
pub record Parts : Type 0 where
  pub amount : ℤ
  pub utxo : TxOut
  pub sig : SpendSig
  pub leaf : String

-- The only element, and the only two, of a list whose length is checked.
abbrev pub one : {A : Type 0} → List A → Option A
one (a ∷ []) = some a
one _ = none

abbrev pub two : {A : Type 0} → List A → Option (A × A)
two (a ∷ b ∷ []) = some (a, b)
two _ = none

-- `txscript.SigHashAnyOneCanPay | txscript.SigHashAll`
abbrev pub any_one_can_pay_all : ℕ
any_one_can_pay_all = 129

-- The `switch` over the closure.
unfoldable pub signers : Closure → Option (List String)
signers (multisig keys) = some keys
signers (cltv_multisig keys) = some keys
signers (condition_multisig keys) = some keys
signers (csv_multisig keys) = none
signers other_closure = none

module _ (lib : Libraries) (delegate_key : String) (dust : ℕ) where
  -- `int64(cfg.Dust) + totalForfeitAmount`
  unfoldable pub expected_amount : TxOut → ℤ
  unfolding wrap64 ◌+ℤ◌
  expected_amount utxo = wrap64 (to_s64 dust +ℤ utxo.value)

  -- The body of the loop, in its parts. What an input carries:
  unfoldable pub read_input : ℤ → PsbtInput → Result ForfeitError Parts
  read_input amount input = do
    utxo ← or_fail input.witness_utxo no_witness_utxo
    sig ← or_fail (one input.spend_sigs) wrong_sig_count
    leaf ← or_fail (one input.leaf_scripts) wrong_leaf_count
    ok (record { amount = amount; utxo = utxo; sig = sig; leaf = leaf })

  -- The outputs and the only input.
  unfoldable pub read_parts : String → Packet → Result ForfeitError Parts
  unfolding text_discrete read_input
  read_parts forfeit_output_script f = do
    outs ← or_fail (two f.tx_out) wrong_output_count
    outpoint ← or_fail (one f.tx_in) wrong_input_count
    input ← or_fail (one f.inputs) wrong_input_count
    _ ← guard (same text_discrete outs.0.pk_script forfeit_output_script) wrong_forfeit_script
    _ ← guard (same text_discrete outs.1.pk_script lib.anchor_pk_script) wrong_anchor
    read_input outs.0.value input

  -- The amount, and the leaf that the signature is for.
  unfoldable pub check_leaf : Parts → Result ForfeitError (Unit {0})
  unfolding text_discrete ℤ_discrete expected_amount signers
  check_leaf p = do
    _ ← guard (same ℤ_discrete (expected_amount p.utxo) p.amount) wrong_amount
    _ ← guard (same text_discrete p.sig.leaf_hash (lib.tap_hash p.leaf)) missing_leaf
    closure ← or_fail (lib.decode_closure p.leaf) bad_closure
    keys ← or_fail (signers closure) wrong_closure_type
    guard (contains text_discrete delegate_key keys) key_not_found

  -- The signature.
  unfoldable pub check_signature : Packet → Parts → Result ForfeitError (Unit {0})
  check_signature f p = do
    _ ← guard (p.sig.sig_hash == any_one_can_pay_all) wrong_sighash_type
    message ← or_fail (lib.sighash f any_one_can_pay_all p.utxo p.leaf) no_sighash
    signer ← or_fail (lib.parse_pub_key p.sig.x_only_pub_key) bad_signer_key
    signature ← or_fail (lib.parse_signature p.sig.signature) bad_signature_encoding
    guard (lib.verify signature message signer) invalid_signature

  unfoldable pub validate_forfeit : String → Packet → Result ForfeitError (Unit {0})
  unfolding read_parts check_leaf check_signature
  validate_forfeit forfeit_output_script f = do
    p ← read_parts forfeit_output_script f
    _ ← check_leaf p
    check_signature f p

  unfoldable pub validate_all : String → List Packet → Result ForfeitError (Unit {0})
  unfolding validate_forfeit
  validate_all forfeit_output_script [] = ok tt
  validate_all forfeit_output_script (f ∷ fs) = do
    _ ← validate_forfeit forfeit_output_script f
    validate_all forfeit_output_script fs

  -- `validateForfeits`
  unfoldable pub validate_forfeits : String → List Packet → Result ForfeitError (Unit {0})
  unfolding validate_all
  validate_forfeits forfeit_address fs = do
    forfeit_output_script ← or_fail (lib.forfeit_script forfeit_address) bad_forfeit_address
    validate_all forfeit_output_script fs
