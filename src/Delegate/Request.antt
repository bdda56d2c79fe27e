-- ===== src/Delegate/Request.antt =====
-- `newDelegateTask` of internal/core/application/delegate_service.go: the task that a request is turned into, or
-- the reason why it is refused. The answers of the Ark server, of the clock and of the wallet are arguments.
pub mod Fee
pub mod Task
pub mod Tests
use fulmine.Base.{
  ℕ, ◌*◌, ◌==◌, Bool, true, false, not, String, List, [], ◌∷◌, Option, none, some, Result, ok, err,
  ◌>>=◌, guard, or_fail, contains, length, text_discrete, same, ltb, if◌then◌else◌, ite,
}
use fulmine.Base.Int.{ℤ, pos, ltb_ℤ, to_u64}
use fulmine.Base.Maps.{put}
use fulmine.Clock.{Time, nanos, time_unix, after, add_duration}
use fulmine.Domain.{Outpoint, outpoint_discrete, Intent, DelegateTask, pending}
use fulmine.Delegate.Forfeit.{TxOut, Packet, Libraries, ForfeitError, one, validate_forfeits}

-- `findDelegateFeeOutput`
unfoldable pub find_delegate_fee_output : List TxOut → String → ℤ × Bool
unfolding text_discrete
find_delegate_fee_output [] delegate_script = (pos 0, false)
find_delegate_fee_output (output ∷ outputs) delegate_script =
    let rest = find_delegate_fee_output outputs delegate_script in
    ite (text_discrete output.pk_script delegate_script) (output.value, true) rest

pub data TaskError : Type 0 where
  no_config no_message no_proof no_address no_script no_encoded_address no_vtxos : TaskError
  bad_forfeit : ForfeitError → TaskError
  fee_not_paid_to_us negative_fee fee_too_low : TaskError
  beyond_horizon no_inputs forfeit_input_count no_forfeit_encoding forfeit_not_referenced :
      TaskError
  vtxo_count_differs vtxo_spent vtxo_unrolled : TaskError

-- `validateDelegateFee`; the fee is a uint64 and the amount an int64.
unfoldable pub validate_delegate_fee : ℕ → ℤ → Bool → Result TaskError (Unit {0})
unfolding to_u64
validate_delegate_fee required_fee paid_amount fee_paid_to_us =
    if required_fee == 0 then ok tt else (do
      _ ← guard fee_paid_to_us fee_not_paid_to_us
      _ ← guard (not (ltb_ℤ paid_amount (pos 0))) negative_fee
      guard (not (ltb (to_u64 paid_amount) required_fee)) fee_too_low)

-- What the code reads of `intent.RegisterMessage` and of `intent.Proof`; `none` is an encoding that fails.
pub record Message : Type 0 where
  pub valid_at : ℤ
  pub encoded : Option String

pub record Proof : Type 0 where
  pub outputs : List TxOut
  pub outpoints : List Outpoint
  pub encoded : Option String
  pub txid : String

pub record Config : Type 0 where
  pub forfeit_address : String
  pub dust : ℕ

pub record Vtxo : Type 0 where
  pub spent : Bool
  pub unrolled : Bool

-- What is read or called besides: the configuration, the clock, a fresh id, the delegate's address with its
-- script and its encoding, the hex of the delegate's key and the coins that the indexer has.
pub record Surroundings : Type 0 where
  pub config : Option Config
  pub now : Time
  pub id : String
  pub delegate_address : Option String
  pub delegate_script : Option String
  pub encoded_address : Option String
  pub public_key : String
  pub vtxos : Option (List Vtxo)

-- `maxDelegateSchedulingWindow`: 31 days.
abbrev pub max_delegate_scheduling_window : ℕ
max_delegate_scheduling_window = 31 * 24 * 3600 * nanos

-- The time to register at.
unfoldable pub scheduled_time : ℤ → Time → Result TaskError Time
unfolding time_unix after add_duration
scheduled_time valid_at now =
    if ltb_ℤ (pos 0) valid_at
    then (do
      _ ←
          guard (not (after (time_unix valid_at) (add_duration now max_delegate_scheduling_window)))
            beyond_horizon
      ok (time_unix valid_at))
    else ok now

-- The check that there are inputs.
abbrev pub not_empty : {A : Type 0} → List A → Bool
not_empty [] = false
not_empty (x ∷ xs) = true

-- The loop over the inputs of the forfeit transactions: all are inputs of the intent.
unfoldable pub check_referenced :
    List Outpoint → List (Outpoint × String) → Result TaskError (Unit {0})
unfolding outpoint_discrete
check_referenced inputs [] = ok tt
check_referenced inputs ((input, tx) ∷ m) = do
  _ ← guard (contains outpoint_discrete input inputs) forfeit_not_referenced
  check_referenced inputs m

-- The loop over the coins.
unfoldable pub check_vtxos : List Vtxo → Result TaskError (Unit {0})
check_vtxos [] = ok tt
check_vtxos (v ∷ vs) = do
  _ ← guard (not v.spent) vtxo_spent
  _ ← guard (not v.unrolled) vtxo_unrolled
  check_vtxos vs

-- An error of `validateForfeits` is passed on.
abbrev pub forfeits_checked : Result ForfeitError (Unit {0}) → Result TaskError (Unit {0})
forfeits_checked (ok tt) = ok tt
forfeits_checked (err e) = err (bad_forfeit e)

-- `encode` is `psbt.Packet.B64Encode`.
module _ (lib : Libraries) (encode : Packet → Option String) where
  -- The loop that builds `indexedForfeitTxs`.
  unfoldable pub index_forfeits :
      List (Outpoint × String) → List Packet → Result TaskError (List (Outpoint × String))
  unfolding put outpoint_discrete
  index_forfeits m [] = ok m
  index_forfeits m (f ∷ fs) = do
    outpoint ← or_fail (one f.tx_in) forfeit_input_count
    encoded ← or_fail (encode f) no_forfeit_encoding
    index_forfeits (put outpoint_discrete outpoint encoded m) fs

  -- The last checks, on the task that was built.
  unfoldable pub check_task :
      ℕ → Surroundings → ℤ × Bool → DelegateTask → Result TaskError DelegateTask
  unfolding validate_delegate_fee check_referenced check_vtxos
  check_task required_fee env paid task = do
    encoded_address ← or_fail env.encoded_address no_encoded_address
    _ ← validate_delegate_fee required_fee paid.0 paid.1
    _ ← check_referenced task.intent.inputs task.forfeit_txs
    vtxos ← or_fail env.vtxos no_vtxos
    _ ← guard (length vtxos == length task.intent.inputs) vtxo_count_differs
    _ ← check_vtxos vtxos
    ok task

  abbrev pub task_for :
      Surroundings → Proof → String → String → Time → ℤ → List (Outpoint × String) → DelegateTask
  task_for env proof message encoded_proof scheduled_at fee forfeit_txs = record {
    id = env.id;
    intent = record {
      message = message;
      proof = encoded_proof;
      txid = proof.txid;
      inputs = proof.outpoints;
    };
    forfeit_txs = forfeit_txs;
    fee = to_u64 fee;
    delegate_public_key = env.public_key;
    scheduled_at = scheduled_at;
    status = pending;
    fail_reason = "";
    commitment_txid = "";
  }

  -- `newDelegateTask`, after the forfeits.
  unfoldable pub build_task :
      ℕ → Surroundings → Message → Proof → List Packet → Result TaskError DelegateTask
  unfolding find_delegate_fee_output scheduled_time index_forfeits check_task to_u64
  build_task required_fee env message proof forfeits = do
    encoded_message ← or_fail message.encoded no_message
    encoded_proof ← or_fail proof.encoded no_proof
    address ← or_fail env.delegate_address no_address
    script ← or_fail env.delegate_script no_script
    scheduled_at ← scheduled_time message.valid_at env.now
    _ ← guard (not_empty proof.outpoints) no_inputs
    forfeit_txs ← index_forfeits [] forfeits
    check_task required_fee env (find_delegate_fee_output proof.outputs script) (
        task_for env proof encoded_message encoded_proof scheduled_at
          (find_delegate_fee_output proof.outputs script).0 forfeit_txs)

  -- `newDelegateTask`
  unfoldable pub new_delegate_task :
      String → ℕ → Surroundings → Message → Proof → List Packet → Result TaskError DelegateTask
  unfolding validate_forfeits build_task
  new_delegate_task delegate_key required_fee env message proof forfeits = do
    config ← or_fail env.config no_config
    _ ←
        forfeits_checked
          (validate_forfeits lib delegate_key config.dust config.forfeit_address forfeits)
    build_task required_fee env message proof forfeits
