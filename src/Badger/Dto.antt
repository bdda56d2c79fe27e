-- ===== src/Badger/Dto.antt =====
-- `delegateTaskDTO` of internal/infrastructure/db/badger/delegate_repo.go: the row of a task, and the
-- conversions `toDelegateTaskData` and `toDelegateTask`.
pub mod RoundTrip
use fulmine.Base.{
  ℕ, String, Text, List, [], ◌∷◌, Option, Result, ok, err, ◌>>=◌, or_fail, map, codes_discrete,
}
use fulmine.Base.Int.{ℤ}
use fulmine.Base.Maps.{put}
use fulmine.Clock.{unix, time_unix}
use fulmine.Domain.{Outpoint, outpoint_discrete, Intent, DelegateTask, DelegateTaskStatus}
use fulmine.Domain.Repository.{
  RepoError, bad_intent, bad_inputs, bad_hash, bad_forfeits, no_colon, bad_index,
}
use fulmine.Badger.Key.{key, cut_last_colon, scan_uint32}

-- A text that holds JSON: empty, one that `json.Unmarshal` refuses, or the value that it gives.
pub data Document (A : Type 0) : Type 0 where
  empty malformed : Document A
  holds : A → Document A

-- `json.Unmarshal`; the empty text is refused.
abbrev pub unmarshal : {A : Type 0} → Document A → RepoError → Result RepoError A
unmarshal empty e = err e
unmarshal malformed e = err e
unmarshal (holds a) e = ok a

pub record OutpointJson : Type 0 where
  pub hash : Text
  pub index : ℕ

pub record DelegateTaskDto : Type 0 where
  pub id : String
  pub intent_json : Document Intent
  pub input_json : Document (List OutpointJson)
  pub forfeit_txs_json : Document (List (Text × String))
  pub fee : ℕ
  pub delegate_public_key : String
  pub scheduled_at : ℤ
  pub status : DelegateTaskStatus
  pub fail_reason : String
  pub commitment_txid : String

abbrev pub to_outpoint_json : Outpoint → OutpointJson
to_outpoint_json o = record { hash = o.hash; index = o.index }

-- The loop that builds `forfeitTxsJSON`; Go goes through the map in any order.
unfoldable pub to_forfeit_json : List (Outpoint × String) → List (Text × String)
unfolding put key codes_discrete
to_forfeit_json [] = []
to_forfeit_json ((o, tx) ∷ m) = put codes_discrete (key o.hash o.index) tx (to_forfeit_json m)

-- `toDelegateTaskData`
unfoldable pub to_delegate_task_data : DelegateTask → DelegateTaskDto
unfolding to_forfeit_json unix
to_delegate_task_data task = record {
  id = task.id;
  intent_json = holds task.intent;
  input_json = holds (map to_outpoint_json task.intent.inputs);
  forfeit_txs_json = holds (to_forfeit_json task.forfeit_txs);
  fee = task.fee;
  delegate_public_key = task.delegate_public_key;
  scheduled_at = unix task.scheduled_at;
  status = task.status;
  fail_reason = task.fail_reason;
  commitment_txid = task.commitment_txid;
}

-- `chainhash.NewHashFromStr`, which is not part of this repository: the text of the hash that it reads.
module _ (new_hash : Text → Option Text) where
  -- The loop over the inputs.
  unfoldable pub to_inputs : List OutpointJson → Result RepoError (List Outpoint)
  to_inputs [] = ok []
  to_inputs (o ∷ os) = do
    hash ← or_fail (new_hash o.hash) bad_hash
    rest ← to_inputs os
    ok (record { hash = hash; index = o.index } ∷ rest)

  -- One round of the loop over the forfeit transactions: the outpoint that a key stands for.
  unfoldable pub to_outpoint : Text → Result RepoError Outpoint
  unfolding cut_last_colon scan_uint32
  to_outpoint k = do
    (hash_str, index_str) ← or_fail (cut_last_colon k) no_colon
    index ← or_fail (scan_uint32 index_str) bad_index
    hash ← or_fail (new_hash hash_str) bad_hash
    ok (record { hash = hash; index = index })

  unfoldable pub to_forfeit_txs : List (Text × String) → Result RepoError (List (Outpoint × String))
  unfolding to_outpoint put outpoint_discrete
  to_forfeit_txs [] = ok []
  to_forfeit_txs ((k, tx) ∷ m) = do
    outpoint ← to_outpoint k
    rest ← to_forfeit_txs m
    ok (put outpoint_discrete outpoint tx rest)

  unfoldable pub forfeit_txs_of :
      Document (List (Text × String)) → Result RepoError (List (Outpoint × String))
  unfolding to_forfeit_txs
  forfeit_txs_of empty = ok []
  forfeit_txs_of d = do m ← unmarshal d bad_forfeits; to_forfeit_txs m

  -- `toDelegateTask`
  unfoldable pub to_delegate_task : DelegateTaskDto → Result RepoError DelegateTask
  unfolding to_inputs forfeit_txs_of time_unix
  to_delegate_task d = do
    intent ← unmarshal d.intent_json bad_intent
    op_jsons ← unmarshal d.input_json bad_inputs
    inputs ← to_inputs op_jsons
    forfeit_txs ← forfeit_txs_of d.forfeit_txs_json
    ok (record {
      id = d.id;
      intent = record intent { inputs = inputs };
      forfeit_txs = forfeit_txs;
      fee = d.fee;
      delegate_public_key = d.delegate_public_key;
      scheduled_at = time_unix d.scheduled_at;
      status = d.status;
      fail_reason = d.fail_reason;
      commitment_txid = d.commitment_txid;
    })
