-- ===== src/Delegate/Request/Tests.antt =====
-- Examples for the checks of a request of internal/core/application/delegate_service.go.
use fulmine.Base.{
  ℕ, ◌*◌, ◌≡◌, ◌↔◌, ◌⊎◌, refl, true, false, String, List, [], ◌∷◌, Option, some, ok, All, arith,
}
use fulmine.Base.Int.{pos, negsuc, ◌≤ℤ◌}
use fulmine.Clock.{nanos}
use fulmine.Domain.{DelegateTask, pending}
use fulmine.Badger.Tests.{coin_a}
use fulmine.Delegate.Forfeit.{
  TxOut, Packet, Libraries, multisig, any_one_can_pay_all, validate_forfeits,
}
use fulmine.Delegate.Forfeit.Valid.{IsForfeit, validate_forfeits_iff}
use fulmine.Delegate.Request.{
  Message, Proof, Config, Surroundings, new_delegate_task, validate_delegate_fee,
  find_delegate_fee_output,
}
use fulmine.Delegate.Request.Fee.{validate_delegate_fee_iff}
use fulmine.Delegate.Request.Task.{IsMade, new_delegate_task-IsMade}

-- Libraries under which a script is its own address, hash and text, and a leaf names the delegate.
abbrev lib : Libraries
lib = record {
  forfeit_script = λ a. some a;
  anchor_pk_script = "p2a";
  tap_hash = λ l. l;
  decode_closure = λ l. some (multisig (l ∷ "delegate" ∷ []));
  sighash = λ f t o l. some l;
  parse_pub_key = λ k. some k;
  parse_signature = λ s. some s;
  verify = λ s m k. true;
}

abbrev forfeit : Packet
forfeit = record {
  tx_in = coin_a ∷ [];
  tx_out =
      record { pk_script = "server"; value = pos 1330 }
      ∷ record { pk_script = "p2a"; value = pos 0 }
      ∷ [];
  inputs =
      record {
        witness_utxo = some (record { pk_script = "vtxo"; value = pos 1000 });
        spend_sigs =
            record {
              x_only_pub_key = "client";
              leaf_hash = "leaf";
              signature = "sig";
              sig_hash = any_one_can_pay_all;
            }
            ∷ [];
        leaf_scripts = "leaf" ∷ [];
        sighash_type = 0;
      }
      ∷ [];
}

abbrev env : Surroundings
env = record {
  config = some (record { forfeit_address = "server"; dust = 330 });
  now = pos (63000000000 * nanos);
  id = "7";
  delegate_address = some "us";
  delegate_script = some "us";
  encoded_address = some "us";
  public_key = "02ab";
  vtxos = some (record { spent = false; unrolled = false } ∷ []);
}

abbrev message : Message
message = record { valid_at = pos 865000000; encoded = some "m" }

abbrev proof : Proof
proof = record {
  outputs = record { pk_script = "us"; value = pos 20 } ∷ [];
  outpoints = coin_a ∷ [];
  encoded = some "p";
  txid = "x";
}

abbrev made : DelegateTask
made = record {
  id = "7";
  intent = record { message = "m"; proof = "p"; txid = "x"; inputs = coin_a ∷ [] };
  forfeit_txs = (coin_a, "f") ∷ [];
  fee = 20;
  delegate_public_key = "02ab";
  scheduled_at = pos (63000596800 * nanos);
  status = pending;
  fail_reason = "";
  commitment_txid = "";
}

encode : Packet → Option String
encode f = some "f"

accepted : new_delegate_task lib encode "delegate" 10 env message proof (forfeit ∷ []) ≡ ok made
unfolding new_delegate_task encode
accepted = refl

-- A time whose seconds wrap is before every horizon, so a request that is valid in the farthest future is accepted.
abbrev farthest : Message
farthest = record { valid_at = pos 9223372036854775807; encoded = some "m" }

wraps :
    (t : DelegateTask) × (new_delegate_task lib encode "delegate" 10 env farthest proof
        (forfeit ∷ [])
      ≡ ok t)
unfolding new_delegate_task encode
wraps = (_, refl)

validate_forfeits_iff_example :
    (validate_forfeits lib "delegate" 330 "server" (forfeit ∷ []) ≡ ok tt) ↔ (
      (out : String) × (lib.forfeit_script "server" ≡ some out)
      × All (IsForfeit lib "delegate" 330 out) (forfeit ∷ []))
validate_forfeits_iff_example = validate_forfeits_iff lib "delegate" 330 "server" (forfeit ∷ [])

validate_delegate_fee_iff_example :
    (validate_delegate_fee 10 (negsuc 0) true ≡ ok tt)
    ↔ ((◌≡◌ {A = ℕ} 10 0) ⊎ ((true ≡ true) × (pos 10 ≤ℤ negsuc 0)))
validate_delegate_fee_iff_example =
    validate_delegate_fee_iff 10 (negsuc 0) true (omega arith) (omega arith, omega arith)

abbrev outs : List TxOut
outs =
    record { pk_script = "them"; value = pos 5 } ∷ record { pk_script = "us"; value = pos 20 } ∷ []

found : find_delegate_fee_output outs "us" ≡ (pos 20, true)
unfolding find_delegate_fee_output
found = refl

new_delegate_task-IsMade_example :
    IsMade lib encode 10 env message proof made
    × ((config : Config) × (out : String) × (env.config ≡ some config)
        × (lib.forfeit_script config.forfeit_address ≡ some out)
        × All (IsForfeit lib "delegate" config.dust out) (forfeit ∷ []))
new_delegate_task-IsMade_example =
    new_delegate_task-IsMade lib encode "delegate" 10 env message proof (forfeit ∷ []) made accepted
