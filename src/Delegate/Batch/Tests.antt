-- ===== src/Delegate/Batch/Tests.antt =====
-- Examples for the forfeit transactions of a batch.
use fulmine.Domain.{outpoint_discrete}
use fulmine.Base.Maps.{get}
use fulmine.Badger.Dto.{to_delegate_task_data}
use fulmine.Badger.Dto.{to_delegate_task}
use fulmine.Badger.Memory.{no_rows}
use fulmine.Badger.Memory.{insert_row}
use fulmine.Badger.DelegateRepo.{add}
use fulmine.Badger.Memory.{get_row}
use fulmine.Badger.Memory.{memory}
use fulmine.Badger.DelegateRepo.{get_by_id}
use fulmine.Base.{
  ◌≡◌, refl, true, false, String, List, [], ◌∷◌, Option, some, ok, Any, inl, contains,
  text_discrete, keep_if, map,
}
use fulmine.Base.Int.{pos}
use fulmine.Domain.{Outpoint}
use fulmine.Domain.Repository.{DelegateRepository}
use fulmine.Badger.Memory.{memory-ReadsSucceed}
use fulmine.Badger.DelegateRepo.Instance.{badger_repository}
use fulmine.Badger.Tests.{new_hash, rows, one_row, coin_a, first_task}
use fulmine.Delegate.Forfeit.{TxOut, SpendSig, PsbtInput, Packet, multisig}
use fulmine.Delegate.Batch.{
  Coin, Connector, SigningLibraries, extract_connector, is_ours, some_signed, with_signatures,
  sign_forfeit_with_delegate_key, add_connector, collect_forfeits, forfeits_of_coins,
  submit_forfeit_txs,
}
use fulmine.Delegate.Batch.Signing.{sign_forfeit_with_delegate_key-appends}
use fulmine.Delegate.Batch.Collecting.{Yields, collect_forfeits-Any}

abbrev repo : DelegateRepository
repo = badger_repository new_hash rows memory-ReadsSucceed

abbrev lib : SigningLibraries
lib = record {
  decode_closure = λ l. some (multisig (l ∷ "client" ∷ []));
  leaf_hash = λ l. l;
  batch_sighash = λ f t l. some l;
  sign = λ k m. some m;
  x_only = λ k. k;
}

abbrev forfeit : Packet
forfeit = record {
  tx_in = coin_a ∷ [];
  tx_out = [];
  inputs =
      record {
        witness_utxo = some (record { pk_script = "vtxo"; value = pos 1000 });
        spend_sigs =
            record { x_only_pub_key = "client"; leaf_hash = "key"; signature = "s"; sig_hash = 129 }
            ∷ [];
        leaf_scripts = "key" ∷ [];
        sighash_type = 129;
      }
      ∷ [];
}

abbrev connector : Connector
connector = record {
  hash = 7 ∷ [];
  outs =
      record { pk_script = "p2a"; value = pos 0 }
      ∷ record { pk_script = "c"; value = pos 330 }
      ∷ [];
}

abbrev connector_out : TxOut
connector_out = record { pk_script = "c"; value = pos 330 }

abbrev connector_outpoint : Outpoint
connector_outpoint = record { hash = 7 ∷ []; index = 1 }

abbrev decode : String → Option Packet
decode = λ t. some forfeit

abbrev encode : Packet → Option String
encode = λ f. some "signed"

abbrev live : Coin
live = record { recoverable = false; outpoint = some coin_a }

abbrev coins : List Outpoint → Option (List Coin)
coins = λ os. some (live ∷ [])

abbrev whole : Packet
whole = add_connector forfeit (connector_out, connector_outpoint)

abbrev own_input : PsbtInput
own_input = record {
  witness_utxo = some (record { pk_script = "vtxo"; value = pos 1000 });
  spend_sigs =
      record { x_only_pub_key = "client"; leaf_hash = "key"; signature = "s"; sig_hash = 129 } ∷ [];
  leaf_scripts = "key" ∷ [];
  sighash_type = 0;
}

abbrev own_sig : SpendSig
own_sig = record { x_only_pub_key = "key"; leaf_hash = "key"; signature = "key"; sig_hash = 0 }

abbrev store : repo.Store
unfolding badger_repository
store = one_row

extracted : extract_connector "p2a" connector ≡ ok (connector_out, connector_outpoint)
unfolding extract_connector
extracted = refl

signed :
    sign_forfeit_with_delegate_key lib "key" whole (own_input ∷ [])
    ≡ ok (with_signatures whole own_input [] (own_sig ∷ []))
unfolding sign_forfeit_with_delegate_key
signed = refl

collected : collect_forfeits decode repo coins ("1" ∷ []) store ≡ ok (forfeit ∷ [])
unfolding collect_forfeits badger_repository get_by_id memory get_row add insert_row no_rows
    to_delegate_task to_delegate_task_data
collected = refl

collected_coins : forfeits_of_coins decode first_task.forfeit_txs (live ∷ []) ≡ ok (forfeit ∷ [])
unfolding forfeits_of_coins
collected_coins = refl

read : repo.get_by_id "1" store ≡ ok first_task
unfolding badger_repository get_by_id memory get_row add insert_row no_rows to_delegate_task
    to_delegate_task_data
read = refl

listed : contains text_discrete "1" ("1" ∷ []) ≡ true
unfolding text_discrete
listed = refl

yields : Any (Yields decode first_task.forfeit_txs forfeit) (live ∷ [])
unfolding get outpoint_discrete
yields = inl (coin_a, "forfeit", refl, refl, refl, refl)

submitted :
    submit_forfeit_txs lib "key" "p2a" encode decode repo coins (connector ∷ []) ("1" ∷ []) store
    ≡ ok (some ("signed" ∷ []))
unfolding submit_forfeit_txs badger_repository get_by_id memory get_row add insert_row no_rows
    to_delegate_task to_delegate_task_data
submitted = refl

sign_forfeit_with_delegate_key-appends_example :
    (sigs : List SpendSig) × (with_signatures whole own_input [] (own_sig ∷ [])
      ≡ with_signatures whole own_input [] sigs)
    × (map (λ s. s.leaf_hash) sigs
        ≡ map lib.leaf_hash (keep_if (is_ours lib "key") own_input.leaf_scripts))
    × (some_signed sigs ≡ true)
sign_forfeit_with_delegate_key-appends_example =
    sign_forfeit_with_delegate_key-appends lib "key" whole
      (with_signatures whole own_input [] (own_sig ∷ [])) own_input [] signed

collect_forfeits-Any_example : Any (λ x. x ≡ forfeit) (forfeit ∷ [])
collect_forfeits-Any_example =
    collect_forfeits-Any decode repo coins ("1" ∷ []) store (forfeit ∷ []) "1" first_task
      (live ∷ []) forfeit collected listed read refl yields
