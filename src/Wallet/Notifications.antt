-- ===== src/Wallet/Notifications.antt =====
-- `handleAddressEventChannel` of internal/core/application/service.go: what an event of the indexer
-- about the scripts that the wallet follows sends to the channel of notifications.
pub mod Panics
use fulmine.Base.{
  ℕ, Bool, true, false, ◌&&◌, String, List, [], ◌∷◌, Text, Option, none, some, if◌then◌else◌,
}
use fulmine.Base.Hex.{decode_string}
use fulmine.Subscription.Events.{ConnectionState}
use fulmine.Wallet.Vtxos.{Vtxo}

-- `schnorr.ParsePubKey`, and `EncodeV0` of an address with the server's key and the network's prefix.
pub record AddressLibrary : Type 1 where
  pub PublicKey : Type 0
  pub parse_pub_key : List ℕ → Option PublicKey
  pub encode_v0 : PublicKey → Option String

pub record TxData : Type 0 where
  pub txid : String
  pub tx : String

-- `indexer.ScriptEvent`, with its data.
pub record AddressEvent : Type 0 where
  pub connection : Option ConnectionState
  pub err : Option String
  pub scripts : List Text
  pub new_vtxos : List Vtxo
  pub spent_vtxos : List Vtxo
  pub checkpoint_txs : List (String × TxData)
  pub tx_data : TxData

pub record Notification : Type 0 where
  pub tx_data : TxData
  pub addrs : List String
  pub new_vtxos : List Vtxo
  pub spent_vtxos : List Vtxo
  pub checkpoints : List (String × TxData)

-- What a call does: nothing, a runtime error, or an attempt to send, which is dropped when nobody
-- receives.
pub data Handled : Type 0 where
  ignored panicked : Handled
  sends : Notification → Handled

-- `b[2:]`, which is a runtime error on a shorter slice.
unfoldable pub drop_two : List ℕ → Option (List ℕ)
drop_two [] = none
drop_two (x ∷ []) = none
drop_two (x ∷ y ∷ rest) = some rest

unfoldable pub is_empty : List Vtxo → Bool
is_empty [] = true
is_empty (v ∷ vs) = false

unfoldable pub prepend : String → Option (List String) → Option (List String)
prepend a none = none
prepend a (some addresses) = some (a ∷ addresses)

module _ (lib : AddressLibrary) where
  unfoldable pub encode_key : List ℕ → Option String
  encode_key raw = elim (lib.parse_pub_key raw) [ none ↦ none | some key ↦ lib.encode_v0 key ]

  -- The loop over the scripts, where what fails is logged and left out; no result is a runtime error.
  unfoldable pub addresses_of : List Text → Option (List String)
  unfolding decode_string drop_two encode_key prepend
  addresses_of [] = some []
  addresses_of (script ∷ scripts) = elim (decode_string script) [
    | none ↦ addresses_of scripts
    | some bytes ↦ elim (drop_two bytes) [
      | none ↦ none
      | some raw ↦ elim (encode_key raw) [
        | none ↦ addresses_of scripts
        | some a ↦ prepend a (addresses_of scripts)
      ]
    ]
  ]

  abbrev pub notification_of : AddressEvent → List String → Notification
  notification_of e addresses = record {
    tx_data = e.tx_data;
    addrs = addresses;
    new_vtxos = e.new_vtxos;
    spent_vtxos = e.spent_vtxos;
    checkpoints = e.checkpoint_txs;
  }

  -- The part for an event without a connection state and without an error.
  unfoldable pub handle_data : AddressEvent → Handled
  unfolding addresses_of is_empty
  handle_data e =
      if is_empty e.spent_vtxos && is_empty e.new_vtxos
      then ignored
      else (elim (addresses_of e.scripts) [
        | none ↦ panicked
        | some addresses ↦ sends (notification_of e addresses)
      ])

  unfoldable pub handle_address_event : AddressEvent → Handled
  unfolding handle_data
  handle_address_event e = elim e.connection [
    | some state ↦ ignored
    | none ↦ elim e.err [ some failure ↦ ignored | none ↦ handle_data e ]
  ]
