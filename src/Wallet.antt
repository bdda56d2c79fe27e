-- ===== src/Wallet.antt =====
-- `Service` of internal/core/application/service.go: the life of the wallet, which is set up, unlocked,
-- finalized once it has synced, locked and reset, and the gate that the other calls pass. The sdk's
-- wallet, the mnemonic and URL checks and the stores are parts of their own: what they answer is an
-- argument.
pub mod Gate
pub mod Stuck
pub mod Notifications
pub mod Vtxos
pub mod Tests
use fulmine.Base.{
  ◌≡◌, Bool, true, false, String, Option, none, some, Result, ok, err, ◌>>◌, ◌>>=◌, guard,
  if◌then◌else◌, ◌||◌,
}

pub record SyncEvent : Type 0 where
  pub synced : Bool
  pub error : Option String

-- The goroutine of an unlock that waits for the sync and then finalizes the wallet.
pub data Finalizer : Type 0 where
  idle waiting synced : Finalizer

pub data NodeError : Type 0 where
  not_initialized already_initialized locked syncing finalizing : NodeError
  bad_mnemonic bad_url : NodeError
  sdk_failed : String → NodeError

-- The state of `Service` with that of the parts it starts and stops: whether the sdk's wallet is
-- locked, whether the delegate service, the scheduler, the external subscription and the listener of
-- coin events run. `sync_ch` is the event in the channel, if there is a channel.
pub record Node : Type 0 where
  pub is_initialized : Bool
  pub is_locked : Bool
  pub wallet_ready : Bool
  pub sync_event : Option SyncEvent
  pub sync_ch : Option (Option SyncEvent)
  pub signer_key : Option String
  pub delegate_enabled : Bool
  pub delegate_running : Bool
  pub scheduler_running : Bool
  pub subscribed : Bool
  pub vtxo_listener : Bool
  pub finalizer : Finalizer
  pub esplora_url : String

abbrev pub is_set {ℓ} : {A : Type ℓ} → Option A → Bool
is_set none = false
is_set (some a) = true

-- `isInitializedAndUnlocked`
unfoldable pub is_initialized_and_unlocked : Node → Option NodeError
is_initialized_and_unlocked s =
    if s.is_initialized
    then (if s.is_locked
        then some locked
        else (if is_set s.sync_event
            then (if s.wallet_ready then none else some finalizing)
            else some syncing))
    else some not_initialized

-- `IsSynced`
unfoldable pub is_synced : Node → Bool × Option String
is_synced s = elim s.sync_event [ none ↦ (false, none) | some e ↦ (e.synced, e.error) ]

-- `clearSignerKey`
unfoldable pub clear_signer_key : Node → Node
clear_signer_key s = record s { signer_key = none }

-- `Setup`. The answers: whether the mnemonic is valid, whether the URL is, what `Init` answers and
-- whether it leaves the wallet locked, and the explorer's URL of the configuration.
unfoldable pub setup :
    Bool → Bool → Option String → Bool → Result String String → Node → Option NodeError × Node
setup good_mnemonic good_url init locked_after config s =
    if s.is_initialized
    then (some already_initialized, s)
    else (if good_mnemonic
        then (if good_url
            then elim init [
              | some e ↦ (some (sdk_failed e), s)
              | none ↦
                  let s' : Node = record s { is_locked = locked_after } in
                  elim config [
                    | err e ↦ (some (sdk_failed e), s')
                    | ok explorer_url ↦
                        (none, record s' { esplora_url = explorer_url; is_initialized = true })
                  ]
            ]
            else (some bad_url, s))
        else (some bad_mnemonic, s))

-- The state that `LockNode`, `ResetWallet` and `unwindFailedUnlock` leave behind the stopped parts.
unfoldable pub tear_down : Node → Node
unfolding clear_signer_key
tear_down s =
    let s' : Node = record s {
      delegate_running = if s.delegate_enabled then false else s.delegate_running;
    } in
    let s' = clear_signer_key s' in
    record s' {
      scheduler_running = false;
      subscribed = false;
      wallet_ready = false;
      sync_event = none;
      sync_ch = none;
    }

-- `LockNode`; the answer is that of the sdk's `Lock`.
unfoldable pub lock_node : Option String → Node → Option NodeError × Node
unfolding is_initialized_and_unlocked tear_down
lock_node answer s = elim (is_initialized_and_unlocked s) [
  | some e ↦ (some e, s)
  | none ↦ elim answer [
    | some e ↦ (some (sdk_failed e), s)
    | none ↦ (none, record (tear_down (record s { is_locked = true })) { vtxo_listener = false })
  ]
]

-- `unwindFailedUnlock`; the answer is that of the sdk's `Lock`.
unfoldable pub unwind_failed_unlock : Option String → Node → Node
unfolding tear_down
unwind_failed_unlock answer s =
    let s' : Node = record (tear_down s) { vtxo_listener = false } in
    elim answer [ none ↦ record s' { is_locked = true } | some _ ↦ s' ]

-- `UnlockNode`, up to its goroutines. The answers of `Unlock`, `GetConfigData` and
-- `newSubscriptionHandler`.
unfoldable pub unlock_node :
    Option String → Option String → Option String → Node → Option NodeError × Node
unlock_node unlock config subscription s =
    if s.is_initialized
    then (if s.is_locked
        then (let s1 : Node = record s { wallet_ready = false } in
            elim unlock [
              | some e ↦ (some (sdk_failed e), s1)
              | none ↦
                  let s2 : Node = record s1 { is_locked = false; scheduler_running = true } in
                  elim config [
                    | some e ↦ (some (sdk_failed e), s2)
                    | none ↦ elim subscription [
                      | some e ↦ (some (sdk_failed e), s2)
                      | none ↦ (
                        none,
                        record s2 { subscribed = true; sync_ch = some none; finalizer = waiting },
                      )
                    ]
                  ]
            ])
        else (none, s))
    else (some not_initialized, s)

-- The goroutine that waits for the sync.
unfoldable pub sync_arrives : SyncEvent → Node → Node
sync_arrives event s = elim s.finalizer [
  | idle ↦ s
  | synced ↦ s
  | waiting ↦ record s { sync_event = some event; sync_ch = some (some event); finalizer = synced }
]

-- The end of an unlock: the callback that starts the delegate service, which is set if delegates are enabled, the migration of old rows
-- (Vhtlc/Migration), and the gate.
unfoldable pub open_gate : Node → Node
open_gate s = record s {
  delegate_running = if s.delegate_enabled then true else s.delegate_running;
  wallet_ready = true;
}

-- The goroutine that finalizes the unlock. The answers: the mnemonic of `Dump`, the key that is made
-- from it, and that of `Lock` if the unlock is taken back.
unfoldable pub finalize :
    Result String String → (String → Result String String) → Option String → Node → Node
unfolding open_gate unwind_failed_unlock
finalize dump private_key_from_mnemonic relock s = elim s.finalizer [
  | idle ↦ s
  | waiting ↦ s
  | synced ↦
      let s' : Node = record s { finalizer = idle } in
      elim s.sync_event [
        | none ↦ s'
        | some e ↦
            if s.delegate_enabled
            then elim dump [
              | err _ ↦ unwind_failed_unlock relock s'
              | ok mnemonic ↦ elim (private_key_from_mnemonic mnemonic) [
                | err _ ↦ unwind_failed_unlock relock s'
                | ok private_key ↦ open_gate (record s' { signer_key = some private_key })
              ]
            ]
            else open_gate s'
      ]
]

-- `ResetWallet`; whether the sdk's `Reset` leaves the wallet locked is an argument.
unfoldable pub reset_wallet : Bool → Node → Node
unfolding tear_down
reset_wallet locked_after s = record (tear_down (record s { is_locked = locked_after })) {
  is_initialized = false;
}
