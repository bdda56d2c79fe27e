-- ===== src/Wallet/Tests.antt =====
-- The wallet of internal/core/application/service.go at work.
use fulmine.Base.Hex.{encode_to_string}
use fulmine.Wallet.Notifications.{
  AddressLibrary, AddressEvent, panicked, sends, is_empty, notification_of, handle_address_event,
}
use fulmine.Wallet.Notifications.Panics.{
  IsShort, script_of, handle_address_event-panics_iff, handle_address_event-sends,
}
use fulmine.Subscription.Events.{ConnectionState}
use fulmine.Clock.{after}
use fulmine.Base.{
  ◌≡◌, ◌≢◌, ◌↔◌, refl, ℕ, Text, Any, Bool, true, false, String, List, [], ◌∷◌, ◌++◌, Option, none,
  some, Result, ok, err, keep_if, same, same_refl, text_discrete, arith, not, ◌&&◌, if◌then◌else◌,
}
use fulmine.Base.Int.{pos}
use fulmine.Clock.{Time}
use fulmine.Wallet.{
  Node, SyncEvent, idle, syncing, sdk_failed, is_initialized_and_unlocked, unlock_node, lock_node,
  is_synced,
}
use fulmine.Wallet.Gate.{
  Op, sets_up, unlocks, syncs, finalizes, locks, run_all, IsQuiet, closed, IsWhole, run_all-gate,
}
use fulmine.Wallet.Stuck.{unlock_node-stuck}
use fulmine.Wallet.Vtxos.{Vtxo, not_ready, keep_of, get_vtxos}
use fulmine.Wallet.Vtxos.Newest.{
  NewestFirst, at_time, Pages, last_page, next_page, get_vtxos-NewestFirst,
}

abbrev new_node : Node
new_node = record {
  is_initialized = false;
  is_locked = true;
  wallet_ready = false;
  sync_event = none;
  sync_ch = none;
  signer_key = none;
  delegate_enabled = true;
  delegate_running = false;
  scheduler_running = false;
  subscribed = false;
  vtxo_listener = false;
  finalizer = idle;
  esplora_url = "";
}

abbrev in_sync : SyncEvent
in_sync = record { synced = true; error = none }

abbrev key_of : String → Result String String
key_of mnemonic = ok "key"

abbrev life : List Op
life =
    sets_up true true none true (ok "https://explorer")
    ∷ unlocks none none none
    ∷ syncs in_sync
    ∷ finalizes (ok "mnemonic") key_of none
    ∷ []

abbrev opened : Node
opened = run_all life new_node

passes : is_initialized_and_unlocked opened ≡ none
unfolding is_initialized_and_unlocked run_all
passes = refl

has_key : opened.signer_key ≡ some "key"
unfolding run_all
has_key = refl

sees_sync : is_synced opened ≡ (true, none)
unfolding is_synced run_all
sees_sync = refl

-- While it syncs, the gate is shut.
waits :
    is_initialized_and_unlocked
      (run_all (sets_up true true none true (ok "") ∷ unlocks none none none ∷ []) new_node)
    ≡ some syncing
unfolding is_initialized_and_unlocked run_all
waits = refl

no_key_after_lock : (run_all (life ++ (locks none ∷ [])) new_node).signer_key ≡ none
unfolding run_all
no_key_after_lock = refl

quiet : IsQuiet life new_node
unfolding IsQuiet
quiet = tt

run_all-gate_example :
    (is_initialized_and_unlocked opened ≡ none → IsWhole opened)
    × (opened.is_locked ≡ true → opened.signer_key ≡ none)
run_all-gate_example = run_all-gate life new_node quiet (closed refl refl refl refl)

abbrev locked_node : Node
locked_node = record new_node { is_initialized = true }

unlock_node-stuck_example :
    (let r = unlock_node none (some "no file") none locked_node in
      (r.0 ≡ some (sdk_failed "no file"))
      × ((unlock config again : Option String) → unlock_node unlock config again r.1 ≡ (none, r.1))
      × ((answer : Option String) → lock_node answer r.1 ≡ (some syncing, r.1)))
unlock_node-stuck_example = unlock_node-stuck "no file" none locked_node refl refl refl

abbrev coin : String → Time → Vtxo
coin o t = record {
  outpoint = o;
  spent = false;
  swept = false;
  unrolled = false;
  is_recoverable = false;
  created_at = t;
}

abbrev lists : String → Result String (List Vtxo × String)
lists cursor =
    if same text_discrete cursor ""
    then ok (coin "a" (pos 1) ∷ coin "b" (pos 5) ∷ [], "next")
    else ok (coin "c" (pos 5) ∷ coin "d" (pos 9) ∷ [], "")

abbrev open_node : Node
open_node = record new_node {
  is_initialized = true;
  is_locked = false;
  wallet_ready = true;
  sync_event = some in_sync;
}

-- A wallet that has not synced.
gated : get_vtxos lists (record open_node { sync_event = none }) 3 "all" ≡ err (not_ready syncing)
unfolding get_vtxos
gated = refl

newest :
    get_vtxos lists open_node 3 "spendable"
    ≡ ok (coin "d" (pos 9) ∷ coin "b" (pos 5) ∷ coin "c" (pos 5) ∷ coin "a" (pos 1) ∷ [])
unfolding get_vtxos after
newest = refl

next-not_empty : ◌≢◌ {A = String} "next" ""
unfolding text_discrete
next-not_empty e = let nonsense : false ≡ true = same_refl text_discrete "next" "" e in cc

abbrev spendable : Vtxo → Bool
spendable v = not v.spent && not v.is_recoverable && not v.unrolled

pages : Pages lists "next" (coin "c" (pos 5) ∷ coin "d" (pos 9) ∷ []) 1
unfolding text_discrete
pages =
    next_page "next" "" (coin "c" (pos 5) ∷ coin "d" (pos 9) ∷ []) [] 0 next-not_empty refl
      last_page

get_vtxos-NewestFirst_example :
    (out : List Vtxo) × (get_vtxos lists open_node 3 "spendable" ≡ ok out)
    × NewestFirst out
    × ((t : Time)
        → at_time t out
          ≡ at_time t (
              keep_if spendable
                (coin "a" (pos 1) ∷ coin "b" (pos 5) ∷ coin "c" (pos 5) ∷ coin "d" (pos 9) ∷ [])))
unfolding keep_of is_initialized_and_unlocked
get_vtxos-NewestFirst_example =
    get_vtxos-NewestFirst lists open_node "spendable" "next" spendable
      (coin "a" (pos 1) ∷ coin "b" (pos 5) ∷ []) (coin "c" (pos 5) ∷ coin "d" (pos 9) ∷ []) 1 3 refl
      refl refl pages (omega arith)

-- A library that takes every key, with one address for all.
abbrev one_address : AddressLibrary
one_address = record {
  PublicKey = List ℕ;
  parse_pub_key = λ raw. some raw;
  encode_v0 = λ key. some "ark1";
}

abbrev paid_coin : Vtxo
paid_coin = coin "new" (pos 1)

abbrev event_of : List Text → AddressEvent
event_of scripts = record {
  connection = none;
  err = none;
  scripts = scripts;
  new_vtxos = paid_coin ∷ [];
  spent_vtxos = [];
  checkpoint_txs = [];
  tx_data = record { txid = "t"; tx = "raw" };
}

abbrev paid_key : List ℕ × String
paid_key = (7 ∷ 200 ∷ [], "ark1")

-- A script of one byte, after one that pays a key.
handle_address_event-panics_iff_example :
    (handle_address_event one_address (event_of (script_of paid_key ∷ (53 ∷ 49 ∷ []) ∷ []))
      ≡ panicked)
    ↔ (◌≡◌ {A = Option ConnectionState} none none
        × ◌≡◌ {A = Option String} none none
        × (is_empty [] && is_empty (paid_coin ∷ []) ≡ false)
        × Any IsShort (script_of paid_key ∷ (53 ∷ 49 ∷ []) ∷ []))
handle_address_event-panics_iff_example =
    handle_address_event-panics_iff one_address
      (event_of (script_of paid_key ∷ (53 ∷ 49 ∷ []) ∷ []))

panics_on_one_byte :
    handle_address_event one_address (event_of (script_of paid_key ∷ (53 ∷ 49 ∷ []) ∷ []))
    ≡ panicked
unfolding handle_address_event encode_to_string
panics_on_one_byte = refl

handle_address_event-sends_example :
    handle_address_event one_address (event_of (script_of paid_key ∷ []))
    ≡ sends (notification_of one_address (event_of (script_of paid_key ∷ [])) ("ark1" ∷ []))
unfolding is_empty
handle_address_event-sends_example =
    handle_address_event-sends one_address (paid_key ∷ []) (event_of (script_of paid_key ∷ []))
      (((omega arith, (omega arith, tt)), (7 ∷ 200 ∷ [], refl, refl)), tt) refl refl refl refl
