-- ===== src/Subscription/Tests.antt =====
-- The subscription handler of internal/core/application/subscription.go at work, over a script store
-- in memory and an indexer that follows one subscription.
use fulmine.Badger.Memory.{delete_row}
use fulmine.Badger.Memory.{insert_row}
use fulmine.Badger.Memory.{collect}
use fulmine.Badger.ScriptRepo.{get_scripts}
use fulmine.Base.{
  ◌≡◌, refl, Bool, true, false, not, ◌&&◌, ◌||◌, String, List, [], ◌∷◌, none, some, Result, ok,
  contains, text_discrete, ◌≢◌, same_refl, ok-injective, ◌∙◌,
}
use fulmine.Badger.Memory.{memory, no_rows, row-no_rows}
use fulmine.Badger.ScriptRepo.{SubscribedScript}
use fulmine.Badger.ScriptRepo.Contents.{IsKeyed}
use fulmine.Badger.ScriptRepo.Instance.{script_store}
use fulmine.Subscription.Store.{ScriptsStore}
use fulmine.Subscription.IndexerClient.{Indexer}
use fulmine.Subscription.{
  Handler, new_subscription_handler, Op, subscribes, unsubscribes, restart, run_all,
}
use fulmine.Subscription.InStep.{follows}
use fulmine.Subscription.Refines.{asked, run_all-follows}
use fulmine.Subscription.Events.{ScriptEvent, listen, event, closed, disconnected}

id-not_empty : (id : String) → ◌≡◌ {A = Result String String} (ok "sub") (ok id) → id ≢ ""
unfolding text_discrete
id-not_empty id e empty =
    let nonsense : false ≡ true = same_refl text_discrete "sub" "" (ok-injective e ∙ empty) in cc

abbrev one_subscription : Indexer
one_subscription = record {
  State = String → Bool;
  new_subscription = λ scripts s. (ok "sub", λ k. contains text_discrete k scripts);
  update_subscription = λ id added removed s. (
    none,
    λ k. (s k || contains text_discrete k added) && not (contains text_discrete k removed),
  );
  close = λ id s k. false;
  watches = λ s id k. s k;
  new_done = λ scripts id s e. (id-not_empty id e, λ k. refl);
  update_done = λ id added removed s e k. refl;
}

abbrev scripts_db : ScriptsStore
scripts_db = script_store memory

abbrev no_scripts : scripts_db.Store
unfolding script_store memory
no_scripts = no_rows SubscribedScript

abbrev first_handler : Handler scripts_db one_subscription
first_handler = record {
  store = no_scripts;
  indexer = λ k. false;
  close_fn = none;
  cancel_retry = none;
  id = "";
}

abbrev calls : List (Op scripts_db one_subscription)
calls =
    subscribes ("a" ∷ "b" ∷ [])
    ∷ restart
    ∷ unsubscribes ("a" ∷ [])
    ∷ subscribes ("c" ∷ "b" ∷ [])
    ∷ []

made :
    new_subscription_handler scripts_db one_subscription no_scripts (λ k. false) ≡ ok first_handler
unfolding new_subscription_handler script_store get_scripts memory collect no_rows
made = refl

all_succeed : (run_all scripts_db one_subscription calls first_handler).0 ≡ none
unfolding run_all script_store memory insert_row no_rows get_scripts collect delete_row
all_succeed = refl

b_followed :
    follows scripts_db one_subscription
      (run_all scripts_db one_subscription calls first_handler).1
      "b"
    ≡ true
unfolding follows text_discrete run_all script_store memory insert_row no_rows get_scripts collect
    delete_row
b_followed = refl

a_forgotten :
    follows scripts_db one_subscription
      (run_all scripts_db one_subscription calls first_handler).1
      "a"
    ≡ false
unfolding follows text_discrete run_all script_store memory insert_row no_rows get_scripts collect
    delete_row
a_forgotten = refl

no_rows-IsKeyed : IsKeyed memory (no_rows SubscribedScript)
no_rows-IsKeyed k r here = cc (row-no_rows SubscribedScript k)

no_scripts-IsValid : scripts_db.IsValid no_scripts
unfolding script_store memory
no_scripts-IsValid = no_rows-IsKeyed

abbrev carries : String → ScriptEvent
carries t = record { connection = none; tx = t }

events_forwarded :
    listen false (
      event (record { connection = some disconnected; tx = "" })
      ∷ event (carries "x")
      ∷ closed
      ∷ event (carries "y")
      ∷ [])
    ≡ (true, carries "x" ∷ [])
unfolding listen
events_forwarded = refl

run_all-follows_example :
    follows scripts_db one_subscription
      (run_all scripts_db one_subscription calls first_handler).1
      "c"
    ≡ asked scripts_db one_subscription calls (scripts_db.holds no_scripts) "c"
run_all-follows_example =
    run_all-follows scripts_db one_subscription no_scripts (λ k. false) first_handler calls
      no_scripts-IsValid made all_succeed "c"
