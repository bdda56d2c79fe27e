-- ===== src/Subscription.antt =====
-- `subscriptionHandler` of internal/core/application/subscription.go: the scripts that the wallet's
-- user has asked to follow are kept in a store and followed by one subscription at the indexer.
pub mod Store
pub mod IndexerClient
pub mod Events
pub mod InStep
pub mod Refines
pub mod Tests
use fulmine.Base.{
  ◌≡◌, Bool, true, false, String, List, [], ◌∷◌, Option, none, some, ite, Result, ok, err, same,
  text_discrete, ℕ, zero, suc, if◌then◌else◌,
}
use fulmine.Subscription.Store.{ScriptsStore}
use fulmine.Subscription.IndexerClient.{Indexer}

module _ (db : ScriptsStore) (ix : Indexer) where
  pub data HandlerError : Type 0 where
    store_failed add_failed remove_failed : db.Error → HandlerError
    subscription_failed : String → HandlerError

  -- The handler with the store and the indexer that it calls. `close_fn` and `cancel_retry` are the
  -- functions that are set, as the id of the subscription that they end.
  pub record Handler : Type 0 where
    pub store : db.Store
    pub indexer : ix.State
    pub close_fn : Option String
    pub cancel_retry : Option String
    pub id : String

  -- `start`, without the goroutine that it starts (Subscription/Events).
  unfoldable pub start : List String → Handler → Option HandlerError × Handler
  start scripts h =
      let (answer, indexer') = ix.new_subscription scripts h.indexer in
      elim answer [
        | err e ↦ (some (subscription_failed e), record h { indexer = indexer' })
        | ok id ↦ (
          none,
          record h { indexer = indexer'; cancel_retry = some id; close_fn = some id; id = id },
        )
      ]

  -- `newSubscriptionHandler`
  unfoldable pub new_subscription_handler : db.Store → ix.State → Result HandlerError Handler
  unfolding start
  new_subscription_handler store indexer =
      let h : Handler = record {
        store = store;
        indexer = indexer;
        close_fn = none;
        cancel_retry = none;
        id = "";
      } in
      elim (db.get store) [
        | err e ↦ err (store_failed e)
        | ok scripts ↦ elim scripts [
          | [] ↦ ok h
          | x ∷ xs ↦ let (e, h') = start (x ∷ xs) h in elim e [ none ↦ ok h' | some e ↦ err e ]
        ]
      ]

  abbrev update_error : Option String → Option HandlerError
  update_error none = none
  update_error (some e) = some (subscription_failed e)

  -- `h.indexerClient.UpdateSubscription`
  unfoldable pub update : List String → List String → Handler → Option HandlerError × Handler
  update added removed h =
      let (e, indexer') = ix.update_subscription h.id added removed h.indexer in
      (update_error e, record h { indexer = indexer' })

  -- `subscribe`
  unfoldable pub subscribe : List String → Handler → Option HandlerError × Handler
  unfolding start update
  subscribe scripts h =
      let ((count, e), store') = db.add scripts h.store in
      let h' : Handler = record h { store = store' } in
      elim e [
        | some e ↦ (some (add_failed e), h')
        | none ↦ elim count [
          | zero ↦ (none, h')
          | suc _ ↦ if same text_discrete h.id "" then start scripts h' else update scripts [] h'
        ]
      ]

  -- `unsubscribe`
  unfoldable pub unsubscribe : List String → Handler → Option HandlerError × Handler
  unfolding update
  unsubscribe scripts h =
      let ((count, e), store') = db.delete scripts h.store in
      let h' : Handler = record h { store = store' } in
      elim e [
        | some e ↦ (some (remove_failed e), h')
        | none ↦ elim count [
          | zero ↦ (none, h')
          | suc _ ↦ if same text_discrete h.id "" then (none, h') else update [] scripts h'
        ]
      ]

  -- `stop`
  unfoldable pub stop : Handler → Handler
  stop h = elim h.close_fn [
    | none ↦ record h { cancel_retry = none; id = "" }
    | some id ↦ record h {
      indexer = ix.close id h.indexer;
      cancel_retry = none;
      close_fn = none;
      id = "";
    }
  ]

  -- What the wallet does with its handler: `restart` is a lock and an unlock, which stop the handler
  -- and make a new one over the same store.
  pub data Op : Type 0 where
    subscribes unsubscribes : List String → Op
    restart : Op

  unfoldable pub run : Op → Handler → Option HandlerError × Handler
  unfolding subscribe unsubscribe stop new_subscription_handler
  run (subscribes scripts) h = subscribe scripts h
  run (unsubscribes scripts) h = unsubscribe scripts h
  run restart h =
      let h' = stop h in
      elim (new_subscription_handler h'.store h'.indexer) [
        | err e ↦ (some e, h')
        | ok h'' ↦ (none, h'')
      ]

  -- The calls one after the other, until one fails.
  unfoldable pub run_all : List Op → Handler → Option HandlerError × Handler
  unfolding run
  run_all [] h = (none, h)
  run_all (op ∷ ops) h =
      let (e, h') = run op h in elim e [ none ↦ run_all ops h' | some e ↦ (some e, h') ]
