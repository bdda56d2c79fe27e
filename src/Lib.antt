-- ===== src/Lib.antt =====
-- Fulmine is a wallet daemon for the Ark protocol. This library models the parts of it that keep
-- state and act on their own: the delegate, to which clients hand signed intents and forfeit
-- transactions so that their coins are renewed in a batch while they are away; the life of the
-- wallet; the scripts that its user follows; the scheduler; and the migration of virtual HTLCs.
--
-- Parts and files:
--
--   * Base: numbers, texts, lists, maps and errors as values (Base/Int has Go's int64 with its
--     wrap-around, Base/Maps Go's maps).
--   * Clock: times of Go's time package, `time.Unix` with its wrapping seconds.
--   * Domain: internal/core/domain/delegate.go. `DelegateTask`, its statuses and their spelling
--     (Domain/Status), and the repository as an interface of calls and laws (Domain/Repository);
--     Domain/Ending has what a call that ends tasks leaves of the others.
--   * Badger: internal/infrastructure/db/badger/delegate_repo.go. The database is a parameter
--     (Badger/Hold). Badger/Key has the keys `hash:index`, Badger/Dto the rows and their
--     conversions, Badger/DelegateRepo the calls; Badger/DelegateRepo/Instance shows that they keep
--     the laws of the interface where reads succeed. Badger/DelegateRepo/Races splits a round of
--     the calls that end tasks into its read and its write, in any order;
--     Badger/DelegateRepo/Sorted is about the order of a listing.
--   * Delegate: internal/core/application/delegate_service.go with the handler of
--     internal/core/application/delegate_batch_handler.go. Delegate/Service has the state of
--     `DelegateService` and one function for each section that a lock guards, and for each call on
--     the store that is made without one (`OnBatchFinalized`, `registerDelegate`), taken as one
--     step; Delegate/Service/Steps puts them in any order; the files below it prove what a request,
--     a registration, a batch, a tick and a restart do.
--   * Delegate/Request and Delegate/Forfeit: the checks of a request, `newDelegateTask` and
--     `validateForfeits` of the same file; transactions are records of what the code reads, and the
--     Bitcoin and Ark libraries a parameter (`Libraries`).
--   * Delegate/Batch: internal/core/application/delegate_batch_handler.go, which collects the
--     forfeit transactions of the selected tasks, gives each a connector (`extractConnector` of
--     internal/core/application/utils.go) and signs them. Delegate/Session: the loop over the
--     events of a batch, `joinDelegateBatch` of internal/core/application/delegate_service.go, by
--     recursion on the list of events; ark-lib's trees are a parameter (`TreeLibrary`), and
--     Delegate/Session/Steps says how an event with two outcomes is handled. Delegate/Address: the
--     address that the fee is paid to. Delegate/Spent: the outpoints that a transaction event
--     spends, of internal/core/application/utils.go.
--   * Subscription: internal/core/application/subscription.go. `Handler` is the subscription
--     handler over a store of scripts (Subscription/Store, the interface `scriptsStore`) and a
--     client of the indexer (Subscription/IndexerClient, a parameter); Badger/ScriptRepo is the
--     store of internal/infrastructure/db/badger/subscribed_script_repo.go, which fills the
--     interface. Subscription/Events has the loop over the events of the channel.
--   * Vhtlc: internal/core/domain/vhtlc.go and internal/core/application/vhtlc_migration.go.
--     Vhtlc/Args has the arguments of a contract that a row of the old table gives, Vhtlc/Migration
--     the loop over the rows, over an interface of the repository (Vhtlc/Repository), which
--     Badger/VhtlcRepo (internal/infrastructure/db/badger/vhtlc_repo.go) fills.
--   * Sqlite: internal/infrastructure/db/sqlite/vhtlc_repo.go, which fills the same interface with
--     tables in memory: the old table is one of this store, and the badger store has none.
--   * Scheduler: internal/infrastructure/scheduler/gocron/service.go. Tasks at a height and the
--     next settlement; functions are known by their names, a settlement is cancelled by its context
--     alone, and what gocron answers is an argument.
--   * Wallet: internal/core/application/service.go. `Node` is the state of `Service`, and each
--     handler or goroutine is a step: `setup`, `unlock_node`, `sync_arrives`, `finalize`,
--     `lock_node`, `reset_wallet`. Wallet/Vtxos is `GetVtxos`, Wallet/Notifications
--     `handleAddressEventChannel`, whose send to the channel is dropped when nobody receives.
--   * Utils: utils/bip21.go (Utils/Bip21, on code points), utils/secrets.go and utils/retry.go.
--   * Access: internal/config/permissions.go and `Auth` of pkg/macaroon/macaroons.go. What `Auth`
--     relies on of the bakery's validator is the parameter `Bakery` of Access/Auth: it needs the
--     key store unlocked, and compares what the macaroon grants with what is asked for.
--   * Handlers: internal/interface/grpc/handlers/send_recovery.go, the repeated attempts of a send
--     whose coin is already spent, and `ListDelegates` of
--     internal/interface/grpc/handlers/service_handler.go over the pages of
--     Badger/DelegateRepo/Pages.
--
-- How the model stands to the code: a function of the model has the code's name in snake case. A
-- method that changes the service or the store takes the state and returns the next one; the
-- answers of the Ark server and of the scheduler are arguments. A `(T, error)` is a `Result`, a
-- lone error an `Option` that is `none` for nil. Texts are native strings where the code only
-- compares them, and lists of code points where it takes them apart. A JSON document is empty,
-- malformed, or holds a value (`Document`), so that `json.Marshal` and `json.Unmarshal` are exact
-- inverses of each other.
--
-- Loops are recursion on their lists, or on the number of attempts that are left; none needs fuel
-- but the printing of a decimal number, whose fuel is the number plus one, more than its digits,
-- and the loop over the pages of a listing of coins, whose fuel is the number of pages at least.
--
-- What is assumed is written as a parameter: the laws of badgerhold (`Badgerhold`), that a read of
-- a row that is there succeeds (`ReadsSucceed`, which the cancelling calls need because they pass
-- over a task whose read fails), `chainhash.NewHashFromStr` (`new_hash`) and the hash of an
-- intent's id (`intent_id_hash`). Badger/Memory is a database of rows that satisfies them. The
-- indexer follows what it was asked to follow (`Indexer`), a contract that is imported is tracked
-- (`Importer`), and a hash of bytes in hexadecimal digits is a function (`id_hash`). Steps of the
-- wallet and runs of a settlement's job are taken whole, one after the other.
--
-- Not modelled: the signing of the trees of a batch session, the calls of the wallet that only pass
-- the gate and hand on to the sdk, SQLite, the web pages and the servers.
pub mod Base
pub mod Clock
pub mod Domain
pub mod Badger
pub mod Delegate
pub mod Subscription
pub mod Vhtlc
pub mod Sqlite
pub mod Scheduler
pub mod Utils
pub mod Wallet
pub mod Access
pub mod Handlers
