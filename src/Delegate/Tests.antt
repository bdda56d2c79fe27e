-- ===== src/Delegate/Tests.antt =====
-- Examples for internal/core/application/delegate_service.go, over the store of
-- internal/infrastructure/db/badger on a database of rows.
use fulmine.Badger.DelegateRepo.{get_all_pending}
use fulmine.Delegate.Address.{Contract, IsReadable, get_delegate_address}
use fulmine.Delegate.Spent.{SpentVtxo}
use fulmine.Delegate.Service.Steps.{run}
use fulmine.Badger.Memory.{update_row}
use fulmine.Badger.Dto.{to_delegate_task}
use fulmine.Badger.Memory.{get_row}
use fulmine.Badger.DelegateRepo.{get_by_id}
use fulmine.Badger.DelegateRepo.{mark_task}
use fulmine.Badger.DelegateRepo.{has_overlap}
use fulmine.Badger.Dto.{to_delegate_task_data}
use fulmine.Badger.Memory.{no_rows}
use fulmine.Badger.Memory.{insert_row}
use fulmine.Badger.DelegateRepo.{add}
use fulmine.Badger.Memory.{collect}
use fulmine.Badger.DelegateRepo.{ids_with_overlap}
use fulmine.Badger.Memory.{memory}
use fulmine.Badger.DelegateRepo.{get_pending_task_ids_by_inputs}
use fulmine.Domain.{outpoint_discrete}
use fulmine.Base.{
  Any, All, ◌≡◌, refl, true, false, Any, String, List, [], ◌∷◌, Option, none, some, ok, err, All,
  contains, text_discrete,
}
use fulmine.Domain.{Outpoint, DelegateTask}
use fulmine.Domain.Repository.{
  DelegateRepository, is_pending, cancel, complete, fail, overlaps, IsKept, EndsAs,
}
use fulmine.Badger.Memory.{memory-ReadsSucceed}
use fulmine.Badger.DelegateRepo.Instance.{badger_repository}
use fulmine.Badger.Tests.{
  new_hash, rows, start, start-IsWellFormed, one_row, one_row-IsWellFormed, tasks_one, first_task,
  first_task-IsStorable, task_of_coin-IsStorable, coin-IsOutpoint, tasks-start, coin_a, coin,
  task_of_coin,
}
use fulmine.Badger.DelegateRepo.{first_with_txid, get_pending_task_by_intent_txid}
use fulmine.Badger.Memory.{lookup}
use fulmine.Badger.DelegateRepo.{tasks}
use fulmine.Clock.{Time}
use fulmine.Delegate.Service.Lifecycle.{
  tick-cancels, restore_pending_tasks-Any, register_intent-fails, register_intent-completes,
}
use fulmine.Delegate.Service.{
  cancel_found, tick, is_duplicate, restore_pending_tasks, register_intent, on_batch_finalized,
  select_tasks, RegisteredIntent, State, overlapping_inputs, delegate, delegate_locked,
}
use fulmine.Delegate.Service.Steps.{Op, accepts, registers, finalizes, run_all, IsAllowed}
use fulmine.Delegate.Service.Sound.{NoOverlap}
use fulmine.Delegate.Service.Accepting.{
  delegate-pending, delegate_locked-stores, delegate_locked-replaces,
}
use fulmine.Delegate.Service.Unaffected.{delegate_locked-refuses}
use fulmine.Delegate.Service.Invariant.{run-IsWellFormed, run_all-NoOverlap}

abbrev repo : DelegateRepository
repo = badger_repository new_hash rows memory-ReadsSucceed

abbrev hash : String → String
hash = λ s. s

-- The state of a service that has just started on an empty store, and on a store with one task.
abbrev fresh : State repo
unfolding badger_repository
fresh = record { store = start; registered = []; scheduled = []; spent = [] }

abbrev busy : State repo
unfolding badger_repository
busy = record { store = one_row; registered = []; scheduled = []; spent = coin_a ∷ [] }

-- A task that wants the same outpoint.
abbrev rival : DelegateTask
rival = task_of_coin "2" "y" coin_a

abbrev stranger_coin : Outpoint
stranger_coin = coin "cc" 7

abbrev stranger : DelegateTask
stranger = task_of_coin "3" "z" stranger_coin

abbrev ops : List Op
ops =
    accepts first_task false none
    ∷ accepts rival true none
    ∷ registers "2" rival (ok "i")
    ∷ finalizes "c" (record { task_id = "2"; intent_id = "i"; inputs = coin_a ∷ [] } ∷ [])
    ∷ []

ops-IsAllowed : All (IsAllowed repo) ops
unfolding badger_repository
ops-IsAllowed = (
  (first_task-IsStorable, refl),
  ((task_of_coin-IsStorable "2" "y" coin_a (coin-IsOutpoint "aa"), refl), (tt, (tt, tt))),
)

fresh-IsWellFormed : repo.IsWellFormed fresh.store
unfolding badger_repository fresh
fresh-IsWellFormed = start-IsWellFormed

fresh-NoOverlap : NoOverlap repo fresh.store
unfolding badger_repository fresh
fresh-NoOverlap j k t u e = cc (tasks-start j)

busy-IsWellFormed : repo.IsWellFormed busy.store
unfolding badger_repository busy
busy-IsWellFormed = one_row-IsWellFormed

busy-tasks : repo.tasks busy.store "1" ≡ some first_task
unfolding badger_repository busy
busy-tasks = tasks_one

rival-CanStore : repo.CanStore rival
unfolding badger_repository
rival-CanStore = task_of_coin-IsStorable "2" "y" coin_a (coin-IsOutpoint "aa")

stranger-CanStore : repo.CanStore stranger
unfolding badger_repository
stranger-CanStore = task_of_coin-IsStorable "3" "z" stranger_coin (coin-IsOutpoint "cc")

stranger-inputs : All repo.IsInput stranger.intent.inputs
unfolding badger_repository
stranger-inputs = (coin-IsOutpoint "cc", tt)

clash : overlaps first_task.intent.inputs rival.intent.inputs ≡ true
unfolding overlaps outpoint_discrete
clash = refl

no_clash : overlaps first_task.intent.inputs stranger.intent.inputs ≡ false
unfolding overlaps outpoint_discrete
no_clash = refl

rival_accepted : (delegate_locked repo rival true none busy).0 ≡ ok tt
unfolding delegate_locked badger_repository get_pending_task_ids_by_inputs memory ids_with_overlap
    collect add insert_row no_rows to_delegate_task_data has_overlap mark_task get_by_id get_row
    to_delegate_task update_row
rival_accepted = refl

delegated : (delegate repo rival true none busy).0 ≡ ok tt
unfolding delegate_locked badger_repository get_pending_task_ids_by_inputs memory ids_with_overlap
    collect add insert_row no_rows to_delegate_task_data has_overlap mark_task get_by_id get_row
    to_delegate_task update_row delegate is_duplicate get_pending_task_by_intent_txid
    first_with_txid
delegated = refl

found_busy : repo.get_pending_task_ids_by_inputs (coin_a ∷ []) busy.store ≡ ok ("1" ∷ [])
unfolding badger_repository get_pending_task_ids_by_inputs memory ids_with_overlap collect add
    insert_row no_rows to_delegate_task_data has_overlap
found_busy = refl

run_all-NoOverlap_example : NoOverlap repo (run_all repo hash ops fresh).store
run_all-NoOverlap_example =
    run_all-NoOverlap repo hash ops fresh ops-IsAllowed fresh-IsWellFormed fresh-NoOverlap

delegate-pending_example :
    (k : String) × (u : DelegateTask) × (repo.tasks (delegate repo rival true none busy).1.store k
      ≡ some u)
    × (is_pending u.status ≡ true)
    × (u.intent.txid ≡ "y")
delegate-pending_example =
    delegate-pending repo rival true none busy rival-CanStore refl busy-IsWellFormed delegated

delegate_locked-stores_example :
    ((u : DelegateTask) × (repo.tasks (delegate_locked repo rival true none busy).1.store "2"
        ≡ some u)
      × IsKept rival u)
    × ((delegate_locked repo rival true none busy).1.scheduled ≡ (rival.scheduled_at, "2") ∷ [])
    × (◌≡◌ {A = Option String} none none)
unfolding busy
delegate_locked-stores_example =
    delegate_locked-stores repo rival true none busy rival-CanStore busy-IsWellFormed rival_accepted

delegate_locked-replaces_example :
    (true ≡ true)
    × EndsAs cancel
        (repo.tasks busy.store "1")
        (repo.tasks (delegate_locked repo rival true none busy).1.store "1")
delegate_locked-replaces_example =
    delegate_locked-replaces repo rival true none busy "1" first_task rival-CanStore
      busy-IsWellFormed rival_accepted busy-tasks refl clash

delegate_locked-refuses_example :
    delegate_locked repo rival false none busy ≡ (err overlapping_inputs, busy)
delegate_locked-refuses_example =
    delegate_locked-refuses repo rival none busy ("1" ∷ []) "1" first_task busy-IsWellFormed
      found_busy busy-tasks refl clash

busy-cancels : (repo.cancel_tasks ("1" ∷ []) busy.store).0 ≡ none
unfolding badger_repository mark_task get_by_id memory get_row add insert_row no_rows
    to_delegate_task to_delegate_task_data update_row
busy-cancels = refl

-- A service whose tick meets a second task that spends another outpoint.
abbrev crowded : State repo
crowded = (delegate_locked repo stranger false none busy).1

crowded-IsWellFormed : repo.IsWellFormed crowded.store
unfolding delegate_locked run
crowded-IsWellFormed =
    run-IsWellFormed repo hash (accepts stranger false none) busy (stranger-CanStore, refl)
      busy-IsWellFormed

found_crowded : repo.get_pending_task_ids_by_inputs crowded.spent crowded.store ≡ ok ("1" ∷ [])
unfolding badger_repository get_pending_task_ids_by_inputs memory ids_with_overlap collect
    delegate_locked add insert_row no_rows to_delegate_task_data has_overlap
found_crowded = refl

crowded-cancels : (repo.cancel_tasks ("1" ∷ []) crowded.store).0 ≡ none
unfolding badger_repository mark_task get_by_id memory get_row delegate_locked
    get_pending_task_ids_by_inputs ids_with_overlap collect add insert_row no_rows
    to_delegate_task_data has_overlap to_delegate_task update_row
crowded-cancels = refl

crowded-tasks : repo.tasks (tick repo crowded).store "3" ≡ some stranger
unfolding add badger_repository cancel_found collect delegate_locked get_by_id
    get_pending_task_ids_by_inputs get_row has_overlap ids_with_overlap insert_row lookup mark_task
    memory no_rows on_batch_finalized register_intent select_tasks tasks tick to_delegate_task
    to_delegate_task_data update_row
crowded-tasks = refl

restored : (restore_pending_tasks repo [] busy).0 ≡ none
unfolding restore_pending_tasks badger_repository get_all_pending memory
restored = refl

failure_stored : (register_intent repo hash "1" first_task (err "no") busy).0 ≡ none
unfolding register_intent badger_repository mark_task get_by_id memory get_row add insert_row
    no_rows to_delegate_task to_delegate_task_data update_row
failure_stored = refl

abbrev intent_i : RegisteredIntent
intent_i = record { task_id = "1"; intent_id = "i"; inputs = coin_a ∷ [] }

abbrev registered : State repo
registered = (register_intent repo hash "1" first_task (ok "i") busy).1

abbrev selected : List RegisteredIntent
selected = select_tasks repo hash ("h" ∷ "i" ∷ []) registered

completion_stored : (on_batch_finalized repo hash "c" selected registered).0 ≡ none
unfolding on_batch_finalized badger_repository select_tasks register_intent mark_task get_by_id
    memory get_row add insert_row no_rows to_delegate_task to_delegate_task_data update_row
completion_stored = refl

among : contains text_discrete "i" ("h" ∷ "i" ∷ []) ≡ true
unfolding text_discrete
among = refl

tick-cancels_example : overlaps stranger.intent.inputs (coin_a ∷ []) ≡ false
unfolding delegate_locked badger_repository get_pending_task_ids_by_inputs memory overlaps
    ids_with_overlap collect add insert_row no_rows to_delegate_task_data has_overlap
tick-cancels_example =
    tick-cancels repo crowded ("1" ∷ []) "3" stranger crowded-IsWellFormed found_crowded
      crowded-cancels crowded-tasks refl

restore_pending_tasks-Any_example :
    Any (λ (job : Time × String). job.1 ≡ "1") (restore_pending_tasks repo [] busy).1.scheduled
restore_pending_tasks-Any_example =
    restore_pending_tasks-Any repo busy "1" first_task busy-IsWellFormed restored busy-tasks refl

register_intent-fails_example :
    EndsAs
      (fail "no")
      (repo.tasks busy.store "1")
      (repo.tasks (register_intent repo hash "1" first_task (err "no") busy).1.store "1")
    × ((register_intent repo hash "1" first_task (err "no") busy).1.registered ≡ busy.registered)
register_intent-fails_example =
    register_intent-fails repo hash "1" "no" first_task first_task busy busy-IsWellFormed
      failure_stored busy-tasks refl

register_intent-completes_example :
    EndsAs
      (complete "c")
      (repo.tasks busy.store "1")
      (repo.tasks (on_batch_finalized repo hash "c" selected registered).1.store "1")
register_intent-completes_example =
    register_intent-completes repo hash "1" "i" "c" first_task first_task ("h" ∷ "i" ∷ []) busy
      busy-IsWellFormed among busy-tasks refl completion_stored

-- An event that spends one coin, of its Ark transaction.
abbrev spent_vtxo : SpentVtxo
spent_vtxo = record { txid = 97 ∷ []; vout = 3 }

-- A wallet with two default contracts, of which the second has index 0.
abbrev contracts : List Contract
contracts =
    record { address = "later"; key_index = some (some 4) }
    ∷ record { address = "us"; key_index = some (some 0) }
    ∷ []

contracts-IsReadable : All IsReadable contracts
contracts-IsReadable = (λ e. cc, (λ e. cc, tt))

given : (get_delegate_address (λ a. some a) true (some contracts) none none).0 ≡ ok "us"
unfolding get_delegate_address
given = refl
