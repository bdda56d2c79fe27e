-- ===== src/Badger/DelegateRepo.antt =====
-- `delegateRepository` of internal/infrastructure/db/badger/delegate_repo.go over a badgerhold
-- database. The calls inside and outside a transaction (`ctx.Value("tx")`) are the same calls.
pub mod Rows
pub mod Marks
pub mod Searches
pub mod Queries
pub mod Pages
pub mod Sorted
pub mod Races
pub mod Instance
use fulmine.Base.{
  ◌≡◌, Bool, true, false, not, String, Text, List, [], ◌∷◌, Option, none, some, ite, Result, ok,
  err, ◌>>=◌, map, contains, text_discrete, codes_discrete, if◌then◌else◌,
}
use fulmine.Clock.{time_unix}
use fulmine.Domain.{Outpoint, DelegateTask, PendingDelegateTask}
use fulmine.Domain.Repository.{
  RepoError, task_not_found, duplicate_task, backend, bad_intent, bad_inputs, is_pending, cancel,
  complete, fail,
}
use fulmine.Badger.Key.{key}
use fulmine.Badger.Hold.{Badgerhold, HoldError, not_found, key_exists, failure}
use fulmine.Badger.Dto.{
  DelegateTaskDto, OutpointJson, Document, empty, malformed, holds, unmarshal,
  to_delegate_task_data, to_delegate_task,
}

abbrev pub hold_error : HoldError → RepoError
hold_error not_found = backend "No data found for this key"
hold_error key_exists = duplicate_task
hold_error (failure m) = backend m

-- A missing row has an error of its own in `GetByID`.
abbrev pub get_error : HoldError → RepoError
get_error not_found = task_not_found
get_error key_exists = duplicate_task
get_error (failure m) = backend m

abbrev pub hold_result : Option HoldError → Option RepoError
hold_result none = none
hold_result (some e) = some (hold_error e)

-- `badgerhold.Where("Status").Eq(domain.DelegateTaskStatusPending)`
abbrev pub where_pending : DelegateTaskDto → Bool
where_pending d = is_pending d.status

abbrev pub pending_of : DelegateTaskDto → PendingDelegateTask
pending_of d = record { id = d.id; scheduled_at = time_unix d.scheduled_at }

-- The loop of `GetPendingTaskByIntentTxID`: a row whose intent cannot be read is passed over.
unfoldable pub first_with_txid :
    String → List DelegateTaskDto → Result RepoError PendingDelegateTask
first_with_txid txid [] = err task_not_found
first_with_txid txid (d ∷ ds) =
    let rest = first_with_txid txid ds in
    elim (unmarshal d.intent_json bad_intent) [
      | err e ↦ rest
      | ok intent ↦ ite (text_discrete intent.txid txid) (ok (pending_of d)) rest
    ]

-- The inner loop of `GetPendingTaskIDsByInputs`.
unfoldable pub has_overlap : List Text → List OutpointJson → Bool
has_overlap input_set [] = false
has_overlap input_set (o ∷ os) =
    let rest = has_overlap input_set os in
    if contains codes_discrete (key o.hash o.index) input_set then true else rest

-- Its outer loop: a row whose inputs cannot be read is passed over.
unfoldable pub ids_with_overlap : List Text → List DelegateTaskDto → List String
ids_with_overlap input_set [] = []
ids_with_overlap input_set (d ∷ ds) =
    let rest = ids_with_overlap input_set ds in
    elim (unmarshal d.input_json bad_inputs) [
      | err e ↦ rest
      | ok op_jsons ↦ if has_overlap input_set op_jsons then d.id ∷ rest else rest
    ]

abbrev pub key_of : Outpoint → Text
key_of o = key o.hash o.index

module _ (new_hash : Text → Option Text) where
  -- The task that a row stands for.
  unfoldable pub task_of : Option DelegateTaskDto → Option DelegateTask
  task_of none = none
  task_of (some d) = elim (to_delegate_task new_hash d) [ err e ↦ none | ok t ↦ some t ]

module _ (new_hash : Text → Option Text) (b : Badgerhold DelegateTaskDto) where
  open b use {Store, insert, get, find, update, row}

  unfoldable pub tasks : Store → String → Option DelegateTask
  unfolding task_of
  tasks s j = task_of new_hash (row s j)

  -- `Add`
  unfoldable pub add : DelegateTask → Store → Option RepoError × Store
  add task s = let (e, s') = insert task.id (to_delegate_task_data task) s in (hold_result e, s')

  -- `GetByID`
  unfoldable pub get_by_id : String → Store → Result RepoError DelegateTask
  get_by_id id s = elim (get id s) [
    | err e ↦ err (get_error e)
    | ok data_row ↦ to_delegate_task new_hash data_row
  ]

  -- `GetAllPending`
  unfoldable pub get_all_pending : Store → Result RepoError (List PendingDelegateTask)
  get_all_pending s = elim (find where_pending s) [
    | err e ↦ err (hold_error e)
    | ok all_tasks ↦ ok (map pending_of all_tasks)
  ]

  -- `GetPendingTaskByIntentTxID`
  unfoldable pub get_pending_task_by_intent_txid :
      String → Store → Result RepoError PendingDelegateTask
  get_pending_task_by_intent_txid txid s = elim (find where_pending s) [
    | err e ↦ err (hold_error e)
    | ok all_tasks ↦ first_with_txid txid all_tasks
  ]

  -- `GetPendingTaskIDsByInputs`
  unfoldable pub get_pending_task_ids_by_inputs :
      List Outpoint → Store → Result RepoError (List String)
  get_pending_task_ids_by_inputs inputs s = elim (find where_pending s) [
    | err e ↦ err (hold_error e)
    | ok all_tasks ↦ ok (ids_with_overlap (map key_of inputs) all_tasks)
  ]

  -- One round of the loops of `CancelTasks`, `CompleteTasks` and `FailTasks`, which change a pending
  -- task by `f`; `continue` is `none`.
  unfoldable pub mark_task :
      (DelegateTask → DelegateTask) → String → Store → Option RepoError × Store
  mark_task f id s = elim (get_by_id id s) [
    | err e ↦ (none, s)
    | ok task ↦
        if is_pending task.status
        then (let (e, s') = update id (to_delegate_task_data (f task)) s in (hold_result e, s'))
        else (none, s)
  ]

  unfoldable pub mark_tasks :
      (DelegateTask → DelegateTask) → List String → Store → Option RepoError × Store
  mark_tasks f [] s = (none, s)
  mark_tasks f (id ∷ ids) s =
      let (e, s') = mark_task f id s in
      elim e [ none ↦ mark_tasks f ids s' | some x ↦ (some x, s') ]

  -- `CancelTasks`
  unfoldable pub cancel_tasks : List String → Store → Option RepoError × Store
  unfolding mark_tasks
  cancel_tasks ids s = mark_tasks cancel ids s

  -- `CompleteTasks`
  unfoldable pub complete_tasks : String → List String → Store → Option RepoError × Store
  unfolding mark_tasks
  complete_tasks commitment_txid ids s = mark_tasks (complete commitment_txid) ids s

  -- `FailTasks`
  unfoldable pub fail_tasks : String → List String → Store → Option RepoError × Store
  unfolding mark_tasks
  fail_tasks reason ids s = mark_tasks (fail reason) ids s
