-- ===== src/Badger/DelegateRepo/Instance.antt =====
-- The store of internal/infrastructure/db/badger/delegate_repo.go keeps the laws of
-- `DelegateRepository` of internal/core/domain/delegate.go, where reads succeed.
use fulmine.Base.{◌≡◌, ap, String, Text, Option, none, some, ite, text_discrete}
use fulmine.Domain.{DelegateTask}
use fulmine.Domain.Repository.{RepoError, IsKept, DelegateRepository, cancel, complete, fail}
use fulmine.Domain.Ending.{cancel-IsEnding, complete-IsEnding, fail-IsEnding}
use fulmine.Badger.Hold.{Badgerhold, ReadsSucceed}
use fulmine.Badger.Dto.{DelegateTaskDto, to_delegate_task_data}
use fulmine.Badger.Dto.RoundTrip.{IsOutpoint, IsStorable}
use fulmine.Badger.DelegateRepo.{
  task_of, tasks, add, get_by_id, get_all_pending, get_pending_task_by_intent_txid,
  get_pending_task_ids_by_inputs, cancel_tasks, complete_tasks, fail_tasks,
}
use fulmine.Badger.DelegateRepo.Rows.{
  IsWellFormed, add_keeps, write-tasks, hold_result-eq-none, hold_result-eq-some, tasks_unmoved,
  get_by_id_done, task_id,
}
use fulmine.Badger.DelegateRepo.Marks.{mark_tasks-IsWellFormed, mark_tasks-Ends}
use fulmine.Badger.DelegateRepo.Queries.{
  all_pending_complete, by_intent_txid_done, by_inputs_complete, by_inputs_sound,
}

module _ (new_hash : Text → Option Text) (b : Badgerhold DelegateTaskDto) where
  open b use {Store, insert, row}

  -- When `Add` takes a task of wire types without error, no task was stored under its id; afterwards it is
  -- kept under it, and what is stored under every other id is as before.
  pub add_done :
      (t : DelegateTask) (s : Store)
      → IsStorable new_hash t
      → (add new_hash b t s).0 ≡ none
      → (tasks new_hash b s t.id ≡ none)
        × ((u : DelegateTask) × IsKept t u
            × ((j : String)
                → tasks new_hash b (add new_hash b t s).1 j
                  ≡ ite (text_discrete t.id j) (some u) (tasks new_hash b s j)))
  unfolding add
  add_done t s h e =
      let done = hold_result-eq-none new_hash b _ e in
      let (missing, rows) = b.insert_done t.id (to_delegate_task_data t) s done in
      (
        unfold tasks task_of in ap (task_of new_hash) missing,
        write-tasks new_hash b t.id t s _ h rows,
      )

  pub add_failed :
      (t : DelegateTask) (s : Store) (x : RepoError)
      → (add new_hash b t s).0 ≡ some x
      → (j : String) → tasks new_hash b (add new_hash b t s).1 j ≡ tasks new_hash b s j
  unfolding add
  add_failed t s x e =
      let (h, refused) = hold_result-eq-some new_hash b _ x e in
      tasks_unmoved new_hash b s _ (b.insert_failed t.id (to_delegate_task_data t) s h refused)

  -- The repository over a database whose reads succeed.
  unfoldable pub badger_repository : ReadsSucceed b → DelegateRepository
  unfolding cancel_tasks complete_tasks fail_tasks
  badger_repository reads = record {
    Store = Store;
    IsWellFormed = IsWellFormed new_hash b;
    CanStore = IsStorable new_hash;
    IsInput = IsOutpoint new_hash;
    tasks = tasks new_hash b;
    add = add new_hash b;
    get_by_id = get_by_id new_hash b;
    get_all_pending = get_all_pending new_hash b;
    get_pending_task_by_intent_txid = get_pending_task_by_intent_txid new_hash b;
    get_pending_task_ids_by_inputs = get_pending_task_ids_by_inputs new_hash b;
    cancel_tasks = cancel_tasks new_hash b;
    complete_tasks = complete_tasks new_hash b;
    fail_tasks = fail_tasks new_hash b;
    add_keeps = add_keeps new_hash b;
    add_done = λ t s h w e. add_done t s h e;
    add_failed = add_failed;
    get_by_id_done = λ id s t w e. get_by_id_done new_hash b id s t e;
    task_id = task_id new_hash b;
    all_pending_complete = all_pending_complete new_hash b;
    by_intent_txid_done = by_intent_txid_done new_hash b;
    by_inputs_complete = by_inputs_complete new_hash b;
    by_inputs_sound = by_inputs_sound new_hash b;
    cancel_keeps = mark_tasks-IsWellFormed new_hash b cancel cancel-IsEnding;
    cancel_ends = λ ids s w. mark_tasks-Ends new_hash b cancel cancel-IsEnding ids s reads w;
    complete_keeps =
        λ txid. mark_tasks-IsWellFormed new_hash b (complete txid) (complete-IsEnding txid);
    complete_ends = λ txid ids s w.
        mark_tasks-Ends new_hash b (complete txid) (complete-IsEnding txid) ids s reads w;
    fail_keeps = λ reason. mark_tasks-IsWellFormed new_hash b (fail reason) (fail-IsEnding reason);
    fail_ends = λ reason ids s w.
        mark_tasks-Ends new_hash b (fail reason) (fail-IsEnding reason) ids s reads w;
  }
