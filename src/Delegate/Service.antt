-- ===== src/Delegate/Service.antt =====
-- The state of `DelegateService` of internal/core/application/delegate_service.go and its operations on
-- tasks. What lies outside is an argument: the answers of the Ark server and of the scheduler.
-- The lock `delegateMtx` makes each part of an operation that holds it one step.
pub mod Steps
pub mod Sound
pub mod Invariant
pub mod Accepting
pub mod Unaffected
pub mod Lifecycle
pub mod Replaced
use fulmine.Base.{
  ◌≡◌, Bool, true, false, String, List, [], ◌∷◌, ◌++◌, Option, none, some, Result, ok, err, map,
  text_discrete, if◌then◌else◌,
}
use fulmine.Base.Maps.{get, put, remove}
use fulmine.Clock.{Time}
use fulmine.Domain.{Outpoint, DelegateTask, PendingDelegateTask}
use fulmine.Domain.Repository.{RepoError, is_pending, DelegateRepository}

-- `registeredIntent` of internal/core/application/utils.go
pub record RegisteredIntent : Type 0 where
  pub task_id : String
  pub intent_id : String
  pub inputs : List Outpoint

pub data DelegateError : Type 0 where
  overlapping_inputs : DelegateError
  repo_failed cancel_failed : RepoError → DelegateError
  schedule_failed : String → DelegateError

-- What a round of `restorePendingTasks` meets: the service was stopped, or the scheduler takes the job or
-- refuses it.
pub data ScheduleAnswer : Type 0 where
  service_stopped job_taken : ScheduleAnswer
  job_refused : String → ScheduleAnswer

module _ (r : DelegateRepository) where
  open r use {
    Store, add, get_by_id, get_all_pending, get_pending_task_by_intent_txid,
    get_pending_task_ids_by_inputs, cancel_tasks, complete_tasks, fail_tasks,
  }

  -- `scheduled` are the jobs that the scheduler holds: at its time each calls `registerDelegate` with
  -- its id. `spent` are the outpoints that the monitor has collected since its last tick.
  pub record State : Type 0 where
    pub store : Store
    pub registered : List (String × RegisteredIntent)
    pub scheduled : List (Time × String)
    pub spent : List Outpoint

  -- The part of `Delegate` before the lock: a pending task with the same intent txid makes the call a
  -- duplicate; an error of that query is ignored.
  unfoldable pub is_duplicate : DelegateTask → State → Bool
  is_duplicate task s = elim (get_pending_task_by_intent_txid task.intent.txid s.store) [
    | ok p ↦ true
    | err e ↦ false
  ]

  -- `ScheduleTaskAtTime` and what follows it: on an error the new task is marked as failed, and an
  -- error of that is only logged.
  unfoldable pub schedule_task :
      DelegateTask → Option String → State → Result DelegateError (Unit {0}) × State
  schedule_task task none s =
      (ok tt, record s { scheduled = (task.scheduled_at, task.id) ∷ s.scheduled })
  schedule_task task (some reason) s =
      let (e, store') = fail_tasks reason (task.id ∷ []) s.store in
      (err (schedule_failed reason), record s { store = store' })

  unfoldable pub add_task :
      DelegateTask → Option String → State → Result DelegateError (Unit {0}) × State
  unfolding schedule_task
  add_task task answer s =
      let (e, store') = add task s.store in
      elim e [
        | some x ↦ (err (repo_failed x), record s { store = store' })
        | none ↦ schedule_task task answer (record s { store = store' })
      ]

  -- The pending tasks with overlapping inputs are cancelled, if the client allows it.
  unfoldable pub replace_tasks :
      DelegateTask
      → Bool
      → Option String
      → List String
      → State
      → Result DelegateError (Unit {0}) × State
  unfolding add_task
  replace_tasks task allow_replace answer [] s = add_task task answer s
  replace_tasks task false answer (id ∷ ids) s = (err overlapping_inputs, s)
  replace_tasks task true answer (id ∷ ids) s =
      let (e, store') = cancel_tasks (id ∷ ids) s.store in
      elim e [
        | some x ↦ (err (cancel_failed x), record s { store = store' })
        | none ↦ add_task task answer (record s { store = store' })
      ]

  -- The part of `Delegate` that holds the lock. `answer` is the error of the scheduler.
  unfoldable pub delegate_locked :
      DelegateTask → Bool → Option String → State → Result DelegateError (Unit {0}) × State
  unfolding replace_tasks
  delegate_locked task allow_replace answer s =
      elim (get_pending_task_ids_by_inputs task.intent.inputs s.store) [
        | err e ↦ (err (repo_failed e), s)
        | ok ids ↦ replace_tasks task allow_replace answer ids s
      ]

  -- `Delegate`, for a task that `newDelegateTask` made, with no other call in between.
  unfoldable pub delegate :
      DelegateTask → Bool → Option String → State → Result DelegateError (Unit {0}) × State
  unfolding is_duplicate delegate_locked
  delegate task allow_replace answer s =
      if is_duplicate task s then (ok tt, s) else delegate_locked task allow_replace answer s

  -- The loop of `restorePendingTasks`: what happens to one task after the other; the scheduler takes the
  -- tasks beyond the end of the list.
  unfoldable pub schedule_all : List ScheduleAnswer → List PendingDelegateTask → State → State
  schedule_all answers [] s = s
  schedule_all [] (p ∷ ps) s =
      schedule_all [] ps (record s { scheduled = (p.scheduled_at, p.id) ∷ s.scheduled })
  schedule_all (service_stopped ∷ answers) (p ∷ ps) s = s
  schedule_all (job_taken ∷ answers) (p ∷ ps) s =
      schedule_all answers ps (record s { scheduled = (p.scheduled_at, p.id) ∷ s.scheduled })
  schedule_all (job_refused e ∷ answers) (p ∷ ps) s = schedule_all answers ps s

  -- `restorePendingTasks`
  unfoldable pub restore_pending_tasks : List ScheduleAnswer → State → Option RepoError × State
  unfolding schedule_all
  restore_pending_tasks answers s = elim (get_all_pending s.store) [
    | err e ↦ (some e, s)
    | ok ps ↦ (none, schedule_all answers ps s)
  ]

  -- The first part of `registerDelegate`, under the lock: the task to register, if it is still pending.
  unfoldable pub pending_to_register : String → State → Result RepoError (Option DelegateTask)
  pending_to_register id s = elim (get_by_id id s.store) [
    | err e ↦ err e
    | ok task ↦ if is_pending task.status then ok (some task) else ok none
  ]

  -- `intentIDHash`: the SHA-256 of the intent's id, in hex.
  module _ (intent_id_hash : String → String) where
    -- The rest of `registerDelegate`, without the lock. `answer` is what `RegisterIntent` returned;
    -- `FailTasks` is taken as one step.
    unfoldable pub register_intent :
        String → DelegateTask → Result String String → State → Option RepoError × State
    unfolding put text_discrete
    register_intent id task (err reason) s =
        let (e, store') = fail_tasks reason (id ∷ []) s.store in (e, record s { store = store' })
    register_intent id task (ok intent_id) s = (
      none,
      record s { registered = put text_discrete (intent_id_hash intent_id) intent s.registered },
    )
      where
        intent : RegisteredIntent
        intent = record { task_id = id; intent_id = intent_id; inputs = task.intent.inputs }

    -- `registerDelegate`, with nothing in between its two parts.
    unfoldable pub register_delegate :
        String → Result String String → State → Option RepoError × State
    unfolding pending_to_register register_intent
    register_delegate id answer s = elim (pending_to_register id s) [
      | err e ↦ (some e, s)
      | ok none ↦ (none, s)
      | ok (some task) ↦ register_intent id task answer s
    ]

    -- The intents that the event `BatchStarted` of `listenBatchStartedEvents` selects.
    unfoldable pub select_tasks : List String → State → List RegisteredIntent
    unfolding get text_discrete
    select_tasks [] s = []
    select_tasks (h ∷ hs) s = elim (get text_discrete h s.registered) [
      | none ↦ select_tasks hs s
      | some i ↦ i ∷ select_tasks hs s
    ]

    unfoldable pub forget_intents :
        List RegisteredIntent → List (String × RegisteredIntent) → List (String × RegisteredIntent)
    unfolding remove text_discrete
    forget_intents [] m = m
    forget_intents (i ∷ is) m =
        forget_intents is (remove text_discrete (intent_id_hash i.intent_id) m)

    abbrev pub task_ids : List RegisteredIntent → List String
    task_ids = map (λ i. i.task_id)

    -- `OnBatchFinalized`. `CompleteTasks` is taken as one step; no lock is held around it, and
    -- Badger/DelegateRepo/Races has what rounds of such calls do to each other.
    unfoldable pub on_batch_finalized :
        String → List RegisteredIntent → State → Option RepoError × State
    unfolding forget_intents
    on_batch_finalized txid selected s =
        let (e, store') = complete_tasks txid (task_ids selected) s.store in
        (e, record s { registered = forget_intents selected s.registered; store = store' })

  -- `monitorVtxosSpent`: a transaction event adds the outpoints that it spends.
  unfoldable pub collect_spent : List Outpoint → State → State
  collect_spent outpoints s = record s { spent = s.spent ++ outpoints }

  -- The cancellation that is only called when a task was found.
  unfoldable pub cancel_found : List String → Store → Store
  cancel_found [] store = store
  cancel_found (id ∷ ids) store = (cancel_tasks (id ∷ ids) store).1

  -- Its tick cancels the pending tasks that have one of these outpoints; errors are only logged.
  unfoldable pub tick : State → State
  unfolding cancel_found
  tick s = elim (get_pending_task_ids_by_inputs s.spent s.store) [
    | err e ↦ record s { spent = [] }
    | ok ids ↦ record s { spent = []; store = cancel_found ids s.store }
  ]
