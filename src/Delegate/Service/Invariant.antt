-- ===== src/Delegate/Service/Invariant.antt =====
-- The invariants of `DelegateService` of internal/core/application/delegate_service.go, through every
-- sequence of its steps.
use fulmine.Base.{
  ◌≡◌, refl, sym, subst, true, false, Bool, inl, inr, String, List, [], ◌∷◌, Option, none, some,
  Result, ok, err, Option-cases, Result-cases, All,
}
use fulmine.Domain.{DelegateTask, PendingDelegateTask}
use fulmine.Domain.Repository.{DelegateRepository}
use fulmine.Delegate.Service.{
  State, ScheduleAnswer, service_stopped, job_taken, job_refused, schedule_task, add_task,
  replace_tasks, delegate_locked, schedule_all, restore_pending_tasks, register_intent,
  on_batch_finalized, collect_spent, cancel_found, tick,
}
use fulmine.Delegate.Service.Steps.{
  Op, accepts, registers, finalizes, collects, ticks, restores, run, run_all, IsAllowed,
}
use fulmine.Delegate.Service.Sound.{
  NoOverlap, IsSound, IsSound-refl, IsSound-trans, cancel_tasks-IsSound, fail_tasks-IsSound,
  complete_tasks-IsSound, IsFree, add-IsSound, IsFree-none, IsFree-cancel,
}

module _ (r : DelegateRepository) where
  open r use {
    Store, IsWellFormed, CanStore, tasks, add, get_pending_task_ids_by_inputs, cancel_tasks,
  }

  schedule_task-IsSound :
      (task : DelegateTask) (answer : Option String) (s : State r)
      → IsWellFormed s.store
      → IsSound r s.store (schedule_task r task answer s).1.store
  unfolding schedule_task
  schedule_task-IsSound task none s w = IsSound-refl r s.store w
  schedule_task-IsSound task (some reason) s w =
      fail_tasks-IsSound r reason (task.id ∷ []) s.store w

  add_task-IsSound :
      (task : DelegateTask) (answer : Option String) (s : State r)
      → CanStore task
      → IsWellFormed s.store
      → IsFree r task s.store
      → IsSound r s.store (add_task r task answer s).1.store
  unfolding add_task
  add_task-IsSound task answer s can w free =
      let added = add-IsSound r task s.store can w free in
      elim (Option-cases (add task s.store).0) [
        | inr (e, refused) ↦ rw (refused, add_task) added
        | inl done ↦
            rw (done, add_task)
              (IsSound-trans r s.store _ _ added (
                schedule_task-IsSound task answer (record s { store = (add task s.store).1 })
                  added.well_formed))
      ]

  replace_tasks-IsSound :
      (task : DelegateTask) (allow_replace : Bool) (answer : Option String) (ids : List String)
      (s : State r)
      → CanStore task
      → IsWellFormed s.store
      → get_pending_task_ids_by_inputs task.intent.inputs s.store ≡ ok ids
      → IsSound r s.store (replace_tasks r task allow_replace answer ids s).1.store
  unfolding replace_tasks
  replace_tasks-IsSound task allow_replace answer [] s can w e =
      add_task-IsSound task answer s can w (IsFree-none r task s.store w e)
  replace_tasks-IsSound task false answer (id ∷ ids) s can w e = IsSound-refl r s.store w
  replace_tasks-IsSound task true answer (id ∷ ids) s can w e =
      let cancelled = cancel_tasks-IsSound r (id ∷ ids) s.store w in
      elim (Option-cases (cancel_tasks (id ∷ ids) s.store).0) [
        | inr (x, stopped) ↦ rw (stopped, replace_tasks) cancelled
        | inl done ↦
            rw (done, replace_tasks)
              (IsSound-trans r s.store _ _ cancelled (
                add_task-IsSound task answer
                  (record s { store = (cancel_tasks (id ∷ ids) s.store).1 }) can
                  cancelled.well_formed (IsFree-cancel r task (id ∷ ids) s.store w e done)))
      ]

  delegate_locked-IsSound :
      (task : DelegateTask) (allow_replace : Bool) (answer : Option String) (s : State r)
      → CanStore task
      → IsWellFormed s.store
      → IsSound r s.store (delegate_locked r task allow_replace answer s).1.store
  unfolding delegate_locked
  delegate_locked-IsSound task allow_replace answer s can w =
      elim (Result-cases (get_pending_task_ids_by_inputs task.intent.inputs s.store)) [
        | inr (e, failed) ↦ rw (failed, delegate_locked) (IsSound-refl r s.store w)
        | inl (ids, found) ↦
            rw (found, delegate_locked)
              (replace_tasks-IsSound task allow_replace answer ids s can w found)
      ]

  tick-IsSound : (s : State r) → IsWellFormed s.store → IsSound r s.store (tick r s).store
  unfolding tick
  tick-IsSound s w = elim (Result-cases (get_pending_task_ids_by_inputs s.spent s.store)) [
    | inr (e, failed) ↦ rw (failed, tick) (IsSound-refl r s.store w)
    | inl (ids, found) ↦ rw (found, tick) (cancel_found-IsSound ids)
  ]
    where
      cancel_found-IsSound : (ids : List String) → IsSound r s.store (cancel_found r ids s.store)
      cancel_found-IsSound [] = IsSound-refl r s.store w
      cancel_found-IsSound (id ∷ ids) = cancel_tasks-IsSound r (id ∷ ids) s.store w

  schedule_all-store :
      (answers : List ScheduleAnswer) (ps : List PendingDelegateTask) (s : State r)
      → (schedule_all r answers ps s).store ≡ s.store
  unfolding schedule_all
  schedule_all-store answers [] s = refl
  schedule_all-store [] (p ∷ ps) s = schedule_all-store [] ps _
  schedule_all-store (service_stopped ∷ answers) (p ∷ ps) s = refl
  schedule_all-store (job_taken ∷ answers) (p ∷ ps) s = schedule_all-store answers ps _
  schedule_all-store (job_refused e ∷ answers) (p ∷ ps) s = schedule_all-store answers ps s

  restore-IsSound :
      (answers : List ScheduleAnswer) (s : State r)
      → IsWellFormed s.store
      → IsSound r s.store (restore_pending_tasks r answers s).1.store
  unfolding restore_pending_tasks
  restore-IsSound answers s w = elim (Result-cases (r.get_all_pending s.store)) [
    | inr (e, failed) ↦ rw (failed, restore_pending_tasks) (IsSound-refl r s.store w)
    | inl (ps, found) ↦
        rw (found, restore_pending_tasks)
          (subst (IsSound r s.store) (sym (schedule_all-store answers ps s))
            (IsSound-refl r s.store w))
  ]

  module _ (intent_id_hash : String → String) where
    pub register_intent-IsSound :
        (id : String) (task : DelegateTask) (answer : Result String String) (s : State r)
        → IsWellFormed s.store
        → IsSound r s.store (register_intent r intent_id_hash id task answer s).1.store
    unfolding register_intent
    register_intent-IsSound id task (ok intent_id) s w = IsSound-refl r s.store w
    register_intent-IsSound id task (err reason) s w =
        fail_tasks-IsSound r reason (id ∷ []) s.store w

    run-IsSound :
        (op : Op) (s : State r)
        → IsAllowed r op
        → IsWellFormed s.store
        → IsSound r s.store (run r intent_id_hash op s).store
    unfolding run
    run-IsSound (accepts task allow_replace answer) s a w =
        delegate_locked-IsSound task allow_replace answer s a.0 w
    run-IsSound (registers id task answer) s a w = register_intent-IsSound id task answer s w
    run-IsSound (finalizes txid selected) s a w =
        unfold on_batch_finalized in complete_tasks-IsSound r txid _ s.store w
    run-IsSound (collects outpoints) s a w = unfold collect_spent in IsSound-refl r s.store w
    run-IsSound ticks s a w = tick-IsSound s w
    run-IsSound (restores answers) s a w = restore-IsSound answers s w

    pub run-IsWellFormed :
        (op : Op) (s : State r)
        → IsAllowed r op
        → IsWellFormed s.store
        → IsWellFormed (run r intent_id_hash op s).store
    run-IsWellFormed op s a w = (run-IsSound op s a w).well_formed

    run_all-IsSound :
        (ops : List Op) (s : State r)
        → All (IsAllowed r) ops
        → IsWellFormed s.store
        → IsSound r s.store (run_all r intent_id_hash ops s).store
    unfolding run_all
    run_all-IsSound [] s a w = IsSound-refl r s.store w
    run_all-IsSound (op ∷ ops) s a w =
        let first = run-IsSound op s a.0 w in
        IsSound-trans r s.store _ _ first (run_all-IsSound ops _ a.1 first.well_formed)

    -- Through every sequence of steps of the service (requests, registrations, finished batches, ticks of
    -- the monitor and restarts, with any answers of the server and of the scheduler), starting from a
    -- well-formed store in which no two pending tasks spend a common input: no two pending tasks of
    -- different ids spend a common input afterwards either. The steps of accepted requests are taken
    -- with pending tasks that the store can take.
    pub run_all-NoOverlap :
        (ops : List Op) (s : State r)
        → All (IsAllowed r) ops
        → IsWellFormed s.store
        → NoOverlap r s.store
        → NoOverlap r (run_all r intent_id_hash ops s).store
    run_all-NoOverlap ops s a w free = (run_all-IsSound ops s a w).no_overlap free
