-- ===== src/Delegate/Service/Replaced.antt =====
-- `Delegate` of internal/core/application/delegate_service.go leaves the registered intents alone, those of
-- the tasks that it cancels included.
use fulmine.Base.{
  ◌≡◌, refl, ◌∙◌, true, false, Bool, inl, inr, String, List, [], ◌∷◌, Option, none, some,
  Option-cases, Result-cases, ap, text_discrete,
}
use fulmine.Base.Maps.{get}
use fulmine.Domain.{DelegateTask}
use fulmine.Domain.Repository.{DelegateRepository}
use fulmine.Delegate.Service.{
  State, schedule_task, add_task, replace_tasks, delegate_locked, select_tasks,
}

module _ (r : DelegateRepository) where
  schedule_task-registered :
      (task : DelegateTask) (answer : Option String) (s : State r)
      → (schedule_task r task answer s).1.registered ≡ s.registered
  unfolding schedule_task
  schedule_task-registered task none s = refl
  schedule_task-registered task (some reason) s = refl

  add_task-registered :
      (task : DelegateTask) (answer : Option String) (s : State r)
      → (add_task r task answer s).1.registered ≡ s.registered
  unfolding add_task
  add_task-registered task answer s = elim (Option-cases (r.add task s.store).0) [
    | inr (e, refused) ↦ rw (refused, add_task)
    | inl done ↦ rw (done, add_task) (schedule_task-registered task answer _)
  ]

  replace_tasks-registered :
      (task : DelegateTask) (allow_replace : Bool) (answer : Option String) (ids : List String)
      (s : State r)
      → (replace_tasks r task allow_replace answer ids s).1.registered ≡ s.registered
  unfolding replace_tasks
  replace_tasks-registered task allow_replace answer [] s = add_task-registered task answer s
  replace_tasks-registered task false answer (id ∷ ids) s = refl
  replace_tasks-registered task true answer (id ∷ ids) s =
      elim (Option-cases (r.cancel_tasks (id ∷ ids) s.store).0) [
        | inr (e, stopped) ↦ rw (stopped, replace_tasks)
        | inl done ↦ rw (done, replace_tasks) (add_task-registered task answer _)
      ]

  delegate_locked-registered :
      (task : DelegateTask) (allow_replace : Bool) (answer : Option String) (s : State r)
      → (delegate_locked r task allow_replace answer s).1.registered ≡ s.registered
  unfolding delegate_locked
  delegate_locked-registered task allow_replace answer s =
      elim (Result-cases (r.get_pending_task_ids_by_inputs task.intent.inputs s.store)) [
        | inr (e, failed) ↦ rw (failed, delegate_locked)
        | inl (ids, found) ↦
            rw (found, delegate_locked) (replace_tasks-registered task allow_replace answer ids s)
      ]

  module _ (intent_id_hash : String → String) where
    select_tasks_eq :
        (hashes : List String) (s s' : State r)
        → s'.registered ≡ s.registered
        → select_tasks r intent_id_hash hashes s' ≡ select_tasks r intent_id_hash hashes s
    unfolding select_tasks
    select_tasks_eq [] s s' e = refl
    select_tasks_eq (h ∷ hashes) s s' e =
        let rest = select_tasks_eq hashes s s' e in
        let same : get text_discrete h s'.registered ≡ get text_discrete h s.registered = rw e in
        elim (Option-cases (get text_discrete h s.registered)) [
          | inl missing ↦ rw (same ∙ missing, missing, select_tasks) rest
          | inr (i, found) ↦ rw (same ∙ found, found, select_tasks) (ap (λ is. i ∷ is) rest)
        ]

    -- Whatever `Delegate` does, the intents that the next started batch selects are the same: a task that is
    -- cancelled to be replaced keeps its place in the batches.
    pub select_tasks-delegate_locked :
        (task : DelegateTask) (allow_replace : Bool) (answer : Option String) (hashes : List String)
        (s : State r)
        → select_tasks r intent_id_hash hashes (delegate_locked r task allow_replace answer s).1
          ≡ select_tasks r intent_id_hash hashes s
    select_tasks-delegate_locked task allow_replace answer hashes s =
        select_tasks_eq hashes s (delegate_locked r task allow_replace answer s).1
          (delegate_locked-registered task allow_replace answer s)
