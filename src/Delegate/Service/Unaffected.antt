-- ===== src/Delegate/Service/Unaffected.antt =====
-- What a request that `Delegate` of internal/core/application/delegate_service.go handles leaves alone: the tasks
-- with other inputs, and everything if it is refused.
use fulmine.Base.{
  ◌≡◌, ◌≢◌, refl, ap, ◌∙◌, true, false, Bool, inl, inr, String, List, [], ◌∷◌, Option, none, some,
  if_neg, ok, err, Option-cases, Result-cases, All, text_discrete, arith,
}
use fulmine.Domain.{Outpoint, DelegateTask}
use fulmine.Domain.Repository.{is_pending, overlaps, DelegateRepository}
use fulmine.Delegate.Service.{
  State, overlapping_inputs, schedule_task, add_task, replace_tasks, delegate_locked, cancel_found,
}

module _ (r : DelegateRepository) where
  open r use {
    Store, IsWellFormed, CanStore, tasks, add, get_pending_task_ids_by_inputs, cancel_tasks,
    fail_tasks,
  }

  -- What a pending task with other inputs goes through while a request is handled.
  pub cancel_found-same :
      (ins : List Outpoint) (ids : List String) (store : Store) (j : String) (t : DelegateTask)
      → All r.IsInput ins
      → IsWellFormed store
      → get_pending_task_ids_by_inputs ins store ≡ ok ids
      → tasks store j ≡ some t
      → overlaps t.intent.inputs ins ≡ false
      → tasks (cancel_found r ids store) j ≡ some t
  unfolding cancel_found
  cancel_found-same ins [] store j t good w found shown miss = shown
  cancel_found-same ins (id ∷ ids) store j t good w found shown miss =
      elim ((r.cancel_ends (id ∷ ids) store w).either j) [
        | inl same ↦ same ∙ shown
        | inr (c, ends) ↦
            let (t', shown', waits, hit) =
              r.by_inputs_sound ins store (id ∷ ids) j good w found c in
            let same : t' ≡ t = cc in cc (rw same at hit)
      ]

  schedule_task-same :
      (task : DelegateTask) (answer : Option String) (s : State r) (j : String)
      → task.id ≢ j
      → IsWellFormed s.store
      → tasks (schedule_task r task answer s).1.store j ≡ tasks s.store j
  unfolding schedule_task
  schedule_task-same task none s j other w = refl
  schedule_task-same task (some reason) s j other w =
      elim ((r.fail_ends reason (task.id ∷ []) s.store w).either j) [
        | inl same ↦ same
        | inr (c, ends) ↦ absurd (other (ground arith))
      ]

  add_task-same :
      (task : DelegateTask) (answer : Option String) (s : State r) (j : String) (t : DelegateTask)
      → CanStore task
      → IsWellFormed s.store
      → tasks s.store j ≡ some t
      → tasks (add_task r task answer s).1.store j ≡ some t
  unfolding add_task
  add_task-same task answer s j t can w shown = elim (Option-cases (add task s.store).0) [
    | inr (e, refused) ↦ rw (refused, add_task) (r.add_failed task s.store e refused j ∙ shown)
    | inl done ↦
        let (fresh, rest) = r.add_done task s.store can w done in
        let (u, kept, added) = rest in
        elim (text_discrete task.id j) [
          | yes same ↦ cc (ap (tasks s.store) same)
          | no other ↦
              rw (done, add_task)
                (schedule_task-same task answer (record s { store = (add task s.store).1 }) j other
                    (r.add_keeps task s.store can w)
                  ∙ (added j ∙ (rw (if_neg (text_discrete task.id j) other) shown)))
        ]
  ]

  replace_tasks-same :
      (task : DelegateTask) (allow_replace : Bool) (answer : Option String) (ids : List String)
      (s : State r) (j : String) (t : DelegateTask)
      → CanStore task
      → All r.IsInput task.intent.inputs
      → IsWellFormed s.store
      → get_pending_task_ids_by_inputs task.intent.inputs s.store ≡ ok ids
      → tasks s.store j ≡ some t
      → overlaps t.intent.inputs task.intent.inputs ≡ false
      → tasks (replace_tasks r task allow_replace answer ids s).1.store j ≡ some t
  unfolding replace_tasks cancel_found
  replace_tasks-same task allow_replace answer [] s j t can good w found shown miss =
      add_task-same task answer s j t can w shown
  replace_tasks-same task false answer (id ∷ ids) s j t can good w found shown miss = shown
  replace_tasks-same task true answer (id ∷ ids) s j t can good w found shown miss =
      let kept =
        cancel_found-same task.intent.inputs (id ∷ ids) s.store j t good w found shown miss in
      elim (Option-cases (cancel_tasks (id ∷ ids) s.store).0) [
        | inr (x, stopped) ↦ rw (stopped, replace_tasks) kept
        | inl done ↦
            rw (done, replace_tasks)
              (add_task-same task answer (record s { store = (cancel_tasks (id ∷ ids) s.store).1 })
                j t can (r.cancel_keeps (id ∷ ids) s.store w) kept)
      ]

  -- Whatever the locked part of `Delegate` returns, a stored task that spends none of the new task's
  -- inputs is as before. The inputs are wire outpoints and the store is well formed.
  pub delegate_locked-others :
      (task : DelegateTask) (allow_replace : Bool) (answer : Option String) (s : State r)
      (j : String) (t : DelegateTask)
      → CanStore task
      → All r.IsInput task.intent.inputs
      → IsWellFormed s.store
      → tasks s.store j ≡ some t
      → overlaps t.intent.inputs task.intent.inputs ≡ false
      → tasks (delegate_locked r task allow_replace answer s).1.store j ≡ some t
  unfolding delegate_locked
  delegate_locked-others task allow_replace answer s j t can good w shown miss =
      elim (Result-cases (get_pending_task_ids_by_inputs task.intent.inputs s.store)) [
        | inr (e, failed) ↦ rw (failed, delegate_locked) shown
        | inl (ids, found) ↦
            rw (found, delegate_locked)
              (replace_tasks-same task allow_replace answer ids s j t can good w found shown miss)
      ]

  -- Without leave to replace, a request whose inputs a pending task already spends is refused, and the
  -- whole state is as before. The query for the pending tasks is assumed to succeed.
  pub delegate_locked-refuses :
      (task : DelegateTask) (answer : Option String) (s : State r) (ids : List String) (j : String)
      (t : DelegateTask)
      → IsWellFormed s.store
      → get_pending_task_ids_by_inputs task.intent.inputs s.store ≡ ok ids
      → tasks s.store j ≡ some t
      → is_pending t.status ≡ true
      → overlaps t.intent.inputs task.intent.inputs ≡ true
      → delegate_locked r task false answer s ≡ (err overlapping_inputs, s)
  unfolding delegate_locked replace_tasks
  delegate_locked-refuses task answer s [] j t w found shown waits hit =
      cc (r.by_inputs_complete task.intent.inputs s.store [] j t w found shown waits hit)
  delegate_locked-refuses task answer s (id ∷ ids) j t w found shown waits hit =
      rw (found, delegate_locked)
