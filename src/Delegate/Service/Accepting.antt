-- ===== src/Delegate/Service/Accepting.antt =====
-- What `Delegate` of internal/core/application/delegate_service.go does with a request, on each of its
-- branches.
use fulmine.Base.{
  ◌≡◌, refl, ap, ◌∙◌, true, false, Bool, ◌⊎◌, inl, inr, String, List, [], ◌∷◌, Option, none, some,
  ite, if_pos, if_neg, ok, Option-cases, Result-cases, text_discrete, contains,
}
use fulmine.Domain.{Intent, DelegateTask, PendingDelegateTask}
use fulmine.Domain.Repository.{is_pending, IsKept, EndsAs, overlaps, cancel, DelegateRepository}
use fulmine.Delegate.Service.{
  State, is_duplicate, schedule_task, add_task, replace_tasks, delegate_locked, delegate,
  cancel_found,
}

module _ (r : DelegateRepository) where
  open r use {
    Store, IsWellFormed, CanStore, tasks, add, get_pending_task_ids_by_inputs, cancel_tasks,
    fail_tasks,
  }

  -- The state after a request that was accepted: the new task is added to a store in which others may
  -- have been cancelled, and its job is scheduled.
  abbrev Accepted : DelegateTask → Option String → List String → State r → State r → Type 0
  Accepted task answer ids s s' =
      (answer ≡ none)
      × ((add task (cancel_found r ids s.store)).0 ≡ none)
      × (s'.store ≡ (add task (cancel_found r ids s.store)).1)
      × (s'.scheduled ≡ (task.scheduled_at, task.id) ∷ s.scheduled)

  schedule_task_ok :
      (task : DelegateTask) (answer : Option String) (s : State r)
      → (schedule_task r task answer s).0 ≡ ok tt
      → (answer ≡ none)
        × ((schedule_task r task answer s).1.store ≡ s.store)
        × ((schedule_task r task answer s).1.scheduled ≡ (task.scheduled_at, task.id) ∷ s.scheduled)
  unfolding schedule_task
  schedule_task_ok task none s e = (refl, refl, refl)
  schedule_task_ok task (some reason) s e = cc

  add_task_ok :
      (task : DelegateTask) (answer : Option String) (s : State r)
      → (add_task r task answer s).0 ≡ ok tt
      → Accepted task answer [] s (add_task r task answer s).1
  unfolding add_task cancel_found
  add_task_ok task answer s e = elim (Option-cases (add task s.store).0) [
    | inr (x, refused) ↦ cc (rw (refused, add_task) at e)
    | inl done ↦
        let (fine, kept, job) = schedule_task_ok task answer _ (rw (done, add_task) at e) in
        rw (done, add_task) (fine, refl, kept, job)
  ]

  replace_tasks_ok :
      (task : DelegateTask) (allow_replace : Bool) (answer : Option String) (ids : List String)
      (s : State r)
      → (replace_tasks r task allow_replace answer ids s).0 ≡ ok tt
      → Accepted task answer ids s (replace_tasks r task allow_replace answer ids s).1
        × ((ids ≡ []) ⊎ ((allow_replace ≡ true) × ((cancel_tasks ids s.store).0 ≡ none)))
  unfolding replace_tasks
  replace_tasks_ok task allow_replace answer [] s e = (add_task_ok task answer s e, inl refl)
  replace_tasks_ok task false answer (id ∷ ids) s e = cc
  replace_tasks_ok task true answer (id ∷ ids) s e =
      elim (Option-cases (cancel_tasks (id ∷ ids) s.store).0) [
        | inr (x, stopped) ↦ cc (rw (stopped, replace_tasks) at e)
        | inl done ↦
            rw (done, replace_tasks)
              (
                unfold cancel_found in add_task_ok task answer _ (rw (done, replace_tasks) at e),
                inr (refl, refl),
              )
      ]

  -- The parts of an accepted request.
  delegate_locked_ok :
      (task : DelegateTask) (allow_replace : Bool) (answer : Option String) (s : State r)
      → (delegate_locked r task allow_replace answer s).0 ≡ ok tt
      → (ids : List String) × (get_pending_task_ids_by_inputs task.intent.inputs s.store ≡ ok ids)
        × (Accepted task answer ids s (delegate_locked r task allow_replace answer s).1
            × ((ids ≡ []) ⊎ ((allow_replace ≡ true) × ((cancel_tasks ids s.store).0 ≡ none))))
  unfolding delegate_locked
  delegate_locked_ok task allow_replace answer s e =
      elim (Result-cases (get_pending_task_ids_by_inputs task.intent.inputs s.store)) [
        | inr (x, failed) ↦ cc (rw (failed, delegate_locked) at e)
        | inl (ids, found) ↦ (
          ids,
          found,
          rw (found, delegate_locked)
              (replace_tasks_ok task allow_replace answer ids s (rw (found, delegate_locked) at e)),
        )
      ]

  cancel_found-IsWellFormed :
      (ids : List String) (store : Store)
      → IsWellFormed store
      → IsWellFormed (cancel_found r ids store)
  unfolding cancel_found
  cancel_found-IsWellFormed [] store w = w
  cancel_found-IsWellFormed (id ∷ ids) store w = r.cancel_keeps (id ∷ ids) store w

  -- The new task is alone in what the addition changes.
  Accepted-added :
      (task : DelegateTask) (answer : Option String) (ids : List String) (s s' : State r)
      → CanStore task
      → IsWellFormed s.store
      → Accepted task answer ids s s'
      → (tasks (cancel_found r ids s.store) task.id ≡ none)
        × ((u : DelegateTask) × IsKept task u
            × ((j : String)
                → tasks s'.store j
                  ≡ ite (text_discrete task.id j) (some u) (tasks (cancel_found r ids s.store) j)))
  Accepted-added task answer ids s s' can w (fine, done, here, job) =
      let (fresh, rest) =
        r.add_done task (cancel_found r ids s.store) can (cancel_found-IsWellFormed ids s.store w)
          done in
      let (u, kept, added) = rest in (fresh, (u, kept, λ j. rw here (added j)))

  Accepted-old :
      (task : DelegateTask) (answer : Option String) (ids : List String) (s s' : State r)
      (j : String) (t : DelegateTask)
      → CanStore task
      → IsWellFormed s.store
      → Accepted task answer ids s s'
      → tasks (cancel_found r ids s.store) j ≡ some t
      → tasks s'.store j ≡ some t
  Accepted-old task answer ids s s' j t can w acc e =
      let (fresh, rest) = Accepted-added task answer ids s s' can w acc in
      let (u, kept, added) = rest in
      elim (text_discrete task.id j) [
        | yes same ↦ cc (ap (tasks (cancel_found r ids s.store)) same)
        | no other ↦ rw (added j, if_neg _ other) e
      ]

  -- When the locked part of `Delegate` accepts a task that the store can take, in a well-formed store,
  -- the task stands in the store under its id, with the fields that it was given but for the fraction of a
  -- second of its time, and the scheduler took a job for its registration.
  pub delegate_locked-stores :
      (task : DelegateTask) (allow_replace : Bool) (answer : Option String) (s : State r)
      → CanStore task
      → IsWellFormed s.store
      → (delegate_locked r task allow_replace answer s).0 ≡ ok tt
      → ((u : DelegateTask) × (tasks (delegate_locked r task allow_replace answer s).1.store task.id
            ≡ some u)
          × IsKept task u)
        × ((delegate_locked r task allow_replace answer s).1.scheduled
            ≡ (task.scheduled_at, task.id) ∷ s.scheduled)
        × (answer ≡ none)
  delegate_locked-stores task allow_replace answer s can w e =
      let (ids, found, parts) = delegate_locked_ok task allow_replace answer s e in
      let (acc, how) = parts in
      let (fresh, rest) =
        Accepted-added task answer ids s (delegate_locked r task allow_replace answer s).1 can w
          acc in
      let (u, kept, added) = rest in
      let (fine, done, here, job) = acc in
      ((u, rw (added task.id, if_pos (text_discrete task.id task.id) refl), kept), job, fine)

  -- When the locked part of `Delegate` accepts a task that the store can take, in a well-formed store, every pending task
  -- that spends one of its inputs has been cancelled, which only a client that allows the replacement can bring about.
  pub delegate_locked-replaces :
      (task : DelegateTask) (allow_replace : Bool) (answer : Option String) (s : State r)
      (j : String) (t : DelegateTask)
      → CanStore task
      → IsWellFormed s.store
      → (delegate_locked r task allow_replace answer s).0 ≡ ok tt
      → tasks s.store j ≡ some t
      → is_pending t.status ≡ true
      → overlaps t.intent.inputs task.intent.inputs ≡ true
      → (allow_replace ≡ true)
        × EndsAs cancel
            (tasks s.store j)
            (tasks (delegate_locked r task allow_replace answer s).1.store j)
  delegate_locked-replaces task allow_replace answer s j t can w e shown waits hit =
      let (ids, found, parts) = delegate_locked_ok task allow_replace answer s e in
      let (acc, how) = parts in
      let c = r.by_inputs_complete task.intent.inputs s.store ids j t w found shown waits hit in
      elim how [
        | inl nothing ↦ cc (rw nothing at c)
        | inr (allowed, fine) ↦
            let (t', shown', waits', end) =
              (r.cancel_ends ids s.store w).ended fine j t c shown waits in
            let (u, after, kept) = end in
            (
              allowed,
              (
                t',
                shown',
                waits',
                (
                  u,
                  Accepted-old task answer ids s (delegate_locked r task allow_replace answer s).1 j
                      u can w acc (rw (cancel_found_eq ids s.store j c) after),
                  kept,
                ),
              ),
            )
      ]
    where
      cancel_found_eq :
          (ids : List String) (store : Store) (j : String)
          → contains text_discrete j ids ≡ true
          → cancel_found r ids store ≡ (cancel_tasks ids store).1
      cancel_found_eq [] store j c = cc
      cancel_found_eq (id ∷ ids) store j c = unfold cancel_found in refl

  is_duplicate-cases :
      (task : DelegateTask) (s : State r)
      → ((p : PendingDelegateTask) × (r.get_pending_task_by_intent_txid task.intent.txid s.store
            ≡ ok p)
          × (is_duplicate r task s ≡ true))
        ⊎ (is_duplicate r task s ≡ false)
  unfolding is_duplicate
  is_duplicate-cases task s =
      elim (Result-cases (r.get_pending_task_by_intent_txid task.intent.txid s.store)) [
        | inl (p, found) ↦ inl (p, found, rw (found, is_duplicate))
        | inr (x, missing) ↦ inr (rw (missing, is_duplicate))
      ]

  -- When `Delegate` answers a request without error, a pending task with the intent's txid is in the store:
  -- the new one, or for a duplicate the one that was there. The new task is pending and one that the store
  -- can take, and the store is well formed.
  pub delegate-pending :
      (task : DelegateTask) (allow_replace : Bool) (answer : Option String) (s : State r)
      → CanStore task
      → is_pending task.status ≡ true
      → IsWellFormed s.store
      → (delegate r task allow_replace answer s).0 ≡ ok tt
      → (k : String) × (u : DelegateTask) × (tasks
            (delegate r task allow_replace answer s).1.store
            k
          ≡ some u)
        × (is_pending u.status ≡ true)
        × (u.intent.txid ≡ task.intent.txid)
  unfolding delegate
  delegate-pending task allow_replace answer s can waits w e = elim (is_duplicate-cases task s) [
    | inl (p, found, dup) ↦
        let (t, shown, pending, same) = r.by_intent_txid_done task.intent.txid s.store p w found in
        rw (dup, delegate) (p.id, t, shown, pending, same)
    | inr missing ↦
        let (stored, job, fine) =
          delegate_locked-stores task allow_replace answer s can w (rw (missing, delegate) at e) in
        let (u, shown, kept) = stored in
        rw (missing, delegate)
          (
            task.id,
            u,
            shown,
            ap is_pending kept.same_status ∙ waits,
            ap (λ (x : Intent). x.txid) kept.same_intent,
          )
  ]
