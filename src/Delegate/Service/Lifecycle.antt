-- ===== src/Delegate/Service/Lifecycle.antt =====
-- What becomes of a task after `Delegate` of internal/core/application/delegate_service.go took it: its
-- registration, its batch, the monitor of its inputs, and a restart.
use fulmine.Base.{
  ◌≡◌, refl, sym, subst, ◌∙◌, true, false, inl, inr, String, List, [], ◌∷◌, none, some, if_pos,
  if_neg, ok, err, Option-cases, Result-cases, Bool-cases, All, Any, text_discrete, contains, map,
  arith, if◌then◌else◌,
}
use fulmine.Base.Maps.{get, remove, get-put, get-remove}
use fulmine.Domain.{Outpoint, DelegateTask, PendingDelegateTask}
use fulmine.Domain.Repository.{
  is_pending, EndsAs, overlaps, cancel, complete, fail, DelegateRepository,
}
use fulmine.Domain.Ending.{cancel-IsEnding, Ends-pending, Ends-done}
use fulmine.Delegate.Service.{
  RegisteredIntent, State, schedule_all, restore_pending_tasks, register_intent, select_tasks,
  forget_intents, task_ids, on_batch_finalized, cancel_found, tick,
}
use fulmine.Delegate.Service.Unaffected.{cancel_found-same}

module _ (r : DelegateRepository) where
  open r use {Store, IsWellFormed, tasks, get_pending_task_ids_by_inputs, cancel_tasks}

  cancel_found-pending :
      (ins : List Outpoint) (ids : List String) (store : Store) (j : String) (t : DelegateTask)
      → IsWellFormed store
      → get_pending_task_ids_by_inputs ins store ≡ ok ids
      → (cancel_tasks ids store).0 ≡ none
      → tasks (cancel_found r ids store) j ≡ some t
      → is_pending t.status ≡ true
      → overlaps t.intent.inputs ins ≡ false
  unfolding cancel_found
  cancel_found-pending ins [] store j t w found fine shown waits =
      elim (Bool-cases (overlaps t.intent.inputs ins)) [
        | inr miss ↦ miss
        | inl hit ↦ cc (r.by_inputs_complete ins store [] j t w found shown waits hit)
      ]
  cancel_found-pending ins (id ∷ ids) store j t w found fine shown waits =
      elim (Bool-cases (overlaps t.intent.inputs ins)) [
        | inr miss ↦ miss
        | inl hit ↦
            let ends = r.cancel_ends (id ∷ ids) store w in
            let before =
              Ends-pending tasks cancel cancel-IsEnding (id ∷ ids) store _ ends j t shown waits in
            let c = r.by_inputs_complete ins store (id ∷ ids) j t w found before waits hit in
            cc (Ends-done tasks cancel cancel-IsEnding (id ∷ ids) store _ ends j t fine c shown)
      ]

  -- After a tick of the monitor whose query and whose cancellation succeed, no task is pending that has
  -- one of the outpoints collected since the last tick among its inputs.
  pub tick-cancels :
      (s : State r) (ids : List String) (j : String) (t : DelegateTask)
      → IsWellFormed s.store
      → get_pending_task_ids_by_inputs s.spent s.store ≡ ok ids
      → (cancel_tasks ids s.store).0 ≡ none
      → tasks (tick r s).store j ≡ some t
      → is_pending t.status ≡ true
      → overlaps t.intent.inputs s.spent ≡ false
  unfolding tick
  tick-cancels s ids j t w found fine shown waits =
      cancel_found-pending s.spent ids s.store j t w found fine (rw (found, tick) at shown) waits

  -- A tick of the monitor leaves a task as it is that has none of the collected outpoints among its inputs,
  -- and forgets the outpoints. They are wire outpoints and the store is well formed.
  pub tick-others :
      (s : State r) (j : String) (t : DelegateTask)
      → All r.IsInput s.spent
      → IsWellFormed s.store
      → tasks s.store j ≡ some t
      → overlaps t.intent.inputs s.spent ≡ false
      → (tasks (tick r s).store j ≡ some t) × ((tick r s).spent ≡ [])
  unfolding tick
  tick-others s j t good w shown miss =
      elim (Result-cases (get_pending_task_ids_by_inputs s.spent s.store)) [
        | inr (e, failed) ↦ rw (failed, tick) (shown, refl)
        | inl (ids, found) ↦
            rw (found, tick)
              (cancel_found-same r s.spent ids s.store j t good w found shown miss, refl)
      ]

  schedule_all-keeps :
      (ps : List PendingDelegateTask) (s : State r) (j : String)
      → Any (λ job. job.1 ≡ j) s.scheduled
      → Any (λ job. job.1 ≡ j) (schedule_all r [] ps s).scheduled
  unfolding schedule_all
  schedule_all-keeps [] s j a = a
  schedule_all-keeps (p ∷ ps) s j a = schedule_all-keeps ps _ j (inr a)

  schedule_all-Any :
      (ps : List PendingDelegateTask) (s : State r) (j : String)
      → Any (λ p. p.id ≡ j) ps
      → Any (λ job. job.1 ≡ j) (schedule_all r [] ps s).scheduled
  unfolding schedule_all
  schedule_all-Any [] s j a = absurd a
  schedule_all-Any (p ∷ ps) s j (inl e) = schedule_all-keeps ps _ j (inl e)
  schedule_all-Any (p ∷ ps) s j (inr a) = schedule_all-Any ps _ j a

  -- After a restart whose query succeeds and whose jobs the scheduler takes, every pending task has a job
  -- for its registration. The store is well formed.
  pub restore_pending_tasks-Any :
      (s : State r) (j : String) (t : DelegateTask)
      → IsWellFormed s.store
      → (restore_pending_tasks r [] s).0 ≡ none
      → tasks s.store j ≡ some t
      → is_pending t.status ≡ true
      → Any (λ job. job.1 ≡ j) (restore_pending_tasks r [] s).1.scheduled
  unfolding restore_pending_tasks
  restore_pending_tasks-Any s j t w fine shown waits =
      elim (Result-cases (r.get_all_pending s.store)) [
        | inr (e, failed) ↦ cc (rw (failed, restore_pending_tasks) at fine)
        | inl (ps, found) ↦
            rw (found, restore_pending_tasks)
              (schedule_all-Any ps s j (r.all_pending_complete s.store ps j t w found shown waits))
      ]

  module _ (intent_id_hash : String → String) where
    -- When the server refuses an intent and the failure can be stored, a task that is still pending has failed
    -- with the server's reason, and no intent is registered for it. The store is well formed.
    pub register_intent-fails :
        (id reason : String) (task t : DelegateTask) (s : State r)
        → IsWellFormed s.store
        → (register_intent r intent_id_hash id task (err reason) s).0 ≡ none
        → tasks s.store id ≡ some t
        → is_pending t.status ≡ true
        → EndsAs
            (fail reason)
            (tasks s.store id)
            (tasks (register_intent r intent_id_hash id task (err reason) s).1.store id)
          × ((register_intent r intent_id_hash id task (err reason) s).1.registered ≡ s.registered)
    unfolding register_intent
    register_intent-fails id reason task t s w fine shown waits = (
      (r.fail_ends reason (id ∷ []) s.store w).ended fine id t
          (rw (if_pos (text_discrete id id) refl)) shown waits,
      refl,
    )

    -- An intent that is kept under one of the hashes of a started batch is selected.
    select_tasks-contains :
        (hs : List String) (h : String) (i : RegisteredIntent) (s : State r)
        → contains text_discrete h hs ≡ true
        → get text_discrete h s.registered ≡ some i
        → contains text_discrete i.task_id
            (task_ids r intent_id_hash (select_tasks r intent_id_hash hs s))
          ≡ true
    unfolding select_tasks
    select_tasks-contains [] h i s c e = cc
    select_tasks-contains (g ∷ hs) h i s c e = elim (text_discrete g h) [
      | yes same ↦
          let here : get text_discrete g s.registered ≡ some i =
            subst (λ k. get text_discrete k s.registered ≡ some i) (sym same) e in
          rw (here, select_tasks, if_pos (text_discrete i.task_id i.task_id) refl) refl
      | no other ↦
          let later = select_tasks-contains hs h i s (rw (if_neg _ other) at c) e in
          elim (Option-cases (get text_discrete g s.registered)) [
            | inl missing ↦ rw (missing, select_tasks) later
            | inr (i', found) ↦ rw (found, select_tasks) (ground (arith, later))
          ]
    ]

    -- The life of a task that goes well: the server takes its intent, a batch starts whose hashes have the
    -- intent's, and is finalized. If the completion can be stored, the task, pending until then, is completed
    -- with the batch's commitment transaction. The store is well formed.
    pub register_intent-completes :
        (id intent_id txid : String) (task t : DelegateTask) (hashes : List String) (s : State r)
        → IsWellFormed s.store
        → contains text_discrete (intent_id_hash intent_id) hashes ≡ true
        → tasks s.store id ≡ some t
        → is_pending t.status ≡ true
        → (on_batch_finalized r intent_id_hash txid
            (select_tasks r intent_id_hash hashes
              (register_intent r intent_id_hash id task (ok intent_id) s).1)
            (register_intent r intent_id_hash id task (ok intent_id) s).1).0
          ≡ none
        → EndsAs (complete txid) (tasks s.store id) (
            tasks
              (on_batch_finalized r intent_id_hash txid
                (select_tasks r intent_id_hash hashes
                  (register_intent r intent_id_hash id task (ok intent_id) s).1)
                (register_intent r intent_id_hash id task (ok intent_id) s).1).1.store
              id)
    unfolding register_intent on_batch_finalized
    register_intent-completes id intent_id txid task t hashes s w among shown waits fine =
        (r.complete_ends txid _ s.store w).ended fine id t
          (select_tasks-contains hashes (intent_id_hash intent_id) intent _ among (
            get-put text_discrete (intent_id_hash intent_id) (intent_id_hash intent_id) intent
              s.registered
            ∙ rw (
                if_pos (text_discrete (intent_id_hash intent_id) (intent_id_hash intent_id)) refl)))
          shown waits
      where
        intent : RegisteredIntent
        intent = record { task_id = id; intent_id = intent_id; inputs = task.intent.inputs }

    hashes_of : List RegisteredIntent → List String
    hashes_of = map (λ i. intent_id_hash i.intent_id)

    get-forget_intents :
        (is : List RegisteredIntent) (m : List (String × RegisteredIntent)) (h : String)
        → get text_discrete h (forget_intents r intent_id_hash is m)
          ≡ (if contains text_discrete h (hashes_of is) then none else get text_discrete h m)
    unfolding forget_intents hashes_of
    get-forget_intents [] m h = refl
    get-forget_intents (i ∷ is) m h =
        rw
          (
            get-forget_intents is (remove text_discrete (intent_id_hash i.intent_id) m) h,
            get-remove text_discrete (intent_id_hash i.intent_id) h m,
          )
          (ground arith)

    -- A finished batch forgets exactly the intents that took part in it, whatever the store answers: an intent
    -- is found under a hash afterwards if it was before and the hash is that of no intent of the batch.
    pub on_batch_finalized-forgets :
        (txid : String) (selected : List RegisteredIntent) (s : State r) (h : String)
        → get text_discrete h (on_batch_finalized r intent_id_hash txid selected s).1.registered ≡ (
            if contains text_discrete h (map (λ i. intent_id_hash i.intent_id) selected)
            then none
            else get text_discrete h s.registered)
    unfolding on_batch_finalized hashes_of
    on_batch_finalized-forgets txid selected s h = get-forget_intents selected s.registered h
