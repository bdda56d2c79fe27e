-- ===== src/Badger/DelegateRepo/Queries.antt =====
-- The queries of internal/infrastructure/db/badger/delegate_repo.go find the pending tasks that they
-- are asked for.
use fulmine.Base.{
  ◌≡◌, refl, sym, ap, subst, ◌∙◌, true, inl, inr, String, Text, List, [], ◌∷◌, Option, some, ok,
  Result-cases, contains, Any, All, map, text_discrete, arith,
}
use fulmine.Domain.{Outpoint, Intent, DelegateTask, PendingDelegateTask}
use fulmine.Domain.Repository.{is_pending, IsKept, overlaps}
use fulmine.Badger.Hold.{Badgerhold}
use fulmine.Badger.Dto.{
  DelegateTaskDto, OutpointJson, holds, to_outpoint_json, to_delegate_task_data,
}
use fulmine.Badger.Dto.RoundTrip.{IsOutpoint, IsStorable}
use fulmine.Badger.DelegateRepo.{
  tasks, where_pending, pending_of, key_of, ids_with_overlap, get_all_pending,
  get_pending_task_ids_by_inputs, get_pending_task_by_intent_txid,
}
use fulmine.Badger.DelegateRepo.Rows.{IsWellFormed, tasks-eq-some, tasks-row}
use fulmine.Badger.DelegateRepo.Searches.{
  ids_with_overlap-contains, ids_with_overlap-HasKey, first_with_txid_found, overlaps_of_keys,
}

module _ (new_hash : Text → Option Text) where
  module _ (b : Badgerhold DelegateTaskDto) where
    open b use {Store, find, row}

    where_pending-data :
        (t : DelegateTask) → where_pending (to_delegate_task_data t) ≡ is_pending t.status
    unfolding to_delegate_task_data
    where_pending-data t = refl

    data_id : (t : DelegateTask) → (to_delegate_task_data t).id ≡ t.id
    unfolding to_delegate_task_data
    data_id t = refl

    data_inputs :
        (t : DelegateTask) (d : DelegateTaskDto) (os : List OutpointJson)
        → d ≡ to_delegate_task_data t
        → d.input_json ≡ holds os
        → os ≡ map to_outpoint_json t.intent.inputs
    unfolding to_delegate_task_data
    data_inputs t d os e h = cc (ap (λ (x : DelegateTaskDto). x.input_json) e)

    data_intent :
        (t : DelegateTask) (d : DelegateTaskDto) (intent : Intent)
        → d ≡ to_delegate_task_data t
        → d.intent_json ≡ holds intent
        → intent ≡ t.intent
    unfolding to_delegate_task_data
    data_intent t d intent e h = cc (ap (λ (x : DelegateTaskDto). x.intent_json) e)

    -- The row of a pending task is among those that the query gives.
    pending-Any :
        (s : Store) (ds : List DelegateTaskDto) (j : String) (t : DelegateTask)
        → IsWellFormed new_hash b s
        → find where_pending s ≡ ok ds
        → tasks new_hash b s j ≡ some t
        → is_pending t.status ≡ true
        → (t' : DelegateTask) × (t'.id ≡ j)
          × IsKept t' t
          × Any (λ d. d ≡ to_delegate_task_data t') ds
    pending-Any s ds j t w e shown waits =
        let (t', _, at, found, kept, _) = tasks-eq-some new_hash b j s t w shown in
        (
          t',
          at,
          kept,
          b.find_complete where_pending s ds e j _ found
              (where_pending-data t' ∙ sym (ap is_pending kept.same_status) ∙ waits),
        )

    -- And a row that it gives is the row of a pending task.
    Any-pending :
        (s : Store) (ds : List DelegateTaskDto) (d : DelegateTaskDto)
        → IsWellFormed new_hash b s
        → find where_pending s ≡ ok ds
        → Any (λ x. x ≡ d) ds
        → (t u : DelegateTask) × IsStorable new_hash t
          × (d ≡ to_delegate_task_data t)
          × (tasks new_hash b s t.id ≡ some u)
          × IsKept t u
          × (is_pending u.status ≡ true)
    Any-pending s ds d w e a =
        let (waits, at) = b.find_sound where_pending s ds e d a in
        let (k, found) = at in
        let (t, of_row) = w k d found in
        let (good, name, enc) = of_row in
        let (u, shown, kept, _) =
          tasks-row new_hash b t.id s t good (ap (row s) name ∙ found ∙ ap some enc) in
        let status = sym (where_pending-data t) ∙ sym (ap where_pending enc) ∙ waits in
        (t, u, good, enc, shown, kept, ap is_pending kept.same_status ∙ status)

    -- When `GetPendingTaskIDsByInputs` answers, in a well-formed store, the id of every pending task that has
    -- one of the given inputs is in the answer.
    pub by_inputs_complete :
        (ins : List Outpoint) (s : Store) (ids : List String) (j : String) (t : DelegateTask)
        → IsWellFormed new_hash b s
        → get_pending_task_ids_by_inputs new_hash b ins s ≡ ok ids
        → tasks new_hash b s j ≡ some t
        → is_pending t.status ≡ true
        → overlaps t.intent.inputs ins ≡ true
        → contains text_discrete j ids ≡ true
    unfolding get_pending_task_ids_by_inputs
    by_inputs_complete ins s ids j t w e shown waits common =
        elim (Result-cases (find where_pending s)) [
          | inr (x, failed) ↦ cc (rw (failed, get_pending_task_ids_by_inputs) at e)
          | inl (ds, found) ↦
              let (t', at, kept, a) = pending-Any s ds j t w found shown waits in
              let same : ids_with_overlap (map key_of ins) ds ≡ ids = ground arith in
              rw (← same, ← at)
                (ids_with_overlap-contains ins t' ds (rw (← kept.same_intent) common) a)
        ]

    -- When `GetPendingTaskIDsByInputs` answers, in a well-formed store, for inputs that are wire outpoints, every
    -- id in the answer is that of a stored task that is pending and has one of the given inputs.
    pub by_inputs_sound :
        (ins : List Outpoint) (s : Store) (ids : List String) (j : String)
        → All (IsOutpoint new_hash) ins
        → IsWellFormed new_hash b s
        → get_pending_task_ids_by_inputs new_hash b ins s ≡ ok ids
        → contains text_discrete j ids ≡ true
        → (t : DelegateTask) × (tasks new_hash b s j ≡ some t)
          × (is_pending t.status ≡ true)
          × (overlaps t.intent.inputs ins ≡ true)
    unfolding get_pending_task_ids_by_inputs
    by_inputs_sound ins s ids j h w e c = elim (Result-cases (find where_pending s)) [
      | inr (x, failed) ↦ cc (rw (failed, get_pending_task_ids_by_inputs) at e)
      | inl (ds, found) ↦
          let same : ids_with_overlap (map key_of ins) ds ≡ ids = ground arith in
          let (d, a, has) = ids_with_overlap-HasKey (map key_of ins) ds j (rw same c) in
          let (name, keyed) = has in
          let (os, held, hit) = keyed in
          let (t, u, good, enc, shown, kept, waits) = Any-pending s ds d w found a in
          let at : t.id ≡ j =
            sym (data_id t) ∙ sym (ap (λ (x : DelegateTaskDto). x.id) enc) ∙ name in
          let inputs : os ≡ map to_outpoint_json t.intent.inputs = data_inputs t d os enc held in
          (
            u,
            subst (λ k. tasks new_hash b s k ≡ some u) at shown,
            waits,
            rw kept.same_intent (
                overlaps_of_keys new_hash t.intent.inputs ins good.good_inputs h
                  (rw inputs at hit)),
          )
    ]

    Any-map :
        (ds : List DelegateTaskDto) (t : DelegateTask)
        → Any (λ d. d ≡ to_delegate_task_data t) ds
        → Any (λ p. p ≡ pending_of (to_delegate_task_data t)) (map pending_of ds)
    Any-map [] t a = absurd a
    Any-map (d ∷ ds) t (inl e) = inl (ap pending_of e)
    Any-map (d ∷ ds) t (inr a) = inr (Any-map ds t a)

    -- When `GetAllPending` answers, in a well-formed store, every pending task is listed under its id.
    pub all_pending_complete :
        (s : Store) (ps : List PendingDelegateTask) (j : String) (t : DelegateTask)
        → IsWellFormed new_hash b s
        → get_all_pending new_hash b s ≡ ok ps
        → tasks new_hash b s j ≡ some t
        → is_pending t.status ≡ true
        → Any (λ p. p.id ≡ j) ps
    unfolding get_all_pending
    all_pending_complete s ps j t w e shown waits = elim (Result-cases (find where_pending s)) [
      | inr (x, failed) ↦ cc (rw (failed, get_all_pending) at e)
      | inl (ds, found) ↦
          let (t', at, _, a) = pending-Any s ds j t w found shown waits in
          let same : map pending_of ds ≡ ps = ground arith in
          rw (← same) (listed ds t' j at (Any-map ds t' a))
    ]
      where
        listed :
            (ds : List DelegateTaskDto) (t' : DelegateTask) (k : String)
            → t'.id ≡ k
            → Any (λ p. p ≡ pending_of (to_delegate_task_data t')) (map pending_of ds)
            → Any (λ p. p.id ≡ k) (map pending_of ds)
        listed [] t' k at a = absurd a
        listed (d ∷ ds) t' k at (inl q) =
            inl (ap (λ (p : PendingDelegateTask). p.id) q ∙ (data_id t' ∙ at))
        listed (d ∷ ds) t' k at (inr a) = inr (listed ds t' k at a)

    -- When `GetPendingTaskByIntentTxID` answers, in a well-formed store, the task that it names is stored, is
    -- pending, and its intent has the given txid.
    pub by_intent_txid_done :
        (txid : String) (s : Store) (p : PendingDelegateTask)
        → IsWellFormed new_hash b s
        → get_pending_task_by_intent_txid new_hash b txid s ≡ ok p
        → (t : DelegateTask) × (tasks new_hash b s p.id ≡ some t)
          × (is_pending t.status ≡ true)
          × (t.intent.txid ≡ txid)
    unfolding get_pending_task_by_intent_txid
    by_intent_txid_done txid s p w e = elim (Result-cases (find where_pending s)) [
      | inr (x, failed) ↦ cc (rw (failed, get_pending_task_by_intent_txid) at e)
      | inl (ds, found) ↦
          let (d, a, listed, named) =
            first_with_txid_found txid ds p (rw (found, get_pending_task_by_intent_txid) at e) in
          let (intent, held, txid_of) = named in
          let (t, u, good, enc, shown, kept, waits) = Any-pending s ds d w found a in
          let at : t.id ≡ p.id =
            sym (data_id t)
            ∙ sym (ap (λ (x : DelegateTaskDto). x.id) enc)
            ∙ sym (ap (λ (x : PendingDelegateTask). x.id) listed) in
          (
            u,
            subst (λ k. tasks new_hash b s k ≡ some u) at shown,
            waits,
            ap (λ (x : Intent). x.txid) (kept.same_intent ∙ sym (data_intent t d intent enc held))
                ∙ txid_of,
          )
    ]
