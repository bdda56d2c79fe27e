-- ===== src/Badger/DelegateRepo/Marks.antt =====
-- `CancelTasks`, `CompleteTasks` and `FailTasks` of
-- internal/infrastructure/db/badger/delegate_repo.go end the pending tasks of their list, and no other.
use fulmine.Base.{
  ◌≡◌, ◌≢◌, refl, sym, ap, subst, ◌∙◌, true, false, ◌⊎◌, inl, inr, String, Text, List, [], ◌∷◌,
  Option, none, some, if_pos, if_neg, ok, Result-cases, Option-cases, Bool-cases, contains,
  text_discrete, arith,
}
use fulmine.Domain.{DelegateTask}
use fulmine.Domain.Repository.{RepoError, is_pending, EndsAs, Ends}
use fulmine.Domain.Ending.{IsEnding}
use fulmine.Badger.Hold.{Badgerhold, ReadsSucceed}
use fulmine.Badger.Dto.{DelegateTaskDto, to_delegate_task_data}
use fulmine.Badger.Dto.RoundTrip.{IsStorable}
use fulmine.Badger.DelegateRepo.{hold_result, tasks, get_by_id, mark_task, mark_tasks}
use fulmine.Badger.DelegateRepo.Rows.{
  IsWellFormed, tasks-eq-some, get_by_id_done, write-IsWellFormed, unmoved-IsWellFormed,
  write-tasks, hold_result-eq-none, task_id, get_by_id_found, tasks_unmoved,
}

module _ (new_hash : Text → Option Text) (b : Badgerhold DelegateTaskDto)
    (f : DelegateTask → DelegateTask) (fe : IsEnding f) where
  open b use {Store, get, update, row}

  IsStorable-ending : (t : DelegateTask) → IsStorable new_hash t → IsStorable new_hash (f t)
  IsStorable-ending t h = record {
    good_inputs = rw (fe.keeps_intent t) h.good_inputs;
    good_forfeits = rw (fe.keeps_forfeits t) h.good_forfeits;
  }

  -- The three ways through a round of the loop.
  data Round (id : String) (s : Store) (r : Option RepoError × Store) : Type 0 where
    skipped :
        r ≡ (none, s)
        → ((t : DelegateTask) → get_by_id new_hash b id s ≡ ok t → is_pending t.status ≡ false)
        → Round id s r
    wrote :
        (t : DelegateTask)
        → get_by_id new_hash b id s ≡ ok t
        → is_pending t.status ≡ true
        → (let done = update id (to_delegate_task_data (f t)) s in r ≡ (hold_result done.0, done.1))
        → Round id s r

  mark_task-Round : (id : String) (s : Store) → Round id s (mark_task new_hash b f id s)
  unfolding mark_task
  mark_task-Round id s = elim (Result-cases (get_by_id new_hash b id s)) [
    | inl (t, got) ↦ elim (Bool-cases (is_pending t.status)) [
      | inl waits ↦ wrote t got waits (rw (got, mark_task, waits))
      | inr over ↦ skipped (rw (got, mark_task, over)) (λ u e. ground arith)
    ]
    | inr (x, missed) ↦ skipped (rw (missed, mark_task)) (λ u e. cc)
  ]

  Round-IsWellFormed :
      (id : String) (s : Store) (r : Option RepoError × Store)
      → Round id s r
      → IsWellFormed new_hash b s
      → IsWellFormed new_hash b r.1
  Round-IsWellFormed id s r (skipped e _) w = rw e w
  Round-IsWellFormed id s r (wrote t got waits e) w =
      let shown = get_by_id_done new_hash b id s t got in
      let (_, _, _, _, _, good) = tasks-eq-some new_hash b id s t w shown in
      let at : (f t).id ≡ id = fe.keeps_id t ∙ task_id new_hash b id s t w shown in
      let new_row = to_delegate_task_data (f t) in
      rw e (elim (Option-cases (update id new_row s).0) [
        | inl done ↦
            write-IsWellFormed new_hash b id (f t) s _ (IsStorable-ending t good) at
              (b.update_done id new_row s done).1 w
        | inr (x, refused) ↦
            unmoved-IsWellFormed new_hash b s _ (b.update_failed id new_row s x refused) w
      ])

  Change : String → Store → Option RepoError × Store → String → Type 0
  Change id s r j =
      (tasks new_hash b r.1 j ≡ tasks new_hash b s j)
      ⊎ ((id ≡ j) × EndsAs f (tasks new_hash b s j) (tasks new_hash b r.1 j))

  -- An update that is done changes the task of its id alone.
  updated :
      (id : String) (s : Store) (t : DelegateTask) (j : String)
      → IsWellFormed new_hash b s
      → get_by_id new_hash b id s ≡ ok t
      → is_pending t.status ≡ true
      → (update id (to_delegate_task_data (f t)) s).0 ≡ none
      → let s' = (update id (to_delegate_task_data (f t)) s).1 in
        ((id ≡ j) × EndsAs f (tasks new_hash b s j) (tasks new_hash b s' j))
        ⊎ ((id ≢ j) × (tasks new_hash b s' j ≡ tasks new_hash b s j))
  updated id s t j w got waits done =
      let shown = get_by_id_done new_hash b id s t got in
      let (_, _, _, _, _, good) = tasks-eq-some new_hash b id s t w shown in
      let new_row = to_delegate_task_data (f t) in
      let (u, kept, after) =
        write-tasks new_hash b id (f t) s _ (IsStorable-ending t good)
          (b.update_done id new_row s done).1 in
      elim (text_discrete id j) [
        | yes same ↦
            inl (same, (t, rw same at shown, waits, (u, rw (after j, if_pos _ same), kept)))
        | no other ↦ inr (other, rw (after j, if_neg _ other))
      ]

  Round-Change :
      (id : String) (s : Store) (r : Option RepoError × Store)
      → Round id s r
      → IsWellFormed new_hash b s
      → (j : String) → Change id s r j
  unfolding Change
  Round-Change id s r (skipped e _) w j = inl (rw e)
  Round-Change id s r (wrote t got waits e) w j =
      let new_row = to_delegate_task_data (f t) in
      rw e (elim (Option-cases (update id new_row s).0) [
        | inl done ↦ elim (updated id s t j w got waits done) [
          | inl (same, ends) ↦ inr (same, ends)
          | inr (other, keeps) ↦ inl keeps
        ]
        | inr (x, refused) ↦
            inl (tasks_unmoved new_hash b s _ (b.update_failed id new_row s x refused) j)
      ])

  Round-EndsAs :
      (id : String) (s : Store) (r : Option RepoError × Store) (t : DelegateTask)
      → ReadsSucceed b
      → Round id s r
      → IsWellFormed new_hash b s
      → r.0 ≡ none
      → tasks new_hash b s id ≡ some t
      → is_pending t.status ≡ true
      → EndsAs f (tasks new_hash b s id) (tasks new_hash b r.1 id)
  Round-EndsAs id s r t reads (skipped _ over) w fine shown waits =
      cc (over t (get_by_id_found new_hash b id s t reads shown), waits)
  Round-EndsAs id s r t reads (wrote u got still e) w fine shown waits =
      let new_row = to_delegate_task_data (f u) in
      let done : (update id new_row s).0 ≡ none =
        hold_result-eq-none new_hash b _
          (sym (ap (λ (x : Option RepoError × Store). x.0) e) ∙ fine) in
      rw e (elim (updated id s u id w got still done) [
        | inl (_, ends) ↦ ends
        | inr (other, _) ↦ absurd (other refl)
      ])

  -- What ended is over, so it does not end again.
  not-EndsAs-twice : {x y z : Option DelegateTask} → EndsAs f x y → EndsAs f y z → ⊥
  not-EndsAs-twice (t, _, _, (u, y, kept)) (t', y', waits, _) =
      let same : u ≡ t' = cc in ground (arith, fe.ends t, kept.same_status, same, waits)

  abbrev LoopChange : List String → Store → Store → String → Type 0
  LoopChange ids s s' j =
      (tasks new_hash b s' j ≡ tasks new_hash b s j)
      ⊎ ((contains text_discrete j ids ≡ true)
          × EndsAs f (tasks new_hash b s j) (tasks new_hash b s' j))

  contains-head :
      (j id : String) (ids : List String) → id ≡ j → contains text_discrete j (id ∷ ids) ≡ true
  contains-head j id ids e = ground arith

  contains-tail :
      (j id : String) (ids : List String)
      → contains text_discrete j ids ≡ true
      → contains text_discrete j (id ∷ ids) ≡ true
  contains-tail j id ids e = ground arith

  -- A round and the rest of the loop.
  then_loop :
      (id : String) (ids : List String) (s s' : Store) (r : Option RepoError × Store) (j : String)
      → Change id s r j
      → LoopChange ids r.1 s' j
      → LoopChange (id ∷ ids) s s' j
  unfolding Change
  then_loop id ids s s' r j (inl same) (inl same') = inl (same' ∙ same)
  then_loop id ids s s' r j (inl same) (inr (c, ends)) =
      inr (contains-tail j id ids c, rw same at ends)
  then_loop id ids s s' r j (inr (e, ends)) (inl same') =
      inr (contains-head j id ids e, rw (← same') at ends)
  then_loop id ids s s' r j (inr (e, ends)) (inr (c, ends')) = absurd (not-EndsAs-twice ends ends')

  pub mark_tasks-IsWellFormed :
      (ids : List String) (s : Store)
      → IsWellFormed new_hash b s
      → IsWellFormed new_hash b (mark_tasks new_hash b f ids s).1
  unfolding mark_tasks
  mark_tasks-IsWellFormed [] s w = w
  mark_tasks-IsWellFormed (id ∷ ids) s w =
      let r = mark_task new_hash b f id s in
      let w' : IsWellFormed new_hash b r.1 = Round-IsWellFormed id s r (mark_task-Round id s) w in
      elim (Option-cases r.0) [
        | inl fine ↦ rw (fine, mark_tasks) (mark_tasks-IsWellFormed ids r.1 w')
        | inr (x, failed) ↦ rw (failed, mark_tasks) w'
      ]

  mark_tasks-LoopChange :
      (ids : List String) (s : Store) (j : String)
      → IsWellFormed new_hash b s
      → LoopChange ids s (mark_tasks new_hash b f ids s).1 j
  unfolding mark_tasks
  mark_tasks-LoopChange [] s j w = inl refl
  mark_tasks-LoopChange (id ∷ ids) s j w =
      let r = mark_task new_hash b f id s in
      let round = mark_task-Round id s in
      let change = Round-Change id s r round w j in
      elim (Option-cases r.0) [
        | inl fine ↦
            rw (fine, mark_tasks)
              (then_loop id ids s _ r j change
                (mark_tasks-LoopChange ids r.1 j (Round-IsWellFormed id s r round w)))
        | inr (x, failed) ↦ rw (failed, mark_tasks) (then_loop id ids s r.1 r j change (inl refl))
      ]

  loop_goes_on :
      (id : String) (ids : List String) (s : Store)
      → (mark_task new_hash b f id s).0 ≡ none
      → mark_tasks new_hash b f (id ∷ ids) s
        ≡ mark_tasks new_hash b f ids (mark_task new_hash b f id s).1
  unfolding mark_tasks
  loop_goes_on id ids s e = rw (e, mark_tasks)

  loop_stops :
      (id : String) (ids : List String) (s : Store) (x : RepoError)
      → (mark_task new_hash b f id s).0 ≡ some x
      → (mark_tasks new_hash b f (id ∷ ids) s).0 ≡ some x
  unfolding mark_tasks
  loop_stops id ids s x e = rw (e, mark_tasks)

  contains-rest :
      (j id : String) (ids : List String)
      → contains text_discrete j (id ∷ ids) ≡ true
      → j ≢ id
      → contains text_discrete j ids ≡ true
  contains-rest j id ids c other = ground arith

  -- After a round without error a task of the list has ended, or it is as before and comes later.
  first-Round :
      (id : String) (ids : List String) (s : Store) (r : Option RepoError × Store) (j : String)
      (t : DelegateTask)
      → ReadsSucceed b
      → Round id s r
      → IsWellFormed new_hash b s
      → r.0 ≡ none
      → contains text_discrete j (id ∷ ids) ≡ true
      → tasks new_hash b s j ≡ some t
      → is_pending t.status ≡ true
      → EndsAs f (tasks new_hash b s j) (tasks new_hash b r.1 j)
        ⊎ ((tasks new_hash b r.1 j ≡ tasks new_hash b s j) × (contains text_discrete j ids ≡ true))
  unfolding Change
  first-Round id ids s r j t reads round w fine c shown waits = elim (text_discrete j id) [
    | yes same ↦ inl (
        subst (λ k. EndsAs f (tasks new_hash b s k) (tasks new_hash b r.1 k)) (sym same)
          (Round-EndsAs id s r t reads round w fine
            (subst (λ k. tasks new_hash b s k ≡ some t) same shown) waits))
    | no other ↦ elim (Round-Change id s r round w j) [
      | inl keeps ↦ inr (keeps, contains-rest j id ids c other)
      | inr (_, ends) ↦ inl ends
    ]
  ]

  -- When the loop of `CancelTasks`, `CompleteTasks` and `FailTasks` returns no error, every pending task of
  -- its list has been ended by the change `f` of the call, and keeps its id, intent, fee and key. The store is
  -- well formed, and a read of a row that is there succeeds.
  pub mark_tasks-EndsAs :
      (ids : List String) (s : Store) (j : String) (t : DelegateTask)
      → ReadsSucceed b
      → IsWellFormed new_hash b s
      → (mark_tasks new_hash b f ids s).0 ≡ none
      → contains text_discrete j ids ≡ true
      → tasks new_hash b s j ≡ some t
      → is_pending t.status ≡ true
      → EndsAs f (tasks new_hash b s j) (tasks new_hash b (mark_tasks new_hash b f ids s).1 j)
  mark_tasks-EndsAs [] s j t reads w fine c shown waits = cc
  mark_tasks-EndsAs (id ∷ ids) s j t reads w fine c shown waits =
      let r = mark_task new_hash b f id s in
      let round = mark_task-Round id s in
      let w' = Round-IsWellFormed id s r round w in
      elim (Option-cases r.0) [
        | inl done ↦
            let on = loop_goes_on id ids s done in
            rw on (elim (first-Round id ids s r j t reads round w done c shown waits) [
              | inl ends ↦ elim (mark_tasks-LoopChange ids r.1 j w') [
                | inl same ↦ rw (← same) at ends
                | inr (_, again) ↦ absurd (not-EndsAs-twice ends again)
              ]
              | inr (keeps, later) ↦ rw keeps at (
                  mark_tasks-EndsAs ids r.1 j t reads w' (rw on at fine) later (keeps ∙ shown)
                    waits)
            ])
        | inr (x, failed) ↦ cc (loop_stops id ids s x failed)
      ]

  -- With or without an error, the loop leaves a task as it is that is not pending or not of its list. The
  -- store is well formed.
  pub mark_tasks-unmoved :
      (ids : List String) (s : Store) (j : String) (t : DelegateTask)
      → IsWellFormed new_hash b s
      → tasks new_hash b s j ≡ some t
      → (is_pending t.status ≡ false) ⊎ (contains text_discrete j ids ≡ false)
      → tasks new_hash b (mark_tasks new_hash b f ids s).1 j ≡ some t
  mark_tasks-unmoved ids s j t w shown why = elim (mark_tasks-LoopChange ids s j w) [
    | inl same ↦ same ∙ shown
    | inr (c, (t', shown', waits, end)) ↦
        let same : t' ≡ t = cc in
        elim why [
          | inl ended ↦ cc (ap (λ (x : DelegateTask). is_pending x.status) same)
          | inr other ↦ cc
        ]
  ]

  -- The loop ends the pending tasks of its list, and changes nothing else.
  pub mark_tasks-Ends :
      (ids : List String) (s : Store)
      → ReadsSucceed b
      → IsWellFormed new_hash b s
      → Ends (tasks new_hash b) f ids s (mark_tasks new_hash b f ids s)
  mark_tasks-Ends ids s reads w = record {
    either = λ j. mark_tasks-LoopChange ids s j w;
    ended = λ fine j t c shown waits. mark_tasks-EndsAs ids s j t reads w fine c shown waits;
  }
