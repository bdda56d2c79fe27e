-- ===== src/Delegate/Session/Outcome.antt =====
-- What a batch session of internal/core/application/delegate_service.go does to the tasks it selected.
use fulmine.Base.{
  ◌≡◌, ◌≢◌, refl, sym, ap, ◌∙◌, subst, true, String, List, [], ◌∷◌, Any, Option, none, some, Result,
  ok, err, ◌⊎◌, inl, inr, Option-cases, Result-cases, contains, text_discrete,
}
use fulmine.Domain.{DelegateTask}
use fulmine.Domain.Repository.{DelegateRepository, is_pending, complete, EndsAs}
use fulmine.Domain.Ending.{Evolves}
use fulmine.Delegate.Service.{
  RegisteredIntent, State, on_batch_finalized, register_delegate, pending_to_register, task_ids,
}
use fulmine.Delegate.Service.Sound.{IsSound, IsSound-refl, IsSound-trans, complete_tasks-IsSound}
use fulmine.Delegate.Service.Invariant.{register_intent-IsSound}
use fulmine.Delegate.Session.{
  TreeLibrary, SessionError, context_done, stream_closed, vtxo_tree_nil, batch_failed_error,
  BatchEvent, done, closed, batch_finalized, batch_failed, tree_tx, tree_signature,
  tree_signing_started, tree_nonces, batch_finalization, Session, on_batch_failed, Joined,
  join_delegate_batch,
}
use fulmine.Delegate.Session.Steps.{done_step, failed_step, signed_step, unsigned_step}

-- The event is a finalized batch, with whose transaction the task was completed.
abbrev pub CompletedBy : Option DelegateTask → Option DelegateTask → BatchEvent → Type 0
CompletedBy before after event =
    (x : String) × (event ≡ batch_finalized x) × EndsAs (complete x) before after

moved :
    {f : DelegateTask → DelegateTask} {a b a' b' : Option DelegateTask}
    → EndsAs f a b
    → a ≡ a'
    → b ≡ b'
    → EndsAs f a' b'
moved (t, shown, waits, (u, after, kept)) p q = (t, sym p ∙ shown, waits, (u, sym q ∙ after, kept))

-- A task that is completed stays as it is.
stays : (x : String) {a b c : Option DelegateTask} → EndsAs (complete x) a b → Evolves b c → c ≡ b
unfolding complete
stays x (t, shown, waits, (u, after, kept)) evolves =
    let (v, end, later) = evolves u after in
    end ∙ ap some (later.later_ended (rw (kept.same_status) refl)) ∙ sym after

module _ (r : DelegateRepository) (intent_id_hash : String → String) where
  open r use {Store, IsWellFormed, tasks}

  register_delegate-IsSound :
      (id : String) (answer : Result String String) (s : State r)
      → IsWellFormed s.store
      → IsSound r s.store (register_delegate r intent_id_hash id answer s).1.store
  unfolding register_delegate
  register_delegate-IsSound id answer s w = elim (Result-cases (pending_to_register r id s)) [
    | inl (none, k) ↦ rw (k, register_delegate) (IsSound-refl r s.store w)
    | inl (some task, k) ↦
        rw (k, register_delegate) (register_intent-IsSound r intent_id_hash id task answer s w)
    | inr (e, k) ↦ rw (k, register_delegate) (IsSound-refl r s.store w)
  ]

  on_batch_failed-IsSound :
      (answers : String → Result String String) (is : List RegisteredIntent) (s : State r)
      → IsWellFormed s.store
      → IsSound r s.store (on_batch_failed r intent_id_hash answers is s).store
  unfolding on_batch_failed
  on_batch_failed-IsSound answers [] s w = IsSound-refl r s.store w
  on_batch_failed-IsSound answers (i ∷ is) s w =
      let first = register_delegate-IsSound i.task_id (answers i.task_id) s w in
      IsSound-trans r _ _ _ first (on_batch_failed-IsSound answers is _ first.well_formed)

  module _ (lib : TreeLibrary) (selected : List RegisteredIntent) where
    on_batch_finalized-IsSound :
        (txid : String) (s : State r)
        → IsWellFormed s.store
        → IsSound r s.store (on_batch_finalized r intent_id_hash txid selected s).1.store
    unfolding on_batch_finalized
    on_batch_finalized-IsSound txid s w = complete_tasks-IsSound r txid _ s.store w

    join_delegate_batch-IsSound :
        (events : List BatchEvent) (b : Session lib) (s : State r)
        → IsWellFormed s.store
        → IsSound r s.store (join_delegate_batch r intent_id_hash lib selected events b s).2.store
    unfolding join_delegate_batch
    join_delegate_batch-IsSound [] b s w = IsSound-refl r s.store w
    join_delegate_batch-IsSound (done ∷ events) b s w = IsSound-refl r s.store w
    join_delegate_batch-IsSound (closed ∷ events) b s w = IsSound-refl r s.store w
    join_delegate_batch-IsSound (batch_failed answers ∷ events) b s w =
        on_batch_failed-IsSound answers selected s w
    join_delegate_batch-IsSound (batch_finalized id ∷ events) b s w =
        let here = on_batch_finalized-IsSound id s w in
        elim (Option-cases (on_batch_finalized r intent_id_hash id selected s).0) [
          | inl k ↦
              subst (λ (j : Joined r intent_id_hash lib selected). IsSound r s.store j.2.store)
                (sym (done_step r intent_id_hash lib selected id events b s k)) here
          | inr (_, k) ↦
              subst (λ (j : Joined r intent_id_hash lib selected). IsSound r s.store j.2.store)
                (sym (failed_step r intent_id_hash lib selected id events b s k))
                (IsSound-trans r _ _ _ here
                  (join_delegate_batch-IsSound events b _ here.well_formed))
        ]
    join_delegate_batch-IsSound (tree_tx index node ∷ events) b s w =
        join_delegate_batch-IsSound events _ s w
    join_delegate_batch-IsSound (tree_signature event ∷ events) b s w =
        elim (Option-cases b.vtxo_tree) [
          | inl k ↦
              subst (λ (j : Joined r intent_id_hash lib selected). IsSound r s.store j.2.store)
                (sym (unsigned_step r intent_id_hash lib selected event events b s k))
                (IsSound-refl r s.store w)
          | inr (_, k) ↦
              subst (λ (j : Joined r intent_id_hash lib selected). IsSound r s.store j.2.store)
                (sym (signed_step r intent_id_hash lib selected event events b s k))
                (join_delegate_batch-IsSound events _ s w)
        ]
    join_delegate_batch-IsSound (tree_signing_started answer ∷ events) b s w =
        join_delegate_batch-IsSound events _ s w
    join_delegate_batch-IsSound (tree_nonces answer ∷ events) b s w =
        join_delegate_batch-IsSound events b s w
    join_delegate_batch-IsSound (batch_finalization answer ∷ events) b s w =
        join_delegate_batch-IsSound events _ s w

    module _ (id : String) (t : DelegateTask) (txid : String)
        (among : contains text_discrete id (task_ids r intent_id_hash selected) ≡ true)
        (waits : is_pending t.status ≡ true) where
      none_ne : ◌≢◌ {A = Option (Result SessionError String)} none (some (ok txid))
      none_ne e = cc

      err_ne :
          (e : SessionError)
          → ◌≢◌ {A = Option (Result SessionError String)} (some (err e)) (some (ok txid))
      err_ne e k = cc

      completes :
          (x : String) (s : State r)
          → IsWellFormed s.store
          → (on_batch_finalized r intent_id_hash x selected s).0 ≡ none
          → tasks s.store id ≡ some t
          → EndsAs
              (complete x)
              (tasks s.store id)
              (tasks (on_batch_finalized r intent_id_hash x selected s).1.store id)
      unfolding on_batch_finalized
      completes x s w k shown = (r.complete_ends x _ s.store w).ended k id t among shown waits

      attempt :
          (x : String) (s : State r)
          → IsWellFormed s.store
          → (let s' = (on_batch_finalized r intent_id_hash x selected s).1 in
              (tasks s'.store id ≡ tasks s.store id)
              ⊎ EndsAs (complete x) (tasks s.store id) (tasks s'.store id))
      unfolding on_batch_finalized
      attempt x s w = elim ((r.complete_ends x _ s.store w).either id) [
        | inl same ↦ inl same
        | inr (_, ends) ↦ inr ends
      ]

      completing :
          (events : List BatchEvent) (b : Session lib) (s : State r)
          {fin : Joined r intent_id_hash lib selected}
          → join_delegate_batch r intent_id_hash lib selected events b s ≡ fin
          → fin.0 ≡ some (ok txid)
          → IsWellFormed s.store
          → tasks s.store id ≡ some t
          → Any (CompletedBy (some t) (tasks fin.2.store id)) events
      unfolding join_delegate_batch
      completing [] b s e fine w shown = absurd (none_ne (ap (λ j. j.0) e ∙ fine))
      completing (done ∷ events) b s e fine w shown =
          absurd (err_ne context_done (ap (λ j. j.0) e ∙ fine))
      completing (closed ∷ events) b s e fine w shown =
          absurd (err_ne stream_closed (ap (λ j. j.0) e ∙ fine))
      completing (batch_failed answers ∷ events) b s e fine w shown =
          absurd (err_ne batch_failed_error (ap (λ j. j.0) e ∙ fine))
      completing (batch_finalized x ∷ events) b s {fin} e fine w shown =
          elim (Option-cases (on_batch_finalized r intent_id_hash x selected s).0) [
            | inl k ↦
                let step = sym (done_step r intent_id_hash lib selected x events b s k) ∙ e in
                inl (
                  x,
                  refl,
                  moved (completes x s w k shown) shown (ap (λ j. tasks j.2.store id) step),
                )
            | inr (_, k) ↦
                let step = sym (failed_step r intent_id_hash lib selected x events b s k) ∙ e in
                let here = on_batch_finalized-IsSound x s w in
                elim (attempt x s w) [
                  | inl same ↦ inr (completing events b _ step fine here.well_formed (same ∙ shown))
                  | inr ends ↦
                      let later = join_delegate_batch-IsSound events b _ here.well_formed in
                      inl (
                        x,
                        refl,
                        moved ends shown (
                            sym (stays x ends (later.evolves id))
                            ∙ ap (λ j. tasks j.2.store id) step),
                      )
                ]
          ]
      completing (tree_tx index node ∷ events) b s e fine w shown =
          inr (completing events _ s e fine w shown)
      completing (tree_signature event ∷ events) b s e fine w shown =
          elim (Option-cases b.vtxo_tree) [
            | inl k ↦ absurd (
                err_ne vtxo_tree_nil (
                  ap (λ j. j.0)
                    (sym (unsigned_step r intent_id_hash lib selected event events b s k) ∙ e)
                  ∙ fine))
            | inr (_, k) ↦ inr (
                completing events _ s
                  (sym (signed_step r intent_id_hash lib selected event events b s k) ∙ e) fine w
                  shown)
          ]
      completing (tree_signing_started answer ∷ events) b s e fine w shown =
          inr (completing events _ s e fine w shown)
      completing (tree_nonces answer ∷ events) b s e fine w shown =
          inr (completing events b s e fine w shown)
      completing (batch_finalization answer ∷ events) b s e fine w shown =
          inr (completing events _ s e fine w shown)

    -- The loop of `joinDelegateBatch`, from any state with a well-formed store, with no other step of the
    -- service in between: when it returns a transaction, every task of the selected ones that was pending
    -- at the start is completed at the end, with the transaction of a finalized batch of the events; what
    -- else the task has is as before.
    pub join_delegate_batch-completes :
        (events : List BatchEvent) (b : Session lib) (s : State r) (id txid : String)
        (t : DelegateTask)
        → IsWellFormed s.store
        → contains text_discrete id (task_ids r intent_id_hash selected) ≡ true
        → tasks s.store id ≡ some t
        → is_pending t.status ≡ true
        → (join_delegate_batch r intent_id_hash lib selected events b s).0 ≡ some (ok txid)
        → Any
            (CompletedBy
              (some t)
              (tasks (join_delegate_batch r intent_id_hash lib selected events b s).2.store id))
            events
    join_delegate_batch-completes events b s id txid t w among shown waits fine =
        completing id t txid among waits events b s refl fine w shown
