-- ===== src/Delegate/Service/Steps.antt =====
-- The steps of `DelegateService` of internal/core/application/delegate_service.go that change its state,
-- and their sequences: calls, timers, events and ticks come in any order, between the sections that
-- the lock guards and the calls on the store that are made without it, each taken as one step.
use fulmine.Base.{◌≡◌, Bool, true, String, List, [], ◌∷◌, Option, Result}
use fulmine.Domain.{Outpoint, DelegateTask}
use fulmine.Domain.Repository.{is_pending, DelegateRepository}
use fulmine.Delegate.Service.{
  RegisteredIntent, ScheduleAnswer, State, delegate_locked, register_intent, on_batch_finalized,
  collect_spent, tick, restore_pending_tasks,
}

-- `registers` has the task that an earlier `pending_to_register` gave, and `finalizes` the intents that an
-- earlier `select_tasks` gave: both may be out of date.
pub data Op : Type 0 where
  accepts : DelegateTask → Bool → Option String → Op
  registers : String → DelegateTask → Result String String → Op
  finalizes : String → List RegisteredIntent → Op
  collects : List Outpoint → Op
  ticks : Op
  restores : List ScheduleAnswer → Op

module _ (r : DelegateRepository) (intent_id_hash : String → String) where
  unfoldable pub run : Op → State r → State r
  run (accepts task allow_replace answer) s = (delegate_locked r task allow_replace answer s).1
  run (registers id task answer) s = (register_intent r intent_id_hash id task answer s).1
  run (finalizes txid selected) s = (on_batch_finalized r intent_id_hash txid selected s).1
  run (collects outpoints) s = collect_spent r outpoints s
  run ticks s = tick r s
  run (restores answers) s = (restore_pending_tasks r answers s).1

  unfoldable pub run_all : List Op → State r → State r
  unfolding run
  run_all [] s = s
  run_all (op ∷ ops) s = run_all ops (run op s)

-- `newDelegateTask` gives a pending task of wire types.
abbrev pub IsAllowed : DelegateRepository → Op → Type 0
IsAllowed r (accepts task allow_replace answer) = r.CanStore task × (is_pending task.status ≡ true)
IsAllowed r (registers id task answer) = Unit
IsAllowed r (finalizes txid selected) = Unit
IsAllowed r (collects outpoints) = Unit
IsAllowed r ticks = Unit
IsAllowed r (restores answers) = Unit
