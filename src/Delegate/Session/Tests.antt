-- ===== src/Delegate/Session/Tests.antt =====
-- Examples for the batch session of internal/core/application/delegate_service.go, over the store of
-- internal/infrastructure/db/badger.
use fulmine.Base.{text_discrete}
use fulmine.Badger.Memory.{update_row}
use fulmine.Badger.Dto.{to_delegate_task_data}
use fulmine.Badger.Dto.{to_delegate_task}
use fulmine.Badger.Memory.{no_rows}
use fulmine.Badger.Memory.{insert_row}
use fulmine.Badger.DelegateRepo.{add}
use fulmine.Badger.Memory.{get_row}
use fulmine.Badger.Memory.{memory}
use fulmine.Badger.DelegateRepo.{get_by_id}
use fulmine.Badger.DelegateRepo.{mark_task}
use fulmine.Base.{◌≡◌, refl, String, List, [], ◌∷◌, none, some, ok, err, Any, All}
use fulmine.Domain.Repository.{DelegateRepository}
use fulmine.Badger.Memory.{memory-ReadsSucceed}
use fulmine.Badger.DelegateRepo.Instance.{badger_repository}
use fulmine.Badger.Tests.{
  new_hash, rows, one_row, one_row-IsWellFormed, tasks_one, first_task, coin_a,
}
use fulmine.Delegate.Service.{RegisteredIntent, State}
use fulmine.Delegate.Session.{
  TreeLibrary, BatchEvent, batch_finalized, tree_tx, tree_signature, tree_signing_started,
  tree_nonces, batch_finalization, vtxo_tree_nil, new_session, join_delegate_batch,
}
use fulmine.Delegate.Session.Outcome.{CompletedBy, join_delegate_batch-completes}
use fulmine.Delegate.Session.Trees.{BringsConnector, IsBuiltOf, join_delegate_batch-submits}

abbrev repo : DelegateRepository
repo = badger_repository new_hash rows memory-ReadsSucceed

abbrev hash : String → String
hash = λ s. s

-- A tree is its nodes.
abbrev trees : TreeLibrary
trees = record {
  TxTree = List String;
  new_tx_tree = λ nodes. some nodes;
  sign_vtxo_tree = λ event tree. some (event ∷ tree);
}

abbrev waiting : State repo
unfolding badger_repository
waiting = record { store = one_row; registered = []; scheduled = []; spent = [] }

abbrev selected : List RegisteredIntent
selected = record { task_id = "1"; intent_id = "i"; inputs = coin_a ∷ [] } ∷ []

-- The events of a batch that goes well.
abbrev events : List BatchEvent
events =
    tree_tx 0 "v"
    ∷ tree_tx 1 "c"
    ∷ tree_signing_started none
    ∷ tree_nonces none
    ∷ tree_signature "s"
    ∷ batch_finalization none
    ∷ batch_finalized "t"
    ∷ []

returns :
    (join_delegate_batch repo hash trees selected events (new_session trees) waiting).0
    ≡ some (ok "t")
unfolding join_delegate_batch badger_repository mark_task get_by_id memory get_row add insert_row
    no_rows to_delegate_task to_delegate_task_data update_row
returns = refl

submits :
    (join_delegate_batch repo hash trees selected events (new_session trees) waiting).1.submitted
    ≡ (some ("s" ∷ "v" ∷ []), "c" ∷ []) ∷ []
unfolding join_delegate_batch badger_repository mark_task get_by_id memory get_row add insert_row
    no_rows to_delegate_task to_delegate_task_data update_row
submits = refl

-- A signature before the tree ends the session.
signed_too_early :
    (join_delegate_batch repo hash trees selected
      (tree_signature "s" ∷ [])
      (new_session trees)
      waiting).0
    ≡ some (err vtxo_tree_nil)
unfolding join_delegate_batch
signed_too_early = refl

waiting-IsWellFormed : repo.IsWellFormed waiting.store
unfolding badger_repository waiting
waiting-IsWellFormed = one_row-IsWellFormed

waiting-tasks : repo.tasks waiting.store "1" ≡ some first_task
unfolding badger_repository waiting
waiting-tasks = tasks_one

join_delegate_batch-completes_example :
    Any
      (CompletedBy (some first_task) (
        repo.tasks
          (join_delegate_batch repo hash trees selected events (new_session trees) waiting).2.store
          "1"))
      events
unfolding text_discrete
join_delegate_batch-completes_example =
    join_delegate_batch-completes repo hash trees selected events (new_session trees) waiting "1"
      "t" first_task waiting-IsWellFormed refl waiting-tasks refl returns

join_delegate_batch-submits_example :
    All
      (λ p. IsBuiltOf trees (λ node. Any (BringsConnector node) events) p.1)
      (join_delegate_batch repo hash trees selected events (new_session trees) waiting).1.submitted
join_delegate_batch-submits_example =
    join_delegate_batch-submits repo hash trees selected events waiting
