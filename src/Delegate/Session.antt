-- ===== src/Delegate/Session.antt =====
-- `joinDelegateBatch` of internal/core/application/delegate_service.go: the loop over the events of a
-- batch, with `OnBatchFailed` of internal/core/application/delegate_batch_handler.go. What the signer's
-- session answers is part of the events; the trees are a library's.
pub mod Outcome
pub mod Steps
pub mod Tests
pub mod Trees
use fulmine.Base.{
  ◌≡◌, ℕ, zero, suc, Bool, true, false, String, List, [], ◌∷◌, ◌++◌, Option, none, some, Result, ok,
  err, if◌then◌else◌,
}
use fulmine.Domain.Repository.{RepoError, DelegateRepository}
use fulmine.Delegate.Service.{RegisteredIntent, State, register_delegate, on_batch_finalized}

-- What the loop calls of ark-lib's tree package, on nodes that are their encodings.
pub record TreeLibrary : Type 1 where
  pub TxTree : Type 0
  pub new_tx_tree : List String → Option TxTree
  -- `signVtxoTree`: the tree with a signature added.
  pub sign_vtxo_tree : String → TxTree → Option TxTree

pub data SessionError : Type 0 where
  context_done stream_closed vtxo_tree_nil batch_failed_error : SessionError

-- An event of the stream, with the answers that its handling gets: those of `RegisterIntent` for each
-- task, of `OnTreeSigningStarted`, of `OnTreeNonces` and of `OnBatchFinalization`.
pub data BatchEvent : Type 0 where
  done closed : BatchEvent
  batch_finalized : String → BatchEvent
  batch_failed : (String → Result String String) → BatchEvent
  tree_tx : ℕ → String → BatchEvent
  tree_signature : String → BatchEvent
  tree_signing_started tree_nonces batch_finalization : Option String → BatchEvent

module _ (lib : TreeLibrary) where
  -- The variables of the loop, and the trees that `OnBatchFinalization` was called with.
  pub record Session : Type 0 where
    pub flat_vtxo_tree : List String
    pub flat_connector_tree : List String
    pub vtxo_tree : Option lib.TxTree
    pub connector_tree : Option lib.TxTree
    pub submitted : List (Option lib.TxTree × lib.TxTree)

  abbrev pub new_session : Session
  new_session = record {
    flat_vtxo_tree = [];
    flat_connector_tree = [];
    vtxo_tree = none;
    connector_tree = none;
    submitted = [];
  }

  unfoldable pub on_tree_tx : ℕ → String → Session → Session
  on_tree_tx zero node s = record s { flat_vtxo_tree = s.flat_vtxo_tree ++ (node ∷ []) }
  on_tree_tx (suc n) node s = record s {
    flat_connector_tree = s.flat_connector_tree ++ (node ∷ []);
  }

  -- The case of `TreeSignatureEvent` with a tree.
  unfoldable pub on_tree_signature : String → lib.TxTree → Session → Session
  on_tree_signature event vtxo_tree s = elim (lib.sign_vtxo_tree event vtxo_tree) [
    | none ↦ s
    | some signed ↦ record s { vtxo_tree = some signed }
  ]

  -- The case of `BatchFinalizationEvent`; its handler's errors are only logged.
  unfoldable pub on_finalization : Session → Session
  on_finalization s = elim s.flat_connector_tree [
    | [] ↦ s
    | node ∷ nodes ↦ elim (lib.new_tx_tree (node ∷ nodes)) [
      | none ↦ record s { connector_tree = none }
      | some tree ↦ record s {
        connector_tree = some tree;
        submitted = s.submitted ++ ((s.vtxo_tree, tree) ∷ []);
      }
    ]
  ]

module _ (r : DelegateRepository) (intent_id_hash : String → String) where
  -- `OnBatchFailed`: the tasks are registered again, and an error of that is only logged.
  unfoldable pub on_batch_failed :
      (String → Result String String) → List RegisteredIntent → State r → State r
  unfolding register_delegate
  on_batch_failed answers [] s = s
  on_batch_failed answers (i ∷ is) s =
      on_batch_failed answers is
        (register_delegate r intent_id_hash i.task_id (answers i.task_id) s).1

  module _ (lib : TreeLibrary) (selected : List RegisteredIntent) where
    abbrev pub Joined : Type 0
    Joined = Option (Result SessionError String) × Session lib × State r

    -- The loop; no result says that it waits for more events.
    unfoldable pub join_delegate_batch : List BatchEvent → Session lib → State r → Joined
    unfolding on_batch_failed on_tree_tx on_tree_signature on_finalization on_batch_finalized
    join_delegate_batch [] b s = (none, b, s)
    join_delegate_batch (done ∷ events) b s = (some (err context_done), b, s)
    join_delegate_batch (closed ∷ events) b s = (some (err stream_closed), b, s)
    join_delegate_batch (batch_finalized txid ∷ events) b s =
        let (e, s') = on_batch_finalized r intent_id_hash txid selected s in
        elim e [ none ↦ (some (ok txid), b, s') | some _ ↦ join_delegate_batch events b s' ]
    join_delegate_batch (batch_failed answers ∷ events) b s =
        (some (err batch_failed_error), b, on_batch_failed answers selected s)
    join_delegate_batch (tree_tx index node ∷ events) b s =
        join_delegate_batch events (on_tree_tx lib index node b) s
    join_delegate_batch (tree_signature event ∷ events) b s = elim b.vtxo_tree [
      | none ↦ (some (err vtxo_tree_nil), b, s)
      | some tree ↦ join_delegate_batch events (on_tree_signature lib event tree b) s
    ]
    join_delegate_batch (tree_signing_started answer ∷ events) b s =
        join_delegate_batch events (record b { vtxo_tree = lib.new_tx_tree b.flat_vtxo_tree }) s
    join_delegate_batch (tree_nonces answer ∷ events) b s = join_delegate_batch events b s
    join_delegate_batch (batch_finalization answer ∷ events) b s =
        join_delegate_batch events (on_finalization lib b) s
