-- ===== src/Delegate/Session/Steps.antt =====
-- How the loop of `joinDelegateBatch` of internal/core/application/delegate_service.go goes on after an
-- event whose handling has two outcomes.
use fulmine.Base.{◌≡◌, String, List, ◌∷◌, none, some, ok, err}
use fulmine.Domain.Repository.{RepoError, DelegateRepository}
use fulmine.Delegate.Service.{RegisteredIntent, State, on_batch_finalized}
use fulmine.Delegate.Session.{
  TreeLibrary, vtxo_tree_nil, BatchEvent, batch_finalized, tree_signature, Session,
  on_tree_signature, join_delegate_batch,
}

module _ (r : DelegateRepository) (intent_id_hash : String → String) (lib : TreeLibrary)
    (selected : List RegisteredIntent) where
  pub done_step :
      (id : String) (events : List BatchEvent) (b : Session lib) (s : State r)
      → (on_batch_finalized r intent_id_hash id selected s).0 ≡ none
      → join_delegate_batch r intent_id_hash lib selected (batch_finalized id ∷ events) b s
        ≡ (some (ok id), b, (on_batch_finalized r intent_id_hash id selected s).1)
  unfolding join_delegate_batch
  done_step id events b s k = rw (k, join_delegate_batch)

  pub failed_step :
      (id : String) (events : List BatchEvent) (b : Session lib) (s : State r) {e : RepoError}
      → (on_batch_finalized r intent_id_hash id selected s).0 ≡ some e
      → join_delegate_batch r intent_id_hash lib selected (batch_finalized id ∷ events) b s
        ≡ join_delegate_batch r intent_id_hash lib selected events b
            (on_batch_finalized r intent_id_hash id selected s).1
  unfolding join_delegate_batch
  failed_step id events b s k = rw (k, join_delegate_batch)

  pub signed_step :
      (event : String) (events : List BatchEvent) (b : Session lib) (s : State r)
      {tree : lib.TxTree}
      → b.vtxo_tree ≡ some tree
      → join_delegate_batch r intent_id_hash lib selected (tree_signature event ∷ events) b s
        ≡ join_delegate_batch r intent_id_hash lib selected events
            (on_tree_signature lib event tree b)
            s
  unfolding join_delegate_batch
  signed_step event events b s k = simp (k, join_delegate_batch)

  pub unsigned_step :
      (event : String) (events : List BatchEvent) (b : Session lib) (s : State r)
      → b.vtxo_tree ≡ none
      → join_delegate_batch r intent_id_hash lib selected (tree_signature event ∷ events) b s
        ≡ (some (err vtxo_tree_nil), b, s)
  unfolding join_delegate_batch
  unsigned_step event events b s k = simp (k, join_delegate_batch)
