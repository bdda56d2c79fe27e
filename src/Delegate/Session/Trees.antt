-- ===== src/Delegate/Session/Trees.antt =====
-- Which trees the forfeit transactions of a batch session of
-- internal/core/application/delegate_service.go are connected to.
use fulmine.Base.{
  ◌≡◌, ◌≢◌, refl, sym, subst, ℕ, zero, suc, String, List, [], ◌∷◌, ◌++◌, All, Any, some, inl, inr,
  Option-cases,
}
use fulmine.Domain.Repository.{DelegateRepository}
use fulmine.Delegate.Service.{RegisteredIntent, State, on_batch_finalized}
use fulmine.Delegate.Session.{
  TreeLibrary, BatchEvent, done, closed, batch_finalized, batch_failed, tree_tx, tree_signature,
  tree_signing_started, tree_nonces, batch_finalization, Session, new_session, on_tree_signature,
  on_finalization, Joined, join_delegate_batch,
}
use fulmine.Delegate.Session.Steps.{done_step, failed_step, signed_step, unsigned_step}

-- The event brings the node in a connector batch.
abbrev pub BringsConnector : String → BatchEvent → Type 0
BringsConnector node event = (n : ℕ) × (event ≡ tree_tx (suc n) node)

-- The tree was built of at least one node, and all of them are good.
abbrev pub IsBuiltOf : (lib : TreeLibrary) → (String → Type 0) → lib.TxTree → Type 0
IsBuiltOf lib IsGood tree =
    (nodes : List String) × (nodes ≢ []) × All IsGood nodes × (lib.new_tx_tree nodes ≡ some tree)

-- A connector node of the event is good.
abbrev AllowsGood : (String → Type 0) → BatchEvent → Type 0
AllowsGood IsGood event = (node : String) → BringsConnector node event → IsGood node

All-snoc {ℓ κ} :
    {A : Type ℓ} (P : A → Type κ) (xs : List A) {y : A} → All P xs → P y → All P (xs ++ (y ∷ []))
All-snoc P [] all p = (p, tt)
All-snoc P (x ∷ xs) (h, all) p = (h, All-snoc P xs all p)

module _ (lib : TreeLibrary) (IsGood : String → Type 0) where
  record Built (b : Session lib) : Type 0 where
    nodes_good : All IsGood b.flat_connector_tree
    trees_built : All (λ p. IsBuiltOf lib IsGood p.1) b.submitted

  on_finalization-Built : (b : Session lib) → Built b → Built (on_finalization lib b)
  unfolding on_finalization
  on_finalization-Built b h = from b.flat_connector_tree refl
    where
      from : (nodes : List String) → b.flat_connector_tree ≡ nodes → Built (on_finalization lib b)
      from [] k = rw (k, on_finalization) h
      from (node ∷ nodes) k =
          let all_good = subst (All IsGood) k h.nodes_good in
          elim (Option-cases (lib.new_tx_tree (node ∷ nodes))) [
            | inl none_built ↦
                simp (k, none_built, on_finalization)
                  record { nodes_good = all_good; trees_built = h.trees_built }
            | inr (tree, built) ↦
                simp (k, built, on_finalization)
                  record {
                    nodes_good = all_good;
                    trees_built =
                        All-snoc (λ p. IsBuiltOf lib IsGood p.1) b.submitted h.trees_built
                          (node ∷ nodes, (λ e. cc), all_good, built);
                  }
          ]

  on_tree_signature-Built :
      (event : String) (tree : lib.TxTree) (b : Session lib)
      → Built b
      → Built (on_tree_signature lib event tree b)
  unfolding on_tree_signature
  on_tree_signature-Built event tree b h = elim (Option-cases (lib.sign_vtxo_tree event tree)) [
    | inl k ↦ rw (k, on_tree_signature) h
    | inr (signed, k) ↦
        rw (k, on_tree_signature) record { nodes_good = h.nodes_good; trees_built = h.trees_built }
  ]

  module _ (r : DelegateRepository) (intent_id_hash : String → String)
      (selected : List RegisteredIntent) where
    join_delegate_batch-Built :
        (events : List BatchEvent) (b : Session lib) (s : State r)
        → All (AllowsGood IsGood) events
        → Built b
        → Built (join_delegate_batch r intent_id_hash lib selected events b s).1
    unfolding join_delegate_batch
    join_delegate_batch-Built [] b s ok h = h
    join_delegate_batch-Built (done ∷ events) b s ok h = h
    join_delegate_batch-Built (closed ∷ events) b s ok h = h
    join_delegate_batch-Built (batch_failed answers ∷ events) b s ok h = h
    join_delegate_batch-Built (batch_finalized id ∷ events) b s ok h =
        elim (Option-cases (on_batch_finalized r intent_id_hash id selected s).0) [
          | inl k ↦
              subst (λ (j : Joined r intent_id_hash lib selected). Built j.1)
                (sym (done_step r intent_id_hash lib selected id events b s k)) h
          | inr (_, k) ↦
              subst (λ (j : Joined r intent_id_hash lib selected). Built j.1)
                (sym (failed_step r intent_id_hash lib selected id events b s k))
                (join_delegate_batch-Built events b _ ok.1 h)
        ]
    join_delegate_batch-Built (tree_tx zero node ∷ events) b s ok h =
        join_delegate_batch-Built events _ s ok.1
          record { nodes_good = h.nodes_good; trees_built = h.trees_built }
    join_delegate_batch-Built (tree_tx (suc n) node ∷ events) b s ok h =
        join_delegate_batch-Built events _ s ok.1 record {
          nodes_good = All-snoc IsGood _ h.nodes_good (ok.0 node (n, refl));
          trees_built = h.trees_built;
        }
    join_delegate_batch-Built (tree_signature event ∷ events) b s ok h =
        elim (Option-cases b.vtxo_tree) [
          | inl k ↦
              subst (λ (j : Joined r intent_id_hash lib selected). Built j.1)
                (sym (unsigned_step r intent_id_hash lib selected event events b s k)) h
          | inr (tree, k) ↦
              subst (λ (j : Joined r intent_id_hash lib selected). Built j.1)
                (sym (signed_step r intent_id_hash lib selected event events b s k))
                (join_delegate_batch-Built events _ s ok.1 (on_tree_signature-Built event tree b h))
        ]
    join_delegate_batch-Built (tree_signing_started answer ∷ events) b s ok h =
        join_delegate_batch-Built events _ s ok.1
          record { nodes_good = h.nodes_good; trees_built = h.trees_built }
    join_delegate_batch-Built (tree_nonces answer ∷ events) b s ok h =
        join_delegate_batch-Built events b s ok.1 h
    join_delegate_batch-Built (batch_finalization answer ∷ events) b s ok h =
        join_delegate_batch-Built events _ s ok.1 (on_finalization-Built b h)

All-later :
    (all events : List BatchEvent)
    → ((node : String) → Any (BringsConnector node) events → Any (BringsConnector node) all)
    → All (AllowsGood (λ node. Any (BringsConnector node) all)) events
All-later all [] there = tt
All-later all (e ∷ events) there =
    ((λ node brings. there node (inl brings)), All-later all events (λ node k. there node (inr k)))

-- The loop of `joinDelegateBatch`, started without nodes: each connector tree that it calls
-- `OnBatchFinalization` with is built of at least one node, and each of these nodes came with an event
-- of the stream in a connector batch, one of a batch index other than 0.
pub join_delegate_batch-submits :
    (r : DelegateRepository) (intent_id_hash : String → String) (lib : TreeLibrary)
    (selected : List RegisteredIntent) (events : List BatchEvent) (s : State r)
    → All
        (λ p. IsBuiltOf lib (λ node. Any (BringsConnector node) events) p.1)
        (join_delegate_batch r intent_id_hash lib selected events (new_session lib) s).1.submitted
join_delegate_batch-submits r intent_id_hash lib selected events s =
    (join_delegate_batch-Built lib (λ node. Any (BringsConnector node) events) r intent_id_hash
      selected events (new_session lib) s (All-later events events (λ node k. k))
      record { nodes_good = tt; trees_built = tt }).trees_built
