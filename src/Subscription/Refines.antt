-- ===== src/Subscription/Refines.antt =====
-- The subscription handler of internal/core/application/subscription.go refines a set of scripts.
use fulmine.Base.{
  ◌≡◌, refl, sym, ◌∙◌, ap, Bool, not, ◌&&◌, ◌||◌, inl, inr, String, List, [], ◌∷◌, none, ok,
  contains, same, text_discrete, Option-cases, Result-cases, Bool-cases, ok-injective, ℕ-cases,
}
use fulmine.Subscription.Store.{ScriptsStore}
use fulmine.Subscription.IndexerClient.{Indexer}
use fulmine.Subscription.{
  Handler, start, new_subscription_handler, subscribe, unsubscribe, stop, Op, subscribes,
  unsubscribes, restart, run, run_all,
}
use fulmine.Subscription.InStep.{
  follows, InStep, run-InStep, stop-store, new_subscription_handler-InStep,
}

module _ (db : ScriptsStore) (ix : Indexer) where
  -- The set of scripts that a sequence of calls asks for, from the set of those asked for before.
  unfoldable pub asked : List (Op db ix) → (String → Bool) → String → Bool
  asked [] set k = set k
  asked (subscribes xs ∷ ops) set k = asked ops (λ j. contains text_discrete j xs || set j) k
  asked (unsubscribes xs ∷ ops) set k =
      asked ops (λ j. set j && not (contains text_discrete j xs)) k
  asked (restart ∷ ops) set k = asked ops set k

  start-store : (xs : List String) (h : Handler db ix) → (start db ix xs h).1.store ≡ h.store
  unfolding start
  start-store xs h = elim (Result-cases (ix.new_subscription xs h.indexer).0) [
    | inr (x, failed) ↦ rw (failed, start) refl
    | inl (id, opened) ↦ rw (opened, start) refl
  ]

  subscribe-holds :
      (xs : List String) (h : Handler db ix)
      → (subscribe db ix xs h).0 ≡ none
      → (k : String)
      → db.holds (subscribe db ix xs h).1.store k
        ≡ contains text_discrete k xs || db.holds h.store k
  unfolding subscribe
  subscribe-holds xs h e k =
      let h' : Handler db ix = record h { store = (db.add xs h.store).1 } in
      elim (Option-cases (db.add xs h.store).0.1) [
        | inr (x, failed) ↦ cc (rw (failed, subscribe) at e)
        | inl added ↦
            let law = db.add_done xs h.store added k in
            elim (ℕ-cases (db.add xs h.store).0.0) [
              | inl nothing ↦ rw (added, nothing, subscribe) law
              | inr (n, some_new) ↦ elim (Bool-cases (same text_discrete h.id "")) [
                | inr set ↦ rw (added, some_new, set, subscribe) law
                | inl unset ↦
                    rw (added, some_new, unset, subscribe)
                      (ap (λ s. db.holds s k) (start-store xs h') ∙ law)
              ]
            ]
      ]

  unsubscribe-holds :
      (xs : List String) (h : Handler db ix)
      → (unsubscribe db ix xs h).0 ≡ none
      → (k : String)
      → db.holds (unsubscribe db ix xs h).1.store k
        ≡ db.holds h.store k && not (contains text_discrete k xs)
  unfolding unsubscribe
  unsubscribe-holds xs h e k = elim (Option-cases (db.delete xs h.store).0.1) [
    | inr (x, failed) ↦ cc (rw (failed, unsubscribe) at e)
    | inl gone ↦
        let law = db.delete_done xs h.store gone k in
        elim (ℕ-cases (db.delete xs h.store).0.0) [
          | inl nothing ↦ rw (gone, nothing, unsubscribe) law
          | inr (n, some_gone) ↦ elim (Bool-cases (same text_discrete h.id "")) [
            | inr set ↦ rw (gone, some_gone, set, unsubscribe) law
            | inl unset ↦ rw (gone, some_gone, unset, unsubscribe) law
          ]
        ]
  ]

  handler-store :
      (s : db.Store) (i : ix.State) (h : Handler db ix)
      → new_subscription_handler db ix s i ≡ ok h
      → h.store ≡ s
  unfolding new_subscription_handler
  handler-store s i h e = elim (Result-cases (db.get s)) [
    | inr (x, failed) ↦ cc (rw (failed, new_subscription_handler) at e)
    | inl ([], got) ↦
        ap (λ x. x.store) (sym (ok-injective (rw (got, new_subscription_handler) at e)))
    | inl (x ∷ xs, got) ↦
        let h0 : Handler db ix = record {
          store = s;
          indexer = i;
          close_fn = none;
          cancel_retry = none;
          id = "";
        } in
        elim (Option-cases (start db ix (x ∷ xs) h0).0) [
          | inr (y, failed) ↦ cc (rw (got, failed, new_subscription_handler) at e)
          | inl started ↦
              ap (λ x. x.store)
                (sym (ok-injective (rw (got, started, new_subscription_handler) at e)))
              ∙ start-store (x ∷ xs) h0
        ]
  ]

  restart-holds :
      (h : Handler db ix)
      → (run db ix restart h).0 ≡ none
      → (k : String) → db.holds (run db ix restart h).1.store k ≡ db.holds h.store k
  unfolding run
  restart-holds h e k =
      let h' = stop db ix h in
      elim (Result-cases (new_subscription_handler db ix h'.store h'.indexer)) [
        | inr (x, failed) ↦ cc (rw (failed, run) at e)
        | inl (h'', made) ↦
            rw (made, run)
              (ap (λ s. db.holds s k) (handler-store _ _ h'' made ∙ stop-store db ix h))
      ]

  asked_again :
      (ops : List (Op db ix)) (a c : String → Bool)
      → ((k : String) → a k ≡ c k)
      → (k : String) → asked ops a k ≡ asked ops c k
  unfolding asked
  asked_again [] a c e k = e k
  asked_again (subscribes xs ∷ ops) a c e k =
      asked_again ops _ _ (λ j. ap (λ x. contains text_discrete j xs || x) (e j)) k
  asked_again (unsubscribes xs ∷ ops) a c e k =
      asked_again ops _ _ (λ j. ap (λ x. x && not (contains text_discrete j xs)) (e j)) k
  asked_again (restart ∷ ops) a c e k = asked_again ops a c e k

  run-asked :
      (op : Op db ix) (ops : List (Op db ix)) (h : Handler db ix)
      → (run db ix op h).0 ≡ none
      → (k : String)
      → asked ops (db.holds (run db ix op h).1.store) k ≡ asked (op ∷ ops) (db.holds h.store) k
  unfolding asked run
  run-asked (subscribes xs) ops h done k = asked_again ops _ _ (subscribe-holds xs h done) k
  run-asked (unsubscribes xs) ops h done k = asked_again ops _ _ (unsubscribe-holds xs h done) k
  run-asked restart ops h done k = asked_again ops _ _ (restart-holds h done) k

  run_all-asked :
      (ops : List (Op db ix)) (h : Handler db ix)
      → InStep db ix h
      → (run_all db ix ops h).0 ≡ none
      → (k : String) → follows db ix (run_all db ix ops h).1 k ≡ asked ops (db.holds h.store) k
  unfolding run_all asked
  run_all-asked [] h w e k = sym (w.in_step k)
  run_all-asked (op ∷ ops) h w e k = elim (Option-cases (run db ix op h).0) [
    | inr (x, failed) ↦ cc (rw (failed, run_all) at e)
    | inl done ↦
        rw (done, run_all)
          (run_all-asked ops _ (run-InStep db ix op h w done) (rw (done, run_all) at e) k
            ∙ run-asked op ops h done k)
  ]

  -- The handler refines a set of scripts: made over a store and taken through any sequence of
  -- `subscribe`, `unsubscribe` and restarts that all succeed, it follows at the indexer exactly the
  -- scripts that the store held at the start, with those subscribed and without those unsubscribed
  -- in that order. The store is valid at the start.
  pub run_all-follows :
      (s : db.Store) (i : ix.State) (h : Handler db ix) (ops : List (Op db ix))
      → db.IsValid s
      → new_subscription_handler db ix s i ≡ ok h
      → (run_all db ix ops h).0 ≡ none
      → (k : String) → follows db ix (run_all db ix ops h).1 k ≡ asked ops (db.holds s) k
  run_all-follows s i h ops v e done k =
      run_all-asked ops h (new_subscription_handler-InStep db ix s i h v e) done k
      ∙ ap (λ x. asked ops (db.holds x) k) (handler-store s i h e)
