-- ===== src/Subscription/InStep.antt =====
-- The store and the subscription of internal/core/application/subscription.go follow the same
-- scripts.
use fulmine.Base.{
  ◌≡◌, refl, sym, ◌∙◌, subst, Bool, true, false, not, ◌&&◌, ◌||◌, inl, inr, String, List, [], ◌∷◌,
  none, ok, contains, same, same-eq-false, same_refl, text_discrete, if◌then◌else◌, Option-cases,
  Result-cases, Bool-cases, arith, ok-injective, ℕ-cases,
}
use fulmine.Subscription.Store.{ScriptsStore}
use fulmine.Subscription.IndexerClient.{Indexer}
use fulmine.Subscription.{
  Handler, start, new_subscription_handler, update, subscribe, unsubscribe, stop, Op, subscribes,
  unsubscribes, restart, run, run_all,
}

both : {A B : Type 0} {a : A} {c : B} (p : A × B) → p.0 ≡ a → p.1 ≡ c → p ≡ (a, c)
both p e f = λ i. (e i, f i)

or_nothing : (c : Bool) → c || false ≡ c
or_nothing c = ground arith

or_swap : (c h : Bool) → c || h ≡ (h || c) && true
or_swap c h = ground arith

and_from : (c h : Bool) → h && not c ≡ (h || false) && not c
and_from c h = ground arith

module _ (db : ScriptsStore) (ix : Indexer) where
  -- Whether the handler's subscription is for a script.
  unfoldable pub follows : Handler db ix → String → Bool
  follows h k = if same text_discrete h.id "" then false else ix.watches h.indexer h.id k

  pub record InStep (h : Handler db ix) : Type 0 where
    pub valid : db.IsValid h.store
    pub in_step : (k : String) → db.holds h.store k ≡ follows h k

  follows_nothing :
      (h : Handler db ix) (k : String) → same text_discrete h.id "" ≡ true → follows h k ≡ false
  unfolding follows
  follows_nothing h k e = rw e refl

  follows_subscription :
      (h : Handler db ix) (k : String)
      → same text_discrete h.id "" ≡ false
      → follows h k ≡ ix.watches h.indexer h.id k
  unfolding follows
  follows_subscription h k e = rw e refl

  follows_again :
      (h : Handler db ix) (s : db.Store) (k : String)
      → follows h k ≡ follows (record h { store = s }) k
  unfolding follows
  follows_again h s k = refl

  start-InStep :
      (xs : List String) (h : Handler db ix)
      → db.IsValid h.store
      → ((k : String) → db.holds h.store k ≡ contains text_discrete k xs)
      → (start db ix xs h).0 ≡ none
      → InStep (start db ix xs h).1
  unfolding start follows
  start-InStep xs h v law e = elim (Result-cases (ix.new_subscription xs h.indexer).0) [
    | inr (x, failed) ↦ cc (rw (failed, start) at e)
    | inl (id, opened) ↦
        let (there, new) = ix.new_done xs id h.indexer opened in
        let set = same-eq-false text_discrete id "" there in
        rw (opened, start) (record { valid = v; in_step = λ k. law k ∙ sym (new k) ∙ rw set refl })
  ]

  update-InStep :
      (added removed : List String) (h : Handler db ix)
      → db.IsValid h.store
      → same text_discrete h.id "" ≡ false
      → ((k : String)
          → db.holds h.store k
            ≡ (ix.watches h.indexer h.id k || contains text_discrete k added)
              && not (contains text_discrete k removed))
      → (update db ix added removed h).0 ≡ none
      → InStep (update db ix added removed h).1
  unfolding update follows
  update-InStep added removed h v set law e =
      elim (Option-cases (ix.update_subscription h.id added removed h.indexer).0) [
        | inr (x, failed) ↦ cc (rw (failed, update) at e)
        | inl updated ↦
            let new = ix.update_done h.id added removed h.indexer updated in
            record { valid = v; in_step = λ k. law k ∙ sym (new k) ∙ rw set refl }
      ]

  subscribe-InStep :
      (xs : List String) (h : Handler db ix)
      → InStep h
      → (subscribe db ix xs h).0 ≡ none
      → InStep (subscribe db ix xs h).1
  unfolding subscribe
  subscribe-InStep xs h w e =
      let v = db.add_valid xs h.store w.valid in
      let h' : Handler db ix = record h { store = (db.add xs h.store).1 } in
      elim (Option-cases (db.add xs h.store).0.1) [
        | inr (x, failed) ↦ cc (rw (failed, subscribe) at e)
        | inl added ↦ elim (ℕ-cases (db.add xs h.store).0.0) [
          | inl nothing ↦
              rw (added, nothing, subscribe)
                (record {
                  valid = v;
                  in_step = λ k.
                      db.add_same xs h.store (both _ nothing added) k
                      ∙ w.in_step k
                      ∙ follows_again h _ k;
                })
          | inr (n, some_new) ↦ elim (Bool-cases (same text_discrete h.id "")) [
            | inl unset ↦
                rw (added, some_new, unset, subscribe)
                  (start-InStep xs h' v
                    (λ k.
                      db.add_done xs h.store added k
                      ∙ rw (w.in_step k, follows_nothing h k unset) (or_nothing _))
                    (rw (added, some_new, unset, subscribe) at e))
            | inr set ↦
                rw (added, some_new, set, subscribe)
                  (update-InStep xs [] h' v set
                    (λ k.
                      db.add_done xs h.store added k
                      ∙ rw (w.in_step k, follows_subscription h k set)
                          (or_swap (contains text_discrete k xs) (ix.watches h.indexer h.id k)))
                    (rw (added, some_new, set, subscribe) at e))
          ]
        ]
      ]

  unsubscribe-InStep :
      (xs : List String) (h : Handler db ix)
      → InStep h
      → (unsubscribe db ix xs h).0 ≡ none
      → InStep (unsubscribe db ix xs h).1
  unfolding unsubscribe
  unsubscribe-InStep xs h w e =
      let v = db.delete_valid xs h.store w.valid in
      let h' : Handler db ix = record h { store = (db.delete xs h.store).1 } in
      elim (Option-cases (db.delete xs h.store).0.1) [
        | inr (x, failed) ↦ cc (rw (failed, unsubscribe) at e)
        | inl gone ↦ elim (ℕ-cases (db.delete xs h.store).0.0) [
          | inl nothing ↦
              rw (gone, nothing, unsubscribe)
                (record {
                  valid = v;
                  in_step = λ k.
                      db.delete_same xs h.store (both _ nothing gone) k
                      ∙ w.in_step k
                      ∙ follows_again h _ k;
                })
          | inr (n, some_new) ↦ elim (Bool-cases (same text_discrete h.id "")) [
            | inl unset ↦
                rw (gone, some_new, unset, unsubscribe)
                  (record {
                    valid = v;
                    in_step = λ k.
                        db.delete_done xs h.store gone k
                        ∙ rw (w.in_step k, follows_nothing h k unset)
                            (sym (follows_nothing h' k unset));
                  })
            | inr set ↦
                rw (gone, some_new, set, unsubscribe)
                  (update-InStep [] xs h' v set
                    (λ k.
                      db.delete_done xs h.store gone k
                      ∙ rw (w.in_step k, follows_subscription h k set) (and_from _ _))
                    (rw (gone, some_new, set, unsubscribe) at e))
          ]
        ]
      ]

  pub new_subscription_handler-InStep :
      (s : db.Store) (i : ix.State) (h : Handler db ix)
      → db.IsValid s
      → new_subscription_handler db ix s i ≡ ok h
      → InStep h
  unfolding new_subscription_handler
  new_subscription_handler-InStep s i h v e = elim (Result-cases (db.get s)) [
    | inr (x, failed) ↦ cc (rw (failed, new_subscription_handler) at e)
    | inl ([], got) ↦
        subst InStep (ok-injective (rw (got, new_subscription_handler) at e)) (record {
          valid = v;
          in_step = λ k.
              sym (db.get_done s [] v got k)
              ∙ sym (follows_nothing _ k (same_refl text_discrete "" "" refl));
        })
    | inl (x ∷ xs, got) ↦
        let h0 : Handler db ix = record {
          store = s;
          indexer = i;
          close_fn = none;
          cancel_retry = none;
          id = "";
        } in
        elim (Option-cases (start db ix (x ∷ xs) h0).0) [
          | inr (y, failed) ↦ cc (rw (got, failed, new_subscription_handler) at e)
          | inl started ↦
              subst InStep (ok-injective (rw (got, started, new_subscription_handler) at e))
                (start-InStep (x ∷ xs) h0 v (λ k. sym (db.get_done s (x ∷ xs) v got k)) started)
        ]
  ]

  pub stop-store : (h : Handler db ix) → (stop db ix h).store ≡ h.store
  unfolding stop
  stop-store h = elim (Option-cases h.close_fn) [
    | inl unset ↦ rw (unset, stop) refl
    | inr (id, set) ↦ rw (set, stop) refl
  ]

  pub run-InStep :
      (op : Op db ix) (h : Handler db ix)
      → InStep h
      → (run db ix op h).0 ≡ none
      → InStep (run db ix op h).1
  unfolding run
  run-InStep (subscribes xs) h w e = subscribe-InStep xs h w e
  run-InStep (unsubscribes xs) h w e = unsubscribe-InStep xs h w e
  run-InStep restart h w e =
      let h' = stop db ix h in
      let v = subst db.IsValid (sym (stop-store h)) w.valid in
      elim (Result-cases (new_subscription_handler db ix h'.store h'.indexer)) [
        | inr (x, failed) ↦ cc (rw (failed, run) at e)
        | inl (h'', made) ↦ rw (made, run) (new_subscription_handler-InStep _ _ h'' v made)
      ]

  run_all-InStep :
      (ops : List (Op db ix)) (h : Handler db ix)
      → InStep h
      → (run_all db ix ops h).0 ≡ none
      → InStep (run_all db ix ops h).1
  unfolding run_all
  run_all-InStep [] h w e = w
  run_all-InStep (op ∷ ops) h w e = elim (Option-cases (run db ix op h).0) [
    | inr (x, failed) ↦ cc (rw (failed, run_all) at e)
    | inl done ↦
        rw (done, run_all) (run_all-InStep ops _ (run-InStep op h w done) (rw (done, run_all) at e))
  ]
