-- ===== src/Delegate/Batch/Collecting.antt =====
-- Which forfeit transactions `submitForfeitTxs` of internal/core/application/delegate_batch_handler.go collects.
use fulmine.Base.{
  ◌≡◌, refl, sym, ap, subst, ◌∙◌, ◌⊎◌, inl, inr, true, false, String, List, [], ◌∷◌, ◌++◌, Option,
  none, some, ok, or_fail-eq-ok, bind-eq-ok, ok-injective, Bool-cases, Option-cases, Result-cases,
  Any, contains, text_discrete, if_neg,
}
use fulmine.Base.Maps.{get}
use fulmine.Domain.{Outpoint, outpoint_discrete, DelegateTask}
use fulmine.Domain.Repository.{DelegateRepository}
use fulmine.Delegate.Forfeit.{Packet}
use fulmine.Delegate.Batch.{Coin, forfeit_unreadable, forfeits_of_coins, collect_forfeits}

Any-append : {A : Type 0} (P : A → Type 0) (xs ys : List A) → Any P xs ⊎ Any P ys → Any P (xs ++ ys)
Any-append P [] ys (inl a) = absurd a
Any-append P [] ys (inr a) = a
Any-append P (x ∷ xs) ys (inl (inl p)) = inl p
Any-append P (x ∷ xs) ys (inl (inr a)) = inr (Any-append P xs ys (inl a))
Any-append P (x ∷ xs) ys (inr a) = inr (Any-append P xs ys (inr a))

module _ (decode : String → Option Packet) where
  -- One coin adds at most one forfeit transaction in front.
  data CoinStep (txs : List (Outpoint × String)) (c : Coin) (fs rest : List Packet) : Type 0 where
    passed :
        ((o : Outpoint) (tx : String)
          → c.recoverable ≡ false
          → c.outpoint ≡ some o
          → get outpoint_discrete o txs ≡ some tx
          → ⊥)
        → fs ≡ rest
        → CoinStep txs c fs rest
    added :
        (o : Outpoint) (tx : String) (f : Packet)
        → c.recoverable ≡ false
        → c.outpoint ≡ some o
        → get outpoint_discrete o txs ≡ some tx
        → decode tx ≡ some f
        → fs ≡ f ∷ rest
        → CoinStep txs c fs rest

  clash : {tx : String} → none ≡ some tx → ⊥
  clash e = cc

  coin_step :
      (txs : List (Outpoint × String)) (c : Coin) (cs : List Coin) (fs : List Packet)
      → forfeits_of_coins decode txs (c ∷ cs) ≡ ok fs
      → (rest : List Packet) × (forfeits_of_coins decode txs cs ≡ ok rest) × CoinStep txs c fs rest
  unfolding forfeits_of_coins
  coin_step txs c cs fs h = elim (Bool-cases c.recoverable) [
    | inl gone ↦ (fs, rw (gone, forfeits_of_coins) at h, passed (λ o tx r a b. cc) refl)
    | inr live ↦ elim (Option-cases c.outpoint) [
      | inl unreadable ↦
          (fs, rw (live, unreadable, forfeits_of_coins) at h, passed (λ o tx r a b. cc) refl)
      | inr (o, at) ↦ elim (Option-cases (get outpoint_discrete o txs)) [
        | inl missing ↦ (
          fs,
          rw (live, at, missing, forfeits_of_coins) at h,
          passed (λ o' tx r a b. not_there o o' tx at a missing b) refl,
        )
        | inr (tx, there) ↦
            let (f, e1, h1) =
              or_fail-eq-ok (decode tx) forfeit_unreadable _ fs
                (rw (live, at, there, forfeits_of_coins) at h) in
            let (rest, e2, h2) = bind-eq-ok (forfeits_of_coins decode txs cs) _ fs h1 in
            (rest, e2, added o tx f live at there e1 (sym (ok-injective h2)))
      ]
    ]
  ]
    where
      not_there :
          (o o' : Outpoint) (tx : String)
          → c.outpoint ≡ some o
          → c.outpoint ≡ some o'
          → get outpoint_discrete o txs ≡ none
          → get outpoint_discrete o' txs ≡ some tx
          → ⊥
      not_there o o' tx a b c d =
          let same : o ≡ o' = cc in clash (sym c ∙ (ap (λ x. get outpoint_discrete x txs) same ∙ d))

  -- A coin that is not recoverable and whose outpoint has a forfeit transaction, which is read as a packet.
  abbrev pub Yields : List (Outpoint × String) → Packet → Coin → Type 0
  Yields txs f c =
      (o : Outpoint) × (tx : String) × (c.recoverable ≡ false)
      × (c.outpoint ≡ some o)
      × (get outpoint_discrete o txs ≡ some tx)
      × (decode tx ≡ some f)

  step-Any :
      (txs : List (Outpoint × String)) (c : Coin) (fs rest : List Packet) (f : Packet)
      → CoinStep txs c fs rest
      → Yields txs f c ⊎ Any (λ x. x ≡ f) rest
      → Any (λ x. x ≡ f) fs
  step-Any txs c fs rest f (passed none_here same) (inl (o, tx, live, at, there, read)) =
      absurd (none_here o tx live at there)
  step-Any txs c fs rest f (passed none_here same) (inr a) = rw same a
  step-Any txs c fs rest f (added o tx g live at there read same)
        (inl (o', tx', live', at', there', read')) =
      rw same (inl (one_packet o o' tx tx' g at at' there there' read read'))
    where
      one_packet :
          (o o' : Outpoint) (tx tx' : String) (g : Packet)
          → c.outpoint ≡ some o
          → c.outpoint ≡ some o'
          → get outpoint_discrete o txs ≡ some tx
          → get outpoint_discrete o' txs ≡ some tx'
          → decode tx ≡ some g
          → decode tx' ≡ some f
          → g ≡ f
      one_packet o o' tx tx' g at at' there there' read read' =
          let same_o : o ≡ o' = cc in
          let there'' : get outpoint_discrete o txs ≡ some tx' = rw same_o there' in
          let same_tx : tx ≡ tx' = cc in cc
  step-Any txs c fs rest f (added o tx g live at there read same) (inr a) = rw same (inr a)

  step-Yields :
      (txs : List (Outpoint × String)) (c : Coin) (fs rest : List Packet) (f : Packet)
      → CoinStep txs c fs rest
      → Any (λ x. x ≡ f) fs
      → Yields txs f c ⊎ Any (λ x. x ≡ f) rest
  step-Yields txs c fs rest f (passed none_here same) a = inr (rw same at a)
  step-Yields txs c fs rest f (added o tx g live at there read same) a = elim (rw same at a) [
    | inl e ↦ inl (o, tx, live, at, there, read ∙ ap some e)
    | inr later ↦ inr later
  ]

  forfeits_of_coins-Any :
      (txs : List (Outpoint × String)) (cs : List Coin) (fs : List Packet) (f : Packet)
      → forfeits_of_coins decode txs cs ≡ ok fs
      → Any (Yields txs f) cs
      → Any (λ x. x ≡ f) fs
  forfeits_of_coins-Any txs [] fs f h a = absurd a
  forfeits_of_coins-Any txs (c ∷ cs) fs f h a =
      let (rest, e, step) = coin_step txs c cs fs h in
      elim a [
        | inl here ↦ step-Any txs c fs rest f step (inl here)
        | inr later ↦
            step-Any txs c fs rest f step (inr (forfeits_of_coins-Any txs cs rest f e later))
      ]

  -- Each forfeit transaction that is collected for a task is the one of a coin that is not recoverable.
  pub forfeits_of_coins-Yields :
      (txs : List (Outpoint × String)) (cs : List Coin) (fs : List Packet) (f : Packet)
      → forfeits_of_coins decode txs cs ≡ ok fs
      → Any (λ x. x ≡ f) fs
      → Any (Yields txs f) cs
  forfeits_of_coins-Yields txs [] fs f h a =
      absurd (unfold forfeits_of_coins in no_forfeit (rw (← (ok-injective h)) at a))
    where
      no_forfeit : ⊥ → ⊥
      no_forfeit e = e
  forfeits_of_coins-Yields txs (c ∷ cs) fs f h a =
      let (rest, e, step) = coin_step txs c cs fs h in
      elim (step-Yields txs c fs rest f step a) [
        | inl here ↦ inl here
        | inr later ↦ inr (forfeits_of_coins-Yields txs cs rest f e later)
      ]

  collect_step :
      (r : DelegateRepository) (coins : List Outpoint → Option (List Coin)) (i : String)
      (ids : List String) (s : r.Store) (fs : List Packet) (f : Packet)
      → collect_forfeits decode r coins (i ∷ ids) s ≡ ok fs
      → (rest : List Packet) × (collect_forfeits decode r coins ids s ≡ ok rest)
        × (Any (λ x. x ≡ f) rest → Any (λ x. x ≡ f) fs)
  unfolding collect_forfeits
  collect_step r coins i ids s fs f h = elim (Result-cases (r.get_by_id i s)) [
    | inr (e, unreadable) ↦ cc (rw (unreadable, collect_forfeits) at h)
    | inl (t, got) ↦ elim (Option-cases (coins t.intent.inputs)) [
      | inl unknown ↦ (fs, rw (got, unknown, collect_forfeits) at h, λ a. a)
      | inr (cs, known) ↦
          let (here, e1, h1) =
            bind-eq-ok (forfeits_of_coins decode t.forfeit_txs cs) _ fs
              (rw (got, known, collect_forfeits) at h) in
          let (rest, e2, h2) = bind-eq-ok (collect_forfeits decode r coins ids s) _ fs h1 in
          (rest, e2, λ a. rw (← (ok-injective h2)) (Any-append (λ x. x ≡ f) here rest (inr a)))
    ]
  ]

  -- When the collection for the selected tasks succeeds, the forfeit transaction of every coin of a selected task that the
  -- indexer answers for, and that is not recoverable, is in it.
  pub collect_forfeits-Any :
      (r : DelegateRepository) (coins : List Outpoint → Option (List Coin)) (ids : List String)
      (s : r.Store) (fs : List Packet) (id : String) (task : DelegateTask) (cs : List Coin)
      (f : Packet)
      → collect_forfeits decode r coins ids s ≡ ok fs
      → contains text_discrete id ids ≡ true
      → r.get_by_id id s ≡ ok task
      → coins task.intent.inputs ≡ some cs
      → Any (Yields task.forfeit_txs f) cs
      → Any (λ x. x ≡ f) fs
  unfolding collect_forfeits
  collect_forfeits-Any r coins [] s fs id task cs f h c got known a = cc
  collect_forfeits-Any r coins (i ∷ ids) s fs id task cs f h c got known a =
      elim (text_discrete i id) [
        | yes same ↦
            let got_i : r.get_by_id i s ≡ ok task =
              subst (λ k. r.get_by_id k s ≡ ok task) (sym same) got in
            let (here, e1, h1) =
              bind-eq-ok (forfeits_of_coins decode task.forfeit_txs cs) _ fs
                (rw (got_i, known, collect_forfeits) at h) in
            let (rest, e2, h2) = bind-eq-ok (collect_forfeits decode r coins ids s) _ fs h1 in
            rw (← (ok-injective h2)) (
              Any-append (λ x. x ≡ f) here rest
                (inl (forfeits_of_coins-Any task.forfeit_txs cs here f e1 a)))
        | no other ↦
            let (rest, e, grows) = collect_step r coins i ids s fs f h in
            grows (
              collect_forfeits-Any r coins ids s rest id task cs f e (rw (if_neg _ other) at c) got
                known a)
      ]
