-- ===== src/Handlers/SendRecovery/Attempts.antt =====
-- How often `sendOffChainWithRecovery` of internal/interface/grpc/handlers/send_recovery.go sends, and
-- where its answer comes from.
use fulmine.Base.{
  ℕ, zero, suc, ◌+◌, ◌≤◌, ◌≡◌, ◌↔◌, refl, ap, ◌∙◌, inl, inr, Bool, true, Text, Result, ok, err,
  Result-cases, ok-injective, Bool-cases, arith,
}
use fulmine.Base.Int.{pos}
use fulmine.Handlers.SendRecovery.{
  is_vtxo_already_spent, SendError, send_loop, send_off_chain_with_recovery,
}

module _ {World : Type 0} (send : World → Result Text Text × World)
    (finalize_pending : World → World) (wait : World → Bool × World) where
  -- The calls in a world that counts the sends.
  abbrev pub counted_send : ℕ × World → Result Text Text × (ℕ × World)
  counted_send (c, w) = ((send w).0, (suc c, (send w).1))

  abbrev pub counted_finalize : ℕ × World → ℕ × World
  counted_finalize (c, w) = (c, finalize_pending w)

  abbrev pub counted_wait : ℕ × World → Bool × (ℕ × World)
  counted_wait (c, w) = ((wait w).0, (c, (wait w).1))

  send_loop-count :
      (n c : ℕ) (w : World)
      → (send_loop counted_send counted_finalize counted_wait n (c, w)).1.0 ≤ c + suc n
  unfolding send_loop
  send_loop-count zero c w = ground arith
  send_loop-count (suc n) c w =
      ground (arith, send_loop-count n (suc c) (wait (finalize_pending (send w).1)).1)

  -- At most as many sends are made as attempts are allowed, whatever the calls answer.
  pub send_off_chain_with_recovery-count :
      (attempts : ℕ) (w : World)
      → (send_off_chain_with_recovery counted_send counted_finalize counted_wait
          (pos attempts)
          (0, w)).1.0
        ≤ attempts
  unfolding send_off_chain_with_recovery
  send_off_chain_with_recovery-count zero w = omega arith
  send_off_chain_with_recovery-count (suc n) w = omega (arith, send_loop-count n 0 w)

  -- The world in which the next attempt is made.
  abbrev pub next : World → World
  next w = (wait (finalize_pending (send w).1)).1

  -- From one world to another by attempts that are rejected because a coin is already spent.
  abbrev pub Rejected : ℕ → World → World → Type 0
  Rejected zero w w' = w ≡ w'
  Rejected (suc k) w w' =
      (e : Text) × ((send w).0 ≡ err e)
      × (is_vtxo_already_spent e ≡ true)
      × ((wait (finalize_pending (send w).1)).0 ≡ true)
      × Rejected k (next w) w'

  send_loop-ok :
      (n k : ℕ) (w w' : World) (txid : Text)
      → Rejected k w w'
      → k ≤ n
      → (send w').0 ≡ ok txid
      → send_loop send finalize_pending wait n w ≡ (ok txid, (send w').1)
  unfolding send_loop
  send_loop-ok zero zero w w' txid same le sent =
      let here : (send w).0 ≡ ok txid = ap (λ x. (send x).0) same ∙ sent in
      rw (← same) (rw (here, send_loop) refl)
  send_loop-ok zero (suc k) w w' txid r le sent = absurd (omega (arith, le))
  send_loop-ok (suc n) zero w w' txid same le sent =
      let here : (send w).0 ≡ ok txid = ap (λ x. (send x).0) same ∙ sent in
      rw (← same) (rw (here, send_loop) refl)
  send_loop-ok (suc n) (suc k) w w' txid (e, failed, spent, goes_on, r) le sent =
      rw (failed, spent, goes_on, send_loop)
        (send_loop-ok n k (next w) w' txid r (omega (arith, le)) sent)

  one_txid :
      {t u : Text}
      → ◌≡◌ {A = Result SendError Text} (ok t) (ok u)
      → ◌≡◌ {A = Result Text Text} (ok t) (ok u)
  one_txid e = ap ok (ok-injective e)

  send_loop_sound :
      (n : ℕ) (w : World) (txid : Text)
      → (send_loop send finalize_pending wait n w).0 ≡ ok txid
      → (k : ℕ) × (w' : World) × Rejected k w w' × (k ≤ n) × ((send w').0 ≡ ok txid)
  unfolding send_loop
  send_loop_sound zero w txid h = elim (Result-cases (send w).0) [
    | inl (t, sent) ↦ (0, w, refl, omega arith, sent ∙ one_txid (rw (sent, send_loop) at h))
    | inr (e, failed) ↦ elim (Bool-cases (is_vtxo_already_spent e)) [
      | inr other ↦ cc (rw (failed, other, send_loop) at h)
      | inl spent ↦ cc (rw (failed, spent, send_loop) at h)
    ]
  ]
  send_loop_sound (suc n) w txid h = elim (Result-cases (send w).0) [
    | inl (t, sent) ↦ (0, w, refl, omega arith, sent ∙ one_txid (rw (sent, send_loop) at h))
    | inr (e, failed) ↦ elim (Bool-cases (is_vtxo_already_spent e)) [
      | inr other ↦ cc (rw (failed, other, send_loop) at h)
      | inl spent ↦ elim (Bool-cases (wait (finalize_pending (send w).1)).0) [
        | inr done ↦ cc (rw (failed, spent, done, send_loop) at h)
        | inl goes_on ↦
            let (k, w', r, le, sent) =
              send_loop_sound n (next w) txid (rw (failed, spent, goes_on, send_loop) at h) in
            (suc k, w', (e, failed, spent, goes_on, r), omega (arith, le), sent)
      ]
    ]
  ]

  -- A send is recovered exactly if it can be: the answer is a txid if and only if some attempt within the bound is answered
  -- with it and every attempt before it was rejected for a coin that is already spent, after each of which the pending
  -- transactions were finalized and the delay was waited out.
  pub send_off_chain_with_recovery_iff :
      (n : ℕ) (w : World) (txid : Text)
      → ((send_off_chain_with_recovery send finalize_pending wait (pos (suc n)) w).0 ≡ ok txid)
        ↔ ((k : ℕ) × (w' : World) × Rejected k w w' × (k ≤ n) × ((send w').0 ≡ ok txid))
  unfolding send_off_chain_with_recovery
  send_off_chain_with_recovery_iff n w txid = (
    send_loop_sound n w txid,
    λ (k, w', r, le, sent).
        ap (λ (x : Result SendError Text × World). x.0) (send_loop-ok n k w w' txid r le sent),
  )
