-- ===== src/Handlers/SendRecovery/Tests.antt =====
-- Examples for internal/interface/grpc/handlers/send_recovery.go: a world that counts down the coins that
-- are already spent.
use fulmine.Base.{ℕ, zero, suc, ◌≤◌, ◌≡◌, ◌↔◌, refl, Bool, true, Text, Result, ok, err}
use fulmine.Base.Int.{pos}
use fulmine.Domain.Status.{codes}
use fulmine.Handlers.SendRecovery.{send_off_chain_with_recovery}
use fulmine.Handlers.SendRecovery.Attempts.{
  counted_send, counted_finalize, counted_wait, Rejected, send_off_chain_with_recovery-count,
  send_off_chain_with_recovery_iff,
}

send : ℕ → Result Text Text × ℕ
send zero = (ok (codes "txid"), zero)
send (suc n) = (err (codes "VTXO_ALREADY_SPENT"), suc n)

finalize_pending : ℕ → ℕ
finalize_pending zero = zero
finalize_pending (suc n) = n

wait : ℕ → Bool × ℕ
wait n = (true, n)

recovers : (send_off_chain_with_recovery send finalize_pending wait (pos 3) 2).0 ≡ ok (codes "txid")
unfolding send_off_chain_with_recovery send wait finalize_pending
recovers = refl

send_off_chain_with_recovery-count_example :
    (send_off_chain_with_recovery
      (counted_send send finalize_pending wait)
      (counted_finalize send finalize_pending wait)
      (counted_wait send finalize_pending wait)
      (pos 3)
      (0, 9)).1.0
    ≤ 3
send_off_chain_with_recovery-count_example =
    send_off_chain_with_recovery-count send finalize_pending wait 3 9

send_off_chain_with_recovery_iff_example :
    ((send_off_chain_with_recovery send finalize_pending wait (pos 3) 2).0 ≡ ok (codes "txid")) ↔ (
      (k : ℕ) × (w : ℕ) × Rejected send finalize_pending wait k 2 w
      × (k ≤ 2)
      × ((send w).0 ≡ ok (codes "txid")))
send_off_chain_with_recovery_iff_example =
    send_off_chain_with_recovery_iff send finalize_pending wait 2 2 (codes "txid")
