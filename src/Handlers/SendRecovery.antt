-- ===== src/Handlers/SendRecovery.antt =====
-- `sendOffChainWithRecovery` of internal/interface/grpc/handlers/send_recovery.go. The world in which
-- coins are sent is a parameter, with the calls that act on it.
pub mod Attempts
pub mod Tests
use fulmine.Base.{
  ℕ, zero, suc, ◌+◌, ◌==◌, Bool, true, false, List, [], ◌∷◌, map, Text, String, Result, ok, err,
  Option, none, some, ite, leb, codes_discrete, if◌then◌else◌, ◌&&◌,
}
use fulmine.Base.Int.{ℤ, pos, negsuc}
use fulmine.Domain.Status.{to_lower, codes}

-- Does a text begin with another, and `strings.Contains`.
unfoldable pub has_prefix : Text → Text → Bool
has_prefix [] s = true
has_prefix (c ∷ p) [] = false
has_prefix (c ∷ p) (d ∷ s) = let rest = has_prefix p s in if c == d then rest else false

unfoldable pub has_infix : Text → Text → Bool
unfolding has_prefix
has_infix p [] = has_prefix p []
has_infix p (d ∷ s) = let rest = has_infix p s in if has_prefix p (d ∷ s) then true else rest

-- `isVtxoAlreadySpent`, of the text of an error.
unfoldable pub is_vtxo_already_spent : Text → Bool
unfolding has_infix to_lower
is_vtxo_already_spent message = has_infix (codes "vtxo_already_spent") (map to_lower message)

pub data SendError : Type 0 where
  attempts_not_positive : SendError
  context_done : SendError
  send_failed : Text → SendError

-- `send` gives a txid or the text of an error; `finalize_pending` is called for its effect, its error is only logged;
-- `wait` gives `false` if the context is done before the delay is over.
module _ {World : Type 0} (send : World → Result Text Text × World)
    (finalize_pending : World → World) (wait : World → Bool × World) where
  -- What follows a rejected attempt, when no other is left.
  abbrev pub gives_up : Text → World → Result SendError Text × World
  gives_up e w = (err (send_failed e), w)

  -- The loop, by the number of attempts that follow the next one.
  unfoldable pub send_loop : ℕ → World → Result SendError Text × World
  unfolding is_vtxo_already_spent
  send_loop zero w =
      let (answer, w1) = send w in
      elim answer [
        | ok txid ↦ (ok txid, w1)
        | err e ↦
            if is_vtxo_already_spent e then gives_up e (finalize_pending w1) else gives_up e w1
      ]
  send_loop (suc n) w =
      let (answer, w1) = send w in
      let (goes_on, w2) = wait (finalize_pending w1) in
      let rest = send_loop n w2 in
      elim answer [
        | ok txid ↦ (ok txid, w1)
        | err e ↦
            if is_vtxo_already_spent e
            then (if goes_on then rest else (err context_done, w2))
            else gives_up e w1
      ]

  -- `sendOffChainWithRecovery`; `attempts` is an int.
  unfoldable pub send_off_chain_with_recovery : ℤ → World → Result SendError Text × World
  unfolding send_loop
  send_off_chain_with_recovery (pos (suc n)) w = send_loop n w
  send_off_chain_with_recovery (pos zero) w = (err attempts_not_positive, w)
  send_off_chain_with_recovery (negsuc n) w = (err attempts_not_positive, w)
