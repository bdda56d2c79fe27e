-- ===== src/Delegate/Spent.antt =====
-- `getSpentVtxosFromTransactionEvent` of internal/core/application/utils.go: the outpoints that a transaction
-- event of the Ark server spends.
use fulmine.Base.{
  ℕ, ◌<◌, ◌≡◌, inl, inr, Text, List, [], ◌∷◌, ◌++◌, Option, none, some, Option-cases, All, Any, ap,
}
use fulmine.Domain.{Outpoint}
use fulmine.Badger.Dto.RoundTrip.{IsOutpoint}

-- A coin of an event.
pub record SpentVtxo : Type 0 where
  pub txid : Text
  pub vout : ℕ

-- A part of the event that may be missing.
abbrev pub vtxos_of : Option (List SpentVtxo) → List SpentVtxo
vtxos_of none = []
vtxos_of (some vs) = vs

module _ (new_hash : Text → Option Text) where
  -- The loop: a txid that is no hash is passed over.
  unfoldable pub to_outpoints : List SpentVtxo → List Outpoint
  to_outpoints [] = []
  to_outpoints (v ∷ vs) =
      let rest = to_outpoints vs in
      elim (new_hash v.txid) [
        | none ↦ rest
        | some hash ↦ record { hash = hash; index = v.vout } ∷ rest
      ]

  -- `getSpentVtxosFromTransactionEvent`, of the coins of its commitment and of its Ark transaction.
  unfoldable pub get_spent_vtxos_from_transaction_event :
      Option (List SpentVtxo) → Option (List SpentVtxo) → List Outpoint
  unfolding to_outpoints
  get_spent_vtxos_from_transaction_event commitment_tx ark_tx =
      to_outpoints (vtxos_of commitment_tx ++ vtxos_of ark_tx)

  abbrev pub Fits : SpentVtxo → Type 0
  Fits v = v.vout < 4294967296

  to_outpoints-All :
      (vs : List SpentVtxo)
      → ((h g : Text) → new_hash h ≡ some g → new_hash g ≡ some g)
      → All Fits vs
      → All (IsOutpoint new_hash) (to_outpoints vs)
  unfolding to_outpoints
  to_outpoints-All [] stable fit = tt
  to_outpoints-All (v ∷ vs) stable fit = elim (Option-cases (new_hash v.txid)) [
    | inl bad ↦ rw (bad, to_outpoints) (to_outpoints-All vs stable fit.1)
    | inr (h, good) ↦
        rw (good, to_outpoints)
          (
            record { hash_read_back = stable v.txid h good; index_fits = fit.0 },
            to_outpoints-All vs stable fit.1,
          )
  ]

  All-append : (vs ws : List SpentVtxo) → All Fits vs → All Fits ws → All Fits (vs ++ ws)
  All-append [] ws h k = k
  All-append (v ∷ vs) ws h k = (h.0, All-append vs ws h.1 k)

  -- The outpoints of an event are wire outpoints, as the monitor's tick wants them, where the indices are uint32 and the text
  -- that a hash is read as is read as itself.
  pub get_spent_vtxos-All :
      (commitment_tx ark_tx : Option (List SpentVtxo))
      → ((h g : Text) → new_hash h ≡ some g → new_hash g ≡ some g)
      → All Fits (vtxos_of commitment_tx)
      → All Fits (vtxos_of ark_tx)
      → All (IsOutpoint new_hash) (get_spent_vtxos_from_transaction_event commitment_tx ark_tx)
  unfolding get_spent_vtxos_from_transaction_event
  get_spent_vtxos-All commitment_tx ark_tx stable fit fit' =
      to_outpoints-All (vtxos_of commitment_tx ++ vtxos_of ark_tx) stable
        (All-append (vtxos_of commitment_tx) (vtxos_of ark_tx) fit fit')

  -- The outpoint of a coin whose txid is read as a hash.
  abbrev pub of_hash : Text → SpentVtxo → Outpoint
  of_hash h v = record { hash = h; index = v.vout }

  to_outpoints-Any :
      (vs : List SpentVtxo) (v : SpentVtxo) (h : Text)
      → Any (λ x. x ≡ v) vs
      → new_hash v.txid ≡ some h
      → Any (λ o. o ≡ of_hash h v) (to_outpoints vs)
  unfolding to_outpoints
  to_outpoints-Any [] v h a e = absurd a
  to_outpoints-Any (x ∷ vs) v h (inl same) e =
      let here : new_hash x.txid ≡ some h = rw same e in
      rw (here, to_outpoints) (inl (ap (λ (y : SpentVtxo). of_hash h y) same))
  to_outpoints-Any (x ∷ vs) v h (inr later) e = elim (Option-cases (new_hash x.txid)) [
    | inl bad ↦ rw (bad, to_outpoints) (to_outpoints-Any vs v h later e)
    | inr (g, good) ↦ rw (good, to_outpoints) (inr (to_outpoints-Any vs v h later e))
  ]

  -- Every coin that the event spends, in either part, is among its outpoints if its txid is a hash.
  pub get_spent_vtxos-Any :
      (commitment_tx ark_tx : Option (List SpentVtxo)) (v : SpentVtxo) (h : Text)
      → Any (λ x. x ≡ v) (vtxos_of commitment_tx ++ vtxos_of ark_tx)
      → new_hash v.txid ≡ some h
      → Any (λ o. o ≡ of_hash h v) (get_spent_vtxos_from_transaction_event commitment_tx ark_tx)
  unfolding get_spent_vtxos_from_transaction_event
  get_spent_vtxos-Any commitment_tx ark_tx v h a e =
      to_outpoints-Any (vtxos_of commitment_tx ++ vtxos_of ark_tx) v h a e
