-- ===== src/Delegate/Request/Fee.antt =====
-- The fee of a request: `findDelegateFeeOutput` and `validateDelegateFee` of
-- internal/core/application/delegate_service.go.
use fulmine.Base.{
  ℕ, ◌<◌, ◌≡◌, ◌↔◌, ◌⊎◌, inl, inr, ap, Bool, true, false, String, List, [], ◌∷◌, ok, Any,
  text_discrete, if_pos, if_neg, arith,
}
use fulmine.Base.Int.{ℤ, pos, negsuc, ◌≤ℤ◌, IsInt64, two64}
use fulmine.Delegate.Forfeit.{TxOut}
use fulmine.Delegate.Request.{find_delegate_fee_output, validate_delegate_fee}

-- The check of the fee, for a required fee that is a uint64 and an amount that is an int64: it passes exactly if no
-- fee is required, or an output pays the delegate and its amount is at least the required fee, as integers.
pub validate_delegate_fee_iff :
    (required_fee : ℕ) (paid_amount : ℤ) (fee_paid_to_us : Bool)
    → required_fee < two64
    → IsInt64 paid_amount
    → (validate_delegate_fee required_fee paid_amount fee_paid_to_us ≡ ok tt)
      ↔ ((required_fee ≡ 0) ⊎ ((fee_paid_to_us ≡ true) × (pos required_fee ≤ℤ paid_amount)))
unfolding validate_delegate_fee
validate_delegate_fee_iff required_fee (pos n) true fits int = ground arith
validate_delegate_fee_iff required_fee (negsuc n) true fits int = ground arith
validate_delegate_fee_iff required_fee (pos n) false fits int = ground arith
validate_delegate_fee_iff required_fee (negsuc n) false fits int = ground arith

-- An output that pays a script an amount.
abbrev pub Pays : String → ℤ → TxOut → Type 0
Pays script amount o = (o.pk_script ≡ script) × (o.value ≡ amount)

-- An amount that is found is that of an output that pays the delegate's script.
pub find_delegate_fee_output-Any :
    (outputs : List TxOut) (delegate_script : String) (amount : ℤ)
    → find_delegate_fee_output outputs delegate_script ≡ (amount, true)
    → Any (Pays delegate_script amount) outputs
unfolding find_delegate_fee_output
find_delegate_fee_output-Any [] delegate_script amount h = cc (ap (λ (x : ℤ × Bool). x.1) h)
find_delegate_fee_output-Any (o ∷ outputs) delegate_script amount h =
    elim (text_discrete o.pk_script delegate_script) [
      | yes same ↦ inl (same, ap (λ (x : ℤ × Bool). x.0) (rw (if_pos _ same) at h))
      | no other ↦
          inr
            (find_delegate_fee_output-Any outputs delegate_script amount (rw (if_neg _ other) at h))
    ]
