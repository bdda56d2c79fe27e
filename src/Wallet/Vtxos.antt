-- ===== src/Wallet/Vtxos.antt =====
-- `GetVtxos` of internal/core/application/service.go: the coins of the wallet that pass a filter, the
-- newest first.
pub mod Newest
use fulmine.Base.{
  ◌≡◌, refl, sym, ap, ◌∙◌, subst, ℕ, zero, suc, ◌+◌, ◌≤◌, Bool, true, false, not, ◌&&◌, ◌||◌,
  String, List, [], ◌∷◌, ◌++◌, Option, none, some, Result, ok, err, keep_if, Any, All, same,
  text_discrete, ◌⊎◌, inl, inr, ◌↔◌, Bool-cases, if◌then◌else◌, arith,
}
use fulmine.Base.Int.{ℤ, pos}
use fulmine.Clock.{Time, after}
use fulmine.Wallet.{Node, NodeError, is_initialized_and_unlocked}

-- What the code reads of `types.Vtxo`; whether a coin is recoverable is a method of the sdk.
pub record Vtxo : Type 0 where
  pub outpoint : String
  pub spent : Bool
  pub swept : Bool
  pub unrolled : Bool
  pub is_recoverable : Bool
  pub created_at : Time

-- The `switch` on the type of the filter.
unfoldable pub keep_of : String → Option (Vtxo → Bool)
unfolding text_discrete
keep_of filter_type =
    if same text_discrete filter_type "spendable"
    then some (λ v. not v.spent && not v.is_recoverable && not v.unrolled)
    else (if same text_discrete filter_type "spent"
        then some (λ v. v.spent || v.swept || v.unrolled)
        else (if same text_discrete filter_type "recoverable"
            then some (λ v. v.is_recoverable && not v.unrolled)
            else (if same text_discrete filter_type "all" then some (λ v. true) else none)))

-- `sort.SliceStable` by `CreatedAt.After`: a coin stays behind those of the same time.
unfoldable pub insert_by_time : Vtxo → List Vtxo → List Vtxo
insert_by_time v [] = v ∷ []
insert_by_time v (w ∷ ws) =
    let rest = insert_by_time v ws in
    if after w.created_at v.created_at then w ∷ rest else v ∷ w ∷ ws

unfoldable pub sort_by_time : List Vtxo → List Vtxo
unfolding insert_by_time
sort_by_time [] = []
sort_by_time (v ∷ vs) = insert_by_time v (sort_by_time vs)

pub data VtxosError : Type 0 where
  not_ready : NodeError → VtxosError
  invalid_filter : VtxosError
  not_listed : String → VtxosError
  out_of_fuel : VtxosError

-- `ListVtxos` answers a page for a cursor, with the next cursor or the empty text.
module _ (list_vtxos : String → Result String (List Vtxo × String)) where
  -- The loop over the pages, on fuel.
  unfoldable pub more_pages : ℕ → List Vtxo → String → Result VtxosError (List Vtxo)
  more_pages zero all cursor = if same text_discrete cursor "" then ok all else err out_of_fuel
  more_pages (suc fuel) all cursor =
      if same text_discrete cursor "" then ok all else elim (list_vtxos cursor) [
        | err e ↦ err (not_listed e)
        | ok (more, c) ↦ more_pages fuel (all ++ more) c
      ]

  -- The part of `GetVtxos` behind the gate.
  unfoldable pub list_filtered : ℕ → String → Result VtxosError (List Vtxo)
  unfolding more_pages keep_of sort_by_time
  list_filtered fuel filter_type = elim (keep_of filter_type) [
    | none ↦ err invalid_filter
    | some keep ↦ elim (list_vtxos "") [
      | err e ↦ err (not_listed e)
      | ok (first, cursor) ↦ elim (more_pages fuel first cursor) [
        | err e ↦ err e
        | ok all ↦ ok (sort_by_time (keep_if keep all))
      ]
    ]
  ]

  -- `GetVtxos`, behind the gate.
  unfoldable pub get_vtxos : Node → ℕ → String → Result VtxosError (List Vtxo)
  unfolding is_initialized_and_unlocked list_filtered
  get_vtxos s fuel filter_type = elim (is_initialized_and_unlocked s) [
    | some e ↦ err (not_ready e)
    | none ↦ list_filtered fuel filter_type
  ]
