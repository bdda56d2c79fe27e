-- ===== src/Wallet/Vtxos/Newest.antt =====
-- The order and the coins of `GetVtxos` of internal/core/application/service.go.
use mathlib.Core.List.{append-nil, append_assoc}
use fulmine.Base.{
  ◌≡◌, ◌≢◌, refl, sym, ap, ◌∙◌, ℕ, zero, suc, ◌≤◌, Bool, true, false, String, List, [], ◌∷◌, ◌++◌,
  none, some, Result, ok, keep_if, All, All-map, same, same-eq-true, same-eq-false, same_refl,
  text_discrete, inl, inr, Bool-cases, arith,
}
use fulmine.Base.Int.{ℤ_discrete}
use fulmine.Clock.{Time, after}
use fulmine.Wallet.Vtxos.{
  Vtxo, keep_of, insert_by_time, sort_by_time, more_pages, list_filtered, get_vtxos,
}
use fulmine.Wallet.{Node, is_initialized_and_unlocked}

-- No later coin is newer.
abbrev pub NewestFirst : List Vtxo → Type 0
NewestFirst [] = Unit {0}
NewestFirst (v ∷ vs) = All (λ w. after w.created_at v.created_at ≡ false) vs × NewestFirst vs

-- The coins of one time.
abbrev pub at_time : Time → List Vtxo → List Vtxo
at_time t vs = keep_if (λ v. same ℤ_discrete v.created_at t) vs

after_trans : (a b c : Time) → after a b ≡ false → after b c ≡ false → after a c ≡ false
unfolding after
after_trans a b c e f = ground arith

after_asym : (a b : Time) → after a b ≡ true → after b a ≡ false
unfolding after
after_asym a b e = ground arith

after_apart : (a b : Time) → after a b ≡ true → a ≢ b
unfolding after
after_apart a b e same_time = cc (after_asym a b e)

insert-All :
    (P : Vtxo → Type 0) (v : Vtxo) (ws : List Vtxo) → P v → All P ws → All P (insert_by_time v ws)
unfolding insert_by_time
insert-All P v [] pv all = (pv, tt)
insert-All P v (w ∷ ws) pv (pw, all) = elim (Bool-cases (after w.created_at v.created_at)) [
  | inl newer ↦ rw (newer, insert_by_time) (pw, insert-All P v ws pv all)
  | inr older ↦ rw (older, insert_by_time) (pv, (pw, all))
]

insert-NewestFirst :
    (v : Vtxo) (ws : List Vtxo) → NewestFirst ws → NewestFirst (insert_by_time v ws)
unfolding insert_by_time
insert-NewestFirst v [] s = (tt, tt)
insert-NewestFirst v (w ∷ ws) (later, s) = elim (Bool-cases (after w.created_at v.created_at)) [
  | inl newer ↦
      rw (newer, insert_by_time)
        (
          insert-All _ v ws (after_asym w.created_at v.created_at newer) later,
          insert-NewestFirst v ws s,
        )
  | inr older ↦
      rw (older, insert_by_time)
        (
          (
            older,
            All-map _ _ (λ x e. after_trans x.created_at w.created_at v.created_at e older) ws
                later,
          ),
          (later, s),
        )
]

sort-NewestFirst : (vs : List Vtxo) → NewestFirst (sort_by_time vs)
unfolding sort_by_time
sort-NewestFirst [] = tt
sort-NewestFirst (v ∷ vs) = insert-NewestFirst v (sort_by_time vs) (sort-NewestFirst vs)

-- The coins of one time keep their order.
at_time-insert :
    (t : Time) (v : Vtxo) (ws : List Vtxo) → at_time t (insert_by_time v ws) ≡ at_time t (v ∷ ws)
unfolding insert_by_time
at_time-insert t v [] = refl
at_time-insert t v (w ∷ ws) = elim (Bool-cases (after w.created_at v.created_at)) [
  | inr older ↦ rw (older, insert_by_time) refl
  | inl newer ↦
      let later = at_time-insert t v ws in
      elim (Bool-cases (same ℤ_discrete w.created_at t)) [
        | inr other ↦ rw (newer, insert_by_time, other, later) refl
        | inl here ↦
            let apart = same-eq-false ℤ_discrete v.created_at t (λ e.
              after_apart w.created_at v.created_at newer
                (same-eq-true ℤ_discrete w.created_at t here ∙ sym e)) in
            rw (newer, insert_by_time, here, later, apart) refl
      ]
]

at_time-sort : (t : Time) (vs : List Vtxo) → at_time t (sort_by_time vs) ≡ at_time t vs
unfolding sort_by_time
at_time-sort t [] = refl
at_time-sort t (v ∷ vs) =
    at_time-insert t v (sort_by_time vs) ∙ elim (Bool-cases (same ℤ_discrete v.created_at t)) [
      | inl here ↦ rw (here, at_time-sort t vs) refl
      | inr other ↦ rw (other, at_time-sort t vs) refl
    ]

module _ (list_vtxos : String → Result String (List Vtxo × String)) where
  -- The pages from a cursor on: their coins and their number.
  pub data Pages : String → List Vtxo → ℕ → Type 0 where
    last_page : Pages "" [] 0
    next_page :
        (cursor c : String) (more rest : List Vtxo) (n : ℕ)
        → cursor ≢ ""
        → list_vtxos cursor ≡ ok (more, c)
        → Pages c rest n
        → Pages cursor (more ++ rest) (suc n)

  more_pages-Pages :
      {cursor : String} {rest : List Vtxo} {n : ℕ} (all : List Vtxo) (fuel : ℕ)
      → Pages cursor rest n
      → n ≤ fuel
      → more_pages list_vtxos fuel all cursor ≡ ok (all ++ rest)
  unfolding more_pages
  more_pages-Pages all zero last_page h =
      rw (same_refl text_discrete "" "" refl, more_pages) (ap ok (sym (append-nil all)))
  more_pages-Pages all (suc fuel) last_page h =
      rw (same_refl text_discrete "" "" refl, more_pages) (ap ok (sym (append-nil all)))
  more_pages-Pages all zero (next_page cursor c more rest n set got p) h = absurd (omega (arith, h))
  more_pages-Pages all (suc fuel) (next_page cursor c more rest n set got p) h =
      rw (same-eq-false text_discrete cursor "" set, got, more_pages)
        (more_pages-Pages (all ++ more) fuel p (omega (arith, h))
          ∙ ap ok (append_assoc all more rest))

  -- For a wallet that passes the gate, `GetVtxos` answers the coins of all pages that pass the filter,
  -- the newest first, and coins of one time are in the order of the pages. The filter is a known one,
  -- the pages are answered and end, and the fuel is their number at least.
  pub get_vtxos-NewestFirst :
      (s : Node) (filter_type cursor : String) (keep : Vtxo → Bool) (first rest : List Vtxo)
      (n fuel : ℕ)
      → is_initialized_and_unlocked s ≡ none
      → keep_of filter_type ≡ some keep
      → list_vtxos "" ≡ ok (first, cursor)
      → Pages cursor rest n
      → n ≤ fuel
      → (out : List Vtxo) × (get_vtxos list_vtxos s fuel filter_type ≡ ok out)
        × NewestFirst out
        × ((t : Time) → at_time t out ≡ at_time t (keep_if keep (first ++ rest)))
  unfolding get_vtxos
  get_vtxos-NewestFirst s filter_type cursor keep first rest n fuel passed known got p h = (
    sort_by_time (keep_if keep (first ++ rest)),
    rw (passed, get_vtxos, known, got, more_pages-Pages first fuel p h, list_filtered) refl,
    sort-NewestFirst (keep_if keep (first ++ rest)),
    λ t. at_time-sort t (keep_if keep (first ++ rest)),
  )
