-- ===== src/Badger/VhtlcRepo/Instance.antt =====
-- The repository of internal/infrastructure/db/badger/vhtlc_repo.go keeps what the migration relies
-- on, and its reads by ids.
use fulmine.Base.{
  ◌≡◌, refl, sym, ◌∙◌, ap, subst, true, inl, inr, ◌↔◌, String, List, [], ◌∷◌, none, some, ite, ok,
  Any, contains, text_discrete, Option-cases, Result-cases, ok-injective,
}
use fulmine.Badger.Hold.{Badgerhold}
use fulmine.Badger.VhtlcRepo.{
  VhtlcError, get_by_ids, get_vhtlc, add_vhtlc, has_legacy, get_legacy, drop_legacy,
}
use fulmine.Vhtlc.{Vhtlc}
use fulmine.Vhtlc.Repository.{LegacyVhtlcStore}

module _ (b : Badgerhold Vhtlc) where
  open b use {
    Store, insert, get, find, row, insert_done, insert_failed, get_done, find_sound, find_complete,
  }

  pub get_vhtlc_done :
      (k : String) (s : Store) (v : Vhtlc) → get_vhtlc b k s ≡ ok v → row s k ≡ some v
  unfolding get_vhtlc
  get_vhtlc_done k s v e = elim (Result-cases (get k s)) [
    | inr (x, failed) ↦ cc (rw (failed, get_vhtlc) at e)
    | inl (w, got) ↦ get_done k s v (got ∙ ap ok (ok-injective (rw (got, get_vhtlc) at e)))
  ]

  pub add_vhtlc_done :
      (v : Vhtlc) (s : Store)
      → (add_vhtlc b v s).0 ≡ none
      → (row s v.id ≡ none)
        × ((k : String) → row (add_vhtlc b v s).1 k ≡ ite (text_discrete v.id k) (some v) (row s k))
  unfolding add_vhtlc
  add_vhtlc_done v s e = elim (Option-cases (insert v.id v s).0) [
    | inr (x, failed) ↦ cc (rw (failed, add_vhtlc) at e)
    | inl done ↦ rw (done, add_vhtlc) (insert_done v.id v s done)
  ]

  pub add_vhtlc_failed :
      (v : Vhtlc) (s : Store) (x : VhtlcError)
      → (add_vhtlc b v s).0 ≡ some x
      → (k : String) → row (add_vhtlc b v s).1 k ≡ row s k
  unfolding add_vhtlc
  add_vhtlc_failed v s x e k = elim (Option-cases (insert v.id v s).0) [
    | inr (y, failed) ↦ rw (failed, add_vhtlc) (insert_failed v.id v s y failed k)
    | inl done ↦ cc (rw (done, add_vhtlc) at e)
  ]

  unfoldable pub vhtlc_store : LegacyVhtlcStore
  unfolding has_legacy get_legacy drop_legacy
  vhtlc_store = record {
    Store = Store;
    Error = VhtlcError;
    has_legacy = has_legacy b;
    get_legacy = get_legacy b;
    drop_legacy = drop_legacy b;
    get = get_vhtlc b;
    add = add_vhtlc b;
    legacy = λ s. none;
    row = row;
    has_legacy_done = λ s e. refl;
    get_legacy_done = λ s rows table e old. cc;
    drop_legacy_done = λ s e. refl;
    drop_legacy_row = λ s k. refl;
    get_done = λ k s v e. get_vhtlc_done k s v e;
    add_done = λ v s e. add_vhtlc_done v s e;
    add_failed = λ v s x e k. add_vhtlc_failed v s x e k;
    add_legacy = λ v s. refl;
  }

  -- Each row is kept under its id.
  abbrev pub IsKept : Store → Type 0
  IsKept s = (k : String) (v : Vhtlc) → row s k ≡ some v → v.id ≡ k

  found :
      (ids : List String) (s : Store) (rs : List Vhtlc)
      → IsKept s
      → find (λ x. contains text_discrete x.id ids) s ≡ ok rs
      → (v : Vhtlc)
      → Any (λ x. x ≡ v) rs ↔ ((row s v.id ≡ some v) × (contains text_discrete v.id ids ≡ true))
  found ids s rs w got v = (
    λ a.
        let (asked, spot) = find_sound (λ x. contains text_discrete x.id ids) s rs got v a in
        let (k, here) = spot in (subst (λ j. row s j ≡ some v) (sym (w k v here)) here, asked),
    λ h. find_complete (λ x. contains text_discrete x.id ids) s rs got v.id v h.0 h.1,
  )

  -- `GetByIds` finds the stored virtual HTLCs whose id is asked for, and no others, where each row is
  -- kept under its id.
  pub get_by_ids_iff :
      (ids : List String) (s : Store) (out : List Vhtlc)
      → IsKept s
      → get_by_ids b ids s ≡ ok out
      → (v : Vhtlc)
      → Any (λ x. x ≡ v) out ↔ ((row s v.id ≡ some v) × (contains text_discrete v.id ids ≡ true))
  unfolding get_by_ids
  get_by_ids_iff [] s out w e v = (
    subst
        (λ xs.
          Any (λ x. x ≡ v) xs → (row s v.id ≡ some v) × (contains text_discrete v.id [] ≡ true))
        (ok-injective e) (λ a. absurd a),
    λ h. cc,
  )
  get_by_ids_iff (id ∷ ids) s out w e v =
      elim (Result-cases (find (λ x. contains text_discrete x.id (id ∷ ids)) s)) [
        | inr (x, failed) ↦ cc (rw (failed, get_by_ids) at e)
        | inl (rs, got) ↦
            subst
              (λ xs.
                Any (λ x. x ≡ v) xs
                ↔ ((row s v.id ≡ some v) × (contains text_discrete v.id (id ∷ ids) ≡ true)))
              (ok-injective (rw (got, get_by_ids) at e)) (found (id ∷ ids) s rs w got v)
      ]
