-- ===== src/Badger/VhtlcRepo.antt =====
-- `vhtlcRepository` of internal/infrastructure/db/badger/vhtlc_repo.go over a badgerhold database. It
-- never had the old table.
pub mod Instance
use fulmine.Base.{
  Bool, true, false, String, List, [], ◌∷◌, Option, none, some, Result, ok, err, contains,
  text_discrete,
}
use fulmine.Badger.Hold.{Badgerhold, HoldError, not_found, key_exists, failure}
use fulmine.Vhtlc.{Vhtlc, LegacyVhtlc}

pub data VhtlcError : Type 0 where
  not_listed not_got : HoldError → VhtlcError
  vhtlc_not_found vhtlc_exists : String → VhtlcError
  not_added : HoldError → VhtlcError

-- The errors of `Get` and of `Add`.
abbrev pub get_error : String → HoldError → VhtlcError
get_error id not_found = vhtlc_not_found id
get_error id key_exists = not_got key_exists
get_error id (failure m) = not_got (failure m)

abbrev pub add_error : String → HoldError → VhtlcError
add_error id not_found = not_added not_found
add_error id key_exists = vhtlc_exists id
add_error id (failure m) = not_added (failure m)

module _ (b : Badgerhold Vhtlc) where
  open b use {Store, insert, get, find}

  -- `GetAll`
  unfoldable pub get_all_vhtlcs : Store → Result VhtlcError (List Vhtlc)
  get_all_vhtlcs s = elim (find (λ _. true) s) [ err e ↦ err (not_listed e) | ok vs ↦ ok vs ]

  -- `GetByIds`
  unfoldable pub get_by_ids : List String → Store → Result VhtlcError (List Vhtlc)
  get_by_ids [] s = ok []
  get_by_ids (id ∷ ids) s = elim (find (λ v. contains text_discrete v.id (id ∷ ids)) s) [
    | err e ↦ err (not_listed e)
    | ok out ↦ ok out
  ]

  -- `Get`
  unfoldable pub get_vhtlc : String → Store → Result VhtlcError Vhtlc
  get_vhtlc id s = elim (get id s) [ err e ↦ err (get_error id e) | ok v ↦ ok v ]

  -- `Add`
  unfoldable pub add_vhtlc : Vhtlc → Store → Option VhtlcError × Store
  add_vhtlc v s =
      let (e, s') = insert v.id v s in
      elim e [ none ↦ (none, s') | some e ↦ (some (add_error v.id e), s') ]

  -- `HasLegacy`, `GetLegacy` and `DropLegacy`
  unfoldable pub has_legacy : Store → Result VhtlcError Bool
  has_legacy s = ok false

  unfoldable pub get_legacy : Store → Result VhtlcError (List LegacyVhtlc)
  get_legacy s = ok []

  unfoldable pub drop_legacy : Store → Option VhtlcError × Store
  drop_legacy s = (none, s)
