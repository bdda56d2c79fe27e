-- ===== src/Vhtlc/Repository.antt =====
-- `legacyVhtlcStore` of internal/core/application/vhtlc_migration.go: the calls that the migration
-- makes of the repository of virtual HTLCs (`VHTLCRepository` of internal/core/domain/vhtlc.go), with
-- what it relies on.
use fulmine.Base.{
  ◌≡◌, Bool, false, String, List, Option, none, some, ite, Result, ok, text_discrete,
}
use fulmine.Vhtlc.{Vhtlc, LegacyVhtlc}

pub record LegacyVhtlcStore : Type 1 where
  pub Store : Type 0
  pub Error : Type 0
  pub has_legacy : Store → Result Error Bool
  pub get_legacy : Store → Result Error (List LegacyVhtlc)
  pub drop_legacy : Store → Option Error × Store
  pub get : String → Store → Result Error Vhtlc
  pub add : Vhtlc → Store → Option Error × Store
  -- The old table, `none` if there is none, and the rows of the new one.
  pub legacy : Store → Option (List LegacyVhtlc)
  pub row : Store → String → Option Vhtlc
  pub has_legacy_done : (s : Store) → has_legacy s ≡ ok false → legacy s ≡ none
  pub get_legacy_done :
      (s : Store) (rows table : List LegacyVhtlc)
      → get_legacy s ≡ ok rows
      → legacy s ≡ some table
      → table ≡ rows
  pub drop_legacy_done : (s : Store) → (drop_legacy s).0 ≡ none → legacy (drop_legacy s).1 ≡ none
  pub drop_legacy_row : (s : Store) (k : String) → row (drop_legacy s).1 k ≡ row s k
  pub get_done : (k : String) (s : Store) (v : Vhtlc) → get k s ≡ ok v → row s k ≡ some v
  pub add_done :
      (v : Vhtlc) (s : Store)
      → (add v s).0 ≡ none
      → (row s v.id ≡ none)
        × ((k : String) → row (add v s).1 k ≡ ite (text_discrete v.id k) (some v) (row s k))
  pub add_failed :
      (v : Vhtlc) (s : Store) (e : Error)
      → (add v s).0 ≡ some e
      → (k : String) → row (add v s).1 k ≡ row s k
  pub add_legacy : (v : Vhtlc) (s : Store) → legacy (add v s).1 ≡ legacy s

-- A read finds what is there.
abbrev pub ReadsSucceed : LegacyVhtlcStore → Type 0
ReadsSucceed db = (k : String) (v : Vhtlc) (s : db.Store) → db.row s k ≡ some v → db.get k s ≡ ok v
