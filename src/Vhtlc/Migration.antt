-- ===== src/Vhtlc/Migration.antt =====
-- internal/core/application/vhtlc_migration.go: the rows of the old table become contracts of the
-- sdk's contract manager and rows of the new table.
pub mod Recorded
pub mod Lossless
use fulmine.Base.{
  ◌≡◌, ℕ, suc, ◌+◌, Bool, true, false, String, List, [], ◌∷◌, Option, none, some, Result, ok, err,
  if◌then◌else◌, ◌==◌, length,
}
use fulmine.Vhtlc.{Vhtlc, LegacyVhtlc, new_vhtlc}
use fulmine.Vhtlc.Args.{Keys, KeyRef, ContractArgs, build_vhtlc_contract_args}
use fulmine.Vhtlc.Repository.{LegacyVhtlcStore}

-- `types.Contract` of the sdk, of which the migration reads the script, and the contract manager
-- (`vhtlcImporter`), of which it relies on a contract being tracked once it is imported.
pub record Importer : Type 1 where
  pub Contract : Type 0
  pub script : Contract → String
  pub State : Type 0
  -- `GetContracts(ctx, contract.WithScripts([]string{script}))`
  pub get_contracts : String → State → Result String (List Contract)
  pub import_contract : Contract → State → Option String × State
  pub tracks : State → String → Bool
  pub get_contracts_done :
      (script : String) (s : State) (c : Contract) (cs : List Contract)
      → get_contracts script s ≡ ok (c ∷ cs)
      → tracks s script ≡ true
  pub import_done :
      (c : Contract) (s : State)
      → (import_contract c s).0 ≡ none
      → tracks (import_contract c s).1 (script c) ≡ true
  pub import_keeps :
      (c : Contract) (s : State) (k : String)
      → tracks s k ≡ true
      → tracks (import_contract c s).1 k ≡ true

-- What becomes of a row.
pub data Outcome : Type 0 where
  migrated skipped already : Outcome

-- The counts of migrated and of skipped rows.
unfoldable pub counted : Outcome → ℕ × ℕ → ℕ × ℕ
counted migrated (m, k) = (suc m, k)
counted skipped (m, k) = (m, suc k)
counted already (m, k) = (m, k)

module _ (db : LegacyVhtlcStore) (im : Importer) where
  pub record State : Type 0 where
    pub store : db.Store
    pub importer : im.State

  -- `dropEmptyLegacyVhtlcs`
  unfoldable pub drop_empty_legacy_vhtlcs : State → State
  drop_empty_legacy_vhtlcs s = elim (db.has_legacy s.store) [
    | err _ ↦ s
    | ok has ↦
        if has
        then (elim (db.get_legacy s.store) [
          | err _ ↦ s
          | ok rows ↦ elim rows [ _ ∷ _ ↦ s | [] ↦ record s { store = (db.drop_legacy s.store).1 } ]
        ])
        else s
  ]

module _ (keys : Keys) (db : LegacyVhtlcStore) (im : Importer) (id_hash : List ℕ → String)
    (key_ref : KeyRef keys) (build_contract : ContractArgs keys → Result String im.Contract) where
  -- The store and its `Add` at the end of a round.
  unfoldable pub record_row : String → im.Contract → State db im → Outcome × State db im
  unfolding new_vhtlc
  record_row id c s =
      let (e, store') = db.add (new_vhtlc id (im.script c)) s.store in
      let s' : State db im = record s { store = store' } in
      elim e [ none ↦ (migrated, s') | some _ ↦ (skipped, s') ]

  -- The import of a contract that is not tracked.
  unfoldable pub import_row : String → im.Contract → State db im → Outcome × State db im
  unfolding record_row
  import_row id c s = elim (im.get_contracts (im.script c) s.importer) [
    | err _ ↦ (skipped, s)
    | ok tracked ↦ elim tracked [
      | _ ∷ _ ↦ record_row id c s
      | [] ↦
          let (e, importer') = im.import_contract c s.importer in
          let s' : State db im = record s { importer = importer' } in
          elim e [ none ↦ record_row id c s' | some _ ↦ (skipped, s') ]
    ]
  ]

  -- One round of the loop of `migrateVhtlcs`.
  unfoldable pub migrate_row : LegacyVhtlc → State db im → Outcome × State db im
  unfolding build_vhtlc_contract_args import_row
  migrate_row row s = elim (build_vhtlc_contract_args keys id_hash row key_ref) [
    | err _ ↦ (skipped, s)
    | ok (args, id) ↦ elim (db.get id s.store) [
      | ok _ ↦ (already, s)
      | err _ ↦ elim (build_contract args) [ err _ ↦ (skipped, s) | ok c ↦ import_row id c s ]
    ]
  ]

  unfoldable pub migrate_rows : List LegacyVhtlc → ℕ × ℕ → State db im → (ℕ × ℕ) × State db im
  unfolding migrate_row counted
  migrate_rows [] counts s = (counts, s)
  migrate_rows (row ∷ rows) counts s =
      let (outcome, s') = migrate_row row s in migrate_rows rows (counted outcome counts) s'

  -- `migrateVhtlcs`: the counts, the error and the state.
  unfoldable pub migrate_vhtlcs : State db im → ((ℕ × ℕ) × Option db.Error) × State db im
  unfolding migrate_rows
  migrate_vhtlcs s = elim (db.has_legacy s.store) [
    | err e ↦ (((0, 0), some e), s)
    | ok has ↦
        if has
        then (elim (db.get_legacy s.store) [
          | err e ↦ (((0, 0), some e), s)
          | ok rows ↦
              let (counts, s') = migrate_rows rows (0, 0) s in
              if counts.1 == 0
              then (let (e, store') = db.drop_legacy s'.store in
                  ((counts, e), record s' { store = store' }))
              else ((counts, none), s')
        ])
        else (((0, 0), none), s)
  ]

-- `Service.migrateVhtlcs`: what an HD wallet and a single-key wallet do. The key, or nothing if it
-- is not resolved, and the handler of the contracts, or nothing if there is none, are answers of the
-- sdk.
module _ (keys : Keys) (db : LegacyVhtlcStore) (im : Importer) (id_hash : List ℕ → String) where
  unfoldable pub run_migration :
      Bool
      → Option (KeyRef keys)
      → Option (ContractArgs keys → Result String im.Contract)
      → State db im
      → State db im
  unfolding migrate_vhtlcs drop_empty_legacy_vhtlcs
  run_migration is_hd key handler s = if is_hd then drop_empty_legacy_vhtlcs db im s else elim key [
    | none ↦ s
    | some key_ref ↦ elim handler [
      | none ↦ s
      | some build_contract ↦ (migrate_vhtlcs keys db im id_hash key_ref build_contract s).1
    ]
  ]
