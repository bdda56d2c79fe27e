-- ===== src/Vhtlc/Migration/Lossless.antt =====
-- The migration of internal/core/application/vhtlc_migration.go loses no virtual HTLC.
use fulmine.Base.{
  ◌≡◌, ◌≢◌, refl, sym, ◌∙◌, ap, subst, ℕ, suc, ◌≤◌, ◌==◌, Bool, true, false, ◌⊎◌, inl, inr, String,
  List, [], ◌∷◌, Option, none, some, Result, ok, Result-cases, Bool-cases, arith, All, All-map,
  eqb→eq,
}
use fulmine.Vhtlc.{Vhtlc, LegacyVhtlc}
use fulmine.Vhtlc.Args.{Keys, KeyRef, ContractArgs, build_vhtlc_contract_args}
use fulmine.Vhtlc.Repository.{LegacyVhtlcStore, ReadsSucceed}
use fulmine.Vhtlc.Migration.{
  Importer, Outcome, migrated, skipped, already, State, migrate_row, counted, migrate_rows,
  migrate_vhtlcs, drop_empty_legacy_vhtlcs, run_migration,
}
use fulmine.Vhtlc.Migration.Recorded.{
  IsTracked, Keeps, Keeps-refl, Keeps-trans, IsRecorded, migrate_row-records,
}

counted-cases :
    (o : Outcome) (c : ℕ × ℕ)
    → ((o ≡ skipped) × ((counted o c).1 ≡ suc c.1)) ⊎ ((o ≢ skipped) × ((counted o c).1 ≡ c.1))
unfolding counted
counted-cases migrated (m, k) = inr ((λ e. cc), refl)
counted-cases skipped (m, k) = inl (refl, refl)
counted-cases already (m, k) = inr ((λ e. cc), refl)

module _ (keys : Keys) (db : LegacyVhtlcStore) (im : Importer) (id_hash : List ℕ → String)
    (key_ref : KeyRef keys) (build_contract : ContractArgs keys → Result String im.Contract) where
  IsRecorded-Keeps :
      (row : LegacyVhtlc) (s s' : State db im)
      → Keeps db im s s'
      → IsRecorded keys db im id_hash key_ref row s
      → IsRecorded keys db im id_hash key_ref row s'
  IsRecorded-Keeps row s s' k (args, id, v, built, here) = (args, id, v, built, k.rows id v here)

  migrate_rows-Keeps :
      (rows : List LegacyVhtlc) (c : ℕ × ℕ) (s : State db im)
      → Keeps db im s (migrate_rows keys db im id_hash key_ref build_contract rows c s).1
  unfolding migrate_rows
  migrate_rows-Keeps [] c s = Keeps-refl db im s
  migrate_rows-Keeps (row ∷ rows) c s =
      let r = migrate_row keys db im id_hash key_ref build_contract row s in
      Keeps-trans db im s r.1 _
        (migrate_row-records keys db im id_hash key_ref build_contract row s).0
        (migrate_rows-Keeps rows (counted r.0 c) r.1)

  migrate_rows-grows :
      (rows : List LegacyVhtlc) (c : ℕ × ℕ) (s : State db im)
      → c.1 ≤ (migrate_rows keys db im id_hash key_ref build_contract rows c s).0.1
  unfolding migrate_rows
  migrate_rows-grows [] c s = omega arith
  migrate_rows-grows (row ∷ rows) c s =
      let r = migrate_row keys db im id_hash key_ref build_contract row s in
      let later = migrate_rows-grows rows (counted r.0 c) r.1 in
      elim (counted-cases r.0 c) [
        | inl (_, more) ↦ omega (arith, more, later)
        | inr (_, equal) ↦ omega (arith, equal, later)
      ]

  -- If no row was skipped, all are recorded.
  migrate_rows-records :
      (rows : List LegacyVhtlc) (c : ℕ × ℕ) (s : State db im)
      → (let r = migrate_rows keys db im id_hash key_ref build_contract rows c s in
          r.0.1 ≡ c.1 → All (λ row. IsRecorded keys db im id_hash key_ref row r.1) rows)
  unfolding migrate_rows
  migrate_rows-records [] c s e = tt
  migrate_rows-records (row ∷ rows) c s e =
      let r = migrate_row keys db im id_hash key_ref build_contract row s in
      let grows = migrate_rows-grows rows (counted r.0 c) r.1 in
      elim (counted-cases r.0 c) [
        | inl (_, more) ↦ absurd (omega (arith, more, grows, e))
        | inr (worked, equal) ↦
            let later = migrate_rows-records rows (counted r.0 c) r.1 (e ∙ sym equal) in
            let kept = migrate_rows-Keeps rows (counted r.0 c) r.1 in
            elim (migrate_row-records keys db im id_hash key_ref build_contract row s).1 [
              | inl over ↦ absurd (worked over)
              | inr there ↦ (IsRecorded-Keeps row r.1 _ kept there, later)
            ]
      ]

  dropped-IsRecorded :
      (row : LegacyVhtlc) (s : State db im)
      → IsRecorded keys db im id_hash key_ref row s
      → IsRecorded keys db im id_hash key_ref row (record s { store = (db.drop_legacy s.store).1 })
  dropped-IsRecorded row s (args, id, v, built, here) =
      (args, id, v, built, db.drop_legacy_row s.store id ∙ here)

  -- What is gone is recorded: `migrateVhtlcs` either leaves the old table, or has recorded every row.
  migrate_vhtlcs-records :
      (s : State db im) (rows : List LegacyVhtlc)
      → db.legacy s.store ≡ some rows
      → (let s' = (migrate_vhtlcs keys db im id_hash key_ref build_contract s).1 in
          db.legacy s'.store ≡ none
          → All (λ row. IsRecorded keys db im id_hash key_ref row s') rows)
  unfolding migrate_vhtlcs
  migrate_vhtlcs-records s rows old gone = elim (Result-cases (db.has_legacy s.store)) [
    | inr (x, failed) ↦ cc (rw (failed, migrate_vhtlcs) at gone)
    | inl (false, missing) ↦ cc (db.has_legacy_done s.store missing)
    | inl (true, has) ↦ elim (Result-cases (db.get_legacy s.store)) [
      | inr (x, failed) ↦ cc (rw (has, failed, migrate_vhtlcs) at gone)
      | inl (table, got) ↦
          let e = db.get_legacy_done s.store table rows got old in
          let r = migrate_rows keys db im id_hash key_ref build_contract table (0, 0) s in
          let kept = migrate_rows-Keeps table (0, 0) s in
          elim (Bool-cases (r.0.1 == 0)) [
            | inr some_skipped ↦
                let left = rw (has, got, some_skipped, migrate_vhtlcs) at gone in cc (kept.legacy)
            | inl none_skipped ↦
                let all = migrate_rows-records table (0, 0) s (eqb→eq r.0.1 0 none_skipped) in
                rw (has, got, none_skipped, migrate_vhtlcs)
                  (subst (All _) (sym e)
                    (All-map _ _ (λ row h. dropped-IsRecorded row r.1 h) table all))
          ]
    ]
  ]

  dropped-IsTracked :
      (s : State db im)
      → IsTracked db im s
      → IsTracked db im (record s { store = (db.drop_legacy s.store).1 })
  dropped-IsTracked s track k v here = track k v (sym (db.drop_legacy_row s.store k) ∙ here)

  migrate_vhtlcs-IsTracked :
      (s : State db im)
      → IsTracked db im s
      → IsTracked db im (migrate_vhtlcs keys db im id_hash key_ref build_contract s).1
  unfolding migrate_vhtlcs
  migrate_vhtlcs-IsTracked s track = elim (Result-cases (db.has_legacy s.store)) [
    | inr (x, failed) ↦ rw (failed, migrate_vhtlcs) track
    | inl (false, missing) ↦ rw (missing, migrate_vhtlcs) track
    | inl (true, has) ↦ elim (Result-cases (db.get_legacy s.store)) [
      | inr (x, failed) ↦ rw (has, failed, migrate_vhtlcs) track
      | inl (table, got) ↦
          let r = migrate_rows keys db im id_hash key_ref build_contract table (0, 0) s in
          let tracked = (migrate_rows-Keeps table (0, 0) s).tracked track in
          elim (Bool-cases (r.0.1 == 0)) [
            | inr some_skipped ↦ rw (has, got, some_skipped, migrate_vhtlcs) tracked
            | inl none_skipped ↦
                rw (has, got, none_skipped, migrate_vhtlcs) (dropped-IsTracked r.1 tracked)
          ]
    ]
  ]

  migrate_row-idle :
      (row : LegacyVhtlc) (s : State db im) (args : ContractArgs keys) (id : String) (v : Vhtlc)
      → ReadsSucceed db
      → build_vhtlc_contract_args keys id_hash row key_ref ≡ ok (args, id)
      → db.row s.store id ≡ some v
      → migrate_row keys db im id_hash key_ref build_contract row s ≡ (already, s)
  unfolding migrate_row
  migrate_row-idle row s args id v reads built here =
      let got : db.get id s.store ≡ ok v = reads id v s.store here in
      rw (built, got, migrate_row) refl

  -- A pass over rows that are all recorded migrates none and skips none.
  migrate_rows-idle :
      (rows : List LegacyVhtlc) (c : ℕ × ℕ) (s : State db im)
      → ReadsSucceed db
      → All (λ row. IsRecorded keys db im id_hash key_ref row s) rows
      → migrate_rows keys db im id_hash key_ref build_contract rows c s ≡ (c, s)
  unfolding migrate_rows counted
  migrate_rows-idle [] c s reads all = refl
  migrate_rows-idle (row ∷ rows) c s reads ((args, id, v, built, here), all) =
      ap (λ r. migrate_rows keys db im id_hash key_ref build_contract rows (counted r.0 c) r.1)
        (migrate_row-idle row s args id v reads built here)
      ∙ migrate_rows-idle rows c s reads all

  -- The loop of the migration is idempotent: after a pass that skipped no row, a second pass over the
  -- same rows finds each of them migrated and changes neither the counts nor the state. A read of a
  -- row that is there succeeds.
  pub migrate_rows-again :
      (rows : List LegacyVhtlc) (c d : ℕ × ℕ) (s : State db im)
      → ReadsSucceed db
      → (let r = migrate_rows keys db im id_hash key_ref build_contract rows c s in
          r.0.1 ≡ c.1
          → migrate_rows keys db im id_hash key_ref build_contract rows d r.1 ≡ (d, r.1))
  migrate_rows-again rows c d s reads e =
      migrate_rows-idle rows d _ reads (migrate_rows-records rows c s e)

module _ (keys : Keys) (db : LegacyVhtlcStore) (im : Importer) (id_hash : List ℕ → String) where
  drop_empty-records :
      (s : State db im) (rows : List LegacyVhtlc)
      → db.legacy s.store ≡ some rows
      → (let s' = drop_empty_legacy_vhtlcs db im s in db.legacy s'.store ≡ none → rows ≡ [])
  unfolding drop_empty_legacy_vhtlcs
  drop_empty-records s rows old gone = elim (Result-cases (db.has_legacy s.store)) [
    | inr (x, failed) ↦ cc (rw (failed, drop_empty_legacy_vhtlcs) at gone)
    | inl (false, missing) ↦ cc (db.has_legacy_done s.store missing)
    | inl (true, has) ↦ elim (Result-cases (db.get_legacy s.store)) [
      | inr (x, failed) ↦ cc (rw (has, failed, drop_empty_legacy_vhtlcs) at gone)
      | inl (row ∷ table, got) ↦ cc (rw (has, got, drop_empty_legacy_vhtlcs) at gone)
      | inl ([], got) ↦ db.get_legacy_done s.store [] rows got old
    ]
  ]

  drop_empty-IsTracked :
      (s : State db im) → IsTracked db im s → IsTracked db im (drop_empty_legacy_vhtlcs db im s)
  unfolding drop_empty_legacy_vhtlcs
  drop_empty-IsTracked s track = elim (Result-cases (db.has_legacy s.store)) [
    | inr (x, failed) ↦ rw (failed, drop_empty_legacy_vhtlcs) track
    | inl (false, missing) ↦ rw (missing, drop_empty_legacy_vhtlcs) track
    | inl (true, has) ↦ elim (Result-cases (db.get_legacy s.store)) [
      | inr (x, failed) ↦ rw (has, failed, drop_empty_legacy_vhtlcs) track
      | inl (row ∷ table, got) ↦ rw (has, got, drop_empty_legacy_vhtlcs) track
      | inl ([], got) ↦
          rw (has, got, drop_empty_legacy_vhtlcs)
            (λ k v here. track k v (sym (db.drop_legacy_row s.store k) ∙ here))
    ]
  ]

  -- The migration loses no virtual HTLC: when it has dropped an old table, either the table was empty
  -- or each of its rows has been recorded, for the wallet's key, in the new table under the id that
  -- its parameters give.
  pub run_migration-records :
      (is_hd : Bool) (key : Option (KeyRef keys))
      (handler : Option (ContractArgs keys → Result String im.Contract)) (s : State db im)
      (rows : List LegacyVhtlc)
      → db.legacy s.store ≡ some rows
      → db.legacy (run_migration keys db im id_hash is_hd key handler s).store ≡ none
      → (rows ≡ [])
        ⊎ ((key_ref : KeyRef keys) × (key ≡ some key_ref)
            × All
                (λ row.
                  IsRecorded keys db im id_hash key_ref row
                    (run_migration keys db im id_hash is_hd key handler s))
                rows)
  unfolding run_migration
  run_migration-records true key handler s rows old gone = inl (drop_empty-records s rows old gone)
  run_migration-records false none handler s rows old gone = cc
  run_migration-records false (some key_ref) none s rows old gone = cc
  run_migration-records false (some key_ref) (some build) s rows old gone =
      inr (key_ref, refl, migrate_vhtlcs-records keys db im id_hash key_ref build s rows old gone)

  -- The migration records no row without its contract: if the contracts of all rows of the new table
  -- are tracked before it, those of all its rows are tracked after it, however it ends.
  run_migration-IsTracked :
      (is_hd : Bool) (key : Option (KeyRef keys))
      (handler : Option (ContractArgs keys → Result String im.Contract)) (s : State db im)
      → IsTracked db im s
      → IsTracked db im (run_migration keys db im id_hash is_hd key handler s)
  unfolding run_migration
  run_migration-IsTracked true key handler s track = drop_empty-IsTracked s track
  run_migration-IsTracked false none handler s track = track
  run_migration-IsTracked false (some key_ref) none s track = track
  run_migration-IsTracked false (some key_ref) (some build) s track =
      migrate_vhtlcs-IsTracked keys db im id_hash key_ref build s track
