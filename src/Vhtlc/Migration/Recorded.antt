-- ===== src/Vhtlc/Migration/Recorded.antt =====
-- What a round of the loop of internal/core/application/vhtlc_migration.go leaves: the rows that are
-- recorded stay so, and their contracts are tracked.
use fulmine.Base.{
  ◌≡◌, refl, sym, ◌∙◌, subst, ℕ, true, ◌⊎◌, inl, inr, String, List, [], ◌∷◌, Option, none, some,
  if_pos, if_neg, Result, ok, Option-cases, Result-cases, text_discrete,
}
use fulmine.Vhtlc.{Vhtlc, LegacyVhtlc, new_vhtlc}
use fulmine.Vhtlc.Args.{Keys, KeyRef, ContractArgs, build_vhtlc_contract_args}
use fulmine.Vhtlc.Repository.{LegacyVhtlcStore}
use fulmine.Vhtlc.Migration.{Importer, Outcome, skipped, State, record_row, import_row, migrate_row}

module _ (db : LegacyVhtlcStore) (im : Importer) where
  -- The contract of every recorded row is tracked.
  abbrev pub IsTracked : State db im → Type 0
  IsTracked s =
      (k : String) (v : Vhtlc) → db.row s.store k ≡ some v → im.tracks s.importer v.script ≡ true

  -- What the steps of the migration keep.
  pub record Keeps (s s' : State db im) : Type 0 where
    pub legacy : db.legacy s'.store ≡ db.legacy s.store
    pub rows : (k : String) (v : Vhtlc) → db.row s.store k ≡ some v → db.row s'.store k ≡ some v
    pub tracked : IsTracked s → IsTracked s'

  pub Keeps-refl : (s : State db im) → Keeps s s
  Keeps-refl s = record { legacy = refl; rows = λ k v e. e; tracked = λ t. t }

  pub Keeps-trans : (a b c : State db im) → Keeps a b → Keeps b c → Keeps a c
  Keeps-trans a b c p q = record {
    legacy = q.legacy ∙ p.legacy;
    rows = λ k v e. q.rows k v (p.rows k v e);
    tracked = λ t. q.tracked (p.tracked t);
  }

  some_injective : {A : Type 0} {a c : A} → ◌≡◌ {A = Option A} (some a) (some c) → a ≡ c
  some_injective e = cc

  added-Keeps :
      (v : Vhtlc) (s : State db im)
      → im.tracks s.importer v.script ≡ true
      → (db.add v s.store).0 ≡ none
      → Keeps s (record s { store = (db.add v s.store).1 })
  added-Keeps v s t e =
      let (free, law) = db.add_done v s.store e in
      record {
        legacy = db.add_legacy v s.store;
        rows = λ k w here. elim (text_discrete v.id k) [
          | yes same ↦ cc (subst (λ i. db.row s.store i ≡ none) same free)
          | no other ↦ law k ∙ if_neg (text_discrete v.id k) other _ _ ∙ here
        ];
        tracked = λ old k w here. elim (text_discrete v.id k) [
          | yes same ↦
              subst (λ x. im.tracks s.importer x.script ≡ true)
                (some_injective (sym (if_pos (text_discrete v.id k) same _ _) ∙ sym (law k) ∙ here))
                t
          | no other ↦ old k w (sym (if_neg (text_discrete v.id k) other _ _) ∙ sym (law k) ∙ here)
        ];
      }

  not_added-Keeps :
      (v : Vhtlc) (s : State db im) (x : db.Error)
      → (db.add v s.store).0 ≡ some x
      → Keeps s (record s { store = (db.add v s.store).1 })
  not_added-Keeps v s x e =
      let law = db.add_failed v s.store x e in
      record {
        legacy = db.add_legacy v s.store;
        rows = λ k w here. law k ∙ here;
        tracked = λ old k w here. old k w (sym (law k) ∙ here);
      }

  imported-Keeps :
      (c : im.Contract) (s : State db im)
      → Keeps s (record s { importer = (im.import_contract c s.importer).1 })
  imported-Keeps c s = record {
    legacy = refl;
    rows = λ k w here. here;
    tracked = λ old k w here. im.import_keeps c s.importer w.script (old k w here);
  }

  -- A row of the new table under an id, unless the outcome says that it was skipped.
  abbrev Holds : String → Outcome × State db im → Type 0
  Holds id r = (r.0 ≡ skipped) ⊎ ((v : Vhtlc) × (db.row r.1.store id ≡ some v))

module _ (keys : Keys) (db : LegacyVhtlcStore) (im : Importer) (id_hash : List ℕ → String)
    (key_ref : KeyRef keys) where
  -- A row of the old table is recorded: its arguments can be built, and the new table has a row under
  -- the id that they give.
  abbrev pub IsRecorded : LegacyVhtlc → State db im → Type 0
  IsRecorded row s =
      (args : ContractArgs keys) × (id : String) × (v : Vhtlc) × (build_vhtlc_contract_args keys
          id_hash row key_ref
        ≡ ok (args, id))
      × (db.row s.store id ≡ some v)

module _ (keys : Keys) (db : LegacyVhtlcStore) (im : Importer) (id_hash : List ℕ → String)
    (key_ref : KeyRef keys) (build_contract : ContractArgs keys → Result String im.Contract) where
  record_row-Holds :
      (id : String) (c : im.Contract) (s : State db im)
      → im.tracks s.importer (im.script c) ≡ true
      → (let r = record_row keys db im id_hash key_ref build_contract id c s in
          Keeps db im s r.1 × Holds db im id r)
  unfolding record_row new_vhtlc
  record_row-Holds id c s t =
      let v = new_vhtlc id (im.script c) in
      elim (Option-cases (db.add v s.store).0) [
        | inr (x, failed) ↦ rw (failed, record_row) (not_added-Keeps db im v s x failed, inl refl)
        | inl added ↦
            rw (added, record_row)
              (
                added-Keeps db im v s t added,
                inr (v, (db.add_done v s.store added).1 id ∙ if_pos (text_discrete id id) refl _ _),
              )
      ]

  import_row-Holds :
      (id : String) (c : im.Contract) (s : State db im)
      → (let r = import_row keys db im id_hash key_ref build_contract id c s in
          Keeps db im s r.1 × Holds db im id r)
  unfolding import_row
  import_row-Holds id c s = elim (Result-cases (im.get_contracts (im.script c) s.importer)) [
    | inr (x, failed) ↦ rw (failed, import_row) (Keeps-refl db im s, inl refl)
    | inl (d ∷ ds, found) ↦
        rw (found, import_row)
          (record_row-Holds id c s (im.get_contracts_done (im.script c) s.importer d ds found))
    | inl ([], found) ↦
        let s' : State db im = record s { importer = (im.import_contract c s.importer).1 } in
        elim (Option-cases (im.import_contract c s.importer).0) [
          | inr (x, failed) ↦ rw (found, failed, import_row) (imported-Keeps db im c s, inl refl)
          | inl done ↦
              let (kept, held) = record_row-Holds id c s' (im.import_done c s.importer done) in
              rw (found, done, import_row)
                (Keeps-trans db im s s' _ (imported-Keeps db im c s) kept, held)
        ]
  ]

  -- A round of the loop keeps what is recorded, and records its row unless it skips it.
  pub migrate_row-records :
      (row : LegacyVhtlc) (s : State db im)
      → (let r = migrate_row keys db im id_hash key_ref build_contract row s in
          Keeps db im s r.1 × ((r.0 ≡ skipped) ⊎ IsRecorded keys db im id_hash key_ref row r.1))
  unfolding migrate_row
  migrate_row-records row s =
      elim (Result-cases (build_vhtlc_contract_args keys id_hash row key_ref)) [
        | inr (x, bad) ↦ rw (bad, migrate_row) (Keeps-refl db im s, inl refl)
        | inl ((args, id), built) ↦ elim (Result-cases (db.get id s.store)) [
          | inl (v, got) ↦
              rw (built, got, migrate_row)
                (Keeps-refl db im s, inr (args, id, v, refl, db.get_done id s.store v got))
          | inr (x, missing) ↦ elim (Result-cases (build_contract args)) [
            | inr (y, failed) ↦
                rw (built, missing, failed, migrate_row) (Keeps-refl db im s, inl refl)
            | inl (c, made) ↦
                let (kept, held) = import_row-Holds id c s in
                elim held [
                  | inl over ↦ rw (built, missing, made, migrate_row) (kept, inl over)
                  | inr (v, here) ↦
                      rw (built, missing, made, migrate_row) (kept, inr (args, id, v, refl, here))
                ]
          ]
        ]
      ]
