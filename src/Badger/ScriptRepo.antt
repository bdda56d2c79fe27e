-- ===== src/Badger/ScriptRepo.antt =====
-- `subscribedScriptRepository` of internal/infrastructure/db/badger/subscribed_script_repo.go over a
-- badgerhold database.
pub mod Contents
pub mod Loops
pub mod Instance
use fulmine.Base.{ℕ, suc, true, String, List, [], ◌∷◌, Option, none, some, Result, ok, err, map}
use fulmine.Badger.Hold.{Badgerhold, HoldError, not_found, key_exists, failure}

pub record SubscribedScript : Type 0 where
  pub script : String

pub data ScriptError : Type 0 where
  not_read : HoldError → ScriptError
  not_inserted not_deleted : String → HoldError → ScriptError

abbrev pub script_of : SubscribedScript → String
script_of r = r.script

module _ (b : Badgerhold SubscribedScript) where
  open b use {Store, insert, find, delete}

  -- The loop of `Add`: a script that is there already is passed over and not counted.
  unfoldable pub add_from : ℕ → List String → Store → (ℕ × Option ScriptError) × Store
  add_from count [] s = ((count, none), s)
  add_from count (script ∷ scripts) s =
      let (e, s') = insert script (record { script = script }) s in
      elim e [
        | none ↦ add_from (suc count) scripts s'
        | some x ↦ elim x [
          | key_exists ↦ add_from count scripts s'
          | not_found ↦ ((count, some (not_inserted script not_found)), s')
          | failure m ↦ ((count, some (not_inserted script (failure m))), s')
        ]
      ]

  -- `Add`
  unfoldable pub add_scripts : List String → Store → (ℕ × Option ScriptError) × Store
  unfolding add_from
  add_scripts scripts s = add_from 0 scripts s

  -- `Get`
  unfoldable pub get_scripts : Store → Result ScriptError (List String)
  get_scripts s = elim (find (λ _. true) s) [
    | ok current_scripts ↦ ok (map script_of current_scripts)
    | err e ↦ elim e [
      | not_found ↦ ok []
      | key_exists ↦ err (not_read key_exists)
      | failure m ↦ err (not_read (failure m))
    ]
  ]

  -- The loop of `Delete`: a script that is not there is passed over and not counted.
  unfoldable pub delete_from : ℕ → List String → Store → (ℕ × Option ScriptError) × Store
  delete_from count [] s = ((count, none), s)
  delete_from count (script ∷ scripts) s =
      let (e, s') = delete script s in
      elim e [
        | none ↦ delete_from (suc count) scripts s'
        | some x ↦ elim x [
          | not_found ↦ delete_from count scripts s'
          | key_exists ↦ ((count, some (not_deleted script key_exists)), s')
          | failure m ↦ ((count, some (not_deleted script (failure m))), s')
        ]
      ]

  -- `Delete`
  unfoldable pub delete_scripts : List String → Store → (ℕ × Option ScriptError) × Store
  unfolding delete_from
  delete_scripts scripts s = delete_from 0 scripts s
