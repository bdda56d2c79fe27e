-- ===== src/Sqlite.antt =====
-- The store of virtual HTLCs of internal/infrastructure/db/sqlite/vhtlc_repo.go. Its statements are run on
-- tables in memory, none of which fails but by the primary key or for a table that is missing.
pub mod Instance
use fulmine.Base.{
  Bool, true, false, String, List, [], ◌∷◌, ◌++◌, Option, none, some, Result, ok, err, ite,
  text_discrete,
}
use fulmine.Vhtlc.{Vhtlc, LegacyVhtlc}

-- The tables `vhtlc` and `vhtlc_legacy`; a later version has dropped the second.
pub record Tables : Type 0 where
  pub vhtlc : List Vhtlc
  pub vhtlc_legacy : Option (List LegacyVhtlc)

pub data SqlError : Type 0 where
  already_exists not_found : String → SqlError
  no_such_table : SqlError

-- `SELECT * FROM vhtlc WHERE id = ?`
unfoldable pub where_id : String → List Vhtlc → Option Vhtlc
unfolding text_discrete
where_id id [] = none
where_id id (v ∷ vs) = let rest = where_id id vs in ite (text_discrete v.id id) (some v) rest

-- `Get`
unfoldable pub select_vhtlc : String → Tables → Result SqlError Vhtlc
unfolding where_id
select_vhtlc id s = elim (where_id id s.vhtlc) [ none ↦ err (not_found id) | some v ↦ ok v ]

-- `Add`
unfoldable pub insert_vhtlc : Vhtlc → Tables → Option SqlError × Tables
unfolding where_id
insert_vhtlc v s = elim (where_id v.id s.vhtlc) [
  | some _ ↦ (some (already_exists v.id), s)
  | none ↦ (none, record s { vhtlc = s.vhtlc ++ (v ∷ []) })
]

-- `HasLegacy`
unfoldable pub has_legacy : Tables → Result SqlError Bool
has_legacy s = elim s.vhtlc_legacy [ none ↦ ok false | some rows ↦ ok true ]

-- `GetLegacy`
unfoldable pub get_legacy : Tables → Result SqlError (List LegacyVhtlc)
get_legacy s = elim s.vhtlc_legacy [ none ↦ err no_such_table | some rows ↦ ok rows ]

-- `DropLegacy`
unfoldable pub drop_legacy : Tables → Option SqlError × Tables
drop_legacy s = (none, record s { vhtlc_legacy = none })
