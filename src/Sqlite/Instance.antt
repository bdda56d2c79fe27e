-- ===== src/Sqlite/Instance.antt =====
-- The repository of internal/infrastructure/db/sqlite/vhtlc_repo.go keeps what the migration of
-- internal/core/application/vhtlc_migration.go relies on.
use fulmine.Base.{
  ◌≡◌, refl, sym, ◌∙◌, ap, false, String, List, [], ◌∷◌, ◌++◌, none, some, ok, ite, if_pos, if_neg,
  text_discrete, inl, inr, Option-cases, ok-injective,
}
use fulmine.Vhtlc.{Vhtlc, LegacyVhtlc}
use fulmine.Vhtlc.Repository.{LegacyVhtlcStore, ReadsSucceed}
use fulmine.Sqlite.{
  Tables, SqlError, where_id, select_vhtlc, insert_vhtlc, has_legacy, get_legacy, drop_legacy,
}

pub has_legacy_done : (s : Tables) → has_legacy s ≡ ok false → s.vhtlc_legacy ≡ none
unfolding has_legacy
has_legacy_done s e = elim (Option-cases s.vhtlc_legacy) [
  | inl k ↦ k
  | inr (rows, k) ↦ cc (rw (k, has_legacy) at e)
]

pub get_legacy_done :
    (s : Tables) (rows table : List LegacyVhtlc)
    → get_legacy s ≡ ok rows
    → s.vhtlc_legacy ≡ some table
    → table ≡ rows
unfolding get_legacy
get_legacy_done s rows table e k = ok-injective (rw (k, get_legacy) at e)

pub select_vhtlc_done :
    (k : String) (s : Tables) (v : Vhtlc) → select_vhtlc k s ≡ ok v → where_id k s.vhtlc ≡ some v
unfolding select_vhtlc
select_vhtlc_done k s v e = elim (Option-cases (where_id k s.vhtlc)) [
  | inl missing ↦ cc (rw (missing, select_vhtlc) at e)
  | inr (w, here) ↦ here ∙ ap some (ok-injective (rw (here, select_vhtlc) at e))
]

select_vhtlc_finds :
    (k : String) (v : Vhtlc) (s : Tables) → where_id k s.vhtlc ≡ some v → select_vhtlc k s ≡ ok v
unfolding select_vhtlc
select_vhtlc_finds k v s here = rw (here, select_vhtlc) refl

-- A row at the end under a new id.
where_id-append :
    (k : String) (vs : List Vhtlc) (v : Vhtlc)
    → where_id v.id vs ≡ none
    → where_id k (vs ++ (v ∷ [])) ≡ ite (text_discrete v.id k) (some v) (where_id k vs)
unfolding where_id
where_id-append k [] v free = refl
where_id-append k (w ∷ vs) v free = elim (text_discrete w.id v.id) [
  | yes clash ↦ cc (sym (if_pos (text_discrete w.id v.id) clash (some w) (where_id v.id vs)) ∙ free)
  | no apart ↦
      let later =
        where_id-append k vs v
          (sym (if_neg (text_discrete w.id v.id) apart (some w) (where_id v.id vs)) ∙ free) in
      elim (text_discrete w.id k) [
        | no other ↦
            if_neg (text_discrete w.id k) other _ _
            ∙ later
            ∙ ap (λ o. ite (text_discrete v.id k) (some v) o)
                (sym (if_neg (text_discrete w.id k) other (some w) (where_id k vs)))
        | yes here ↦
            if_pos (text_discrete w.id k) here _ _
            ∙ sym (if_pos (text_discrete w.id k) here (some w) (where_id k vs))
            ∙ sym (if_neg (text_discrete v.id k) (λ e. apart (here ∙ sym e)) (some v) _)
      ]
]

pub insert_vhtlc_done :
    (v : Vhtlc) (s : Tables)
    → (insert_vhtlc v s).0 ≡ none
    → (where_id v.id s.vhtlc ≡ none)
      × ((k : String)
          → where_id k (insert_vhtlc v s).1.vhtlc
            ≡ ite (text_discrete v.id k) (some v) (where_id k s.vhtlc))
unfolding insert_vhtlc
insert_vhtlc_done v s e = elim (Option-cases (where_id v.id s.vhtlc)) [
  | inr (w, taken) ↦ cc (rw (taken, insert_vhtlc) at e)
  | inl free ↦ rw (free, insert_vhtlc) (refl, λ k. where_id-append k s.vhtlc v free)
]

pub insert_vhtlc_failed :
    (v : Vhtlc) (s : Tables) (x : SqlError)
    → (insert_vhtlc v s).0 ≡ some x
    → (insert_vhtlc v s).1.vhtlc ≡ s.vhtlc
unfolding insert_vhtlc
insert_vhtlc_failed v s x e = elim (Option-cases (where_id v.id s.vhtlc)) [
  | inr (w, taken) ↦ rw (taken, insert_vhtlc) refl
  | inl free ↦ cc (rw (free, insert_vhtlc) at e)
]

pub insert_vhtlc_legacy :
    (v : Vhtlc) (s : Tables) → (insert_vhtlc v s).1.vhtlc_legacy ≡ s.vhtlc_legacy
unfolding insert_vhtlc
insert_vhtlc_legacy v s = elim (Option-cases (where_id v.id s.vhtlc)) [
  | inr (w, taken) ↦ rw (taken, insert_vhtlc) refl
  | inl free ↦ rw (free, insert_vhtlc) refl
]

-- The repository as the migration sees it.
unfoldable pub sqlite_repository : LegacyVhtlcStore
unfolding drop_legacy
sqlite_repository = record {
  Store = Tables;
  Error = SqlError;
  has_legacy = has_legacy;
  get_legacy = get_legacy;
  drop_legacy = drop_legacy;
  get = select_vhtlc;
  add = insert_vhtlc;
  legacy = λ s. s.vhtlc_legacy;
  row = λ s k. where_id k s.vhtlc;
  has_legacy_done = has_legacy_done;
  get_legacy_done = get_legacy_done;
  drop_legacy_done = λ s e. refl;
  drop_legacy_row = λ s k. refl;
  get_done = select_vhtlc_done;
  add_done = insert_vhtlc_done;
  add_failed = λ v s x e k. ap (where_id k) (insert_vhtlc_failed v s x e);
  add_legacy = insert_vhtlc_legacy;
}

pub sqlite_repository-ReadsSucceed : ReadsSucceed sqlite_repository
unfolding sqlite_repository
sqlite_repository-ReadsSucceed k v s here = select_vhtlc_finds k v s here
