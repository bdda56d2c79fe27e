-- ===== src/Badger/Hold.antt =====
-- The badgerhold database that the stores of internal/infrastructure/db/badger call. It is not part
-- of this repository: its calls are parameters, with what its documentation says of them.
use fulmine.Base.{
  ◌≡◌, ◌≢◌, Bool, true, String, List, Option, none, some, ite, Result, ok, err, Any, text_discrete,
}

pub data HoldError : Type 0 where
  not_found key_exists : HoldError
  failure : String → HoldError

-- The error of a call that returns only an error is `none` for nil.
pub record Badgerhold (Row : Type 0) : Type 1 where
  pub Store : Type 0
  pub insert : String → Row → Store → Option HoldError × Store
  pub get : String → Store → Result HoldError Row
  pub find : (Row → Bool) → Store → Result HoldError (List Row)
  pub update : String → Row → Store → Option HoldError × Store
  pub delete : String → Store → Option HoldError × Store
  -- What the database holds under a key.
  pub row : Store → String → Option Row
  pub insert_done :
      (k : String) (r : Row) (s : Store)
      → (insert k r s).0 ≡ none
      → (row s k ≡ none)
        × ((j : String) → row (insert k r s).1 j ≡ ite (text_discrete k j) (some r) (row s j))
  pub insert_failed :
      (k : String) (r : Row) (s : Store) (e : HoldError)
      → (insert k r s).0 ≡ some e
      → (j : String) → row (insert k r s).1 j ≡ row s j
  pub insert_refused :
      (k : String) (r : Row) (s : Store) → (insert k r s).0 ≡ some key_exists → row s k ≢ none
  pub delete_done :
      (k : String) (s : Store)
      → (delete k s).0 ≡ none
      → (row s k ≢ none)
        × ((j : String) → row (delete k s).1 j ≡ ite (text_discrete k j) none (row s j))
  pub delete_failed :
      (k : String) (s : Store) (e : HoldError)
      → (delete k s).0 ≡ some e
      → (j : String) → row (delete k s).1 j ≡ row s j
  pub delete_refused : (k : String) (s : Store) → (delete k s).0 ≡ some not_found → row s k ≡ none
  pub update_done :
      (k : String) (r : Row) (s : Store)
      → (update k r s).0 ≡ none
      → (row s k ≢ none)
        × ((j : String) → row (update k r s).1 j ≡ ite (text_discrete k j) (some r) (row s j))
  pub update_failed :
      (k : String) (r : Row) (s : Store) (e : HoldError)
      → (update k r s).0 ≡ some e
      → (j : String) → row (update k r s).1 j ≡ row s j
  pub get_done : (k : String) (s : Store) (r : Row) → get k s ≡ ok r → row s k ≡ some r
  pub find_sound :
      (p : Row → Bool) (s : Store) (rs : List Row)
      → find p s ≡ ok rs
      → (r : Row) → Any (λ x. x ≡ r) rs
      → (p r ≡ true) × ((k : String) × (row s k ≡ some r))
  pub find_complete :
      (p : Row → Bool) (s : Store) (rs : List Row)
      → find p s ≡ ok rs
      → (k : String) (r : Row) → row s k ≡ some r
      → p r ≡ true
      → Any (λ x. x ≡ r) rs
  pub find_refused :
      (p : Row → Bool) (s : Store)
      → find p s ≡ err not_found
      → (k : String) (r : Row) → row s k ≡ some r
      → p r ≢ true

-- A read finds what is there: the assumption under which a loop that skips a failing read still
-- meets every row. A read that fails for another reason is shown as `failure`.
abbrev pub ReadsSucceed : {Row : Type 0} → Badgerhold Row → Type 0
ReadsSucceed {Row} b = (k : String) (r : Row) (s : b.Store) → b.row s k ≡ some r → b.get k s ≡ ok r
