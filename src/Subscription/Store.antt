-- ===== src/Subscription/Store.antt =====
-- `scriptsStore` of internal/core/application/subscription.go: the calls that the subscription
-- handler makes of the store of scripts, with the finite set of scripts that they stand for.
use fulmine.Base.{
  ◌≡◌, ℕ, Bool, not, ◌&&◌, ◌||◌, String, List, Option, none, Result, ok, contains, text_discrete,
}

pub record ScriptsStore : Type 1 where
  pub Store : Type 0
  pub Error : Type 0
  pub get : Store → Result Error (List String)
  pub add : List String → Store → (ℕ × Option Error) × Store
  pub delete : List String → Store → (ℕ × Option Error) × Store
  -- The set that a store stands for.
  pub holds : Store → String → Bool
  pub IsValid : Store → Type 0
  pub add_valid : (xs : List String) (s : Store) → IsValid s → IsValid (add xs s).1
  pub delete_valid : (xs : List String) (s : Store) → IsValid s → IsValid (delete xs s).1
  pub get_done :
      (s : Store) (xs : List String)
      → IsValid s
      → get s ≡ ok xs
      → (k : String) → contains text_discrete k xs ≡ holds s k
  pub add_done :
      (xs : List String) (s : Store)
      → (add xs s).0.1 ≡ none
      → (k : String) → holds (add xs s).1 k ≡ contains text_discrete k xs || holds s k
  pub add_same :
      (xs : List String) (s : Store)
      → (add xs s).0 ≡ (0, none)
      → (k : String) → holds (add xs s).1 k ≡ holds s k
  pub delete_done :
      (xs : List String) (s : Store)
      → (delete xs s).0.1 ≡ none
      → (k : String) → holds (delete xs s).1 k ≡ holds s k && not (contains text_discrete k xs)
  pub delete_same :
      (xs : List String) (s : Store)
      → (delete xs s).0 ≡ (0, none)
      → (k : String) → holds (delete xs s).1 k ≡ holds s k
