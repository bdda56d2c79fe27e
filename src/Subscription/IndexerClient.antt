-- ===== src/Subscription/IndexerClient.antt =====
-- The client of the indexer that internal/core/application/subscription.go calls
-- (github.com/arkade-os/arkd/pkg/client-lib/indexer). It is not part of this repository: its calls
-- are parameters, with what its documentation says of the scripts of a subscription.
use fulmine.Base.{
  ◌≡◌, ◌≢◌, Bool, not, ◌&&◌, ◌||◌, String, List, Option, none, Result, ok, contains, text_discrete,
}

pub record Indexer : Type 1 where
  pub State : Type 0
  pub new_subscription : List String → State → Result String String × State
  -- The id, the scripts to add and those to remove.
  pub update_subscription : String → List String → List String → State → Option String × State
  -- The function that closes a subscription, which `NewSubscription` returns.
  pub close : String → State → State
  -- Whether the subscription of an id is for a script.
  pub watches : State → String → String → Bool
  pub new_done :
      (scripts : List String) (id : String) (s : State)
      → (new_subscription scripts s).0 ≡ ok id
      → (id ≢ "")
        × ((k : String)
            → watches (new_subscription scripts s).1 id k ≡ contains text_discrete k scripts)
  pub update_done :
      (id : String) (added removed : List String) (s : State)
      → (update_subscription id added removed s).0 ≡ none
      → (k : String)
      → watches (update_subscription id added removed s).1 id k
        ≡ (watches s id k || contains text_discrete k added)
          && not (contains text_discrete k removed)
