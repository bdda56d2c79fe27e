-- ===== src/Subscription/Events.antt =====
-- The goroutine of `start` in internal/core/application/subscription.go, which reads the channel of a
-- subscription.
use fulmine.Base.{Bool, true, false, String, List, [], ◌∷◌, Option, none, some}

-- `StreamConnectionState` of the client library.
pub data ConnectionState : Type 0 where
  disconnected reconnected ready : ConnectionState
  other_state : String → ConnectionState

-- `Connection` is nil for an event that carries transactions.
pub record ScriptEvent : Type 0 where
  pub connection : Option ConnectionState
  pub tx : String

-- What `select` sees: a context that is done, a channel that is closed, or an event.
pub data Received : Type 0 where
  done closed : Received
  event : ScriptEvent → Received

-- `waitForReconnection` after a change of the connection.
unfoldable pub after_connection : Bool → ConnectionState → Bool
after_connection waits disconnected = true
after_connection waits reconnected = waits
after_connection waits ready = false
after_connection waits (other_state s) = waits

-- The loop: what it hands to `onEvent`, with the flag that it ends with.
unfoldable pub listen : Bool → List Received → Bool × List ScriptEvent
unfolding after_connection
listen waits [] = (waits, [])
listen waits (done ∷ rest) = (waits, [])
listen waits (closed ∷ rest) = (waits, [])
listen waits (event e ∷ rest) = elim e.connection [
  | some state ↦ listen (after_connection waits state) rest
  | none ↦ let (waits', events) = listen waits rest in (waits', e ∷ events)
]
