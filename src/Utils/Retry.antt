-- ===== src/Utils/Retry.antt =====
-- utils/retry.go: a call that is repeated until it is done, fails, or its context ends.
use fulmine.Base.{Bool, String, List, [], ◌∷◌, Option, none, some, Result, ok, err, if◌then◌else◌}

-- A round: how the context has ended, if it has, and what the call answers if it is made.
pub data ContextError : Type 0 where
  deadline_exceeded canceled : ContextError

pub record Round : Type 0 where
  pub ended : Option ContextError
  pub answer : Result String Bool

pub data RetryError : Type 0 where
  timed_out canceled_context : RetryError
  call_failed : String → RetryError

abbrev pub context_error : ContextError → RetryError
context_error deadline_exceeded = timed_out
context_error canceled = canceled_context

-- `Retry` over its rounds; nothing comes of rounds that do not end it.
unfoldable pub retry : List Round → Option (Option RetryError)
retry [] = none
retry (r ∷ rs) =
    let rest = retry rs in
    elim r.ended [
      | some e ↦ some (some (context_error e))
      | none ↦ elim r.answer [
        | err e ↦ some (some (call_failed e))
        | ok done ↦ if done then some none else rest
      ]
    ]
