-- ===== src/Domain/Repository.antt =====
-- `DelegateRepository` of internal/core/domain/delegate.go as an interface: its calls, and the laws
-- that its comments and its users rest on. A call that returns only an error returns `none` for nil.
use fulmine.Base.{
  All, ◌≡◌, Bool, true, false, ◌⊎◌, String, List, [], ◌∷◌, Option, none, some, ite, Result, ok, Any,
  contains, text_discrete, if◌then◌else◌,
}
use fulmine.Domain.{
  Outpoint, outpoint_discrete, DelegateTask, DelegateTaskStatus, PendingDelegateTask, pending,
  completed, failed, cancelled,
}

pub data RepoError : Type 0 where
  task_not_found duplicate_task bad_intent bad_inputs bad_hash bad_forfeits no_colon bad_index :
      RepoError
  backend : String → RepoError

abbrev pub is_pending : DelegateTaskStatus → Bool
is_pending pending = true
is_pending _ = false

-- The three ways in which a pending task ends.
unfoldable pub cancel : DelegateTask → DelegateTask
cancel t = record t { status = cancelled }

unfoldable pub complete : String → DelegateTask → DelegateTask
complete txid t = record t { status = completed; commitment_txid = txid }

unfoldable pub fail : String → DelegateTask → DelegateTask
fail reason t = record t { status = failed; fail_reason = reason }

-- Some input of the first list stands in the second.
unfoldable pub overlaps : List Outpoint → List Outpoint → Bool
overlaps [] ys = false
overlaps (x ∷ xs) ys =
    let rest = overlaps xs ys in if contains outpoint_discrete x ys then true else rest

-- What a store keeps of a task: all but the fraction of a second of its time, and the order of its
-- forfeit map.
pub record IsKept (t u : DelegateTask) : Type 0 where
  pub same_id : u.id ≡ t.id
  pub same_intent : u.intent ≡ t.intent
  pub same_fee : u.fee ≡ t.fee
  pub same_key : u.delegate_public_key ≡ t.delegate_public_key
  pub same_status : u.status ≡ t.status
  pub same_reason : u.fail_reason ≡ t.fail_reason
  pub same_commitment : u.commitment_txid ≡ t.commitment_txid

-- A pending task was ended by `f`.
abbrev pub EndsAs :
    (DelegateTask → DelegateTask) → Option DelegateTask → Option DelegateTask → Type 0
EndsAs f before after =
    (t : DelegateTask) × (before ≡ some t)
    × (is_pending t.status ≡ true)
    × ((u : DelegateTask) × (after ≡ some u) × IsKept (f t) u)

-- A call that ends tasks. Each task is as before, or was pending, is of the list, and is ended;
-- without an error every pending task of the list is ended.
pub record Ends {Store : Type 0} (tasks : Store → String → Option DelegateTask)
    (f : DelegateTask → DelegateTask) (ids : List String) (s : Store) (r : Option RepoError × Store)
    : Type 0 where
  pub either :
      (j : String)
      → (tasks r.1 j ≡ tasks s j)
        ⊎ ((contains text_discrete j ids ≡ true) × EndsAs f (tasks s j) (tasks r.1 j))
  pub ended :
      r.0 ≡ none
      → (j : String) (t : DelegateTask) → contains text_discrete j ids ≡ true
      → tasks s j ≡ some t
      → is_pending t.status ≡ true
      → EndsAs f (tasks s j) (tasks r.1 j)

pub record DelegateRepository : Type 1 where
  pub Store : Type 0
  pub IsWellFormed : Store → Type 0
  -- The tasks that the store can take.
  pub CanStore : DelegateTask → Type 0
  pub IsInput : Outpoint → Type 0
  -- The abstract store: what is kept under an id.
  pub tasks : Store → String → Option DelegateTask
  pub add : DelegateTask → Store → Option RepoError × Store
  pub get_by_id : String → Store → Result RepoError DelegateTask
  pub get_all_pending : Store → Result RepoError (List PendingDelegateTask)
  pub get_pending_task_by_intent_txid : String → Store → Result RepoError PendingDelegateTask
  pub get_pending_task_ids_by_inputs : List Outpoint → Store → Result RepoError (List String)
  pub cancel_tasks : List String → Store → Option RepoError × Store
  pub complete_tasks : String → List String → Store → Option RepoError × Store
  pub fail_tasks : String → List String → Store → Option RepoError × Store
  pub add_keeps :
      (t : DelegateTask) (s : Store) → CanStore t → IsWellFormed s → IsWellFormed (add t s).1
  pub add_done :
      (t : DelegateTask) (s : Store)
      → CanStore t
      → IsWellFormed s
      → (add t s).0 ≡ none
      → (tasks s t.id ≡ none)
        × ((u : DelegateTask) × IsKept t u
            × ((j : String)
                → tasks (add t s).1 j ≡ ite (text_discrete t.id j) (some u) (tasks s j)))
  pub add_failed :
      (t : DelegateTask) (s : Store) (e : RepoError)
      → (add t s).0 ≡ some e
      → (j : String) → tasks (add t s).1 j ≡ tasks s j
  pub get_by_id_done :
      (id : String) (s : Store) (t : DelegateTask)
      → IsWellFormed s
      → get_by_id id s ≡ ok t
      → tasks s id ≡ some t
  pub task_id :
      (j : String) (s : Store) (t : DelegateTask) → IsWellFormed s → tasks s j ≡ some t → t.id ≡ j
  pub all_pending_complete :
      (s : Store) (ps : List PendingDelegateTask) (j : String) (t : DelegateTask)
      → IsWellFormed s
      → get_all_pending s ≡ ok ps
      → tasks s j ≡ some t
      → is_pending t.status ≡ true
      → Any (λ p. p.id ≡ j) ps
  pub by_intent_txid_done :
      (txid : String) (s : Store) (p : PendingDelegateTask)
      → IsWellFormed s
      → get_pending_task_by_intent_txid txid s ≡ ok p
      → (t : DelegateTask) × (tasks s p.id ≡ some t)
        × (is_pending t.status ≡ true)
        × (t.intent.txid ≡ txid)
  pub by_inputs_complete :
      (ins : List Outpoint) (s : Store) (ids : List String) (j : String) (t : DelegateTask)
      → IsWellFormed s
      → get_pending_task_ids_by_inputs ins s ≡ ok ids
      → tasks s j ≡ some t
      → is_pending t.status ≡ true
      → overlaps t.intent.inputs ins ≡ true
      → contains text_discrete j ids ≡ true
  pub by_inputs_sound :
      (ins : List Outpoint) (s : Store) (ids : List String) (j : String)
      → All IsInput ins
      → IsWellFormed s
      → get_pending_task_ids_by_inputs ins s ≡ ok ids
      → contains text_discrete j ids ≡ true
      → (t : DelegateTask) × (tasks s j ≡ some t)
        × (is_pending t.status ≡ true)
        × (overlaps t.intent.inputs ins ≡ true)
  pub cancel_keeps :
      (ids : List String) (s : Store) → IsWellFormed s → IsWellFormed (cancel_tasks ids s).1
  pub cancel_ends :
      (ids : List String) (s : Store)
      → IsWellFormed s
      → Ends tasks cancel ids s (cancel_tasks ids s)
  pub complete_keeps :
      (txid : String) (ids : List String) (s : Store)
      → IsWellFormed s
      → IsWellFormed (complete_tasks txid ids s).1
  pub complete_ends :
      (txid : String) (ids : List String) (s : Store)
      → IsWellFormed s
      → Ends tasks (complete txid) ids s (complete_tasks txid ids s)
  pub fail_keeps :
      (reason : String) (ids : List String) (s : Store)
      → IsWellFormed s
      → IsWellFormed (fail_tasks reason ids s).1
  pub fail_ends :
      (reason : String) (ids : List String) (s : Store)
      → IsWellFormed s
      → Ends tasks (fail reason) ids s (fail_tasks reason ids s)
