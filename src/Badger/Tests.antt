-- ===== src/Badger/Tests.antt =====
-- Examples for the store of internal/infrastructure/db/badger/delegate_repo.go, on a database of rows.
use fulmine.Domain.Repository.{complete}
use fulmine.Badger.DelegateRepo.Races.{
  Half, begins, finishes, as_cancelled, as_completed, StaysEnded, run_halves, run_halves-StaysEnded,
}
use fulmine.Badger.DelegateRepo.{first_with_txid}
use fulmine.Badger.DelegateRepo.{has_overlap}
use fulmine.Badger.Memory.{collect}
use fulmine.Badger.DelegateRepo.{ids_with_overlap}
use fulmine.Badger.Memory.{update_row}
use fulmine.Badger.Memory.{get_row}
use fulmine.Badger.DelegateRepo.{get_by_id}
use fulmine.Badger.DelegateRepo.{mark_task}
use fulmine.Base.{
  ℕ, ◌≡◌, refl, sym, ◌∙◌, true, false, arith, inr, String, Text, List, [], ◌∷◌, Option, none, some,
  ok, All, contains, text_discrete,
}
use fulmine.Base.Int.{pos}
use fulmine.Domain.{Outpoint, outpoint_discrete, DelegateTask, pending}
use fulmine.Domain.Status.{codes}
use fulmine.Domain.Repository.{cancel, EndsAs, overlaps}
use fulmine.Domain.Ending.{cancel-IsEnding}
use fulmine.Badger.Hold.{Badgerhold}
use fulmine.Badger.Memory.{memory, no_rows, row-no_rows, lookup, insert_row, memory-ReadsSucceed}
use fulmine.Badger.Dto.{DelegateTaskDto, to_delegate_task, to_delegate_task_data}
use fulmine.Base.Maps.{get}
use fulmine.Clock.{unix, time_unix}
use fulmine.Badger.Dto.RoundTrip.{
  IsOutpoint, IsStorable, HasOutpoint, to_delegate_task-to_delegate_task_data,
}
use fulmine.Badger.DelegateRepo.{
  tasks, task_of, add, mark_tasks, get_pending_task_ids_by_inputs, get_all_pending,
  get_pending_task_by_intent_txid,
}
use fulmine.Badger.DelegateRepo.Marks.{mark_tasks-EndsAs, mark_tasks-unmoved}
use fulmine.Badger.DelegateRepo.Queries.{by_inputs_complete}
use fulmine.Badger.DelegateRepo.Rows.{IsWellFormed, add_keeps}

-- Hashes that are read as they are written.
abbrev pub new_hash : Text → Option Text
new_hash = λ h. some h

abbrev pub coin : String → ℕ → Outpoint
coin h i = record { hash = codes h; index = i }

-- A pending task that spends one outpoint.
abbrev pub task_of_coin : String → String → Outpoint → DelegateTask
task_of_coin id txid o = record {
  id = id;
  intent = record { message = "m"; proof = "p"; txid = txid; inputs = o ∷ [] };
  forfeit_txs = (o, "forfeit") ∷ [];
  fee = 10;
  delegate_public_key = "key";
  scheduled_at = pos 63000000000000000000;
  status = pending;
  fail_reason = "";
  commitment_txid = "";
}

abbrev pub coin_a : Outpoint
coin_a = coin "aa" 7

abbrev pub coin_b : Outpoint
coin_b = coin "bb" 0

abbrev pub first_task : DelegateTask
first_task = task_of_coin "1" "x" coin_a

pub coin-IsOutpoint : (h : String) → IsOutpoint new_hash (coin h 7)
coin-IsOutpoint h = record { hash_read_back = refl; index_fits = omega arith }

pub task_of_coin-IsStorable :
    (id txid : String) (o : Outpoint)
    → IsOutpoint new_hash o
    → IsStorable new_hash (task_of_coin id txid o)
task_of_coin-IsStorable id txid o h = record { good_inputs = (h, tt); good_forfeits = (h, tt) }

pub first_task-IsStorable : IsStorable new_hash first_task
first_task-IsStorable = task_of_coin-IsStorable "1" "x" coin_a (coin-IsOutpoint "aa")

abbrev pub rows : Badgerhold DelegateTaskDto
rows = memory

abbrev pub start : rows.Store
start = no_rows DelegateTaskDto

pub start-IsWellFormed : IsWellFormed new_hash rows start
start-IsWellFormed k d e = absurd (nothing (sym (row-no_rows DelegateTaskDto k) ∙ e))
  where
    nothing : {d : DelegateTaskDto} → none ≡ some d → ⊥
    nothing e = cc

pub tasks-start : (k : String) → tasks new_hash rows start k ≡ none
unfolding tasks task_of
tasks-start k = rw (row-no_rows DelegateTaskDto k)

abbrev pub one_row : rows.Store
one_row = (add new_hash rows first_task start).1

pub one_row-IsWellFormed : IsWellFormed new_hash rows one_row
one_row-IsWellFormed =
    add_keeps new_hash rows first_task start first_task-IsStorable start-IsWellFormed

pub tasks_one : tasks new_hash rows one_row "1" ≡ some first_task
unfolding tasks add memory lookup insert_row to_delegate_task to_delegate_task_data no_rows
tasks_one = refl

to_delegate_task-to_delegate_task_data_example :
    (m : List (Outpoint × String)) × (to_delegate_task new_hash (to_delegate_task_data first_task)
      ≡ ok (record first_task {
        forfeit_txs = m;
        scheduled_at = time_unix (unix first_task.scheduled_at);
      }))
    × ((p : Outpoint)
        → IsOutpoint new_hash p
        → get outpoint_discrete p m ≡ get outpoint_discrete p first_task.forfeit_txs)
    × All (HasOutpoint new_hash) m
to_delegate_task-to_delegate_task_data_example =
    to_delegate_task-to_delegate_task_data new_hash first_task first_task-IsStorable

-- What the store answers.
one_row-cancelled : (mark_tasks new_hash rows cancel ("1" ∷ []) one_row).0 ≡ none
unfolding mark_tasks mark_task get_by_id memory get_row add insert_row no_rows to_delegate_task
    to_delegate_task_data update_row
one_row-cancelled = refl

not_listed : contains text_discrete "1" ("2" ∷ []) ≡ false
unfolding text_discrete
not_listed = refl

listed : contains text_discrete "1" ("1" ∷ []) ≡ true
unfolding text_discrete
listed = refl

found_by_inputs :
    get_pending_task_ids_by_inputs new_hash rows (coin_b ∷ coin_a ∷ []) one_row ≡ ok ("1" ∷ [])
unfolding get_pending_task_ids_by_inputs memory ids_with_overlap collect add insert_row no_rows
    to_delegate_task_data has_overlap
found_by_inputs = refl

found_pending :
    get_all_pending new_hash rows one_row
    ≡ ok (record { id = "1"; scheduled_at = first_task.scheduled_at } ∷ [])
unfolding get_all_pending memory collect add insert_row no_rows to_delegate_task_data time_unix
found_pending = refl

found_by_txid :
    get_pending_task_by_intent_txid new_hash rows "x" one_row
    ≡ ok (record { id = "1"; scheduled_at = first_task.scheduled_at })
unfolding get_pending_task_by_intent_txid memory first_with_txid collect add insert_row no_rows
    to_delegate_task_data time_unix
found_by_txid = refl

overlap : overlaps first_task.intent.inputs (coin_b ∷ coin_a ∷ []) ≡ true
unfolding overlaps outpoint_discrete
overlap = refl

added : (add new_hash rows first_task start).0 ≡ none
unfolding add memory insert_row no_rows
added = refl

mark_tasks-EndsAs_example :
    EndsAs cancel
      (tasks new_hash rows one_row "1")
      (tasks new_hash rows (mark_tasks new_hash rows cancel ("1" ∷ []) one_row).1 "1")
mark_tasks-EndsAs_example =
    mark_tasks-EndsAs new_hash rows cancel cancel-IsEnding ("1" ∷ []) one_row "1" first_task
      memory-ReadsSucceed one_row-IsWellFormed one_row-cancelled listed tasks_one refl

mark_tasks-unmoved_example :
    tasks new_hash rows (mark_tasks new_hash rows cancel ("2" ∷ []) one_row).1 "1" ≡ some first_task
mark_tasks-unmoved_example =
    mark_tasks-unmoved new_hash rows cancel cancel-IsEnding ("2" ∷ []) one_row "1" first_task
      one_row-IsWellFormed tasks_one (inr not_listed)

by_inputs_complete_example : contains text_discrete "1" ("1" ∷ []) ≡ true
by_inputs_complete_example =
    by_inputs_complete new_hash rows (coin_b ∷ coin_a ∷ []) one_row ("1" ∷ []) "1" first_task
      one_row-IsWellFormed found_by_inputs tasks_one refl overlap

-- A completion that was read before a cancellation, and is written after it.
abbrev crossing : List Half
crossing = begins (as_completed "c") "1" ∷ begins as_cancelled "1" ∷ finishes 0 ∷ finishes 0 ∷ []

run_halves-StaysEnded_example :
    (u : DelegateTask) × (tasks new_hash rows
        (run_halves new_hash rows crossing (record { store = one_row; held = [] })).store
        "1"
      ≡ some u)
    × StaysEnded first_task u
run_halves-StaysEnded_example =
    run_halves-StaysEnded new_hash rows crossing one_row "1" first_task one_row-IsWellFormed
      tasks_one

-- The cancellation is overwritten.
cancellation_lost :
    tasks new_hash rows
      (run_halves new_hash rows crossing (record { store = one_row; held = [] })).store
      "1"
    ≡ some (complete "c" first_task)
unfolding run_halves tasks memory lookup get_by_id get_row add insert_row no_rows to_delegate_task
    to_delegate_task_data update_row complete
cancellation_lost = refl
