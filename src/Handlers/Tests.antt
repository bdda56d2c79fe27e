-- ===== src/Handlers/Tests.antt =====
-- `ListDelegates` of internal/interface/grpc/handlers/service_handler.go at work.
use mathlib.Core.List.{Perm}
use fulmine.Badger.DelegateRepo.Sorted.{LatestFirst}
use fulmine.Badger.Dto.{to_delegate_task}
use fulmine.Badger.Memory.{no_rows}
use fulmine.Badger.Memory.{insert_row}
use fulmine.Badger.DelegateRepo.{add}
use fulmine.Badger.Memory.{collect}
use fulmine.Badger.Memory.{memory}
use fulmine.Base.{◌≡◌, refl, ℕ, ◌==◌, Text, List, [], ◌∷◌, ok, err, take, drop, arith}
use fulmine.Domain.{pending}
use fulmine.Domain.Status.{from_string}
use fulmine.Badger.Dto.{DelegateTaskDto, to_delegate_task_data}
use fulmine.Badger.Tests.{new_hash, rows, one_row, first_task}
use fulmine.Badger.DelegateRepo.Pages.{status_number, to_tasks}
use fulmine.Handlers.ListDelegates.{
  status_required, IsLimit, list_result, list_delegates, list_delegates-take,
}

-- "ending" behind a p.
abbrev word_rest : Text
word_rest = 101 ∷ 110 ∷ 100 ∷ 105 ∷ 110 ∷ 103 ∷ []

abbrev found_rows : List DelegateTaskDto
found_rows = to_delegate_task_data first_task ∷ []

known : from_string (112 ∷ word_rest) ≡ ok pending
unfolding from_string
known = refl

found : rows.find (λ d. status_number d.status == status_number pending) one_row ≡ ok found_rows
unfolding memory collect add insert_row no_rows to_delegate_task_data
found = refl

no_status : list_delegates new_hash rows [] 10 0 one_row ≡ err status_required
unfolding list_delegates
no_status = refl

first_listed : list_delegates new_hash rows (112 ∷ word_rest) 0 0 one_row ≡ ok (first_task ∷ [])
unfolding list_delegates memory collect add insert_row no_rows to_delegate_task_data
    to_delegate_task
first_listed = refl

none_beyond : list_delegates new_hash rows (112 ∷ word_rest) 5000 7 one_row ≡ ok []
unfolding list_delegates memory collect add insert_row no_rows to_delegate_task_data
none_beyond = refl

list_delegates-take_example :
    (sorted : List DelegateTaskDto) × (l : ℕ) × Perm sorted found_rows
    × LatestFirst sorted
    × IsLimit 5000 l
    × (list_delegates new_hash rows (112 ∷ word_rest) 5000 7 one_row
        ≡ list_result (to_tasks new_hash (take l (drop 7 sorted))))
list_delegates-take_example =
    list_delegates-take new_hash rows 112 word_rest 5000 7 pending one_row found_rows (omega arith)
      known found
