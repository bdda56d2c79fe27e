-- ===== src/Handlers/ListDelegates.antt =====
-- `ListDelegates` of internal/interface/grpc/handlers/service_handler.go over the badger store.
use mathlib.Core.List.{Perm}
use fulmine.Badger.DelegateRepo.Sorted.{LatestFirst, sort-LatestFirst, sort-Perm}
use fulmine.Base.{
  ◌≡◌, refl, ◌⊎◌, ltb→lt, ap, ℕ, zero, suc, ◌≤◌, ◌<◌, ◌==◌, Text, List, [], ◌∷◌, Option, Result, ok,
  err, ltb, take, drop, Bool-cases, inl, inr, if◌then◌else◌, arith,
}
use fulmine.Base.Int.{pos, two32}
use fulmine.Domain.{DelegateTask, DelegateTaskStatus}
use fulmine.Domain.Status.{Error, from_string}
use fulmine.Badger.Hold.{Badgerhold}
use fulmine.Badger.Dto.{DelegateTaskDto}
use fulmine.Badger.DelegateRepo.Pages.{
  PageError, get_all, get_all-take, status_number, sort_by_schedule, to_tasks,
}

pub data ListError : Type 0 where
  status_required : ListError
  bad_status : Error → ListError
  internal : PageError → ListError

-- The limit of a request: 100 if it names none, and 1000 at most.
unfoldable pub page_limit : ℕ → ℕ
page_limit zero = 100
page_limit (suc n) = if ltb 1000 (suc n) then 1000 else suc n

abbrev pub list_result : Result PageError (List DelegateTask) → Result ListError (List DelegateTask)
list_result (err e) = err (internal e)
list_result (ok tasks) = ok tasks

module _ (new_hash : Text → Option Text) (b : Badgerhold DelegateTaskDto) where
  -- The limit and the offset are a request's uint32.
  unfoldable pub list_delegates : Text → ℕ → ℕ → b.Store → Result ListError (List DelegateTask)
  unfolding from_string get_all page_limit
  list_delegates [] limit offset s = err status_required
  list_delegates (c ∷ cs) limit offset s = elim (from_string (c ∷ cs)) [
    | err e ↦ err (bad_status e)
    | ok delegate_status ↦
        list_result (get_all new_hash b delegate_status (pos (page_limit limit)) (pos offset) s)
  ]

-- How many tasks a request gets at most: as many as it names, but 100 if it names none, and never more
-- than 1000.
abbrev pub IsLimit : ℕ → ℕ → Type 0
IsLimit limit l =
    ((limit ≡ 0) × (l ≡ 100))
    ⊎ (((0 < limit) × (limit ≤ 1000) × (l ≡ limit)) ⊎ ((1000 < limit) × (l ≡ 1000)))

page_limit-IsLimit : (limit : ℕ) → IsLimit limit (page_limit limit)
unfolding page_limit
page_limit-IsLimit zero = inl (refl, refl)
page_limit-IsLimit (suc n) = elim (Bool-cases (ltb 1000 (suc n))) [
  | inl long ↦ rw (long, page_limit) (inr (inr (ltb→lt 1000 (suc n) long, refl)))
  | inr short ↦ rw (short, page_limit) (inr (inl (omega arith, ground arith, refl)))
]

IsLimit-bounds : (limit l : ℕ) → IsLimit limit l → (0 < l) × (l ≤ 1000)
IsLimit-bounds limit l (inl (_, e)) = (omega (arith, e), omega (arith, e))
IsLimit-bounds limit l (inr (inl (some_limit, low, e))) =
    (omega (arith, some_limit, e), omega (arith, low, e))
IsLimit-bounds limit l (inr (inr (_, e))) = (omega (arith, e), omega (arith, e))

module _ (new_hash : Text → Option Text) (b : Badgerhold DelegateTaskDto) where
  -- A request's list is a page of the tasks of its status, in an order that has the latest scheduled
  -- first: from its offset on, and as many as its limit says, 100 if it names none and never more than
  -- 1000. No index is out of range. The status is a known one, and the database finds the rows.
  pub list_delegates-take :
      (c : ℕ) (cs : Text) (limit offset : ℕ) (status : DelegateTaskStatus) (s : b.Store)
      (rows : List DelegateTaskDto)
      → offset < two32
      → from_string (c ∷ cs) ≡ ok status
      → b.find (λ d. status_number d.status == status_number status) s ≡ ok rows
      → (sorted : List DelegateTaskDto) × (l : ℕ) × Perm sorted rows
        × LatestFirst sorted
        × IsLimit limit l
        × (list_delegates new_hash b (c ∷ cs) limit offset s
            ≡ list_result (to_tasks new_hash (take l (drop offset sorted))))
  unfolding list_delegates
  list_delegates-take c cs limit offset status s rows small known got =
      let is_limit = page_limit-IsLimit limit in
      let (some_limit, low) = IsLimit-bounds limit (page_limit limit) is_limit in
      (
        sort_by_schedule rows,
        page_limit limit,
        sort-Perm rows,
        sort-LatestFirst rows,
        is_limit,
        rw (known, list_delegates)
            (ap list_result (
              get_all-take new_hash b status (page_limit limit) offset s rows some_limit
                (omega (arith, low, small)) got)),
      )
