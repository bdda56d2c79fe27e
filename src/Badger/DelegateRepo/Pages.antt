-- ===== src/Badger/DelegateRepo/Pages.antt =====
-- `GetAll` of internal/infrastructure/db/badger/delegate_repo.go: one page of the tasks of a status, the
-- latest scheduled first.
use fulmine.Base.{
  ◌≡◌, refl, sym, ap, ◌∙◌, ℕ, zero, suc, ◌+◌, ◌-◌, ◌≤◌, ◌<◌, true, false, Text, List, [], ◌∷◌,
  Option, Result, ok, err, length, length-drop, take, drop, ltb, ◌==◌, inl, inr, Bool-cases,
  if◌then◌else◌, arith, ltb→lt,
}
use fulmine.Base.Int.{
  ℤ, pos, negsuc, pos_part, ltb_ℤ, leb_ℤ, ◌+ℤ◌, wrap64, wrap64_of_IsInt64, two63,
}
use fulmine.Domain.{DelegateTask, DelegateTaskStatus, pending, completed, failed, cancelled, other}
use fulmine.Domain.Repository.{RepoError}
use fulmine.Badger.Hold.{Badgerhold}
use fulmine.Badger.Dto.{DelegateTaskDto, to_delegate_task}
use fulmine.Badger.DelegateRepo.{hold_error}

-- `index_out_of_range` is a panic.
pub data PageError : Type 0 where
  not_listed : RepoError → PageError
  bad_task : RepoError → PageError
  index_out_of_range : PageError

-- `sort.Slice` by `ScheduledAt`, in one of the orders that it may leave equal rows in.
unfoldable pub insert_by_schedule : DelegateTaskDto → List DelegateTaskDto → List DelegateTaskDto
insert_by_schedule d [] = d ∷ []
insert_by_schedule d (e ∷ es) =
    let rest = insert_by_schedule d es in
    if ltb_ℤ d.scheduled_at e.scheduled_at then e ∷ rest else d ∷ e ∷ es

unfoldable pub sort_by_schedule : List DelegateTaskDto → List DelegateTaskDto
unfolding insert_by_schedule
sort_by_schedule [] = []
sort_by_schedule (d ∷ ds) = insert_by_schedule d (sort_by_schedule ds)

module _ (new_hash : Text → Option Text) where
  -- The loop that converts the rows of the page.
  unfoldable pub to_tasks : List DelegateTaskDto → Result PageError (List DelegateTask)
  to_tasks [] = ok []
  to_tasks (d ∷ ds) =
      let rest = to_tasks ds in
      elim (to_delegate_task new_hash d) [
        | err e ↦ err (bad_task e)
        | ok task ↦ elim rest [ err e ↦ err e | ok tasks ↦ ok (task ∷ tasks) ]
      ]

  -- The rows between two indices.
  unfoldable pub slice : ℤ → ℤ → List DelegateTaskDto → Result PageError (List DelegateTask)
  unfolding to_tasks
  slice start end all_tasks = if leb_ℤ end start then ok [] else elim start [
    | negsuc n ↦ err index_out_of_range
    | pos n ↦ to_tasks (take (pos_part end - n) (drop n all_tasks))
  ]

-- The indices of the page, with Go's int for their sum.
unfoldable pub page_bounds : ℤ → ℤ → ℕ → ℤ × ℤ
unfolding wrap64 ◌+ℤ◌
page_bounds limit offset len =
    let start = if ltb_ℤ (pos len) offset then pos len else offset in
    let stop = wrap64 (start +ℤ limit) in (start, if ltb_ℤ (pos len) stop then pos len else stop)

-- A number of each status, as the code has it.
abbrev pub status_number : DelegateTaskStatus → ℕ
status_number pending = 0
status_number completed = 1
status_number failed = 2
status_number cancelled = 3
status_number (other n) = n

module _ (new_hash : Text → Option Text) (b : Badgerhold DelegateTaskDto) where
  -- `GetAll`
  unfoldable pub get_all :
      DelegateTaskStatus → ℤ → ℤ → b.Store → Result PageError (List DelegateTask)
  unfolding page_bounds slice sort_by_schedule
  get_all status limit offset s =
      elim (b.find (λ d. status_number d.status == status_number status) s) [
        | err e ↦ err (not_listed (hold_error e))
        | ok all_tasks ↦
            let (start, end) = page_bounds limit offset (length all_tasks) in
            slice new_hash start end (sort_by_schedule all_tasks)
      ]

take_all : {A : Type 0} (n : ℕ) (xs : List A) → length xs ≤ n → take n xs ≡ xs
take_all zero [] h = refl
take_all zero (x ∷ xs) h = absurd (omega (arith, h))
take_all (suc n) [] h = refl
take_all (suc n) (x ∷ xs) h = ap (λ r. x ∷ r) (take_all n xs (omega (arith, h)))

drop_all : {A : Type 0} (n : ℕ) (xs : List A) → length xs ≤ n → drop n xs ≡ []
drop_all zero [] h = refl
drop_all zero (x ∷ xs) h = absurd (omega (arith, h))
drop_all (suc n) [] h = refl
drop_all (suc n) (x ∷ xs) h = drop_all n xs (omega (arith, h))

sum_kept : (o l : ℕ) → o + l < two63 → wrap64 (pos o +ℤ pos l) ≡ pos (o + l)
unfolding ◌+ℤ◌
sum_kept o l h = wrap64_of_IsInt64 (pos o +ℤ pos l) (ground arith, ground arith) ∙ ground arith

bounds_beyond :
    (l o n : ℕ) → 0 < l → n < o → o + l < two63 → page_bounds (pos l) (pos o) n ≡ (pos n, pos n)
unfolding page_bounds
bounds_beyond l o n some_limit beyond small =
    let e1 : ltb_ℤ (pos n) (pos o) ≡ true = ground arith in
    let e2 : ltb_ℤ (pos n) (pos (n + l)) ≡ true = ground arith in
    rw (e1, sum_kept n l (omega (arith, beyond, small)), e2) refl

bounds_within :
    (l o n : ℕ)
    → o ≤ n
    → o + l < two63
    → page_bounds (pos l) (pos o) n ≡ (pos o, pos (if ltb n (o + l) then n else o + l))
unfolding page_bounds
bounds_within l o n within small =
    let e1 : ltb_ℤ (pos n) (pos o) ≡ false = ground arith in
    rw (e1, sum_kept o l small) (ground arith)

none_taken : {A : Type 0} (m n : ℕ) → take {A = A} n [] ≡ take m []
none_taken zero zero = refl
none_taken zero (suc n) = refl
none_taken (suc m) zero = refl
none_taken (suc m) (suc n) = refl

nothing_left :
    {A : Type 0} (l o : ℕ) (ts : List A)
    → length ts < o
    → take (length ts - length ts) (drop (length ts) ts) ≡ take l (drop o ts)
nothing_left l o ts beyond =
    rw (drop_all (length ts) ts (omega arith), drop_all o ts (omega (arith, beyond)))
      (none_taken l (length ts - length ts))

rest_taken :
    {A : Type 0} (l o : ℕ) (ts : List A)
    → take ((if ltb (length ts) (o + l) then length ts else o + l) - o) (drop o ts)
      ≡ take l (drop o ts)
rest_taken l o ts = elim (Bool-cases (ltb (length ts) (o + l))) [
  | inr longer ↦ rw longer (ap (λ n. take n (drop o ts)) (omega arith))
  | inl shorter ↦
      let short = ltb→lt (length ts) (o + l) shorter in
      rw shorter (
        take_all (length ts - o) (drop o ts) (omega (arith, length-drop o ts))
        ∙ sym (take_all l (drop o ts) (omega (arith, length-drop o ts, short))))
]

module _ (new_hash : Text → Option Text) where
  slice-pos :
      (a c : ℕ) (ts : List DelegateTaskDto)
      → slice new_hash (pos a) (pos c) ts ≡ to_tasks new_hash (take (c - a) (drop a ts))
  unfolding slice to_tasks
  slice-pos a c ts = elim (Bool-cases (leb_ℤ (pos c) (pos a))) [
    | inr longer ↦ rw (longer, slice) refl
    | inl empty ↦ let none_left : c - a ≡ 0 = ground arith in rw (empty, none_left, slice) refl
  ]

  -- A page of a positive limit from a natural offset on, whose sum does not overflow.
  pub page-take :
      (l o : ℕ) (ts : List DelegateTaskDto)
      → 0 < l
      → o + l < two63
      → (let r = page_bounds (pos l) (pos o) (length ts) in
          slice new_hash r.0 r.1 ts ≡ to_tasks new_hash (take l (drop o ts)))
  page-take l o ts some_limit small =
      let n = length ts in
      elim (Bool-cases (ltb n o)) [
        | inl beyond ↦
            ap (λ r. slice new_hash r.0 r.1 ts)
              (bounds_beyond l o n some_limit (ltb→lt n o beyond) small)
            ∙ slice-pos n n ts
            ∙ ap (to_tasks new_hash) (nothing_left l o ts (ltb→lt n o beyond))
        | inr within ↦
            ap (λ r. slice new_hash r.0 r.1 ts) (bounds_within l o n (ground arith) small)
            ∙ slice-pos o (if ltb n (o + l) then n else o + l) ts
            ∙ ap (to_tasks new_hash) (rest_taken l o ts)
      ]

length-insert :
    (d : DelegateTaskDto) (ds : List DelegateTaskDto)
    → length (insert_by_schedule d ds) ≡ suc (length ds)
unfolding insert_by_schedule
length-insert d [] = refl
length-insert d (e ∷ es) = elim (Bool-cases (ltb_ℤ d.scheduled_at e.scheduled_at)) [
  | inl later ↦ rw (later, insert_by_schedule) (ap suc (length-insert d es))
  | inr sooner ↦ rw (sooner, insert_by_schedule) refl
]

length-sort : (ds : List DelegateTaskDto) → length (sort_by_schedule ds) ≡ length ds
unfolding sort_by_schedule
length-sort [] = refl
length-sort (d ∷ ds) = length-insert d (sort_by_schedule ds) ∙ ap suc (length-sort ds)

module _ (new_hash : Text → Option Text) (b : Badgerhold DelegateTaskDto) where
  -- `GetAll` with a positive limit from a natural offset on, whose sum does not overflow, takes its
  -- page of the sorted rows.
  pub get_all-take :
      (status : DelegateTaskStatus) (l o : ℕ) (s : b.Store) (rows : List DelegateTaskDto)
      → 0 < l
      → o + l < two63
      → b.find (λ d. status_number d.status == status_number status) s ≡ ok rows
      → get_all new_hash b status (pos l) (pos o) s
        ≡ to_tasks new_hash (take l (drop o (sort_by_schedule rows)))
  unfolding get_all
  get_all-take status l o s rows some_limit small got =
      rw (got, get_all)
        (ap
            (λ n.
              slice new_hash (page_bounds (pos l) (pos o) n).0 (page_bounds (pos l) (pos o) n).1
                (sort_by_schedule rows))
            (sym (length-sort rows))
          ∙ page-take new_hash l o (sort_by_schedule rows) some_limit small)
