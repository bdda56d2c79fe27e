-- ===== src/Scheduler/Heights.antt =====
-- The tasks at a height of internal/infrastructure/scheduler/gocron/service.go.
use fulmine.Base.{
  ◌≡◌, refl, ap, ℕ, zero, suc, ◌+◌, Bool, not, String, List, [], ◌∷◌, ◌++◌, map, ok, err, leb,
  keep_if, ite, contains, same, ℕ_discrete, ◌&&◌, Option, Option-cases, if◌then◌else◌, inl, inr,
  Bool-cases, text_discrete, arith,
}
use fulmine.Base.Int.{ℤ, pos, ℤ_discrete, pos_part, IsU32, to_u32, to_u32-IsU32}
use fulmine.Clock.{Time, after}
use fulmine.Scheduler.{
  HeightTask, Scheduler, is_due, split_due, poll, start, stop, schedule_task_at_height,
  schedule_task_at_time, cancel_next_settlement, schedule_next_settlement, run_settlement,
}
use fulmine.Scheduler.Settlement.{
  Op, starts, stops, cancels, polls, task_at_height, task_at_time, settlement_at, settles, run,
  run_all,
}

abbrev pub fn_of : HeightTask → String
fn_of task = task.fn

-- The tasks that a height makes due, and the others.
abbrev reached : ℤ → HeightTask → Bool
reached h task = leb task.target (pos_part h)

is_due-reached : (h : ℤ) (task : HeightTask) → IsU32 h → is_due h task ≡ reached h task
unfolding is_due
is_due-reached h task good = ap (λ n. leb task.target n) (ap pos_part (to_u32-IsU32 h good))

split_due-reached :
    (h : ℤ) (tasks : List HeightTask)
    → IsU32 h
    → split_due h tasks
      ≡ (keep_if (λ t. not (reached h t)) tasks, map fn_of (keep_if (reached h) tasks))
unfolding split_due
split_due-reached h [] good = refl
split_due-reached h (task ∷ tasks) good = elim (Bool-cases (reached h task)) [
  | inl due ↦ rw (is_due-reached h task good, due, split_due-reached h tasks good) refl
  | inr early ↦ rw (is_due-reached h task good, early, split_due-reached h tasks good) refl
]

-- A round with a height that is a uint32 starts the functions of exactly the waiting tasks whose
-- target it has reached, in order, and keeps the others in order.
pub poll-reached :
    (h : ℤ) (s : Scheduler)
    → IsU32 h
    → ((poll (ok h) s).tasks ≡ keep_if (λ t. not (leb t.target (pos_part h))) s.tasks)
      × ((poll (ok h) s).fired
          ≡ s.fired ++ map fn_of (keep_if (λ t. leb t.target (pos_part h)) s.tasks))
unfolding poll
poll-reached h s good =
    let e = split_due-reached h s.tasks good in (ap (λ p. p.0) e, ap (λ p. s.fired ++ p.1) e)

-- How often a name occurs.
unfoldable pub is_named : String → String → ℕ
unfolding text_discrete
is_named x y = ite (text_discrete x y) 1 0

unfoldable pub count : String → List String → ℕ
unfolding is_named
count x [] = 0
count x (y ∷ ys) = is_named x y + count x ys

-- Whether a call for a time starts its function at once.
unfoldable pub is_due_at : Time → Time → Bool
is_due_at when now = not (same ℤ_discrete when (pos 0)) && not (after when now)

-- How often a step takes a task at a height, or has a function started by another way: by a call for a
-- time that is due, or as the settlement of a job.
unfoldable pub taken_by : String → Op → Scheduler → ℕ
unfolding is_named is_due_at ℕ_discrete
taken_by x (task_at_height (suc n) task (ok h)) s = is_named x task
taken_by x (task_at_time when task now answer) s = if is_due_at when now then is_named x task else 0
taken_by x (settlement_at when settle now answer) s =
    if is_due_at when now then is_named x settle else 0
taken_by x (settles number settle) s =
    if contains ℕ_discrete number s.live then is_named x settle else 0
taken_by x op s = 0

-- The waiting tasks that a step drops.
unfoldable pub dropped_by : String → Op → Scheduler → ℕ
unfolding count
dropped_by x stops s = count x (map fn_of s.tasks)
dropped_by x op s = 0

-- The sum of a count over the steps.
unfoldable pub total : (Op → Scheduler → ℕ) → List Op → Scheduler → ℕ
unfolding run
total f [] s = 0
total f (op ∷ ops) s = f op s + total f ops (run op s)

-- The started and the waiting occurrences of a task.
abbrev pub seen : String → Scheduler → ℕ
seen x s = count x s.fired + count x (map fn_of s.tasks)

count-append : (x : String) (ys zs : List String) → count x (ys ++ zs) ≡ count x ys + count x zs
unfolding count
count-append x [] zs = omega arith
count-append x (y ∷ ys) zs = omega (arith, count-append x ys zs)

map-append : (ts us : List HeightTask) → map fn_of (ts ++ us) ≡ map fn_of ts ++ map fn_of us
map-append [] us = refl
map-append (t ∷ ts) us = ap (λ r. fn_of t ∷ r) (map-append ts us)

split_due-count :
    (x : String) (h : ℤ) (tasks : List HeightTask)
    → count x (split_due h tasks).1 + count x (map fn_of (split_due h tasks).0)
      ≡ count x (map fn_of tasks)
unfolding split_due count
split_due-count x h [] = omega arith
split_due-count x h (task ∷ tasks) = elim (Bool-cases (is_due h task)) [
  | inl due ↦ rw (due, split_due, count) (omega (arith, split_due-count x h tasks))
  | inr early ↦ rw (early, split_due, count) (omega (arith, split_due-count x h tasks))
]

scheduled-seen :
    (x : String) (n : ℕ) (task : String) (h : ℤ) (s : Scheduler)
    → seen x (schedule_task_at_height (suc n) task (ok h) s).1 ≡ seen x s + is_named x task
unfolding schedule_task_at_height count
scheduled-seen x n task h s = elim (Bool-cases (leb (suc n) (to_u32 h))) [
  | inl due ↦ rw (due, schedule_task_at_height) (omega (arith, count-append x s.fired (task ∷ [])))
  | inr early ↦
      let last : List HeightTask = record { target = suc n; fn = task } ∷ [] in
      rw (early, schedule_task_at_height)
        (omega (
          arith,
          count-append x (map fn_of s.tasks) (map fn_of last),
          ap (count x) (map-append s.tasks last),
        ))
]

fired-seen :
    (x task : String) (s : Scheduler)
    → count x (s.fired ++ (task ∷ [])) ≡ count x s.fired + is_named x task
unfolding count
fired-seen x task s = omega (arith, count-append x s.fired (task ∷ []))

-- A step that starts no function and leaves the waiting tasks.
same-seen :
    (x : String) (s s' : Scheduler) → s'.fired ≡ s.fired → s'.tasks ≡ s.tasks → seen x s' ≡ seen x s
same-seen x s s' ef et = omega (arith, ap (count x) ef, ap (λ ts. count x (map fn_of ts)) et)

start-seen : (x : String) (s : Scheduler) → seen x (start s) ≡ seen x s
unfolding start
start-seen x s = elim (Bool-cases s.running) [
  | inl on ↦ rw (on, start) refl
  | inr off ↦ rw (off, start) refl
]

cancelled-same :
    (s : Scheduler)
    → ((cancel_next_settlement s).fired ≡ s.fired) × ((cancel_next_settlement s).tasks ≡ s.tasks)
unfolding cancel_next_settlement
cancelled-same s = elim (Option-cases s.job) [
  | inl k ↦ rw (k, cancel_next_settlement) (refl, refl)
  | inr (_, k) ↦ rw (k, cancel_next_settlement) (refl, refl)
]

at_time-seen :
    (x : String) (when : Time) (task : String) (now : Time) (answer : Option String) (s : Scheduler)
    → seen x (schedule_task_at_time when task now answer s).1
      ≡ seen x s + taken_by x (task_at_time when task now answer) s
unfolding schedule_task_at_time taken_by is_due_at
at_time-seen x when task now answer s = elim (Bool-cases (same ℤ_discrete when (pos 0))) [
  | inl unset ↦ rw (unset, schedule_task_at_time, is_due_at) (omega arith)
  | inr set ↦ elim (Bool-cases (after when now)) [
    | inr due ↦ rw (set, due, schedule_task_at_time, is_due_at) (omega (arith, fired-seen x task s))
    | inl early ↦ elim (Option-cases answer) [
      | inl held ↦ rw (set, early, held, schedule_task_at_time, is_due_at) (omega arith)
      | inr (_, failed) ↦ rw (set, early, failed, schedule_task_at_time, is_due_at) (omega arith)
    ]
  ]
]

settlement_at-seen :
    (x : String) (when : Time) (settle : String) (now : Time) (answer : Option String)
    (s : Scheduler)
    → seen x (schedule_next_settlement when settle now answer s).1
      ≡ seen x s + taken_by x (settlement_at when settle now answer) s
unfolding schedule_next_settlement taken_by is_due_at
settlement_at-seen x when settle now answer s =
    let s' = cancel_next_settlement s in
    let (ef, et) = cancelled-same s in
    let unchanged = same-seen x s s' ef et in
    elim (Bool-cases (same ℤ_discrete when (pos 0))) [
      | inl unset ↦ rw (unset, schedule_next_settlement, is_due_at) (omega arith)
      | inr set ↦ elim (Bool-cases (after when now)) [
        | inr due ↦
            rw (set, due, schedule_next_settlement, is_due_at)
              (omega (arith, fired-seen x settle s', unchanged))
        | inl early ↦ elim (Option-cases answer) [
          | inl held ↦
              rw (set, early, held, schedule_next_settlement, is_due_at) (omega (arith, unchanged))
          | inr (_, failed) ↦
              rw (set, early, failed, schedule_next_settlement, is_due_at)
                (omega (arith, unchanged))
        ]
      ]
    ]

settles-seen :
    (x : String) (number : ℕ) (settle : String) (s : Scheduler)
    → seen x (run_settlement number settle s) ≡ seen x s + taken_by x (settles number settle) s
unfolding run_settlement taken_by
settles-seen x number settle s = elim (Bool-cases (contains ℕ_discrete number s.live)) [
  | inl live ↦ rw (live, run_settlement, taken_by) (omega (arith, fired-seen x settle s))
  | inr done ↦ rw (done, run_settlement, taken_by) (omega arith)
]

run-seen :
    (x : String) (op : Op) (s : Scheduler)
    → seen x (run op s) + dropped_by x op s ≡ seen x s + taken_by x op s
unfolding run taken_by dropped_by poll schedule_task_at_height stop cancel_next_settlement
run-seen x starts s = omega (arith, start-seen x s)
run-seen x stops s = omega arith
run-seen x cancels s =
    let (ef, et) = cancelled-same s in omega (arith, same-seen x s (cancel_next_settlement s) ef et)
run-seen x (polls (err e)) s = omega arith
run-seen x (polls (ok h)) s =
    omega (arith, split_due-count x h s.tasks, count-append x s.fired (split_due h s.tasks).1)
run-seen x (task_at_height zero task height) s = omega arith
run-seen x (task_at_height (suc n) task (err e)) s = omega arith
run-seen x (task_at_height (suc n) task (ok h)) s = omega (arith, scheduled-seen x n task h s)
run-seen x (task_at_time when task now answer) s =
    omega (arith, at_time-seen x when task now answer s)
run-seen x (settlement_at when settle now answer) s =
    omega (arith, settlement_at-seen x when settle now answer s)
run-seen x (settles number settle) s = omega (arith, settles-seen x number settle s)

-- Through any calls of the scheduler, rounds and runs of settlements, each taken whole: the started
-- functions of a name, the tasks of that name that wait for a height, and those that `Stop` dropped have
-- together grown by the number of the calls that took a task of that name at a height, and of the
-- functions of that name that were started otherwise, by a call for a time that is due or as a
-- settlement. So no task at a height is lost or started twice. What gocron starts for
-- `ScheduleTaskAtTime` is not counted.
pub run_all-seen :
    (x : String) (ops : List Op) (s : Scheduler)
    → seen x (run_all ops s) + total (dropped_by x) ops s ≡ seen x s + total (taken_by x) ops s
unfolding run_all total
run_all-seen x [] s = omega arith
run_all-seen x (op ∷ ops) s = omega (arith, run-seen x op s, run_all-seen x ops (run op s))
