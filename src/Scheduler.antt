-- ===== src/Scheduler.antt =====
-- internal/infrastructure/scheduler/gocron/service.go: tasks that wait for a block height or a time,
-- and the next settlement of the wallet. The gocron library is not part of this repository: whether it
-- takes a job is an argument. A settlement is `live` while its job was neither run nor cleared by `Stop`
-- and its context is not cancelled.
pub mod Heights
pub mod Settlement
pub mod Tests
use fulmine.Base.{
  ◌≡◌, ℕ, zero, suc, ◌%◌, Bool, true, false, not, String, List, [], ◌∷◌, ◌++◌, Option, none, some,
  Result, ok, err, leb, ltb, keep_if, contains, ℕ_discrete, if◌then◌else◌, ◌==◌,
}
use fulmine.Base.Int.{ℤ, pos, ℤ_discrete, to_u32}
use fulmine.Base.{same}
use fulmine.Clock.{Time, after}

-- `heightTask`; a function is known by its name.
pub record HeightTask : Type 0 where
  pub target : ℕ
  pub fn : String

-- A job of gocron with the number of its context.
pub record Job : Type 0 where
  pub number : ℕ
  pub next_run : Time

pub data ScheduleError : Type 0 where
  invalid_height : ScheduleError
  invalid_time : ScheduleError
  no_height : String → ScheduleError
  refused : String → ScheduleError

-- The state of `service`, with the functions that it has started (`go task()`), the numbers of the
-- settlements that can still run, and the next number.
pub record Scheduler : Type 0 where
  pub running : Bool
  pub tasks : List HeightTask
  pub job : Option Job
  pub stop_job : Option ℕ
  pub fired : List String
  pub live : List ℕ
  pub next_number : ℕ

abbrev pub new_scheduler : Scheduler
new_scheduler = record {
  running = false;
  tasks = [];
  job = none;
  stop_job = none;
  fired = [];
  live = [];
  next_number = 0;
}

-- `Start`, without the goroutine that it starts (`poll`).
unfoldable pub start : Scheduler → Scheduler
start s = if s.running then s else record s { running = true }

-- The test of a task's height.
unfoldable pub is_due : ℤ → HeightTask → Bool
unfolding to_u32
is_due h task = leb task.target (to_u32 h)

-- The loop over the tasks: those that are kept and the functions that are started.
unfoldable pub split_due : ℤ → List HeightTask → List HeightTask × List String
unfolding is_due
split_due h [] = ([], [])
split_due h (task ∷ tasks) =
    let (keep, due) = split_due h tasks in
    if is_due h task then (keep, task.fn ∷ due) else (task ∷ keep, due)

-- One round of the goroutine, with the height that the explorer answers. A round that is under way
-- when the scheduler is stopped still ends.
unfoldable pub poll : Result String ℤ → Scheduler → Scheduler
unfolding split_due
poll (err _) s = s
poll (ok h) s =
    let (keep, due) = split_due h s.tasks in record s { tasks = keep; fired = s.fired ++ due }

-- `Stop`
unfoldable pub stop : Scheduler → Scheduler
stop s = record s { running = false; tasks = []; job = none; live = [] }

-- `ScheduleTaskAtHeight`
unfoldable pub schedule_task_at_height :
    ℕ → String → Result String ℤ → Scheduler → Option ScheduleError × Scheduler
unfolding to_u32
schedule_task_at_height zero task height s = (some invalid_height, s)
schedule_task_at_height (suc n) task (err e) s = (some (no_height e), s)
schedule_task_at_height (suc n) task (ok current_height) s =
    if leb (suc n) (to_u32 current_height)
    then (none, record s { fired = s.fired ++ (task ∷ []) })
    else (none, record s { tasks = s.tasks ++ (record { target = suc n; fn = task } ∷ []) })

-- `ScheduleTaskAtTime`; the answer is gocron's, an error if it does not take the job.
unfoldable pub schedule_task_at_time :
    Time → String → Time → Option String → Scheduler → Option ScheduleError × Scheduler
unfolding ℤ_discrete
schedule_task_at_time at_time task now answer s =
    if same ℤ_discrete at_time (pos 0)
    then (some invalid_time, s)
    else (if after at_time now
        then elim answer [ none ↦ (none, s) | some e ↦ (some (refused e), s) ]
        else (none, record s { fired = s.fired ++ (task ∷ []) }))

abbrev pub without : ℕ → List ℕ → List ℕ
without n live = keep_if (λ m. not (m == n)) live

abbrev pub without_some : Option ℕ → List ℕ → List ℕ
without_some none live = live
without_some (some n) live = without n live

-- `CancelNextSettlement`. The job does nothing any more because its context is cancelled (`stopJob`); that
-- `Remove` takes the job from gocron as well is not relied on.
unfoldable pub cancel_next_settlement : Scheduler → Scheduler
cancel_next_settlement s = elim s.job [
  | none ↦ s
  | some _ ↦ record s { job = none; live = without_some s.stop_job s.live }
]

-- `ScheduleNextSettlement`
unfoldable pub schedule_next_settlement :
    Time → String → Time → Option String → Scheduler → Option ScheduleError × Scheduler
unfolding ℤ_discrete cancel_next_settlement
schedule_next_settlement at_time settle now answer s =
    if same ℤ_discrete at_time (pos 0)
    then (some invalid_time, s)
    else (let s' = cancel_next_settlement s in
        if after at_time now
        then elim answer [
          | some e ↦ (some (refused e), record s' { next_number = suc s'.next_number })
          | none ↦ (
            none,
            record s' {
              job = some (record { number = s'.next_number; next_run = at_time });
              stop_job = some s'.next_number;
              live = s'.next_number ∷ s'.live;
              next_number = suc s'.next_number;
            },
          )
        ]
        else (none, record s' { fired = s'.fired ++ (settle ∷ []) }))

-- The function of a settlement's job, which gocron runs: it does nothing if its context is done. The
-- test and the section under the lock are taken as one step.
unfoldable pub run_settlement : ℕ → String → Scheduler → Scheduler
run_settlement number settle s =
    if contains ℕ_discrete number s.live
    then record s { job = none; live = without number s.live; fired = s.fired ++ (settle ∷ []) }
    else s

-- `WhenNextSettlement`
unfoldable pub when_next_settlement : Scheduler → Time
when_next_settlement s = elim s.job [ none ↦ pos 0 | some j ↦ j.next_run ]
