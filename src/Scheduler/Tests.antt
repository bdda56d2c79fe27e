-- ===== src/Scheduler/Tests.antt =====
-- The scheduler of internal/infrastructure/scheduler/gocron/service.go at work.
use fulmine.Clock.{after}
use fulmine.Base.{◌≡◌, refl, not, List, [], ◌∷◌, ◌++◌, map, none, ok, err, ◌+◌, leb, keep_if, arith}
use fulmine.Base.Int.{pos}
use fulmine.Scheduler.{Scheduler, new_scheduler, poll, when_next_settlement}
use fulmine.Scheduler.Heights.{fn_of, taken_by, dropped_by, total, seen, poll-reached, run_all-seen}
use fulmine.Scheduler.Settlement.{
  Op, OneSettlement, idle, task_at_height, polls, stops, settlement_at, settles, starts, run_all,
  run_all-OneSettlement,
}

abbrev waiting : Scheduler
waiting = record new_scheduler {
  tasks = record { target = 100; fn = "early" } ∷ record { target = 200; fn = "late" } ∷ [];
}

early_started : (poll (ok (pos 150)) waiting).fired ≡ "early" ∷ []
unfolding poll
early_started = refl

-- A height beyond 2 ^ 32 wraps.
wrapped : (poll (ok (pos 4294967296)) waiting).fired ≡ []
unfolding poll
wrapped = refl

poll-reached_example :
    ((poll (ok (pos 150)) waiting).tasks ≡ keep_if (λ t. not (leb t.target 150)) waiting.tasks)
    × ((poll (ok (pos 150)) waiting).fired
        ≡ [] ++ map fn_of (keep_if (λ t. leb t.target 150) waiting.tasks))
poll-reached_example = poll-reached (pos 150) waiting (refl, omega arith)

abbrev height_ops : List Op
height_ops =
    task_at_height 120 "early" (ok (pos 90))
    ∷ polls (err "timeout")
    ∷ polls (ok (pos 130))
    ∷ settlement_at (pos 50) "early" (pos 100) none
    ∷ stops
    ∷ []

run_all-seen_example :
    seen "early" (run_all height_ops waiting) + total (dropped_by "early") height_ops waiting
    ≡ seen "early" waiting + total (taken_by "early") height_ops waiting
run_all-seen_example = run_all-seen "early" height_ops waiting

-- Twice a task at a height and once a settlement.
started_thrice : (run_all height_ops waiting).fired ≡ "early" ∷ "early" ∷ "early" ∷ []
unfolding run_all after
started_thrice = refl

abbrev settlement_ops : List Op
settlement_ops =
    starts
    ∷ settlement_at (pos 500) "first" (pos 100) none
    ∷ settlement_at (pos 900) "second" (pos 200) none
    ∷ settles 0 "first"
    ∷ []

second_waits : when_next_settlement (run_all settlement_ops new_scheduler) ≡ pos 900
unfolding when_next_settlement run_all after
second_waits = refl

first_cancelled : (run_all settlement_ops new_scheduler).fired ≡ []
unfolding run_all after
first_cancelled = refl

run_all-OneSettlement_example : OneSettlement (run_all settlement_ops new_scheduler)
run_all-OneSettlement_example = run_all-OneSettlement settlement_ops new_scheduler (idle refl refl)
