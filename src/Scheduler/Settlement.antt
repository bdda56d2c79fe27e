-- ===== src/Scheduler/Settlement.antt =====
-- The next settlement of internal/infrastructure/scheduler/gocron/service.go.
use fulmine.Base.{
  ◌≡◌, refl, sym, subst, ap, if_neg, ◌∙◌, ℕ, zero, suc, ◌<◌, true, false, String, List, [], ◌∷◌,
  Option, none, some, Result, ok, err, contains, ℕ_discrete, same, inl, inr, Bool-cases,
  Option-cases, arith, leb,
}
use fulmine.Base.Int.{ℤ, pos, ℤ_discrete, to_u32}
use fulmine.Clock.{Time, after}
use fulmine.Scheduler.{
  Job, Scheduler, poll, start, stop, schedule_task_at_height, schedule_task_at_time, without,
  cancel_next_settlement, schedule_next_settlement, run_settlement,
}

-- The calls of the scheduler and what happens to it, with the answers of the explorer, of the clock
-- and of gocron.
pub data Op : Type 0 where
  starts stops cancels : Op
  polls : Result String ℤ → Op
  task_at_height : ℕ → String → Result String ℤ → Op
  task_at_time : Time → String → Time → Option String → Op
  settlement_at : Time → String → Time → Option String → Op
  settles : ℕ → String → Op

unfoldable pub run : Op → Scheduler → Scheduler
unfolding start stop cancel_next_settlement poll schedule_task_at_height schedule_task_at_time
    schedule_next_settlement run_settlement
run starts s = start s
run stops s = stop s
run cancels s = cancel_next_settlement s
run (polls height) s = poll height s
run (task_at_height target task height) s = (schedule_task_at_height target task height s).1
run (task_at_time when task now answer) s = (schedule_task_at_time when task now answer s).1
run (settlement_at when settle now answer) s = (schedule_next_settlement when settle now answer s).1
run (settles number settle) s = run_settlement number settle s

unfoldable pub run_all : List Op → Scheduler → Scheduler
unfolding run
run_all [] s = s
run_all (op ∷ ops) s = run_all ops (run op s)

-- The settlements that can still run are the one that is scheduled, and no other. Its context is the one
-- that the scheduler can cancel, and no number from the next one on has been given.
pub data OneSettlement (s : Scheduler) : Type 0 where
  idle : s.job ≡ none → s.live ≡ [] → OneSettlement s
  waits :
      (j : Job)
      → s.job ≡ some j
      → s.live ≡ j.number ∷ []
      → s.stop_job ≡ some j.number
      → j.number < s.next_number
      → OneSettlement s

without_head : (n : ℕ) → without n (n ∷ []) ≡ []
without_head n = ground arith

cancelled-idle :
    (s : Scheduler)
    → OneSettlement s
    → ((cancel_next_settlement s).job ≡ none) × ((cancel_next_settlement s).live ≡ [])
unfolding cancel_next_settlement
cancelled-idle s (idle free nothing) = rw (free, cancel_next_settlement) (free, nothing)
cancelled-idle s (waits j set one stop below) =
    rw (set, cancel_next_settlement) (refl, rw (stop, one) (without_head j.number))

-- A step that leaves the settlement alone.
same-OneSettlement :
    (s s' : Scheduler)
    → s'.job ≡ s.job
    → s'.live ≡ s.live
    → s'.stop_job ≡ s.stop_job
    → s'.next_number ≡ s.next_number
    → OneSettlement s
    → OneSettlement s'
same-OneSettlement s s' ej el es en (idle free nothing) = idle (ej ∙ free) (el ∙ nothing)
same-OneSettlement s s' ej el es en (waits j set one stop below) =
    waits j (ej ∙ set) (el ∙ one) (es ∙ stop) (omega (arith, below, en))

start-OneSettlement : (s : Scheduler) → OneSettlement s → OneSettlement (start s)
unfolding start
start-OneSettlement s w = elim (Bool-cases s.running) [
  | inl on ↦ rw (on, start) (same-OneSettlement s _ refl refl refl refl w)
  | inr off ↦ rw (off, start) (same-OneSettlement s _ refl refl refl refl w)
]

at_height-OneSettlement :
    (target : ℕ) (task : String) (height : Result String ℤ) (s : Scheduler)
    → OneSettlement s
    → OneSettlement (schedule_task_at_height target task height s).1
unfolding schedule_task_at_height
at_height-OneSettlement zero task height s w = w
at_height-OneSettlement (suc n) task (err e) s w = w
at_height-OneSettlement (suc n) task (ok h) s w = elim (Bool-cases (leb (suc n) (to_u32 h))) [
  | inl due ↦ rw (due, schedule_task_at_height) (same-OneSettlement s _ refl refl refl refl w)
  | inr early ↦ rw (early, schedule_task_at_height) (same-OneSettlement s _ refl refl refl refl w)
]

at_time-OneSettlement :
    (when : Time) (task : String) (now : Time) (answer : Option String) (s : Scheduler)
    → OneSettlement s
    → OneSettlement (schedule_task_at_time when task now answer s).1
unfolding schedule_task_at_time
at_time-OneSettlement when task now answer s w = elim (Bool-cases (same ℤ_discrete when (pos 0))) [
  | inl unset ↦ rw (unset, schedule_task_at_time) w
  | inr set ↦ elim (Bool-cases (after when now)) [
    | inr due ↦ rw (set, due, schedule_task_at_time) (same-OneSettlement s _ refl refl refl refl w)
    | inl early ↦ elim (Option-cases answer) [
      | inl taken ↦ rw (set, early, taken, schedule_task_at_time) w
      | inr (e, failed) ↦ rw (set, early, failed, schedule_task_at_time) w
    ]
  ]
]

settlement_at-OneSettlement :
    (when : Time) (settle : String) (now : Time) (answer : Option String) (s : Scheduler)
    → OneSettlement s
    → OneSettlement (schedule_next_settlement when settle now answer s).1
unfolding schedule_next_settlement
settlement_at-OneSettlement when settle now answer s w =
    let (free, nothing) = cancelled-idle s w in
    let s' = cancel_next_settlement s in
    elim (Bool-cases (same ℤ_discrete when (pos 0))) [
      | inl unset ↦ rw (unset, schedule_next_settlement) w
      | inr set ↦ elim (Bool-cases (after when now)) [
        | inr due ↦ rw (set, due, schedule_next_settlement) (idle free nothing)
        | inl early ↦ elim (Option-cases answer) [
          | inl taken ↦
              rw (set, early, taken, schedule_next_settlement)
                (waits (record { number = s'.next_number; next_run = when }) refl
                  (ap (λ l. s'.next_number ∷ l) nothing) refl (omega arith))
          | inr (e, failed) ↦ rw (set, early, failed, schedule_next_settlement) (idle free nothing)
        ]
      ]
    ]

single : (n m : ℕ) → contains ℕ_discrete n (m ∷ []) ≡ true → without n (m ∷ []) ≡ []
single n m e = elim (ℕ_discrete m n) [
  | yes equal ↦ subst (λ k. without n (k ∷ []) ≡ []) (sym equal) (without_head n)
  | no other ↦ cc (sym (if_neg (ℕ_discrete m n) other true false) ∙ e)
]

only_one :
    (n m : ℕ) (live : List ℕ)
    → contains ℕ_discrete n live ≡ true
    → live ≡ m ∷ []
    → without n live ≡ []
only_one n m live e one =
    subst (λ l. without n l ≡ []) (sym one)
      (single n m (subst (λ l. contains ℕ_discrete n l ≡ true) one e))

settled-idle :
    (number : ℕ) (settle : String) (s : Scheduler)
    → OneSettlement s
    → OneSettlement (run_settlement number settle s)
unfolding run_settlement
settled-idle number settle s w = elim (Bool-cases (contains ℕ_discrete number s.live)) [
  | inr done ↦ rw (done, run_settlement) w
  | inl live ↦ elim w [
    | idle free nothing ↦ cc (rw nothing at live)
    | waits j set one stop below ↦
        rw (live, run_settlement) (idle refl (only_one number j.number s.live live one))
  ]
]

run-OneSettlement : (op : Op) (s : Scheduler) → OneSettlement s → OneSettlement (run op s)
unfolding run
run-OneSettlement starts s w = start-OneSettlement s w
run-OneSettlement stops s w = idle refl refl
run-OneSettlement cancels s w = let (free, nothing) = cancelled-idle s w in idle free nothing
run-OneSettlement (polls (ok h)) s w = same-OneSettlement s _ refl refl refl refl w
run-OneSettlement (polls (err e)) s w = w
run-OneSettlement (task_at_height target task height) s w =
    at_height-OneSettlement target task height s w
run-OneSettlement (task_at_time when task now answer) s w =
    at_time-OneSettlement when task now answer s w
run-OneSettlement (settlement_at when settle now answer) s w =
    settlement_at-OneSettlement when settle now answer s w
run-OneSettlement (settles number settle) s w = settled-idle number settle s w

-- Through any calls of the scheduler and any runs of its jobs, each taken whole, at most one
-- settlement can still run, and it is the one that is scheduled: none can if none is scheduled. The
-- scheduler holds the cancellation of just this settlement's context, and the number of the next
-- settlement is a new one, above it. The scheduler is so at the start.
pub run_all-OneSettlement :
    (ops : List Op) (s : Scheduler) → OneSettlement s → OneSettlement (run_all ops s)
unfolding run_all
run_all-OneSettlement [] s w = w
run_all-OneSettlement (op ∷ ops) s w =
    run_all-OneSettlement ops (run op s) (run-OneSettlement op s w)
