-- ===== src/Badger/DelegateRepo/Races.antt =====
-- The rounds of `CancelTasks`, `CompleteTasks` and `FailTasks` of
-- internal/infrastructure/db/badger/delegate_repo.go when several calls run at once: a round reads its task
-- and later writes it back, with no transaction around the two, and other calls may come in between.
use fulmine.Base.{
  ◌≡◌, refl, sym, ap, subst, ◌∙◌, ℕ, zero, suc, false, inl, inr, String, Text, List, [], ◌∷◌, All,
  All-map, Option, none, some, if_pos, if_neg, ok, err, Result-cases, Option-cases, Bool-cases,
  text_discrete, if◌then◌else◌,
}
use fulmine.Domain.{DelegateTask}
use fulmine.Domain.Repository.{RepoError, is_pending, cancel, complete, fail}
use fulmine.Domain.Ending.{IsEnding, cancel-IsEnding, complete-IsEnding, fail-IsEnding}
use fulmine.Badger.Hold.{Badgerhold}
use fulmine.Badger.Dto.{DelegateTaskDto, to_delegate_task_data}
use fulmine.Badger.Dto.RoundTrip.{IsStorable}
use fulmine.Badger.DelegateRepo.{hold_result, tasks, get_by_id, mark_task}
use fulmine.Badger.DelegateRepo.Rows.{
  IsWellFormed, tasks-eq-some, get_by_id_done, write-IsWellFormed, unmoved-IsWellFormed,
  write-tasks, task_id, tasks_unmoved,
}

-- How a call ends its tasks.
pub data Ending : Type 0 where
  as_cancelled : Ending
  as_completed as_failed : String → Ending

abbrev pub ended_as : Ending → DelegateTask → DelegateTask
ended_as as_cancelled t = cancel t
ended_as (as_completed txid) t = complete txid t
ended_as (as_failed reason) t = fail reason t

ended_as-IsEnding : (e : Ending) → IsEnding (ended_as e)
ended_as-IsEnding as_cancelled = cancel-IsEnding
ended_as-IsEnding (as_completed txid) = complete-IsEnding txid
ended_as-IsEnding (as_failed reason) = fail-IsEnding reason

-- The halves of rounds: a read, which decides what will be written, and the write of one that waits.
pub data Half : Type 0 where
  begins : Ending → String → Half
  finishes : ℕ → Half

-- Takes an element out of a list.
unfoldable pub pick {ℓ} : {A : Type ℓ} → ℕ → List A → Option (A × List A)
pick n [] = none
pick zero (x ∷ xs) = some (x, xs)
pick (suc n) (x ∷ xs) = elim (pick n xs) [ none ↦ none | some p ↦ some (p.0, x ∷ p.1) ]

some_injective {ℓ} : {A : Type ℓ} {x y : A} → ◌≡◌ {A = Option A} (some x) (some y) → x ≡ y
some_injective e = cc

All-pick {κ} :
    {A : Type 0} (P : A → Type κ) (n : ℕ) (xs : List A) (p : A × List A)
    → pick n xs ≡ some p
    → All P xs
    → P p.0 × All P p.1
unfolding pick
All-pick P n [] p e all = cc
All-pick P zero (x ∷ xs) p e (h, all) = subst (λ q. P q.0 × All P q.1) (some_injective e) (h, all)
All-pick P (suc n) (x ∷ xs) p e (h, all) = elim (Option-cases (pick n xs)) [
  | inl nothing ↦ cc (rw (nothing, pick) at e)
  | inr (q, picked) ↦
      let (first, rest) = All-pick P n xs q picked all in
      subst (λ r. P r.0 × All P r.1) (some_injective (rw (picked, pick) at e)) (first, (h, rest))
]

-- What the calls keep of a task: its id and its intent, and that it is not pending any more.
pub record StaysEnded (t u : DelegateTask) : Type 0 where
  pub same_id : u.id ≡ t.id
  pub same_intent : u.intent ≡ t.intent
  pub stays_ended : is_pending t.status ≡ false → is_pending u.status ≡ false

module _ (new_hash : Text → Option Text) (b : Badgerhold DelegateTaskDto) where
  open b use {Store, update, row}

  -- The first half of a round: the task to write, if there is one.
  unfoldable pub begin_mark : (DelegateTask → DelegateTask) → String → Store → Option DelegateTask
  begin_mark f id s = elim (get_by_id new_hash b id s) [
    | err e ↦ none
    | ok task ↦ if is_pending task.status then some (f task) else none
  ]

  -- The second half.
  unfoldable pub finish_mark : String → DelegateTask → Store → Option RepoError × Store
  finish_mark id task s =
      let (e, s') = update id (to_delegate_task_data task) s in (hold_result e, s')

  -- A round of the loop is its two halves.
  pub mark_task-halves :
      (f : DelegateTask → DelegateTask) (id : String) (s : Store)
      → mark_task new_hash b f id s
        ≡ elim (begin_mark f id s) [ none ↦ (none, s) | some task ↦ finish_mark id task s ]
  unfolding mark_task begin_mark finish_mark
  mark_task-halves f id s = elim (Result-cases (get_by_id new_hash b id s)) [
    | inr (x, missed) ↦ rw (missed, mark_task, begin_mark) refl
    | inl (t, got) ↦ elim (Bool-cases (is_pending t.status)) [
      | inl waits ↦ rw (got, mark_task, begin_mark, waits) refl
      | inr over ↦ rw (got, mark_task, begin_mark, over) refl
    ]
  ]

  -- The store, and what the calls that are under way have read and will write.
  pub record World : Type 0 where
    pub store : Store
    pub held : List (String × DelegateTask)

  unfoldable pub run_half : Half → World → World
  unfolding begin_mark finish_mark pick
  run_half (begins e id) w = elim (begin_mark (ended_as e) id w.store) [
    | none ↦ w
    | some task ↦ record w { held = (id, task) ∷ w.held }
  ]
  run_half (finishes n) w = elim (pick n w.held) [
    | none ↦ w
    | some ((id, task), held) ↦ record { store = (finish_mark id task w.store).1; held = held }
  ]

  unfoldable pub run_halves : List Half → World → World
  unfolding run_half
  run_halves [] w = w
  run_halves (h ∷ hs) w = run_halves hs (run_half h w)

  abbrev pub Stays : Store → Store → Type 0
  Stays s s' =
      (j : String) (t : DelegateTask)
      → tasks new_hash b s j ≡ some t
      → (u : DelegateTask) × (tasks new_hash b s' j ≡ some u) × StaysEnded t u

  Stays-refl : (s : Store) → Stays s s
  Stays-refl s j t e = (t, e, record { same_id = refl; same_intent = refl; stays_ended = λ h. h })

  Stays-trans : (s s' s'' : Store) → Stays s s' → Stays s' s'' → Stays s s''
  Stays-trans s s' s'' h k j t e =
      let (u, there, p) = h j t e in
      let (v, end, q) = k j u there in
      (
        v,
        end,
        record {
          same_id = q.same_id ∙ p.same_id;
          same_intent = q.same_intent ∙ p.same_intent;
          stays_ended = λ over. q.stays_ended (p.stays_ended over);
        },
      )

  -- What is held to be written under an id: an ended task of the intent that is kept there.
  abbrev IsHeld : Store → String × DelegateTask → Type 0
  IsHeld s p =
      IsStorable new_hash p.1
      × (p.1.id ≡ p.0)
      × (is_pending p.1.status ≡ false)
      × ((u : DelegateTask) × (tasks new_hash b s p.0 ≡ some u) × (u.intent ≡ p.1.intent))

  IsHeld-Stays : (s s' : Store) (p : String × DelegateTask) → Stays s s' → IsHeld s p → IsHeld s' p
  IsHeld-Stays s s' p h (good, at, over, (u, shown, same)) =
      let (v, there, k) = h p.0 u shown in (good, at, over, (v, there, k.same_intent ∙ same))

  begun-IsHeld :
      (e : Ending) (id : String) (s : Store) (task : DelegateTask)
      → IsWellFormed new_hash b s
      → begin_mark (ended_as e) id s ≡ some task
      → IsHeld s (id, task)
  unfolding begin_mark
  begun-IsHeld e id s task w begun = elim (Result-cases (get_by_id new_hash b id s)) [
    | inr (x, missed) ↦ cc (rw (missed, begin_mark) at begun)
    | inl (t, got) ↦ elim (Bool-cases (is_pending t.status)) [
      | inr over ↦ cc (rw (got, begin_mark, over) at begun)
      | inl waits ↦
          let same : ended_as e t ≡ task = some_injective (rw (got, begin_mark, waits) at begun) in
          let fe = ended_as-IsEnding e in
          let shown = get_by_id_done new_hash b id s t got in
          let (_, _, _, _, _, good) = tasks-eq-some new_hash b id s t w shown in
          subst (λ u. IsHeld s (id, u)) same
            (
              record {
                good_inputs = rw (fe.keeps_intent t) good.good_inputs;
                good_forfeits = rw (fe.keeps_forfeits t) good.good_forfeits;
              },
              fe.keeps_id t ∙ task_id new_hash b id s t w shown,
              fe.ends t,
              (t, shown, sym (fe.keeps_intent t)),
            )
    ]
  ]

  finished-Stays :
      (id : String) (task : DelegateTask) (s : Store)
      → IsWellFormed new_hash b s
      → IsHeld s (id, task)
      → IsWellFormed new_hash b (finish_mark id task s).1 × Stays s (finish_mark id task s).1
  unfolding finish_mark
  finished-Stays id task s w (good, at, over, (u, shown, same)) =
      let new_row = to_delegate_task_data task in
      elim (Option-cases (update id new_row s).0) [
        | inr (x, refused) ↦
            let rows = b.update_failed id new_row s x refused in
            (
              unmoved-IsWellFormed new_hash b s _ rows w,
              λ j t e. Stays-refl _ j t (tasks_unmoved new_hash b s _ rows j ∙ e),
            )
        | inl done ↦
            let rows = (b.update_done id new_row s done).1 in
            let (v, kept, after) = write-tasks new_hash b id task s _ good rows in
            (
              write-IsWellFormed new_hash b id task s _ good at rows w,
              λ j t e. elim (text_discrete id j) [
                | no other ↦ Stays-refl _ j t (rw (after j, if_neg _ other) e)
                | yes here ↦ (
                  v,
                  rw (after j, if_pos _ here) refl,
                  record {
                    same_id = kept.same_id ∙ at ∙ here ∙ sym (task_id new_hash b j s t w e);
                    same_intent =
                        kept.same_intent
                        ∙ sym same
                        ∙ ap (λ x. x.intent)
                            (some_injective (sym shown ∙ ap (tasks new_hash b s) here ∙ e));
                    stays_ended = λ _. rw (kept.same_status) over;
                  },
                )
              ],
            )
      ]

  abbrev IsFine : World → Type 0
  IsFine w = IsWellFormed new_hash b w.store × All (IsHeld w.store) w.held

  run_half-Stays :
      (h : Half) (w : World) → IsFine w → IsFine (run_half h w) × Stays w.store (run_half h w).store
  unfolding run_half
  run_half-Stays (begins e id) w (good, held) =
      elim (Option-cases (begin_mark (ended_as e) id w.store)) [
        | inl nothing ↦ rw (nothing, run_half) ((good, held), Stays-refl w.store)
        | inr (task, begun) ↦
            rw (begun, run_half)
              ((good, (begun-IsHeld e id w.store task good begun, held)), Stays-refl w.store)
      ]
  run_half-Stays (finishes n) w (good, held) = elim (Option-cases (pick n w.held)) [
    | inl nothing ↦ rw (nothing, run_half) ((good, held), Stays-refl w.store)
    | inr (p, picked) ↦
        let (this, others) = All-pick (IsHeld w.store) n w.held p picked held in
        let (good', stays) = finished-Stays p.0.0 p.0.1 w.store good this in
        rw (picked, run_half)
          (
            (
              good',
              All-map _ _ (λ q held_still. IsHeld-Stays w.store _ q stays held_still) p.1 others,
            ),
            stays,
          )
  ]

  run_halves-Stays : (hs : List Half) (w : World) → IsFine w → Stays w.store (run_halves hs w).store
  unfolding run_halves
  run_halves-Stays [] w fine = Stays-refl w.store
  run_halves-Stays (h ∷ hs) w fine =
      let (fine', stays) = run_half-Stays h w fine in
      Stays-trans w.store _ _ stays (run_halves-Stays hs _ fine')

  -- Rounds of `CancelTasks`, `CompleteTasks` and `FailTasks` whose reads and writes come in any order, from
  -- a well-formed store: no task is lost, each keeps its id and its intent, and none that has ended is
  -- pending again. How it has ended may change: a write takes no notice of what came after its read.
  pub run_halves-StaysEnded :
      (hs : List Half) (s : Store) (j : String) (t : DelegateTask)
      → IsWellFormed new_hash b s
      → tasks new_hash b s j ≡ some t
      → (u : DelegateTask) × (tasks new_hash b
            (run_halves hs (record { store = s; held = [] })).store
            j
          ≡ some u)
        × StaysEnded t u
  run_halves-StaysEnded hs s j t w shown = run_halves-Stays hs _ (w, tt) j t shown
