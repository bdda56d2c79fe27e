-- ===== src/Badger/DelegateRepo/Rows.antt =====
-- What the rows of internal/infrastructure/db/badger/delegate_repo.go show as tasks, and how `Add` and an
-- update change that.
use fulmine.Base.{
  ◌≡◌, refl, sym, ap, subst, ◌∙◌, inl, inr, String, Text, Option, none, some, ite, if_pos, if_neg,
  ok, Result-cases, Option-cases, text_discrete, arith,
}
use fulmine.Domain.{DelegateTask}
use fulmine.Domain.Repository.{RepoError, IsKept}
use fulmine.Badger.Hold.{Badgerhold, HoldError, ReadsSucceed}
use fulmine.Badger.Dto.{DelegateTaskDto, to_delegate_task_data, to_delegate_task}
use fulmine.Badger.Dto.RoundTrip.{IsStorable, to_delegate_task-to_delegate_task_data}
use fulmine.Badger.DelegateRepo.{hold_result, task_of, tasks, add, get_by_id}

task_of-ok :
    (new_hash : Text → Option Text) (d : DelegateTaskDto) (u : DelegateTask)
    → to_delegate_task new_hash d ≡ ok u
    → task_of new_hash (some d) ≡ some u
unfolding task_of
task_of-ok new_hash d u e = ground (arith, e)

module _ (new_hash : Text → Option Text) (b : Badgerhold DelegateTaskDto) where
  open b use {Store, insert, get, update, row}

  -- Every row is the row of a task of wire types, under the id of that task.
  abbrev pub IsRowOf : String → DelegateTaskDto → DelegateTask → Type 0
  IsRowOf k d t = IsStorable new_hash t × (t.id ≡ k) × (d ≡ to_delegate_task_data t)

  abbrev pub IsWellFormed : Store → Type 0
  IsWellFormed s =
      (k : String) (d : DelegateTaskDto) → row s k ≡ some d → (t : DelegateTask) × IsRowOf k d t

  -- A row is read as its task, which is of wire types too.
  pub read_back :
      (t : DelegateTask)
      → IsStorable new_hash t
      → (u : DelegateTask) × (to_delegate_task new_hash (to_delegate_task_data t) ≡ ok u)
        × IsKept t u
        × IsStorable new_hash u
  read_back t h =
      let (m, done, _, good) = to_delegate_task-to_delegate_task_data new_hash t h in
      (
        _,
        done,
        record {
          same_id = refl;
          same_intent = refl;
          same_fee = refl;
          same_key = refl;
          same_status = refl;
          same_reason = refl;
          same_commitment = refl;
        },
        record { good_inputs = h.good_inputs; good_forfeits = good },
      )

  -- A row of a task shows as a task that is kept of it.
  pub tasks-row :
      (k : String) (s : Store) (t : DelegateTask)
      → IsStorable new_hash t
      → row s k ≡ some (to_delegate_task_data t)
      → (u : DelegateTask) × (tasks new_hash b s k ≡ some u) × IsKept t u × IsStorable new_hash u
  unfolding tasks
  tasks-row k s t h e =
      let (u, done, kept, good) = read_back t h in
      (u, rw e (task_of-ok new_hash _ u done), kept, good)

  row_of_task :
      (k : String) (s : Store) (u : DelegateTask)
      → tasks new_hash b s k ≡ some u
      → (d : DelegateTaskDto) × (row s k ≡ some d)
  unfolding tasks
  row_of_task k s u e = elim (Option-cases (row s k)) [
    | inl missing ↦ cc (ap (task_of new_hash) missing)
    | inr found ↦ found
  ]

  -- And only such a row shows as a task.
  pub tasks-eq-some :
      (k : String) (s : Store) (u : DelegateTask)
      → IsWellFormed s
      → tasks new_hash b s k ≡ some u
      → (t : DelegateTask) × IsStorable new_hash t
        × (t.id ≡ k)
        × (row s k ≡ some (to_delegate_task_data t))
        × IsKept t u
        × IsStorable new_hash u
  tasks-eq-some k s u w e =
      let (d, found) = row_of_task k s u e in
      let (t, of_row) = w k d found in
      let (good, at, enc) = of_row in
      let here : row s k ≡ some (to_delegate_task_data t) = found ∙ ap some enc in
      let (v, shown, kept, good') = tasks-row k s t good here in
      let same : v ≡ u = cc in
      (t, good, at, here, subst (IsKept t) same kept, subst (IsStorable new_hash) same good')

  -- The id of a task is the key that it is kept under.
  pub task_id :
      (k : String) (s : Store) (u : DelegateTask)
      → IsWellFormed s
      → tasks new_hash b s k ≡ some u
      → u.id ≡ k
  task_id k s u w e = let (t, _, at, _, kept, _) = tasks-eq-some k s u w e in kept.same_id ∙ at

  pub get_by_id_done :
      (id : String) (s : Store) (t : DelegateTask)
      → get_by_id new_hash b id s ≡ ok t
      → tasks new_hash b s id ≡ some t
  unfolding get_by_id tasks
  get_by_id_done id s t e = elim (Result-cases (get id s)) [
    | inl (d, got) ↦ rw (b.get_done id s d got) (task_of-ok new_hash d t (ground (arith, got)))
    | inr (x, missed) ↦ ground (arith, missed)
  ]

  -- `Add` of a task of wire types keeps the store well formed.
  pub write-IsWellFormed :
      (k : String) (t : DelegateTask) (s s' : Store)
      → IsStorable new_hash t
      → t.id ≡ k
      → ((j : String)
          → row s' j ≡ ite (text_discrete k j) (some (to_delegate_task_data t)) (row s j))
      → IsWellFormed s
      → IsWellFormed s'
  write-IsWellFormed k t s s' h at rows w j d e = elim (text_discrete k j) [
    | yes same ↦
        let here : row s' j ≡ some (to_delegate_task_data t) = rw (rows j, if_pos _ same) in
        (t, (h, at ∙ same, cc))
    | no other ↦ w j d ((rw (rows j, if_neg _ other) at e))
  ]

  pub unmoved-IsWellFormed :
      (s s' : Store) → ((j : String) → row s' j ≡ row s j) → IsWellFormed s → IsWellFormed s'
  unmoved-IsWellFormed s s' rows w k d e = w k d (sym (rows k) ∙ e)

  pub add_keeps :
      (t : DelegateTask) (s : Store)
      → IsStorable new_hash t
      → IsWellFormed s
      → IsWellFormed (add new_hash b t s).1
  unfolding add
  add_keeps t s h w = elim (Option-cases (insert t.id (to_delegate_task_data t) s).0) [
    | inl done ↦
        write-IsWellFormed t.id t s _ h refl (b.insert_done t.id (to_delegate_task_data t) s done).1
          w
    | inr (e, refused) ↦
        unmoved-IsWellFormed s _ (b.insert_failed t.id (to_delegate_task_data t) s e refused) w
  ]

  pub hold_result-eq-none : (o : Option HoldError) → hold_result o ≡ none → o ≡ none
  hold_result-eq-none none e = refl
  hold_result-eq-none (some x) e = cc

  pub hold_result-eq-some :
      (o : Option HoldError) (x : RepoError)
      → hold_result o ≡ some x
      → (e : HoldError) × (o ≡ some e)
  hold_result-eq-some none x h = cc
  hold_result-eq-some (some e) x h = (e, refl)

  -- A row that is written shows as a task that is kept of the one written.
  pub write-tasks :
      (k : String) (t : DelegateTask) (s s' : Store)
      → IsStorable new_hash t
      → ((j : String)
          → row s' j ≡ ite (text_discrete k j) (some (to_delegate_task_data t)) (row s j))
      → (u : DelegateTask) × IsKept t u
        × ((j : String)
            → tasks new_hash b s' j ≡ ite (text_discrete k j) (some u) (tasks new_hash b s j))
  unfolding tasks
  write-tasks k t s s' h rows =
      let (u, done, kept, _) = read_back t h in
      (
        u,
        kept,
        λ j. elim (text_discrete k j) [
          | yes same ↦ rw (rows j, if_pos _ same, if_pos _ same) (task_of-ok new_hash _ u done)
          | no other ↦ rw (rows j, if_neg _ other, if_neg _ other)
        ],
      )

  task_of-eq-some :
      (d : DelegateTaskDto) (t : DelegateTask)
      → task_of new_hash (some d) ≡ some t
      → to_delegate_task new_hash d ≡ ok t
  unfolding task_of
  task_of-eq-some d t e = ground arith

  -- Where reads succeed, `GetByID` gives every task that is kept.
  pub get_by_id_found :
      (id : String) (s : Store) (t : DelegateTask)
      → ReadsSucceed b
      → tasks new_hash b s id ≡ some t
      → get_by_id new_hash b id s ≡ ok t
  unfolding get_by_id tasks
  get_by_id_found id s t reads e =
      let (d, found) = row_of_task id s t e in
      rw (reads id d s found, get_by_id) (task_of-eq-some d t (rw found at e))

  -- A store that holds the same rows shows the same tasks.
  pub tasks_unmoved :
      (s s' : Store)
      → ((j : String) → row s' j ≡ row s j)
      → (j : String) → tasks new_hash b s' j ≡ tasks new_hash b s j
  unfolding tasks
  tasks_unmoved s s' rows j = rw (rows j)
