-- ===== src/Delegate/Service/Sound.antt =====
-- What a step of `DelegateService` of internal/core/application/delegate_service.go may do to the stored
-- tasks: it loses none, changes no task that has ended, and brings no two pending tasks into conflict.
use fulmine.Base.{
  ◌≡◌, refl, sym, ap, ◌∙◌, true, false, inl, inr, String, List, [], ◌∷◌, Option, none, some, ite,
  if_pos, if_neg, ok, Option-cases, Bool-cases, contains, text_discrete, arith,
}
use fulmine.Domain.{Outpoint, outpoint_discrete, DelegateTask}
use fulmine.Domain.Repository.{
  RepoError, is_pending, Ends, overlaps, cancel, complete, fail, DelegateRepository,
}
use fulmine.Domain.Ending.{
  IsEnding, cancel-IsEnding, complete-IsEnding, fail-IsEnding, Evolves, Evolves-trans, Evolves-same,
  Ends-Evolves, Ends-pending, Ends-done,
}

-- `overlaps` is symmetric.
overlaps_of_contains :
    (y : Outpoint) (xs ys : List Outpoint)
    → contains outpoint_discrete y xs ≡ true
    → contains outpoint_discrete y ys ≡ true
    → overlaps xs ys ≡ true
unfolding overlaps
overlaps_of_contains y [] ys c d = cc
overlaps_of_contains y (x ∷ xs) ys c d = elim (outpoint_discrete y x) [
  | yes same ↦
      let d' : contains outpoint_discrete x ys ≡ true = rw same at d in rw (d', overlaps) refl
  | no other ↦ ground (arith, overlaps_of_contains y xs ys)
]

overlaps-cases :
    (xs ys : List Outpoint)
    → overlaps xs ys ≡ true
    → (x : Outpoint) × (contains outpoint_discrete x xs ≡ true)
      × (contains outpoint_discrete x ys ≡ true)
unfolding overlaps
overlaps-cases [] ys h = cc
overlaps-cases (x ∷ xs) ys h = elim (Bool-cases (contains outpoint_discrete x ys)) [
  | inl hit ↦ (x, rw (if_pos (outpoint_discrete x x) refl), hit)
  | inr miss ↦
      let (y, c, d) = overlaps-cases xs ys (rw (miss, overlaps) at h) in (y, ground arith, d)
]

pub overlaps_comm : (xs ys : List Outpoint) → overlaps xs ys ≡ true → overlaps ys xs ≡ true
overlaps_comm xs ys h = let (x, c, d) = overlaps-cases xs ys h in overlaps_of_contains x ys xs d c

module _ (r : DelegateRepository) where
  open r use {Store, IsWellFormed, CanStore, tasks, add, cancel_tasks, complete_tasks, fail_tasks}

  -- Two pending tasks that spend one input are one task.
  abbrev pub NoOverlap : Store → Type 0
  NoOverlap s =
      (j k : String) (t u : DelegateTask)
      → tasks s j ≡ some t
      → tasks s k ≡ some u
      → is_pending t.status ≡ true
      → is_pending u.status ≡ true
      → overlaps t.intent.inputs u.intent.inputs ≡ true
      → j ≡ k

  pub record IsSound (s s' : Store) : Type 0 where
    pub well_formed : IsWellFormed s'
    pub evolves : (j : String) → Evolves (tasks s j) (tasks s' j)
    pub no_overlap : NoOverlap s → NoOverlap s'

  pub IsSound-refl : (s : Store) → IsWellFormed s → IsSound s s
  IsSound-refl s w = record {
    well_formed = w;
    evolves = λ j. Evolves-same (tasks s j) (tasks s j) refl;
    no_overlap = λ h. h;
  }

  pub IsSound-trans : (s s' s'' : Store) → IsSound s s' → IsSound s' s'' → IsSound s s''
  IsSound-trans s s' s'' h k = record {
    well_formed = k.well_formed;
    evolves = λ j. Evolves-trans (tasks s j) (tasks s' j) (tasks s'' j) (h.evolves j) (k.evolves j);
    no_overlap = λ free. k.no_overlap (h.no_overlap free);
  }

  Ends-IsSound :
      (f : DelegateTask → DelegateTask) (ids : List String) (s : Store)
      (a : Option RepoError × Store)
      → IsEnding f
      → IsWellFormed a.1
      → Ends tasks f ids s a
      → IsSound s a.1
  Ends-IsSound f ids s a fe w ends = record {
    well_formed = w;
    evolves = Ends-Evolves tasks f fe ids s a ends;
    no_overlap = λ free j k t u e e' p p' o.
        free j k t u (Ends-pending tasks f fe ids s a ends j t e p)
          (Ends-pending tasks f fe ids s a ends k u e' p') p p' o;
  }

  pub cancel_tasks-IsSound :
      (ids : List String) (s : Store) → IsWellFormed s → IsSound s (cancel_tasks ids s).1
  cancel_tasks-IsSound ids s w =
      Ends-IsSound cancel ids s _ cancel-IsEnding (r.cancel_keeps ids s w) (r.cancel_ends ids s w)

  pub fail_tasks-IsSound :
      (reason : String) (ids : List String) (s : Store)
      → IsWellFormed s
      → IsSound s (fail_tasks reason ids s).1
  fail_tasks-IsSound reason ids s w =
      Ends-IsSound (fail reason) ids s _ (fail-IsEnding reason) (r.fail_keeps reason ids s w)
        (r.fail_ends reason ids s w)

  pub complete_tasks-IsSound :
      (txid : String) (ids : List String) (s : Store)
      → IsWellFormed s
      → IsSound s (complete_tasks txid ids s).1
  complete_tasks-IsSound txid ids s w =
      Ends-IsSound (complete txid) ids s _ (complete-IsEnding txid) (r.complete_keeps txid ids s w)
        (r.complete_ends txid ids s w)

  -- No pending task spends an input of the new one.
  abbrev pub IsFree : DelegateTask → Store → Type 0
  IsFree task s =
      (j : String) (t : DelegateTask)
      → tasks s j ≡ some t
      → is_pending t.status ≡ true
      → overlaps t.intent.inputs task.intent.inputs ≡ false

  -- A store in which one new task stands.
  abbrev Added : DelegateTask → DelegateTask → Store → Store → Type 0
  Added task u s s' = (j : String) → tasks s' j ≡ ite (text_discrete task.id j) (some u) (tasks s j)

  Added-NoOverlap :
      (task u : DelegateTask) (s s' : Store)
      → u.intent ≡ task.intent
      → IsFree task s
      → Added task u s s'
      → NoOverlap s
      → NoOverlap s'
  Added-NoOverlap task u s s' kept free added none_before j k t v e e' p p' o =
      elim (text_discrete task.id j) [
        | yes at_j ↦ elim (text_discrete task.id k) [
          | yes at_k ↦ sym at_j ∙ at_k
          | no off_k ↦
              let here : tasks s' j ≡ some u = rw (added j, if_pos _ at_j) in
              let new : u ≡ t = cc in
              let old : tasks s k ≡ some v = rw (added k, if_neg _ off_k) at e' in
              let clash = overlaps_comm t.intent.inputs v.intent.inputs o in
              let same : t.intent ≡ task.intent =
                sym (ap (λ (x : DelegateTask). x.intent) new) ∙ kept in
              cc (free k v old p', rw same at clash)
        ]
        | no off_j ↦ elim (text_discrete task.id k) [
          | yes at_k ↦
              let here : tasks s' k ≡ some u = rw (added k, if_pos _ at_k) in
              let new : u ≡ v = cc in
              let old : tasks s j ≡ some t = rw (added j, if_neg _ off_j) at e in
              let same : v.intent ≡ task.intent =
                sym (ap (λ (x : DelegateTask). x.intent) new) ∙ kept in
              cc (free j t old p, rw same at o)
          | no off_k ↦
              none_before j k t v (rw (added j, if_neg _ off_j) at e)
                (rw (added k, if_neg _ off_k) at e') p p' o
        ]
      ]

  Added-Evolves :
      (task u : DelegateTask) (s s' : Store)
      → tasks s task.id ≡ none
      → Added task u s s'
      → (j : String) → Evolves (tasks s j) (tasks s' j)
  Added-Evolves task u s s' fresh added j = elim (text_discrete task.id j) [
    | yes at_j ↦ λ t e. cc (ap (tasks s) at_j)
    | no off_j ↦ Evolves-same (tasks s j) (tasks s' j) (rw (added j, if_neg _ off_j))
  ]

  pub same-IsSound :
      (s s' : Store) → IsWellFormed s' → ((j : String) → tasks s' j ≡ tasks s j) → IsSound s s'
  same-IsSound s s' w same = record {
    well_formed = w;
    evolves = λ j. Evolves-same (tasks s j) (tasks s' j) (same j);
    no_overlap =
        λ free j k t u e e' p p' o. free j k t u (sym (same j) ∙ e) (sym (same k) ∙ e') p p' o;
  }

  pub add-IsSound :
      (task : DelegateTask) (s : Store)
      → CanStore task
      → IsWellFormed s
      → IsFree task s
      → IsSound s (add task s).1
  add-IsSound task s can w free = elim (Option-cases (add task s).0) [
    | inl done ↦
        let (fresh, rest) = r.add_done task s can w done in
        let (u, kept, added) = rest in
        record {
          well_formed = r.add_keeps task s can w;
          evolves = Added-Evolves task u s _ fresh added;
          no_overlap = Added-NoOverlap task u s _ kept.same_intent free added;
        }
    | inr (e, refused) ↦ same-IsSound s _ (r.add_keeps task s can w) (r.add_failed task s e refused)
  ]

  -- The two ways to a store that is free for a new task.
  pub IsFree-none :
      (task : DelegateTask) (s : Store)
      → IsWellFormed s
      → r.get_pending_task_ids_by_inputs task.intent.inputs s ≡ ok []
      → IsFree task s
  IsFree-none task s w e j t shown waits =
      elim (Bool-cases (overlaps t.intent.inputs task.intent.inputs)) [
        | inr miss ↦ miss
        | inl hit ↦ cc (r.by_inputs_complete task.intent.inputs s [] j t w e shown waits hit)
      ]

  pub IsFree-cancel :
      (task : DelegateTask) (ids : List String) (s : Store)
      → IsWellFormed s
      → r.get_pending_task_ids_by_inputs task.intent.inputs s ≡ ok ids
      → (cancel_tasks ids s).0 ≡ none
      → IsFree task (cancel_tasks ids s).1
  IsFree-cancel task ids s w e fine j t shown waits =
      elim (Bool-cases (overlaps t.intent.inputs task.intent.inputs)) [
        | inr miss ↦ miss
        | inl hit ↦
            let ends = r.cancel_ends ids s w in
            let before = Ends-pending tasks cancel cancel-IsEnding ids s _ ends j t shown waits in
            let c = r.by_inputs_complete task.intent.inputs s ids j t w e before waits hit in
            cc (Ends-done tasks cancel cancel-IsEnding ids s _ ends j t fine c shown)
      ]
