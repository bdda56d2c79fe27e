-- ===== src/Domain/Ending.antt =====
-- The changes by which a task of internal/core/domain/delegate.go ends, and what a call that ends tasks
-- leaves of the others.
use fulmine.Base.{
  ◌≡◌, refl, sym, ap, ◌∙◌, true, false, inl, inr, String, List, Option, none, some, contains,
  text_discrete, Bool-cases,
}
use fulmine.Domain.{DelegateTask}
use fulmine.Domain.Repository.{RepoError, is_pending, Ends, cancel, complete, fail}

-- A change that ends a task and leaves what the store is searched by.
pub record IsEnding (f : DelegateTask → DelegateTask) : Type 0 where
  pub ends : (t : DelegateTask) → is_pending (f t).status ≡ false
  pub keeps_id : (t : DelegateTask) → (f t).id ≡ t.id
  pub keeps_intent : (t : DelegateTask) → (f t).intent ≡ t.intent
  pub keeps_forfeits : (t : DelegateTask) → (f t).forfeit_txs ≡ t.forfeit_txs

pub cancel-IsEnding : IsEnding cancel
unfolding cancel
cancel-IsEnding = record {
  ends = λ t. refl;
  keeps_id = λ t. refl;
  keeps_intent = λ t. refl;
  keeps_forfeits = λ t. refl;
}

pub complete-IsEnding : (txid : String) → IsEnding (complete txid)
unfolding complete
complete-IsEnding txid = record {
  ends = λ t. refl;
  keeps_id = λ t. refl;
  keeps_intent = λ t. refl;
  keeps_forfeits = λ t. refl;
}

pub fail-IsEnding : (reason : String) → IsEnding (fail reason)
unfolding fail
fail-IsEnding reason = record {
  ends = λ t. refl;
  keeps_id = λ t. refl;
  keeps_intent = λ t. refl;
  keeps_forfeits = λ t. refl;
}

-- What a later state may show for a task: an ended task is as it was, and a pending one keeps its intent.
pub record IsLater (t u : DelegateTask) : Type 0 where
  pub later_id : u.id ≡ t.id
  pub later_intent : u.intent ≡ t.intent
  pub later_ended : is_pending t.status ≡ false → u ≡ t

pub IsLater-refl : (t : DelegateTask) → IsLater t t
IsLater-refl t = record { later_id = refl; later_intent = refl; later_ended = λ e. refl }

pub IsLater-trans : (t u v : DelegateTask) → IsLater t u → IsLater u v → IsLater t v
IsLater-trans t u v h k = record {
  later_id = k.later_id ∙ h.later_id;
  later_intent = k.later_intent ∙ h.later_intent;
  later_ended = λ e.
      k.later_ended (ap (λ (x : DelegateTask). is_pending x.status) (h.later_ended e) ∙ e)
      ∙ h.later_ended e;
}

-- What is kept under an id evolves: no task is lost.
abbrev pub Evolves : Option DelegateTask → Option DelegateTask → Type 0
Evolves before after =
    (t : DelegateTask) → before ≡ some t → (u : DelegateTask) × (after ≡ some u) × IsLater t u

pub Evolves-trans : (a b c : Option DelegateTask) → Evolves a b → Evolves b c → Evolves a c
Evolves-trans a b c h k t e =
    let (u, shown, later) = h t e in
    let (v, shown', later') = k u shown in (v, shown', IsLater-trans t u v later later')

pub Evolves-same : (a b : Option DelegateTask) → b ≡ a → Evolves a b
Evolves-same a b same t e = (t, same ∙ e, IsLater-refl t)

module _ {Store : Type 0} (tasks : Store → String → Option DelegateTask)
    (f : DelegateTask → DelegateTask) (fe : IsEnding f) (ids : List String) (s : Store)
    (r : Option RepoError × Store) (ends : Ends tasks f ids s r) where
  pub Ends-Evolves : (j : String) → Evolves (tasks s j) (tasks r.1 j)
  Ends-Evolves j = elim (ends.either j) [
    | inl same ↦ Evolves-same (tasks s j) (tasks r.1 j) same
    | inr (c, (t, shown, waits, end)) ↦ λ t' e.
        let (u, shown', kept) = end in
        let same : t ≡ t' = cc in
        (
          u,
          shown',
          record {
            later_id = kept.same_id ∙ (fe.keeps_id t ∙ ap (λ (x : DelegateTask). x.id) same);
            later_intent =
                kept.same_intent ∙ (fe.keeps_intent t ∙ ap (λ (x : DelegateTask). x.intent) same);
            later_ended = λ ended. cc (ap (λ (x : DelegateTask). is_pending x.status) same);
          },
        )
  ]

  -- A task that is still pending is as it was.
  pub Ends-pending :
      (j : String) (u : DelegateTask)
      → tasks r.1 j ≡ some u
      → is_pending u.status ≡ true
      → tasks s j ≡ some u
  Ends-pending j u e waits = elim (ends.either j) [
    | inl same ↦ sym same ∙ e
    | inr (c, (t, shown, was, end)) ↦
        let (v, shown', kept) = end in
        let same : v ≡ u = cc in
        cc (
          fe.ends t,
          ap is_pending kept.same_status,
          ap (λ (x : DelegateTask). is_pending x.status) same,
        )
  ]

  -- After a call without error no task of the list is pending.
  pub Ends-done :
      (j : String) (u : DelegateTask)
      → r.0 ≡ none
      → contains text_discrete j ids ≡ true
      → tasks r.1 j ≡ some u
      → is_pending u.status ≡ false
  Ends-done j u fine c e = elim (Bool-cases (is_pending u.status)) [
    | inr no_more ↦ no_more
    | inl waits ↦
        let (t, shown, was, end) = ends.ended fine j u c (Ends-pending j u e waits) waits in
        let (v, shown', kept) = end in
        let same : v ≡ u = cc in
        cc (
          fe.ends t,
          ap is_pending kept.same_status,
          ap (λ (x : DelegateTask). is_pending x.status) same,
        )
  ]
