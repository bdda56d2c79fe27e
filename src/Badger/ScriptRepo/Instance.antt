-- ===== src/Badger/ScriptRepo/Instance.antt =====
-- The script store of internal/infrastructure/db/badger/subscribed_script_repo.go keeps the promises
-- that the subscription handler relies on.
use fulmine.Base.{
  ◌≡◌, refl, sym, ◌∙◌, ap, subst, true, inl, inr, String, List, [], ◌∷◌, some, ok, err, map, Any,
  contains, text_discrete, arith, Option-cases, Result-cases, Bool-cases, if_pos, if_neg,
  ok-injective,
}
use fulmine.Badger.Hold.{Badgerhold, not_found, key_exists, failure}
use fulmine.Badger.ScriptRepo.{
  SubscribedScript, ScriptError, script_of, add_scripts, get_scripts, delete_scripts,
}
use fulmine.Badger.ScriptRepo.Contents.{holds, IsKeyed}
use fulmine.Badger.ScriptRepo.Loops.{
  add_from-holds, add_from-IsKeyed, add_from-same, delete_from-holds, delete_from-IsKeyed,
  delete_from-same,
}
use fulmine.Subscription.Store.{ScriptsStore}

contains_sound :
    (k : String) (rs : List SubscribedScript)
    → contains text_discrete k (map script_of rs) ≡ true
    → (r : SubscribedScript) × Any (λ x. x ≡ r) rs × (r.script ≡ k)
contains_sound k [] e = cc
contains_sound k (r ∷ rs) e = elim (text_discrete r.script k) [
  | yes same ↦ (r, inl refl, same)
  | no other ↦
      let (x, there, same) =
        contains_sound k rs (sym (if_neg (text_discrete r.script k) other _ _) ∙ e) in
      (x, inr there, same)
]

contains_complete :
    (k : String) (r : SubscribedScript) (rs : List SubscribedScript)
    → Any (λ x. x ≡ r) rs
    → r.script ≡ k
    → contains text_discrete k (map script_of rs) ≡ true
contains_complete k r [] a e = absurd a
contains_complete k r (x ∷ rs) (inl here) e =
    if_pos (text_discrete x.script k) (ap script_of here ∙ e) _ _
contains_complete k r (x ∷ rs) (inr later) e = ground (arith, contains_complete k r rs later e)

module _ (b : Badgerhold SubscribedScript) where
  open b use {Store, find, row, find_sound, find_complete, find_refused}

  holds_row :
      (s : Store) (k : String) → holds b s k ≡ true → (r : SubscribedScript) × (row s k ≡ some r)
  unfolding holds
  holds_row s k h = elim (Option-cases (row s k)) [
    | inl missing ↦ cc (rw missing at h)
    | inr (r, here) ↦ (r, here)
  ]

  row-holds :
      (s : Store) (k : String) (r : SubscribedScript) → row s k ≡ some r → holds b s k ≡ true
  unfolding holds
  row-holds s k r here = rw here refl

  -- The scripts that a read finds are those that the store holds.
  found_scripts :
      (s : Store) (rs : List SubscribedScript)
      → IsKeyed b s
      → find (λ _. true) s ≡ ok rs
      → (k : String) → contains text_discrete k (map script_of rs) ≡ holds b s k
  found_scripts s rs w got k = elim (Bool-cases (contains text_discrete k (map script_of rs))) [
    | inl listed ↦
        let (r, there, same) = contains_sound k rs listed in
        let (j, here) = (find_sound (λ _. true) s rs got r there).1 in
        let spot = sym (w j r here) ∙ same in
        listed ∙ sym (subst (λ i. holds b s i ≡ true) spot (row-holds s j r here))
    | inr unlisted ↦ elim (Bool-cases (holds b s k)) [
      | inr missing ↦ unlisted ∙ sym missing
      | inl held ↦
          let (r, here) = holds_row s k held in
          let there = find_complete (λ _. true) s rs got k r here refl in
          contains_complete k r rs there (w k r here) ∙ sym held
    ]
  ]

  none_found :
      (s : Store)
      → find (λ _. true) s ≡ err not_found
      → (k : String) → contains text_discrete k [] ≡ holds b s k
  none_found s failed k = elim (Bool-cases (holds b s k)) [
    | inr missing ↦ sym missing
    | inl held ↦
        let (r, here) = holds_row s k held in
        absurd (find_refused (λ _. true) s failed k r here refl)
  ]

  pub get_scripts-contains :
      (s : Store) (xs : List String)
      → IsKeyed b s
      → get_scripts b s ≡ ok xs
      → (k : String) → contains text_discrete k xs ≡ holds b s k
  unfolding get_scripts
  get_scripts-contains s xs w e k = elim (Result-cases (find (λ _. true) s)) [
    | inl (rs, got) ↦
        subst (λ ys. contains text_discrete k ys ≡ holds b s k)
          (ok-injective (rw (got, get_scripts) at e)) (found_scripts s rs w got k)
    | inr (key_exists, failed) ↦ cc (rw (failed, get_scripts) at e)
    | inr (failure m, failed) ↦ cc (rw (failed, get_scripts) at e)
    | inr (not_found, failed) ↦
        subst (λ ys. contains text_discrete k ys ≡ holds b s k)
          (ok-injective (rw (failed, get_scripts) at e)) (none_found s failed k)
  ]

  unfoldable pub script_store : ScriptsStore
  unfolding holds add_scripts delete_scripts
  script_store = record {
    Store = Store;
    Error = ScriptError;
    get = get_scripts b;
    add = add_scripts b;
    delete = delete_scripts b;
    holds = holds b;
    IsValid = IsKeyed b;
    add_valid = λ xs s w. add_from-IsKeyed b 0 xs s w;
    delete_valid = λ xs s w. delete_from-IsKeyed b 0 xs s w;
    get_done = λ s xs w e k. get_scripts-contains s xs w e k;
    add_done = λ xs s e k. add_from-holds b 0 xs s e k;
    add_same = λ xs s e k. add_from-same b 0 xs s (ap (λ p. p.1) e) (ap (λ p. p.0) e) k;
    delete_done = λ xs s e k. delete_from-holds b 0 xs s e k;
    delete_same = λ xs s e k. delete_from-same b 0 xs s (ap (λ p. p.1) e) (ap (λ p. p.0) e) k;
  }
