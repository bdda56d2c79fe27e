-- ===== src/Badger/ScriptRepo/Loops.antt =====
-- The loops of `Add` and `Delete` of
-- internal/infrastructure/db/badger/subscribed_script_repo.go: what they leave in the store and what
-- their count says.
use fulmine.Base.{
  ◌≡◌, refl, ◌∙◌, ap, ℕ, suc, ◌≤◌, Bool, true, false, not, ◌&&◌, ◌||◌, inl, inr, String, List, [],
  ◌∷◌, none, ite, contains, text_discrete, arith, Option-cases,
}
use fulmine.Badger.Hold.{Badgerhold, not_found, key_exists, failure}
use fulmine.Badger.ScriptRepo.{SubscribedScript, add_from, delete_from}
use fulmine.Badger.ScriptRepo.Contents.{
  is_some, holds, row_for, IsKeyed, insert_done-holds, insert_refused-holds, insert-IsKeyed,
  delete_done-holds, delete_refused-holds, delete-IsKeyed,
}

or_later : {P : Type 0} (d : Dec P) (c h : Bool) → c || ite d true h ≡ ite d true c || h
or_later d c h = ground arith

and_later : {P : Type 0} (d : Dec P) (c h : Bool) → ite d false h && not c ≡ h && not (ite d true c)
and_later d c h = ground arith

module _ (b : Badgerhold SubscribedScript) where
  open b use {Store, insert, delete, insert_failed, delete_failed}

  pub add_from-holds :
      (n : ℕ) (xs : List String) (s : Store)
      → (add_from b n xs s).0.1 ≡ none
      → (j : String) → holds b (add_from b n xs s).1 j ≡ contains text_discrete j xs || holds b s j
  unfolding add_from
  add_from-holds n [] s e j = refl
  add_from-holds n (x ∷ xs) s e j = elim (Option-cases (insert x (row_for x) s).0) [
    | inl done ↦
        let later =
          add_from-holds (suc n) xs (insert x (row_for x) s).1 (rw (done, add_from) at e) j in
        rw (done, add_from)
          (later ∙ rw (insert_done-holds b x s done j) (or_later (text_discrete x j) _ _))
    | inr (not_found, failed) ↦ cc (rw (failed, add_from) at e)
    | inr (failure m, failed) ↦ cc (rw (failed, add_from) at e)
    | inr (key_exists, refused) ↦
        let later =
          add_from-holds n xs (insert x (row_for x) s).1 (rw (refused, add_from) at e) j in
        rw (refused, add_from)
          (later ∙ rw (insert_refused-holds b x s refused j) (or_later (text_discrete x j) _ _))
  ]

  pub delete_from-holds :
      (n : ℕ) (xs : List String) (s : Store)
      → (delete_from b n xs s).0.1 ≡ none
      → (j : String)
      → holds b (delete_from b n xs s).1 j ≡ holds b s j && not (contains text_discrete j xs)
  unfolding delete_from
  delete_from-holds n [] s e j = ground arith
  delete_from-holds n (x ∷ xs) s e j = elim (Option-cases (delete x s).0) [
    | inl done ↦
        let later = delete_from-holds (suc n) xs (delete x s).1 (rw (done, delete_from) at e) j in
        rw (done, delete_from)
          (later ∙ rw (delete_done-holds b x s done j) (and_later (text_discrete x j) _ _))
    | inr (key_exists, failed) ↦ cc (rw (failed, delete_from) at e)
    | inr (failure m, failed) ↦ cc (rw (failed, delete_from) at e)
    | inr (not_found, refused) ↦
        let later = delete_from-holds n xs (delete x s).1 (rw (refused, delete_from) at e) j in
        rw (refused, delete_from)
          (later ∙ rw (delete_refused-holds b x s refused j) (and_later (text_discrete x j) _ _))
  ]

  pub add_from-IsKeyed :
      (n : ℕ) (xs : List String) (s : Store) → IsKeyed b s → IsKeyed b (add_from b n xs s).1
  unfolding add_from
  add_from-IsKeyed n [] s w = w
  add_from-IsKeyed n (x ∷ xs) s w =
      let next = insert-IsKeyed b x s w in
      elim (Option-cases (insert x (row_for x) s).0) [
        | inl done ↦ rw (done, add_from) (add_from-IsKeyed (suc n) xs _ next)
        | inr (not_found, failed) ↦ rw (failed, add_from) next
        | inr (failure m, failed) ↦ rw (failed, add_from) next
        | inr (key_exists, refused) ↦ rw (refused, add_from) (add_from-IsKeyed n xs _ next)
      ]

  pub delete_from-IsKeyed :
      (n : ℕ) (xs : List String) (s : Store) → IsKeyed b s → IsKeyed b (delete_from b n xs s).1
  unfolding delete_from
  delete_from-IsKeyed n [] s w = w
  delete_from-IsKeyed n (x ∷ xs) s w =
      let next = delete-IsKeyed b x s w in
      elim (Option-cases (delete x s).0) [
        | inl done ↦ rw (done, delete_from) (delete_from-IsKeyed (suc n) xs _ next)
        | inr (key_exists, failed) ↦ rw (failed, delete_from) next
        | inr (failure m, failed) ↦ rw (failed, delete_from) next
        | inr (not_found, refused) ↦ rw (refused, delete_from) (delete_from-IsKeyed n xs _ next)
      ]

  pub add_from-grows : (n : ℕ) (xs : List String) (s : Store) → n ≤ (add_from b n xs s).0.0
  unfolding add_from
  add_from-grows n [] s = omega arith
  add_from-grows n (x ∷ xs) s = elim (Option-cases (insert x (row_for x) s).0) [
    | inl done ↦
        rw (done, add_from) (omega (arith, add_from-grows (suc n) xs (insert x (row_for x) s).1))
    | inr (not_found, failed) ↦ rw (failed, add_from) (omega arith)
    | inr (failure m, failed) ↦ rw (failed, add_from) (omega arith)
    | inr (key_exists, refused) ↦ rw (refused, add_from) (add_from-grows n xs _)
  ]

  pub delete_from-grows : (n : ℕ) (xs : List String) (s : Store) → n ≤ (delete_from b n xs s).0.0
  unfolding delete_from
  delete_from-grows n [] s = omega arith
  delete_from-grows n (x ∷ xs) s = elim (Option-cases (delete x s).0) [
    | inl done ↦ rw (done, delete_from) (omega (arith, delete_from-grows (suc n) xs (delete x s).1))
    | inr (key_exists, failed) ↦ rw (failed, delete_from) (omega arith)
    | inr (failure m, failed) ↦ rw (failed, delete_from) (omega arith)
    | inr (not_found, refused) ↦ rw (refused, delete_from) (delete_from-grows n xs _)
  ]

  -- A count that has not moved: nothing has changed.
  pub add_from-same :
      (n : ℕ) (xs : List String) (s : Store)
      → (add_from b n xs s).0.1 ≡ none
      → (add_from b n xs s).0.0 ≡ n
      → (j : String) → holds b (add_from b n xs s).1 j ≡ holds b s j
  unfolding add_from holds
  add_from-same n [] s e c j = refl
  add_from-same n (x ∷ xs) s e c j = elim (Option-cases (insert x (row_for x) s).0) [
    | inl done ↦
        let more = add_from-grows (suc n) xs (insert x (row_for x) s).1 in
        let stays = rw (done, add_from) at c in absurd (omega (arith, more, stays))
    | inr (not_found, failed) ↦ cc (rw (failed, add_from) at e)
    | inr (failure m, failed) ↦ cc (rw (failed, add_from) at e)
    | inr (key_exists, refused) ↦
        let later =
          add_from-same n xs (insert x (row_for x) s).1 (rw (refused, add_from) at e)
            (rw (refused, add_from) at c) j in
        rw (refused, add_from)
          (later ∙ ap is_some (insert_failed x (row_for x) s key_exists refused j))
  ]

  pub delete_from-same :
      (n : ℕ) (xs : List String) (s : Store)
      → (delete_from b n xs s).0.1 ≡ none
      → (delete_from b n xs s).0.0 ≡ n
      → (j : String) → holds b (delete_from b n xs s).1 j ≡ holds b s j
  unfolding delete_from holds
  delete_from-same n [] s e c j = refl
  delete_from-same n (x ∷ xs) s e c j = elim (Option-cases (delete x s).0) [
    | inl done ↦
        let more = delete_from-grows (suc n) xs (delete x s).1 in
        let stays = rw (done, delete_from) at c in absurd (omega (arith, more, stays))
    | inr (key_exists, failed) ↦ cc (rw (failed, delete_from) at e)
    | inr (failure m, failed) ↦ cc (rw (failed, delete_from) at e)
    | inr (not_found, refused) ↦
        let later =
          delete_from-same n xs (delete x s).1 (rw (refused, delete_from) at e)
            (rw (refused, delete_from) at c) j in
        rw (refused, delete_from) (later ∙ ap is_some (delete_failed x s not_found refused j))
  ]
