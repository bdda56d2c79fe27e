-- ===== src/Badger/ScriptRepo/Contents.antt =====
-- What the script store of internal/infrastructure/db/badger/subscribed_script_repo.go holds after
-- its calls.
use fulmine.Base.{
  ◌≡◌, ◌≢◌, refl, sym, ◌∙◌, ap, subst, Bool, true, false, inl, inr, String, Option, none, some, ite,
  if_pos, if_neg, text_discrete, arith, Option-cases,
}
use fulmine.Badger.Hold.{Badgerhold, not_found, key_exists}
use fulmine.Badger.ScriptRepo.{SubscribedScript, script_of}

abbrev pub is_some {ℓ} : {A : Type ℓ} → Option A → Bool
is_some none = false
is_some (some a) = true

some_injective : {A : Type 0} {a c : A} → ◌≡◌ {A = Option A} (some a) (some c) → a ≡ c
some_injective e = cc

abbrev pub row_for : String → SubscribedScript
row_for script = record { script = script }

module _ (b : Badgerhold SubscribedScript) where
  open b use {
    Store, insert, find, delete, row, insert_done, insert_failed, insert_refused, delete_done,
    delete_failed, delete_refused, find_sound, find_complete, find_refused,
  }

  -- Whether a script is in the store.
  unfoldable pub holds : Store → String → Bool
  holds s k = is_some (row s k)

  -- Each row is kept under its script.
  abbrev pub IsKeyed : Store → Type 0
  IsKeyed s = (k : String) (r : SubscribedScript) → row s k ≡ some r → r.script ≡ k

  pub delete_done-holds :
      (k : String) (s : Store)
      → (delete k s).0 ≡ none
      → (j : String) → holds (delete k s).1 j ≡ ite (text_discrete k j) false (holds s j)
  unfolding holds
  delete_done-holds k s e j = rw ((delete_done k s e).1 j) (ground arith)

  is_none-holds : (s : Store) (k : String) → row s k ≡ none → holds s k ≡ false
  unfolding holds
  is_none-holds s k missing = rw missing refl

  pub delete_refused-holds :
      (k : String) (s : Store)
      → (delete k s).0 ≡ some not_found
      → (j : String) → holds (delete k s).1 j ≡ ite (text_discrete k j) false (holds s j)
  unfolding holds
  delete_refused-holds k s e j = rw (delete_failed k s not_found e j) (elim (text_discrete k j) [
    | yes same ↦
        subst (λ i. holds s i ≡ false) same (is_none-holds s k (delete_refused k s e))
        ∙ sym (if_pos (text_discrete k j) same _ _)
    | no other ↦ sym (if_neg (text_discrete k j) other _ _)
  ])

  is_some-holds : (s : Store) (k : String) → row s k ≢ none → holds s k ≡ true
  unfolding holds
  is_some-holds s k there = elim (Option-cases (row s k)) [
    | inl missing ↦ absurd (there missing)
    | inr (r, here) ↦ rw here refl
  ]

  is_there :
      (k j : String) (s : Store)
      → row s k ≢ none
      → holds s j ≡ ite (text_discrete k j) true (holds s j)
  is_there k j s there = elim (text_discrete k j) [
    | yes same ↦
        subst (λ i. holds s i ≡ true) same (is_some-holds s k there)
        ∙ sym (if_pos (text_discrete k j) same _ _)
    | no other ↦ sym (if_neg (text_discrete k j) other _ _)
  ]

  pub insert_done-holds :
      (k : String) (s : Store)
      → (insert k (row_for k) s).0 ≡ none
      → (j : String) → holds (insert k (row_for k) s).1 j ≡ ite (text_discrete k j) true (holds s j)
  unfolding holds
  insert_done-holds k s e j = rw ((insert_done k (row_for k) s e).1 j) (ground arith)

  pub insert_refused-holds :
      (k : String) (s : Store)
      → (insert k (row_for k) s).0 ≡ some key_exists
      → (j : String) → holds (insert k (row_for k) s).1 j ≡ ite (text_discrete k j) true (holds s j)
  unfolding holds
  insert_refused-holds k s e j =
      rw (insert_failed k (row_for k) s key_exists e j)
        (is_there k j s (insert_refused k (row_for k) s e))

  pub insert-IsKeyed : (k : String) (s : Store) → IsKeyed s → IsKeyed (insert k (row_for k) s).1
  insert-IsKeyed k s w j r h = elim (Option-cases (insert k (row_for k) s).0) [
    | inl done ↦ elim (text_discrete k j) [
      | yes same ↦
          ap script_of (
            sym (
              some_injective (
                sym (if_pos (text_discrete k j) same _ _)
                ∙ sym ((insert_done k (row_for k) s done).1 j)
                ∙ h)))
          ∙ same
      | no other ↦ w j r (
          sym (if_neg (text_discrete k j) other _ _)
          ∙ sym ((insert_done k (row_for k) s done).1 j)
          ∙ h)
    ]
    | inr (x, failed) ↦ w j r (rw (insert_failed k (row_for k) s x failed j) at h)
  ]

  pub delete-IsKeyed : (k : String) (s : Store) → IsKeyed s → IsKeyed (delete k s).1
  delete-IsKeyed k s w j r h = elim (Option-cases (delete k s).0) [
    | inl done ↦ elim (text_discrete k j) [
      | yes same ↦
          cc (sym (if_pos (text_discrete k j) same _ _) ∙ sym ((delete_done k s done).1 j) ∙ h)
      | no other ↦
          w j r (sym (if_neg (text_discrete k j) other _ _) ∙ sym ((delete_done k s done).1 j) ∙ h)
    ]
    | inr (x, failed) ↦ w j r (rw (delete_failed k s x failed j) at h)
  ]
