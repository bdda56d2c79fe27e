-- ===== src/Badger/Memory.antt =====
-- A badgerhold database that is a list of rows, which the examples run on: it keeps the laws of
-- the parameter of internal/infrastructure/db/badger.
use fulmine.Base.{
  ◌≡◌, refl, sym, subst, ◌≢◌, ◌⊎◌, inl, inr, Bool, true, String, List, [], ◌∷◌, Option, none, some,
  ite, if_neg, Result, ok, err, Any, text_discrete, if◌then◌else◌, Option-cases, Bool-cases, arith,
}
use fulmine.Base.Maps.{get, put, remove, get-put, get-remove}
use fulmine.Badger.Hold.{Badgerhold, HoldError, not_found, key_exists, ReadsSucceed}

module _ {Row : Type 0} where
  unfoldable pub lookup : String → List (String × Row) → Option Row
  unfolding get text_discrete
  lookup k s = get text_discrete k s

  unfoldable pub write : String → Row → List (String × Row) → List (String × Row)
  unfolding put text_discrete
  write k r s = put text_discrete k r s

  pub lookup-write :
      (k j : String) (r : Row) (s : List (String × Row))
      → lookup j (write k r s) ≡ ite (text_discrete k j) (some r) (lookup j s)
  unfolding lookup write
  lookup-write k j r s = get-put text_discrete k j r s

  unfoldable pub erase : String → List (String × Row) → List (String × Row)
  unfolding remove text_discrete
  erase k s = remove text_discrete k s

  pub lookup-erase :
      (k j : String) (s : List (String × Row))
      → lookup j (erase k s) ≡ ite (text_discrete k j) none (lookup j s)
  unfolding lookup erase
  lookup-erase k j s = get-remove text_discrete k j s

  unfoldable pub insert_row :
      String → Row → List (String × Row) → Option HoldError × List (String × Row)
  unfolding lookup write
  insert_row k r s = elim (lookup k s) [
    | none ↦ (none, write k r s)
    | some x ↦ (some key_exists, s)
  ]

  unfoldable pub update_row :
      String → Row → List (String × Row) → Option HoldError × List (String × Row)
  unfolding lookup write
  update_row k r s = elim (lookup k s) [ none ↦ (some not_found, s) | some x ↦ (none, write k r s) ]

  unfoldable pub delete_row : String → List (String × Row) → Option HoldError × List (String × Row)
  unfolding lookup erase
  delete_row k s = elim (lookup k s) [ none ↦ (some not_found, s) | some x ↦ (none, erase k s) ]

  unfoldable pub get_row : String → List (String × Row) → Result HoldError Row
  unfolding lookup
  get_row k s = elim (lookup k s) [ none ↦ err not_found | some r ↦ ok r ]

  unfoldable pub collect : (Row → Bool) → List (String × Row) → List (String × Row) → List Row
  unfolding lookup
  collect p [] s = []
  collect p ((k, x) ∷ m) s =
      let rest = collect p m s in
      elim (lookup k s) [ none ↦ rest | some r ↦ if p r then r ∷ rest else rest ]

  pub collect_sound :
      (p : Row → Bool) (m s : List (String × Row)) (r : Row)
      → Any (λ x. x ≡ r) (collect p m s)
      → (p r ≡ true) × ((k : String) × (lookup k s ≡ some r))
  unfolding collect
  collect_sound p [] s r a = absurd a
  collect_sound p ((k, x) ∷ m) s r a = elim (Option-cases (lookup k s)) [
    | inl none_here ↦ collect_sound p m s r (rw (none_here, collect) at a)
    | inr (y, here) ↦ elim (Bool-cases (p y)) [
      | inr miss ↦ collect_sound p m s r (rw (here, miss, collect) at a)
      | inl hit ↦ elim (rw (here, hit, collect) at a) [
        | inl e ↦ (rw (← e) hit, (k, rw (← e) here))
        | inr later ↦ collect_sound p m s r later
      ]
    ]
  ]

  pub collect_complete :
      (p : Row → Bool) (m s : List (String × Row)) (k : String) (r x : Row)
      → lookup k m ≡ some x
      → lookup k s ≡ some r
      → p r ≡ true
      → Any (λ x. x ≡ r) (collect p m s)
  unfolding collect lookup get
  collect_complete p [] s k r x h e t = cc
  collect_complete p ((j, y) ∷ m) s k r x h e t = elim (text_discrete j k) [
    | yes same ↦
        let here : lookup j s ≡ some r = subst (λ i. lookup i s ≡ some r) (sym same) e in
        rw (here, t, collect) (inl refl)
    | no other ↦ elim (Option-cases (lookup j s)) [
      | inl none_here ↦
          rw (none_here, collect) (collect_complete p m s k r x (rw (if_neg _ other) at h) e t)
      | inr (z, here) ↦ elim (Bool-cases (p z)) [
        | inr miss ↦
            rw (here, miss, collect) (collect_complete p m s k r x (rw (if_neg _ other) at h) e t)
        | inl hit ↦
            rw (here, hit, collect)
              (inr (collect_complete p m s k r x (rw (if_neg _ other) at h) e t))
      ]
    ]
  ]

  pub insert_row-cases :
      (k : String) (r : Row) (s : List (String × Row))
      → ((lookup k s ≡ none) × (insert_row k r s ≡ (none, write k r s)))
        ⊎ ((lookup k s ≢ none) × (insert_row k r s ≡ (some key_exists, s)))
  unfolding insert_row
  insert_row-cases k r s = elim (Option-cases (lookup k s)) [
    | inl missing ↦ inl (missing, rw (missing, insert_row))
    | inr (x, here) ↦ inr ((λ missing. cc), rw (here, insert_row))
  ]

  pub update_row-cases :
      (k : String) (r : Row) (s : List (String × Row))
      → ((lookup k s ≢ none) × (update_row k r s ≡ (none, write k r s)))
        ⊎ (update_row k r s ≡ (some not_found, s))
  unfolding update_row
  update_row-cases k r s = elim (Option-cases (lookup k s)) [
    | inl missing ↦ inr (rw (missing, update_row))
    | inr (x, here) ↦ inl ((λ missing. cc), rw (here, update_row))
  ]

  pub delete_row-cases :
      (k : String) (s : List (String × Row))
      → ((lookup k s ≢ none) × (delete_row k s ≡ (none, erase k s)))
        ⊎ ((lookup k s ≡ none) × (delete_row k s ≡ (some not_found, s)))
  unfolding delete_row
  delete_row-cases k s = elim (Option-cases (lookup k s)) [
    | inl missing ↦ inr (missing, rw (missing, delete_row))
    | inr (x, here) ↦ inl ((λ missing. cc), rw (here, delete_row))
  ]

  pub get_row_done :
      (k : String) (s : List (String × Row)) (r : Row) → get_row k s ≡ ok r → lookup k s ≡ some r
  unfolding get_row
  get_row_done k s r e = elim (Option-cases (lookup k s)) [
    | inl missing ↦ cc (rw (missing, get_row) at e)
    | inr (x, here) ↦ ground arith
  ]

  pub found :
      (p : Row → Bool) (s : List (String × Row)) (rs : List Row)
      → ◌≡◌ {A = Result HoldError (List Row)} (ok (collect p s s)) (ok rs)
      → collect p s s ≡ rs
  found p s rs e = ground arith

  unfoldable pub memory : Badgerhold Row
  memory = record {
    Store = List (String × Row);
    insert = insert_row;
    get = get_row;
    find = λ p s. ok (collect p s s);
    update = update_row;
    row = λ s k. lookup k s;
    insert_done = λ k r s e. elim (insert_row-cases k r s) [
      | inl (missing, done) ↦ (missing, λ j. rw done (lookup-write k j r s))
      | inr (there, refused) ↦ cc (rw refused at e)
    ];
    insert_failed = λ k r s x e j. elim (insert_row-cases k r s) [
      | inl (missing, done) ↦ cc (rw done at e)
      | inr (there, refused) ↦ rw refused
    ];
    insert_refused = λ k r s e. elim (insert_row-cases k r s) [
      | inl (missing, done) ↦ cc (rw done at e)
      | inr (there, refused) ↦ there
    ];
    delete = delete_row;
    delete_done = λ k s e. elim (delete_row-cases k s) [
      | inl (there, done) ↦ (there, λ j. rw done (lookup-erase k j s))
      | inr (missing, refused) ↦ cc (rw refused at e)
    ];
    delete_failed = λ k s x e j. elim (delete_row-cases k s) [
      | inl (there, done) ↦ cc (rw done at e)
      | inr (missing, refused) ↦ rw refused
    ];
    delete_refused = λ k s e. elim (delete_row-cases k s) [
      | inl (there, done) ↦ cc (rw done at e)
      | inr (missing, refused) ↦ missing
    ];
    update_done = λ k r s e. elim (update_row-cases k r s) [
      | inl (there, done) ↦ (there, λ j. rw done (lookup-write k j r s))
      | inr refused ↦ cc (rw refused at e)
    ];
    update_failed = λ k r s x e j. elim (update_row-cases k r s) [
      | inl (there, done) ↦ cc (rw done at e)
      | inr refused ↦ rw refused
    ];
    get_done = λ k s r e. get_row_done k s r e;
    find_sound = λ p s rs e r a. collect_sound p s s r (rw (← found p s rs e) at a);
    find_complete = λ p s rs e k r h t. rw (← found p s rs e) (collect_complete p s s k r r h h t);
    find_refused = λ p s e k r h t. cc;
  }

  pub memory-ReadsSucceed : ReadsSucceed memory
  unfolding memory get_row
  memory-ReadsSucceed k r s e = rw (e, get_row)

unfoldable pub no_rows : (Row : Type 0) → (memory {Row = Row}).Store
unfolding memory
no_rows Row = []

pub row-no_rows : (Row : Type 0) (k : String) → (memory {Row = Row}).row (no_rows Row) k ≡ none
unfolding memory no_rows lookup
row-no_rows Row k = refl
