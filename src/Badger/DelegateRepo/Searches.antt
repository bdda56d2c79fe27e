-- ===== src/Badger/DelegateRepo/Searches.antt =====
-- The loops of the queries of internal/infrastructure/db/badger/delegate_repo.go over the rows that the
-- database gives.
use fulmine.Base.{
  ◌≡◌, refl, sym, ap, true, ◌⊎◌, inl, inr, String, Text, List, [], ◌∷◌, Option, ok, err, Bool-cases,
  contains, Any, All, map, text_discrete, codes_discrete, arith,
}
use fulmine.Domain.{Outpoint, outpoint_discrete, Intent, DelegateTask, PendingDelegateTask}
use fulmine.Domain.Repository.{RepoError, overlaps, bad_inputs, bad_intent}
use fulmine.Badger.Dto.{
  DelegateTaskDto, OutpointJson, Document, empty, malformed, holds, unmarshal, to_outpoint_json,
  to_delegate_task_data,
}
use fulmine.Badger.Dto.RoundTrip.{IsOutpoint, key-injective}
use fulmine.Badger.DelegateRepo.{pending_of, key_of, has_overlap, ids_with_overlap, first_with_txid}

-- Inputs that overlap have a key in common.
contains-key :
    (x : Outpoint) (ys : List Outpoint)
    → contains outpoint_discrete x ys ≡ true
    → contains codes_discrete (key_of x) (map key_of ys) ≡ true
contains-key x [] c = cc
contains-key x (y ∷ ys) c = elim (outpoint_discrete x y) [
  | yes same ↦ ground (arith, ap key_of same)
  | no other ↦ ground (arith, contains-key x ys)
]

has_overlap-overlaps :
    (xs ys : List Outpoint)
    → overlaps xs ys ≡ true
    → has_overlap (map key_of ys) (map to_outpoint_json xs) ≡ true
unfolding overlaps has_overlap
has_overlap-overlaps [] ys h = cc
has_overlap-overlaps (x ∷ xs) ys h = ground (arith, contains-key x ys, has_overlap-overlaps xs ys)

-- The row of a pending task with an input in common gives its id.
pub ids_with_overlap-contains :
    (ins : List Outpoint) (t : DelegateTask) (ds : List DelegateTaskDto)
    → overlaps t.intent.inputs ins ≡ true
    → Any (λ d. d ≡ to_delegate_task_data t) ds
    → contains text_discrete t.id (ids_with_overlap (map key_of ins) ds) ≡ true
unfolding ids_with_overlap
ids_with_overlap-contains ins t [] h a = absurd a
ids_with_overlap-contains ins t (d ∷ ds) h (inl e) =
    rw e
      (unfold to_delegate_task_data in ground (arith, has_overlap-overlaps t.intent.inputs ins h))
ids_with_overlap-contains ins t (d ∷ ds) h (inr a) =
    ground (arith, ids_with_overlap-contains ins t ds h a)

-- An id that is given is the id of such a row.
abbrev pub HasKey : List Text → String → DelegateTaskDto → Type 0
HasKey input_set j d =
    (d.id ≡ j)
    × ((os : List OutpointJson) × (d.input_json ≡ holds os) × (has_overlap input_set os ≡ true))

unmarshal-cases :
    {A : Type 0} (doc : Document A) (e : RepoError)
    → ((a : A) × (doc ≡ holds a)) ⊎ (unmarshal doc e ≡ err e)
unmarshal-cases empty e = inr refl
unmarshal-cases malformed e = inr refl
unmarshal-cases (holds a) e = inl (a, refl)

abbrev pub FoundFor : List Text → String → List DelegateTaskDto → Type 0
FoundFor input_set j ds = (d : DelegateTaskDto) × Any (λ x. x ≡ d) ds × HasKey input_set j d

found_later :
    (input_set : List Text) (j : String) (d : DelegateTaskDto) (ds : List DelegateTaskDto)
    → FoundFor input_set j ds
    → FoundFor input_set j (d ∷ ds)
found_later input_set j d ds (d', a, h) = (d', inr a, h)

-- What one row adds to the ids.
ids_step :
    (input_set : List Text) (d : DelegateTaskDto) (ds : List DelegateTaskDto) (j : String)
    → contains text_discrete j (ids_with_overlap input_set (d ∷ ds)) ≡ true
    → HasKey input_set j d ⊎ (contains text_discrete j (ids_with_overlap input_set ds) ≡ true)
unfolding ids_with_overlap
ids_step input_set d ds j c = elim (unmarshal-cases d.input_json bad_inputs) [
  | inr bad ↦ inr (rw (bad, ids_with_overlap) at c)
  | inl (os, good) ↦ elim (Bool-cases (has_overlap input_set os)) [
    | inl hit ↦ elim (text_discrete j d.id) [
      | yes same ↦ inl (sym same, (os, good, hit))
      | no other ↦ inr (ground arith)
    ]
    | inr miss ↦ inr (ground arith)
  ]
]

pub ids_with_overlap-HasKey :
    (input_set : List Text) (ds : List DelegateTaskDto) (j : String)
    → contains text_discrete j (ids_with_overlap input_set ds) ≡ true
    → FoundFor input_set j ds
unfolding ids_with_overlap
ids_with_overlap-HasKey input_set [] j c = cc
ids_with_overlap-HasKey input_set (d ∷ ds) j c = elim (ids_step input_set d ds j c) [
  | inl here ↦ (d, inl refl, here)
  | inr later ↦ found_later input_set j d ds (ids_with_overlap-HasKey input_set ds j later)
]

-- The row that the search for a txid stops at.
pub first_with_txid_found :
    (txid : String) (ds : List DelegateTaskDto) (p : PendingDelegateTask)
    → first_with_txid txid ds ≡ ok p
    → (d : DelegateTaskDto) × Any (λ x. x ≡ d) ds
      × (p ≡ pending_of d)
      × ((intent : Intent) × (d.intent_json ≡ holds intent) × (intent.txid ≡ txid))
unfolding first_with_txid
first_with_txid_found txid [] p e = cc
first_with_txid_found txid (d ∷ ds) p e = elim (unmarshal-cases d.intent_json bad_intent) [
  | inr bad ↦
      let (d', a, rest, named) = first_with_txid_found txid ds p (rw (bad, first_with_txid) at e) in
      (d', inr a, rest, named)
  | inl (intent, good) ↦ elim (text_discrete intent.txid txid) [
    | yes same ↦ (d, inl refl, ground arith, (intent, good, same))
    | no other ↦
        let (d', a, rest, named) = first_with_txid_found txid ds p (ground arith) in
        (d', inr a, rest, named)
  ]
]

module _ (new_hash : Text → Option Text) where
  contains_of_key :
      (x : Outpoint) (ys : List Outpoint)
      → IsOutpoint new_hash x
      → All (IsOutpoint new_hash) ys
      → contains codes_discrete (key_of x) (map key_of ys) ≡ true
      → contains outpoint_discrete x ys ≡ true
  contains_of_key x [] h k c = cc
  contains_of_key x (y ∷ ys) h k c = elim (codes_discrete (key_of x) (key_of y)) [
    | yes same ↦ ground (arith, key-injective new_hash x y h k.0 same)
    | no other ↦ ground (arith, contains_of_key x ys h k.1)
  ]

  pub overlaps_of_keys :
      (xs ys : List Outpoint)
      → All (IsOutpoint new_hash) xs
      → All (IsOutpoint new_hash) ys
      → has_overlap (map key_of ys) (map to_outpoint_json xs) ≡ true
      → overlaps xs ys ≡ true
  unfolding overlaps has_overlap
  overlaps_of_keys [] ys h k c = cc
  overlaps_of_keys (x ∷ xs) ys h k c =
      elim (Bool-cases (contains codes_discrete (key_of x) (map key_of ys))) [
        | inl hit ↦ ground (arith, contains_of_key x ys h.0 k hit)
        | inr miss ↦ ground (arith, overlaps_of_keys xs ys h.1 k)
      ]
