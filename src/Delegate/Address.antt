-- ===== src/Delegate/Address.antt =====
-- The delegate's address: `getDelegateAddress` and `resolveDelegateAddress` of
-- internal/core/application/delegate_service.go. What the wallet answers is an argument.
use fulmine.Base.{
  ℕ, zero, suc, ◌==◌, ◌≡◌, ◌≢◌, ◌⊎◌, refl, inl, inr, ap, Bool, false, String, List, [], ◌∷◌, Option,
  none, some, Result, ok, err, ◌>>=◌, guard, or_fail, ok-injective, Result-cases, Option-cases, All,
  Any, if◌then◌else◌, arith,
}

-- A default contract of the wallet. `key_index` is `none` if its handler or its key reference cannot be read, and
-- `some none` if its key has no index.
pub record Contract : Type 0 where
  pub address : String
  pub key_index : Option (Option ℕ)

pub data AddressError : Type 0 where
  no_contracts no_handler no_new_address locked not_decoded : AddressError

-- The loop over the contracts: the address of one of index 0, `none` if there is none.
unfoldable pub first_address : List Contract → Result AddressError (Option String)
first_address [] = ok none
first_address (c ∷ cs) =
    let rest = first_address cs in
    elim c.key_index [
      | none ↦ err no_handler
      | some index ↦ elim index [
        | none ↦ rest
        | some n ↦ if n == 0 then ok (some c.address) else rest
      ]
    ]

-- `resolveDelegateAddress`; the last argument is what `NewAddress` gives.
unfoldable pub resolve_delegate_address :
    Option (List Contract) → Option String → Result AddressError String
unfolding first_address
resolve_delegate_address contracts new_address = do
  cs ← or_fail contracts no_contracts
  found ← first_address cs
  elim found [ some address ↦ ok address | none ↦ or_fail new_address no_new_address ]

-- `getDelegateAddress`, with the cached address before and after it. `decode` is `arklib.DecodeAddressV0`.
module _ (decode : String → Option String) where
  unfoldable pub fresh_address :
      Bool → Option (List Contract) → Option String → Result AddressError String
  unfolding resolve_delegate_address
  fresh_address unlocked contracts new_address = do
    _ ← guard unlocked locked
    address ← resolve_delegate_address contracts new_address
    or_fail (decode address) not_decoded

  unfoldable pub get_delegate_address :
      Bool
      → Option (List Contract)
      → Option String
      → Option String
      → Result AddressError String × Option String
  unfolding fresh_address
  get_delegate_address unlocked contracts new_address (some cached) = (ok cached, some cached)
  get_delegate_address unlocked contracts new_address none =
      elim (fresh_address unlocked contracts new_address) [
        | ok address ↦ (ok address, some address)
        | err e ↦ (err e, none)
      ]

  -- Once an address was given, every later call gives the same, whatever the wallet answers by then.
  pub get_delegate_address-again :
      (unlocked unlocked' : Bool) (contracts contracts' : Option (List Contract))
      (new_address new_address' : Option String) (cache : Option String) (address : String)
      → (get_delegate_address unlocked contracts new_address cache).0 ≡ ok address
      → get_delegate_address unlocked' contracts' new_address'
          (get_delegate_address unlocked contracts new_address cache).1
        ≡ (ok address, some address)
  unfolding get_delegate_address
  get_delegate_address-again u u' c c' n n' (some cached) address h =
      ap (λ a. (ok a, some a)) (ok-injective h)
  get_delegate_address-again u u' c c' n n' none address h =
      elim (Result-cases (fresh_address u c n)) [
        | inr (e, failed) ↦ cc (rw (failed, get_delegate_address) at h)
        | inl (a, given) ↦
            rw (given, get_delegate_address)
              (ap (λ x. (ok x, some x)) (ok-injective (rw (given, get_delegate_address) at h)))
      ]

-- Contracts whose key can be read, and those of index 0.
abbrev pub IsReadable : Contract → Type 0
IsReadable c = c.key_index ≢ none

abbrev pub IsFirst : Contract → Type 0
IsFirst c = c.key_index ≡ some (some 0)

suc-ne-zero : (n : ℕ) → (suc n == 0) ≡ false
suc-ne-zero n = ground arith

first_address-stable :
    (cs : List Contract) (address : String)
    → All IsReadable cs
    → All (λ c. (c.address ≡ address) ⊎ (c.key_index ≢ some (some 0))) cs
    → Any IsFirst cs
    → first_address cs ≡ ok (some address)
unfolding first_address
first_address-stable [] address r o a = absurd a
first_address-stable (c ∷ cs) address r o (inl is_first) = elim o.0 [
  | inl same ↦ rw (is_first, same, first_address) refl
  | inr other ↦ absurd (other is_first)
]
first_address-stable (c ∷ cs) address r o (inr later) =
    let rest = first_address-stable cs address r.1 o.1 later in
    elim (Option-cases c.key_index) [
      | inl unreadable ↦ absurd (r.0 unreadable)
      | inr (none, e) ↦ rw (e, first_address) rest
      | inr (some zero, e) ↦ elim o.0 [
        | inl same ↦ rw (e, same, first_address) refl
        | inr other ↦ absurd (other e)
      ]
      | inr (some (suc n), e) ↦ rw (e, suc-ne-zero n, first_address) rest
    ]

-- A restart finds the address again, in whatever order the wallet lists its contracts: if all of them can be read, those of
-- index 0 have one address, and there is one, then that address is resolved and none is derived.
pub resolve_delegate_address-stable :
    (cs : List Contract) (new_address : Option String) (address : String)
    → All IsReadable cs
    → All (λ c. (c.address ≡ address) ⊎ (c.key_index ≢ some (some 0))) cs
    → Any IsFirst cs
    → resolve_delegate_address (some cs) new_address ≡ ok address
unfolding resolve_delegate_address
resolve_delegate_address-stable cs new_address address readable one_address there =
    rw (first_address-stable cs address readable one_address there)
