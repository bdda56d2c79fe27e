-- ===== src/Utils/Bip21/RoundTrip.antt =====
-- The texts that `NewAddress` of internal/core/application/service.go makes are read back by
-- utils/bip21.go.
use mathlib.Core.List.{append_assoc}
use fulmine.Base.{
  ◌≡◌, refl, ap, ◌∙◌, ℕ, zero, suc, ◌+◌, ◌==◌, Bool, true, false, ◌&&◌, ◌||◌, Text, List, [], ◌∷◌,
  ◌++◌, Option, none, some, same, same-eq-true, same_refl, codes_discrete, length, ltb, take, drop,
  ◌⊎◌, inl, inr, Bool-cases, eqb→eq, arith,
}
use fulmine.Utils.Texts.{split, cut, IsFree, split-IsFree, split-append, cut-append}
use fulmine.Utils.Bip21.{
  question, ampersand, equals, colon, bitcoin_word, bitcoin_prefix, ark_word, tark_word,
  amount_word, is_alphanumeric, all_alphanumeric, alphanumerics, after_prefix, tested,
  is_valid_offchain_address, is_valid_btc_address, starts_with_bitcoin_prefix, find_ark,
  get_offchain_address, get_btc_address, is_bip21, find_amount, sats_from_bip21, bip21_of,
}

and_true : (a b : Bool) → a && b ≡ true → (a ≡ true) × (b ≡ true)
and_true a b e = ground arith

or_cases : (a b : Bool) → a || b ≡ true → (a ≡ true) ⊎ (b ≡ true)
or_cases true b e = inl refl
or_cases false b e = inr e

alphanumeric-IsFree :
    (c : ℕ) (xs : Text) → is_alphanumeric c ≡ false → all_alphanumeric xs ≡ true → IsFree c xs
unfolding all_alphanumeric
alphanumeric-IsFree c [] no_c h = tt
alphanumeric-IsFree c (x ∷ xs) no_c h =
    let (good, later) = and_true (is_alphanumeric x) (all_alphanumeric xs) h in
    (
      elim (Bool-cases (x == c)) [
        | inr other ↦ other
        | inl e ↦ cc (ap is_alphanumeric (eqb→eq x c e))
      ],
      alphanumeric-IsFree c xs no_c later,
    )

slices-alphanumeric :
    (n : ℕ) (xs : Text)
    → all_alphanumeric (take n xs) ≡ true
    → all_alphanumeric (drop n xs) ≡ true
    → all_alphanumeric xs ≡ true
unfolding all_alphanumeric
slices-alphanumeric zero xs h k = k
slices-alphanumeric (suc n) [] h k = refl
slices-alphanumeric (suc n) (x ∷ xs) h k =
    let (good, later) = and_true (is_alphanumeric x) (all_alphanumeric (take n xs)) h in
    rw good (slices-alphanumeric n xs later k)

prefixed-alphanumeric :
    (low high : ℕ) (prefix text : Text)
    → all_alphanumeric prefix ≡ true
    → tested (alphanumerics low high) (after_prefix prefix text) ≡ true
    → all_alphanumeric text ≡ true
unfolding alphanumerics
prefixed-alphanumeric low high prefix text good h =
    elim (Bool-cases (same codes_discrete (take (length prefix) text) prefix)) [
      | inr other ↦ cc (rw other at h)
      | inl here ↦
          let found = same-eq-true codes_discrete (take (length prefix) text) prefix here in
          let (first, _) = and_true _ _ (rw here at h) in
          let (body, _) = and_true _ _ first in
          slices-alphanumeric (length prefix) text (ap all_alphanumeric found ∙ good) body
    ]

btc_address-alphanumeric :
    (address : Text) → is_valid_btc_address address ≡ true → all_alphanumeric address ≡ true
unfolding is_valid_btc_address
btc_address-alphanumeric address h = elim (or_cases _ _ h) [
  | inr three ↦ prefixed-alphanumeric 25 62 (51 ∷ []) address refl three
  | inl rest ↦ elim (or_cases _ _ rest) [
    | inr one ↦ prefixed-alphanumeric 25 62 (49 ∷ []) address refl one
    | inl more ↦ elim (or_cases _ _ more) [
      | inr tb ↦ prefixed-alphanumeric 25 62 (116 ∷ 98 ∷ []) address refl tb
      | inl bc ↦ prefixed-alphanumeric 25 62 (98 ∷ 99 ∷ []) address refl bc
    ]
  ]
]

offchain_address-alphanumeric :
    (address : Text) → is_valid_offchain_address address ≡ true → all_alphanumeric address ≡ true
unfolding is_valid_offchain_address
offchain_address-alphanumeric address h = elim (or_cases _ _ h) [
  | inl tark ↦ prefixed-alphanumeric 110 118 tark_word address refl tark
  | inr ark ↦ prefixed-alphanumeric 110 118 ark_word address refl ark
]

append-IsFree : (c : ℕ) (xs ys : Text) → IsFree c xs → IsFree c ys → IsFree c (xs ++ ys)
append-IsFree c [] ys h k = k
append-IsFree c (x ∷ xs) ys (other, h) k = (other, append-IsFree c xs ys h k)

-- The parameters behind the question mark.
ark_param : Text → Text
ark_param offchain_addr = ark_word ++ (equals ∷ offchain_addr)

amount_param : Text → Text
amount_param a = amount_word ++ (equals ∷ a)

abbrev params_of : Text → Option Text → Text
params_of offchain_addr none = ark_param offchain_addr
params_of offchain_addr (some a) = ark_param offchain_addr ++ (ampersand ∷ amount_param a)

-- An amount's text breaks no parameter.
abbrev pub IsPlain : Option Text → Type 0
IsPlain none = Unit {0}
IsPlain (some a) = IsFree question a × IsFree ampersand a

bip21_of-params :
    (boarding_addr offchain_addr : Text) (amount : Option Text)
    → bip21_of boarding_addr offchain_addr amount
      ≡ bitcoin_prefix ++ boarding_addr ++ (question ∷ params_of offchain_addr amount)
unfolding bip21_of ark_param amount_param
bip21_of-params b o none = refl
bip21_of-params b o (some a) =
    append_assoc (bitcoin_prefix ++ b) (question ∷ ark_param o) (ampersand ∷ amount_param a)

starts : (rest : Text) → starts_with_bitcoin_prefix (bitcoin_prefix ++ rest) ≡ true
unfolding starts_with_bitcoin_prefix
starts rest = rw (same_refl codes_discrete bitcoin_prefix bitcoin_prefix refl) (ground arith)

valid-not_empty :
    (address : Text) (n : ℕ)
    → is_valid_btc_address address ≡ true
    → ltb 0 (length address + n) ≡ true
unfolding is_valid_btc_address codes_discrete
valid-not_empty [] n h = cc
valid-not_empty (c ∷ cs) n h = ground arith

module _ (boarding_addr offchain_addr : Text)
    (good_boarding : is_valid_btc_address boarding_addr ≡ true)
    (good_offchain : is_valid_offchain_address offchain_addr ≡ true) where
  boarding-IsFree : (c : ℕ) → is_alphanumeric c ≡ false → IsFree c boarding_addr
  boarding-IsFree c h =
      alphanumeric-IsFree c boarding_addr h (btc_address-alphanumeric boarding_addr good_boarding)

  offchain-IsFree : (c : ℕ) → is_alphanumeric c ≡ false → IsFree c offchain_addr
  offchain-IsFree c h =
      alphanumeric-IsFree c offchain_addr h
        (offchain_address-alphanumeric offchain_addr good_offchain)

  base-IsFree : IsFree question (bitcoin_prefix ++ boarding_addr)
  unfolding is_alphanumeric all_alphanumeric
  base-IsFree =
      append-IsFree question bitcoin_word (colon ∷ boarding_addr)
        (alphanumeric-IsFree question bitcoin_word refl refl) (refl, boarding-IsFree question refl)

  ark_param-IsFree :
      (c : ℕ)
      → is_alphanumeric c ≡ false
      → (equals == c) ≡ false
      → IsFree c (ark_param offchain_addr)
  unfolding ark_param all_alphanumeric
  ark_param-IsFree c h k =
      append-IsFree c ark_word (equals ∷ offchain_addr) (alphanumeric-IsFree c ark_word h refl)
        (k, offchain-IsFree c h)

  amount_param-IsFree :
      (c : ℕ) (a : Text)
      → is_alphanumeric c ≡ false
      → (equals == c) ≡ false
      → IsFree c a
      → IsFree c (amount_param a)
  unfolding amount_param all_alphanumeric
  amount_param-IsFree c a h k plain =
      append-IsFree c amount_word (equals ∷ a) (alphanumeric-IsFree c amount_word h refl) (k, plain)

  params-IsFree :
      (amount : Option Text) → IsPlain amount → IsFree question (params_of offchain_addr amount)
  unfolding is_alphanumeric
  params-IsFree none h = ark_param-IsFree question refl refl
  params-IsFree (some a) h =
      append-IsFree question (ark_param offchain_addr) (ampersand ∷ amount_param a)
        (ark_param-IsFree question refl refl) (refl, amount_param-IsFree question a refl refl h.0)

  -- The text in its two parts.
  parts :
      (amount : Option Text)
      → IsPlain amount
      → split question (bip21_of boarding_addr offchain_addr amount)
        ≡ (bitcoin_prefix ++ boarding_addr) ∷ params_of offchain_addr amount ∷ []
  parts amount h =
      ap (split question) (bip21_of-params boarding_addr offchain_addr amount)
      ∙ split-append question (bitcoin_prefix ++ boarding_addr) (params_of offchain_addr amount)
          base-IsFree
      ∙ ap (λ r. (bitcoin_prefix ++ boarding_addr) ∷ r)
          (split-IsFree question (params_of offchain_addr amount) (params-IsFree amount h))

  found_boarding :
      (amount : Option Text)
      → IsPlain amount
      → get_btc_address (bip21_of boarding_addr offchain_addr amount) ≡ boarding_addr
  unfolding get_btc_address is_alphanumeric
  found_boarding amount h =
      rw (parts amount h, get_btc_address)
        (rw
          (
            starts boarding_addr,
            split-IsFree colon boarding_addr (boarding-IsFree colon refl),
            good_boarding,
          )
          refl)

  cut-ark_param : cut equals (ark_param offchain_addr) ≡ some (ark_word, offchain_addr)
  unfolding ark_param is_alphanumeric all_alphanumeric
  cut-ark_param =
      cut-append equals ark_word offchain_addr (alphanumeric-IsFree equals ark_word refl refl)

  find_ark-param :
      (params : List Text) → find_ark (ark_param offchain_addr ∷ params) ≡ offchain_addr
  unfolding find_ark codes_discrete
  find_ark-param params = rw (cut-ark_param, good_offchain, find_ark) refl

  -- The parameters one by one.
  abbrev more_params : Option Text → List Text
  more_params none = []
  more_params (some a) = amount_param a ∷ []

  each_param :
      (amount : Option Text)
      → IsPlain amount
      → split ampersand (params_of offchain_addr amount)
        ≡ ark_param offchain_addr ∷ more_params amount
  unfolding is_alphanumeric
  each_param none h =
      split-IsFree ampersand (ark_param offchain_addr) (ark_param-IsFree ampersand refl refl)
  each_param (some a) h =
      split-append ampersand (ark_param offchain_addr) (amount_param a)
        (ark_param-IsFree ampersand refl refl)
      ∙ ap (λ r. ark_param offchain_addr ∷ r)
          (split-IsFree ampersand (amount_param a) (amount_param-IsFree ampersand a refl refl h.1))

  found_offchain :
      (amount : Option Text)
      → IsPlain amount
      → get_offchain_address (bip21_of boarding_addr offchain_addr amount) ≡ offchain_addr
  unfolding get_offchain_address
  found_offchain amount h =
      rw (parts amount h, get_offchain_address)
        (ap find_ark (each_param amount h) ∙ find_ark-param (more_params amount))

  starts_text :
      (amount : Option Text)
      → starts_with_bitcoin_prefix (bip21_of boarding_addr offchain_addr amount) ≡ true
  starts_text amount =
      ap starts_with_bitcoin_prefix (bip21_of-params boarding_addr offchain_addr amount)
      ∙ starts (boarding_addr ++ (question ∷ params_of offchain_addr amount))

  made-is_bip21 :
      (amount : Option Text)
      → IsPlain amount
      → is_bip21 (bip21_of boarding_addr offchain_addr amount) ≡ true
  unfolding is_bip21
  made-is_bip21 amount h =
      rw (starts_text amount, found_boarding amount h, is_bip21)
        (valid-not_empty boarding_addr _ good_boarding)

  -- What `NewAddress` makes is a BIP21 text, and its boarding and offchain addresses are read back.
  -- The two are valid addresses, and the text of the amount has no question mark and no ampersand.
  pub bip21_of-addresses :
      (amount : Option Text)
      → IsPlain amount
      → (let text = bip21_of boarding_addr offchain_addr amount in
          (is_bip21 text ≡ true)
          × (get_btc_address text ≡ boarding_addr)
          × (get_offchain_address text ≡ offchain_addr))
  bip21_of-addresses amount h =
      (made-is_bip21 amount h, found_boarding amount h, found_offchain amount h)

  module _ (parse_amount : Text → Option ℕ) where
    abbrev pub sats_of : Option Text → ℕ
    sats_of none = 0
    sats_of (some a) = elim (parse_amount a) [ none ↦ 0 | some sats ↦ sats ]

    cut-amount_param : (a : Text) → cut equals (amount_param a) ≡ some (amount_word, a)
    unfolding amount_param is_alphanumeric all_alphanumeric
    cut-amount_param a =
        cut-append equals amount_word a (alphanumeric-IsFree equals amount_word refl refl)

    found_sats :
        (amount : Option Text)
        → find_amount parse_amount (ark_param offchain_addr ∷ more_params amount) ≡ sats_of amount
    unfolding find_amount codes_discrete
    found_sats none = rw (cut-ark_param, find_amount) refl
    found_sats (some a) = rw (cut-ark_param, cut-amount_param a, find_amount) refl

    -- The amount of what `NewAddress` makes is read back: it is 0 if none was asked for, and else
    -- what the amount's text says, or 0 if that is no positive amount. The addresses are valid, and
    -- the text of the amount has no question mark and no ampersand.
    pub sats_from_bip21-bip21_of :
        (amount : Option Text)
        → IsPlain amount
        → sats_from_bip21 parse_amount (bip21_of boarding_addr offchain_addr amount)
          ≡ sats_of amount
    unfolding sats_from_bip21
    sats_from_bip21-bip21_of amount h =
        rw (made-is_bip21 amount h, parts amount h, sats_from_bip21)
          (ap (find_amount parse_amount) (each_param amount h) ∙ found_sats amount)
