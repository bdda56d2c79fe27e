-- ===== src/Utils/Bip21.antt =====
-- utils/bip21.go: the addresses and the amount of a BIP21 text, on code points.
pub mod RoundTrip
use fulmine.Base.{
  ◌≡◌, ℕ, zero, suc, ◌+◌, ◌==◌, Bool, true, false, not, ◌&&◌, ◌||◌, Text, List, [], ◌∷◌, ◌++◌,
  Option, none, some, same, codes_discrete, length, leb, ltb, take, drop, if◌then◌else◌,
}
use fulmine.Utils.Texts.{split, cut}

-- The characters that the code compares with.
abbrev pub question : ℕ
question = 63

abbrev pub ampersand : ℕ
ampersand = 38

abbrev pub equals : ℕ
equals = 61

abbrev pub colon : ℕ
colon = 58

-- "bitcoin", "bitcoin:", "ark", "tark" and "amount"
abbrev pub bitcoin_word : Text
bitcoin_word = 98 ∷ 105 ∷ 116 ∷ 99 ∷ 111 ∷ 105 ∷ 110 ∷ []

abbrev pub bitcoin_prefix : Text
bitcoin_prefix = 98 ∷ 105 ∷ 116 ∷ 99 ∷ 111 ∷ 105 ∷ 110 ∷ 58 ∷ []

abbrev pub ark_word : Text
ark_word = 97 ∷ 114 ∷ 107 ∷ []

abbrev pub tark_word : Text
tark_word = 116 ∷ 97 ∷ 114 ∷ 107 ∷ []

abbrev pub amount_word : Text
amount_word = 97 ∷ 109 ∷ 111 ∷ 117 ∷ 110 ∷ 116 ∷ []

-- `[a-zA-Z0-9]`
unfoldable pub is_alphanumeric : ℕ → Bool
is_alphanumeric c = (leb 97 c && leb c 122) || (leb 65 c && leb c 90) || (leb 48 c && leb c 57)

unfoldable pub all_alphanumeric : Text → Bool
unfolding is_alphanumeric
all_alphanumeric [] = true
all_alphanumeric (c ∷ cs) = is_alphanumeric c && all_alphanumeric cs

-- `[a-zA-Z0-9]{low,high}$`
unfoldable pub alphanumerics : ℕ → ℕ → Text → Bool
unfolding all_alphanumeric
alphanumerics low high cs = all_alphanumeric cs && leb low (length cs) && leb (length cs) high

-- A text behind a prefix.
abbrev pub after_prefix : Text → Text → Option Text
after_prefix prefix text =
    if same codes_discrete (take (length prefix) text) prefix
    then some (drop (length prefix) text)
    else none

abbrev pub tested : (Text → Bool) → Option Text → Bool
tested p none = false
tested p (some rest) = p rest

-- `IsValidOffchainAddress`: `^(tark|ark)[a-zA-Z0-9]{110,118}$`
unfoldable pub is_valid_offchain_address : Text → Bool
unfolding alphanumerics codes_discrete
is_valid_offchain_address address =
    tested (alphanumerics 110 118) (after_prefix tark_word address)
    || tested (alphanumerics 110 118) (after_prefix ark_word address)

-- `IsValidBtcAddress`: `^(bc|tb|[13])[a-zA-Z0-9]{25,62}$`
unfoldable pub is_valid_btc_address : Text → Bool
unfolding alphanumerics codes_discrete
is_valid_btc_address address =
    tested (alphanumerics 25 62) (after_prefix (98 ∷ 99 ∷ []) address)
    || tested (alphanumerics 25 62) (after_prefix (116 ∷ 98 ∷ []) address)
    || tested (alphanumerics 25 62) (after_prefix (49 ∷ []) address)
    || tested (alphanumerics 25 62) (after_prefix (51 ∷ []) address)

-- `startsWithBitcoinPrefix`
unfoldable pub starts_with_bitcoin_prefix : Text → Bool
unfolding codes_discrete
starts_with_bitcoin_prefix s = leb 8 (length s) && same codes_discrete (take 8 s) bitcoin_prefix

-- The loop of `GetOffchainAddress`; no address is the empty text.
unfoldable pub find_ark : List Text → Text
unfolding cut is_valid_offchain_address codes_discrete
find_ark [] = []
find_ark (param ∷ params) =
    let rest = find_ark params in
    elim (cut equals param) [
      | none ↦ rest
      | some kv ↦
          if same codes_discrete kv.0 ark_word && is_valid_offchain_address kv.1 then kv.1 else rest
    ]

-- `GetOffchainAddress`
unfoldable pub get_offchain_address : Text → Text
unfolding split find_ark
get_offchain_address bip21 = elim (split question bip21) [
  | [] ↦ []
  | base ∷ aux ↦ elim aux [ [] ↦ [] | params ∷ _ ↦ find_ark (split ampersand params) ]
]

-- `GetBtcAddress`
unfoldable pub get_btc_address : Text → Text
unfolding split starts_with_bitcoin_prefix is_valid_btc_address
get_btc_address bip21 = elim (split question bip21) [
  | [] ↦ []
  | base ∷ _ ↦
      if starts_with_bitcoin_prefix base
      then elim (split colon base) [
        | [] ↦ []
        | scheme ∷ xua ↦ elim xua [
          | [] ↦ []
          | address ∷ _ ↦ if is_valid_btc_address address then address else []
        ]
      ]
      else []
]

-- `IsBip21`
unfoldable pub is_bip21 : Text → Bool
unfolding starts_with_bitcoin_prefix get_btc_address get_offchain_address
is_bip21 text =
    if starts_with_bitcoin_prefix text
    then ltb 0 (length (get_btc_address text) + length (get_offchain_address text))
    else false

-- An amount of BTC in satoshis: `strconv.ParseFloat` and `btcutil.NewAmount`, `none` for an error or
-- an amount that is not positive.
module _ (parse_amount : Text → Option ℕ) where
  -- The loop of `SatsFromBip21`.
  unfoldable pub find_amount : List Text → ℕ
  unfolding cut codes_discrete
  find_amount [] = 0
  find_amount (param ∷ params) =
      let rest = find_amount params in
      elim (cut equals param) [
        | none ↦ rest
        | some kv ↦
            if same codes_discrete kv.0 amount_word
            then elim (parse_amount kv.1) [ none ↦ 0 | some sats ↦ sats ]
            else rest
      ]

  -- `SatsFromBip21`
  unfoldable pub sats_from_bip21 : Text → ℕ
  unfolding split is_bip21 find_amount
  sats_from_bip21 bip21 =
      if is_bip21 bip21
      then elim (split question bip21) [
        | [] ↦ 0
        | base ∷ aux ↦ elim aux [ [] ↦ 0 | params ∷ _ ↦ find_amount (split ampersand params) ]
      ]
      else 0

-- The text that `NewAddress` of internal/core/application/service.go makes of its addresses, with the
-- printed amount, if one is asked for.
unfoldable pub bip21_of : Text → Text → Option Text → Text
bip21_of boarding_addr offchain_addr amount =
    let base =
      bitcoin_prefix ++ boarding_addr ++ (question ∷ ark_word ++ (equals ∷ offchain_addr)) in
    elim amount [ none ↦ base | some a ↦ base ++ (ampersand ∷ amount_word ++ (equals ∷ a)) ]
