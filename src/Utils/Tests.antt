-- ===== src/Utils/Tests.antt =====
-- utils at work.
use fulmine.Base.{◌≡◌, refl, ℕ, zero, suc, true, false, Text, [], ◌∷◌, ◌++◌, Option, none, some, ok}
use fulmine.Utils.Bip21.{
  question, is_valid_btc_address, is_valid_offchain_address, is_bip21, get_btc_address,
  get_offchain_address, sats_from_bip21, bip21_of,
}
use fulmine.Utils.Bip21.RoundTrip.{IsPlain, bip21_of-addresses, sats_from_bip21-bip21_of}
use fulmine.Utils.Secrets.{get_bip86_derivation_path}
use fulmine.Utils.Retry.{retry}

abbrev repeated : ℕ → ℕ → Text
repeated zero c = []
repeated (suc n) c = c ∷ repeated n c

-- "bc" and "ark", each with the letter q.
abbrev boarding : Text
boarding = 98 ∷ 99 ∷ repeated 39 113

abbrev offchain : Text
offchain = 97 ∷ 114 ∷ 107 ∷ repeated 113 113

good_boarding : is_valid_btc_address boarding ≡ true
unfolding is_valid_btc_address
good_boarding = refl

good_offchain : is_valid_offchain_address offchain ≡ true
unfolding is_valid_offchain_address
good_offchain = refl

-- "0.5"
abbrev half : Option Text
half = some (48 ∷ 46 ∷ 53 ∷ [])

half-IsPlain : IsPlain half
half-IsPlain = ((refl, (refl, (refl, tt))), (refl, (refl, (refl, tt))))

abbrev parses : Text → Option ℕ
parses [] = none
parses (c ∷ cs) = some 50000000

-- A parameter without a value is passed over.
valueless : get_offchain_address (boarding ++ (question ∷ 97 ∷ 114 ∷ 107 ∷ [])) ≡ []
unfolding get_offchain_address
valueless = refl

mainnet_path :
    get_bip86_derivation_path "bitcoin" ≡ 2147483734 ∷ 2147483648 ∷ 2147483648 ∷ 0 ∷ 0 ∷ []
unfolding get_bip86_derivation_path
mainnet_path = refl

done_third :
    retry (
      record { ended = none; answer = ok false }
      ∷ record { ended = none; answer = ok false }
      ∷ record { ended = none; answer = ok true }
      ∷ [])
    ≡ some none
unfolding retry
done_third = refl

bip21_of-addresses_example :
    (is_bip21 (bip21_of boarding offchain half) ≡ true)
    × (get_btc_address (bip21_of boarding offchain half) ≡ boarding)
    × (get_offchain_address (bip21_of boarding offchain half) ≡ offchain)
bip21_of-addresses_example =
    bip21_of-addresses boarding offchain good_boarding good_offchain half half-IsPlain

sats_from_bip21-bip21_of_example :
    sats_from_bip21 parses (bip21_of boarding offchain half) ≡ 50000000
sats_from_bip21-bip21_of_example =
    sats_from_bip21-bip21_of boarding offchain good_boarding good_offchain parses half half-IsPlain
