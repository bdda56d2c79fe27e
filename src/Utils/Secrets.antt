-- ===== src/Utils/Secrets.antt =====
-- utils/secrets.go: the key at the path m/86'/coin'/0'/0/0 of a mnemonic. The derivation of keys is a
-- library's.
use fulmine.Base.{
  ℕ, ◌+◌, ◌%◌, ◌||◌, String, List, [], ◌∷◌, Result, ok, err, ◌>>=◌, same, text_discrete,
  if◌then◌else◌,
}
use fulmine.Base.Int.{two32}

-- `hdkeychain.HardenedKeyStart`
abbrev pub hardened_key_start : ℕ
hardened_key_start = 2147483648

-- `getBIP86DerivationPath`
unfoldable pub get_bip86_derivation_path : String → List ℕ
unfolding text_discrete
get_bip86_derivation_path network =
    let coin_type =
      if same text_discrete network "bitcoin" || same text_discrete network "mainnet"
      then 0
      else 1 in
    (hardened_key_start + 86)
    ∷ ((hardened_key_start + coin_type) % two32)
    ∷ hardened_key_start
    ∷ 0
    ∷ 0
    ∷ []

-- What the code calls of bip39, bip32 and btcec.
pub record KeyDerivation : Type 1 where
  pub Key : Type 0
  pub new_seed : String → List ℕ
  pub new_master_key : List ℕ → Result String Key
  pub new_child_key : Key → ℕ → Result String Key
  pub private_key : Key → String

module _ (lib : KeyDerivation) where
  -- The loop over the path.
  unfoldable pub derive : List ℕ → lib.Key → Result String lib.Key
  derive [] key = ok key
  derive (idx ∷ path) key = elim (lib.new_child_key key idx) [
    | err e ↦ err e
    | ok next ↦ derive path next
  ]

  -- `PrivateKeyFromMnemonic`
  unfoldable pub private_key_from_mnemonic : String → String → Result String String
  unfolding derive get_bip86_derivation_path
  private_key_from_mnemonic mnemonic network = do
    key ← lib.new_master_key (lib.new_seed mnemonic)
    next ← derive (get_bip86_derivation_path network) key
    ok (lib.private_key next)
