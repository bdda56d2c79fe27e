-- ===== src/Badger/Key/RoundTrip.antt =====
-- A key of the forfeit map of internal/infrastructure/db/badger/delegate_repo.go is read back as
-- the hash and the index that it was made from.
use fulmine.Base.{
  ℕ, zero, suc, ◌+◌, ◌/◌, ◌%◌, ◌<◌, ◌≡◌, ◌≢◌, refl, true, [], ◌∷◌, ◌++◌, Text, none, some, ltb,
  Bool-cases, inl, inr, All, arith,
}
use fulmine.Badger.Key.{
  decimal_from, decimal, is_digit, read_digits, scan_uint32, cut_last_colon, key,
}

digit_of : (d : ℕ) → d < 10 → is_digit (48 + d) ≡ true
unfolding is_digit
digit_of d h = ground arith

read_digits-decimal_from :
    (fuel n : ℕ) (tail : Text)
    → n < fuel
    → read_digits 0 (decimal_from fuel n tail) ≡ read_digits n tail
unfolding read_digits decimal_from
read_digits-decimal_from zero n tail h = elim h [ ]
read_digits-decimal_from (suc fuel) n tail h = elim (Bool-cases (ltb n 10)) [
  | inl few ↦ rw few (ground arith)
  | inr many ↦
      rw (many, read_digits-decimal_from fuel (n / 10) ((48 + n % 10) ∷ tail) (ground arith))
        (ground arith)
]

abbrev AllDigits : Text → Type 0
AllDigits = All (λ c. is_digit c ≡ true)

decimal_from-AllDigits :
    (fuel n : ℕ) (tail : Text) → AllDigits tail → AllDigits (decimal_from fuel n tail)
unfolding decimal_from
decimal_from-AllDigits zero n tail h = h
decimal_from-AllDigits (suc fuel) n tail h = elim (Bool-cases (ltb n 10)) [
  | inl few ↦ rw few (digit_of n (ground arith), h)
  | inr many ↦ rw many (
      decimal_from-AllDigits fuel (n / 10) ((48 + n % 10) ∷ tail)
        (digit_of (n % 10) (omega arith), h))
]

decimal_from-ne-nil : (fuel n c : ℕ) (tail : Text) → decimal_from fuel n (c ∷ tail) ≢ []
unfolding decimal_from
decimal_from-ne-nil zero n c tail e = cc
decimal_from-ne-nil (suc fuel) n c tail e =
    ground (arith, decimal_from-ne-nil fuel (n / 10) (48 + n % 10) (c ∷ tail))

decimal-ne-nil : (n : ℕ) → decimal n ≢ []
unfolding decimal
decimal-ne-nil n e = ground (arith, decimal_from-ne-nil n (n / 10) (48 + n % 10) [])

scan-digits :
    (s : Text) (v : ℕ)
    → AllDigits s
    → s ≢ []
    → read_digits 0 s ≡ v
    → v < 4294967296
    → scan_uint32 s ≡ some v
unfolding scan_uint32
scan-digits [] v h k e b = absurd (k refl)
scan-digits (c ∷ s) v h k e b = ground (arith, h.0)

-- Every uint32 is read back from its decimal digits.
pub scan_uint32-decimal : (n : ℕ) → n < 4294967296 → scan_uint32 (decimal n) ≡ some n
unfolding decimal
scan_uint32-decimal n h =
    scan-digits (decimal n) n (decimal_from-AllDigits (suc n) n [] tt) (decimal-ne-nil n)
      (unfold read_digits in read_digits-decimal_from (suc n) n [] (omega arith)) h

cut-digits : (s : Text) → AllDigits s → cut_last_colon s ≡ none
unfolding cut_last_colon is_digit
cut-digits [] h = refl
cut-digits (c ∷ s) h = rw (cut-digits s h.1) (ground arith)

cut-append : (h d : Text) → cut_last_colon d ≡ none → cut_last_colon (h ++ (b':' ∷ d)) ≡ some (h, d)
unfolding cut_last_colon
cut-append [] d e = rw e
cut-append (c ∷ h) d e = rw (cut-append h d e)

-- The last colon of a key is the one before the index, whatever the hash holds.
pub cut_last_colon-key :
    (hash : Text) (index : ℕ) → cut_last_colon (key hash index) ≡ some (hash, decimal index)
unfolding key
cut_last_colon-key hash index =
    cut-append hash (decimal index) (
      cut-digits (decimal index) (unfold decimal in decimal_from-AllDigits (suc index) index [] tt))
