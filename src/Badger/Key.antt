-- ===== src/Badger/Key.antt =====
-- The keys `hash:index` of the forfeit map in internal/infrastructure/db/badger/delegate_repo.go:
-- `fmt.Sprintf("%s:%d", ..)` in `toDelegateTaskData`, and the scan for the last colon with
-- `fmt.Sscanf(.., "%d", ..)` in `toDelegateTask`.
pub mod RoundTrip
use fulmine.Base.{
  ℕ, zero, suc, ◌+◌, ◌-◌, ◌*◌, ◌/◌, ◌%◌, ◌<◌, ◌≡◌, refl, Bool, true, false, ◌&&◌, List, [], ◌∷◌,
  ◌++◌, Text, Option, none, some, ltb, leb, ◌==◌, if◌then◌else◌, Bool-cases, inl, inr, All, arith,
}
use fulmine.Domain.Status.{is_space}

-- `%d`, the last digit first found; `fuel` above the number is enough.
decimal_from : ℕ → ℕ → Text → Text
decimal_from zero n tail = tail
decimal_from (suc fuel) n tail =
    let more = decimal_from fuel (n / 10) ((48 + n % 10) ∷ tail) in
    if ltb n 10 then (48 + n) ∷ tail else more

unfoldable pub decimal : ℕ → Text
unfolding decimal_from
decimal n = decimal_from (suc n) n []

unfoldable pub is_digit : ℕ → Bool
is_digit c = leb 48 c && leb c 57

-- The digits at the front of a text, read onto a number.
read_digits : ℕ → Text → ℕ
unfolding is_digit
read_digits v [] = v
read_digits v (c ∷ s) =
    let more = read_digits (v * 10 + (c - 48)) s in if is_digit c then more else v

-- `fmt.Sscanf(s, "%d", &index)` into a uint32: leading blanks but a newline are skipped, at least
-- one digit is wanted, what follows the digits is ignored, and 2 ^ 32 and above are refused.
unfoldable pub scan_uint32 : Text → Option ℕ
unfolding read_digits is_space
scan_uint32 [] = none
scan_uint32 (c ∷ s) =
    let skipped = scan_uint32 s in
    let v = read_digits 0 (c ∷ s) in
    if is_digit c
    then (if ltb v 4294967296 then some v else none)
    else if is_space c
    then (if c == 10 then none else skipped)
    else none

after_colon : ℕ → Text → Option (Text × Text) → Option (Text × Text)
after_colon c s (some (front, back)) = some (c ∷ front, back)
after_colon c s none = if c == b':' then some ([], s) else none

-- What stands before and behind the last colon, if there is one.
unfoldable pub cut_last_colon : Text → Option (Text × Text)
unfolding after_colon
cut_last_colon [] = none
cut_last_colon (c ∷ s) = after_colon c s (cut_last_colon s)

-- `fmt.Sprintf("%s:%d", hash, index)`
unfoldable pub key : Text → ℕ → Text
unfolding decimal
key hash index = hash ++ (b':' ∷ decimal index)
