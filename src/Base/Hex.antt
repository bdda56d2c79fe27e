-- ===== src/Base/Hex.antt =====
-- `hex.DecodeString` of Go's encoding/hex, and `hex.EncodeToString`.
use Prim.Native.Nat.{ℕ, ◌+◌, ◌-◌, ◌*◌, ◌/◌, ◌%◌, ◌<◌}
use mathlib.Core.Path.{◌≡◌, refl, ap}
use mathlib.Core.Bool.{◌&&◌}
use mathlib.Core.Option.{Option, none, some}
use mathlib.Core.List.{List, [], ◌∷◌}
use native.Mathlib.Omega.{arith}
use fulmine.Base.Tests.{ltb, leb, if◌then◌else◌}
use fulmine.Base.Lists.{Text, All}

-- The value of a hexadecimal digit, upper or lower case.
unfoldable pub hex_value : ℕ → Option ℕ
hex_value c =
    if leb 48 c && leb c 57
    then some (c - 48)
    else (if leb 97 c && leb c 102
        then some (c - 87)
        else (if leb 65 c && leb c 70 then some (c - 55) else none))

infixl 5 ◌>>=◌
abbrev pub ◌>>=◌ : {A B : Type 0} → Option A → (A → Option B) → Option B
none >>= f = none
some a >>= f = f a

unfoldable pub decode_string : Text → Option (List ℕ)
unfolding hex_value
decode_string [] = some []
decode_string (x ∷ []) = none
decode_string (x ∷ y ∷ rest) = do
  high ← hex_value x
  low ← hex_value y
  bytes ← decode_string rest
  some ((high * 16 + low) ∷ bytes)

-- The digit of a value below 16.
unfoldable pub hex_digit : ℕ → ℕ
hex_digit n = if ltb n 10 then n + 48 else n + 87

unfoldable pub encode_to_string : List ℕ → Text
unfolding hex_digit
encode_to_string [] = []
encode_to_string (b ∷ bytes) =
    let rest = encode_to_string bytes in hex_digit (b / 16) ∷ hex_digit (b % 16) ∷ rest

hex_value-hex_digit : (n : ℕ) → n < 16 → hex_value (hex_digit n) ≡ some n
unfolding hex_value hex_digit
hex_value-hex_digit n h = ground arith

two_digits : (b : ℕ) → b / 16 * 16 + b % 16 ≡ b
two_digits b = omega arith

pub decode_string-encode_to_string :
    (bytes : List ℕ)
    → All (λ b. b < 256) bytes
    → decode_string (encode_to_string bytes) ≡ some bytes
unfolding decode_string encode_to_string
decode_string-encode_to_string [] h = refl
decode_string-encode_to_string (b ∷ bytes) (small, later) =
    rw
      (
        hex_value-hex_digit (b / 16) (omega arith),
        hex_value-hex_digit (b % 16) (omega arith),
        decode_string-encode_to_string bytes later,
      )
      (ap (λ c. some (c ∷ bytes)) (two_digits b))
