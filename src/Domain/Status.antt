-- ===== src/Domain/Status.antt =====
-- `DelegateTaskStatus.String` and `DelegateTaskStatusFromString` of
-- internal/core/domain/delegate.go. A parsed text is the list of its code points.
pub mod Spelling
use Prim.Native.Char.{code}
use mathlib.Core.List.{reverse}
use fulmine.Base.{
  ℕ, ◌+◌, ◌≡◌, refl, String, Bool, ◌&&◌, ◌||◌, List, [], ◌∷◌, map, ite, leb, ◌==◌, if◌then◌else◌,
  Result, ok, err, codes_discrete,
}
use fulmine.Domain.{DelegateTaskStatus, pending, completed, failed, cancelled, other}

abbrev pub codes : String → List ℕ
codes String.[] = []
codes (String.◌∷◌ c s) = code c ∷ codes s

-- `DelegateTaskStatus.String`
unfoldable pub to_string : DelegateTaskStatus → String
to_string pending = "pending"
to_string completed = "completed"
to_string failed = "failed"
to_string cancelled = "cancelled"
to_string (other n) = "unknown"

-- `unicode.IsSpace`, by which `strings.TrimSpace` cuts.
unfoldable pub is_space : ℕ → Bool
is_space c =
    (leb 9 c && leb c 13)
    || c == 32
    || c == 0x85
    || c == 0xA0
    || c == 0x1680
    || (leb 0x2000 c && leb c 0x200A)
    || c == 0x2028
    || c == 0x2029
    || c == 0x202F
    || c == 0x205F
    || c == 0x3000

unfoldable pub trim_left : List ℕ → List ℕ
trim_left [] = []
trim_left (c ∷ s) = let rest = trim_left s in if is_space c then rest else c ∷ s

-- `strings.TrimSpace`
unfoldable pub trim_space : List ℕ → List ℕ
unfolding trim_left is_space
trim_space s = reverse (trim_left (reverse (trim_left s)))

-- `unicode.ToLower`. Beyond ASCII, dotted I and the Kelvin sign alone become ASCII letters; all
-- other code points stay beyond ASCII, which is all that the comparison with the words below sees.
unfoldable pub to_lower : ℕ → ℕ
to_lower c =
    if leb 65 c && leb c 90
    then c + 32
    else if c == 0x130
    then 105
    else if c == 0x212A
    then 107
    else c

pub data Error : Type 0 where
  invalid_status : Error

-- The `switch` of `DelegateTaskStatusFromString`.
unfoldable pub status_of_word : List ℕ → Result Error DelegateTaskStatus
unfolding codes_discrete
status_of_word w = ite (codes_discrete w (codes "pending")) (ok pending) (
    ite (codes_discrete w (codes "completed")) (ok completed) (
      ite (codes_discrete w (codes "failed")) (ok failed) (
        ite (codes_discrete w (codes "cancelled")) (ok cancelled)
          (ite (codes_discrete w (codes "canceled")) (ok cancelled) (err invalid_status)))))

-- `DelegateTaskStatusFromString`
unfoldable pub from_string : List ℕ → Result Error DelegateTaskStatus
unfolding status_of_word trim_space to_lower
from_string s = status_of_word (map to_lower (trim_space s))
