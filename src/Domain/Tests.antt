-- ===== src/Domain/Tests.antt =====
-- Examples for internal/core/domain/delegate.go.
use fulmine.Domain.Status.{to_string}
use fulmine.Base.{◌≡◌, refl, ◌++◌, map, ok}
use fulmine.Domain.{cancelled}
use fulmine.Domain.Status.{codes, to_lower, is_space, from_string, to_string}
use fulmine.Domain.Status.Spelling.{from_string-to_string}

-- British and American spelling.
british : from_string (codes " CanceLLed\n") ≡ ok cancelled
unfolding from_string
british = refl

american : from_string (codes "canceled") ≡ ok cancelled
unfolding from_string
american = refl

lowered : map to_lower (codes "CanceLLed") ≡ codes "cancelled"
unfolding to_lower
lowered = refl

from_string-to_string_example :
    from_string (codes " " ++ (codes "CanceLLed" ++ codes "\n")) ≡ ok cancelled
unfolding to_string is_space
from_string-to_string_example =
    from_string-to_string cancelled (codes " ") (codes "CanceLLed") (codes "\n") tt (refl, tt)
      (refl, tt) lowered
