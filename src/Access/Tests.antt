-- ===== src/Access/Tests.antt =====
-- Access control at work.
use fulmine.Base.Maps.{get}
use fulmine.Base.{
  ◌≡◌, ◌≢◌, refl, Bool, true, false, String, List, [], Option, none, some, ◌↔◌, if◌then◌else◌,
}
use fulmine.Access.{
  admin_permissions, whitelisted_by_method, all_permissions_by_method, auth, unknown_permissions,
  unlock, change_password, reset, service_locked, Permission, bakery_failed,
}
use fulmine.Access.Auth.{grants_all, Bakery, configured, is_in, auth_iff}

-- A bakery that answers as the library documents.
abbrev check : List Permission → Bool → List Permission → Option String
check granted unlocked asked =
    if unlocked
    then (if grants_all granted asked then none else some "permission denied")
    else some "store is locked"

refused : (e : String) → ◌≢◌ {A = Option String} (some e) none
refused e k = cc

abbrev bakery : Bakery
bakery = record {
  validate_macaroon = λ granted unlocked asked method. check granted unlocked asked;
  validates = λ granted asked method e. rw e refl;
  denies = λ granted asked method e. rw e (refused "permission denied");
  needs_key = λ granted asked method. refused "store is locked";
}

-- `GetPubKey` of the wallet service is in no table, so no macaroon opens it.
pub_key_refused :
    auth []
      (bakery.validate_macaroon admin_permissions)
      "/fulmine.v1.WalletService/GetPubKey"
      (configured true)
    ≡ some (unknown_permissions "/fulmine.v1.WalletService/GetPubKey")
unfolding auth whitelisted_by_method all_permissions_by_method
pub_key_refused = refl

-- A password is changed only once the service is unlocked.
locked_first : (change_password none (configured false)).0 ≡ some service_locked
unfolding change_password
locked_first = refl

unlocked_after : (change_password none (unlock none (configured false)).1).0 ≡ none
unfolding change_password unlock
unlocked_after = refl

locked_by_reset : (reset none (configured true)).1.unlocked ≡ false
unfolding reset
locked_by_reset = refl

auth_iff_example :
    ((auth []
          (bakery.validate_macaroon admin_permissions)
          "/fulmine.v1.Service/Settle"
          (configured true)
        ≡ none)
      ↔ (is_in all_permissions_by_method "/fulmine.v1.Service/Settle" ≡ true))
    × ((auth [] (bakery.validate_macaroon []) "/fulmine.v1.Service/Settle" (configured true) ≡ none)
        ↔ (is_in whitelisted_by_method "/fulmine.v1.Service/Settle" ≡ true))
    × ((auth []
            (bakery.validate_macaroon admin_permissions)
            "/fulmine.v1.Service/Settle"
            (configured false)
          ≡ none)
        ↔ (is_in whitelisted_by_method "/fulmine.v1.Service/Settle" ≡ true))
unfolding get
auth_iff_example = auth_iff bakery [] admin_permissions "/fulmine.v1.Service/Settle" refl

-- A locked service refuses the administrator.
refused_when_locked :
    auth []
      (bakery.validate_macaroon admin_permissions)
      "/fulmine.v1.Service/Settle"
      (configured false)
    ≡ some (bakery_failed "store is locked")
unfolding auth whitelisted_by_method all_permissions_by_method
refused_when_locked = refl
