-- ===== src/Access.antt =====
-- internal/config/permissions.go and pkg/macaroon/macaroons.go: which calls need a macaroon, and the
-- service that checks it. The bakery of the macaroons is a library; what it answers is an argument.
pub mod Auth
pub mod Tests
use fulmine.Base.{
  ◌≡◌, Bool, true, false, String, List, [], ◌∷◌, ◌++◌, Option, none, some, text_discrete,
  if◌then◌else◌,
}
use fulmine.Base.Maps.{get, put}

pub data Entity : Type 0 where
  wallet service notification delegate : Entity

-- `bakery.Op`; the one action is access.
pub record Permission : Type 0 where
  pub entity : Entity

abbrev pub access : Entity → List Permission
access e = record { entity = e } ∷ []

abbrev pub Permissions : Type 0
Permissions = List (String × List Permission)

-- `AdminPermissions`
abbrev pub admin_permissions : List Permission
admin_permissions =
    record { entity = wallet } ∷ record { entity = service } ∷ record { entity = notification } ∷ []

-- `WhitelistedByMethod`
unfoldable pub whitelisted_by_method : Permissions
whitelisted_by_method =
    ("/fulmine.v1.WalletService/GenSeed", access wallet)
    ∷ ("/fulmine.v1.WalletService/CreateWallet", access wallet)
    ∷ ("/fulmine.v1.WalletService/Unlock", access wallet)
    ∷ ("/fulmine.v1.WalletService/Lock", access wallet)
    ∷ ("/fulmine.v1.WalletService/ChangePassword", access wallet)
    ∷ ("/fulmine.v1.WalletService/RestoreWallet", access wallet)
    ∷ ("/fulmine.v1.WalletService/Status", access wallet)
    ∷ ("/fulmine.v1.WalletService/Auth", access wallet)
    ∷ ("/delegate.v1.DelegateService/GetDelegateInfo", access delegate)
    ∷ ("/delegate.v1.DelegateService/Delegate", access delegate)
    ∷ ("/grpc.reflection.v1.ServerReflection/ServerReflectionInfo", access service)
    ∷ ("/grpc.reflection.v1alpha.ServerReflection/ServerReflectionInfo", access service)
    ∷ []

-- `ProtectedByMethod`
unfoldable pub protected_by_method : Permissions
protected_by_method =
    ("/fulmine.v1.Service/GetAddress", access service)
    ∷ ("/fulmine.v1.Service/GetBalance", access service)
    ∷ ("/fulmine.v1.Service/GetInfo", access service)
    ∷ ("/fulmine.v1.Service/GetOnboardAddress", access service)
    ∷ ("/fulmine.v1.Service/GetTransactionHistory", access service)
    ∷ ("/fulmine.v1.Service/RedeemNote", access service)
    ∷ ("/fulmine.v1.Service/Settle", access service)
    ∷ ("/fulmine.v1.Service/SendOffChain", access service)
    ∷ ("/fulmine.v1.Service/SendOnChain", access service)
    ∷ ("/fulmine.v1.Service/SignTransaction", access service)
    ∷ ("/fulmine.v1.Service/CreateVHTLC", access service)
    ∷ ("/fulmine.v1.Service/ClaimVHTLC", access service)
    ∷ ("/fulmine.v1.Service/RefundVHTLCWithoutReceiver", access service)
    ∷ ("/fulmine.v1.Service/ListVHTLC", access service)
    ∷ ("/fulmine.v1.Service/ListVHTLCs", access service)
    ∷ ("/fulmine.v1.Service/GetVHTLCSpendingTx", access service)
    ∷ ("/fulmine.v1.Service/GetVirtualTxs", access service)
    ∷ ("/fulmine.v1.Service/GetVtxos", access service)
    ∷ ("/fulmine.v1.Service/NextSettlement", access service)
    ∷ ("/delegate.v1.AdminService/ListDelegates", access service)
    ∷ ("/fulmine.v1.NotificationService/SubscribeForAddresses", access notification)
    ∷ ("/fulmine.v1.NotificationService/UnsubscribeForAddresses", access notification)
    ∷ ("/fulmine.v1.NotificationService/GetVtxoNotifications", access notification)
    ∷ ("/fulmine.v1.NotificationService/RoundNotifications", access notification)
    ∷ ("/fulmine.v1.NotificationService/AddWebhook", access notification)
    ∷ ("/fulmine.v1.NotificationService/RemoveWebhook", access notification)
    ∷ ("/fulmine.v1.NotificationService/ListWebhooks", access notification)
    ∷ []

-- The loops of `AllPermissionsByMethod`.
unfoldable pub put_all : Permissions → Permissions → Permissions
unfolding put text_discrete
put_all all [] = all
put_all all ((k, v) ∷ m) = put_all (put text_discrete k v all) m

-- `AllPermissionsByMethod`
unfoldable pub all_permissions_by_method : Permissions
unfolding put_all whitelisted_by_method protected_by_method
all_permissions_by_method = put_all (put_all [] whitelisted_by_method) protected_by_method

pub data MacaroonError : Type 0 where
  service_locked : MacaroonError
  unknown_permissions : String → MacaroonError
  bakery_failed : String → MacaroonError

-- `macaroonSvc`, less its files and its libraries' state. The key store of the macaroons is unlocked when
-- `unlocked` is set.
pub record MacaroonSvc : Type 0 where
  pub unlocked : Bool
  pub whitelisted_methods : Permissions
  pub all_methods : Permissions

abbrev pub bakery_error : Option String → Option MacaroonError
bakery_error none = none
bakery_error (some e) = some (bakery_failed e)

-- `Unlock`; the answer is that of `CreateUnlock`.
unfoldable pub unlock : Option String → MacaroonSvc → Option MacaroonError × MacaroonSvc
unlock answer m = if m.unlocked then (none, m) else elim answer [
  | some e ↦ (some (bakery_failed e), m)
  | none ↦ (none, record m { unlocked = true })
]

-- `ChangePassword`
unfoldable pub change_password : Option String → MacaroonSvc → Option MacaroonError × MacaroonSvc
change_password answer m =
    if m.unlocked
    then elim answer [
      | some e ↦ (some (bakery_failed e), m)
      | none ↦ (none, record m { unlocked = true })
    ]
    else (some service_locked, m)

-- `Reset`; the answer is that of the removal of the files and the making of a new service.
unfoldable pub reset : Option String → MacaroonSvc → Option MacaroonError × MacaroonSvc
reset (some e) m = (some (bakery_failed e), m)
reset none m = (none, record m { unlocked = false })

-- `ValidateMacaroon` of a validator, for the permissions of a method and its name; the answer is an error
-- or nothing. The macaroon of the call is in its context.
abbrev pub Validator : Type 0
Validator = List Permission → String → Option String

-- `Auth`. The arguments: the external validators of the bakery's service, and its own validator with a
-- key store that is unlocked or not.
unfoldable pub auth :
    List (String × Validator) → (Bool → Validator) → String → MacaroonSvc → Option MacaroonError
unfolding get text_discrete
auth external_validators validate_macaroon method m =
    elim (get text_discrete method m.whitelisted_methods) [
      | some _ ↦ none
      | none ↦ elim (get text_discrete method m.all_methods) [
        | none ↦ some (unknown_permissions method)
        | some uri_permissions ↦ elim (get text_discrete method external_validators) [
          | some validator ↦ bakery_error (validator uri_permissions method)
          | none ↦ bakery_error (validate_macaroon m.unlocked uri_permissions method)
        ]
      ]
    ]
