-- ===== src/Access/Auth.antt =====
-- What `Auth` of pkg/macaroon/macaroons.go lets through with the tables of
-- internal/config/permissions.go.
use fulmine.Base.{
  ◌≡◌, ◌≢◌, ap, refl, sym, ◌∙◌, subst, Bool, true, false, ◌&&◌, ◌||◌, not, String, List, [], ◌∷◌,
  Option, none, some, if_pos, if_neg, inl, inr, ◌↔◌, Option-cases, text_discrete, if◌then◌else◌,
  arith,
}
use fulmine.Base.Maps.{get}
use fulmine.Access.{
  Entity, wallet, service, notification, delegate, Permission, Permissions, admin_permissions,
  whitelisted_by_method, all_permissions_by_method, unknown_permissions, bakery_error, MacaroonSvc,
  Validator, auth,
}

unfoldable pub entity_is : Entity → Entity → Bool
entity_is wallet wallet = true
entity_is service service = true
entity_is notification notification = true
entity_is delegate delegate = true
entity_is _ _ = false

-- Whether a macaroon grants what a method asks for.
unfoldable pub grants : List Permission → Permission → Bool
unfolding entity_is
grants [] p = false
grants (q ∷ qs) p = let rest = grants qs p in if entity_is q.entity p.entity then true else rest

unfoldable pub grants_all : List Permission → List Permission → Bool
unfolding grants
grants_all granted [] = true
grants_all granted (p ∷ ps) = grants granted p && grants_all granted ps

-- What `Auth` relies on of the bakery's validator, by what the macaroon of the call grants: it needs the
-- key store unlocked, and then compares what is granted with what is asked for.
pub record Bakery : Type 0 where
  pub validate_macaroon : List Permission → Bool → Validator
  pub validates :
      (granted asked : List Permission) (method : String)
      → grants_all granted asked ≡ true
      → validate_macaroon granted true asked method ≡ none
  pub denies :
      (granted asked : List Permission) (method : String)
      → grants_all granted asked ≡ false
      → validate_macaroon granted true asked method ≢ none
  pub needs_key :
      (granted asked : List Permission) (method : String)
      → validate_macaroon granted false asked method ≢ none

-- A test of every entry of a table.
unfoldable pub check_all : (String → List Permission → Bool) → Permissions → Bool
check_all p [] = true
check_all p ((k, v) ∷ m) = p k v && check_all p m

and_true : (a b : Bool) → a && b ≡ true → (a ≡ true) × (b ≡ true)
and_true a b e = ground arith

or_left : (a b : Bool) → a || b ≡ true → b ≡ false → a ≡ true
or_left a b e f = ground arith

false_of_not : (a : Bool) → not a ≡ true → a ≡ false
false_of_not a e = ground arith

some_injective : {A : Type 0} {a c : A} → ◌≡◌ {A = Option A} (some a) (some c) → a ≡ c
some_injective e = cc

get-check_all :
    (p : String → List Permission → Bool) (method : String) (m : Permissions) (v : List Permission)
    → check_all p m ≡ true
    → get text_discrete method m ≡ some v
    → p method v ≡ true
unfolding check_all get
get-check_all p method [] v h e = cc
get-check_all p method ((k, w) ∷ m) v h e =
    let (first, later) = and_true (p k w) (check_all p m) h in
    elim (text_discrete k method) [
      | yes here ↦
          let same_value = some_injective (sym (if_pos (text_discrete k method) here _ _) ∙ e) in
          subst (λ a. p method a ≡ true) same_value (subst (λ j. p j w ≡ true) here first)
      | no other ↦
          get-check_all p method m v later (sym (if_neg (text_discrete k method) other _ _) ∙ e)
    ]

abbrev pub is_in : Permissions → String → Bool
is_in m method = elim (get text_discrete method m) [ none ↦ false | some v ↦ true ]

is_in-some :
    (m : Permissions) (method : String) (v : List Permission)
    → get text_discrete method m ≡ some v
    → is_in m method ≡ true
is_in-some m method v e = rw (e, is_in) refl

is_in-none :
    (m : Permissions) (method : String) → get text_discrete method m ≡ none → is_in m method ≡ false
is_in-none m method e = rw (e, is_in) refl

-- A service whose tables are these two.
abbrev pub with_tables : Permissions → Permissions → Bool → MacaroonSvc
with_tables listed all unlocked = record {
  unlocked = unlocked;
  whitelisted_methods = listed;
  all_methods = all;
}

bakery_error-some : (o : Option String) → o ≢ none → bakery_error o ≢ none
bakery_error-some none n = absurd (n refl)
bakery_error-some (some e) n = λ k. cc

module _ (listed all : Permissions) (external : List (String × Validator))
    (validate : Bool → Validator) where
  auth-listed :
      (unlocked : Bool) (method : String) (v : List Permission)
      → get text_discrete method listed ≡ some v
      → auth external validate method (with_tables listed all unlocked) ≡ none
  unfolding auth
  auth-listed unlocked method v e = rw (e, auth) refl

  auth-unknown :
      (unlocked : Bool) (method : String)
      → get text_discrete method listed ≡ none
      → get text_discrete method all ≡ none
      → auth external validate method (with_tables listed all unlocked)
        ≡ some (unknown_permissions method)
  unfolding auth
  auth-unknown unlocked method e f = rw (e, f, auth) refl

  auth-asked :
      (unlocked : Bool) (method : String) (v : List Permission)
      → get text_discrete method external ≡ none
      → get text_discrete method listed ≡ none
      → get text_discrete method all ≡ some v
      → auth external validate method (with_tables listed all unlocked)
        ≡ bakery_error (validate unlocked v method)
  unfolding auth
  auth-asked unlocked method v own e f = rw (e, f, own, auth) refl

  -- A validator that lets all methods through that are not listed.
  all_pass :
      (unlocked : Bool) (method : String)
      → get text_discrete method external ≡ none
      → check_all (λ k v. is_in all k) listed ≡ true
      → ((v : List Permission)
          → get text_discrete method listed ≡ none
          → get text_discrete method all ≡ some v
          → validate unlocked v method ≡ none)
      → (auth external validate method (with_tables listed all unlocked) ≡ none)
        ↔ (is_in all method ≡ true)
  all_pass unlocked method own known enough =
      elim (Option-cases (get text_discrete method listed)) [
        | inr (v, here) ↦ (
          (λ e. get-check_all (λ k w. is_in all k) method listed v known here),
          λ e. auth-listed unlocked method v here,
        )
        | inl absent ↦ elim (Option-cases (get text_discrete method all)) [
          | inl missing ↦ (
            (λ e. cc (auth-unknown unlocked method absent missing)),
            λ e. cc (is_in-none all method missing),
          )
          | inr (v, here) ↦ (
            (λ e. is_in-some all method v here),
            λ e.
                auth-asked unlocked method v own absent here
                ∙ ap bakery_error (enough v absent here),
          )
        ]
      ]

  -- A validator that lets no method through.
  none_pass :
      (unlocked : Bool) (method : String)
      → get text_discrete method external ≡ none
      → ((v : List Permission)
          → get text_discrete method all ≡ some v
          → validate unlocked v method ≢ none)
      → (auth external validate method (with_tables listed all unlocked) ≡ none)
        ↔ (is_in listed method ≡ true)
  none_pass unlocked method own refuses = elim (Option-cases (get text_discrete method listed)) [
    | inr (v, here) ↦
        ((λ e. is_in-some listed method v here), λ e. auth-listed unlocked method v here)
    | inl absent ↦ elim (Option-cases (get text_discrete method all)) [
      | inl missing ↦ (
        (λ e. cc (auth-unknown unlocked method absent missing)),
        λ e. cc (is_in-none listed method absent),
      )
      | inr (v, here) ↦ (
        (λ e. absurd (
            bakery_error-some (validate unlocked v method) (refuses v here)
              (sym (auth-asked unlocked method v own absent here) ∙ e))),
        λ e. cc (is_in-none listed method absent),
      )
    ]
  ]

-- What is checked of the tables: a macaroon of the administrator grants what a method asks for, or the
-- method is whitelisted; each method asks for something; each whitelisted method is known.
admin_suffices :
    check_all
      (λ k v. grants_all admin_permissions v || is_in whitelisted_by_method k)
      all_permissions_by_method
    ≡ true
unfolding check_all all_permissions_by_method grants_all get
admin_suffices = refl

each_asks : check_all (λ k v. not (grants_all [] v)) all_permissions_by_method ≡ true
unfolding check_all all_permissions_by_method grants_all
each_asks = refl

whitelisted_known :
    check_all (λ k v. is_in all_permissions_by_method k) whitelisted_by_method ≡ true
unfolding check_all get all_permissions_by_method
whitelisted_known = refl

-- The service with the tables of the configuration.
abbrev pub configured : Bool → MacaroonSvc
configured unlocked = with_tables whitelisted_by_method all_permissions_by_method unlocked

granted_or_listed :
    (method : String) (v : List Permission)
    → get text_discrete method whitelisted_by_method ≡ none
    → get text_discrete method all_permissions_by_method ≡ some v
    → grants_all admin_permissions v ≡ true
granted_or_listed method v absent here =
    or_left _ _
      (get-check_all (λ k w. grants_all admin_permissions w || is_in whitelisted_by_method k) method
        all_permissions_by_method v admin_suffices here)
      (is_in-none whitelisted_by_method method absent)

-- With the tables of the configuration, for a method without an external validator. Once the service is
-- unlocked, a call with the administrator's macaroon is let through exactly if its method is in a table,
-- and a call whose macaroon grants nothing exactly if its method is whitelisted. Before that, a call is
-- let through exactly if its method is whitelisted, whatever its macaroon grants.
pub auth_iff :
    (bakery : Bakery) (external : List (String × Validator)) (granted : List Permission)
    (method : String)
    → get text_discrete method external ≡ none
    → ((auth external (bakery.validate_macaroon admin_permissions) method (configured true) ≡ none)
        ↔ (is_in all_permissions_by_method method ≡ true))
      × ((auth external (bakery.validate_macaroon []) method (configured true) ≡ none)
          ↔ (is_in whitelisted_by_method method ≡ true))
      × ((auth external (bakery.validate_macaroon granted) method (configured false) ≡ none)
          ↔ (is_in whitelisted_by_method method ≡ true))
auth_iff bakery external granted method own = (
  all_pass whitelisted_by_method all_permissions_by_method external _ true method own
      whitelisted_known
      (λ v absent here.
        bakery.validates admin_permissions v method (granted_or_listed method v absent here)),
  none_pass whitelisted_by_method all_permissions_by_method external _ true method own (λ v here.
      bakery.denies [] v method (
        false_of_not _ (
          get-check_all (λ k w. not (grants_all [] w)) method all_permissions_by_method v each_asks
            here))),
  none_pass whitelisted_by_method all_permissions_by_method external _ false method own
      (λ v here. bakery.needs_key granted v method),
)
