-- ===== src/Wallet/Notifications/Panics.antt =====
-- Which events end `handleAddressEventChannel` of internal/core/application/service.go with a runtime
-- error, and what it sends for the others.
use fulmine.Base.{
  ◌≡◌, ◌≢◌, refl, sym, ap, ◌∙◌, ℕ, ◌<◌, true, false, ◌&&◌, String, List, [], ◌∷◌, Text, map, All,
  Any, Option, none, some, inl, inr, ◌↔◌, Option-cases, Bool-cases, length, arith,
}
use fulmine.Base.Hex.{decode_string, encode_to_string, decode_string-encode_to_string}
use fulmine.Subscription.Events.{ConnectionState}
use fulmine.Wallet.Notifications.{
  AddressLibrary, AddressEvent, Handled, ignored, panicked, Notification, sends, drop_two, is_empty,
  prepend, encode_key, addresses_of, notification_of, handle_data, handle_address_event,
}

-- The script is the hexadecimal text of less than two bytes.
abbrev pub IsShort : Text → Type 0
IsShort script = (bytes : List ℕ) × (decode_string script ≡ some bytes) × (length bytes < 2)

drop_two-none : (bytes : List ℕ) → drop_two bytes ≡ none → length bytes < 2
unfolding drop_two
drop_two-none [] e = omega arith
drop_two-none (x ∷ []) e = omega arith
drop_two-none (x ∷ y ∷ rest) e = cc

two_long : (x y : ℕ) (rest : List ℕ) → length (x ∷ y ∷ rest) < 2 → ⊥
two_long x y rest h = omega (arith, h)

drop_two-short : (bytes : List ℕ) → length bytes < 2 → drop_two bytes ≡ none
unfolding drop_two
drop_two-short [] h = refl
drop_two-short (x ∷ []) h = refl
drop_two-short (x ∷ y ∷ rest) h = absurd (two_long x y rest h)

prepend-none :
    (a : String) (addresses : Option (List String)) → prepend a addresses ≡ none → addresses ≡ none
unfolding prepend
prepend-none a none e = refl
prepend-none a (some addresses) e = cc

module _ (lib : AddressLibrary) where
  addresses_of-none : (scripts : List Text) → addresses_of lib scripts ≡ none → Any IsShort scripts
  unfolding addresses_of
  addresses_of-none [] e = cc
  addresses_of-none (script ∷ scripts) e = elim (Option-cases (decode_string script)) [
    | inl k ↦ inr (addresses_of-none scripts (rw (k, addresses_of) at e))
    | inr (bytes, k) ↦ elim (Option-cases (drop_two bytes)) [
      | inl short ↦ inl (bytes, k, drop_two-none bytes short)
      | inr (raw, d) ↦ elim (Option-cases (encode_key lib raw)) [
        | inl n ↦ inr (addresses_of-none scripts (rw (k, d, n, addresses_of) at e))
        | inr (a, n) ↦
            inr (addresses_of-none scripts (prepend-none a _ (rw (k, d, n, addresses_of) at e)))
      ]
    ]
  ]

  addresses_of-short : (scripts : List Text) → Any IsShort scripts → addresses_of lib scripts ≡ none
  unfolding addresses_of
  addresses_of-short [] h = elim h [ ]
  addresses_of-short (script ∷ scripts) (inl (bytes, k, h)) =
      rw (k, drop_two-short bytes h, addresses_of) refl
  addresses_of-short (script ∷ scripts) (inr later) =
      let rest = addresses_of-short scripts later in
      elim (Option-cases (decode_string script)) [
        | inl k ↦ rw (k, addresses_of) rest
        | inr (bytes, k) ↦ elim (Option-cases (drop_two bytes)) [
          | inl short ↦ rw (k, short, addresses_of) refl
          | inr (raw, d) ↦ elim (Option-cases (encode_key lib raw)) [
            | inl n ↦ rw (k, d, n, addresses_of) rest
            | inr (a, n) ↦ rw (k, d, n, addresses_of, rest, prepend) refl
          ]
        ]
      ]

  module _ (e : AddressEvent) where
    connected :
        {state : ConnectionState} → e.connection ≡ some state → handle_address_event lib e ≡ ignored
    unfolding handle_address_event
    connected k = rw (k, handle_address_event) refl

    failed :
        {failure : String}
        → e.connection ≡ none
        → e.err ≡ some failure
        → handle_address_event lib e ≡ ignored
    unfolding handle_address_event
    failed k f = rw (k, f, handle_address_event) refl

    carries : e.connection ≡ none → e.err ≡ none → handle_address_event lib e ≡ handle_data lib e
    unfolding handle_address_event
    carries k f = simp (k, f, handle_address_event)

    empty : is_empty e.spent_vtxos && is_empty e.new_vtxos ≡ true → handle_data lib e ≡ ignored
    unfolding handle_data
    empty k = rw (k, handle_data) refl

    short_script :
        is_empty e.spent_vtxos && is_empty e.new_vtxos ≡ false
        → addresses_of lib e.scripts ≡ none
        → handle_data lib e ≡ panicked
    unfolding handle_data
    short_script k n = rw (k, n, handle_data) refl

    sent :
        {addresses : List String}
        → is_empty e.spent_vtxos && is_empty e.new_vtxos ≡ false
        → addresses_of lib e.scripts ≡ some addresses
        → handle_data lib e ≡ sends (notification_of lib e addresses)
    unfolding handle_data
    sent k n = simp (k, n, handle_data)

    ignored_ne : ◌≢◌ {A = Handled} ignored panicked
    ignored_ne k = cc

    sends_ne : (n : Notification) → sends n ≢ panicked
    sends_ne n k = cc

    abbrev Panicking : Type 0
    Panicking =
        (e.connection ≡ none)
        × (e.err ≡ none)
        × (is_empty e.spent_vtxos && is_empty e.new_vtxos ≡ false)
        × Any IsShort e.scripts

    panicked-Panicking : handle_address_event lib e ≡ panicked → Panicking
    panicked-Panicking h = elim (Option-cases e.connection) [
      | inr (_, k) ↦ absurd (ignored_ne (sym (connected k) ∙ h))
      | inl k ↦ elim (Option-cases e.err) [
        | inr (_, f) ↦ absurd (ignored_ne (sym (failed k f) ∙ h))
        | inl f ↦
            let (some_coin, short) = data_panicked (sym (carries k f) ∙ h) in
            (k, f, some_coin, short)
      ]
    ]
      where
        data_panicked :
            handle_data lib e ≡ panicked
            → (is_empty e.spent_vtxos && is_empty e.new_vtxos ≡ false) × Any IsShort e.scripts
        data_panicked d = elim (Bool-cases (is_empty e.spent_vtxos && is_empty e.new_vtxos)) [
          | inl k ↦ absurd (ignored_ne (sym (empty k) ∙ d))
          | inr k ↦ elim (Option-cases (addresses_of lib e.scripts)) [
            | inl n ↦ (k, addresses_of-none e.scripts n)
            | inr (_, n) ↦ absurd (sends_ne _ (sym (sent k n) ∙ d))
          ]
        ]

    -- `handleAddressEventChannel`: an event ends it with a runtime error exactly if the event has no
    -- connection state, no error and at least one coin, and one of its scripts is the hexadecimal text of
    -- less than two bytes. Every other event is ignored or sent.
    pub handle_address_event-panics_iff : (handle_address_event lib e ≡ panicked) ↔ (
        (e.connection ≡ none)
        × (e.err ≡ none)
        × (is_empty e.spent_vtxos && is_empty e.new_vtxos ≡ false)
        × Any IsShort e.scripts)
    handle_address_event-panics_iff = (
      panicked-Panicking,
      λ (k, f, some_coin, short).
          carries k f ∙ short_script some_coin (addresses_of-short e.scripts short),
    )

-- The script of an output that pays a key, whose address is the second component.
abbrev pub IsOfAddress : AddressLibrary → List ℕ × String → Type 0
IsOfAddress lib p =
    All (λ b. b < 256) p.0
    × ((key : lib.PublicKey) × (lib.parse_pub_key p.0 ≡ some key) × (lib.encode_v0 key ≡ some p.1))

-- `OP_1` and a push of the key, in hexadecimal.
abbrev pub script_of : List ℕ × String → Text
script_of p = encode_to_string (81 ∷ 32 ∷ p.0)

module _ (lib : AddressLibrary) where
  key-encoded : (p : List ℕ × String) → IsOfAddress lib p → encode_key lib p.0 ≡ some p.1
  unfolding encode_key
  key-encoded p (small, (key, parsed, encoded)) = rw (parsed, encode_key) encoded

  addresses_of-scripts :
      (ps : List (List ℕ × String))
      → All (IsOfAddress lib) ps
      → addresses_of lib (map script_of ps) ≡ some (map (λ p. p.1) ps)
  unfolding addresses_of drop_two prepend
  addresses_of-scripts [] h = refl
  addresses_of-scripts (p ∷ ps) (here, later) =
      let decoded =
        decode_string-encode_to_string (81 ∷ 32 ∷ p.0) (omega arith, (omega arith, here.0)) in
      rw
        (
          decoded,
          key-encoded p here,
          addresses_of-scripts ps later,
          addresses_of,
          drop_two,
          prepend,
        )
        refl

  -- An event with at least one coin, without a connection state and without an error, whose scripts are
  -- those of outputs that pay keys with known addresses: a notification is sent with these addresses, in
  -- their order, and with the coins, checkpoints and transaction of the event.
  pub handle_address_event-sends :
      (ps : List (List ℕ × String)) (e : AddressEvent)
      → All (IsOfAddress lib) ps
      → e.scripts ≡ map script_of ps
      → e.connection ≡ none
      → e.err ≡ none
      → is_empty e.spent_vtxos && is_empty e.new_vtxos ≡ false
      → handle_address_event lib e ≡ sends (notification_of lib e (map (λ p. p.1) ps))
  handle_address_event-sends ps e known scripts k f some_coin =
      carries lib e k f
      ∙ sent lib e some_coin (ap (addresses_of lib) scripts ∙ addresses_of-scripts ps known)
