-- ===== src/Delegate/Batch/Signing.antt =====
-- What the signing of a batch's forfeit transactions adds to them: `signForfeitWithDelegateKey` and the last loop of
-- `submitForfeitTxs` of internal/core/application/delegate_batch_handler.go, and `extractConnector`.
use fulmine.Base.{
  ℕ, zero, suc, ◌+◌, ◌≤◌, ◌≡◌, ◌≢◌, refl, ap, sym, subst, ◌∙◌, true, String, List, [], ◌∷◌, Option,
  none, some, ok, guard-eq-ok, ok-injective, or_fail-eq-ok, bind-eq-ok, Bool-cases, length, keep_if,
  map, text_discrete, if_pos, if_neg, inl, inr, arith, leb, leb→le,
}
use fulmine.Domain.{Outpoint}
use fulmine.Domain.Repository.{DelegateRepository}
use fulmine.Delegate.Forfeit.{TxOut, SpendSig, PsbtInput, Packet}
use fulmine.Delegate.Batch.{
  Coin, Connector, SigningLibraries, connector_not_found, insufficient_connectors, packet_encoding,
  no_batch_sighash, no_leaf_signature, no_leaf_of_ours, first_output, extract_connector, is_ours,
  sign_leaves, have_prevouts, some_signed, with_signatures, sign_forfeit_with_delegate_key,
  add_connector, sign_forfeits, collect_forfeits, submit_forfeit_txs,
}

-- The element at an index.
abbrev pub nth : List TxOut → ℕ → Option TxOut
nth [] i = none
nth (o ∷ os) zero = some o
nth (o ∷ os) (suc i) = nth os i

some-pair :
    (x o : TxOut) (i j : ℕ)
    → ◌≡◌ {A = Option (TxOut × ℕ)} (some (x, i)) (some (o, j))
    → (x ≡ o) × (i ≡ j)
some-pair x o i j e = (cc, cc)

first_output-nth :
    (anchor : String) (i : ℕ) (os : List TxOut) (o : TxOut) (j : ℕ)
    → first_output anchor i os ≡ some (o, j)
    → (k : ℕ) × (j ≡ i + k) × (nth os k ≡ some o) × (anchor ≢ o.pk_script)
unfolding first_output
first_output-nth anchor i [] o j h = cc
first_output-nth anchor i (x ∷ os) o j h = elim (text_discrete anchor x.pk_script) [
  | yes same ↦
      let (k, at, found, other) =
        first_output-nth anchor (suc i) os o j (rw (if_pos _ same) at h) in
      (suc k, omega (arith, at), found, other)
  | no other ↦
      let (x_is, i_is) = some-pair x o i j (rw (if_neg _ other) at h) in
      (0, omega (arith, i_is), ap some x_is, subst (λ (y : TxOut). anchor ≢ y.pk_script) x_is other)
]

-- The connector that is found is an output of the connector transaction that is no anchor, and its outpoint names
-- that transaction and the place of the output.
pub extract_connector-nth :
    (anchor : String) (c : Connector) (out : TxOut) (outpoint : Outpoint)
    → extract_connector anchor c ≡ ok (out, outpoint)
    → (outpoint.hash ≡ c.hash) × (nth c.outs outpoint.index ≡ some out) × (anchor ≢ out.pk_script)
unfolding extract_connector
extract_connector-nth anchor c out outpoint h =
    let (found, e, h1) =
      or_fail-eq-ok (first_output anchor 0 c.outs) connector_not_found _ (out, outpoint) h in
    let (k, at, here, other) = first_output-nth anchor 0 c.outs found.0 found.1 e in
    let same = ok-injective h1 in
    let index_is : k ≡ found.1 = omega (arith, at) in
    let here_at = subst (λ m. nth c.outs m ≡ some found.0) index_is here in
    (
      sym (ap (λ (x : TxOut × Outpoint). x.1.hash) same),
      subst (λ (x : TxOut × Outpoint). nth c.outs x.1.index ≡ some x.0) same here_at,
      subst (λ (x : TxOut × Outpoint). anchor ≢ x.0.pk_script) same other,
    )

module _ (lib : SigningLibraries) (key : String) where
  sign_leaves_sound :
      (f : Packet) (t : ℕ) (leaves : List String) (sigs : List SpendSig)
      → sign_leaves lib key f t leaves ≡ ok sigs
      → map (λ s. s.leaf_hash) sigs ≡ map lib.leaf_hash (keep_if (is_ours lib key) leaves)
  unfolding sign_leaves
  sign_leaves_sound f t [] sigs h = ap (map (λ s. s.leaf_hash)) (sym (ok-injective h))
  sign_leaves_sound f t (leaf ∷ leaves) sigs h = elim (Bool-cases (is_ours lib key leaf)) [
    | inr other ↦ rw other (sign_leaves_sound f t leaves sigs (rw (other, sign_leaves) at h))
    | inl ours ↦
        let (preimage, e1, h1) =
          or_fail-eq-ok (lib.batch_sighash f t leaf) no_batch_sighash _ sigs
            (rw (ours, sign_leaves) at h) in
        let (signature, e2, h2) =
          or_fail-eq-ok (lib.sign key preimage) no_leaf_signature _ sigs h1 in
        let (rest, e3, h3) = bind-eq-ok (sign_leaves lib key f t leaves) _ sigs h2 in
        rw (ours, ← (ok-injective h3))
          (ap (λ hs. lib.leaf_hash leaf ∷ hs) (sign_leaves_sound f t leaves rest e3))
  ]

  -- A forfeit transaction that is signed keeps its inputs and outputs; its first input keeps its signatures and gets one
  -- more, in order, for each of its leaves that names the delegate's key, of which there is at least one.
  pub sign_forfeit_with_delegate_key-appends :
      (f g : Packet) (input : PsbtInput) (inputs : List PsbtInput)
      → sign_forfeit_with_delegate_key lib key f (input ∷ inputs) ≡ ok g
      → (sigs : List SpendSig) × (g ≡ with_signatures f input inputs sigs)
        × (map (λ s. s.leaf_hash) sigs
            ≡ map lib.leaf_hash (keep_if (is_ours lib key) input.leaf_scripts))
        × (some_signed sigs ≡ true)
  unfolding sign_forfeit_with_delegate_key
  sign_forfeit_with_delegate_key-appends f g input inputs h =
      let (_, e1, h1) = bind-eq-ok (have_prevouts (input ∷ inputs)) _ g h in
      let (sigs, e2, h2) =
        bind-eq-ok (sign_leaves lib key f input.sighash_type input.leaf_scripts) _ g h1 in
      let (e3, h3) = guard-eq-ok (some_signed sigs) no_leaf_of_ours _ g h2 in
      (
        sigs,
        sym (ok-injective h3),
        sign_leaves_sound f input.sighash_type input.leaf_scripts sigs e2,
        e3,
      )

  module _ (anchor : String) (encode : Packet → Option String) where
    sign_forfeits-length :
        (fs : List Packet) (cs : List Connector) (signed : List String)
        → sign_forfeits lib key anchor encode fs cs ≡ ok signed
        → length signed ≡ length fs
    unfolding sign_forfeits
    sign_forfeits-length [] cs signed h = rw (← (ok-injective h)) refl
    sign_forfeits-length (f ∷ fs) [] signed h = cc
    sign_forfeits-length (f ∷ fs) (c ∷ cs) signed h =
        let (connector, e1, h1) = bind-eq-ok (extract_connector anchor c) _ signed h in
        let (g, e2, h2) =
          bind-eq-ok
            (sign_forfeit_with_delegate_key lib key (add_connector f connector)
              (add_connector f connector).inputs)
            _ signed h1 in
        let (encoded, e3, h3) = or_fail-eq-ok (encode g) packet_encoding _ signed h2 in
        let (rest, e4, h4) = bind-eq-ok (sign_forfeits lib key anchor encode fs cs) _ signed h3 in
        rw (← (ok-injective h4)) (ap suc (sign_forfeits-length fs cs rest e4))

    -- What is submitted for a batch is one signed transaction for each forfeit transaction that was collected, and there
    -- was a connector for each of them.
    pub submit_forfeit_txs-length :
        (decode : String → Option Packet) (r : DelegateRepository)
        (coins : List Outpoint → Option (List Coin)) (cs : List Connector) (ids : List String)
        (s : r.Store) (signed : List String)
        → submit_forfeit_txs lib key anchor encode decode r coins cs ids s ≡ ok (some signed)
        → (fs : List Packet) × (collect_forfeits decode r coins ids s ≡ ok fs)
          × (length signed ≡ length fs)
          × (length fs ≤ length cs)
    unfolding submit_forfeit_txs
    submit_forfeit_txs-length decode r coins [] ids s signed h = cc
    submit_forfeit_txs-length decode r coins (c ∷ cs) [] s signed h = cc
    submit_forfeit_txs-length decode r coins (c ∷ cs) (id ∷ ids) s signed h =
        let (fs, e1, h1) =
          bind-eq-ok (collect_forfeits decode r coins (id ∷ ids) s) _ (some signed) h in
        let (e2, h2) =
          guard-eq-ok (leb (length fs) (length (c ∷ cs))) insufficient_connectors _ (some signed)
            h1 in
        let (signed', e3, h3) =
          bind-eq-ok (sign_forfeits lib key anchor encode fs (c ∷ cs)) _ (some signed) h2 in
        let same : signed' ≡ signed = some-injective (ok-injective h3) in
        (fs, e1, ap length (sym same) ∙ sign_forfeits-length fs (c ∷ cs) signed' e3, leb→le _ _ e2)
      where
        some-injective : {a b : List String} → some a ≡ some b → a ≡ b
        some-injective e = cc
