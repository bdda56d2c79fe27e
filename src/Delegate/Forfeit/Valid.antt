-- ===== src/Delegate/Forfeit/Valid.antt =====
-- What `validateForfeits` of internal/core/application/delegate_service.go accepts.
use fulmine.Base.{
  ℕ, ◌==◌, ◌≡◌, ◌↔◌, refl, ap, ◌∙◌, Bool, true, false, String, List, [], ◌∷◌, some, ok, guard,
  contains, text_discrete, same, same-eq-true, same_refl, guard-eq-ok, ok-injective, or_fail-eq-ok,
  bind-eq-ok, All, arith,
}
use fulmine.Base.Int.{ℤ, ℤ_discrete}
use fulmine.Domain.{Outpoint}
use fulmine.Delegate.Forfeit.{
  TxOut, PsbtInput, Packet, Closure, Libraries, ForfeitError, wrong_output_count, wrong_input_count,
  wrong_forfeit_script, wrong_anchor, no_witness_utxo, wrong_sig_count, wrong_leaf_count,
  wrong_amount, missing_leaf, bad_closure, wrong_closure_type, key_not_found, wrong_sighash_type,
  no_sighash, bad_signer_key, bad_signature_encoding, invalid_signature, one, two,
  any_one_can_pay_all, signers, expected_amount, Parts, bad_forfeit_address, read_input, read_parts,
  check_leaf, check_signature, validate_forfeit, validate_all, validate_forfeits,
}

module _ (lib : Libraries) (delegate_key : String) (dust : ℕ) (forfeit_output_script : String) where
  -- One input is spent, to the server's address and an anchor; it has one signature and one leaf.
  pub record HasParts (f : Packet) (p : Parts) : Type 0 where
    pub anchor_value : ℤ
    pub outpoint : Outpoint
    pub input : PsbtInput
    pub outs :
        f.tx_out
        ≡ record { pk_script = forfeit_output_script; value = p.amount }
          ∷ record { pk_script = lib.anchor_pk_script; value = anchor_value }
          ∷ []
    pub ins : f.tx_in ≡ outpoint ∷ []
    pub psbt_ins : f.inputs ≡ input ∷ []
    pub spends : input.witness_utxo ≡ some p.utxo
    pub signed_once : input.spend_sigs ≡ p.sig ∷ []
    pub one_leaf : input.leaf_scripts ≡ p.leaf ∷ []

  -- The amount is that of the spent output and the dust; the leaf is the signature's, and the delegate is one of the
  -- signers of its closure.
  pub record NamesDelegate (p : Parts) : Type 0 where
    pub closure : Closure
    pub keys : List String
    pub amount : expected_amount lib delegate_key dust p.utxo ≡ p.amount
    pub of_leaf : p.sig.leaf_hash ≡ lib.tap_hash p.leaf
    pub decoded : lib.decode_closure p.leaf ≡ some closure
    pub names : signers closure ≡ some keys
    pub names_delegate : contains text_discrete delegate_key keys ≡ true

  -- The signature is valid, of the type that lets inputs be added.
  pub record IsSigned (f : Packet) (p : Parts) : Type 0 where
    pub message : String
    pub signer : String
    pub sig_parsed : String
    pub sighash_type : p.sig.sig_hash ≡ any_one_can_pay_all
    pub hashed : lib.sighash f any_one_can_pay_all p.utxo p.leaf ≡ some message
    pub of_signer : lib.parse_pub_key p.sig.x_only_pub_key ≡ some signer
    pub parsed : lib.parse_signature p.sig.signature ≡ some sig_parsed
    pub verified : lib.verify sig_parsed message signer ≡ true

  abbrev pub IsForfeit : Packet → Type 0
  IsForfeit f = (p : Parts) × HasParts f p × NamesDelegate p × IsSigned f p

  one-eq-some : {A : Type 0} (xs : List A) (a : A) → one xs ≡ some a → xs ≡ a ∷ []
  one-eq-some [] a e = cc
  one-eq-some (b ∷ []) a e = cc
  one-eq-some (b ∷ c ∷ bs) a e = cc

  two-eq-some : {A : Type 0} (xs : List A) (a : A × A) → two xs ≡ some a → xs ≡ a.0 ∷ a.1 ∷ []
  two-eq-some [] a e = cc
  two-eq-some (b ∷ []) a e = cc
  two-eq-some (b ∷ c ∷ []) a e = cc
  two-eq-some (b ∷ c ∷ d ∷ bs) a e = cc

  eqb-eq-true : (a b : ℕ) → (a == b) ≡ true → a ≡ b
  eqb-eq-true a b e = ground arith

  guard-done : (b : Bool) (e : ForfeitError) → guard b e ≡ ok tt → b ≡ true
  guard-done true e h = refl
  guard-done false e h = cc

  two_outs :
      (outs : TxOut × TxOut) (amount : ℤ)
      → outs.0.pk_script ≡ forfeit_output_script
      → outs.1.pk_script ≡ lib.anchor_pk_script
      → outs.0.value ≡ amount
      → ◌≡◌ {A = List TxOut} (outs.0 ∷ outs.1 ∷ []) (
          record { pk_script = forfeit_output_script; value = amount }
          ∷ record { pk_script = lib.anchor_pk_script; value = outs.1.value }
          ∷ [])
  two_outs outs amount a b c = rw (← a, ← b, ← c) refl

  read_input_sound :
      (amount : ℤ) (input : PsbtInput) (p : Parts)
      → read_input lib delegate_key dust amount input ≡ ok p
      → (amount ≡ p.amount)
        × (input.witness_utxo ≡ some p.utxo)
        × (input.spend_sigs ≡ p.sig ∷ [])
        × (input.leaf_scripts ≡ p.leaf ∷ [])
  unfolding read_input
  read_input_sound amount input p h =
      let (utxo, e1, h1) = or_fail-eq-ok input.witness_utxo no_witness_utxo _ p h in
      let (sig, e2, h2) = or_fail-eq-ok (one input.spend_sigs) wrong_sig_count _ p h1 in
      let (leaf, e3, h3) = or_fail-eq-ok (one input.leaf_scripts) wrong_leaf_count _ p h2 in
      let same_parts : record { amount = amount; utxo = utxo; sig = sig; leaf = leaf } ≡ p =
        ok-injective h3 in
      (
        ap (λ (x : Parts). x.amount) same_parts,
        e1 ∙ ap (λ (x : Parts). some x.utxo) same_parts,
        one-eq-some input.spend_sigs p.sig (e2 ∙ ap (λ (x : Parts). some x.sig) same_parts),
        one-eq-some input.leaf_scripts p.leaf (e3 ∙ ap (λ (x : Parts). some x.leaf) same_parts),
      )

  read_parts_sound :
      (f : Packet) (p : Parts)
      → read_parts lib delegate_key dust forfeit_output_script f ≡ ok p
      → HasParts f p
  unfolding read_parts
  read_parts_sound f p h =
      let (outs, e1, h1) = or_fail-eq-ok (two f.tx_out) wrong_output_count _ p h in
      let (outpoint, e2, h2) = or_fail-eq-ok (one f.tx_in) wrong_input_count _ p h1 in
      let (input, e3, h3) = or_fail-eq-ok (one f.inputs) wrong_input_count _ p h2 in
      let (e4, h4) =
        guard-eq-ok (same text_discrete outs.0.pk_script forfeit_output_script) wrong_forfeit_script
          _ p h3 in
      let (e5, h5) =
        guard-eq-ok (same text_discrete outs.1.pk_script lib.anchor_pk_script) wrong_anchor
          (read_input lib delegate_key dust outs.0.value input) p h4 in
      let (amount, utxo, sig, leaf) = read_input_sound outs.0.value input p h5 in
      record {
        anchor_value = outs.1.value;
        outpoint = outpoint;
        input = input;
        outs =
            two-eq-some f.tx_out outs e1
            ∙ two_outs outs p.amount (same-eq-true text_discrete _ _ e4)
                (same-eq-true text_discrete _ _ e5) amount;
        ins = one-eq-some f.tx_in outpoint e2;
        psbt_ins = one-eq-some f.inputs input e3;
        spends = utxo;
        signed_once = sig;
        one_leaf = leaf;
      }

  check_leaf_sound : (p : Parts) → check_leaf lib delegate_key dust p ≡ ok tt → NamesDelegate p
  unfolding check_leaf
  check_leaf_sound p h =
      let (e1, h) = guard-eq-ok _ wrong_amount _ tt h in
      let (e2, h) = guard-eq-ok _ missing_leaf _ tt h in
      let (closure, e3, h) = or_fail-eq-ok (lib.decode_closure p.leaf) bad_closure _ tt h in
      let (keys, e4, h) = or_fail-eq-ok (signers closure) wrong_closure_type _ tt h in
      record {
        closure = closure;
        keys = keys;
        amount = same-eq-true ℤ_discrete _ _ e1;
        of_leaf = same-eq-true text_discrete _ _ e2;
        decoded = e3;
        names = e4;
        names_delegate = guard-done _ key_not_found h;
      }

  check_signature_sound :
      (f : Packet) (p : Parts) → check_signature lib delegate_key dust f p ≡ ok tt → IsSigned f p
  unfolding check_signature
  check_signature_sound f p h =
      let (e1, h) = guard-eq-ok _ wrong_sighash_type _ tt h in
      let (message, e2, h) =
        or_fail-eq-ok (lib.sighash f any_one_can_pay_all p.utxo p.leaf) no_sighash _ tt h in
      let (signer, e3, h) =
        or_fail-eq-ok (lib.parse_pub_key p.sig.x_only_pub_key) bad_signer_key _ tt h in
      let (signature, e4, h) =
        or_fail-eq-ok (lib.parse_signature p.sig.signature) bad_signature_encoding _ tt h in
      record {
        message = message;
        signer = signer;
        sig_parsed = signature;
        sighash_type = eqb-eq-true _ _ e1;
        hashed = e2;
        of_signer = e3;
        parsed = e4;
        verified = guard-done _ invalid_signature h;
      }

  check_leaf_complete : (p : Parts) → NamesDelegate p → check_leaf lib delegate_key dust p ≡ ok tt
  unfolding check_leaf
  check_leaf_complete p h = rw (
    same_refl ℤ_discrete _ _ h.amount,
    same_refl text_discrete _ _ h.of_leaf,
    h.decoded,
    h.names,
    h.names_delegate,
  )

  check_signature_complete :
      (f : Packet) (p : Parts) → IsSigned f p → check_signature lib delegate_key dust f p ≡ ok tt
  unfolding check_signature
  check_signature_complete f p h =
      rw (h.hashed, h.of_signer, h.parsed, h.sighash_type) (rw h.verified)

  read_parts_complete :
      (f : Packet) (p : Parts)
      → HasParts f p
      → read_parts lib delegate_key dust forfeit_output_script f ≡ ok p
  unfolding read_parts read_input
  read_parts_complete f p h =
      rw
        (
          h.outs,
          h.ins,
          h.psbt_ins,
          h.spends,
          h.signed_once,
          h.one_leaf,
          same_refl text_discrete forfeit_output_script forfeit_output_script refl,
          same_refl text_discrete lib.anchor_pk_script lib.anchor_pk_script refl,
        )
        refl

  validate_forfeit_iff :
      (f : Packet)
      → (validate_forfeit lib delegate_key dust forfeit_output_script f ≡ ok tt) ↔ IsForfeit f
  unfolding validate_forfeit
  validate_forfeit_iff f = (
    λ h.
        let (p, read, h1) =
          bind-eq-ok (read_parts lib delegate_key dust forfeit_output_script f) _ tt h in
        let (_, leaf, signed) = bind-eq-ok (check_leaf lib delegate_key dust p) _ tt h1 in
        (p, read_parts_sound f p read, check_leaf_sound p leaf, check_signature_sound f p signed),
    λ (p, parts, named, signed).
        rw (read_parts_complete f p parts, check_leaf_complete p named)
          (check_signature_complete f p signed),
  )

  validate_all_iff :
      (fs : List Packet)
      → (validate_all lib delegate_key dust forfeit_output_script fs ≡ ok tt) ↔ All IsForfeit fs
  unfolding validate_all
  validate_all_iff [] = (λ h. tt, λ h. refl)
  validate_all_iff (f ∷ fs) = (
    λ h.
        let (_, first, rest) =
          bind-eq-ok (validate_forfeit lib delegate_key dust forfeit_output_script f) _ tt h in
        ((validate_forfeit_iff f).0 first, (validate_all_iff fs).0 rest),
    λ (first, rest). rw ((validate_forfeit_iff f).1 first) ((validate_all_iff fs).1 rest),
  )

-- The forfeit transactions of a request are accepted exactly if the server's address is one that has a script
-- and each of them, of some parts, has one input and pays that script and an anchor, forfeits the spent amount and
-- the dust, and carries one valid signature, open for more inputs, for a leaf that names the delegate.
pub validate_forfeits_iff :
    (lib : Libraries) (delegate_key : String) (dust : ℕ) (forfeit_address : String)
    (fs : List Packet)
    → (validate_forfeits lib delegate_key dust forfeit_address fs ≡ ok tt) ↔ (
        (out : String) × (lib.forfeit_script forfeit_address ≡ some out)
        × All (IsForfeit lib delegate_key dust out) fs)
unfolding validate_forfeits
validate_forfeits_iff lib delegate_key dust forfeit_address fs = (
  λ h.
      let (out, found, all) =
        or_fail-eq-ok (lib.forfeit_script forfeit_address) bad_forfeit_address _ tt h in
      (out, found, (validate_all_iff lib delegate_key dust out fs).0 all),
  λ (out, found, all). rw found ((validate_all_iff lib delegate_key dust out fs).1 all),
)
