-- ===== src/Delegate/Request/Task.antt =====
-- The tasks that `newDelegateTask` of internal/core/application/delegate_service.go makes.
use fulmine.Base.{
  ℕ, ◌==◌, ◌≡◌, ◌⊎◌, inl, inr, refl, sym, subst, Bool, true, false, not, String, Text, List, [],
  ◌∷◌, Option, some, Result, ok, err, guard-eq-ok, ok-injective, or_fail-eq-ok, bind-eq-ok,
  Bool-cases, contains, length, All, arith, if_neg,
}
use fulmine.Base.Int.{ℤ, pos, ltb_ℤ}
use fulmine.Clock.{Time, time_unix, after, add_duration}
use fulmine.Domain.{Outpoint, outpoint_discrete, DelegateTask}
use fulmine.Domain.Repository.{is_pending}
use fulmine.Badger.Dto.RoundTrip.{IsOutpoint, HasOutpoint, IsStorable}
use fulmine.Delegate.Forfeit.{Packet, Libraries, ForfeitError, validate_forfeits}
use fulmine.Delegate.Forfeit.Valid.{IsForfeit, validate_forfeits_iff}
use fulmine.Delegate.Request.{
  Message, Proof, Config, Vtxo, Surroundings, no_config, no_message, no_proof, no_address,
  no_script, no_encoded_address, no_vtxos, vtxo_spent, vtxo_unrolled, no_inputs,
  forfeit_not_referenced, vtxo_count_differs, beyond_horizon, max_delegate_scheduling_window,
  scheduled_time, not_empty, check_referenced, check_vtxos, forfeits_checked, index_forfeits,
  check_task, task_for, build_task, new_delegate_task, find_delegate_fee_output,
  validate_delegate_fee,
}

abbrev pub IsReferenced : List Outpoint → Outpoint × String → Type 0
IsReferenced inputs (input, tx) = contains outpoint_discrete input inputs ≡ true

check_referenced_sound :
    (inputs : List Outpoint) (m : List (Outpoint × String))
    → check_referenced inputs m ≡ ok tt
    → All (IsReferenced inputs) m
unfolding check_referenced
check_referenced_sound inputs [] h = tt
check_referenced_sound inputs ((input, tx) ∷ m) h =
    let (e, rest) =
      guard-eq-ok (contains outpoint_discrete input inputs) forfeit_not_referenced _ tt h in
    (e, check_referenced_sound inputs m rest)

not-eq-true : (b : Bool) → not b ≡ true → b ≡ false
not-eq-true true e = cc
not-eq-true false e = refl

-- The coins are neither spent nor unrolled.
abbrev pub IsLive : Vtxo → Type 0
IsLive v = (v.spent ≡ false) × (v.unrolled ≡ false)

check_vtxos_sound : (vs : List Vtxo) → check_vtxos vs ≡ ok tt → All IsLive vs
unfolding check_vtxos
check_vtxos_sound [] h = tt
check_vtxos_sound (v ∷ vs) h =
    let (e1, h1) = guard-eq-ok (not v.spent) vtxo_spent _ tt h in
    let (e2, h2) = guard-eq-ok (not v.unrolled) vtxo_unrolled _ tt h1 in
    ((not-eq-true v.spent e1, not-eq-true v.unrolled e2), check_vtxos_sound vs h2)

module _ (lib : Libraries) (encode : Packet → Option String) where
  check_task_sound :
      (required_fee : ℕ) (env : Surroundings) (paid : ℤ × Bool) (task t : DelegateTask)
      → check_task lib encode required_fee env paid task ≡ ok t
      → (task ≡ t)
        × (validate_delegate_fee required_fee paid.0 paid.1 ≡ ok tt)
        × All (IsReferenced task.intent.inputs) task.forfeit_txs
        × ((vs : List Vtxo) × (env.vtxos ≡ some vs)
            × (length vs ≡ length task.intent.inputs)
            × All IsLive vs)
  unfolding check_task
  check_task_sound required_fee env paid task t h =
      let (a, e1, h1) = or_fail-eq-ok env.encoded_address no_encoded_address _ t h in
      let (_, e2, h2) = bind-eq-ok (validate_delegate_fee required_fee paid.0 paid.1) _ t h1 in
      let (_, e3, h3) = bind-eq-ok (check_referenced task.intent.inputs task.forfeit_txs) _ t h2 in
      let (vs, e4, h4) = or_fail-eq-ok env.vtxos no_vtxos _ t h3 in
      let (e5, h5) =
        guard-eq-ok (length vs == length task.intent.inputs) vtxo_count_differs _ t h4 in
      let (_, e6, h6) = bind-eq-ok (check_vtxos vs) _ t h5 in
      (
        cc,
        e2,
        check_referenced_sound task.intent.inputs task.forfeit_txs e3,
        (vs, e4, ground arith, check_vtxos_sound vs e6),
      )

  -- When the registration of a request is scheduled: at once if `ValidAt` is not positive, and else at
  -- the time that it names, which is not beyond the horizon.
  abbrev pub IsScheduled : ℤ → Time → Time → Type 0
  IsScheduled valid_at now t =
      ((ltb_ℤ (pos 0) valid_at ≡ false) × (t ≡ now))
      ⊎ ((ltb_ℤ (pos 0) valid_at ≡ true)
          × (t ≡ time_unix valid_at)
          × (after t (add_duration now max_delegate_scheduling_window) ≡ false))

  scheduled_time_sound :
      (valid_at : ℤ) (now t : Time)
      → scheduled_time valid_at now ≡ ok t
      → IsScheduled valid_at now t
  unfolding scheduled_time
  scheduled_time_sound valid_at now t h = elim (Bool-cases (ltb_ℤ (pos 0) valid_at)) [
    | inr at_once ↦ inl (at_once, sym (ok-injective (rw (at_once, scheduled_time) at h)))
    | inl later ↦
        let (e, h1) =
          guard-eq-ok
            (not (after (time_unix valid_at) (add_duration now max_delegate_scheduling_window)))
            beyond_horizon (ok (time_unix valid_at)) t (rw (later, scheduled_time) at h) in
        let same : time_unix valid_at ≡ t = ok-injective h1 in
        inr (
          later,
          sym same,
          subst (λ u. after u (add_duration now max_delegate_scheduling_window) ≡ false) same
              (not-eq-true _ e),
        )
  ]

  -- What holds of a task that is made for a request.
  pub record IsMade (required_fee : ℕ) (env : Surroundings) (message : Message) (proof : Proof)
      (t : DelegateTask) : Type 0 where
    pub script : String
    pub waits : is_pending t.status ≡ true
    pub of_proof : t.intent.inputs ≡ proof.outpoints
    pub has_inputs : not_empty proof.outpoints ≡ true
    pub scheduled : IsScheduled message.valid_at env.now t.scheduled_at
    pub delegate_script : env.delegate_script ≡ some script
    pub fee_checked :
        validate_delegate_fee required_fee
          (find_delegate_fee_output proof.outputs script).0
          (find_delegate_fee_output proof.outputs script).1
        ≡ ok tt
    pub referenced : All (IsReferenced t.intent.inputs) t.forfeit_txs
    pub coins : List Vtxo
    pub coins_found : env.vtxos ≡ some coins
    pub coin_for_each_input : length coins ≡ length t.intent.inputs
    pub coins_live : All IsLive coins

  build_task_sound :
      (required_fee : ℕ) (env : Surroundings) (message : Message) (proof : Proof) (fs : List Packet)
      (t : DelegateTask)
      → build_task lib encode required_fee env message proof fs ≡ ok t
      → IsMade required_fee env message proof t
  unfolding build_task
  build_task_sound required_fee env message proof fs t h =
      let (m, e1, h1) = or_fail-eq-ok message.encoded no_message _ t h in
      let (p, e2, h2) = or_fail-eq-ok proof.encoded no_proof _ t h1 in
      let (address, e3, h3) = or_fail-eq-ok env.delegate_address no_address _ t h2 in
      let (script, e4, h4) = or_fail-eq-ok env.delegate_script no_script _ t h3 in
      let (at, e5, h5) = bind-eq-ok (scheduled_time message.valid_at env.now) _ t h4 in
      let (e6, h6) = guard-eq-ok (not_empty proof.outpoints) no_inputs _ t h5 in
      let (txs, e7, h7) = bind-eq-ok (index_forfeits lib encode [] fs) _ t h6 in
      let paid = find_delegate_fee_output proof.outputs script in
      let task = task_for lib encode env proof m p at paid.0 txs in
      let (same, fee, refs, found) = check_task_sound required_fee env paid task t h7 in
      let (vs, e8, e9, live) = found in
      let made : IsMade required_fee env message proof task = record {
        script = script;
        waits = refl;
        of_proof = refl;
        has_inputs = e6;
        scheduled = scheduled_time_sound message.valid_at env.now at e5;
        delegate_script = e4;
        fee_checked = fee;
        referenced = refs;
        coins = vs;
        coins_found = e8;
        coin_for_each_input = e9;
        coins_live = live;
      } in
      subst (IsMade required_fee env message proof) same made

  forfeits_checked-ok :
      (r : Result ForfeitError (Unit {0})) → forfeits_checked r ≡ ok tt → r ≡ ok tt
  forfeits_checked-ok (ok tt) h = refl
  forfeits_checked-ok (err e) h = cc

  -- A task that is made for a request is pending and has the inputs of the proof, at least one; the fee check passed for
  -- the first output that pays the delegate; the time is at once for a request that names none, and else the one named,
  -- not beyond the horizon; each forfeit transaction passes the checks for the server's forfeit script, and each key of
  -- the task's forfeit map is one of its inputs; as many coins were found as there are inputs, none spent or unrolled.
  pub new_delegate_task-IsMade :
      (delegate_key : String) (required_fee : ℕ) (env : Surroundings) (message : Message)
      (proof : Proof) (fs : List Packet) (t : DelegateTask)
      → new_delegate_task lib encode delegate_key required_fee env message proof fs ≡ ok t
      → IsMade required_fee env message proof t
        × ((config : Config) × (out : String) × (env.config ≡ some config)
            × (lib.forfeit_script config.forfeit_address ≡ some out)
            × All (IsForfeit lib delegate_key config.dust out) fs)
  unfolding new_delegate_task
  new_delegate_task-IsMade delegate_key required_fee env message proof fs t h =
      let (config, e1, h1) = or_fail-eq-ok env.config no_config _ t h in
      let checked = validate_forfeits lib delegate_key config.dust config.forfeit_address fs in
      let (_, e2, h2) = bind-eq-ok (forfeits_checked checked) _ t h1 in
      let (out, e3, good) =
        (validate_forfeits_iff lib delegate_key config.dust config.forfeit_address fs).0
          (forfeits_checked-ok checked e2) in
      (build_task_sound required_fee env message proof fs t h2, (config, out, e1, e3, good))

  module _ (new_hash : Text → Option Text) where
    All-contains :
        (os : List Outpoint) (o : Outpoint)
        → All (IsOutpoint new_hash) os
        → contains outpoint_discrete o os ≡ true
        → IsOutpoint new_hash o
    All-contains [] o h c = cc
    All-contains (x ∷ os) o h c = elim (outpoint_discrete x o) [
      | yes same ↦ subst (IsOutpoint new_hash) same h.0
      | no other ↦ All-contains os o h.1 (rw (if_neg _ other) at c)
    ]

    All-HasOutpoint :
        (os : List Outpoint) (m : List (Outpoint × String))
        → All (IsOutpoint new_hash) os
        → All (IsReferenced os) m
        → All (HasOutpoint new_hash) m
    All-HasOutpoint os [] h k = tt
    All-HasOutpoint os ((o, tx) ∷ m) h k = (All-contains os o h k.0, All-HasOutpoint os m h k.1)

    -- The store can take every task that is made for a request whose proof spends wire outpoints: its inputs, and
    -- the keys of its forfeit map, are wire outpoints; and the task is pending, as the steps of the service want it.
    pub new_delegate_task-IsStorable :
        (delegate_key : String) (required_fee : ℕ) (env : Surroundings) (message : Message)
        (proof : Proof) (fs : List Packet) (t : DelegateTask)
        → All (IsOutpoint new_hash) proof.outpoints
        → new_delegate_task lib encode delegate_key required_fee env message proof fs ≡ ok t
        → IsStorable new_hash t × (is_pending t.status ≡ true)
    new_delegate_task-IsStorable delegate_key required_fee env message proof fs t good h =
        let (made, _) =
          new_delegate_task-IsMade delegate_key required_fee env message proof fs t h in
        let inputs = subst (All (IsOutpoint new_hash)) (sym made.of_proof) good in
        (
          record {
            good_inputs = inputs;
            good_forfeits = All-HasOutpoint t.intent.inputs t.forfeit_txs inputs made.referenced;
          },
          made.waits,
        )
