-- ===== src/Wallet/Gate.antt =====
-- What the gate of internal/core/application/service.go stands for: a call that passes it meets a wallet
-- that is whole, and a locked wallet has no signing key in memory.
use fulmine.Base.{
  ◌≡◌, ◌≢◌, refl, sym, ◌∙◌, Bool, true, false, String, List, [], ◌∷◌, Option, none, some, Result,
  ok, err, ◌⊎◌, inl, inr, Bool-cases, Option-cases, Result-cases, arith,
}
use fulmine.Wallet.{
  Node, SyncEvent, Finalizer, idle, waiting, synced, is_set, is_initialized_and_unlocked, setup,
  tear_down, lock_node, unwind_failed_unlock, unlock_node, sync_arrives, finalize, reset_wallet,
}

-- The steps of the wallet with the answers of the parts it calls.
pub data Op : Type 0 where
  sets_up : Bool → Bool → Option String → Bool → Result String String → Op
  unlocks : Option String → Option String → Option String → Op
  syncs : SyncEvent → Op
  finalizes : Result String String → (String → Result String String) → Option String → Op
  locks : Option String → Op
  resets : Bool → Op

unfoldable pub run : Op → Node → Node
unfolding setup unlock_node sync_arrives finalize lock_node reset_wallet
run (sets_up mnemonic url init locked_after config) s =
    (setup mnemonic url init locked_after config s).1
run (unlocks unlock config subscription) s = (unlock_node unlock config subscription s).1
run (syncs event) s = sync_arrives event s
run (finalizes dump key relock) s = finalize dump key relock s
run (locks answer) s = (lock_node answer s).1
run (resets locked_after) s = reset_wallet locked_after s

unfoldable pub run_all : List Op → Node → Node
unfolding run
run_all [] s = s
run_all (op ∷ ops) s = run_all ops (run op s)

-- No reset comes while an unlock has not been finalized.
unfoldable pub IsQuiet : List Op → Node → Type 0
unfolding run
IsQuiet [] s = Unit {0}
IsQuiet (resets locked_after ∷ ops) s =
    (s.finalizer ≡ idle) × IsQuiet ops (run (resets locked_after) s)
IsQuiet (op ∷ ops) s = IsQuiet ops (run op s)

-- A wallet that is whole.
pub record IsWhole (s : Node) : Type 0 where
  pub initialized : s.is_initialized ≡ true
  pub unlocked : s.is_locked ≡ false
  pub has_event : is_set s.sync_event ≡ true
  pub has_key : s.delegate_enabled ≡ true → is_set s.signer_key ≡ true
  pub delegates : s.delegate_running ≡ s.delegate_enabled
  pub schedules : s.scheduler_running ≡ true
  pub subscribes : s.subscribed ≡ true

-- Where the wallet is in its life.
pub data Phase (s : Node) : Type 0 where
  closed :
      s.wallet_ready ≡ false
      → s.signer_key ≡ none
      → s.finalizer ≡ idle
      → s.delegate_running ≡ false
      → Phase s
  unlocking :
      s.wallet_ready ≡ false
      → s.signer_key ≡ none
      → s.is_initialized ≡ true
      → s.is_locked ≡ false
      → s.scheduler_running ≡ true
      → s.subscribed ≡ true
      → s.delegate_running ≡ false
      → Phase s
  open_wallet : s.wallet_ready ≡ true → s.finalizer ≡ idle → IsWhole s → Phase s

Phase-initialized :
    (s : Node)
    → Phase s
    → s.is_initialized ≡ false
    → (s.wallet_ready ≡ false)
      × (s.signer_key ≡ none)
      × (s.finalizer ≡ idle)
      × (s.delegate_running ≡ false)
Phase-initialized s (closed r k f d) e = (r, k, f, d)
Phase-initialized s (unlocking r k i l c b d) e = cc
Phase-initialized s (open_wallet r f w) e = cc (w.initialized)

Phase-locked :
    (s : Node)
    → Phase s
    → s.is_locked ≡ true
    → (s.wallet_ready ≡ false)
      × (s.signer_key ≡ none)
      × (s.finalizer ≡ idle)
      × (s.delegate_running ≡ false)
Phase-locked s (closed r k f d) e = (r, k, f, d)
Phase-locked s (unlocking r k i l c b d) e = cc
Phase-locked s (open_wallet r f w) e = cc (w.unlocked)

setup-new :
    (mnemonic url : Bool) (init : Option String) (locked_after : Bool)
    (config : Result String String) (s : Node)
    → s.is_initialized ≡ false
    → (s.wallet_ready ≡ false)
      × (s.signer_key ≡ none)
      × (s.finalizer ≡ idle)
      × (s.delegate_running ≡ false)
    → Phase (setup mnemonic url init locked_after config s).1
unfolding setup
setup-new false url init la config s new (r, k, f, d) = simp (new, setup) (closed r k f d)
setup-new true false init la config s new (r, k, f, d) = simp (new, setup) (closed r k f d)
setup-new true true (some e) la config s new (r, k, f, d) = simp (new, setup) (closed r k f d)
setup-new true true none la (err e) s new (r, k, f, d) = simp (new, setup) (closed r k f d)
setup-new true true none la (ok u) s new (r, k, f, d) = simp (new, setup) (closed r k f d)

setup-Phase :
    (mnemonic url : Bool) (init : Option String) (locked_after : Bool)
    (config : Result String String) (s : Node)
    → Phase s
    → Phase (setup mnemonic url init locked_after config s).1
unfolding setup
setup-Phase mnemonic url init locked_after config s p = elim (Bool-cases s.is_initialized) [
  | inl done ↦ simp (done, setup) p
  | inr new ↦ setup-new mnemonic url init locked_after config s new (Phase-initialized s p new)
]

unlock-locked :
    (unlock config subscription : Option String) (s : Node)
    → s.is_initialized ≡ true
    → s.is_locked ≡ true
    → (s.wallet_ready ≡ false)
      × (s.signer_key ≡ none)
      × (s.finalizer ≡ idle)
      × (s.delegate_running ≡ false)
    → Phase (unlock_node unlock config subscription s).1
unfolding unlock_node
unlock-locked (some e) config subscription s new shut (r, k, f, d) =
    simp (new, shut, unlock_node) (closed refl k f d)
unlock-locked none (some e) subscription s new shut (r, k, f, d) =
    simp (new, shut, unlock_node) (closed refl k f d)
unlock-locked none none (some e) s new shut (r, k, f, d) =
    simp (new, shut, unlock_node) (closed refl k f d)
unlock-locked none none none s new shut (r, k, f, d) =
    simp (new, shut, unlock_node) (unlocking refl k refl refl refl refl d)

unlock_node-Phase :
    (unlock config subscription : Option String) (s : Node)
    → Phase s
    → Phase (unlock_node unlock config subscription s).1
unfolding unlock_node
unlock_node-Phase unlock config subscription s p = elim (Bool-cases s.is_initialized) [
  | inr new ↦ simp (new, unlock_node) p
  | inl done ↦ elim (Bool-cases s.is_locked) [
    | inr unlocked ↦ simp (done, unlocked, unlock_node) p
    | inl shut ↦ unlock-locked unlock config subscription s done shut (Phase-locked s p shut)
  ]
]

Finalizer-cases : (f : Finalizer) → (f ≡ idle) ⊎ ((f ≡ waiting) ⊎ (f ≡ synced))
Finalizer-cases idle = inl refl
Finalizer-cases waiting = inr (inl refl)
Finalizer-cases synced = inr (inr refl)

Phase-pending :
    (s : Node) (f : Finalizer)
    → s.finalizer ≡ f
    → f ≢ idle
    → Phase s
    → (s.wallet_ready ≡ false)
      × (s.signer_key ≡ none)
      × (s.is_initialized ≡ true)
      × (s.is_locked ≡ false)
      × (s.scheduler_running ≡ true)
      × (s.subscribed ≡ true)
      × (s.delegate_running ≡ false)
Phase-pending s f e n (closed r k i d) = absurd (n (sym e ∙ i))
Phase-pending s f e n (unlocking r k i l c b d) = (r, k, i, l, c, b, d)
Phase-pending s f e n (open_wallet r i w) = absurd (n (sym e ∙ i))

sync_arrives-Phase : (event : SyncEvent) (s : Node) → Phase s → Phase (sync_arrives event s)
unfolding sync_arrives
sync_arrives-Phase event s p = elim (Finalizer-cases s.finalizer) [
  | inl e ↦ simp (e, sync_arrives) p
  | inr (inr e) ↦ simp (e, sync_arrives) p
  | inr (inl e) ↦
      let (r, k, i, l, c, b, d) = Phase-pending s waiting e (λ x. cc) p in
      simp (e, sync_arrives) (unlocking r k i l c b d)
]

-- The delegate service does not run where delegates are disabled.
abbrev IsAllowedToRun : Node → Type 0
IsAllowedToRun s = s.delegate_enabled ≡ false → s.delegate_running ≡ false

torn_down : (s : Node) → IsAllowedToRun s → (tear_down s).delegate_running ≡ false
unfolding tear_down
torn_down s h = elim (Bool-cases s.delegate_enabled) [
  | inl on ↦ rw (on, tear_down) refl
  | inr off ↦ rw (off, tear_down) (h off)
]

unwound-closed :
    (relock : Option String) (s : Node)
    → s.finalizer ≡ idle
    → IsAllowedToRun s
    → Phase (unwind_failed_unlock relock s)
unfolding unwind_failed_unlock tear_down
unwound-closed none s f h = closed refl refl f (torn_down s h)
unwound-closed (some e) s f h = closed refl refl f (torn_down s h)

-- The end of an unlock opens a wallet that is whole, or takes the unlock back.
finalize-synced :
    (dump : Result String String) (key : String → Result String String) (relock : Option String)
    (s : Node)
    → s.finalizer ≡ synced
    → Phase s
    → Phase (finalize dump key relock s)
unfolding finalize
finalize-synced dump key relock s e p =
    let (r, k, i, l, c, b, d) = Phase-pending s synced e (λ x. cc) p in
    elim (Option-cases s.sync_event) [
      | inl none_here ↦ simp (e, none_here, finalize) (closed r k refl d)
      | inr (ev, here) ↦ elim (Bool-cases s.delegate_enabled) [
        | inr off ↦
            simp (e, here, off, finalize)
              (open_wallet refl refl (record {
                initialized = i;
                unlocked = l;
                has_event = refl;
                has_key = λ x. cc;
                delegates = d;
                schedules = c;
                subscribes = b;
              }))
        | inl on ↦ elim (Result-cases dump) [
          | inr (x, failed) ↦
              let s' : Node = record s {
                sync_event = some ev;
                delegate_enabled = true;
                finalizer = idle;
              } in
              simp (e, here, on, failed, finalize) (unwound-closed relock s' refl (λ x. cc))
          | inl (mnemonic, dumped) ↦ elim (Result-cases (key mnemonic)) [
            | inr (x, failed) ↦
                let s' : Node = record s {
                  sync_event = some ev;
                  delegate_enabled = true;
                  finalizer = idle;
                } in
                simp (e, here, on, dumped, failed, finalize)
                  (unwound-closed relock s' refl (λ x. cc))
            | inl (private, made) ↦
                simp (e, here, on, dumped, made, finalize)
                  (open_wallet refl refl (record {
                    initialized = i;
                    unlocked = l;
                    has_event = refl;
                    has_key = λ x. refl;
                    delegates = refl;
                    schedules = c;
                    subscribes = b;
                  }))
          ]
        ]
      ]
    ]

finalize-Phase :
    (dump : Result String String) (key : String → Result String String) (relock : Option String)
    (s : Node)
    → Phase s
    → Phase (finalize dump key relock s)
unfolding finalize
finalize-Phase dump key relock s p = elim (Finalizer-cases s.finalizer) [
  | inl e ↦ simp (e, finalize) p
  | inr (inl e) ↦ simp (e, finalize) p
  | inr (inr e) ↦ finalize-synced dump key relock s e p
]

gate_passed : (s : Node) → is_initialized_and_unlocked s ≡ none → s.wallet_ready ≡ true
unfolding is_initialized_and_unlocked
gate_passed s e = ground arith

Phase-IsAllowedToRun : (s : Node) → Phase s → IsAllowedToRun s
Phase-IsAllowedToRun s (closed r k f d) off = d
Phase-IsAllowedToRun s (unlocking r k i l c b d) off = d
Phase-IsAllowedToRun s (open_wallet r f w) off = w.delegates ∙ off

Phase-open : (s : Node) → Phase s → s.wallet_ready ≡ true → (s.finalizer ≡ idle) × IsWhole s
Phase-open s (closed r k f d) e = cc
Phase-open s (unlocking r k i l c b d) e = cc
Phase-open s (open_wallet r f w) e = (f, w)

lock_node-Phase : (answer : Option String) (s : Node) → Phase s → Phase (lock_node answer s).1
unfolding lock_node tear_down
lock_node-Phase answer s p = elim (Option-cases (is_initialized_and_unlocked s)) [
  | inr (x, shut) ↦ simp (shut, lock_node) p
  | inl passed ↦ elim (Option-cases answer) [
    | inr (x, failed) ↦ simp (passed, failed, lock_node) p
    | inl done ↦
        let f = (Phase-open s p (gate_passed s passed)).0 in
        let d = torn_down (record s { is_locked = true }) (Phase-IsAllowedToRun s p) in
        simp (passed, done, lock_node) (closed refl refl f d)
  ]
]

reset_wallet-Phase :
    (la : Bool) (s : Node) → s.finalizer ≡ idle → Phase s → Phase (reset_wallet la s)
unfolding reset_wallet tear_down
reset_wallet-Phase la s f p =
    closed refl refl f (torn_down (record s { is_locked = la }) (Phase-IsAllowedToRun s p))

run_all-Phase : (ops : List Op) (s : Node) → IsQuiet ops s → Phase s → Phase (run_all ops s)
unfolding run_all run IsQuiet
run_all-Phase [] s q p = p
run_all-Phase (sets_up m u i la c ∷ ops) s q p = run_all-Phase ops _ q (setup-Phase m u i la c s p)
run_all-Phase (unlocks u c b ∷ ops) s q p = run_all-Phase ops _ q (unlock_node-Phase u c b s p)
run_all-Phase (syncs e ∷ ops) s q p = run_all-Phase ops _ q (sync_arrives-Phase e s p)
run_all-Phase (finalizes d k r ∷ ops) s q p = run_all-Phase ops _ q (finalize-Phase d k r s p)
run_all-Phase (locks a ∷ ops) s q p = run_all-Phase ops _ q (lock_node-Phase a s p)
run_all-Phase (resets la ∷ ops) s (f, q) p = run_all-Phase ops _ q (reset_wallet-Phase la s f p)

-- Through any sequence of steps of the wallet, with any answers, from a closed one, where no reset
-- comes while an unlock waits to be finalized: a call that passes the gate meets a wallet that is
-- initialized and unlocked, to which the end of a sync was reported (well or with an error), whose
-- scheduler and subscription run, whose delegate service runs exactly if delegates are enabled, and
-- whose signing key is there if they are; and a locked wallet has no signing key in memory.
pub run_all-gate :
    (ops : List Op) (s : Node)
    → IsQuiet ops s
    → Phase s
    → (is_initialized_and_unlocked (run_all ops s) ≡ none → IsWhole (run_all ops s))
      × ((run_all ops s).is_locked ≡ true → (run_all ops s).signer_key ≡ none)
run_all-gate ops s q p =
    let after = run_all-Phase ops s q p in
    (λ passed. (Phase-open _ after (gate_passed _ passed)).1, λ shut. (Phase-locked _ after shut).1)
