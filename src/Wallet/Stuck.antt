-- ===== src/Wallet/Stuck.antt =====
-- `UnlockNode` of internal/core/application/service.go when a step after the sdk's unlock fails.
use fulmine.Base.{◌≡◌, refl, true, String, Option, none, some}
use fulmine.Wallet.{Node, syncing, sdk_failed, is_initialized_and_unlocked, unlock_node, lock_node}

-- An unlock that fails after the sdk's wallet is unlocked, because the configuration cannot be read,
-- leaves a wallet that cannot be used: a later unlock, whatever it is answered, reports success and
-- changes nothing, and a lock is refused because the wallet is still syncing. The wallet is
-- initialized, locked and has no sync event before.
pub unlock_node-stuck :
    (e : String) (subscription : Option String) (s : Node)
    → s.is_initialized ≡ true
    → s.is_locked ≡ true
    → s.sync_event ≡ none
    → (let r = unlock_node none (some e) subscription s in
        (r.0 ≡ some (sdk_failed e))
        × ((unlock config again : Option String)
            → unlock_node unlock config again r.1 ≡ (none, r.1))
        × ((answer : Option String) → lock_node answer r.1 ≡ (some syncing, r.1)))
unfolding unlock_node lock_node is_initialized_and_unlocked
unlock_node-stuck e subscription s new shut unsynced =
    simp (new, shut, unsynced, unlock_node) (refl, (λ u c b. refl), λ a. refl)
