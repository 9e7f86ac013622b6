-- ===== src/Broker/Clients/Invariant.antt =====
-- The reachable states of a broker.
use shvc.Base.{ℕ, zero, suc, ◌≡◌, refl, Bool, false, ℤ}
use shvc.Base.{Option, some, List, [], ◌∷◌, get_elem?, All, arith, inl, inr}
use shvc.Broker.State.{Role, Slot, Mount, Broker}
use shvc.Broker.Mount.{mounted_at}
use shvc.Broker.Mount.Search.{some_same}
use shvc.Broker.Mount.Found.{mounted_at-IsFound}
use shvc.Broker.Clients.{rpcbroker_new, rpcbroker_client_register, rpcbroker_client_unregister}
use shvc.Broker.Clients.Safety.{IsOwned, IsSafe}
use shvc.Broker.Clients.Registration.{rpcbroker_client_register-IsSafe}
use shvc.Broker.Clients.Removal.{rpcbroker_client_unregister-IsSafe}

-- The registrations and removals of a broker, one after the other.
pub data Step (strtol : List ℕ → ℤ × List ℕ) : Broker → Broker → Type 0 where
  registers :
      (b : Broker) (h : ℕ) (contrack : Bool) (role : Option Role) (now : ℕ) (res : ℤ) (b' : Broker)
      → rpcbroker_client_register strtol b h contrack role now ≡ some (res, b')
      → Step strtol b b'
  unregisters :
      (b : Broker) (c now : ℕ) (b' : Broker)
      → rpcbroker_client_unregister b c now ≡ some b'
      → Step strtol b b'

pub data Reachable (strtol : List ℕ → ℤ × List ℕ) : Broker → Type 0 where
  start : Reachable strtol (rpcbroker_new false)
  after : (b b' : Broker) → Reachable strtol b → Step strtol b b' → Reachable strtol b'

Step-IsSafe :
    (strtol : List ℕ → ℤ × List ℕ) (b b' : Broker) → Step strtol b b' → IsSafe b → IsSafe b'
Step-IsSafe strtol b b' (registers _ h contrack role now res _ e) safe =
    rpcbroker_client_register-IsSafe strtol b h contrack role now res b' safe e
Step-IsSafe strtol b b' (unregisters _ c now _ e) safe =
    rpcbroker_client_unregister-IsSafe b c now b' safe e

Reachable-IsSafe : (strtol : List ℕ → ℤ × List ℕ) (b : Broker) → Reachable strtol b → IsSafe b
unfolding rpcbroker_new
Reachable-IsSafe strtol _ start =
    (refl, inr (record { some_slots = omega arith; owned = tt; distinct = tt }))
Reachable-IsSafe strtol _ (after b b' before step) =
    Step-IsSafe strtol b b' step (Reachable-IsSafe strtol b before)

IsOwned-at :
    (slots : List Slot) (mounts : List Mount) (k : ℕ) (m : Mount)
    → All (IsOwned slots) mounts
    → get_elem? mounts k ≡ some m
    → IsOwned slots m
IsOwned-at slots [] k m h e = absurd (ground arith)
IsOwned-at slots (n ∷ mounts) zero m (hn, h) e = rw (← some_same n m e) hn
IsOwned-at slots (n ∷ mounts) (suc k) m (hn, h) e = IsOwned-at slots mounts k m h e

-- However many clients were registered and removed, with whatever roles: in a broker whose lock is
-- free, the mount that the search finds for a path is that of a live client with this mount point,
-- never of one that was removed.
pub mounted_at-IsOwned :
    (strtol : List ℕ → ℤ × List ℕ) (b : Broker) (path : List ℕ) (m : Mount)
    → Reachable strtol b
    → b.locked ≡ false
    → mounted_at b.mounts path ≡ some m
    → IsOwned b.slots m
mounted_at-IsOwned strtol b path m reached free found =
    let (threads, state) = Reachable-IsSafe strtol b reached in
    elim state [
      | inl held ↦ absurd (ground (arith, held, free))
      | inr good ↦
          let (prefix, k, at) = mounted_at-IsFound b.mounts path m found in
          IsOwned-at b.slots b.mounts k m good.owned at
    ]
