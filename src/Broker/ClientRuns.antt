-- ===== src/Broker/ClientRuns.antt =====
-- Tests and witnesses for mounts and clients.
use shvc.Base.{
  ℕ, ◌+◌, ◌-◌, ◌^◌, ◌≡◌, refl, arith, true, false, none, some, List, [], ◌∷◌, ◌++◌, length, ℤ, pos,
  inr,
}
use shvc.Base.Strings.{str_eq}
use shvc.Broker.State.{
  Role, Client, null, live, dangling, Slot, Mount, Broker, pointer_at, is_path_prefix, cid_active,
  at_node_end,
}
use shvc.Broker.Mount.{mounted_at, mounted_client, out_of_bounds, clientmnt}
use shvc.Broker.Mount.Search.{splits, Apart, mounted_at-is_path_prefix}
use shvc.Broker.Mount.Found.{IsFound, mounted_at-IsFound, mounted_client_overflow}
use shvc.Broker.Clients.{
  free_cid, enlarge, rpcbroker_new, rpcbroker_client_register, rpcbroker_client_unregister,
}
use shvc.Broker.Clients.Slots.{free_cid_early}
use shvc.Broker.Clients.Safety.{IsOwned, IsSafe}
use shvc.Broker.Clients.Registration.{rpcbroker_client_register-IsSafe}
use shvc.Broker.Clients.Removal.{rpcbroker_client_unregister-IsSafe}
use shvc.Broker.Clients.Invariant.{registers, start, after, mounted_at-IsOwned}
use shvc.Broker.Clients.Failure.{rpcbroker_client_register_error}

-- A conversion that takes nothing.
abbrev no_number : List ℕ → ℤ × List ℕ
no_number s = (pos 0, s)

-- "ab", "ac" and "b/c".
abbrev ab : Mount
ab = record { path = 97 ∷ 98 ∷ []; cid = 0 }

abbrev three_mounts : List Mount
three_mounts =
    ab ∷ record { path = 97 ∷ 99 ∷ []; cid = 2 } ∷ record { path = 98 ∷ 47 ∷ 99 ∷ []; cid = 1 } ∷ []

three_mounts-Apart : Apart three_mounts
unfolding splits
three_mounts-Apart = ((refl, (refl, tt)), ((refl, tt), (tt, tt)))

mounted_at-is_path_prefix_example : mounted_at three_mounts (97 ∷ 98 ∷ 47 ∷ 120 ∷ []) ≡ some ab
unfolding is_path_prefix
mounted_at-is_path_prefix_example =
    mounted_at-is_path_prefix three_mounts (97 ∷ 98 ∷ 47 ∷ 120 ∷ []) 0 ab three_mounts-Apart refl
      refl

mounted_at-IsFound_run : IsFound three_mounts (97 ∷ 98 ∷ []) ab
unfolding mounted_at
mounted_at-IsFound_run = mounted_at-IsFound three_mounts (97 ∷ 98 ∷ []) ab refl

-- The mounts "t", "t-x" and "t-y", and the path "t/f": the search misses the first mount.
missed :
    mounted_at
      (record { path = 116 ∷ []; cid = 0 }
        ∷ record { path = 116 ∷ 45 ∷ 120 ∷ []; cid = 1 }
        ∷ record { path = 116 ∷ 45 ∷ 121 ∷ []; cid = 2 }
        ∷ [])
      (116 ∷ 47 ∷ 102 ∷ [])
    ≡ none
unfolding mounted_at
missed = refl

abbrev role : Role
role = record {
  name = 117 ∷ [];
  mount_point = some (97 ∷ 98 ∷ []);
  subscriptions = [];
  has_free = true;
}

abbrev bad_role : Role
bad_role = record role { mount_point = some (46 ∷ 97 ∷ 112 ∷ 112 ∷ 47 ∷ 120 ∷ []) }

abbrev mounted : Client
mounted = record {
  cid = 0;
  handler = 7;
  role = some role;
  login = false;
  activity_timeout = 2 ^ 32 - 1;
  last_activity = 1000;
}

abbrev unused : Slot
unused = record { client = null; lastuse = 0 }

abbrev one_client : Broker
one_client = record {
  nolock = false;
  locked = false;
  slots = record { client = live mounted; lastuse = 0 } ∷ unused ∷ unused ∷ unused ∷ [];
  mounts = ab ∷ [];
  subscriptions = [];
  freed = [];
}

-- The number 2 ^ 32, and nothing behind it.
abbrev large_number : List ℕ → ℤ × List ℕ
large_number s = (pos (2 ^ 32 + 0), [])

mounted_client_overflow_example :
    mounted_client large_number one_client
      (clientmnt ++ (52 ∷ 50 ∷ 57 ∷ 52 ∷ 57 ∷ 54 ∷ 55 ∷ 50 ∷ 57 ∷ 54 ∷ []))
    ≡ out_of_bounds
unfolding at_node_end cid_active
mounted_client_overflow_example =
    mounted_client_overflow large_number one_client
      (52 ∷ 50 ∷ 57 ∷ 52 ∷ 57 ∷ 54 ∷ 55 ∷ 50 ∷ 57 ∷ 54 ∷ []) [] 0 refl refl (omega arith) refl
      (omega arith)

new-IsSafe : IsSafe (rpcbroker_new false)
unfolding rpcbroker_new
new-IsSafe = (refl, inr (record { some_slots = omega arith; owned = tt; distinct = tt }))

registered :
    rpcbroker_client_register no_number (rpcbroker_new false) 7 true (some role) 1000
    ≡ some (pos 0, one_client)
unfolding rpcbroker_client_register rpcbroker_new
registered = refl

rpcbroker_client_register-IsSafe_example : IsSafe one_client
rpcbroker_client_register-IsSafe_example =
    rpcbroker_client_register-IsSafe no_number (rpcbroker_new false) 7 true (some role) 1000 (pos 0)
      one_client new-IsSafe registered

one_client-IsSafe : IsSafe one_client
unfolding pointer_at
one_client-IsSafe = (
  refl,
  inr (record {
    some_slots = omega arith;
    owned = ((mounted, refl, refl), tt);
    distinct = (tt, tt);
  }),
)

abbrev no_client : Broker
no_client = record one_client {
  slots = record { client = null; lastuse = 2000 } ∷ unused ∷ unused ∷ unused ∷ [];
  mounts = [];
  freed = role ∷ [];
}

rpcbroker_client_unregister-IsSafe_example : IsSafe no_client
unfolding rpcbroker_client_unregister str_eq
rpcbroker_client_unregister-IsSafe_example =
    rpcbroker_client_unregister-IsSafe one_client 0 2000 no_client one_client-IsSafe refl

mounted_at-IsOwned_example : IsOwned one_client.slots ab
unfolding mounted_at
mounted_at-IsOwned_example =
    mounted_at-IsOwned no_number one_client (97 ∷ 98 ∷ []) ab
      (after (rpcbroker_new false) one_client start
        (registers (rpcbroker_new false) 7 true (some role) 1000 (pos 0) one_client registered))
      refl refl

-- The broker behind the registration of a client at ".app/x".
abbrev stuck : Broker
stuck = record (rpcbroker_new false) {
  locked = true;
  slots = record { client = dangling; lastuse = 0 } ∷ unused ∷ unused ∷ unused ∷ [];
  freed = bad_role ∷ [];
}

rpcbroker_client_register_error_example :
    (stuck.locked ≡ true)
    × (rpcbroker_client_unregister stuck 0 2000 ≡ none)
    × (rpcbroker_client_register no_number stuck 7 true (some bad_role) 2000 ≡ none)
unfolding rpcbroker_client_register rpcbroker_new
rpcbroker_client_register_error_example =
    rpcbroker_client_register_error no_number (rpcbroker_new false) 7 true (some bad_role) 1000 0
      stuck 0 2000 no_number 7 true (some bad_role) refl refl

free_cid_early_run :
    (free_cid one_client.slots 30 ≡ 4)
    × (length (enlarge one_client.slots (free_cid one_client.slots 30)) ≡ 8)
free_cid_early_run = free_cid_early one_client.slots 30 (omega arith)
