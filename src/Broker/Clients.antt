-- ===== src/Broker/Clients.antt =====
-- libshvbroker/role.c and libshvbroker/rpcbroker.c: roles and the table of clients.
pub mod Slots
pub mod Safety
pub mod Registration
pub mod Removal
pub mod Invariant
pub mod Failure
use shvc.Base.{ℕ, zero, suc, ◌+◌, ◌-◌, ◌^◌, Bool, true, false, not, ◌&&◌, ◌||◌, ltb, leb, ◌==◌}
use shvc.Base.{
  if◌then◌else◌, Option, none, some, List, [], ◌∷◌, ◌++◌, length, replicate, ℤ, pos, negsuc,
}
use shvc.Broker.Subscription.{Subscription, subscribe, unsubscribe_all}
use shvc.Broker.State.{
  Role, Client, Pointer, null, live, dangling, Slot, Mount, Broker, broker_lock, broker_unlock,
  is_null, pointer_at, set_slot, cid_valid, is_path_prefix,
}
use shvc.Broker.Mount.{mount_register, mount_unregister}

-- enum role_res.
pub data RoleRes : Type 0 where
  role_ok mnt_invalid mnt_exists : RoleRes

-- ".app" and ".broker".
abbrev pub app_path : List ℕ
app_path = 46 ∷ 97 ∷ 112 ∷ 112 ∷ []

abbrev pub broker_path : List ℕ
broker_path = 46 ∷ 98 ∷ 114 ∷ 111 ∷ 107 ∷ 101 ∷ 114 ∷ []

-- `ctx->role = role` of the client in a slot.
unfoldable pub with_role : Option Role → Slot → Slot
with_role role s = elim s.client [
  | live c ↦ record s { client = live (record c { role = role }) }
  | null ↦ s
  | dangling ↦ s
]

unfoldable pub set_role : Broker → ℕ → Option Role → Broker
unfolding with_role
set_role b cid role = record b { slots = set_slot b.slots cid (with_role role) }

-- The call of `free`, if the role has it.
unfoldable pub free_role : Broker → Role → Broker
free_role b role = if role.has_free then record b { freed = role ∷ b.freed } else b

-- The subscriptions of a role, one after the other.
unfoldable pub subscribe_role : List (List ℕ) → ℕ → List Subscription → List Subscription
unfolding subscribe
subscribe_role [] cid subs = subs
subscribe_role (ri ∷ ris) cid subs = subscribe_role ris cid (subscribe subs ri cid).1

-- `*mount_point == '\0'`, or a mount point at or below the broker's own nodes.
unfoldable pub is_invalid_mount : List ℕ → Bool
unfolding is_path_prefix
is_invalid_mount [] = true
is_invalid_mount (c ∷ path) =
    is_path_prefix (c ∷ path) app_path || is_path_prefix (c ∷ path) broker_path

-- The part of role_assign that can fail.
unfoldable pub assign_mount :
    (List ℕ → ℤ × List ℕ) → Broker → ℕ → Option (List ℕ) → RoleRes × Broker
unfolding is_invalid_mount mount_register
assign_mount strtol b cid none = (role_ok, b)
assign_mount strtol b cid (some path) =
    let (registered, b') = mount_register strtol b path cid in
    if is_invalid_mount path
    then (mnt_invalid, b)
    else (if registered then (role_ok, b') else (mnt_exists, b'))

-- The end of role_assign: the subscriptions, or the error.
unfoldable pub finish_role : RoleRes → Broker → ℕ → Role → RoleRes × Broker
unfolding set_role subscribe_role free_role
finish_role role_ok b cid role =
    (role_ok, record b { subscriptions = subscribe_role role.subscriptions cid b.subscriptions })
finish_role mnt_invalid b cid role = (mnt_invalid, free_role (set_role b cid none) role)
finish_role mnt_exists b cid role = (mnt_exists, free_role (set_role b cid none) role)

-- role_assign, for the client of this ID.
unfoldable pub role_assign : (List ℕ → ℤ × List ℕ) → Broker → ℕ → Role → RoleRes × Broker
unfolding set_role assign_mount finish_role
role_assign strtol b cid role =
    let (res, b') = assign_mount strtol (set_role b cid (some role)) cid role.mount_point in
    finish_role res b' cid role

-- role_unassign of a client that is no longer in the table.
unfoldable pub role_unassign : Broker → Client → Broker
unfolding mount_unregister free_role
role_unassign b c = elim c.role as (λ _. Broker) [
  | none ↦ b
  | some role ↦
      free_role
        (elim role.mount_point as (λ _. Broker) [ none ↦ b | some path ↦ mount_unregister b path ])
        role
]

-- REUSE_TIMEOUT and IDLE_TIMEOUT_LOGIN.
abbrev pub reuse_timeout : ℕ
reuse_timeout = 600

abbrev pub idle_timeout_login : ℕ
idle_timeout_login = 5

-- rpcbroker_new.
unfoldable pub rpcbroker_new : Bool → Broker
rpcbroker_new nolock = record {
  nolock = nolock;
  locked = false;
  slots = replicate 4 (record { client = null; lastuse = 0 });
  mounts = [];
  subscriptions = [];
  freed = [];
}

-- The search for a client ID: the first slot that is empty and was not used lately, or the number of
-- slots.
unfoldable pub free_cid : List Slot → ℕ → ℕ
unfolding is_null
free_cid [] now = 0
free_cid (s ∷ slots) now =
    let rest = free_cid slots now in
    if not (is_null s.client) || leb now (s.lastuse + reuse_timeout) then suc rest else 0

-- The table doubled, if the ID is behind its end.
unfoldable pub enlarge : List Slot → ℕ → List Slot
enlarge slots cid =
    if cid == length slots
    then slots ++ replicate (length slots) (record { client = null; lastuse = 0 })
    else slots

-- The new client.
unfoldable pub new_client : ℕ → ℕ → Bool → Option Role → ℕ → Client
new_client cid handler contrack role now = record {
  cid = cid;
  handler = handler;
  role = role;
  login = elim role [ none ↦ true | some r ↦ false ];
  activity_timeout = elim role [
    | some r ↦ 2 ^ 32 - 1
    | none ↦ if contrack then idle_timeout_login else 2 ^ 32 - 1
  ];
  last_activity = now;
}

-- `broker->clients[cid] = ctx`, behind the doubling.
unfoldable pub add_client : Broker → ℕ → Client → Broker
unfolding enlarge set_slot
add_client b cid ctx = record b {
  slots = set_slot (enlarge b.slots cid) cid (λ s. record s { client = live ctx });
}

unfoldable pub forget_client : Broker → ℕ → Broker
unfolding set_slot
forget_client b cid = record b {
  slots = set_slot b.slots cid (λ _. record { client = dangling; lastuse = 0 });
}

-- The end of rpcbroker_client_register. When the role was not assigned, the client is freed, but its
-- pointer stays in the table, and the lock is kept.
unfoldable pub end_register : ℕ → RoleRes → Broker → ℤ × Broker
unfolding forget_client broker_unlock
end_register cid role_ok b = (pos cid, broker_unlock b)
end_register cid mnt_invalid b = (negsuc 0, forget_client b cid)
end_register cid mnt_exists b = (negsuc 0, forget_client b cid)

-- rpcbroker_client_register; `contrack` is what the handler's client says of connection tracking.
-- None is a wait for the lock forever.
unfoldable pub rpcbroker_client_register :
    (List ℕ → ℤ × List ℕ) → Broker → ℕ → Bool → Option Role → ℕ → Option (ℤ × Broker)
unfolding broker_lock free_cid new_client add_client role_assign broker_unlock end_register
rpcbroker_client_register strtol b handler contrack role now =
    elim (broker_lock b) as (λ _. Option (ℤ × Broker)) [
      | none ↦ none
      | some b1 ↦
          let cid = free_cid b1.slots now in
          let b2 = add_client b1 cid (new_client cid handler contrack role now) in
          elim role as (λ _. Option (ℤ × Broker)) [
            | none ↦ some (pos cid, broker_unlock b2)
            | some r ↦ let (res, b3) = role_assign strtol b2 cid r in some (end_register cid res b3)
          ]
    ]

-- The changes of rpcbroker_client_unregister, in its order.
unfoldable pub remove_client : Broker → ℕ → ℕ → Client → Broker
unfolding set_slot role_unassign unsubscribe_all
remove_client b cid now ctx =
    let b' =
      role_unassign
        (record b { slots = set_slot b.slots cid (λ _. record { client = null; lastuse = now }) })
        ctx in
    record b' { subscriptions = unsubscribe_all b'.subscriptions cid }

-- What rpcbroker_client_unregister leaves. None is a wait for the lock forever, or the use of a
-- pointer that is not to a client.
unfoldable pub rpcbroker_client_unregister : Broker → ℕ → ℕ → Option Broker
unfolding broker_lock pointer_at remove_client broker_unlock
rpcbroker_client_unregister b cid now = elim (broker_lock b) as (λ _. Option Broker) [
  | none ↦ none
  | some b1 ↦ elim (pointer_at b1.slots cid) as (λ _. Option Broker) [
    | none ↦ none
    | some p ↦ elim p as (λ _. Option Broker) [
      | live ctx ↦ some (broker_unlock (remove_client b1 cid now ctx))
      | null ↦ none
      | dangling ↦ none
    ]
  ]
]

-- rpcbroker_client_handler. None is NULL, or the use of memory that was freed.
unfoldable pub rpcbroker_client_handler : Broker → ℤ → Option ℕ
unfolding cid_valid pointer_at
rpcbroker_client_handler b (negsuc n) = none
rpcbroker_client_handler b (pos n) = elim (pointer_at b.slots n) as (λ _. Option ℕ) [
  | none ↦ none
  | some p ↦ elim p as (λ _. Option ℕ) [ live c ↦ some c.handler | null ↦ none | dangling ↦ none ]
]
