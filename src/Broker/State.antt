-- ===== src/Broker/State.antt =====
-- The state of libshvbroker/broker.h, with the lock and the tests on client IDs and paths.
use shvc.Base.{ℕ, zero, suc, ◌-◌, ◌%◌, ◌^◌, Bool, true, false, not, ◌&&◌, ltb, ◌==◌}
use shvc.Base.{if◌then◌else◌, Option, none, some, List, [], ◌∷◌, ℤ, pos, negsuc}
use shvc.Broker.Subscription.{Subscription}

-- struct rpcbroker_role, as far as the broker's state depends on it; `has_free` says whether the
-- callback `free` is there.
pub record Role : Type 0 where
  pub name : List ℕ
  pub mount_point : Option (List ℕ)
  pub subscriptions : List (List ℕ)
  pub has_free : Bool

-- struct clientctx, as far as registration sets it. The handler is a number.
pub record Client : Type 0 where
  pub cid : ℕ
  pub handler : ℕ
  pub role : Option Role
  pub login : Bool
  pub activity_timeout : ℕ
  pub last_activity : ℕ

-- A pointer of the client table: NULL, to a client, or to memory that was freed.
pub data Pointer : Type 0 where
  null : Pointer
  live : Client → Pointer
  dangling : Pointer

-- An element of `clients` and of `clients_lastuse`, which are of the same size.
pub record Slot : Type 0 where
  pub client : Pointer
  pub lastuse : ℕ

-- struct mount.
pub record Mount : Type 0 where
  pub path : List ℕ
  pub cid : ℕ

-- struct rpcbroker. `freed` are the roles for which the callback `free` was called, the last first.
pub record Broker : Type 0 where
  pub nolock : Bool
  pub locked : Bool
  pub slots : List Slot
  pub mounts : List Mount
  pub subscriptions : List Subscription
  pub freed : List Role

-- broker_lock: none when it waits forever, since the lock is taken and is not recursive.
unfoldable pub broker_lock : Broker → Option Broker
broker_lock b =
    if b.nolock then some b else (if b.locked then none else some (record b { locked = true }))

-- broker_unlock.
unfoldable pub broker_unlock : Broker → Broker
broker_unlock b = if b.nolock then b else record b { locked = false }

-- `clients[cid]`; none is behind the end of the array.
unfoldable pub pointer_at : List Slot → ℕ → Option Pointer
pointer_at [] i = none
pointer_at (s ∷ slots) zero = some s.client
pointer_at (s ∷ slots) (suc i) = pointer_at slots i

-- A write to `clients[cid]`, with what it does to `clients_lastuse[cid]`.
unfoldable pub set_slot : List Slot → ℕ → (Slot → Slot) → List Slot
set_slot [] i f = []
set_slot (s ∷ slots) zero f = f s ∷ slots
set_slot (s ∷ slots) (suc i) f = s ∷ set_slot slots i f

unfoldable pub is_null : Pointer → Bool
is_null null = true
is_null (live c) = false
is_null dangling = false

-- The value of an integer in an `int`.
unfoldable pub to_int : ℤ → ℤ
to_int (pos n) = let r = n % 2 ^ 32 in if ltb r (2 ^ 31) then pos r else negsuc (2 ^ 32 - 1 - r)
to_int (negsuc n) = let r = n % 2 ^ 32 in if ltb r (2 ^ 31) then negsuc r else pos (2 ^ 32 - 1 - r)

-- cid_valid.
unfoldable pub cid_valid : Broker → ℤ → Bool
unfolding pointer_at is_null
cid_valid b (pos n) = elim (pointer_at b.slots n) [ some p ↦ not (is_null p) | none ↦ false ]
cid_valid b (negsuc n) = false

-- `broker->clients[cid]->role` of a client.
unfoldable pub has_role : Pointer → Bool
has_role (live c) = elim c.role [ some r ↦ true | none ↦ false ]
has_role null = false
has_role dangling = false

-- cid_active.
unfoldable pub cid_active : Broker → ℤ → Bool
unfolding cid_valid pointer_at has_role
cid_active b (pos n) =
    cid_valid b (pos n)
    && elim (pointer_at b.slots n) as (λ _. Bool) [ some p ↦ has_role p | none ↦ false ]
cid_active b (negsuc n) = false

-- What is behind a prefix.
unfoldable pub behind : List ℕ → List ℕ → Option (List ℕ)
behind [] path = some path
behind (p ∷ prefix) [] = none
behind (p ∷ prefix) (c ∷ path) = let rest = behind prefix path in if c == p then rest else none

abbrev pub slash : ℕ
slash = 0x2F

-- The end of a string or of a node's name: `\0` or `/`.
unfoldable pub at_node_end : List ℕ → Bool
at_node_end [] = true
at_node_end (c ∷ cs) = c == slash

-- is_path_prefix.
unfoldable pub is_path_prefix : List ℕ → List ℕ → Bool
unfolding behind at_node_end
is_path_prefix path [] = true
is_path_prefix path (p ∷ prefix) = elim (behind (p ∷ prefix) path) [
  | some rest ↦ at_node_end rest
  | none ↦ false
]
