-- ===== src/Broker/Stages.antt =====
-- The handler stages of the broker: libshvbroker/access_stage.c and libshvbroker/rpc_stage.c.
--
-- What a message carries besides its head is passed on by cp_repack and is not modelled. Parameters
-- are the callback `access` of a role, strtol, and the broker's own methods (rpcbroker_api_msg and
-- rpcbroker_api_login_msg).
pub mod Routing
pub mod Rpc
pub mod Locking
pub mod Rights
pub mod Expiry
mod Runs
use shvc.Base.{
  ℕ, zero, suc, ◌+◌, ◌-◌, ◌*◌, ◌^◌, Bool, true, false, not, ◌&&◌, ◌||◌, ltb, leb, ◌==◌, min,
}
use shvc.Base.{if◌then◌else◌, Option, none, some, List, [], ◌∷◌, ◌++◌, ℤ, pos, negsuc, ◌-ℤ◌}
use shvc.Broker.Nbool.{NboolT}
use shvc.Broker.Subscription.{Subscription, unsubscribe, unsubscribe_all}
use shvc.Broker.State.{
  Role, Client, Pointer, null, live, dangling, Slot, Broker, pointer_at, set_slot,
}
use shvc.Broker.State.{broker_lock, broker_unlock, to_int, cid_valid, slash}
use shvc.Broker.Mount.{Target, nobody, client, out_of_bounds, mounted_client}
use shvc.Broker.Clients.{role_unassign, set_role}
use shvc.Broker.Signal.{Access, role_at, signal_destinations, for_nbool, Multipack, multipack_init}
use shvc.Broker.Signal.{pack_all, multipack_done, Action}

-- enum rpcmsg_type.
pub data RpcmsgType : Type 0 where
  invalid request request_abort response response_delay error signal : RpcmsgType

-- struct rpcmsg_meta, as far as the stages use it. `name` is the method or the signal, and a path
-- that is missing is empty.
pub record RpcmsgMeta : Type 0 where
  pub type : RpcmsgType
  pub access : ℕ
  pub path : List ℕ
  pub name : List ℕ
  pub source : List ℕ
  pub user_id : Option (List ℕ)
  pub cids : List ℤ

-- What a stage does with a message: RPCHANDLER_MSG_SKIP, RPCHANDLER_MSG_DONE without or with the
-- message sent on, or not sent on, by a handler, a signal sent on by some handlers and dropped by the
-- others, and the use of
-- memory that is not the program's.
pub data Outcome : Type 0 where
  skip handled fault : Outcome
  forwarded : ℕ → RpcmsgMeta → Outcome
  dropped : ℕ → Outcome
  signalled : List Action → RpcmsgMeta → Outcome

unfoldable pub is_request : RpcmsgType → Bool
is_request request = true
is_request invalid = false
is_request request_abort = false
is_request response = false
is_request error = false
is_request response_delay = false
is_request signal = false

unfoldable pub is_abort : RpcmsgType → Bool
is_abort request_abort = true
is_abort invalid = false
is_abort request = false
is_abort response = false
is_abort error = false
is_abort response_delay = false
is_abort signal = false

-- `c->last_activity = now.tv_sec`.
unfoldable pub touch : ℕ → Slot → Slot
touch now s = elim s.client as (λ _. Slot) [
  | live c ↦ record s { client = live (record c { last_activity = now }) }
  | null ↦ s
  | dangling ↦ s
]

-- access_msg, for the client of this ID. `login` is what rpcbroker_api_login_msg makes of the state.
unfoldable pub access_msg :
    Access
    → (Broker → RpcmsgMeta → Broker)
    → ℕ
    → Broker
    → ℕ
    → RpcmsgMeta
    → Outcome × Broker × RpcmsgMeta
access_msg role_access login now b cid meta =
    let b' = record b { slots = set_slot b.slots cid (touch now) } in
    elim (role_at b' cid) as (λ _. Outcome × Broker × RpcmsgMeta) [
      | none ↦ (handled, if is_request meta.type then login b' meta else b', meta)
      | some r ↦
          if is_request meta.type || is_abort meta.type
          then (
            skip,
            b',
            record meta { access = min meta.access (role_access r meta.path meta.name) },
          )
          else (skip, b', meta)
    ]

abbrev pub idle_skip : ℕ
idle_skip = 2 ^ 31 - 1

-- access_idle; RPCHANDLER_IDLE_SKIP is INT_MAX and RPCHANDLER_IDLE_STOP is INT_MIN.
unfoldable pub access_idle : Broker → Client → ℕ → Option (ℤ × Broker)
access_idle b c now = elim (broker_lock b) as (λ _. Option (ℤ × Broker)) [
  | none ↦ none
  | some b' ↦
      let timeout = to_int (pos (c.last_activity + c.activity_timeout) -ℤ pos now) in
      some (
        (if c.activity_timeout == 2 ^ 32 - 1
            then pos idle_skip
            else elim timeout as (λ _. ℤ) [ pos t ↦ pos t | negsuc t ↦ negsuc idle_skip ]),
        broker_unlock b',
      )
]

-- access_reset, for the client of this ID.
unfoldable pub access_reset : Broker → ℕ → Client → Option Broker
access_reset b cid c = elim (broker_lock b) as (λ _. Option Broker) [
  | none ↦ none
  | some b' ↦ some (broker_unlock (if c.login then set_role (role_unassign b' c) cid none else b'))
]
