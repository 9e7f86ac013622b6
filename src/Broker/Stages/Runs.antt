-- ===== src/Broker/Stages/Runs.antt =====
-- Tests and witnesses for the stages.
use shvc.Base.{
  ◌^◌, ◌+◌, ◌≤◌, ◌≡◌, refl, sym, inl, arith, true, false, Option, none, some, List, [], ◌∷◌,
}
use shvc.Base.{if◌then◌else◌, ℤ, pos, negsuc}
use shvc.Broker.State.{
  Role, Broker, broker_lock, broker_unlock, pointer_at, set_slot, cid_valid, to_int,
}
use shvc.Broker.Mount.{mounted_client}
use shvc.Broker.Stages.{is_request, touch}
use shvc.Broker.Stages.Rpc.{
  forward_request, propagate_msg, pop_cid, forward_response, mount_point_of, full_path,
}
use shvc.Broker.Signal.{role_at}
use shvc.Broker.Sample.{ab, ab_x, get, chng, below_ab, user, two_clients}
use shvc.Broker.Sample.{read_only, no_number}
use shvc.Broker.Stages.{RpcmsgMeta, request, response, signal, Outcome, fault, forwarded, dropped}
use shvc.Broker.Stages.{access_msg}
use shvc.Broker.Stages.Rpc.{forward_meta, rpc_msg_request, rpc_msg_response, rpc_msg_signal}
use shvc.Broker.Stages.Rpc.{Ttlsub, rpc_idle, idle_time}
use shvc.Broker.Stages.Routing.{response-request}
use shvc.Broker.Stages.Locking.{IsDone, rpc_msg_signal-broker_lock}
use shvc.Rpcri.{rpcri_match_one}
use shvc.Rpcri.Identifier.{rpcri_match, split_colon, match_both, match_method}
use shvc.Broker.Stages.Rights.{request-access_msg}
use shvc.Broker.Stages.Expiry.{IsExpired, rpc_idle-IsExpired}

-- The user calls `get` of the node `x` of the device, with more access than it has.
abbrev call : RpcmsgMeta
call = record {
  type = request;
  access = 32;
  path = ab_x;
  name = get;
  source = [];
  user_id = some [];
  cids = [];
}

abbrev passed : RpcmsgMeta
passed = record call { access = 8 }

abbrev sent : RpcmsgMeta
sent = forward_meta 1 (some (117 ∷ [])) none (120 ∷ []) passed

abbrev reply : RpcmsgMeta
reply = record {
  type = response;
  access = 0;
  path = [];
  name = [];
  source = [];
  user_id = none;
  cids = sent.cids;
}

abbrev change : RpcmsgMeta
change = record {
  type = signal;
  access = 8;
  path = [];
  name = chng;
  source = get;
  user_id = none;
  cids = [];
}

-- The broker's own methods do not handle it.
abbrev no_api : Broker → RpcmsgMeta → Option Broker
no_api b meta = none

is_sent :
    rpc_msg_request no_number no_api true two_clients 1 (some (117 ∷ [])) none passed
    ≡ some (forwarded 7 sent, two_clients)
unfolding rpc_msg_request is_request broker_lock forward_request mounted_client propagate_msg
    broker_unlock
is_sent = refl

-- A client ID beyond `int` passes the test and reads behind the end of the table.
too_large :
    rpc_msg_response true two_clients (record reply { cids = pos (2 ^ 32 + 1) ∷ [] })
    ≡ some (fault, record two_clients { locked = true })
unfolding rpc_msg_response broker_lock pop_cid cid_valid to_int forward_response
too_large = refl

-- A subscription of 25 days makes the idle time negative.
negative_idle : idle_time 0 (record { ri = below_ab; ttl = 2160000 } ∷ []) ≡ negsuc 2134967295
unfolding idle_time to_int
negative_idle = refl

response-request_example :
    rpc_msg_response true two_clients reply
    ≡ some ((if true then forwarded 9 (record reply { cids = [] }) else dropped 9), two_clients)
unfolding pointer_at
response-request_example =
    response-request no_number no_api true two_clients 1 (some (117 ∷ [])) none passed 7 sent
      two_clients user true reply is_sent refl (omega arith) refl

rpc_msg_signal-broker_lock_example :
    (out : Outcome) × (after : Broker) × (rpc_msg_signal read_only [] true two_clients 0 change
      ≡ some (out, after))
    × IsDone out
    × (broker_lock after ≡ none)
unfolding role_at rpcri_match split_colon match_both match_method rpcri_match_one mount_point_of
    full_path
rpc_msg_signal-broker_lock_example =
    rpc_msg_signal-broker_lock read_only [] true two_clients 0 change refl refl
      (λ mount_point e. let here : ab ≡ mount_point = cc in rw (sym here) (inl refl, tt))

request-access_msg_example :
    (r : Role) × (role_at two_clients 1 ≡ some r)
    × (sent.access ≤ call.access)
    × (sent.access ≤ read_only r call.path call.name)
unfolding access_msg is_request role_at set_slot touch
request-access_msg_example =
    request-access_msg read_only (λ b m. b) 0 no_number no_api true two_clients 1 (some (117 ∷ []))
      none call two_clients passed 7 sent two_clients refl refl is_sent

abbrev ending : List Ttlsub
ending = record { ri = below_ab; ttl = 60 } ∷ record { ri = ab; ttl = 90 } ∷ []

rpc_idle-IsExpired_example :
    (time : ℤ) × (after : Broker) × (left : List Ttlsub) × (rpc_idle two_clients 1 70 ending
      ≡ some (time, after, left))
    × (after.locked ≡ false)
    × IsExpired 1 70 two_clients.subscriptions ending (after.subscriptions, left)
rpc_idle-IsExpired_example =
    rpc_idle-IsExpired two_clients 1 70 ending refl refl (tt, tt) ((omega arith, tt), (tt, tt))
