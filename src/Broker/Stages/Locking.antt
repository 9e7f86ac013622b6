-- ===== src/Broker/Stages/Locking.antt =====
-- The lock in rpc_msg_signal of libshvbroker/rpc_stage.c.
use shvc.Base.{
  ℕ, Bool, true, false, none, some, Option-cases, List, All, ◌≡◌, ◌⊎◌, refl, sym, inl, inr,
}
use shvc.Broker.State.{Broker, broker_lock}
use shvc.Broker.Signal.{Access, role_at, for_nbool, Action}
use shvc.Broker.Signal.Delivery.{
  broker_lock-free, broker_lock-taken, AreHandlers, delivered, multipack_done-pack_all,
  destinations-AreHandlers,
}
use shvc.Broker.Signal.Choice.{IsAnswered, signal_destinations-wants}
use shvc.Broker.Stages.{RpcmsgMeta, Outcome, skip, signalled}
use shvc.Broker.Stages.Rpc.{mount_point_of, full_path, send_signal}
use shvc.Broker.Stages.Rpc.{rpc_msg_signal}

-- What send_signal does, where the destinations are in the table.
send_signal-signalled :
    (items : List (ℕ → Bool)) (valid : Bool) (b : Broker) (meta : RpcmsgMeta) (dest hs : List ℕ)
    → AreHandlers b dest hs
    → send_signal items valid b meta dest ≡ signalled (delivered items valid hs hs) meta
unfolding send_signal
send_signal-signalled items valid b meta dest hs w =
    let (packs, e, e') = multipack_done-pack_all b b dest hs hs items valid w w in
    rw (send_signal, e, e') refl

-- The message was left alone, or it was sent or dropped for its destinations.
abbrev pub IsDone : Outcome → Type 0
IsDone out =
    (out ≡ skip) ⊎ ((actions : List Action) × (meta : RpcmsgMeta) × (out ≡ signalled actions meta))

-- When the lock is free, and the matching of every resource identifier with the signal ends with an
-- answer, rpc_msg_signal returns, with the signal sent or dropped for its destinations or left alone,
-- and in each case it leaves the lock taken, so that whatever takes the lock next waits forever.
pub rpc_msg_signal-broker_lock :
    (role_access : Access) (items : List (ℕ → Bool)) (valid : Bool) (b : Broker) (cid : ℕ)
    → (meta : RpcmsgMeta) → b.nolock ≡ false
    → b.locked ≡ false
    → ((mount_point : List ℕ)
        → mount_point_of (role_at b cid) ≡ some mount_point
        → All (IsAnswered (full_path mount_point meta.path) meta.source meta.name) b.subscriptions)
    → (out : Outcome) × (after : Broker) × (rpc_msg_signal role_access items valid b cid meta
        ≡ some (out, after))
      × IsDone out
      × (broker_lock after ≡ none)
unfolding rpc_msg_signal role_at
rpc_msg_signal-broker_lock role_access items valid b cid meta n l answered =
    let b' : Broker = record b { locked = true } in
    let free = broker_lock-free b n l in
    let taken : broker_lock b' ≡ none = broker_lock-taken b' n refl in
    elim (Option-cases (mount_point_of (role_at b' cid))) [
      | inl y ↦ (skip, b', rw (rpc_msg_signal, free, y) refl, inl refl, taken)
      | inr (mount_point, y) ↦
          let path = full_path mount_point meta.path in
          let meta' : RpcmsgMeta = record meta { path = path } in
          let (dest, d, _) =
            signal_destinations-wants role_access b' path meta.source meta.name meta.access
              (answered mount_point y) in
          elim (Option-cases dest) [
            | inl z ↦ (skip, b', rw (rpc_msg_signal, free, y, d, z) refl, inl refl, taken)
            | inr (vals, z) ↦
                let (hs, w) =
                  destinations-AreHandlers role_access b' path meta.source meta.name meta.access
                    (some vals) (answered mount_point y) (rw (sym z) d) in
                let sent =
                  send_signal-signalled items valid b' meta' (for_nbool (some vals)) hs w in
                (
                  send_signal items valid b' meta' (for_nbool (some vals)),
                  b',
                  rw (rpc_msg_signal, free, y, d, z) refl,
                  inr (delivered items valid hs hs, meta', sent),
                  taken,
                )
          ]
    ]
