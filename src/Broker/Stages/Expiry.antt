-- ===== src/Broker/Stages/Expiry.antt =====
-- Subscriptions that end, in rpc_idle of libshvbroker/rpc_stage.c.
use shvc.Base.{ℕ, ◌≤◌, ◌<◌, Bool, true, false, not, ◌&&◌, ◌||◌, leb, ◌==◌, Bool-cases}
use shvc.Base.{some, List, [], ◌∷◌, All, ◌≡◌, refl, inl, inr, arith, ℤ}
use shvc.Base.Strings.{str_eq}
use shvc.Broker.State.{Broker, broker_unlock}
use shvc.Broker.Subscription.{Subscription, unsubscribe}
use shvc.Broker.Subscription.Order.{IsSorted}
use shvc.Broker.Subscription.Relation.{subscribed}
use shvc.Broker.Subscription.Laws.{unsubscribe-IsUnsubscribed}
use shvc.Broker.Signal.Delivery.{broker_lock-free}
use shvc.Broker.Stages.Rpc.{Ttlsub, expire, rpc_idle, idle_time}

-- The array as subttlcmp orders it.
abbrev pub IsAscending : List Ttlsub → Type 0
IsAscending [] = Unit {0}
IsAscending (t ∷ ts) = All (λ u. t.ttl ≤ u.ttl) ts × IsAscending ts

-- Whether a subscription to the resource identifier ends by now.
unfoldable pub ends : ℕ → List Ttlsub → List ℕ → Bool
ends now [] r = false
ends now (t ∷ ts) r = (leb t.ttl now && str_eq t.ri r) || ends now ts r

-- Nothing ends by now behind what does not.
ends_later :
    (now : ℕ) (t : Ttlsub) (ts : List Ttlsub) (r : List ℕ)
    → leb t.ttl now ≡ false
    → All (λ u. t.ttl ≤ u.ttl) ts
    → ends now ts r ≡ false
unfolding ends
ends_later now t [] r h a = refl
ends_later now t (u ∷ ts) r h a = ground (arith, a.0, ends_later now t ts r h a.1)

All-later :
    (now : ℕ) (t : Ttlsub) (ts : List Ttlsub)
    → leb t.ttl now ≡ false
    → All (λ u. t.ttl ≤ u.ttl) ts
    → All (λ u. now < u.ttl) ts
All-later now t [] h a = tt
All-later now t (u ∷ ts) h a = (ground (arith, a.0), All-later now t ts h a.1)

-- What the loop leaves of the subscriptions and of the array.
abbrev pub IsExpired :
    ℕ → ℕ → List Subscription → List Ttlsub → List Subscription × List Ttlsub → Type 0
IsExpired cid now subs ts res =
    IsSorted res.0
    × All (λ u. now < u.ttl) res.1
    × ((r : List ℕ) (c : ℕ)
        → subscribed res.0 r c ≡ (not ((cid == c) && ends now ts r) && subscribed subs r c))

expire-IsExpired :
    (cid now : ℕ) (subs : List Subscription) (ts : List Ttlsub)
    → IsSorted subs
    → IsAscending ts
    → IsExpired cid now subs ts (expire cid now subs ts)
unfolding expire ends
expire-IsExpired cid now subs [] w a = (w, tt, λ r c. ground arith)
expire-IsExpired cid now subs (t ∷ ts) w a = elim (Bool-cases (leb t.ttl now)) [
  | inl y ↦
      let (_, gone, w') = unsubscribe-IsUnsubscribed subs t.ri cid w in
      let (w'', later, rest) = expire-IsExpired cid now (unsubscribe subs t.ri cid).1 ts w' a.1 in
      rw y (w'', later, λ r c. ground (arith, rest r c, gone r c))
  | inr n ↦ rw n (
    w,
    (ground arith, All-later now t ts n a.0),
    λ r c. ground (arith, ends_later now t ts r n a.0),
  )
]

-- When the lock is free, the subscriptions are in order and the array is in the order of the times,
-- rpc_idle comes to an end and gives the lock back. The client is then subscribed to no resource
-- identifier of the array whose time has come, every other subscription is as before, and all that
-- is left in the array ends later.
pub rpc_idle-IsExpired :
    (b : Broker) (cid now : ℕ) (ts : List Ttlsub)
    → b.nolock ≡ false
    → b.locked ≡ false
    → IsSorted b.subscriptions
    → IsAscending ts
    → (time : ℤ) × (after : Broker) × (left : List Ttlsub) × (rpc_idle b cid now ts
        ≡ some (time, after, left))
      × (after.locked ≡ false)
      × IsExpired cid now b.subscriptions ts (after.subscriptions, left)
unfolding rpc_idle broker_unlock
rpc_idle-IsExpired b cid now ts n l w a =
    let res = expire cid now b.subscriptions ts in
    let b' : Broker = record b { locked = true; subscriptions = res.0 } in
    let unlocked : broker_unlock b' ≡ record b' { locked = false } = rw (broker_unlock, n) refl in
    (
      idle_time now res.1,
      record b' { locked = false },
      res.1,
      rw (rpc_idle, broker_lock-free b n l, unlocked) refl,
      refl,
      expire-IsExpired cid now b.subscriptions ts w a,
    )
