-- ===== src/Broker/Signal/Delivery.antt =====
-- The packers of libshvbroker/multipack.c, and the locks of libshvbroker/signal.c.
use shvc.Base.{ℕ, zero, suc, ◌+◌, ◌*◌, Bool, true, false, ◌&&◌, ◌||◌, leb, ltb, ◌==◌}
use shvc.Base.{
  if◌then◌else◌, Bool-cases, Option-cases, Option, none, some, List, [], ◌∷◌, length, All,
}
use shvc.Base.{◌≡◌, refl, sym, ap, ◌∙◌, inl, inr, arith}
use shvc.Broker.Nbool.{NboolT, words, nbool}
use shvc.Broker.State.{Broker, broker_lock, pointer_at, null, live, dangling}
use shvc.Broker.Signal.{Action, msg_send, msg_drop, waits, handler_at, role_at, may_receive}
use shvc.Broker.Signal.{Access, for_nbool_from, for_nbool, Multipack, multipack_init, pack_func}
use shvc.Broker.Signal.{pack_all, multipack_done, Sigctx, init_signal, done_signal}
use shvc.Broker.Signal.{signal_destinations, rpcbroker_send_signal_void}
use shvc.Broker.Signal.Choice.{nbool_bound, IsAnswered, signal_destinations-wants}

unfoldable pub elem : ℕ → List ℕ → Bool
elem j [] = false
elem j (i ∷ is) = i == j || elem j is

elem-for_nbool_from :
    (n : ℕ) (v : NboolT) (i j : ℕ)
    → elem j (for_nbool_from n v i) ≡ (nbool v j && (leb i j && ltb j (i + n)))
unfolding elem for_nbool_from
elem-for_nbool_from zero v i j = ground arith
elem-for_nbool_from (suc n) v i j =
    let same : i ≡ j → nbool v i ≡ nbool v j = λ e. ap (nbool v) e in
    ground (arith, elem-for_nbool_from n v (suc i) j, same)

-- `for_nbool` visits exactly the members of the set.
pub elem-for_nbool : (v : NboolT) (j : ℕ) → elem j (for_nbool v) ≡ nbool v j
unfolding for_nbool
elem-for_nbool v j =
    ground (arith, elem-for_nbool_from (length (words v) * 32) v 0 j, nbool_bound v j)

-- The packer takes every item.
unfoldable pub takes_all : List (ℕ → Bool) → ℕ → Bool
takes_all [] h = true
takes_all (takes ∷ items) h = takes h && takes_all items h

-- The handlers of the clients of these IDs, of which each is in the table.
abbrev pub AreHandlers : Broker → List ℕ → List ℕ → Type 0
AreHandlers b [] [] = Unit {0}
AreHandlers b [] (h ∷ hs) = ⊥
AreHandlers b (cid ∷ cids) [] = ⊥
AreHandlers b (cid ∷ cids) (h ∷ hs) = (handler_at b cid ≡ some h) × AreHandlers b cids hs

-- What happens to a message for each of its destinations, whose handlers were the first ones when it
-- was begun, and are the second ones when it is done.
unfoldable pub delivered : List (ℕ → Bool) → Bool → List ℕ → List ℕ → List Action
delivered items send [] hs' = []
delivered items send (h ∷ hs) [] = []
delivered items send (h ∷ hs) (h' ∷ hs') =
    (if takes_all items h && send then msg_send h' else msg_drop h') ∷ delivered items send hs hs'

-- The packers that have taken everything.
unfoldable packers : (ℕ → Bool) → List ℕ → Multipack
packers took [] = []
packers took (h ∷ hs) = (if took h then some h else none) ∷ packers took hs

packers-cong : (p q : ℕ → Bool) (hs : List ℕ) → ((h : ℕ) → p h ≡ q h) → packers p hs ≡ packers q hs
unfolding packers
packers-cong p q [] e = refl
packers-cong p q (h ∷ hs) e = rw (e h, packers-cong p q hs e) refl

pack_func-packers :
    (takes p : ℕ → Bool) (hs : List ℕ)
    → (pack_func takes (packers p hs)).1 ≡ packers (λ h. p h && takes h) hs
unfolding pack_func packers
pack_func-packers takes p [] = refl
pack_func-packers takes p (h ∷ hs) = elim (Bool-cases (p h)) [
  | inr n ↦ rw n (ap (λ packs. none ∷ packs) (pack_func-packers takes p hs))
  | inl y ↦ elim (Bool-cases (takes h)) [
    | inl t ↦ rw (y, t) (ap (λ packs. some h ∷ packs) (pack_func-packers takes p hs))
    | inr f ↦ rw (y, f) (ap (λ packs. none ∷ packs) (pack_func-packers takes p hs))
  ]
]

pack_all-packers :
    (items : List (ℕ → Bool)) (p : ℕ → Bool) (hs : List ℕ)
    → pack_all items (packers p hs) ≡ packers (λ h. p h && takes_all items h) hs
unfolding pack_all takes_all
pack_all-packers [] p hs = packers-cong p (λ h. p h && true) hs (λ h. ground arith)
pack_all-packers (takes ∷ items) p hs =
    ap (pack_all items) (pack_func-packers takes p hs)
    ∙ pack_all-packers items (λ h. p h && takes h) hs
    ∙ packers-cong _ (λ h. p h && (takes h && takes_all items h)) hs (λ h. ground arith)

multipack_init-packers :
    (b : Broker) (cids hs : List ℕ)
    → AreHandlers b cids hs
    → multipack_init b cids ≡ some (packers (λ h. true) hs)
unfolding multipack_init packers
multipack_init-packers b [] [] w = refl
multipack_init-packers b [] (h ∷ hs) w = absurd w
multipack_init-packers b (cid ∷ cids) [] w = absurd w
multipack_init-packers b (cid ∷ cids) (h ∷ hs) w =
    rw (multipack_init, w.0, multipack_init-packers b cids hs w.1) refl

multipack_done-packers :
    (b : Broker) (items : List (ℕ → Bool)) (send : Bool) (cids hs hs' : List ℕ)
    → length hs ≡ length cids
    → AreHandlers b cids hs'
    → multipack_done b cids (packers (takes_all items) hs) send ≡ some (delivered items send hs hs')
unfolding multipack_done packers delivered
multipack_done-packers b items send [] [] hs' e w = refl
multipack_done-packers b items send [] (h ∷ hs) hs' e w = absurd (omega arith)
multipack_done-packers b items send (cid ∷ cids) [] hs' e w = absurd (omega arith)
multipack_done-packers b items send (cid ∷ cids) (h ∷ hs) [] e w = absurd w
multipack_done-packers b items send (cid ∷ cids) (h ∷ hs) (h' ∷ hs') e w =
    let rest = multipack_done-packers b items send cids hs hs' (omega arith) w.1 in
    elim (Bool-cases (takes_all items h)) [
      | inl y ↦ rw (multipack_done, w.0, rest, y) refl
      | inr n ↦ rw (multipack_done, w.0, rest, n) refl
    ]

length-AreHandlers :
    (b : Broker) (cids hs : List ℕ) → AreHandlers b cids hs → length hs ≡ length cids
length-AreHandlers b [] [] w = refl
length-AreHandlers b [] (h ∷ hs) w = absurd w
length-AreHandlers b (cid ∷ cids) [] w = absurd w
length-AreHandlers b (cid ∷ cids) (h ∷ hs) w = omega (arith, length-AreHandlers b cids hs w.1)

-- Where each destination is a client of the broker, both when the message is begun and when it is
-- done, multipack_init gives packers, and after all items multipack_done takes the destinations in
-- their order: for each it sends the message through the handler that the client has then, exactly if
-- the message is to be sent and the packer of this destination took every item, and else drops it
-- there.
pub multipack_done-pack_all :
    (b after : Broker) (cids hs hs' : List ℕ) (items : List (ℕ → Bool)) (send : Bool)
    → AreHandlers b cids hs
    → AreHandlers after cids hs'
    → (packs : Multipack) × (multipack_init b cids ≡ some packs)
      × (multipack_done after cids (pack_all items packs) send ≡ some (delivered items send hs hs'))
multipack_done-pack_all b after cids hs hs' items send w w' = (
  packers (λ h. true) hs,
  multipack_init-packers b cids hs w,
  ap (λ packs. multipack_done after cids packs send)
        (pack_all-packers items (λ h. true) hs
          ∙ packers-cong _ (takes_all items) hs (λ h. ground arith))
      ∙ multipack_done-packers after items send cids hs hs' (length-AreHandlers b cids hs w) w',
)

-- A client that may receive something is in the table.
may_receive-handler_at :
    (role_access : Access) (b : Broker) (path source : List ℕ) (access cid : ℕ)
    → may_receive role_access b path source access cid ≡ true
    → (h : ℕ) × (handler_at b cid ≡ some h)
unfolding may_receive role_at handler_at
may_receive-handler_at role_access b path source access cid m =
    elim (Option-cases (pointer_at b.slots cid)) [
      | inl e ↦ absurd (ground (arith, e))
      | inr (null, e) ↦ absurd (ground (arith, e))
      | inr (dangling, e) ↦ absurd (ground (arith, e))
      | inr (live c, e) ↦ (c.handler, rw (handler_at, e) refl)
    ]

all_handled :
    (b : Broker) (cids : List ℕ)
    → ((j : ℕ) → elem j cids ≡ true → (h : ℕ) × (handler_at b j ≡ some h))
    → (hs : List ℕ) × AreHandlers b cids hs
unfolding elem
all_handled b [] k = ([], tt)
all_handled b (cid ∷ cids) k =
    let (h, e) = k cid (ground arith) in
    let (hs, w) = all_handled b cids (λ j m. k j (ground arith)) in (h ∷ hs, (e, w))

-- The destinations of a signal are in the table.
pub destinations-AreHandlers :
    (role_access : Access) (b : Broker) (path source signal : List ℕ) (access : ℕ) (d : NboolT)
    → All (IsAnswered path source signal) b.subscriptions
    → signal_destinations role_access b path source signal access ≡ some d
    → (hs : List ℕ) × AreHandlers b (for_nbool d) hs
destinations-AreHandlers role_access b path source signal access d answered e =
    let (d', e', members) =
      signal_destinations-wants role_access b path source signal access answered in
    let same : d' ≡ d = cc in
    all_handled b (for_nbool d) (λ j m.
      let member : nbool d' j ≡ true = rw same (sym (elem-for_nbool d j) ∙ m) in
      may_receive-handler_at role_access b path source access j (ground (arith, members j, member)))

pub broker_lock-free :
    (b : Broker)
    → b.nolock ≡ false
    → b.locked ≡ false
    → broker_lock b ≡ some (record b { locked = true })
unfolding broker_lock
broker_lock-free b n l = rw (broker_lock, n, l) refl

pub broker_lock-taken : (b : Broker) → b.nolock ≡ false → b.locked ≡ true → broker_lock b ≡ none
unfolding broker_lock
broker_lock-taken b n l = rw (broker_lock, n, l) refl

-- What `init` of signal.c gives when there is a destination.
init_signal-some :
    (role_access : Access) (b : Broker) (path source signal : List ℕ) (access : ℕ) (vals : List ℕ)
    → signal_destinations role_access b path source signal access ≡ some (some vals)
    → init_signal role_access b path source signal access
      ≡ elim (multipack_init b (for_nbool (some vals))) as (λ _. Option (Option Sigctx)) [
        | none ↦ none
        | some packs ↦ some (some (record { destinations = some vals; multipack = packs }))
      ]
unfolding init_signal
init_signal-some role_access b path source signal access vals d = rw (init_signal, d) refl

-- Where the lock is free, the matching of every resource identifier ends with an answer and the signal
-- has a destination, rpcbroker_send_signal_void waits forever: `done` takes the lock that the function
-- already has.
pub send_signal_void_waits :
    (role_access : Access) (b : Broker) (path source signal : List ℕ) (access : ℕ)
    → (items : List (ℕ → Bool)) (vals : List ℕ) → b.nolock ≡ false
    → b.locked ≡ false
    → All (IsAnswered path source signal) b.subscriptions
    → signal_destinations role_access (record b { locked = true }) path source signal access
      ≡ some (some vals)
    → rpcbroker_send_signal_void role_access b path source signal access items ≡ waits
unfolding done_signal rpcbroker_send_signal_void
send_signal_void_waits role_access b path source signal access items vals n l answered d =
    let b' : Broker = record b { locked = true } in
    let again : broker_lock b' ≡ none = broker_lock-taken b' n refl in
    let begun = init_signal-some role_access b' path source signal access vals d in
    let (hs, w) =
      destinations-AreHandlers role_access b' path source signal access (some vals) answered d in
    let e = multipack_init-packers b' (for_nbool (some vals)) hs w in
    rw (rpcbroker_send_signal_void, broker_lock-free b n l, begun, e, again) refl
