-- ===== src/Broker/Signal.antt =====
-- libshvbroker/multipack.c and libshvbroker/signal.c: signals, and whom they are sent to.
--
-- The callback `access` of a role is a parameter. A packer of a handler is the handler, and which
-- packers take an item is a parameter.
pub mod Choice
pub mod Delivery
mod Runs
use shvc.Base.{ℕ, zero, suc, ◌+◌, ◌*◌, Bool, true, false, not, ◌&&◌, ◌||◌, ltb, if◌then◌else◌}
use shvc.Base.{Option, none, some, List, [], ◌∷◌, length, ℤ, pos}
use shvc.Rpcri.{Verdict, accepted, rejected, read_beyond, no_fuel}
use shvc.Rpcri.Identifier.{rpcri_match}
use shvc.Broker.Nbool.{NboolT, nbool_n, valid_index, words, nbool, nbool_or, nbool_clear}
use shvc.Broker.Subscription.{Subscription}
use shvc.Broker.State.{Role, Pointer, null, live, dangling, Broker, pointer_at, cid_active}
use shvc.Broker.State.{broker_lock, broker_unlock}

-- What a role's callback `access` says of a path and a method.
abbrev pub Access : Type 0
Access = Role → List ℕ → List ℕ → ℕ

-- `broker->clients[cid]->role`, if there is one.
unfoldable pub role_at : Broker → ℕ → Option Role
unfolding pointer_at
role_at b cid = elim (pointer_at b.slots cid) as (λ _. Option Role) [
  | none ↦ none
  | some p ↦ elim p as (λ _. Option Role) [ live c ↦ c.role | null ↦ none | dangling ↦ none ]
]

-- The first loop of signal_destinations. None is a read behind the end of a string.
unfoldable pub or_matching : List Subscription → List ℕ → List ℕ → List ℕ → NboolT → Option NboolT
or_matching [] path source signal res = some res
or_matching (sub ∷ subs) path source signal res =
    elim (rpcri_match sub.ri path source (some signal)) as (λ _. Option NboolT) [
      | accepted ↦ or_matching subs path source signal (nbool_or res sub.clients)
      | rejected ↦ or_matching subs path source signal res
      | read_beyond ↦ none
      | no_fuel ↦ none
    ]

-- The client is there, and its role's access to the source is enough.
unfoldable pub may_receive : Access → Broker → List ℕ → List ℕ → ℕ → ℕ → Bool
unfolding cid_active role_at
may_receive role_access b path source access cid =
    cid_active b (pos cid) && elim (role_at b cid) as (λ _. Bool) [
      | none ↦ false
      | some r ↦ not (ltb (role_access r path source) access)
    ]

-- The second loop, from a client ID on. The set gets shorter while the loop runs.
unfoldable pub clear_loop : ℕ → (ℕ → Bool) → ℕ → NboolT → NboolT
clear_loop zero keep cid res = res
clear_loop (suc fuel) keep cid res =
    let next = if nbool res cid && not (keep cid) then nbool_clear res cid else res in
    let rest = clear_loop fuel keep (suc cid) next in if valid_index res cid then rest else res

-- signal_destinations.
unfoldable pub signal_destinations : Access → Broker → List ℕ → List ℕ → List ℕ → ℕ → Option NboolT
signal_destinations role_access b path source signal access =
    elim (or_matching b.subscriptions path source signal none) as (λ _. Option NboolT) [
      | none ↦ none
      | some res ↦ some (
          clear_loop (length (words res) * nbool_n) (may_receive role_access b path source access) 0
            res)
    ]

-- `for_nbool`: the client IDs of the set from one on.
unfoldable pub for_nbool_from : ℕ → NboolT → ℕ → List ℕ
for_nbool_from zero v i = []
for_nbool_from (suc n) v i =
    let rest = for_nbool_from n v (suc i) in if nbool v i then i ∷ rest else rest

unfoldable pub for_nbool : NboolT → List ℕ
unfolding for_nbool_from
for_nbool v = for_nbool_from (length (words v) * nbool_n) v 0

-- `broker->clients[cid]->handler`; none where the table has no client.
unfoldable pub handler_at : Broker → ℕ → Option ℕ
unfolding pointer_at
handler_at b cid = elim (pointer_at b.slots cid) as (λ _. Option ℕ) [
  | none ↦ none
  | some p ↦ elim p as (λ _. Option ℕ) [ live c ↦ some c.handler | null ↦ none | dangling ↦ none ]
]

-- struct multipack: the packers, of which one that failed is NULL.
abbrev pub Multipack : Type 0
Multipack = List (Option ℕ)

-- multipack_init, for the client IDs of a set. None is the use of a pointer that is not to a client.
unfoldable pub multipack_init : Broker → List ℕ → Option Multipack
unfolding handler_at
multipack_init b [] = some []
multipack_init b (cid ∷ cids) = elim (handler_at b cid) as (λ _. Option Multipack) [
  | none ↦ none
  | some h ↦ elim (multipack_init b cids) as (λ _. Option Multipack) [
    | none ↦ none
    | some packs ↦ some (some h ∷ packs)
  ]
]

-- pack_func for one item, which the packers in `takes` take.
unfoldable pub pack_func : (ℕ → Bool) → Multipack → Bool × Multipack
pack_func takes [] = (false, [])
pack_func takes (none ∷ packs) = let (res, packs') = pack_func takes packs in (res, none ∷ packs')
pack_func takes (some h ∷ packs) =
    let (res, packs') = pack_func takes packs in
    if takes h then (true, some h ∷ packs') else (res, none ∷ packs')

-- The items of a message, one after the other, and what each packer takes of them.
unfoldable pub pack_all : List (ℕ → Bool) → Multipack → Multipack
unfolding pack_func
pack_all [] packs = packs
pack_all (takes ∷ items) packs = pack_all items (pack_func takes packs).1

-- What multipack_done calls for a handler.
pub data Action : Type 0 where
  msg_send msg_drop : ℕ → Action

abbrev pub has_packer : Option ℕ → Bool
has_packer none = false
has_packer (some h) = true

-- multipack_done, for the client IDs of a set: what it does, in order. None is the use of a pointer
-- that is not to a client, or of a packer behind the last one.
unfoldable pub multipack_done : Broker → List ℕ → Multipack → Bool → Option (List Action)
multipack_done b [] packs send = some []
multipack_done b (cid ∷ cids) [] send = none
multipack_done b (cid ∷ cids) (pack ∷ packs) send =
    let rest = multipack_done b cids packs send in
    elim (handler_at b cid) as (λ _. Option (List Action)) [
      | none ↦ none
      | some h ↦ elim rest as (λ _. Option (List Action)) [
        | none ↦ none
        | some actions ↦
            some ((if has_packer pack && send then msg_send h else msg_drop h) ∷ actions)
      ]
    ]

-- How a call goes: it returns, it waits for the lock forever, or it uses memory that is not the
-- program's.
pub data Run (A : Type 0) : Type 0 where
  returned : A → Run A
  waits undefined : Run A

-- struct sigctx.
pub record Sigctx : Type 0 where
  pub destinations : NboolT
  pub multipack : Multipack

-- `init` of signal.c: NULL, or the context. None is as for signal_destinations and multipack_init, a
-- use of memory that is not the program's.
unfoldable pub init_signal : Access → Broker → List ℕ → List ℕ → List ℕ → ℕ → Option (Option Sigctx)
init_signal role_access b path source signal access =
    elim (signal_destinations role_access b path source signal access)
      as (λ _. Option (Option Sigctx)) [
        | none ↦ none
        | some dest ↦ elim dest as (λ _. Option (Option Sigctx)) [
          | none ↦ some none
          | some vals ↦
              elim (multipack_init b (for_nbool (some vals))) as (λ _. Option (Option Sigctx)) [
                | none ↦ none
                | some packs ↦ some (some (record { destinations = some vals; multipack = packs }))
              ]
        ]
      ]

-- rpcbroker_new_signal; `items` is what the packers take of rpcmsg_pack_signal.
unfoldable pub rpcbroker_new_signal :
    Access → Broker → List ℕ → List ℕ → List ℕ → ℕ → List (ℕ → Bool) → Run (Option Sigctx × Broker)
rpcbroker_new_signal role_access b path source signal access items =
    elim (broker_lock b) as (λ _. Run (Option Sigctx × Broker)) [
      | none ↦ waits
      | some b' ↦
          elim (init_signal role_access b' path source signal access)
            as (λ _. Run (Option Sigctx × Broker)) [
              | none ↦ undefined
              | some o ↦ elim o as (λ _. Run (Option Sigctx × Broker)) [
                | none ↦ returned (none, broker_unlock b')
                | some ctx ↦ returned (
                  some (record ctx { multipack = pack_all items ctx.multipack }),
                  broker_unlock b',
                )
              ]
            ]
    ]

-- `done` of signal.c, with the clients that the broker has by then: what multipack_done does.
unfoldable pub done_signal : Broker → Sigctx → Bool → Run (List Action × Broker)
done_signal b ctx val = elim (broker_lock b) as (λ _. Run (List Action × Broker)) [
  | none ↦ waits
  | some b' ↦
      elim (multipack_done b' (for_nbool ctx.destinations) ctx.multipack val)
        as (λ _. Run (List Action × Broker)) [
          | none ↦ undefined
          | some actions ↦ returned (actions, broker_unlock b')
        ]
]

-- rpcbroker_send_signal; `takes` is what the packers take of the message's end.
unfoldable pub rpcbroker_send_signal : Broker → Sigctx → (ℕ → Bool) → Run (List Action × Broker)
rpcbroker_send_signal b ctx takes =
    done_signal b (record ctx { multipack = pack_all (takes ∷ []) ctx.multipack }) true

-- rpcbroker_drop_signal.
unfoldable pub rpcbroker_drop_signal : Broker → Sigctx → Run (List Action × Broker)
rpcbroker_drop_signal b ctx = done_signal b ctx false

-- rpcbroker_send_signal_void.
unfoldable pub rpcbroker_send_signal_void :
    Access → Broker → List ℕ → List ℕ → List ℕ → ℕ → List (ℕ → Bool) → Run (List Action × Broker)
rpcbroker_send_signal_void role_access b path source signal access items =
    elim (broker_lock b) as (λ _. Run (List Action × Broker)) [
      | none ↦ waits
      | some b' ↦
          elim (init_signal role_access b' path source signal access)
            as (λ _. Run (List Action × Broker)) [
              | none ↦ undefined
              | some o ↦ elim o as (λ _. Run (List Action × Broker)) [
                | none ↦ returned ([], broker_unlock b')
                | some ctx ↦
                    elim (done_signal b' (record ctx { multipack = pack_all items ctx.multipack })
                        true)
                      as (λ _. Run (List Action × Broker)) [
                        | waits ↦ waits
                        | undefined ↦ undefined
                        | returned r ↦ returned (r.0, broker_unlock r.1)
                      ]
              ]
            ]
    ]
