-- ===== src/Broker/Stages/Rpc.antt =====
-- libshvbroker/rpc_stage.c.
use shvc.Base.{ℕ, ◌-◌, ◌*◌, Bool, not, leb, min}
use shvc.Base.{if◌then◌else◌, Option, none, some, List, [], ◌∷◌, ◌++◌, ℤ, pos, negsuc}
use shvc.Broker.Subscription.{Subscription, unsubscribe, unsubscribe_all}
use shvc.Broker.State.{Role, Client, null, live, dangling, Broker, pointer_at}
use shvc.Broker.State.{broker_lock, broker_unlock, to_int, cid_valid, slash}
use shvc.Broker.Mount.{Target, nobody, client, out_of_bounds, mounted_client}
use shvc.Broker.Signal.{Access, role_at, signal_destinations, for_nbool, multipack_init}
use shvc.Broker.Signal.{pack_all, multipack_done}
use shvc.Broker.Stages.{
  RpcmsgMeta, Outcome, is_request, idle_skip, invalid, request, request_abort, response,
  response_delay, error, signal, skip, handled, fault, forwarded, dropped, signalled,
}

-- `;` and `:`.
abbrev pub user_separator : ℕ
user_separator = 0x3B

abbrev pub name_separator : ℕ
name_separator = 0x3A

abbrev pub text : Option (List ℕ) → List ℕ
text none = []
text (some s) = s

-- The user's ID, with the client's user and the broker's name behind it.
unfoldable pub add_user : Option (List ℕ) → Option (List ℕ) → List ℕ → List ℕ
add_user username name user_id =
    (elim user_id as (λ _. List ℕ) [ [] ↦ [] | c ∷ cs ↦ (c ∷ cs) ++ user_separator ∷ [] ])
    ++ text username
    ++ (elim username as (λ _. List ℕ) [
      | none ↦ []
      | some u ↦ elim name as (λ _. List ℕ) [ none ↦ [] | some n ↦ name_separator ∷ [] ]
    ])
    ++ text name

-- propagate_msg; `valid` is rpchandler_msg_valid.
unfoldable pub propagate_msg : Bool → Broker → Client → RpcmsgMeta → Outcome × Broker
propagate_msg valid b c meta =
    (if valid then forwarded c.handler meta else dropped c.handler, broker_unlock b)

-- The head of a request that is sent on.
unfoldable pub forward_meta :
    ℕ → Option (List ℕ) → Option (List ℕ) → List ℕ → RpcmsgMeta → RpcmsgMeta
forward_meta cid username name rpath meta = record meta {
  path = rpath;
  cids = meta.cids ++ (pos cid ∷ []);
  user_id = elim meta.user_id as (λ _. Option (List ℕ)) [
    | none ↦ none
    | some u ↦ some (add_user username name u)
  ];
}

-- rpc_msg_request behind the broker's own methods, with the lock taken.
unfoldable pub forward_request :
    Bool → Broker → ℕ → Option (List ℕ) → Option (List ℕ) → RpcmsgMeta → Target → Outcome × Broker
forward_request valid b cid username name meta nobody = (skip, broker_unlock b)
forward_request valid b cid username name meta out_of_bounds = (fault, b)
forward_request valid b cid username name meta (client null rpath) = (skip, broker_unlock b)
forward_request valid b cid username name meta (client dangling rpath) = (fault, b)
forward_request valid b cid username name meta (client (live c) rpath) =
    propagate_msg valid b c (forward_meta cid username name rpath meta)

-- rpc_msg_request of the client of this ID. `api` is what rpcbroker_api_msg leaves of the state, if
-- it handles the message. None is a wait for the lock forever.
unfoldable pub rpc_msg_request :
    (List ℕ → ℤ × List ℕ)
    → (Broker → RpcmsgMeta → Option Broker)
    → Bool
    → Broker
    → ℕ
    → Option (List ℕ)
    → Option (List ℕ)
    → RpcmsgMeta
    → Option (Outcome × Broker)
rpc_msg_request strtol api valid b cid username name meta =
    let here = if is_request meta.type then api b meta else none in
    elim here as (λ _. Option (Outcome × Broker)) [
      | some b' ↦ some (handled, b')
      | none ↦ elim (broker_lock b) as (λ _. Option (Outcome × Broker)) [
        | none ↦ none
        | some b' ↦
            some
              (forward_request valid b' cid username name meta (mounted_client strtol b' meta.path))
      ]
    ]

-- The last of the client IDs, and those before it.
unfoldable pub pop_cid : List ℤ → Option (ℤ × List ℤ)
pop_cid [] = none
pop_cid (i ∷ is) = elim (pop_cid is) as (λ _. Option (ℤ × List ℤ)) [
  | none ↦ some (i, [])
  | some r ↦ some (r.0, i ∷ r.1)
]

-- The client that a response goes to. The test of its ID takes an `int`, the table an `intmax_t`.
unfoldable pub forward_response : Bool → Broker → RpcmsgMeta → ℤ → List ℤ → Outcome × Broker
forward_response valid b meta (negsuc n) rest = (fault, b)
forward_response valid b meta (pos n) rest =
    elim (pointer_at b.slots n) as (λ _. Outcome × Broker) [
      | none ↦ (fault, b)
      | some p ↦ elim p as (λ _. Outcome × Broker) [
        | live c ↦ propagate_msg valid b c (record meta { cids = rest })
        | null ↦ (fault, b)
        | dangling ↦ (fault, b)
      ]
    ]

-- rpc_msg_response.
unfoldable pub rpc_msg_response : Bool → Broker → RpcmsgMeta → Option (Outcome × Broker)
rpc_msg_response valid b meta = elim (broker_lock b) as (λ _. Option (Outcome × Broker)) [
  | none ↦ none
  | some b' ↦ elim (pop_cid meta.cids) as (λ _. Option (Outcome × Broker)) [
    | none ↦ some (skip, broker_unlock b')
    | some last ↦ some (
        if not (cid_valid b' (to_int last.0))
        then (skip, broker_unlock b')
        else forward_response valid b' meta last.0 last.1)
  ]
]

-- The mount point of a client's role.
unfoldable pub mount_point_of : Option Role → Option (List ℕ)
mount_point_of none = none
mount_point_of (some r) = r.mount_point

-- The path of a signal as the broker's clients see it.
unfoldable pub full_path : List ℕ → List ℕ → List ℕ
full_path mount_point [] = mount_point
full_path mount_point (c ∷ path) = mount_point ++ slash ∷ c ∷ path

-- The part of rpc_msg_signal that sends.
unfoldable pub send_signal : List (ℕ → Bool) → Bool → Broker → RpcmsgMeta → List ℕ → Outcome
send_signal items valid b meta dest = elim (multipack_init b dest) as (λ _. Outcome) [
  | none ↦ fault
  | some packs ↦ elim (multipack_done b dest (pack_all items packs) valid) as (λ _. Outcome) [
    | none ↦ fault
    | some actions ↦ signalled actions meta
  ]
]

-- rpc_msg_signal of the client of this ID, which takes the lock; `items` is what the packers take.
unfoldable pub rpc_msg_signal :
    Access → List (ℕ → Bool) → Bool → Broker → ℕ → RpcmsgMeta → Option (Outcome × Broker)
rpc_msg_signal role_access items valid b cid meta =
    elim (broker_lock b) as (λ _. Option (Outcome × Broker)) [
      | none ↦ none
      | some b' ↦ elim (mount_point_of (role_at b' cid)) as (λ _. Option (Outcome × Broker)) [
        | none ↦ some (skip, b')
        | some mount_point ↦
            let meta' = record meta { path = full_path mount_point meta.path } in
            elim (signal_destinations role_access b' meta'.path meta.source meta.name meta.access)
              as (λ _. Option (Outcome × Broker)) [
                | none ↦ some (fault, b')
                | some dest ↦ elim dest as (λ _. Option (Outcome × Broker)) [
                  | none ↦ some (skip, b')
                  | some vals ↦ some (send_signal items valid b' meta' (for_nbool (some vals)), b')
                ]
              ]
      ]
    ]

-- rpc_msg.
unfoldable pub rpc_msg :
    Access
    → (List ℕ → ℤ × List ℕ)
    → (Broker → RpcmsgMeta → Option Broker)
    → List (ℕ → Bool)
    → Bool
    → Broker
    → ℕ
    → Option (List ℕ)
    → Option (List ℕ)
    → RpcmsgMeta
    → Option (Outcome × Broker)
rpc_msg role_access strtol api items valid b cid username name meta =
    elim meta.type as (λ _. Option (Outcome × Broker)) [
      | invalid ↦ some (skip, b)
      | request ↦ rpc_msg_request strtol api valid b cid username name meta
      | request_abort ↦ rpc_msg_request strtol api valid b cid username name meta
      | response ↦ rpc_msg_response valid b meta
      | response_delay ↦ rpc_msg_response valid b meta
      | error ↦ rpc_msg_response valid b meta
      | signal ↦ rpc_msg_signal role_access items valid b cid meta
    ]

-- struct ttlsub.
pub record Ttlsub : Type 0 where
  pub ri : List ℕ
  pub ttl : ℕ

-- The loop of rpc_idle, with the array as ARR_DROP leaves it.
unfoldable pub expire : ℕ → ℕ → List Subscription → List Ttlsub → List Subscription × List Ttlsub
expire cid now subs [] = (subs, [])
expire cid now subs (t ∷ ts) =
    let rest = expire cid now (unsubscribe subs t.ri cid).1 ts in
    if leb t.ttl now then rest else (subs, t ∷ ts)

-- The milliseconds to the first end of a subscription, in an `int`.
unfoldable pub idle_time : ℕ → List Ttlsub → ℤ
idle_time now [] = pos idle_skip
idle_time now (t ∷ ts) = elim (to_int (pos ((t.ttl - now) * 1000))) as (λ _. ℤ) [
  | pos ms ↦ pos (min ms idle_skip)
  | negsuc ms ↦ negsuc ms
]

-- rpc_idle.
unfoldable pub rpc_idle : Broker → ℕ → ℕ → List Ttlsub → Option (ℤ × Broker × List Ttlsub)
rpc_idle b cid now ttlsubs = elim (broker_lock b) as (λ _. Option (ℤ × Broker × List Ttlsub)) [
  | none ↦ none
  | some b' ↦
      let (subs, left) = expire cid now b'.subscriptions ttlsubs in
      some (idle_time now left, broker_unlock (record b' { subscriptions = subs }), left)
]

-- rpc_reset, and the array of ttlsubs that it leaves.
unfoldable pub rpc_reset : Broker → ℕ → Option (Broker × List Ttlsub)
rpc_reset b cid = elim (broker_lock b) as (λ _. Option (Broker × List Ttlsub)) [
  | none ↦ none
  | some b' ↦
      some (broker_unlock (record b' { subscriptions = unsubscribe_all b'.subscriptions cid }), [])
]
