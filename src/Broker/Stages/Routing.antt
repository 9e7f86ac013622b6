-- ===== src/Broker/Stages/Routing.antt =====
-- Requests and responses of libshvbroker/rpc_stage.c: a response finds its way back.
use shvc.Base.{ℕ, ◌^◌, ◌<◌, ◌%◌, Bool, true, false, if◌then◌else◌, Bool-cases}
use shvc.Base.{Option, none, some, Option-cases, List, [], ◌∷◌, ◌++◌, ℤ, pos}
use shvc.Base.{◌≡◌, refl, sym, ap, ◌∙◌, inl, inr, arith}
use shvc.Broker.State.{Client, null, live, dangling, Broker, pointer_at, cid_valid, to_int}
use shvc.Broker.State.{broker_lock, broker_unlock, is_null}
use shvc.Broker.Mount.{Target, nobody, client, out_of_bounds, mounted_client}
use shvc.Broker.Signal.Delivery.{broker_lock-free, broker_lock-taken}
use shvc.Broker.Stages.{RpcmsgMeta, Outcome, skip, handled, fault, forwarded, dropped, signalled}
use shvc.Broker.Stages.{is_request}
use shvc.Broker.Stages.Rpc.{propagate_msg, forward_meta, forward_request, rpc_msg_request, pop_cid}
use shvc.Broker.Stages.Rpc.{forward_response, rpc_msg_response}

pop_cid-append : (is : List ℤ) (i : ℤ) → pop_cid (is ++ (i ∷ [])) ≡ some (i, is)
unfolding pop_cid
pop_cid-append [] i = refl
pop_cid-append (j ∷ is) i = rw (pop_cid-append is i) refl

cids_of : Outcome → List ℤ
cids_of (forwarded h m) = m.cids
cids_of skip = []
cids_of handled = []
cids_of fault = []
cids_of (dropped h) = []
cids_of (signalled hs m) = []

-- The message that a request is sent on as.
forward_request-cids :
    (valid : Bool) (b : Broker) (cid : ℕ) (username name : Option (List ℕ)) (meta : RpcmsgMeta)
    → (t : Target) (handler : ℕ) (sent : RpcmsgMeta) (after : Broker)
    → forward_request valid b cid username name meta t ≡ (forwarded handler sent, after)
    → (sent.cids ≡ meta.cids ++ (pos cid ∷ [])) × (after ≡ broker_unlock b)
unfolding forward_request propagate_msg forward_meta cids_of
forward_request-cids valid b cid username name meta nobody handler sent after e =
    absurd (let e' : skip ≡ forwarded handler sent = ap (λ t. t.0) e in cc)
forward_request-cids valid b cid username name meta out_of_bounds handler sent after e =
    absurd (let e' : fault ≡ forwarded handler sent = ap (λ t. t.0) e in cc)
forward_request-cids valid b cid username name meta (client null r) handler sent after e =
    absurd (let e' : skip ≡ forwarded handler sent = ap (λ t. t.0) e in cc)
forward_request-cids valid b cid username name meta (client dangling r) handler sent after e =
    absurd (let e' : fault ≡ forwarded handler sent = ap (λ t. t.0) e in cc)
forward_request-cids true b cid username name meta (client (live c) r) handler sent after e =
    (sym (ap (λ t. cids_of t.0) e), sym (ap (λ t. t.1) e))
forward_request-cids false b cid username name meta (client (live c) r) handler sent after e =
    absurd (let e' : dropped c.handler ≡ forwarded handler sent = ap (λ t. t.0) e in cc)

-- Giving the lock back and taking it again changes nothing.
pub relock :
    (b locked : Broker)
    → broker_lock b ≡ some locked
    → (broker_lock (broker_unlock locked) ≡ some locked) × (locked.slots ≡ b.slots)
unfolding broker_lock broker_unlock
relock b locked e = elim (Bool-cases b.nolock) [
  | inl y ↦
      let taken : broker_lock b ≡ some b = rw (broker_lock, y) refl in
      let left : broker_unlock b ≡ b = rw (broker_unlock, y) refl in
      let same : some b ≡ some locked = sym taken ∙ e in
      let same' : b ≡ locked = cc in rw (sym same') (ap broker_lock left ∙ taken, refl)
  | inr n ↦ elim (Bool-cases b.locked) [
    | inl y ↦ absurd (let never : none ≡ some locked = sym (broker_lock-taken b n y) ∙ e in cc)
    | inr free ↦
        let b' : Broker = record b { locked = true } in
        let same : some b' ≡ some locked = sym (broker_lock-free b n free) ∙ e in
        let same' : b' ≡ locked = cc in
        let left : broker_unlock b' ≡ record b { locked = false } = rw (broker_unlock, n) refl in
        rw (sym same')
          (ap broker_lock left ∙ broker_lock-free (record b { locked = false }) n refl, refl)
  ]
]

to_int-small : (n : ℕ) → n < 2 ^ 31 → to_int (pos n) ≡ pos n
unfolding to_int
to_int-small n h = let small : n % 2 ^ 32 ≡ n = omega arith in rw small (ground arith)

-- rpc_msg_response with the client ID of a client that is there.
response_to :
    (valid : Bool) (b b' : Broker) (meta : RpcmsgMeta) (cid : ℕ) (rest : List ℤ) (c : Client)
    → broker_lock b ≡ some b'
    → meta.cids ≡ rest ++ (pos cid ∷ [])
    → cid < 2 ^ 31
    → pointer_at b'.slots cid ≡ some (live c)
    → rpc_msg_response valid b meta ≡ some (propagate_msg valid b' c (record meta { cids = rest }))
unfolding rpc_msg_response forward_response cid_valid is_null
response_to valid b b' meta cid rest c l m s p =
    rw
      (
        rpc_msg_response,
        l,
        m,
        pop_cid-append rest (pos cid),
        to_int-small cid s,
        cid_valid,
        p,
        forward_response,
      )
      refl

-- What a request that is sent on found, and what it left.
request_parts :
    (strtol : List ℕ → ℤ × List ℕ) (api : Broker → RpcmsgMeta → Option Broker) (valid : Bool)
    → (b : Broker) (cid : ℕ) (username name : Option (List ℕ)) (meta : RpcmsgMeta)
    → (handler : ℕ) (sent : RpcmsgMeta) (after : Broker)
    → rpc_msg_request strtol api valid b cid username name meta
      ≡ some (forwarded handler sent, after)
    → (b' : Broker) × (broker_lock b ≡ some b')
      × (sent.cids ≡ meta.cids ++ (pos cid ∷ []))
      × (after ≡ broker_unlock b')
unfolding rpc_msg_request
request_parts strtol api valid b cid username name meta handler sent after e =
    let here = if is_request meta.type then api b meta else none in
    elim (Option-cases here) [
      | inr (b', y) ↦ absurd (
          let e' : some (handled, b') ≡ some (forwarded handler sent, after) =
            sym (rw (rpc_msg_request, y) refl) ∙ e in
          let gone : Outcome × Broker = (handled, b') in
          let wanted : Outcome × Broker = (forwarded handler sent, after) in
          let e'' : gone ≡ wanted = cc in
          let never : handled ≡ forwarded handler sent = ap (λ t. t.0) e'' in cc)
      | inl y ↦ elim (Option-cases (broker_lock b)) [
        | inl l ↦ absurd (
            let e' : none ≡ some (forwarded handler sent, after) =
              sym (rw (rpc_msg_request, y, l) refl) ∙ e in
            cc)
        | inr (b', l) ↦
            let e' : some (
                  forward_request valid b' cid username name meta
                    (mounted_client strtol b' meta.path))
                ≡ some (forwarded handler sent, after) =
              sym (rw (rpc_msg_request, y, l) refl) ∙ e in
            let e'' : forward_request valid b' cid username name meta
                  (mounted_client strtol b' meta.path)
                ≡ (forwarded handler sent, after) =
              cc in
            let (cs, af) =
              forward_request-cids valid b' cid username name meta
                (mounted_client strtol b' meta.path) handler sent after e'' in
            (b', l, cs, af)
      ]
    ]

-- A response whose client IDs are those of a request as it was sent on goes to the handler of the
-- client that the request came from, with the client IDs that the request came with; the lock is
-- free again. The client is still in the table.
pub response-request :
    (strtol : List ℕ → ℤ × List ℕ) (api : Broker → RpcmsgMeta → Option Broker) (valid : Bool)
    → (b : Broker) (cid : ℕ) (username name : Option (List ℕ)) (meta : RpcmsgMeta)
    → (handler : ℕ) (sent : RpcmsgMeta) (after : Broker) (c : Client)
    → (valid' : Bool) (reply : RpcmsgMeta)
    → rpc_msg_request strtol api valid b cid username name meta
      ≡ some (forwarded handler sent, after)
    → pointer_at b.slots cid ≡ some (live c)
    → cid < 2 ^ 31
    → reply.cids ≡ sent.cids
    → rpc_msg_response valid' after reply
      ≡ some (
        (if valid'
            then forwarded c.handler (record reply { cids = meta.cids })
            else dropped c.handler),
        after,
      )
unfolding propagate_msg
response-request strtol api valid b cid username name meta handler sent after c valid' reply e p s
      r =
    let (b', l, cs, af) =
      request_parts strtol api valid b cid username name meta handler sent after e in
    let (again, same) = relock b b' l in
    let free : broker_lock after ≡ some b' = ap broker_lock af ∙ again in
    let there : pointer_at b'.slots cid ≡ some (live c) = ap (λ x. pointer_at x cid) same ∙ p in
    response_to valid' after b' reply cid meta.cids c free (r ∙ cs) s there
    ∙ ap
        (λ x. some (
          (if valid'
              then forwarded c.handler (record reply { cids = meta.cids })
              else dropped c.handler),
          x,
        ))
        (sym af)
