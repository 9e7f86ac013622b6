-- ===== src/Broker/Stages/Rights.antt =====
-- The access of a request in libshvbroker/access_stage.c, and what is left of it where it is sent on.
use shvc.Base.{ℕ, ◌≤◌, Bool, true, false, ◌||◌, if◌then◌else◌, min, arith}
use shvc.Base.{Option, none, some, Option-cases, List, ℤ, ◌≡◌, refl, sym, ap, ◌∙◌, inl, inr}
use shvc.Broker.State.{Role, null, live, dangling, Broker, broker_lock, set_slot}
use shvc.Broker.Mount.{Target, nobody, client, out_of_bounds, mounted_client}
use shvc.Broker.Signal.{Access, role_at}
use shvc.Broker.Stages.{RpcmsgMeta, Outcome, skip, handled, fault, forwarded, dropped, signalled}
use shvc.Broker.Stages.{is_request, is_abort, touch, access_msg}
use shvc.Broker.Stages.Rpc.{forward_request, rpc_msg_request}
use shvc.Broker.Stages.Rpc.{propagate_msg, forward_meta}

abbrev outcome : Outcome × Broker × RpcmsgMeta → Outcome
outcome (out, b, meta) = out

abbrev state : Outcome × Broker × RpcmsgMeta → Broker
state (out, b, meta) = b

abbrev message : Outcome × Broker × RpcmsgMeta → RpcmsgMeta
message (out, b, meta) = meta

-- What access_msg passes on of a request.
access_msg-min :
    (role_access : Access) (login : Broker → RpcmsgMeta → Broker) (now : ℕ) (b : Broker) (cid : ℕ)
    → (meta : RpcmsgMeta) (after : Broker) (passed : RpcmsgMeta)
    → access_msg role_access login now b cid meta ≡ (skip, after, passed)
    → (is_request meta.type || is_abort meta.type) ≡ true
    → (r : Role) × (role_at after cid ≡ some r)
      × (passed ≡ record meta { access = min meta.access (role_access r meta.path meta.name) })
unfolding access_msg
access_msg-min role_access login now b cid meta after passed e q =
    let b' : Broker = record b { slots = set_slot b.slots cid (touch now) } in
    elim (Option-cases (role_at b' cid)) [
      | inl y ↦ absurd (
          let run : outcome (access_msg role_access login now b cid meta) ≡ handled =
            rw (access_msg, y) refl in
          let never : handled ≡ skip = sym run ∙ ap outcome e in cc)
      | inr (r, y) ↦
          let passed' : RpcmsgMeta = record meta {
            access = min meta.access (role_access r meta.path meta.name);
          } in
          let run : access_msg role_access login now b cid meta ≡ (skip, b', passed') =
            rw (access_msg, y, q) refl in
          (r, ap (λ t. role_at (state t) cid) (sym e ∙ run) ∙ y, ap message (sym e ∙ run))
    ]

-- The access of the message that is sent on; a message that is not has that of the request.
access_of : RpcmsgMeta → Outcome → ℕ
access_of meta (forwarded h m) = m.access
access_of meta skip = meta.access
access_of meta handled = meta.access
access_of meta fault = meta.access
access_of meta (dropped h) = meta.access
access_of meta (signalled hs m) = meta.access

forward_request-access :
    (valid : Bool) (b : Broker) (cid : ℕ) (username name : Option (List ℕ)) (meta : RpcmsgMeta)
    → (t : Target)
    → access_of meta (forward_request valid b cid username name meta t).0 ≡ meta.access
unfolding access_of forward_request propagate_msg forward_meta
forward_request-access valid b cid username name meta nobody = refl
forward_request-access valid b cid username name meta out_of_bounds = refl
forward_request-access valid b cid username name meta (client null r) = refl
forward_request-access valid b cid username name meta (client dangling r) = refl
forward_request-access true b cid username name meta (client (live c) r) = refl
forward_request-access false b cid username name meta (client (live c) r) = refl

-- The access of what a step answers, if it answers.
answered : RpcmsgMeta → Option (Outcome × Broker) → ℕ
unfolding access_of
answered meta none = meta.access
answered meta (some r) = access_of meta r.0

rpc_msg_request-access :
    (strtol : List ℕ → ℤ × List ℕ) (api : Broker → RpcmsgMeta → Option Broker) (valid : Bool)
    → (b : Broker) (cid : ℕ) (username name : Option (List ℕ)) (meta : RpcmsgMeta)
    → answered meta (rpc_msg_request strtol api valid b cid username name meta) ≡ meta.access
unfolding answered rpc_msg_request
rpc_msg_request-access strtol api valid b cid username name meta =
    elim (Option-cases (if is_request meta.type then api b meta else none)) [
      | inr (b', y) ↦ rw (rpc_msg_request, y) refl
      | inl y ↦ elim (Option-cases (broker_lock b)) [
        | inl l ↦ rw (rpc_msg_request, y, l) refl
        | inr (b', l) ↦
            rw (rpc_msg_request, y, l)
              (forward_request-access valid b' cid username name meta
                (mounted_client strtol b' meta.path))
      ]
    ]

-- A request or an abort that the access stage passes and the RPC stage sends on is from a client with
-- a role, and it is sent with no more access than it came with and no more than the role gives to its
-- path and method.
pub request-access_msg :
    (role_access : Access) (login : Broker → RpcmsgMeta → Broker) (now : ℕ)
    → (strtol : List ℕ → ℤ × List ℕ) (api : Broker → RpcmsgMeta → Option Broker) (valid : Bool)
    → (b : Broker) (cid : ℕ) (username name : Option (List ℕ)) (meta : RpcmsgMeta)
    → (between : Broker) (passed : RpcmsgMeta) (handler : ℕ) (sent : RpcmsgMeta) (after : Broker)
    → (is_request meta.type || is_abort meta.type) ≡ true
    → access_msg role_access login now b cid meta ≡ (skip, between, passed)
    → rpc_msg_request strtol api valid between cid username name passed
      ≡ some (forwarded handler sent, after)
    → (r : Role) × (role_at between cid ≡ some r)
      × (sent.access ≤ meta.access)
      × (sent.access ≤ role_access r meta.path meta.name)
unfolding answered access_of
request-access_msg role_access login now strtol api valid b cid username name meta between passed
      handler sent after q e e' =
    let (r, at, p) = access_msg-min role_access login now b cid meta between passed e q in
    let same : sent.access ≡ passed.access =
      sym (ap (answered passed) e')
      ∙ rpc_msg_request-access strtol api valid between cid username name passed in
    let lowered : passed.access ≡ min meta.access (role_access r meta.path meta.name) =
      ap (λ m. RpcmsgMeta.access m) p in
    (r, at, omega arith, omega arith)
