-- ===== src/Broker/Clients/Registration.antt =====
-- Registration keeps the table in order.
use shvc.Base.{ℕ, ◌≡◌, ◌≢◌, refl, sym, ◌∙◌, Bool, false, ℤ}
use shvc.Base.{Option, none, some, List, arith, Bool-cases, inl, inr}
use shvc.Broker.State.{Role, Broker, broker_unlock}
use shvc.Broker.Clients.{free_cid, new_client, add_client, rpcbroker_client_register}
use shvc.Broker.Clients.Safety.{
  Good, IsSafe, add_client-Good, role_assign-IsSafe, some_state, register_waits, register_no_role,
  register_role, with_client,
}

-- Registration from a lock that is free.
register_free :
    (strtol : List ℕ → ℤ × List ℕ) (b : Broker) (h : ℕ) (contrack : Bool) (role : Option Role)
    (now : ℕ) (res : ℤ) (b' : Broker)
    → b.nolock ≡ false
    → b.locked ≡ false
    → Good b.slots b.mounts
    → rpcbroker_client_register strtol b h contrack role now ≡ some (res, b')
    → IsSafe b'
unfolding broker_unlock add_client
register_free strtol b h contrack none now res b' threads free good e =
    let b2 = with_client b h contrack none now in
    let state : broker_unlock b2 ≡ b' =
      some_state _ res b' (sym (register_no_role strtol b h contrack now threads free) ∙ e) in
    let (kept, at, others) =
      add_client-Good b.slots b.mounts now (new_client (free_cid b.slots now) h contrack none now)
        good in
    rw (← state, threads) (refl, inr kept)
register_free strtol b h contrack (some r) now res b' threads free good e =
    let c = free_cid b.slots now in
    let ctx = new_client c h contrack (some r) now in
    let b2 = with_client b h contrack (some r) now in
    let state =
      some_state _ res b' (sym (register_role strtol b h contrack r now threads free) ∙ e) in
    let (kept, at, others) = add_client-Good b.slots b.mounts now ctx good in
    rw (← state) (role_assign-IsSafe strtol b2 c ctx r threads refl kept at others)

no_state : (r : ℤ × Broker) → none ≢ some r
no_state r e = ground (arith, e)

-- Whatever the role is, the registration of a client leaves a broker whose mounts are those of live
-- clients, at the mount points of their roles, and all different, or else one whose lock is held.
pub rpcbroker_client_register-IsSafe :
    (strtol : List ℕ → ℤ × List ℕ) (b : Broker) (h : ℕ) (contrack : Bool) (role : Option Role)
    (now : ℕ) (res : ℤ) (b' : Broker)
    → IsSafe b
    → rpcbroker_client_register strtol b h contrack role now ≡ some (res, b')
    → IsSafe b'
rpcbroker_client_register-IsSafe strtol b h contrack role now res b' (threads, state) e =
    elim (Bool-cases b.locked) [
      | inl held ↦
          absurd (
            no_state (res, b') (sym (register_waits strtol b h contrack role now threads held) ∙ e))
      | inr free ↦ elim state [
        | inl held ↦ absurd (ground (arith, held, free))
        | inr good ↦ register_free strtol b h contrack role now res b' threads free good e
      ]
    ]
