-- ===== src/Broker/Clients/Failure.antt =====
-- A registration that fails.
use shvc.Base.{ℕ, ◌≡◌, ◌≢◌, refl, sym, ap, ◌∙◌, Bool, true, false, ℤ, negsuc}
use shvc.Base.{Option, none, some, List, Bool-cases, inl, inr, arith}
use shvc.Broker.State.{Role, Broker}
use shvc.Broker.Mount.{mount_register, some_below, is_nobody, mounted_client}
use shvc.Broker.Clients.{
  RoleRes, role_ok, mnt_invalid, mnt_exists, set_role, free_role, finish_role, is_invalid_mount,
  assign_mount, role_assign, free_cid, add_client, forget_client, end_register,
  rpcbroker_client_register, rpcbroker_client_unregister,
}
use shvc.Broker.Clients.Safety.{register_waits, register_no_role, register_role, with_client}
use shvc.Broker.Clients.Removal.{unregister_waits}

-- The lock is held.
abbrev IsHeld : Broker → Type 0
IsHeld b = (b.nolock ≡ false) × (b.locked ≡ true)

assign_mount-IsHeld :
    (strtol : List ℕ → ℤ × List ℕ) (b : Broker) (c : ℕ) (mp : Option (List ℕ))
    → IsHeld b
    → IsHeld (assign_mount strtol b c mp).1
unfolding assign_mount mount_register
assign_mount-IsHeld strtol b c none held = held
assign_mount-IsHeld strtol b c (some path) held = elim (Bool-cases (is_invalid_mount path)) [
  | inl y ↦ rw (assign_mount, y) held
  | inr n ↦ elim (Bool-cases (some_below b.mounts path)) [
    | inl y ↦ rw (assign_mount, n, y) held
    | inr new ↦ elim (Bool-cases (is_nobody (mounted_client strtol b path))) [
      | inl free ↦ rw (assign_mount, n, new, free) held
      | inr taken ↦ rw (assign_mount, n, new, taken) held
    ]
  ]
]

failed-IsHeld :
    (b : Broker) (c : ℕ) (r : Role)
    → IsHeld b
    → IsHeld (forget_client (free_role (set_role b c none) r) c)
unfolding forget_client free_role set_role
failed-IsHeld b c r held = elim (Bool-cases r.has_free) [ inl y ↦ rw y held | inr n ↦ rw n held ]

end_register_error :
    (res : RoleRes) (b : Broker) (c : ℕ) (r : Role) (n : ℕ) (b' : Broker)
    → IsHeld b
    → end_register c (finish_role res b c r).0 (finish_role res b c r).1 ≡ (negsuc n, b')
    → IsHeld b'
unfolding end_register finish_role
end_register_error role_ok b c r n b' held e = absurd (ground (arith, ap (λ v. v.0) e))
end_register_error mnt_invalid b c r n b' held e = rw (← ap (λ v. v.1) e) (failed-IsHeld b c r held)
end_register_error mnt_exists b c r n b' held e = rw (← ap (λ v. v.1) e) (failed-IsHeld b c r held)

some_result : (r v : ℤ × Broker) → some r ≡ some v → r ≡ v
some_result r v e = ap (λ o. elim o as (λ _. ℤ × Broker) [ some x ↦ x | none ↦ r ]) e

register_error-IsHeld :
    (strtol : List ℕ → ℤ × List ℕ) (b : Broker) (h : ℕ) (contrack : Bool) (role : Option Role)
    (now n : ℕ) (b' : Broker)
    → b.nolock ≡ false
    → b.locked ≡ false
    → rpcbroker_client_register strtol b h contrack role now ≡ some (negsuc n, b')
    → IsHeld b'
unfolding role_assign add_client set_role
register_error-IsHeld strtol b h contrack none now n b' threads free e = absurd (
    ground (
      arith,
      ap (λ v. v.0)
          (some_result _ _ (sym (register_no_role strtol b h contrack now threads free) ∙ e)),
    ))
register_error-IsHeld strtol b h contrack (some r) now n b' threads free e =
    let c = free_cid b.slots now in
    let b1 = set_role (with_client b h contrack (some r) now) c (some r) in
    end_register_error _ _ c r n b' (assign_mount-IsHeld strtol b1 c r.mount_point (threads, refl))
      (some_result _ _ (sym (register_role strtol b h contrack r now threads free) ∙ e))

no_state : (r : ℤ × Broker) → none ≢ some r
no_state r e = ground (arith, e)

-- On a broker with a lock, a registration that reports an error keeps the lock, so that every
-- registration and every removal that is asked for next waits forever.
pub rpcbroker_client_register_error :
    (strtol : List ℕ → ℤ × List ℕ) (b : Broker) (h : ℕ) (contrack : Bool) (role : Option Role)
    (now n : ℕ) (b' : Broker) (c later : ℕ)
    → (strtol' : List ℕ → ℤ × List ℕ) (h' : ℕ) (contrack' : Bool) (role' : Option Role)
    → b.nolock ≡ false
    → rpcbroker_client_register strtol b h contrack role now ≡ some (negsuc n, b')
    → (b'.locked ≡ true)
      × (rpcbroker_client_unregister b' c later ≡ none)
      × (rpcbroker_client_register strtol' b' h' contrack' role' later ≡ none)
rpcbroker_client_register_error strtol b h contrack role now n b' c later strtol' h' contrack' role'
      threads e =
    elim (Bool-cases b.locked) [
      | inl held ↦ absurd (
          no_state (negsuc n, b')
            (sym (register_waits strtol b h contrack role now threads held) ∙ e))
      | inr free ↦
          let (threads', held) =
            register_error-IsHeld strtol b h contrack role now n b' threads free e in
          (
            held,
            unregister_waits b' c later threads' held,
            register_waits strtol' b' h' contrack' role' later threads' held,
          )
    ]
