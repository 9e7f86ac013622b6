-- ===== src/Broker/Clients/Safety.antt =====
-- The invariant of the client table, the mounts and the lock.
use shvc.Base.{ℕ, ◌<◌, ◌≡◌, ◌≢◌, refl, ap, ◌∙◌, Bool, true, false, ◌==◌, ==_iff, ℤ, pos}
use shvc.Base.{Option, none, some, List, [], ◌∷◌, ◌++◌, length, All, Bool-cases, inl, inr, ◌⊎◌}
use shvc.Broker.State.{
  Role, Client, null, live, dangling, Slot, Mount, Broker, broker_lock, broker_unlock, pointer_at,
  set_slot,
}
use shvc.Broker.Mount.{mount_register, sort_mounts, some_below, is_nobody, mounted_client}
use shvc.Broker.Mount.Table.{AreDistinct, AreDistinct-register, All-sort_mounts, All-append_one}
use shvc.Broker.Clients.{
  RoleRes, role_ok, mnt_invalid, mnt_exists, with_role, set_role, finish_role, free_role,
  is_invalid_mount, assign_mount, role_assign, free_cid, enlarge, new_client, add_client,
  forget_client, end_register, rpcbroker_client_register,
}
use shvc.Broker.Clients.Slots.{
  pointer_at-set_slot_other, pointer_at-set_slot, pointer_at-set_slot_known, pointer_at-enlarge,
  free_cid_lem, length-set_slot, length-enlarge,
}

abbrev pub mount_point_of : Client → Option (List ℕ)
mount_point_of c = elim c.role as (λ _. Option (List ℕ)) [ some r ↦ r.mount_point | none ↦ none ]

-- A mount of a live client, at the mount point of its role.
abbrev pub IsOwned : List Slot → Mount → Type 0
IsOwned slots m =
    (c : Client) × (pointer_at slots m.cid ≡ some (live c)) × (mount_point_of c ≡ some m.path)

pub record Good (slots : List Slot) (mounts : List Mount) : Type 0 where
  pub some_slots : 0 < length slots
  pub owned : All (IsOwned slots) mounts
  pub distinct : AreDistinct mounts

-- With a lock that is held forever, or in order.
abbrev pub IsSafe : Broker → Type 0
IsSafe b = (b.nolock ≡ false) × ((b.locked ≡ true) ⊎ Good b.slots b.mounts)

pub All-map :
    (P Q : Mount → Type 0) (mounts : List Mount)
    → ((m : Mount) → P m → Q m)
    → All P mounts
    → All Q mounts
All-map P Q [] f h = tt
All-map P Q (m ∷ mounts) f (hm, h) = (f m hm, All-map P Q mounts f h)

-- A write to another slot keeps the owner.
pub IsOwned-other :
    (slots : List Slot) (c : ℕ) (f : Slot → Slot) (m : Mount)
    → (m.cid == c) ≡ false
    → IsOwned slots m
    → IsOwned (set_slot slots c f) m
IsOwned-other slots c f m h (owner, at, path) =
    (owner, pointer_at-set_slot_other slots c m.cid f h ∙ at, path)

pub All-IsOwned-other :
    (slots : List Slot) (c : ℕ) (f : Slot → Slot) (mounts : List Mount)
    → All (λ m. (m.cid == c) ≡ false) mounts
    → All (IsOwned slots) mounts
    → All (IsOwned (set_slot slots c f)) mounts
All-IsOwned-other slots c f [] others h = tt
All-IsOwned-other slots c f (m ∷ mounts) (other, others) (hm, h) =
    (IsOwned-other slots c f m other hm, All-IsOwned-other slots c f mounts others h)

-- A slot without a live client owns no mount.
not_owner :
    (slots : List Slot) (c : ℕ) (m : Mount)
    → ((d : Client) → pointer_at slots c ≢ some (live d))
    → IsOwned slots m
    → (m.cid == c) ≡ false
not_owner slots c m dead (owner, at, path) = elim (Bool-cases (m.cid == c)) [
  | inl y ↦ absurd (dead owner (rw (← (==_iff m.cid c).0 y) at))
  | inr n ↦ n
]

pub live_fields :
    (c d : Client) → some (live c) ≡ some (live d) → mount_point_of c ≡ mount_point_of d
live_fields c d e =
    ap
      (λ o. elim o as (λ _. Option (List ℕ)) [
        | some p ↦ elim p as (λ _. Option (List ℕ)) [
          | live x ↦ mount_point_of x
          | null ↦ none
          | dangling ↦ none
        ]
        | none ↦ none
      ])
      e

-- The table with the new client in it.
pub add_client-Good :
    (slots : List Slot) (mounts : List Mount) (now : ℕ) (ctx : Client)
    → Good slots mounts
    → let c = free_cid slots now in
      let slots' = set_slot (enlarge slots c) c (λ s. record s { client = live ctx }) in
      Good slots' mounts
      × (pointer_at slots' c ≡ some (live ctx))
      × All (λ m. (m.cid == c) ≡ false) mounts
add_client-Good slots mounts now ctx good =
    let c = free_cid slots now in
    let f : Slot → Slot = λ s. record s { client = live ctx } in
    let (room, some_left) = length-enlarge slots now good.some_slots in
    let others =
      All-map (IsOwned slots) (λ m. (m.cid == c) ≡ false) mounts
        (λ m own. not_owner slots c m (free_cid_lem slots now) own) good.owned in
    (
      record {
        some_slots = rw (length-set_slot (enlarge slots c) c f) some_left;
        owned =
            All-map (IsOwned slots) (IsOwned (set_slot (enlarge slots c) c f)) mounts
              (λ m own.
                IsOwned-other (enlarge slots c) c f m
                  (not_owner slots c m (free_cid_lem slots now) own)
                  (own.0, pointer_at-enlarge slots c m.cid (live own.0) own.1, own.2))
              good.owned;
        distinct = good.distinct;
      },
      pointer_at-set_slot (enlarge slots c) c f (live ctx) (λ s. refl) room,
      others,
    )

-- What the part of role_assign that can fail leaves.
abbrev Outcome : RoleRes → Broker → Type 0
Outcome role_ok b = (b.nolock ≡ false) × (b.locked ≡ true) × Good b.slots b.mounts
Outcome mnt_invalid b = (b.nolock ≡ false) × (b.locked ≡ true)
Outcome mnt_exists b = (b.nolock ≡ false) × (b.locked ≡ true)

-- The end of the registration, from there.
end_register-IsSafe :
    (res : RoleRes) (b : Broker) (c : ℕ) (r : Role)
    → Outcome res b
    → IsSafe (end_register c (finish_role res b c r).0 (finish_role res b c r).1).1
unfolding end_register finish_role broker_unlock forget_client free_role set_role
end_register-IsSafe role_ok b c r (threads, held, good) = rw threads (refl, inr good)
end_register-IsSafe mnt_invalid b c r (threads, held) = elim (Bool-cases r.has_free) [
  | inl y ↦ rw y (threads, inl held)
  | inr n ↦ rw n (threads, inl held)
]
end_register-IsSafe mnt_exists b c r (threads, held) = elim (Bool-cases r.has_free) [
  | inl y ↦ rw y (threads, inl held)
  | inr n ↦ rw n (threads, inl held)
]

-- A mount of its own for a live client.
add_mount-Good :
    (slots : List Slot) (mounts : List Mount) (c : ℕ) (d : Client) (path : List ℕ)
    → Good slots mounts
    → pointer_at slots c ≡ some (live d)
    → mount_point_of d ≡ some path
    → some_below mounts path ≡ false
    → Good slots (sort_mounts (mounts ++ (record { path = path; cid = c } ∷ [])))
add_mount-Good slots mounts c d path good at point new =
    let m : Mount = record { path = path; cid = c } in
    record {
      some_slots = good.some_slots;
      owned =
          All-sort_mounts (IsOwned slots) (mounts ++ (m ∷ []))
            (All-append_one (IsOwned slots) mounts m good.owned (d, at, point));
      distinct = AreDistinct-register mounts m new good.distinct;
    }

assign_mount-Outcome :
    (strtol : List ℕ → ℤ × List ℕ) (b : Broker) (c : ℕ) (d : Client) (mp : Option (List ℕ))
    → b.nolock ≡ false
    → b.locked ≡ true
    → Good b.slots b.mounts
    → pointer_at b.slots c ≡ some (live d)
    → mount_point_of d ≡ mp
    → let (res, b') = assign_mount strtol b c mp in Outcome res b'
unfolding assign_mount mount_register
assign_mount-Outcome strtol b c d none threads held good at point = (threads, held, good)
assign_mount-Outcome strtol b c d (some path) threads held good at point =
    elim (Bool-cases (is_invalid_mount path)) [
      | inl y ↦ rw (assign_mount, y) (threads, held)
      | inr n ↦ elim (Bool-cases (some_below b.mounts path)) [
        | inl y ↦ rw (assign_mount, n, y) (threads, held)
        | inr new ↦ elim (Bool-cases (is_nobody (mounted_client strtol b path))) [
          | inl free ↦
              rw (assign_mount, n, new, free)
                (threads, held, add_mount-Good b.slots b.mounts c d path good at point new)
          | inr taken ↦ rw (assign_mount, n, new, taken) (threads, held)
        ]
      ]
    ]

with_role_live :
    (s : Slot) (ctx : Client) (r : Role)
    → s.client ≡ live ctx
    → (with_role (some r) s).client ≡ live (record ctx { role = some r })
unfolding with_role
with_role_live s ctx r h = rw (with_role, h) refl

pub role_assign-IsSafe :
    (strtol : List ℕ → ℤ × List ℕ) (b : Broker) (c : ℕ) (ctx : Client) (r : Role)
    → b.nolock ≡ false
    → b.locked ≡ true
    → Good b.slots b.mounts
    → pointer_at b.slots c ≡ some (live ctx)
    → All (λ m. (m.cid == c) ≡ false) b.mounts
    → let (res, b') = role_assign strtol b c r in IsSafe (end_register c res b').1
unfolding role_assign set_role
role_assign-IsSafe strtol b c ctx r threads held good at others =
    let b1 = set_role b c (some r) in
    let d : Client = record ctx { role = some r } in
    let good1 : Good b1.slots b1.mounts = record {
      some_slots = rw (length-set_slot b.slots c (with_role (some r))) good.some_slots;
      owned = All-IsOwned-other b.slots c (with_role (some r)) b.mounts others good.owned;
      distinct = good.distinct;
    } in
    let at1 : pointer_at b1.slots c ≡ some (live d) =
      pointer_at-set_slot_known b.slots c (with_role (some r)) (live ctx) (live d)
        (λ s h. with_role_live s ctx r h) at in
    end_register-IsSafe _ _ c r
      (assign_mount-Outcome strtol b1 c d r.mount_point threads held good1 at1 refl)

pub some_state : (r : ℤ × Broker) (res : ℤ) (b' : Broker) → some r ≡ some (res, b') → r.1 ≡ b'
some_state r res b' e = ap (λ o. elim o as (λ _. Broker) [ some v ↦ v.1 | none ↦ r.1 ]) e

pub register_waits :
    (strtol : List ℕ → ℤ × List ℕ) (b : Broker) (h : ℕ) (contrack : Bool) (role : Option Role)
    (now : ℕ)
    → b.nolock ≡ false
    → b.locked ≡ true
    → rpcbroker_client_register strtol b h contrack role now ≡ none
unfolding rpcbroker_client_register broker_lock
register_waits strtol b h contrack role now threads held =
    rw (rpcbroker_client_register, threads, held) refl

-- The broker with the lock taken and the new client in the table.
abbrev pub with_client : Broker → ℕ → Bool → Option Role → ℕ → Broker
with_client b h contrack role now =
    let b1 : Broker = record b { locked = true } in
    let c = free_cid b1.slots now in add_client b1 c (new_client c h contrack role now)

pub register_no_role :
    (strtol : List ℕ → ℤ × List ℕ) (b : Broker) (h : ℕ) (contrack : Bool) (now : ℕ)
    → b.nolock ≡ false
    → b.locked ≡ false
    → rpcbroker_client_register strtol b h contrack none now
      ≡ some (pos (free_cid b.slots now), broker_unlock (with_client b h contrack none now))
unfolding rpcbroker_client_register broker_lock
register_no_role strtol b h contrack now threads free =
    rw (rpcbroker_client_register, threads, free) refl

pub register_role :
    (strtol : List ℕ → ℤ × List ℕ) (b : Broker) (h : ℕ) (contrack : Bool) (r : Role) (now : ℕ)
    → b.nolock ≡ false
    → b.locked ≡ false
    → let c = free_cid b.slots now in
      let (res, b') = role_assign strtol (with_client b h contrack (some r) now) c r in
      rpcbroker_client_register strtol b h contrack (some r) now ≡ some (end_register c res b')
unfolding rpcbroker_client_register broker_lock
register_role strtol b h contrack r now threads free =
    rw (rpcbroker_client_register, threads, free) refl
