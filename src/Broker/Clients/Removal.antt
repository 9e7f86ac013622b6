-- ===== src/Broker/Clients/Removal.antt =====
-- Removal keeps the table in order.
use shvc.Base.{ℕ, ◌≡◌, ◌≢◌, refl, sym, ap, ◌∙◌, true, false, ◌==◌, ==_iff}
use shvc.Base.{Option, none, some, List, [], ◌∷◌, All, arith, Bool-cases, Option-cases, inl, inr}
use shvc.Base.Strings.{str_eq, str_eq_refl}
use shvc.Broker.State.{
  Client, Pointer, null, live, dangling, Slot, Mount, Broker, broker_lock, broker_unlock,
  pointer_at, set_slot,
}
use shvc.Broker.Mount.{del_mount, mount_unregister}
use shvc.Broker.Mount.Table.{AreDistinct-del_mount, Differs-del_mount, All-del_mount}
use shvc.Broker.Clients.{role_unassign, free_role, remove_client, rpcbroker_client_unregister}
use shvc.Broker.Clients.Slots.{length-set_slot}
use shvc.Broker.Clients.Safety.{
  All-map, mount_point_of, IsOwned, Good, IsSafe, All-IsOwned-other, live_fields,
}

-- Mounts at other places than a client's are those of other clients.
others_own :
    (slots : List Slot) (mounts : List Mount) (c : ℕ) (ctx : Client)
    → pointer_at slots c ≡ some (live ctx)
    → All (λ m. mount_point_of ctx ≢ some m.path) mounts
    → All (IsOwned slots) mounts
    → All (λ m. (m.cid == c) ≡ false) mounts
others_own slots [] c ctx at away h = tt
others_own slots (m ∷ mounts) c ctx at (away_m, away) ((owner, own_at, point), h) = (
  elim (Bool-cases (m.cid == c)) [
    | inl y ↦
        let same_slot : pointer_at slots c ≡ some (live owner) =
          rw (← (==_iff m.cid c).0 y) own_at in
        absurd (away_m (live_fields ctx owner (sym at ∙ same_slot) ∙ point))
    | inr n ↦ n
  ],
  others_own slots mounts c ctx at away h,
)

-- The mounts without that of a client.
abbrev left_mounts : Option (List ℕ) → List Mount → List Mount
left_mounts none mounts = mounts
left_mounts (some path) mounts = del_mount mounts path

role_unassign_fields :
    (b : Broker) (c : Client)
    → let b' = role_unassign b c in
      (b'.nolock ≡ b.nolock)
      × (b'.slots ≡ b.slots)
      × (b'.mounts ≡ left_mounts (mount_point_of c) b.mounts)
unfolding role_unassign free_role mount_unregister
role_unassign_fields b c = elim (Option-cases c.role) [
  | inl e ↦ rw (role_unassign, e) (refl, refl, refl)
  | inr (r, e) ↦ elim (Option-cases r.mount_point) [
    | inl f ↦ elim (Bool-cases r.has_free) [
      | inl y ↦ rw (role_unassign, e, f, y) (refl, refl, refl)
      | inr n ↦ rw (role_unassign, e, f, n) (refl, refl, refl)
    ]
    | inr (path, f) ↦ elim (Bool-cases r.has_free) [
      | inl y ↦ rw (role_unassign, e, f, y) (refl, refl, refl)
      | inr n ↦ rw (role_unassign, e, f, n) (refl, refl, refl)
    ]
  ]
]

none_left : (b : Broker) → none ≢ some b
none_left b e = ground (arith, e)

no_path : (path : List ℕ) → none ≢ some path
no_path path e = ground (arith, e)

some_path : (a b : List ℕ) → some a ≡ some b → a ≡ b
some_path a b e = ap (λ o. elim o as (λ _. List ℕ) [ some x ↦ x | none ↦ a ]) e

other_path : (path a : List ℕ) → str_eq path a ≡ false → some path ≢ some a
other_path path a h e =
    absurd (ground (arith, h, sym (ap (str_eq path) (some_path path a e)) ∙ str_eq_refl path))

All-any : (P : Mount → Type 0) (mounts : List Mount) → ((m : Mount) → P m) → All P mounts
All-any P [] f = tt
All-any P (m ∷ mounts) f = (f m, All-any P mounts f)

-- The table and the mounts without the client.
left-Good :
    (slots : List Slot) (mounts : List Mount) (c : ℕ) (ctx : Client) (f : Slot → Slot)
    (point : Option (List ℕ))
    → mount_point_of ctx ≡ point
    → pointer_at slots c ≡ some (live ctx)
    → Good slots mounts
    → Good (set_slot slots c f) (left_mounts point mounts)
left-Good slots mounts c ctx f none point at good = record {
  some_slots = rw (length-set_slot slots c f) good.some_slots;
  owned =
      All-IsOwned-other slots c f mounts
        (others_own slots mounts c ctx at
          (All-any (λ m. mount_point_of ctx ≢ some m.path) mounts
            (λ m e. no_path m.path (sym point ∙ e)))
          good.owned)
        good.owned;
  distinct = good.distinct;
}
left-Good slots mounts c ctx f (some path) point at good =
    let kept = All-del_mount (IsOwned slots) mounts path good.owned in
    let away =
      All-map (λ m. str_eq path m.path ≡ false) (λ m. mount_point_of ctx ≢ some m.path)
        (del_mount mounts path) (λ m h e. other_path path m.path h (sym point ∙ e))
        (Differs-del_mount mounts path good.distinct) in
    record {
      some_slots = rw (length-set_slot slots c f) good.some_slots;
      owned =
          All-IsOwned-other slots c f (del_mount mounts path)
            (others_own slots (del_mount mounts path) c ctx at away kept) kept;
      distinct = AreDistinct-del_mount mounts path good.distinct;
    }

pub unregister_waits :
    (b : Broker) (c now : ℕ)
    → b.nolock ≡ false
    → b.locked ≡ true
    → rpcbroker_client_unregister b c now ≡ none
unfolding rpcbroker_client_unregister broker_lock
unregister_waits b c now threads held = rw (rpcbroker_client_unregister, threads, held) refl

-- The removal of what a slot points to.
unfoldable unregister_at : Broker → ℕ → ℕ → Option Pointer → Option Broker
unregister_at b c now none = none
unregister_at b c now (some null) = none
unregister_at b c now (some dangling) = none
unregister_at b c now (some (live ctx)) =
    some (broker_unlock (remove_client (record b { locked = true }) c now ctx))

unregister_free :
    (b : Broker) (c now : ℕ) (p : Option Pointer)
    → b.nolock ≡ false
    → b.locked ≡ false
    → pointer_at b.slots c ≡ p
    → rpcbroker_client_unregister b c now ≡ unregister_at b c now p
unfolding rpcbroker_client_unregister broker_lock unregister_at
unregister_free b c now none threads free at =
    rw (rpcbroker_client_unregister, threads, free, at) refl
unregister_free b c now (some null) threads free at =
    rw (rpcbroker_client_unregister, threads, free, at) refl
unregister_free b c now (some dangling) threads free at =
    rw (rpcbroker_client_unregister, threads, free, at) refl
unregister_free b c now (some (live ctx)) threads free at =
    rw (rpcbroker_client_unregister, threads, free, at) refl

broker_unlock-IsSafe :
    (b : Broker) → b.nolock ≡ false → Good b.slots b.mounts → IsSafe (broker_unlock b)
unfolding broker_unlock
broker_unlock-IsSafe b threads good = rw threads (refl, inr good)

remove_client-IsSafe :
    (b : Broker) (c now : ℕ) (ctx : Client)
    → b.nolock ≡ false
    → pointer_at b.slots c ≡ some (live ctx)
    → Good b.slots b.mounts
    → IsSafe (broker_unlock (remove_client b c now ctx))
unfolding remove_client
remove_client-IsSafe b c now ctx threads at good =
    let f : Slot → Slot = λ _. record { client = null; lastuse = now } in
    let (same_lock, same_slots, same_mounts) =
      role_unassign_fields (record b { slots = set_slot b.slots c f }) ctx in
    let left = left-Good b.slots b.mounts c ctx f (mount_point_of ctx) refl at good in
    broker_unlock-IsSafe _ (same_lock ∙ threads) (rw (same_slots, same_mounts) left)

unregister_at-IsSafe :
    (b : Broker) (c now : ℕ) (p : Option Pointer) (b' : Broker)
    → b.nolock ≡ false
    → pointer_at b.slots c ≡ p
    → Good b.slots b.mounts
    → unregister_at b c now p ≡ some b'
    → IsSafe b'
unfolding unregister_at
unregister_at-IsSafe b c now none b' threads at good e = absurd (ground arith)
unregister_at-IsSafe b c now (some null) b' threads at good e = absurd (ground arith)
unregister_at-IsSafe b c now (some dangling) b' threads at good e = absurd (ground arith)
unregister_at-IsSafe b c now (some (live ctx)) b' threads at good e =
    let b1 : Broker = record b { locked = true } in
    let state : broker_unlock (remove_client b1 c now ctx) ≡ b' =
      ap (λ o. elim o as (λ _. Broker) [ some v ↦ v | none ↦ b1 ]) e in
    rw (← state) (remove_client-IsSafe b1 c now ctx threads at good)

-- The removal of a client keeps the same order; its mount is taken out with it.
pub rpcbroker_client_unregister-IsSafe :
    (b : Broker) (c now : ℕ) (b' : Broker)
    → IsSafe b
    → rpcbroker_client_unregister b c now ≡ some b'
    → IsSafe b'
rpcbroker_client_unregister-IsSafe b c now b' (threads, state) e = elim (Bool-cases b.locked) [
  | inl held ↦ absurd (none_left b' (sym (unregister_waits b c now threads held) ∙ e))
  | inr free ↦ elim state [
    | inl held ↦ absurd (ground (arith, held, free))
    | inr good ↦
        unregister_at-IsSafe b c now (pointer_at b.slots c) b' threads refl good
          (sym (unregister_free b c now (pointer_at b.slots c) threads free refl) ∙ e)
  ]
]
