-- ===== src/Broker/Mount.antt =====
-- libshvbroker/mount.c. The signals that lsmod sends are not part of the state.
--
-- The array of mounts is a list. `qsort` puts it in order, and `bsearch` finds the element that
-- compares equal. `strtol` of the C library is a parameter: the number, and what is behind it.
pub mod Search
pub mod Found
pub mod Table
use shvc.Base.{ℕ, zero, suc, ◌+◌, ◌-◌, ◌/◌, Bool, true, false, not, ◌&&◌, ltb, ◌==◌, is_neg}
use shvc.Base.{
  if◌then◌else◌, Option, none, some, List, [], ◌∷◌, ◌++◌, length, get_elem?, ℤ, pos, negsuc,
}
use shvc.Base.Strings.{str_eq, str_lt}
use shvc.Broker.State.{
  Mount, Broker, Pointer, null, live, dangling, slash, behind, at_node_end, is_path_prefix,
  pointer_at, to_int, cid_active,
}

-- The sign of a comparison.
pub data Order : Type 0 where
  less same more : Order

-- `strncmp(path, mnt, strlen(mnt))`, of strings without zero bytes.
unfoldable pub compare_prefix : List ℕ → List ℕ → Order
compare_prefix path [] = same
compare_prefix [] (m ∷ mnt) = less
compare_prefix (c ∷ path) (m ∷ mnt) =
    let rest = compare_prefix path mnt in if ltb c m then less else (if ltb m c then more else rest)

-- The loop of mounted_client, by the length of its range, from `l` to before `u`.
unfoldable pub search_loop : ℕ → List Mount → List ℕ → ℕ → ℕ → Option Mount
unfolding compare_prefix is_path_prefix
search_loop zero mounts path l u = none
search_loop (suc fuel) mounts path l u =
    let p = (u - 1 + l) / 2 in
    let lower = search_loop fuel mounts path l p in
    let upper = search_loop fuel mounts path (p + 1) u in
    if not (ltb l u) then none else elim (get_elem? mounts p) as (λ _. Option Mount) [
      | none ↦ none
      | some m ↦ elim (compare_prefix path m.path) as (λ _. Option Mount) [
        | same ↦ if is_path_prefix path m.path then some m else upper
        | less ↦ lower
        | more ↦ upper
      ]
    ]

-- The search among the real mount points.
unfoldable pub mounted_at : List Mount → List ℕ → Option Mount
unfolding search_loop
mounted_at mounts path = search_loop (length mounts) mounts path 0 (length mounts)

-- ".broker/client/".
abbrev pub clientmnt : List ℕ
clientmnt = 46 ∷ 98 ∷ 114 ∷ 111 ∷ 107 ∷ 101 ∷ 114 ∷ 47 ∷ 99 ∷ 108 ∷ 105 ∷ 101 ∷ 110 ∷ 116 ∷ 47 ∷ []

-- What mounted_client gives: NULL, the client's pointer with the rest of the path, or a read behind
-- the end of the table.
pub data Target : Type 0 where
  nobody : Target
  client : Pointer → List ℕ → Target
  out_of_bounds : Target

-- `*rpath`, behind the slash.
unfoldable pub skip_slash : List ℕ → List ℕ
skip_slash [] = []
skip_slash (c ∷ cs) = if c == slash then cs else c ∷ cs

-- `broker->clients[cid]` for a `long`.
unfoldable pub target_at : Broker → ℤ → List ℕ → Target
unfolding pointer_at
target_at b (pos n) rest = elim (pointer_at b.slots n) [
  | some p ↦ client p rest
  | none ↦ out_of_bounds
]
target_at b (negsuc n) rest = out_of_bounds

-- mounted_client. The test of the client's ID takes it as an `int`, the table as a `long`.
unfoldable pub mounted_client : (List ℕ → ℤ × List ℕ) → Broker → List ℕ → Target
unfolding behind at_node_end skip_slash target_at mounted_at to_int cid_active
mounted_client strtol b path = elim (behind clientmnt path) as (λ _. Target) [
  | some digits ↦
      let (cid, end) = strtol digits in
      if not (at_node_end end)
      then nobody
      else (if cid_active b (to_int cid) then target_at b cid (skip_slash end) else nobody)
  | none ↦ elim (mounted_at b.mounts path) as (λ _. Target) [
    | none ↦ nobody
    | some m ↦ elim (behind m.path path) as (λ _. Target) [
      | some rest ↦ target_at b (pos m.cid) (skip_slash rest)
      | none ↦ nobody
    ]
  ]
]

-- mounted_client returns NULL, also where the table has a null pointer for a mount.
unfoldable pub is_nobody : Target → Bool
is_nobody nobody = true
is_nobody (client null rest) = true
is_nobody (client (live c) rest) = false
is_nobody (client dangling rest) = false
is_nobody out_of_bounds = false

-- ARR_QSORT with mntcmp, one element after the other.
unfoldable pub insert_mount : Mount → List Mount → List Mount
insert_mount m [] = m ∷ []
insert_mount m (n ∷ mounts) =
    if str_lt n.path m.path then n ∷ insert_mount m mounts else m ∷ n ∷ mounts

unfoldable pub sort_mounts : List Mount → List Mount
unfolding insert_mount
sort_mounts [] = []
sort_mounts (m ∷ mounts) = insert_mount m (sort_mounts mounts)

-- The first loop of mount_register: whether some mount is at or below a path.
unfoldable pub some_below : List Mount → List ℕ → Bool
unfolding is_path_prefix
some_below [] path = false
some_below (m ∷ mounts) path =
    let rest = some_below mounts path in if is_path_prefix m.path path then true else rest

-- mount_register, for the mount point of the client's role.
unfoldable pub mount_register : (List ℕ → ℤ × List ℕ) → Broker → List ℕ → ℕ → Bool × Broker
unfolding some_below is_nobody mounted_client sort_mounts
mount_register strtol b path cid =
    if some_below b.mounts path
    then (false, b)
    else if not (is_nobody (mounted_client strtol b path))
    then (false, b)
    else (
      true,
      record b { mounts = sort_mounts (b.mounts ++ (record { path = path; cid = cid } ∷ [])) },
    )

-- ARR_BSEARCH with mntcmp and ARR_DEL: the element that compares equal is taken out.
unfoldable pub del_mount : List Mount → List ℕ → List Mount
del_mount [] path = []
del_mount (m ∷ mounts) path =
    let rest = del_mount mounts path in if str_eq m.path path then mounts else m ∷ rest

-- mount_unregister.
unfoldable pub mount_unregister : Broker → List ℕ → Broker
unfolding del_mount
mount_unregister b path = record b { mounts = del_mount b.mounts path }
