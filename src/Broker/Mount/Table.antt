-- ===== src/Broker/Mount/Table.antt =====
-- The array of mounts: what sorting, adding and deleting keep.
use shvc.Base.{ℕ, ◌≡◌, refl, ap, ◌∙◌, true, false}
use shvc.Base.{some, List, [], ◌∷◌, ◌++◌, All, arith, Bool-cases, inl, inr}
use shvc.Base.Strings.{str_eq, str_eq_sym, str_eq_sound, str_lt}
use shvc.Broker.State.{Mount, behind, is_path_prefix}
use shvc.Broker.Mount.{insert_mount, sort_mounts, some_below, del_mount}

-- No two mounts have the same path.
abbrev pub Differs : List ℕ → List Mount → Type 0
Differs path mounts = All (λ n. str_eq path n.path ≡ false) mounts

abbrev pub AreDistinct : List Mount → Type 0
AreDistinct [] = Unit
AreDistinct (m ∷ mounts) = Differs m.path mounts × AreDistinct mounts

module _ (P : Mount → Type 0) where
  pub All-insert_mount :
      (m : Mount) (mounts : List Mount) → P m → All P mounts → All P (insert_mount m mounts)
  unfolding insert_mount
  All-insert_mount m [] hm h = (hm, tt)
  All-insert_mount m (n ∷ mounts) hm (hn, h) = elim (Bool-cases (str_lt n.path m.path)) [
    | inl y ↦ rw y (hn, All-insert_mount m mounts hm h)
    | inr w ↦ rw w (hm, (hn, h))
  ]

  pub All-sort_mounts : (mounts : List Mount) → All P mounts → All P (sort_mounts mounts)
  unfolding sort_mounts
  All-sort_mounts [] h = h
  All-sort_mounts (m ∷ mounts) (hm, h) =
      All-insert_mount m (sort_mounts mounts) hm (All-sort_mounts mounts h)

  pub All-append_one :
      (mounts : List Mount) (m : Mount) → All P mounts → P m → All P (mounts ++ (m ∷ []))
  All-append_one [] m h hm = (hm, tt)
  All-append_one (n ∷ mounts) m (hn, h) hm = (hn, All-append_one mounts m h hm)

  pub All-del_mount :
      (mounts : List Mount) (path : List ℕ) → All P mounts → All P (del_mount mounts path)
  unfolding del_mount
  All-del_mount [] path h = h
  All-del_mount (m ∷ mounts) path (hm, h) = elim (Bool-cases (str_eq m.path path)) [
    | inl y ↦ rw y h
    | inr w ↦ rw w (hm, All-del_mount mounts path h)
  ]

AreDistinct-insert_mount :
    (m : Mount) (mounts : List Mount)
    → Differs m.path mounts
    → AreDistinct mounts
    → AreDistinct (insert_mount m mounts)
unfolding insert_mount
AreDistinct-insert_mount m [] d h = (tt, tt)
AreDistinct-insert_mount m (n ∷ mounts) (dn, d) (hn, h) = elim (Bool-cases (str_lt n.path m.path)) [
  | inl y ↦ rw y (
    All-insert_mount (λ k. str_eq n.path k.path ≡ false) m mounts (str_eq_sym n.path m.path ∙ dn)
        hn,
    AreDistinct-insert_mount m mounts d h,
  )
  | inr w ↦ rw w ((dn, d), (hn, h))
]

AreDistinct-sort_mounts :
    (mounts : List Mount) → AreDistinct mounts → AreDistinct (sort_mounts mounts)
unfolding sort_mounts
AreDistinct-sort_mounts [] h = h
AreDistinct-sort_mounts (m ∷ mounts) (d, h) =
    AreDistinct-insert_mount m (sort_mounts mounts)
      (All-sort_mounts (λ n. str_eq m.path n.path ≡ false) mounts d)
      (AreDistinct-sort_mounts mounts h)

AreDistinct-append_one :
    (mounts : List Mount) (m : Mount)
    → Differs m.path mounts
    → AreDistinct mounts
    → AreDistinct (mounts ++ (m ∷ []))
AreDistinct-append_one [] m d h = (tt, tt)
AreDistinct-append_one (n ∷ mounts) m (dn, d) (hn, h) = (
  All-append_one (λ k. str_eq n.path k.path ≡ false) mounts m hn (str_eq_sym n.path m.path ∙ dn),
  AreDistinct-append_one mounts m d h,
)

behind_all : (path : List ℕ) → behind path path ≡ some []
unfolding behind
behind_all [] = refl
behind_all (c ∷ path) = ground (arith, behind_all path)

is_path_prefix_same : (path : List ℕ) → is_path_prefix path path ≡ true
unfolding is_path_prefix
is_path_prefix_same [] = refl
is_path_prefix_same (c ∷ path) = rw (is_path_prefix, behind_all (c ∷ path)) refl

not_same : (a path : List ℕ) → is_path_prefix a path ≡ false → str_eq path a ≡ false
not_same a path h = elim (Bool-cases (str_eq path a)) [
  | inl y ↦ absurd (
      ground
        (arith, h, is_path_prefix_same a, ap (λ p. is_path_prefix a p) (str_eq_sound path a y)))
  | inr w ↦ w
]

-- A path that no mount is at or below is a new one.
some_below-Differs :
    (mounts : List Mount) (path : List ℕ) → some_below mounts path ≡ false → Differs path mounts
unfolding some_below
some_below-Differs [] path h = tt
some_below-Differs (m ∷ mounts) path h =
    (not_same m.path path (ground (arith, h)), some_below-Differs mounts path (ground (arith, h)))

-- The array with a mount whose path is a new one, in order.
pub AreDistinct-register :
    (mounts : List Mount) (m : Mount)
    → some_below mounts m.path ≡ false
    → AreDistinct mounts
    → AreDistinct (sort_mounts (mounts ++ (m ∷ [])))
AreDistinct-register mounts m new h =
    AreDistinct-sort_mounts (mounts ++ (m ∷ []))
      (AreDistinct-append_one mounts m (some_below-Differs mounts m.path new) h)

pub AreDistinct-del_mount :
    (mounts : List Mount) (path : List ℕ) → AreDistinct mounts → AreDistinct (del_mount mounts path)
unfolding del_mount
AreDistinct-del_mount [] path h = h
AreDistinct-del_mount (m ∷ mounts) path (d, h) = elim (Bool-cases (str_eq m.path path)) [
  | inl y ↦ rw y h
  | inr w ↦ rw w (
    All-del_mount (λ k. str_eq m.path k.path ≡ false) mounts path d,
    AreDistinct-del_mount mounts path h,
  )
]

-- What is left behind a deletion has other paths.
pub Differs-del_mount :
    (mounts : List Mount) (path : List ℕ)
    → AreDistinct mounts
    → Differs path (del_mount mounts path)
unfolding del_mount
Differs-del_mount [] path h = tt
Differs-del_mount (m ∷ mounts) path (d, h) = elim (Bool-cases (str_eq m.path path)) [
  | inl y ↦ rw y (rw (← str_eq_sound m.path path y) d)
  | inr w ↦ rw w (str_eq_sym path m.path ∙ w, Differs-del_mount mounts path h)
]
