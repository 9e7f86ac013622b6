-- ===== src/Broker/Mount/Search.antt =====
-- The binary search of mounted_client.
use shvc.Base.{
  ℕ, zero, suc, ◌+◌, ◌-◌, ◌/◌, ◌≤◌, ◌<◌, ◌≡◌, refl, sym, ap, ◌∙◌, Bool, true, false, ◌&&◌, ◌||◌,
  ltb, lt→ltb, ◌==◌,
}
use shvc.Base.{
  if◌then◌else◌, Option, none, some, List, [], ◌∷◌, length, get_elem?, All, arith, Option-cases,
  inl, inr, ◌⊎◌,
}
use shvc.Broker.State.{Mount, behind, is_path_prefix}
use shvc.Broker.Mount.{Order, less, same, more, compare_prefix, search_loop, mounted_at}

-- The first string is the lower one at a place that both have: they differ there, and none of them
-- is the start of the other.
unfoldable pub splits : List ℕ → List ℕ → Bool
splits [] ys = false
splits (x ∷ xs) [] = false
splits (x ∷ xs) (y ∷ ys) = ltb x y || ((x == y) && splits xs ys)

-- Mounts in order, of which none is the start of another as a string.
abbrev pub Apart : List Mount → Type 0
Apart [] = Unit
Apart (m ∷ mounts) = All (λ n. splits m.path n.path ≡ true) mounts × Apart mounts

compare-more :
    (path m t rest : List ℕ)
    → splits m t ≡ true
    → behind t path ≡ some rest
    → compare_prefix path m ≡ more
unfolding splits behind compare_prefix
compare-more path [] t rest h b = absurd (ground arith)
compare-more path (y ∷ m) [] rest h b = absurd (ground arith)
compare-more [] (y ∷ m) (z ∷ t) rest h b = absurd (ground arith)
compare-more (c ∷ path) (y ∷ m) (z ∷ t) rest h b = ground (arith, compare-more path m t rest)

compare-less :
    (path m t rest : List ℕ)
    → splits t m ≡ true
    → behind t path ≡ some rest
    → compare_prefix path m ≡ less
unfolding splits behind compare_prefix
compare-less path m [] rest h b = absurd (ground arith)
compare-less path [] (z ∷ t) rest h b = absurd (ground arith)
compare-less [] (y ∷ m) (z ∷ t) rest h b = absurd (ground arith)
compare-less (c ∷ path) (y ∷ m) (z ∷ t) rest h b = ground (arith, compare-less path m t rest)

compare-same : (path t rest : List ℕ) → behind t path ≡ some rest → compare_prefix path t ≡ same
unfolding behind compare_prefix
compare-same path [] rest b = refl
compare-same [] (z ∷ t) rest b = absurd (ground arith)
compare-same (c ∷ path) (z ∷ t) rest b = ground (arith, compare-same path t rest)

behind_prefix :
    (path t : List ℕ) → is_path_prefix path t ≡ true → (rest : List ℕ) × (behind t path ≡ some rest)
unfolding is_path_prefix behind
behind_prefix path [] h = (path, refl)
behind_prefix path (z ∷ t) h = elim (Option-cases (behind (z ∷ t) path)) [
  | inl e ↦ absurd (ground (arith, e))
  | inr (rest, e) ↦ (rest, e)
]

pub some_same : (m t : Mount) → some m ≡ some t → m ≡ t
some_same m t e = ap (λ o. elim o as (λ _. Mount) [ some x ↦ x | none ↦ m ]) e

splits-get :
    (path : List ℕ) (mounts : List Mount) (k : ℕ) (t : Mount)
    → All (λ n. splits path n.path ≡ true) mounts
    → get_elem? mounts k ≡ some t
    → splits path t.path ≡ true
splits-get path [] k t h e = absurd (ground arith)
splits-get path (m ∷ mounts) zero t (hm, h) e = rw (← some_same m t e) hm
splits-get path (m ∷ mounts) (suc k) t (hm, h) e = splits-get path mounts k t h e

-- Of two places, the lower one has the lower mount.
Apart-get :
    (mounts : List Mount) (j k : ℕ) (m t : Mount)
    → Apart mounts
    → j < k
    → get_elem? mounts j ≡ some m
    → get_elem? mounts k ≡ some t
    → splits m.path t.path ≡ true
Apart-get [] j k m t h lt e f = absurd (ground arith)
Apart-get (n ∷ mounts) j zero m t h lt e f = absurd (omega arith)
Apart-get (n ∷ mounts) zero (suc k) m t (hn, h) lt e f =
    rw (← some_same n m e) (splits-get n.path mounts k t hn f)
Apart-get (n ∷ mounts) (suc j) (suc k) m t (hn, h) lt e f =
    Apart-get mounts j k m t h (omega arith) e f

get_some :
    (mounts : List Mount) (k : ℕ) → k < length mounts → (m : Mount) × (get_elem? mounts k ≡ some m)
get_some [] k lt = absurd (omega arith)
get_some (m ∷ mounts) zero lt = (m, refl)
get_some (m ∷ mounts) (suc k) lt = get_some mounts k (omega arith)

get_below :
    (mounts : List Mount) (k : ℕ) (m : Mount) → get_elem? mounts k ≡ some m → k < length mounts
get_below [] k m e = absurd (ground arith)
get_below (n ∷ mounts) zero m e = omega arith
get_below (n ∷ mounts) (suc k) m e = omega (arith, get_below mounts k m e)

three_cases : (p k : ℕ) → (p < k) ⊎ (k < p) ⊎ (p ≡ k)
three_cases p k = ground arith

-- One round of the loop.
unfoldable pub next_round : ℕ → List Mount → List ℕ → ℕ → ℕ → Mount → Order → Option Mount
next_round fuel mounts path l u m same =
    let p = (u - 1 + l) / 2 in
    if is_path_prefix path m.path then some m else search_loop fuel mounts path (p + 1) u
next_round fuel mounts path l u m less = search_loop fuel mounts path l ((u - 1 + l) / 2)
next_round fuel mounts path l u m more = search_loop fuel mounts path ((u - 1 + l) / 2 + 1) u

pub search_loop_round :
    (fuel : ℕ) (mounts : List Mount) (path : List ℕ) (l u : ℕ) (m : Mount)
    → l < u
    → get_elem? mounts ((u - 1 + l) / 2) ≡ some m
    → search_loop (suc fuel) mounts path l u
      ≡ next_round fuel mounts path l u m (compare_prefix path m.path)
unfolding search_loop next_round
search_loop_round fuel mounts path l u m lt e = rw (search_loop, lt→ltb l u lt, e) refl

search_finds :
    (fuel : ℕ) (mounts : List Mount) (path rest : List ℕ) (l u k : ℕ) (t : Mount)
    → Apart mounts
    → get_elem? mounts k ≡ some t
    → behind t.path path ≡ some rest
    → is_path_prefix path t.path ≡ true
    → l ≤ k
    → k < u
    → u ≤ length mounts
    → u - l ≤ fuel
    → search_loop fuel mounts path l u ≡ some t
unfolding next_round
search_finds zero mounts path rest l u k t apart at b prefix low high bound enough =
    absurd (omega arith)
search_finds (suc fuel) mounts path rest l u k t apart at b prefix low high bound enough =
    let p : ℕ = (u - 1 + l) / 2 in
    let within : (l ≤ p) × (p < u) = (omega arith, omega arith) in
    let (m, e) = get_some mounts p (omega (arith, within)) in
    search_loop_round fuel mounts path l u m (omega arith) e ∙ elim (three_cases p k) [
      | inl below ↦
          rw (compare-more path m.path t.path rest (Apart-get mounts p k m t apart below e at) b) (
            search_finds fuel mounts path rest (p + 1) u k t apart at b prefix (omega arith) high
              bound (omega (arith, within)))
      | inr (inl above) ↦
          rw (compare-less path m.path t.path rest (Apart-get mounts k p t m apart above at e) b) (
            search_finds fuel mounts path rest l p k t apart at b prefix low above
              (omega (arith, within)) (omega (arith, within)))
      | inr (inr here) ↦
          let found : m ≡ t = some_same m t (sym e ∙ rw here at) in
          rw (found, compare-same path t.path rest b, prefix) refl
    ]

-- When the mounts are in order and none is the start of another as a string, the search finds the
-- mount that a path is at or below, wherever it stands.
pub mounted_at-is_path_prefix :
    (mounts : List Mount) (path : List ℕ) (k : ℕ) (t : Mount)
    → Apart mounts
    → get_elem? mounts k ≡ some t
    → is_path_prefix path t.path ≡ true
    → mounted_at mounts path ≡ some t
unfolding mounted_at
mounted_at-is_path_prefix mounts path k t apart at prefix =
    let (rest, b) = behind_prefix path t.path prefix in
    search_finds (length mounts) mounts path rest 0 (length mounts) k t apart at b prefix
      (omega arith) (get_below mounts k t at) (omega arith) (omega arith)
