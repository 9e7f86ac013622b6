-- ===== src/Rpcaccess/Tokens.antt =====
-- A string of access levels as the words between its commas.
use shvc.Base.{ℕ, zero, suc, ◌≤◌, false, ◌==◌}
use shvc.Base.{none, some, Option-cases, List, [], ◌∷◌, ◌++◌, length, drop, All}
use shvc.Base.{◌≡◌, refl, ap, ◌∙◌, inl, inr, arith, length-append}
use shvc.Rpcaccess.{Lookup, rpcaccess_none, comma, strchrnul, skip_comma, discard, higher}
use shvc.Rpcaccess.{extract_loop, rpcaccess_granted_extract}

-- The words with a comma before each.
unfoldable pub behind_commas : List (List ℕ) → List ℕ
behind_commas [] = []
behind_commas (w ∷ ws) = comma ∷ (w ++ behind_commas ws)

-- The words with commas between them.
unfoldable pub join : List (List ℕ) → List ℕ
unfolding behind_commas
join [] = []
join (w ∷ ws) = w ++ behind_commas ws

-- No comma is in the word.
abbrev pub IsWord : List ℕ → Type 0
IsWord w = All (λ c. (c == comma) ≡ false) w

-- The highest level of the words, from one on, and the words that have none.
unfoldable pub highest : Lookup → ℕ → List (List ℕ) → ℕ
unfolding higher
highest gperf res [] = res
highest gperf res (w ∷ ws) = elim (gperf w) as (λ _. ℕ) [
  | some acc ↦ highest gperf (higher acc res) ws
  | none ↦ highest gperf res ws
]

unfoldable pub unknown : Lookup → List (List ℕ) → List (List ℕ)
unknown gperf [] = []
unknown gperf (w ∷ ws) =
    let rest = unknown gperf ws in
    elim (gperf w) as (λ _. List (List ℕ)) [ some acc ↦ rest | none ↦ w ∷ rest ]

module _ (gperf : Lookup) (w : List ℕ) (ws : List (List ℕ)) where
  highest-none : (res : ℕ) → gperf w ≡ none → highest gperf res (w ∷ ws) ≡ highest gperf res ws
  unfolding highest
  highest-none res y = rw (highest, y) refl

  highest-some :
      (res acc : ℕ)
      → gperf w ≡ some acc
      → highest gperf res (w ∷ ws) ≡ highest gperf (higher acc res) ws
  unfolding highest
  highest-some res acc y = rw (highest, y) refl

  unknown-none : gperf w ≡ none → unknown gperf (w ∷ ws) ≡ w ∷ unknown gperf ws
  unfolding unknown
  unknown-none y = rw (unknown, y) refl

  unknown-some : (acc : ℕ) → gperf w ≡ some acc → unknown gperf (w ∷ ws) ≡ unknown gperf ws
  unfolding unknown
  unknown-some acc y = rw (unknown, y) refl

strchrnul-append :
    (w : List ℕ) (ws : List (List ℕ))
    → IsWord w
    → strchrnul (w ++ behind_commas ws) ≡ (w, behind_commas ws)
unfolding strchrnul behind_commas
strchrnul-append [] [] h = refl
strchrnul-append [] (w ∷ ws) h = refl
strchrnul-append (c ∷ w) ws h = rw (strchrnul-append w ws h.1, h.0) refl

-- The loop at a comma, or at the end.
extract_loop-behind_commas :
    (fuel : ℕ) (gperf : Lookup) (res : ℕ) (ws : List (List ℕ))
    → length (behind_commas ws) ≤ fuel
    → All IsWord ws
    → extract_loop fuel gperf res (behind_commas ws)
      ≡ (highest gperf res ws, behind_commas (unknown gperf ws))
unfolding behind_commas extract_loop skip_comma discard highest unknown
extract_loop-behind_commas zero gperf res [] b h = refl
extract_loop-behind_commas zero gperf res (w ∷ ws) b h = absurd (omega arith)
extract_loop-behind_commas (suc fuel) gperf res [] b h = refl
extract_loop-behind_commas (suc fuel) gperf res (w ∷ ws) b h =
    let split = strchrnul-append w ws h.0 in
    let shorter : length (behind_commas ws) ≤ fuel =
      omega (arith, length-append w (behind_commas ws)) in
    elim (Option-cases (gperf w)) [
      | inl y ↦
          let ih = extract_loop-behind_commas fuel gperf res ws shorter h.1 in
          rw (highest-none gperf w ws res y, unknown-none gperf w ws y)
            (rw (extract_loop, split, y, split, ih) refl)
      | inr (acc, y) ↦
          let ih = extract_loop-behind_commas fuel gperf (higher acc res) ws shorter h.1 in
          rw (highest-some gperf w ws res acc y, unknown-some gperf w ws acc y)
            (rw (extract_loop, split, y, split, ih) refl)
    ]

drop-behind_commas : (ws : List (List ℕ)) → drop 1 (behind_commas ws) ≡ join ws
unfolding behind_commas join
drop-behind_commas [] = refl
drop-behind_commas (w ∷ ws) = refl

length-join : (ws : List (List ℕ)) → length (join ws) ≤ length (behind_commas ws)
unfolding behind_commas join
length-join [] = omega arith
length-join (w ∷ ws) = omega arith

extract_loop-join :
    (fuel : ℕ) (gperf : Lookup) (res : ℕ) (ws : List (List ℕ))
    → gperf [] ≡ none
    → length (join ws) ≤ fuel
    → All IsWord ws
    → extract_loop fuel gperf res (join ws) ≡ (highest gperf res ws, join (unknown gperf ws))
unfolding join extract_loop discard behind_commas highest unknown skip_comma
extract_loop-join zero gperf res [] g b h = refl
extract_loop-join (suc fuel) gperf res [] g b h = refl
extract_loop-join fuel gperf res ([] ∷ ws) g b h =
    rw (highest-none gperf [] ws res g, unknown-none gperf [] ws g)
      (extract_loop-behind_commas fuel gperf res ws b h.1)
extract_loop-join zero gperf res ((c ∷ w) ∷ ws) g b h = absurd (omega arith)
extract_loop-join (suc fuel) gperf res ((c ∷ w) ∷ ws) g b h =
    let split = strchrnul-append (c ∷ w) ws h.0 in
    let rest : List ℕ = w ++ behind_commas ws in
    let skip : skip_comma (c ∷ rest) ≡ ([], c ∷ rest) = rw (skip_comma, h.0.0) refl in
    let shorter : length (behind_commas ws) ≤ fuel =
      omega (arith, length-append w (behind_commas ws)) in
    elim (Option-cases (gperf (c ∷ w))) [
      | inl y ↦
          let ih = extract_loop-behind_commas fuel gperf res ws shorter h.1 in
          rw (highest-none gperf (c ∷ w) ws res y, unknown-none gperf (c ∷ w) ws y)
            (rw (extract_loop, skip, split, y, skip, split, ih) refl)
      | inr (acc, y) ↦
          let ih =
            extract_loop-join fuel gperf (higher acc res) ws g (omega (arith, length-join ws))
              h.1 in
          rw (highest-some gperf (c ∷ w) ws res acc y, unknown-some gperf (c ∷ w) ws acc y)
            (rw (extract_loop, skip, split, y, skip, split)
              (ap (extract_loop fuel gperf (higher acc res)) (drop-behind_commas ws) ∙ ih))
    ]

-- On words with commas between them, where the lookup knows no empty word, rpcaccess_granted_extract
-- gives the highest level of the words that the lookup knows, and leaves the other words in their
-- order with commas between them.
pub rpcaccess_granted_extract-join :
    (gperf : Lookup) (ws : List (List ℕ))
    → gperf [] ≡ none
    → All IsWord ws
    → rpcaccess_granted_extract gperf (join ws)
      ≡ (highest gperf rpcaccess_none ws, join (unknown gperf ws))
unfolding rpcaccess_granted_extract
rpcaccess_granted_extract-join gperf ws g h =
    extract_loop-join (length (join ws)) gperf rpcaccess_none ws g (omega arith) h
