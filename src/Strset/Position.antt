-- ===== src/Strset/Position.antt =====
-- The binary search of strpos on an array in the order of the hashes.
use shvc.Base.{ℕ, zero, suc, ◌+◌, ◌-◌, ◌/◌, ◌≤◌, ◌<◌, ◌≡◌, arith, false, ltb, leb, ◌==◌}
use shvc.Base.{List, [], ◌∷◌, length, Bool-cases, inl, inr, ==_iff, ltb→lt}
use shvc.Strset.{StrsetItem, hash_at, strpos_loop, strpos}

-- The hashes do not descend.
abbrev pub IsOrdered : List StrsetItem → Type 0
IsOrdered items = (i j : ℕ) → i ≤ j → j < length items → hash_at items i ≤ hash_at items j

-- The last place with a hash that is not above `hsh`, or the first place of all.
abbrev pub IsLast : List StrsetItem → ℕ → ℕ → Type 0
IsLast items hsh m =
    (m < length items)
    × (0 < m → hash_at items m ≤ hsh)
    × ((k : ℕ) → m < k → k < length items → hsh < hash_at items k)

pub strpos_loop-IsLast :
    (fuel : ℕ) (items : List StrsetItem) (hsh min max : ℕ)
    → IsOrdered items
    → max - min < fuel
    → min ≤ max
    → max < length items
    → (0 < min → hash_at items min ≤ hsh)
    → ((k : ℕ) → max < k → k < length items → hsh < hash_at items k)
    → IsLast items hsh (strpos_loop fuel items hsh min max)
unfolding strpos_loop
strpos_loop-IsLast zero items hsh min max ordered enough le lt low high = absurd (omega arith)
strpos_loop-IsLast (suc fuel) items hsh min max ordered enough le lt low high =
    let i = (min + max + 1) / 2 in
    elim (Bool-cases (min == max)) [
      | inl y ↦
          let e = (==_iff min max).0 y in
          rw y (omega (arith, e), low, λ k p q. high k (omega (arith, e)) q)
      | inr n ↦
          let apart : min < max = ground (arith, n) in
          elim (Bool-cases (ltb hsh (hash_at items i))) [
            | inl y ↦
                rw (n, y)
                  (strpos_loop-IsLast fuel items hsh min (i - 1) ordered (omega arith) (omega arith)
                    (omega arith) low
                    (λ k p q.
                      omega (arith, ltb→lt hsh (hash_at items i) y, ordered i k (omega arith) q)))
            | inr m ↦
                rw (n, m)
                  (strpos_loop-IsLast fuel items hsh i max ordered (omega arith) (omega arith) lt
                    (λ p. ground (arith, m)) high)
          ]
    ]

-- strpos returns a place of the array or its end; the hashes before it are not above the one that
-- is looked for, and those from it on are not below.
pub strpos_splits :
    (items : List StrsetItem) (hsh : ℕ)
    → IsOrdered items
    → (strpos items hsh ≤ length items)
      × ((k : ℕ) → k < strpos items hsh → hash_at items k ≤ hsh)
      × ((k : ℕ) → strpos items hsh ≤ k → k < length items → hsh ≤ hash_at items k)
unfolding strpos
strpos_splits [] hsh ordered =
    (omega arith, λ k p. absurd (omega arith), λ k p q. absurd (omega arith))
strpos_splits (item ∷ items) hsh ordered =
    let all = item ∷ items in
    let cnt = length all in
    let m = strpos_loop cnt all hsh 0 (cnt - 1) in
    let last : IsLast all hsh m =
      strpos_loop-IsLast cnt all hsh 0 (cnt - 1) ordered (omega arith) (omega arith) (omega arith)
        (λ p. absurd (omega (arith, p))) (λ k p q. absurd (omega arith)) in
    let filled : (length all == 0) ≡ false = ground arith in
    elim (Bool-cases (leb hsh (hash_at all m))) [
      | inl y ↦
          rw (filled, y)
            (
              omega (arith, last.0),
              λ k p. omega (arith, last.1 (omega arith), ordered k m (omega arith) last.0),
              λ k p q. ground (arith, y, ordered m k p q),
            )
      | inr n ↦
          rw (filled, n)
            (
              omega (arith, last.0),
              λ k p. ground (arith, n, ordered k m (omega arith) last.0),
              λ k p q. omega (arith, last.2 k (omega arith) q),
            )
    ]
