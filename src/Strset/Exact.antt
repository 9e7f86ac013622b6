-- ===== src/Strset/Exact.antt =====
-- What add returns, where the hash tells the strings of the set apart.
use shvc.Base.{
  ℕ, suc, ◌-◌, ◌<◌, ◌≡◌, refl, sym, ap, ◌∙◌, arith, Bool, true, false, not, ◌&&◌, ltb, leb, ◌==◌,
}
use shvc.Base.{List, [], ◌∷◌, length, Bool-cases, inl, inr, ltb→lt}
use shvc.Base.Strings.{str_eq, str_eq_sound, str_eq_refl}
use shvc.Strset.{StrsetItem, Strset, strhash, hash_at, str_at, strpos, strpos_loop, add}
use shvc.Strset.Position.{IsOrdered, IsLast, strpos_loop-IsLast}
use shvc.Strset.Laws.{contains, contains-str_at}

-- The place of an item with the hash, where there is one.
strpos_hits :
    (items : List StrsetItem) (hsh k : ℕ)
    → IsOrdered items
    → k < length items
    → hash_at items k ≡ hsh
    → (strpos items hsh < length items) × (hash_at items (strpos items hsh) ≡ hsh)
unfolding strpos
strpos_hits [] hsh k ordered h e = absurd (omega arith)
strpos_hits (item ∷ items) hsh k ordered h e =
    let all = item ∷ items in
    let cnt = length all in
    let m = strpos_loop cnt all hsh 0 (cnt - 1) in
    let last : IsLast all hsh m =
      strpos_loop-IsLast cnt all hsh 0 (cnt - 1) ordered (omega arith) (omega arith) (omega arith)
        (λ p. absurd (omega (arith, p))) (λ k p q. absurd (omega arith)) in
    let filled : (length all == 0) ≡ false = ground arith in
    elim (Bool-cases (leb hsh (hash_at all m))) [
      | inl y ↦ rw (filled, y) (last.0, ground (arith, y, e, last.1, ordered m k))
      | inr n ↦ absurd (ground (arith, n, e, h, last.0, last.2 k, ordered k m))
    ]

contains_somewhere :
    (items : List StrsetItem) (str : List ℕ)
    → contains items str ≡ true
    → (k : ℕ) × (k < length items) × (str_at items k ≡ str)
unfolding contains str_at
contains_somewhere [] str h = absurd (ground (arith, h))
contains_somewhere (item ∷ items) str h = elim (Bool-cases (str_eq item.str str)) [
  | inl y ↦ (0, omega arith, str_eq_sound item.str str y)
  | inr n ↦
      let rest = contains_somewhere items str (ground (arith, n, h)) in
      (suc rest.0, omega (arith, rest.1), rest.2)
]

-- Every item has the hash of its string.
abbrev pub IsHashed : List StrsetItem → Type 0
IsHashed items = (k : ℕ) → k < length items → hash_at items k ≡ strhash (str_at items k)

-- No other string of the array has the hash of this one.
abbrev pub IsApart : List StrsetItem → List ℕ → Type 0
IsApart items str =
    (k : ℕ) → k < length items → hash_at items k ≡ strhash str → str_at items k ≡ str

-- On an array in the order of the hashes of its strings, of which no other one has the hash of the
-- string, add returns true exactly where the string was not in the set.
pub add-contains :
    (set : Strset) (str : List ℕ) (dyn : Bool)
    → IsOrdered set.items
    → IsHashed set.items
    → IsApart set.items str
    → (add set str dyn).0 ≡ not (contains set.items str)
unfolding add
add-contains set str dyn ordered hashed apart =
    let hsh = strhash str in
    let pos = strpos set.items hsh in
    let found =
      ltb pos (length set.items)
      && ((hash_at set.items pos == hsh) && str_eq (str_at set.items pos) str) in
    elim (Bool-cases (contains set.items str)) [
      | inl y ↦
          let (k, near, at_k) = contains_somewhere set.items str y in
          let hits = strpos_hits set.items hsh k ordered near (hashed k near ∙ ap strhash at_k) in
          let same = ap (λ s. str_eq s str) (apart pos hits.0 hits.1) ∙ str_eq_refl str in
          let hit : found ≡ true = ground (arith, same, hits.0, hits.1) in rw (y, hit) refl
      | inr n ↦ elim (Bool-cases found) [
        | inl hit ↦
            let e = str_eq_sound (str_at set.items pos) str (ground (arith, hit)) in
            let near : pos < length set.items =
              ltb→lt pos (length set.items) (ground (arith, hit)) in
            let there = ap (contains set.items) (sym e) ∙ contains-str_at set.items pos near in
            absurd (ground (arith, there, n))
        | inr miss ↦ rw (n, miss) refl
      ]
    ]
