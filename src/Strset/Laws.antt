-- ===== src/Strset/Laws.antt =====
-- The set that the array stands for.
use shvc.Base.{
  ℕ, zero, suc, ◌-◌, ◌≤◌, ◌<◌, ◌≡◌, refl, sym, ap, ◌∙◌, arith, Bool, true, false, ◌&&◌, ◌||◌, ltb,
  ◌==◌,
}
use shvc.Base.{if◌then◌else◌, List, [], ◌∷◌, length, Bool-cases, inl, inr, ltb→lt}
use shvc.Base.Strings.{str_eq, str_eq_sound, str_eq_refl}
use shvc.Strset.{StrsetItem, Strset, strhash, hash_at, str_at, strpos, insert_at, add}
use shvc.Strset.Position.{IsOrdered, strpos_splits}

-- `str` is in the array.
unfoldable pub contains : List StrsetItem → List ℕ → Bool
contains [] str = false
contains (item ∷ items) str = str_eq item.str str || contains items str

contains-insert_at :
    (pos : ℕ) (item : StrsetItem) (items : List StrsetItem) (t : List ℕ)
    → contains (insert_at pos item items) t ≡ (str_eq item.str t || contains items t)
unfolding contains insert_at
contains-insert_at zero item items t = refl
contains-insert_at (suc pos) item [] t = refl
contains-insert_at (suc pos) item (x ∷ items) t =
    ground (arith, contains-insert_at pos item items t)

pub contains-str_at :
    (items : List StrsetItem) (pos : ℕ)
    → pos < length items
    → contains items (str_at items pos) ≡ true
unfolding contains str_at
contains-str_at [] pos h = absurd (omega arith)
contains-str_at (x ∷ items) zero h = ground (arith, str_eq_refl x.str)
contains-str_at (x ∷ items) (suc pos) h = ground (arith, contains-str_at items pos)

length-insert_at :
    (pos : ℕ) (item : StrsetItem) (items : List StrsetItem)
    → length (insert_at pos item items) ≡ suc (length items)
unfolding insert_at
length-insert_at zero item items = refl
length-insert_at (suc pos) item [] = refl
length-insert_at (suc pos) item (x ∷ items) = ap suc (length-insert_at pos item items)

hash_at-insert_at :
    (pos : ℕ) (item : StrsetItem) (items : List StrsetItem) (k : ℕ)
    → pos ≤ length items
    → hash_at (insert_at pos item items) k ≡ (
        if ltb k pos
        then hash_at items k
        else if k == pos
        then item.hash
        else hash_at items (k - 1))
unfolding hash_at insert_at
hash_at-insert_at zero item items zero h = ground arith
hash_at-insert_at zero item items (suc k) h = ground arith
hash_at-insert_at (suc pos) item [] k h = absurd (omega arith)
hash_at-insert_at (suc pos) item (x ∷ items) zero h = ground arith
hash_at-insert_at (suc pos) item (x ∷ items) (suc zero) h =
    ground (arith, hash_at-insert_at pos item items 0)
hash_at-insert_at (suc pos) item (x ∷ items) (suc (suc k)) h =
    ground (arith, hash_at-insert_at pos item items (suc k))

insert_at-IsOrdered :
    (items : List StrsetItem) (item : StrsetItem)
    → IsOrdered items
    → IsOrdered (insert_at (strpos items item.hash) item items)
insert_at-IsOrdered items item ordered i j le lt =
    let pos = strpos items item.hash in
    let splits = strpos_splits items item.hash ordered in
    let at_i = hash_at-insert_at pos item items i splits.0 in
    let at_j = hash_at-insert_at pos item items j splits.0 in
    let size = length-insert_at pos item items in
    ground (
      arith,
      at_i,
      at_j,
      size,
      splits.1 i,
      splits.2 (j - 1),
      ordered i j,
      ordered i (j - 1),
      ordered (i - 1) (j - 1),
    )

already :
    (items : List StrsetItem) (str t : List ℕ)
    → contains items str ≡ true
    → contains items t ≡ (str_eq str t || contains items t)
already items str t h = elim (Bool-cases (str_eq str t)) [
  | inl y ↦ ground (arith, y, ap (contains items) (sym (str_eq_sound str t y)), h)
  | inr n ↦ ground (arith, n)
]

-- What add puts into the set is the string, whether it was there or not, and nothing is lost.
pub contains-add :
    (set : Strset) (str : List ℕ) (dyn : Bool) (t : List ℕ)
    → contains (add set str dyn).1.items t ≡ (str_eq str t || contains set.items t)
unfolding add
contains-add set str dyn t =
    let pos = strpos set.items (strhash str) in
    let inside = ltb pos (length set.items) in
    let here = (hash_at set.items pos == strhash str) && str_eq (str_at set.items pos) str in
    elim (Bool-cases (inside && here)) [
      | inl y ↦
          let e = str_eq_sound (str_at set.items pos) str (ground (arith, y)) in
          let near : pos < length set.items = ltb→lt pos (length set.items) (ground (arith, y)) in
          let there = ap (contains set.items) (sym e) ∙ contains-str_at set.items pos near in
          rw y (already set.items str t there)
      | inr n ↦ rw n (contains-insert_at pos _ set.items t)
    ]

-- add keeps the hashes in order.
pub add-IsOrdered :
    (set : Strset) (str : List ℕ) (dyn : Bool)
    → IsOrdered set.items
    → IsOrdered (add set str dyn).1.items
unfolding add
add-IsOrdered set str dyn ordered =
    let pos = strpos set.items (strhash str) in
    let inside = ltb pos (length set.items) in
    let here = (hash_at set.items pos == strhash str) && str_eq (str_at set.items pos) str in
    elim (Bool-cases (inside && here)) [
      | inl y ↦ rw y ordered
      | inr n ↦ rw n (
          insert_at-IsOrdered set.items (record { hash = strhash str; str = str; dyn = dyn })
            ordered)
    ]

abbrev pub empty : Strset
empty = record { items = []; siz = 0 }

strpos_one : (x : ℕ) (item : StrsetItem) → item.hash ≡ x → strpos (item ∷ []) x ≡ 0
unfolding strpos hash_at
strpos_one x item h = ground (arith, h)

strpos_two :
    (x : ℕ) (first second : StrsetItem)
    → first.hash ≡ x
    → second.hash ≡ x
    → strpos (first ∷ second ∷ []) x ≡ 1
unfolding strpos hash_at
strpos_two x first second h k = ground (arith, h, k)

abbrev item_of : ℕ → List ℕ → Bool → StrsetItem
item_of x str dyn = record { hash = x; str = str; dyn = dyn }

collision_second :
    (x : ℕ) (a b : List ℕ) (dyn : Bool)
    → strhash b ≡ x
    → str_eq a b ≡ false
    → add (record { items = item_of x a dyn ∷ []; siz = 2 }) b dyn
      ≡ (true, record { items = item_of x b dyn ∷ item_of x a dyn ∷ []; siz = 2 })
unfolding add str_at insert_at
collision_second x a b dyn h n = rw (h, strpos_one x (item_of x a dyn) refl, n) (ground arith)

collision_third :
    (x : ℕ) (a b : List ℕ) (dyn : Bool)
    → strhash b ≡ x
    → str_eq a b ≡ false
    → (add (record { items = item_of x b dyn ∷ item_of x a dyn ∷ []; siz = 2 }) b dyn).0 ≡ true
unfolding add str_at
collision_third x a b dyn h n =
    rw (h, strpos_two x (item_of x b dyn) (item_of x a dyn) refl refl, n) (ground arith)

-- When two different strings with the same hash are added to the empty set, the second one is added
-- again by the call that follows: add looks at one item of that hash only, which is then the first
-- string.
pub add_collision :
    (a b : List ℕ) (dyn : Bool)
    → strhash a ≡ strhash b
    → str_eq a b ≡ false
    → (add (add (add empty a dyn).1 b dyn).1 b dyn).0 ≡ true
unfolding add
add_collision a b dyn h n =
    ap (λ (r : Bool × Strset). (add r.1 b dyn).0) (collision_second (strhash a) a b dyn (sym h) n)
    ∙ collision_third (strhash a) a b dyn (sym h) n
