-- ===== src/Strset.antt =====
-- The set of strings of libshvrpc/strset.c: an array of items in the order of their hashes.
pub mod Position
pub mod Laws
pub mod Exact
mod Runs
use shvc.Base.{
  ℕ, zero, suc, ◌+◌, ◌-◌, ◌*◌, ◌/◌, ◌%◌, ◌^◌, bit_xor, Bool, true, false, ◌&&◌, ltb, leb, ◌==◌,
}
use shvc.Base.{if◌then◌else◌, List, [], ◌∷◌, length}
use shvc.Base.Strings.{str_eq}

-- struct strset_item.
pub record StrsetItem : Type 0 where
  pub hash : ℕ
  pub str : List ℕ
  pub dyn : Bool

-- struct strset; `cnt` is the length of the list, `siz` the number of items allocated.
pub record Strset : Type 0 where
  pub items : List StrsetItem
  pub siz : ℕ

-- A signed char as an unsigned of 32 bits.
abbrev pub of_char : ℕ → ℕ
of_char c = if ltb c 128 then c else c + (2 ^ 32 - 256)

-- The loop of strhash. The two shifted parts share no bit, so `|` is `+`.
unfoldable pub strhash_loop : ℕ → List ℕ → ℕ
strhash_loop res [] = res
strhash_loop res (c ∷ str) =
    strhash_loop (bit_xor (res * 2 ^ 8 % 2 ^ 32 + res / 2 ^ 24) (of_char c)) str

unfoldable pub strhash : List ℕ → ℕ
unfolding strhash_loop
strhash str = strhash_loop 0 str

unfoldable pub hash_at : List StrsetItem → ℕ → ℕ
hash_at [] i = 0
hash_at (item ∷ items) zero = item.hash
hash_at (item ∷ items) (suc i) = hash_at items i

unfoldable pub str_at : List StrsetItem → ℕ → List ℕ
str_at [] i = []
str_at (item ∷ items) zero = item.str
str_at (item ∷ items) (suc i) = str_at items i

-- `while (min != max)` by fuel: every round makes the range shorter.
unfoldable pub strpos_loop : ℕ → List StrsetItem → ℕ → ℕ → ℕ → ℕ
unfolding hash_at
strpos_loop zero items hsh min max = min
strpos_loop (suc fuel) items hsh min max =
    let i = (min + max + 1) / 2 in
    let lower = strpos_loop fuel items hsh min (i - 1) in
    let upper = strpos_loop fuel items hsh i max in
    if min == max then min else if ltb hsh (hash_at items i) then lower else upper

-- strpos. Its parameter is an `int`, and is converted back to the unsigned hash where it is used.
unfoldable pub strpos : List StrsetItem → ℕ → ℕ
unfolding strpos_loop
strpos items hsh =
    let min = strpos_loop (length items) items hsh 0 (length items - 1) in
    if length items == 0 then 0 else if leb hsh (hash_at items min) then min else min + 1

-- The items behind `pos` move up, and one is written to its place.
unfoldable pub insert_at : ℕ → StrsetItem → List StrsetItem → List StrsetItem
insert_at zero item items = item ∷ items
insert_at (suc pos) item [] = item ∷ []
insert_at (suc pos) item (x ∷ items) = x ∷ insert_at pos item items

-- add.
unfoldable pub add : Strset → List ℕ → Bool → Bool × Strset
unfolding strhash strpos str_at insert_at
add set str dyn =
    let hsh = strhash str in
    let cnt = length set.items in
    let pos = strpos set.items hsh in
    let siz = if leb set.siz cnt then (if set.siz * 2 == 0 then 2 else set.siz * 2) else set.siz in
    if ltb pos cnt && ((hash_at set.items pos == hsh) && str_eq (str_at set.items pos) str)
    then (false, set)
    else (
      true,
      record {
        items = insert_at pos (record { hash = hsh; str = str; dyn = dyn }) set.items;
        siz = siz;
      },
    )

-- shv_strset_add_const; shv_strset_add and shv_strset_add_dyn also own the memory of the string.
unfoldable pub shv_strset_add_const : Strset → List ℕ → Bool × Strset
unfolding add
shv_strset_add_const set str = add set str false

unfoldable pub shv_strset_add : Strset → List ℕ → Bool × Strset
unfolding add
shv_strset_add set str = add set str true

unfoldable pub shv_strset_add_dyn : Strset → List ℕ → Bool × Strset
unfolding add
shv_strset_add_dyn set str = add set str true
