-- ===== src/Strset/Runs.antt =====
-- Runs of the set of strings, and the theorems applied to concrete data.
use shvc.Base.{not, zero, suc}
use shvc.Strset.{str_at}
use shvc.Strset.Exact.{IsHashed, IsApart, add-contains}
use shvc.Base.{ℕ, ◌≡◌, refl, arith, true, false, ◌||◌, List, [], ◌∷◌, ◌≤◌, ◌<◌, length, zero, suc}
use shvc.Base.Strings.{str_eq}
use shvc.Strset.{Strset, strhash, hash_at, strpos, add}
use shvc.Strset.Position.{IsOrdered, strpos_splits}
use shvc.Strset.Laws.{contains, contains-add, add-IsOrdered, empty, add_collision}

-- "a", "b", and "aXXXb" and "bXXXa", which have the same hash.
abbrev a_str : List ℕ
a_str = 97 ∷ []

abbrev b_str : List ℕ
b_str = 98 ∷ []

abbrev axxxb : List ℕ
axxxb = 97 ∷ 88 ∷ 88 ∷ 88 ∷ 98 ∷ []

abbrev bxxxa : List ℕ
bxxxa = 98 ∷ 88 ∷ 88 ∷ 88 ∷ 97 ∷ []

abbrev two_items : Strset
two_items = record {
  items =
      record { hash = 97; str = a_str; dyn = false }
      ∷ record { hash = 98; str = b_str; dyn = false }
      ∷ [];
  siz = 2;
}

-- Three adds of two strings leave three items.
collision_grows : length (add (add (add empty axxxb false).1 bxxxa false).1 bxxxa false).1.items ≡ 3
unfolding add str_eq
collision_grows = refl

found_again : (add two_items b_str false).0 ≡ false
unfolding add str_eq
found_again = refl

two_items-IsOrdered : IsOrdered two_items.items
unfolding hash_at
two_items-IsOrdered zero zero h k = omega arith
two_items-IsOrdered zero (suc zero) h k = omega arith
two_items-IsOrdered (suc zero) (suc zero) h k = omega arith
two_items-IsOrdered i (suc (suc j)) h k = absurd (omega arith)
two_items-IsOrdered (suc i) zero h k = absurd (omega arith)
two_items-IsOrdered (suc (suc i)) (suc zero) h k = absurd (omega arith)

added_string :
    contains (add two_items axxxb true).1.items a_str
    ≡ (str_eq axxxb a_str || contains two_items.items a_str)
added_string = contains-add two_items axxxb true a_str

add-IsOrdered_example : IsOrdered (add two_items axxxb true).1.items
add-IsOrdered_example = add-IsOrdered two_items axxxb true two_items-IsOrdered

strpos_splits_example :
    (strpos two_items.items 98 ≤ length two_items.items)
    × ((k : ℕ) → k < strpos two_items.items 98 → hash_at two_items.items k ≤ 98)
    × ((k : ℕ)
        → strpos two_items.items 98 ≤ k
        → k < length two_items.items
        → 98 ≤ hash_at two_items.items k)
strpos_splits_example = strpos_splits two_items.items 98 two_items-IsOrdered

same_hash : strhash axxxb ≡ strhash bxxxa
unfolding strhash
same_hash = refl

differ_str : str_eq axxxb bxxxa ≡ false
unfolding str_eq
differ_str = refl

add_collision_example : (add (add (add empty axxxb true).1 bxxxa true).1 bxxxa true).0 ≡ true
add_collision_example = add_collision axxxb bxxxa true same_hash differ_str

two_items-IsHashed : IsHashed two_items.items
unfolding hash_at str_at strhash
two_items-IsHashed zero h = refl
two_items-IsHashed (suc zero) h = refl
two_items-IsHashed (suc (suc k)) h = absurd (omega arith)

two_items-IsApart : IsApart two_items.items b_str
unfolding hash_at str_at strhash
two_items-IsApart zero h e = absurd (omega (arith, e))
two_items-IsApart (suc zero) h e = refl
two_items-IsApart (suc (suc k)) h e = absurd (omega arith)

add-contains_example : (add two_items b_str true).0 ≡ not (contains two_items.items b_str)
add-contains_example =
    add-contains two_items b_str true two_items-IsOrdered two_items-IsHashed two_items-IsApart
