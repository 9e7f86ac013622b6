-- ===== src/Rpcri/Class.antt =====
-- The classes of libshvrpc/rpcri.c: rpcri_match_ranges and rpcri_match_negation.
use shvc.Base.{ℕ, Bool, true, false, not, ◌||◌, ◌==◌, if◌then◌else◌}
use shvc.Base.{◌≡◌, refl, inl, inr, Bool-cases, List, [], ◌∷◌, ◌++◌}
use shvc.Rpcri.{Matcher, Scan, hit, missed, beyond, fresh, seen, dashed}
use shvc.Rpcri.{scan_class, skip_class, in_range}
use shvc.Rpcri.{hyphen, open_bracket, close_bracket, exclamation}

-- What stands in a class: a character, or two with a hyphen between them.
pub data Item : Type 0 where
  one : ℕ → Item
  range : ℕ → ℕ → Item

unfoldable pub print_class : List Item → List ℕ
print_class [] = []
print_class (one d ∷ is) = d ∷ print_class is
print_class (range a b ∷ is) = a ∷ hyphen ∷ b ∷ print_class is

-- The ends of a range are in the class in whatever order they stand.
unfoldable pub in_item : ℕ → Item → Bool
in_item c (one d) = c == d
in_item c (range a b) = c == a || (in_range c a b || c == b)

unfoldable pub in_class : ℕ → List Item → Bool
in_class c [] = false
in_class c (i ∷ is) = in_item c i || in_class c is

-- Neither a hyphen nor the end of the class stands where it would be read as one.
abbrev pub IsItem : Item → Type 0
IsItem (one d) = ((d == hyphen) ≡ false) × ((d == close_bracket) ≡ false)
IsItem (range a b) =
    ((a == hyphen) ≡ false) × ((a == close_bracket) ≡ false) × ((b == close_bracket) ≡ false)

abbrev pub IsClass : List Item → Type 0
IsClass [] = Unit {0}
IsClass (i ∷ is) = IsItem i × IsClass is

-- Whether the byte was found, and the end of the class.
unfoldable pub scan_end : Scan → Bool × List ℕ
unfolding skip_class
scan_end (hit r) = (true, skip_class r)
scan_end (missed r) = (false, r)
scan_end beyond = (false, [])

module _ (c : ℕ) (p : List ℕ) where
  skip_class-items :
      (is : List Item)
      → IsClass is
      → skip_class (print_class is ++ close_bracket ∷ p) ≡ close_bracket ∷ p
  unfolding skip_class print_class
  skip_class-items [] w = refl
  skip_class-items (one d ∷ is) w = rw (w.0.1, skip_class-items is w.1) refl
  skip_class-items (range a b ∷ is) w = rw (w.0.1, w.0.2, skip_class-items is w.1) refl

  -- Behind the hyphen of a range.
  scan_dashed :
      (a b : ℕ) (is : List Item)
      → IsClass (range a b ∷ is)
      → scan_end (scan_class c (seen b) (print_class is ++ close_bracket ∷ p))
        ≡ (in_class c is, close_bracket ∷ p)
      → scan_end (scan_class c (dashed a) (b ∷ print_class is ++ close_bracket ∷ p))
        ≡ ((in_range c a b || c == b) || in_class c is, close_bracket ∷ p)
  unfolding scan_end scan_class skip_class
  scan_dashed a b is w ih = elim (Bool-cases (in_range c a b)) [
    | inl y ↦ rw (y, w.0.2, skip_class-items is w.1) refl
    | inr n ↦ elim (Bool-cases (c == b)) [
      | inl y ↦ rw (n, w.0.2, y, w.0.2, skip_class-items is w.1) refl
      | inr n' ↦ rw (n, w.0.2, n', ih) refl
    ]
  ]

  scan_seen :
      (is : List Item) (first : ℕ)
      → IsClass is
      → scan_end (scan_class c (seen first) (print_class is ++ close_bracket ∷ p))
        ≡ (in_class c is, close_bracket ∷ p)
  unfolding scan_end scan_class print_class in_class in_item skip_class
  scan_seen [] first w = refl
  scan_seen (one d ∷ is) first w = elim (Bool-cases (c == d)) [
    | inl y ↦ rw (w.0.0, w.0.1, y, w.0.1, skip_class-items is w.1) refl
    | inr n ↦ rw (w.0.0, w.0.1, n, scan_seen is d w.1) refl
  ]
  scan_seen (range a b ∷ is) first w =
      rw (w.0.0, w.0.1)
        (elim (Bool-cases (c == a)) [
          | inl y ↦ rw (y, w.0.1, w.0.2, skip_class-items is w.1) refl
          | inr n ↦ rw n (scan_dashed a b is w (scan_seen is b w.1))
        ])

  pub scan_fresh :
      (i : Item) (is : List Item)
      → IsClass (i ∷ is)
      → scan_end (scan_class c fresh (print_class (i ∷ is) ++ close_bracket ∷ p))
        ≡ (in_class c (i ∷ is), close_bracket ∷ p)
  unfolding scan_end scan_class print_class in_class in_item skip_class
  scan_fresh (one d) is w = elim (Bool-cases (c == d)) [
    | inl y ↦ rw (y, w.0.1, skip_class-items is w.1) refl
    | inr n ↦ rw (n, scan_seen is d w.1) refl
  ]
  scan_fresh (range a b) is w = elim (Bool-cases (c == a)) [
    | inl y ↦ rw (y, w.0.1, w.0.2, skip_class-items is w.1) refl
    | inr n ↦ rw n (scan_dashed a b is w (scan_seen is b w.1))
  ]

-- A class as it is written, up to its end.
unfoldable pub class_text : Bool → List Item → List ℕ
unfolding print_class
class_text negate is =
    open_bracket ∷ (if negate then exclamation ∷ print_class is else print_class is)

unfoldable pub fits_class : Bool → ℕ → List Item → Bool
unfolding in_class
fits_class negate c is = if negate then not (in_class c is) else in_class c is

-- The branch of `[` at a class that is closed, where something of the string is left.
module _ (next : Matcher) (i : Item) (is : List Item) (w : IsClass (i ∷ is)) (p s : List ℕ)
    (x : ℕ) where
  abbrev rest : List ℕ
  rest = print_class (i ∷ is) ++ close_bracket ∷ p
