-- ===== src/CpTools/Whole.antt =====
-- Whole items, and that cp_repack packs exactly one.
use shvc.Base.{ℕ, suc, Bool, true, false, not, ◌==◌}
use shvc.Base.{List, [], ◌∷◌, ◌++◌, append_assoc}
use shvc.Base.{◌≡◌, sym, ap, arith}
use shvc.CpItem.{
  Value, invalid, null, bool, int, uint, double, decimal, blob, string, datetime, list, map, imap,
  meta, container_end,
}
use shvc.CpTools.{same, up, down, effect, Repacked}

-- Whole items one after the other: each is in one piece, or it is opened and closed with whole items
-- between. The latter are containers, and strings and blobs in several pieces.
pub data Items : Type 0 where
  nothing : Items
  single : Value → Items → Items
  group : Value → Items → Value → Items → Items

unfoldable pub all_of : Items → List Value
all_of nothing = []
all_of (single v is) = v ∷ all_of is
all_of (group a inner b is) = a ∷ (all_of inner ++ b ∷ all_of is)

unfoldable pub is_meta : Value → Bool
is_meta meta = true
is_meta (blob i) = false
is_meta (string i) = false
is_meta (invalid e) = false
is_meta null = false
is_meta (bool b) = false
is_meta (int i) = false
is_meta (uint n) = false
is_meta (double n) = false
is_meta (decimal m e) = false
is_meta (datetime m o) = false
is_meta list = false
is_meta map = false
is_meta imap = false
is_meta container_end = false

-- A meta belongs to the item behind it, so that there is one.
unfoldable pub leads : Value → Items → Bool
leads a nothing = not (is_meta a)
leads a (single v is) = true
leads a (group b inner c is) = true

-- The effects of the items are those of their places, the packer takes them, and each meta has its
-- item behind it.
abbrev pub IsWhole : (Value → Bool) → Items → Type 0
IsWhole takes nothing = Unit {0}
IsWhole takes (single v is) = (effect v ≡ same) × (takes v ≡ true) × IsWhole takes is
IsWhole takes (group a inner b is) =
    ((effect a ≡ up) × (takes a ≡ true))
    × ((effect b ≡ down) × (takes b ≡ true))
    × IsWhole takes inner
    × (leads a is ≡ true)
    × IsWhole takes is

unfoldable pub prepend : List Value → Repacked → Repacked
prepend vs r = record r { packed = vs ++ r.packed }

pub prepend-append :
    (xs ys : List Value) (r : Repacked) → prepend xs (prepend ys r) ≡ prepend (xs ++ ys) r
unfolding prepend
prepend-append xs ys r = ap (λ p. record r { packed = p }) (sym (append_assoc xs ys r.packed))

pub suc_eq0 : (n : ℕ) → (suc n == 0) ≡ false
suc_eq0 n = ground arith

-- There is one whole item, which has no meta of its own where the items are whole.
abbrev pub IsOne : Items → Type 0
IsOne nothing = ⊥
IsOne (single v is) = is ≡ nothing
IsOne (group a inner b is) = is ≡ nothing
