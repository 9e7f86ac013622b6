-- ===== src/Broker/Nbool.antt =====
-- libshvbroker/nbool.h: a set of client IDs as an array of 32-bit words. NULL is `none`; `cnt` is
-- the length of the list.
pub mod Words
mod Masks
pub mod Laws
use shvc.Base.{
  ℕ, zero, suc, ◌+◌, ◌-◌, ◌*◌, ◌/◌, ◌%◌, ◌^◌, ◌<◌, bit_and, bit_or, ltb, ◌==◌, not, Bool, true,
  false,
}
use shvc.Base.{
  Option, none, some, List, [], ◌∷◌, ◌++◌, length, get_or, take, replicate, if◌then◌else◌,
}

abbrev pub NboolT : Type 0
NboolT = Option (List ℕ)

-- NBOOL_N.
abbrev pub nbool_n : ℕ
nbool_n = 32

unfoldable pub valid_index : NboolT → ℕ → Bool
valid_index none i = false
valid_index (some vals) i = ltb i (length vals * nbool_n)

-- `memset` of the new words.
abbrev pub zeros : ℕ → List ℕ
zeros n = replicate n 0

-- __nbool_incease_size, for a count that is not lower: the new words are zero.
unfoldable pub increase_size : NboolT → ℕ → List ℕ
increase_size none cnt = zeros cnt
increase_size (some vals) cnt = vals ++ zeros (cnt - length vals)

-- Write to one word; the index is below the length wherever it is called.
unfoldable pub set_word : List ℕ → ℕ → ℕ → List ℕ
set_word [] q w = []
set_word (x ∷ xs) zero w = w ∷ xs
set_word (x ∷ xs) (suc q) w = x ∷ set_word xs q w

abbrev pub words : NboolT → List ℕ
words none = []
words (some vals) = vals

unfoldable pub nbool_set : NboolT → ℕ → NboolT
unfolding valid_index increase_size set_word
nbool_set v i =
    let q = i / nbool_n in
    let vals = if valid_index v i then words v else increase_size v (q + 1) in
    some (set_word vals q (bit_or (get_or vals q 0) (2 ^ (i % nbool_n))))

-- `while (ni > 0 && vals[ni - 1] == 0) ni--;`
unfoldable pub used_words : List ℕ → ℕ → ℕ
used_words vals zero = 0
used_words vals (suc ni) =
    let less = used_words vals ni in if get_or vals ni 0 == 0 then less else suc ni

-- `~(1 << k)` on an unsigned.
abbrev pub all_but : ℕ → ℕ
all_but k = 2 ^ 32 - 1 - 2 ^ k

unfoldable pub shrink : List ℕ → NboolT
unfolding used_words
shrink vals =
    let ni = used_words vals (length vals) in if ni == 0 then none else some (take ni vals)

unfoldable pub nbool_clear : NboolT → ℕ → NboolT
unfolding valid_index set_word shrink
nbool_clear v i =
    if not (valid_index v i)
    then v
    else shrink (
        set_word (words v) (i / nbool_n)
          (bit_and (get_or (words v) (i / nbool_n) 0) (all_but (i % nbool_n))))

-- `(*v)->vals[i] |= o->vals[i]` for every word of `o`, which are not more than those of `v`.
unfoldable pub or_words : List ℕ → List ℕ → List ℕ
or_words vals [] = vals
or_words [] (y ∷ ys) = []
or_words (x ∷ xs) (y ∷ ys) = bit_or x y ∷ or_words xs ys

unfoldable pub nbool_or : NboolT → NboolT → NboolT
unfolding increase_size or_words
nbool_or v none = v
nbool_or v (some o) =
    some (
      or_words (if ltb (length (words v)) (length o) then increase_size v (length o) else words v)
        o)

-- `nbool`.
unfoldable pub nbool : NboolT → ℕ → Bool
unfolding valid_index
nbool v i =
    if not (valid_index v i)
    then false
    else not (bit_and (get_or (words v) (i / nbool_n) 0) (2 ^ (i % nbool_n)) == 0)
