-- ===== src/Broker/Nbool/Laws.antt =====
-- The set that the words stand for: what `nbool_set`, `nbool_clear` and `nbool_or` do to membership.
use shvc.Base.{ℕ, ◌+◌, ◌*◌, ◌/◌, ◌%◌, ◌^◌, ◌≤◌, ◌<◌, ◌≡◌, refl, ap, ◌∙◌, bit_and, bit_or, arith}
use shvc.Base.{ltb, ◌==◌, not, Bool, false, none, some, List}
use shvc.Base.{
  length, get_or, take, if◌then◌else◌, ◌&&◌, ◌||◌, inl, inr, sym, Bool-cases, ==_iff, ltb→lt,
}
use shvc.Base.Bits.{bit, bit-lt, bit_and_power, bit-zero, and_zero, or_zero_right}
use shvc.Broker.Nbool.Masks.{power_pos, masked, same_index, bit_both, word_set, word_clear}
use shvc.Broker.Nbool.Words.{word-set_word, word-increase_size, length-increase_size, word-or_words}
use shvc.Broker.Nbool.Words.{word_beyond, word-take, used_words-zero}
use shvc.Broker.Nbool.{set_word, used_words, all_but, increase_size, words, NboolT, valid_index}
use shvc.Broker.Nbool.{nbool, nbool_set, nbool_clear, nbool_or, shrink}

-- The word that holds the bit of `i`.
abbrev word : NboolT → ℕ → ℕ
word v r = get_or (words v) r 0

abbrev has : NboolT → ℕ → Bool
has v i = bit (word v (i / 32)) (i % 32) == 1

ltb-false : (a b : ℕ) → ltb a b ≡ false → b ≤ a
ltb-false a b h = ground arith

outside : (xs : List ℕ) (i : ℕ) → length xs * 32 ≤ i → has (some xs) i ≡ false
outside xs i h =
    let w : get_or xs (i / 32) 0 ≡ 0 = word_beyond xs (i / 32) (omega arith) in
    ap (λ (x : ℕ). bit x (i % 32) == 1) w ∙ ap (λ (b : ℕ). b == 1) (bit-zero (i % 32))

-- Membership is one bit of one word, in range or not.
nbool_word : (v : NboolT) (i : ℕ) → nbool v i ≡ has v i
unfolding nbool valid_index
nbool_word none i = ground (arith, bit-zero (i % 32))
nbool_word (some xs) i =
    let mask = bit_and_power (i % 32) (get_or xs (i / 32) 0) in
    let test =
      masked (bit (get_or xs (i / 32) 0) (i % 32)) (2 ^ (i % 32)) (bit-lt _ _) (power_pos _) in
    let inside = λ (b : Bool).
      if not b then false else not (bit_and (get_or xs (i / 32) 0) (2 ^ (i % 32)) == 0) in
    elim (Bool-cases (ltb i (length xs * 32))) [
      | inl y ↦ ap inside y ∙ ap (λ (w : ℕ). not (w == 0)) mask ∙ test
      | inr n ↦ ap inside n ∙ sym (outside xs i (ltb-false i (length xs * 32) n))
    ]

-- The words after a write, for an array that reads as the set's words.
word_written :
    (v : NboolT) (vals : List ℕ) (q w : ℕ) (r : ℕ)
    → q < length vals
    → ((s : ℕ) → get_or vals s 0 ≡ word v s)
    → get_or (set_word vals q w) r 0 ≡ (if q == r then w else word v r)
word_written v vals q w r h same =
    word-set_word vals q w r h ∙ ap (λ (x : ℕ). if q == r then w else x) (same r)

-- The array that `nbool_set` writes to: it reaches the index and reads as the set's words.
enlarged : NboolT → ℕ → List ℕ
enlarged v i = if valid_index v i then words v else increase_size v (i / 32 + 1)

valid_index_iff : (v : NboolT) (i : ℕ) → valid_index v i ≡ ltb i (length (words v) * 32)
unfolding valid_index
valid_index_iff none i = ground arith
valid_index_iff (some xs) i = refl

enlarged-reaches : (v : NboolT) (i : ℕ) → i / 32 < length (enlarged v i)
unfolding enlarged
enlarged-reaches v i = elim (Bool-cases (valid_index v i)) [
  | inl y ↦ ground (arith, y, valid_index_iff v i)
  | inr n ↦ ground (arith, n, valid_index_iff v i, length-increase_size v (i / 32 + 1))
]

enlarged-same : (v : NboolT) (i r : ℕ) → get_or (enlarged v i) r 0 ≡ word v r
unfolding enlarged
enlarged-same v i r = ground (arith, word-increase_size v (i / 32 + 1) r)

word-nbool_set :
    (v : NboolT) (i r : ℕ)
    → word (nbool_set v i) r
      ≡ (if i / 32 == r then bit_or (word v (i / 32)) (2 ^ (i % 32)) else word v r)
unfolding nbool_set enlarged
word-nbool_set v i r =
    let q = i / 32 in
    let mask = λ (w : ℕ). bit_or w (2 ^ (i % 32)) in
    word_written v (enlarged v i) q (mask (get_or (enlarged v i) q 0)) r (enlarged-reaches v i)
      (enlarged-same v i)
    ∙ ap (λ (w : ℕ). if q == r then mask w else word v r) (enlarged-same v i q)

beyond_used : (xs : List ℕ) (r : ℕ) → used_words xs (length xs) ≤ r → get_or xs r 0 ≡ 0
beyond_used xs r h = elim (Bool-cases (ltb r (length xs))) [
  | inl y ↦ used_words-zero xs (length xs) r h (ltb→lt r (length xs) y)
  | inr n ↦ word_beyond xs r (ltb-false r (length xs) n)
]

word-take_used :
    (xs : List ℕ) (r : ℕ) → get_or (take (used_words xs (length xs)) xs) r 0 ≡ get_or xs r 0
word-take_used xs r =
    let used = used_words xs (length xs) in
    let kept = λ (b : Bool). if b then get_or xs r 0 else 0 in
    elim (Bool-cases (ltb r used)) [
      | inl y ↦ word-take used xs r ∙ ap kept y
      | inr n ↦ word-take used xs r ∙ ap kept n ∙ sym (beyond_used xs r (ltb-false r used n))
    ]

-- Cutting off the zero words at the end leaves what the array reads as.
word-shrink : (xs : List ℕ) (r : ℕ) → word (shrink xs) r ≡ get_or xs r 0
unfolding shrink
word-shrink xs r =
    let used = used_words xs (length xs) in
    let result = λ (b : Bool). get_or (words (if b then none else some (take used xs))) r 0 in
    elim (Bool-cases (used == 0)) [
      | inl y ↦ ap result y ∙ sym (beyond_used xs r (omega (arith, (==_iff used 0).0 y)))
      | inr n ↦ ap result n ∙ word-take_used xs r
    ]

-- Out of range there is no bit to clear.
clear_beyond :
    (v : NboolT) (i r : ℕ)
    → valid_index v i ≡ false
    → word v r ≡ (if i / 32 == r then bit_and (word v (i / 32)) (all_but (i % 32)) else word v r)
clear_beyond v i r h =
    let far = ltb-false i (length (words v) * 32) (sym (valid_index_iff v i) ∙ h) in
    let empty = word_beyond (words v) (i / 32) (omega (arith, far)) in
    elim (Bool-cases (i / 32 == r)) [
      | inl y ↦ ground (
        arith,
        y,
        empty,
        ap (λ (w : ℕ). word v w) ((==_iff (i / 32) r).0 y),
        ap (λ (w : ℕ). bit_and w (all_but (i % 32))) empty,
        and_zero (all_but (i % 32)),
      )
      | inr n ↦ ground (arith, n)
    ]

word-nbool_clear :
    (v : NboolT) (i r : ℕ)
    → word (nbool_clear v i) r
      ≡ (if i / 32 == r then bit_and (word v (i / 32)) (all_but (i % 32)) else word v r)
unfolding nbool_clear
word-nbool_clear v i r =
    let less = bit_and (word v (i / 32)) (all_but (i % 32)) in
    let rest = set_word (words v) (i / 32) less in
    let result = λ (b : Bool). word (if not b then v else shrink rest) r in
    elim (Bool-cases (valid_index v i)) [
      | inl y ↦
          let near = ltb→lt i (length (words v) * 32) (sym (valid_index_iff v i) ∙ y) in
          ap result y
          ∙ word-shrink rest r
          ∙ word_written v (words v) (i / 32) less r (omega (arith, near)) (λ s. refl)
      | inr n ↦ ap result n ∙ clear_beyond v i r n
    ]

-- The array that `nbool_or` writes to.
widened : NboolT → ℕ → List ℕ
widened v n = if ltb (length (words v)) n then increase_size v n else words v

widened-reaches : (v : NboolT) (n : ℕ) → n ≤ length (widened v n)
unfolding widened
widened-reaches v n = ground (arith, length-increase_size v n)

widened-same : (v : NboolT) (n r : ℕ) → get_or (widened v n) r 0 ≡ word v r
unfolding widened
widened-same v n r = ground (arith, word-increase_size v n r)

word-nbool_or : (v o : NboolT) (r : ℕ) → word (nbool_or v o) r ≡ bit_or (word v r) (word o r)
unfolding nbool_or widened
word-nbool_or v none r = sym (or_zero_right (word v r))
word-nbool_or v (some o) r =
    let big = widened v (length o) in
    let or = λ (x : ℕ). bit_or x (get_or o r 0) in
    let read = word-or_words big o r (widened-reaches v (length o)) in
    elim (Bool-cases (ltb r (length o))) [
      | inl y ↦
          read
          ∙ ap (λ (b : Bool). if b then or (get_or big r 0) else get_or big r 0) y
          ∙ ap or (widened-same v (length o) r)
      | inr n ↦
          let none_there = word_beyond o r (ltb-false r (length o) n) in
          read
          ∙ ap (λ (b : Bool). if b then or (get_or big r 0) else get_or big r 0) n
          ∙ widened-same v (length o) r
          ∙ sym (ap (bit_or (word v r)) none_there ∙ or_zero_right (word v r))
    ]

-- After `nbool_set` the set holds what it held and the new index, and nothing else.
pub nbool-nbool_set : (v : NboolT) (i j : ℕ) → nbool (nbool_set v i) j ≡ ((i == j) || nbool v j)
nbool-nbool_set v i j =
    let now =
      nbool_word (nbool_set v i) j
      ∙ ap (λ (w : ℕ). bit w (j % 32) == 1) (word-nbool_set v i (j / 32)) in
    let set = word_set (word v) (i / 32) (j / 32) (i % 32) (j % 32) (omega arith) (omega arith) in
    now
    ∙ set
    ∙ ap (λ (b : Bool). b || has v j) (sym (same_index i j))
    ∙ ap (λ (b : Bool). (i == j) || b) (sym (nbool_word v j))

-- After `nbool_clear` the set holds what it held less the index.
pub nbool-nbool_clear :
    (v : NboolT) (i j : ℕ) → nbool (nbool_clear v i) j ≡ (not (i == j) && nbool v j)
nbool-nbool_clear v i j =
    let now =
      nbool_word (nbool_clear v i) j
      ∙ ap (λ (w : ℕ). bit w (j % 32) == 1) (word-nbool_clear v i (j / 32)) in
    let cleared =
      word_clear (word v) (i / 32) (j / 32) (i % 32) (j % 32) (omega arith) (omega arith) in
    now
    ∙ cleared
    ∙ ap (λ (b : Bool). not b && has v j) (sym (same_index i j))
    ∙ ap (λ (b : Bool). not (i == j) && b) (sym (nbool_word v j))

-- After `nbool_or` the set holds what one of the two sets held.
pub nbool-nbool_or : (v o : NboolT) (j : ℕ) → nbool (nbool_or v o) j ≡ (nbool v j || nbool o j)
nbool-nbool_or v o j =
    nbool_word (nbool_or v o) j
    ∙ ap (λ (w : ℕ). bit w (j % 32) == 1) (word-nbool_or v o (j / 32))
    ∙ bit_both (word v (j / 32)) (word o (j / 32)) (j % 32)
    ∙ ap (λ (b : Bool). b || has o j) (sym (nbool_word v j))
    ∙ ap (λ (b : Bool). nbool v j || b) (sym (nbool_word o j))
