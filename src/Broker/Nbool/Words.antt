-- ===== src/Broker/Nbool/Words.antt =====
-- The words of the arrays, read with zero behind the end, and the bits of a word.
use shvc.Base.{ℕ, zero, suc, ◌+◌, ◌-◌, ◌≤◌, ◌<◌, ◌≡◌, refl, ap, bit_or, arith}
use shvc.Base.{ltb, ◌==◌, none, some, List, [], ◌∷◌, ◌++◌}
use shvc.Base.{length, get_or, take, if◌then◌else◌}
use shvc.Broker.Nbool.{set_word, used_words, or_words, increase_size, words, NboolT, zeros}

pub word-set_word :
    (xs : List ℕ) (q w r : ℕ)
    → q < length xs
    → get_or (set_word xs q w) r 0 ≡ (if q == r then w else get_or xs r 0)
unfolding set_word
word-set_word [] q w r h = absurd (omega arith)
word-set_word (x ∷ xs) zero w zero h = refl
word-set_word (x ∷ xs) zero w (suc r) h = ground arith
word-set_word (x ∷ xs) (suc q) w zero h = ground arith
word-set_word (x ∷ xs) (suc q) w (suc r) h = ground (arith, word-set_word xs q w r)

pub length-set_word : (xs : List ℕ) (q w : ℕ) → length (set_word xs q w) ≡ length xs
unfolding set_word
length-set_word [] q w = refl
length-set_word (x ∷ xs) zero w = refl
length-set_word (x ∷ xs) (suc q) w = ap suc (length-set_word xs q w)

word-replicate : (n r : ℕ) → get_or (zeros n) r 0 ≡ 0
word-replicate zero r = refl
word-replicate (suc n) zero = refl
word-replicate (suc n) (suc r) = word-replicate n r

word-append : (xs : List ℕ) (n r : ℕ) → get_or (xs ++ zeros n) r 0 ≡ get_or xs r 0
word-append [] n r = word-replicate n r
word-append (x ∷ xs) n zero = refl
word-append (x ∷ xs) n (suc r) = word-append xs n r

pub word-increase_size :
    (v : NboolT) (n r : ℕ) → get_or (increase_size v n) r 0 ≡ get_or (words v) r 0
unfolding increase_size
word-increase_size none n r = word-replicate n r
word-increase_size (some xs) n r = word-append xs (n - length xs) r

length-replicate : (n : ℕ) → length (zeros n) ≡ n
length-replicate zero = refl
length-replicate (suc n) = ap suc (length-replicate n)

length-append_zeros : (xs : List ℕ) (n : ℕ) → length (xs ++ zeros n) ≡ length xs + n
length-append_zeros [] n = omega (arith, length-replicate n)
length-append_zeros (x ∷ xs) n = omega (arith, length-append_zeros xs n)

pub length-increase_size :
    (v : NboolT) (n : ℕ) → length (words v) ≤ n → length (increase_size v n) ≡ n
unfolding increase_size
length-increase_size none n h = length-replicate n
length-increase_size (some xs) n h = omega (arith, length-append_zeros xs (n - length xs))

pub word-or_words :
    (xs ys : List ℕ) (r : ℕ)
    → length ys ≤ length xs
    → get_or (or_words xs ys) r 0
      ≡ (if ltb r (length ys) then bit_or (get_or xs r 0) (get_or ys r 0) else get_or xs r 0)
unfolding or_words
word-or_words xs [] r h = ground arith
word-or_words [] (y ∷ ys) r h = absurd (omega arith)
word-or_words (x ∷ xs) (y ∷ ys) zero h = ground arith
word-or_words (x ∷ xs) (y ∷ ys) (suc r) h = ground (arith, word-or_words xs ys r)

pub word_beyond : (xs : List ℕ) (r : ℕ) → length xs ≤ r → get_or xs r 0 ≡ 0
word_beyond [] r h = refl
word_beyond (x ∷ xs) zero h = absurd (omega arith)
word_beyond (x ∷ xs) (suc r) h = word_beyond xs r (omega arith)

pub word-take :
    (n : ℕ) (xs : List ℕ) (r : ℕ) → get_or (take n xs) r 0 ≡ (if ltb r n then get_or xs r 0 else 0)
word-take zero xs r = ground arith
word-take (suc n) [] r = ground arith
word-take (suc n) (x ∷ xs) zero = ground arith
word-take (suc n) (x ∷ xs) (suc r) = ground (arith, word-take n xs r)

-- The words that `used_words` passes over are zero, and the last one that it keeps is not.
pub used_words-zero : (xs : List ℕ) (n r : ℕ) → used_words xs n ≤ r → r < n → get_or xs r 0 ≡ 0
unfolding used_words
used_words-zero xs zero r h k = absurd (omega arith)
used_words-zero xs (suc n) r h k = ground (arith, used_words-zero xs n r)

pub used_words-le : (xs : List ℕ) (n : ℕ) → used_words xs n ≤ n
unfolding used_words
used_words-le xs zero = omega arith
used_words-le xs (suc n) = ground (arith, used_words-le xs n)
