-- ===== src/Stdio/Laws.antt =====
-- Several writes to a stream, and one.
use shvc.Base.{ℕ, zero, suc, ◌-◌, ◌≤◌, ◌≡◌, refl, ap, arith}
use shvc.Base.{List, [], ◌∷◌, ◌++◌, length, take}
use shvc.Base.{length-append, append_assoc}
use mathlib.Core.Path.{fun_ext}
use shvc.Stdio.{Sink, null, file, write, ◌⨾◌}

take-append_le : (n : ℕ) (xs ys : List ℕ) → n ≤ length xs → take n (xs ++ ys) ≡ take n xs
take-append_le zero xs ys h = refl
take-append_le (suc n) [] ys h = absurd (omega arith)
take-append_le (suc n) (x ∷ xs) ys h = ap (λ t. x ∷ t) (take-append_le n xs ys (omega arith))

take-append_ge :
    (n : ℕ) (xs ys : List ℕ) → length xs ≤ n → take n (xs ++ ys) ≡ xs ++ take (n - length xs) ys
take-append_ge n [] ys h = ground arith
take-append_ge zero (x ∷ xs) ys h = absurd (omega arith)
take-append_ge (suc n) (x ∷ xs) ys h = ground (arith, take-append_ge n xs ys)

write-append_at : (xs ys : List ℕ) (s : Sink) → (write xs ⨾ write ys) s ≡ write (xs ++ ys) s
unfolding write ◌⨾◌
write-append_at xs ys null = ground (arith, length-append xs ys)
write-append_at xs ys (file w room failed) = ground (
  arith,
  length-append xs ys,
  append_assoc w xs ys,
  append_assoc w xs (take (room - length xs) ys),
  take-append_le room xs ys,
  take-append_ge room xs ys,
)

pub write-append : (xs ys : List ℕ) → (write xs ⨾ write ys) ≡ write (xs ++ ys)
write-append xs ys = fun_ext (write-append_at xs ys)
