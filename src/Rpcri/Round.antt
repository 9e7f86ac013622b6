-- ===== src/Rpcri/Round.antt =====
-- A round of rpcri_match_one at a character and at `?`, in a pattern of Rpcri/Pattern.
use shvc.Base.{ℕ, suc, ◌-◌, true, false, leb, ◌==◌}
use shvc.Base.{◌≡◌, refl, sym, ◌↔◌, inl, inr, Bool-cases, arith}
use shvc.Base.{List, [], ◌∷◌, ◌++◌, length, drop}
use shvc.Rpcri.{Matcher, starts_with, is_below}
use shvc.Rpcri.{same_char, advance, literal, match_round}
use shvc.Rpcri.{question, open_bracket, asterisk, slash}
use shvc.Rpcri.Pattern.{Token, char, any, star, globstar, print, Takes, begins_star}
use shvc.Rpcri.Pattern.{IsPlain, Decides}
use shvc.Rpcri.Search.{Decides-iff}

pub match_round-char :
    (next : Matcher) (c : ℕ) (p : List ℕ) (left : ℕ) (s : List ℕ)
    → (c == question) ≡ false
    → (c == open_bracket) ≡ false
    → (c == asterisk) ≡ false
    → match_round next (c ∷ p) left s ≡ literal next (c ∷ p) left s
unfolding match_round starts_with
match_round-char next c p left s q b a = rw (q, b, a) refl

-- Only `**` prints as two asterisks.
print_two :
    (ts : List Token) (tail : List ℕ)
    → IsPlain ts
    → (length (print ts) == 2) ≡ true
    → starts_with (print ts ++ tail) asterisk ≡ true
    → starts_with (drop 1 (print ts ++ tail)) asterisk ≡ true
    → ts ≡ globstar ∷ []
unfolding print starts_with begins_star
print_two [] tail w n a b = absurd (ground arith)
print_two (char c ∷ ts) tail w n a b = absurd (ground arith)
print_two (any ∷ ts) tail w n a b = absurd (ground arith)
print_two (star ∷ []) tail w n a b = absurd (ground arith)
print_two (star ∷ char c ∷ ts) tail w n a b = absurd (ground arith)
print_two (star ∷ any ∷ ts) tail w n a b = absurd (ground arith)
print_two (star ∷ star ∷ ts) tail w n a b = absurd (ground arith)
print_two (star ∷ globstar ∷ ts) tail w n a b = absurd (ground arith)
print_two (globstar ∷ []) tail w n a b = refl
print_two (globstar ∷ char c ∷ ts) tail w n a b = absurd (ground arith)
print_two (globstar ∷ any ∷ ts) tail w n a b = absurd (ground arith)
print_two (globstar ∷ star ∷ ts) tail w n a b = absurd (ground arith)
print_two (globstar ∷ globstar ∷ ts) tail w n a b = absurd (ground arith)

-- What the rest of the pattern decides, where it is called.
abbrev pub Goes : List ℕ → List Token → Matcher → Type 0
Goes tail ts next =
    (s : List ℕ) → Decides (Takes ts s) (next (print ts ++ tail) (length (print ts)) s)

-- The special case is met exactly at a slash before a `**` that ends the pattern.
is_below_iff :
    (tail : List ℕ) (c : ℕ) (ts : List Token)
    → IsPlain ts
    → (is_below (c ∷ print ts ++ tail) (suc (length (print ts))) ≡ true)
      ↔ ((c ≡ slash) × (ts ≡ globstar ∷ []))
unfolding is_below starts_with print
is_below_iff tail c ts w = (
  λ h.
      let two = print_two ts tail w in
      (ground arith, two (ground arith) (ground arith) (ground arith)),
  λ (a, b). rw (a, b) refl,
)

pub less_one : (n : ℕ) → suc n - 1 ≡ n
less_one n = omega arith

char_inv :
    {c x : ℕ} {ts : List Token} {s : List ℕ}
    → ¬ ((c ≡ slash) × (ts ≡ globstar ∷ []))
    → Takes (char c ∷ ts) (x ∷ s)
    → (c ≡ x) × Takes ts s
char_inv {c} {x} {ts} {s} n (inl y) = absurd (n y)
char_inv {c} {x} {ts} {s} n (inr (v, e, m)) = let e' : v ≡ s = cc in (cc, rw (sym e') m)

any_inv : (x : ℕ) (ts : List Token) (s : List ℕ) → Takes (any ∷ ts) (x ∷ s) → Takes ts s
any_inv x ts s (c, v, e, m) = let e' : v ≡ s = cc in rw (sym e') m

-- A round at a plain character.
pub literal-Decides :
    (tail : List ℕ) (c : ℕ) (ts : List Token) (next : Matcher) (s : List ℕ)
    → IsPlain ts
    → Goes tail ts next
    → Decides
        (Takes (char c ∷ ts) s)
        (literal next (c ∷ print ts ++ tail) (suc (length (print ts))) s)
unfolding literal same_char advance
literal-Decides tail c ts next [] w h =
    elim (Bool-cases (is_below (c ∷ print ts ++ tail) (suc (length (print ts))))) [
      | inl y ↦ rw y (inl ((is_below_iff tail c ts w).0 y))
      | inr n ↦ rw n (λ m. elim m [
        | inl b ↦ ground (arith, (is_below_iff tail c ts w).1 b)
        | inr (v, e, _) ↦ cc
      ])
    ]
literal-Decides tail c ts next (x ∷ s) w h =
    elim (Bool-cases (is_below (c ∷ print ts ++ tail) (suc (length (print ts))))) [
      | inl y ↦ rw y (inl ((is_below_iff tail c ts w).0 y))
      | inr n ↦
          let not_below : ¬ ((c ≡ slash) × (ts ≡ globstar ∷ [])) =
            λ b. ground (arith, (is_below_iff tail c ts w).1 b) in
          elim (Bool-cases (c == x)) [
            | inl y ↦
                rw (n, y, less_one)
                  (Decides-iff {B = Takes (char c ∷ ts) (x ∷ s)}
                    (next (print ts ++ tail) (length (print ts)) s) (h s)
                    (λ m. inr (s, ground arith, m)) (λ m. (char_inv not_below m).1))
            | inr d ↦ rw (n, d) (λ m. ground (arith, (char_inv not_below m).0))
          ]
    ]

suc-leb : (n : ℕ) → leb (suc n) 0 ≡ false
suc-leb n = ground arith

-- A round at `?`.
pub any-Decides :
    (tail : List ℕ) (ts : List Token) (next : Matcher) (s : List ℕ)
    → Goes tail ts next
    → Decides
        (Takes (any ∷ ts) s)
        (match_round next (question ∷ print ts ++ tail) (suc (length (print ts))) s)
unfolding match_round starts_with literal is_below same_char advance
any-Decides tail ts next [] h = λ (c, v, e, m). cc
any-Decides tail ts next (x ∷ s) h =
    rw (less_one, suc-leb)
      (Decides-iff {B = Takes (any ∷ ts) (x ∷ s)} (next (print ts ++ tail) (length (print ts)) s)
        (h s) (λ m. (x, s, refl, m)) (any_inv x ts s))
