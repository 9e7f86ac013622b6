-- ===== src/Rpcri/Pattern.antt =====
-- What a pattern of libshvrpc/rpcri.c without classes stands for, with no search order in it.
use shvc.Base.{
  ℕ, ◌≤◌, Bool, true, false, ◌==◌, if◌then◌else◌, ◌≡◌, ◌⊎◌, inl, inr, List, [], ◌∷◌, length, take,
  drop,
}
use shvc.Rpcri.{Verdict, accepted, rejected, read_beyond, no_fuel, starts_with}
use shvc.Rpcri.{question, open_bracket, asterisk, slash}

pub data Token : Type 0 where
  char : ℕ → Token
  any star globstar : Token

-- A pattern as it is written.
unfoldable pub print : List Token → List ℕ
print [] = []
print (char c ∷ ts) = c ∷ print ts
print (any ∷ ts) = question ∷ print ts
print (star ∷ ts) = asterisk ∷ print ts
print (globstar ∷ ts) = asterisk ∷ asterisk ∷ print ts

-- Whether the byte is among those of the string.
unfoldable pub contains : ℕ → List ℕ → Bool
contains c [] = false
contains c (x ∷ s) = let rest = contains c s in if x == c then true else rest

-- The strings that match. As the comment at the code says, `/**` at the end of a pattern also matches
-- nothing: `foo/**` matches `foo` and what is below it.
abbrev pub Matches : List Token → List ℕ → Type 0
Matches [] s = s ≡ []
Matches (char c ∷ ts) s =
    ((c ≡ slash) × (ts ≡ globstar ∷ []) × (s ≡ [])) ⊎ ((v : List ℕ) × (s ≡ c ∷ v) × Matches ts v)
Matches (any ∷ ts) s = (c : ℕ) × (v : List ℕ) × (s ≡ c ∷ v) × Matches ts v
Matches (star ∷ ts) s =
    (i : ℕ) × (i ≤ length s) × (contains slash (take i s) ≡ false) × Matches ts (drop i s)
Matches (globstar ∷ ts) s = (i : ℕ) × (i ≤ length s) × Matches ts (drop i s)

-- The strings that match when `/**` at the end of a pattern stands for any string at all.
abbrev pub Takes : List Token → List ℕ → Type 0
Takes [] s = s ≡ []
Takes (char c ∷ ts) s =
    ((c ≡ slash) × (ts ≡ globstar ∷ [])) ⊎ ((v : List ℕ) × (s ≡ c ∷ v) × Takes ts v)
Takes (any ∷ ts) s = (c : ℕ) × (v : List ℕ) × (s ≡ c ∷ v) × Takes ts v
Takes (star ∷ ts) s =
    (i : ℕ) × (i ≤ length s) × (contains slash (take i s) ≡ false) × Takes ts (drop i s)
Takes (globstar ∷ ts) s = (i : ℕ) × (i ≤ length s) × Takes ts (drop i s)

-- The pattern ends in `/**`.
abbrev pub EndsBelow : List Token → Type 0
EndsBelow [] = ⊥
EndsBelow (char c ∷ ts) = ((c ≡ slash) × (ts ≡ globstar ∷ [])) ⊎ EndsBelow ts
EndsBelow (any ∷ ts) = EndsBelow ts
EndsBelow (star ∷ ts) = EndsBelow ts
EndsBelow (globstar ∷ ts) = EndsBelow ts

unfoldable pub begins_star : List Token → Bool
begins_star [] = false
begins_star (char c ∷ ts) = false
begins_star (any ∷ ts) = false
begins_star (star ∷ ts) = true
begins_star (globstar ∷ ts) = true

-- The characters are none of the special ones, and no star follows another one.
abbrev pub IsPlain : List Token → Type 0
IsPlain [] = Unit {0}
IsPlain (char c ∷ ts) =
    ((c == question) ≡ false)
    × ((c == open_bracket) ≡ false)
    × ((c == asterisk) ≡ false)
    × IsPlain ts
IsPlain (any ∷ ts) = IsPlain ts
IsPlain (star ∷ ts) = (begins_star ts ≡ false) × IsPlain ts
IsPlain (globstar ∷ ts) = (begins_star ts ≡ false) × IsPlain ts

-- What is behind the pattern where it ends at neither a star nor a slash.
abbrev pub IsTail : List ℕ → Type 0
IsTail p = (starts_with p asterisk ≡ false) × (starts_with p slash ≡ false)

-- The verdict answers whether `G`.
abbrev pub Decides : Type 0 → Verdict → Type 0
Decides G accepted = G
Decides G rejected = ¬ G
Decides G read_beyond = ⊥
Decides G no_fuel = ⊥

-- The verdict is an answer, and not a wrong `accepted`.
abbrev pub IsSound : Type 0 → Verdict → Type 0
IsSound G accepted = G
IsSound G rejected = Unit {0}
IsSound G read_beyond = ⊥
IsSound G no_fuel = ⊥

-- The verdict answers whether `G`, but for the exception `E`, in which it accepts too.
abbrev pub Answers : Type 0 → Type 0 → Verdict → Type 0
Answers G E accepted = G ⊎ E
Answers G E rejected = (¬ G) × (¬ E)
Answers G E read_beyond = ⊥
Answers G E no_fuel = ⊥

pub Matches→Takes : (ts : List Token) (s : List ℕ) → Matches ts s → Takes ts s
Matches→Takes [] s m = m
Matches→Takes (char c ∷ ts) s (inl (a, b, _)) = inl (a, b)
Matches→Takes (char c ∷ ts) s (inr (v, e, m)) = inr (v, e, Matches→Takes ts v m)
Matches→Takes (any ∷ ts) s (c, v, e, m) = (c, v, e, Matches→Takes ts v m)
Matches→Takes (star ∷ ts) s (i, b, n, m) = (i, b, n, Matches→Takes ts (drop i s) m)
Matches→Takes (globstar ∷ ts) s (i, b, m) = (i, b, Matches→Takes ts (drop i s) m)

-- The two differ for patterns that end in `/**` alone.
pub Takes-cases : (ts : List Token) (s : List ℕ) → Takes ts s → Matches ts s ⊎ EndsBelow ts
Takes-cases [] s m = inl m
Takes-cases (char c ∷ ts) s (inl b) = inr (inl b)
Takes-cases (char c ∷ ts) s (inr (v, e, m)) = elim (Takes-cases ts v m) [
  | inl y ↦ inl (inr (v, e, y))
  | inr b ↦ inr (inr b)
]
Takes-cases (any ∷ ts) s (c, v, e, m) = elim (Takes-cases ts v m) [
  | inl y ↦ inl (c, v, e, y)
  | inr b ↦ inr b
]
Takes-cases (star ∷ ts) s (i, l, n, m) = elim (Takes-cases ts (drop i s) m) [
  | inl y ↦ inl (i, l, n, y)
  | inr b ↦ inr b
]
Takes-cases (globstar ∷ ts) s (i, l, m) = elim (Takes-cases ts (drop i s) m) [
  | inl y ↦ inl (i, l, y)
  | inr b ↦ inr b
]

pub Decides→Answers :
    {T G E : Type 0} (v : Verdict) → Decides T v → (T → G ⊎ E) → (G → T) → Answers G (E × T) v
Decides→Answers accepted t f g = elim (f t) [ inl y ↦ inl y | inr e ↦ inr (e, t) ]
Decides→Answers rejected n f g = (λ y. n (g y), λ x. n x.1)
Decides→Answers read_beyond t f g = t
Decides→Answers no_fuel t f g = t
