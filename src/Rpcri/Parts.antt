-- ===== src/Rpcri/Parts.antt =====
-- rpcri_match, which takes a resource identifier apart at its colons.
use shvc.Base.{ℕ, false, ◌==◌, ◌≡◌, refl, ap, ◌⊎◌, inl, inr, arith}
use shvc.Base.{Option, none, some, List, [], ◌∷◌, ◌++◌, append-nil, length}
use shvc.Rpcri.{Verdict, accepted, rejected, read_beyond, no_fuel}
use shvc.Rpcri.Identifier.{match_both, split_colon, match_method}
use shvc.Rpcri.{starts_with, rpcri_match_one, colon, question, asterisk}
use shvc.Rpcri.Identifier.{rpcri_match}
use shvc.Rpcri.Pattern.{
  Matches, EndsBelow, Answers, Decides→Answers, Takes-cases, Matches→Takes, char, any, star,
  globstar, begins_star,
}
use shvc.Rpcri.Pattern.{Token, print, contains, Takes, IsPlain, Decides}
use shvc.Rpcri.Search.{Decides-iff}
use shvc.Rpcri.Plain.{match_one-Takes}

match_both-Decides :
    (A B : Type 0) (v w : Verdict) → Decides A v → Decides B w → Decides (A × B) (match_both v w)
unfolding match_both
match_both-Decides A B accepted accepted a b = (a, b)
match_both-Decides A B accepted rejected a b = λ h. b h.1
match_both-Decides A B accepted read_beyond a b = b
match_both-Decides A B accepted no_fuel a b = b
match_both-Decides A B rejected w a b = λ h. a h.0
match_both-Decides A B read_beyond w a b = a
match_both-Decides A B no_fuel w a b = a

split_colon-none : (xs : List ℕ) → contains colon xs ≡ false → split_colon xs ≡ (xs, none)
unfolding split_colon contains
split_colon-none [] h = refl
split_colon-none (x ∷ xs) h =
    let x_none : (x == colon) ≡ false = ground arith in
    let rest : split_colon xs ≡ (xs, none) = split_colon-none xs (ground arith) in
    rw (rest, x_none) refl

split_colon-append :
    (xs ys : List ℕ) → contains colon xs ≡ false → split_colon (xs ++ colon ∷ ys) ≡ (xs, some ys)
unfolding split_colon contains
split_colon-append [] ys h = refl
split_colon-append (x ∷ xs) ys h =
    let x_none : (x == colon) ≡ false = ground arith in
    let rest : split_colon (xs ++ colon ∷ ys) ≡ (xs, some ys) =
      split_colon-append xs ys (ground arith) in
    rw (rest, x_none) refl

-- The tokens to the end of a string.
whole-Decides :
    (ts : List Token)
    → IsPlain ts
    → (s : List ℕ) → Decides (Takes ts s) (rpcri_match_one (print ts) s (length (print ts)))
unfolding starts_with
whole-Decides ts w s =
    let end : rpcri_match_one (print ts) s (length (print ts))
        ≡ rpcri_match_one (print ts ++ []) s (length (print ts)) =
      rw (append-nil (print ts)) refl in
    rw end (match_one-Takes [] (refl, refl) ts w s)

-- A resource identifier, with or without a signal.
unfoldable pub write_ri : List Token → List Token → Option (List Token) → List ℕ
unfolding print
write_ri path method none = print path ++ colon ∷ print method
write_ri path method (some signal) = print path ++ colon ∷ (print method ++ colon ∷ print signal)

-- What the method is matched with: without a signal, all that is behind the path.
unfoldable pub method_tokens : List Token → Option (List Token) → Option (List ℕ) → List Token
method_tokens method none signal = method
method_tokens method (some ts) none = method ++ char colon ∷ ts
method_tokens method (some ts) (some s) = method

-- What the signal's pattern asks for, in each of the two ways to match, and whether it ends in `/**`.
abbrev pub SignalMatches : Option (List Token) → Option (List ℕ) → Type 0
SignalMatches none signal = Unit {0}
SignalMatches (some ts) none = Unit {0}
SignalMatches (some ts) (some s) = Matches ts s

abbrev pub SignalTakes : Option (List Token) → Option (List ℕ) → Type 0
SignalTakes none signal = Unit {0}
SignalTakes (some ts) none = Unit {0}
SignalTakes (some ts) (some s) = Takes ts s

abbrev pub SignalEndsBelow : Option (List Token) → Option (List ℕ) → Type 0
SignalEndsBelow none signal = ⊥
SignalEndsBelow (some ts) none = ⊥
SignalEndsBelow (some ts) (some s) = EndsBelow ts

-- The signal's pattern is a plain one.
abbrev pub PlainSignal : Option (List Token) → Type 0
PlainSignal none = Unit {0}
PlainSignal (some ts) = IsPlain ts

-- A signal's pattern behind a method's.
print-append : (xs ts : List Token) → print (xs ++ ts) ≡ print xs ++ print ts
unfolding print
print-append [] ts = refl
print-append (char c ∷ xs) ts = ap (λ p. c ∷ p) (print-append xs ts)
print-append (any ∷ xs) ts = ap (λ p. question ∷ p) (print-append xs ts)
print-append (star ∷ xs) ts = ap (λ p. asterisk ∷ p) (print-append xs ts)
print-append (globstar ∷ xs) ts = ap (λ p. asterisk ∷ asterisk ∷ p) (print-append xs ts)

-- What rpcri_match runs on the parts.
module _ (path method : List Token) (a b : List ℕ) (c : contains colon (print path) ≡ false) where
  match_two :
      (s : Option (List ℕ))
      → contains colon (print method) ≡ false
      → rpcri_match (write_ri path method none) a b s
        ≡ match_both
            (rpcri_match_one (print path ++ colon ∷ print method) a (length (print path)))
            (rpcri_match_one (print method) b (length (print method)))
  unfolding rpcri_match match_method write_ri
  match_two none c' =
      let e = split_colon-append (print path) (print method) c in
      rw (rpcri_match, e, match_method, e) refl
  match_two (some s) c' =
      let e = split_colon-append (print path) (print method) c in
      rw (rpcri_match, e, match_method, split_colon-none (print method) c', e) refl

  match_none :
      (ts : List Token)
      → rpcri_match (write_ri path method (some ts)) a b none
        ≡ match_both
            (rpcri_match_one
              (print path ++ colon ∷ (print method ++ colon ∷ print ts))
              a
              (length (print path)))
            (rpcri_match_one
              (print (method ++ char colon ∷ ts))
              b
              (length (print (method ++ char colon ∷ ts))))
  unfolding rpcri_match match_method write_ri print
  match_none ts =
      let e = split_colon-append (print path) (print method ++ colon ∷ print ts) c in
      rw (print-append method (char colon ∷ ts), rpcri_match, e, match_method, e) refl

  match_three :
      (s : List ℕ) (ts : List Token)
      → contains colon (print method) ≡ false
      → rpcri_match (write_ri path method (some ts)) a b (some s)
        ≡ match_both
            (rpcri_match_one
              (print path ++ colon ∷ (print method ++ colon ∷ print ts))
              a
              (length (print path)))
            (match_both
              (rpcri_match_one (print method ++ colon ∷ print ts) b (length (print method)))
              (rpcri_match_one (print ts) s (length (print ts))))
  unfolding rpcri_match match_method write_ri
  match_three s ts c' =
      let e = split_colon-append (print path) (print method ++ colon ∷ print ts) c in
      let e' = split_colon-append (print method) (print ts) c' in
      rw (rpcri_match, e, match_method, e', e, e') refl

begins_star-append :
    (xs ts : List Token) → begins_star xs ≡ false → begins_star (xs ++ char colon ∷ ts) ≡ false
unfolding begins_star
begins_star-append [] ts b = refl
begins_star-append (char c ∷ xs) ts b = refl
begins_star-append (any ∷ xs) ts b = refl
begins_star-append (star ∷ xs) ts b = b
begins_star-append (globstar ∷ xs) ts b = b

IsPlain-append : (xs ts : List Token) → IsPlain xs → IsPlain ts → IsPlain (xs ++ char colon ∷ ts)
IsPlain-append [] ts w w' = (refl, refl, refl, w')
IsPlain-append (char c ∷ xs) ts w w' = (w.0, w.1, w.2, IsPlain-append xs ts w.3 w')
IsPlain-append (any ∷ xs) ts w w' = IsPlain-append xs ts w w'
IsPlain-append (star ∷ xs) ts w w' = (begins_star-append xs ts w.0, IsPlain-append xs ts w.1 w')
IsPlain-append (globstar ∷ xs) ts w w' = (begins_star-append xs ts w.0, IsPlain-append xs ts w.1 w')

rpcri_match-Takes :
    (path method : List Token) (signal : Option (List Token)) (a b : List ℕ) (s : Option (List ℕ))
    → IsPlain path
    → IsPlain method
    → PlainSignal signal
    → contains colon (print path) ≡ false
    → contains colon (print method) ≡ false
    → Decides
        (Takes path a × (Takes (method_tokens method signal s) b × SignalTakes signal s))
        (rpcri_match (write_ri path method signal) a b s)
unfolding starts_with method_tokens
rpcri_match-Takes path method none a b s w w' w'' c c' = rw (match_two path method a b c s c') (
    match_both-Decides (Takes path a) (Takes method b × Unit {0}) _ _
      (match_one-Takes (colon ∷ print method) (refl, refl) path w a)
      (Decides-iff (rpcri_match_one (print method) b (length (print method)))
        (whole-Decides method w' b) (λ m. (m, tt)) (λ m. m.0)))
rpcri_match-Takes path method (some ts) a b none w w' w'' c c' =
    let both = method ++ char colon ∷ ts in
    rw (match_none path method a b c ts) (
      match_both-Decides (Takes path a) (Takes both b × Unit {0}) _ _
        (match_one-Takes (colon ∷ (print method ++ colon ∷ print ts)) (refl, refl) path w a)
        (Decides-iff (rpcri_match_one (print both) b (length (print both)))
          (whole-Decides both (IsPlain-append method ts w' w'') b) (λ m. (m, tt)) (λ m. m.0)))
rpcri_match-Takes path method (some ts) a b (some s) w w' w'' c c' =
    rw (match_three path method a b c s ts c') (
      match_both-Decides (Takes path a) (Takes method b × Takes ts s) _ _
        (match_one-Takes (colon ∷ (print method ++ colon ∷ print ts)) (refl, refl) path w a)
        (match_both-Decides (Takes method b) (Takes ts s) _ _
          (match_one-Takes (colon ∷ print ts) (refl, refl) method w' b) (whole-Decides ts w'' s)))

SignalTakes-cases :
    (signal : Option (List Token)) (s : Option (List ℕ))
    → SignalTakes signal s
    → SignalMatches signal s ⊎ SignalEndsBelow signal s
SignalTakes-cases none s t = inl tt
SignalTakes-cases (some ts) none t = inl tt
SignalTakes-cases (some ts) (some s) t = Takes-cases ts s t

SignalMatches→SignalTakes :
    (signal : Option (List Token)) (s : Option (List ℕ))
    → SignalMatches signal s
    → SignalTakes signal s
SignalMatches→SignalTakes none s m = tt
SignalMatches→SignalTakes (some ts) none m = tt
SignalMatches→SignalTakes (some ts) (some s) m = Matches→Takes ts s m

-- Each of three, or an exception of one of them.
three_cases : {A B C D E F : Type 0} → A ⊎ D → B ⊎ E → C ⊎ F → (A × (B × C)) ⊎ (D ⊎ (E ⊎ F))
three_cases (inr d) y z = inr (inl d)
three_cases (inl a) (inr e) z = inr (inr (inl e))
three_cases (inl a) (inl b) (inr f) = inr (inr (inr f))
three_cases (inl a) (inl b) (inl c) = inl (a, (b, c))

-- For patterns without classes, in which no star is directly behind another one, and with no colon in
-- those of the path and the method, rpcri_match of `path:method` or `path:method:signal`, with a signal
-- or with NULL, comes to an answer and never reads behind the end of a string. It accepts exactly if
-- the path matches its pattern and the method its own, which is all that is behind the path's where
-- there is no signal, and a signal its pattern where both are there, with one exception: where one of
-- these patterns ends in `/**`, it also accepts what would match if the three stood for any string.
pub rpcri_match-Answers :
    (path method : List Token) (signal : Option (List Token)) (a b : List ℕ) (s : Option (List ℕ))
    → IsPlain path
    → IsPlain method
    → PlainSignal signal
    → contains colon (print path) ≡ false
    → contains colon (print method) ≡ false
    → Answers
        (Matches path a × (Matches (method_tokens method signal s) b × SignalMatches signal s))
        ((EndsBelow path ⊎ (EndsBelow (method_tokens method signal s) ⊎ SignalEndsBelow signal s))
          × (Takes path a × (Takes (method_tokens method signal s) b × SignalTakes signal s)))
        (rpcri_match (write_ri path method signal) a b s)
rpcri_match-Answers path method signal a b s w w' w'' c c' =
    let m = method_tokens method signal s in
    Decides→Answers (rpcri_match (write_ri path method signal) a b s)
      (rpcri_match-Takes path method signal a b s w w' w'' c c')
      (λ (x, (y, z)).
        three_cases (Takes-cases path a x) (Takes-cases m b y) (SignalTakes-cases signal s z))
      (λ (x, (y, z)).
        (Matches→Takes path a x, (Matches→Takes m b y, SignalMatches→SignalTakes signal s z)))
