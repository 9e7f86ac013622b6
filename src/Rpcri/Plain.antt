-- ===== src/Rpcri/Plain.antt =====
-- rpcri_match_one on patterns without classes, which are those of Rpcri/Pattern.
use shvc.Base.{ℕ, zero, suc, ◌≤◌, ◌<◌, false, ◌==◌}
use shvc.Base.{◌≡◌, refl, inl, inr, Bool-cases, arith}
use shvc.Base.{List, [], ◌∷◌, ◌++◌, length, drop}
use shvc.Rpcri.{starts_with, is_below}
use shvc.Rpcri.{same_char, advance, literal, strcspn, try_from, stars, match_round}
use shvc.Rpcri.{at_end, match_one, rpcri_match_one, question, asterisk, slash}
use shvc.Rpcri.Pattern.{Token, char, any, star, globstar, print, contains, Takes, begins_star}
use shvc.Rpcri.Pattern.{Matches, EndsBelow, Answers, Decides→Answers, Takes-cases, Matches→Takes}
use shvc.Rpcri.Pattern.{IsPlain, IsTail, Decides, IsSound}
use shvc.Rpcri.Search.{Decides-retry, Decides-iff, Decides→IsSound, Decides-try_from}
use shvc.Rpcri.Search.{strcspn_iff}
use shvc.Rpcri.Round.{Goes, less_one, match_round-char, literal-Decides, any-Decides}

pub match_one_done : (f : ℕ) (p s : List ℕ) → match_one f p 0 s ≡ at_end s
unfolding match_one
match_one_done zero p s = refl
match_one_done (suc f) p s = refl

-- The round that follows a star where it took nothing.
literal-IsSound :
    {G : Type 0} (tail : List ℕ) (ts : List Token) (f : ℕ) (s : List ℕ)
    → IsTail tail
    → IsPlain ts
    → begins_star ts ≡ false
    → Goes tail (drop 1 ts) (match_one f)
    → (Takes ts s → G)
    → ((x : ℕ) → s ≡ x ∷ [] → (x == slash) ≡ false → ts ≡ [] → G)
    → ¬ G
    → IsSound G (literal (match_one f) (print ts ++ tail) (length (print ts)) s)
unfolding print begins_star literal is_below starts_with same_char advance at_end
literal-IsSound {G} [] [] f [] z w b h m one n = absurd (n (m refl))
literal-IsSound {G} [] [] f (x ∷ s) z w b h m one n = tt
literal-IsSound {G} (c ∷ tail) [] f [] z w b h m one n = rw (z.1) tt
literal-IsSound {G} (c ∷ tail) [] f (x ∷ []) z w b h m one n = elim (Bool-cases (c == x)) [
  | inl y ↦ rw (z.1, y, match_one_done) (one x refl (ground arith) refl)
  | inr d ↦ rw (z.1, d) tt
]
literal-IsSound {G} (c ∷ tail) [] f (x ∷ y ∷ s) z w b h m one n = elim (Bool-cases (c == x)) [
  | inl y ↦ rw (z.1, y, match_one_done) tt
  | inr d ↦ rw (z.1, d) tt
]
literal-IsSound {G} tail (char c ∷ ts) f s z w b h m one n =
    Decides→IsSound (literal (match_one f) (c ∷ print ts ++ tail) (suc (length (print ts))) s)
      (literal-Decides tail c ts (match_one f) s w.3 h) m
literal-IsSound {G} tail (any ∷ ts) f [] z w b h m one n = tt
literal-IsSound {G} tail (any ∷ ts) f (x ∷ s) z w b h m one n = elim (Bool-cases (question == x)) [
  | inl y ↦
      rw (y, less_one)
        (Decides→IsSound (match_one f (print ts ++ tail) (length (print ts)) s) (h s)
          (λ d. m (x, s, refl, d)))
  | inr d ↦ rw d tt
]
literal-IsSound {G} tail (star ∷ ts) f s z w b h m one n = absurd (ground arith)
literal-IsSound {G} tail (globstar ∷ ts) f s z w b h m one n = absurd (ground arith)

-- With enough fuel, the rest of the pattern answers.
abbrev AllGo : List ℕ → List Token → Type 0
AllGo tail ts = (f : ℕ) → length (print ts) ≤ f → Goes tail ts (match_one f)

begins_star-print :
    (ts : List Token) (tail : List ℕ)
    → IsTail tail
    → IsPlain ts
    → begins_star ts ≡ false
    → starts_with (print ts ++ tail) asterisk ≡ false
unfolding print begins_star starts_with
begins_star-print [] tail z w b = z.0
begins_star-print (char c ∷ ts) tail z w b = w.2
begins_star-print (any ∷ ts) tail z w b = refl
begins_star-print (star ∷ ts) tail z w b = absurd (ground arith)
begins_star-print (globstar ∷ ts) tail z w b = absurd (ground arith)

plain_rest : (t : Token) (ts : List Token) → IsPlain (t ∷ ts) → IsPlain ts
plain_rest (char c) ts w = w.3
plain_rest any ts w = w
plain_rest star ts w = w.1
plain_rest globstar ts w = w.1

length-print_suc : (t : Token) (ts : List Token) → length (print ts) < length (print (t ∷ ts))
unfolding print
length-print_suc (char c) ts = omega arith
length-print_suc any ts = omega arith
length-print_suc star ts = omega arith
length-print_suc globstar ts = omega arith

length-print-drop : (ts : List Token) → length (print (drop 1 ts)) ≤ length (print ts)
unfolding print
length-print-drop [] = omega arith
length-print-drop (t ∷ ts) = omega (arith, length-print_suc t ts)

module _ (tail : List ℕ) (z : IsTail tail) where
  star-Goes :
      (ts : List Token) (f : ℕ)
      → IsPlain (star ∷ ts)
      → Goes tail ts (match_one f)
      → Goes tail (drop 1 ts) (match_one f)
      → Goes tail (star ∷ ts) (match_round (match_one f))
  unfolding match_round stars starts_with print contains
  star-Goes ts f w h h' s =
      rw (less_one, begins_star-print ts tail z w.1 w.0)
        (Decides-retry (try_from (match_one f (print ts ++ tail) (length (print ts))) (strcspn s) s)
          (literal (match_one f) (print ts ++ tail) (length (print ts)) s)
          (Decides-iff (try_from (match_one f (print ts ++ tail) (length (print ts))) (strcspn s) s)
            (Decides-try_from (λ v. Takes ts v) (match_one f (print ts ++ tail) (length (print ts)))
              (strcspn s) s h)
            (λ (i, b, d). let (x, y) = (strcspn_iff i s).0 b in (i, x, y, d))
            (λ (i, x, y, d). (i, (strcspn_iff i s).1 x y, d)))
          (literal-IsSound tail ts f s z w.1 w.0 h' (λ m. (0, omega arith, refl, m))
            (λ x e d q. rw (e, q) (1, omega arith, rw d refl, refl))))

  globstar-Goes :
      (ts : List Token) (f : ℕ)
      → IsPlain (globstar ∷ ts)
      → Goes tail ts (match_one f)
      → Goes tail (drop 1 ts) (match_one f)
      → Goes tail (globstar ∷ ts) (match_round (match_one f))
  unfolding match_round stars starts_with print
  globstar-Goes ts f w h h' s =
      rw (less_one, less_one)
        (Decides-retry (try_from (match_one f (print ts ++ tail) (length (print ts))) (length s) s)
          (literal (match_one f) (print ts ++ tail) (length (print ts)) s)
          (Decides-try_from (λ v. Takes ts v) (match_one f (print ts ++ tail) (length (print ts)))
            (length s) s h)
          (literal-IsSound tail ts f s z w.1 w.0 h' (λ m. (0, omega arith, m))
            (λ x e d q. rw (e, q) (1, omega arith, refl))))

  match_round-Goes :
      (t : Token) (ts : List Token) (f : ℕ)
      → IsPlain (t ∷ ts)
      → Goes tail ts (match_one f)
      → Goes tail (drop 1 ts) (match_one f)
      → Goes tail (t ∷ ts) (match_round (match_one f))
  unfolding print
  match_round-Goes (char c) ts f w h h' s =
      rw
        (match_round-char (match_one f) c (print ts ++ tail) (suc (length (print ts))) s w.0 w.1
          w.2)
        (literal-Decides tail c ts (match_one f) s w.3 h)
  match_round-Goes any ts f w h h' s = any-Decides tail ts (match_one f) s h
  match_round-Goes star ts f w h h' s = star-Goes ts f w h h' s
  match_round-Goes globstar ts f w h h' s = globstar-Goes ts f w h h' s

  match_one-nil : (f : ℕ) (s : List ℕ) → Decides (s ≡ []) (match_one f tail 0 s)
  unfolding at_end
  match_one-nil f [] = rw match_one_done refl
  match_one-nil f (x ∷ s) = rw match_one_done (λ e. cc)

  match_one-cons :
      (t : Token) (ts : List Token)
      → IsPlain (t ∷ ts)
      → AllGo tail ts
      → AllGo tail (drop 1 ts)
      → AllGo tail (t ∷ ts)
  unfolding match_one
  match_one-cons t ts w h h' zero b s = absurd (omega (arith, length-print_suc t ts))
  match_one-cons t ts w h h' (suc f) b s =
      let some_left : (length (print (t ∷ ts)) == 0) ≡ false =
        ground (arith, length-print_suc t ts) in
      rw some_left (
        match_round-Goes t ts f w (h f (omega (arith, length-print_suc t ts)))
          (h' f (omega (arith, length-print_suc t ts, length-print-drop ts))) s)

  match_one-Goes : (ts : List Token) → IsPlain ts → AllGo tail ts × AllGo tail (drop 1 ts)
  unfolding print
  match_one-Goes [] w = (λ f b s. match_one-nil f s, λ f b s. match_one-nil f s)
  match_one-Goes (t ∷ ts) w =
      let ih = match_one-Goes ts (plain_rest t ts w) in (match_one-cons t ts w ih.0 ih.1, ih.0)

  pub match_one-Takes :
      (ts : List Token)
      → IsPlain ts
      → (s : List ℕ)
      → Decides (Takes ts s) (rpcri_match_one (print ts ++ tail) s (length (print ts)))
  unfolding rpcri_match_one
  match_one-Takes ts w s = (match_one-Goes ts w).0 (length (print ts)) (omega arith) s

  -- For a pattern without classes, in which no star is directly behind another one and behind which
  -- comes neither a star nor a slash, rpcri_match_one comes to an answer and never reads behind the end
  -- of the string. It accepts each string that matches and rejects each that does not, with one
  -- exception: where the pattern ends in `/**`, it also accepts whatever would match if these three
  -- stood for any string at all.
  pub match_one-Answers :
      (ts : List Token)
      → IsPlain ts
      → (s : List ℕ)
      → Answers
          (Matches ts s)
          (EndsBelow ts × Takes ts s)
          (rpcri_match_one (print ts ++ tail) s (length (print ts)))
  match_one-Answers ts w s =
      Decides→Answers (rpcri_match_one (print ts ++ tail) s (length (print ts)))
        (match_one-Takes ts w s) (Takes-cases ts s) (Matches→Takes ts s)
