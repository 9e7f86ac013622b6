-- ===== src/Rpcri/Runs.antt =====
-- Runs of libshvrpc/rpcri.c.
use shvc.Base.{ℕ, ◌≡◌, ◌⊎◌, refl}
use shvc.Base.{none, some, List, [], ◌∷◌, ◌++◌, length}
use shvc.Rpcri.{accepted, rejected, read_beyond, starts_with, rpcri_match_one}
use shvc.Rpcri.Identifier.{split_colon, match_both, match_method}
use shvc.Rpcri.{colon}
use shvc.Rpcri.Identifier.{rpcri_match, rpcpath_match, rpcstr_match}
use shvc.Rpcri.Pattern.{
  Token, char, star, globstar, print, contains, Matches, Takes, EndsBelow, Answers, begins_star,
}
use shvc.Rpcri.Plain.{match_one-Answers}
use shvc.Rpcri.Parts.{write_ri, method_tokens, rpcri_match-Answers}
use shvc.Rpcri.Class.{Item, range}

-- `a/*:get`, `a/b` and `a/b/c`.
abbrev star_tokens : List Token
star_tokens = char 97 ∷ char 47 ∷ star ∷ []

abbrev get_tokens : List Token
get_tokens = char 103 ∷ char 101 ∷ char 116 ∷ []

abbrev get : List ℕ
get = 103 ∷ 101 ∷ 116 ∷ []

abbrev a_b : List ℕ
a_b = 97 ∷ 47 ∷ 98 ∷ []

abbrev a_b_c : List ℕ
a_b_c = 97 ∷ 47 ∷ 98 ∷ 47 ∷ 99 ∷ []

star_accepts : rpcri_match (write_ri star_tokens get_tokens none) a_b get none ≡ accepted
unfolding rpcri_match write_ri split_colon match_both rpcri_match_one match_method
star_accepts = refl

star_rejects : rpcri_match (write_ri star_tokens get_tokens none) a_b_c get none ≡ rejected
unfolding rpcri_match write_ri split_colon match_both rpcri_match_one match_method
star_rejects = refl

-- `a/**` and `ab`.
below_accepts : rpcpath_match (print (char 97 ∷ char 47 ∷ globstar ∷ [])) (97 ∷ 98 ∷ []) ≡ accepted
unfolding rpcpath_match print rpcri_match_one
below_accepts = refl

-- `a/**` and `a`, which is the case meant, and `a/**` and `a` with something else behind it.
special_case : rpcstr_match (print (char 97 ∷ char 47 ∷ globstar ∷ [])) (97 ∷ []) ≡ accepted
unfolding rpcstr_match print rpcri_match_one
special_case = refl

-- `[a]` and the empty string.
class_at_end : rpcstr_match (91 ∷ 97 ∷ 93 ∷ []) [] ≡ read_beyond
unfolding rpcstr_match rpcri_match_one
class_at_end = refl

-- `[` at the end of the pattern.
class_open : rpcstr_match (91 ∷ []) (97 ∷ []) ≡ read_beyond
unfolding rpcstr_match rpcri_match_one
class_open = refl

match_one-Answers_example :
    Answers
      (Matches star_tokens a_b_c)
      (EndsBelow star_tokens × Takes star_tokens a_b_c)
      (rpcri_match_one (print star_tokens ++ colon ∷ get) a_b_c (length (print star_tokens)))
unfolding starts_with begins_star
match_one-Answers_example =
    match_one-Answers (colon ∷ get) (refl, refl) star_tokens
      ((refl, refl, refl, (refl, refl, refl, (refl, tt)))) a_b_c

rpcri_match-Answers_example :
    Answers
      (Matches star_tokens a_b × (Matches get_tokens get × Matches (star ∷ []) get))
      ((EndsBelow star_tokens ⊎ (EndsBelow get_tokens ⊎ EndsBelow (star ∷ [])))
        × (Takes star_tokens a_b × (Takes get_tokens get × Takes (star ∷ []) get)))
      (rpcri_match (write_ri star_tokens get_tokens (some (star ∷ []))) a_b get (some get))
unfolding print contains begins_star method_tokens
rpcri_match-Answers_example =
    rpcri_match-Answers star_tokens get_tokens (some (star ∷ [])) a_b get (some get)
      (refl, refl, refl, (refl, refl, refl, (refl, tt)))
      (refl, refl, refl, (refl, refl, refl, (refl, refl, refl, tt))) (refl, tt) refl refl

-- `[!a-c]` and `d`.
abbrev to_c : Item
to_c = range 97 99
