-- ===== src/Rpcaccess/Runs.antt =====
-- Tests and witnesses for the access levels.
use shvc.Base.{ℕ, ◌≡◌, refl, if◌then◌else◌, none, some, List, [], ◌∷◌}
use shvc.Base.Strings.{str_eq}
use shvc.Rpcaccess.{Lookup, keywords, rpcaccess_granted_str}
use shvc.Rpcaccess.{
  strchrnul, skip_comma, discard, higher, extract_loop, rpcaccess_none, rpcaccess_granted_extract,
  rpcaccess_devel,
}
use shvc.Rpcaccess.Tokens.{join, highest, unknown, rpcaccess_granted_extract-join}

-- A lookup in the keywords one after the other.
find_word : List (ℕ × List ℕ) → Lookup
find_word [] w = none
find_word ((level, word) ∷ rest) w =
    let later = find_word rest w in if str_eq word w then some level else later

abbrev table : Lookup
table = find_word keywords

-- "rd", "foo", "" and "wr".
abbrev words : List (List ℕ)
words = (114 ∷ 100 ∷ []) ∷ (102 ∷ 111 ∷ 111 ∷ []) ∷ [] ∷ (119 ∷ 114 ∷ []) ∷ []

-- "rd,foo,,wr" gives the level of "wr", and "foo," is left.
extracted : rpcaccess_granted_extract table (join words) ≡ (16, 102 ∷ 111 ∷ 111 ∷ 44 ∷ [])
unfolding rpcaccess_granted_extract join extract_loop find_word str_eq strchrnul skip_comma discard
    higher
extracted = refl

rpcaccess_granted_extract-join_example :
    rpcaccess_granted_extract table (join words)
    ≡ (highest table rpcaccess_none words, join (unknown table words))
unfolding find_word str_eq
rpcaccess_granted_extract-join_example =
    rpcaccess_granted_extract-join table words refl
      ((refl, (refl, tt)), ((refl, (refl, (refl, tt))), (tt, ((refl, (refl, tt)), tt))))

devel_word : rpcaccess_granted_str rpcaccess_devel ≡ 100 ∷ 101 ∷ 118 ∷ []
unfolding rpcaccess_granted_str
devel_word = refl
