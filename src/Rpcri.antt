-- ===== src/Rpcri.antt =====
-- The matching of resource identifiers, libshvrpc/rpcri.c.
--
-- A string is the list of its bytes before the terminating zero, and a pointer into it is the list
-- from there on. What is read behind the zero is unknown.
pub mod Pattern
pub mod Identifier
pub mod Search
pub mod Round
pub mod Plain
pub mod Parts
pub mod Class
mod Runs
use shvc.Base.{ℕ, zero, suc, ◌+◌, ◌-◌, ◌%◌, Bool, true, false, not, ◌&&◌, leb, ◌==◌}
use shvc.Base.{if◌then◌else◌, Option, none, some, List, [], ◌∷◌, length, drop}

-- What matching ends with. `read_beyond` is a read behind the end of a string.
pub data Verdict : Type 0 where
  accepted rejected read_beyond no_fuel : Verdict

-- `?`, `[`, `]`, `*`, `!`, `-`, `/` and `:`.
abbrev pub question : ℕ
question = 0x3F

abbrev pub open_bracket : ℕ
open_bracket = 0x5B

abbrev pub close_bracket : ℕ
close_bracket = 0x5D

abbrev pub asterisk : ℕ
asterisk = 0x2A

abbrev pub exclamation : ℕ
exclamation = 0x21

abbrev pub hyphen : ℕ
hyphen = 0x2D

abbrev pub slash : ℕ
slash = 0x2F

abbrev pub colon : ℕ
colon = 0x3A

-- Whether a byte stands at the front.
unfoldable pub starts_with : List ℕ → ℕ → Bool
starts_with [] c = false
starts_with (d ∷ p) c = d == c

-- `while (*p != ']' && *p != '\0') p++;`
unfoldable pub skip_class : List ℕ → List ℕ
skip_class [] = []
skip_class (c ∷ p) = let rest = skip_class p in if c == close_bracket then c ∷ p else rest

-- The order of `char`, which is signed.
unfoldable pub char_leb : ℕ → ℕ → Bool
char_leb a b = leb ((a + 128) % 256) ((b + 128) % 256)

-- `*s >= first && *s <= *p`.
unfoldable pub in_range : ℕ → ℕ → ℕ → Bool
unfolding char_leb
in_range c first last = char_leb first c && char_leb c last

-- Where the loops over a class stop: at what fits, at the end of the class, or behind the string.
pub data Scan : Type 0 where
  hit missed : List ℕ → Scan
  beyond : Scan

-- How far a round is: at its start, behind `first`, or behind `first` and a hyphen.
pub data Place : Type 0 where
  fresh : Place
  seen dashed : ℕ → Place

-- The loops of rpcri_match_ranges and rpcri_match_negation, which go over the class alike, for the
-- byte at the front of the string.
unfoldable pub scan_class : ℕ → Place → List ℕ → Scan
unfolding in_range
scan_class c fresh [] = if c == 0 then hit [] else beyond
scan_class c (seen first) [] = missed []
scan_class c (dashed first) [] = if in_range c first 0 then hit [] else missed []
scan_class c fresh (d ∷ p) =
    let rest = scan_class c (seen d) p in if c == d then hit (d ∷ p) else rest
scan_class c (seen first) (d ∷ p) =
    let range = scan_class c (dashed first) p in
    let rest = scan_class c (seen d) p in
    if d == hyphen
    then range
    else if d == close_bracket
    then missed (d ∷ p)
    else if c == d
    then hit (d ∷ p)
    else rest
scan_class c (dashed first) (d ∷ p) =
    let rest = scan_class c (seen d) p in
    if in_range c first d
    then hit (d ∷ p)
    else if d == close_bracket
    then missed (d ∷ p)
    else if c == d
    then hit (d ∷ p)
    else rest

-- rpcri_match_one from a place of the pattern, of which so many bytes are left.
abbrev pub Matcher : Type 0
Matcher = List ℕ → ℕ → List ℕ → Verdict

-- The test for `/**` at the end of the pattern.
unfoldable pub is_below : List ℕ → ℕ → Bool
unfolding starts_with
is_below p left =
    starts_with p slash
    && ((left == 3) && (starts_with (drop 1 p) asterisk && starts_with (drop 2 p) asterisk))

-- The next round, when `string` has moved behind its end.
unfoldable pub behind_end : List ℕ → ℕ → Verdict
unfolding is_below
behind_end p left = if is_below p left then accepted else read_beyond

-- `p++, string++`.
unfoldable pub advance : Matcher → Matcher
unfolding behind_end
advance next p left [] = behind_end (drop 1 p) (left - 1)
advance next p left (x ∷ s) = next (drop 1 p) (left - 1) s

-- `*p == *string`.
unfoldable pub same_char : List ℕ → List ℕ → Bool
same_char [] [] = true
same_char [] (x ∷ s) = false
same_char (c ∷ p) [] = false
same_char (c ∷ p) (x ∷ s) = c == x

-- The end of a round: the special case, and the comparison.
unfoldable pub literal : Matcher → Matcher
unfolding is_below same_char advance
literal next p left s =
    if is_below p left then accepted else if same_char p s then advance next p left s else rejected

-- Behind a class that ends at `r`.
unfoldable pub after_class : Matcher → List ℕ → List ℕ → ℕ → List ℕ → Verdict
unfolding behind_end
after_class next p r left s =
    let left' = left - (length p - length (drop 1 r)) in
    elim s as (λ _. Verdict) [
      | [] ↦ behind_end (drop 1 r) left'
      | x ∷ s' ↦ next (drop 1 r) left' s'
    ]

-- rpcri_match_negation, and what follows it; `q` is where the class begins.
unfoldable pub negated : Matcher → List ℕ → List ℕ → ℕ → List ℕ → Verdict
unfolding scan_class after_class
negated next p q left s =
    let c : ℕ = elim s as (λ _. ℕ) [ [] ↦ 0 | x ∷ s' ↦ x ] in
    elim (scan_class c fresh q) as (λ _. Verdict) [
      | hit r ↦ rejected
      | missed r ↦ after_class next p r left s
      | beyond ↦ read_beyond
    ]

-- The branch of `[`, at the front of `p`.
unfoldable pub bracket : Matcher → Matcher
unfolding starts_with skip_class negated scan_class after_class behind_end
bracket next p left s =
    if starts_with (drop 1 p) exclamation
    then elim s as (λ _. Verdict) [
      | [] ↦ elim (drop 1 (skip_class p)) as (λ _. Verdict) [
        | [] ↦ accepted
        | d ∷ q ↦ negated next p q left []
      ]
      | x ∷ s' ↦ negated next p (drop 2 p) left (x ∷ s')
    ]
    else elim s as (λ _. Verdict) [
      | [] ↦ behind_end (drop 1 p) (left - 1)
      | x ∷ s' ↦ elim (scan_class x fresh (drop 1 p)) as (λ _. Verdict) [
        | hit r ↦ after_class next p (skip_class r) left (x ∷ s')
        | missed r ↦ rejected
        | beyond ↦ read_beyond
      ]
    ]

-- `strcspn(string, "/")`.
unfoldable pub strcspn : List ℕ → ℕ
strcspn [] = 0
strcspn (x ∷ s) = let rest = strcspn s in if x == slash then 0 else suc rest

-- A verdict, and another one when the first is to reject.
unfoldable pub or_else : Verdict → Verdict → Verdict
or_else accepted v = accepted
or_else rejected v = v
or_else read_beyond v = read_beyond
or_else no_fuel v = no_fuel

-- `for (; i >= 0; i--)`.
unfoldable pub try_from : (List ℕ → Verdict) → ℕ → List ℕ → Verdict
unfolding or_else
try_from f zero s = f s
try_from f (suc i) s = or_else (f (drop (suc i) s)) (try_from f i s)

-- The branch of `*`, from behind the first one.
unfoldable pub stars : Matcher → Matcher
unfolding starts_with strcspn try_from or_else literal
stars next p left s =
    if starts_with p asterisk
    then or_else (try_from (next (drop 1 p) (left - 1)) (length s) s)
        (literal next (drop 1 p) (left - 1) s)
    else or_else (try_from (next p left) (strcspn s) s) (literal next p left s)

-- One round, where something of the pattern is left.
unfoldable pub match_round : Matcher → Matcher
unfolding starts_with advance bracket stars literal
match_round next p left s =
    if starts_with p question && not (leb (length s) 0)
    then advance next p left s
    else if starts_with p open_bracket
    then bracket next p left s
    else if starts_with p asterisk
    then stars next (drop 1 p) (left - 1) s
    else literal next p left s

-- `*string == '\0'`.
unfoldable pub at_end : List ℕ → Verdict
at_end [] = accepted
at_end (x ∷ s) = rejected

-- rpcri_match_one by fuel: each round and each call consume some of the pattern.
unfoldable pub match_one : ℕ → Matcher
unfolding match_round at_end
match_one zero p left s = if left == 0 then at_end s else no_fuel
match_one (suc fuel) p left s =
    if left == 0 then at_end s else match_round (match_one fuel) p left s

unfoldable pub rpcri_match_one : List ℕ → List ℕ → ℕ → Verdict
unfolding match_one
rpcri_match_one pattern string n = match_one n pattern n string
