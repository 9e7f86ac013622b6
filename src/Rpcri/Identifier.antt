-- ===== src/Rpcri/Identifier.antt =====
-- rpcri_match, rpcpath_match and rpcstr_match of libshvrpc/rpcri.c.
use shvc.Base.{ℕ, ◌==◌}
use shvc.Base.{if◌then◌else◌, Option, none, some, List, [], ◌∷◌, length}
use shvc.Rpcri.{Verdict, colon, rpcri_match_one, accepted, rejected, read_beyond, no_fuel}

-- `strchr(s, ':')`: what is before, and what is behind if there is one.
unfoldable pub split_colon : List ℕ → List ℕ × Option (List ℕ)
split_colon [] = ([], none)
split_colon (c ∷ s) =
    let (before, after) = split_colon s in if c == colon then ([], some s) else (c ∷ before, after)

-- A verdict that is needed before another one.
unfoldable pub match_both : Verdict → Verdict → Verdict
match_both accepted v = v
match_both rejected v = rejected
match_both read_beyond v = read_beyond
match_both no_fuel v = no_fuel

-- The part of rpcri_match behind the path.
unfoldable pub match_method : List ℕ → List ℕ → Option (List ℕ) → Verdict
match_method p method none = rpcri_match_one p method (length p)
match_method p method (some signal) =
    let (before, after) = split_colon p in
    elim after as (λ _. Verdict) [
      | none ↦ rpcri_match_one p method (length p)
      | some q ↦
          match_both (rpcri_match_one p method (length before))
            (rpcri_match_one q signal (length q))
    ]

-- rpcri_match.
unfoldable pub rpcri_match : List ℕ → List ℕ → List ℕ → Option (List ℕ) → Verdict
rpcri_match ri path method signal =
    let (before, after) = split_colon ri in
    elim after as (λ _. Verdict) [
      | none ↦ rejected
      | some p ↦ match_both (rpcri_match_one ri path (length before)) (match_method p method signal)
    ]

-- rpcpath_match and rpcstr_match.
unfoldable pub rpcpath_match : List ℕ → List ℕ → Verdict
rpcpath_match pattern path = rpcri_match_one pattern path (length pattern)

unfoldable pub rpcstr_match : List ℕ → List ℕ → Verdict
rpcstr_match pattern string = rpcri_match_one pattern string (length pattern)
