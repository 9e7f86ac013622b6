-- ===== src/Rpcaccess.antt =====
-- The access levels of libshvrpc/rpcaccess.c.
--
-- The lookup that gperf generates from libshvrpc/rpcaccess.gperf is a parameter.
pub mod Tokens
mod Runs
use shvc.Base.{ℕ, zero, suc, Bool, true, false, not, ◌&&◌, ltb, ◌==◌, if◌then◌else◌}
use shvc.Base.{Option, none, some, List, [], ◌∷◌, ◌++◌, length, drop}

-- enum rpcaccess.
abbrev pub rpcaccess_none : ℕ
rpcaccess_none = 0

abbrev pub rpcaccess_browse : ℕ
rpcaccess_browse = 1

abbrev pub rpcaccess_read : ℕ
rpcaccess_read = 8

abbrev pub rpcaccess_write : ℕ
rpcaccess_write = 16

abbrev pub rpcaccess_command : ℕ
rpcaccess_command = 24

abbrev pub rpcaccess_config : ℕ
rpcaccess_config = 32

abbrev pub rpcaccess_service : ℕ
rpcaccess_service = 40

abbrev pub rpcaccess_super_service : ℕ
rpcaccess_super_service = 48

abbrev pub rpcaccess_devel : ℕ
rpcaccess_devel = 56

abbrev pub rpcaccess_admin : ℕ
rpcaccess_admin = 63

-- The keywords with their levels, as the switch of rpcaccess_granted_str has them.
abbrev pub keywords : List (ℕ × List ℕ)
keywords =
    (rpcaccess_browse, 98 ∷ 119 ∷ 115 ∷ [])
    ∷ (rpcaccess_read, 114 ∷ 100 ∷ [])
    ∷ (rpcaccess_write, 119 ∷ 114 ∷ [])
    ∷ (rpcaccess_command, 99 ∷ 109 ∷ 100 ∷ [])
    ∷ (rpcaccess_config, 99 ∷ 102 ∷ 103 ∷ [])
    ∷ (rpcaccess_service, 115 ∷ 114 ∷ 118 ∷ [])
    ∷ (rpcaccess_super_service, 115 ∷ 115 ∷ 114 ∷ 118 ∷ [])
    ∷ (rpcaccess_devel, 100 ∷ 101 ∷ 118 ∷ [])
    ∷ (rpcaccess_admin, 115 ∷ 117 ∷ [])
    ∷ []

-- The switch, case by case.
unfoldable pub find_level : ℕ → List (ℕ × List ℕ) → List ℕ
find_level acc [] = []
find_level acc ((level, word) ∷ rest) =
    let later = find_level acc rest in if acc == level then word else later

-- rpcaccess_granted_str.
unfoldable pub rpcaccess_granted_str : ℕ → List ℕ
unfolding find_level
rpcaccess_granted_str acc = find_level acc keywords

-- The lookup of gperf: the level of a keyword.
abbrev pub Lookup : Type 0
Lookup = List ℕ → Option ℕ

-- rpcaccess_granted_access.
unfoldable pub rpcaccess_granted_access : Lookup → List ℕ → ℕ
rpcaccess_granted_access gperf str = elim (gperf str) as (λ _. ℕ) [
  | some acc ↦ acc
  | none ↦ rpcaccess_none
]

abbrev pub comma : ℕ
comma = 0x2C

-- `strchrnul(start, ',')`: what is before it, and the string from there on.
unfoldable pub strchrnul : List ℕ → List ℕ × List ℕ
strchrnul [] = ([], [])
strchrnul (c ∷ cs) =
    let (before, term) = strchrnul cs in if c == comma then ([], c ∷ cs) else (c ∷ before, term)

-- The comma at the front, and what is behind it.
unfoldable pub skip_comma : List ℕ → List ℕ × List ℕ
skip_comma [] = ([], [])
skip_comma (c ∷ cs) = if c == comma then (c ∷ [], cs) else ([], c ∷ cs)

-- What is at `str` behind the move that discards the keyword.
unfoldable pub discard : List ℕ → List ℕ → List ℕ
discard [] term = drop 1 term
discard (c ∷ cs) term = term

-- The level that is kept.
unfoldable pub higher : ℕ → ℕ → ℕ
higher acc res = if ltb res acc then acc else res

-- The loop of rpcaccess_granted_extract: the level, and the string from `str` on at the end. Every
-- round makes the string shorter.
unfoldable pub extract_loop : ℕ → Lookup → ℕ → List ℕ → ℕ × List ℕ
extract_loop zero gperf res str = (res, str)
extract_loop (suc fuel) gperf res [] = (res, [])
extract_loop (suc fuel) gperf res (c ∷ cs) =
    let (front, start) = skip_comma (c ∷ cs) in
    let (word, term) = strchrnul start in
    elim (gperf word) as (λ _. ℕ × List ℕ) [
      | some acc ↦ extract_loop fuel gperf (higher acc res) (discard front term)
      | none ↦
          let (res', left) = extract_loop fuel gperf res term in (res', front ++ (word ++ left))
    ]

-- rpcaccess_granted_extract: the level, and what is left of the string.
unfoldable pub rpcaccess_granted_extract : Lookup → List ℕ → ℕ × List ℕ
rpcaccess_granted_extract gperf str = extract_loop (length str) gperf rpcaccess_none str
