-- ===== src/Rpcri/Search.antt =====
-- The loop of a star in rpcri_match_one, which tries the places of the string from the last one.
use shvc.Base.{ℕ, zero, suc, ◌≤◌, false, ◌==◌, ◌≡◌, refl, sym, ◌⊎◌, inl, inr, Bool-cases, arith}
use shvc.Base.{List, [], ◌∷◌, length, take, drop}
use shvc.Rpcri.{
  Verdict, accepted, rejected, read_beyond, no_fuel, or_else, try_from, strcspn, slash,
}
use shvc.Rpcri.Pattern.{contains, Decides, IsSound}

pub Decides-or_else :
    {A B G : Type 0} (v w : Verdict)
    → Decides A v
    → Decides B w
    → (A → G)
    → (B → G)
    → (G → A ⊎ B)
    → Decides G (or_else v w)
unfolding or_else
Decides-or_else accepted w a b f g h = f a
Decides-or_else rejected accepted a b f g h = g b
Decides-or_else rejected rejected a b f g h = λ x. elim (h x) [ inl y ↦ a y | inr y ↦ b y ]
Decides-or_else rejected read_beyond a b f g h = b
Decides-or_else rejected no_fuel a b f g h = b
Decides-or_else read_beyond w a b f g h = a
Decides-or_else no_fuel w a b f g h = a

-- A second try that is sound changes nothing.
pub Decides-retry :
    {G : Type 0} (v w : Verdict) → Decides G v → (¬ G → IsSound G w) → Decides G (or_else v w)
unfolding or_else
Decides-retry accepted w a b = a
Decides-retry rejected accepted a b = b a
Decides-retry rejected rejected a b = a
Decides-retry rejected read_beyond a b = b a
Decides-retry rejected no_fuel a b = b a
Decides-retry read_beyond w a b = a
Decides-retry no_fuel w a b = a

pub Decides-iff : {A B : Type 0} (v : Verdict) → Decides A v → (A → B) → (B → A) → Decides B v
Decides-iff accepted a f g = f a
Decides-iff rejected a f g = λ b. a (g b)
Decides-iff read_beyond a f g = a
Decides-iff no_fuel a f g = a

pub Decides→IsSound : {A B : Type 0} (v : Verdict) → Decides A v → (A → B) → IsSound B v
Decides→IsSound accepted a f = f a
Decides→IsSound rejected a f = tt
Decides→IsSound read_beyond a f = a
Decides→IsSound no_fuel a f = a

pub Decides-try_from :
    (P : List ℕ → Type 0) (f : List ℕ → Verdict) (n : ℕ) (s : List ℕ)
    → ((v : List ℕ) → Decides (P v) (f v))
    → Decides ((i : ℕ) × (i ≤ n) × P (drop i s)) (try_from f n s)
unfolding try_from
Decides-try_from P f zero s h =
    Decides-iff (f s) (h s) (λ d. (0, omega arith, d)) (λ d. first_place d)
  where
    first_place : (i : ℕ) × (i ≤ 0) × P (drop i s) → P s
    first_place (zero, b, d) = d
    first_place (suc i, b, d) = absurd (omega arith)
Decides-try_from P f (suc n) s h =
    Decides-or_else (f (drop (suc n) s)) (try_from f n s) (h (drop (suc n) s))
      (Decides-try_from P f n s h) (λ d. (suc n, omega arith, d))
      (λ d. (d.0, omega (arith, d.1), d.2)) (λ d. which d)
  where
    which :
        (i : ℕ) × (i ≤ suc n) × P (drop i s)
        → P (drop (suc n) s) ⊎ ((i : ℕ) × (i ≤ n) × P (drop i s))
    which (i, b, d) = elim (Bool-cases (i == suc n)) [
      | inl e ↦ let e' : i ≡ suc n = ground arith in inl (rw (sym e') d)
      | inr e ↦ inr (i, ground arith, d)
    ]

-- The places up to `strcspn` are those with no slash before them.
pub strcspn_iff :
    (i : ℕ) (s : List ℕ)
    → ((i ≤ strcspn s → (i ≤ length s) × (contains slash (take i s) ≡ false))
        × ((i ≤ length s) → (contains slash (take i s) ≡ false) → i ≤ strcspn s))
unfolding strcspn contains
strcspn_iff zero s = (λ h. (omega arith, refl), λ h e. omega arith)
strcspn_iff (suc i) [] = (λ h. absurd (omega arith), λ h e. absurd (omega arith))
strcspn_iff (suc i) (x ∷ s) =
    let (below, above) = strcspn_iff i s in
    elim (Bool-cases (x == slash)) [
      | inl y ↦ rw y (λ h. absurd (omega arith), λ h e. absurd (ground arith))
      | inr n ↦ rw n (
        λ h. let (a, b) = below (omega arith) in (omega arith, b),
        λ h e. omega (arith, above (omega arith) e),
      )
    ]
