-- ===== src/Broker/Subscription/Order.antt =====
-- The order of the subscriptions, which `bsearch` needs, and what the array operations do to it.
use shvc.Base.{
  ℕ, zero, suc, ◌≡◌, refl, arith, Bool, true, false, All, List, [], ◌∷◌, ◌++◌, if◌then◌else◌,
}
use shvc.Base.{none, some, Bool-cases, inl, inr, sym, ap, ◌∙◌, ◌⊎◌}
use shvc.Base.Strings.{
  str_eq, str_lt, str_eq_sym, str_lt_trans, str_lt_total, str_lt_differ, str_eq_sound, str_lt_asym,
}
use shvc.Broker.Nbool.{NboolT}
use shvc.Broker.Subscription.{Subscription, arr_bsearch, set_clients, arr_del, insert, arr_qsort}
use mathlib.Core.Option

-- `s` comes before `t` by its resource identifier.
abbrev pub Before : List ℕ → Subscription → Type 0
Before ri t = str_lt ri t.ri ≡ true

abbrev pub IsSorted : List Subscription → Type 0
IsSorted [] = Unit
IsSorted (s ∷ subs) = All (Before s.ri) subs × IsSorted subs

pub All-insert :
    (ri : List ℕ) (sub : Subscription) (subs : List Subscription)
    → Before ri sub
    → All (Before ri) subs
    → All (Before ri) (insert sub subs)
unfolding insert
All-insert ri sub [] h hs = (h, tt)
All-insert ri sub (s ∷ subs) h hs = elim (Bool-cases (str_lt s.ri sub.ri)) [
  | inl y ↦ rw y (hs.0, All-insert ri sub subs h hs.1)
  | inr n ↦ rw n (h, hs)
]

All-trans :
    (a b : List ℕ) (subs : List Subscription)
    → str_lt a b ≡ true
    → All (Before b) subs
    → All (Before a) subs
All-trans a b [] h hs = tt
All-trans a b (s ∷ subs) h hs = (str_lt_trans a b s.ri h hs.0, All-trans a b subs h hs.1)

-- The resource identifier is not in the array.
abbrev pub IsNew : List ℕ → List Subscription → Type 0
IsNew ri subs = All (λ s. str_eq s.ri ri ≡ false) subs

pub insert-IsSorted :
    (sub : Subscription) (subs : List Subscription)
    → IsSorted subs
    → IsNew sub.ri subs
    → IsSorted (insert sub subs)
unfolding insert
insert-IsSorted sub [] h new = (tt, tt)
insert-IsSorted sub (s ∷ subs) h new = elim (Bool-cases (str_lt s.ri sub.ri)) [
  | inl y ↦ rw y (All-insert s.ri sub subs y h.0, insert-IsSorted sub subs h.1 new.1)
  | inr n ↦
      let less = str_lt_total s.ri sub.ri n new.0 in
      rw n ((less, All-trans sub.ri s.ri subs less h.0), h)
]

pub Before-IsNew : (ri : List ℕ) (subs : List Subscription) → All (Before ri) subs → IsNew ri subs
Before-IsNew ri [] h = tt
Before-IsNew ri (s ∷ subs) h =
    (str_eq_sym s.ri ri ∙ str_lt_differ ri s.ri h.0, Before-IsNew ri subs h.1)

-- The element at the index has the resource identifier.
abbrev pub IsAt : List ℕ → List Subscription → ℕ → Type 0
IsAt ri [] i = true ≡ false
IsAt ri (s ∷ subs) zero = str_eq s.ri ri ≡ true
IsAt ri (s ∷ subs) (suc i) = IsAt ri subs i

pub Before-IsAt :
    (a ri : List ℕ) (subs : List Subscription) (i : ℕ)
    → IsAt ri subs i
    → All (Before a) subs
    → str_eq a ri ≡ false
Before-IsAt a ri [] i at h = absurd (ground (arith, at))
Before-IsAt a ri (s ∷ subs) zero at h =
    ap (str_eq a) (sym (str_eq_sound s.ri ri at)) ∙ str_lt_differ a s.ri h.0
Before-IsAt a ri (s ∷ subs) (suc i) at h = Before-IsAt a ri subs i at h.1

-- What `bsearch` returns.
pub arr_bsearch-cases :
    (ri : List ℕ) (subs : List Subscription)
    → ((arr_bsearch ri subs ≡ none) × IsNew ri subs)
      ⊎ ((i : ℕ) × (arr_bsearch ri subs ≡ some i) × IsAt ri subs i)
unfolding arr_bsearch
arr_bsearch-cases ri [] = inl (refl, tt)
arr_bsearch-cases ri (s ∷ subs) =
    let pick = λ (b : Bool). if b then some 0 else Option.map suc (arr_bsearch ri subs) in
    elim (Bool-cases (str_eq s.ri ri)) [
      | inl y ↦ inr (0, ap pick y, y)
      | inr n ↦ elim (arr_bsearch-cases ri subs) [
        | inl e ↦ inl (ap pick n ∙ ap (Option.map suc) e.0, (n, e.1))
        | inr e ↦ inr (suc e.0, ap pick n ∙ ap (Option.map suc) e.1, e.2)
      ]
    ]

-- An element that comes before all others is put first.
insert_first :
    (sub : Subscription) (subs : List Subscription)
    → All (Before sub.ri) subs
    → insert sub subs ≡ sub ∷ subs
unfolding insert
insert_first sub [] h = refl
insert_first sub (s ∷ subs) h =
    ap (λ (b : Bool). if b then s ∷ insert sub subs else sub ∷ s ∷ subs)
      (str_lt_asym sub.ri s.ri h.0)

insert-insert :
    (s sub : Subscription) (subs : List Subscription)
    → All (Before s.ri) subs
    → str_eq s.ri sub.ri ≡ false
    → insert s (insert sub subs) ≡ insert sub (s ∷ subs)
unfolding insert
insert-insert s sub subs h differ =
    let place = λ (b : Bool). if b then s ∷ insert sub subs else sub ∷ s ∷ subs in
    elim (Bool-cases (str_lt s.ri sub.ri)) [
      | inl y ↦ insert_first s (insert sub subs) (All-insert s.ri sub subs y h) ∙ sym (ap place y)
      | inr n ↦
          let less = str_lt_total s.ri sub.ri n differ in
          let last = insert_first s subs h in
          ap (insert s) (insert_first sub subs (All-trans sub.ri s.ri subs less h))
          ∙ ap (λ (b : Bool). if b then sub ∷ insert s subs else s ∷ sub ∷ subs) less
          ∙ ap (λ t. sub ∷ t) last
          ∙ sym (ap place n)
    ]

-- One element put in order behind an array in order.
pub arr_qsort-append :
    (sub : Subscription) (subs : List Subscription)
    → IsSorted subs
    → IsNew sub.ri subs
    → arr_qsort (subs ++ (sub ∷ [])) ≡ insert sub subs
unfolding arr_qsort insert
arr_qsort-append sub [] h new = refl
arr_qsort-append sub (s ∷ subs) h new =
    ap (insert s) (arr_qsort-append sub subs h.1 new.1) ∙ insert-insert s sub subs h.0 new.0

-- Writing and deleting elements keeps the order.
pub All-set_clients :
    (ri : List ℕ) (subs : List Subscription) (i : ℕ) (v : NboolT)
    → All (Before ri) subs
    → All (Before ri) (set_clients subs i v)
unfolding set_clients
All-set_clients ri [] i v h = tt
All-set_clients ri (s ∷ subs) zero v h = h
All-set_clients ri (s ∷ subs) (suc i) v h = (h.0, All-set_clients ri subs i v h.1)

pub set_clients-IsSorted :
    (subs : List Subscription) (i : ℕ) (v : NboolT)
    → IsSorted subs
    → IsSorted (set_clients subs i v)
unfolding set_clients
set_clients-IsSorted [] i v h = tt
set_clients-IsSorted (s ∷ subs) zero v h = h
set_clients-IsSorted (s ∷ subs) (suc i) v h =
    (All-set_clients s.ri subs i v h.0, set_clients-IsSorted subs i v h.1)

pub All-arr_del :
    (ri : List ℕ) (subs : List Subscription) (i : ℕ)
    → All (Before ri) subs
    → All (Before ri) (arr_del subs i)
unfolding arr_del
All-arr_del ri [] i h = tt
All-arr_del ri (s ∷ subs) zero h = h.1
All-arr_del ri (s ∷ subs) (suc i) h = (h.0, All-arr_del ri subs i h.1)

pub arr_del-IsSorted :
    (subs : List Subscription) (i : ℕ) → IsSorted subs → IsSorted (arr_del subs i)
unfolding arr_del
arr_del-IsSorted [] i h = tt
arr_del-IsSorted (s ∷ subs) zero h = h.1
arr_del-IsSorted (s ∷ subs) (suc i) h = (All-arr_del s.ri subs i h.0, arr_del-IsSorted subs i h.1)
