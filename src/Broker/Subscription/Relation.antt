-- ===== src/Broker/Subscription/Relation.antt =====
-- The relation between resource identifiers and clients that the array of subscriptions stands for.
use shvc.Base.{
  ℕ, zero, suc, ◌≡◌, refl, sym, ap, ◌∙◌, arith, Bool, true, false, ◌&&◌, ◌||◌, All, List, [], ◌∷◌,
  if◌then◌else◌,
}
use shvc.Base.{none, some, Bool-cases, inl, inr}
use shvc.Base.Strings.{str_eq, str_eq_sound, str_lt}
use shvc.Broker.Nbool.{NboolT, nbool, valid_index}
use shvc.Broker.Subscription.{Subscription, clients_at, set_clients, arr_del, insert, drop_empty}
use shvc.Broker.Subscription.Order.{
  IsSorted, IsNew, IsAt, Before, Before-IsNew, Before-IsAt, set_clients-IsSorted, arr_del-IsSorted,
}

-- The relation that the array stands for: the client `cid` is subscribed to `ri`.
unfoldable pub subscribed : List Subscription → List ℕ → ℕ → Bool
subscribed [] ri cid = false
subscribed (s ∷ subs) ri cid = (str_eq s.ri ri && nbool s.clients cid) || subscribed subs ri cid

pub subscribed-IsNew :
    (ri : List ℕ) (subs : List Subscription) (cid : ℕ)
    → IsNew ri subs
    → subscribed subs ri cid ≡ false
unfolding subscribed
subscribed-IsNew ri [] cid h = refl
subscribed-IsNew ri (s ∷ subs) cid h = rw (h.0) (subscribed-IsNew ri subs cid h.1)

-- Behind an element in order, its resource identifier does not come again.
subscribed_behind :
    (s : Subscription) (ri : List ℕ) (subs : List Subscription) (cid : ℕ)
    → All (Before s.ri) subs
    → str_eq s.ri ri ≡ true
    → subscribed subs ri cid ≡ false
subscribed_behind s ri subs cid h e =
    ap (λ r. subscribed subs r cid) (sym (str_eq_sound s.ri ri e))
    ∙ subscribed-IsNew s.ri subs cid (Before-IsNew s.ri subs h)

pub subscribed-clients_at :
    (ri : List ℕ) (subs : List Subscription) (i cid : ℕ)
    → IsSorted subs
    → IsAt ri subs i
    → nbool (clients_at subs i) cid ≡ subscribed subs ri cid
unfolding subscribed clients_at
subscribed-clients_at ri [] i cid h at = absurd (ground (arith, at))
subscribed-clients_at ri (s ∷ subs) zero cid h at =
    ground (arith, at, subscribed_behind s ri subs cid h.0 at)
subscribed-clients_at ri (s ∷ subs) (suc i) cid h at =
    ground (arith, Before-IsAt s.ri ri subs i at h.0, subscribed-clients_at ri subs i cid h.1 at)

-- What is found further behind is not what stands here.
elsewhere :
    (s : Subscription) (ri : List ℕ) (subs : List Subscription) (i : ℕ) (r : List ℕ)
    → All (Before s.ri) subs
    → IsAt ri subs i
    → (str_eq ri r && str_eq s.ri r) ≡ false
elsewhere s ri subs i r h at = elim (Bool-cases (str_eq ri r)) [
  | inl y ↦
      let other = ap (str_eq s.ri) (sym (str_eq_sound ri r y)) ∙ Before-IsAt s.ri ri subs i at h in
      ground (arith, y, other)
  | inr n ↦ ground (arith, n)
]

pub subscribed-set_clients :
    (ri : List ℕ) (subs : List Subscription) (i : ℕ) (v : NboolT) (r : List ℕ) (c : ℕ)
    → IsSorted subs
    → IsAt ri subs i
    → subscribed (set_clients subs i v) r c
      ≡ (if str_eq ri r then nbool v c else subscribed subs r c)
unfolding subscribed set_clients
subscribed-set_clients ri [] i v r c h at = absurd (ground (arith, at))
subscribed-set_clients ri (s ∷ subs) zero v r c h at =
    let same = ap (λ a. str_eq a r) (str_eq_sound s.ri ri at) in
    elim (Bool-cases (str_eq s.ri r)) [
      | inl y ↦ ground (arith, y, same, subscribed_behind s r subs c h.0 y)
      | inr n ↦ ground (arith, n, same)
    ]
subscribed-set_clients ri (s ∷ subs) (suc i) v r c h at =
    ground (arith, elsewhere s ri subs i r h.0 at, subscribed-set_clients ri subs i v r c h.1 at)

subscribed-arr_del :
    (ri : List ℕ) (subs : List Subscription) (i : ℕ) (r : List ℕ) (c : ℕ)
    → IsSorted subs
    → IsAt ri subs i
    → subscribed (arr_del subs i) r c ≡ (if str_eq ri r then false else subscribed subs r c)
unfolding subscribed arr_del
subscribed-arr_del ri [] i r c h at = absurd (ground (arith, at))
subscribed-arr_del ri (s ∷ subs) zero r c h at =
    let same = ap (λ a. str_eq a r) (str_eq_sound s.ri ri at) in
    elim (Bool-cases (str_eq s.ri r)) [
      | inl y ↦ ground (arith, y, same, subscribed_behind s r subs c h.0 y)
      | inr n ↦ ground (arith, n, same)
    ]
subscribed-arr_del ri (s ∷ subs) (suc i) r c h at =
    ground (arith, elsewhere s ri subs i r h.0 at, subscribed-arr_del ri subs i r c h.1 at)

pub subscribed-insert :
    (sub : Subscription) (subs : List Subscription) (r : List ℕ) (c : ℕ)
    → subscribed (insert sub subs) r c
      ≡ ((str_eq sub.ri r && nbool sub.clients c) || subscribed subs r c)
unfolding subscribed insert
subscribed-insert sub [] r c = refl
subscribed-insert sub (s ∷ subs) r c =
    let placed = λ (b : Bool). subscribed (if b then s ∷ insert sub subs else sub ∷ s ∷ subs) r c in
    elim (Bool-cases (str_lt s.ri sub.ri)) [
      | inl y ↦ ap placed y ∙ ground (arith, subscribed-insert sub subs r c)
      | inr n ↦ ap placed n
    ]

pub nbool-none : (c : ℕ) → nbool none c ≡ false
unfolding nbool valid_index
nbool-none c = refl

pub subscribed-drop_empty :
    (ri : List ℕ) (subs : List Subscription) (i : ℕ) (v : NboolT) (r : List ℕ) (c : ℕ)
    → IsSorted subs
    → IsAt ri subs i
    → subscribed (drop_empty subs i v) r c
      ≡ (if str_eq ri r then nbool v c else subscribed subs r c)
unfolding drop_empty
subscribed-drop_empty ri subs i none r c h at =
    ground (arith, subscribed-arr_del ri subs i r c h at, nbool-none c)
subscribed-drop_empty ri subs i (some v) r c h at =
    subscribed-set_clients ri subs i (some v) r c h at

pub drop_empty-IsSorted :
    (subs : List Subscription) (i : ℕ) (v : NboolT) → IsSorted subs → IsSorted (drop_empty subs i v)
unfolding drop_empty
drop_empty-IsSorted subs i none h = arr_del-IsSorted subs i h
drop_empty-IsSorted subs i (some v) h = set_clients-IsSorted subs i (some v) h
