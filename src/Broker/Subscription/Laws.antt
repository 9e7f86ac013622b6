-- ===== src/Broker/Subscription/Laws.antt =====
-- Who is subscribed to what after each operation.
use shvc.Base.{ℕ, ◌≡◌, sym, ap, ◌∙◌, arith, Bool, true, false, not, ◌&&◌, ◌||◌, ◌==◌, List}
use shvc.Base.{none, some, Bool-cases, inl, inr, ==_iff}
use shvc.Base.Strings.{str_eq, str_eq_sound}
use shvc.Broker.Nbool.{nbool, nbool_set, nbool_clear}
use shvc.Broker.Nbool.Laws.{nbool-nbool_set, nbool-nbool_clear}
use shvc.Broker.Subscription.{
  Subscription, clients_at, subscribe, unsubscribe, subscribe_at, unsubscribe_at,
}
use shvc.Broker.Subscription.Order.{
  IsSorted, IsNew, IsAt, arr_bsearch-cases, arr_qsort-append, insert-IsSorted, set_clients-IsSorted,
}
use shvc.Broker.Subscription.Relation.{
  subscribed, nbool-none, subscribed-IsNew, subscribed-clients_at, subscribed-insert,
  subscribed-set_clients, subscribed-drop_empty, drop_empty-IsSorted,
}

-- What a subscription does to the relation: the returned value says whether it was new.
abbrev pub IsSubscribed : List Subscription → List ℕ → ℕ → Bool × List Subscription → Type 0
IsSubscribed subs ri cid res =
    (res.0 ≡ not (subscribed subs ri cid))
    × ((r : List ℕ) (c : ℕ)
        → subscribed res.1 r c ≡ ((str_eq ri r && (cid == c)) || subscribed subs r c))
    × IsSorted res.1

abbrev pub IsUnsubscribed : List Subscription → List ℕ → ℕ → Bool × List Subscription → Type 0
IsUnsubscribed subs ri cid res =
    (res.0 ≡ subscribed subs ri cid)
    × ((r : List ℕ) (c : ℕ)
        → subscribed res.1 r c ≡ (not (str_eq ri r && (cid == c)) && subscribed subs r c))
    × IsSorted res.1

-- The same entry of the relation, by equal strings and equal clients.
same_ri :
    (subs : List Subscription) (ri r : List ℕ) (c : ℕ)
    → str_eq ri r ≡ true
    → subscribed subs ri c ≡ subscribed subs r c
same_ri subs ri r c y = ap (λ a. subscribed subs a c) (str_eq_sound ri r y)

unchanged_true :
    (subs : List Subscription) (ri : List ℕ) (cid : ℕ) (r : List ℕ) (c : ℕ)
    → subscribed subs ri cid ≡ true
    → subscribed subs r c ≡ ((str_eq ri r && (cid == c)) || subscribed subs r c)
unchanged_true subs ri cid r c h = elim (Bool-cases (str_eq ri r && (cid == c))) [
  | inl y ↦ ground (
    arith,
    y,
    h,
    same_ri subs ri r c,
    ap (subscribed subs ri) ((==_iff cid c).0 (ground (arith, y))),
  )
  | inr n ↦ ground (arith, n)
]

unchanged_false :
    (subs : List Subscription) (ri : List ℕ) (cid : ℕ) (r : List ℕ) (c : ℕ)
    → subscribed subs ri cid ≡ false
    → subscribed subs r c ≡ (not (str_eq ri r && (cid == c)) && subscribed subs r c)
unchanged_false subs ri cid r c h = elim (Bool-cases (str_eq ri r && (cid == c))) [
  | inl y ↦ ground (
    arith,
    y,
    h,
    same_ri subs ri r c,
    ap (subscribed subs ri) ((==_iff cid c).0 (ground (arith, y))),
  )
  | inr n ↦ ground (arith, n)
]

subscribe_new :
    (subs : List Subscription) (ri : List ℕ) (cid : ℕ)
    → IsSorted subs
    → IsNew ri subs
    → IsSubscribed subs ri cid (subscribe_at subs ri cid none)
unfolding subscribe_at
subscribe_new subs ri cid h new =
    let sub : Subscription = record { ri = ri; clients = nbool_set none cid } in
    let sorted = arr_qsort-append sub subs h new in
    (
      ap not (sym (subscribed-IsNew ri subs cid new)),
      λ r c.
          ap (λ l. subscribed l r c) sorted
          ∙ subscribed-insert sub subs r c
          ∙ ground (arith, nbool-nbool_set none cid c, nbool-none c),
      rw sorted (insert-IsSorted sub subs h new),
    )

subscribe_found :
    (subs : List Subscription) (ri : List ℕ) (cid i : ℕ)
    → IsSorted subs
    → IsAt ri subs i
    → IsSubscribed subs ri cid (subscribe_at subs ri cid (some i))
unfolding subscribe_at
subscribe_found subs ri cid i h at =
    let was = subscribed-clients_at ri subs i cid h at in
    let v = nbool_set (clients_at subs i) cid in
    elim (Bool-cases (nbool (clients_at subs i) cid)) [
      | inl y ↦ rw y (ap not (sym y ∙ was), λ r c. unchanged_true subs ri cid r c (sym was ∙ y), h)
      | inr n ↦ rw n (
        ap not (sym n ∙ was),
        λ r c. ground (
          arith,
          subscribed-set_clients ri subs i v r c h at,
          nbool-nbool_set (clients_at subs i) cid c,
          subscribed-clients_at ri subs i c h at,
          same_ri subs ri r c,
        ),
        set_clients-IsSorted subs i v h,
      )
    ]

-- On subscriptions in order, subscribe returns whether the client was not subscribed to the
-- resource identifier, after it the client is, no other subscription has changed, and the order is
-- kept.
pub subscribe-IsSubscribed :
    (subs : List Subscription) (ri : List ℕ) (cid : ℕ)
    → IsSorted subs
    → IsSubscribed subs ri cid (subscribe subs ri cid)
unfolding subscribe
subscribe-IsSubscribed subs ri cid h = elim (arr_bsearch-cases ri subs) [
  | inl e ↦ rw (e.0) (subscribe_new subs ri cid h e.1)
  | inr e ↦ rw (e.1) (subscribe_found subs ri cid e.0 h e.2)
]

unsubscribe_found :
    (subs : List Subscription) (ri : List ℕ) (cid i : ℕ)
    → IsSorted subs
    → IsAt ri subs i
    → IsUnsubscribed subs ri cid (unsubscribe_at subs cid (some i))
unfolding unsubscribe_at
unsubscribe_found subs ri cid i h at =
    let was = subscribed-clients_at ri subs i cid h at in
    let v = nbool_clear (clients_at subs i) cid in
    elim (Bool-cases (nbool (clients_at subs i) cid)) [
      | inl y ↦ rw y (
        sym y ∙ was,
        λ r c. ground (
          arith,
          subscribed-drop_empty ri subs i v r c h at,
          nbool-nbool_clear (clients_at subs i) cid c,
          subscribed-clients_at ri subs i c h at,
          same_ri subs ri r c,
        ),
        drop_empty-IsSorted subs i v h,
      )
      | inr n ↦ rw n (sym n ∙ was, λ r c. unchanged_false subs ri cid r c (sym was ∙ n), h)
    ]

-- On subscriptions in order, unsubscribe returns whether the client was subscribed to the resource
-- identifier, after it the client is not, no other subscription has changed, and the order is kept.
pub unsubscribe-IsUnsubscribed :
    (subs : List Subscription) (ri : List ℕ) (cid : ℕ)
    → IsSorted subs
    → IsUnsubscribed subs ri cid (unsubscribe subs ri cid)
unfolding unsubscribe unsubscribe_at
unsubscribe-IsUnsubscribed subs ri cid h = elim (arr_bsearch-cases ri subs) [
  | inl e ↦ rw (e.0) (
    sym (subscribed-IsNew ri subs cid e.1),
    λ r c. unchanged_false subs ri cid r c (subscribed-IsNew ri subs cid e.1),
    h,
  )
  | inr e ↦ rw (e.1) (unsubscribe_found subs ri cid e.0 h e.2)
]
