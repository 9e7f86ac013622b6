-- ===== src/Broker/Subscription.antt =====
-- libshvbroker/subscription.c, with what it uses of libshvbroker/arr.h.
--
-- An array is a list. `bsearch` on an array in order finds the element that compares equal, and
-- `qsort` puts an array in order; a pointer to an element is its index.
pub mod Order
pub mod Relation
pub mod Laws
pub mod Removal
use shvc.Base.{ℕ, zero, suc, Bool, true, false, not, ◌&&◌, ◌||◌, if◌then◌else◌}
use shvc.Base.{Option, none, some, List, [], ◌∷◌, ◌++◌}
use shvc.Base.Strings.{str_eq, str_lt}
use shvc.Broker.Nbool.{NboolT, nbool, nbool_set, nbool_clear}
use mathlib.Core.Option

-- struct subscription.
pub record Subscription : Type 0 where
  pub ri : List ℕ
  pub clients : NboolT

-- ARR_BSEARCH with subcmp.
unfoldable pub arr_bsearch : List ℕ → List Subscription → Option ℕ
arr_bsearch ri [] = none
arr_bsearch ri (sub ∷ subs) =
    if str_eq sub.ri ri then some 0 else Option.map suc (arr_bsearch ri subs)

-- The element at an index.
unfoldable pub clients_at : List Subscription → ℕ → NboolT
clients_at [] i = none
clients_at (sub ∷ subs) zero = sub.clients
clients_at (sub ∷ subs) (suc i) = clients_at subs i

unfoldable pub set_clients : List Subscription → ℕ → NboolT → List Subscription
set_clients [] i v = []
set_clients (sub ∷ subs) zero v = record sub { clients = v } ∷ subs
set_clients (sub ∷ subs) (suc i) v = sub ∷ set_clients subs i v

-- ARR_DEL.
unfoldable pub arr_del : List Subscription → ℕ → List Subscription
arr_del [] i = []
arr_del (sub ∷ subs) zero = subs
arr_del (sub ∷ subs) (suc i) = sub ∷ arr_del subs i

-- ARR_QSORT with subcmp, one element after the other.
unfoldable pub insert : Subscription → List Subscription → List Subscription
insert sub [] = sub ∷ []
insert sub (s ∷ subs) = if str_lt s.ri sub.ri then s ∷ insert sub subs else sub ∷ s ∷ subs

unfoldable pub arr_qsort : List Subscription → List Subscription
unfolding insert
arr_qsort [] = []
arr_qsort (sub ∷ subs) = insert sub (arr_qsort subs)

-- subscription_ri.
unfoldable pub ri_at : List Subscription → ℕ → List ℕ
ri_at [] i = []
ri_at (sub ∷ subs) zero = sub.ri
ri_at (sub ∷ subs) (suc i) = ri_at subs i

unfoldable pub subscription_ri : List Subscription → List ℕ → Option (List ℕ)
unfolding arr_bsearch ri_at
subscription_ri subs ri = Option.map (ri_at subs) (arr_bsearch ri subs)

-- subscribe behind its search: the returned value and the array that it leaves.
unfoldable pub subscribe_at : List Subscription → List ℕ → ℕ → Option ℕ → Bool × List Subscription
unfolding clients_at set_clients arr_qsort
subscribe_at subs ri cid (some i) =
    if nbool (clients_at subs i) cid
    then (false, subs)
    else (true, set_clients subs i (nbool_set (clients_at subs i) cid))
subscribe_at subs ri cid none =
    (true, arr_qsort (subs ++ (record { ri = ri; clients = nbool_set none cid } ∷ [])))

-- subscribe.
unfoldable pub subscribe : List Subscription → List ℕ → ℕ → Bool × List Subscription
unfolding arr_bsearch subscribe_at
subscribe subs ri cid = subscribe_at subs ri cid (arr_bsearch ri subs)

-- The end of unsubscribe: a subscription with no client left is deleted.
unfoldable pub drop_empty : List Subscription → ℕ → NboolT → List Subscription
unfolding set_clients arr_del
drop_empty subs i none = arr_del subs i
drop_empty subs i (some v) = set_clients subs i (some v)

-- unsubscribe behind its search.
unfoldable pub unsubscribe_at : List Subscription → ℕ → Option ℕ → Bool × List Subscription
unfolding clients_at drop_empty
unsubscribe_at subs cid none = (false, subs)
unsubscribe_at subs cid (some i) =
    if not (nbool (clients_at subs i) cid)
    then (false, subs)
    else (true, drop_empty subs i (nbool_clear (clients_at subs i) cid))

-- unsubscribe.
unfoldable pub unsubscribe : List Subscription → List ℕ → ℕ → Bool × List Subscription
unfolding arr_bsearch unsubscribe_at
unsubscribe subs ri cid = unsubscribe_at subs cid (arr_bsearch ri subs)

-- The loop of unsubscribe_all, from each index on: what `arr_del` moves down comes next.
unfoldable pub unsubscribe_all : List Subscription → ℕ → List Subscription
unsubscribe_all [] cid = []
unsubscribe_all (sub ∷ subs) cid =
    let rest = unsubscribe_all subs cid in
    elim (nbool_clear sub.clients cid) [
      | none ↦ rest
      | some v ↦ record sub { clients = some v } ∷ rest
    ]
