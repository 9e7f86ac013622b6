-- ===== src/Broker/Subscription/Removal.antt =====
-- unsubscribe_all, which a client's removal calls.
use shvc.Base.{ℕ, ◌≡◌, refl, ◌∙◌, arith, not, ◌&&◌, ◌||◌, ◌==◌, All, List, [], ◌∷◌, none, some}
use shvc.Base.Strings.{str_eq}
use shvc.Broker.Nbool.{NboolT, nbool, nbool_clear}
use shvc.Broker.Nbool.Laws.{nbool-nbool_clear}
use shvc.Broker.Subscription.{Subscription, unsubscribe_all}
use shvc.Broker.Subscription.Order.{IsSorted, Before}
use shvc.Broker.Subscription.Relation.{subscribed, nbool-none}

-- What one round of the loop keeps of a subscription, before the rest of the array.
keep : Subscription → List Subscription → NboolT → List Subscription
keep s rest v = elim v [ none ↦ rest | some v ↦ record s { clients = some v } ∷ rest ]

subscribed-keep :
    (s : Subscription) (rest : List Subscription) (v : NboolT) (r : List ℕ) (c : ℕ)
    → subscribed (keep s rest v) r c ≡ ((str_eq s.ri r && nbool v c) || subscribed rest r c)
unfolding keep subscribed
subscribed-keep s rest none r c = ground (arith, nbool-none c)
subscribed-keep s rest (some v) r c = refl

keep-All :
    (ri : List ℕ) (s : Subscription) (rest : List Subscription) (v : NboolT)
    → Before ri s
    → All (Before ri) rest
    → All (Before ri) (keep s rest v)
unfolding keep
keep-All ri s rest none h hs = hs
keep-All ri s rest (some v) h hs = (h, hs)

keep-IsSorted :
    (s : Subscription) (rest : List Subscription) (v : NboolT)
    → All (Before s.ri) rest
    → IsSorted rest
    → IsSorted (keep s rest v)
unfolding keep
keep-IsSorted s rest none h hs = hs
keep-IsSorted s rest (some v) h hs = (h, hs)

unsubscribe_all-All :
    (ri : List ℕ) (subs : List Subscription) (cid : ℕ)
    → All (Before ri) subs
    → All (Before ri) (unsubscribe_all subs cid)
unfolding unsubscribe_all keep
unsubscribe_all-All ri [] cid h = tt
unsubscribe_all-All ri (s ∷ subs) cid h =
    keep-All ri s (unsubscribe_all subs cid) (nbool_clear s.clients cid) h.0
      (unsubscribe_all-All ri subs cid h.1)

-- After unsubscribe_all the client is subscribed to nothing, and the subscriptions of all others
-- are what they were.
pub subscribed-unsubscribe_all :
    (subs : List Subscription) (cid : ℕ) (ri : List ℕ) (c : ℕ)
    → subscribed (unsubscribe_all subs cid) ri c ≡ (not (cid == c) && subscribed subs ri c)
unfolding unsubscribe_all subscribed keep
subscribed-unsubscribe_all [] cid ri c = ground arith
subscribed-unsubscribe_all (s ∷ subs) cid ri c =
    subscribed-keep s (unsubscribe_all subs cid) (nbool_clear s.clients cid) ri c
    ∙ ground (arith, nbool-nbool_clear s.clients cid c, subscribed-unsubscribe_all subs cid ri c)

-- unsubscribe_all keeps the order of the subscriptions.
pub unsubscribe_all-IsSorted :
    (subs : List Subscription) (cid : ℕ) → IsSorted subs → IsSorted (unsubscribe_all subs cid)
unfolding unsubscribe_all keep
unsubscribe_all-IsSorted [] cid h = tt
unsubscribe_all-IsSorted (s ∷ subs) cid h =
    keep-IsSorted s (unsubscribe_all subs cid) (nbool_clear s.clients cid)
      (unsubscribe_all-All s.ri subs cid h.0) (unsubscribe_all-IsSorted subs cid h.1)
