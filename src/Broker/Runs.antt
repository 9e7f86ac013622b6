-- ===== src/Broker/Runs.antt =====
-- Runs of the broker's operations on concrete data, and the theorems applied to such data.
use shvc.Base.{◌≡◌, refl, ◌==◌, not, none, some, [], ◌∷◌, ◌&&◌, ◌||◌}
use shvc.Broker.Nbool.{NboolT, nbool, nbool_set, nbool_clear, nbool_or}
use shvc.Base.{ℕ, true, List}
use shvc.Base.Strings.{str_eq, str_lt}
use shvc.Broker.Subscription.{Subscription, subscribe, unsubscribe, unsubscribe_all}
use shvc.Broker.Subscription.Order.{IsSorted}
use shvc.Broker.Subscription.Laws.{
  IsSubscribed, IsUnsubscribed, subscribe-IsSubscribed, unsubscribe-IsUnsubscribed,
}
use shvc.Broker.Subscription.Relation.{subscribed}
use shvc.Broker.Subscription.Removal.{subscribed-unsubscribe_all, unsubscribe_all-IsSorted}
use shvc.Broker.Nbool.Laws.{nbool-nbool_set, nbool-nbool_clear, nbool-nbool_or}

abbrev three_clients : NboolT
three_clients = some (5 ∷ 0 ∷ 8 ∷ [])

set_grows : nbool_set none 33 ≡ some (0 ∷ 2 ∷ [])
unfolding nbool_set
set_grows = refl

clear_shrinks : nbool_clear three_clients 67 ≡ some (5 ∷ [])
unfolding nbool_clear
clear_shrinks = refl

clear_last : nbool_clear (some (0 ∷ 1 ∷ [])) 32 ≡ none
unfolding nbool_clear
clear_last = refl

nbool-nbool_set_run : nbool (nbool_set three_clients 97) 2 ≡ ((97 == 2) || nbool three_clients 2)
nbool-nbool_set_run = nbool-nbool_set three_clients 97 2

nbool-nbool_clear_run :
    nbool (nbool_clear three_clients 67) 2 ≡ (not (67 == 2) && nbool three_clients 2)
nbool-nbool_clear_run = nbool-nbool_clear three_clients 67 2

nbool-nbool_or_run :
    nbool (nbool_or (some (1 ∷ [])) three_clients) 67
    ≡ (nbool (some (1 ∷ [])) 67 || nbool three_clients 67)
nbool-nbool_or_run = nbool-nbool_or (some (1 ∷ [])) three_clients 67

-- The identifiers "a:b" and "c:d".
abbrev ab : List ℕ
ab = 97 ∷ 58 ∷ 98 ∷ []

abbrev cd : List ℕ
cd = 99 ∷ 58 ∷ 100 ∷ []

abbrev two_subscriptions : List Subscription
two_subscriptions =
    record { ri = ab; clients = some (5 ∷ []) } ∷ record { ri = cd; clients = some (4 ∷ []) } ∷ []

two_subscriptions-IsSorted : IsSorted two_subscriptions
unfolding str_lt
two_subscriptions-IsSorted = ((refl, tt), (tt, tt))

unsubscribe_deletes :
    unsubscribe two_subscriptions cd 2 ≡ (true, record { ri = ab; clients = some (5 ∷ []) } ∷ [])
unfolding unsubscribe str_eq nbool nbool_clear
unsubscribe_deletes = refl

subscribe-IsSubscribed_example :
    IsSubscribed two_subscriptions (98 ∷ []) 7 (subscribe two_subscriptions (98 ∷ []) 7)
subscribe-IsSubscribed_example =
    subscribe-IsSubscribed two_subscriptions (98 ∷ []) 7 two_subscriptions-IsSorted

unsubscribe-IsUnsubscribed_example :
    IsUnsubscribed two_subscriptions cd 2 (unsubscribe two_subscriptions cd 2)
unsubscribe-IsUnsubscribed_example =
    unsubscribe-IsUnsubscribed two_subscriptions cd 2 two_subscriptions-IsSorted

subscribed-unsubscribe_all_example :
    subscribed (unsubscribe_all two_subscriptions 2) ab 0
    ≡ (not (2 == 0) && subscribed two_subscriptions ab 0)
subscribed-unsubscribe_all_example = subscribed-unsubscribe_all two_subscriptions 2 ab 0

unsubscribe_all-IsSorted_run : IsSorted (unsubscribe_all two_subscriptions 2)
unsubscribe_all-IsSorted_run =
    unsubscribe_all-IsSorted two_subscriptions 2 two_subscriptions-IsSorted
