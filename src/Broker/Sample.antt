-- ===== src/Broker/Sample.antt =====
-- A broker to run signals and stages on: a device that is mounted, and a user that is subscribed.
use shvc.Base.{ℕ, ◌-◌, ◌^◌, true, false, none, some, List, [], ◌∷◌, ℤ, pos}
use shvc.Broker.Subscription.{Subscription}
use shvc.Broker.State.{Role, Client, live, Broker}
use shvc.Broker.Signal.{Access}

-- "ab", "x", "get", "chng", and "ab:*:*".
abbrev pub ab : List ℕ
ab = 97 ∷ 98 ∷ []

abbrev pub ab_x : List ℕ
ab_x = 97 ∷ 98 ∷ 47 ∷ 120 ∷ []

abbrev pub get : List ℕ
get = 103 ∷ 101 ∷ 116 ∷ []

abbrev pub chng : List ℕ
chng = 99 ∷ 104 ∷ 110 ∷ 103 ∷ []

abbrev pub below_ab : List ℕ
below_ab = 97 ∷ 98 ∷ 58 ∷ 42 ∷ 58 ∷ 42 ∷ []

abbrev pub device_role : Role
device_role = record { name = []; mount_point = some ab; subscriptions = []; has_free = false }

abbrev pub user_role : Role
user_role = record { name = []; mount_point = none; subscriptions = []; has_free = false }

abbrev pub device : Client
device = record {
  cid = 0;
  handler = 7;
  role = some device_role;
  login = false;
  activity_timeout = 2 ^ 32 - 1;
  last_activity = 0;
}

abbrev pub user : Client
user = record {
  cid = 1;
  handler = 9;
  role = some user_role;
  login = true;
  activity_timeout = 180;
  last_activity = 0;
}

-- The clients 1 are bit 1 of the first word.
abbrev pub subscription : Subscription
subscription = record { ri = below_ab; clients = some (2 ∷ []) }

abbrev pub two_clients : Broker
two_clients = record {
  nolock = false;
  locked = false;
  slots =
      record { client = live device; lastuse = 0 }
      ∷ record { client = live user; lastuse = 0 }
      ∷ [];
  mounts = record { path = ab; cid = 0 } ∷ [];
  subscriptions = subscription ∷ [];
  freed = [];
}

-- Every role reads.
abbrev pub read_only : Access
read_only r path method = 8

abbrev pub no_number : List ℕ → ℤ × List ℕ
no_number s = (pos 0, s)
