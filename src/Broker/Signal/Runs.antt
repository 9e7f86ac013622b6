-- ===== src/Broker/Signal/Runs.antt =====
-- Tests and witnesses for signals.
use shvc.Base.{◌≡◌, refl, true, ◌==◌, none, some, [], ◌∷◌, inl}
use shvc.Rpcri.{rpcri_match_one}
use shvc.Rpcri.Identifier.{rpcri_match, split_colon, match_both, match_method}
use shvc.Broker.Nbool.{nbool, nbool_or, nbool_clear, valid_index}
use shvc.Broker.Sample.{ab, get, chng, two_clients, read_only}
use shvc.Broker.Signal.{
  or_matching, clear_loop, pack_all, multipack_done, may_receive, signal_destinations,
}
use shvc.Broker.Signal.{
  rpcbroker_send_signal_void, Multipack, multipack_init, handler_at, waits, msg_send, msg_drop,
}
use shvc.Broker.Signal.Delivery.{
  delivered, takes_all, multipack_done-pack_all, send_signal_void_waits,
}

-- The user gets the signal, the device does not.
to_the_user :
    signal_destinations read_only (record two_clients { locked = true }) ab get chng 8
    ≡ some (some (2 ∷ []))
unfolding signal_destinations or_matching rpcri_match split_colon match_both rpcri_match_one
    match_method clear_loop nbool_or valid_index nbool may_receive
to_the_user = refl

-- Nobody is let to see it.
to_nobody : signal_destinations read_only two_clients ab get chng 9 ≡ some none
unfolding signal_destinations or_matching rpcri_match split_colon match_both rpcri_match_one
    match_method clear_loop nbool_or valid_index nbool may_receive nbool_clear
to_nobody = refl

-- Of the user and the device, only the user's packer takes the item.
multipack_done-pack_all_example :
    (packs : Multipack) × (multipack_init two_clients (0 ∷ 1 ∷ []) ≡ some packs)
    × (multipack_done two_clients (0 ∷ 1 ∷ []) (pack_all ((λ h. h == 9) ∷ []) packs) true
        ≡ some (delivered ((λ h. h == 9) ∷ []) true (7 ∷ 9 ∷ []) (7 ∷ 9 ∷ [])))
unfolding handler_at
multipack_done-pack_all_example =
    multipack_done-pack_all two_clients two_clients (0 ∷ 1 ∷ []) (7 ∷ 9 ∷ []) (7 ∷ 9 ∷ [])
      ((λ h. h == 9) ∷ []) true (refl, (refl, tt)) (refl, (refl, tt))

to_the_user_only :
    delivered ((λ h. h == 9) ∷ []) true (7 ∷ 9 ∷ []) (7 ∷ 9 ∷ []) ≡ msg_drop 7 ∷ msg_send 9 ∷ []
unfolding delivered takes_all
to_the_user_only = refl

send_signal_void_waits_example :
    rpcbroker_send_signal_void read_only two_clients ab get chng 8 [] ≡ waits
unfolding rpcri_match split_colon match_both match_method rpcri_match_one
send_signal_void_waits_example =
    send_signal_void_waits read_only two_clients ab get chng 8 [] (2 ∷ []) refl refl (inl refl, tt)
      to_the_user
