-- ===== src/RequestId.antt =====
-- libshvrpc/rpcmsg_request_id.c, in one thread.
mod Laws
mod Runs
use shvc.Base.{ℕ, zero, suc, ◌+◌, ◌%◌, ltb, ◌==◌, if◌then◌else◌, Option, none, some}

-- `atomic_fetch_add(&request_id, 1)` on a `uint8_t`: the counter behind it.
unfoldable pub fetch_add : ℕ → ℕ
fetch_add counter = (counter + 1) % 256

-- `atomic_compare_exchange_weak(&request_id, &res, 4)`: the counter behind it.
unfoldable pub compare_exchange : ℕ → ℕ → ℕ
compare_exchange counter res = if counter == res then 4 else counter

-- rpcmsg_request_id by fuel: the ID, and the counter behind the call.
unfoldable pub rpcmsg_request_id : ℕ → ℕ → Option (ℕ × ℕ)
unfolding fetch_add compare_exchange
rpcmsg_request_id zero counter = none
rpcmsg_request_id (suc fuel) counter =
    let again = rpcmsg_request_id fuel (compare_exchange (fetch_add counter) counter) in
    if ltb counter 64 then some (counter, fetch_add counter) else again
