-- ===== src/RequestId/Laws.antt =====
-- The IDs that rpcmsg_request_id hands out.
use shvc.Base.{
  ℕ, zero, suc, ◌+◌, ◌-◌, ◌%◌, ◌≤◌, ◌<◌, ◌≡◌, refl, ◌∙◌, false, true, ltb, ◌==◌, if◌then◌else◌,
  some, arith, Bool-cases, inl, inr,
}
use shvc.RequestId.{fetch_add, compare_exchange, rpcmsg_request_id}

-- The counter was moved by the addition, so that the exchange does nothing.
exchange_fails :
    (counter : ℕ)
    → 64 ≤ counter
    → counter < 256
    → compare_exchange (fetch_add counter) counter ≡ (counter + 1) % 256
unfolding compare_exchange fetch_add
exchange_fails counter low high =
    let other : ((counter + 1) % 256 == counter) ≡ false = ground arith in
    rw (compare_exchange, other) refl

small_id :
    (fuel counter : ℕ)
    → counter < 64
    → rpcmsg_request_id (suc fuel) counter ≡ some (counter, counter + 1)
unfolding rpcmsg_request_id fetch_add
small_id fuel counter small =
    let yes_small : ltb counter 64 ≡ true = ground arith in
    let next : (counter + 1) % 256 ≡ counter + 1 = omega arith in
    rw (rpcmsg_request_id, yes_small, next) refl

skip_id :
    (fuel counter : ℕ)
    → 64 ≤ counter
    → counter < 256
    → rpcmsg_request_id (suc fuel) counter ≡ rpcmsg_request_id fuel ((counter + 1) % 256)
unfolding rpcmsg_request_id
skip_id fuel counter low high =
    let large : ltb counter 64 ≡ false = ground arith in
    rw (rpcmsg_request_id, large, exchange_fails counter low high) refl

wraps :
    (left fuel counter : ℕ)
    → counter + suc left ≡ 256
    → 64 ≤ counter
    → left + 2 ≤ fuel
    → rpcmsg_request_id fuel counter ≡ some (0, 1)
wraps left zero counter sum low enough = absurd (omega arith)
wraps zero (suc zero) counter sum low enough = absurd (omega arith)
wraps zero (suc (suc fuel)) counter sum low enough =
    let wrapped : (counter + 1) % 256 ≡ 0 = omega arith in
    skip_id (suc fuel) counter low (omega arith) ∙ rw wrapped (small_id fuel 0 (omega arith))
wraps (suc left) (suc fuel) counter sum low enough =
    let next : (counter + 1) % 256 ≡ counter + 1 = omega arith in
    skip_id fuel counter low (omega arith)
    ∙ rw next (wraps left fuel (counter + 1) (omega arith) (omega arith) (omega arith))

-- With fuel for 194 rounds a call always returns an ID below 64: the counter, while that is below 64,
-- and 0 from then on, since the exchange that is to put the counter to 4 always fails.
pub rpcmsg_request_id_lem :
    (fuel counter : ℕ)
    → 194 ≤ fuel
    → counter < 256
    → rpcmsg_request_id fuel counter
      ≡ some (if ltb counter 64 then (counter, counter + 1) else (0, 1))
rpcmsg_request_id_lem zero counter enough bound = absurd (omega arith)
rpcmsg_request_id_lem (suc fuel) counter enough bound = elim (Bool-cases (ltb counter 64)) [
  | inl y ↦ rw y (small_id fuel counter (ground (arith, y)))
  | inr n ↦ rw n (
      wraps (255 - counter) (suc fuel) counter (omega arith) (ground (arith, n))
        (ground (arith, n, enough, bound)))
]
