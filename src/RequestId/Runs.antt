-- ===== src/RequestId/Runs.antt =====
-- Tests and witnesses for the request IDs.
use shvc.Base.{◌≡◌, refl, arith, some}
use shvc.RequestId.{rpcmsg_request_id}
use shvc.RequestId.Laws.{rpcmsg_request_id_lem}

-- The first ID, from the initial value 4.
first_id : rpcmsg_request_id 194 4 ≡ some (4, 5)
unfolding rpcmsg_request_id
first_id = refl

-- The ID after 63.
rpcmsg_request_id_lem_example : rpcmsg_request_id 194 64 ≡ some (0, 1)
rpcmsg_request_id_lem_example = rpcmsg_request_id_lem 194 64 (omega arith) (omega arith)
