-- ===== src/BranchChain/Chain/Failures.antt =====
-- chain/put_codebase_image_stream: what becomes of the count of failures that the delay between
-- retries is computed from.
use edp_codebase_operator.Prelude.{◌≡◌, arith}
use edp_codebase_operator.BranchChain.{BranchClient, State}
use edp_codebase_operator.BranchChain.ImageStreams.{serve_image_stream_of_branch}
use edp_codebase_operator.BranchChain.Chain.Created.{stream-branch}

-- However the handler of the image stream ends, the count of failures of the branch starts over at 0,
-- whatever it was before.
pub stream_handler_resets_failures :
    (client : BranchClient) (s : State)
    → (serve_image_stream_of_branch client s).1.branch.status.failure_count ≡ 0
unfolding serve_image_stream_of_branch
stream_handler_resets_failures client s = grind (arith, stream-branch client)
