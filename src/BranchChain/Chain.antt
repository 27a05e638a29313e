-- ===== src/BranchChain/Chain.antt =====
-- chain/factory: the chain of handlers of a CodebaseBranch.
pub mod Created
pub mod Answered
pub mod Requested
pub mod Failures
use edp_codebase_operator.BranchChain.{BranchClient, Handler}
use edp_codebase_operator.BranchChain.Git.{serve_check_reference, serve_put_branch}
use edp_codebase_operator.BranchChain.Versions.{serve_new_version}
use edp_codebase_operator.BranchChain.ImageStreams.{serve_image_stream_of_branch}

-- `GetChain`
unfoldable pub get_chain : BranchClient → Handler
get_chain client =
    serve_check_reference client
      (serve_put_branch client (serve_new_version client (serve_image_stream_of_branch client)))
