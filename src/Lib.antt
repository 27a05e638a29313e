-- ===== src/Lib.antt =====
-- KubeRocketCI's codebase operator: a Kubernetes operator in Go for codebases, their branches, image
-- streams and deployments.
--
-- The parts and how they interact. Webhooks admit or deny changes to custom resources. A periodic
-- staleness check compares the branches of a namespace with git, marks the missing ones, and deletes
-- them where the codebase asks for it and no deployment resource uses them; the webhooks and the check
-- share one index of that usage. A new tag in an image stream makes a CDStageDeploy; its controller
-- queues it behind the deployments of the same stage, computes what to deploy by one of two strategies,
-- starts a Tekton pipeline run, and deletes the resource when the runs of the stage have completed. The
-- controller of codebases provisions the project in git, its webhook and its files by a chain of
-- handlers, and creates the default branch; the controller of git servers checks the connection to a git
-- server and exposes the listener that its webhooks call; the controller of branches creates a branch in git and its
-- image stream, once its codebase is available.
--
-- The files.
--   Prelude and its children: shared names, lists, Go's maps as association lists, maps of slices.
--   Effects: Go's errors as values that hold what they wrap, and handlers that change a state and may
--     fail, the state coming back beside the error.
--   Api, Api.Codebase: the structs of api/v1, with the fields that modelled code reads or writes.
--   Platform: pkg/platform, the config maps and the environment variables.
--   PipelineApi: the structs of the CD pipeline operator and of Tekton that are read.
--   CdStageDeploy: controllers/cdstagedeploy. Cluster has the client and the requests; Queue is
--     chain/resolve_status.go, Process is chain/process_trigger_template.go, Reconcile is the chain,
--     its last handler and the controller. One reconciliation is a function to the outcome and the
--     list of requests sent, in order.
--   ImageStream: pkg/codebaseimagestream. AutoDeploy: pkg/autodeploy.
--   DeploymentUsage: pkg/deploymentusage; its children Branches and Codebases are
--     pkg/codebasebranch/usage.go and pkg/codebase/usage.go.
--   StaleCheck: controllers/codebasebranch/stalecheck. Action has the two actions, Checker the sweep.
--   Webhook: pkg/webhook; Validation has the tests on a codebase, Codebases and Branches the validators.
--   Url: the URLs of pkg/util/url.go.
--   StreamDeploy: controllers/codebaseimagestream; Labels has the labels that name a stage.
--   BranchChain: controllers/codebasebranch/chain; Git, Versions and ImageStreams have the handlers, and
--     Chain puts them together as chain/factory does.
--   BranchController: controllers/codebasebranch/codebasebranch_controller.go. Parts has the defaults,
--     the labels and the status, Removal the finalizer, Reconcile one reconciliation around the chain.
--   CodebaseChain: controllers/codebase. Action is what is done outside the process, and World answers it
--     by what was done before. Status and Repository are chain/common.go and chain/checkout_branch.go,
--     Project is chain/put_project.go, Configs, WebHooks and Cleaning are the other handlers, Modifier is
--     pkg/objectmodifier, and Controller has the chain and one reconciliation. Project/Watch follows what
--     a run learns about the remote repository, and Project/Runs the runs that stop at any action.
--     Controller/Ledger follows the git statuses that the API server stores.
--   GitServers: controllers/gitserver. Listener is create_event_listener.go, Reconcile the controller and
--     ssh.go: the owner of the secret, the connection check, the listener, and the status.
--   Pause: pkg/predicate/pause.go.
--   Examples: small resources, on which the theorems are applied.
--
-- Conventions. The answers of the API server, of git and of the interfaces of the source are records of
-- functions, one for each call, and the theorems hold for all of them; a request that changes the
-- cluster is also recorded in the state. Times are natural numbers. Logging is left out. A function of
-- a package outside the repository is a parameter, with what its documentation says as a hypothesis:
-- the conditions of k8s.io/apimachinery in StaleCheck, time.Parse in ImageStream, the verb %d in Url,
-- RetryOnConflict, SetControllerReference, a read by name, xxhash and the exponential of a delay in BranchController,
-- SHA-256 in CodebaseChain, SetControllerReference, SSH sessions and the nested fields of unstructured
-- objects in GitServers. A panic of the source is taken as an error.
-- The texts of errors are those of the source, where %q stands without its quotes, and the text of a
-- failed fetch of a CDStageDeploy without its name. A range over a map is a walk over the list that stands for it, so it holds for every order.
--
-- Bounds and fuel. The limit of 500 pipeline runs and of 1000 codebases is passed to the listing as in
-- the source; what is proved is about what was listed. Loops are structural recursion, except the loop
-- of TrimGitFromURL, whose fuel is one more than the characters of the text: each turn removes four.
--
-- Not modelled: the clients of git, Gerrit, GitLab, Bitbucket and Jira, the process entry, telemetry and
-- the generated code, which are input and output or wiring; the rendering of deployment templates and of
-- the GitLab CI file, which are single actions of the codebase chain; and, left for later, the
-- controllers of integration secrets and Jira.
pub mod Prelude
pub mod Effects
pub mod Api
pub mod Platform
pub mod PipelineApi
pub mod CdStageDeploy
pub mod ImageStream
pub mod AutoDeploy
pub mod DeploymentUsage
pub mod StaleCheck
pub mod Url
pub mod Webhook
pub mod StreamDeploy
pub mod BranchChain
pub mod BranchController
pub mod CodebaseChain
pub mod GitServers
pub mod Pause
mod Examples
