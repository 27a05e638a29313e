-- ===== src/BranchChain/ImageStreams.antt =====
-- chain/put_codebase_image_stream, and `GetKrciConfig` of pkg/platform/config.go: the image stream of a
-- branch.
use Prim.Native.Char.{code}
use Prim.Native.String.{◌++◌}
use edp_codebase_operator.Prelude.{
  ℕ, String, [], ◌∷◌, Bool, false, not, ◌||◌, Option, none, some, lookup, insert, eqb, ◌==◌,
  if◌then◌else◌,
}
use edp_codebase_operator.Effects.{
  Error, error_text, Result, ok, err, new, wrap, is, codebase_image_stream_not_found, is_not_found,
  or_wrap, and_then, Exec, pure, fail, lift, gets, modify, wrapping, branch, ◌>>=◌, ◌>>◌,
}
use edp_codebase_operator.Api.{CodebaseImageStream, codebase_branch_label, codebase_label}
use edp_codebase_operator.Api.Codebase.{CodebaseBranch, CodebaseBranchStatus}
use edp_codebase_operator.Platform.{get_krci_config}
use edp_codebase_operator.ImageStream.{get_codebase_image_stream_by_codebase_base_branch_name}
use edp_codebase_operator.BranchChain.{
  BranchClient, State, Handler, send, update_status, update, create_image_stream,
  patch_image_stream, set_branch_status, rescue,
}

-- `setFailedFields` of this handler; the count of failures and the last successful build are dropped.
unfoldable pub stream_failed_fields :
    (now : ℕ) → (message : String) → CodebaseBranchStatus → CodebaseBranchStatus
stream_failed_fields now message st = record {
  last_time_updated = now;
  version_history = st.version_history;
  last_successful_build = none;
  build = st.build;
  status = "failed";
  username = "system";
  action = "put_codebase_image_stream";
  result = "error";
  detailed_message = message;
  value = "failed";
  failure_count = 0;
  git = st.git;
  conditions = st.conditions;
}

-- The status of `setIntermediateSuccessFields` of this handler; the count of failures is dropped.
unfoldable pub stream_intermediate_fields : (now : ℕ) → CodebaseBranchStatus → CodebaseBranchStatus
stream_intermediate_fields now st = record {
  last_time_updated = now;
  version_history = st.version_history;
  last_successful_build = st.last_successful_build;
  build = st.build;
  status = "initialized";
  username = "system";
  action = "put_codebase_image_stream";
  result = "success";
  detailed_message = "";
  value = "inactive";
  failure_count = 0;
  git = st.git;
  conditions = st.conditions;
}

-- `ProcessNameToK8sConvention`
unfoldable pub process_name_to_k8s_convention : String → String
process_name_to_k8s_convention String.[] = ""
process_name_to_k8s_convention (String.◌∷◌ c s) =
    let rest = process_name_to_k8s_convention s in
    if eqb (code c) b'/' || eqb (code c) b'.' then "-" ++ rest else String.◌∷◌ c rest

-- The labels that tie an image stream to its branch and its codebase.
unfoldable pub with_branch_labels : CodebaseBranch → CodebaseImageStream → CodebaseImageStream
with_branch_labels b cis = record cis {
  meta = record (cis.meta) {
    labels =
        insert codebase_label b.spec.codebase_name (insert codebase_branch_label b.name cis.labels);
  };
}

unfoldable pub image_stream_of : (registry_url : String) → CodebaseBranch → CodebaseImageStream
image_stream_of registry_url b = record {
  meta = record {
    name = b.name;
    generate_name = "";
    namespace = b.namespace;
    labels = (codebase_branch_label, b.name) ∷ (codebase_label, b.spec.codebase_name) ∷ [];
    annotations = [];
    creation_timestamp = 0;
    deletion_timestamp = none;
    finalizers = [];
    generation = 0;
    controller = none;
  };
  spec = record {
    codebase = b.spec.codebase_name;
    image_name = registry_url ++ "/" ++ b.spec.codebase_name;
    tags = [];
  };
}

abbrev pub has_branch_label : CodebaseBranch → Option String → Bool
has_branch_label b none = false
has_branch_label b (some v) = v == b.name

module _ (client : BranchClient) where
  unfoldable pub get_docker_registry_url : (namespace : String) → Result String
  get_docker_registry_url namespace =
      and_then (or_wrap "failed to get config" (get_krci_config client.get_config_map namespace))
        λ config.
          if config.container_registry_host == ""
          then err (new "container_registry_host is not set in krci-config config map")
          else if config.container_registry_space == ""
          then err (new "container_registry_space is not set in krci-config config map")
          else ok (config.container_registry_host ++ "/" ++ config.container_registry_space)

  -- After the search by label: where it found none, the search by the old name.
  abbrev pub stream_or_old :
      CodebaseBranch → Result CodebaseImageStream → Result CodebaseImageStream
  stream_or_old b (ok cis) = ok cis
  stream_or_old b (err e) =
      if not (is codebase_image_stream_not_found e)
      then err (wrap "failed to get CodebaseImageStream" e)
      else or_wrap "failed to get CodebaseImageStream" (
          client.get_image_stream b.namespace
            (b.spec.codebase_name ++ "-" ++ process_name_to_k8s_convention b.spec.branch_name))

  unfoldable pub get_codebase_image_stream : CodebaseBranch → Result CodebaseImageStream
  get_codebase_image_stream b = stream_or_old b (
      get_codebase_image_stream_by_codebase_base_branch_name client.list_image_streams b.name
        b.namespace)

  -- The image stream exists: its label is set where it is missing or wrong.
  unfoldable pub label_existing : CodebaseBranch → CodebaseImageStream → Handler
  unfolding with_branch_labels
  label_existing b cis =
      branch (has_branch_label b (lookup codebase_branch_label cis.labels)) (pure tt) (
        wrapping "failed to set branch label" (
          send (patch_image_stream (with_branch_labels b cis))
            (client.patch_image_stream (with_branch_labels b cis))))

  unfoldable pub create_missing : CodebaseBranch → Handler
  create_missing b = do
    url ←
        wrapping "failed to get container registry url" (lift (get_docker_registry_url b.namespace))
    cis ←
        wrapping "failed to set controller reference for CodebaseImageStream"
          (lift (client.set_controller_reference b (image_stream_of url b)))
    wrapping "failed to create CodebaseImageStream"
        (send (create_image_stream cis) (client.create_image_stream cis))

  abbrev pub label_or_create : CodebaseBranch → Result CodebaseImageStream → Handler
  label_or_create b (ok cis) = label_existing b cis
  label_or_create b (err e) =
      branch (not (is_not_found e)) (fail (wrap "failed to get CodebaseImageStream" e))
        (create_missing b)

  unfoldable pub create_codebase_image_stream_if_not_exists : CodebaseBranch → Handler
  create_codebase_image_stream_if_not_exists b = label_or_create b (get_codebase_image_stream b)

  unfoldable pub set_stream_intermediate_fields : Handler
  unfolding stream_intermediate_fields
  set_stream_intermediate_fields = do
    modify (set_branch_status (stream_intermediate_fields client.now))
    b ← gets (λ s. s.branch)
    wrapping ("failed to update CodebaseBranch status field " ++ b.name)
        (send (update_status b) (client.update_status b))
    wrapping ("failed to update CodebaseBranch resource " ++ b.name)
        (send (update b) (client.update b))

  abbrev pub stream_failing : {A : Type 0} → (report : Error → Error) → Error → Exec State A
  stream_failing report e s =
      (err (report e), set_branch_status (stream_failed_fields client.now (error_text e)) s)

  -- `PutCodebaseImageStream.ServeRequest`, the last of the chain
  unfoldable pub serve_image_stream_of_branch : Handler
  unfolding set_stream_intermediate_fields stream_failed_fields
  serve_image_stream_of_branch = do
    set_stream_intermediate_fields
    b ← gets (λ s. s.branch)
    c ←
        rescue (lift (client.get_codebase b.namespace b.spec.codebase_name))
          (stream_failing (wrap "failed to fetch Codebase resource"))
    rescue (create_codebase_image_stream_if_not_exists b) (stream_failing (λ e. e))
