-- ===== src/Examples/Servers.antt =====
-- The theorems on git servers at one git server, whose secret is there and is nobody's.
use edp_codebase_operator.Prelude.{
  false, [], ◌∷◌, some, none, any, contains, refl, lookup, insert, get_or_empty,
}
use edp_codebase_operator.Effects.{ok, err, api, not_found, is_not_found}
use edp_codebase_operator.Api.Codebase.{GitServer, set_failed, set_success}
use edp_codebase_operator.Platform.{
  get_platform_type, is_openshift, is_envoy_gateway, get_krci_config,
}
use edp_codebase_operator.GitServers.{ServerCluster, State, OwnedSecret}
use edp_codebase_operator.GitServers.Listener.{
  object_meta, generate_event_listener_host, event_listener_of, ingress_of,
  create_missing_event_listener, put_event_listener, create_missing_ingress, put_ingress,
  serve_event_listener,
}
use edp_codebase_operator.GitServers.Reconcile.{
  extract_ssh_data, shares_secret, git_status_eq, take_secret, take_unshared_secret,
  ensure_secret_ownership, ssh_init_from_secret, check_git_server_connection,
  check_connection_to_git_server, update_git_server_status, finish_with, after_event_listener,
  after_connection, after_ownership, reconcile_git_server, success_requeue_time,
}
use edp_codebase_operator.GitServers.Ready.{IsStored, Agrees, reconciled_server-Agrees}
use edp_codebase_operator.GitServers.Owned.{taken, MayTake, only_unshared_secret_taken}

abbrev github : GitServer
github = record {
  meta = object_meta "github" "ns" [];
  spec = record {
    git_host = "github.com";
    git_user = "git";
    git_provider = "github";
    ssh_port = 22;
    name_ssh_key_secret = "key";
    webhook_url = "";
    skip_webhook_ssl_verification = false;
    tekton_disabled = false;
  };
  status = record { error = ""; connected = false; status = "" };
}

abbrev key_secret : OwnedSecret
key_secret = record { meta = object_meta "key" "ns" []; contents = ("id_rsa", "private") ∷ [] }

-- Nothing but the secret and the configuration is there yet, and every request is served.
abbrev fresh_cluster : ServerCluster
fresh_cluster = record {
  environment = record {
    platform_type = none;
    ingress_controller_type = "";
    gateway_name = "";
    gateway_namespace = "";
  };
  answer = λ before w. ok tt;
  get_git_server = λ ns n. ok github;
  list_git_servers = λ ns. ok (github ∷ []);
  get_owned_secret = λ before ns n. ok key_secret;
  get_event_listener = λ ns n. err (api not_found "no event listener");
  get_ingress = λ ns n. err (api not_found "no ingress");
  get_http_route = λ ns n. err (api not_found "no route");
  get_route = λ ns n. err (api not_found "no route");
  get_config_map = λ ns n. ok (("dns_wildcard", "example.com") ∷ []);
  set_controller_reference = λ g m. ok (record m { controller = some g.name });
  selector_label = λ el. ok "";
  set_selector_label = λ v el. ok el;
  parse_private_key = λ key. ok tt;
  host_key_config = λ host port. ok tt;
  new_session = λ d. ok tt;
}

abbrev at_start : State
at_start = record { git_server = github; sent = [] }

reconciled_server-Agrees_example :
    IsStored fresh_cluster github.status (reconcile_git_server fresh_cluster at_start).1
    × Agrees
        (some success_requeue_time)
        (reconcile_git_server fresh_cluster at_start).1.git_server.status
unfolding extract_ssh_data shares_secret git_status_eq take_secret take_unshared_secret
    ensure_secret_ownership ssh_init_from_secret check_git_server_connection
    check_connection_to_git_server update_git_server_status finish_with after_event_listener
    after_connection after_ownership reconcile_git_server set_failed set_success get_platform_type
    is_openshift is_envoy_gateway get_krci_config event_listener_of ingress_of
    create_missing_event_listener put_event_listener create_missing_ingress put_ingress
    serve_event_listener is_not_found any contains lookup insert get_or_empty
    generate_event_listener_host
reconciled_server-Agrees_example = reconciled_server-Agrees fresh_cluster at_start refl

only_unshared_secret_taken_example :
    MayTake fresh_cluster at_start (taken (reconcile_git_server fresh_cluster at_start).1.sent)
only_unshared_secret_taken_example = only_unshared_secret_taken fresh_cluster at_start
