-- ===== src/GitServers.antt =====
-- controllers/gitserver: the cluster and the git server as the controller of git servers sees them.
pub mod Listener
pub mod Reconcile
pub mod Ready
pub mod Owned
use edp_codebase_operator.Prelude.{ℕ, String, Bool, List, [], ◌∷◌, ◌++◌, Dict}
use edp_codebase_operator.Effects.{Result, ok, err, wrap, is_not_found, Exec, branch, fail}
use edp_codebase_operator.Api.{ObjectMeta}
use edp_codebase_operator.Api.Codebase.{GitServer}
use edp_codebase_operator.Platform.{Environment}

-- A secret with its owner.
pub record OwnedSecret : Type 0 where
  pub meta : ObjectMeta
  pub open meta use *
  pub contents : Dict String

-- The unstructured EventListener, by the fields that the controller sets.
pub record EventListener : Type 0 where
  pub meta : ObjectMeta
  pub open meta use *
  pub service_account_name : String
  pub label_selector : Dict String
  -- the field triggerRef of each trigger
  pub triggers : List String
  pub pod_service_account_name : String
  pub limits : Dict String
  pub requests : Dict String

-- An ingress with one rule, and an HTTPRoute with one rule; the path is a prefix.
pub record Ingress : Type 0 where
  pub meta : ObjectMeta
  pub open meta use *
  pub host : String
  pub path : String
  pub service_name : String
  pub service_port : ℕ

pub record HttpRoute : Type 0 where
  pub meta : ObjectMeta
  pub open meta use *
  pub gateway_name : String
  pub gateway_namespace : String
  pub hostnames : List String
  pub path : String
  pub service_name : String
  pub service_port : ℕ

pub record Route : Type 0 where
  pub meta : ObjectMeta
  pub open meta use *
  pub host : String
  pub insecure_edge_termination_policy : String
  pub termination : String
  pub kind : String
  pub service_name : String
  pub weight : ℕ
  pub target_port : String
  pub wildcard_policy : String

pub record GitSshData : Type 0 where
  pub host : String
  pub user : String
  pub key : String
  pub port : ℕ

-- The requests that change the cluster.
pub data Write : Type 0 where
  update_owned_secret : OwnedSecret → Write
  create_event_listener patch_event_listener : EventListener → Write
  create_ingress : Ingress → Write
  create_http_route : HttpRoute → Write
  create_route : Route → Write
  update_git_server : GitServer → Write

-- The answers, of which that of a secret can change by the requests before. `selector_label` and
-- `set_selector_label` are `unstructured.NestedString` and `SetNestedField` at the label of git servers.
pub record ServerCluster : Type 0 where
  pub environment : Environment
  pub answer : (before : List Write) → Write → Result Unit
  pub get_git_server : (namespace name : String) → Result GitServer
  pub list_git_servers : (namespace : String) → Result (List GitServer)
  pub get_owned_secret : (before : List Write) → (namespace name : String) → Result OwnedSecret
  pub get_event_listener : (namespace name : String) → Result EventListener
  pub get_ingress : (namespace name : String) → Result Ingress
  pub get_http_route : (namespace name : String) → Result HttpRoute
  pub get_route : (namespace name : String) → Result Route
  pub get_config_map : (namespace name : String) → Result (Dict String)
  pub set_controller_reference : GitServer → ObjectMeta → Result ObjectMeta
  pub selector_label : EventListener → Result String
  pub set_selector_label : String → EventListener → Result EventListener
  -- `ssh.ParsePrivateKey`, `sshhostkey.ClientConfig` and `SSHClient.NewSession`
  pub parse_private_key : (key : String) → Result Unit
  pub host_key_config : (host : String) → (port : ℕ) → Result Unit
  pub new_session : GitSshData → Result Unit

-- The git server that the steps share by a pointer, and the requests so far.
pub record State : Type 0 where
  pub git_server : GitServer
  pub sent : List Write

abbrev pub Handler : Type 0
Handler = Exec State Unit

abbrev pub send_write : ServerCluster → Write → Handler
send_write c r s = (c.answer s.sent r, record s { sent = s.sent ++ r ∷ [] })

-- After a read: what there is, or that there is nothing; any other error is wrapped.
abbrev pub when_found :
    {A : Type 0} → (message : String) → Result A → (A → Handler) → Handler → Handler
when_found message (ok a) found missing = found a
when_found message (err e) found missing = branch (is_not_found e) missing (fail (wrap message e))
