-- ===== src/GitServers/Listener.antt =====
-- controllers/gitserver/create_event_listener.go: the EventListener of a git server, and how it is
-- exposed.
use Prim.Native.String.{◌++◌}
use edp_codebase_operator.Prelude.{ℕ, String, not, ◌||◌, none, [], ◌∷◌, Dict, ◌==◌}
use edp_codebase_operator.Effects.{new, Exec, pure, fail, lift, gets, wrapping, branch, ◌>>=◌, ◌>>◌}
use edp_codebase_operator.Api.{ObjectMeta}
use edp_codebase_operator.Api.Codebase.{GitServer}
use edp_codebase_operator.Platform.{KrciConfig, get_krci_config, is_openshift, is_envoy_gateway}
use edp_codebase_operator.GitServers.{
  ServerCluster, State, Handler, send_write, when_found, EventListener, Ingress, HttpRoute, Route,
  create_event_listener, patch_event_listener, create_ingress, create_http_route, create_route,
}

abbrev pub git_server_label : String
git_server_label = "app.edp.epam.com/gitServer"

unfoldable pub generate_event_listener_host : GitServer → (dns_wildcard : String) → String
generate_event_listener_host g dns_wildcard =
    "el-" ++ g.name ++ "-" ++ g.namespace ++ "." ++ dns_wildcard

abbrev pub generate_event_listener_name : (git_server_name : String) → String
generate_event_listener_name name = "edp-" ++ name

-- The prefix is `eventlistener.GeneratedResourcePrefix`.
abbrev pub generate_service_name : (git_server_name : String) → String
generate_service_name name = "el" ++ "-" ++ generate_event_listener_name name

abbrev pub generate_ingress_name : (git_server_name : String) → String
generate_ingress_name name = "event-listener-" ++ name

-- The port is that of Tekton Triggers.
abbrev pub el_service_port : ℕ
el_service_port = 8080

abbrev pub object_meta : (name namespace : String) → (labels : Dict String) → ObjectMeta
object_meta n ns ls = record {
  name = n;
  generate_name = "";
  namespace = ns;
  labels = ls;
  annotations = [];
  creation_timestamp = 0;
  deletion_timestamp = none;
  finalizers = [];
  generation = 0;
  controller = none;
}

abbrev pub desired_event_listener_label_selector : GitServer → Dict String
desired_event_listener_label_selector g = (git_server_label, g.name) ∷ []

unfoldable pub event_listener_of : GitServer → EventListener
event_listener_of g = record {
  meta =
      object_meta (generate_event_listener_name g.name) g.namespace
        ((git_server_label, g.name) ∷ []);
  service_account_name = "default";
  label_selector = desired_event_listener_label_selector g;
  triggers = (g.spec.git_provider ++ "-build") ∷ (g.spec.git_provider ++ "-review") ∷ [];
  pod_service_account_name = "tekton-triggers-sa-" ++ g.namespace;
  limits = ("cpu", "500m") ∷ ("memory", "128Mi") ∷ [];
  requests = ("cpu", "50m") ∷ ("memory", "64Mi") ∷ [];
}

unfoldable pub ingress_of : GitServer → KrciConfig → Ingress
ingress_of g config = record {
  meta = object_meta (generate_ingress_name g.name) g.namespace ((git_server_label, g.name) ∷ []);
  host = generate_event_listener_host g config.dns_wildcard;
  path = "/";
  service_name = generate_service_name g.name;
  service_port = el_service_port;
}

unfoldable pub http_route_of : (gateway namespace : String) → GitServer → KrciConfig → HttpRoute
http_route_of gateway ns g config = record {
  meta = object_meta (generate_ingress_name g.name) g.namespace ((git_server_label, g.name) ∷ []);
  gateway_name = gateway;
  gateway_namespace = ns;
  hostnames = generate_event_listener_host g config.dns_wildcard ∷ [];
  path = "/";
  service_name = generate_service_name g.name;
  service_port = el_service_port;
}

unfoldable pub route_of : GitServer → KrciConfig → Route
route_of g config = record {
  meta = object_meta (generate_ingress_name g.name) g.namespace [];
  host = generate_event_listener_host g config.dns_wildcard;
  insecure_edge_termination_policy = "Redirect";
  termination = "edge";
  kind = "Service";
  service_name = generate_service_name g.name;
  weight = 100;
  target_port = "http-listener";
  wildcard_policy = "None";
}

module _ (c : ServerCluster) where
  -- `controllerutil.SetControllerReference` of an object that is about to be created
  abbrev pub owned_meta : (kind : String) → GitServer → ObjectMeta → Exec State ObjectMeta
  owned_meta kind g m =
      wrapping ("failed to set controller reference for " ++ kind)
        (lift (c.set_controller_reference g m))

  abbrev pub dns_config : GitServer → Exec State KrciConfig
  dns_config g =
      wrapping "failed to get dnsWildcard" (lift (get_krci_config c.get_config_map g.namespace))

  unfoldable pub reconcile_event_listener_label_selector : GitServer → EventListener → Handler
  reconcile_event_listener_label_selector g el = do
    current ← wrapping "failed to read EventListener labelSelector" (lift (c.selector_label el))
    branch (current == g.name) (pure tt) do
      changed ←
          wrapping "failed to set EventListener labelSelector"
            (lift (c.set_selector_label g.name el))
      wrapping "failed to patch EventListener labelSelector"
          (send_write c (patch_event_listener changed))

  unfoldable pub create_missing_event_listener : GitServer → Handler
  create_missing_event_listener g = do
    m ← owned_meta "EventListener" g (event_listener_of g).meta
    wrapping "failed to create EventListener"
        (send_write c (create_event_listener (record (event_listener_of g) { meta = m })))

  -- `createEventListener`
  unfoldable pub put_event_listener : GitServer → Handler
  put_event_listener g =
      when_found "failed to get EventListener"
        (c.get_event_listener g.namespace (generate_event_listener_name g.name))
        (reconcile_event_listener_label_selector g) (create_missing_event_listener g)

  unfoldable pub create_missing_ingress : GitServer → Handler
  create_missing_ingress g = do
    config ← dns_config g
    m ← owned_meta "Ingress" g (ingress_of g config).meta
    wrapping "failed to create Ingress"
        (send_write c (create_ingress (record (ingress_of g config) { meta = m })))

  -- `createIngress`
  unfoldable pub put_ingress : GitServer → Handler
  put_ingress g =
      when_found "failed to get Ingress" (c.get_ingress g.namespace (generate_ingress_name g.name))
        (λ found. pure tt) (create_missing_ingress g)

  unfoldable pub create_missing_http_route : GitServer → Handler
  create_missing_http_route g = do
    config ← dns_config g
    let route = http_route_of c.environment.gateway_name c.environment.gateway_namespace g config
    m ← owned_meta "HTTPRoute" g route.meta
    wrapping "failed to create HTTPRoute"
        (send_write c (create_http_route (record route { meta = m })))

  -- `createHTTPRoute`
  unfoldable pub put_http_route : GitServer → Handler
  put_http_route g =
      branch (c.environment.gateway_name == "" || c.environment.gateway_namespace == "")
        (fail (new "GATEWAY_NAME/GATEWAY_NAMESPACE must be set when INGRESS_CONTROLLER_TYPE=envoy"))
        (when_found "failed to get HTTPRoute"
          (c.get_http_route g.namespace (generate_ingress_name g.name)) (λ found. pure tt)
          (create_missing_http_route g))

  unfoldable pub create_missing_route : GitServer → Handler
  create_missing_route g = do
    config ← dns_config g
    m ← owned_meta "Route" g (route_of g config).meta
    wrapping "failed to create Route"
        (send_write c (create_route (record (route_of g config) { meta = m })))

  -- `createRoute`
  unfoldable pub put_route : GitServer → Handler
  put_route g =
      when_found "failed to get Route" (c.get_route g.namespace (generate_ingress_name g.name))
        (λ found. pure tt) (create_missing_route g)

  -- `CreateEventListener.ServeRequest`
  unfoldable pub serve_event_listener : Handler
  serve_event_listener = do
    g ← gets (λ s. s.git_server)
    branch g.spec.tekton_disabled (pure tt) (
        branch (not (g.spec.webhook_url == "")) (pure tt) do
          put_event_listener g
          branch (is_openshift c.environment) (put_route g)
              (branch (is_envoy_gateway c.environment) (put_http_route g) (put_ingress g)))
