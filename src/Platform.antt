-- ===== src/Platform.antt =====
-- pkg/platform: the config map of the platform, and the platform by the environment of the process.
use edp_codebase_operator.Prelude.{
  String, Bool, Dict, Option, none, some, get_or_empty, if◌then◌else◌, ◌==◌,
}
use edp_codebase_operator.Effects.{Result, ok, err, wrap, is_not_found, and_then, or_wrap}

pub record KrciConfig : Type 0 where
  pub dns_wildcard : String
  pub container_registry_type : String
  pub edp_version : String
  pub container_registry_host : String
  pub container_registry_space : String

abbrev pub map_config_to_krci_config : Dict String → KrciConfig
map_config_to_krci_config contents = record {
  dns_wildcard = get_or_empty "dns_wildcard" contents;
  container_registry_type = get_or_empty "container_registry_type" contents;
  edp_version = get_or_empty "edp_version" contents;
  container_registry_host = get_or_empty "container_registry_host" contents;
  container_registry_space = get_or_empty "container_registry_space" contents;
}

module _ (get_config_map : (namespace name : String) → Result (Dict String)) where
  abbrev pub get_edp_config : (namespace : String) → Result KrciConfig
  get_edp_config namespace =
      and_then (or_wrap "failed to get edp-config" (get_config_map namespace "edp-config"))
        λ contents. ok (map_config_to_krci_config contents)

  abbrev pub config_or_edp : (namespace : String) → Result (Dict String) → Result KrciConfig
  config_or_edp namespace (ok contents) = ok (map_config_to_krci_config contents)
  config_or_edp namespace (err e) =
      if is_not_found e then get_edp_config namespace else err (wrap "failed to get krci-config" e)

  unfoldable pub get_krci_config : (namespace : String) → Result KrciConfig
  get_krci_config namespace = config_or_edp namespace (get_config_map namespace "krci-config")

-- `os.LookupEnv` of PLATFORM_TYPE, and `os.Getenv` of the three other variables.
pub record Environment : Type 0 where
  pub platform_type : Option String
  pub ingress_controller_type : String
  pub gateway_name : String
  pub gateway_namespace : String

abbrev pub or_default_platform : Option String → String
or_default_platform none = "kubernetes"
or_default_platform (some value) = value

unfoldable pub get_platform_type : Environment → String
get_platform_type env = or_default_platform env.platform_type

unfoldable pub is_openshift : Environment → Bool
is_openshift env = get_platform_type env == "openshift"

unfoldable pub is_envoy_gateway : Environment → Bool
is_envoy_gateway env = env.ingress_controller_type == "envoy"
