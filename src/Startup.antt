-- ===== src/Startup.antt =====
-- cmd/wls/flags.go, cmd/wls/main.go and the configuration of
-- internal/ingress/controller/controller.go: from the command line to the running controller. What
-- pflag reads from the command line is a parameter, so are the network, the API server and the
-- libraries that make its client. `Float` stands for float32, which is only passed on.
pub mod Classes
pub mod Connecting
pub mod Launch
mod Tests
use wls_ingress.Base.{
  ℕ, suc, ◌-◌, ◌*◌, ◌%◌, ltb, Bool, true, false, List, [], ◌∷◌, ◌++◌, Option, none, some,
  if◌then◌else◌, not,
}
use wls_ingress.Base.Text.{Text, codes, ◌==◌}
use wls_ingress.Base.Int.{ℤ, pos, negsuc, not_positive}

-- A second, in the nanoseconds of time.Duration.
abbrev pub second : ℕ
second = 1000000000

-- An int64 by its bits.
pub int64 : ℕ → ℤ
int64 n =
    let bits = n % 18446744073709551616 in
    if ltb bits 9223372036854775808 then pos bits else negsuc (18446744073709551615 - bits)

-- time.Duration(n) * time.Second, which wraps around.
pub seconds : ℤ → ℤ
unfolding int64
seconds (pos n) = int64 (n * second)
seconds (negsuc n) = int64 (18446744073709551616 - suc n * second % 18446744073709551616)

module _ (Float : Type 0) where
  -- The variables of parseFlags, after flags.Parse.
  pub record Flags : Type 0 where
    pub apiserver_host : Text
    pub kube_config_file : Text
    pub ingress_class : Text
    pub publish_svc : Text
    pub watch_namespace : Text
    pub def_healthz_url : Text
    pub def_health_check_timeout : ℤ
    pub show_version : Bool
    pub enable_metrics : Bool
    pub election_id : Text
    pub sync_rate_limit : Float
    pub http_port : ℤ
    pub def_server_port : ℤ
    pub healthz_port : ℤ
    pub redis_sentinel_service : Text
    pub redis_sentinel_port : ℤ
    pub redis_master_name : Text
    pub redis_max_retries : ℤ
    pub redis_min_retry_backoff : ℤ
    pub redis_max_retry_backoff : ℤ
    pub redis_namespace_prefix : Text

  -- What they are if the command line is empty; the limit is 0.3.
  unfoldable pub default_flags : (limit : Float) → Flags
  default_flags limit = record {
    apiserver_host = [];
    kube_config_file = [];
    ingress_class = [];
    publish_svc = [];
    watch_namespace = [];
    def_healthz_url = codes "/healthz";
    def_health_check_timeout = pos 10;
    show_version = false;
    enable_metrics = true;
    election_id = codes "wls-ingress-controller-leader";
    sync_rate_limit = limit;
    http_port = pos 8080;
    def_server_port = pos 8181;
    healthz_port = pos 10254;
    redis_sentinel_service = codes "redis-redis-ha.redis";
    redis_sentinel_port = pos 26379;
    redis_master_name = codes "mymaster";
    redis_max_retries = pos 3;
    redis_min_retry_backoff = pos (5 * second);
    redis_max_retry_backoff = pos (10 * second);
    redis_namespace_prefix = codes "WLS-ING";
  }

  -- controller.Configuration, without the client and the fields that nothing sets or reads.
  pub record Configuration : Type 0 where
    pub apiserver_host : Text
    pub kube_config_file : Text
    pub default_service : Text
    pub namespace : Text
    pub listen_http : ℤ
    pub listen_health : ℤ
    pub listen_default : ℤ
    pub enable_metrics : Bool
    pub election_id : Text
    pub publish_service : Text
    pub sync_rate_limit : Float
    pub redis_sentinel_service : Text
    pub redis_sentinel_port : ℤ
    pub redis_master_name : Text
    pub redis_max_retries : ℤ
    pub redis_min_retry_backoff : ℤ
    pub redis_max_retry_backoff : ℤ
    pub redis_namespace_prefix : Text

  -- The package variables that parseFlags sets: class.IngressClass, wls.HealthPath and
  -- wls.HealthCheckTimeout.
  pub record Globals : Type 0 where
    pub ingress_class : Text
    pub health_path : Text
    pub health_check_timeout : ℤ

  -- Their initial values.
  unfoldable pub initial_globals : Globals
  initial_globals = record {
    ingress_class = codes "wls";
    health_path = codes "/healthz";
    health_check_timeout = pos (10 * second);
  }

  -- What parseFlags returns.
  pub data Parsed : Type 0 where
    version_only : Parsed
    port_in_use : (port : ℤ) (flag : Text) → Parsed
    configured : Configuration → Parsed

  -- The Configuration that parseFlags makes.
  unfoldable pub configuration_of : Flags → Configuration
  configuration_of f = record {
    apiserver_host = f.apiserver_host;
    kube_config_file = f.kube_config_file;
    default_service = [];
    namespace = f.watch_namespace;
    listen_http = f.http_port;
    listen_health = f.healthz_port;
    listen_default = f.def_server_port;
    enable_metrics = f.enable_metrics;
    election_id = f.election_id;
    publish_service = f.publish_svc;
    sync_rate_limit = f.sync_rate_limit;
    redis_sentinel_service = f.redis_sentinel_service;
    redis_sentinel_port = f.redis_sentinel_port;
    redis_master_name = f.redis_master_name;
    redis_max_retries = f.redis_max_retries;
    redis_min_retry_backoff = f.redis_min_retry_backoff;
    redis_max_retry_backoff = f.redis_max_retry_backoff;
    redis_namespace_prefix = f.redis_namespace_prefix;
  }

  -- The assignment to class.IngressClass.
  unfoldable pub set_class : Flags → Globals → Globals
  set_class f g =
      if not (f.ingress_class == []) then record g { ingress_class = f.ingress_class } else g

  -- The assignments to wls.HealthPath and wls.HealthCheckTimeout.
  unfoldable pub set_health : Flags → Globals → Globals
  unfolding seconds
  set_health f g = record g {
    health_path = f.def_healthz_url;
    health_check_timeout =
        if not (not_positive f.def_health_check_timeout)
        then seconds f.def_health_check_timeout
        else g.health_check_timeout;
  }

  -- parseFlags; `port_available` is IsPortAvailable.
  unfoldable pub parse_flags : (port_available : ℤ → Bool) → Flags → Globals → Parsed × Globals
  parse_flags port_available f g =
      let g' = set_class f g in
      if f.show_version
      then (version_only, g)
      else if not (port_available f.http_port)
      then (port_in_use f.http_port (codes "--http-port"), g')
      else if not (port_available f.def_server_port)
      then (port_in_use f.def_server_port (codes "--default-server-port"), g')
      else (configured (configuration_of f), set_health f g')

-- IsPortAvailable: `dial` says whether a connection to the port can be made.
unfoldable pub is_port_available : (dial : ℤ → Bool) → ℤ → Bool
is_port_available dial p = if dial p then false else true
