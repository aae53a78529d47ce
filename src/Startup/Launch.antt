-- ===== src/Startup/Launch.antt =====
-- main of cmd/wls/main.go and NewWLSController of internal/ingress/controller/wls.go, up to the call
-- of Start, and redis.Manager's Start. The answers of the API server are parameters.
pub mod Ready
use wls_ingress.Base.{
  ℕ, Bool, true, false, List, [], ◌∷◌, ◌++◌, Option, none, some, if◌then◌else◌, not,
}
use wls_ingress.Base.Text.{Text, codes, ◌==◌}
use wls_ingress.Base.Int.{ℤ, itoa}
use wls_ingress.Base.Run.{Run, ok, panic}
use wls_ingress.Status.{parse_name_ns}
use wls_ingress.Kube.{
  PodInfo, PodEnvironment, get_pod_details, Versions, networking_ingress_available,
}
use wls_ingress.Startup.{
  Flags, Configuration, Globals, initial_globals, Parsed, version_only, port_in_use, configured,
  parse_flags,
}
use wls_ingress.Startup.Connecting.{Connected, connected, not_connected}

-- How the program ends before it starts: with exit code 0, by klog.Fatal, or by a panic.
pub data End : Type 0 where
  exits : End
  fatal : Text → End
  crashes : End

pub data Launch (A : Type 0) : Type 0 where
  proceeds : A → Launch A
  ends : End → Launch A

infixl 5 ◌>>=◌ ◌>>◌
abbrev pub ◌>>=◌ : {A B : Type 0} → Launch A → (A → Launch B) → Launch B
proceeds a >>= f = f a
ends e >>= f = ends e

abbrev pub ◌>>◌ : {B : Type 0} → Launch (Unit {0}) → Launch B → Launch B
m >> k = m >>= λ _. k

-- redis.Manager, without its client.
pub record Manager : Type 0 where
  pub master_name : Text
  pub sentinel_addrs : List Text
  pub redis_max_retries : ℤ
  pub redis_min_retry_backoff : ℤ
  pub redis_max_retry_backoff : ℤ
  pub redis_namespace_prefix : Text

-- redis.FailoverOptions of go-redis, the fields that the program sets.
pub record FailoverOptions : Type 0 where
  pub master_name : Text
  pub sentinel_addrs : List Text
  pub max_retries : ℤ
  pub min_retry_backoff : ℤ
  pub max_retry_backoff : ℤ

-- The options of (*Manager).Start.
unfoldable pub failover_options : Manager → FailoverOptions
failover_options r = record {
  master_name = r.master_name;
  sentinel_addrs = r.sentinel_addrs;
  max_retries = r.redis_max_retries;
  max_retry_backoff = r.redis_max_retry_backoff;
  min_retry_backoff = r.redis_min_retry_backoff;
}

-- What main asks of the API server: whether there is a service (by namespace and name) and a
-- namespace, and the server's version.
pub record ApiServer : Type 0 where
  pub has_service : Text → Text → Bool
  pub has_namespace : Text → Bool
  pub server_version : Option Text

module _ (Float : Type 0) where
  -- The redis.Manager of NewWLSController.
  unfoldable pub redis_manager : Configuration Float → Manager
  redis_manager config = record {
    master_name = config.redis_master_name;
    sentinel_addrs = (config.redis_sentinel_service ++ b':' ∷ itoa config.redis_sentinel_port) ∷ [];
    redis_max_retries = config.redis_max_retries;
    redis_min_retry_backoff = config.redis_min_retry_backoff;
    redis_max_retry_backoff = config.redis_max_retry_backoff;
    redis_namespace_prefix = config.redis_namespace_prefix;
  }

  -- What runs at the end of main: the configuration, the package variables, the pod, the manager of
  -- redis, and the addresses of the proxy (see Start) and of the health checks.
  pub record Started : Type 0 where
    pub config : Configuration Float
    pub globals : Globals Float
    pub is_networking_ingress_available : Bool
    pub pod_info : PodInfo
    pub manager : Manager
    pub proxy_addr : Text
    pub health_addr : Text

  -- The result of parseFlags, in main.
  unfoldable pub flags_parsed :
      Parsed Float × Globals Float → Launch (Configuration Float × Globals Float)
  flags_parsed (version_only, g) = ends exits
  flags_parsed (port_in_use port flag, g) = ends (fatal flag)
  flags_parsed (configured conf, g) = proceeds (conf, g)

  pub client_made : {Client : Type 0} → Connected Client → Launch Client
  client_made (connected client v retries) = proceeds client
  client_made (not_connected err) = ends (fatal (codes "API server"))

  -- The check of the default backend.
  unfoldable pub check_default_service :
      (has_service : Text → Text → Bool) → Text → Launch (Unit {0})
  check_default_service has_service service =
      if service == [] then proceeds tt else elim (parse_name_ns service) [
        | none ↦ ends (fatal (codes "default service"))
        | some (ns, name) ↦
            if has_service ns name then proceeds tt else ends (fatal (codes "default service"))
      ]

  -- The check of the namespace to be watched.
  pub check_namespace : (has_namespace : Text → Bool) → Text → Launch (Unit {0})
  check_namespace has_namespace namespace =
      if not (namespace == [])
      then if has_namespace namespace then proceeds tt else ends (fatal (codes "namespace"))
      else proceeds tt

  pub from_run : {A : Type 0} → Run A → Launch A
  from_run (ok a) = proceeds a
  from_run panic = ends crashes

  pub pod_found : Option PodInfo → Launch PodInfo
  pod_found (some pod) = proceeds pod
  pod_found none = ends (fatal (codes "pod"))

  -- NewWLSController and the part of Start that names the address.
  unfoldable pub new_controller :
      PodEnvironment → Configuration Float → Globals Float → Bool → Launch Started
  unfolding pod_found redis_manager
  new_controller env conf g networking = do
    pod ← pod_found (get_pod_details env)
    proceeds (record {
      config = conf;
      globals = g;
      is_networking_ingress_available = networking;
      pod_info = pod;
      manager = redis_manager conf;
      proxy_addr = codes ":8080";
      health_addr = b':' ∷ itoa conf.listen_health;
    })

  -- main
  unfoldable pub main :
      {Client : Type 0}
      → (port_available : ℤ → Bool) → Flags Float
      → (create_client : Text → Text → Connected Client) → (api : Client → ApiServer) → Versions
      → PodEnvironment
      → Launch Started
  unfolding flags_parsed client_made check_namespace from_run
  main port_available flags create_client api versions env = do
    (conf, g) ← flags_parsed (parse_flags Float port_available flags (initial_globals Float))
    client ← client_made (create_client conf.apiserver_host conf.kube_config_file)
    check_default_service (api client).has_service conf.default_service
    check_namespace (api client).has_namespace conf.namespace
    networking ← from_run (networking_ingress_available versions (api client).server_version)
    new_controller env conf g networking
