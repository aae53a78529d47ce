-- ===== src/Startup/Tests.antt =====
-- A command line and an API server, and the theorems at them.
use wls_ingress.Base.{
  ℕ, suc, zero, ◌<◌, Bool, true, false, [], ◌∷◌, ◌++◌, Option, none, some, ◌≡◌, ◌⊎◌, refl, arith,
  inl, if◌then◌else◌,
}
use wls_ingress.Base.Text.{Text, codes, ◌==◌}
use wls_ingress.Base.Int.{ℤ, pos, itoa}
use wls_ingress.Base.Run.{ok, panic}
use wls_ingress.Ingress.{IngressObject}
use wls_ingress.Kube.{
  PodInfo, PodEnvironment, get_pod_details, Versions, networking_ingress_available,
  networking_ingress_available_panics,
}
use wls_ingress.Startup.{
  Flags, default_flags, Globals, Configuration, initial_globals, set_class, set_health,
  configuration_of,
}
use wls_ingress.Startup.Connecting.{
  Answer, version, error, Backoff, IsBackoff, Connected, connected, not_connected, Fails,
  create_apiserver_client, create_apiserver_client_retries,
}
use wls_ingress.Startup.Launch.{ApiServer, proceeds, Started, failover_options, main}
use wls_ingress.Startup.Launch.Ready.{IsReady, main_starts}

-- The limit in tenths.
abbrev flags : Flags ℕ
flags = record (default_flags ℕ 3) { ingress_class = codes "internal"; http_port = pos 80 }

abbrev free : ℤ → Bool
free p = true

abbrev conf : Configuration ℕ
conf = configuration_of ℕ flags

abbrev globals : Globals ℕ
globals = set_health ℕ flags (set_class ℕ flags (initial_globals ℕ))

abbrev site : IngressObject
site = record {
  namespace = codes "default";
  name = codes "site";
  annotations = (codes "kubernetes.io/ingress.class", codes "internal") ∷ [];
  creation = 0;
  rules = [];
  load_balancer = [];
}

-- A server that answers the third call.
abbrev late_server : ℕ → Answer
late_server zero = error (codes "refused")
late_server (suc zero) = error (codes "timeout")
late_server (suc (suc n)) = version (codes "v1.16.0")

-- The backoff without its delays.
retry : Backoff
retry zero check d = (false, d)
retry (suc n) check d =
    let more = retry n check (check d).1 in if (check d).0 then check d else more

retry-IsBackoff : IsBackoff retry
unfolding retry
retry-IsBackoff = record {
  no_steps = λ check d. refl;
  met = λ n check d e. rw e refl;
  not_met = λ n check d e. rw e refl;
}

first_two_fail : (j : ℕ) → j < 2 → Fails late_server j
first_two_fail zero h = (codes "refused", refl)
first_two_fail (suc zero) h = (codes "timeout", refl)
first_two_fail (suc (suc j)) h = absurd (omega arith)

abbrev build_config : Text → Text → Text ⊎ Text
build_config host kube_config = inl host

abbrev new_for_config : Text → ℕ ⊎ Text
new_for_config cfg = inl 7

create_apiserver_client_retries_example :
    ((m : ℕ) (x : Text)
      → m < 10
      → ((j : ℕ) → j < m → Fails late_server j)
      → late_server m ≡ version x
      → create_apiserver_client Text ℕ retry late_server build_config new_for_config [] []
        ≡ connected 7 (some x) m)
    × ((e : Text)
        → ((j : ℕ) → j < 10 → Fails late_server j)
        → late_server 9 ≡ error e
        → create_apiserver_client Text ℕ retry late_server build_config new_for_config [] []
          ≡ not_connected (some e))
create_apiserver_client_retries_example =
    create_apiserver_client_retries Text ℕ retry late_server build_config new_for_config [] [] [] 7
      retry-IsBackoff refl refl

third_call :
    create_apiserver_client Text ℕ retry late_server build_config new_for_config [] []
    ≡ connected 7 (some (codes "v1.16.0")) 2
third_call =
    (create_apiserver_client_retries Text ℕ retry late_server build_config new_for_config [] [] [] 7
        retry-IsBackoff refl refl).0
      2 (codes "v1.16.0") (omega arith) first_two_fail refl

abbrev versions : Versions
versions = record {
  Version = Text;
  parse_generic = λ v. if v == [] then none else some v;
  at_least = λ v w. true;
}

abbrev env : PodEnvironment
env = record {
  pod_name = codes "wls-0";
  pod_namespace = codes "default";
  get_pod = λ ns name. some [];
}

abbrev blank : Option Text
blank = some []

networking_ingress_available_panics_example :
    ((blank ≡ none) ⊎ ((v : Text) × (blank ≡ some v) × (versions.parse_generic v ≡ none))
      → networking_ingress_available versions blank ≡ panic)
    × ((v : Text) (running : Text)
        → blank ≡ some v
        → versions.parse_generic v ≡ some running
        → networking_ingress_available versions blank
          ≡ ok (versions.at_least running (codes "v1.14.0")))
unfolding ◌==◌
networking_ingress_available_panics_example =
    networking_ingress_available_panics versions blank (codes "v1.14.0") refl

abbrev api : ℕ → ApiServer
api client = record {
  has_service = λ ns name. false;
  has_namespace = λ ns. false;
  server_version = some (codes "v1.16.0");
}

abbrev create_client : Text → Text → Connected ℕ
create_client host kube_config = connected 7 (some (codes "v1.16.0")) 2

abbrev own_pod : PodInfo
own_pod = record { name = codes "wls-0"; namespace = codes "default"; labels = [] }

flags-IsReady : IsReady ℕ free flags create_client api versions env 7 true own_pod
unfolding default_flags networking_ingress_available get_pod_details ◌==◌
flags-IsReady = record {
  no_version = refl;
  http_free = refl;
  server_free = refl;
  reached = (some (codes "v1.16.0"), 2, refl);
  watched = inl refl;
  compared = refl;
  own_pod = refl;
}

main_starts_example :
    ((s : Started ℕ)
      → main ℕ free flags create_client api versions env ≡ proceeds s
      → (client : ℕ) × (networking : Bool) × (pod : PodInfo) × IsReady ℕ free flags create_client
          api versions env client networking pod)
    × ((client : ℕ) (networking : Bool) (pod : PodInfo)
        → IsReady ℕ free flags create_client api versions env client networking pod
        → (s : Started ℕ) × (main ℕ free flags create_client api versions env ≡ proceeds s)
          × (failover_options s.manager ≡ record {
            master_name = flags.redis_master_name;
            sentinel_addrs =
                (flags.redis_sentinel_service ++ b':' ∷ itoa flags.redis_sentinel_port) ∷ [];
            max_retries = flags.redis_max_retries;
            min_retry_backoff = flags.redis_min_retry_backoff;
            max_retry_backoff = flags.redis_max_retry_backoff;
          })
          × (s.manager.redis_namespace_prefix ≡ flags.redis_namespace_prefix)
          × (s.config.namespace ≡ flags.watch_namespace)
          × (s.is_networking_ingress_available ≡ networking)
          × (s.pod_info ≡ pod)
          × (s.proxy_addr ≡ codes ":8080"))
main_starts_example = main_starts ℕ free flags create_client api versions env

starts : (s : Started ℕ) × (main ℕ free flags create_client api versions env ≡ proceeds s)
starts =
    let r =
      (main_starts ℕ free flags create_client api versions env).1 7 true own_pod flags-IsReady in
    (r.0, r.1)
