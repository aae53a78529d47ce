-- ===== src/Metric.antt =====
-- internal/ingress/metric/main.go and internal/ingress/metric/collectors/controller.go: what the
-- controller counts for prometheus.
pub mod Vectors
pub mod Memory
mod Tests
use wls_ingress.Base.{ℕ, ◌+◌, Bool, true, false, List, [], ◌∷◌, Option, none, some, ◌≡◌}
use wls_ingress.Base.{length, if◌then◌else◌}
use wls_ingress.Base.Text.{Text, codes, ◌==◌}
use wls_ingress.Base.Maps.{Map}
use wls_ingress.Base.Run.{Run, ok, ◌>>=◌}

-- What is used of github.com/prometheus/client_golang. `inc_curried` is the chain of MustCurryWith,
-- With and Inc, which changes the vector that is curried, and `set_with` that of WithLabelValues and
-- Set. `value` is what a scrape finds for the values of the labels, if anything.
pub record Prometheus : Type 1 where
  pub Vec : Type 0
  pub new_vec : (labels : List Text) → Vec
  pub inc_curried : (curried labels : Map Text) → Vec → Run Vec
  pub set_with : (values : List Text) → ℕ → Vec → Run Vec
  pub value : (values : List Text) → Vec → Option ℕ
  pub Registry : Type 0
  pub must_register : Registry → Run Registry
  pub unregister : Registry → Registry

-- The variable `operation`.
abbrev pub operation : List Text
operation = codes "controller_namespace" ∷ codes "controller_class" ∷ codes "controller_pod" ∷ []

module _ (lib : Prometheus) where
  -- collectors.Controller
  pub record Metrics : Type 0 where
    pub cookie_adds : lib.Vec
    pub leader_election : lib.Vec
    pub const_labels : Map Text
    pub labels : Map Text

  -- NewController of the collectors
  unfoldable pub new_metrics : (pod namespace ingress_class : Text) → Metrics
  new_metrics pod namespace ingress_class = record {
    cookie_adds = lib.new_vec operation;
    leader_election = lib.new_vec (codes "name" ∷ []);
    const_labels =
        (codes "controller_namespace", namespace)
        ∷ (codes "controller_class", ingress_class)
        ∷ (codes "controller_pod", pod)
        ∷ [];
    labels = (codes "namespace", namespace) ∷ (codes "class", ingress_class) ∷ [];
  }

  -- NewCollector, from what the environment says of POD_NAMESPACE and POD_NAME
  unfoldable pub new_collector : (pod_namespace pod_name ingress_class : Text) → Metrics
  unfolding new_metrics
  new_collector pod_namespace pod_name ingress_class =
      new_metrics pod_name (if pod_namespace == [] then codes "default" else pod_namespace)
        ingress_class

  -- IncCookieCount
  unfoldable pub inc_cookie_count : (namespace name : Text) → Metrics → Run Metrics
  inc_cookie_count namespace name cm = do
    adds ←
        lib.inc_curried cm.const_labels
          ((codes "namespace", namespace) ∷ (codes "ingress", name) ∷ []) cm.cookie_adds
    ok (record cm { cookie_adds = adds })

  -- OnStartedLeading and OnStoppedLeading
  unfoldable pub set_leading : (election_id : Text) → ℕ → Metrics → Run Metrics
  set_leading election_id x cm = do
    gauge ← lib.set_with (election_id ∷ []) x cm.leader_election
    ok (record cm { leader_election = gauge })

  -- Describe and Collect: the vectors that a scrape sees.
  unfoldable pub scraped : Metrics → List lib.Vec
  scraped cm = cm.cookie_adds ∷ []

  -- Start and Stop of the collector
  pub register_metrics : lib.Registry → Run lib.Registry
  register_metrics registry = lib.must_register registry

  pub unregister_metrics : lib.Registry → lib.Registry
  unregister_metrics registry = lib.unregister registry
