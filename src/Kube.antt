-- ===== src/Kube.antt =====
-- internal/k8s/main.go, without the addresses of nodes (see Status): what the controller asks of its
-- own pod and of the API server's version. The environment, the API server and apimachinery's
-- version parser are parameters.
use wls_ingress.Base.{Bool, false, ◌||◌, [], Option, none, some, ◌≡◌, ◌⊎◌, if◌then◌else◌}
use wls_ingress.Base.{inl, inr}
use wls_ingress.Base.Text.{Text, codes, ◌==◌}
use wls_ingress.Base.Maps.{Map}
use wls_ingress.Base.Run.{Run, ok, panic}

pub record PodInfo : Type 0 where
  pub name : Text
  pub namespace : Text
  pub labels : Map Text

-- What os.Getenv returns for POD_NAME and POD_NAMESPACE, and the labels of a pod by its namespace
-- and name, `none` for a nil pod.
pub record PodEnvironment : Type 0 where
  pub pod_name : Text
  pub pod_namespace : Text
  pub get_pod : Text → Text → Option (Map Text)

-- GetPodDetails; `none` is an error.
unfoldable pub get_pod_details : PodEnvironment → Option PodInfo
get_pod_details env =
    if env.pod_name == [] || env.pod_namespace == []
    then none
    else elim (env.get_pod env.pod_namespace env.pod_name) [
      | none ↦ none
      | some labels ↦
          some (record { name = env.pod_name; namespace = env.pod_namespace; labels = labels })
    ]

-- version.ParseGeneric and AtLeast.
pub record Versions : Type 1 where
  pub Version : Type 0
  pub parse_generic : Text → Option Version
  pub at_least : Version → Version → Bool

module _ (versions : Versions) where
  open versions use {Version, parse_generic, at_least}

  -- AtLeast on the running version, a nil dereference if it could not be parsed.
  pub running_at_least : Option Version → Version → Run Bool
  running_at_least none v = panic
  running_at_least (some running) v = ok (at_least running v)

  -- NetworkingIngressAvailable. The errors of ServerVersion and of the second ParseGeneric are
  -- dropped, and the tests that follow them are of the first error; `server_version` is nil where
  -- ServerVersion fails.
  unfoldable pub networking_ingress_available : (server_version : Option Text) → Run Bool
  unfolding running_at_least
  networking_ingress_available server_version = elim (parse_generic (codes "v1.14.0")) [
    | none ↦ ok false
    | some version114 ↦ elim server_version [
      | none ↦ panic
      | some v ↦ running_at_least (parse_generic v) version114
    ]
  ]

  -- If "v1.14.0" is a version: where the API server gives no version, or one that cannot be parsed,
  -- NetworkingIngressAvailable panics instead of choosing the older group; otherwise it compares the
  -- two versions.
  pub networking_ingress_available_panics :
      (server_version : Option Text) (v114 : Version)
      → parse_generic (codes "v1.14.0") ≡ some v114
      → ((server_version ≡ none)
            ⊎ ((v : Text) × (server_version ≡ some v) × (parse_generic v ≡ none))
          → networking_ingress_available server_version ≡ panic)
        × ((v : Text) (running : Version)
            → server_version ≡ some v
            → parse_generic v ≡ some running
            → networking_ingress_available server_version ≡ ok (at_least running v114))
  unfolding networking_ingress_available
  networking_ingress_available_panics server_version v114 e = (
    λ h. elim h [
      | inl n ↦ rw (e, networking_ingress_available, n)
      | inr (v, s, p) ↦ rw (e, networking_ingress_available, s, p, running_at_least)
    ],
    λ v running s p. rw (e, networking_ingress_available, s, p, running_at_least),
  )
