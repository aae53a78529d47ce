-- ===== src/Handler/Hosts.antt =====
-- The endpoints that the handler finds for a host.
use wls_ingress.Base.{List, [], ◌∷◌, some, ◌≡◌}
use wls_ingress.Base.{refl, sym, subst, arith, inl, inr, Bool-cases, Option-cases, In}
use wls_ingress.Base.Text.{Text, ◌==◌, ==_iff}
use wls_ingress.Base.Slices.{Slice, items}
use wls_ingress.Base.Run.{ok}
use wls_ingress.Ingress.{Backend, Endpoint}
use wls_ingress.Config.{Configuration, ConfigurationBackend}
use wls_ingress.Controller.Sync.Current.{HasBackends}
use wls_ingress.Handler.{host_endpoints, get_host_endpoints}

-- The endpoints that the handler has for a host are those of a service of its configuration.
host_endpoints_from :
    (host : Text) (ss : List ConfigurationBackend) (es : List Endpoint)
    → host_endpoints host ss ≡ ok (some es)
    → (s : ConfigurationBackend) × (b : Backend) × In s ss
      × (s.hostname ≡ host)
      × (s.backend ≡ some b)
      × (b.endpoints ≡ some es)
unfolding host_endpoints
host_endpoints_from host [] es e = cc
host_endpoints_from host (s ∷ ss) es e = elim (Bool-cases (s.hostname == host)) [
  | inr other ↦
      let (t, b, i, n, k, l) = host_endpoints_from host ss es (ground arith) in
      (t, b, inr i, n, k, l)
  | inl same ↦ elim (Option-cases s.backend) [
    | inl missing ↦ absurd (ground arith)
    | inr (b, found) ↦ (s, b, inl refl, (==_iff s.hostname host).0 same, found, ground arith)
  ]
]

pub get_host_endpoints_from :
    (c : Configuration) (host : Text) (es : List Endpoint)
    → get_host_endpoints c host ≡ ok (some es)
    → (s : ConfigurationBackend) × (b : Backend) × In s (items c.services)
      × (s.hostname ≡ host)
      × (s.backend ≡ some b)
      × (b.endpoints ≡ some es)
unfolding get_host_endpoints
get_host_endpoints_from c host es e = elim (Option-cases c.services) [
  | inl nil ↦ absurd (ground arith)
  | inr (ss, f) ↦
      let (s, b, i, n, k, l) = host_endpoints_from host ss es (ground arith) in
      (s, b, subst (λ (x : Slice ConfigurationBackend). In s (items x)) (sym f) i, n, k, l)
]

-- A host of the configuration is found, if no backend is nil: at a service of its name.
host_endpoints_found :
    (host : Text) (ss : List ConfigurationBackend) (s : ConfigurationBackend)
    → In s ss
    → s.hostname ≡ host
    → HasBackends ss
    → (t : ConfigurationBackend) × (b : Backend) × In t ss
      × (t.hostname ≡ host)
      × (t.backend ≡ some b)
      × (host_endpoints host ss ≡ ok b.endpoints)
unfolding host_endpoints
host_endpoints_found host [] s i named h = elim i [ ]
host_endpoints_found host (t ∷ ss) s i named ((b, back), h) =
    elim (Bool-cases (t.hostname == host)) [
      | inl same ↦ (t, b, inl refl, (==_iff t.hostname host).0 same, back, rw (same, back) refl)
      | inr other ↦ elim i [
        | inl here ↦ absurd (ground (arith, ==_iff t.hostname host, here, named))
        | inr later ↦
            let (u, c, j, n, k, l) = host_endpoints_found host ss s later named h in
            (u, c, inr j, n, k, rw other l)
      ]
    ]

pub get_host_endpoints_found :
    (c : Configuration) (host : Text) (s : ConfigurationBackend)
    → In s (items c.services)
    → s.hostname ≡ host
    → HasBackends (items c.services)
    → (t : ConfigurationBackend) × (b : Backend) × In t (items c.services)
      × (t.hostname ≡ host)
      × (t.backend ≡ some b)
      × (get_host_endpoints c host ≡ ok b.endpoints)
unfolding get_host_endpoints
get_host_endpoints_found c host s i named h = elim (Option-cases c.services) [
  | inl nil ↦ absurd (subst (λ (x : Slice ConfigurationBackend). In s (items x)) nil i)
  | inr (ss, e) ↦
      let (t, b, j, n, k, l) =
        host_endpoints_found host ss s
          (subst (λ (x : Slice ConfigurationBackend). In s (items x)) e i) named
          (subst (λ (x : Slice ConfigurationBackend). HasBackends (items x)) e h) in
      (t, b, subst (λ (x : Slice ConfigurationBackend). In t (items x)) (sym e) j, n, k, rw e l)
]
