-- ===== src/Convergence/Hosts.antt =====
-- The hosts of a configuration, and the rules that they come from.
use wls_ingress.Base.{true, List, [], ◌∷◌, some, ◌≡◌, ◌≢◌, ◌↔◌}
use wls_ingress.Base.{refl, sym, ◌∙◌, arith, inl, inr, Bool-cases, All, In}
use wls_ingress.Base.Text.{Text, ◌==◌, ==_iff}
use wls_ingress.Base.Slices.{items}
use wls_ingress.Sets.Members.{compare-member}
use wls_ingress.Ingress.{backend_equal}
use wls_ingress.Config.{
  Configuration, ConfigurationBackend, configuration_backend_equal, configuration_equal,
}
use wls_ingress.Config.Equality.{
  service_parts, service-IsEquivalence, configuration-compare, configuration_equal-IsEquivalence,
}
use wls_ingress.Controller.Services.{Snapshot}
use wls_ingress.Controller.Routing.{upstream, name_of}
use wls_ingress.Controller.Routing.Flat.{NamespacedRule}
use wls_ingress.Controller.Routing.Upstreams.{HasPath}
use wls_ingress.Controller.Routing.Servers.{first_for, first_for-last_for}
use wls_ingress.Controller.Routing.Served.{Routed}

-- The configuration serves the host.
abbrev pub Serves : Configuration → Text → Type 0
Serves c h = (s : ConfigurationBackend) × In s (items c.services) × (s.hostname ≡ h)

-- A service of the one has an equal in the other.
pub equal-member :
    (c d : Configuration) (s : ConfigurationBackend)
    → configuration_equal c d ≡ true
    → In s (items c.services)
    → (t : ConfigurationBackend) × In t (items d.services)
      × (s.hostname ≡ t.hostname)
      × (backend_equal s.backend t.backend ≡ true)
equal-member c d s e i =
    let (t, j, f) =
      compare-member configuration_backend_equal service-IsEquivalence c.services d.services s
        (sym (configuration-compare c d) ∙ e) i in
    let (n, b) = (service_parts s t).0 f in (t, j, n, b)

-- Configurations that Equal takes for equal serve the same hosts.
pub equal-Serves :
    (c d : Configuration) (h : Text) → configuration_equal c d ≡ true → Serves c h ↔ Serves d h
equal-Serves c d h e = (
  λ (s, i, n). let (t, j, m, b) = equal-member c d s e i in (t, j, sym m ∙ n),
  λ (s, i, n).
      let (t, j, m, b) = equal-member d c s (configuration_equal-IsEquivalence.symmetric c d e) i in
      (t, j, sym m ∙ n),
)

first_for_rule :
    (h name : Text) (rules : List NamespacedRule)
    → first_for h rules ≡ some name
    → (x : NamespacedRule) × In x rules × (x.1.host ≡ h)
unfolding first_for
first_for_rule h name [] e = cc
first_for_rule h name ((ns, r) ∷ rules) e = elim (Bool-cases (r.host == h)) [
  | inl same ↦ ((ns, r), inl refl, (==_iff r.host h).0 same)
  | inr other ↦ let (x, i, f) = first_for_rule h name rules (ground arith) in (x, inr i, f)
]

first_for_found :
    (h : Text) (x : NamespacedRule) (rules : List NamespacedRule)
    → All HasPath rules
    → In x rules
    → x.1.host ≡ h
    → (name : Text) × (first_for h rules ≡ some name)
unfolding first_for
first_for_found h x [] p i e = elim i [ ]
first_for_found h x ((ns, r) ∷ rules) ((b, f), p) i e = elim (Bool-cases (r.host == h)) [
  | inl same ↦ (name_of ns b, rw (same, f) refl)
  | inr other ↦ elim i [
    | inl here ↦ absurd (ground (arith, ==_iff r.host h))
    | inr later ↦ let (name, g) = first_for_found h x rules p later e in (name, rw other g)
  ]
]

-- A generated configuration serves exactly the hosts of the rules, the empty one excepted.
pub generated-Serves :
    (store : Snapshot) (rules : List NamespacedRule) (c : Configuration) (h : Text)
    → All HasPath rules
    → ((s : ConfigurationBackend) → In s (items c.services) ↔ Routed store rules s)
    → Serves c h ↔ ((h ≢ []) × ((x : NamespacedRule) × In x rules × (x.1.host ≡ h)))
generated-Serves store rules c h p exact = (
  λ (s, i, n).
      let r = (exact s).0 i in
      let (x, j, e) = first_for_rule s.hostname r.name rules r.first in
      (λ empty. r.full (n ∙ empty), (x, j, e ∙ n)),
  λ (full, (x, j, e)).
      let (name, f) = first_for_found h x rules p j e in
      let (w, l) = first_for-last_for h name rules f in
      let s : ConfigurationBackend = record {
        hostname = h;
        backend = some (upstream store w.0 w.1);
      } in
      (
        s,
        (exact s).1
            (record { full = full; name = name; first = f; winner = w; last = l; backend = refl }),
        refl,
      ),
)
