-- ===== src/Config/Equality.antt =====
-- Configurations that the controller takes for equal.
use wls_ingress.Base.{true, some, List, ◌≡◌, refl, sym, ◌∙◌, ◌↔◌, arith}
use wls_ingress.Base.Text.{==_iff}
use wls_ingress.Sets.{compare}
use wls_ingress.Sets.Count.{IsEquivalence, compare-IsEquivalence, compare-perm}
use wls_ingress.Ingress.{backend_equal}
use wls_ingress.Ingress.Equality.{backend_equal-IsEquivalence}
use wls_ingress.Config.{
  Configuration, ConfigurationBackend, configuration_backend_equal, configuration_equal,
}
use mathlib.Core.List.{Permᴰ}

pub service_parts :
    (s1 s2 : ConfigurationBackend)
    → (configuration_backend_equal s1 s2 ≡ true)
      ↔ ((s1.hostname ≡ s2.hostname) × (backend_equal s1.backend s2.backend ≡ true))
unfolding configuration_backend_equal
service_parts s1 s2 = (
  λ h. ground (arith, ==_iff s1.hostname s2.hostname),
  λ h. ground (arith, ==_iff s1.hostname s2.hostname),
)

pub service-IsEquivalence : IsEquivalence configuration_backend_equal
service-IsEquivalence = record {
  reflexive = λ s. (service_parts s s).1 (refl, backend_equal-IsEquivalence.reflexive s.backend);
  symmetric = λ s t h.
      let (n, b) = (service_parts s t).0 h in
      (service_parts t s).1 (sym n, backend_equal-IsEquivalence.symmetric s.backend t.backend b);
  transitive = λ s t u h k.
      let (n, b) = (service_parts s t).0 h in
      let (m, c) = (service_parts t u).0 k in
      (service_parts s u).1
        (n ∙ m, backend_equal-IsEquivalence.transitive s.backend t.backend u.backend b c);
}

pub configuration-compare :
    (c1 c2 : Configuration)
    → configuration_equal c1 c2 ≡ compare configuration_backend_equal c1.services c2.services
unfolding configuration_equal
configuration-compare c1 c2 = ground arith

-- Equal on configurations is reflexive, symmetric and transitive.
pub configuration_equal-IsEquivalence : IsEquivalence configuration_equal
configuration_equal-IsEquivalence =
    let c = compare-IsEquivalence configuration_backend_equal service-IsEquivalence in
    record {
      reflexive = λ a. rw configuration-compare (c.reflexive a.services);
      symmetric = λ a b h.
          rw configuration-compare
            (c.symmetric a.services b.services (rw configuration-compare at h));
      transitive = λ a b d h k. rw configuration-compare (
          c.transitive a.services b.services d.services (rw configuration-compare at h)
            (rw configuration-compare at k));
    }

-- The order of the services does not matter to Equal.
pub configuration_equal-perm :
    (c1 c2 : Configuration) (a b : List ConfigurationBackend)
    → c1.services ≡ some a
    → c2.services ≡ some b
    → Permᴰ a b
    → configuration_equal c1 c2 ≡ true
configuration_equal-perm c1 c2 a b h k p =
    rw (configuration-compare, h, k)
      (compare-perm configuration_backend_equal service-IsEquivalence p)
