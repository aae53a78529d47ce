-- ===== src/Ingress/Equality.antt =====
-- The comparisons of endpoints and backends are equivalences, and what they mean.
use wls_ingress.Base.{true, Option, none, some, ◌≡◌, refl, sym, ◌∙◌, ◌↔◌, arith}
use wls_ingress.Base.Text.{==_iff}
use wls_ingress.Sets.Count.{IsEquivalence, compare-IsEquivalence}
use wls_ingress.Ingress.{
  ObjectReference, Service, Endpoint, Backend, target_equal, endpoint_equal, service_equal,
  compare_endpoints, backend_equal,
}

-- Two targets that count as one.
abbrev pub SameTarget : Option ObjectReference → Option ObjectReference → Type 0
SameTarget none none = Unit
SameTarget none (some t2) = ⊥
SameTarget (some t1) none = ⊥
SameTarget (some t1) (some t2) = (t1.uid ≡ t2.uid) × (t1.resource_version ≡ t2.resource_version)

target_equal_iff : (t1 t2 : Option ObjectReference) → (target_equal t1 t2 ≡ true) ↔ SameTarget t1 t2
unfolding target_equal
target_equal_iff none none = (λ _. tt, λ _. refl)
target_equal_iff none (some t2) = (λ h. cc, λ h. elim h [ ])
target_equal_iff (some t1) none = (λ h. cc, λ h. elim h [ ])
target_equal_iff (some t1) (some t2) = (
  λ h. ground (arith, ==_iff t1.uid t2.uid, ==_iff t1.resource_version t2.resource_version),
  λ h. ground (arith, ==_iff t1.uid t2.uid, ==_iff t1.resource_version t2.resource_version),
)

pub record SameEndpoint (e1 e2 : Endpoint) : Type 0 where
  pub address : e1.address ≡ e2.address
  pub port : e1.port ≡ e2.port
  pub target : SameTarget e1.target e2.target

pub endpoint_equal_iff : (e1 e2 : Endpoint) → (endpoint_equal e1 e2 ≡ true) ↔ SameEndpoint e1 e2
unfolding endpoint_equal
endpoint_equal_iff e1 e2 = (
  λ h. record {
    address = ground (arith, ==_iff e1.address e2.address);
    port = ground (arith, ==_iff e1.port e2.port);
    target = (target_equal_iff e1.target e2.target).0 (ground arith);
  },
  λ h.
      let t = (target_equal_iff e1.target e2.target).1 h.target in
      ground (arith, ==_iff e1.address e2.address, ==_iff e1.port e2.port),
)

SameTarget-refl : (t : Option ObjectReference) → SameTarget t t
SameTarget-refl none = tt
SameTarget-refl (some t) = (refl, refl)

SameTarget-symm : (t u : Option ObjectReference) → SameTarget t u → SameTarget u t
SameTarget-symm none none h = tt
SameTarget-symm none (some u) h = elim h [ ]
SameTarget-symm (some t) none h = elim h [ ]
SameTarget-symm (some t) (some u) h = (sym h.0, sym h.1)

SameTarget-trans :
    (t u v : Option ObjectReference) → SameTarget t u → SameTarget u v → SameTarget t v
SameTarget-trans none none v h k = k
SameTarget-trans none (some u) v h k = elim h [ ]
SameTarget-trans (some t) none v h k = elim h [ ]
SameTarget-trans (some t) (some u) none h k = elim k [ ]
SameTarget-trans (some t) (some u) (some v) h k = (h.0 ∙ k.0, h.1 ∙ k.1)

pub endpoint_equal-IsEquivalence : IsEquivalence endpoint_equal
endpoint_equal-IsEquivalence = record {
  reflexive = λ e.
      (endpoint_equal_iff e e).1
        (record { address = refl; port = refl; target = SameTarget-refl e.target });
  symmetric = λ e f h.
      let s = (endpoint_equal_iff e f).0 h in
      (endpoint_equal_iff f e).1 (record {
        address = sym s.address;
        port = sym s.port;
        target = SameTarget-symm e.target f.target s.target;
      });
  transitive = λ e f g h k.
      let s = (endpoint_equal_iff e f).0 h in
      let t = (endpoint_equal_iff f g).0 k in
      (endpoint_equal_iff e g).1 (record {
        address = s.address ∙ t.address;
        port = s.port ∙ t.port;
        target = SameTarget-trans e.target f.target g.target s.target t.target;
      });
}

compare_endpoints-IsEquivalence : IsEquivalence compare_endpoints
unfolding compare_endpoints
compare_endpoints-IsEquivalence = compare-IsEquivalence endpoint_equal endpoint_equal-IsEquivalence

abbrev pub SameService : Option Service → Option Service → Type 0
SameService none none = Unit
SameService none (some s2) = ⊥
SameService (some s1) none = ⊥
SameService (some s1) (some s2) = (s1.namespace ≡ s2.namespace) × (s1.name ≡ s2.name)

service_equal_iff : (s1 s2 : Option Service) → (service_equal s1 s2 ≡ true) ↔ SameService s1 s2
unfolding service_equal
service_equal_iff none none = (λ _. tt, λ _. refl)
service_equal_iff none (some s2) = (λ h. cc, λ h. elim h [ ])
service_equal_iff (some s1) none = (λ h. cc, λ h. elim h [ ])
service_equal_iff (some s1) (some s2) = (
  λ h. ground (arith, ==_iff s1.namespace s2.namespace, ==_iff s1.name s2.name),
  λ h. ground (arith, ==_iff s1.namespace s2.namespace, ==_iff s1.name s2.name),
)

service_equal-IsEquivalence : IsEquivalence service_equal
service_equal-IsEquivalence = record {
  reflexive = elim [
    | none ↦ (service_equal_iff none none).1 tt
    | some s ↦ (service_equal_iff (some s) (some s)).1 (refl, refl)
  ];
  symmetric = symm;
  transitive = trans;
}
  where
    symm : (s t : Option Service) → service_equal s t ≡ true → service_equal t s ≡ true
    symm none t h = (service_equal_iff t none).1 (flip t ((service_equal_iff none t).0 h))
      where
        flip : (u : Option Service) → SameService none u → SameService u none
        flip none k = tt
        flip (some u) k = elim k [ ]
    symm (some s) none h = absurd ((service_equal_iff (some s) none).0 h)
    symm (some s) (some t) h =
        let k = (service_equal_iff (some s) (some t)).0 h in
        (service_equal_iff (some t) (some s)).1 (sym k.0, sym k.1)

    trans :
        (s t u : Option Service)
        → service_equal s t ≡ true
        → service_equal t u ≡ true
        → service_equal s u ≡ true
    trans none none u h k = k
    trans none (some t) u h k = absurd ((service_equal_iff none (some t)).0 h)
    trans (some s) none u h k = absurd ((service_equal_iff (some s) none).0 h)
    trans (some s) (some t) none h k = absurd ((service_equal_iff (some t) none).0 k)
    trans (some s) (some t) (some u) h k =
        let p = (service_equal_iff (some s) (some t)).0 h in
        let q = (service_equal_iff (some t) (some u)).0 k in
        (service_equal_iff (some s) (some u)).1 (p.0 ∙ q.0, p.1 ∙ q.1)

-- Two backends that count as one.
backend_parts :
    (b1 b2 : Backend)
    → (backend_equal (some b1) (some b2) ≡ true) ↔ (
        (b1.name ≡ b2.name)
        × (service_equal b1.service b2.service ≡ true)
        × (compare_endpoints b1.endpoints b2.endpoints ≡ true))
unfolding backend_equal
backend_parts b1 b2 =
    (λ h. ground (arith, ==_iff b1.name b2.name), λ h. ground (arith, ==_iff b1.name b2.name))

pub backend_endpoints :
    (b1 b2 : Backend)
    → backend_equal (some b1) (some b2) ≡ true
    → compare_endpoints b1.endpoints b2.endpoints ≡ true
backend_endpoints b1 b2 h = let (n, s, e) = (backend_parts b1 b2).0 h in e

backend_equal_symm : (b c : Option Backend) → backend_equal b c ≡ true → backend_equal c b ≡ true
unfolding backend_equal
backend_equal_symm none none h = h
backend_equal_symm none (some c) h = cc
backend_equal_symm (some b) none h = cc
backend_equal_symm (some b) (some c) h =
    let (n, s, e) = (backend_parts b c).0 h in
    (backend_parts c b).1 (
      sym n,
      service_equal-IsEquivalence.symmetric b.service c.service s,
      compare_endpoints-IsEquivalence.symmetric b.endpoints c.endpoints e,
    )

backend_equal_trans :
    (b c d : Option Backend)
    → backend_equal b c ≡ true
    → backend_equal c d ≡ true
    → backend_equal b d ≡ true
unfolding backend_equal
backend_equal_trans none none d h k = k
backend_equal_trans none (some c) d h k = cc
backend_equal_trans (some b) none d h k = cc
backend_equal_trans (some b) (some c) none h k = cc
backend_equal_trans (some b) (some c) (some d) h k =
    let (n, s, e) = (backend_parts b c).0 h in
    let (m, t, f) = (backend_parts c d).0 k in
    (backend_parts b d).1 (
      n ∙ m,
      service_equal-IsEquivalence.transitive b.service c.service d.service s t,
      compare_endpoints-IsEquivalence.transitive b.endpoints c.endpoints d.endpoints e f,
    )

pub backend_equal-IsEquivalence : IsEquivalence backend_equal
unfolding backend_equal
backend_equal-IsEquivalence = record {
  reflexive = elim [
    | none ↦ refl
    | some b ↦ (backend_parts b b).1 (
      refl,
      service_equal-IsEquivalence.reflexive b.service,
      compare_endpoints-IsEquivalence.reflexive b.endpoints,
    )
  ];
  symmetric = backend_equal_symm;
  transitive = backend_equal_trans;
}
