-- ===== src/Controller/Routing/Servers.antt =====
-- createServers: a host belongs to the first rule that names it.
use wls_ingress.Base.{false, List, [], ◌∷◌, Option, none, some, ◌≡◌, ◌≢◌, refl, sym, ◌∙◌}
use wls_ingress.Base.{subst, All, arith, inl, inr, Bool-cases, if◌then◌else◌, Option-cases}
use wls_ingress.Base.Text.{Text, ◌==◌, ==_iff}
use wls_ingress.Base.Maps.{Map, lookup, insert, lookup-insert, DistinctKeys, insert-DistinctKeys}
use wls_ingress.Base.Run.{Run, ok, panic, Run-cases}
use wls_ingress.Ingress.{Backend, IngressBackend, IngressRule}
use wls_ingress.Controller.Routing.{first_backend, name_of, add_server}
use wls_ingress.Controller.Routing.Flat.{NamespacedRule, run_rules}
use wls_ingress.Controller.Routing.Upstreams.{HasPath, last_for, last_for-some, last_for_later}

abbrev upstream_of : Text → Run IngressBackend → Option Text
upstream_of ns panic = none
upstream_of ns (ok b) = some (name_of ns b)

-- The name of the upstream of the first rule for the host.
unfoldable pub first_for : Text → List NamespacedRule → Option Text
first_for host [] = none
first_for host ((ns, r) ∷ rules) =
    if r.host == host then upstream_of ns (first_backend r) else first_for host rules

-- Every upstream that createServers asks for has been set up.
pub first_for-last_for :
    (host name : Text) (rules : List NamespacedRule)
    → first_for host rules ≡ some name
    → (w : Text × IngressBackend) × (last_for name rules ≡ some w)
unfolding first_for
first_for-last_for host name [] h = absurd (ground arith)
first_for-last_for host name ((ns, r) ∷ rules) h = elim (Bool-cases (r.host == host)) [
  | inl e ↦ elim (Run-cases (first_backend r)) [
    | inl p ↦ absurd (ground arith)
    | inr (b, p) ↦ last_for-some name ns r b rules p (ground arith)
  ]
  | inr e ↦
      let (w, f) = first_for-last_for host name rules (ground arith) in
      (w, last_for_later name ns r rules w f)
]

module _ (upstreams : Map Backend) where
  abbrev from_first : Option (Option Backend) → Option Text → Option (Option Backend)
  from_first (some old) name = some old
  from_first none none = none
  from_first none (some name) = some (lookup name upstreams)

  add_server_runs :
      (ns : Text) (r : IngressRule) (m : Map (Option Backend))
      → HasPath (ns, r)
      → (t : Map (Option Backend)) × (add_server upstreams ns r m ≡ ok t)
  unfolding add_server
  add_server_runs ns r m (b, e) = elim (Bool-cases (r.host == [])) [
    | inl h ↦ (m, rw h)
    | inr h ↦ elim (Option-cases (lookup r.host m)) [
      | inr (v, f) ↦ (m, ground arith)
      | inl f ↦ (insert r.host (lookup (name_of ns b) upstreams) m, ground arith)
    ]
  ]

  -- With a path in every rule the loop ends without a panic.
  pub servers_run :
      (rules : List NamespacedRule) (m : Map (Option Backend))
      → All HasPath rules
      → (s : Map (Option Backend)) × (run_rules (add_server upstreams) rules m ≡ ok s)
  unfolding run_rules
  servers_run [] m h = (m, refl)
  servers_run ((ns, r) ∷ rules) m (p, h) =
      let (t, e) = add_server_runs ns r m p in let (s, f) = servers_run rules t h in (s, rw e f)

  add_server-lookup :
      (host ns : Text) (r : IngressRule) (m t : Map (Option Backend))
      → host ≢ []
      → HasPath (ns, r)
      → add_server upstreams ns r m ≡ ok t
      → lookup host t
        ≡ from_first
            (lookup host m)
            (if r.host == host then upstream_of ns (first_backend r) else none)
  unfolding add_server
  add_server-lookup host ns r m t n (b, p) e = elim (Bool-cases (r.host == host)) [
    | inl same ↦
        let is : r.host ≡ host = (==_iff r.host host).0 same in
        let full : (r.host == []) ≡ false = elim (Bool-cases (r.host == [])) [
          | inl empty ↦ absurd (n (sym is ∙ (==_iff r.host []).0 empty))
          | inr other ↦ other
        ] in
        ground (arith, lookup-insert r.host host (lookup (name_of ns b) upstreams) m)
    | inr other ↦ ground (arith, lookup-insert r.host host (lookup (name_of ns b) upstreams) m)
  ]

  add_server-empty :
      (ns : Text) (r : IngressRule) (m t : Map (Option Backend))
      → add_server upstreams ns r m ≡ ok t
      → lookup [] t ≡ lookup [] m
  unfolding add_server
  add_server-empty ns r m t e = elim (Run-cases (first_backend r)) [
    | inl p ↦ ground arith
    | inr (b, p) ↦ ground (arith, lookup-insert r.host [] (lookup (name_of ns b) upstreams) m)
  ]

  add_server-DistinctKeys :
      (ns : Text) (r : IngressRule) (m t : Map (Option Backend))
      → add_server upstreams ns r m ≡ ok t
      → DistinctKeys m
      → DistinctKeys t
  unfolding add_server
  add_server-DistinctKeys ns r m t e d = elim (Run-cases (first_backend r)) [
    | inl p ↦ elim (Bool-cases (r.host == [])) [
      | inl h ↦ subst DistinctKeys (ground arith) d
      | inr h ↦ elim (Option-cases (lookup r.host m)) [
        | inl f ↦ absurd (ground arith)
        | inr (v, f) ↦ subst DistinctKeys (ground arith) d
      ]
    ]
    | inr (b, p) ↦ elim (Bool-cases (r.host == [])) [
      | inl h ↦ subst DistinctKeys (ground arith) d
      | inr h ↦ elim (Option-cases (lookup r.host m)) [
        | inl f ↦
            subst DistinctKeys (ground arith)
              (insert-DistinctKeys r.host (lookup (name_of ns b) upstreams) m d)
        | inr (v, f) ↦ subst DistinctKeys (ground arith) d
      ]
    ]
  ]

  -- A host that is not empty leads to the upstream of its first rule.
  pub lookup-servers :
      (host : Text) (rules : List NamespacedRule) (m s : Map (Option Backend))
      → host ≢ []
      → All HasPath rules
      → run_rules (add_server upstreams) rules m ≡ ok s
      → lookup host s ≡ from_first (lookup host m) (first_for host rules)
  unfolding run_rules first_for
  lookup-servers host [] m s n h e = ground arith
  lookup-servers host ((ns, r) ∷ rules) m s n (p, h) e =
      let (t, f) = add_server_runs ns r m p in
      let (b, q) = p in
      ground (arith, lookup-servers host rules t s n h, add_server-lookup host ns r m t n p f)

  pub servers_kept :
      (rules : List NamespacedRule) (m s : Map (Option Backend))
      → All HasPath rules
      → run_rules (add_server upstreams) rules m ≡ ok s
      → DistinctKeys m
      → DistinctKeys s × (lookup [] s ≡ lookup [] m)
  unfolding run_rules
  servers_kept [] m s h e d = (subst DistinctKeys (ground arith) d, ground arith)
  servers_kept ((ns, r) ∷ rules) m s (p, h) e d =
      let (t, f) = add_server_runs ns r m p in
      let (k, l) = servers_kept rules t s h (ground arith) (add_server-DistinctKeys ns r m t f d) in
      (k, l ∙ add_server-empty ns r m t f)
