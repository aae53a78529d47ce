-- ===== src/Controller/Routing/Upstreams.antt =====
-- createUpstreams: when it panics, and which rule an upstream's name leads to.
use wls_ingress.Base.{List, [], ◌∷◌, Option, none, some, ◌≡◌, refl}
use wls_ingress.Base.{All, arith, inl, inr, if◌then◌else◌, Option-cases}
use wls_ingress.Base.Text.{Text, ◌==◌, ==_iff}
use wls_ingress.Base.Maps.{Map, lookup, insert, lookup-insert}
use wls_ingress.Base.Run.{Run, ok, panic, Run-cases}
use wls_ingress.Ingress.{Backend, IngressBackend, IngressRule}
use wls_ingress.Controller.Services.{Snapshot}
use wls_ingress.Controller.Routing.{first_backend, name_of, upstream, add_upstream}
use wls_ingress.Controller.Routing.Flat.{NamespacedRule, run_rules}

-- The rule has an HTTP section with at least one path.
abbrev pub HasPath : NamespacedRule → Type 0
HasPath (ns, r) = (b : IngressBackend) × (first_backend r ≡ ok b)

abbrev named : Text → Text → Run IngressBackend → Option (Text × IngressBackend)
named name ns panic = none
named name ns (ok b) = if name_of ns b == name then some (ns, b) else none

-- The namespace and the backend of the last rule whose upstream has this name.
unfoldable pub last_for : Text → List NamespacedRule → Option (Text × IngressBackend)
last_for name [] = none
last_for name ((ns, r) ∷ rules) = elim (last_for name rules) [
  | some found ↦ some found
  | none ↦ named name ns (first_backend r)
]

-- The last rule with the name that some rule's backend has is found.
pub last_for-some :
    (name ns : Text) (r : IngressRule) (b : IngressBackend) (rules : List NamespacedRule)
    → first_backend r ≡ ok b
    → name_of ns b ≡ name
    → (w : Text × IngressBackend) × (last_for name ((ns, r) ∷ rules) ≡ some w)
unfolding last_for
last_for-some name ns r b rules h e = elim (Option-cases (last_for name rules)) [
  | inl missing ↦ ((ns, b), ground (arith, ==_iff (name_of ns b) name))
  | inr (w, found) ↦ (w, ground arith)
]

pub last_for_later :
    (name ns : Text) (r : IngressRule) (rules : List NamespacedRule) (w : Text × IngressBackend)
    → last_for name rules ≡ some w
    → last_for name ((ns, r) ∷ rules) ≡ some w
unfolding last_for
last_for_later name ns r rules w h = ground arith

module _ (store : Snapshot) where
  abbrev from_winner : Option (Text × IngressBackend) → Option Backend → Option Backend
  from_winner none old = old
  from_winner (some (ns, b)) old = some (upstream store ns b)

  add_upstream-ok :
      (ns : Text) (r : IngressRule) (m u : Map Backend)
      → add_upstream store ns r m ≡ ok u
      → (b : IngressBackend) × (first_backend r ≡ ok b)
        × (u ≡ insert (name_of ns b) (upstream store ns b) m)
  unfolding add_upstream
  add_upstream-ok ns r m u h = elim (Run-cases (first_backend r)) [
    | inl e ↦ absurd (ground arith)
    | inr (b, e) ↦ (b, e, ground arith)
  ]

  add_upstream_runs :
      (ns : Text) (r : IngressRule) (m : Map Backend)
      → HasPath (ns, r)
      → (u : Map Backend) × (add_upstream store ns r m ≡ ok u)
  unfolding add_upstream
  add_upstream_runs ns r m (b, e) = (insert (name_of ns b) (upstream store ns b) m, rw e)

  pub upstreams_run :
      (rules : List NamespacedRule) (m : Map Backend)
      → All HasPath rules
      → (u : Map Backend) × (run_rules (add_upstream store) rules m ≡ ok u)
  unfolding run_rules
  upstreams_run [] m h = (m, refl)
  upstreams_run ((ns, r) ∷ rules) m (p, h) =
      let (t, e) = add_upstream_runs ns r m p in let (u, f) = upstreams_run rules t h in (u, rw e f)

  pub upstreams_HasPath :
      (rules : List NamespacedRule) (m u : Map Backend)
      → run_rules (add_upstream store) rules m ≡ ok u
      → All HasPath rules
  unfolding run_rules
  upstreams_HasPath [] m u h = tt
  upstreams_HasPath ((ns, r) ∷ rules) m u h = elim (Run-cases (add_upstream store ns r m)) [
    | inl e ↦ absurd (ground arith)
    | inr (t, e) ↦
        let (b, f, g) = add_upstream-ok ns r m t e in
        ((b, f), upstreams_HasPath rules t u (ground arith))
  ]

  -- A name leads to the upstream of the last rule that has it.
  pub lookup-upstreams :
      (rules : List NamespacedRule) (m u : Map Backend) (name : Text)
      → run_rules (add_upstream store) rules m ≡ ok u
      → lookup name u ≡ from_winner (last_for name rules) (lookup name m)
  unfolding run_rules last_for
  lookup-upstreams [] m u name h = ground arith
  lookup-upstreams ((ns, r) ∷ rules) m u name h = elim (Run-cases (add_upstream store ns r m)) [
    | inl e ↦ absurd (ground arith)
    | inr (t, e) ↦
        let (b, f, g) = add_upstream-ok ns r m t e in
        ground (
          arith,
          lookup-upstreams rules t u name,
          lookup-insert (name_of ns b) name (upstream store ns b) m,
        )
  ]
