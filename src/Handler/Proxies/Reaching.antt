-- ===== src/Handler/Proxies/Reaching.antt =====
-- Which upstreams a request can reach.
use wls_ingress.Base.{true, false, List, [], ◌∷◌, none, some, ◌≡◌, refl}
use wls_ingress.Base.{length, get_elem?, arith, inl, inr, Bool-cases, Option-cases, In, subst}
use wls_ingress.Base.Text.{Text, ◌==◌}
use wls_ingress.Base.Slices.{Slice}
use wls_ingress.Base.Run.{ok, Run-cases}
use wls_ingress.Ingress.{Endpoint}
use wls_ingress.Redis.{Client, get_endpoint, found}
use wls_ingress.Handler.Sticky.{elem_In}
use wls_ingress.Handler.{
  Cookie, session, no_cookie, cookie_error, Request, Response, Handler, Outside, get_host,
  get_host_endpoints, get_any_endpoint, is_class_lookup, endpoint_url, existing_session,
  no_endpoints, by_cookie, by_endpoints, handle_root,
}
use wls_ingress.Handler.Proxies.{
  IsProxyMap, Reaches, fails, forwards, new_session-Reaches, existing_session-Reaches,
}

module _ (out : Outside) (client : Client) (prefix : Text) where
  -- An address that the request may reach: of an endpoint of its host, if it has no session; the
  -- one that redis has for its session; or for the class lookup that of the endpoint chosen.
  pub data Target (r : Request) (h : Handler client) (a : Text) : Type 0 where
    of_host :
        (e : Endpoint) (es : List Endpoint)
        → r.cookie ≡ no_cookie
        → get_host_endpoints h.target_config (get_host r) ≡ ok (some es)
        → In e es
        → a ≡ e.address
        → Target r h a
    of_session :
        (v : Text)
        → r.cookie ≡ session v
        → (get_endpoint client prefix v true h.redis).0 ≡ found a
        → Target r h a
    of_class :
        (e : Endpoint)
        → is_class_lookup r ≡ true
        → get_host_endpoints h.target_config (get_host r) ≡ ok none
        → get_any_endpoint h.target_config ≡ ok e
        → a ≡ e.address
        → Target r h a

  no_endpoints-Reaches :
      (r : Request) (h : Handler client) (x : Response × Handler client)
      → IsProxyMap h.proxy_map
      → get_host_endpoints h.target_config (get_host r) ≡ ok none
      → no_endpoints out client prefix r h ≡ ok x
      → Reaches (Target r h) x
  unfolding no_endpoints
  no_endpoints-Reaches r h x m hosts e = elim (Bool-cases (is_class_lookup r)) [
    | inr plain ↦ (fails (Target r h) 404 true h x (ground arith) m)
    | inl class ↦ elim (Run-cases (get_any_endpoint h.target_config)) [
      | inl p ↦ absurd (ground arith)
      | inr (f, any) ↦ elim (Bool-cases (out.url_parses (endpoint_url f.address f.port))) [
        | inr bad ↦ (fails (Target r h) 500 false h x (ground arith) m)
        | inl good ↦
            (forwards (Target r h) f.address (endpoint_url f.address f.port) [] false h x
              (ground arith) m (λ u i. i) (of_class f class hosts any refl) (f.port, refl))
      ]
    ]
  ]

  by_cookie-Reaches :
      (c : Cookie) (es : List Endpoint) (r : Request) (h : Handler client)
      (x : Response × Handler client)
      → r.cookie ≡ c
      → IsProxyMap h.proxy_map
      → get_host_endpoints h.target_config (get_host r) ≡ ok (some es)
      → by_cookie out client prefix c es r h ≡ ok x
      → Reaches (Target r h) x
  unfolding by_cookie
  by_cookie-Reaches cookie_error es r h x k m hosts e =
      (fails (Target r h) 400 true h x (ground arith) m)
  by_cookie-Reaches no_cookie es r h x k m hosts e =
      elim (Option-cases (get_elem? es (out.intn (length es)))) [
        | inl missing ↦ absurd (ground arith)
        | inr (f, i) ↦
            new_session-Reaches out client prefix (Target r h) f r h x m
              (of_host f es k hosts (elem_In es (out.intn (length es)) f i) refl) (ground arith)
      ]
  by_cookie-Reaches (session v) es r h x k m hosts e =
      let same : existing_session out client prefix (get_endpoint client prefix v true h.redis).0
            (record h { redis = (get_endpoint client prefix v true h.redis).1 })
          ≡ x =
        ground arith in
      subst (Reaches (Target r h)) same (
        existing_session-Reaches out client prefix (Target r h)
          (get_endpoint client prefix v true h.redis).0
          (record h { redis = (get_endpoint client prefix v true h.redis).1 }) m
          (λ a g. of_session v k g))

  -- Starting from a sound map of proxies, the handler ends with one, and whatever it forwards goes
  -- to an address that the request may reach: without a session cookie that of an endpoint of its
  -- host, with one the address that redis has for it, and for the class lookup that of the
  -- endpoint chosen for it.
  pub handle_root-Reaches :
      (r : Request) (h : Handler client) (x : Response × Handler client)
      → IsProxyMap h.proxy_map
      → handle_root out client prefix r h ≡ ok x
      → Reaches (Target r h) x
  unfolding handle_root by_endpoints
  handle_root-Reaches r h x m e = elim (Bool-cases (get_host r == [])) [
    | inl empty ↦ (fails (Target r h) 400 false h x (ground arith) m)
    | inr full ↦ elim (Run-cases (get_host_endpoints h.target_config (get_host r))) [
      | inl p ↦ absurd (ground arith)
      | inr (o, hosts) ↦ go o hosts (rw (full, hosts) at e)
    ]
  ]
    where
      go :
          (o : Slice Endpoint)
          → get_host_endpoints h.target_config (get_host r) ≡ ok o
          → by_endpoints out client prefix o r h ≡ ok x
          → Reaches (Target r h) x
      go none hosts f = no_endpoints-Reaches r h x m hosts f
      go (some []) hosts f = (fails (Target r h) 503 true h x (ground arith) m)
      go (some (a ∷ as')) hosts f = by_cookie-Reaches r.cookie (a ∷ as') r h x refl m hosts f
