-- ===== src/Handler/Replicas.antt =====
-- Two replicas of the handler that share redis, each with proxies of its own.
use wls_ingress.Base.{
  true, List, [], ◌∷◌, some, ◌≡◌, ◌≢◌, sym, arith, In, All, inl, inr, Bool-cases,
}
use wls_ingress.Base.Text.{Text, codes}
use wls_ingress.Base.Maps.{lookup, insert}
use wls_ingress.Base.Run.{ok}
use wls_ingress.Ingress.{Endpoint}
use wls_ingress.Redis.{Client, get_endpoint, found}
use wls_ingress.Redis.Laws.{IsRedis, IsReliable}
use wls_ingress.Redis.Sessions.{get_endpoint-add_cookie}
use wls_ingress.Handler.{
  Request, Handler, Outside, session, no_cookie, get_host, get_host_endpoints, session_id,
  endpoint_url, new_session, existing_session, known_endpoint, by_cookie, by_endpoints, handle_root,
}
use wls_ingress.Handler.Sticky.{
  only_forwarded, forwarded_endpoint, full_host, full_address, after_response-forwarded,
}

module _ (out : Outside) (client : Client) (prefix : Text) where
  -- A handler without proxies sends a new session to the endpoint's own port.
  new_session-fresh :
      (f : Endpoint) (url j : Text) (r : Request) (h h' : Handler client)
      → h.proxy_map ≡ []
      → new_session out client prefix f r h ≡ ok (only_forwarded url, h')
      → session_id (out.set_cookie url r) ≡ ok j
      → url ≡ endpoint_url f.address f.port
  unfolding new_session lookup
  new_session-fresh f url j r h h' fresh ran sid =
      elim (Bool-cases (out.url_parses (endpoint_url f.address f.port))) [
        | inr bad ↦ absurd (ground arith)
        | inl good ↦
            let made = endpoint_url f.address f.port in
            sym
              (after_response-forwarded out client prefix f.address made url j r
                (record h { proxy_map = insert f.address made h.proxy_map }) h' (ground arith)
                sid).0
      ]

  module _ (redis : IsRedis client) (works : IsReliable client) where
    -- Two replicas with the same configuration and without proxies. If the first forwards a new
    -- session to an upstream that answers with a session cookie, no redis command fails, every URL
    -- parses and no endpoint of the host has an empty address, then it forwards to the address and
    -- the port of an endpoint of the host, but the second replica, with the same redis, forwards
    -- the session to port 7001 of that address.
    pub handle_root-replicas :
        (r r' : Request) (h h' g : Handler client) (url j : Text) (e e' : Endpoint)
        (es es' : List Endpoint)
        → ((u : Text) → out.url_parses u ≡ true)
        → h.proxy_map ≡ []
        → g ≡ record h { redis = h'.redis }
        → get_host r ≢ []
        → get_host_endpoints h.target_config (get_host r) ≡ ok (some (e ∷ es))
        → All (λ f. f.address ≢ []) (e ∷ es)
        → r.cookie ≡ no_cookie
        → handle_root out client prefix r h ≡ ok (only_forwarded url, h')
        → session_id (out.set_cookie url r) ≡ ok j
        → get_host r' ≢ []
        → get_host_endpoints h.target_config (get_host r') ≡ ok (some (e' ∷ es'))
        → r'.cookie ≡ session j
        → (f : Endpoint) × (g' : Handler client) × In f (e ∷ es)
          × (url ≡ endpoint_url f.address f.port)
          × (handle_root out client prefix r' g
              ≡ ok (only_forwarded (endpoint_url f.address (codes "7001")), g'))
    unfolding handle_root by_endpoints by_cookie existing_session known_endpoint lookup
    handle_root-replicas r r' h h' g url j e e' es es' parses fresh shared n hosts full cookie run
          sid n' hosts' cookie' =
        let (f, i, l, stored, target, ran) =
          forwarded_endpoint out client prefix r h h' url j e es n hosts cookie run sid in
        let got = get_endpoint-add_cookie client redis works prefix j f.address true h.redis in
        let back : (get_endpoint client prefix j true h'.redis).0 ≡ found f.address =
          rw stored got in
        let there = full_host out client prefix r' n' in
        let named = full_address out client prefix f (e ∷ es) full i in
        let parsed = parses (endpoint_url f.address (codes "7001")) in
        (
          f,
          record h {
            proxy_map = insert f.address (endpoint_url f.address (codes "7001")) [];
            redis = (get_endpoint client prefix j true h'.redis).1;
          },
          i,
          new_session-fresh f url j r h h' fresh ran sid,
          rw shared (ground arith),
        )
