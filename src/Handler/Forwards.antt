-- ===== src/Handler/Forwards.antt =====
-- A first request that finds endpoints is forwarded.
use wls_ingress.Base.{
  true, false, List, [], ◌∷◌, some, ◌≡◌, ◌≢◌, refl, subst, arith, inl, inr, length, get_elem?,
  Bool-cases, Option-cases, In,
}
use wls_ingress.Base.Text.{Text, codes, ◌==◌, ==_iff, contains_text}
use wls_ingress.Base.Maps.{lookup, insert}
use wls_ingress.Base.Run.{ok, Run-cases}
use wls_ingress.Ingress.{Endpoint}
use wls_ingress.Redis.{Client, add_cookie}
use wls_ingress.Handler.{
  Request, Response, Handler, Outside, Cookie, no_cookie, forward, http_error, get_host,
  get_host_endpoints, endpoint_url, session_id, after_response, new_session, by_cookie,
  by_endpoints, handle_root,
}

module _ (out : Outside) (client : Client) (prefix : Text) where
  abbrev pub Forwards : Response × Handler client → Type 0
  Forwards x = (url : Text) × In (forward url) x.0.effects

  after_response-Forwards :
      (address url : Text) (r : Request) (h : Handler client) (x : Response × Handler client)
      → after_response out client prefix address url r h ≡ ok x
      → Forwards x
  unfolding after_response
  after_response-Forwards address url r h x e = elim (Bool-cases (out.set_cookie url r == [])) [
    | inl a ↦
        let end : (record { effects = forward url ∷ http_error 500 ∷ []; close = false }, h) ≡ x =
          ground arith in
        subst Forwards end (url, inl refl)
    | inr a ↦ elim (Bool-cases (contains_text (out.set_cookie url r) (codes "JSESSIONID="))) [
      | inr b ↦
          let end : (record { effects = forward url ∷ http_error 500 ∷ []; close = false }, h) ≡ x =
            ground arith in
          subst Forwards end (url, inl refl)
      | inl b ↦ elim (Run-cases (session_id (out.set_cookie url r))) [
        | inl c ↦ absurd (ground arith)
        | inr (j, c) ↦
            let end : (
              record { effects = forward url ∷ []; close = false },
              record h { redis = add_cookie client prefix j address h.redis },
            )
                ≡ x =
              ground arith in
            subst Forwards end (url, inl refl)
      ]
    ]
  ]

  new_session-Forwards :
      (e : Endpoint) (r : Request) (h : Handler client) (x : Response × Handler client)
      → ((url : Text) → out.url_parses url ≡ true)
      → new_session out client prefix e r h ≡ ok x
      → Forwards x
  unfolding new_session
  new_session-Forwards e r h x parses f = elim (Option-cases (lookup e.address h.proxy_map)) [
    | inr (proxy, l) ↦ after_response-Forwards e.address proxy r h x (ground arith)
    | inl l ↦
        let good = parses (endpoint_url e.address e.port) in
        after_response-Forwards e.address (endpoint_url e.address e.port) r
          (record h { proxy_map = insert e.address (endpoint_url e.address e.port) h.proxy_map }) x
          (ground arith)
  ]

  by_cookie-Forwards :
      (es : List Endpoint) (r : Request) (h : Handler client) (x : Response × Handler client)
      → ((url : Text) → out.url_parses url ≡ true)
      → by_cookie out client prefix no_cookie es r h ≡ ok x
      → Forwards x
  unfolding by_cookie
  by_cookie-Forwards es r h x parses ran =
      elim (Option-cases (get_elem? es (out.intn (length es)))) [
        | inl missing ↦ absurd (ground (arith, missing, ran))
        | inr (f, i) ↦ new_session-Forwards f r h x parses (rw (i, by_cookie) at ran)
      ]

  -- If the host has endpoints and every URL parses, a request without a session is forwarded.
  pub handle_root-Forwards :
      (r : Request) (h : Handler client) (x : Response × Handler client) (e : Endpoint)
      (es : List Endpoint)
      → get_host r ≢ []
      → r.cookie ≡ no_cookie
      → get_host_endpoints h.target_config (get_host r) ≡ ok (some (e ∷ es))
      → ((url : Text) → out.url_parses url ≡ true)
      → handle_root out client prefix r h ≡ ok x
      → Forwards x
  unfolding handle_root by_endpoints
  handle_root-Forwards r h x e es full new found parses ran = elim (Bool-cases (get_host r == [])) [
    | inl empty ↦ absurd (full ((==_iff (get_host r) []).0 empty))
    | inr host ↦ by_cookie-Forwards (e ∷ es) r h x parses (
        subst (λ (c : Cookie). by_cookie out client prefix c (e ∷ es) r h ≡ ok x) new
          (rw (host, found) at ran))
  ]
