-- ===== src/Handler.antt =====
-- internal/ingress/handler/http/handler.go: the HTTP handler, from a request to the reverse proxy
-- of an upstream. A reverse proxy is its URL. What the handler calls outside is a parameter:
-- url.Parse, rand.Intn, the upstream (by the Set-Cookie header it answers with) and redis.
pub mod Total
pub mod Sticky
pub mod Hosts
pub mod Forwards
pub mod Proxies
pub mod Replicas
mod Tests
use wls_ingress.Base.{
  ℕ, Bool, true, false, List, [], ◌∷◌, ◌++◌, Option, none, some, if◌then◌else◌, ◌&&◌,
}
use wls_ingress.Base.{length, get_elem?, map}
use wls_ingress.Base.Text.{Text, codes, ◌==◌, has_prefix, contains_text, split, first_part}
use wls_ingress.Base.Slices.{Slice, items}
use wls_ingress.Base.Maps.{Map, lookup, insert, remove}
use wls_ingress.Base.Run.{Run, ok, panic, ◌>>=◌}
use wls_ingress.Ingress.{Backend, Endpoint}
use wls_ingress.Config.{Configuration, ConfigurationBackend}
use wls_ingress.Redis.{Client, Got, found, error, get_endpoint, add_cookie}

-- What r.Cookie("JSESSIONID") returns: a value, ErrNoCookie, or another error.
pub data Cookie : Type 0 where
  session : Text → Cookie
  no_cookie : Cookie
  cookie_error : Cookie

pub record Request : Type 0 where
  pub host : Text
  pub method : Text
  pub request_uri : Text
  pub cookie : Cookie

-- What is written for a request, in order: a forwarded request (the reverse proxy's URL) or
-- http.Error with its status; and whether r.Close is set.
pub data Effect : Type 0 where
  forward : Text → Effect
  http_error : ℕ → Effect

pub record Response : Type 0 where
  pub effects : List Effect
  pub close : Bool

-- The fields of WLSHandler.
pub record Handler (client : Client) : Type 0 where
  pub target_config : Configuration
  pub proxy_map : Map Text
  pub redis : client.State

pub record Outside : Type 0 where
  pub url_parses : Text → Bool
  pub intn : ℕ → ℕ
  pub set_cookie : Text → Request → Text

abbrev fail : ℕ → Response
fail code = record { effects = http_error code ∷ []; close = false }

abbrev fail_close : ℕ → Response
fail_close code = record { effects = http_error code ∷ []; close = true }

abbrev sent : Text → Response
sent url = record { effects = forward url ∷ []; close = false }

-- "http://" + address + ":" + port
abbrev pub endpoint_url : Text → Text → Text
endpoint_url address port = codes "http://" ++ (address ++ (b':' ∷ port))

-- getHost
unfoldable pub get_host : Request → Text
get_host r = if r.host == [] then [] else first_part r.host (codes ":")

-- The loop of getEndpoints; `service.Backend` is dereferenced.
pub host_endpoints : Text → List ConfigurationBackend → Run (Slice Endpoint)
host_endpoints host [] = ok none
host_endpoints host (service ∷ services) =
    if service.hostname == host
    then elim service.backend [ none ↦ panic | some b ↦ ok b.endpoints ]
    else host_endpoints host services

-- getEndpoints
unfoldable pub get_host_endpoints : Configuration → Text → Run (Slice Endpoint)
unfolding host_endpoints
get_host_endpoints config host = elim config.services [
  | none ↦ ok none
  | some services ↦ host_endpoints host services
]

first_endpoint : List Endpoint → Run Endpoint
first_endpoint [] = panic
first_endpoint (e ∷ es) = ok e

-- getAnyEndpoint, and the dereference of its result: nil if there are no services.
unfoldable pub get_any_endpoint : Configuration → Run Endpoint
unfolding first_endpoint
get_any_endpoint config = elim (items config.services) [
  | [] ↦ panic
  | service ∷ services ↦ elim service.backend [
    | none ↦ panic
    | some b ↦ first_endpoint (items b.endpoints)
  ]
]

-- jsession[0]: strings.Split(strings.Split(cookie, "JSESSIONID=")[1], ";")[0]
unfoldable pub session_id : Text → Run Text
session_id cookie = elim (get_elem? (split cookie (codes "JSESSIONID=")) 1) [
  | none ↦ panic
  | some part ↦ ok (first_part part (codes ";"))
]

abbrev class_prefix : Text
class_prefix = codes "/bea_wls_internal/classeskkkkkkk"

-- The request is the class lookup of the branch without endpoints.
unfoldable pub is_class_lookup : Request → Bool
is_class_lookup r = r.method == codes "GET" && has_prefix r.request_uri class_prefix

module _ (out : Outside) (client : Client) (prefix : Text) where
  -- The branch `endpoints == nil`.
  no_endpoints : Request → Handler client → Run (Response × Handler client)
  no_endpoints r h =
      if is_class_lookup r
      then (do
        endpoint ← get_any_endpoint h.target_config
        ok (
          if out.url_parses (endpoint_url endpoint.address endpoint.port)
              then sent (endpoint_url endpoint.address endpoint.port)
              else fail 500,
          h,
        ))
      else ok (fail_close 404, h)

  -- What follows the forwarded request of a new session: the cookie of the response.
  pub after_response : Text → Text → Request → Handler client → Run (Response × Handler client)
  after_response address url r h =
      if out.set_cookie url r == []
      then ok (record { effects = forward url ∷ http_error 500 ∷ []; close = false }, h)
      else if contains_text (out.set_cookie url r) (codes "JSESSIONID=")
      then (do
        jsession ← session_id (out.set_cookie url r)
        ok (sent url, record h { redis = add_cookie client prefix jsession address h.redis }))
      else ok (record { effects = forward url ∷ http_error 500 ∷ []; close = false }, h)

  -- A new session at the endpoint of the random index.
  pub new_session : Endpoint → Request → Handler client → Run (Response × Handler client)
  unfolding after_response
  new_session endpoint r h = elim (lookup endpoint.address h.proxy_map) [
    | some proxy ↦ after_response endpoint.address proxy r h
    | none ↦
        let url = endpoint_url endpoint.address endpoint.port in
        if out.url_parses url
        then after_response endpoint.address url r
            (record h { proxy_map = insert endpoint.address url h.proxy_map })
        else ok (fail 500, h)
  ]

  -- A session whose endpoint redis knows; the upstream's port is 7001.
  known_endpoint : Text → Handler client → Response × Handler client
  known_endpoint endpoint h = elim (lookup endpoint h.proxy_map) [
    | some proxy ↦ (sent proxy, h)
    | none ↦
        let url = endpoint_url endpoint (codes "7001") in
        if out.url_parses url
        then (sent url, record h { proxy_map = insert endpoint url h.proxy_map })
        else (fail 500, h)
  ]

  pub existing_session : Got → Handler client → Response × Handler client
  unfolding known_endpoint
  existing_session error h = (fail 500, h)
  existing_session (found endpoint) h =
      if endpoint == [] then (fail_close 503, h) else known_endpoint endpoint h

  -- The cookie decides what is done with the endpoints.
  by_cookie : Cookie → List Endpoint → Request → Handler client → Run (Response × Handler client)
  unfolding new_session existing_session
  by_cookie cookie_error endpoints r h = ok (fail_close 400, h)
  by_cookie no_cookie endpoints r h = elim (get_elem? endpoints (out.intn (length endpoints))) [
    | none ↦ panic
    | some endpoint ↦ new_session endpoint r h
  ]
  by_cookie (session value) endpoints r h =
      let (g, redis) = get_endpoint client prefix value true h.redis in
      ok (existing_session g (record h { redis = redis }))

  by_endpoints : Slice Endpoint → Request → Handler client → Run (Response × Handler client)
  unfolding no_endpoints by_cookie
  by_endpoints none r h = no_endpoints r h
  by_endpoints (some []) r h = ok (fail_close 503, h)
  by_endpoints (some (e ∷ es)) r h = by_cookie r.cookie (e ∷ es) r h

  -- handleRootWLS
  unfoldable pub handle_root : Request → Handler client → Run (Response × Handler client)
  unfolding by_endpoints
  handle_root r h = if get_host r == [] then ok (fail 400, h) else (do
    endpoints ← get_host_endpoints h.target_config (get_host r)
    by_endpoints endpoints r h)

  -- removeProxy
  unfoldable pub remove_proxy : Text → Handler client → Handler client
  remove_proxy upstream h = record h { proxy_map = remove upstream h.proxy_map }
