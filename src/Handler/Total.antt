-- ===== src/Handler/Total.antt =====
-- When the handler panics.
use wls_ingress.Base.{ℕ, true, false, List, [], ◌∷◌, none, some, ◌≡◌, ◌≢◌, refl}
use wls_ingress.Base.{
  length, get_elem?, arith, inl, inr, ◌⊎◌, Bool-cases, Option-cases, ◌<◌, suc, zero, subst,
}
use wls_ingress.Base.Text.{Text, codes, ◌==◌, ==_iff, contains_text, split-second}
use wls_ingress.Base.Slices.{Slice, items}
use wls_ingress.Base.Maps.{lookup, insert}
use wls_ingress.Base.Run.{ok, panic, ok_of_not_panic}
use wls_ingress.Ingress.{Backend, Endpoint}
use wls_ingress.Config.{Configuration, ConfigurationBackend}
use wls_ingress.Redis.{Client}
use wls_ingress.Controller.Sync.Current.{HasBackends}
use wls_ingress.Handler.{
  Cookie, session, no_cookie, cookie_error, Request, Response, Handler, Outside, get_host,
  host_endpoints, get_host_endpoints, get_any_endpoint, session_id, is_class_lookup, no_endpoints,
  after_response, new_session, by_cookie, by_endpoints, handle_root, endpoint_url,
}

-- rand.Intn returns an index below its argument.
abbrev pub IsIntn : (ℕ → ℕ) → Type 0
IsIntn intn = (n : ℕ) → 0 < n → intn n < n

elem_below :
    {A : Type 0} (xs : List A) (i : ℕ) → i < length xs → (x : A) × (get_elem? xs i ≡ some x)
elem_below [] i h = absurd (omega arith)
elem_below (x ∷ xs) zero h = (x, refl)
elem_below (x ∷ xs) (suc i) h = elem_below xs i (omega arith)

session_id_runs :
    (cookie : Text)
    → contains_text cookie (codes "JSESSIONID=") ≡ true
    → cookie ≢ []
    → (j : Text) × (session_id cookie ≡ ok j)
unfolding session_id
session_id_runs cookie h n =
    let (part, e) = split-second cookie (codes "JSESSIONID=") h n in
    ok_of_not_panic (session_id cookie) (λ p. ground arith)

host_endpoints_run :
    (host : Text) (ss : List ConfigurationBackend)
    → HasBackends ss
    → (es : Slice Endpoint) × (host_endpoints host ss ≡ ok es)
unfolding host_endpoints
host_endpoints_run host [] h = (none, refl)
host_endpoints_run host (s ∷ ss) ((b, e), h) = elim (Bool-cases (s.hostname == host)) [
  | inl same ↦ (b.endpoints, ground arith)
  | inr other ↦ let (es, f) = host_endpoints_run host ss h in (es, ground arith)
]

module _ (out : Outside) (client : Client) (prefix : Text) where
  after_response_runs :
      (address url : Text) (r : Request) (h : Handler client)
      → (x : Response × Handler client) × (after_response out client prefix address url r h ≡ ok x)
  unfolding after_response
  after_response_runs address url r h =
      ok_of_not_panic (after_response out client prefix address url r h) (λ p.
        elim (Bool-cases (out.set_cookie url r == [])) [
          | inl e ↦ ground arith
          | inr e ↦ elim (Bool-cases (contains_text (out.set_cookie url r) (codes "JSESSIONID="))) [
            | inr f ↦ ground arith
            | inl f ↦
                let (j, g) =
                  session_id_runs (out.set_cookie url r) f
                    (λ empty. cc ((==_iff (out.set_cookie url r) []).1 empty)) in
                ground arith
          ]
        ])

  new_session_runs :
      (e : Endpoint) (r : Request) (h : Handler client)
      → (x : Response × Handler client) × (new_session out client prefix e r h ≡ ok x)
  unfolding new_session
  new_session_runs e r h = elim (Option-cases (lookup e.address h.proxy_map)) [
    | inr (proxy, f) ↦ let (x, g) = after_response_runs e.address proxy r h in (x, ground arith)
    | inl f ↦
        let url = endpoint_url e.address e.port in
        elim (Bool-cases (out.url_parses (endpoint_url e.address e.port))) [
          | inr bad ↦ ok_of_not_panic (new_session out client prefix e r h) (λ p. ground arith)
          | inl good ↦
              let (x, g) =
                after_response_runs e.address url r
                  (record h { proxy_map = insert e.address url h.proxy_map }) in
              (x, ground arith)
        ]
  ]

  by_cookie_runs :
      (cookie : Cookie) (e : Endpoint) (es : List Endpoint) (r : Request) (h : Handler client)
      → IsIntn out.intn
      → (x : Response × Handler client) × (by_cookie out client prefix cookie (e ∷ es) r h ≡ ok x)
  unfolding by_cookie
  by_cookie_runs cookie_error e es r h index = (_, refl)
  by_cookie_runs (session value) e es r h index = (_, refl)
  by_cookie_runs no_cookie e es r h index =
      let (f, i) =
        elem_below (e ∷ es) (out.intn (length (e ∷ es))) (index (length (e ∷ es)) (omega arith)) in
      let (x, g) = new_session_runs f r h in (x, ground arith)

  by_endpoints_runs :
      (es : Slice Endpoint) (r : Request) (h : Handler client)
      → IsIntn out.intn
      → is_class_lookup r ≡ false
      → (x : Response × Handler client) × (by_endpoints out client prefix es r h ≡ ok x)
  unfolding by_endpoints no_endpoints
  by_endpoints_runs none r h index plain =
      ok_of_not_panic (by_endpoints out client prefix none r h) (λ p. ground arith)
  by_endpoints_runs (some []) r h index plain = (_, refl)
  by_endpoints_runs (some (e ∷ es)) r h index plain = by_cookie_runs r.cookie e es r h index

  get_host_endpoints_run :
      (config : Configuration) (host : Text)
      → HasBackends (items config.services)
      → (es : Slice Endpoint) × (get_host_endpoints config host ≡ ok es)
  unfolding get_host_endpoints
  get_host_endpoints_run config host h = go config.services refl
    where
      go :
          (ss : Slice ConfigurationBackend)
          → config.services ≡ ss
          → (es : Slice Endpoint) × (get_host_endpoints config host ≡ ok es)
      go none e = (none, ground arith)
      go (some ss) e =
          let (es, f) =
            host_endpoints_run host ss
              (subst (λ (x : Slice ConfigurationBackend). HasBackends (items x)) e h) in
          (es, ground arith)

  -- The handler does not panic on a request, if no backend of the configuration is nil, Intn
  -- returns an index below its argument and the request is not the class lookup.
  pub handle_root_runs :
      (r : Request) (h : Handler client)
      → IsIntn out.intn
      → HasBackends (items h.target_config.services)
      → is_class_lookup r ≡ false
      → (x : Response × Handler client) × (handle_root out client prefix r h ≡ ok x)
  unfolding handle_root
  handle_root_runs r h index backends plain = elim (Bool-cases (get_host r == [])) [
    | inl empty ↦ ok_of_not_panic (handle_root out client prefix r h) (λ p. ground arith)
    | inr full ↦
        let (es, e) = get_host_endpoints_run h.target_config (get_host r) backends in
        let (x, f) = by_endpoints_runs es r h index plain in (x, rw (full, e) f)
  ]

  -- The class lookup panics if the configuration has no services, or its first service has no
  -- endpoints: for a host that is not empty and that no service has.
  pub handle_root_panics :
      (r : Request) (h : Handler client)
      → get_host r ≢ []
      → is_class_lookup r ≡ true
      → get_host_endpoints h.target_config (get_host r) ≡ ok none
      → (h.target_config.services ≡ none)
        ⊎ ((s : ConfigurationBackend) × (ss : List ConfigurationBackend) × (b : Backend)
            × (h.target_config.services ≡ some (s ∷ ss))
            × (s.backend ≡ some b)
            × (items b.endpoints ≡ []))
      → handle_root out client prefix r h ≡ panic
  unfolding handle_root by_endpoints no_endpoints get_any_endpoint
  handle_root_panics r h full class e none_there =
      let is_full : (get_host r == []) ≡ false = elim (Bool-cases (get_host r == [])) [
        | inl empty ↦ absurd (full ((==_iff (get_host r) []).0 empty))
        | inr other ↦ other
      ] in
      elim none_there [
        | inl nothing ↦ ground arith
        | inr (s, ss, b, first, back, empty) ↦ ground arith
      ]
