-- ===== src/Handler/Proxies.antt =====
-- What the handler forwards to, step by step.
pub mod Reaching
use wls_ingress.Base.{
  ℕ, Bool, true, false, List, [], ◌∷◌, ◌++◌, Option, none, some, if◌then◌else◌, ◌≡◌, ◌≢◌, refl,
}
use wls_ingress.Base.{
  length, get_elem?, arith, inl, inr, ◌⊎◌, Bool-cases, Option-cases, In, sym, ◌∙◌, subst, ap,
}
use wls_ingress.Base.Text.{Text, codes, ◌==◌, ==_iff, ==_refl, contains_text}
use wls_ingress.Base.Slices.{Slice, items}
use wls_ingress.Base.Maps.{Map, lookup, insert, lookup-insert}
use wls_ingress.Base.Run.{Run, ok, panic, ◌>>=◌, Run-cases}
use wls_ingress.Ingress.{Backend, Endpoint}
use wls_ingress.Redis.{Client, get_endpoint, add_cookie, Got, found, error}
use wls_ingress.Handler.Sticky.{elem_In}
use wls_ingress.Handler.{
  Cookie, session, no_cookie, cookie_error, Request, Response, Effect, forward, http_error, Handler,
  Outside, get_host, get_host_endpoints, get_any_endpoint, is_class_lookup, session_id,
  endpoint_url, after_response, new_session, existing_session, known_endpoint, no_endpoints,
  by_cookie, by_endpoints, handle_root,
}

-- The URL is that of the address, at some port.
abbrev pub IsUrlOf : Text → Text → Type 0
IsUrlOf address url = (port : Text) × (url ≡ endpoint_url address port)

-- Each proxy of the map goes to the address that is its key.
abbrev pub IsProxyMap : Map Text → Type 0
IsProxyMap m = (address url : Text) → lookup address m ≡ some url → IsUrlOf address url

pub IsProxyMap-insert :
    (address port : Text) (m : Map Text)
    → IsProxyMap m
    → IsProxyMap (insert address (endpoint_url address port) m)
IsProxyMap-insert address port m h a url e = elim (Bool-cases (address == a)) [
  | inl same ↦ (
    port,
    ground (arith, ==_iff address a, lookup-insert address a (endpoint_url address port) m),
  )
  | inr other ↦ h a url (ground (arith, lookup-insert address a (endpoint_url address port) m))
]

-- The map of proxies is sound, and all that is forwarded goes to addresses with `P`.
abbrev pub Reaches : {client : Client} → (Text → Type 0) → Response × Handler client → Type 0
Reaches P x =
    IsProxyMap x.1.proxy_map
    × ((url : Text) → In (forward url) x.0.effects → (a : Text) × P a × IsUrlOf a url)

module _ {client : Client} (P : Text → Type 0) where
  pub fails :
      (code : ℕ) (close : Bool) (h : Handler client) (x : Response × Handler client)
      → (record { effects = http_error code ∷ []; close = close }, h) ≡ x
      → IsProxyMap h.proxy_map
      → Reaches P x
  fails code close h x e m =
      subst (Reaches P) e (m, λ url i. elim i [ inl f ↦ cc | inr f ↦ elim f [ ] ])

  pub forwards :
      (address url : Text) (rest : List Effect) (close : Bool) (h : Handler client)
      (x : Response × Handler client)
      → (record { effects = forward url ∷ rest; close = close }, h) ≡ x
      → IsProxyMap h.proxy_map
      → ((u : Text) → ¬ (In (forward u) rest))
      → P address
      → IsUrlOf address url
      → Reaches P x
  forwards address url rest close h x e m none_else p q =
      subst (Reaches P) e (
        m,
        λ u i. elim i [ inl f ↦ (address, p, (q.0, cc (q.1))) | inr j ↦ absurd (none_else u j) ],
      )

module _ (out : Outside) (client : Client) (prefix : Text) where
  module _ (P : Text → Type 0) where
    after_response-Reaches :
        (address url : Text) (r : Request) (h : Handler client) (x : Response × Handler client)
        → IsProxyMap h.proxy_map
        → P address
        → IsUrlOf address url
        → after_response out client prefix address url r h ≡ ok x
        → Reaches P x
    unfolding after_response
    after_response-Reaches address url r h x m p q e =
        elim (Bool-cases (out.set_cookie url r == [])) [
          | inl a ↦
              (forwards P address url (http_error 500 ∷ []) false h x (ground arith) m
                (λ u i. elim i [ inl f ↦ cc | inr f ↦ f ]) p q)
          | inr a ↦ elim (Bool-cases (contains_text (out.set_cookie url r) (codes "JSESSIONID="))) [
            | inr b ↦
                (forwards P address url (http_error 500 ∷ []) false h x (ground arith) m
                  (λ u i. elim i [ inl f ↦ cc | inr f ↦ f ]) p q)
            | inl b ↦ elim (Run-cases (session_id (out.set_cookie url r))) [
              | inl c ↦ absurd (ground arith)
              | inr (j, c) ↦
                  (forwards P address url [] false
                    (record h { redis = add_cookie client prefix j address h.redis }) x
                    (ground arith) m (λ u i. i) p q)
            ]
          ]
        ]

    pub new_session-Reaches :
        (e : Endpoint) (r : Request) (h : Handler client) (x : Response × Handler client)
        → IsProxyMap h.proxy_map
        → P e.address
        → new_session out client prefix e r h ≡ ok x
        → Reaches P x
    unfolding new_session
    new_session-Reaches e r h x m p f = elim (Option-cases (lookup e.address h.proxy_map)) [
      | inr (proxy, l) ↦
          after_response-Reaches e.address proxy r h x m p (m e.address proxy l) (ground arith)
      | inl l ↦ elim (Bool-cases (out.url_parses (endpoint_url e.address e.port))) [
        | inr bad ↦ (fails P 500 false h x (ground arith) m)
        | inl good ↦
            after_response-Reaches e.address (endpoint_url e.address e.port) r
              (record h {
                proxy_map = insert e.address (endpoint_url e.address e.port) h.proxy_map;
              })
              x (IsProxyMap-insert e.address e.port h.proxy_map m) p (e.port, refl) (ground arith)
      ]
    ]

    known_endpoint-Reaches :
        (a : Text) (h : Handler client)
        → IsProxyMap h.proxy_map
        → P a
        → Reaches P (known_endpoint out client prefix a h)
    unfolding known_endpoint
    known_endpoint-Reaches a h m p = elim (Option-cases (lookup a h.proxy_map)) [
      | inr (proxy, l) ↦
          (forwards P a proxy [] false h (known_endpoint out client prefix a h) (ground arith) m
            (λ u i. i) p (m a proxy l))
      | inl l ↦ elim (Bool-cases (out.url_parses (endpoint_url a (codes "7001")))) [
        | inr bad ↦ fails P 500 false h (known_endpoint out client prefix a h) (ground arith) m
        | inl good ↦
            (forwards P a (endpoint_url a (codes "7001")) [] false
              (record h { proxy_map = insert a (endpoint_url a (codes "7001")) h.proxy_map })
              (known_endpoint out client prefix a h) (ground arith)
              (IsProxyMap-insert a (codes "7001") h.proxy_map m) (λ u i. i) p (codes "7001", refl))
      ]
    ]

    pub existing_session-Reaches :
        (g : Got) (h : Handler client)
        → IsProxyMap h.proxy_map
        → ((a : Text) → g ≡ found a → P a)
        → Reaches P (existing_session out client prefix g h)
    unfolding existing_session
    existing_session-Reaches error h m p =
        fails P 500 false h (existing_session out client prefix error h) refl m
    existing_session-Reaches (found a) h m p = elim (Bool-cases (a == [])) [
      | inl empty ↦
          fails P 503 true h (existing_session out client prefix (found a) h) (ground arith) m
      | inr other ↦ rw other (known_endpoint-Reaches a h m (p a refl))
    ]
