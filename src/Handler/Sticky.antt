-- ===== src/Handler/Sticky.antt =====
-- A session stays at the endpoint that created it.
use wls_ingress.Base.{ℕ, true, false, List, [], ◌∷◌, some, ◌≡◌, ◌≢◌}
use wls_ingress.Base.{
  length, get_elem?, arith, inl, inr, Bool-cases, Option-cases, All, In, suc, zero, sym, ◌∙◌, ap,
}
use wls_ingress.Base.Text.{Text, codes, ◌==◌, ==_iff, ==_refl, contains_text}
use wls_ingress.Base.Maps.{lookup, insert, lookup-insert}
use wls_ingress.Base.Run.{ok, Run-cases}
use wls_ingress.Ingress.{Endpoint}
use wls_ingress.Redis.{Client, get_endpoint, add_cookie, found}
use wls_ingress.Redis.Laws.{IsRedis, IsReliable}
use wls_ingress.Redis.Sessions.{get_endpoint-add_cookie}
use wls_ingress.Handler.{
  session, no_cookie, Request, Response, forward, Handler, Outside, get_host, get_host_endpoints,
  session_id, endpoint_url, after_response, new_session, existing_session, known_endpoint,
  by_cookie, by_endpoints, handle_root,
}

-- The request is forwarded, and nothing else is written.
abbrev pub only_forwarded : Text → Response
only_forwarded url = record { effects = forward url ∷ []; close = false }

pub elem_In : {A : Type 0} (xs : List A) (i : ℕ) (x : A) → get_elem? xs i ≡ some x → In x xs
elem_In [] i x e = cc
elem_In (y ∷ xs) zero x e = inl (cc)
elem_In (y ∷ xs) (suc i) x e = inr (elem_In xs i x e)

module _ (out : Outside) (client : Client) (prefix : Text) where
  pub after_response-forwarded :
      (address url url' j : Text) (r : Request) (h h' : Handler client)
      → after_response out client prefix address url r h ≡ ok (only_forwarded url', h')
      → session_id (out.set_cookie url' r) ≡ ok j
      → (url ≡ url')
        × (h'.redis ≡ add_cookie client prefix j address h.redis)
        × (h'.proxy_map ≡ h.proxy_map)
        × (h'.target_config ≡ h.target_config)
  unfolding after_response
  after_response-forwarded address url url' j r h h' e f =
      elim (Bool-cases (out.set_cookie url r == [])) [
        | inl a ↦ absurd (ground arith)
        | inr a ↦ elim (Bool-cases (contains_text (out.set_cookie url r) (codes "JSESSIONID="))) [
          | inr b ↦ absurd (ground arith)
          | inl b ↦ elim (Run-cases (session_id (out.set_cookie url r))) [
            | inl c ↦ absurd (ground arith)
            | inr (i, c) ↦
                let same : url ≡ url' = ground arith in
                let one : i ≡ j = cc (ap (λ (u : Text). session_id (out.set_cookie u r)) same) in
                (same, ground arith, ground arith, ground arith)
          ]
        ]
      ]

  new_session-forwarded :
      (e : Endpoint) (url j : Text) (r : Request) (h h' : Handler client)
      → new_session out client prefix e r h ≡ ok (only_forwarded url, h')
      → session_id (out.set_cookie url r) ≡ ok j
      → (lookup e.address h'.proxy_map ≡ some url)
        × (h'.redis ≡ add_cookie client prefix j e.address h.redis)
        × (h'.target_config ≡ h.target_config)
  unfolding new_session
  new_session-forwarded e url j r h h' f g = elim (Option-cases (lookup e.address h.proxy_map)) [
    | inr (proxy, l) ↦
        let (same, stored, kept, target) =
          after_response-forwarded e.address proxy url j r h h' (ground arith) g in
        (rw kept (rw (← same) l), stored, target)
    | inl l ↦ elim (Bool-cases (out.url_parses (endpoint_url e.address e.port))) [
      | inr bad ↦ absurd (ground arith)
      | inl good ↦
          let made = endpoint_url e.address e.port in
          let (same, stored, kept, target) =
            after_response-forwarded e.address made url j r
              (record h { proxy_map = insert e.address made h.proxy_map }) h' (ground arith) g in
          (
            rw kept (
                rw (← same) (
                  ground (
                    arith,
                    lookup-insert e.address e.address made h.proxy_map,
                    ==_refl e.address,
                  ))),
            stored,
            target,
          )
    ]
  ]

  pub full_host : (r : Request) → get_host r ≢ [] → (get_host r == []) ≡ false
  full_host r n = elim (Bool-cases (get_host r == [])) [
    | inl empty ↦ absurd (n ((==_iff (get_host r) []).0 empty))
    | inr other ↦ other
  ]

  -- The endpoint of a new session that was forwarded, with what the handler keeps of it.
  pub forwarded_endpoint :
      (r : Request) (h h' : Handler client) (url j : Text) (e : Endpoint) (es : List Endpoint)
      → get_host r ≢ []
      → get_host_endpoints h.target_config (get_host r) ≡ ok (some (e ∷ es))
      → r.cookie ≡ no_cookie
      → handle_root out client prefix r h ≡ ok (only_forwarded url, h')
      → session_id (out.set_cookie url r) ≡ ok j
      → (f : Endpoint) × In f (e ∷ es)
        × (lookup f.address h'.proxy_map ≡ some url)
        × (h'.redis ≡ add_cookie client prefix j f.address h.redis)
        × (h'.target_config ≡ h.target_config)
        × (new_session out client prefix f r h ≡ ok (only_forwarded url, h'))
  unfolding handle_root by_endpoints by_cookie
  forwarded_endpoint r h h' url j e es n hosts cookie run sid =
      let full = full_host r n in
      elim (Option-cases (get_elem? (e ∷ es) (out.intn (length (e ∷ es))))) [
        | inl missing ↦ absurd (ground arith)
        | inr (f, i) ↦
            let ran : new_session out client prefix f r h ≡ ok (only_forwarded url, h') =
              ground arith in
            let (l, stored, target) = new_session-forwarded f url j r h h' ran sid in
            (f, elem_In (e ∷ es) (out.intn (length (e ∷ es))) f i, l, stored, target, ran)
      ]

  pub full_address :
      (f : Endpoint) (fs : List Endpoint)
      → All (λ f. f.address ≢ []) fs
      → In f fs
      → (f.address == []) ≡ false
  full_address f [] a i = elim i [ ]
  full_address f (x ∷ fs) (p, a) (inl same) = elim (Bool-cases (f.address == [])) [
    | inl empty ↦
        absurd (p (sym (ap (λ (y : Endpoint). y.address) same) ∙ (==_iff f.address []).0 empty))
    | inr other ↦ other
  ]
  full_address f (x ∷ fs) (p, a) (inr i) = full_address f fs a i

  module _ (redis : IsRedis client) (works : IsReliable client) where
    -- If a request without a session cookie was forwarded to an upstream and answered with a
    -- session cookie, no redis command fails and no endpoint of its host has an empty address,
    -- then a request with that cookie, for a host with endpoints, is forwarded to the same
    -- upstream, whatever host and endpoints that is.
    pub handle_root-sticky :
        (r r' : Request) (h h' : Handler client) (url j : Text) (e e' : Endpoint)
        (es es' : List Endpoint)
        → get_host r ≢ []
        → get_host_endpoints h.target_config (get_host r) ≡ ok (some (e ∷ es))
        → All (λ f. f.address ≢ []) (e ∷ es)
        → r.cookie ≡ no_cookie
        → handle_root out client prefix r h ≡ ok (only_forwarded url, h')
        → session_id (out.set_cookie url r) ≡ ok j
        → get_host r' ≢ []
        → get_host_endpoints h.target_config (get_host r') ≡ ok (some (e' ∷ es'))
        → r'.cookie ≡ session j
        → (h'' : Handler client) × (handle_root out client prefix r' h'
            ≡ ok (only_forwarded url, h''))
    unfolding handle_root by_endpoints by_cookie existing_session known_endpoint
    handle_root-sticky r r' h h' url j e e' es es' n hosts full cookie run sid n' hosts' cookie' =
        let (f, i, l, stored, target, ran) =
          forwarded_endpoint r h h' url j e es n hosts cookie run sid in
        let got = get_endpoint-add_cookie client redis works prefix j f.address true h.redis in
        let back : (get_endpoint client prefix j true h'.redis).0 ≡ found f.address =
          rw stored got in
        let there = full_host r' n' in
        let named = full_address f (e ∷ es) full i in
        let hosts'' : get_host_endpoints h'.target_config (get_host r') ≡ ok (some (e' ∷ es')) =
          rw target hosts' in
        (record h' { redis = (get_endpoint client prefix j true h'.redis).1 }, ground arith)
