-- ===== src/Startup/Launch/Ready.antt =====
-- When the program starts, and with what.
use wls_ingress.Base.{ℕ, Bool, true, false, [], ◌∷◌, ◌++◌, Option, none, some, ◌≡◌, ◌↔◌, ◌⊎◌}
use wls_ingress.Base.{refl, arith, inl, inr, Bool-cases}
use wls_ingress.Base.Text.{Text, codes, ◌==◌, ==_iff}
use wls_ingress.Base.Int.{ℤ, itoa}
use wls_ingress.Base.Run.{Run, ok, panic}
use wls_ingress.Kube.{
  PodInfo, PodEnvironment, get_pod_details, Versions, networking_ingress_available,
}
use wls_ingress.Startup.{
  Flags, Configuration, Globals, initial_globals, configuration_of, set_class, set_health,
  parse_flags,
}
use wls_ingress.Startup.Connecting.{Connected, connected, not_connected}
use wls_ingress.Startup.Launch.{
  Launch, proceeds, ends, ◌>>=◌, failover_options, ApiServer, redis_manager, Started, flags_parsed,
  client_made, check_default_service, check_namespace, from_run, pod_found, new_controller, main,
}

-- What proceeds after a step proceeded there.
bind_inv :
    {A B : Type 0} (m : Launch A) (k : A → Launch B) (b : B)
    → (m >>= k) ≡ proceeds b
    → (a : A) × (m ≡ proceeds a) × (k a ≡ proceeds b)
bind_inv (proceeds a) k b h = (a, refl, h)
bind_inv (ends e) k b h = cc

module _ (Float : Type 0) where
  client_made_inv :
      {Client : Type 0} (c : Connected Client) (client : Client)
      → client_made Float c ≡ proceeds client
      → (v : Option Text) × (n : ℕ) × (c ≡ connected client v n)
  unfolding client_made
  client_made_inv (connected x v n) client h = (v, n, cc)
  client_made_inv (not_connected err) client h = cc

  from_run_inv : {A : Type 0} (r : Run A) (a : A) → from_run Float r ≡ proceeds a → r ≡ ok a
  unfolding from_run
  from_run_inv (ok x) a h = cc
  from_run_inv panic a h = cc

  pod_found_inv :
      (o : Option PodInfo) (pod : PodInfo) → pod_found Float o ≡ proceeds pod → o ≡ some pod
  unfolding pod_found
  pod_found_inv (some x) pod h = cc
  pod_found_inv none pod h = cc

  check_namespace_iff :
      (has_namespace : Text → Bool) (ns : Text)
      → (check_namespace Float has_namespace ns ≡ proceeds tt)
        ↔ ((ns ≡ []) ⊎ (has_namespace ns ≡ true))
  unfolding check_namespace
  check_namespace_iff has_namespace ns = (
    λ h. elim (Bool-cases (ns == [])) [
      | inl empty ↦ inl ((==_iff ns []).0 empty)
      | inr some_ns ↦ inr (ground arith)
    ],
    λ h. elim h [
      | inl empty ↦ let t = (==_iff ns []).1 empty in ground arith
      | inr there ↦ ground arith
    ],
  )

  module _ {Client : Type 0} (port_available : ℤ → Bool) (f : Flags Float)
      (create_client : Text → Text → Connected Client) (api : Client → ApiServer)
      (versions : Versions) (env : PodEnvironment) where
    -- The conditions under which main goes on to Start, with what it found out.
    pub record IsReady (client : Client) (networking : Bool) (pod : PodInfo) : Type 0 where
      pub no_version : f.show_version ≡ false
      pub http_free : port_available f.http_port ≡ true
      pub server_free : port_available f.def_server_port ≡ true
      pub reached :
          (v : Option Text) × (n : ℕ) × (create_client f.apiserver_host f.kube_config_file
            ≡ connected client v n)
      pub watched : (f.watch_namespace ≡ []) ⊎ ((api client).has_namespace f.watch_namespace ≡ true)
      pub compared :
          networking_ingress_available versions (api client).server_version ≡ ok networking
      pub own_pod : get_pod_details env ≡ some pod

    started : Bool → PodInfo → Started Float
    started networking pod = record {
      config = configuration_of Float f;
      globals = set_health Float f (set_class Float f (initial_globals Float));
      is_networking_ingress_available = networking;
      pod_info = pod;
      manager = redis_manager Float (configuration_of Float f);
      proxy_addr = codes ":8080";
      health_addr = b':' ∷ itoa f.healthz_port;
    }

    parse_flags_ready :
        f.show_version ≡ false
        → port_available f.http_port ≡ true
        → port_available f.def_server_port ≡ true
        → flags_parsed Float (parse_flags Float port_available f (initial_globals Float))
          ≡ proceeds (
            configuration_of Float f,
            set_health Float f (set_class Float f (initial_globals Float)),
          )
    unfolding parse_flags flags_parsed
    parse_flags_ready v p q = rw (v, parse_flags, p, q)

    parse_flags_inv :
        (conf : Configuration Float) (g : Globals Float)
        → flags_parsed Float (parse_flags Float port_available f (initial_globals Float))
          ≡ proceeds (conf, g)
        → (f.show_version ≡ false)
          × (port_available f.http_port ≡ true)
          × (port_available f.def_server_port ≡ true)
    unfolding parse_flags flags_parsed
    parse_flags_inv conf g h = elim (Bool-cases f.show_version) [
      | inl v ↦ cc (rw (v, parse_flags) at h)
      | inr v ↦ elim (Bool-cases (port_available f.http_port)) [
        | inr p ↦ cc (rw (v, p, parse_flags) at h)
        | inl p ↦ elim (Bool-cases (port_available f.def_server_port)) [
          | inr q ↦ cc (rw (v, p, q, parse_flags) at h)
          | inl q ↦ (v, p, q)
        ]
      ]
    ]

    main_ready :
        (client : Client) (networking : Bool) (pod : PodInfo)
        → IsReady client networking pod
        → main Float port_available f create_client api versions env
          ≡ proceeds (started networking pod)
    unfolding main new_controller started client_made pod_found from_run configuration_of
        check_default_service ◌==◌ set_health itoa
    main_ready client networking pod ready =
        let (v, n, reached) = ready.reached in
        let ns =
          (check_namespace_iff (api client).has_namespace f.watch_namespace).1 ready.watched in
        rw (
          parse_flags_ready ready.no_version ready.http_free ready.server_free,
          main,
          reached,
          ns,
          ready.compared,
          ready.own_pod,
        )

    main_inv :
        (s : Started Float)
        → main Float port_available f create_client api versions env ≡ proceeds s
        → (client : Client) × (networking : Bool) × (pod : PodInfo) × IsReady client networking pod
    unfolding main new_controller configuration_of check_default_service ◌==◌
    main_inv s h =
        let (a, p, h1) =
          bind_inv (flags_parsed Float (parse_flags Float port_available f (initial_globals Float)))
            _ s h in
        let (v, free, free') = parse_flags_inv a.0 a.1 p in
        let parsed = parse_flags_ready v free free' in
        let (client, q, h2) =
          bind_inv (client_made Float (create_client f.apiserver_host f.kube_config_file)) _ s
            (rw (parsed, main) at h) in
        let (u, r, h3) =
          bind_inv (check_namespace Float (api client).has_namespace f.watch_namespace) _ s h2 in
        let (networking, t, h4) =
          bind_inv
            (from_run Float (networking_ingress_available versions (api client).server_version)) _ s
            h3 in
        let (pod, y, h5) = bind_inv (pod_found Float (get_pod_details env)) _ s h4 in
        (
          client,
          networking,
          pod,
          record {
            no_version = v;
            http_free = free;
            server_free = free';
            reached = client_made_inv (create_client f.apiserver_host f.kube_config_file) client q;
            watched = (check_namespace_iff (api client).has_namespace f.watch_namespace).0 r;
            compared = from_run_inv _ networking t;
            own_pod = pod_found_inv _ pod y;
          },
        )

    -- main goes on to Start exactly when no version was asked for, both ports are free, the API
    -- server was reached and has the namespace to be watched, if there is one, the versions could be
    -- compared and the own pod was found; whatever services there are. Then the client of redis gets
    -- the options that the flags name, and the proxy listens on port 8080, whatever port --http-port
    -- names.
    pub main_starts :
        ((s : Started Float)
          → main Float port_available f create_client api versions env ≡ proceeds s
          → (client : Client) × (networking : Bool) × (pod : PodInfo) × IsReady client networking
              pod)
        × ((client : Client) (networking : Bool) (pod : PodInfo)
            → IsReady client networking pod
            → (s : Started Float) × (main Float port_available f create_client api versions env
                ≡ proceeds s)
              × (failover_options s.manager ≡ record {
                master_name = f.redis_master_name;
                sentinel_addrs =
                    (f.redis_sentinel_service ++ b':' ∷ itoa f.redis_sentinel_port) ∷ [];
                max_retries = f.redis_max_retries;
                min_retry_backoff = f.redis_min_retry_backoff;
                max_retry_backoff = f.redis_max_retry_backoff;
              })
              × (s.manager.redis_namespace_prefix ≡ f.redis_namespace_prefix)
              × (s.config.namespace ≡ f.watch_namespace)
              × (s.is_networking_ingress_available ≡ networking)
              × (s.pod_info ≡ pod)
              × (s.proxy_addr ≡ codes ":8080"))
    unfolding started redis_manager failover_options configuration_of
    main_starts = (
      main_inv,
      λ client networking pod ready. (
        started networking pod,
        main_ready client networking pod ready,
        refl,
        refl,
        refl,
        refl,
        refl,
        refl,
      ),
    )
