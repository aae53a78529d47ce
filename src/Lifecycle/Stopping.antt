-- ===== src/Lifecycle/Stopping.antt =====
-- What Stop does, and what still happens after it.
use wls_ingress.Base.{
  ℕ, suc, Bool, true, false, List, Option, none, some, ◌≡◌, ◌≢◌, ◌⊎◌, if◌then◌else◌,
}
use wls_ingress.Base.{refl, sym, subst, arith, inl, inr, Bool-cases, Option-cases}
use wls_ingress.Base.Text.{Text}
use wls_ingress.Base.Run.{ok, panic}
use wls_ingress.Ingress.{IngressObject}
use wls_ingress.Election.{nil_channel, opened, closed, close}
use wls_ingress.Status.{Cluster, IngressClient, shutdown}
use wls_ingress.Store.{Object, Event}
use wls_ingress.Task.{WorkQueue}
use wls_ingress.Lifecycle.{
  serving, shut, shutdown_listener, WlsController, new_wls_controller, start, serve, enqueue_task,
  on_event, stop, handle_sigterm, Step, sends, receives, works, serves, stops, shuts_status,
  shut_status_queue, Reached, started, later,
}

if_true : {A : Type 0} (b : Bool) (x y : A) → b ≡ true → (if b then x else y) ≡ x
if_true b x y h = rw h refl

if_false : {A : Type 0} (b : Bool) (x y : A) → b ≡ false → (if b then x else y) ≡ y
if_false b x y h = rw h refl

true_or_false : {b : Bool} → b ≡ false → b ≡ true → ⊥
true_or_false f t = cc

module _ (w : WorkQueue) (client : IngressClient) (in_slice : Text → List Text → Bool)
    (is_ip : Text → Bool) (key_func : Object → Option Text) where
  abbrev pub Wls : Type 0
  Wls = WlsController w client in_slice is_ip key_func

  -- Not stopped, with or without the server; or stopped.
  abbrev Running : Wls → Type 0
  Running n =
      (n.is_shutting_down ≡ false)
      × (n.stop_ch ≡ opened)
      × (((n.http_listener ≡ none) × (n.idle_conns_closed ≡ nil_channel))
          ⊎ ((n.http_listener ≡ some serving) × (n.idle_conns_closed ≡ opened)))

  abbrev pub Stopped : Wls → Type 0
  Stopped n =
      (n.is_shutting_down ≡ true)
      × (n.stop_ch ≡ closed)
      × (n.http_listener ≡ some shut)
      × (n.idle_conns_closed ≡ closed)
      × (n.redis_closed ≡ true)

  abbrev Sound : Wls → Type 0
  Sound n = Running n ⊎ Stopped n

  pub on_event_stopped :
      (e : Event) (now now' : ℕ) (n : Wls)
      → n.is_shutting_down ≡ true
      → on_event w client in_slice is_ip key_func e now now' n ≡ n
  unfolding on_event
  on_event_stopped e now now' n down = if_true n.is_shutting_down n _ down

  pub on_event_running :
      (e : Event) (now now' : ℕ) (n : Wls)
      → n.is_shutting_down ≡ false
      → on_event w client in_slice is_ip key_func e now now' n
        ≡ enqueue_task w client in_slice is_ip key_func (key_func e.object) true now now' n
  unfolding on_event
  on_event_running e now now' n up = if_false n.is_shutting_down n _ up

  on_event-Sound :
      (e : Event) (now now' : ℕ) (n : Wls)
      → Sound n
      → Sound (on_event w client in_slice is_ip key_func e now now' n)
  unfolding enqueue_task
  on_event-Sound e now now' n h = elim (Bool-cases n.is_shutting_down) [
    | inl down ↦ subst Sound (sym (on_event_stopped e now now' n down)) h
    | inr up ↦ subst Sound (sym (on_event_running e now now' n up)) h
  ]

  stop-Stopped :
      (cluster : Cluster) (publish_service : Text) (ings : List IngressObject) (n : Wls)
      → Running n
      → n.http_listener ≢ none
      → (n' : Wls) × (stop w client in_slice is_ip key_func cluster publish_service ings n
          ≡ ok (false, n'))
        × Stopped n'
        × (n'.statuses
            ≡ shutdown client in_slice is_ip true cluster publish_service ings n.statuses)
  unfolding stop close shutdown_listener
  stop-Stopped cluster publish_service ings n (up, ch, inl (bad, i)) some_server =
      absurd (some_server bad)
  stop-Stopped cluster publish_service ings n (up, ch, inr (l, i)) some_server = (
    record n {
      is_shutting_down = true;
      statuses = shutdown client in_slice is_ip true cluster publish_service ings n.statuses;
      status_shutdowns = suc n.status_shutdowns;
      stop_ch = closed;
      redis_closed = true;
      http_listener = some shut;
      idle_conns_closed = closed;
    },
    ground arith,
    (refl, refl, refl, refl, refl),
    refl,
  )

  stop_panics :
      (cluster : Cluster) (publish_service : Text) (ings : List IngressObject) (n : Wls)
      → (n.stop_ch ≡ closed) ⊎ (n.http_listener ≡ none)
      → stop w client in_slice is_ip key_func cluster publish_service ings n ≡ panic
  unfolding stop close shutdown_listener
  stop_panics cluster publish_service ings n (inl ch) = rw (ch, close)
  stop_panics cluster publish_service ings n (inr l) = ground arith

  serve-Sound :
      (n : Wls)
      → n.http_listener ≡ none
      → Sound n
      → Sound (serve w client in_slice is_ip key_func n)
  unfolding serve
  serve-Sound n e (inl (up, ch, l)) = inl (up, ch, inr (refl, refl))
  serve-Sound n e (inr (down, ch, l, i, r)) = cc

  Step-Sound : (n n' : Wls) → Step w client in_slice is_ip key_func n n' → Sound n → Sound n'
  Step-Sound n n' (sends _ e) h = h
  Step-Sound n n' (receives _ e rest now now' p) h =
      on_event-Sound e now now' (record n { update_ch = rest }) h
  Step-Sound n n' (works _ m step) h = h
  Step-Sound n n' (serves _ e) h = serve-Sound n e h
  Step-Sound n n' (stops _ _ cluster publish_service ings fails ran) (inl r) =
      elim (Option-cases n.http_listener) [
        | inl l ↦ cc (stop_panics cluster publish_service ings n (inr l))
        | inr (server, l) ↦
            let (m, e, stopped, s) = stop-Stopped cluster publish_service ings n r (λ bad. cc) in
            let same : m ≡ n' = cc in inr (subst Stopped same stopped)
      ]
  Step-Sound n n' (stops _ _ cluster publish_service ings fails ran) (inr s) =
      cc (stop_panics cluster publish_service ings n (inl s.1))
  Step-Sound n _ (shuts_status _ k p) h = unfold shut_status_queue in h

  Reached-Sound : (n : Wls) → Reached w client in_slice is_ip key_func n → Sound n
  unfolding start enqueue_task new_wls_controller
  Reached-Sound _ (started q status_q statuses initial now now' up) =
      inl (refl, refl, inl (refl, refl))
  Reached-Sound _ (later n n' h step) = Step-Sound n n' step (Reached-Sound n h)

  -- Whatever happened before: if Stop was not called yet and the HTTP server has been made, SIGTERM
  -- closes the channels, the redis client and the server, treats the statuses as the status sync
  -- does on shutdown and ends with exit code 0. If Stop was called before, or the server has not
  -- been made, Stop panics.
  pub Reached-handle_sigterm :
      (n : Wls) (cluster : Cluster) (publish_service : Text) (ings : List IngressObject)
      → Reached w client in_slice is_ip key_func n
      → (n.is_shutting_down ≡ false
          → n.http_listener ≢ none
          → (n' : Wls) × (stop w client in_slice is_ip key_func cluster publish_service ings n
              ≡ ok (false, n'))
            × Stopped n'
            × (n'.statuses
                ≡ shutdown client in_slice is_ip true cluster publish_service ings n.statuses)
            × (handle_sigterm w client in_slice is_ip key_func cluster publish_service ings n
                ≡ ok 0))
        × ((n.is_shutting_down ≡ true) ⊎ (n.http_listener ≡ none)
            → handle_sigterm w client in_slice is_ip key_func cluster publish_service ings n
              ≡ panic)
  unfolding handle_sigterm
  Reached-handle_sigterm n cluster publish_service ings reached = (
    λ up made. elim (Reached-Sound n reached) [
      | inl r ↦
          let (n', e, stopped, s) = stop-Stopped cluster publish_service ings n r made in
          (n', e, stopped, s, rw e)
      | inr s ↦ absurd (true_or_false up s.0)
    ],
    λ bad.
        let gone : (n.stop_ch ≡ closed) ⊎ (n.http_listener ≡ none) = elim bad [
          | inr l ↦ inr l
          | inl down ↦ elim (Reached-Sound n reached) [
            | inl r ↦ absurd (true_or_false r.0 down)
            | inr s ↦ inl s.1
          ]
        ] in
        rw (stop_panics cluster publish_service ings n gone),
  )
