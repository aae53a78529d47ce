-- ===== src/Election/Leading.antt =====
-- What the callbacks of the election can do to each other.
use wls_ingress.Base.{ℕ, suc, [], ◌∷◌, some, ◌≡◌, ◌≢◌, ◌⊎◌, refl, arith, inl, inr, subst}
use wls_ingress.Base.Text.{Text}
use wls_ingress.Base.Run.{Run, ok, panic}
use wls_ingress.Redis.{Client}
use wls_ingress.Metric.{Prometheus, Metrics}
use wls_ingress.Metric.Vectors.{IsPrometheus, OneLabel, new_collector-OneLabel, set_leading_lem}
use wls_ingress.Election.{
  Channel, nil_channel, opened, closed, close, waiting, Election, acquire, lose, on_started_leading,
  start_leading, gauge_started, on_stopped_leading, stop_leading, gauge_stopped, Step, acquires,
  loses, starts, starts_leading, gauges_started, stops, stops_leading, gauges_stopped, Reached,
  start, later,
}

close_not_opened : (ch : Channel) → ch ≢ opened → close ch ≡ panic
unfolding close
close_not_opened nil_channel h = refl
close_not_opened opened h = absurd (h refl)
close_not_opened closed h = refl

panics_or_runs : {A : Type 0} {r : Run A} {a : A} → r ≡ panic → r ≡ ok a → ⊥
panics_or_runs p q = cc

module _ (client : Client) (prefix : Text) (lib : Prometheus) (laws : IsPrometheus lib)
    (election_id : Text) where
  abbrev pub State : Type 0
  State = Election client prefix lib election_id

  -- The channel of the lease: made, or the call that makes it is still to come.
  abbrev pub Made : State → Type 0
  Made e = (e.starting ≡ 0) × (e.stop_ch ≡ opened)

  abbrev pub Unmade : State → Type 0
  Unmade e = (e.starting ≡ 1) × (e.stop_ch ≢ opened)

  pub record Sound (e : State) : Type 0 where
    pub idle : e.phase ≡ waiting → (e.starting ≡ 0) × (e.stop_ch ≢ opened)
    pub held : e.phase ≢ waiting → Made e ⊎ Unmade e
    pub one : OneLabel lib laws e.metrics

  -- The gauge can be set.
  pub gauged_started :
      (n : ℕ) (e : State)
      → OneLabel lib laws e.metrics
      → (m : Metrics lib) × (gauge_started client prefix lib election_id n e
          ≡ ok (record e { metrics = m; with_leader = n }))
        × OneLabel lib laws m
        × (lib.value (election_id ∷ []) m.leader_election ≡ some 1)
  unfolding gauge_started
  gauged_started n e one =
      let (m, ran, still, told) = set_leading_lem lib laws election_id 1 e.metrics one in
      (m, rw ran refl, still, told)

  pub gauged_stopped :
      (n : ℕ) (e : State)
      → OneLabel lib laws e.metrics
      → (m : Metrics lib) × (gauge_stopped client prefix lib election_id n e
          ≡ ok (record e { metrics = m; without_leader = n }))
        × OneLabel lib laws m
        × (lib.value (election_id ∷ []) m.leader_election ≡ some 0)
  unfolding gauge_stopped
  gauged_stopped n e one =
      let (m, ran, still, told) = set_leading_lem lib laws election_id 0 e.metrics one in
      (m, rw ran refl, still, told)

  -- OnStoppedLeading, by whether the channel was made.
  pub stopped-Made :
      (e : State)
      → Made e
      → on_stopped_leading client prefix lib election_id e
        ≡ ok (record e { stop_ch = closed; phase = waiting; stopping = suc e.stopping })
  unfolding on_stopped_leading close
  stopped-Made e (z, ch) = rw ch refl

  stopped-Unmade :
      (e : State) → e.stop_ch ≢ opened → on_stopped_leading client prefix lib election_id e ≡ panic
  unfolding on_stopped_leading
  stopped-Unmade e h = rw (close_not_opened e.stop_ch h) refl

  Step-Sound : (e e' : State) → Step client prefix lib election_id e e' → Sound e → Sound e'
  unfolding acquire lose on_started_leading start_leading stop_leading
  Step-Sound e _ (acquires _ p) h = record {
    idle = λ q. cc;
    held = λ q. let (z, ch) = h.idle p in inr (omega (arith, z), ch);
    one = h.one;
  }
  Step-Sound e _ (loses _ p) h = record {
    idle = λ q. cc;
    held = λ q. h.held (λ w. cc (w, p));
    one = h.one;
  }
  Step-Sound e _ (starts _ n p) h = record {
    idle = λ q. let (z, ch) = h.idle q in absurd (omega (arith, z, p));
    held = λ q. elim (h.held q) [
      | inl (z, ch) ↦ absurd (omega (arith, z, p))
      | inr (u, ch) ↦ inl (omega (arith, u, p), refl)
    ];
    one = h.one;
  }
  Step-Sound e _ (starts_leading _ n p) h = record { idle = h.idle; held = h.held; one = h.one }
  Step-Sound e _ (gauges_started _ e' n p ran) h =
      let (m, ran', one, told) = gauged_started n e h.one in
      let end : record e { metrics = m; with_leader = n } ≡ e' = cc in
      subst Sound end (record { idle = h.idle; held = h.held; one = one })
  Step-Sound e _ (stops _ e' p ran) h = elim (h.held (λ w. cc (w, p))) [
    | inr (u, ch) ↦ absurd (panics_or_runs (stopped-Unmade e ch) ran)
    | inl made ↦
        let ran' = stopped-Made e made in
        let end : record e { stop_ch = closed; phase = waiting; stopping = suc e.stopping } ≡ e' =
          cc in
        subst Sound end
          (record { idle = λ q. (made.0, λ c. cc); held = λ q. absurd (q refl); one = h.one })
  ]
  Step-Sound e _ (stops_leading _ n p) h = record { idle = h.idle; held = h.held; one = h.one }
  Step-Sound e _ (gauges_stopped _ e' n p ran) h =
      let (m, ran', one, told) = gauged_stopped n e h.one in
      let end : record e { metrics = m; without_leader = n } ≡ e' = cc in
      subst Sound end (record { idle = h.idle; held = h.held; one = one })

  pub sound : (e : State) → Reached client prefix lib election_id e → Sound e
  sound _ (start n pod_namespace pod_name ingress_class z) = record {
    idle = λ p. (refl, λ c. cc);
    held = λ p. absurd (p refl);
    one = new_collector-OneLabel lib laws pod_namespace pod_name ingress_class;
  }
  sound _ (later e e' h step) = Step-Sound e e' step (sound e h)
