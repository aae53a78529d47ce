-- ===== src/Election/Races.antt =====
-- A lease that is lost and acquired again before the controller has been told that it was lost.
use wls_ingress.Base.{suc, true, false, [], ◌∷◌, some, ◌≡◌, refl, arith, inl, inr}
use wls_ingress.Base.Text.{Text}
use wls_ingress.Base.Run.{ok}
use wls_ingress.Redis.{Client}
use wls_ingress.Controller.Sync.{set_leader, is_leader}
use wls_ingress.Metric.{Prometheus}
use wls_ingress.Metric.Vectors.{IsPrometheus, OneLabel}
use wls_ingress.Election.{
  opened, leading, lost, waiting, closed, Election, acquire, lose, on_started_leading,
  start_leading, on_stopped_leading, stop_leading, acquires, loses, starts, starts_leading,
  gauges_started, stops, stops_leading, gauges_stopped, Reached, Later, here, next,
}
use wls_ingress.Election.Leading.{sound, stopped-Made, gauged_started, gauged_stopped}

module _ (client : Client) (prefix : Text) (lib : Prometheus) (laws : IsPrometheus lib)
    (election_id : Text) where
  abbrev pub State : Type 0
  State = Election client prefix lib election_id

  -- Every call of the callbacks has run.
  pub record AllRun (e : State) : Type 0 where
    pub starting : e.starting ≡ 0
    pub with_channel : e.with_channel ≡ 0
    pub with_leader : e.with_leader ≡ 0
    pub stopping : e.stopping ≡ 0
    pub without_leader : e.without_leader ≡ 0

  -- From `e`, which leads: its lease is lost, OnStoppedLeading closes the channel, and another lease
  -- is acquired, all before the controller is told; then what else is to run runs, up to `e'`.
  pub record Regains (e e' : State) : Type 0 where
    pub closed_at : State
    pub closes :
        on_stopped_leading client prefix lib election_id (lose client prefix lib election_id e)
        ≡ ok closed_at
    pub untold : closed_at.controller ≡ e.controller
    pub to_regained :
        Later client prefix lib election_id e (acquire client prefix lib election_id closed_at)
    pub onwards :
        Later client prefix lib election_id (acquire client prefix lib election_id closed_at) e'
    pub leads : e'.phase ≡ leading
    pub all_run : AllRun e'

  module _ (e : State) (reached : Reached client prefix lib election_id e)
      (leads : e.phase ≡ leading) (run : AllRun e) where
    abbrev closed_at : State
    closed_at = record e { stop_ch = closed; phase = waiting; stopping = suc e.stopping }

    abbrev regained : State
    regained = record closed_at { phase = leading; starting = suc e.starting }

    abbrev restarted : State
    restarted = record regained {
      stop_ch = opened;
      starting = e.starting;
      with_channel = suc e.with_channel;
    }

    one_label : OneLabel lib laws e.metrics
    one_label = (sound client prefix lib laws election_id e reached).one

    closes :
        on_stopped_leading client prefix lib election_id (lose client prefix lib election_id e)
        ≡ ok closed_at
    unfolding lose
    closes = elim ((sound client prefix lib laws election_id e reached).held (λ w. cc (w, leads))) [
      | inl (z, ch) ↦
          stopped-Made client prefix lib laws election_id (record e { phase = lost }) (z, ch)
      | inr (u, ch) ↦ let z = run.starting in absurd (omega (arith, u, z))
    ]

    to_regained :
        Later client prefix lib election_id e (acquire client prefix lib election_id closed_at)
    unfolding lose
    to_regained =
        next closed_at _
          (next (record e { phase = lost }) closed_at (next e _ here (loses e leads))
            (stops (record e { phase = lost }) closed_at refl closes))
          (acquires closed_at refl)

    to_restarted :
        Later client prefix lib election_id
          (acquire client prefix lib election_id closed_at)
          restarted
    unfolding acquire on_started_leading
    to_restarted = next regained restarted here (starts regained e.starting refl)

    regains :
        (e' : State)
        → Later client prefix lib election_id (acquire client prefix lib election_id closed_at) e'
        → e'.phase ≡ leading
        → AllRun e'
        → Regains e e'
    regains e' onwards leads' run' = record {
      closed_at = closed_at;
      closes = closes;
      untold = refl;
      to_regained = to_regained;
      onwards = onwards;
      leads = leads';
      all_run = run';
    }

    -- The next election starts before the controller is told that the lease was lost. So whenever a
    -- controller leads with every callback run, it can happen that it loses the lease and acquires it
    -- again before it is told, and that it then leads with every callback run and does not take
    -- itself for the leader. (For vectors that meet their laws.)
    pub Reached-unaware :
        (e' : State) × Regains e e' × (is_leader client prefix e'.controller ≡ false)
    unfolding start_leading stop_leading is_leader set_leader
    Reached-unaware =
        let s1 : State = record restarted {
          controller = set_leader client prefix true restarted.controller;
          with_channel = e.with_channel;
          with_leader = suc e.with_leader;
        } in
        let (m, ran, one, told) =
          gauged_started client prefix lib laws election_id e.with_leader s1 one_label in
        let s2 : State = record s1 { metrics = m; with_leader = e.with_leader } in
        let s3 : State = record s2 {
          controller = set_leader client prefix false s2.controller;
          stopping = e.stopping;
          without_leader = suc e.without_leader;
        } in
        let (m', ran', one', told') =
          gauged_stopped client prefix lib laws election_id e.without_leader s3 one in
        let s4 : State = record s3 { metrics = m'; without_leader = e.without_leader } in
        (
          s4,
          regains s4
              (next s3 s4
                (next s2 s3
                  (next s1 s2
                    (next restarted s1 to_restarted (starts_leading restarted e.with_channel refl))
                    (gauges_started s1 s2 e.with_leader refl ran))
                  (stops_leading s2 e.stopping refl))
                (gauges_stopped s3 s4 e.without_leader refl ran'))
              refl
              (record {
                starting = run.starting;
                with_channel = run.with_channel;
                with_leader = run.with_leader;
                stopping = run.stopping;
                without_leader = run.without_leader;
              }),
          refl,
        )

    -- setLeader and the gauge are two writes, and the calls of OnStartedLeading and OnStoppedLeading
    -- can run beside each other. So whenever a controller leads with every callback run, it can
    -- happen that it loses the lease and acquires it again before it is told, and that it then leads
    -- with every callback run and takes itself for the leader, and the gauge says that it does not.
    -- (For vectors that meet their laws.)
    pub Reached-contradicted :
        (e' : State) × Regains e e'
        × (is_leader client prefix e'.controller ≡ true)
        × (lib.value (election_id ∷ []) e'.metrics.leader_election ≡ some 0)
    unfolding start_leading stop_leading is_leader set_leader
    Reached-contradicted =
        let s1 : State = record restarted {
          controller = set_leader client prefix false restarted.controller;
          stopping = e.stopping;
          without_leader = suc e.without_leader;
        } in
        let s2 : State = record s1 {
          controller = set_leader client prefix true s1.controller;
          with_channel = e.with_channel;
          with_leader = suc e.with_leader;
        } in
        let (m, ran, one, told) =
          gauged_started client prefix lib laws election_id e.with_leader s2 one_label in
        let s3 : State = record s2 { metrics = m; with_leader = e.with_leader } in
        let (m', ran', one', told') =
          gauged_stopped client prefix lib laws election_id e.without_leader s3 one in
        let s4 : State = record s3 { metrics = m'; without_leader = e.without_leader } in
        (
          s4,
          regains s4
              (next s3 s4
                (next s2 s3
                  (next s1 s2
                    (next restarted s1 to_restarted (stops_leading restarted e.stopping refl))
                    (starts_leading s1 e.with_channel refl))
                  (gauges_started s2 s3 e.with_leader refl ran))
                (gauges_stopped s3 s4 e.without_leader refl ran'))
              refl
              (record {
                starting = run.starting;
                with_channel = run.with_channel;
                with_leader = run.with_leader;
                stopping = run.stopping;
                without_leader = run.without_leader;
              }),
          refl,
          told',
        )
