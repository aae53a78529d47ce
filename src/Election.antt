-- ===== src/Election.antt =====
-- internal/ingress/controller/status.go, and the callbacks that Start in
-- internal/ingress/controller/wls.go passes to it: the leader election as a state machine. client-go
-- runs OnStartedLeading in a goroutine of its own and OnStoppedLeading when the lease is lost, after
-- which the next election runs beside the rest of it. So the calls are cut at each write of what
-- they share: the channel, the leadership of the controller, and the gauge of prometheus. When the
-- lease is acquired or lost is up to client-go's elector.
pub mod Leading
pub mod Races
mod Tests
use wls_ingress.Base.{ℕ, zero, suc, Bool, true, false, List, Option, none, some, ◌≡◌}
use wls_ingress.Base.Text.{Text}
use wls_ingress.Base.Run.{Run, ok, panic, ◌>>=◌}
use wls_ingress.Redis.{Client}
use wls_ingress.Controller.Sync.{Controller, set_leader}
use wls_ingress.Metric.{Prometheus, Metrics, new_collector, set_leading}

-- The variable stopCh: nil, or a channel that is open or closed.
pub data Channel : Type 0 where
  nil_channel : Channel
  opened : Channel
  closed : Channel

-- close(ch)
unfoldable pub close : Channel → Run Channel
close nil_channel = panic
close opened = ok closed
close closed = panic

-- What the elector does: it waits for the lease, it holds it, or it has lost it and has not called
-- OnStoppedLeading yet.
pub data Phase : Type 0 where
  waiting : Phase
  leading : Phase
  lost : Phase

module _ (client : Client) (prefix : Text) (lib : Prometheus) (election_id : Text) where
  -- The calls of OnStartedLeading that have not made their channel yet, that have not called
  -- setLeader, and that have not set the gauge; and the calls of OnStoppedLeading that have closed
  -- the channel and started the next election, and that have called setLeader.
  pub record Election : Type 0 where
    pub controller : Controller client
    pub metrics : Metrics lib
    pub stop_ch : Channel
    pub phase : Phase
    pub starting : ℕ
    pub with_channel : ℕ
    pub with_leader : ℕ
    pub stopping : ℕ
    pub without_leader : ℕ

  -- The elector gets the lease, and client-go calls OnStartedLeading in a goroutine.
  unfoldable pub acquire : Election → Election
  acquire e = record e { phase = leading; starting = suc e.starting }

  unfoldable pub lose : Election → Election
  lose e = record e { phase = lost }

  -- OnStartedLeading of setupLeaderElection; the status sync runs until the channel is closed. `n`
  -- is how many other calls are at this point.
  unfoldable pub on_started_leading : ℕ → Election → Election
  on_started_leading n e = record e {
    stop_ch = opened;
    starting = n;
    with_channel = suc e.with_channel;
  }

  -- OnStartedLeading of Start: setLeader, then the gauge.
  unfoldable pub start_leading : ℕ → Election → Election
  start_leading n e = record e {
    controller = set_leader client prefix true e.controller;
    with_channel = n;
    with_leader = suc e.with_leader;
  }

  unfoldable pub gauge_started : ℕ → Election → Run Election
  gauge_started n e = do
    m ← set_leading lib election_id 1 e.metrics
    ok (record e { metrics = m; with_leader = n })

  -- OnStoppedLeading of setupLeaderElection, up to the start of the next election.
  unfoldable pub on_stopped_leading : Election → Run Election
  on_stopped_leading e = do
    ch ← close e.stop_ch
    ok (record e { stop_ch = ch; phase = waiting; stopping = suc e.stopping })

  -- The rest of it, OnStoppedLeading of Start: setLeader, then the gauge.
  unfoldable pub stop_leading : ℕ → Election → Election
  stop_leading n e = record e {
    controller = set_leader client prefix false e.controller;
    stopping = n;
    without_leader = suc e.without_leader;
  }

  unfoldable pub gauge_stopped : ℕ → Election → Run Election
  gauge_stopped n e = do
    m ← set_leading lib election_id 0 e.metrics
    ok (record e { metrics = m; without_leader = n })

  -- A step that panics has no next state: the program has ended.
  pub data Step : Election → Election → Type 0 where
    acquires : (e : Election) → e.phase ≡ waiting → Step e (acquire e)
    loses : (e : Election) → e.phase ≡ leading → Step e (lose e)
    starts : (e : Election) (n : ℕ) → e.starting ≡ suc n → Step e (on_started_leading n e)
    starts_leading : (e : Election) (n : ℕ) → e.with_channel ≡ suc n → Step e (start_leading n e)
    gauges_started :
        (e e' : Election) (n : ℕ) → e.with_leader ≡ suc n → gauge_started n e ≡ ok e' → Step e e'
    stops : (e e' : Election) → e.phase ≡ lost → on_stopped_leading e ≡ ok e' → Step e e'
    stops_leading : (e : Election) (n : ℕ) → e.stopping ≡ suc n → Step e (stop_leading n e)
    gauges_stopped :
        (e e' : Election) (n : ℕ) → e.without_leader ≡ suc n → gauge_stopped n e ≡ ok e' → Step e e'

  -- From a controller that is not the leader, with new metrics.
  pub data Reached : Election → Type 0 where
    start :
        (n : Controller client) (pod_namespace pod_name ingress_class : Text)
        → n.current_leader ≡ 0
        → Reached (record {
          controller = n;
          metrics = new_collector lib pod_namespace pod_name ingress_class;
          stop_ch = nil_channel;
          phase = waiting;
          starting = 0;
          with_channel = 0;
          with_leader = 0;
          stopping = 0;
          without_leader = 0;
        })
    later : (e e' : Election) → Reached e → Step e e' → Reached e'

  pub data Later (e : Election) : Election → Type 0 where
    here : Later e e
    next : (e' e'' : Election) → Later e e' → Step e' e'' → Later e e''
