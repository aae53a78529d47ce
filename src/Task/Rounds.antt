-- ===== src/Task/Rounds.antt =====
-- The loop of worker in internal/task/queue.go, round by round, while event handlers add elements
-- between Get and Done and between two rounds.
pub mod Handling
pub mod Progress
use wls_ingress.Base.{ℕ, Bool, List, [], ◌∷◌, Option, if◌then◌else◌}
use wls_ingress.Base.Text.{Text}
use wls_ingress.Task.{
  Element, WorkQueue, Phase, idle, syncing, exited, enqueue, begin_round, finish_round,
}
use wls_ingress.Task.Machine.{failed, synced, Machine, add_entries, begin_entries}

-- A call of enqueue: the key of the object and the readings of the clock.
pub record Arrival : Type 0 where
  pub key : Option Text
  pub skippable : Bool
  pub now : ℕ
  pub later : ℕ

-- What a round meets: the calls before Get, the clock after it, the calls while sync runs, the
-- result of sync, and the clock for a new attempt.
pub record Round : Type 0 where
  pub before : List Arrival
  pub begins_at : ℕ
  pub during : List Arrival
  pub fails : Bool
  pub ends_at : ℕ

module _ (w : WorkQueue) where
  unfoldable pub arrive : List Arrival → Machine w → Machine w
  arrive [] m = m
  arrive (a ∷ more) m = arrive more (record m {
    tasks = enqueue w a.key a.skippable a.now a.later m.tasks;
    log = add_entries w a.key a.skippable a.now a.later m.tasks m.log;
  })

  -- The first half of a round.
  unfoldable pub taken : ℕ → Machine w → Machine w
  taken now m = record {
    tasks = (begin_round w now m.tasks).1;
    phase = (begin_round w now m.tasks).0;
    log = begin_entries w m.tasks m.log;
  }

  -- The second half, if an element is to be synchronised.
  unfoldable pub finished : Phase → Bool → ℕ → Machine w → Machine w
  finished idle fails now m = m
  finished exited fails now m = m
  finished (syncing e ts) fails now m = record {
    tasks = finish_round w e ts fails now m.tasks;
    phase = idle;
    log = (if fails then failed e else synced e ts) ∷ m.log;
  }

  -- A round of worker: after Get, before and after sync.
  unfoldable pub round : Round → Machine w → Machine w
  round r m =
      let m' = arrive r.during (taken r.begins_at (arrive r.before m)) in
      finished m'.phase r.fails r.ends_at m'

  unfoldable pub unless_exited : Phase → Machine w → Machine w → Machine w
  unless_exited exited m next = m
  unless_exited idle m next = next
  unless_exited (syncing e ts) m next = next

  -- worker, which makes rounds until the queue quits.
  unfoldable pub worker : List Round → Machine w → Machine w
  worker [] m = m
  worker (r ∷ rounds) m = let next = worker rounds (round r m) in unless_exited m.phase m next
