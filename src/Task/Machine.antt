-- ===== src/Task/Machine.antt =====
-- The queue with its worker as a state machine: event handlers add elements and the worker takes
-- its steps in any order. A log, newest entry first, keeps what happened.
use wls_ingress.Base.{ℕ, Bool, false, List, [], ◌∷◌, Option, none, some, ◌≡◌, if◌then◌else◌, ltb}
use wls_ingress.Base.Text.{Text}
use wls_ingress.Task.{
  Element, Taken, item, quit, waits, WorkQueue, Queue, Phase, idle, syncing, element, enqueue,
  begin_round, finish_round, shutdown,
}

pub data Entry : Type 0 where
  added : Element → Entry
  skipped : Element → Entry
  -- The time is that at which the synchronisation began.
  synced : Element → ℕ → Entry
  failed : Element → Entry

module _ (w : WorkQueue) where
  pub record Machine : Type 0 where
    pub tasks : Queue w
    pub phase : Phase
    pub log : List Entry

  -- What enqueue adds, if anything.
  unfoldable pub add_entries : Option Text → Bool → ℕ → ℕ → Queue w → List Entry → List Entry
  add_entries key skippable now now' q log =
      if w.shutting_down q.queue
      then log
      else elim key [ none ↦ log | some k ↦ added (element w k skippable now now') ∷ log ]

  unfoldable pub taken_entries : Taken w.State → Queue w → List Entry → List Entry
  taken_entries waits q log = log
  taken_entries (quit s) q log = log
  taken_entries (item e s) q log = if ltb e.timestamp q.last_sync then skipped e ∷ log else log

  unfoldable pub begin_entries : Queue w → List Entry → List Entry
  unfolding taken_entries
  begin_entries q log = taken_entries (w.get q.queue) q log

  pub data Step : Machine → Machine → Type 0 where
    enqueues :
        (m : Machine) (key : Option Text) (skippable : Bool) (now now' : ℕ)
        → Step m (record m {
          tasks = enqueue w key skippable now now' m.tasks;
          log = add_entries key skippable now now' m.tasks m.log;
        })
    begins :
        (m : Machine) (now : ℕ)
        → m.phase ≡ idle
        → Step m (record {
          tasks = (begin_round w now m.tasks).1;
          phase = (begin_round w now m.tasks).0;
          log = begin_entries m.tasks m.log;
        })
    finishes :
        (m : Machine) (e : Element) (ts : ℕ) (fails : Bool) (now : ℕ)
        → m.phase ≡ syncing e ts
        → Step m (record {
          tasks = finish_round w e ts fails now m.tasks;
          phase = idle;
          log = (if fails then failed e else synced e ts) ∷ m.log;
        })
    shuts_down : (m : Machine) → Step m (record m { tasks = shutdown w m.tasks })

  -- From a new queue.
  pub data Reached : Machine → Type 0 where
    start :
        (s : w.State)
        → Reached (record {
          tasks = record { queue = s; last_sync = 0; worker_done = false };
          phase = idle;
          log = [];
        })
    later : (m m' : Machine) → Reached m → Step m m' → Reached m'
