-- ===== src/Task/Tests.antt =====
-- Runs of the task queue on a work queue in memory, and the theorems at them.
use wls_ingress.Base.{ℕ, true, false, [], ◌∷◌, some, ◌≡◌}
use wls_ingress.Base.{none, ◌<◌, arith, In, inl, ◌⊎◌, refl}
use wls_ingress.Base.Text.{codes, ◌==◌}
use wls_ingress.Task.{Element, idle, element, enqueue, on_taken, begin_round, finish_round}
use wls_ingress.Task.Machine.{
  added, skipped, synced, failed, Machine, enqueues, begins, finishes, Reached, start, later,
  add_entries, begin_entries, taken_entries,
}
use wls_ingress.Task.Rounds.{Round, arrive, taken, finished, round, unless_exited, worker}
use wls_ingress.Task.Rounds.Progress.{worker_serves}
use wls_ingress.Task.Outstanding.{outstanding, Kept, Reached-Kept}
use wls_ingress.Task.Memory.{take_first, memory, memory-IsWorkQueue, memory-IsFair, task, empty}

-- Two tasks, one of them synchronised and the other skipped.
abbrev after_skip : Machine memory
after_skip = record {
  tasks = record { queue = empty; last_sync = 10; worker_done = false };
  phase = idle;
  log =
      skipped (task (codes "b") 6)
      ∷ synced (task (codes "a") 5) 10
      ∷ added (task (codes "b") 6)
      ∷ added (task (codes "a") 5)
      ∷ [];
}

after_skip-Reached : Reached memory after_skip
unfolding enqueue element begin_round on_taken finish_round add_entries begin_entries taken_entries
    take_first
after_skip-Reached =
    later _ _
      (later _ _
        (later _ _
          (later _ _ (later _ _ (start empty) (enqueues _ (some (codes "a")) true 5 5))
            (enqueues _ (some (codes "b")) true 6 6))
          (begins _ 10 refl))
        (finishes _ (task (codes "a") 5) 10 false 11 refl))
      (begins _ 12 refl)

-- A task whose synchronisation failed.
abbrev after_failure : Machine memory
after_failure = record {
  tasks = record {
    queue = record { elements = task (codes "a") 11 ∷ []; down = false };
    last_sync = 0;
    worker_done = false;
  };
  phase = idle;
  log = failed (task (codes "a") 5) ∷ added (task (codes "a") 5) ∷ [];
}

after_failure-Reached : Reached memory after_failure
unfolding enqueue element begin_round on_taken finish_round add_entries begin_entries taken_entries
    take_first
after_failure-Reached =
    later _ _
      (later _ _ (later _ _ (start empty) (enqueues _ (some (codes "a")) true 5 5))
        (begins _ 10 refl))
      (finishes _ (task (codes "a") 5) 10 true 11 refl)

Reached-Kept_example : Kept memory memory-IsWorkQueue (codes "a") after_failure
unfolding outstanding ◌==◌
Reached-Kept_example =
    Reached-Kept memory memory-IsWorkQueue after_failure after_failure-Reached refl (codes "a") refl

-- Another task arrives before the round, and one while the first is synchronised.
abbrev one_round : Round
one_round = record {
  before = record { key = some (codes "b"); skippable = true; now = 12; later = 12 } ∷ [];
  begins_at = 13;
  during = record { key = none; skippable = false; now = 14; later = 14 } ∷ [];
  fails = false;
  ends_at = 15;
}

one_round_log :
    (worker memory (one_round ∷ []) after_failure).log
    ≡ synced (task (codes "a") 11) 13 ∷ added (task (codes "b") 12) ∷ after_failure.log
unfolding worker unless_exited round arrive taken finished enqueue element begin_round on_taken
    finish_round add_entries begin_entries taken_entries take_first
one_round_log = refl

worker_serves_example :
    In (failed (task (codes "a") 11)) (worker memory (one_round ∷ []) after_failure).log
    ⊎ ((e' : Element) × (ts : ℕ) × In
          (synced e' ts)
          (worker memory (one_round ∷ []) after_failure).log
        × ((e' ≡ task (codes "a") 11) ⊎ (11 < ts)))
unfolding memory-IsFair
worker_serves_example =
    worker_serves memory memory-IsFair (one_round ∷ []) (task (codes "a") 11) after_failure
      after_failure-Reached refl (inl refl) (omega arith)
