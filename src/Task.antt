-- ===== src/Task.antt =====
-- internal/task/queue.go: the task queue, from the event handlers to the synchronisation. The
-- rate limited work queue is client-go's, a parameter; so are the clock (nanoseconds, far from the
-- end of int64) and the result of the sync function.
pub mod Machine
pub mod Covered
pub mod Outstanding
pub mod Rounds
pub mod Memory
mod Tests
use wls_ingress.Base.{ℕ, ◌+◌, Bool, true, false, List, Option, none, some, if◌then◌else◌, ltb}
use wls_ingress.Base.Text.{Text}

pub record Element : Type 0 where
  pub key : Text
  pub timestamp : ℕ
  pub is_skippable : Bool

-- What Get does: it returns an element, or reports that the queue is shut down, or waits.
pub data Taken (S : Type 0) : Type 0 where
  item : Element → S → Taken S
  quit : S → Taken S
  waits : Taken S

-- workqueue.RateLimitingInterface
pub record WorkQueue : Type 1 where
  pub State : Type 0
  pub add : Element → State → State
  pub get : State → Taken State
  pub forget : Element → State → State
  pub done : Element → State → State
  pub add_rate_limited : Element → State → State
  pub shut_down : State → State
  pub shutting_down : State → Bool

-- The fields of Queue that change, `worker_done` for the closed channel.
pub record Queue (w : WorkQueue) : Type 0 where
  pub queue : w.State
  pub last_sync : ℕ
  pub worker_done : Bool

-- Where the worker is in its loop: before Get, in sync with an element since a time, or returned.
pub data Phase : Type 0 where
  idle : Phase
  syncing : Element → ℕ → Phase
  exited : Phase

-- 24 * time.Hour
abbrev pub day : ℕ
day = 86400000000000

module _ (w : WorkQueue) where
  -- The element that enqueue adds; it leaves IsSkippable at its zero value.
  unfoldable pub element : Text → Bool → ℕ → ℕ → Element
  element key skippable now now' = record {
    key = key;
    timestamp = if skippable then now else now' + day;
    is_skippable = false;
  }

  -- enqueue: `key` is the result of fn, `now` and `now'` are the two readings of the clock.
  unfoldable pub enqueue : Option Text → Bool → ℕ → ℕ → Queue w → Queue w
  unfolding element
  enqueue key skippable now now' q = if w.shutting_down q.queue then q else elim key [
    | none ↦ q
    | some k ↦ record q { queue = w.add (element k skippable now now') q.queue }
  ]

  -- What worker does with the result of Get, up to the call of sync; `now` is `ts`.
  unfoldable pub on_taken : Taken w.State → ℕ → Queue w → Phase × Queue w
  on_taken waits now q = (idle, q)
  on_taken (quit s) now q = (exited, record q { queue = s; worker_done = true })
  on_taken (item e s) now q =
      if ltb e.timestamp q.last_sync
      then (idle, record q { queue = w.done e (w.forget e s) })
      else (syncing e now, record q { queue = s })

  -- The first half of a round of worker.
  unfoldable pub begin_round : ℕ → Queue w → Phase × Queue w
  unfolding on_taken
  begin_round now q = on_taken (w.get q.queue) now q

  -- The second half, after sync with its result; `now` is the timestamp of a new attempt.
  unfoldable pub finish_round : Element → ℕ → Bool → ℕ → Queue w → Queue w
  finish_round e ts failed now q =
      if failed
      then record q {
        queue = w.done e (
            w.add_rate_limited (record { key = e.key; timestamp = now; is_skippable = false })
              q.queue);
      }
      else record q { queue = w.done e (w.forget e q.queue); last_sync = ts }

  -- Shutdown, without the wait for the worker.
  unfoldable pub shutdown : Queue w → Queue w
  shutdown q = record q { queue = w.shut_down q.queue }
