-- ===== src/Task/Rounds/Progress.antt =====
-- Every element that waits is handled.
use wls_ingress.Base.{
  ℕ, ◌≤◌, ◌<◌, Bool, true, false, List, [], ◌∷◌, ◌++◌, append_assoc, append-nil, ◌≡◌, ◌⊎◌, length,
  ltb,
}
use wls_ingress.Base.{refl, sym, ap, ◌∙◌, subst, arith, inl, inr, Bool-cases, Option-cases, In}
use wls_ingress.Task.{
  Element, item, WorkQueue, Queue, Phase, idle, syncing, element, enqueue, begin_round,
  finish_round, on_taken,
}
use wls_ingress.Task.Machine.{
  Entry, added, skipped, synced, failed, Machine, Reached, begin_entries, taken_entries,
}
use wls_ingress.Task.Covered.{Covered, Reached-Covered}
use wls_ingress.Task.Rounds.{Arrival, Round, arrive, taken, finished, round, worker}
use wls_ingress.Task.Rounds.Handling.{
  Handled, arrive-Handled, arrive_phase, worker-Handled, unless_exited_goes_on, worker-Reached,
}

-- What client-go documents of the order: an element that Get can return at once waits in a line,
-- Get returns the first of it, and whatever is added, also by Done and by a rate limit that ends,
-- goes to its end.
pub record IsFair (w : WorkQueue) : Type 0 where
  pub line : w.State → List Element
  pub get_first :
      (e : Element) (es : List Element) (s : w.State)
      → line s ≡ e ∷ es
      → (s' : w.State) × (w.get s ≡ item e s') × (line s' ≡ es)
  pub add_behind :
      (e : Element) (s : w.State) → (more : List Element) × (line (w.add e s) ≡ line s ++ more)
  pub limited_behind :
      (e : Element) (s : w.State)
      → (more : List Element) × (line (w.add_rate_limited e s) ≡ line s ++ more)
  pub forget_line : (e : Element) (s : w.State) → line (w.forget e s) ≡ line s
  pub done_behind :
      (e : Element) (s : w.State) → (more : List Element) × (line (w.done e s) ≡ line s ++ more)

abbrev SyncedAfter : Element → List Entry → Type 0
SyncedAfter e log = (e' : Element) × (ts : ℕ) × In (synced e' ts) log × e.timestamp < ts

older_one :
    (x : Entry) (e : Element) (log : List Entry) → SyncedAfter e log → SyncedAfter e (x ∷ log)
older_one x e log (e', ts, j, t) = (e', ts, inr j, t)

synced_of_Covered :
    (e : Element) (log : List Entry) → Covered log → In (skipped e) log → SyncedAfter e log
synced_of_Covered e [] c i = elim i [ ]
synced_of_Covered e (skipped x ∷ log) ((e', ts, j, t), c) i = elim i [
  | inl same ↦
      let eq : x ≡ e = cc in (e', ts, inr j, subst (λ (y : Element). y.timestamp < ts) eq t)
  | inr k ↦ older_one (skipped x) e log (synced_of_Covered e log c k)
]
synced_of_Covered e (added x ∷ log) c i = elim i [
  | inl same ↦ cc
  | inr k ↦ older_one (added x) e log (synced_of_Covered e log c k)
]
synced_of_Covered e (synced x ts ∷ log) c i = elim i [
  | inl same ↦ cc
  | inr k ↦ older_one (synced x ts) e log (synced_of_Covered e log c k)
]
synced_of_Covered e (failed x ∷ log) c i = elim i [
  | inl same ↦ cc
  | inr k ↦ older_one (failed x) e log (synced_of_Covered e log c k)
]

module _ (w : WorkQueue) (fair : IsFair w) where
  open fair use {line}

  -- The line begins with these elements.
  abbrev Front : List Element → w.State → Type 0
  Front es s = (more : List Element) × (line s ≡ es ++ more)

  Front-behind :
      (es more : List Element) (s s' : w.State)
      → line s' ≡ line s ++ more
      → Front es s
      → Front es s'
  Front-behind es more s s' h (rest, e) =
      (rest ++ more, h ∙ ap (λ (l : List Element). l ++ more) e ∙ append_assoc es rest more)

  enqueue-Front :
      (a : Arrival) (es : List Element) (q : Queue w)
      → Front es q.queue
      → Front es (enqueue w a.key a.skippable a.now a.later q).queue
  unfolding enqueue
  enqueue-Front a es q h = elim (Bool-cases (w.shutting_down q.queue)) [
    | inl down ↦ rw down h
    | inr up ↦ elim (Option-cases a.key) [
      | inl e ↦ rw (up, e) h
      | inr (k, e) ↦
          let x = element w k a.skippable a.now a.later in
          let (more, b) = fair.add_behind x q.queue in
          rw (up, e) (Front-behind es more q.queue (w.add x q.queue) b h)
    ]
  ]

  -- What calls of enqueue leave alone.
  arrive-Front :
      (calls : List Arrival) (es : List Element) (m : Machine w)
      → Front es m.tasks.queue
      → Front es (arrive w calls m).tasks.queue
  unfolding arrive
  arrive-Front [] es m h = h
  arrive-Front (a ∷ calls) es m h = arrive-Front calls es _ (enqueue-Front a es m.tasks h)

  -- After Get on a line that begins with an element: it is skipped, or it is to be synchronised.
  taken-Front :
      (x : Element) (es : List Element) (now : ℕ) (m : Machine w)
      → Front (x ∷ es) m.tasks.queue
      → Front es (taken w now m).tasks.queue
        × ((((taken w now m).phase ≡ idle) × In (skipped x) (taken w now m).log)
            ⊎ ((taken w now m).phase ≡ syncing x now))
  unfolding taken begin_round begin_entries on_taken taken_entries
  taken-Front x es now m (more, e) =
      let (s', g, l) = fair.get_first x (es ++ more) m.tasks.queue e in
      elim (Bool-cases (ltb x.timestamp m.tasks.last_sync)) [
        | inl old ↦
            let (rest, d) = fair.done_behind x (w.forget x s') in
            rw (g, on_taken, taken_entries, old)
              (
                Front-behind es rest s' (w.done x (w.forget x s'))
                    (d ∙ ap (λ (ln : List Element). ln ++ rest) (fair.forget_line x s')) (more, l),
                inl (refl, inl refl),
              )
        | inr new ↦ rw (g, on_taken, taken_entries, new) ((more, l), inr refl)
      ]

  finish_round-Front :
      (es : List Element) (x : Element) (ts : ℕ) (fails : Bool) (now : ℕ) (q : Queue w)
      → Front es q.queue
      → Front es (finish_round w x ts fails now q).queue
  unfolding finish_round
  finish_round-Front es x ts true now q h =
      let again : Element = record { key = x.key; timestamp = now; is_skippable = false } in
      let (more, a) = fair.limited_behind again q.queue in
      let s = w.add_rate_limited again q.queue in
      let (rest, d) = fair.done_behind x s in
      Front-behind es rest s (w.done x s) d (Front-behind es more q.queue s a h)
  finish_round-Front es x ts false now q h =
      let (rest, d) = fair.done_behind x (w.forget x q.queue) in
      Front-behind es rest q.queue (w.done x (w.forget x q.queue))
        (d ∙ ap (λ (ln : List Element). ln ++ rest) (fair.forget_line x q.queue)) h

  finished-Front :
      (es : List Element) (x : Element) (ts : ℕ) (p : Phase) (fails : Bool) (now : ℕ)
      (m : Machine w)
      → Front es m.tasks.queue
      → ((p ≡ idle) × (m.phase ≡ idle) × Handled x m.log) ⊎ (p ≡ syncing x ts)
      → ((finished w p fails now m).phase ≡ idle)
        × Front es (finished w p fails now m).tasks.queue
        × Handled x (finished w p fails now m).log
  unfolding finished
  finished-Front es x ts p fails now m f (inl (e, i, h)) = rw (e, finished) (i, f, h)
  finished-Front es x ts p true now m f (inr e) =
      rw (e, finished) (refl, finish_round-Front es x ts true now m.tasks f, inr (inr (inl refl)))
  finished-Front es x ts p false now m f (inr e) =
      rw (e, finished)
        (refl, finish_round-Front es x ts false now m.tasks f, inr (inl (ts, inl refl)))

  -- A round handles the first element of the line.
  round-Front :
      (r : Round) (x : Element) (es : List Element) (m : Machine w)
      → Front (x ∷ es) m.tasks.queue
      → ((round w r m).phase ≡ idle)
        × Front es (round w r m).tasks.queue
        × Handled x (round w r m).log
  unfolding round
  round-Front r x es m f =
      let m1 = arrive w r.before m in
      let m2 = taken w r.begins_at m1 in
      let m3 = arrive w r.during m2 in
      let (f2, t) = taken-Front x es r.begins_at m1 (arrive-Front r.before (x ∷ es) m f) in
      let here = arrive_phase w r.during m2 in
      finished-Front es x r.begins_at m3.phase r.fails r.ends_at m3 (arrive-Front r.during es m2 f2)
        (elim t [
          | inl (i, h) ↦ inl (here ∙ i, here ∙ i, arrive-Handled w r.during x m2 (inl h))
          | inr b ↦ inr (here ∙ b)
        ])

  worker-Front :
      (rounds : List Round) (x : Element) (es : List Element) (m : Machine w)
      → m.phase ≡ idle
      → In x es
      → Front es m.tasks.queue
      → length es ≤ length rounds
      → Handled x (worker w rounds m).log
  unfolding worker
  worker-Front rounds x [] m p i f h = elim i [ ]
  worker-Front [] x (y ∷ es) m p i f h = absurd (omega arith)
  worker-Front (r ∷ rounds) x (y ∷ es) m p i f h =
      let (q, f', d) = round-Front r y es m f in
      subst (λ (n : Machine w). Handled x n.log)
        (sym (unless_exited_goes_on w m.phase m (worker w rounds (round w r m)) p))
        (elim i [
          | inl same ↦
              worker-Handled w rounds x (round w r m)
                (subst (λ (z : Element). Handled z (round w r m).log) (sym same) d)
          | inr j ↦ worker-Front rounds x es (round w r m) q j f' (omega arith)
        ])

  -- On a work queue that is first in, first out, an element that waits is not starved, whatever is
  -- added meanwhile and whatever fails: after as many rounds of the worker as elements waited at
  -- the start, its synchronisation failed (so that it was queued again), or a synchronisation of it
  -- or one that began after its timestamp succeeded.
  pub worker_serves :
      (rounds : List Round) (e : Element) (m : Machine w)
      → Reached w m
      → m.phase ≡ idle
      → In e (line m.tasks.queue)
      → length (line m.tasks.queue) ≤ length rounds
      → In (failed e) (worker w rounds m).log
        ⊎ ((e' : Element) × (ts : ℕ) × In (synced e' ts) (worker w rounds m).log
            × ((e' ≡ e) ⊎ (e.timestamp < ts)))
  worker_serves rounds e m reached p i h =
      let m' = worker w rounds m in
      elim (worker-Front rounds e (line m.tasks.queue) m p i
        ([], sym (append-nil (line m.tasks.queue))) h) [
          | inl skip ↦
              let (e', ts, j, t) =
                synced_of_Covered e m'.log
                  (Reached-Covered w m' (worker-Reached w rounds m (inl p) reached)) skip in
              inr (e', ts, j, inr t)
          | inr (inl (ts, j)) ↦ inr (e, ts, j, inl refl)
          | inr (inr j) ↦ inl j
        ]
