-- ===== src/Task/Rounds/Handling.antt =====
-- What rounds keep: the log grows, and they are steps of the state machine.
use wls_ingress.Base.{ℕ, Bool, List, [], ◌∷◌, ◌≡◌, ◌⊎◌, ltb}
use wls_ingress.Base.{refl, sym, ◌∙◌, subst, inl, inr, Bool-cases, Option-cases, In}
use wls_ingress.Task.{
  Element, Taken, item, quit, waits, WorkQueue, Queue, Phase, idle, syncing, exited,
}
use wls_ingress.Task.Machine.{
  Entry, added, skipped, synced, failed, Machine, enqueues, begins, finishes, Reached, later,
  add_entries, begin_entries, taken_entries,
}
use wls_ingress.Task.Rounds.{Arrival, Round, arrive, taken, finished, round, unless_exited, worker}

-- The element was skipped, or a synchronisation of it succeeded or failed.
abbrev pub Handled : Element → List Entry → Type 0
Handled e log = In (skipped e) log ⊎ ((ts : ℕ) × In (synced e ts) log) ⊎ In (failed e) log

Handled-cons : (e : Element) (x : Entry) (log : List Entry) → Handled e log → Handled e (x ∷ log)
Handled-cons e x log (inl i) = inl (inr i)
Handled-cons e x log (inr (inl (ts, i))) = inr (inl (ts, inr i))
Handled-cons e x log (inr (inr i)) = inr (inr (inr i))

module _ (w : WorkQueue) where
  add_entries-Handled :
      (a : Arrival) (e : Element) (q : Queue w) (log : List Entry)
      → Handled e log
      → Handled e (add_entries w a.key a.skippable a.now a.later q log)
  unfolding add_entries
  add_entries-Handled a e q log h = elim (Bool-cases (w.shutting_down q.queue)) [
    | inl down ↦ rw down h
    | inr up ↦ elim (Option-cases a.key) [
      | inl n ↦ rw (up, n) h
      | inr (k, s) ↦ rw (up, s) (Handled-cons e (added _) log h)
    ]
  ]

  taken_entries-Handled :
      (t : Taken w.State) (e : Element) (q : Queue w) (log : List Entry)
      → Handled e log
      → Handled e (taken_entries w t q log)
  unfolding taken_entries
  taken_entries-Handled waits e q log h = h
  taken_entries-Handled (quit s) e q log h = h
  taken_entries-Handled (item x s) e q log h = elim (Bool-cases (ltb x.timestamp q.last_sync)) [
    | inl old ↦ rw old (Handled-cons e (skipped x) log h)
    | inr new ↦ rw new h
  ]

  pub arrive-Handled :
      (calls : List Arrival) (e : Element) (m : Machine w)
      → Handled e m.log
      → Handled e (arrive w calls m).log
  unfolding arrive
  arrive-Handled [] e m h = h
  arrive-Handled (a ∷ calls) e m h =
      arrive-Handled calls e _ (add_entries-Handled a e m.tasks m.log h)

  pub arrive_phase : (calls : List Arrival) (m : Machine w) → (arrive w calls m).phase ≡ m.phase
  unfolding arrive
  arrive_phase [] m = refl
  arrive_phase (a ∷ calls) m = arrive_phase calls _

  arrive-Reached :
      (calls : List Arrival) (m : Machine w) → Reached w m → Reached w (arrive w calls m)
  unfolding arrive
  arrive-Reached [] m h = h
  arrive-Reached (a ∷ calls) m h =
      arrive-Reached calls _ (later m _ h (enqueues m a.key a.skippable a.now a.later))

  finished-Handled :
      (p : Phase) (fails : Bool) (now : ℕ) (e : Element) (m : Machine w)
      → Handled e m.log
      → Handled e (finished w p fails now m).log
  unfolding finished
  finished-Handled idle fails now e m h = h
  finished-Handled exited fails now e m h = h
  finished-Handled (syncing x ts) fails now e m h = Handled-cons e _ m.log h

  round-Handled :
      (r : Round) (e : Element) (m : Machine w) → Handled e m.log → Handled e (round w r m).log
  unfolding round taken begin_entries
  round-Handled r e m h =
      let m' = arrive w r.before m in
      finished-Handled _ r.fails r.ends_at e _ (
        arrive-Handled r.during e (taken w r.begins_at m') (
          taken_entries-Handled (w.get m'.tasks.queue) e m'.tasks m'.log
            (arrive-Handled r.before e m h)))

  unless_exited-keeps :
      (P : Machine w → Type 0) (p : Phase) (m next : Machine w)
      → P m
      → P next
      → P (unless_exited w p m next)
  unfolding unless_exited
  unless_exited-keeps P exited m next h k = h
  unless_exited-keeps P idle m next h k = k
  unless_exited-keeps P (syncing x ts) m next h k = k

  pub worker-Handled :
      (rounds : List Round) (e : Element) (m : Machine w)
      → Handled e m.log
      → Handled e (worker w rounds m).log
  unfolding worker
  worker-Handled [] e m h = h
  worker-Handled (r ∷ rounds) e m h =
      unless_exited-keeps (λ (n : Machine w). Handled e n.log) m.phase m
        (worker w rounds (round w r m)) h
        (worker-Handled rounds e (round w r m) (round-Handled r e m h))

  pub unless_exited_goes_on :
      (p : Phase) (m next : Machine w) → p ≡ idle → unless_exited w p m next ≡ next
  unfolding unless_exited
  unless_exited_goes_on p m next e = rw (e, unless_exited)

  unless_exited_stops : (p : Phase) (m next : Machine w) → p ≡ exited → unless_exited w p m next ≡ m
  unfolding unless_exited
  unless_exited_stops p m next e = rw (e, unless_exited)

  -- The worker is between two rounds.
  abbrev pub Between : Phase → Type 0
  Between p = (p ≡ idle) ⊎ (p ≡ exited)

  finished_lem :
      (p : Phase) (fails : Bool) (now : ℕ) (m : Machine w)
      → m.phase ≡ p
      → Reached w m
      → Between (finished w p fails now m).phase × Reached w (finished w p fails now m)
  unfolding finished
  finished_lem idle fails now m e h = (inl e, h)
  finished_lem exited fails now m e h = (inr e, h)
  finished_lem (syncing x ts) fails now m e h =
      (inl refl, later m _ h (finishes m x ts fails now e))

  round-Reached :
      (r : Round) (m : Machine w)
      → m.phase ≡ idle
      → Reached w m
      → Between (round w r m).phase × Reached w (round w r m)
  unfolding round taken
  round-Reached r m e h =
      let m1 = arrive w r.before m in
      let m2 = taken w r.begins_at m1 in
      let m3 = arrive w r.during m2 in
      let h1 = arrive-Reached r.before m h in
      let h2 = later m1 m2 h1 (begins m1 r.begins_at (arrive_phase r.before m ∙ e)) in
      finished_lem m3.phase r.fails r.ends_at m3 refl (arrive-Reached r.during m2 h2)

  pub worker-Reached :
      (rounds : List Round) (m : Machine w)
      → Between m.phase
      → Reached w m
      → Reached w (worker w rounds m)
  unfolding worker
  worker-Reached [] m b h = h
  worker-Reached (r ∷ rounds) m (inr e) h =
      subst (Reached w) (sym (unless_exited_stops m.phase m (worker w rounds (round w r m)) e)) h
  worker-Reached (r ∷ rounds) m (inl e) h =
      let (b, h') = round-Reached r m e h in
      subst (Reached w) (sym (unless_exited_goes_on m.phase m (worker w rounds (round w r m)) e))
        (worker-Reached rounds (round w r m) b h')
