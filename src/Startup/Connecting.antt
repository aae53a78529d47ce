-- ===== src/Startup/Connecting.antt =====
-- createApiserverClient of cmd/wls/main.go: the client for the API server, and the attempts to reach
-- it. The clients and the exponential backoff are client-go's and apimachinery's.
use wls_ingress.Base.{
  ℕ, zero, suc, ◌<◌, ◌≤◌, ◌+◌, Bool, true, false, Option, none, some, ◌≡◌, ◌∙◌, ap, arith,
}
use wls_ingress.Base.{inl, inr, ◌⊎◌}
use wls_ingress.Base.Text.{Text}

-- What a call of ServerVersion answers.
pub data Answer : Type 0 where
  version : Text → Answer
  error : Text → Answer

-- The variables v, lastErr and retries, and the number of calls of ServerVersion.
pub record Discovery : Type 0 where
  pub calls : ℕ
  pub server_version : Option Text
  pub last_err : Option Text
  pub retries : ℕ

-- The condition that is polled; `answers` are those of the API server, call by call.
unfoldable pub discover : (ℕ → Answer) → Discovery → Bool × Discovery
discover answers d = elim (answers d.calls) [
  | version v ↦ (true, record d { calls = suc d.calls; server_version = some v })
  | error e ↦ (
    false,
    record d {
      calls = suc d.calls;
      server_version = none;
      last_err = some e;
      retries = suc d.retries;
    },
  )
]

-- wait.ExponentialBackoff without its delays: by the number of steps, whether the condition was met.
abbrev pub Backoff : Type 0
Backoff = ℕ → (Discovery → Bool × Discovery) → Discovery → Bool × Discovery

-- Its documentation: it repeats the check until it is met, up to the number of steps.
pub record IsBackoff (backoff : Backoff) : Type 0 where
  pub no_steps :
      (check : Discovery → Bool × Discovery) (d : Discovery) → backoff zero check d ≡ (false, d)
  pub met :
      (n : ℕ) (check : Discovery → Bool × Discovery) (d : Discovery)
      → (check d).0 ≡ true
      → backoff (suc n) check d ≡ check d
  pub not_met :
      (n : ℕ) (check : Discovery → Bool × Discovery) (d : Discovery)
      → (check d).0 ≡ false
      → backoff (suc n) check d ≡ backoff n check (check d).1

-- What createApiserverClient returns: a client and the number of retries, or an error, which may be
-- nil (with a nil client).
pub data Connected (Client : Type 0) : Type 0 where
  connected : Client → (server_version : Option Text) → (retries : ℕ) → Connected Client
  not_connected : Option Text → Connected Client

module _ (Config Client : Type 0) (backoff : Backoff) (answers : ℕ → Answer) where
  abbrev pub initial : Discovery
  initial = record { calls = 0; server_version = none; last_err = none; retries = 0 }

  -- The end of createApiserverClient, after the backoff of 10 steps.
  unfoldable pub discovered : Client → Bool × Discovery → Connected Client
  discovered client (done, d) = elim done [
    | true ↦ connected client d.server_version d.retries
    | false ↦ not_connected d.last_err
  ]

  -- createApiserverClient. BuildConfigFromFlags and NewForConfig give a value or an error.
  unfoldable pub create_apiserver_client :
      (build_config : Text → Text → Config ⊎ Text)
      → (new_for_config : Config → Client ⊎ Text) → Text
      → Text
      → Connected Client
  unfolding discovered discover
  create_apiserver_client build_config new_for_config host kube_config =
      elim (build_config host kube_config) [
        | inr e ↦ not_connected (some e)
        | inl cfg ↦ elim (new_for_config cfg) [
          | inr e ↦ not_connected (some e)
          | inl client ↦ discovered client (backoff 10 (discover answers) initial)
        ]
      ]

-- A lookup in the history of the attempts.
abbrev pub Fails : (ℕ → Answer) → ℕ → Type 0
Fails answers n = (e : Text) × (answers n ≡ error e)

module _ (backoff : Backoff) (laws : IsBackoff backoff) (answers : ℕ → Answer) where
  abbrev after : ℕ → Option Text → Option Text → Discovery
  after n v e = record { calls = n; server_version = v; last_err = e; retries = n }

  step_finds :
      (steps n : ℕ) (v last : Option Text) (x : Text)
      → answers n ≡ version x
      → backoff (suc steps) (discover answers) (after n v last)
        ≡ (true, record (after n (some x) last) { calls = suc n })
  unfolding discover
  step_finds steps n v last x e =
      let found : discover answers (after n v last)
          ≡ (true, record (after n (some x) last) { calls = suc n }) =
        rw (e, discover) in
      laws.met steps (discover answers) (after n v last) (ap (λ (r : Bool × Discovery). r.0) found)
      ∙ found

  step_fails :
      (steps n : ℕ) (v last : Option Text) (e : Text)
      → answers n ≡ error e
      → backoff (suc steps) (discover answers) (after n v last)
        ≡ backoff steps (discover answers) (after (suc n) none (some e))
  unfolding discover
  step_fails steps n v last e f =
      let missed : discover answers (after n v last) ≡ (false, after (suc n) none (some e)) =
        rw (f, discover) in
      laws.not_met steps (discover answers) (after n v last)
        (ap (λ (r : Bool × Discovery). r.0) missed)
      ∙ ap (λ (r : Bool × Discovery). backoff steps (discover answers) r.1) missed

  -- An attempt succeeds in time.
  backoff_finds :
      (steps i n m : ℕ) (v last : Option Text) (x : Text)
      → m ≡ n + i
      → i < steps
      → ((j : ℕ) → n ≤ j → j < m → Fails answers j)
      → answers m ≡ version x
      → (last' : Option Text) × (backoff steps (discover answers) (after n v last)
          ≡ (true, record (after m (some x) last') { calls = suc m }))
  backoff_finds zero i n m v last x e lt all found = absurd (omega arith)
  backoff_finds (suc steps) zero n m v last x e lt all found =
      let here : m ≡ n = omega arith in
      (last, rw here (step_finds steps n v last x (rw here at found)))
  backoff_finds (suc steps) (suc i) n m v last x e lt all found =
      let (err, f) = all n (omega arith) (omega arith) in
      let (last', g) =
        backoff_finds steps i (suc n) m none (some err) x (omega arith) (omega arith)
          (λ j le l. all j (omega arith) l) found in
      (last', step_fails steps n v last err f ∙ g)

  -- Every attempt fails, and so does one at least.
  backoff-Fails :
      (steps n m : ℕ) (v last : Option Text) (e : Text)
      → m ≡ n + steps
      → ((j : ℕ) → n ≤ j → j < suc m → Fails answers j)
      → answers m ≡ error e
      → backoff (suc steps) (discover answers) (after n v last)
        ≡ (false, after (suc m) none (some e))
  backoff-Fails zero n m v last e h all end =
      let here : m ≡ n = omega arith in
      rw here (
        step_fails zero n v last e (rw here at end)
        ∙ laws.no_steps (discover answers) (after (suc n) none (some e)))
  backoff-Fails (suc steps) n m v last e h all end =
      let (err, f) = all n (omega arith) (omega arith) in
      step_fails (suc steps) n v last err f
      ∙ backoff-Fails steps (suc n) m none (some err) e (omega arith)
          (λ j le l. all j (omega arith) l) end

-- If the configuration and the client can be made, createApiserverClient returns the client exactly
-- when one of the first ten calls of ServerVersion succeeds, with the version of the first that
-- does and the number of calls that failed before. If all ten fail it returns the error of the
-- last, which is not nil, so that the caller sees it.
pub create_apiserver_client_retries :
    (Config Client : Type 0) (backoff : Backoff) (answers : ℕ → Answer)
    (build_config : Text → Text → Config ⊎ Text) (new_for_config : Config → Client ⊎ Text)
    (host kube_config : Text) (cfg : Config) (client : Client)
    → IsBackoff backoff
    → build_config host kube_config ≡ inl cfg
    → new_for_config cfg ≡ inl client
    → ((m : ℕ) (x : Text)
        → m < 10
        → ((j : ℕ) → j < m → Fails answers j)
        → answers m ≡ version x
        → create_apiserver_client Config Client backoff answers build_config new_for_config host
            kube_config
          ≡ connected client (some x) m)
      × ((e : Text)
          → ((j : ℕ) → j < 10 → Fails answers j)
          → answers 9 ≡ error e
          → create_apiserver_client Config Client backoff answers build_config new_for_config host
              kube_config
            ≡ not_connected (some e))
unfolding create_apiserver_client discovered
create_apiserver_client_retries Config Client backoff answers build_config new_for_config host
      kube_config cfg client laws made usable =
    (
      λ m x lt all found.
          let (last, e) =
            backoff_finds backoff laws answers 10 m 0 m none none x (omega arith) lt
              (λ j le l. all j l) found in
          rw (made, create_apiserver_client, usable)
            (ap (discovered Config Client backoff answers client) e),
      λ e all end.
          let f =
            backoff-Fails backoff laws answers 9 0 9 none none e (omega arith) (λ j le l. all j l)
              end in
          rw (made, create_apiserver_client, usable)
            (ap (discovered Config Client backoff answers client) f),
    )
