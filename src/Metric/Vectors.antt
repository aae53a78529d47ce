-- ===== src/Metric/Vectors.antt =====
-- What is relied on of the vectors of prometheus, and what follows for the metrics.
use wls_ingress.Base.{ℕ, ◌+◌, List, [], ◌∷◌, none, some, ◌≡◌, refl, arith, inl, inr}
use wls_ingress.Base.{length, ap}
use wls_ingress.Base.Text.{Text, codes}
use wls_ingress.Base.Maps.{Map}
use wls_ingress.Base.Run.{ok, panic, Run-cases}
use wls_ingress.Metric.{
  Prometheus, operation, Metrics, new_metrics, new_collector, inc_cookie_count, set_leading,
}

-- A vector has the labels it was made with. Set changes the value that it is told, and does not
-- panic on as many values as there are labels; the chain to Inc panics unless the labels that are
-- curried and those that are given are together as many.
pub record IsPrometheus (lib : Prometheus) : Type 0 where
  pub names : lib.Vec → List Text
  pub names_new : (labels : List Text) → names (lib.new_vec labels) ≡ labels
  pub value_new : (labels values : List Text) → lib.value values (lib.new_vec labels) ≡ none
  pub set_runs :
      (values : List Text) (x : ℕ) (v : lib.Vec)
      → length values ≡ length (names v)
      → (v' : lib.Vec) × (lib.set_with values x v ≡ ok v')
  pub set_names :
      (values : List Text) (x : ℕ) (v v' : lib.Vec)
      → lib.set_with values x v ≡ ok v'
      → names v' ≡ names v
  pub set_value :
      (values : List Text) (x : ℕ) (v v' : lib.Vec)
      → lib.set_with values x v ≡ ok v'
      → lib.value values v' ≡ some x
  pub inc_names :
      (curried labels : Map Text) (v v' : lib.Vec)
      → lib.inc_curried curried labels v ≡ ok v'
      → length curried + length labels ≡ length (names v)

module _ (lib : Prometheus) (laws : IsPrometheus lib) where
  -- The gauge takes one label.
  abbrev pub OneLabel : Metrics lib → Type 0
  OneLabel cm = length (laws.names cm.leader_election) ≡ 1

  pub new_collector-OneLabel :
      (namespace pod ingress_class : Text)
      → OneLabel (new_collector lib namespace pod ingress_class)
  unfolding new_collector new_metrics
  new_collector-OneLabel namespace pod ingress_class = rw (laws.names_new (codes "name" ∷ [])) refl

  -- The gauge can be set, and then has the value.
  pub set_leading_lem :
      (election_id : Text) (x : ℕ) (cm : Metrics lib)
      → OneLabel cm
      → (cm' : Metrics lib) × (set_leading lib election_id x cm ≡ ok cm')
        × OneLabel cm'
        × (lib.value (election_id ∷ []) cm'.leader_election ≡ some x)
  unfolding set_leading
  set_leading_lem election_id x cm one =
      let (v, e) = laws.set_runs (election_id ∷ []) x cm.leader_election (omega (arith, one)) in
      let names = laws.set_names (election_id ∷ []) x cm.leader_election v e in
      (
        record cm { leader_election = v },
        rw e refl,
        rw names one,
        laws.set_value (election_id ∷ []) x cm.leader_election v e,
      )

  -- A cookie cannot be counted: the labels are curried already, and two more are given.
  pub inc_cookie_count_panics :
      (pod_namespace pod_name ingress_class namespace name : Text)
      → inc_cookie_count lib namespace name (new_collector lib pod_namespace pod_name ingress_class)
        ≡ panic
  unfolding inc_cookie_count new_collector new_metrics
  inc_cookie_count_panics pod_namespace pod_name ingress_class namespace name =
      let cm = new_collector lib pod_namespace pod_name ingress_class in
      let labels : Map Text = (codes "namespace", namespace) ∷ (codes "ingress", name) ∷ [] in
      elim (Run-cases (lib.inc_curried cm.const_labels labels cm.cookie_adds)) [
        | inl p ↦ rw p refl
        | inr (v, e) ↦
            let few = laws.inc_names cm.const_labels labels cm.cookie_adds v e in
            absurd (omega (arith, few, ap length (laws.names_new operation)))
      ]
